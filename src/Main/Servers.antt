-- ===== src/Main/Servers.antt =====
-- src/main.cpp: the thread that starts MessengerServer.
use apk.Base.{subst, sym, ℕ, zero, suc, ◌≡◌, refl, Bool, true, false, if◌then◌else◌}
use apk.Base.Outcome.{Outcome, done, threw, blocked, undefined, Action, then_do, ◌>>=◌, give}
use apk.Json.{Json}
use apk.Redis.{Hiredis}
use apk.Server.{Server}
use apk.Server.Lifecycle.{start}

module _ (json : Json) (h : Hiredis) where
  -- while (!ws_server->start() && attempts < 5), with that many attempts left; the result is that of
  -- the last call.
  unfoldable pub start_in_background : ℕ → Action (Server json h) Bool
  start_in_background zero = start json h
  start_in_background (suc left) =
      let retry = start_in_background left in start json h >>= λ up. if up then give true else retry

  -- A call that returns only true, with the server running.
  abbrev pub Starts : Outcome (Server json h) Bool → Type 0
  Starts (done up s) = (up ≡ true) × (s.running ≡ true)
  Starts (threw s) = Unit {0}
  Starts (blocked s) = Unit {0}
  Starts undefined = Unit {0}

  branch-Starts :
      (b : Bool) (o o' : Outcome (Server json h) Bool)
      → (b ≡ true → Starts o)
      → Starts o'
      → Starts (if b then o else o')
  branch-Starts true o o' k l = k refl
  branch-Starts false o o' k l = l

  running-Starts :
      (o : Outcome (Server json h) Bool)
      → Starts (then_do o (λ connected s. done true (record s { running = true })))
  running-Starts (done connected s) = (refl, refl)
  running-Starts (threw s) = tt
  running-Starts (blocked s) = tt
  running-Starts undefined = tt

  start-Starts : (s : Server json h) → Starts (start json h s)
  unfolding start
  start-Starts s = branch-Starts s.running _ _ (λ up. (refl, up)) (running-Starts _)

  first-Starts :
      (o : Outcome (Server json h) Bool) (retry : Action (Server json h) Bool)
      → Starts o
      → then_do o (λ up. if up then give true else retry) ≡ o
  first-Starts (done up s) retry (is_up, running) = rw is_up refl
  first-Starts (threw s) retry starts = refl
  first-Starts (blocked s) retry starts = refl
  first-Starts undefined retry starts = refl

  -- However many attempts are left, the thread calls `start` once: where that call returns at all,
  -- the server runs, whether Redis has been reached or not, and no attempt is used up. The loop
  -- never gives up.
  pub start_in_background-start :
      (left : ℕ) (s : Server json h)
      → (start_in_background left s ≡ start json h s) × Starts (start_in_background left s)
  unfolding start_in_background
  start_in_background-start zero s = (refl, start-Starts s)
  start_in_background-start (suc left) s =
      let once = first-Starts (start json h s) (start_in_background left) (start-Starts s) in
      (once, subst Starts (sym once) (start-Starts s))
