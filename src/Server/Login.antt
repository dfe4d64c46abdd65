-- ===== src/Server/Login.antt =====
-- How a login ends.
use apk.Base.{ℕ, ◌≡◌, refl, Bool, true, false, some, [], Bool-cases, inl, inr}
use apk.Base.Text.{Str, lit}
use apk.Base.Outcome.{Outcome, done, threw, blocked, undefined, Action, then_do, ◌>>=◌, ◌>>◌}
use apk.Json.{Json}
use apk.Connection.{WebSocketConnection, set_user_id, set_session_id, mark_authenticated}
use apk.Pool.{get_connection, write, register_user}
use apk.Redis.{Hiredis}
use apk.Encryption.Keys.{Sodium}
use apk.Server.{Event, Server, on_pool, need}
use apk.Server.Handlers.{
  authenticate_user, lock_ratchets, mark_user_online, subscribe_to_user_channel,
}
use apk.Server.Events.{accept_login, answer_login, finish_authentication, handle_authentication}

module _ {S : Type 0} where
  abbrev pub is_done : {A : Type 0} → Outcome S A → Bool
  is_done (done a s) = true
  is_done (threw s) = false
  is_done (blocked s) = false
  is_done undefined = false

  -- An action that returns from no state.
  record Never {A : Type 0} (m : Action S A) : Type 0 where
    ends : (s : S) → is_done (m s) ≡ false

  then_do-is_done :
      {A B : Type 0} (m : Outcome S A) (f : A → S → Outcome S B)
      → ((a : A) (s : S) → is_done (f a s) ≡ false)
      → is_done (then_do m f) ≡ false
  then_do-is_done (done a s) f never = never a s
  then_do-is_done (threw s) f never = refl
  then_do-is_done (blocked s) f never = refl
  then_do-is_done undefined f never = refl

  bind-Never :
      {A B : Type 0} (m : Action S A) (f : A → Action S B)
      → ((a : A) → Never (f a))
      → Never (m >>= f)
  bind-Never m f never = record { ends = λ s. then_do-is_done (m s) f λ a. (never a).ends }

  then-Never : {B : Type 0} (m : Action S (Unit {0})) (k : Action S B) → Never k → Never (m >> k)
  then-Never m k never = record { ends = λ s. then_do-is_done (m s) (λ _. k) λ _. never.ends }

module _ (json : Json) (h : Hiredis) where
  lock_ratchets_twice :
      {A : Type 0} (rest : Action (Server json h) A)
      → Never (lock_ratchets json h >> (lock_ratchets json h >> rest))
  unfolding lock_ratchets
  lock_ratchets_twice rest = record {
    ends = λ s. elim (Bool-cases s.ratchet_locked) [
      | inl locked ↦ rw locked refl
      | inr free ↦ rw free refl
    ];
  }

module _ (json : Json) (h : Hiredis) (sodium : Sodium) where
  accept_login-Never :
      (id : ℕ) (user_id session_token : Str) (e : Event)
      → Never (accept_login json h sodium id user_id session_token e)
  unfolding accept_login
  accept_login-Never id user_id session_token e =
      let named = on_pool json h (λ p.
        write id (mark_authenticated e.ticks)
          (write id (set_session_id session_token) (write id (set_user_id user_id) p))) in
      let known = on_pool json h (register_user user_id id) in
      let shown = mark_user_online json h user_id e in
      let heard = subscribe_to_user_channel json h user_id in
      let rest = finish_authentication json h sodium id user_id session_token e in
      let locked = lock_ratchets json h >> (lock_ratchets json h >> rest) in
      let heard_on = heard >> locked in
      let shown_on = shown >> heard_on in
      then-Never named (known >> shown_on) (
        then-Never known shown_on
          (then-Never shown heard_on (then-Never heard locked (lock_ratchets_twice json h rest))))

  -- A login on a connection that exists never returns, whatever its message holds and whether
  -- Redis answers or not: it ends in an exception, in undefined behaviour, or blocked for ever.
  pub handle_authentication-is_done :
      (id : ℕ) (auth_data : json.J) (e : Event) (s : Server json h) (c : WebSocketConnection json.J)
      → get_connection id s.pool ≡ some c
      → is_done (handle_authentication json h sodium id auth_data e s) ≡ false
  unfolding handle_authentication authenticate_user
  handle_authentication-is_done id auth_data e s c held =
      let user = need json h (json.value_text auth_data (lit "username") []) in
      let secret = need json h (json.value_text auth_data (lit "password") []) in
      let answer = λ (username : Str) (password : Str).
        answer_login json h sodium id e (authenticate_user json h username password e) in
      rw (handle_authentication, held)
        ((bind-Never user (λ username. secret >>= answer username)
            λ username.
              bind-Never secret (answer username)
                λ password. accept_login-Never id username _ e).ends
          s)
