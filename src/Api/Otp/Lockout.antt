-- ===== src/Api/Otp/Lockout.antt =====
-- After five wrong guesses no guess is accepted for an address, until a new password is sent to it.
use mathlib.Core.Option
use apk.Base.{
  ℕ, suc, ◌≤◌, ◌≡◌, refl, sym, ap, ◌∙◌, ◌⊎◌, inl, inr, false, Option, none, some, List, [], ◌∷◌,
  arith, ltb, leb, length, All, Bool-cases, Option-cases, some_inj,
}
use apk.Base.Text.{Str, lit, str_eq}
use apk.Base.Outcome.{Outcome, done, threw, blocked, undefined, Action}
use apk.Redis.{RedisClient}
use apk.Redis.Replies.{c_str}
use apk.Api.{Platform, Response, Api, json_resp, fail}
use apk.Api.Otp.{otp_hash, check_otp}
use apk.Api.Otp.Table.{Otp, bump, OtpTable, Verdict, exhausted, expired, wrong, judge, next_otp}
use apk.Api.Otp.Steps.{server_at}
use apk.Api.Otp.Refinement.{reply, world_after, check_otp-judge}

module _ (p : Platform) (C : Type 0) (conn : p.pg.Connection) (table : OtpTable p.pg conn)
    (email : Str) where
  -- The database after a request, by a response or by an exception.
  abbrev pub world_left : Outcome (Api p C) Response → Option p.pg.World
  world_left (done r s) = some s.db.world
  world_left (threw s) = some s.db.world
  world_left (blocked s) = some s.db.world
  world_left undefined = none

  abbrev pub row_at : p.pg.World → Option Otp
  row_at w = table.otp_at w (c_str email)

  -- The guesses that were made from a world on, the last one first. Between two of them anything
  -- may happen that leaves the row as it is.
  pub data Guessed (start : p.pg.World) : List Str → p.pg.World → Type 0 where
    ready : Guessed start [] start
    idle :
        {codes : List Str} {w w' : p.pg.World}
        → Guessed start codes w
        → row_at w' ≡ row_at w
        → Guessed start codes w'
    guess :
        {codes : List Str} {w w' : p.pg.World} (code : Str) (accepted : Action (Api p C) Response)
        (redis : Option (RedisClient p.hiredis C)) (what : Str)
        → Guessed start codes w
        → world_left (check_otp p email code accepted (server_at p conn table redis what w))
          ≡ some w'
        → Guessed start (code ∷ codes) w'

  world_left-json_resp :
      (status : ℕ) (body : p.json.J) (s : Api p C)
      → world_left (json_resp p status body s) ≡ some s.db.world
  unfolding json_resp
  world_left-json_resp status body s = elim (Option-cases (p.json.dump body)) [
    | inl e ↦ rw e refl
    | inr (t, e) ↦ rw e refl
  ]

  -- The password is the same, and has been guessed at so often, or too often.
  abbrev Spent : Otp → ℕ → p.pg.World → Type 0
  Spent o n w =
      (q : Otp) × (row_at w ≡ some q)
      × (q.code_hash ≡ o.code_hash)
      × ((5 ≤ q.attempts) ⊎ (n ≤ q.attempts))

  abbrev Misses : Otp → Str → Type 0
  Misses o code = str_eq o.code_hash (otp_hash p code) ≡ false

  -- A verdict on a password that the guess misses.
  data Missed (q : Otp) : Verdict → Type 0 where
    many : 5 ≤ q.attempts → Missed q exhausted
    late : Missed q expired
    other : Missed q wrong

  judge-Missed :
      (now : ℕ) (code : Str) (q : Otp)
      → Misses q code
      → Missed q (judge now (otp_hash p code) (some q))
  unfolding judge
  judge-Missed now code q h = elim (Bool-cases (leb 5 q.attempts)) [
    | inl e ↦ rw e (many (ground arith))
    | inr e ↦ elim (Bool-cases (ltb now q.expires_at)) [
      | inl f ↦ rw (e, f, h) other
      | inr f ↦ rw (e, f) late
    ]
  ]

  judge-exhausted :
      (now : ℕ) (hash : Str) (q : Otp) → 5 ≤ q.attempts → judge now hash (some q) ≡ exhausted
  unfolding judge
  judge-exhausted now hash q h = ground arith

  -- One guess more.
  spend :
      {v : Verdict} (o q : Otp) (n : ℕ) (w w' : p.pg.World)
      → Missed q v
      → row_at w ≡ some q
      → row_at w' ≡ next_otp v (row_at w)
      → q.code_hash ≡ o.code_hash
      → (5 ≤ q.attempts) ⊎ (n ≤ q.attempts)
      → Spent o (suc n) w'
  unfolding next_otp
  spend o q n w w' (many h) is_q is_w' same used = (q, is_w' ∙ is_q, same, inl h)
  spend o q n w w' late is_q is_w' same used =
      (bump q, is_w' ∙ ap (Option.map bump) is_q, same, ground arith)
  spend o q n w w' other is_q is_w' same used =
      (bump q, is_w' ∙ ap (Option.map bump) is_q, same, ground arith)

  module _ (redis : Option (RedisClient p.hiredis C)) (what : Str) (code : Str)
      (accepted : Action (Api p C) Response) where
    reply-world :
        {v : Verdict} (q : Otp) (w : p.pg.World)
        → Missed q v
        → world_left (
            reply p conn table redis what email code accepted v (
              server_at p conn table redis what
                (world_after p conn table redis what email code accepted v w)))
          ≡ some (world_after p conn table redis what email code accepted v w)
    reply-world q w (many h) = world_left-json_resp _ _ _
    reply-world q w late = world_left-json_resp _ _ _
    reply-world q w other = world_left-json_resp _ _ _

    guess-Spent :
        (o : Otp) (n : ℕ) (w w' : p.pg.World)
        → Misses o code
        → Spent o n w
        → world_left (check_otp p email code accepted (server_at p conn table redis what w))
          ≡ some w'
        → Spent o (suc n) w'
    guess-Spent o n w w' h (q, is_q, same, used) left =
        let (is_reply, is_next) = check_otp-judge p conn table redis what email code accepted w in
        let missed : Missed q (judge (table.clock w) (otp_hash p code) (row_at w)) =
          rw is_q (judge-Missed (table.clock w) code q (rw same h)) in
        let reached = sym left ∙ ap world_left is_reply ∙ reply-world q w missed in
        spend o q n w w' missed is_q (ap row_at (some_inj reached) ∙ is_next) same used

  Guessed-Spent :
      (o : Otp) (start : p.pg.World) (codes : List Str) (w : p.pg.World)
      → row_at start ≡ some o
      → All (Misses o) codes
      → Guessed start codes w
      → Spent o (length codes) w
  Guessed-Spent o start [] w is_o h ready = (o, is_o, refl, inr (omega arith))
  Guessed-Spent o start codes w is_o h (idle before same) =
      let (q, is_q, hash, used) = Guessed-Spent o start codes _ is_o h before in
      (q, same ∙ is_q, hash, used)
  Guessed-Spent o start (latest ∷ codes) w is_o h (guess code accepted redis what before left) =
      guess-Spent redis what code accepted o (length codes) _ w h.0
        (Guessed-Spent o start codes _ is_o h.1 before) left

  -- Five guesses or more for an address, all of them wrong for its password, leave nothing to try:
  -- the next guess is answered with 429, be it right or wrong, and changes nothing, whatever else
  -- happens between the guesses that leaves the row of the address alone.
  pub check_otp-lockout :
      (o : Otp) (start w : p.pg.World) (codes : List Str)
      → row_at start ≡ some o
      → All (Misses o) codes
      → Guessed start codes w
      → 5 ≤ length codes
      → (code : Str) (accepted : Action (Api p C) Response)
        (redis : Option (RedisClient p.hiredis C)) (what : Str)
      → check_otp p email code accepted (server_at p conn table redis what w)
        ≡ fail p 429
            (lit "Too many attempts. Request a new OTP.")
            (server_at p conn table redis what w)
  check_otp-lockout o start w codes is_o h guessed five code accepted redis what =
      let (q, is_q, same, used) = Guessed-Spent o start codes w is_o h guessed in
      let spent : judge (table.clock w) (otp_hash p code) (row_at w) ≡ exhausted =
        rw is_q (judge-exhausted (table.clock w) (otp_hash p code) q (ground arith)) in
      (check_otp-judge p conn table redis what email code accepted w).0 ∙ rw spent refl
