-- ===== src/Api/Otp/Refinement.antt =====
-- check_otp of Api/Otp does what the machine of Api/Otp/Table does.
use apk.Base.{◌≡◌, refl, ◌∙◌, Option, some, arith, ltb, leb, Bool-cases, Option-cases, inl, inr}
use apk.Base.Text.{Str, lit, str_eq}
use apk.Base.Outcome.{Action}
use apk.Key.{string_key}
use apk.Redis.{RedisClient}
use apk.Redis.Replies.{c_str}
use apk.Api.{Platform, Response, Api, fail}
use apk.Api.Otp.{otp_hash, check_row, check_otp}
use apk.Api.Otp.Table.{
  Otp, OtpTable, Verdict, absent, exhausted, expired, wrong, right, judge, next_otp,
}
use apk.Api.Otp.Steps.{server_at, row_of, select_step, compare_step, counted_step, row_step}

module _ (p : Platform) {C : Type 0} (conn : p.pg.Connection) (table : OtpTable p.pg conn)
    (redis : Option (RedisClient p.hiredis C)) (what : Str) (email code : Str)
    (accepted : Action (Api p C) Response) where
  -- The response to a verdict, and the world after it.
  abbrev pub reply : Verdict → Action (Api p C) Response
  reply absent = fail p 400 (lit "No OTP found for this email. Request a new one.")
  reply exhausted = fail p 429 (lit "Too many attempts. Request a new OTP.")
  reply expired = fail p 400 (lit "OTP expired. Request a new one.")
  reply wrong = fail p 400 (lit "Invalid OTP code")
  reply right = accepted

  abbrev pub world_after : Verdict → p.pg.World → p.pg.World
  world_after absent w = w
  world_after exhausted w = w
  world_after expired w = table.counted (c_str email) w
  world_after wrong w = table.counted (c_str email) w
  world_after right w = table.deleted (c_str email) (table.counted (c_str email) w)

  abbrev pub verdict_at : p.pg.World → Verdict
  verdict_at w = judge (table.clock w) (otp_hash p code) (table.otp_at w (c_str email))

  next_some :
      (o : Otp) (w : p.pg.World)
      → table.otp_at w (c_str email) ≡ some o
      → let v = judge (table.clock w) (otp_hash p code) (some o) in
        table.otp_at (world_after v w) (c_str email) ≡ next_otp v (some o)
  unfolding judge next_otp
  next_some o w is_o = elim (Bool-cases (leb 5 o.attempts)) [
    | inl many ↦ rw many is_o
    | inr few ↦
        let bumped = table.otp_at-counted w (c_str email) o is_o (ground arith) in
        elim (Bool-cases (ltb (table.clock w) o.expires_at)) [
          | inr late ↦ rw (few, late) bumped
          | inl valid ↦ elim (Bool-cases (str_eq o.code_hash (otp_hash p code))) [
            | inl same ↦
                rw (few, valid, same)
                  (table.otp_at-deleted (table.counted (c_str email) w) (c_str email))
            | inr differs ↦ rw (few, valid, differs) bumped
          ]
        ]
  ]

  check_some :
      (o : Otp) (w : p.pg.World)
      → table.otp_at w (c_str email) ≡ some o
      → check_row p email code accepted
          (row_of p conn table redis what o)
          (server_at p conn table redis what w)
        ≡ reply (judge (table.clock w) (otp_hash p code) (some o)) (
            server_at p conn table redis what
              (world_after (judge (table.clock w) (otp_hash p code) (some o)) w))
  unfolding judge
  check_some o w is_o = elim (Bool-cases (leb 5 o.attempts)) [
    | inl many ↦ row_step p conn table redis what email code accepted o w is_o ∙ rw many refl
    | inr few ↦ elim (Bool-cases (ltb (table.clock w) o.expires_at)) [
      | inr late ↦
          row_step p conn table redis what email code accepted o w is_o
          ∙ rw (few, late)
              (counted_step p conn table redis what email code accepted o w is_o few ∙ rw late refl)
      | inl valid ↦ elim (Bool-cases (str_eq o.code_hash (otp_hash p code))) [
        | inl same ↦
            row_step p conn table redis what email code accepted o w is_o
            ∙ rw (few, valid, same)
                (counted_step p conn table redis what email code accepted o w is_o few
                  ∙ rw valid (
                      compare_step p conn table redis what email code accepted o
                        (table.counted (c_str email) w)
                      ∙ rw same refl))
        | inr differs ↦
            row_step p conn table redis what email code accepted o w is_o
            ∙ rw (few, valid, differs)
                (counted_step p conn table redis what email code accepted o w is_o few
                  ∙ rw valid (
                      compare_step p conn table redis what email code accepted o
                        (table.counted (c_str email) w)
                      ∙ rw differs refl))
      ]
    ]
  ]

  -- Over a table of one-time passwords, a guess for an address is answered by the verdict of
  -- the machine on the row of that address, whatever the clock, and the row becomes what the
  -- machine makes of it: an attempt more where the guess is compared or the password has
  -- expired, none where it is right, and the same where there is none or all are used up.
  -- What follows a right guess is done only for that verdict.
  pub check_otp-judge :
      (w : p.pg.World)
      → (check_otp p email code accepted (server_at p conn table redis what w)
          ≡ reply (verdict_at w) (server_at p conn table redis what (world_after (verdict_at w) w)))
        × (table.otp_at (world_after (verdict_at w) w) (c_str email)
            ≡ next_otp (verdict_at w) (table.otp_at w (c_str email)))
  unfolding check_otp judge next_otp
  check_otp-judge w = elim (Option-cases (table.otp_at w (c_str email))) [
    | inl e ↦ (rw (select_step p conn table redis what email w, e) refl, rw e e)
    | inr (o, e) ↦ (
      rw (select_step p conn table redis what email w, e) (check_some o w e),
      rw e (next_some o w e),
    )
  ]
