-- ===== src/Api/Otp/Delivery.antt =====
-- The password that send_otp sends is the one that check_otp accepts.
use apk.Base.{
  ltb, if◌then◌else◌, Bool-cases, inl, inr, ℕ, ◌+◌, ◌≡◌, refl, ap, ◌∙◌, true, false, Option, none,
  some, [], ◌∷◌, arith,
}
use apk.Base.Text.{Str, lit, is_empty, str_eq_iff}
use apk.Base.Outcome.{Action, done}
use apk.Std.Decimal.{to_string}
use apk.Redis.{RedisClient}
use apk.Redis.Replies.{c_str}
use apk.Pg.{read_count, exec}
use apk.Api.{Platform, Request, Response, Api, settle, db_exec, fail, json_resp}
use apk.Api.Entry.{with_body-parsed}
use apk.Api.Statements.Accounts.{account_sql, upsert_otp}
use apk.Api.Otp.{generate, otp_hash, send_otp, check_otp}
use apk.Api.Otp.Table.{Otp, OtpTable, right, expired, judge}
use apk.Api.Otp.Steps.{server_at}
use apk.Api.Otp.Refinement.{check_otp-judge}

module _ (p : Platform) {C : Type 0} (conn : p.pg.Connection) (table : OtpTable p.pg conn)
    (redis : Option (RedisClient p.hiredis C)) (what : Str) (req : Request) (email : Str) where
  open p use {json}

  abbrev pub code : Str
  code = generate req.draw

  abbrev pub expires : Str
  expires = c_str (to_string (req.now + 600))

  abbrev pub world_sent : p.pg.World → p.pg.World
  world_sent w = table.stored (c_str email) (c_str (otp_hash p code)) expires w

  upsert_step :
      (w : p.pg.World) (t : ℕ)
      → table.is_address (c_str email) ≡ true
      → table.is_hash (c_str (otp_hash p code)) ≡ true
      → table.expiry_of expires ≡ some t
      → (n : _) × (db_exec p
            (account_sql upsert_otp)
            (email ∷ otp_hash p code ∷ to_string (req.now + 600) ∷ [])
            (server_at p conn table redis what w)
          ≡ done n (server_at p conn table redis what (world_sent w)))
  unfolding db_exec exec
  upsert_step w t fits hashed timed = (
    _,
    ap (λ r. settle p (server_at p conn table redis what w) (read_count p.pg conn r))
        (table.upsert_otp_done w (c_str email) _ _ t fits hashed timed),
  )

  abbrev pub sent_body : json.J
  sent_body =
      json.object ((lit "ok", json.boolean true) ∷ (lit "message", json.text (lit "OTP sent")) ∷ [])

  send_step :
      (body : json.J) (w : p.pg.World) (t : ℕ)
      → json.parse req.body ≡ some body
      → json.value_text body (lit "email") [] ≡ some email
      → is_empty email ≡ false
      → p.is_email email ≡ true
      → table.is_address (c_str email) ≡ true
      → table.is_hash (c_str (otp_hash p code)) ≡ true
      → table.expiry_of expires ≡ some t
      → send_otp p req (server_at p conn table redis what w)
        ≡ json_resp p 200 sent_body (server_at p conn table redis what (world_sent w))
  unfolding send_otp
  send_step body w t parsed named full valid fits hashed timed =
      with_body-parsed p req body _ _ parsed
      ∙ (let (n, stored) = upsert_step w t fits hashed timed in
          rw (named, full, valid, stored) refl)

  judge-fresh :
      (now : ℕ) (hash : Str) (o : Otp)
      → o.code_hash ≡ hash
      → o.attempts ≡ 0
      → judge now hash (some o) ≡ (if ltb now o.expires_at then right else expired)
  unfolding judge
  judge-fresh now hash o same fresh =
      let equal = (str_eq_iff o.code_hash hash).1 same in ground arith

  -- A guess in a world that has the row of the password that was sent.
  check_otp_later :
      (accepted : Action (Api p C) Response) (later : p.pg.World) (o : Otp)
      → table.otp_at later (c_str email) ≡ some o
      → o.code_hash ≡ otp_hash p code
      → o.attempts ≡ 0
      → let counted = table.counted (c_str email) later in
        check_otp p email code accepted (server_at p conn table redis what later) ≡ (
          if ltb (table.clock later) o.expires_at
          then accepted (server_at p conn table redis what (table.deleted (c_str email) counted))
          else fail p 400
              (lit "OTP expired. Request a new one.")
              (server_at p conn table redis what counted))
  check_otp_later accepted later o is_o same fresh =
      let made = judge-fresh (table.clock later) (otp_hash p code) o same fresh in
      let asked = (check_otp-judge p conn table redis what email code accepted later).0 in
      elim (Bool-cases (ltb (table.clock later) o.expires_at)) [
        | inl early ↦ asked ∙ rw (is_o, made, early) refl
        | inr late ↦ asked ∙ rw (is_o, made, late) refl
      ]

  check_otp_absent :
      (accepted : Action (Api p C) Response) (w : p.pg.World) (guess : Str)
      → table.otp_at w (c_str email) ≡ none
      → check_otp p email guess accepted (server_at p conn table redis what w)
        ≡ fail p 400
            (lit "No OTP found for this email. Request a new one.")
            (server_at p conn table redis what w)
  unfolding judge
  check_otp_absent accepted w guess gone =
      (check_otp-judge p conn table redis what email guess accepted w).0 ∙ rw gone refl

  -- Over a table of one-time passwords, send_otp for a valid address that fits its column answers
  -- 200 and stores a password for it, where the text of its hash has no NUL and fits too. At any
  -- later time, with the row of the address as it was stored: check_otp accepts that password, and
  -- goes on with what follows a right guess, exactly if the database's clock has not reached the time
  -- of its expiry; after that time the answer is 400. Once it is accepted, check_otp finds no
  -- password, whatever the next guess is.
  pub send_otp-check_otp :
      (body : json.J) (w later : p.pg.World) (t : ℕ) (accepted : Action (Api p C) Response)
      → json.parse req.body ≡ some body
      → json.value_text body (lit "email") [] ≡ some email
      → is_empty email ≡ false
      → p.is_email email ≡ true
      → table.is_address (c_str email) ≡ true
      → table.is_hash (c_str (otp_hash p code)) ≡ true
      → c_str (otp_hash p code) ≡ otp_hash p code
      → table.expiry_of expires ≡ some t
      → table.otp_at later (c_str email) ≡ table.otp_at (world_sent w) (c_str email)
      → let counted = table.counted (c_str email) later in
        let used = table.deleted (c_str email) counted in
        (send_otp p req (server_at p conn table redis what w)
          ≡ json_resp p 200 sent_body (server_at p conn table redis what (world_sent w)))
        × (check_otp p email code accepted (server_at p conn table redis what later) ≡ (
            if ltb (table.clock later) t
            then accepted (server_at p conn table redis what used)
            else fail p 400
                (lit "OTP expired. Request a new one.")
                (server_at p conn table redis what counted)))
        × ((guess : Str)
            → check_otp p email guess accepted (server_at p conn table redis what used)
              ≡ fail p 400
                  (lit "No OTP found for this email. Request a new one.")
                  (server_at p conn table redis what used))
  send_otp-check_otp body w later t accepted parsed named full valid fits hashed whole timed same =
      let gone = table.otp_at-deleted (table.counted (c_str email) later) (c_str email) in
      let hash = c_str (otp_hash p code) in
      (
        send_step body w t parsed named full valid fits hashed timed,
        check_otp_later accepted later _
            (same ∙ table.otp_at-stored w (c_str email) hash expires t fits hashed timed) whole
            refl,
        λ guess. check_otp_absent accepted _ guess gone,
      )
