-- ===== src/Api/Otp.antt =====
-- src/http_api.cpp: one-time passwords, and the routes that send and verify them.
pub mod Table
pub mod Steps
pub mod Refinement
pub mod Lockout
pub mod Delivery
pub mod SignIn
use apk.Base.{
  ℕ, ◌+◌, Bool, true, false, not, ◌||◌, Option, none, some, List, [], ◌∷◌, leb, if◌then◌else◌,
}
use apk.Base.Text.{Str, lit, str_eq, is_empty}
use apk.Base.Outcome.{Action, ◌>>=◌, ◌>>◌}
use apk.Std.Decimal.{to_string}
use apk.Std.Stoi.{ℤ, pos, negsuc, stoi}
use apk.Json.{Json}
use apk.Jwt.Token.{create}
use apk.Http.{store_redis_session}
use apk.Pg.{Row, column}
use apk.Api.{
  Platform, Request, Response, Api, db_query, db_exec, with_redis, try_then, ignoring, or_raise,
  value_of, text_at, json_resp, fail, server_error, with_body, first_or, cell,
}
use apk.Api.Statements.Accounts.{
  account_sql, upsert_otp, select_otp, count_attempt, check_expiry, delete_otp, user_by_email,
}

-- OtpHelper::generate: the number that is drawn lies between 100000 and 999999.
unfoldable pub generate : ℕ → Str
generate draw = to_string draw

abbrev pub too_many : ℤ → Bool
too_many (pos attempts) = leb 5 attempts
too_many (negsuc n) = false

module _ (p : Platform) where
  open p use {json}

  -- OtpHelper::hash
  unfoldable pub otp_hash : Str → Str
  otp_hash code = p.bin2hex (p.generichash code)

  abbrev pub signed_in : Str → Str → Row → json.J
  signed_in token user_id row = json.object (
      (lit "token", json.text token)
      ∷ (lit "needsRegistration", json.boolean false)
      ∷ (
        lit "user",
        json.object (
            (lit "id", json.text user_id)
            ∷ (lit "username", cell p (column (lit "username") row))
            ∷ (lit "displayName", cell p (column (lit "display_name") row))
            ∷ []),
      )
      ∷ [])

module _ (p : Platform) {C : Type 0} where
  open p use {json}

  unfoldable pub send_otp : Request → Action (Api p C) Response
  send_otp req = with_body p req.body (λ body. do
    email ← value_of p body (lit "email")
    if is_empty email
        then fail p 400 (lit "email required")
        else if not (p.is_email email)
        then fail p 400 (lit "Invalid email format")
        else try_then p
            (db_exec p (account_sql upsert_otp)
              (email ∷ otp_hash p (generate req.draw) ∷ to_string (req.now + 600) ∷ []))
            (server_error p)
            (λ affected. json_resp p 200 (
              json.object (
                (lit "ok", json.boolean true) ∷ (lit "message", json.text (lit "OTP sent")) ∷ []))))

  -- The lines from the comparison of the hashes on; `accepted` is what follows the deletion.
  unfoldable pub compare_hash :
      Str → Str → Action (Api p C) Response → Row → Action (Api p C) Response
  compare_hash email code accepted row = do
    expected_hash ← text_at p (lit "code_hash") row
    if not (str_eq expected_hash (otp_hash p code))
        then fail p 400 (lit "Invalid OTP code")
        else ignoring p (db_exec p (account_sql delete_otp) (email ∷ [])) accepted

  -- if (expiry_check.empty() || expiry_check[0]["valid"] != "t")
  abbrev pub check_valid : Action (Api p C) Response → List Row → Action (Api p C) Response
  check_valid rest [] = fail p 400 (lit "OTP expired. Request a new one.")
  check_valid rest (row ∷ rows) = do
    valid ← text_at p (lit "valid") row
    if not (str_eq valid (lit "t"))
        then fail p 400 (lit "OTP expired. Request a new one.")
        else rest

  abbrev pub check_counted : Str → Str → Action (Api p C) Response → Row → Action (Api p C) Response
  check_counted email code accepted row =
      ignoring p (db_exec p (account_sql count_attempt) (email ∷ [])) (
        try_then p (db_query p (account_sql check_expiry) (email ∷ [])) (server_error p)
          (check_valid (compare_hash email code accepted row)))

  abbrev pub check_row : Str → Str → Action (Api p C) Response → Row → Action (Api p C) Response
  check_row email code accepted row = do
    text ← text_at p (lit "attempts") row
    attempts ← or_raise p p.stoi_error (stoi 10 text)
    if too_many attempts
        then fail p 429 (lit "Too many attempts. Request a new OTP.")
        else check_counted email code accepted row

  unfoldable pub check_otp : Str → Str → Action (Api p C) Response → Action (Api p C) Response
  check_otp email code accepted =
      try_then p (db_query p (account_sql select_otp) (email ∷ [])) (server_error p) (
        first_or p (fail p 400 (lit "No OTP found for this email. Request a new one."))
          (check_row email code accepted))

  -- The user of the address is signed in, or told to register.
  unfoldable pub sign_in : Str → ℕ → Str → Action (Api p C) Response
  sign_in jwt_secret now email =
      try_then p (db_query p (account_sql user_by_email) (email ∷ [])) (server_error p) (
        first_or p
          (json_resp p 200 (
            json.object
              ((lit "needsRegistration", json.boolean true) ∷ (lit "email", json.text email) ∷ [])))
          (λ row. do
            user_id ← text_at p (lit "id") row
            token ← or_raise p p.dump_error (create json p.hmac user_id jwt_secret now)
            with_redis p (store_redis_session p.hiredis token user_id)
            json_resp p 200 (signed_in p token user_id row)))

  unfoldable pub verify_otp : Str → Request → Action (Api p C) Response
  verify_otp jwt_secret req = with_body p req.body (λ body. do
    email ← value_of p body (lit "email")
    code ← value_of p body (lit "code")
    if is_empty email || is_empty code
        then fail p 400 (lit "email and code required")
        else check_otp email code (sign_in jwt_secret req.now email))
