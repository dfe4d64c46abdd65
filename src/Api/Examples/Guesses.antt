-- ===== src/Api/Examples/Guesses.antt =====
-- Guesses at the one-time password of one address.
mod Sent
use apk.Base.{
  All, ℕ, zero, suc, subst, ◌+◌, ◌<◌, ◌≡◌, refl, ap, sym, ◌∙◌, false, true, Option, none, some,
  List, [], ◌∷◌, if◌then◌else◌, arith, Bool-cases, inl, inr,
}
use apk.Base.Text.{Str, lit, is_empty, str_eq, str_eq_iff}
use apk.Std.Stoi.{
  pos, stoi, signed_value, skip_spaces, is_space, magnitude, skip_prefix, digits_from, digit,
}
use apk.Std.Decimal.{to_string}
use apk.Std.Search.{find_text, starts_with}
use apk.Key.{string_key}
use apk.Map.{find}
use apk.Redis.Replies.{c_str}
use apk.Base.Outcome.{Action, give}
use apk.Api.{Request, Response, Api, json_resp, fail}
use apk.Api.Statements.Accounts.{
  account_sql, upsert_otp, select_otp, count_attempt, check_expiry, delete_otp,
}
use apk.Api.Otp.{generate, otp_hash, send_otp, check_otp}
use apk.Api.Otp.Table.{Otp, bump, OtpTable, judge, next_otp}
use apk.Api.Otp.Steps.{server_at}
use apk.Api.Otp.Delivery.{world_sent, sent_body, send_otp-check_otp}
use apk.Api.Otp.Refinement.{check_otp-judge}
use apk.Api.Otp.Lockout.{world_left, Guessed, ready, guess, check_otp-lockout}
use apk.Api.Examples.{
  World, row_under, counted_world, deleted_world, one_digit, cap_number, cap, capped, kind, answer,
  select, expiry, count, delete, otp_pg, sample, upsert, stored_world,
}

stoi_digit : (n : ℕ) → n < 10 → stoi 10 (one_digit n) ≡ some (pos n)
unfolding stoi signed_value skip_spaces is_space magnitude skip_prefix digits_from digit
stoi_digit zero h = refl
stoi_digit (suc zero) h = refl
stoi_digit (suc (suc zero)) h = refl
stoi_digit (suc (suc (suc zero))) h = refl
stoi_digit (suc (suc (suc (suc zero)))) h = refl
stoi_digit (suc (suc (suc (suc (suc zero))))) h = refl
stoi_digit (suc (suc (suc (suc (suc (suc zero)))))) h = refl
stoi_digit (suc (suc (suc (suc (suc (suc (suc zero))))))) h = refl
stoi_digit (suc (suc (suc (suc (suc (suc (suc (suc zero)))))))) h = refl
stoi_digit (suc (suc (suc (suc (suc (suc (suc (suc (suc zero))))))))) h = refl
stoi_digit (suc (suc (suc (suc (suc (suc (suc (suc (suc (suc n)))))))))) h = absurd (omega arith)

kinds :
    (kind (c_str (account_sql upsert_otp)) ≡ upsert)
    × (kind (c_str (account_sql select_otp)) ≡ select)
    × (kind (c_str (account_sql check_expiry)) ≡ expiry)
    × (kind (c_str (account_sql count_attempt)) ≡ count)
    × (kind (c_str (account_sql delete_otp)) ≡ delete)
unfolding kind c_str account_sql find_text starts_with
kinds = (refl, refl, refl, refl, refl)

cap_number-small : (n : ℕ) → cap_number n < 10
cap_number-small n = ground arith

cap_number-step : (n : ℕ) → cap_number n < 5 → cap_number (n + 1) ≡ cap_number n + 1
cap_number-step n h = ground arith

row_under-small : (w : World) (e : Str) (o : Otp) → row_under w e ≡ some o → o.attempts < 10
row_under-small (address, none) e o h = absurd (ground arith)
row_under-small (address, some q) e o h = elim (Bool-cases (str_eq address e)) [
  | inl a ↦
      let same : cap q ≡ o = ground arith in
      subst (λ (x : Otp). x.attempts < 10) same (cap_number-small q.attempts)
  | inr a ↦ absurd (ground arith)
]

row_under-counted :
    (w : World) (e : Str) (o : Otp)
    → row_under w e ≡ some o
    → o.attempts < 5
    → row_under (counted_world e w) e ≡ some (bump o)
row_under-counted (address, none) e o h few = absurd (ground arith)
row_under-counted (address, some q) e o h few = elim (Bool-cases (str_eq address e)) [
  | inl a ↦
      let same : o ≡ cap q = ground arith in
      let number : cap_number (q.attempts + 1) ≡ cap_number q.attempts + 1 =
        cap_number-step q.attempts (subst (λ (x : Otp). x.attempts < 5) same few) in
      subst
        (λ b. (if b then capped (if b then some (bump q) else some q) else none) ≡ some (bump o))
        (sym a)
        (ap (λ n. some (record q { attempts = n })) number ∙ ap (λ x. some (bump x)) (sym same))
  | inr a ↦ absurd (ground arith)
]

row_under-deleted : (w : World) (e : Str) → row_under (deleted_world e w) e ≡ none
row_under-deleted (address, row) e = elim (Bool-cases (str_eq address e)) [
  | inl h ↦ subst (λ b. (if b then capped (if b then none else row) else none) ≡ none) (sym h) refl
  | inr h ↦ subst (λ b. (if b then capped (if b then none else row) else none) ≡ none) (sym h) refl
]

row_under-stored :
    (w : World) (e hash : Str)
    → row_under (stored_world e hash w) e
      ≡ some (record { code_hash = hash; attempts = 0; expires_at = 600 })
row_under-stored w e hash =
    ap (λ b. if b then some (record { code_hash = hash; attempts = 0; expires_at = 600 }) else none)
      ((str_eq_iff e e).1 refl)

abbrev read_expiry : Str → Option ℕ
read_expiry time = if is_empty time then none else some 600

read_time : (time : Str) (t : ℕ) → read_expiry time ≡ some t → 600 ≡ t
read_time time t h = elim (Bool-cases (is_empty time)) [
  | inl e ↦ absurd (ground arith)
  | inr e ↦ ground arith
]

abbrev row_until : Str → ℕ → Option Otp
row_until hash t = some (record { code_hash = hash; attempts = 0; expires_at = t })

abbrev table : OtpTable otp_pg tt
table = record {
  otp_at = row_under;
  clock = λ w. 0;
  counted = counted_world;
  deleted = deleted_world;
  stored = λ e hash time w. stored_world e hash w;
  is_address = λ e. true;
  is_hash = λ hash. true;
  expiry_of = read_expiry;
  tag = λ w e. [];
  time_text = one_digit;
  number_text = one_digit;
  stoi_number_text = λ w e o h. stoi_digit o.attempts (row_under-small w e o h);
  select_otp_rows = λ w e. ap (λ k. answer k (e ∷ []) w) kinds.1;
  check_expiry_rows = λ w e. ap (λ k. answer k (e ∷ []) w) kinds.2;
  count_attempt_done = λ w e o h few. ap (λ k. answer k (e ∷ []) w) kinds.3;
  delete_otp_done = λ w e. ap (λ k. answer k (e ∷ []) w) kinds.4;
  otp_at-counted = row_under-counted;
  clock-counted = λ w e. refl;
  otp_at-deleted = row_under-deleted;
  upsert_otp_done =
      λ w e hash time t fits hashed timed. ap (λ k. answer k (e ∷ hash ∷ time ∷ []) w) kinds.0;
  otp_at-stored = λ w e hash time t fits hashed timed.
      row_under-stored w e hash ∙ ap (row_until hash) (read_time time t timed);
}

abbrev email : Str
email = lit "bob@example.org"

abbrev row_after : ℕ → World
row_after n = (email, some (record { code_hash = lit "123456"; attempts = n; expires_at = 600 }))

abbrev welcome : Action (Api sample (Unit {0})) Response
welcome = give (record { status = 200; text = lit "welcome" })

abbrev server : World → Api sample (Unit {0})
server w = server_at sample tt table none [] w

check_otp-judge_example :
    (check_otp sample email (lit "123456") welcome (server (row_after 2))
      ≡ welcome (server (email, none)))
    × (row_under (email, none) email ≡ none)
unfolding judge next_otp str_eq c_str otp_hash
check_otp-judge_example =
    check_otp-judge sample tt table none [] email (lit "123456") welcome (row_after 2)

abbrev guesses : List Str
guesses = lit "4" ∷ lit "3" ∷ lit "2" ∷ lit "1" ∷ lit "0" ∷ []

row_found :
    row_under (row_after 0) (c_str email)
    ≡ some (record { code_hash = lit "123456"; attempts = 0; expires_at = 600 })
unfolding str_eq c_str
row_found = refl

guesses_miss : All (λ code. str_eq (lit "123456") (otp_hash sample code) ≡ false) guesses
unfolding str_eq otp_hash
guesses_miss = (refl, (refl, (refl, (refl, (refl, tt)))))

guessed : Guessed sample (Unit {0}) tt table email (row_after 0) guesses (row_after 5)
unfolding judge str_eq c_str otp_hash json_resp find
guessed =
    let seen : (code : Str) (w : World) → _ = λ code w.
      ap (world_left sample (Unit {0}) tt table email)
        (check_otp-judge sample tt table none [] email code welcome w).0 in
    guess (lit "4") welcome none []
      (guess (lit "3") welcome none []
        (guess (lit "2") welcome none []
          (guess (lit "1") welcome none []
            (guess (lit "0") welcome none [] ready (seen (lit "0") (row_after 0)))
            (seen (lit "1") (row_after 1)))
          (seen (lit "2") (row_after 2)))
        (seen (lit "3") (row_after 3)))
      (seen (lit "4") (row_after 4))

check_otp-lockout_example :
    check_otp sample email (lit "123456") welcome (server (row_after 5))
    ≡ fail sample 429 (lit "Too many attempts. Request a new OTP.") (server (row_after 5))
check_otp-lockout_example =
    check_otp-lockout sample (Unit {0}) tt table email
      (record { code_hash = lit "123456"; attempts = 0; expires_at = 600 }) (row_after 0)
      (row_after 5) guesses row_found guesses_miss guessed (omega arith) (lit "123456") welcome none
      []
