-- ===== src/Api/Examples.antt =====
-- A server over small stand-ins for the libraries, and a database that has only the table otp_codes.
pub mod Guesses
mod Requests
mod Groups
mod Sessions
use mathlib.Core.Option
use apk.Base.{
  ℕ, ◌+◌, ◌≡◌, refl, ap, sym, Bool, true, false, Option, none, some, List, [], ◌∷◌, if◌then◌else◌,
  ◌↔◌, ◌==◌, ◌&&◌, arith, Bool-cases, inl, inr, ltb,
}
use apk.Base.Text.{Str, lit, str_eq, str_eq_iff}
use apk.Key.{string_key}
use apk.Map.{find}
use apk.Std.Search.{find_text, starts_with}
use apk.Std.Stoi.{pos, stoi}
use apk.Json.{Json}
use apk.Jwt.Examples.{key_mac}
use apk.Jwt.Examples.Claims.{Scalar, text, Value, scalar, members, get_text, claims_json}
use apk.Redis.{Reply, Hiredis}
use apk.Redis.Replies.{c_str}
use apk.Pg.{PgResult, tuples, command, failed, Libpq}
use apk.Api.{Platform, Request}
use apk.Api.Statements.Accounts.{
  account_sql, upsert_otp, select_otp, count_attempt, check_expiry, delete_otp,
}
use apk.Api.Otp.Table.{Otp, bump, otp_columns, otp_rows, valid_rows, OtpTable}

abbrev pub text_of : Value → Option Str
text_of (scalar (text t)) = some t
text_of v = none

abbrev pub member_of : Value → Str → Option Value
member_of (scalar s) key = none
member_of (members m) key = Option.map scalar (find key m)

-- Only the message of an error is printed, and every text is read as a display name and an
-- address.
abbrev pub sample_json : Json
sample_json = record claims_json {
  dump = λ v. get_text v (lit "error") [];
  parse = λ s. some (members ((lit "displayName", text s) ∷ (lit "email", text s) ∷ []));
  member = member_of;
  get_text = text_of;
}

abbrev pub no_redis : Hiredis
no_redis = record {
  World = Unit {0};
  Context = Unit {0};
  connect = λ host port w. (none, w);
  command = λ ctx cmd args w. (none, w);
  has_err = λ ctx w. false;
}

-- The address that has a row, and the row.
abbrev pub World : Type 0
World = Str × Option Otp

-- The column of the attempts has one digit.
abbrev pub cap_number : ℕ → ℕ
cap_number n = if ltb n 9 then n else 9

abbrev pub cap : Otp → Otp
cap o = record o { attempts = cap_number o.attempts }

abbrev pub capped : Option Otp → Option Otp
capped none = none
capped (some o) = some (cap o)

abbrev pub row_under : World → Str → Option Otp
row_under (address, row) e = if str_eq address e then capped row else none

abbrev pub counted_world : Str → World → World
counted_world e (address, row) = (address, if str_eq address e then Option.map bump row else row)

abbrev pub deleted_world : Str → World → World
deleted_world e (address, row) = (address, if str_eq address e then none else row)

abbrev pub one_digit : ℕ → Str
one_digit n = (n + 48) ∷ []

-- Every time is read as 600.
abbrev pub stored_world : Str → Str → World → World
stored_world e hash w = (e, some (record { code_hash = hash; attempts = 0; expires_at = 600 }))

pub data Kind : Type 0 where
  upsert : Kind
  select : Kind
  expiry : Kind
  count : Kind
  delete : Kind
  unknown : Kind

abbrev pub is_in : Str → Str → Bool
is_in needle s = elim (find_text needle s) [ none ↦ false | some i ↦ true ]

unfoldable pub kind : Str → Kind
kind sql =
    if is_in (lit "INSERT INTO otp_codes") sql
    then upsert
    else if is_in (lit "SELECT code_hash") sql
    then select
    else if is_in (lit "expires_at > NOW") sql
    then expiry
    else if is_in (lit "UPDATE otp_codes") sql
    then count
    else if is_in (lit "DELETE FROM otp_codes") sql
    then delete
    else unknown

abbrev pub answer : Kind → List Str → World → PgResult × World
answer upsert (e ∷ hash ∷ time ∷ params) w = (command [], stored_world e hash w)
answer select (e ∷ params) w =
    (tuples otp_columns (otp_rows one_digit one_digit (row_under w e)) [], w)
answer expiry (e ∷ params) w = (tuples (lit "valid" ∷ []) (valid_rows 0 (row_under w e)) [], w)
answer count (e ∷ params) w = (command [], counted_world e w)
answer delete (e ∷ params) w = (command [], deleted_world e w)
answer k params w = (failed, w)

abbrev pub otp_pg : Libpq
otp_pg = record {
  World = World;
  Connection = Unit {0};
  connectdb = λ url w. (some tt, w);
  status_ok = λ conn w. true;
  exec_params = λ conn sql params w. answer (kind sql) params w;
  error_message = λ conn w. lit "no such table";
}

abbrev pub sample : Platform
sample = record {
  json = sample_json;
  hmac = key_mac;
  hiredis = no_redis;
  pg = otp_pg;
  generichash = λ s. s;
  bin2hex = λ s. s;
  is_email = λ s. true;
  is_username = λ s. true;
  type_error = lit "type error";
  dump_error = lit "dump error";
  stoi_error = lit "stoi";
}
