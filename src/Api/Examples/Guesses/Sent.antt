-- ===== src/Api/Examples/Guesses/Sent.antt =====
-- A password that is sent, and guessed at when most of its time is over.
use apk.Base.{ℕ, ◌≡◌, refl, ap, none, some, List, [], ◌∷◌, ◌∙◌, true}
use apk.Base.Text.{Str, lit, is_empty, str_eq}
use apk.Base.Outcome.{Action, give}
use apk.Key.{string_key}
use apk.Map.{find}
use apk.Std.Decimal.{to_string}
use apk.Redis.Replies.{c_str}
use apk.Pg.{PgResult, tuples, Libpq}
use apk.Api.{Platform, Request, Response, Api, json_resp, fail}
use apk.Api.Otp.{generate, otp_hash, send_otp, check_otp}
use apk.Api.Otp.Table.{OtpTable, valid_rows}
use apk.Api.Otp.Steps.{server_at}
use apk.Api.Otp.Delivery.{world_sent, sent_body, send_otp-check_otp}
use apk.Api.Examples.{
  World, row_under, counted_world, deleted_world, one_digit, Kind, kind, answer, expiry, sample,
  stored_world,
}
use apk.Api.Examples.Guesses.{
  kinds, stoi_digit, row_under-small, row_under-counted, row_under-deleted, row_under-stored,
  read_expiry, read_time, row_until, email,
}

-- The clock, and the table of Api/Examples.
abbrev Timed : Type 0
Timed = ℕ × World

abbrev at : ℕ → PgResult × World → PgResult × Timed
at now (result, w) = (result, (now, w))

abbrev timed_answer : Kind → List Str → Timed → PgResult × Timed
timed_answer expiry (e ∷ params) (now, w) =
    (tuples (lit "valid" ∷ []) (valid_rows now (row_under w e)) [], (now, w))
timed_answer k params (now, w) = at now (answer k params w)

abbrev timed_pg : Libpq
timed_pg = record {
  World = Timed;
  Connection = Unit {0};
  connectdb = λ url w. (some tt, w);
  status_ok = λ conn w. true;
  exec_params = λ conn sql params w. timed_answer (kind sql) params w;
  error_message = λ conn w. [];
}

abbrev timed_platform : Platform
timed_platform = record sample { pg = timed_pg }

abbrev timed_table : OtpTable timed_pg tt
timed_table = record {
  otp_at = λ w e. row_under w.1 e;
  clock = λ w. w.0;
  counted = λ e w. (w.0, counted_world e w.1);
  deleted = λ e w. (w.0, deleted_world e w.1);
  stored = λ e hash time w. (w.0, stored_world e hash w.1);
  is_address = λ e. true;
  is_hash = λ hash. true;
  expiry_of = read_expiry;
  tag = λ w e. [];
  time_text = one_digit;
  number_text = one_digit;
  stoi_number_text = λ w e o h. stoi_digit o.attempts (row_under-small w.1 e o h);
  select_otp_rows = λ w e. ap (λ k. timed_answer k (e ∷ []) w) kinds.1;
  check_expiry_rows = λ w e. ap (λ k. timed_answer k (e ∷ []) w) kinds.2;
  count_attempt_done = λ w e o h few. ap (λ k. timed_answer k (e ∷ []) w) kinds.3;
  delete_otp_done = λ w e. ap (λ k. timed_answer k (e ∷ []) w) kinds.4;
  otp_at-counted = λ w e o h few. row_under-counted w.1 e o h few;
  clock-counted = λ w e. refl;
  otp_at-deleted = λ w e. row_under-deleted w.1 e;
  upsert_otp_done = λ w e hash time t fits hashed timed.
      ap (λ k. timed_answer k (e ∷ hash ∷ time ∷ []) w) kinds.0;
  otp_at-stored = λ w e hash time t fits hashed timed.
      row_under-stored w.1 e hash ∙ ap (row_until hash) (read_time time t timed);
}

abbrev welcome : Action (Api timed_platform (Unit {0})) Response
welcome = give (record { status = 200; text = lit "welcome" })

abbrev server : Timed → Api timed_platform (Unit {0})
server w = server_at timed_platform tt timed_table none [] w

abbrev asked : Request
asked = record {
  authorization = [];
  body = email;
  url_param = λ name. none;
  now = 100;
  draw = 123456;
  public_key = [];
}

abbrev before : Timed
before = (0, (email, none))

abbrev sent : Timed
sent = world_sent timed_platform {C = Unit {0}} tt timed_table none [] asked email before

-- 599 seconds later.
abbrev later : Timed
later = (599, sent.1)

abbrev used : Timed
used = (599, (email, none))

send_otp-check_otp_example :
    (send_otp timed_platform asked (server before)
      ≡ json_resp timed_platform 200
          (sent_body timed_platform {C = Unit {0}} tt timed_table none [] asked email)
          (server sent))
    × (check_otp timed_platform email (lit "123456") welcome (server later) ≡ welcome (server used))
    × ((code : Str)
        → check_otp timed_platform email code welcome (server used)
          ≡ fail timed_platform 400
              (lit "No OTP found for this email. Request a new one.")
              (server used))
unfolding is_empty str_eq c_str otp_hash generate to_string find
send_otp-check_otp_example =
    send_otp-check_otp timed_platform tt timed_table none [] asked email _ before later 600 welcome
      refl refl refl refl refl refl refl refl refl
