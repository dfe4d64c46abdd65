-- ===== src/Http/Examples.antt =====
-- A request with the token of bob, over a Redis that has his session.
use apk.Base.{ℕ, ◌+◌, ◌≡◌, refl, true, false, not, ◌||◌, some, [], ◌∷◌, ◌++◌, if◌then◌else◌}
use apk.Std.Stoi.{pos}
use apk.Base.Text.{Str, lit, str_eq, is_empty}
use apk.Base.Outcome.{done, blocked}
use apk.Key.{string_key}
use apk.Map.{find}
use apk.Jwt.Base64.{base64url_encode, remove_char, encode_loop}
use apk.Jwt.Examples.{key_mac, secret, token}
use apk.Jwt.Examples.Claims.{claims_json}
use apk.Jwt.Token.{create, verify}
use apk.Redis.{Reply, string, Hiredis, RedisClient}
use apk.Redis.Replies.{reply_or_empty}
use apk.Redis.Connect.{first_free}
use apk.Redis.Commands.{context_at}
use apk.Http.{extract_token, authenticate_request}
use apk.Http.Sessions.{authenticate_request-answered}

abbrev answer : Reply
answer = string (some (lit "bob"))

abbrev pub sessions : Hiredis
sessions = record {
  World = ℕ;
  Context = Unit {0};
  connect = λ host port n. (some tt, n);
  command = λ ctx cmd args n. (some answer, n + 1);
  has_err = λ ctx n. false;
}

abbrev pub client : RedisClient sessions ℕ
client = record {
  config = record { host = []; port = pos 6379; password = []; pool_size = 1; max_retries = 3 };
  pool = record { context = some tt; in_use = false } ∷ [];
  pool_locked = false;
  subscribers = [];
  joinable = true;
  running = true;
  error_callback = false;
  last_error = [];
  reported = [];
  world = 0;
}

abbrev pub auth_header : Str
auth_header = lit "Bearer " ++ token

authenticate_request-answered_example :
    let user_id = verify claims_json key_mac (extract_token auth_header) secret 1000 in
    authenticate_request claims_json key_mac sessions auth_header secret 1000 (some client) ≡ (
      if is_empty user_id
      then done (401, []) (some client)
      else if false
      then blocked (some client)
      else done
          (if not (
              is_empty (reply_or_empty (some answer))
              || not (str_eq (reply_or_empty (some answer)) user_id))
            then (200, user_id)
            else (401, []))
          (some (record client { world = 1 })))
unfolding extract_token is_empty str_eq create find first_free context_at base64url_encode
    remove_char encode_loop
authenticate_request-answered_example =
    authenticate_request-answered claims_json key_mac sessions 0 tt answer 1 client refl refl refl
      auth_header secret 1000 refl refl
