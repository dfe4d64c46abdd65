-- ===== src/Http.antt =====
-- src/http_api.cpp: HttpApi::authenticate_request and what it calls, over JwtHelper and RedisClient.
-- The state is `redis_`, where `none` is a null pointer; a result is the status code and the user.
pub mod Sessions
pub mod Stored
pub mod Examples
use apk.Base.{
  ℕ, Bool, true, false, not, ◌||◌, Option, none, some, List, [], ◌∷◌, ◌++◌, take, drop,
  if◌then◌else◌,
}
use apk.Base.Text.{Str, lit, str_eq, is_empty}
use apk.Base.Outcome.{Outcome, done, threw, blocked, undefined, Action, then_do, ◌>>=◌, give}
use apk.Json.{Json}
use apk.Jwt.Token.{Hmac, verify}
use apk.Redis.{Hiredis, RedisClient, is_connected}
use apk.Redis.Connect.{connect}
use apk.Redis.Commands.{set, get}

unfoldable pub extract_token : Str → Str
extract_token auth_header =
    if str_eq (take 7 auth_header) (lit "Bearer ") then drop 7 auth_header else []

module _ (h : Hiredis) {C : Type 0} where
  -- A call through `redis_` that is not null.
  abbrev pub pointed :
      {A : Type 0} → Outcome (RedisClient h C) A → Outcome (Option (RedisClient h C)) A
  pointed (done a c) = done a (some c)
  pointed (threw c) = threw (some c)
  pointed (blocked c) = blocked (some c)
  pointed undefined = undefined

  abbrev pub redis_available : Option (RedisClient h C) → Bool
  redis_available none = false
  redis_available (some c) = is_connected h c

  unfoldable pub store_redis_session : Str → Str → Action (Option (RedisClient h C)) (Unit {0})
  store_redis_session session_token user_id none = done tt none
  store_redis_session session_token user_id (some c) =
      if is_connected h c
      then then_do (pointed (set h (lit "session:" ++ session_token) user_id 86400 c))
          (λ _. done tt)
      else done tt (some c)

  -- Whether Redis is connected, after a try to connect.
  unfoldable pub ensure_redis : Action (Option (RedisClient h C)) Bool
  ensure_redis none = done false none
  ensure_redis (some c) = if is_connected h c then done true (some c) else pointed (connect h c)

  -- The session that is stored for the token is the user's; without Redis it is not asked for.
  unfoldable pub check_session : Str → Str → Action (Option (RedisClient h C)) Bool
  check_session token user_id none = done true none
  check_session token user_id (some c) =
      let asked =
        then_do (pointed (get h (lit "session:" ++ token) c))
          (λ stored. done (not (is_empty stored || not (str_eq stored user_id)))) in
      if is_connected h c then asked else done true (some c)

abbrev pub accept : Str → Bool → ℕ × Str
accept user_id ok = if ok then (200, user_id) else (401, [])

module _ (h : Hiredis) {C : Type 0} where
  -- Behind the check that Redis is there.
  abbrev pub check_token : Str → Str → Action (Option (RedisClient h C)) (ℕ × Str)
  check_token token user_id =
      if is_empty user_id
      then give (401, [])
      else (do ok ← check_session h token user_id; give (accept user_id ok))

module _ (json : Json) (hmac : Hmac) (h : Hiredis) {C : Type 0} where
  unfoldable pub authenticate_request : Str → Str → ℕ → Action (Option (RedisClient h C)) (ℕ × Str)
  unfolding extract_token ensure_redis check_session
  authenticate_request auth_header jwt_secret now =
      let token = extract_token auth_header in
      let checked = (do
        up ← ensure_redis h
        if up
            then check_token h token (verify json hmac token jwt_secret now)
            else give (503, [])) in
      if is_empty token then give (401, []) else checked
