-- ===== src/Http/Sessions.antt =====
-- Whom a request is let in as.
use apk.Base.{
  ℕ, ◌≡◌, refl, ap, ◌∙◌, Bool, true, false, not, ◌||◌, Option, some, [], ◌++◌, if◌then◌else◌,
  Bool-cases, inl, inr,
}
use apk.Base.Text.{Str, lit, str_eq, is_empty}
use apk.Base.Outcome.{Outcome, done, blocked, then_do, give}
use apk.Json.{Json}
use apk.Jwt.Token.{Hmac, verify}
use apk.Redis.{Reply, Hiredis, RedisClient, is_connected}
use apk.Redis.Replies.{c_str, reply_or_empty}
use apk.Redis.Connect.{first_free, connect}
use apk.Redis.Commands.{context_at, get}
use apk.Redis.Commands.Slots.{ask-answered}
use apk.Http.{accept, extract_token, ensure_redis, check_session, pointed, authenticate_request}

locked_or_done :
    {S T : Type 0} {A B : Type 0} (f : Outcome S A → Outcome T B) (o o' : Outcome S A) (b : Bool)
    → f (if b then o else o') ≡ (if b then f o else f o')
locked_or_done f o o' true = refl
locked_or_done f o o' false = refl

module _ (json : Json) (hmac : Hmac) (h : Hiredis) {C : Type 0} (i : ℕ) (ctx : h.Context)
    (answer : Reply) (world' : h.World) (c : RedisClient h C) (up : c.running ≡ true)
    (free : first_free h c.pool ≡ some i) (held : context_at h i c.pool ≡ some ctx) where
  abbrev pub stored : Str
  stored = reply_or_empty (some answer)

  check_session-answered :
      (token user_id : Str)
      → h.command ctx (c_str (lit "GET " ++ (lit "session:" ++ token))) [] c.world
        ≡ (some answer, world')
      → check_session h token user_id (some c) ≡ (
          if c.pool_locked
          then blocked (some c)
          else done
              (not (is_empty stored || not (str_eq stored user_id)))
              (some (record c { world = world' })))
  unfolding check_session is_connected get
  check_session-answered token user_id sent =
      let read : Str → Option (RedisClient h C) → Outcome (Option (RedisClient h C)) Bool =
        λ s. done (not (is_empty s || not (str_eq s user_id))) in
      let key = lit "session:" ++ token in
      ap (λ (b : Bool). if b then then_do (pointed h (get h key c)) read else done true (some c)) up
      ∙ ap (λ o. then_do (pointed h o) read)
          (ask-answered h [] (lit "GET " ++ key) (λ reply. reply) i ctx answer world' c free held
            sent)
      ∙ locked_or_done (λ o. then_do (pointed h o) read) _ _ c.pool_locked

  ensure_redis-up : ensure_redis h (some c) ≡ done true (some c)
  unfolding ensure_redis is_connected
  ensure_redis-up = ap (λ (b : Bool). if b then done true (some c) else pointed h (connect h c)) up

  -- A request with a token, over a connected client that has a free connection, and with an answer
  -- of Redis for the session of that token. Without a valid token the status is 401, and Redis is not
  -- asked. With one, the request waits for ever while the mutex of the connections is locked;
  -- otherwise it is let in, with status 200, exactly if the stored session is that of the token's
  -- user, and the status is 401 if it is not.
  pub authenticate_request-answered :
      (auth_header jwt_secret : Str) (now : ℕ)
      → is_empty (extract_token auth_header) ≡ false
      → h.command ctx
          (c_str (lit "GET " ++ (lit "session:" ++ extract_token auth_header)))
          []
          c.world
        ≡ (some answer, world')
      → let user_id = verify json hmac (extract_token auth_header) jwt_secret now in
        authenticate_request json hmac h auth_header jwt_secret now (some c) ≡ (
          if is_empty user_id
          then done (401, []) (some c)
          else if c.pool_locked
          then blocked (some c)
          else done
              (if not (is_empty stored || not (str_eq stored user_id))
                then (200, user_id)
                else (401, []))
              (some (record c { world = world' })))
  unfolding authenticate_request
  authenticate_request-answered auth_header jwt_secret now token sent =
      let user_id = verify json hmac (extract_token auth_header) jwt_secret now in
      elim (Bool-cases (is_empty user_id)) [
        | inl invalid ↦ rw (token, ensure_redis-up, invalid) refl
        | inr valid ↦
            rw
              (
                token,
                ensure_redis-up,
                valid,
                check_session-answered (extract_token auth_header) user_id sent,
              )
              (locked_or_done (λ o. then_do o (λ ok. give (accept user_id ok))) _ _ c.pool_locked)
      ]
