-- ===== src/Http/Stored.antt =====
-- A session that was stored, and the requests that come with its token.
use apk.Base.{
  ℕ, ◌≡◌, refl, ap, ◌∙◌, Bool, true, false, not, ◌||◌, Option, some, [], ◌++◌, ltb, if◌then◌else◌,
  All, Bool-cases, inl, inr,
}
use apk.Base.Text.{Str, lit, str_eq, str_eq_iff, is_empty}
use apk.Base.Outcome.{Outcome, done, blocked, then_do}
use apk.Std.Bytes.{IsWord}
use apk.Json.{Json}
use apk.Jwt.Token.{Hmac, verify}
use apk.Redis.{Reply, string, Hiredis, RedisClient, is_connected}
use apk.Redis.Replies.{reply_or_empty, reply_text}
use apk.Redis.Connect.{first_free}
use apk.Redis.Commands.{context_at, set}
use apk.Redis.Commands.Store.{live, Store, set-stored, asked-answer, key_IsWord}
use apk.Http.{extract_token, store_redis_session, pointed, authenticate_request}
use apk.Http.Sessions.{authenticate_request-answered}

abbrev pub session_key : Str → Str
session_key token = lit "session:" ++ token

abbrev pub bearer : Str → Str
bearer token = lit "Bearer " ++ token

-- Whether the text that is stored is the user's.
abbrev pub is_session : Str → Str → Bool
is_session text user_id = not (is_empty text || not (str_eq text user_id))

module _ (h : Hiredis) {C : Type 0} (i : ℕ) (ctx : h.Context) (store : Store h ctx)
    (c : RedisClient h C) (unlocked : c.pool_locked ≡ false) (up : c.running ≡ true)
    (free : first_free h c.pool ≡ some i) (held : context_at h i c.pool ≡ some ctx) where
  pub store_redis_session-stored :
      (token user_id : Str)
      → All IsWord token
      → All IsWord user_id
      → store_redis_session h token user_id (some c)
        ≡ done tt
            (some (record c { world = store.stored (session_key token) user_id 86400 c.world }))
  unfolding store_redis_session is_connected
  store_redis_session-stored token user_id ht hu =
      ap
        (λ (b : Bool).
          if b
          then then_do (pointed h (set h (session_key token) user_id 86400 c)) (λ _. done tt)
          else done tt (some c))
        up
      ∙ ap (λ o. then_do (pointed h o) (λ _. done tt))
          (set-stored h i ctx store c unlocked free held (session_key token) user_id
            (key_IsWord token ht) hu)

-- The text that Redis answers for a session of the user is the user's up to its expiry.
is_session-live :
    (user_id : Str) (now expires : ℕ)
    → is_empty user_id ≡ false
    → is_session
        (reply_or_empty
          (some (string (live now (some (record { value = user_id; expires = expires }))))))
        user_id
      ≡ ltb now expires
unfolding reply_text is_empty
is_session-live user_id now expires named = elim (Bool-cases (ltb now expires)) [
  | inl e ↦ rw (e, named, (str_eq_iff user_id user_id).1 refl) refl
  | inr e ↦ rw e refl
]

module _ (json : Json) (hmac : Hmac) (h : Hiredis) {C : Type 0} (i : ℕ) (ctx : h.Context)
    (store : Store h ctx) (c : RedisClient h C) (up : c.running ≡ true)
    (free : first_free h c.pool ≡ some i) (held : context_at h i c.pool ≡ some ctx)
    (token user_id secret : Str) (now : ℕ) (ht : All IsWord token)
    (full : is_empty token ≡ false) where
  abbrev answer : Reply
  answer = string (live (store.clock c.world) (store.entry_at c.world (session_key token)))

  abbrev pub after_request : RedisClient h C
  after_request = record c { world = store.asked (session_key token) c.world }

  abbrev let_in : Str → Outcome (Option (RedisClient h C)) (ℕ × Str)
  let_in uid =
      if is_empty uid
      then done (401, []) (some c)
      else if c.pool_locked
      then blocked (some c)
      else done (if is_session (reply_or_empty (some answer)) uid then (200, uid) else (401, []))
          (some after_request)

  authenticate_request-bearer :
      authenticate_request json hmac h (bearer token) secret now (some c)
      ≡ let_in (verify json hmac token secret now)
  unfolding extract_token str_eq
  authenticate_request-bearer =
      authenticate_request-answered json hmac h i ctx answer
        (store.asked (session_key token) c.world) c up free held (bearer token) secret now full
        (asked-answer h ctx store c (session_key token) (key_IsWord token ht))

  -- With a valid token of the user, whose session expires at `expires`.
  pub authenticate_request-session :
      (expires : ℕ)
      → is_empty user_id ≡ false
      → verify json hmac token secret now ≡ user_id
      → store.entry_at c.world (session_key token)
        ≡ some (record { value = user_id; expires = expires })
      → authenticate_request json hmac h (bearer token) secret now (some c) ≡ (
          if c.pool_locked
          then blocked (some c)
          else done
              (if ltb (store.clock c.world) expires then (200, user_id) else (401, []))
              (some after_request))
  authenticate_request-session expires named valid kept =
      authenticate_request-bearer
      ∙ rw (valid, named, kept, is_session-live user_id (store.clock c.world) expires named) refl

  pub authenticate_request-invalid :
      verify json hmac token secret now ≡ []
      → authenticate_request json hmac h (bearer token) secret now (some c)
        ≡ done (401, []) (some c)
  unfolding is_empty
  authenticate_request-invalid invalid = authenticate_request-bearer ∙ rw invalid refl
