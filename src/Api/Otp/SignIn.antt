-- ===== src/Api/Otp/SignIn.antt =====
-- A user who signs in, and the requests that come with the token of the response.
use apk.Base.{
  ℕ, ◌+◌, ◌≡◌, refl, ◌∙◌, false, true, some, List, [], ◌∷◌, ltb, if◌then◌else◌, All, Bool-cases,
  inl, inr,
}
use apk.Base.Text.{Str, lit, is_empty}
use apk.Base.Outcome.{done, blocked}
use apk.Std.Bytes.{IsWord}
use apk.Json.{JsonLaws}
use apk.Jwt.Token.{create, lifetime}
use apk.Jwt.Token.RoundTrip.{verify-create}
use apk.Jwt.Token.Words.{create-IsWord, create-is_empty}
use apk.Redis.{RedisClient}
use apk.Redis.Connect.{first_free}
use apk.Redis.Commands.{context_at}
use apk.Redis.Commands.Store.{Store}
use apk.Http.{authenticate_request}
use apk.Http.Stored.{
  session_key, bearer, store_redis_session-stored, authenticate_request-session,
  authenticate_request-invalid,
}
use apk.Pg.{PgDb, returned, Row, column, query}
use apk.Api.{Platform, Response, Api, settle, kept, or_raise, with_redis, json_resp}
use apk.Api.Statements.Accounts.{account_sql, user_by_email}
use apk.Api.Otp.{signed_in, sign_in}

module _ (p : Platform) (laws : JsonLaws p.json) {C : Type 0} (ctx : p.hiredis.Context)
    (store : Store p.hiredis ctx) (i : ℕ) (c : RedisClient p.hiredis C)
    (unlocked : c.pool_locked ≡ false) (up : c.running ≡ true)
    (free : first_free p.hiredis c.pool ≡ some i) (held : context_at p.hiredis i c.pool ≡ some ctx)
    (user_id secret token : Str) (iat : ℕ) (words : All IsWord user_id)
    (named : is_empty user_id ≡ false)
    (made : create p.json p.hmac user_id secret iat ≡ some token) where
  -- The world of Redis after the session is stored.
  abbrev pub session_world : p.hiredis.World
  session_world = store.stored (session_key token) user_id 86400 c.world

  abbrev pub server_after : PgDb p.pg → Str → Api p C
  server_after db what = record {
    redis = some (record c { world = session_world });
    db = db;
    what = what;
  }

  sign_in-stored :
      (email what : Str) (db db' : PgDb p.pg) (row : Row) (rows : List Row)
      → query p.pg (account_sql user_by_email) (email ∷ []) db ≡ (returned (row ∷ rows), db')
      → column (lit "id") row ≡ some user_id
      → sign_in p secret iat email (record { redis = some c; db = db; what = what })
        ≡ json_resp p 200 (signed_in p token user_id row) (server_after db' what)
  unfolding sign_in apk.Api.db_query
  sign_in-stored email what db db' row rows found has_id =
      let saved =
        store_redis_session-stored p.hiredis i ctx store c unlocked up free held token user_id
          (create-IsWord p.json laws p.hmac user_id secret token iat made) words in
      rw (found, has_id, made, saved) refl

  module _ (j : ℕ) (later : RedisClient p.hiredis C) (up' : later.running ≡ true)
      (free' : first_free p.hiredis later.pool ≡ some j)
      (held' : context_at p.hiredis j later.pool ≡ some ctx) (now : ℕ) where
    -- Up to 30 days, and while the session has not expired.
    session-answered :
        store.entry_at later.world (session_key token)
          ≡ store.entry_at session_world (session_key token)
        → authenticate_request p.json p.hmac p.hiredis (bearer token) secret now (some later) ≡ (
            if ltb (iat + lifetime) now
            then done (401, []) (some later)
            else if later.pool_locked
            then blocked (some later)
            else done
                (if ltb (store.clock later.world) (store.clock c.world + 86400)
                  then (200, user_id)
                  else (401, []))
                (some (record later { world = store.asked (session_key token) later.world })))
    session-answered same =
        let ht = create-IsWord p.json laws p.hmac user_id secret token iat made in
        let full = create-is_empty p.json laws p.hmac user_id secret token iat made in
        let checked = verify-create p.json laws p.hmac user_id secret token iat now made in
        elim (Bool-cases (ltb (iat + lifetime) now)) [
          | inl e ↦ rw e (
              authenticate_request-invalid p.json p.hmac p.hiredis j ctx store later up' free' held'
                token user_id secret now ht full (rw e at checked))
          | inr e ↦ rw e (
              authenticate_request-session p.json p.hmac p.hiredis j ctx store later up' free' held'
                token user_id secret now ht full (store.clock c.world + 86400) named
                (rw e at checked)
                (same ∙ store.entry_at-stored c.world (session_key token) user_id))
        ]

    -- Over a connected client, whose mutex is not locked, with a free connection to a Redis that keeps
    -- texts for their time to live, and for an address whose user the database finds: signing in
    -- stores a session and responds with a token. A request that bears this token, at any later time
    -- over a connected client with a free connection to that Redis and with the session's entry as it
    -- was stored, gets the status 401 when the token is more than 30 days old. Before that it waits
    -- for ever while that client's mutex is locked; otherwise it is let in as this user with status
    -- 200 exactly if Redis's clock has moved by less than 24 hours, and gets the status 401 after
    -- that.
    pub sign_in-authenticate_request :
        (email what : Str) (db db' : PgDb p.pg) (row : Row) (rows : List Row)
        → query p.pg (account_sql user_by_email) (email ∷ []) db ≡ (returned (row ∷ rows), db')
        → column (lit "id") row ≡ some user_id
        → store.entry_at later.world (session_key token)
          ≡ store.entry_at session_world (session_key token)
        → (sign_in p secret iat email (record { redis = some c; db = db; what = what })
            ≡ json_resp p 200 (signed_in p token user_id row) (server_after db' what))
          × (authenticate_request p.json p.hmac p.hiredis (bearer token) secret now (some later) ≡ (
              if ltb (iat + lifetime) now
              then done (401, []) (some later)
              else if later.pool_locked
              then blocked (some later)
              else done
                  (if ltb (store.clock later.world) (store.clock c.world + 86400)
                    then (200, user_id)
                    else (401, []))
                  (some (record later { world = store.asked (session_key token) later.world }))))
    sign_in-authenticate_request email what db db' row rows found has_id same =
        (sign_in-stored email what db db' row rows found has_id, session-answered same)
