-- ===== src/Server/Lifecycle.antt =====
-- The constructor's client of Redis, start, stop, and the status of a user.
use apk.Base.{
  ℕ, zero, suc, ◌≡◌, refl, ◌⊎◌, inl, inr, Bool, true, false, Option, none, some, [], ◌∷◌,
  if◌then◌else◌, length,
}
use apk.Std.Stoi.{ℤ}
use apk.Base.Text.{Str, lit}
use apk.Base.Outcome.{done, blocked, Action, then_do, ◌>>=◌, give}
use apk.Encryption.Keys.{KeyPair}
use apk.Json.{Json}
use apk.Pool.{empty_pool, find_by_user, get_total_connections, get_online_users}
use apk.Redis.{new_client, Hiredis, Config, set_error_callback, is_connected}
use apk.Redis.Connect.{connect, disconnect}
use apk.Redis.Ready.{first_round, connect-first_round}
use apk.Server.{Event, Server, on_redis, time_field}

-- The configuration of the client; the password is left empty, and the rest has its defaults.
abbrev pub redis_config : Str → ℤ → Config
redis_config redis_host redis_port = record {
  host = redis_host;
  port = redis_port;
  password = [];
  pool_size = 32;
  max_retries = 3;
}

module _ (json : Json) (h : Hiredis) where
  -- The constructor, where `sodium_up` tells whether E2EEncryption::initialize succeeds, and `keys`
  -- is the key pair that it makes; `none` is the exception.
  unfoldable pub new_messenger : Str → ℤ → Bool → KeyPair → h.World → Option (Server json h)
  new_messenger redis_host redis_port sodium_up keys world =
      if sodium_up
      then some (record {
        running = false;
        redis = new_client h (redis_config redis_host redis_port) world;
        pool = empty_pool;
        server_keys = keys;
        user_ratchets = [];
        ratchet_locked = false;
      })
      else none

  -- The loop of start, with that many attempts left.
  unfoldable pub connect_redis : ℕ → Action (Server json h) Bool
  unfolding on_redis connect
  connect_redis zero = give false
  connect_redis (suc attempts) = do
    connected ← on_redis json h (connect h)
    if connected then give true else connect_redis attempts

  unfoldable pub start : Action (Server json h) Bool
  unfolding connect_redis
  start s =
      let ready = record s { redis = set_error_callback h s.redis } in
      let started =
        then_do (connect_redis 10 ready)
          (λ connected s'. done true (record s' { running = true })) in
      if s.running then done true s else started

  unfoldable pub stop : Action (Server json h) (Unit {0})
  unfolding on_redis disconnect
  stop s =
      if s.running then on_redis json h (disconnect h) (record s { running = false }) else done tt s

  -- A lookup, with what find_by_user does to the pool.
  unfoldable pub get_user_status : Str → Server json h → json.J × Server json h
  unfolding find_by_user
  get_user_status user_id s =
      let (id, conn, p) = find_by_user user_id s.pool in
      let status : json.J = elim conn [
        | none ↦ json.object (
            (lit "online", json.boolean false)
            ∷ (lit "user_id", json.text user_id)
            ∷ (lit "last_activity", json.natural 0)
            ∷ [])
        | some c ↦ json.object (
            (lit "online", json.boolean true)
            ∷ (lit "user_id", json.text user_id)
            ∷ (lit "last_activity", json.natural c.last_activity)
            ∷ (lit "typing", json.boolean c.is_typing)
            ∷ [])
      ] in
      (status, record s { pool = p })

  unfoldable pub get_server_stats : Event → Server json h → json.J
  get_server_stats e s = json.object (
      (lit "timestamp", time_field json h e)
      ∷ (lit "uptime_seconds", json.natural 0)
      ∷ (lit "total_connections", json.natural (get_total_connections s.pool))
      ∷ (lit "online_users", json.natural (length (get_online_users s.pool)))
      ∷ (lit "redis_connected", json.boolean (is_connected h s.redis))
      ∷ [])

  -- `start` of a server that is not running, whose client is not connected and has a try: where the
  -- first round over the pool connects, it returns true; where that fails, `start` never returns,
  -- so the server does not go on without Redis.
  pub start-first_round :
      (r : ℕ) (s : Server json h)
      → s.running ≡ false
      → s.redis.pool_locked ≡ false
      → s.redis.running ≡ false
      → s.redis.config.max_retries ≡ suc r
      → ((first_round h s.redis ≡ true) × ((t : Server json h) × (start s ≡ done true t)))
        ⊎ ((first_round h s.redis ≡ false) × ((t : Server json h) × (start s ≡ blocked t)))
  unfolding start connect_redis on_redis set_error_callback
  start-first_round r s idle free fresh tries =
      elim (connect-first_round h r (set_error_callback h s.redis) free fresh tries) [
        | inl (good, (d, returns, up, unlocked, contexts)) ↦
            inl (good, (record s { redis = d; running = true }, rw (idle, returns) refl))
        | inr (bad, (d, blocks)) ↦ inr (bad, (record s { redis = d }, rw (idle, blocks) refl))
      ]
