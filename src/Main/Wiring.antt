-- ===== src/Main/Wiring.antt =====
-- src/main.cpp: how the settings are handed to both servers.
use apk.Base.{ℕ, ◌≡◌, refl, Bool, true, false, Option, some, [], inl, inr, sym, ◌∙◌, ap}
use mathlib.Core.Bool.{false≢true}
use apk.Base.Text.{Str, is_empty}
use apk.Base.Outcome.{done, blocked, then_do, give}
use apk.Pg.{open_db}
use apk.Http.{pointed}
use apk.Std.Stoi.{ℤ}
use apk.Json.{Json}
use apk.Encryption.Keys.{KeyPair}
use apk.Redis.{Hiredis, RedisClient, new_client, set_error_callback}
use apk.Redis.Replies.{c_str}
use apk.Redis.Connect.{connect}
use apk.Redis.Ready.{connect-first_round}
use apk.Redis.Password.{Guarded, open_all-unauthorized, open_all-authorized}
use apk.Server.{Server}
use apk.Pool.{empty_pool}
use apk.Server.Lifecycle.{redis_config, new_messenger, start, start-first_round}
use apk.Api.{Platform, Api, kept}
use apk.Api.Start.{HttpConfig, new_api, connect_in_background}
use apk.Api.Start.Stuck.{fresh_client}
use apk.Main.{Settings}
use apk.Main.Servers.{start_in_background, start_in_background-start}

-- MessengerServer::Config, as far as main sets it.
pub record MessengerConfig : Type 0 where
  pub db_connection : Str
  pub redis_host : Str
  pub redis_port : ℤ
  pub ws_port : ℕ
  pub port : ℕ
  pub log_level : Str

unfoldable pub ws_cfg : Settings → MessengerConfig
ws_cfg s = record {
  db_connection = s.db_url;
  redis_host = s.redis.host;
  redis_port = s.redis.port;
  ws_port = s.ws_port;
  port = 0;
  log_level = s.log_level;
}

unfoldable pub http_cfg : Settings → HttpConfig
http_cfg s = record {
  port = s.http_port;
  db_url = s.db_url;
  redis_host = s.redis.host;
  redis_port = s.redis.port;
  redis_password = s.redis.password;
  jwt_secret = s.jwt_secret;
}

module _ (json : Json) (h : Hiredis) where
  -- new MessengerServer(ws_cfg)
  unfoldable pub ws_server : Settings → Bool → KeyPair → h.World → Option (Server json h)
  ws_server s sodium_up keys world =
      let cfg = ws_cfg s in new_messenger json h cfg.redis_host cfg.redis_port sodium_up keys world

module _ (p : Platform) {C : Type 0} {password : Str} (guarded : Guarded p.hiredis password)
    (s : Settings) where
  -- The client of HttpApi connects.
  connect-authorized :
      (world : p.hiredis.World)
      → is_empty s.redis.password ≡ false
      → c_str s.redis.password ≡ password
      → (d : RedisClient p.hiredis C) × (connect p.hiredis (fresh_client p (http_cfg s) world)
          ≡ done true d)
        × (d.running ≡ true)
  unfolding http_cfg new_client set_error_callback
  connect-authorized world full right =
      let opens =
        open_all-authorized p.hiredis guarded s.redis.host s.redis.port s.redis.password _ world
          full right in
      elim (connect-first_round p.hiredis {C = C} 2 (fresh_client p (http_cfg s) world) refl refl
        refl) [
          | inl (good, (d, returns, up, unlocked, contexts)) ↦ (d, returns, up)
          | inr (bad, blocks) ↦ absurd (false≢true (sym bad ∙ opens))
        ]

module _ (json : Json) (h : Hiredis) (s : Settings) (keys : KeyPair) (world : h.World) where
  abbrev pub fresh_messenger : Server json h
  fresh_messenger = record {
    running = false;
    redis = new_client h (redis_config s.redis.host s.redis.port) world;
    pool = empty_pool;
    server_keys = keys;
    user_ratchets = [];
    ratchet_locked = false;
  }

  ws_server-fresh : ws_server json h s true keys world ≡ some fresh_messenger
  unfolding ws_server ws_cfg new_messenger
  ws_server-fresh = refl

  module _ {password : Str} (guarded : Guarded h password) where
    -- The client of MessengerServer has no password, and the call of `start` waits for ever.
    start-unauthorized : (t : Server json h) × (start json h fresh_messenger ≡ blocked t)
    unfolding new_client
    start-unauthorized =
        let fails = open_all-unauthorized h guarded s.redis.host s.redis.port _ _ world in
        elim (start-first_round json h 2 fresh_messenger refl refl refl refl) [
          | inl (good, returns) ↦ absurd (false≢true (sym fails ∙ good))
          | inr (bad, blocks) ↦ blocks
        ]

module _ (p : Platform) (C : Type 0) {password : Str} (guarded : Guarded p.hiredis password)
    (s : Settings) where
  api_connected :
      (pg_world : p.pg.World) (world : p.hiredis.World)
      → is_empty s.redis.password ≡ false
      → c_str s.redis.password ≡ password
      → (a : Api p C) × (b : Api p C) × (d : RedisClient p.hiredis C) × (new_api p
            (http_cfg s)
            true
            pg_world
            world
          ≡ some a)
        × (connect_in_background p a ≡ done tt b)
        × (b.redis ≡ some d)
        × (d.running ≡ true)
  unfolding new_api connect_in_background http_cfg
  api_connected pg_world world full right =
      let (d, returns, up) = connect-authorized p {C = C} guarded s world full right in
      let start : Api p C = record {
        redis = some (fresh_client p (http_cfg s) world);
        db = open_db p.pg s.db_url pg_world;
        what = [];
      } in
      (
        start,
        record start { redis = some d },
        d,
        refl,
        ap (λ o. then_do (kept p start (pointed p.hiredis o)) (λ up. give tt)) returns,
        refl,
        up,
      )

  -- Over a Redis that serves nobody before its password is given, where the settings hold this
  -- password, and it is not empty: the HttpApi that is made of the settings connects in its thread.
  -- The MessengerServer that is made of the same settings gives no password, and the thread that
  -- starts it, with any number of attempts left, waits for ever.
  pub start_in_background_unauthorized :
      (left : ℕ) (keys : KeyPair) (pg_world : p.pg.World) (world world' : p.hiredis.World)
      → is_empty s.redis.password ≡ false
      → c_str s.redis.password ≡ password
      → ((a : Api p C) × (b : Api p C) × (d : RedisClient p.hiredis C) × (new_api p
              (http_cfg s)
              true
              pg_world
              world
            ≡ some a)
          × (connect_in_background p a ≡ done tt b)
          × (b.redis ≡ some d)
          × (d.running ≡ true))
        × ((m : Server p.json p.hiredis) × (t : Server p.json p.hiredis) × (ws_server p.json
                p.hiredis s true keys world'
              ≡ some m)
            × (start_in_background p.json p.hiredis left m ≡ blocked t))
  start_in_background_unauthorized left keys pg_world world world' full right =
      let m = fresh_messenger p.json p.hiredis s keys world' in
      let (t, waits) = start-unauthorized p.json p.hiredis s keys world' guarded in
      (
        api_connected pg_world world full right,
        (
          m,
          t,
          ws_server-fresh p.json p.hiredis s keys world',
          (start_in_background-start p.json p.hiredis left m).0 ∙ waits,
        ),
      )
