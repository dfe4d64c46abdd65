-- ===== src/Api/Start.antt =====
-- src/http_api.cpp: the constructor of HttpApi, the thread that connects it to Redis, and the hashing
-- of passwords.
pub mod Stuck
use apk.Base.{ℕ, Bool, true, false, Option, none, some, [], if◌then◌else◌}
use apk.Std.Stoi.{ℤ}
use apk.Base.Text.{Str}
use apk.Base.Outcome.{Action, ◌>>=◌, give, done}
use apk.Redis.{Config, RedisClient, new_client, set_error_callback}
use apk.Redis.Connect.{connect}
use apk.Redis.Replies.{c_str}
use apk.Pg.{open_db}
use apk.Api.{Platform, Api, raise, with_redis}
use apk.Http.{pointed}

pub record HttpConfig : Type 0 where
  pub port : ℕ
  pub db_url : Str
  pub redis_host : Str
  pub redis_port : ℤ
  pub redis_password : Str
  pub jwt_secret : Str

-- The configuration of `redis_`; max_retries has its default.
abbrev pub redis_cfg : HttpConfig → Config
redis_cfg cfg = record {
  host = cfg.redis_host;
  port = cfg.redis_port;
  password = cfg.redis_password;
  pool_size = 4;
  max_retries = 3;
}

module _ (p : Platform) {C : Type 0} where
  -- `sodium_up` tells whether sodium_init succeeds; `none` is the exception.
  unfoldable pub new_api : HttpConfig → Bool → p.pg.World → p.hiredis.World → Option (Api p C)
  new_api cfg sodium_up pg_world redis_world =
      if sodium_up
      then some (record {
        redis =
            some (set_error_callback p.hiredis (new_client p.hiredis (redis_cfg cfg) redis_world));
        db = open_db p.pg cfg.db_url pg_world;
        what = [];
      })
      else none

  abbrev pub connect_pointer : Action (Option (RedisClient p.hiredis C)) Bool
  connect_pointer none = done false none
  connect_pointer (some c) = pointed p.hiredis (connect p.hiredis c)

  -- The detached thread of the constructor, whose result is only logged.
  unfoldable pub connect_in_background : Action (Api p C) (Unit {0})
  connect_in_background = with_redis p connect_pointer >>= λ up. give tt

-- crypto_pwhash_str, with `none` for an error, and crypto_pwhash_str_verify.
pub record PasswordHash : Type 0 where
  pub pwhash_str : Str → Option Str
  pub pwhash_str_verify : Str → Str → Bool

module _ (sodium : PasswordHash) where
  -- `none` is the exception.
  unfoldable pub hash_password : Str → Option Str
  hash_password password = elim (sodium.pwhash_str password) [
    | none ↦ none
    | some hash ↦ some (c_str hash)
  ]

  unfoldable pub verify_password : Str → Str → Bool
  verify_password password hash = sodium.pwhash_str_verify (c_str hash) password
