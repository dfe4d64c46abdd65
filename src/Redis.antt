-- ===== src/Redis.antt =====
-- include/redis_client.hpp and src/redis_client.cpp: class RedisClient over the library hiredis.
pub mod Connect
pub mod Replies
pub mod Ready
pub mod Password
pub mod Commands
mod Examples
use apk.Base.{ℕ, Bool, true, false, Option, none, some, List, [], ◌∷◌, replicate}
use apk.Base.Text.{Str}
use apk.Std.Stoi.{ℤ}

-- redisReply; a text may be a null pointer. The last constructor is any other type.
pub data Reply : Type 0 where
  string : Option Str → Reply
  status : Option Str → Reply
  integer : ℤ → Reply
  array : List (Option Str) → Reply
  other : Reply

pub data Argument : Type 0 where
  text : Str → Argument
  number : ℤ → Argument

-- hiredis and what lies behind it. `connect` gives no context where the call returns null or a
-- context with an error. `command` takes a format string and its arguments, and needs a context.
pub record Hiredis : Type 1 where
  pub World : Type 0
  pub Context : Type 0
  pub connect : Str → ℤ → World → Option Context × World
  pub command : Context → Str → List Argument → World → Option Reply × World
  pub has_err : Context → World → Bool

pub record Config : Type 0 where
  pub host : Str
  pub port : ℤ
  pub password : Str
  pub pool_size : ℕ
  pub max_retries : ℕ

pub record Connection (Context : Type 0) : Type 0 where
  pub context : Option Context
  pub in_use : Bool

-- `C` is the type of the subscribers' callbacks. `joinable` is that of `subscriber_thread_`,
-- `pool_locked` that of `pool_mutex_`; `reported` are the calls of `error_callback_`, latest first.
pub record RedisClient (h : Hiredis) (C : Type 0) : Type 0 where
  pub config : Config
  pub pool : List (Connection h.Context)
  pub pool_locked : Bool
  pub subscribers : List (Str × C)
  pub joinable : Bool
  pub running : Bool
  pub error_callback : Bool
  pub last_error : Str
  pub reported : List Str
  pub world : h.World

module _ (h : Hiredis) {C : Type 0} where
  -- The constructor.
  unfoldable pub new_client : Config → h.World → RedisClient h C
  new_client config world = record {
    config = config;
    pool = replicate config.pool_size (record { context = none; in_use = false });
    pool_locked = false;
    subscribers = [];
    joinable = false;
    running = false;
    error_callback = false;
    last_error = [];
    reported = [];
    world = world;
  }

  unfoldable pub set_error_callback : RedisClient h C → RedisClient h C
  set_error_callback c = record c { error_callback = true }

  pub get_last_error : RedisClient h C → Str
  get_last_error c = c.last_error

  unfoldable pub is_connected : RedisClient h C → Bool
  is_connected c = c.running

  -- last_error_ = message; if (error_callback_) error_callback_(last_error_);
  unfoldable pub report : Str → RedisClient h C → RedisClient h C
  report message c = elim c.error_callback [
    | true ↦ record c { last_error = message; reported = message ∷ c.reported }
    | false ↦ record c { last_error = message }
  ]
