-- ===== src/Server.antt =====
-- include/messenger_server.hpp and src/messenger_server.cpp: class MessengerServer over
-- ConnectionPool, RedisClient and nlohmann::json. Each handler is one action on the server; what the
-- clock and the generator of keys give during an event is in `Event`. Logging is left out.
pub mod Handlers
pub mod Guards
pub mod Login
pub mod Events
pub mod Sound
pub mod Lifecycle
pub mod Websocket
pub mod Examples
use apk.Base.{ℕ, Bool, true, false, Option, none, some, List, [], ◌∷◌, ◌++◌}
use apk.Base.Text.{Str, lit}
use apk.Base.Outcome.{Outcome, done, threw, blocked, undefined, Action, ◌>>=◌, ◌>>◌, give}
use apk.Std.Decimal.{to_string}
use apk.Std.Stoi.{ℤ, pos}
use apk.Json.{Json}
use apk.Connection.{Message, WebSocketConnection}
use apk.Pool.{ConnectionPool, write}
use apk.Redis.{Hiredis, RedisClient}
use apk.Encryption.Keys.{KeyPair, DoubleRatchet}

-- std::time, the ticks of system_clock, and the result of generate_keypair.
pub record Event : Type 0 where
  pub seconds : ℕ
  pub ticks : ℕ
  pub fresh_keys : KeyPair

-- A subscriber is always the closure that calls redis_message_handler.
abbrev pub Redis : Hiredis → Type 0
Redis h = RedisClient h (Unit {0})

pub record MessengerServer (json : Json) (h : Hiredis) : Type 0 where
  pub running : Bool
  pub redis : Redis h
  pub pool : ConnectionPool json.J
  pub server_keys : KeyPair
  pub user_ratchets : List (Str × DoubleRatchet)
  pub ratchet_locked : Bool

module _ (json : Json) (h : Hiredis) where
  abbrev pub Server : Type 0
  Server = MessengerServer json h

  -- A call of a method of `redis_`.
  abbrev pub lifted : {A : Type 0} → Server → Outcome (Redis h) A → Outcome Server A
  lifted s (done a r) = done a (record s { redis = r })
  lifted s (threw r) = threw (record s { redis = r })
  lifted s (blocked r) = blocked (record s { redis = r })
  lifted s undefined = undefined

  unfoldable pub on_redis : {A : Type 0} → Action (Redis h) A → Action Server A
  on_redis m s = lifted s (m s.redis)

  unfoldable pub on_pool :
      (ConnectionPool json.J → ConnectionPool json.J) → Action Server (Unit {0})
  on_pool f s = done tt (record s { pool = f s.pool })

  -- A call into the JSON library that may throw.
  unfoldable pub need : {A : Type 0} → Option A → Action Server A
  need none s = threw s
  need (some a) s = done a s

  -- A WebSocketConnection::Message with only its type and payload set.
  abbrev pub message_of : Str → List (Str × json.J) → Message json.J
  message_of type payload = record {
    type = type;
    payload = json.object payload;
    timestamp = 0;
    requires_ack = false;
  }

  abbrev pub time_field : Event → json.J
  time_field e = json.integer (pos e.seconds)
