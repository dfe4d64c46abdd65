-- ===== src/Server/Examples.antt =====
-- A server whose Redis client cannot connect, with one guest, and the theorems on it.
mod Reach
use apk.Base.{◌≡◌, refl, ◌⊎◌, true, false, none, some, [], ◌∷◌, if◌then◌else◌}
use apk.Std.Stoi.{pos}
use apk.Base.Text.{lit, str_eq}
use apk.Base.Outcome.{done, blocked}
use apk.Redis.Ready.{first_round}
use apk.Server.Lifecycle.{start, start-first_round}
use apk.Key.{int_key, string_key}
use apk.Map.{find}
use apk.Jwt.Examples.Claims.{claims_json, members, text, Value}
use apk.Json.{Json}
use apk.Connection.{WebSocketConnection, queue_message}
use apk.Map.{modify}
use apk.Pool.{write}
use apk.Server.{need, on_pool}
use apk.Server.Events.{handle_chat_message, on_client_message}
use apk.Server.Websocket.{on_message}
use apk.Server.Websocket.Sent.{
  sent_all, dump_all, refusal_message, on_message-flushed, on_message-guest,
}
use apk.Pool.{get_connection}
use apk.Redis.{Hiredis, RedisClient, other}
use apk.Encryption.Keys.{Sodium}
use apk.Server.{Event, Server}
use apk.Server.Guards.{refused, handle_message-unauthenticated}
use apk.Server.Events.{handle_message, handle_authentication}
use apk.Server.Login.{is_done, handle_authentication-is_done}

-- A Redis that cannot be reached.
abbrev pub absent : Hiredis
absent = record {
  World = Unit {0};
  Context = Unit {0};
  connect = λ host port w. (none, w);
  command = λ ctx cmd args w. (some other, w);
  has_err = λ ctx w. false;
}

abbrev pub plain_keys : Sodium
plain_keys = record {
  scalarmult_base = λ sk. sk;
  kx_client_session_keys = λ pk sk peer. some (pk, peer);
}

abbrev guest : WebSocketConnection Value
guest = record {
  connection_id = 4;
  user_id = [];
  session_id = [];
  authenticated = false;
  connected = true;
  is_typing = false;
  created_at = 100;
  last_activity = 100;
  outgoing_queue = [];
}

abbrev pub event : Event
event = record {
  seconds = 5;
  ticks = 5000;
  fresh_keys = record { public_key = []; private_key = [] };
}

abbrev redis : RedisClient absent (Unit {0})
redis = record {
  config = record { host = []; port = pos 6379; password = []; pool_size = 1; max_retries = 3 };
  pool = record { context = none; in_use = false } ∷ [];
  pool_locked = false;
  subscribers = [];
  joinable = false;
  running = false;
  error_callback = true;
  last_error = [];
  reported = [];
  world = tt;
}

abbrev server : Server claims_json absent
server = record {
  running = true;
  redis = redis;
  pool = record { connections = (4, some guest) ∷ []; user_to_connection = [] };
  server_keys = record { public_key = []; private_key = [] };
  user_ratchets = [];
  ratchet_locked = false;
}

abbrev pub chat : Value
chat = members ((lit "type", text (lit "message")) ∷ (lit "to", text (lit "bob")) ∷ [])

abbrev credentials : Value
credentials = members ((lit "type", text (lit "auth")) ∷ (lit "username", text (lit "eve")) ∷ [])

handle_message-unauthenticated_example :
    handle_message claims_json absent plain_keys 4 chat event server
    ≡ done tt (
        if str_eq (lit "message") (lit "message")
        then refused claims_json absent plain_keys 4 server
        else server)
unfolding get_connection find str_eq
handle_message-unauthenticated_example =
    handle_message-unauthenticated claims_json absent plain_keys 4 chat event (lit "message") server
      guest refl refl refl refl

handle_authentication-is_done_example :
    is_done (handle_authentication claims_json absent plain_keys 4 credentials event server) ≡ false
unfolding get_connection find
handle_authentication-is_done_example =
    handle_authentication-is_done claims_json absent plain_keys 4 credentials event server guest
      refl

abbrev stopped : Server claims_json absent
stopped = record server { running = false }

start-first_round_example :
    ((first_round absent stopped.redis ≡ true)
      × ((t : Server claims_json absent) × (start claims_json absent stopped ≡ done true t)))
    ⊎ ((first_round absent stopped.redis ≡ false)
        × ((t : Server claims_json absent) × (start claims_json absent stopped ≡ blocked t)))
start-first_round_example = start-first_round claims_json absent 2 stopped refl refl refl refl

-- A library of JSON that reads every text as `chat`, and prints everything alike.
abbrev pub talk_json : Json
talk_json = record claims_json { parse = λ s. some chat; dump = λ v. some (lit "{}") }

abbrev pub talking : Server talk_json absent
talking = record {
  running = true;
  redis = redis;
  pool = server.pool;
  server_keys = server.server_keys;
  user_ratchets = [];
  ratchet_locked = false;
}

abbrev told : WebSocketConnection Value
told = queue_message (refusal_message talk_json absent plain_keys) guest

on_message-flushed_example :
    on_message talk_json absent plain_keys 4
      (lit "hello")
      event
      (record { messenger = some talking; sent = [] })
    ≡ sent_all talk_json absent plain_keys 4 told
        (refused talk_json absent plain_keys 4 talking)
        (lit "{}" ∷ [])
unfolding get_connection find str_eq on_client_message handle_message handle_chat_message need
    on_pool queue_message dump_all write modify
on_message-flushed_example =
    on_message-flushed talk_json absent plain_keys 4 (lit "hello") event talking
      (refused talk_json absent plain_keys 4 talking) told [] (lit "{}" ∷ []) refl refl refl

on_message-guest_example :
    on_message talk_json absent plain_keys 4
      (lit "hello")
      event
      (record { messenger = some talking; sent = lit "hi" ∷ [] })
    ≡ sent_all talk_json absent plain_keys 4 told
        (refused talk_json absent plain_keys 4 talking)
        (lit "hi" ∷ lit "{}" ∷ [])
unfolding get_connection find str_eq dump_all queue_message
on_message-guest_example =
    on_message-guest talk_json absent plain_keys 4 (lit "hello") chat event talking guest
      (lit "hi" ∷ []) (lit "{}" ∷ []) refl refl refl refl refl
