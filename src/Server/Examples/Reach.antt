-- ===== src/Server/Examples/Reach.antt =====
-- A websocket is opened and brings a message, on a server with an empty pool.
use apk.Base.{ℕ, Bool, ◌≡◌, refl, some, [], ◌∷◌, some_inj, ap, ◌∙◌, arith}
use apk.Base.Text.{Str, lit, str_eq}
use apk.Key.{int_key, string_key}
use apk.Map.{find, assign, modify}
use apk.Connection.{
  Message, WebSocketConnection, mark_connected, new_connection, queue_message, dequeue_message,
  pending_messages,
}
use apk.Pool.{
  ConnectionPool, empty_pool, write, create_connection, get_connection, remove_connection,
  broadcast_except,
}
use apk.Pool.Sound.{IsSound, empty-IsSound}
use apk.Jwt.Examples.Claims.{Value}
use apk.Server.{Server, need, on_pool}
use apk.Server.Handlers.{on_client_connected}
use apk.Server.Events.{handle_chat_message, handle_message, on_client_message}
use apk.Server.Websocket.{on_open, on_message, send_queued}
use apk.Server.Examples.{absent, plain_keys, event, talk_json, talking, chat}
use apk.Server.Sound.Reach.{Reached, at_start, after, opened, said, perform, Reached-IsSound}

abbrev quiet : Server talk_json absent
quiet = record talking { pool = empty_pool }

abbrev greeted : WebSocketConnection Value
greeted = mark_connected 5000 (new_connection 4 5000)

no_login :
    (message : Value)
    → some chat ≡ some message
    → talk_json.value_text message (lit "type") (lit "unknown") ≡ some (lit "auth")
    → ⊥
unfolding find str_eq
no_login message parsed is_login =
    let same : lit "message" ≡ lit "auth" = some_inj (
      ap (λ m. talk_json.value_text m (lit "type") (lit "unknown")) (some_inj parsed) ∙ is_login) in
    ground arith

abbrev open_server : Server talk_json absent
open_server = record talking {
  pool = record { connections = (4, some greeted) ∷ []; user_to_connection = [] };
}

talked : Reached talk_json absent plain_keys quiet open_server
unfolding find assign modify perform on_open on_message on_client_connected create_connection write
    mark_connected new_connection get_connection on_client_message handle_message
    handle_chat_message need on_pool queue_message dequeue_message send_queued str_eq
    pending_messages
talked =
    after (said 4 (lit "hello")) event [] (after (opened 4) event [] at_start refl refl)
      (λ message parsed user_id is_login is_name. absurd (no_login message parsed is_login)) refl

Reached-IsSound_example :
    IsSound open_server.pool
    × ((exclude : ℕ) (msg : Message Value)
        → (q : ConnectionPool Value) × (broadcast_except exclude msg open_server.pool ≡ some q))
    × ((id : ℕ)
        → (found : Bool) × (q : ConnectionPool Value) × (remove_connection id open_server.pool
            ≡ some (found, q)))
    × ((u : Str) (id : ℕ)
        → find u open_server.pool.user_to_connection ≡ some id
        → (c : WebSocketConnection Value) × (get_connection id open_server.pool ≡ some c)
          × (c.user_id ≡ u))
Reached-IsSound_example =
    Reached-IsSound talk_json absent plain_keys quiet open_server empty-IsSound talked
