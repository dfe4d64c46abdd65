-- ===== src/Server/Handlers.antt =====
-- The event handlers.
use mathlib.Core.Option
use apk.Base.{ℕ, Bool, true, false, Option, none, some, List, [], ◌∷◌, ◌++◌, if◌then◌else◌}
use apk.Base.Text.{Str, lit, is_empty}
use apk.Base.Outcome.{done, blocked, undefined, Action, ◌>>=◌, ◌>>◌, give}
use apk.Key.{string_key}
use apk.Std.Decimal.{to_string}
use apk.Json.{Json}
use apk.Connection.{Message, mark_connected}
use apk.Pool.{write, create_connection, remove_connection, get_connection, broadcast_to_user}
use apk.Redis.{Hiredis}
use apk.Redis.Commands.{set, del, publish, subscribe}
use apk.Server.{Event, Server, on_redis, on_pool, need, time_field}

module _ (json : Json) (h : Hiredis) where
  -- The calls of Redis whose result is not read.
  abbrev pub publish_json : Str → json.J → Action (Server json h) (Unit {0})
  publish_json channel payload = do
    s ← need json h (json.dump payload)
    _ ← on_redis json h (publish h channel s)
    give tt

  unfoldable pub mark_user_online : Str → Event → Action (Server json h) (Unit {0})
  unfolding on_redis need
  mark_user_online user_id e = do
    _ ← on_redis json h (set h (lit "online:" ++ user_id) (to_string e.seconds) 300)
    publish_json (lit "user_status") (
        json.object (
          (lit "type", json.text (lit "user_online"))
          ∷ (lit "user_id", json.text user_id)
          ∷ (lit "timestamp", time_field json h e)
          ∷ []))

  unfoldable pub mark_user_offline : Str → Event → Action (Server json h) (Unit {0})
  unfolding on_redis need
  mark_user_offline user_id e = do
    _ ← on_redis json h (del h (lit "online:" ++ user_id))
    publish_json (lit "user_status") (
        json.object (
          (lit "type", json.text (lit "user_offline"))
          ∷ (lit "user_id", json.text user_id)
          ∷ (lit "last_seen", time_field json h e)
          ∷ []))

  unfoldable pub store_session : Str → Str → Action (Server json h) (Unit {0})
  unfolding on_redis
  store_session user_id session_token = do
    _ ← on_redis json h (set h (lit "session:" ++ session_token) user_id 86400)
    give tt

  unfoldable pub on_client_connected : ℕ → Event → Action (Server json h) (Unit {0})
  unfolding create_connection
  on_client_connected id e s =
      let (conn, p) = create_connection id e.ticks s.pool in
      elim conn [
        | none ↦ done tt (record s { pool = p })
        | some c ↦ done tt (record s { pool = write id (mark_connected e.ticks) p })
      ]

  -- remove_connection, where a null pointer may be dereferenced.
  abbrev pub remove : ℕ → Action (Server json h) (Unit {0})
  remove id s = elim (remove_connection id s.pool) [
    | none ↦ undefined
    | some (found, p) ↦ done tt (record s { pool = p })
  ]

  abbrev pub leave : Str → Event → Action (Server json h) (Unit {0})
  leave user_id e = if is_empty user_id then give tt else do
    mark_user_offline user_id e
    publish_json (lit "user_status") (
        json.object
          ((lit "user_id", json.text user_id) ∷ (lit "timestamp", time_field json h e) ∷ []))

  unfoldable pub on_client_disconnected : ℕ → Event → Action (Server json h) (Unit {0})
  unfolding mark_user_offline remove_connection on_redis need
  on_client_disconnected id e s = elim (get_connection id s.pool) [
    | none ↦ remove id s
    | some c ↦ (do leave c.user_id e; remove id) s
  ]

  -- send_to_user: the text of ConnectionPool::broadcast_to_user.
  unfoldable pub send_to_user : Str → Message json.J → Action (Server json h) (Unit {0})
  unfolding on_pool
  send_to_user user_id msg = on_pool json h (broadcast_to_user user_id msg)

  unfoldable pub send_to_group : List Str → Message json.J → Action (Server json h) (Unit {0})
  unfolding send_to_user
  send_to_group [] msg = give tt
  send_to_group (user_id ∷ user_ids) msg = do send_to_user user_id msg; send_to_group user_ids msg

  -- `channel.substr(5)` throws where the channel is shorter.
  abbrev pub channel_user : Str → Option Str
  channel_user (c0 ∷ c1 ∷ c2 ∷ c3 ∷ c4 ∷ user_id) = some user_id
  channel_user channel = none

  unfoldable pub redis_message_handler : Str → Str → Event → Action (Server json h) (Unit {0})
  unfolding send_to_user need
  redis_message_handler channel message e = elim (json.parse message) [
    | none ↦ give tt
    | some msg_json ↦ do
      user_id ← need json h (channel_user channel)
      type ← need json h (json.value_text msg_json (lit "type") (lit "message"))
      send_to_user user_id
          (record { type = type; payload = msg_json; timestamp = e.seconds; requires_ack = true })
  ]

  -- The placeholder accepts everybody.
  unfoldable pub authenticate_user : Str → Str → Event → Option (Str × Str)
  authenticate_user username password e =
      some (username, lit "token_" ++ (username ++ (b'_' ∷ to_string e.seconds)))

  -- The placeholders that nothing calls. `none` is the exception of the JSON library; the user of
  -- validate_session is not written.
  abbrev process_encrypted_message : json.J → Option (Bool × Str)
  process_encrypted_message message =
      Option.map (λ content. (true, content)) (json.value_text message (lit "content") [])

  abbrev encrypt_for_delivery : Str → Str → Str
  encrypt_for_delivery content recipient_id = content

  abbrev validate_session : Str → Bool
  validate_session session_token = false

  unfoldable pub subscribe_to_user_channel : Str → Action (Server json h) (Unit {0})
  unfolding on_redis
  subscribe_to_user_channel user_id = do
    _ ← on_redis json h (subscribe h (lit "user:" ++ user_id) tt)
    give tt

  -- ratchet_mutex_, which is not recursive.
  unfoldable pub lock_ratchets : Action (Server json h) (Unit {0})
  lock_ratchets s =
      if s.ratchet_locked then blocked s else done tt (record s { ratchet_locked = true })

  unfoldable pub unlock_ratchets : Action (Server json h) (Unit {0})
  unlock_ratchets s = done tt (record s { ratchet_locked = false })
