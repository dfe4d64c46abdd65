-- ===== src/Server/Events.antt =====
-- The messages of a client: on_client_message, handle_message and what it dispatches to.
use apk.Base.{ℕ, Bool, false, Option, none, some, List, [], ◌∷◌, ◌++◌, if◌then◌else◌}
use apk.Base.Text.{Str, lit, str_eq}
use apk.Base.Outcome.{done, Action, ◌>>=◌, ◌>>◌, give}
use apk.Key.{string_key}
use apk.Map.{assign}
use apk.Std.Decimal.{to_string}
use apk.Json.{Json}
use apk.Connection.{
  WebSocketConnection, set_user_id, set_session_id, mark_authenticated, set_typing, queue_message,
}
use apk.Pool.{write, get_connection, register_user}
use apk.Redis.{Hiredis}
use apk.Redis.Commands.{expire, lpush, hset}
use apk.Encryption.Hex.{bytes_to_hex}
use apk.Encryption.Keys.{Sodium, compute_shared_secret, new_ratchet}
use apk.Server.{Event, Server, on_redis, on_pool, need, message_of, time_field}
use apk.Server.Handlers.{
  publish_json, mark_user_online, authenticate_user, subscribe_to_user_channel, lock_ratchets,
  unlock_ratchets,
}

module _ (json : Json) (h : Hiredis) where
  abbrev pub queue : ℕ → Str → List (Str × json.J) → Action (Server json h) (Unit {0})
  queue id type payload = on_pool json h (write id (queue_message (message_of json h type payload)))

  abbrev pub not_authenticated : ℕ → Action (Server json h) (Unit {0})
  not_authenticated id =
      queue id (lit "error") ((lit "message", json.text (lit "Not authenticated")) ∷ [])

  -- The branch of handle_message for the type "message".
  unfoldable pub handle_chat_message :
      ℕ → WebSocketConnection json.J → json.J → Event → Action (Server json h) (Unit {0})
  unfolding on_redis on_pool need
  handle_chat_message id conn message e =
      if conn.authenticated
      then (do
        recipient_id ← need json h (json.value_text message (lit "to") [])
        encrypted_content ← need json h (json.value_text message (lit "content") [])
        msg_id ← need json h (json.value_natural message (lit "id") 0)
        _ ←
            on_redis json h
              (lpush h (lit "queue:messages:" ++ recipient_id) (encrypted_content ∷ []))
        _ ← on_redis json h (expire h (lit "queue:messages:" ++ recipient_id) 86400)
        publish_json json h (lit "user:" ++ recipient_id) (
            json.object (
              (lit "type", json.text (lit "message"))
              ∷ (lit "from", json.text conn.user_id)
              ∷ (lit "message_id", json.natural msg_id)
              ∷ (lit "content", json.text encrypted_content)
              ∷ (lit "timestamp", time_field json h e)
              ∷ []))
        queue id (lit "message_delivered") (
            (lit "message_id", json.natural msg_id)
            ∷ (lit "status", json.text (lit "queued"))
            ∷ []))
      else not_authenticated id

  abbrev pub set_typing_of : ℕ → Bool → Action (Server json h) (Unit {0})
  set_typing_of id typing = on_pool json h (write id (set_typing typing))

  unfoldable pub handle_typing_indicator : ℕ → json.J → Action (Server json h) (Unit {0})
  unfolding on_redis on_pool need
  handle_typing_indicator id body s = elim (get_connection id s.pool) [
    | none ↦ done tt s
    | some conn ↦
        if conn.authenticated
        then (do
          chat_id ← need json h (json.value_text body (lit "chat_id") [])
          typing ← need json h (json.value_boolean body (lit "typing") false)
          set_typing_of id typing
          publish_json json h (lit "chat:" ++ chat_id) (
              json.object (
                (lit "type", json.text (lit "user_typing"))
                ∷ (lit "user_id", json.text conn.user_id)
                ∷ (lit "chat_id", json.text chat_id)
                ∷ (lit "typing", json.boolean typing)
                ∷ [])))
            s
        else done tt s
  ]

  unfoldable pub handle_read_receipt : ℕ → json.J → Event → Action (Server json h) (Unit {0})
  unfolding on_redis need
  handle_read_receipt id body e s = elim (get_connection id s.pool) [
    | none ↦ done tt s
    | some conn ↦
        if conn.authenticated
        then (do
          message_id ← need json h (json.value_text body (lit "message_id") [])
          _ ← on_redis json h (
              hset h (lit "message_status:" ++ message_id) (lit "read_by:" ++ conn.user_id)
                (to_string e.seconds))
          give tt)
            s
        else done tt s
  ]

module _ (json : Json) (h : Hiredis) (sodium : Sodium) where
  -- user_ratchets_[user_id] = DoubleRatchet(secret)
  abbrev pub keep_ratchet : Str → Str → Event → Action (Server json h) (Unit {0})
  keep_ratchet user_id secret e s = done tt (record s {
    user_ratchets = assign user_id (new_ratchet secret e.fresh_keys) s.user_ratchets;
  })

  -- What stands behind the two locks of handle_authentication.
  unfoldable pub finish_authentication : ℕ → Str → Str → Event → Action (Server json h) (Unit {0})
  unfolding need on_pool unlock_ratchets compute_shared_secret new_ratchet bytes_to_hex
  finish_authentication id user_id session_token e s =
      let keys = s.server_keys in
      (do
        secret ← need json h (compute_shared_secret sodium keys.private_key keys.public_key)
        keep_ratchet user_id secret e
        unlock_ratchets json h
        queue json h id (lit "auth_success") (
            (lit "user_id", json.text user_id)
            ∷ (lit "session_token", json.text session_token)
            ∷ (lit "server_public_key", json.text (bytes_to_hex keys.public_key))
            ∷ (lit "timestamp", time_field json h e)
            ∷ [])
        unlock_ratchets json h)
        s

  -- The branch of handle_authentication for accepted credentials.
  unfoldable pub accept_login : ℕ → Str → Str → Event → Action (Server json h) (Unit {0})
  unfolding on_pool mark_user_online subscribe_to_user_channel lock_ratchets finish_authentication
  accept_login id user_id session_token e = do
    on_pool json h (λ p.
        write id (mark_authenticated e.ticks)
          (write id (set_session_id session_token) (write id (set_user_id user_id) p)))
    on_pool json h (register_user user_id id)
    mark_user_online json h user_id e
    subscribe_to_user_channel json h user_id
    lock_ratchets json h
    lock_ratchets json h
    finish_authentication id user_id session_token e

  abbrev pub reject_login : ℕ → Action (Server json h) (Unit {0})
  reject_login id = queue json h id (lit "auth_failed") (
      (lit "message", json.text (lit "Invalid credentials"))
      ∷ (lit "code", json.text (lit "INVALID_AUTH"))
      ∷ [])

  abbrev pub answer_login : ℕ → Event → Option (Str × Str) → Action (Server json h) (Unit {0})
  answer_login id e none = reject_login id
  answer_login id e (some (user_id, session_token)) = accept_login id user_id session_token e

  unfoldable pub handle_authentication : ℕ → json.J → Event → Action (Server json h) (Unit {0})
  unfolding need authenticate_user accept_login
  handle_authentication id auth_data e s = elim (get_connection id s.pool) [
    | none ↦ done tt s
    | some conn ↦
        (do
          username ← need json h (json.value_text auth_data (lit "username") [])
          password ← need json h (json.value_text auth_data (lit "password") [])
          answer_login id e (authenticate_user json h username password e))
          s
  ]

  -- The chain of tests on the type.
  abbrev pub dispatch :
      ℕ → WebSocketConnection json.J → json.J → Event → Str → Action (Server json h) (Unit {0})
  dispatch id conn message e type =
      if str_eq type (lit "auth")
      then handle_authentication id message e
      else if str_eq type (lit "message")
      then handle_chat_message json h id conn message e
      else if str_eq type (lit "typing")
      then handle_typing_indicator json h id message
      else if str_eq type (lit "read")
      then handle_read_receipt json h id message e
      else give tt

  unfoldable pub handle_message : ℕ → json.J → Event → Action (Server json h) (Unit {0})
  unfolding need handle_authentication handle_chat_message handle_typing_indicator
      handle_read_receipt
  handle_message id message e s = elim (get_connection id s.pool) [
    | none ↦ done tt s
    | some conn ↦
        (do
          type ← need json h (json.value_text message (lit "type") (lit "unknown"))
          dispatch id conn message e type)
          s
  ]

  -- The message is queued where there is such a connection, and is otherwise dropped.
  unfoldable pub on_client_message : ℕ → Str → Event → Action (Server json h) (Unit {0})
  unfolding handle_message on_pool
  on_client_message id raw_data e = elim (json.parse raw_data) [
    | some message ↦ handle_message id message e
    | none ↦ queue json h id (lit "error") (
        (lit "message", json.text (lit "Invalid message format"))
        ∷ (lit "code", json.text (lit "INVALID_FORMAT"))
        ∷ [])
  ]
