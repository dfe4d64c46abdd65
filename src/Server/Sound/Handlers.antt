-- ===== src/Server/Sound/Handlers.antt =====
-- The handlers of Server/Handlers keep a pool sound.
use apk.Base.{
  ℕ, ◌≡◌, refl, true, none, Option-cases, arith, subst, sym, inl, inr, leb, length, Bool-cases,
}
use apk.Base.Text.{Str, lit, is_empty}
use apk.Base.Outcome.{Leaves}
use apk.Key.{int_key, string_key}
use apk.Map.{find}
use apk.Json.{Json}
use apk.Connection.{Message, mark_connected, queue_message}
use apk.Pool.{
  ConnectionPool, max_connections, write, create_connection, get_connection, broadcast_to_user,
}
use apk.Pool.Sound.{IsSound}
use apk.Pool.Preserve.{create_connection-IsSound, remove_connection-IsSound, write-IsSound}
use apk.Redis.{Hiredis}
use apk.Server.{Event, Server}
use apk.Server.Handlers.{
  publish_json, mark_user_online, mark_user_offline, on_client_connected, remove, leave,
  on_client_disconnected, send_to_user, channel_user, redis_message_handler,
  subscribe_to_user_channel,
}
use apk.Server.Sound.{
  HasSound, Keeps, give-Keeps, need-Keeps, on_redis-Keeps, on_pool-Keeps, bind-Keeps, then-Keeps,
  branch-Keeps,
}

module _ (json : Json) (h : Hiredis) where
  pub publish_json-Keeps :
      (channel : Str) (payload : json.J) → Keeps json h (publish_json json h channel payload)
  publish_json-Keeps channel payload =
      bind-Keeps json h (need-Keeps json h _)
        λ s. bind-Keeps json h (on_redis-Keeps json h _) λ n. give-Keeps json h tt

  pub mark_user_online-Keeps :
      (user_id : Str) (e : Event) → Keeps json h (mark_user_online json h user_id e)
  unfolding mark_user_online
  mark_user_online-Keeps user_id e =
      bind-Keeps json h (on_redis-Keeps json h _) λ b. publish_json-Keeps _ _

  mark_user_offline-Keeps :
      (user_id : Str) (e : Event) → Keeps json h (mark_user_offline json h user_id e)
  unfolding mark_user_offline
  mark_user_offline-Keeps user_id e =
      bind-Keeps json h (on_redis-Keeps json h _) λ b. publish_json-Keeps _ _

  pub subscribe_to_user_channel-Keeps :
      (user_id : Str) → Keeps json h (subscribe_to_user_channel json h user_id)
  unfolding subscribe_to_user_channel
  subscribe_to_user_channel-Keeps user_id =
      bind-Keeps json h (on_redis-Keeps json h _) λ b. give-Keeps json h tt

  leave-Keeps : (user_id : Str) (e : Event) → Keeps json h (leave json h user_id e)
  leave-Keeps user_id e =
      branch-Keeps json h (is_empty user_id) (give-Keeps json h tt)
        (then-Keeps json h (mark_user_offline-Keeps user_id e) (publish_json-Keeps _ _))

  remove-Keeps : (id : ℕ) → Keeps json h (remove json h id)
  remove-Keeps id = record {
    keeps = λ s sound.
        let (found, q, e, kept, gone, was, others) = remove_connection-IsSound id s.pool sound in
        rw (Leaves, e) kept;
  }

  pub on_client_disconnected-Keeps :
      (id : ℕ) (e : Event) → Keeps json h (on_client_disconnected json h id e)
  unfolding on_client_disconnected
  on_client_disconnected-Keeps id e = record {
    keeps = λ s sound. elim (Option-cases (get_connection id s.pool)) [
      | inl gone ↦ rw (on_client_disconnected, gone) ((remove-Keeps id).keeps s sound)
      | inr (c, held) ↦
          rw (on_client_disconnected, held)
            ((then-Keeps json h (leave-Keeps c.user_id e) (remove-Keeps id)).keeps s sound)
    ];
  }

  -- The address of a websocket that is opened has no connection yet.
  pub on_client_connected-Leaves :
      (id : ℕ) (e : Event) (s : Server json h)
      → find id s.pool.connections ≡ none
      → HasSound json h s
      → Leaves (HasSound json h) (on_client_connected json h id e s)
  unfolding on_client_connected create_connection mark_connected
  on_client_connected-Leaves id e s fresh sound =
      elim (Bool-cases (leb max_connections (length s.pool.connections))) [
        | inl full ↦
            rw (on_client_connected, create_connection, full)
              (create_connection-IsSound id e.ticks s.pool fresh sound)
        | inr room ↦
            rw (on_client_connected, create_connection, room)
              (write-IsSound id (mark_connected e.ticks) (create_connection id e.ticks s.pool).1
                (λ c held. refl) (λ c held. refl)
                (create_connection-IsSound id e.ticks s.pool fresh sound))
      ]

  broadcast_to_user-IsSound :
      (u : Str) (msg : Message json.J) (p : ConnectionPool json.J)
      → IsSound p
      → IsSound (broadcast_to_user u msg p)
  unfolding broadcast_to_user queue_message
  broadcast_to_user-IsSound u msg p sound = elim (Option-cases (find u p.user_to_connection)) [
    | inl e ↦
        let same : broadcast_to_user u msg p ≡ p = ground arith in subst IsSound (sym same) sound
    | inr (id, e) ↦
        let (c, held, own, named) = sound.registered u id e in
        elim (Bool-cases c.connected) [
          | inl up ↦
              let same : broadcast_to_user u msg p ≡ write id (queue_message msg) p =
                ground arith in
              subst IsSound (sym same)
                (write-IsSound id (queue_message msg) p (λ c held. refl) (λ c held. refl) sound)
          | inr down ↦
              let same : broadcast_to_user u msg p ≡ p = ground arith in
              subst IsSound (sym same) sound
        ]
  ]

  pub send_to_user-Keeps :
      (u : Str) (msg : Message json.J) → Keeps json h (send_to_user json h u msg)
  unfolding send_to_user
  send_to_user-Keeps u msg =
      on_pool-Keeps json h (broadcast_to_user u msg) (broadcast_to_user-IsSound u msg)

  pub redis_message_handler-Keeps :
      (channel message : Str) (e : Event)
      → Keeps json h (redis_message_handler json h channel message e)
  unfolding redis_message_handler
  redis_message_handler-Keeps channel message e = elim (Option-cases (json.parse message)) [
    | inl bad ↦ rw (redis_message_handler, bad) (give-Keeps json h tt)
    | inr (m, good) ↦
        rw (redis_message_handler, good)
          (bind-Keeps json h (need-Keeps json h (channel_user json h channel)) λ user_id.
            bind-Keeps json h (need-Keeps json h (json.value_text m (lit "type") (lit "message")))
              λ type.
                send_to_user-Keeps user_id
                  (record { type = type; payload = m; timestamp = e.seconds; requires_ack = true }))
  ]
