-- ===== src/Server/Sound/Messages.antt =====
-- The messages of a client that do not log in keep a pool sound.
use apk.Base.{ℕ, refl, inl, inr, false, List, [], ◌∷◌, ◌++◌, Option-cases}
use apk.Base.Text.{Str, lit}
use apk.Key.{int_key, string_key}
use apk.Json.{Json}
use apk.Connection.{WebSocketConnection, set_typing, queue_message}
use apk.Pool.{get_connection}
use apk.Redis.{Hiredis}
use apk.Redis.Commands.{lpush, expire}
use apk.Server.{Event, message_of}
use apk.Server.Handlers.{lock_ratchets, unlock_ratchets}
use apk.Server.Events.{queue, handle_chat_message, handle_typing_indicator, handle_read_receipt}
use apk.Server.Sound.{
  Keeps, give-Keeps, need-Keeps, on_redis-Keeps, write-Keeps, bind-Keeps, then-Keeps, branch-Keeps,
  branch-Leaves,
}
use apk.Server.Sound.Handlers.{publish_json-Keeps}

module _ (json : Json) (h : Hiredis) where
  pub queue-Keeps :
      (id : ℕ) (type : Str) (payload : List (Str × json.J))
      → Keeps json h (queue json h id type payload)
  unfolding queue_message
  queue-Keeps id type payload =
      write-Keeps json h id (queue_message (message_of json h type payload)) (λ c. refl) λ c. refl

  pub handle_chat_message-Keeps :
      (id : ℕ) (conn : WebSocketConnection json.J) (message : json.J) (e : Event)
      → Keeps json h (handle_chat_message json h id conn message e)
  unfolding handle_chat_message
  handle_chat_message-Keeps id conn message e =
      branch-Keeps json h conn.authenticated
        (bind-Keeps json h (need-Keeps json h (json.value_text message (lit "to") [])) λ to.
          bind-Keeps json h (need-Keeps json h (json.value_text message (lit "content") []))
            λ content.
              bind-Keeps json h (need-Keeps json h (json.value_natural message (lit "id") 0))
                λ msg_id.
                  bind-Keeps json h
                    (on_redis-Keeps json h (lpush h (lit "queue:messages:" ++ to) (content ∷ [])))
                    λ pushed.
                      bind-Keeps json h
                        (on_redis-Keeps json h (expire h (lit "queue:messages:" ++ to) 86400))
                        λ kept.
                          then-Keeps json h (publish_json-Keeps json h _ _) (queue-Keeps id _ _))
        (queue-Keeps id _ _)

  pub handle_typing_indicator-Keeps :
      (id : ℕ) (body : json.J) → Keeps json h (handle_typing_indicator json h id body)
  unfolding handle_typing_indicator set_typing
  handle_typing_indicator-Keeps id body = record {
    keeps = λ s sound. elim (Option-cases (get_connection id s.pool)) [
      | inl gone ↦ rw (handle_typing_indicator, gone) sound
      | inr (c, held) ↦
          rw (handle_typing_indicator, held)
            (branch-Leaves json h c.authenticated _ _
              ((bind-Keeps json h (need-Keeps json h (json.value_text body (lit "chat_id") []))
                  λ chat_id.
                    bind-Keeps json h
                      (need-Keeps json h (json.value_boolean body (lit "typing") false))
                      λ typing.
                        then-Keeps json h
                          (write-Keeps json h id (set_typing typing) (λ c. refl) λ c. refl)
                          (publish_json-Keeps json h _ _)).keeps
                s sound)
              sound)
    ];
  }

  pub handle_read_receipt-Keeps :
      (id : ℕ) (body : json.J) (e : Event) → Keeps json h (handle_read_receipt json h id body e)
  unfolding handle_read_receipt
  handle_read_receipt-Keeps id body e = record {
    keeps = λ s sound. elim (Option-cases (get_connection id s.pool)) [
      | inl gone ↦ rw (handle_read_receipt, gone) sound
      | inr (c, held) ↦
          rw (handle_read_receipt, held)
            (branch-Leaves json h c.authenticated _ _
              ((bind-Keeps json h (need-Keeps json h (json.value_text body (lit "message_id") []))
                  λ message_id.
                    bind-Keeps json h (on_redis-Keeps json h _) λ kept. give-Keeps json h tt).keeps
                s sound)
              sound)
    ];
  }

  pub lock_ratchets-Keeps : Keeps json h (lock_ratchets json h)
  unfolding lock_ratchets
  lock_ratchets-Keeps = record {
    keeps = λ s sound. branch-Leaves json h s.ratchet_locked _ _ sound sound;
  }

  pub unlock_ratchets-Keeps : Keeps json h (unlock_ratchets json h)
  unfolding unlock_ratchets
  unlock_ratchets-Keeps = record { keeps = λ s sound. sound }
