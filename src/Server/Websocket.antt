-- ===== src/Server/Websocket.antt =====
-- src/http_api.cpp: HttpApi::route_websocket, which hands the events of a websocket to
-- MessengerServer and sends what that has queued.
pub mod Sent
use mathlib.Core.Option
use apk.Base.{
  Bool, true, if◌then◌else◌, ◌==◌, false, ℕ, zero, suc, ◌+◌, ◌<◌, ◌%◌, ◌^◌, ◌≡◌, refl, sym, ap, ◌∙◌,
  Option, none, some, List, [], ◌∷◌, ◌++◌, arith, length, append_assoc, append-nil, Option-cases,
  inl, inr, some_inj,
}
use apk.Base.Text.{Str, lit, str_eq}
use apk.Base.Outcome.{Outcome, done, threw, blocked, undefined, Action, then_do, ◌>>=◌}
use apk.Key.{int_key}
use apk.Map.{find, modify}
use apk.Json.{Json}
use apk.Connection.{Message, WebSocketConnection, dequeue_message, pending_messages, queue_message}
use apk.Pool.{pointee, get_connection, write}
use apk.Redis.{Hiredis}
use apk.Encryption.Keys.{Sodium}
use apk.Server.{Event, Server, message_of}
use apk.Server.Guards.{refused, handle_message-unauthenticated}
use apk.Map.Laws.{find-modify}
use apk.Server.Handlers.{on_client_connected, on_client_disconnected}
use apk.Server.Events.{on_client_message}

-- The id of a connection is made of its address.
abbrev pub conn_id : ℕ → ℕ
conn_id address = address % 2 ^ 31

-- The server that set_messenger has set, where `none` is a null pointer, and the texts that were
-- sent on one websocket.
pub record Wire (json : Json) (h : Hiredis) : Type 0 where
  pub messenger : Option (Server json h)
  pub sent : List Str

module _ (json : Json) (h : Hiredis) (sodium : Sodium) where
  abbrev pub frame : Message json.J → json.J
  frame msg = json.object ((lit "type", json.text msg.type) ∷ (lit "payload", msg.payload) ∷ [])

  abbrev pub handed : {A : Type 0} → List Str → Outcome (Server json h) A → Outcome (Wire json h) A
  handed sent (done a s) = done a (record { messenger = some s; sent = sent })
  handed sent (threw s) = threw (record { messenger = some s; sent = sent })
  handed sent (blocked s) = blocked (record { messenger = some s; sent = sent })
  handed sent undefined = undefined

  -- if (messenger_) messenger_->...
  abbrev pub on_messenger : Action (Server json h) (Unit {0}) → Action (Wire json h) (Unit {0})
  on_messenger m w = elim w.messenger [ none ↦ done tt w | some s ↦ handed w.sent (m s) ]

  unfoldable pub on_open : ℕ → Event → Action (Wire json h) (Unit {0})
  on_open address e = on_messenger (on_client_connected json h (conn_id address) e)

  unfoldable pub on_close : ℕ → Event → Action (Wire json h) (Unit {0})
  on_close address e = on_messenger (on_client_disconnected json h (conn_id address) e)

  -- The server with the connection as it is now.
  abbrev pub with_conn : ℕ → WebSocketConnection json.J → Server json h → Server json h
  with_conn id c s = record s { pool = write id (λ old. c) s.pool }

  -- The loop over the queue; an exception of dump leaves the messages that were taken.
  unfoldable pub send_queued :
      ℕ
      → ℕ
      → WebSocketConnection json.J
      → Server json h
      → List Str
      → Outcome (Wire json h) (Unit {0})
  send_queued zero id c s sent =
      done tt (record { messenger = some (with_conn id c s); sent = sent })
  send_queued (suc fuel) id c s sent = elim (dequeue_message c) [
    | none ↦ done tt (record { messenger = some (with_conn id c s); sent = sent })
    | some (msg, rest) ↦ elim (json.dump (frame msg)) [
      | none ↦ threw (record { messenger = some (with_conn id rest s); sent = sent })
      | some text ↦ send_queued fuel id rest s (sent ++ (text ∷ []))
    ]
  ]

  abbrev pub flush_conn :
      ℕ
      → List Str
      → Server json h
      → Option (WebSocketConnection json.J)
      → Outcome (Wire json h) (Unit {0})
  flush_conn id sent s none = done tt (record { messenger = some s; sent = sent })
  flush_conn id sent s (some c) = send_queued (suc (pending_messages c)) id c s sent

  abbrev pub then_flush :
      ℕ → List Str → Outcome (Server json h) (Unit {0}) → Outcome (Wire json h) (Unit {0})
  then_flush id sent (done a s) = flush_conn id sent s (get_connection id s.pool)
  then_flush id sent (threw s) = threw (record { messenger = some s; sent = sent })
  then_flush id sent (blocked s) = blocked (record { messenger = some s; sent = sent })
  then_flush id sent undefined = undefined

  unfoldable pub on_message : ℕ → Str → Event → Action (Wire json h) (Unit {0})
  on_message address text e w = elim w.messenger [
    | none ↦ done tt w
    | some s ↦
        then_flush (conn_id address) w.sent
          (on_client_message json h sodium (conn_id address) text e s)
  ]
