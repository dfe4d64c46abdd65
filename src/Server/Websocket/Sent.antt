-- ===== src/Server/Websocket/Sent.antt =====
-- What is sent on a websocket after a message on it.
use mathlib.Core.Option
use apk.Base.{
  Bool, true, if◌then◌else◌, ◌==◌, false, ℕ, zero, suc, ◌<◌, ◌≡◌, refl, sym, ap, ◌∙◌, Option, none,
  some, List, [], ◌∷◌, ◌++◌, arith, length, append_assoc, append-nil, Option-cases, inl, inr,
  some_inj,
}
use apk.Base.Text.{Str, lit, str_eq}
use apk.Base.Outcome.{Outcome, done}
use apk.Key.{int_key}
use apk.Map.{find}
use apk.Json.{Json}
use apk.Connection.{Message, WebSocketConnection, dequeue_message, pending_messages, queue_message}
use apk.Pool.{pointee, get_connection, write}
use apk.Redis.{Hiredis}
use apk.Encryption.Keys.{Sodium}
use apk.Server.{Event, Server, message_of}
use apk.Server.Guards.{refused, handle_message-unauthenticated}
use apk.Map.Laws.{find-modify}
use apk.Server.Events.{on_client_message}
use apk.Server.Websocket.{
  Wire, conn_id, frame, with_conn, send_queued, flush_conn, then_flush, on_message,
}

module _ (json : Json) (h : Hiredis) (sodium : Sodium) where
  -- The texts of some messages, where all can be dumped.
  unfoldable pub dump_all : List (Message json.J) → Option (List Str)
  dump_all [] = some []
  dump_all (msg ∷ msgs) = elim (json.dump (frame json h sodium msg)) [
    | none ↦ none
    | some text ↦ elim (dump_all msgs) [ none ↦ none | some texts ↦ some (text ∷ texts) ]
  ]

  -- The end of the loop.
  abbrev pub sent_all :
      ℕ → WebSocketConnection json.J → Server json h → List Str → Outcome (Wire json h) (Unit {0})
  sent_all id c s sent = done tt (record {
    messenger = some (with_conn json h sodium id (record c { outgoing_queue = [] }) s);
    sent = sent;
  })

  send_queued_lem :
      (fuel id : ℕ) (queue : List (Message json.J)) (c : WebSocketConnection json.J)
      (s : Server json h) (sent texts : List Str)
      → length queue < fuel
      → dump_all queue ≡ some texts
      → send_queued json h sodium fuel id (record c { outgoing_queue = queue }) s sent
        ≡ sent_all id c s (sent ++ texts)
  unfolding send_queued dump_all dequeue_message
  send_queued_lem zero id queue c s sent texts fits g = absurd (omega arith)
  send_queued_lem (suc fuel) id [] c s sent texts fits g =
      ap (sent_all id c s) (sym (append-nil sent) ∙ ap (λ ts. sent ++ ts) (some_inj g))
  send_queued_lem (suc fuel) id (msg ∷ queue) c s sent texts fits g =
      elim (Option-cases (json.dump (frame json h sodium msg))) [
        | inl e ↦ absurd (ground arith)
        | inr (text, e) ↦ elim (Option-cases (dump_all queue)) [
          | inl f ↦ absurd (ground arith)
          | inr (later, f) ↦
              let is_texts : text ∷ later ≡ texts = ground arith in
              rw (e, sym is_texts)
                (send_queued_lem fuel id queue c s (sent ++ (text ∷ [])) later (omega arith) f
                  ∙ ap (sent_all id c s) (append_assoc sent (text ∷ []) later))
        ]
      ]

  -- A message on a websocket, after whose handling the client is still there and all that waits in
  -- its queue can be dumped: the loop ends, everything that waited is sent exactly once, in order
  -- and behind what was sent before, and the queue is empty; the server is otherwise as the handler
  -- left it.
  pub on_message-flushed :
      (address : ℕ) (text : Str) (e : Event) (s s' : Server json h) (c : WebSocketConnection json.J)
      (sent texts : List Str)
      → on_client_message json h sodium (conn_id address) text e s ≡ done tt s'
      → get_connection (conn_id address) s'.pool ≡ some c
      → dump_all c.outgoing_queue ≡ some texts
      → on_message json h sodium address text e (record { messenger = some s; sent = sent })
        ≡ sent_all (conn_id address) c s' (sent ++ texts)
  unfolding on_message pending_messages
  on_message-flushed address text e s s' c sent texts handled there dumped =
      ap (then_flush json h sodium (conn_id address) sent) handled
      ∙ ap (flush_conn json h sodium (conn_id address) sent s') there
      ∙ send_queued_lem (suc (pending_messages c)) (conn_id address) c.outgoing_queue c s' sent
          texts (omega arith) dumped

  pointee-map :
      (f : WebSocketConnection json.J → WebSocketConnection json.J)
      (o : Option (Option (WebSocketConnection json.J)))
      → pointee (Option.map (Option.map f) o) ≡ Option.map f (pointee o)
  pointee-map f none = refl
  pointee-map f (some entry) = refl

  -- What a client that has not logged in is told.
  abbrev pub refusal_message : Message json.J
  refusal_message =
      message_of json h (lit "error") ((lit "message", json.text (lit "Not authenticated")) ∷ [])

  get_connection-refused :
      (id : ℕ) (s : Server json h) (c : WebSocketConnection json.J)
      → get_connection id s.pool ≡ some c
      → get_connection id (refused json h sodium id s).pool ≡ some (queue_message refusal_message c)
  unfolding get_connection write
  get_connection-refused id s c there =
      let found =
        find-modify id id (Option.map (queue_message refusal_message)) s.pool.connections in
      let same : id == id ≡ true = ground arith in
      ap pointee (
        found
        ∙ ap
            (λ (b : Bool).
              if b
              then Option.map (Option.map (queue_message refusal_message))
                  (find id s.pool.connections)
              else find id s.pool.connections)
            same)
      ∙ pointee-map (queue_message refusal_message) (find id s.pool.connections)
      ∙ ap (Option.map (queue_message refusal_message)) there

  -- A client that has not logged in sends a message of type "message": what waits for it and one
  -- error behind it are sent on its websocket, and its queue is empty; nothing happens to Redis, to
  -- other clients or to the ratchets.
  pub on_message-guest :
      (address : ℕ) (text : Str) (message : json.J) (e : Event) (s : Server json h)
      (c : WebSocketConnection json.J) (sent texts : List Str)
      → get_connection (conn_id address) s.pool ≡ some c
      → c.authenticated ≡ false
      → json.parse text ≡ some message
      → json.value_text message (lit "type") (lit "unknown") ≡ some (lit "message")
      → dump_all (c.outgoing_queue ++ (refusal_message ∷ [])) ≡ some texts
      → on_message json h sodium address text e (record { messenger = some s; sent = sent })
        ≡ sent_all
            (conn_id address)
            (queue_message refusal_message c)
            (refused json h sodium (conn_id address) s)
            (sent ++ texts)
  unfolding on_client_message queue_message str_eq
  on_message-guest address text message e s c sent texts there guest parsed typed dumped =
      on_message-flushed address text e s (refused json h sodium (conn_id address) s)
        (queue_message refusal_message c) sent texts
        (rw (on_client_message, parsed)
          (handle_message-unauthenticated json h sodium (conn_id address) message e (lit "message")
            s c there guest typed refl))
        (get_connection-refused (conn_id address) s c there) dumped
