-- ===== src/Connection/Queue.antt =====
-- The outgoing queue of a connection against a first-in first-out list of messages.
use apk.Base.{
  ℕ, zero, suc, ◌+◌, ◌<◌, ◌≡◌, refl, none, some, List, [], ◌∷◌, ◌++◌, arith, length, append-nil,
  append_assoc, length-append,
}
use apk.Connection.{Message, WebSocketConnection, queue_message, dequeue_message, pending_messages}

module _ {J : Type 0} where
  -- A series of queue_message calls.
  unfoldable pub queue_all : List (Message J) → WebSocketConnection J → WebSocketConnection J
  queue_all [] c = c
  queue_all (msg ∷ msgs) c = queue_all msgs (queue_message msg c)

  -- `while (ws_conn->dequeue_message(msg)) { ... conn.send_text(out.dump()); }`: what is sent, in
  -- the order of the calls, and the connection after the loop.
  unfoldable pub flush : ℕ → WebSocketConnection J → List (Message J) × WebSocketConnection J
  flush zero c = ([], c)
  flush (suc fuel) c = elim (dequeue_message c) [
    | none ↦ ([], c)
    | some (msg, c') ↦ let (sent, rest) = flush fuel c' in (msg ∷ sent, rest)
  ]

  queue_all-queue :
      (msgs : List (Message J)) (c : WebSocketConnection J)
      → queue_all msgs c ≡ record c { outgoing_queue = c.outgoing_queue ++ msgs }
  unfolding queue_all queue_message
  queue_all-queue [] c = rw append-nil
  queue_all-queue (msg ∷ msgs) c =
      rw (queue_all-queue msgs (queue_message msg c), append_assoc c.outgoing_queue (msg ∷ []) msgs)

  flush-queue :
      (fuel : ℕ) (q : List (Message J)) (c : WebSocketConnection J)
      → length q < fuel
      → flush fuel (record c { outgoing_queue = q }) ≡ (q, record c { outgoing_queue = [] })
  unfolding flush dequeue_message
  flush-queue zero q c h = absurd (omega arith)
  flush-queue (suc fuel) [] c h = refl
  flush-queue (suc fuel) (msg ∷ q) c h = rw (flush-queue fuel q c (omega arith))

  -- The messages that are queued are sent exactly once, in the order of the calls and behind what
  -- was waiting; the queue is empty afterwards and nothing else of the connection changes. Rounds
  -- in excess of the messages do nothing.
  pub flush-queue_all :
      (fuel : ℕ) (msgs : List (Message J)) (c : WebSocketConnection J)
      → pending_messages c + length msgs < fuel
      → flush fuel (queue_all msgs c) ≡ (c.outgoing_queue ++ msgs, record c { outgoing_queue = [] })
  unfolding pending_messages
  flush-queue_all fuel msgs c h = rw queue_all-queue (
      flush-queue fuel (c.outgoing_queue ++ msgs) c
        (omega (arith, length-append c.outgoing_queue msgs)))
