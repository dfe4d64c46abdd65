-- ===== src/Server/Sound/Flush.antt =====
-- The loop that sends what is queued for a websocket keeps the pool sound.
use apk.Base.{
  ℕ, zero, suc, ◌≡◌, sym, ◌∙◌, arith, subst, some_inj, some, List, [], ◌∷◌, ◌++◌, Option-cases, inl,
  inr,
}
use apk.Base.Text.{Str}
use apk.Base.Outcome.{Outcome, done, threw, blocked, undefined, Leaves}
use apk.Key.{int_key, string_key}
use apk.Map.{find}
use apk.Json.{Json}
use apk.Connection.{Message, WebSocketConnection, take_front, dequeue_message, pending_messages}
use apk.Pool.{get_connection}
use apk.Pool.Preserve.{write-IsSound}
use apk.Redis.{Hiredis}
use apk.Encryption.Keys.{Sodium}
use apk.Server.{Server}
use apk.Server.Websocket.{Wire, frame, handed, with_conn, send_queued, flush_conn, then_flush}
use apk.Server.Sound.{HasSound}
use apk.Server.Sound.Login.{held_entry}

module _ (json : Json) (h : Hiredis) (sodium : Sodium) where
  -- The pool behind a websocket, where there is a server, is sound.
  abbrev pub WireSound : Wire json h → Type 0
  WireSound w = (s : Server json h) → w.messenger ≡ some s → HasSound json h s

  server_sound :
      (s : Server json h) (sent : List Str)
      → HasSound json h s
      → WireSound (record { messenger = some s; sent = sent })
  server_sound s sent sound t is_t = subst (HasSound json h) (some_inj is_t) sound

  -- The connection of the loop is that of the pool, but for what is queued.
  abbrev SameOwner : ℕ → WebSocketConnection json.J → Server json h → Type 0
  SameOwner id c s =
      (d : WebSocketConnection json.J)
      → find id s.pool.connections ≡ some (some d)
      → (c.connection_id ≡ d.connection_id) × (c.user_id ≡ d.user_id)

  with_conn-HasSound :
      (id : ℕ) (c : WebSocketConnection json.J) (s : Server json h)
      → SameOwner id c s
      → HasSound json h s
      → HasSound json h (with_conn json h sodium id c s)
  with_conn-HasSound id c s same sound =
      write-IsSound id (λ old. c) s.pool (λ d held. (same d held).0) (λ d held. (same d held).1)
        sound

  dequeue_message-SameOwner :
      (id : ℕ) (c rest : WebSocketConnection json.J) (msg : Message json.J) (s : Server json h)
      → dequeue_message c ≡ some (msg, rest)
      → SameOwner id c s
      → SameOwner id rest s
  unfolding dequeue_message take_front
  dequeue_message-SameOwner id c rest msg s taken same d held = ground (arith, same d held)

  send_queued-Leaves :
      (fuel id : ℕ) (c : WebSocketConnection json.J) (s : Server json h) (sent : List Str)
      → SameOwner id c s
      → HasSound json h s
      → Leaves WireSound (send_queued json h sodium fuel id c s sent)
  unfolding send_queued
  send_queued-Leaves zero id c s sent same sound =
      server_sound _ sent (with_conn-HasSound id c s same sound)
  send_queued-Leaves (suc fuel) id c s sent same sound = elim (Option-cases (dequeue_message c)) [
    | inl empty ↦
        rw (send_queued, empty) (server_sound _ sent (with_conn-HasSound id c s same sound))
    | inr ((msg, rest), taken) ↦
        let same' = dequeue_message-SameOwner id c rest msg s taken same in
        elim (Option-cases (json.dump (frame json h sodium msg))) [
          | inl e ↦
              rw (send_queued, taken, e)
                (server_sound _ sent (with_conn-HasSound id rest s same' sound))
          | inr (text, e) ↦
              rw (send_queued, taken, e)
                (send_queued-Leaves fuel id rest s (sent ++ (text ∷ [])) same' sound)
        ]
  ]

  get_connection-SameOwner :
      (id : ℕ) (c : WebSocketConnection json.J) (s : Server json h)
      → get_connection id s.pool ≡ some c
      → SameOwner id c s
  get_connection-SameOwner id c s held d found =
      let same : some (some c) ≡ some (some d) =
        sym (held_entry json h sodium id c s.pool held) ∙ found in
      (ground arith, ground arith)

  pub then_flush-Leaves :
      (id : ℕ) (sent : List Str) (o : Outcome (Server json h) (Unit {0}))
      → Leaves (HasSound json h) o
      → Leaves WireSound (then_flush json h sodium id sent o)
  then_flush-Leaves id sent (done a s) sound = elim (Option-cases (get_connection id s.pool)) [
    | inl gone ↦ rw (flush_conn, gone) (server_sound s sent sound)
    | inr (c, held) ↦
        rw (flush_conn, held)
          (send_queued-Leaves (suc (pending_messages c)) id c s sent
            (get_connection-SameOwner id c s held) sound)
  ]
  then_flush-Leaves id sent (threw s) sound = server_sound s sent sound
  then_flush-Leaves id sent (blocked s) sound = server_sound s sent sound
  then_flush-Leaves id sent undefined sound = tt

  pub handed-Leaves :
      (sent : List Str) (o : Outcome (Server json h) (Unit {0}))
      → Leaves (HasSound json h) o
      → Leaves WireSound (handed json h sodium sent o)
  handed-Leaves sent (done a s) sound = server_sound s sent sound
  handed-Leaves sent (threw s) sound = server_sound s sent sound
  handed-Leaves sent (blocked s) sound = server_sound s sent sound
  handed-Leaves sent undefined sound = tt
