-- ===== src/Pool/Delivery.antt =====
-- Which queues a broadcast reaches.
use mathlib.Core.Option
use apk.Base.{
  ◌⊎◌, inl, inr, ℕ, ◌≡◌, refl, none, some, [], ◌∷◌, arith, ◌==◌, if◌then◌else◌, Option-cases,
}
use apk.Base.Text.{Str}
use apk.Key.{int_key, string_key}
use apk.Map.{find}
use apk.Map.Laws.{find-modify}
use apk.Map.Order.{Ascending, find-Above}
use apk.Connection.{Message, WebSocketConnection, queue_message}
use apk.Pool.{ConnectionPool, write, get_connection, broadcast_to_user, broadcast_except, visit_all}
use apk.Pool.Sound.{IsSound, Connections, AllLive}

module _ {J : Type 0} where
  -- What a broadcast does to one connection.
  abbrev pub receive : Message J → WebSocketConnection J → WebSocketConnection J
  receive msg c = if c.connected then queue_message msg c else c

  abbrev pub NonNull : Connections J → Type 0
  NonNull [] = Unit {0}
  NonNull ((id, entry) ∷ m) = ((c : WebSocketConnection J) × (entry ≡ some c)) × NonNull m

  pub AllLive-NonNull : (m : Connections J) → Ascending m → AllLive m → NonNull m
  unfolding find
  AllLive-NonNull [] a l = tt
  AllLive-NonNull ((id, entry) ∷ m) a l =
      let (c, is_c, own) = l id entry (ground arith) in
      ((c, is_c), AllLive-NonNull m a.1 λ j e h. l j e (ground (arith, find-Above id m a.0)))

  -- The list that the loop of broadcast_except leaves behind.
  delivered : ℕ → Message J → Connections J → Connections J
  delivered exclude msg [] = []
  delivered exclude msg ((id, entry) ∷ m) =
      (id, if id == exclude then entry else Option.map (receive msg) entry)
      ∷ delivered exclude msg m

  visit_all-delivered :
      (exclude : ℕ) (msg : Message J) (m : Connections J)
      → NonNull m
      → visit_all exclude msg m ≡ some (delivered exclude msg m)
  unfolding visit_all delivered
  visit_all-delivered exclude msg [] h = refl
  visit_all-delivered exclude msg ((id, entry) ∷ m) h =
      ground (arith, visit_all-delivered exclude msg m)

  find-delivered :
      (exclude j : ℕ) (msg : Message J) (m : Connections J)
      → find j (delivered exclude msg m)
        ≡ (if j == exclude then find j m else Option.map (Option.map (receive msg)) (find j m))
  unfolding find delivered
  find-delivered exclude j msg [] = ground arith
  find-delivered exclude j msg ((id, entry) ∷ m) = ground (arith, find-delivered exclude j msg m)

  -- A broadcast over a sound pool meets no null pointer. It appends the message to the queue of
  -- every connected connection but the excluded one, and changes nothing else.
  pub broadcast_except_sound :
      (exclude : ℕ) (msg : Message J) (p : ConnectionPool J)
      → IsSound p
      → (q : ConnectionPool J) × (broadcast_except exclude msg p ≡ some q)
        × (q.user_to_connection ≡ p.user_to_connection)
        × ((j : ℕ)
            → get_connection j q ≡ (
                if j == exclude
                then get_connection j p
                else Option.map (receive msg) (get_connection j p)))
  unfolding broadcast_except get_connection
  broadcast_except_sound exclude msg p s = (
    record p { connections = delivered exclude msg p.connections },
    rw (
        visit_all-delivered exclude msg p.connections
          (AllLive-NonNull p.connections s.ordered_connections s.live)),
    refl,
    λ j. ground (arith, find-delivered exclude j msg p.connections),
  )

  -- A message to a user of a sound pool is queued for the connection that the user is registered
  -- under, if that is connected, and for no other; for a stranger the pool stays as it was.
  pub broadcast_to_user_sound :
      (u : Str) (msg : Message J) (p : ConnectionPool J)
      → IsSound p
      → ((find u p.user_to_connection ≡ none) × (broadcast_to_user u msg p ≡ p))
        ⊎ ((id : ℕ) × (find u p.user_to_connection ≡ some id)
            × ((j : ℕ)
                → get_connection j (broadcast_to_user u msg p) ≡ (
                    if id == j
                    then Option.map (receive msg) (get_connection j p)
                    else get_connection j p)))
  unfolding broadcast_to_user get_connection write
  broadcast_to_user_sound u msg p s = elim (Option-cases (find u p.user_to_connection)) [
    | inl e ↦ inl (e, ground arith)
    | inr (id, e) ↦
        let (c, held, own, named) = s.registered u id e in
        inr (
          id,
          e,
          λ j. ground (arith, find-modify id j (Option.map (queue_message msg)) p.connections),
        )
  ]
