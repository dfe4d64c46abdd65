-- ===== src/Pool.antt =====
-- include/websocket_connection.hpp and src/websocket_connection.cpp: class ConnectionPool.
-- Every method holds `mutex_` from its first to its last line, so a method is one step. A
-- shared_ptr is the key under which the pool holds the object, with the object; `none` among the
-- entries is a null shared_ptr, and `none` as the result of a method is a null dereference.
pub mod Sound
pub mod Preserve
pub mod Presence
pub mod Delivery
pub mod Cleanup
mod Examples
use mathlib.Core.Option
use apk.Base.{
  ℕ, ◌+◌, ◌-◌, ◌%◌, ◌^◌, Bool, true, false, Option, none, some, List, [], ◌∷◌, ltb, leb, ◌==◌,
  if◌then◌else◌, length,
}
use apk.Base.Text.{Str, is_empty}
use apk.Key.{int_key, string_key}
use apk.Map.{find, assign, erase, modify, keys}
use apk.Connection.{Message, WebSocketConnection, new_connection, queue_message}

abbrev pub max_connections : ℕ
max_connections = 100000

pub record ConnectionPool (J : Type 0) : Type 0 where
  pub connections : List (ℕ × Option (WebSocketConnection J))
  pub user_to_connection : List (Str × ℕ)

-- uint64_t subtraction.
abbrev pub sub64 : ℕ → ℕ → ℕ
sub64 a b = (a + 2 ^ 64 - b) % 2 ^ 64

abbrev forget_user : Str → List (Str × ℕ) → List (Str × ℕ)
forget_user user_id users = if is_empty user_id then users else erase user_id users

module _ {J : Type 0} where
  abbrev pub empty_pool : ConnectionPool J
  empty_pool = record { connections = []; user_to_connection = [] }

  -- The pointer that the pool stores, with null for a missing key.
  abbrev pub pointee : Option (Option (WebSocketConnection J)) → Option (WebSocketConnection J)
  pointee none = none
  pointee (some entry) = entry

  -- A call of a connection's method through a pointer that the pool holds under `id`.
  unfoldable pub write :
      ℕ → (WebSocketConnection J → WebSocketConnection J) → ConnectionPool J → ConnectionPool J
  write id f p = record p { connections = modify id (Option.map f) p.connections }

  unfoldable pub create_connection :
      ℕ → ℕ → ConnectionPool J → Option (WebSocketConnection J) × ConnectionPool J
  create_connection id now p = if leb max_connections (length p.connections) then (none, p) else (
    some (new_connection id now),
    record p { connections = assign id (some (new_connection id now)) p.connections },
  )

  -- Both erasures, of the connection and of the user that it stands for.
  abbrev drop_entry : ℕ → Str → ConnectionPool J → ConnectionPool J
  drop_entry id user_id p = record {
    connections = erase id p.connections;
    user_to_connection = forget_user user_id p.user_to_connection;
  }

  unfoldable pub remove_connection : ℕ → ConnectionPool J → Option (Bool × ConnectionPool J)
  remove_connection id p = elim (find id p.connections) [
    | none ↦ some (false, p)
    | some entry ↦ elim entry [
      | none ↦ none
      | some conn ↦ some (true, drop_entry id conn.user_id p)
    ]
  ]

  unfoldable pub get_connection : ℕ → ConnectionPool J → Option (WebSocketConnection J)
  get_connection id p = pointee (find id p.connections)

  unfoldable pub register_user : Str → ℕ → ConnectionPool J → ConnectionPool J
  register_user user_id id p = record p {
    user_to_connection = assign user_id id p.user_to_connection;
  }

  -- connections_[id]: a missing key is inserted with a null pointer.
  unfoldable pub subscript :
      ℕ → ConnectionPool J → Option (WebSocketConnection J) × ConnectionPool J
  subscript id p = elim (find id p.connections) [
    | none ↦ (none, record p { connections = assign id none p.connections })
    | some entry ↦ (entry, p)
  ]

  -- The key is that of the pointer; it is read only where the pointer is not null.
  unfoldable pub find_by_user :
      Str → ConnectionPool J → ℕ × Option (WebSocketConnection J) × ConnectionPool J
  unfolding subscript
  find_by_user user_id p = elim (find user_id p.user_to_connection) [
    | none ↦ (0, none, p)
    | some id ↦ let (conn, p') = subscript id p in (id, conn, p')
  ]

  -- Also MessengerServer::send_to_user, whose text is the same.
  unfoldable pub broadcast_to_user : Str → Message J → ConnectionPool J → ConnectionPool J
  unfolding find_by_user
  broadcast_to_user user_id msg p =
      let (id, conn, p') = find_by_user user_id p in
      elim conn [ none ↦ p' | some c ↦ if c.connected then write id (queue_message msg) p' else p' ]

  -- One round of the loop of broadcast_except.
  unfoldable pub visit :
      ℕ → Message J → ℕ → Option (WebSocketConnection J) → Option (Option (WebSocketConnection J))
  visit exclude msg id entry = if id == exclude then some entry else elim entry [
    | none ↦ none
    | some c ↦ some (some (if c.connected then queue_message msg c else c))
  ]

  unfoldable pub visit_all :
      ℕ
      → Message J
      → List (ℕ × Option (WebSocketConnection J))
      → Option (List (ℕ × Option (WebSocketConnection J)))
  unfolding visit
  visit_all exclude msg [] = some []
  visit_all exclude msg ((id, entry) ∷ m) =
      let rest = visit_all exclude msg m in
      elim (visit exclude msg id entry) [
        | none ↦ none
        | some entry' ↦ Option.map (λ m'. (id, entry') ∷ m') rest
      ]

  unfoldable pub broadcast_except : ℕ → Message J → ConnectionPool J → Option (ConnectionPool J)
  broadcast_except exclude msg p =
      Option.map (λ m. record p { connections = m }) (visit_all exclude msg p.connections)

  pub get_total_connections : ConnectionPool J → ℕ
  get_total_connections p = length p.connections

  pub get_online_users : ConnectionPool J → List Str
  get_online_users p = keys p.user_to_connection

  -- The first loop of cleanup_inactive.
  unfoldable pub inactive : ℕ → ℕ → List (ℕ × Option (WebSocketConnection J)) → Option (List ℕ)
  inactive timeout now [] = some []
  inactive timeout now ((id, none) ∷ m) = none
  inactive timeout now ((id, some c) ∷ m) =
      Option.map (λ ids. if ltb timeout (sub64 now c.last_activity) then id ∷ ids else ids)
        (inactive timeout now m)

  -- The second loop.
  unfoldable pub remove_all : List ℕ → ConnectionPool J → Option (ConnectionPool J)
  unfolding subscript
  remove_all [] p = some p
  remove_all (id ∷ ids) p =
      let (conn, p') = subscript id p in
      elim conn [ none ↦ none | some c ↦ remove_all ids (drop_entry id c.user_id p') ]

  unfoldable pub cleanup_inactive : ℕ → ℕ → ConnectionPool J → Option (ConnectionPool J)
  unfolding inactive remove_all
  cleanup_inactive timeout now p = elim (inactive timeout now p.connections) [
    | none ↦ none
    | some ids ↦ remove_all ids p
  ]
