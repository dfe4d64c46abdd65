-- ===== src/Pool/Presence.antt =====
-- Who is found by name, and what a stale registration does to the pool.
use mathlib.Core.Option
use apk.Base.{
  ℕ, ◌+◌, ◌≡◌, ◌≢◌, ◌⊎◌, inl, inr, true, false, Option, none, some, List, [], ◌∷◌, arith,
  Option-cases,
}
use apk.Base.Text.{Str, is_empty, str_eq_iff}
use apk.Key.{int_key, string_key}
use apk.Map.{find, assign, erase, modify, has}
use apk.Map.Laws.{find-assign, find-erase, find-modify}
use apk.Map.Order.{length-assign_new}
use apk.Connection.{Message, WebSocketConnection, set_user_id}
use apk.Pool.{
  ConnectionPool, write, remove_connection, get_connection, register_user, subscript, find_by_user,
  broadcast_except, visit_all, get_total_connections,
}
use apk.Pool.Sound.{IsSound}

module _ {J : Type 0} where
  -- In a sound pool a lookup by name changes nothing. It fails for a user who is not registered,
  -- and otherwise gives the live connection of that user.
  pub find_by_user_sound :
      (u : Str) (p : ConnectionPool J)
      → IsSound p
      → ((has u p.user_to_connection ≡ false) × (find_by_user u p ≡ (0, none, p)))
        ⊎ ((id : ℕ) × (c : WebSocketConnection J) × (find_by_user u p ≡ (id, some c, p))
            × (get_connection id p ≡ some c)
            × (c.user_id ≡ u)
            × (c.connection_id ≡ id))
  unfolding find_by_user get_connection has
  find_by_user_sound u p s = elim (Option-cases (find u p.user_to_connection)) [
    | inl e ↦ inl (ground arith, rw (e, find_by_user))
    | inr (id, e) ↦
        let (c, held, own, named) = s.registered u id e in
        let (d, is_d, own_id) = s.live id (some c) held in
        inr (id, c, rw (e, held, find_by_user, subscript), ground arith, own, ground arith)
  ]

  -- A user who is registered under an id without a connection: the lookup fails as for a stranger,
  -- but it leaves a null pointer behind and the count of connections grows by one.
  pub find_by_user_stale :
      (u : Str) (id : ℕ) (p : ConnectionPool J)
      → find u p.user_to_connection ≡ some id
      → find id p.connections ≡ none
      → let (_, conn, q) = find_by_user u p in
        (conn ≡ none)
        × (find id q.connections ≡ some none)
        × (get_total_connections q ≡ get_total_connections p + 1)
  unfolding find_by_user subscript get_total_connections
  find_by_user_stale u id p e gone =
      ground (arith, find-assign id id none p.connections, length-assign_new id none p.connections)

  visit_all_null :
      (exclude : ℕ) (msg : Message J) (id : ℕ) (m : List (ℕ × Option (WebSocketConnection J)))
      → find id m ≡ some none
      → id ≢ exclude
      → visit_all exclude msg m ≡ none
  unfolding visit_all find
  visit_all_null exclude msg id [] h ne = cc
  visit_all_null exclude msg id ((j, entry) ∷ m) h ne =
      ground (arith, visit_all_null exclude msg id m)

  -- A broadcast dereferences every null pointer that it does not exclude.
  broadcast_except_null :
      (exclude : ℕ) (msg : Message J) (id : ℕ) (p : ConnectionPool J)
      → find id p.connections ≡ some none
      → id ≢ exclude
      → broadcast_except exclude msg p ≡ none
  unfolding broadcast_except
  broadcast_except_null exclude msg id p h ne =
      rw (visit_all_null exclude msg id p.connections h ne)

  -- set_user_id and register_user, as handle_authentication calls them.
  abbrev pub login : Str → ℕ → ConnectionPool J → ConnectionPool J
  login u id p = register_user u id (write id (set_user_id u) p)

  relogin_stale :
      (a b : Str) (id : ℕ) (c : WebSocketConnection J) (p : ConnectionPool J)
      → find a p.user_to_connection ≡ some id
      → find id p.connections ≡ some (some c)
      → a ≢ b
      → is_empty b ≡ false
      → (q : ConnectionPool J) × (remove_connection id (login b id p) ≡ some (true, q))
        × (find a q.user_to_connection ≡ some id)
        × (find id q.connections ≡ none)
  unfolding remove_connection register_user write set_user_id
  relogin_stale a b id c p reg held ne named =
      let conns = modify id (Option.map (set_user_id b)) p.connections in
      let users = assign b id p.user_to_connection in
      (
        record { connections = erase id conns; user_to_connection = erase b users },
        ground (arith, find-modify id id (Option.map (set_user_id b)) p.connections),
        ground
            (arith, find-assign b a id p.user_to_connection, find-erase b a users, str_eq_iff b a),
        ground (arith, find-erase id id conns),
      )

  -- A client that logs in under a second name, which is not empty, and then disconnects leaves its
  -- first name registered. After the next lookup of that name a broadcast that does not exclude the
  -- client's id dereferences null.
  pub relogin_breaks_broadcast :
      (a b : Str) (id exclude : ℕ) (msg : Message J) (c : WebSocketConnection J)
      (p : ConnectionPool J)
      → find a p.user_to_connection ≡ some id
      → find id p.connections ≡ some (some c)
      → a ≢ b
      → is_empty b ≡ false
      → id ≢ exclude
      → (q : ConnectionPool J) × (remove_connection id (login b id p) ≡ some (true, q))
        × (broadcast_except exclude msg (find_by_user a q).2 ≡ none)
  relogin_breaks_broadcast a b id exclude msg c p reg held ne named other =
      let (q, removed, stale, gone) = relogin_stale a b id c p reg held ne named in
      (
        q,
        removed,
        broadcast_except_null exclude msg id _ (find_by_user_stale a id q stale gone).1 other,
      )

  -- A user with two connections is registered under the later one. When the earlier one
  -- disconnects, the user is no longer found, though the later connection is still there.
  pub second_device_unreachable :
      (u : Str) (first second : ℕ) (c d : WebSocketConnection J) (p : ConnectionPool J)
      → find first p.connections ≡ some (some c)
      → find second p.connections ≡ some (some d)
      → first ≢ second
      → c.user_id ≡ u
      → is_empty u ≡ false
      → (q : ConnectionPool J) × (remove_connection first (login u second p) ≡ some (true, q))
        × (get_connection second q ≡ some (set_user_id u d))
        × (find_by_user u q ≡ (0, none, q))
  unfolding remove_connection register_user write find_by_user get_connection
  second_device_unreachable u first second c d p held1 held2 ne own named =
      let conns = modify second (Option.map (set_user_id u)) p.connections in
      let users = assign u second p.user_to_connection in
      (
        record { connections = erase first conns; user_to_connection = erase u users },
        ground (arith, find-modify second first (Option.map (set_user_id u)) p.connections),
        ground (
          arith,
          find-erase first second conns,
          find-modify second second (Option.map (set_user_id u)) p.connections,
        ),
        ground (arith, find-erase u u users, str_eq_iff u u),
      )
