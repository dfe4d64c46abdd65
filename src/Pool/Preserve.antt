-- ===== src/Pool/Preserve.antt =====
-- Each operation that the server makes on a pool keeps its invariant, on every branch.
use mathlib.Core.Option
use apk.Base.{
  ℕ, ◌≡◌, ◌≢◌, refl, ◌⊎◌, inl, inr, Bool, true, false, none, some, arith, leb, length, Bool-cases,
  Option-cases,
}
use apk.Base.Text.{Str, is_empty, str_eq, str_eq_iff}
use apk.Key.{int_key, string_key}
use apk.Map.{find, assign, modify, has}
use apk.Map.Laws.{find-assign, find-erase, find-modify, length-erase-le, length-modify}
use apk.Map.Order.{assign-Ascending, erase-Ascending, modify-Ascending, length-assign_new}
use apk.Connection.{WebSocketConnection, new_connection, set_user_id}
use apk.Pool.{
  ConnectionPool, max_connections, write, create_connection, remove_connection, register_user,
  drop_entry,
}
use apk.Pool.Sound.{
  IsSound, AllRegistered, assign-AllLive, assign-AllRegistered, modify-AllLive,
  modify-AllRegistered, erase-AllLive, drop-AllRegistered,
}

module _ {J : Type 0} where
  -- A new id: at the limit nothing happens, and below it a fresh object is stored.
  pub create_connection-IsSound :
      (id now : ℕ) (p : ConnectionPool J)
      → find id p.connections ≡ none
      → IsSound p
      → IsSound (create_connection id now p).1
  unfolding create_connection new_connection
  create_connection-IsSound id now p fresh s =
      elim (Bool-cases (leb max_connections (length p.connections))) [
        | inl full ↦ rw full s
        | inr room ↦ rw room (record {
          ordered_connections = assign-Ascending id _ p.connections s.ordered_connections;
          ordered_users = s.ordered_users;
          bounded =
              ground (arith, length-assign_new id (some (new_connection id now)) p.connections);
          live = assign-AllLive id _ p.connections refl s.live;
          registered =
              assign-AllRegistered id _ p.user_to_connection p.connections fresh s.registered;
        })
      ]

  -- A write that keeps the object's id and user.
  pub write-IsSound :
      (id : ℕ) (f : WebSocketConnection J → WebSocketConnection J) (p : ConnectionPool J)
      → ((c : WebSocketConnection J)
          → find id p.connections ≡ some (some c)
          → (f c).connection_id ≡ c.connection_id)
      → ((c : WebSocketConnection J)
          → find id p.connections ≡ some (some c)
          → (f c).user_id ≡ c.user_id)
      → IsSound p
      → IsSound (write id f p)
  unfolding write
  write-IsSound id f p same_id same_user s = record {
    ordered_connections = modify-Ascending id (Option.map f) p.connections s.ordered_connections;
    ordered_users = s.ordered_users;
    bounded = ground (arith, length-modify id (Option.map f) p.connections);
    live = modify-AllLive id f p.connections same_id s.live;
    registered =
        modify-AllRegistered id f p.user_to_connection p.connections same_user s.registered;
  }

  pub drop_entry-IsSound :
      (id : ℕ) (c : WebSocketConnection J) (p : ConnectionPool J)
      → find id p.connections ≡ some (some c)
      → IsSound p
      → IsSound (drop_entry id c.user_id p)
  drop_entry-IsSound id c p held s = record {
    ordered_connections = erase-Ascending id p.connections s.ordered_connections;
    ordered_users = ground (arith, erase-Ascending c.user_id p.user_to_connection s.ordered_users);
    bounded = ground (arith, length-erase-le id p.connections);
    live = erase-AllLive id p.connections s.live;
    registered = drop-AllRegistered id c p.user_to_connection p.connections held s.registered;
  }

  -- remove_connection never meets a null pointer in a sound pool: it reports whether the id was
  -- there, leaves a sound pool without it, and keeps every other entry.
  pub remove_connection-IsSound :
      (id : ℕ) (p : ConnectionPool J)
      → IsSound p
      → (found : Bool) × (q : ConnectionPool J) × (remove_connection id p ≡ some (found, q))
        × IsSound q
        × (find id q.connections ≡ none)
        × (found ≡ has id p.connections)
        × ((j : ℕ) → id ≢ j → find j q.connections ≡ find j p.connections)
  unfolding remove_connection has
  remove_connection-IsSound id p s = elim (Option-cases (find id p.connections)) [
    | inl e ↦ (false, p, rw (e, remove_connection), s, e, ground arith, λ j ne. refl)
    | inr (entry, e) ↦
        let (c, is_c, own) = s.live id entry e in
        let held : find id p.connections ≡ some (some c) = ground arith in
        (
          true,
          drop_entry id c.user_id p,
          rw (held, remove_connection),
          drop_entry-IsSound id c p held s,
          ground (arith, find-erase id id p.connections),
          ground arith,
          λ j ne. ground (arith, find-erase id j p.connections),
        )
  ]

  login-AllRegistered :
      (u : Str) (id : ℕ) (c : WebSocketConnection J) (p : ConnectionPool J)
      → is_empty u ≡ false
      → find id p.connections ≡ some (some c)
      → (is_empty c.user_id ≡ true) ⊎ (c.user_id ≡ u)
      → AllRegistered p.user_to_connection p.connections
      → AllRegistered
          (assign u id p.user_to_connection)
          (modify id (Option.map (set_user_id u)) p.connections)
  unfolding set_user_id
  login-AllRegistered u id c p named held first r u' j h = elim (Bool-cases (str_eq u u')) [
    | inl same ↦ (
      set_user_id u c,
      ground (
        arith,
        find-assign u u' id p.user_to_connection,
        find-modify id j (Option.map (set_user_id u)) p.connections,
      ),
      (str_eq_iff u u').0 same,
      ground (arith, str_eq_iff u u'),
    )
    | inr other ↦
        let (d, held_d, own, named_d) =
          r u' j (ground (arith, find-assign u u' id p.user_to_connection)) in
        (
          d,
          ground
              (arith, find-modify id j (Option.map (set_user_id u)) p.connections, str_eq_iff u u'),
          own,
          named_d,
        )
  ]

  -- The pair of calls by which a client logs in, set_user_id and register_user. The connection has
  -- no user yet, or the same one.
  pub login-IsSound :
      (u : Str) (id : ℕ) (c : WebSocketConnection J) (p : ConnectionPool J)
      → is_empty u ≡ false
      → find id p.connections ≡ some (some c)
      → (is_empty c.user_id ≡ true) ⊎ (c.user_id ≡ u)
      → IsSound p
      → IsSound (register_user u id (write id (set_user_id u) p))
  unfolding register_user write set_user_id
  login-IsSound u id c p named held first s = record {
    ordered_connections = modify-Ascending id _ p.connections s.ordered_connections;
    ordered_users = assign-Ascending u id p.user_to_connection s.ordered_users;
    bounded = ground (arith, length-modify id (Option.map (set_user_id u)) p.connections);
    live = modify-AllLive id (set_user_id u) p.connections (λ c held. refl) s.live;
    registered = login-AllRegistered u id c p named held first s.registered;
  }
