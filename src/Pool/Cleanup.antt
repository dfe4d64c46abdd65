-- ===== src/Pool/Cleanup.antt =====
-- Which connections cleanup_inactive removes.
use apk.Base.{
  ℕ, ◌+◌, ◌-◌, ◌^◌, ◌≤◌, ◌<◌, ◌≡◌, refl, sym, ap, ◌∙◌, inl, inr, lt→ltb, Bool, true, false, ◌||◌,
  Option, none, some, List, [], ◌∷◌, arith, ltb, ◌==◌, if◌then◌else◌, Option-cases,
}
use apk.Key.{int_key, string_key}
use apk.Map.{find}
use apk.Map.Laws.{find-erase}
use apk.Map.Order.{Ascending, find-Above}
use apk.Connection.{WebSocketConnection}
use apk.Pool.{
  ConnectionPool, sub64, get_connection, inactive, remove_all, drop_entry, cleanup_inactive,
}
use apk.Pool.Sound.{IsSound, Connections}
use apk.Pool.Preserve.{drop_entry-IsSound}
use apk.Pool.Delivery.{NonNull, AllLive-NonNull}

member : ℕ → List ℕ → Bool
member j [] = false
member j (id ∷ ids) = id == j || member j ids

abbrev Distinct : List ℕ → Type 0
Distinct [] = Unit {0}
Distinct (id ∷ ids) = (member id ids ≡ false) × Distinct ids

module _ {J : Type 0} where
  -- The test of the first loop.
  abbrev pub is_inactive : ℕ → ℕ → WebSocketConnection J → Bool
  is_inactive timeout now c = ltb timeout (sub64 now c.last_activity)

  -- What is left of a connection.
  abbrev pub kept : ℕ → ℕ → Option (WebSocketConnection J) → Option (WebSocketConnection J)
  kept timeout now none = none
  kept timeout now (some c) = if is_inactive timeout now c then none else some c

  -- The test at the entry of a key.
  abbrev chosen : ℕ → ℕ → Option (Option (WebSocketConnection J)) → Bool
  chosen timeout now none = false
  chosen timeout now (some none) = false
  chosen timeout now (some (some c)) = is_inactive timeout now c

  inactive-chosen :
      (timeout now : ℕ) (m : Connections J)
      → Ascending m
      → NonNull m
      → (ids : List ℕ) × (inactive timeout now m ≡ some ids)
        × Distinct ids
        × ((j : ℕ) → member j ids ≡ chosen timeout now (find j m))
  unfolding inactive find member
  inactive-chosen timeout now [] a n = ([], refl, tt, λ j. refl)
  inactive-chosen timeout now ((id, none) ∷ m) a n = absurd (ground arith)
  inactive-chosen timeout now ((id, some c) ∷ m) a n =
      let (ids, e, d, same) = inactive-chosen timeout now m a.1 n.1 in
      (
        (if is_inactive timeout now c then id ∷ ids else ids),
        ground arith,
        ground (arith, find-Above id m a.0, same id),
        λ j. ground (arith, find-Above id m a.0, same j, same id),
      )

  remove_all_step :
      (id : ℕ) (ids : List ℕ) (c : WebSocketConnection J) (p : ConnectionPool J)
      → find id p.connections ≡ some (some c)
      → remove_all (id ∷ ids) p ≡ remove_all ids (drop_entry id c.user_id p)
  unfolding remove_all
  remove_all_step id ids c p held = ground arith

  -- What passes the test is there.
  chosen_held :
      (timeout now j : ℕ) (p : ConnectionPool J)
      → IsSound p
      → chosen timeout now (find j p.connections) ≡ true
      → (c : WebSocketConnection J) × (find j p.connections ≡ some (some c))
  chosen_held timeout now j p s h = elim (Option-cases (find j p.connections)) [
    | inl e ↦ absurd (ground arith)
    | inr (entry, e) ↦ let (c, is_c, own) = s.live j entry e in (c, e ∙ ap some is_c)
  ]

  remove_all-IsSound :
      (ids : List ℕ) (p : ConnectionPool J)
      → Distinct ids
      → ((j : ℕ)
          → member j ids ≡ true
          → (c : WebSocketConnection J) × (find j p.connections ≡ some (some c)))
      → IsSound p
      → (q : ConnectionPool J) × (remove_all ids p ≡ some q)
        × IsSound q
        × ((j : ℕ) → find j q.connections ≡ (if member j ids then none else find j p.connections))
  unfolding remove_all member
  remove_all-IsSound [] p d present s = (p, refl, s, λ j. refl)
  remove_all-IsSound (id ∷ ids) p d present s =
      let (c, held) = present id (ground arith) in
      let (q, e, sound, rest) =
        remove_all-IsSound ids (drop_entry id c.user_id p) d.1
          (λ j h.
            let (c', held') = present j (ground arith) in
            (c', ground (arith, find-erase id j p.connections)))
          (drop_entry-IsSound id c p held s) in
      (
        q,
        remove_all_step id ids c p held ∙ e,
        sound,
        λ j. ground (arith, rest j, find-erase id j p.connections),
      )

  -- Over a sound pool cleanup_inactive meets no null pointer, and leaves a sound pool. It removes
  -- exactly the connections whose idle time, as an uint64_t difference, is over the timeout; all
  -- others stay as they were.
  pub cleanup_inactive-IsSound :
      (timeout now : ℕ) (p : ConnectionPool J)
      → IsSound p
      → (q : ConnectionPool J) × (cleanup_inactive timeout now p ≡ some q)
        × IsSound q
        × ((j : ℕ) → get_connection j q ≡ kept timeout now (get_connection j p))
  unfolding cleanup_inactive get_connection
  cleanup_inactive-IsSound timeout now p s =
      let (ids, e, d, same) =
        inactive-chosen timeout now p.connections s.ordered_connections
          (AllLive-NonNull p.connections s.ordered_connections s.live) in
      let (q, removed, sound, rest) =
        remove_all-IsSound ids p d (λ j h. chosen_held timeout now j p s (sym (same j) ∙ h)) s in
      (q, rw (e, cleanup_inactive) removed, sound, λ j. ground (arith, rest j, same j))

  -- While the clock has not gone back, a connection survives exactly if it was active within the
  -- timeout.
  pub cleanup_inactive_steady :
      (timeout now j : ℕ) (c : WebSocketConnection J) (p : ConnectionPool J)
      → IsSound p
      → get_connection j p ≡ some c
      → c.last_activity ≤ now
      → now < 2 ^ 64
      → (q : ConnectionPool J) × (cleanup_inactive timeout now p ≡ some q)
        × (get_connection j q ≡ (if ltb timeout (now - c.last_activity) then none else some c))
  cleanup_inactive_steady timeout now j c p s h past fits =
      let (q, e, sound, each) = cleanup_inactive-IsSound timeout now p s in
      let idle : sub64 now c.last_activity ≡ now - c.last_activity = omega arith in
      (q, e, each j ∙ rw (h, idle))

  -- The clock is not monotonic: set back by one step, it makes a connection that was active just
  -- now look idle for almost 2 ^ 64 steps, and the connection is removed.
  pub cleanup_inactive_clock_back :
      (timeout now j : ℕ) (c : WebSocketConnection J) (p : ConnectionPool J)
      → IsSound p
      → get_connection j p ≡ some c
      → now < c.last_activity
      → c.last_activity < 2 ^ 64
      → timeout + (c.last_activity - now) < 2 ^ 64
      → (q : ConnectionPool J) × (cleanup_inactive timeout now p ≡ some q)
        × (get_connection j q ≡ none)
  cleanup_inactive_clock_back timeout now j c p s h back fits room =
      let (q, e, sound, each) = cleanup_inactive-IsSound timeout now p s in
      let over : timeout < sub64 now c.last_activity = omega arith in
      (q, e, each j ∙ rw (h, lt→ltb timeout _ over))
