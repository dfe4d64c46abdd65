-- ===== src/Pool/Sound.antt =====
-- The pool's invariant: both maps are in order, no entry is null, the limit holds, and every
-- registered user has a live connection that bears the user's name.
use mathlib.Core.Option
use apk.Base.{
  ℕ, ◌≤◌, ◌≡◌, ◌≢◌, inl, inr, false, Option, none, some, List, arith, ◌==◌, if◌then◌else◌, length,
  Bool-cases, Option-cases,
}
use apk.Base.Text.{Str, is_empty, str_eq_iff}
use apk.Key.{int_key, string_key}
use apk.Map.{find, assign, erase, modify}
use apk.Map.Laws.{find-assign, find-erase, find-modify}
use apk.Map.Order.{Ascending}
use apk.Connection.{WebSocketConnection}
use apk.Pool.{ConnectionPool, max_connections, empty_pool, forget_user}

abbrev pub Connections : Type 0 → Type 0
Connections J = List (ℕ × Option (WebSocketConnection J))

-- Who is still registered after forget_user was so before, and is not the forgotten user.
pub find-forget_user :
    (v u : Str) (j : ℕ) (users : List (Str × ℕ))
    → find u (forget_user v users) ≡ some j
    → (find u users ≡ some j) × (is_empty v ≡ false → v ≢ u)
find-forget_user v u j users h = elim (Bool-cases (is_empty v)) [
  | inl e ↦ (ground arith, λ named. absurd (cc))
  | inr e ↦ (
    ground (arith, find-erase v u users),
    λ _ same. absurd (ground (arith, find-erase v u users, str_eq_iff v u)),
  )
]

module _ {J : Type 0} where
  -- No entry is null, and an object lies under its own id.
  abbrev pub AllLive : Connections J → Type 0
  AllLive m =
      (id : ℕ) (entry : Option (WebSocketConnection J))
      → find id m ≡ some entry
      → (c : WebSocketConnection J) × (entry ≡ some c) × (c.connection_id ≡ id)

  -- A registered user is not the empty text, and has a connection of its own name.
  abbrev pub AllRegistered : List (Str × ℕ) → Connections J → Type 0
  AllRegistered users m =
      (u : Str) (id : ℕ)
      → find u users ≡ some id
      → (c : WebSocketConnection J) × (find id m ≡ some (some c))
        × (c.user_id ≡ u)
        × (is_empty u ≡ false)

  pub record IsSound (p : ConnectionPool J) : Type 0 where
    pub ordered_connections : Ascending p.connections
    pub ordered_users : Ascending p.user_to_connection
    pub bounded : length p.connections ≤ max_connections
    pub live : AllLive p.connections
    pub registered : AllRegistered p.user_to_connection p.connections

  pub empty-IsSound : IsSound (empty_pool {J = J})
  unfolding find
  empty-IsSound = record {
    ordered_connections = tt;
    ordered_users = tt;
    bounded = omega arith;
    live = λ id entry h. cc;
    registered = λ u id h. cc;
  }

  pub assign-AllLive :
      (id : ℕ) (c : WebSocketConnection J) (m : Connections J)
      → c.connection_id ≡ id
      → AllLive m
      → AllLive (assign id (some c) m)
  assign-AllLive id c m own l j entry h = elim (Bool-cases (id == j)) [
    | inl e ↦ (
      c,
      ground (arith, find-assign id j (some c) m),
      ground (arith, find-assign id j (some c) m),
    )
    | inr e ↦ l j entry (ground (arith, find-assign id j (some c) m))
  ]

  -- A fresh id: no registered user has it.
  pub assign-AllRegistered :
      (id : ℕ) (c : WebSocketConnection J) (users : List (Str × ℕ)) (m : Connections J)
      → find id m ≡ none
      → AllRegistered users m
      → AllRegistered users (assign id (some c) m)
  assign-AllRegistered id c users m fresh r u j h =
      let (d, held, own, named) = r u j h in
      (d, ground (arith, find-assign id j (some c) m), own, named)

  pub modify-AllLive :
      (id : ℕ) (f : WebSocketConnection J → WebSocketConnection J) (m : Connections J)
      → ((c : WebSocketConnection J)
          → find id m ≡ some (some c)
          → (f c).connection_id ≡ c.connection_id)
      → AllLive m
      → AllLive (modify id (Option.map f) m)
  modify-AllLive id f m same l j entry h = elim (Option-cases (find j m)) [
    | inl e ↦ absurd (ground (arith, find-modify id j (Option.map f) m))
    | inr (old, e) ↦
        let (c, is_c, own) = l j old e in
        (
          (if id == j then f c else c),
          ground (arith, find-modify id j (Option.map f) m),
          ground (arith, same c),
        )
  ]

  pub modify-AllRegistered :
      (id : ℕ) (f : WebSocketConnection J → WebSocketConnection J) (users : List (Str × ℕ))
      (m : Connections J)
      → ((c : WebSocketConnection J) → find id m ≡ some (some c) → (f c).user_id ≡ c.user_id)
      → AllRegistered users m
      → AllRegistered users (modify id (Option.map f) m)
  modify-AllRegistered id f users m same r u j h =
      let (c, held, own, named) = r u j h in
      (
        (if id == j then f c else c),
        ground (arith, find-modify id j (Option.map f) m),
        ground (arith, same c),
        named,
      )

  pub erase-AllLive : (id : ℕ) (m : Connections J) → AllLive m → AllLive (erase id m)
  erase-AllLive id m l j entry h = l j entry (ground (arith, find-erase id j m))

  pub drop-AllRegistered :
      (id : ℕ) (c : WebSocketConnection J) (users : List (Str × ℕ)) (m : Connections J)
      → find id m ≡ some (some c)
      → AllRegistered users m
      → AllRegistered (forget_user c.user_id users) (erase id m)
  drop-AllRegistered id c users m held r u j h =
      let (before, other) = find-forget_user c.user_id u j users h in
      let (d, held_d, own, named) = r u j before in
      (
        d,
        elim (Bool-cases (id == j)) [
          | inl e ↦ absurd (other (ground arith) (ground arith))
          | inr e ↦ ground (arith, find-erase id j m)
        ],
        own,
        named,
      )
