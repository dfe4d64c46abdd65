-- ===== src/Map/Order.antt =====
-- The entries stay in strictly ascending key order, so a key occurs once and the size counts keys.
use apk.Base.{◌+◌, ◌≡◌, refl, true, none, some, List, [], ◌∷◌, arith, length}
use apk.Key.{Key}
use apk.Map.{find, assign, erase, modify}

module _ {K V : Type 0} ⦃k : Key K⦄ where
  -- Every key of the list lies above `x`.
  abbrev pub Above : K → List (K × V) → Type 0
  Above x [] = Unit {0}
  Above x ((y, w) ∷ m) = (k.lt x y ≡ true) × Above x m

  abbrev pub Ascending : List (K × V) → Type 0
  Ascending [] = Unit {0}
  Ascending ((y, w) ∷ m) = Above y m × Ascending m

  Above-trans : (x y : K) (m : List (K × V)) → k.lt x y ≡ true → Above y m → Above x m
  Above-trans x y [] h a = tt
  Above-trans x y ((z, w) ∷ m) h a = (k.lt_trans x y z h a.0, Above-trans x y m h a.1)

  assign-Above :
      (x y : K) (v : V) (m : List (K × V)) → k.lt y x ≡ true → Above y m → Above y (assign x v m)
  unfolding assign
  assign-Above x y v [] h a = (h, tt)
  assign-Above x y v ((z, w) ∷ m) h a = ground (arith, assign-Above x y v m h a.1)

  erase-Above : (x y : K) (m : List (K × V)) → Above y m → Above y (erase x m)
  unfolding erase
  erase-Above x y [] a = tt
  erase-Above x y ((z, w) ∷ m) a = ground (arith, erase-Above x y m a.1)

  pub assign-Ascending : (x : K) (v : V) (m : List (K × V)) → Ascending m → Ascending (assign x v m)
  unfolding assign
  assign-Ascending x v [] a = (tt, tt)
  assign-Ascending x v ((z, w) ∷ m) a = ground (
    arith,
    k.beq_iff z x,
    k.lt_total x z,
    Above-trans x z m,
    assign-Above x z v m,
    assign-Ascending x v m a.1,
  )

  pub erase-Ascending : (x : K) (m : List (K × V)) → Ascending m → Ascending (erase x m)
  unfolding erase
  erase-Ascending x [] a = tt
  erase-Ascending x ((z, w) ∷ m) a = ground (arith, erase-Above x z m a.0, erase-Ascending x m a.1)

  modify-Above : (x y : K) (f : V → V) (m : List (K × V)) → Above y m → Above y (modify x f m)
  unfolding modify
  modify-Above x y f [] a = tt
  modify-Above x y f ((z, w) ∷ m) a = ground (arith, modify-Above x y f m a.1)

  pub modify-Ascending :
      (x : K) (f : V → V) (m : List (K × V)) → Ascending m → Ascending (modify x f m)
  unfolding modify
  modify-Ascending x f [] a = tt
  modify-Ascending x f ((z, w) ∷ m) a =
      ground (arith, modify-Above x z f m a.0, modify-Ascending x f m a.1)

  pub find-Above : (x : K) (m : List (K × V)) → Above x m → find x m ≡ none
  unfolding find
  find-Above x [] a = refl
  find-Above x ((z, w) ∷ m) a = ground (arith, k.beq_iff z x, k.lt_irrefl x, find-Above x m a.1)

  erase_absent : (x : K) (m : List (K × V)) → Above x m → erase x m ≡ m
  unfolding erase
  erase_absent x [] a = refl
  erase_absent x ((z, w) ∷ m) a = ground (arith, k.beq_iff z x, k.lt_irrefl x, erase_absent x m a.1)

  -- Erasing a key that is there makes the map smaller by exactly one entry.
  pub length-erase :
      (x : K) (v : V) (m : List (K × V))
      → Ascending m
      → find x m ≡ some v
      → length (erase x m) + 1 ≡ length m
  unfolding find erase
  length-erase x v [] a h = cc
  length-erase x v ((z, w) ∷ m) a h =
      ground (arith, k.beq_iff z x, erase_absent x m, length-erase x v m)

  -- A write under a new key adds one entry.
  pub length-assign_new :
      (x : K) (v : V) (m : List (K × V)) → find x m ≡ none → length (assign x v m) ≡ length m + 1
  unfolding find assign
  length-assign_new x v [] h = omega arith
  length-assign_new x v ((z, w) ∷ m) h = ground (arith, length-assign_new x v m)

  -- A write under a key that is there keeps the size.
  pub length-assign_old :
      (x : K) (v u : V) (m : List (K × V))
      → Ascending m
      → find x m ≡ some u
      → length (assign x v m) ≡ length m
  unfolding find assign
  length-assign_old x v u [] a h = cc
  length-assign_old x v u ((z, w) ∷ m) a h =
      ground (arith, k.beq_iff z x, find-Above x m, Above-trans x z m, length-assign_old x v u m)
