-- ===== src/Map/Laws.antt =====
-- What a lookup finds after each write; none of it needs the entries to be in order.
use apk.Base.{◌+◌, ◌≤◌, ◌≡◌, refl, none, some, List, [], ◌∷◌, arith, if◌then◌else◌, length}
use mathlib.Core.Option
use apk.Key.{Key}
use apk.Map.{find, assign, erase, modify, keys}

module _ {K V : Type 0} ⦃k : Key K⦄ where
  pub find-assign :
      (x j : K) (v : V) (m : List (K × V))
      → find j (assign x v m) ≡ (if k.beq x j then some v else find j m)
  unfolding find assign
  find-assign x j v [] = refl
  find-assign x j v ((y, w) ∷ m) =
      ground (arith, k.beq_iff x j, k.beq_iff y x, k.beq_iff y j, find-assign x j v m)

  pub find-erase :
      (x j : K) (m : List (K × V)) → find j (erase x m) ≡ (if k.beq x j then none else find j m)
  unfolding find erase
  find-erase x j [] = ground arith
  find-erase x j ((y, w) ∷ m) =
      ground (arith, k.beq_iff x j, k.beq_iff y x, k.beq_iff y j, find-erase x j m)

  pub find-modify :
      (x j : K) (f : V → V) (m : List (K × V))
      → find j (modify x f m) ≡ (if k.beq x j then Option.map f (find j m) else find j m)
  unfolding find modify
  find-modify x j f [] = ground arith
  find-modify x j f ((y, w) ∷ m) =
      ground (arith, k.beq_iff x j, k.beq_iff y x, k.beq_iff y j, find-modify x j f m)

  pub keys-modify : (x : K) (f : V → V) (m : List (K × V)) → keys (modify x f m) ≡ keys m
  unfolding keys modify
  keys-modify x f [] = refl
  keys-modify x f ((y, w) ∷ m) = ground (arith, keys-modify x f m)

  pub length-assign-le : (x : K) (v : V) (m : List (K × V)) → length (assign x v m) ≤ length m + 1
  unfolding assign
  length-assign-le x v [] = omega arith
  length-assign-le x v ((y, w) ∷ m) = ground (arith, length-assign-le x v m)

  pub length-erase-le : (x : K) (m : List (K × V)) → length (erase x m) ≤ length m
  unfolding erase
  length-erase-le x [] = omega arith
  length-erase-le x ((y, w) ∷ m) = ground (arith, length-erase-le x m)

  pub length-modify : (x : K) (f : V → V) (m : List (K × V)) → length (modify x f m) ≡ length m
  unfolding modify
  length-modify x f [] = refl
  length-modify x f ((y, w) ∷ m) = ground (arith, length-modify x f m)
