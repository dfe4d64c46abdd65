-- ===== src/Map.antt =====
-- std::map as the list of its entries in key order, over an interface for the key's operator<.
pub mod Laws
pub mod Order
use apk.Base.{ℕ, suc, Bool, true, false, Option, none, some, List, [], ◌∷◌, if◌then◌else◌, length}
use apk.Key.{Key}

module _ {K V : Type 0} ⦃k : Key K⦄ where
  -- find: the value behind the key.
  unfoldable pub find : K → List (K × V) → Option V
  find x [] = none
  find x ((y, v) ∷ m) = if k.beq y x then some v else find x m

  -- m[x] = v
  unfoldable pub assign : K → V → List (K × V) → List (K × V)
  assign x v [] = (x, v) ∷ []
  assign x v ((y, w) ∷ m) =
      if k.beq y x
      then (x, v) ∷ m
      else if k.lt x y
      then (x, v) ∷ (y, w) ∷ m
      else (y, w) ∷ assign x v m

  -- erase by key
  unfoldable pub erase : K → List (K × V) → List (K × V)
  erase x [] = []
  erase x ((y, w) ∷ m) = let rest = erase x m in if k.beq y x then rest else (y, w) ∷ rest

-- A write through the pointer that is stored under the key.
unfoldable pub modify : {K V : Type 0} ⦃k : Key K⦄ → K → (V → V) → List (K × V) → List (K × V)
modify x f [] = []
modify ⦃k⦄ x f ((y, w) ∷ m) =
    let rest = modify x f m in if k.beq y x then (y, f w) ∷ rest else (y, w) ∷ rest

unfoldable pub keys : {K V : Type 0} → List (K × V) → List K
keys [] = []
keys ((y, w) ∷ m) = y ∷ keys m

unfoldable pub has : {K V : Type 0} ⦃k : Key K⦄ → K → List (K × V) → Bool
has x m = elim (find x m) [ none ↦ false | some v ↦ true ]
