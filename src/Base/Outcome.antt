-- ===== src/Base/Outcome.antt =====
-- How a call ends: with a result, by an exception, by waiting for ever on a mutex (one that the same
-- thread holds, or a thread that waits for ever itself), or in undefined behaviour. The first three
-- leave the objects in a state.

pub data Outcome (S A : Type 0) : Type 0 where
  done : A → S → Outcome S A
  threw : S → Outcome S A
  blocked : S → Outcome S A
  undefined : Outcome S A

abbrev pub Action : Type 0 → Type 0 → Type 0
Action S A = S → Outcome S A

module _ {S : Type 0} where
  abbrev pub then_do : {A B : Type 0} → Outcome S A → (A → S → Outcome S B) → Outcome S B
  then_do (done a s) f = f a s
  then_do (threw s) f = threw s
  then_do (blocked s) f = blocked s
  then_do undefined f = undefined

  infixl 5 ◌>>=◌ ◌>>◌
  abbrev pub ◌>>=◌ : {A B : Type 0} → Action S A → (A → Action S B) → Action S B
  ◌>>=◌ m f s = then_do (m s) f

  abbrev pub ◌>>◌ : {B : Type 0} → Action S (Unit {0}) → Action S B → Action S B
  ◌>>◌ m k s = then_do (m s) (λ _. k)

  abbrev pub give : {A : Type 0} → A → Action S A
  give a s = done a s

  abbrev pub crash : {A : Type 0} → Action S A
  crash s = undefined

  abbrev pub fetch : Action S S
  fetch s = done s s

  abbrev pub update : (S → S) → Action S (Unit {0})
  update f s = done tt (f s)

  -- What holds of the state, whichever way the call ends.
  abbrev pub Leaves : {A : Type 0} → (S → Type 0) → Outcome S A → Type 0
  Leaves P (done a s) = P s
  Leaves P (threw s) = P s
  Leaves P (blocked s) = P s
  Leaves P undefined = Unit {0}
