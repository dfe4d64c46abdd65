-- ===== src/Encryption/Ratchet/Prefix.antt =====
-- What the keys of a ratchet depend on.
use apk.Base.{
  ℕ, suc, ◌%◌, ◌^◌, ◌≡◌, refl, ap, ◌∙◌, false, Option, none, some, List, [], ◌∷◌, ◌++◌, arith,
  length, take, drop, min, append-nil, All,
}
use apk.Base.Text.{Str, lit}
use apk.Encryption.Keys.{DoubleRatchet}
use apk.Encryption.Ratchet.{
  Pwhash, SessionKeys, overwrite, derive_key, derive_session_keys, ratchet_forward,
}

-- crypto_pwhash makes a key of the length that is asked for.
pub record PwhashLaws (pwhash : Pwhash) : Type 0 where
  pub pwhash_size :
      (sensitive : _) (n : ℕ) (password salt key : Str)
      → pwhash sensitive n password salt ≡ some key
      → length key ≡ n

drop_all : (xs : Str) → drop (length xs) xs ≡ []
drop_all [] = refl
drop_all (x ∷ xs) = drop_all xs

overwrite_full :
    (bytes stack : Str)
    → length bytes ≡ 32
    → length stack ≡ 16
    → overwrite 16 bytes stack ≡ take 16 bytes
unfolding overwrite
overwrite_full bytes stack h k =
    let all : min 16 (length bytes) ≡ length stack = ground arith in
    ap (λ n. take 16 bytes ++ drop n stack) all
    ∙ ap (λ s. take 16 bytes ++ s) (drop_all stack)
    ∙ append-nil (take 16 bytes)

-- Some steps of a ratchet, with what the stack holds at each; the keys of the steps, and the ratchet.
unfoldable pub forward :
    Pwhash → List Str → DoubleRatchet → List (Option SessionKeys) × DoubleRatchet
forward pwhash [] r = ([], r)
forward pwhash (stack ∷ stacks) r =
    let (keys, r') = ratchet_forward pwhash stack r in
    let (later, end) = forward pwhash stacks r' in (keys ∷ later, end)

-- Two ratchets whose root keys, of 32 bytes each, begin with the same 16 bytes.
pub record Alike (r r' : DoubleRatchet) : Type 0 where
  pub size : length r.root_key ≡ 32
  pub size' : length r'.root_key ≡ 32
  pub prefix : take 16 r.root_key ≡ take 16 r'.root_key

module _ (pwhash : Pwhash) (laws : PwhashLaws pwhash) where
  -- A step, where the root key that it makes is at hand.
  abbrev next : Option Str → DoubleRatchet → Option SessionKeys × DoubleRatchet
  next root r = elim root [
    | none ↦ (none, record r { chain_counter = suc r.chain_counter % 2 ^ 32 })
    | some new_root ↦ (
      derive_session_keys pwhash new_root [],
      record r { chain_counter = suc r.chain_counter % 2 ^ 32; root_key = new_root },
    )
  ]

  abbrev new_root : DoubleRatchet → Option Str
  new_root r = pwhash false 32 (lit "root_ratchet") (take 16 r.root_key)

  ratchet_forward-next :
      (stack : Str) (r : DoubleRatchet)
      → length stack ≡ 16
      → length r.root_key ≡ 32
      → ratchet_forward pwhash stack r ≡ next (new_root r) r
  unfolding ratchet_forward derive_key
  ratchet_forward-next stack r h k =
      ap (λ salt. next (pwhash false 32 (lit "root_ratchet") salt) r)
        (overwrite_full r.root_key stack k h)

  next-Alike :
      (root : Option Str) (r r' : DoubleRatchet)
      → ((key : Str) → root ≡ some key → length key ≡ 32)
      → Alike r r'
      → ((next root r).0 ≡ (next root r').0) × Alike (next root r).1 (next root r').1
  next-Alike none r r' size alike =
      (refl, record { size = alike.size; size' = alike.size'; prefix = alike.prefix })
  next-Alike (some key) r r' size alike =
      (refl, record { size = size key refl; size' = size key refl; prefix = refl })

  ratchet_forward-Alike :
      (stack stack' : Str) (r r' : DoubleRatchet)
      → length stack ≡ 16
      → length stack' ≡ 16
      → Alike r r'
      → ((ratchet_forward pwhash stack r).0 ≡ (ratchet_forward pwhash stack' r').0)
        × Alike (ratchet_forward pwhash stack r).1 (ratchet_forward pwhash stack' r').1
  ratchet_forward-Alike stack stack' r r' h h' alike =
      let same : new_root r ≡ new_root r' =
        ap (pwhash false 32 (lit "root_ratchet")) alike.prefix in
      rw
        (
          ratchet_forward-next stack r h alike.size,
          ratchet_forward-next stack' r' h' alike.size',
          same,
        )
        (next-Alike (new_root r') r r' (λ key e. laws.pwhash_size _ _ _ _ key e) alike)

  -- The keys of any number of steps depend on no more than the first 16 of the 32 bytes of the root
  -- key: two ratchets that agree in these give the same keys, step by step, whatever the rest of
  -- their root keys, their counters and their key pairs, and whatever the stack held at each step.
  pub forward-prefix :
      (stacks stacks' : List Str) (r r' : DoubleRatchet)
      → length stacks ≡ length stacks'
      → All (λ stack. length stack ≡ 16) stacks
      → All (λ stack. length stack ≡ 16) stacks'
      → Alike r r'
      → (forward pwhash stacks r).0 ≡ (forward pwhash stacks' r').0
  unfolding forward
  forward-prefix [] [] r r' same h h' alike = refl
  forward-prefix [] (stack' ∷ stacks') r r' same h h' alike = absurd (omega arith)
  forward-prefix (stack ∷ stacks) [] r r' same h h' alike = absurd (omega arith)
  forward-prefix (stack ∷ stacks) (stack' ∷ stacks') r r' same h h' alike =
      let (keys, alike') = ratchet_forward-Alike stack stack' r r' h.0 h'.0 alike in
      let s = (ratchet_forward pwhash stack r).1 in
      let s' = (ratchet_forward pwhash stack' r').1 in
      let later = forward-prefix stacks stacks' s s' (omega arith) h.1 h'.1 alike' in
      ap (λ k. k ∷ (forward pwhash stacks s).0) keys
      ∙ ap (λ ks. (ratchet_forward pwhash stack' r').0 ∷ ks) later
