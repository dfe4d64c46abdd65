-- ===== src/Encryption/Keys/Peers.antt =====
-- The secrets that two peers compute, each from its private key and the other's public key.
use apk.Base.{
  ◌≡◌, ◌≢◌, refl, ap, sym, ◌∙◌, some, ◌++◌, Option-cases, inl, inr, arith, take, drop, length,
  take-append, drop-append,
}
use apk.Base.Text.{Str}
use apk.Encryption.Keys.{Sodium, compute_shared_secret}

-- X25519, where two peers get the same product, and crypto_kx: a public key has 32 bytes, and the
-- client's receiving key is the first half of the BLAKE2b-512 of the product, the client's public key
-- and the server's.
pub record KxLaws (sodium : Sodium) : Type 0 where
  pub product : Str → Str → Str
  pub blake2b : Str → Str
  pub public_size : (sk : Str) → length (sodium.scalarmult_base sk) ≡ 32
  pub product_comm :
      (a b : Str) → product a (sodium.scalarmult_base b) ≡ product b (sodium.scalarmult_base a)
  pub session_keys :
      (pk sk peer : Str) (keys : Str × Str)
      → sodium.kx_client_session_keys pk sk peer ≡ some keys
      → keys.0 ≡ take 32 (blake2b (product sk peer ++ (pk ++ peer)))

module _ (sodium : Sodium) (laws : KxLaws sodium) where
  compute_shared_secret-some :
      (private_key peer secret : Str)
      → compute_shared_secret sodium private_key peer ≡ some secret
      → let own = sodium.scalarmult_base private_key in
        secret ≡ take 32 (laws.blake2b (laws.product private_key peer ++ (own ++ peer)))
  unfolding compute_shared_secret
  compute_shared_secret-some private_key peer secret h =
      let own = sodium.scalarmult_base private_key in
      elim (Option-cases (sodium.kx_client_session_keys own private_key peer)) [
        | inl e ↦ absurd (ground arith)
        | inr (keys, e) ↦
            let same : keys.0 ≡ secret = ground arith in
            sym same ∙ laws.session_keys own private_key peer keys e
      ]

  swapped_differ :
      (q a b : Str) → length a ≡ 32 → length b ≡ 32 → a ≢ b → q ++ (a ++ b) ≢ q ++ (b ++ a)
  swapped_differ q a b size_a size_b differ same =
      let behind : a ++ b ≡ b ++ a =
        sym (drop-append (length q) q (a ++ b) refl)
        ∙ ap (drop (length q)) same
        ∙ drop-append (length q) q (b ++ a) refl in
      differ (sym (take-append 32 a b size_a) ∙ ap (take 32) behind ∙ take-append 32 b a size_b)

  -- Two peers with different public keys, each of which computes the secret from its own private
  -- key and the public key of the other, by calls that succeed. Both take the part of the client, so
  -- their secrets are the first 32 bytes of the BLAKE2b-512 of two texts that differ, the same
  -- product with the public keys in one order and in the other: where they agree, this is a
  -- collision of the halves of two hashes.
  pub compute_shared_secret_peers :
      (a b secret secret' : Str)
      → sodium.scalarmult_base a ≢ sodium.scalarmult_base b
      → compute_shared_secret sodium a (sodium.scalarmult_base b) ≡ some secret
      → compute_shared_secret sodium b (sodium.scalarmult_base a) ≡ some secret'
      → let pk = sodium.scalarmult_base a in
        let pk' = sodium.scalarmult_base b in
        let q = laws.product a pk' in
        (secret ≡ take 32 (laws.blake2b (q ++ (pk ++ pk'))))
        × (secret' ≡ take 32 (laws.blake2b (q ++ (pk' ++ pk))))
        × (q ++ (pk ++ pk') ≢ q ++ (pk' ++ pk))
  compute_shared_secret_peers a b secret secret' differ e f =
      let pk = sodium.scalarmult_base a in
      let pk' = sodium.scalarmult_base b in
      let q = laws.product a pk' in
      (
        compute_shared_secret-some a pk' secret e,
        compute_shared_secret-some b pk secret' f
            ∙ ap (λ z. take 32 (laws.blake2b (z ++ (pk' ++ pk)))) (sym (laws.product_comm a b)),
        swapped_differ q pk pk' (laws.public_size a) (laws.public_size b) differ,
      )
