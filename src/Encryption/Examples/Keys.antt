-- ===== src/Encryption/Examples/Keys.antt =====
-- A key exchange, a signature and a ratchet over small stand-ins for libsodium.
use apk.Base.{
  ◌≡◌, ◌≢◌, refl, sym, ap, ◌∙◌, none, some, [], ◌∷◌, ◌++◌, arith, length, replicate, take, some_inj,
  length-take, length-append, drop, ℕ, suc, zero,
}
use apk.Base.Text.{Str}
use apk.Encryption.Keys.{Sodium, DoubleRatchet, compute_shared_secret}
use apk.Encryption.Keys.Peers.{KxLaws, compute_shared_secret_peers}
use apk.Encryption.Ratchet.{Pwhash}
use apk.Encryption.Ratchet.Prefix.{PwhashLaws, forward, forward-prefix}

length-replicate : (n b : ℕ) → length (replicate n b) ≡ n
length-replicate zero b = refl
length-replicate (suc n) b = ap suc (length-replicate n b)

-- A private key padded to 32 bytes, and no hash at all.
abbrev padded : Str → Str
padded sk = take 32 (sk ++ replicate 32 0)

abbrev plain_kx : Sodium
plain_kx = record {
  scalarmult_base = padded;
  kx_client_session_keys = λ pk sk peer. some (take 32 (pk ++ peer), drop 32 (pk ++ peer));
}

length-padded : (sk : Str) → length (padded sk) ≡ 32
length-padded sk = ground (
  arith,
  length-take 32 (sk ++ replicate 32 0),
  length-append sk (replicate 32 0),
  length-replicate 32 0,
)

plain_kx-KxLaws : KxLaws plain_kx
plain_kx-KxLaws = record {
  product = λ sk peer. [];
  blake2b = λ text. text;
  public_size = length-padded;
  product_comm = λ a b. refl;
  session_keys = λ pk sk peer keys e. sym (ap (λ (k : Str × Str). k.0) (some_inj e));
}

compute_shared_secret_peers_example :
    (padded (1 ∷ []) ≡ take 32 (padded (1 ∷ []) ++ padded (2 ∷ [])))
    × (padded (2 ∷ []) ≡ take 32 (padded (2 ∷ []) ++ padded (1 ∷ [])))
    × (padded (1 ∷ []) ++ padded (2 ∷ []) ≢ padded (2 ∷ []) ++ padded (1 ∷ []))
unfolding compute_shared_secret plain_kx-KxLaws
compute_shared_secret_peers_example =
    compute_shared_secret_peers plain_kx plain_kx-KxLaws (1 ∷ []) (2 ∷ []) (padded (1 ∷ []))
      (padded (2 ∷ [])) (λ e. ground arith) refl refl

-- The ratchet derives a key of zeros.
abbrev zeros : Pwhash
zeros = λ sensitive n password salt. some (take n (salt ++ replicate n 0))

abbrev ratchet : Str → DoubleRatchet
ratchet root = record {
  root_key = root;
  dh_send_private = [];
  dh_send_public = [];
  dh_recv_public = none;
  chain_counter = 0;
}

zeros-PwhashLaws : PwhashLaws zeros
zeros-PwhashLaws = record {
  pwhash_size = λ sensitive n password salt key e.
      ap length (sym (some_inj e))
      ∙ ground (
        arith,
        length-take n (salt ++ replicate n 0),
        length-append salt (replicate n 0),
        length-replicate n 0,
      );
}

abbrev root : Str
root = replicate 16 7 ++ replicate 16 1

abbrev root' : Str
root' = replicate 16 7 ++ replicate 16 2

forward-prefix_example :
    (forward zeros (replicate 16 3 ∷ replicate 16 4 ∷ []) (ratchet root)).0
    ≡ (forward zeros (replicate 16 5 ∷ replicate 16 6 ∷ []) (ratchet root')).0
forward-prefix_example =
    forward-prefix zeros zeros-PwhashLaws (replicate 16 3 ∷ replicate 16 4 ∷ [])
      (replicate 16 5 ∷ replicate 16 6 ∷ []) (ratchet root) (ratchet root') refl (refl, (refl, tt))
      (refl, (refl, tt)) (record { size = refl; size' = refl; prefix = refl })
