-- ===== src/Encryption/Keys.antt =====
-- E2EEncryption::KeyPair, compute_shared_secret, and the constructor of DoubleRatchet, over libsodium.
pub mod Peers
use mathlib.Core.Option
use apk.Base.{none, ℕ, Option}
use apk.Base.Text.{Str}

-- crypto_scalarmult_base, and crypto_kx_client_session_keys with `none` for an error.
pub record Sodium : Type 0 where
  pub scalarmult_base : Str → Str
  pub kx_client_session_keys : Str → Str → Str → Option (Str × Str)

pub record KeyPair : Type 0 where
  pub public_key : Str
  pub private_key : Str

-- The fields of a ratchet. The peer's key is indeterminate (`none`) until it is set.
pub record DoubleRatchet : Type 0 where
  pub root_key : Str
  pub dh_send_private : Str
  pub dh_send_public : Str
  pub dh_recv_public : Option Str
  pub chain_counter : ℕ

-- The receiving key; `none` is the exception.
unfoldable pub compute_shared_secret : Sodium → Str → Str → Option Str
compute_shared_secret sodium private_key peer_public_key =
    Option.map (λ (keys : Str × Str). keys.0)
      (sodium.kx_client_session_keys (sodium.scalarmult_base private_key) private_key
        peer_public_key)

-- The constructor; `kp` is the new key pair that it makes.
unfoldable pub new_ratchet : Str → KeyPair → DoubleRatchet
new_ratchet initial_secret kp = record {
  root_key = initial_secret;
  dh_send_private = kp.private_key;
  dh_send_public = kp.public_key;
  dh_recv_public = none;
  chain_counter = 0;
}
