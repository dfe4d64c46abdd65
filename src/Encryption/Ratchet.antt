-- ===== src/Encryption/Ratchet.antt =====
-- E2EEncryption::derive_key, derive_session_keys, KeyPair::from_hex, and the steps of DoubleRatchet.
pub mod Prefix
use mathlib.Core.Option
use apk.Base.{
  ℕ, suc, ◌-◌, ◌%◌, ◌^◌, Bool, true, false, Option, none, some, [], ◌∷◌, ◌++◌, length, take, drop,
  replicate, min,
}
use apk.Base.Text.{Str, lit}
use apk.Encryption.Hex.{bytes_to_hex, hex_to_bytes}
use apk.Encryption.Keys.{Sodium, KeyPair, DoubleRatchet, compute_shared_secret}

-- crypto_pwhash: whether the limits are the sensitive ones, the length, the password and the salt.
abbrev pub Pwhash : Type 0
Pwhash = Bool → ℕ → Str → Str → Option Str

-- The counters of the source are zero in every SessionKeys that is made.
pub record SessionKeys : Type 0 where
  pub send_key : Str
  pub recv_key : Str
  pub header_key : Str

-- A memcpy of at most `size` bytes into a buffer.
unfoldable pub overwrite : ℕ → Str → Str → Str
overwrite size bytes buffer = take size bytes ++ drop (min size (length bytes)) buffer

-- `stack` is what the uninitialized salt_bytes hold; `none` is the exception.
unfoldable pub derive_key : Pwhash → Str → Str → Str → ℕ → Option Str
unfolding overwrite
derive_key pwhash stack password salt key_length =
    pwhash false key_length password (overwrite 16 salt stack)

-- modified_salt[0] ^= 0xFF on a byte.
abbrev pub flip_first : Str → Str
flip_first [] = []
flip_first (b ∷ bytes) = (255 - b) ∷ bytes

abbrev pub session_salt : Str → Str
session_salt salt = overwrite 16 salt (replicate 16 0)

unfoldable pub derive_session_keys : Pwhash → Str → Str → Option SessionKeys
unfolding overwrite
derive_session_keys pwhash shared_secret salt =
    elim (pwhash true 32 shared_secret (session_salt salt)) [
      | none ↦ none
      | some send_key ↦
          Option.map
            (λ recv_key. record {
              send_key = send_key;
              recv_key = recv_key;
              header_key = replicate 32 0;
            })
            (pwhash true 32 shared_secret (flip_first (session_salt salt)))
    ]

unfoldable pub public_key_hex : KeyPair → Str
unfolding bytes_to_hex
public_key_hex kp = bytes_to_hex kp.public_key

-- `stack` is the pair before it is filled.
unfoldable pub from_hex : KeyPair → Str → Str → Option KeyPair
unfolding hex_to_bytes overwrite
from_hex stack public_hex private_hex = elim (hex_to_bytes public_hex) [
  | none ↦ none
  | some pub_bytes ↦
      Option.map
        (λ priv_bytes. record {
          public_key = overwrite 32 pub_bytes stack.public_key;
          private_key = overwrite 32 priv_bytes stack.private_key;
        })
        (hex_to_bytes private_hex)
]

unfoldable pub get_current_keys : Pwhash → DoubleRatchet → Option SessionKeys
unfolding derive_session_keys
get_current_keys pwhash r = derive_session_keys pwhash r.root_key []

-- The result is `none` for an exception, of either derivation; the ratchet is as it is left then.
unfoldable pub ratchet_forward : Pwhash → Str → DoubleRatchet → Option SessionKeys × DoubleRatchet
unfolding derive_key derive_session_keys
ratchet_forward pwhash stack r =
    let counted = record r { chain_counter = suc r.chain_counter % 2 ^ 32 } in
    elim (derive_key pwhash stack (lit "root_ratchet") r.root_key 32) [
      | none ↦ (none, counted)
      | some new_root ↦
          (derive_session_keys pwhash new_root [], record counted { root_key = new_root })
    ]

-- `none` is an exception, which leaves the ratchet as it was.
unfoldable pub update_with_peer_key :
    Sodium → Pwhash → Str → Str → DoubleRatchet → Option DoubleRatchet
unfolding compute_shared_secret derive_key
update_with_peer_key sodium pwhash stack peer_key r =
    elim (compute_shared_secret sodium r.dh_send_private peer_key) [
      | none ↦ none
      | some new_secret ↦
          Option.map
            (λ new_root. record r {
              root_key = new_root;
              dh_recv_public = some peer_key;
              chain_counter = 0;
            })
            (derive_key pwhash stack (lit "dh_ratchet") new_secret 32)
    ]
