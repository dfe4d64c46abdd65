-- ===== src/Encryption/Wire.antt =====
-- EncryptedMessage::serialize and EncryptedMessage::deserialize.
-- [message_id(8)] [timestamp(8)] [nonce(12)] [ciphertext_len(4)] [ciphertext] [auth_tag(16)]
pub mod RoundTrip
pub mod Bounds
use apk.Base.{
  ℕ, ◌+◌, ◌%◌, ◌^◌, Option, none, some, List, [], ◌++◌, ltb, leb, if◌then◌else◌, length, take, drop,
}
use apk.Std.Bytes.{le_bytes, le_value}

abbrev pub nonce_size : ℕ
nonce_size = 12

abbrev pub auth_tag_size : ℕ
auth_tag_size = 16

pub record EncryptedMessage : Type 0 where
  pub ciphertext : List ℕ
  pub nonce : List ℕ
  pub auth_tag : List ℕ
  pub message_id : ℕ
  pub timestamp : ℕ

-- `uint32_t cipher_len = ciphertext.size()` keeps the size modulo 2 ^ 32.
unfoldable pub serialize : EncryptedMessage → List ℕ
serialize m =
    le_bytes 8 m.message_id
    ++ (le_bytes 8 m.timestamp
        ++ (m.nonce ++ (le_bytes 4 (length m.ciphertext % 2 ^ 32) ++ (m.ciphertext ++ m.auth_tag))))

-- The exception, a read past the end of the input (undefined behaviour), or a message.
pub data Decoded : Type 0 where
  threw : Decoded
  overread : Decoded
  decoded : EncryptedMessage → Decoded

-- `n` bytes from `offset` on, if they lie inside the input.
unfoldable pub slice : ℕ → ℕ → List ℕ → Option (List ℕ)
slice offset n input =
    if leb (offset + n) (length input) then some (take n (drop offset input)) else none

infixl 5 ◌>>=◌
abbrev ◌>>=◌ : Option (List ℕ) → (List ℕ → Decoded) → Decoded
none >>= f = overread
some bytes >>= f = f bytes

unfoldable pub deserialize_body : List ℕ → Decoded
deserialize_body input = do
  message_id ← slice 0 8 input
  timestamp ← slice 8 8 input
  nonce ← slice 16 nonce_size input
  cipher_len ← slice 28 4 input
  ciphertext ← slice 32 (le_value cipher_len) input
  auth_tag ← slice (32 + le_value cipher_len) auth_tag_size input
  decoded (record {
    ciphertext = ciphertext;
    nonce = nonce;
    auth_tag = auth_tag;
    message_id = le_value message_id;
    timestamp = le_value timestamp;
  })

unfoldable pub deserialize : List ℕ → Decoded
unfolding deserialize_body
deserialize input = if ltb (length input) 32 then threw else deserialize_body input
