-- ===== src/Encryption/Examples.antt =====
-- A message and a hex text, and the theorems on them.
mod Keys
use apk.Base.{
  ℕ, ◌+◌, ◌≡◌, refl, some, List, [], ◌∷◌, ◌++◌, arith, length, take, replicate, All, ltb,
  if◌then◌else◌,
}
use apk.Base.Text.{lit}
use apk.Encryption.Hex.{hex_digit, bytes_to_hex, hex_to_bytes}
use apk.Encryption.Cipher.{Aead, AeadLaws, encrypt, decrypt, encrypt-roundtrip, encrypt-random}
use apk.Base.{ap, ◌-◌, length-append, take-append}
use apk.Encryption.Wire.{EncryptedMessage, serialize, threw, overread, decoded, deserialize, slice}
use apk.Encryption.Wire.RoundTrip.{IsWellSized, deserialize-serialize}
use apk.Encryption.Wire.Bounds.{cipher_len, front, deserialize_cases, serialize-deserialize}
use apk.Std.Bytes.{IsByte, le_value}

abbrev message : EncryptedMessage
message = record {
  ciphertext = 1 ∷ 2 ∷ 3 ∷ [];
  nonce = replicate 12 7;
  auth_tag = replicate 16 9;
  message_id = 258;
  timestamp = 1000;
}

message-IsWellSized : IsWellSized message
message-IsWellSized = record {
  id_fits = omega arith;
  time_fits = omega arith;
  nonce_fits = refl;
  tag_fits = refl;
}

abbrev input : List ℕ
input = replicate 48 0 ++ (5 ∷ [])

input-IsByte : All IsByte input
input-IsByte = ground arith

abbrev three : List ℕ
three = 255 ∷ 1 ∷ 12 ∷ []

abbrev silent : EncryptedMessage
silent = record {
  ciphertext = [];
  nonce = replicate 12 0;
  auth_tag = replicate 16 0;
  message_id = 0;
  timestamp = 0;
}

deserialize-serialize_example : deserialize (serialize message ++ (4 ∷ [])) ≡ decoded message
deserialize-serialize_example =
    deserialize-serialize message (4 ∷ []) message-IsWellSized (omega arith)

serialize-deserialize_example : serialize silent ≡ take (48 + length silent.ciphertext) input
unfolding deserialize slice le_value
serialize-deserialize_example = serialize-deserialize input input-IsByte silent refl

deserialize_cases_example : deserialize input ≡ (
    if ltb (length input) 32
    then threw
    else if ltb (length input) (48 + cipher_len input)
    then overread
    else decoded (front input))
deserialize_cases_example = deserialize_cases input

-- A cipher that only appends a tag.
abbrev tagging : Aead
tagging = record {
  seal = λ text nonce key. text ++ replicate 16 7;
  unseal = λ sealed nonce key. some (take (length sealed - 16) sealed);
}

tagging-AeadLaws : AeadLaws tagging
tagging-AeadLaws = record {
  seal_size = λ text nonce key. length-append text (replicate 16 7);
  unseal_seal = λ text nonce key.
      ap some
        (take-append _ text (replicate 16 7) (omega (arith, length-append text (replicate 16 7))));
}

encrypt-roundtrip_example :
    (m : EncryptedMessage) × (deserialize
        (serialize (encrypt tagging (1 ∷ 2 ∷ []) [] 5 1000 (replicate 4 3)))
      ≡ decoded m)
    × (decrypt tagging m [] 9 ≡ some (1 ∷ 2 ∷ []))
encrypt-roundtrip_example =
    encrypt-roundtrip tagging tagging-AeadLaws (1 ∷ 2 ∷ []) [] (replicate 4 3) 5 1000 9
      (omega arith) (omega arith) (omega arith) refl

encrypt-random_example :
    let m = encrypt tagging (1 ∷ 2 ∷ []) [] 5 1000 (replicate 4 3) in
    let m' = encrypt tagging (1 ∷ 2 ∷ []) [] 5 2000 (replicate 4 4) in
    (m.ciphertext ≡ m'.ciphertext) × (m.auth_tag ≡ m'.auth_tag)
encrypt-random_example =
    encrypt-random tagging tagging-AeadLaws (1 ∷ 2 ∷ []) [] (replicate 4 3) (replicate 4 4) 5 1000
      2000
