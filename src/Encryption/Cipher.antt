-- ===== src/Encryption/Cipher.antt =====
-- E2EEncryption::encrypt and E2EEncryption::decrypt over libsodium's ChaCha20-Poly1305.
use apk.Base.{
  ℕ, ◌+◌, ◌-◌, ◌^◌, ◌<◌, ◌≡◌, sym, ap, ◌∙◌, Option, some, [], ◌++◌, arith, length, take, drop,
  take-append, take-append-drop, length-take, length-drop, length-append,
}
use apk.Base.Text.{Str}
use apk.Std.Bytes.{le_bytes, length-le_bytes}
use apk.Encryption.Wire.{EncryptedMessage, auth_tag_size, serialize, decoded, deserialize}
use apk.Encryption.Wire.RoundTrip.{IsWellSized, deserialize-serialize}
use apk.Base.{append-nil}

-- crypto_aead_chacha20poly1305_encrypt and _decrypt without additional data: the text, a nonce of
-- crypto_aead_chacha20poly1305_NPUBBYTES = 8 bytes, and the key. The result of the first ends in the
-- tag; `none` is a result other than 0 of the second.
pub record Aead : Type 0 where
  pub seal : Str → Str → Str → Str
  pub unseal : Str → Str → Str → Option Str

-- The documented size, and that a sealed text is opened under the same nonce and key.
pub record AeadLaws (aead : Aead) : Type 0 where
  pub seal_size :
      (text nonce key : Str) → length (aead.seal text nonce key) ≡ length text + auth_tag_size
  pub unseal_seal :
      (text nonce key : Str) → aead.unseal (aead.seal text nonce key) nonce key ≡ some text

abbrev pub npub_bytes : ℕ
npub_bytes = 8

module _ (aead : Aead) where
  -- `random` are the four bytes of randombytes_buf, `now` is std::time.
  unfoldable pub encrypt : Str → Str → ℕ → ℕ → Str → EncryptedMessage
  encrypt plaintext key message_counter now random =
      let nonce = le_bytes 8 message_counter ++ random in
      let buffer = aead.seal plaintext (take npub_bytes nonce) key in
      let size = length plaintext + auth_tag_size - auth_tag_size in
      record {
        ciphertext = take size buffer;
        nonce = nonce;
        auth_tag = drop size buffer;
        message_id = message_counter;
        timestamp = now;
      }

  -- `none` is the exception.
  unfoldable pub decrypt : EncryptedMessage → Str → ℕ → Option Str
  decrypt encrypted key expected_counter =
      aead.unseal (encrypted.ciphertext ++ encrypted.auth_tag) (take npub_bytes encrypted.nonce) key

module _ (aead : Aead) (laws : AeadLaws aead) where
  encrypt-IsWellSized :
      (plaintext key random : Str) (message_counter now : ℕ)
      → message_counter < 2 ^ 64
      → now < 2 ^ 64
      → length random ≡ 4
      → IsWellSized (encrypt aead plaintext key message_counter now random)
  unfolding encrypt
  encrypt-IsWellSized plaintext key random message_counter now c t r =
      let nonce = le_bytes 8 message_counter ++ random in
      let buffer = aead.seal plaintext (take npub_bytes nonce) key in
      record {
        id_fits = c;
        time_fits = t;
        nonce_fits = omega (
          arith,
          length-append (le_bytes 8 message_counter) random,
          length-le_bytes 8 message_counter,
        );
        tag_fits = omega (
          arith,
          length-drop (length plaintext + auth_tag_size - auth_tag_size) buffer,
          laws.seal_size plaintext (take npub_bytes nonce) key,
        );
      }

  length-encrypt :
      (plaintext key random : Str) (message_counter now : ℕ)
      → length (encrypt aead plaintext key message_counter now random).ciphertext ≡ length plaintext
  unfolding encrypt
  length-encrypt plaintext key random message_counter now =
      let nonce = take npub_bytes (le_bytes 8 message_counter ++ random) in
      omega (
        arith,
        length-take (length plaintext + auth_tag_size - auth_tag_size)
            (aead.seal plaintext nonce key),
        laws.seal_size plaintext nonce key,
      )

  decrypt-encrypt :
      (plaintext key random : Str) (message_counter now expected_counter : ℕ)
      → decrypt aead (encrypt aead plaintext key message_counter now random) key expected_counter
        ≡ some plaintext
  unfolding encrypt decrypt
  decrypt-encrypt plaintext key random message_counter now expected_counter =
      let nonce = take npub_bytes (le_bytes 8 message_counter ++ random) in
      let size = length plaintext + auth_tag_size - auth_tag_size in
      ap (λ sealed. aead.unseal sealed nonce key)
        (take-append-drop size (aead.seal plaintext nonce key))
      ∙ laws.unseal_seal plaintext nonce key

  -- A text below 2 ^ 32 bytes that is encrypted, with a counter and a time below 2 ^ 64 and four
  -- random bytes, serialized, read back and decrypted under the same key is the text again,
  -- whichever counter the receiver expects.
  pub encrypt-roundtrip :
      (plaintext key random : Str) (message_counter now expected_counter : ℕ)
      → length plaintext < 2 ^ 32
      → message_counter < 2 ^ 64
      → now < 2 ^ 64
      → length random ≡ 4
      → (m : EncryptedMessage) × (deserialize
            (serialize (encrypt aead plaintext key message_counter now random))
          ≡ decoded m)
        × (decrypt aead m key expected_counter ≡ some plaintext)
  encrypt-roundtrip plaintext key random message_counter now expected_counter short c t r =
      let m = encrypt aead plaintext key message_counter now random in
      let sized = encrypt-IsWellSized plaintext key random message_counter now c t r in
      (
        m,
        sym (ap deserialize (append-nil (serialize m)))
            ∙ deserialize-serialize m [] sized
                (omega (arith, length-encrypt plaintext key random message_counter now)),
        decrypt-encrypt plaintext key random message_counter now expected_counter,
      )

  -- The four random bytes of the nonce have no effect: under the same key and counter a text gives
  -- the same ciphertext and the same tag, whatever these bytes and the time.
  pub encrypt-random :
      (plaintext key random random' : Str) (message_counter now now' : ℕ)
      → let m = encrypt aead plaintext key message_counter now random in
        let m' = encrypt aead plaintext key message_counter now' random' in
        (m.ciphertext ≡ m'.ciphertext) × (m.auth_tag ≡ m'.auth_tag)
  unfolding encrypt
  encrypt-random plaintext key random random' message_counter now now' =
      let size = length plaintext + auth_tag_size - auth_tag_size in
      let same : take npub_bytes (le_bytes 8 message_counter ++ random)
          ≡ take npub_bytes (le_bytes 8 message_counter ++ random') =
        take-append 8 (le_bytes 8 message_counter) random (length-le_bytes 8 message_counter)
        ∙ sym (
            take-append 8 (le_bytes 8 message_counter) random'
              (length-le_bytes 8 message_counter)) in
      (
        ap (λ nonce. take size (aead.seal plaintext nonce key)) same,
        ap (λ nonce. drop size (aead.seal plaintext nonce key)) same,
      )
