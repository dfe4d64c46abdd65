-- ===== src/Encryption/Wire/Bounds.antt =====
-- deserialize on any input: which inputs it refuses, on which it reads past the end, and what it
-- reads from the others.
use apk.Base.{
  ℕ, ◌+◌, ◌%◌, ◌^◌, ◌≤◌, ◌<◌, ◌≡◌, ◌≢◌, sym, ap, ◌∙◌, some, List, [], arith, ltb, if◌then◌else◌,
  length, take, drop, length-take, length-drop, All, All-take, All-drop, take-drop-add, subst,
  append-nil,
}
use apk.Std.Bytes.{IsByte, le_bytes, le_value, le_bytes-le_value, le_value-lt, le_value-le_bytes}
use native.Mathlib.Decide.{dec_lt}
use native.Mathlib.Nat.{pow-le-pow_right}
use apk.Encryption.Wire.RoundTrip.{IsWellSized, size_slice, serialize-whole}
use apk.Encryption.Wire.{EncryptedMessage, serialize, threw, overread, decoded, slice, deserialize}

-- The length field of an input.
abbrev pub cipher_len : List ℕ → ℕ
cipher_len input = le_value (take 4 (drop 28 input))

-- The message at the front of an input.
abbrev pub front : List ℕ → EncryptedMessage
front input = record {
  ciphertext = take (cipher_len input) (drop 32 input);
  nonce = take 12 (drop 16 input);
  auth_tag = take 16 (drop (32 + cipher_len input) input);
  message_id = le_value (take 8 input);
  timestamp = le_value (take 8 (drop 8 input));
}

deserialize_branches :
    (input : List ℕ)
    → (length input < 32 → deserialize input ≡ threw)
      × (32 ≤ length input → length input < 48 + cipher_len input → deserialize input ≡ overread)
      × (48 + cipher_len input ≤ length input → deserialize input ≡ decoded (front input))
unfolding deserialize slice
deserialize_branches input = (λ h. ground arith, λ h k. ground arith, λ h. ground arith)

-- An input below 32 bytes throws. A longer one that has not room for the ciphertext that its
-- length field tells of, and for the tag, is read past its end. Any other gives the message at its
-- front.
pub deserialize_cases :
    (input : List ℕ)
    → deserialize input ≡ (
        if ltb (length input) 32
        then threw
        else if ltb (length input) (48 + cipher_len input)
        then overread
        else decoded (front input))
deserialize_cases input =
    let (throws, overreads, reads) = deserialize_branches input in
    elim (dec_lt (length input) 32) [
      | yes short ↦ ground (arith, throws short)
      | no long ↦ elim (dec_lt (length input) (48 + cipher_len input)) [
        | yes cut ↦ ground (arith, overreads (omega arith) cut)
        | no room ↦ ground (arith, reads (omega arith))
      ]
    ]

-- A message that was read stands at the front, inside the input.
deserialize-front :
    (input : List ℕ) (m : EncryptedMessage)
    → deserialize input ≡ decoded m
    → (48 + cipher_len input ≤ length input)
      × (front input ≡ m)
      × (length m.ciphertext ≡ cipher_len input)
deserialize-front input m e =
    let (throws, overreads, reads) = deserialize_branches input in
    elim (dec_lt (length input) 32) [
      | yes short ↦ absurd (ground (arith, throws short))
      | no long ↦ elim (dec_lt (length input) (48 + cipher_len input)) [
        | yes cut ↦ absurd (ground (arith, overreads (omega arith) cut))
        | no room ↦
            let inside : 48 + cipher_len input ≤ length input = omega arith in
            let same : front input ≡ m = ground (arith, reads inside) in
            (
              inside,
              same,
              ap (λ (x : EncryptedMessage). length x.ciphertext) (sym same)
                  ∙ omega
                      (arith, length-take (cipher_len input) (drop 32 input), length-drop 32 input),
            )
      ]
    ]

module _ (input : List ℕ) (bytes : All IsByte input) where
  -- A number that was read from inside the input is written back as the bytes it came from.
  rewrite_part :
      (n offset : ℕ)
      → offset + n ≤ length input
      → le_bytes n (le_value (take n (drop offset input))) ≡ take n (drop offset input)
  rewrite_part n offset inside =
      let part : List ℕ = take n (drop offset input) in
      let size : length part ≡ n =
        omega (arith, length-take n (drop offset input), length-drop offset input) in
      subst (λ k. le_bytes k (le_value part) ≡ part) size
        (le_bytes-le_value part
          (All-take IsByte n (drop offset input) (All-drop IsByte offset input bytes)))

  cipher_len-lt : cipher_len input < 2 ^ 32
  cipher_len-lt =
      let part : List ℕ = take 4 (drop 28 input) in
      let narrow : length part ≤ 4 = omega (arith, length-take 4 (drop 28 input)) in
      omega (
        arith,
        le_value-lt part (All-take IsByte 4 (drop 28 input) (All-drop IsByte 28 input bytes)),
        pow-le-pow_right {n = 256} (omega arith) narrow,
      )

  -- The message that is read from an input is serialized to the bytes that it was read from.
  pub serialize-front :
      48 + cipher_len input ≤ length input
      → serialize (front input) ≡ take (48 + cipher_len input) input
  unfolding serialize
  serialize-front h =
      let size : length (take (cipher_len input) (drop 32 input)) % 2 ^ 32 ≡ cipher_len input =
        omega (
          arith,
          cipher_len-lt,
          length-take (cipher_len input) (drop 32 input),
          length-drop 32 input,
        ) in
      rw
        (
          size,
          rewrite_part 8 0 (omega arith),
          rewrite_part 8 8 (omega arith),
          rewrite_part 4 28 (omega arith),
        )
        (rw
          (
            take-drop-add 32 (cipher_len input) 16 input,
            take-drop-add 28 4 (cipher_len input + 16) input,
            take-drop-add 16 12 (4 + (cipher_len input + 16)) input,
            take-drop-add 8 8 (12 + (4 + (cipher_len input + 16))) input,
            take-drop-add 0 8 (8 + (12 + (4 + (cipher_len input + 16)))) input,
          )
          (ap (λ n. take n input) (omega arith)))

  -- A message that is read is serialized to the very bytes that it was read from; what follows
  -- them in the input is ignored.
  pub serialize-deserialize :
      (m : EncryptedMessage)
      → deserialize input ≡ decoded m
      → serialize m ≡ take (48 + length m.ciphertext) input
  serialize-deserialize m e =
      let (inside, same, size) = deserialize-front input m e in
      ap serialize (sym same) ∙ serialize-front inside ∙ ap (λ n. take (48 + n) input) (sym size)

slice-eq_some :
    (offset n : ℕ) (input part : List ℕ)
    → slice offset n input ≡ some part
    → take n (drop offset input) ≡ part
unfolding slice
slice-eq_some offset n input part h = ground arith

-- A ciphertext of 2 ^ 32 bytes or more is never read back: its length field is the size modulo
-- 2 ^ 32.
pub deserialize-serialize_long :
    (m : EncryptedMessage)
    → IsWellSized m
    → 2 ^ 32 ≤ length m.ciphertext
    → deserialize (serialize m) ≢ decoded m
deserialize-serialize_long m w h e =
    let (inside, same, size) = deserialize-front (serialize m) m e in
    let field : cipher_len (serialize m) ≡ length m.ciphertext % 2 ^ 32 =
      ap cipher_len (sym (append-nil (serialize m)) ∙ serialize-whole m [] w)
      ∙ ap le_value (slice-eq_some 28 4 _ _ (size_slice m [] w))
      ∙ le_value-le_bytes 4 (length m.ciphertext % 2 ^ 32) (omega arith) in
    omega arith
