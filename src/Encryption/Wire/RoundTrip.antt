-- ===== src/Encryption/Wire/RoundTrip.antt =====
-- What was serialized is read back.
use apk.Base.{
  ℕ, false, ◌+◌, ◌%◌, ◌^◌, ◌<◌, ◌≡◌, refl, ◌∙◌, some, List, [], ◌++◌, arith, ltb, length,
  length-append, take-append, drop-append, append_assoc,
}
use apk.Std.Bytes.{le_bytes, le_value, length-le_bytes, le_value-le_bytes}
use apk.Encryption.Wire.{
  EncryptedMessage, serialize, decoded, slice, deserialize, nonce_size, auth_tag_size,
}

-- The sizes that the fields have in the program: std::array, uint64_t.
pub record IsWellSized (m : EncryptedMessage) : Type 0 where
  pub id_fits : m.message_id < 2 ^ 64
  pub time_fits : m.timestamp < 2 ^ 64
  pub nonce_fits : length m.nonce ≡ nonce_size
  pub tag_fits : length m.auth_tag ≡ auth_tag_size

-- A slice that is a middle part of the input.
slice-append :
    (offset n : ℕ) (before part after : List ℕ)
    → length before ≡ offset
    → length part ≡ n
    → slice offset n (before ++ (part ++ after)) ≡ some part
unfolding slice
slice-append offset n before part after hb hp =
    rw (drop-append offset before (part ++ after) hb, take-append n part after hp)
      (ground (arith, length-append before (part ++ after), length-append part after))

module _ (m : EncryptedMessage) (rest : List ℕ) (w : IsWellSized m) where
  abbrev id_bytes : List ℕ
  id_bytes = le_bytes 8 m.message_id

  abbrev time_bytes : List ℕ
  time_bytes = le_bytes 8 m.timestamp

  abbrev size_bytes : List ℕ
  size_bytes = le_bytes 4 (length m.ciphertext % 2 ^ 32)

  -- The serialized message and what follows it, bracketed to the right.
  abbrev pub whole : List ℕ
  whole =
      id_bytes
      ++ (time_bytes ++ (m.nonce ++ (size_bytes ++ (m.ciphertext ++ (m.auth_tag ++ rest)))))

  pub serialize-whole : serialize m ++ rest ≡ whole
  unfolding serialize
  serialize-whole = simp append_assoc

  id_slice : slice 0 8 whole ≡ some id_bytes
  id_slice = slice-append 0 8 [] id_bytes _ refl (length-le_bytes 8 m.message_id)

  time_slice : slice 8 8 whole ≡ some time_bytes
  time_slice =
      slice-append 8 8 id_bytes time_bytes _ (length-le_bytes 8 m.message_id)
        (length-le_bytes 8 m.timestamp)

  abbrev times : List ℕ
  times = id_bytes ++ time_bytes

  abbrev nonces : List ℕ
  nonces = times ++ m.nonce

  abbrev sizes : List ℕ
  sizes = nonces ++ size_bytes

  length-times : length times ≡ 16
  length-times = simp (length-append, length-le_bytes)

  length-nonces : length nonces ≡ 28
  length-nonces = omega (arith, length-append times m.nonce, length-times, w.nonce_fits)

  length-sizes : length sizes ≡ 32
  length-sizes = omega (
    arith,
    length-append nonces size_bytes,
    length-nonces,
    length-le_bytes 4 (length m.ciphertext % 2 ^ 32),
  )

  nonce_slice : slice 16 nonce_size whole ≡ some m.nonce
  nonce_slice = simp append_assoc at (
      slice-append 16 nonce_size times m.nonce
        (size_bytes ++ (m.ciphertext ++ (m.auth_tag ++ rest))) length-times w.nonce_fits)

  pub size_slice : slice 28 4 whole ≡ some size_bytes
  size_slice = simp append_assoc at (
      slice-append 28 4 nonces size_bytes (m.ciphertext ++ (m.auth_tag ++ rest)) length-nonces
        (length-le_bytes 4 (length m.ciphertext % 2 ^ 32)))

  cipher_slice : slice 32 (length m.ciphertext) whole ≡ some m.ciphertext
  cipher_slice = simp append_assoc at (
      slice-append 32 (length m.ciphertext) sizes m.ciphertext (m.auth_tag ++ rest) length-sizes
        refl)

  tag_slice : slice (32 + length m.ciphertext) auth_tag_size whole ≡ some m.auth_tag
  tag_slice = simp append_assoc at (
      slice-append (32 + length m.ciphertext) auth_tag_size (sizes ++ m.ciphertext) m.auth_tag rest
        (omega (arith, length-append sizes m.ciphertext, length-sizes)) w.tag_fits)

  long_enough : ltb (length whole) 32 ≡ false
  long_enough =
      ground (arith, length-append sizes (m.ciphertext ++ (m.auth_tag ++ rest)), length-sizes, same)
    where
      same : sizes ++ (m.ciphertext ++ (m.auth_tag ++ rest)) ≡ whole
      same = simp append_assoc

  -- A message whose ciphertext is shorter than 2 ^ 32 bytes is read back field by field, also with
  -- further bytes behind it.
  pub deserialize-serialize :
      length m.ciphertext < 2 ^ 32 → deserialize (serialize m ++ rest) ≡ decoded m
  unfolding deserialize
  deserialize-serialize h =
      let size : le_value size_bytes ≡ length m.ciphertext =
        le_value-le_bytes 4 (length m.ciphertext % 2 ^ 32) (omega arith) ∙ omega arith in
      rw
        (
          serialize-whole, long_enough, id_slice, time_slice, nonce_slice, size_slice, size,
          cipher_slice, tag_slice,
        )
        (rw
          (le_value-le_bytes 8 m.message_id w.id_fits, le_value-le_bytes 8 m.timestamp w.time_fits))
