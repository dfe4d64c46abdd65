-- ===== src/Jwt/Base64/Decode.antt =====
-- base64url_decode_str against base64url_encode.
use Prim.Native.Nat.{bit_and, bit_or}
use apk.Base.{
  ℕ, zero, suc, ◌+◌, ◌*◌, ◌/◌, ◌%◌, ◌<◌, ◌≡◌, refl, none, some, List, [], ◌∷◌, ◌++◌, map, arith,
  length, length-append, All,
}
use apk.Base.Text.{Str}
use apk.Std.Bytes.{IsByte}
use apk.Jwt.Base64.{from_url, pad, round, decode_loop, base64url_encode, base64url_decode_str}
use apk.Jwt.Base64.Bits.{
  bit_and_three, bit_and_fifteen, bit_or_four, bit_or_sixteen, bit_or_sixty_four,
}
use apk.Jwt.Base64.RoundTrip.{url_char_facts, encoding, base64url_encode-encoding}

pad_four :
    (fuel c0 c1 c2 c3 : ℕ) (s : Str)
    → pad fuel (c0 ∷ c1 ∷ c2 ∷ c3 ∷ s) ≡ c0 ∷ c1 ∷ c2 ∷ c3 ∷ pad fuel s
unfolding pad
pad_four zero c0 c1 c2 c3 s = refl
pad_four (suc fuel) c0 c1 c2 c3 s = ground (arith, pad_four fuel c0 c1 c2 c3 (s ++ (b'=' ∷ [])))

first_byte : (v0 v1 : ℕ) → v0 < 64 → v1 < 64 → bit_or (v0 * 4) (v1 / 16) % 256 ≡ v0 * 4 + v1 / 16
first_byte v0 v1 h k = rw (bit_or_four v0 (v1 / 16) h (omega arith)) (omega arith)

second_byte :
    (v1 v2 : ℕ)
    → v1 < 64
    → v2 < 64
    → bit_or (bit_and v1 0xf * 16) (v2 / 4) % 256 ≡ v1 % 16 * 16 + v2 / 4
second_byte v1 v2 h k =
    rw
      (
        bit_and_fifteen v1 (omega arith),
        bit_or_sixteen (v1 % 16) (v2 / 4) (omega arith) (omega arith),
      )
      (omega arith)

third_byte :
    (v2 v3 : ℕ) → v2 < 64 → v3 < 64 → bit_or (bit_and v2 3 * 64) v3 % 256 ≡ v2 % 4 * 64 + v3
third_byte v2 v3 h k =
    rw (bit_and_three v2 (omega arith), bit_or_sixty_four (v2 % 4) v3 (omega arith) k) (omega arith)

-- One round on three bytes, on two and on one.
round_three :
    (b0 b1 b2 : ℕ) (out : Str)
    → IsByte b0
    → IsByte b1
    → IsByte b2
    → round
        (some (b0 / 4))
        (some (b0 % 4 * 16 + b1 / 16))
        (some (b1 % 16 * 4 + b2 / 64))
        (some (b2 % 64))
        out
      ≡ b0 ∷ b1 ∷ b2 ∷ out
round_three b0 b1 b2 out h0 h1 h2 = ground (
  arith,
  first_byte (b0 / 4) (b0 % 4 * 16 + b1 / 16),
  second_byte (b0 % 4 * 16 + b1 / 16) (b1 % 16 * 4 + b2 / 64),
  third_byte (b1 % 16 * 4 + b2 / 64) (b2 % 64),
)

round_two :
    (b0 b1 : ℕ)
    → IsByte b0
    → IsByte b1
    → round (some (b0 / 4)) (some (b0 % 4 * 16 + b1 / 16)) (some (b1 % 16 * 4)) none []
      ≡ b0 ∷ b1 ∷ []
round_two b0 b1 h0 h1 = ground (
  arith,
  first_byte (b0 / 4) (b0 % 4 * 16 + b1 / 16),
  second_byte (b0 % 4 * 16 + b1 / 16) (b1 % 16 * 4),
)

round_one : (b0 : ℕ) → IsByte b0 → round (some (b0 / 4)) (some (b0 % 4 * 16)) none none [] ≡ b0 ∷ []
round_one b0 h0 = ground (arith, first_byte (b0 / 4) (b0 % 4 * 16))

decode-encoding :
    (bs : List ℕ) → All IsByte bs → decode_loop (pad 3 (map from_url (encoding bs))) ≡ bs
unfolding decode_loop encoding
decode-encoding [] h = unfold pad in refl
decode-encoding (b0 ∷ []) (h0, _) =
    let f0 = url_char_facts (b0 / 4) (omega arith) in
    let f1 = url_char_facts (b0 % 4 * 16) (omega arith) in
    unfold pad in rw (f0.0, f1.0) (round_one b0 h0)
decode-encoding (b0 ∷ b1 ∷ []) (h0, (h1, _)) =
    let f0 = url_char_facts (b0 / 4) (omega arith) in
    let f1 = url_char_facts (b0 % 4 * 16 + b1 / 16) (omega arith) in
    let f2 = url_char_facts (b1 % 16 * 4) (omega arith) in
    unfold pad in rw (f0.0, f1.0, f2.1) (round_two b0 b1 h0 h1)
decode-encoding (b0 ∷ b1 ∷ b2 ∷ rest) (h0, (h1, (h2, h))) =
    let f0 = url_char_facts (b0 / 4) (omega arith) in
    let f1 = url_char_facts (b0 % 4 * 16 + b1 / 16) (omega arith) in
    let f2 = url_char_facts (b1 % 16 * 4 + b2 / 64) (omega arith) in
    let f3 = url_char_facts (b2 % 64) (omega arith) in
    rw
      (
        pad_four 3 _ _ _ _ (map from_url (encoding rest)),
        f0.0,
        f1.0,
        f2.1,
        f3.1,
        decode-encoding rest h,
      )
      (round_three b0 b1 b2 rest h0 h1 h2)

-- Decoding an encoded byte string gives it back, whatever its length modulo three.
pub base64url_decode_str-base64url_encode :
    (bs : List ℕ) → All IsByte bs → base64url_decode_str (base64url_encode bs) ≡ bs
unfolding base64url_decode_str
base64url_decode_str-base64url_encode bs h =
    rw (base64url_encode-encoding bs h) (decode-encoding bs h)

-- The padding loop ends by its test: the length is then a multiple of four.
pub length-pad : (s : Str) → length (pad 3 s) % 4 ≡ 0
unfolding pad
length-pad s =
    let padding : Str = b'=' ∷ [] in
    ground (
      arith,
      length-append s padding,
      length-append (s ++ padding) padding,
      length-append ((s ++ padding) ++ padding) padding,
    )
