-- ===== src/Encryption/Hex/RoundTrip.antt =====
-- The two conversions against each other.
use apk.Base.{
  ℕ, suc, ◌+◌, ◌*◌, ◌-◌, ◌/◌, ◌%◌, ◌≤◌, ◌<◌, ◌≡◌, refl, ◌⊎◌, Bool, true, false, Option, none, some,
  List, [], ◌∷◌, arith, ◌==◌, length, All, ap, holds_below, holds_below_sound, Option-cases, inl,
  inr, ==_iff,
}
use apk.Base.Text.{Str}
use apk.Std.Stoi.{stoi, pos, negsuc}
use apk.Encryption.Hex.{IsByte, hex_digit, bytes_to_hex, hex_byte, hex_to_bytes, push}

abbrev yields : Option ℕ → ℕ → Bool
yields none b = false
yields (some v) b = v == b

yields_eq : (o : Option ℕ) (b : ℕ) → yields o b ≡ true → o ≡ some b
yields_eq none b h = cc
yields_eq (some v) b h = ap some ((==_iff v b).0 h)

abbrev printed : ℕ → Str
printed b = hex_digit (b / 16) ∷ hex_digit (b % 16) ∷ []

byte_table : holds_below 256 (λ b. yields (hex_byte (printed b)) b) ≡ true
unfolding holds_below hex_byte
byte_table = refl

hex_byte-printed : (b : ℕ) → IsByte b → hex_byte (printed b) ≡ some b
hex_byte-printed b h = yields_eq _ b (holds_below_sound 256 _ b byte_table h)

-- hex_to_bytes reads back the bytes that bytes_to_hex printed.
hex_to_bytes-bytes_to_hex : (bs : List ℕ) → All IsByte bs → hex_to_bytes (bytes_to_hex bs) ≡ some bs
unfolding hex_to_bytes bytes_to_hex
hex_to_bytes-bytes_to_hex [] h = refl
hex_to_bytes-bytes_to_hex (b ∷ bs) h = rw (hex_byte-printed b h.0, hex_to_bytes-bytes_to_hex bs h.1)

-- 0 to 9 or a to f.
abbrev pub IsLowerHex : ℕ → Type 0
IsLowerHex c = ((b'0' ≤ c) × (c ≤ b'9')) ⊎ ((b'a' ≤ c) × (c ≤ b'f'))

digit_shape : (d : ℕ) → d < 16 → IsLowerHex (hex_digit d)
digit_shape d h = ground arith

-- The text has two lower case digits for each byte.
pub bytes_to_hex_shape :
    (bs : List ℕ)
    → All IsByte bs
    → All IsLowerHex (bytes_to_hex bs) × (length (bytes_to_hex bs) ≡ 2 * length bs)
unfolding bytes_to_hex
bytes_to_hex_shape [] h = (tt, refl)
bytes_to_hex_shape (b ∷ bs) h =
    let (digits, size) = bytes_to_hex_shape bs h.1 in
    (
      (digit_shape (b / 16) (omega arith), (digit_shape (b % 16) (omega arith), digits)),
      omega arith,
    )

hex_byte-IsByte : (s : Str) (b : ℕ) → hex_byte s ≡ some b → IsByte b
unfolding hex_byte
hex_byte-IsByte s b h = elim (Option-cases (stoi 16 s)) [
  | inl e ↦ absurd (ground arith)
  | inr (pos n, e) ↦ ground arith
  | inr (negsuc n, e) ↦ ground arith
]

push-eq_some :
    (o : Option ℕ) (r : Option (List ℕ)) (bs : List ℕ)
    → push o r ≡ some bs
    → (b : ℕ) × (rest : List ℕ) × (o ≡ some b) × (r ≡ some rest) × (bs ≡ b ∷ rest)
push-eq_some none r bs h = absurd (ground arith)
push-eq_some (some b) none bs h = absurd (ground arith)
push-eq_some (some b) (some rest) bs h = (b, rest, refl, refl, ground arith)

-- Whatever text is accepted gives bytes, one for each two characters; an odd last character
-- counts as a byte of its own.
hex_to_bytes_shape :
    (hex : Str) (bs : List ℕ)
    → hex_to_bytes hex ≡ some bs
    → All IsByte bs × (length bs ≡ (length hex + 1) / 2)
unfolding hex_to_bytes
hex_to_bytes_shape [] bs h = ground arith
hex_to_bytes_shape (c ∷ []) bs h =
    let (b, rest, read, tail, e) = push-eq_some (hex_byte (c ∷ [])) (some []) bs h in
    let (bytes, size) = hex_to_bytes_shape [] rest tail in
    rw e ((hex_byte-IsByte (c ∷ []) b read, bytes), omega arith)
hex_to_bytes_shape (c ∷ d ∷ hex) bs h =
    let (b, rest, read, tail, e) = push-eq_some _ (hex_to_bytes hex) bs h in
    let (bytes, size) = hex_to_bytes_shape hex rest tail in
    rw e ((hex_byte-IsByte (c ∷ d ∷ []) b read, bytes), omega arith)

sign_table :
    holds_below 15 (λ d. yields (hex_byte (b'-' ∷ hex_digit (suc d) ∷ [])) (255 - d)) ≡ true
unfolding holds_below hex_byte
sign_table = refl

-- A minus sign before a digit is accepted, and gives the negated digit as a byte.
hex_to_bytes_sign :
    (d : ℕ) (hex : Str) (bs : List ℕ)
    → d < 15
    → hex_to_bytes hex ≡ some bs
    → hex_to_bytes (b'-' ∷ hex_digit (suc d) ∷ hex) ≡ some ((255 - d) ∷ bs)
unfolding hex_to_bytes
hex_to_bytes_sign d hex bs small h =
    rw (yields_eq _ (255 - d) (holds_below_sound 15 _ d sign_table small), h)
