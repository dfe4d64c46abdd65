-- ===== src/Jwt/Base64/RoundTrip.antt =====
-- base64url against a plain description of it, and the decoder against the encoder.
use apk.Base.{
  ℕ, ◌+◌, ◌*◌, ◌/◌, ◌%◌, ◌<◌, ◌≡◌, refl, ap, ◌∙◌, Bool, true, false, ◌&&◌, not, Option, none, some,
  List, [], ◌∷◌, arith, ◌==◌, ==_iff, All, holds_below, holds_below_sound,
}
use apk.Base.Text.{Str}
use apk.Std.Bytes.{IsByte}
use apk.Jwt.Base64.{
  tbl_at, index1, index2, encode_loop, to_url, remove_char, base64url_encode, from_url, val,
  val_or_pad,
}
use apk.Jwt.Base64.Bits.{
  bit_and_three, bit_and_fifteen, bit_and_sixty_three, bit_or_four, bit_or_sixteen,
}

-- The character for six bits in the URL-safe alphabet.
abbrev pub url_char : ℕ → ℕ
url_char i = to_url (tbl_at i)

abbrev yields : Option ℕ → ℕ → Bool
yields none i = false
yields (some v) i = v == i

yields_eq : (o : Option ℕ) (i : ℕ) → yields o i ≡ true → o ≡ some i
yields_eq none i h = cc
yields_eq (some v) i h = ap some ((==_iff v i).0 h)

and_true : (a b : Bool) → (a && b) ≡ true → (a ≡ true) × (b ≡ true)
and_true a b h = ground arith

not-true : (a : Bool) → not a ≡ true → a ≡ false
not-true a h = ground arith

abbrev char_test : ℕ → Bool
char_test i =
    yields (val (from_url (url_char i))) i
    && (yields (val_or_pad (from_url (url_char i))) i
        && (not (url_char i == b'=') && not (url_char i == b'.')))

char_table : holds_below 64 char_test ≡ true
unfolding holds_below
char_table = refl

pub url_char_facts :
    (i : ℕ)
    → i < 64
    → (val (from_url (url_char i)) ≡ some i)
      × (val_or_pad (from_url (url_char i)) ≡ some i)
      × ((url_char i == b'=') ≡ false)
      × ((url_char i == b'.') ≡ false)
url_char_facts i h =
    let test : char_test i ≡ true = holds_below_sound 64 char_test i char_table h in
    let (num, rest) = and_true _ _ test in
    let (last, more) = and_true _ _ rest in
    let (plain, dotless) = and_true _ _ more in
    (yields_eq _ i num, yields_eq _ i last, not-true _ plain, not-true _ dotless)

-- base64 in plain arithmetic, without the padding.
unfoldable pub encoding : List ℕ → Str
encoding [] = []
encoding (b0 ∷ []) = url_char (b0 / 4) ∷ url_char (b0 % 4 * 16) ∷ []
encoding (b0 ∷ b1 ∷ []) =
    url_char (b0 / 4) ∷ url_char (b0 % 4 * 16 + b1 / 16) ∷ url_char (b1 % 16 * 4) ∷ []
encoding (b0 ∷ b1 ∷ b2 ∷ rest) =
    url_char (b0 / 4)
    ∷ url_char (b0 % 4 * 16 + b1 / 16)
    ∷ url_char (b1 % 16 * 4 + b2 / 64)
    ∷ url_char (b2 % 64)
    ∷ encoding rest

index1_lem : (b0 b1 : ℕ) → IsByte b0 → IsByte b1 → index1 b0 b1 ≡ b0 % 4 * 16 + b1 / 16
index1_lem b0 b1 h k =
    rw (bit_and_three b0 h) (bit_or_sixteen (b0 % 4) (b1 / 16) (omega arith) (omega arith))

index2_lem : (b1 b2 : ℕ) → IsByte b1 → IsByte b2 → index2 b1 b2 ≡ b1 % 16 * 4 + b2 / 64
index2_lem b1 b2 h k =
    rw (bit_and_fifteen b1 h) (bit_or_four (b1 % 16) (b2 / 64) (omega arith) (omega arith))

remove_padding :
    (i : ℕ) (s : Str) → i < 64 → remove_char b'=' (url_char i ∷ s) ≡ url_char i ∷ remove_char b'=' s
unfolding remove_char
remove_padding i s h = rw ((url_char_facts i h).2)

-- The loop, the translation and the removal of the padding give that description.
pub base64url_encode-encoding : (bs : List ℕ) → All IsByte bs → base64url_encode bs ≡ encoding bs
unfolding base64url_encode encode_loop encoding
base64url_encode-encoding [] h = unfold remove_char in refl
base64url_encode-encoding (b0 ∷ []) (h0, _) =
    let second : index1 b0 0 ≡ b0 % 4 * 16 = index1_lem b0 0 h0 (omega arith) ∙ omega arith in
    rw
      (
        second,
        remove_padding (b0 / 4) _ (omega arith),
        remove_padding (b0 % 4 * 16) _ (omega arith),
      )
      (unfold remove_char in refl)
base64url_encode-encoding (b0 ∷ b1 ∷ []) (h0, (h1, _)) =
    let third : index2 b1 0 ≡ b1 % 16 * 4 = index2_lem b1 0 h1 (omega arith) ∙ omega arith in
    rw
      (
        index1_lem b0 b1 h0 h1,
        third,
        remove_padding (b0 / 4) _ (omega arith),
        remove_padding (b0 % 4 * 16 + b1 / 16) _ (omega arith),
        remove_padding (b1 % 16 * 4) _ (omega arith),
      )
      (unfold remove_char in refl)
base64url_encode-encoding (b0 ∷ b1 ∷ b2 ∷ rest) (h0, (h1, (h2, h))) = rw (
  index1_lem b0 b1 h0 h1,
  index2_lem b1 b2 h1 h2,
  bit_and_sixty_three b2 h2,
  remove_padding (b0 / 4) _ (omega arith),
  remove_padding (b0 % 4 * 16 + b1 / 16) _ (omega arith),
  remove_padding (b1 % 16 * 4 + b2 / 64) _ (omega arith),
  remove_padding (b2 % 64) _ (omega arith),
  base64url_encode-encoding rest h,
)

-- What holds of every character of the alphabet holds of an encoded text.
module _ (P : ℕ → Type 0) (holds : (i : ℕ) → i < 64 → P (url_char i)) where
  encoding-All : (bs : List ℕ) → All IsByte bs → All P (encoding bs)
  unfolding encoding
  encoding-All [] h = tt
  encoding-All (b0 ∷ []) (h0, _) =
      (holds (b0 / 4) (omega arith), (holds (b0 % 4 * 16) (omega arith), tt))
  encoding-All (b0 ∷ b1 ∷ []) (h0, (h1, _)) = (
    holds (b0 / 4) (omega arith),
    (holds (b0 % 4 * 16 + b1 / 16) (omega arith), (holds (b1 % 16 * 4) (omega arith), tt)),
  )
  encoding-All (b0 ∷ b1 ∷ b2 ∷ rest) (h0, (h1, (h2, h))) = (
    holds (b0 / 4) (omega arith),
    (
      holds (b0 % 4 * 16 + b1 / 16) (omega arith),
      (
        holds (b1 % 16 * 4 + b2 / 64) (omega arith),
        (holds (b2 % 64) (omega arith), encoding-All rest h),
      ),
    ),
  )

  pub base64url_encode-All : (bs : List ℕ) → All IsByte bs → All P (base64url_encode bs)
  base64url_encode-All bs h = rw (base64url_encode-encoding bs h) (encoding-All bs h)
