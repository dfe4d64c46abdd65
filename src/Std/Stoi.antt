-- ===== src/Std/Stoi.antt =====
-- std::stoi: leading spaces, a sign, 0x in base 16, and the longest run of digits. No digit makes
-- it throw invalid_argument, and a value outside int makes it throw out_of_range: both are `none`.
use apk.Base.{
  ℕ, zero, suc, ◌+◌, ◌-◌, ◌*◌, ◌%◌, ◌^◌, Bool, true, false, ◌&&◌, ◌||◌, Option, none, some, [], ◌∷◌,
  ltb, leb, ◌==◌, if◌then◌else◌,
}
use apk.Base.Text.{Str}

-- `negsuc n` is -(n + 1).
pub data ℤ : Type 0 where
  pos : ℕ → ℤ
  negsuc : ℕ → ℤ

-- isspace in the C locale.
unfoldable pub is_space : ℕ → Bool
is_space c = c == 32 || (leb 9 c && leb c 13)

abbrev pub digit_value : ℕ → Option ℕ
digit_value c =
    if leb b'0' c && leb c b'9'
    then some (c - 48)
    else if leb b'a' c && leb c b'z'
    then some (c - 87)
    else if leb b'A' c && leb c b'Z'
    then some (c - 55)
    else none

-- The value of a character as a digit of the base.
unfoldable pub digit : ℕ → ℕ → Option ℕ
digit base c = elim (digit_value c) [ none ↦ none | some d ↦ if ltb d base then some d else none ]

unfoldable pub digits_from : ℕ → ℕ → Str → ℕ
digits_from base acc [] = acc
digits_from base acc (c ∷ s) = elim (digit base c) [
  | none ↦ acc
  | some d ↦ digits_from base (acc * base + d) s
]

unfoldable pub skip_spaces : Str → Str
skip_spaces [] = []
skip_spaces (c ∷ s) = elim (is_space c) [ true ↦ skip_spaces s | false ↦ c ∷ s ]

-- 0x before a digit of base 16.
unfoldable pub skip_prefix : ℕ → Str → Str
unfolding digit
skip_prefix base (c ∷ x ∷ d ∷ s) =
    if base == 16 && (c == b'0' && (x == b'x' || x == b'X'))
    then elim (digit 16 d) [ none ↦ c ∷ x ∷ d ∷ s | some v ↦ d ∷ s ]
    else c ∷ x ∷ d ∷ s
skip_prefix base s = s

unfoldable pub magnitude : ℕ → Str → Option ℕ
unfolding digits_from
magnitude base [] = none
magnitude base (c ∷ s) = elim (digit base c) [ none ↦ none | some d ↦ some (digits_from base d s) ]

abbrev int_of : Bool → ℕ → Option ℤ
int_of true zero = some (pos 0)
int_of true (suc m) = if leb (suc m) (2 ^ 31) then some (negsuc m) else none
int_of false m = if ltb m (2 ^ 31) then some (pos m) else none

abbrev finish : Bool → Option ℕ → Option ℤ
finish negative none = none
finish negative (some m) = int_of negative m

unfoldable pub signed_value : ℕ → Str → Option ℤ
unfolding magnitude skip_prefix
signed_value base [] = none
signed_value base (c ∷ s) =
    if c == b'-'
    then finish true (magnitude base (skip_prefix base s))
    else if c == b'+'
    then finish false (magnitude base (skip_prefix base s))
    else finish false (magnitude base (skip_prefix base (c ∷ s)))

unfoldable pub stoi : ℕ → Str → Option ℤ
unfolding signed_value skip_spaces is_space
stoi base s = signed_value base (skip_spaces s)

-- static_cast to an unsigned type of `m` values.
abbrev pub cast_unsigned : ℕ → ℤ → ℕ
cast_unsigned m (pos n) = n % m
cast_unsigned m (negsuc n) = (m - (suc n) % m) % m
