-- ===== src/Jwt/Base64.antt =====
-- base64url_encode and base64url_decode_str of src/http_api.cpp.
pub mod Bits
pub mod RoundTrip
pub mod Decode
use Prim.Native.Nat.{bit_and, bit_or}
use apk.Base.{
  ℕ, zero, suc, ◌+◌, ◌-◌, ◌*◌, ◌/◌, ◌%◌, Bool, true, false, ◌&&◌, Option, none, some, List, [], ◌∷◌,
  ◌++◌, map, leb, ◌==◌, if◌then◌else◌, length, get_or,
}
use apk.Base.Text.{Str, lit}

abbrev pub tbl : Str
tbl = lit "ABCDEFGHIJKLMNOPQRSTUVWXYZabcdefghijklmnopqrstuvwxyz0123456789+/"

abbrev pub tbl_at : ℕ → ℕ
tbl_at i = get_or tbl i 0

-- The four indices into the table; a shift right by k is a division by 2 ^ k.
abbrev pub index0 : ℕ → ℕ
index0 b0 = b0 / 4

abbrev pub index1 : ℕ → ℕ → ℕ
index1 b0 b1 = bit_or (bit_and b0 3 * 16) (b1 / 16)

abbrev pub index2 : ℕ → ℕ → ℕ
index2 b1 b2 = bit_or (bit_and b1 0xf * 4) (b2 / 64)

abbrev pub index3 : ℕ → ℕ
index3 b2 = bit_and b2 0x3f

-- The loop, three bytes to a round.
unfoldable pub encode_loop : List ℕ → Str
encode_loop [] = []
encode_loop (b0 ∷ []) = tbl_at (index0 b0) ∷ tbl_at (index1 b0 0) ∷ b'=' ∷ b'=' ∷ []
encode_loop (b0 ∷ b1 ∷ []) =
    tbl_at (index0 b0) ∷ tbl_at (index1 b0 b1) ∷ tbl_at (index2 b1 0) ∷ b'=' ∷ []
encode_loop (b0 ∷ b1 ∷ b2 ∷ rest) =
    tbl_at (index0 b0)
    ∷ tbl_at (index1 b0 b1)
    ∷ tbl_at (index2 b1 b2)
    ∷ tbl_at (index3 b2)
    ∷ encode_loop rest

abbrev pub to_url : ℕ → ℕ
to_url c = if c == b'+' then b'-' else if c == b'/' then b'_' else c

-- out.erase(std::remove(...), out.end())
unfoldable pub remove_char : ℕ → Str → Str
remove_char x [] = []
remove_char x (c ∷ s) = let rest = remove_char x s in if c == x then rest else c ∷ rest

unfoldable pub base64url_encode : List ℕ → Str
base64url_encode bytes = remove_char b'=' (map to_url (encode_loop bytes))

abbrev pub from_url : ℕ → ℕ
from_url c = if c == b'-' then b'+' else if c == b'_' then b'/' else c

-- The lambda `val`; `none` is -1.
abbrev pub val : ℕ → Option ℕ
val c =
    if leb b'A' c && leb c b'Z'
    then some (c - 65)
    else if leb b'a' c && leb c b'z'
    then some (c - 97 + 26)
    else if leb b'0' c && leb c b'9'
    then some (c - 48 + 52)
    else if c == b'+'
    then some 62
    else if c == b'/'
    then some 63
    else none

-- `while (s.size() % 4) s += '=';` in at most `fuel` rounds; three are enough.
unfoldable pub pad : ℕ → Str → Str
pad zero s = s
pad (suc fuel) s = let more = pad fuel (s ++ (b'=' ∷ [])) in if length s % 4 == 0 then s else more

-- (s[i] != '=') ? val(s[i]) : -1
abbrev pub val_or_pad : ℕ → Option ℕ
val_or_pad c = if c == b'=' then none else val c

-- (char)(((v1&0xf)<<4)|(v2>>2)), if v2 >= 0
abbrev pub second_char : ℕ → Option ℕ → Str → Str
second_char v1 none out = out
second_char v1 (some v2) out = bit_or (bit_and v1 0xf * 16) (v2 / 4) % 256 ∷ out

-- `v2 & 3`, where -1 has all bits set.
abbrev pub low_two : Option ℕ → ℕ
low_two none = 3
low_two (some v2) = bit_and v2 3

-- (char)(((v2&3)<<6)|v3), if v3 >= 0
abbrev pub third_char : Option ℕ → Option ℕ → Str → Str
third_char v2 none out = out
third_char v2 (some v3) out = bit_or (low_two v2 * 64) v3 % 256 ∷ out

-- The rest of a round, and of the output, behind the test `if (v0<0||v1<0) break;`.
abbrev pub round : Option ℕ → Option ℕ → Option ℕ → Option ℕ → Str → Str
round none v1 v2 v3 out = []
round (some v0) none v2 v3 out = []
round (some v0) (some v1) v2 v3 out =
    bit_or (v0 * 4) (v1 / 16) % 256 ∷ second_char v1 v2 (third_char v2 v3 out)

-- The loop; `pad` makes the length a multiple of four.
unfoldable pub decode_loop : Str → Str
decode_loop (c0 ∷ c1 ∷ c2 ∷ c3 ∷ rest) =
    round (val c0) (val c1) (val_or_pad c2) (val_or_pad c3) (decode_loop rest)
decode_loop rest = []

unfoldable pub base64url_decode_str : Str → Str
base64url_decode_str input = decode_loop (pad 3 (map from_url input))
