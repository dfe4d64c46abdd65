-- ===== src/Encryption/Hex.antt =====
-- bytes_to_hex and hex_to_bytes.
pub mod RoundTrip
use mathlib.Core.Option
use apk.Base.{ℕ, ◌+◌, ◌/◌, ◌%◌, ◌<◌, Option, none, some, List, [], ◌∷◌, ltb, if◌then◌else◌}
use apk.Base.Text.{Str}
use apk.Std.Stoi.{stoi, cast_unsigned}

abbrev pub IsByte : ℕ → Type 0
IsByte b = b < 256

-- The digit that std::hex prints.
abbrev pub hex_digit : ℕ → ℕ
hex_digit d = if ltb d 10 then d + 48 else d + 87

unfoldable pub bytes_to_hex : List ℕ → Str
bytes_to_hex [] = []
bytes_to_hex (b ∷ bs) = hex_digit (b / 16) ∷ hex_digit (b % 16) ∷ bytes_to_hex bs

-- stoi(byte_str, nullptr, 16), cast to uint8_t.
unfoldable pub hex_byte : Str → Option ℕ
unfolding stoi
hex_byte byte_str = Option.map (cast_unsigned 256) (stoi 16 byte_str)

abbrev pub push : Option ℕ → Option (List ℕ) → Option (List ℕ)
push none rest = none
push (some b) rest = Option.map (λ bs. b ∷ bs) rest

-- `none` is the exception of stoi.
unfoldable pub hex_to_bytes : Str → Option (List ℕ)
unfolding hex_byte
hex_to_bytes [] = some []
hex_to_bytes (c ∷ []) = push (hex_byte (c ∷ [])) (some [])
hex_to_bytes (c ∷ d ∷ hex) = push (hex_byte (c ∷ d ∷ [])) (hex_to_bytes hex)
