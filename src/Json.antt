-- ===== src/Json.antt =====
-- nlohmann::json as an interface: the source's calls of it, and its documented behaviour.
use apk.Base.{ℕ, ◌≡◌, Bool, Option, some, List, All}
use apk.Base.Text.{Str}
use apk.Key.{string_key}
use apk.Map.{find}
use apk.Std.Stoi.{ℤ}
use apk.Std.Bytes.{IsByte}

-- The members named value_ are `j.value(key, default)`, whose exception (a value that is no object,
-- or a member of another type) is `none`. `dump` throws on a text that is not UTF-8. `member` is
-- `contains` and `[]`, `elements` is `is_array` and the loop over an array, and `get_text` is
-- `get<std::string>`, where `none` is its exception.
pub record Json : Type 1 where
  pub J : Type 0
  pub text : Str → J
  pub integer : ℤ → J
  pub natural : ℕ → J
  pub boolean : Bool → J
  pub object : List (Str × J) → J
  pub array : List J → J
  pub null : J
  pub parse : Str → Option J
  pub dump : J → Option Str
  pub value_text : J → Str → Str → Option Str
  pub value_integer : J → Str → ℤ → Option ℤ
  pub value_natural : J → Str → ℕ → Option ℕ
  pub value_boolean : J → Str → Bool → Option Bool
  pub member : J → Str → Option J
  pub elements : J → Option (List J)
  pub is_null : J → Bool
  pub get_text : J → Option Str

-- A dumped value is a byte string, and parses to a value with the same members; a member of an
-- object is what it was given.
pub record JsonLaws (json : Json) : Type 0 where
  pub dump_bytes : (v : json.J) (s : Str) → json.dump v ≡ some s → All IsByte s
  pub parse_dump :
      (v : json.J) (s : Str)
      → json.dump v ≡ some s
      → (w : json.J) × (json.parse s ≡ some w)
        × ((key deflt : Str) → json.value_text w key deflt ≡ json.value_text v key deflt)
        × ((key : Str) (deflt : ℤ)
            → json.value_integer w key deflt ≡ json.value_integer v key deflt)
  pub text_member :
      (fields : List (Str × json.J)) (key deflt t : Str)
      → find key fields ≡ some (json.text t)
      → json.value_text (json.object fields) key deflt ≡ some t
  pub integer_member :
      (fields : List (Str × json.J)) (key : Str) (deflt n : ℤ)
      → find key fields ≡ some (json.integer n)
      → json.value_integer (json.object fields) key deflt ≡ some n
