-- ===== src/Jwt/Examples/Claims.antt =====
-- The instance of nlohmann::json: a text is dumped only where it is the claims of one token.
use apk.Base.{
  ℕ, ◌+◌, ◌≡◌, refl, Bool, true, false, ◌&&◌, Option, none, some, List, [], ◌∷◌, arith, ltb, ◌==◌,
  if◌then◌else◌, All, map, Bool-cases, inl, inr, ap, sym, ==_iff,
}
use apk.Base.Text.{Str, lit, str_eq, str_eq_iff}
use apk.Key.{string_key}
use apk.Map.{find}
use apk.Std.Bytes.{IsByte}
use apk.Std.Stoi.{ℤ, pos, negsuc}
use apk.Json.{Json, JsonLaws}
use apk.Jwt.Token.{lifetime}

pub data Scalar : Type 0 where
  text : Str → Scalar
  number : ℤ → Scalar
  other : Scalar

pub data Value : Type 0 where
  scalar : Scalar → Value
  members : List (Str × Scalar) → Value

abbrev pub flat : Value → Scalar
flat (scalar s) = s
flat (members m) = other

abbrev pub flat_member : Str × Value → Str × Scalar
flat_member (k, v) = (k, flat v)

abbrev pub as_text : Str → Option Scalar → Option Str
as_text deflt none = some deflt
as_text deflt (some (text t)) = some t
as_text deflt (some s) = none

abbrev pub as_number : ℤ → Option Scalar → Option ℤ
as_number deflt none = some deflt
as_number deflt (some (number n)) = some n
as_number deflt (some s) = none

abbrev pub get_text : Value → Str → Str → Option Str
get_text (scalar s) key deflt = none
get_text (members m) key deflt = as_text deflt (find key m)

abbrev pub get_number : Value → Str → ℤ → Option ℤ
get_number (scalar s) key deflt = none
get_number (members m) key deflt = as_number deflt (find key m)

abbrev pub token_claims : Str → ℕ → Value
token_claims user iat = members (
    (lit "sub", text user)
    ∷ (lit "iat", number (pos iat))
    ∷ (lit "exp", number (pos (iat + lifetime)))
    ∷ [])

abbrev pub same_number : ℤ → ℤ → Bool
same_number (pos m) (pos n) = m == n
same_number (pos m) (negsuc n) = false
same_number (negsuc m) n = false

abbrev pub same_scalar : Scalar → Scalar → Bool
same_scalar (text s) (text t) = str_eq s t
same_scalar (number m) (number n) = same_number m n
same_scalar s t = false

abbrev pub same_members : List (Str × Scalar) → List (Str × Scalar) → Bool
same_members [] [] = true
same_members ((k, s) ∷ m) ((l, t) ∷ n) = str_eq k l && (same_scalar s t && same_members m n)
same_members m n = false

abbrev pub same : Value → Value → Bool
same (members m) (members n) = same_members m n
same v w = false

abbrev pub all_bytes : Str → Bool
all_bytes [] = true
all_bytes (c ∷ s) = ltb c 256 && all_bytes s

abbrev pub subject : Value → Str
subject v = elim (get_text v (lit "sub") []) [ none ↦ [] | some s ↦ s ]

abbrev pub issued : Value → ℕ
issued v = elim (get_number v (lit "iat") (pos 0)) [
  | none ↦ 0
  | some n ↦ elim n [ pos i ↦ i | negsuc i ↦ 0 ]
]

-- The first byte of the text is the time.
abbrev pub dump : Value → Option Str
dump v =
    if same v (token_claims (subject v) (issued v)) && all_bytes (issued v ∷ subject v)
    then some (issued v ∷ subject v)
    else none

abbrev pub parse : Str → Option Value
parse [] = none
parse (iat ∷ user) = some (token_claims user iat)

abbrev pub claims_json : Json
claims_json = record {
  J = Value;
  text = λ s. scalar (text s);
  integer = λ n. scalar (number n);
  natural = λ n. scalar (number (pos n));
  boolean = λ b. scalar other;
  object = λ fields. members (map flat_member fields);
  array = λ vs. scalar other;
  null = scalar other;
  parse = parse;
  dump = dump;
  value_text = get_text;
  value_integer = get_number;
  value_natural = λ v key deflt. none;
  value_boolean = λ v key deflt. none;
  member = λ v key. none;
  elements = λ v. none;
  is_null = λ v. false;
  get_text = λ v. none;
}

same_scalar_sound : (s t : Scalar) → same_scalar s t ≡ true → s ≡ t
same_scalar_sound (text s) (text t) h = ap text ((str_eq_iff s t).0 h)
same_scalar_sound (number (pos m)) (number (pos n)) h = ap (λ i. number (pos i)) ((==_iff m n).0 h)
same_scalar_sound (number (pos m)) (number (negsuc n)) h = absurd (cc)
same_scalar_sound (number (negsuc m)) (number n) h = absurd (cc)
same_scalar_sound (text s) (number n) h = absurd (cc)
same_scalar_sound (text s) other h = absurd (cc)
same_scalar_sound (number n) (text s) h = absurd (cc)
same_scalar_sound (number n) other h = absurd (cc)
same_scalar_sound other t h = absurd (cc)

same_members_sound : (m n : List (Str × Scalar)) → same_members m n ≡ true → m ≡ n
same_members_sound [] [] h = refl
same_members_sound [] (_ ∷ n) h = absurd (cc)
same_members_sound (_ ∷ m) [] h = absurd (cc)
same_members_sound ((k, s) ∷ m) ((l, t) ∷ n) h =
    ground (arith, str_eq_iff k l, same_scalar_sound s t, same_members_sound m n)

same_sound : (v w : Value) → same v w ≡ true → v ≡ w
same_sound (members m) (members n) h = ap members (same_members_sound m n h)
same_sound (members m) (scalar s) h = absurd (cc)
same_sound (scalar s) w h = absurd (cc)

all_bytes_sound : (s : Str) → all_bytes s ≡ true → All IsByte s
all_bytes_sound [] h = tt
all_bytes_sound (c ∷ s) h = ground (arith, all_bytes_sound s)

find-flat :
    (fields : List (Str × Value)) (key : Str) (s : Scalar)
    → find key fields ≡ some (scalar s)
    → find key (map flat_member fields) ≡ some s
unfolding find
find-flat [] key s h = absurd (cc)
find-flat ((k, v) ∷ fields) key s h = elim (Bool-cases (str_eq k key)) [
  | inl e ↦ ground arith
  | inr e ↦ rw e (find-flat fields key s (ground arith))
]

and_left : (a b : Bool) → a && b ≡ true → a ≡ true
and_left a b h = ground arith

and_right : (a b : Bool) → a && b ≡ true → b ≡ true
and_right a b h = ground arith

dump_lem :
    (v : Value) (s : Str)
    → dump v ≡ some s
    → (token_claims (subject v) (issued v) ≡ v) × (s ≡ issued v ∷ subject v) × All IsByte s
dump_lem v s h =
    elim (Bool-cases
      (same v (token_claims (subject v) (issued v)) && all_bytes (issued v ∷ subject v))) [
        | inl e ↦
            let is_s : s ≡ issued v ∷ subject v = ground arith in
            (
              sym (same_sound v _ (and_left _ _ e)),
              is_s,
              rw is_s (all_bytes_sound (issued v ∷ subject v) (and_right _ _ e)),
            )
        | inr e ↦ absurd (ground arith)
      ]

pub claims_json-JsonLaws : JsonLaws claims_json
claims_json-JsonLaws = record {
  dump_bytes = λ v s h. (dump_lem v s h).2;
  parse_dump = λ v s h.
      let (is_v, is_s, bytes) = dump_lem v s h in
      (v, rw is_s (ap some is_v), λ key deflt. refl, λ key deflt. refl);
  text_member = λ fields key deflt t h. ap (as_text deflt) (find-flat fields key (text t) h);
  integer_member = λ fields key deflt n h. ap (as_number deflt) (find-flat fields key (number n) h);
}
