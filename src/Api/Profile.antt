-- ===== src/Api/Profile.antt =====
-- src/http_api.cpp: the UPDATE of a user's own profile, which is put together from the body.
pub mod Placeholders
use apk.Base.{
  ℕ, suc, Bool, true, false, Option, none, some, List, [], ◌∷◌, ◌++◌, if◌then◌else◌, length,
}
use apk.Base.Text.{Str, lit}
use apk.Std.Decimal.{to_string}
use apk.Json.{Json}

-- The locals parts, params and idx of route_update_me.
pub record Fields : Type 0 where
  pub parts : List Str
  pub params : List Str
  pub idx : ℕ

abbrev pub no_fields : Fields
no_fields = record { parts = []; params = []; idx = 1 }

-- col = $idx
abbrev pub assignment : Str → ℕ → Str
assignment col idx = (col ++ lit " = $") ++ to_string idx

unfoldable pub push_field : Str → Str → Fields → Fields
push_field col value fs = record {
  parts = fs.parts ++ (assignment col fs.idx ∷ []);
  params = fs.params ++ (value ∷ []);
  idx = suc fs.idx;
}

-- The calls of add_field: the column, and the member of the body.
abbrev pub profile_fields : List (Str × Str)
profile_fields =
    (lit "display_name", lit "displayName")
    ∷ (lit "bio", lit "bio")
    ∷ (lit "avatar_url", lit "avatarUrl")
    ∷ (lit "status_text", lit "statusText")
    ∷ (lit "phone_number", lit "phone")
    ∷ []

-- The loop that joins the parts with commas.
unfoldable pub join_parts : List Str → Str
join_parts [] = []
join_parts (part ∷ []) = part
join_parts (part ∷ next ∷ parts) = (part ++ lit ", ") ++ join_parts (next ∷ parts)

unfoldable pub update_sql : Fields → Str
update_sql fs =
    ((lit "UPDATE users SET " ++ join_parts fs.parts) ++ lit " WHERE id = $") ++ to_string fs.idx

module _ (json : Json) where
  -- `none` is the exception of get<std::string>.
  unfoldable pub add_field : json.J → Str → Str → Fields → Option Fields
  add_field body col key fs = elim (json.member body key) [
    | none ↦ some fs
    | some v ↦
        if json.is_null v
        then some fs
        else elim (json.get_text v) [ none ↦ none | some value ↦ some (push_field col value fs) ]
  ]

  unfoldable pub add_fields : json.J → List (Str × Str) → Fields → Option Fields
  add_fields body [] fs = some fs
  add_fields body ((col, key) ∷ rest) fs = elim (add_field body col key fs) [
    | none ↦ none
    | some next ↦ add_fields body rest next
  ]

-- The UPDATE for the fields that are kept, with a placeholder for each.
unfoldable pub kept_fields : (Str → Bool) → List (Str × Str) → List Str
kept_fields keep [] = []
kept_fields keep ((col, key) ∷ fields) =
    let rest = kept_fields keep fields in if keep key then col ∷ rest else rest

unfoldable pub assignments : List Str → ℕ → List Str
assignments [] idx = []
assignments (col ∷ cols) idx = assignment col idx ∷ assignments cols (suc idx)

unfoldable pub profile_sql : List Str → Str
profile_sql cols =
    ((lit "UPDATE users SET " ++ join_parts (assignments cols 1)) ++ lit " WHERE id = $")
    ++ to_string (suc (length cols))
