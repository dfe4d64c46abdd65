-- ===== src/Api/Profile/Placeholders.antt =====
-- The placeholders of the UPDATE of a profile match its parameters.
use apk.Base.{
  suc, ◌+◌, ◌≡◌, refl, sym, subst, ◌∙◌, Bool, true, false, none, some, List, [], ◌∷◌, ◌++◌, arith,
  if◌then◌else◌, length, append-nil, append_assoc, length-append, Bool-cases, Option-cases, inl,
  inr,
}
use apk.Base.Text.{Str}
use apk.Json.{Json}
use apk.Api.Profile.{
  Fields, no_fields, push_field, profile_fields, add_field, add_fields, update_sql, assignment,
  kept_fields, assignments, profile_sql,
}

module _ (json : Json) where
  -- The body has a value under the key that is not null.
  unfoldable pub gives : json.J → Str → Bool
  gives body key = elim (json.member body key) [
    | none ↦ false
    | some v ↦ if json.is_null v then false else true
  ]

  add_field-given :
      (body : json.J) (col key : Str) (fs next : Fields)
      → gives body key ≡ true
      → add_field json body col key fs ≡ some next
      → (value : Str) × (next ≡ push_field col value fs)
  unfolding add_field gives
  add_field-given body col key fs next g h = elim (Option-cases (json.member body key)) [
    | inl e ↦ absurd (ground arith)
    | inr (v, e) ↦ elim (Option-cases (json.get_text v)) [
      | inl t ↦ absurd (ground arith)
      | inr (value, t) ↦ (value, ground arith)
    ]
  ]

  add_field-missing :
      (body : json.J) (col key : Str) (fs next : Fields)
      → gives body key ≡ false
      → add_field json body col key fs ≡ some next
      → next ≡ fs
  unfolding add_field gives
  add_field-missing body col key fs next g h = elim (Option-cases (json.member body key)) [
    | inl e ↦ ground arith
    | inr (v, e) ↦ ground arith
  ]

  -- What the fields are after a run from some others: one part for each column that is kept.
  record Added (body : json.J) (fields : List (Str × Str)) (fs next : Fields) : Type 0 where
    parts : next.parts ≡ fs.parts ++ assignments (kept_fields (gives body) fields) fs.idx
    idx : next.idx ≡ fs.idx + length (kept_fields (gives body) fields)
    params : length next.params ≡ length fs.params + length (kept_fields (gives body) fields)

  Added-skip :
      (body : json.J) (col key : Str) (fields : List (Str × Str)) (fs next : Fields)
      → gives body key ≡ false
      → Added body fields fs next
      → Added body ((col, key) ∷ fields) fs next
  unfolding kept_fields
  Added-skip body col key fields fs next g later = record {
    parts = rw g later.parts;
    idx = rw g later.idx;
    params = rw g later.params;
  }

  Added-push :
      (body : json.J) (col key value : Str) (fields : List (Str × Str)) (fs next : Fields)
      → gives body key ≡ true
      → Added body fields (push_field col value fs) next
      → Added body ((col, key) ∷ fields) fs next
  unfolding kept_fields assignments push_field
  Added-push body col key value fields fs next g later = record {
    parts = rw g (later.parts ∙ append_assoc fs.parts (assignment col fs.idx ∷ []) _);
    idx = rw g (omega (arith, later.idx));
    params = rw g (omega (arith, later.params, length-append fs.params (value ∷ [])));
  }

  add_fields_lem :
      (body : json.J) (fields : List (Str × Str)) (fs next : Fields)
      → add_fields json body fields fs ≡ some next
      → Added body fields fs next
  unfolding add_fields kept_fields assignments
  add_fields_lem body [] fs next h =
      let same : fs ≡ next = ground arith in
      subst (Added body [] fs) same
        (record { parts = sym (append-nil fs.parts); idx = omega arith; params = omega arith })
  add_fields_lem body ((col, key) ∷ fields) fs next h =
      elim (Option-cases (add_field json body col key fs)) [
        | inl e ↦ absurd (ground arith)
        | inr (mid, e) ↦
            let later : Added body fields mid next =
              add_fields_lem body fields mid next (ground arith) in
            elim (Bool-cases (gives body key)) [
              | inl g ↦
                  let (value, pushed) = add_field-given body col key fs mid g e in
                  Added-push body col key value fields fs next g
                    (subst (λ m. Added body fields m next) pushed later)
              | inr g ↦ Added-skip body col key fields fs next g (
                  subst (λ m. Added body fields m next) (add_field-missing body col key fs mid g e)
                    later)
            ]
      ]

  -- The fields that are added to none: the statement has the columns of the members that the body
  -- gives, numbered from 1, and its last placeholder is for one parameter more than there are
  -- values.
  pub update_sql-add_fields :
      (body : json.J) (fs : Fields)
      → add_fields json body profile_fields no_fields ≡ some fs
      → let cols = kept_fields (gives body) profile_fields in
        (update_sql fs ≡ profile_sql cols)
        × (length fs.params ≡ length cols)
        × (fs.idx ≡ length fs.params + 1)
  unfolding update_sql profile_sql
  update_sql-add_fields body fs h =
      let added = add_fields_lem body profile_fields no_fields fs h in
      let cols = kept_fields (gives body) profile_fields in
      let is_idx : fs.idx ≡ suc (length cols) = omega (arith, added.idx) in
      (
        rw (added.parts, is_idx) refl,
        omega (arith, added.params),
        omega (arith, added.idx, added.params),
      )
