-- ===== src/Jwt/Token/Soundness.antt =====
-- What an accepted token proves.
use apk.Base.{
  ℕ, ◌+◌, ◌-◌, ◌≡◌, ◌≢◌, sym, ap, ◌∙◌, false, some, [], ◌∷◌, ◌++◌, arith, take, drop, subst,
  Option-cases, Bool-cases, inl, inr,
}
use apk.Base.Text.{Str, lit, str_eq_iff}
use apk.Std.Stoi.{ℤ, pos}
use apk.Std.Search.{find_char, find_from, find_from-split, find_from-between}
use apk.Json.{Json}
use apk.Jwt.Base64.{base64url_decode_str}
use apk.Jwt.Token.{Hmac, is_before, read_claims, verify_parts, verify}

module _ (json : Json) (hmac : Hmac) where
  -- A payload that names the user and has not expired.
  abbrev pub Grants : Str → ℕ → Str → Type 0
  Grants payload now user_id =
      (pl : json.J) × (exp : ℤ) × (json.parse payload ≡ some pl)
      × (json.value_integer pl (lit "exp") (pos 0) ≡ some exp)
      × (is_before exp now ≡ false)
      × (json.value_text pl (lit "sub") [] ≡ some user_id)

  read_claims-Grants :
      (now : ℕ) (payload : Str)
      → read_claims json hmac now payload ≢ []
      → Grants payload now (read_claims json hmac now payload)
  unfolding read_claims
  read_claims-Grants now payload accepted = elim (Option-cases (json.parse payload)) [
    | inl e ↦ absurd (accepted (ground arith))
    | inr (pl, e) ↦ elim (Option-cases (json.value_integer pl (lit "exp") (pos 0))) [
      | inl f ↦ absurd (accepted (ground arith))
      | inr (exp, f) ↦ elim (Bool-cases (is_before exp now)) [
        | inl g ↦ absurd (accepted (ground arith))
        | inr g ↦ elim (Option-cases (json.value_text pl (lit "sub") [])) [
          | inl h ↦ absurd (accepted (ground arith))
          | inr (sub, h) ↦ (pl, exp, e, f, g, ground arith)
        ]
      ]
    ]
  ]

  -- The two checks of the signature passed.
  verify_parts-signed :
      (token secret : Str) (now dot1 dot2 : ℕ)
      → verify_parts json hmac token secret now dot1 dot2 ≢ []
      → (base64url_decode_str (drop (dot2 + 1) token) ≡ hmac.mac secret (take dot2 token))
        × (verify_parts json hmac token secret now dot1 dot2
            ≡ read_claims json hmac now
                (base64url_decode_str (take (dot2 - dot1 - 1) (drop (dot1 + 1) token))))
  unfolding verify_parts
  verify_parts-signed token secret now dot1 dot2 accepted = ground (
    arith,
    str_eq_iff (hmac.mac secret (take dot2 token)) (base64url_decode_str (drop (dot2 + 1) token)),
  )

  -- A token from which a user is read consists of a head, a dot, a payload, a dot and a signature.
  -- The signature decodes to the MAC of all before it under the secret, and the payload to an
  -- object that names that user and has not expired.
  pub verify_sound :
      (token secret : Str) (now : ℕ)
      → verify json hmac token secret now ≢ []
      → (head payload_b64 signature : Str) × (token
          ≡ (head ++ (b'.' ∷ payload_b64)) ++ (b'.' ∷ signature))
        × (base64url_decode_str signature ≡ hmac.mac secret (head ++ (b'.' ∷ payload_b64)))
        × Grants (base64url_decode_str payload_b64) now (verify json hmac token secret now)
  unfolding verify
  verify_sound token secret now accepted = elim (Option-cases (find_char b'.' token)) [
    | inl e ↦ absurd (accepted (ground arith))
    | inr (dot1, e) ↦ elim (Option-cases (find_from b'.' (dot1 + 1) token)) [
      | inl f ↦ absurd (accepted (ground arith))
      | inr (dot2, f) ↦
          let parts = verify_parts json hmac token secret now dot1 dot2 in
          let same : verify json hmac token secret now ≡ parts = rw (e, f, verify) in
          let (signed, read) =
            verify_parts-signed token secret now dot1 dot2 (λ no_user. accepted (same ∙ no_user)) in
          let payload_b64 = take (dot2 - dot1 - 1) (drop (dot1 + 1) token) in
          let payload = base64url_decode_str payload_b64 in
          let between = find_from-between b'.' token dot1 dot2 e f in
          (
            take dot1 token,
            payload_b64,
            drop (dot2 + 1) token,
            find_from-split b'.' (dot1 + 1) token dot2 f
                ∙ ap (λ (hp : Str). hp ++ (b'.' ∷ drop (dot2 + 1) token)) between,
            signed ∙ ap (hmac.mac secret) between,
            subst (Grants payload now) (sym (same ∙ read))
                (read_claims-Grants now payload (λ no_user. accepted (same ∙ read ∙ no_user))),
          )
    ]
  ]
