-- ===== src/Jwt/Token/RoundTrip.antt =====
-- A created token against `verify`.
use apk.Base.{
  ℕ, ◌+◌, ◌-◌, ◌<◌, ◌≡◌, ◌≢◌, refl, ap, ◌∙◌, subst, some, List, [], ◌∷◌, ◌++◌, arith, ltb,
  if◌then◌else◌, length, take, drop, take-append, drop-append, All, Option-cases, inl, inr,
  append_assoc, length-append,
}
use apk.Base.Text.{Str, lit, str_eq, str_eq_iff}
use apk.Key.{string_key}
use apk.Map.{find}
use apk.Std.Stoi.{pos}
use apk.Std.Bytes.{IsByte}
use apk.Std.Search.{find_char, find_from, find_char-append, find_from-append, Lacks}
use apk.Json.{Json, JsonLaws}
use apk.Jwt.Base64.{base64url_encode, base64url_decode_str}
use apk.Jwt.Base64.RoundTrip.{url_char, url_char_facts, base64url_encode-All}
use apk.Jwt.Base64.Decode.{base64url_decode_str-base64url_encode}
use apk.Jwt.Token.{
  Hmac, header_json, claims, sign, create, read_claims, verify_parts, verify, lifetime,
}

url_char_dotless : (i : ℕ) → i < 64 → url_char i ≢ b'.'
url_char_dotless i h = ground (arith, (url_char_facts i h).3)

-- An encoded text has no dot.
base64url_encode-Lacks : (bs : List ℕ) → All IsByte bs → Lacks b'.' (base64url_encode bs)
base64url_encode-Lacks bs h = base64url_encode-All (λ c. c ≢ b'.') url_char_dotless bs h

-- Three parts without dots, joined by dots, and the positions and cuts of `verify` on them.
module _ (head payload signature : Str) where
  abbrev signed_part : Str
  signed_part = head ++ (b'.' ∷ payload)

  abbrev joined : Str
  joined = signed_part ++ (b'.' ∷ signature)

  abbrev dot1 : ℕ
  dot1 = length head

  abbrev dot2 : ℕ
  dot2 = length head + 1 + length payload

module _ (head payload signature : Str) (hh : Lacks b'.' head) (hp : Lacks b'.' payload) where
  -- Bracketed to the left, up to behind a dot.
  joined_first :
      (joined head payload signature) ≡ (head ++ (b'.' ∷ [])) ++ (payload ++ (b'.' ∷ signature))
  joined_first = simp append_assoc

  joined_second :
      (joined head payload signature)
      ≡ ((signed_part head payload signature) ++ (b'.' ∷ [])) ++ signature
  joined_second = simp append_assoc

  first_dot : find_char b'.' (joined head payload signature) ≡ some (dot1 head payload signature)
  first_dot = rw append_assoc (find_char-append b'.' head (payload ++ (b'.' ∷ signature)) hh)

  second_dot :
      find_from b'.' ((dot1 head payload signature) + 1) (joined head payload signature)
      ≡ some (dot2 head payload signature)
  second_dot = rw joined_first (
      find_from-append b'.' ((dot1 head payload signature) + 1) (head ++ (b'.' ∷ [])) payload
        signature (length-append head (b'.' ∷ [])) hp)

  cut_signed :
      take (dot2 head payload signature) (joined head payload signature)
      ≡ (signed_part head payload signature)
  cut_signed =
      take-append (dot2 head payload signature) (signed_part head payload signature)
        (b'.' ∷ signature) (omega (arith, length-append head (b'.' ∷ payload)))

  cut_signature :
      drop ((dot2 head payload signature) + 1) (joined head payload signature) ≡ signature
  cut_signature = rw joined_second (
      drop-append ((dot2 head payload signature) + 1)
        ((signed_part head payload signature) ++ (b'.' ∷ [])) signature
        (omega (
          arith,
          length-append (signed_part head payload signature) (b'.' ∷ []),
          length-append head (b'.' ∷ payload),
        )))

  cut_payload :
      take
        ((dot2 head payload signature) - (dot1 head payload signature) - 1)
        (drop ((dot1 head payload signature) + 1) (joined head payload signature))
      ≡ payload
  cut_payload =
      let size : (dot2 head payload signature) - (dot1 head payload signature) - 1
          ≡ length payload =
        omega arith in
      rw
        (
          size,
          joined_first,
          drop-append ((dot1 head payload signature) + 1) (head ++ (b'.' ∷ []))
              (payload ++ (b'.' ∷ signature)) (length-append head (b'.' ∷ [])),
        )
        (take-append (length payload) payload (b'.' ∷ signature) refl)

module _ (json : Json) (hmac : Hmac) where
  verify-parts :
      (token secret : Str) (now dot1 dot2 : ℕ)
      → find_char b'.' token ≡ some dot1
      → find_from b'.' (dot1 + 1) token ≡ some dot2
      → verify json hmac token secret now ≡ verify_parts json hmac token secret now dot1 dot2
  unfolding verify
  verify-parts token secret now dot1 dot2 e f = rw (e, verify, f)

  verify_parts_accepts :
      (token secret hp payload_b64 signature : Str) (now dot1 dot2 : ℕ)
      → take dot2 token ≡ hp
      → drop (dot2 + 1) token ≡ signature
      → take (dot2 - dot1 - 1) (drop (dot1 + 1) token) ≡ payload_b64
      → base64url_decode_str signature ≡ hmac.mac secret hp
      → verify_parts json hmac token secret now dot1 dot2
        ≡ read_claims json hmac now (base64url_decode_str payload_b64)
  unfolding verify_parts
  verify_parts_accepts token secret hp payload_b64 signature now dot1 dot2 eh es ep signed =
      rw (eh, es, ep, signed)
        (ground
          (arith, hmac.mac_size secret hp, str_eq_iff (hmac.mac secret hp) (hmac.mac secret hp)))

  verify-joined :
      (head payload signature secret : Str) (now : ℕ)
      → Lacks b'.' head
      → Lacks b'.' payload
      → base64url_decode_str signature ≡ hmac.mac secret (head ++ (b'.' ∷ payload))
      → verify json hmac (joined head payload signature) secret now
        ≡ read_claims json hmac now (base64url_decode_str payload)
  verify-joined head payload signature secret now hh hp signed =
      verify-parts (joined head payload signature) secret now (dot1 head payload signature)
        (dot2 head payload signature) (first_dot head payload signature hh hp)
        (second_dot head payload signature hh hp)
      ∙ verify_parts_accepts (joined head payload signature) secret (head ++ (b'.' ∷ payload))
          payload signature now (dot1 head payload signature) (dot2 head payload signature)
          (cut_signed head payload signature hh hp) (cut_signature head payload signature hh hp)
          (cut_payload head payload signature hh hp) signed

pub header_bytes : All IsByte header_json
header_bytes = omega arith

-- The payload of `create` as `verify` reads it.
module _ (json : Json) (laws : JsonLaws json) (hmac : Hmac) where
  exp_member :
      (user_id : Str) (iat : ℕ)
      → json.value_integer (claims json hmac user_id iat) (lit "exp") (pos 0)
        ≡ some (pos (iat + lifetime))
  exp_member user_id iat =
      laws.integer_member _ (lit "exp") (pos 0) (pos (iat + lifetime)) (unfold find str_eq in refl)

  sub_member :
      (user_id : Str) (iat : ℕ)
      → json.value_text (claims json hmac user_id iat) (lit "sub") [] ≡ some user_id
  sub_member user_id iat = laws.text_member _ (lit "sub") [] user_id (unfold find str_eq in refl)

  read_claims-dump :
      (user_id payload : Str) (iat now : ℕ)
      → json.dump (claims json hmac user_id iat) ≡ some payload
      → read_claims json hmac now payload ≡ (if ltb (iat + lifetime) now then [] else user_id)
  unfolding read_claims
  read_claims-dump user_id payload iat now e =
      let (w, parsed, texts, integers) = laws.parse_dump _ payload e in
      let exp = integers (lit "exp") (pos 0) ∙ exp_member user_id iat in
      let sub = texts (lit "sub") [] ∙ sub_member user_id iat in ground (arith, parsed, exp, sub)

  -- A token that was created at `iat` is accepted under the same secret up to 30 days later, and
  -- gives the user it was created for; after that it gives the empty text.
  pub verify-create :
      (user_id secret token : Str) (iat now : ℕ)
      → create json hmac user_id secret iat ≡ some token
      → verify json hmac token secret now ≡ (if ltb (iat + lifetime) now then [] else user_id)
  unfolding create
  verify-create user_id secret token iat now h =
      elim (Option-cases (json.dump (claims json hmac user_id iat))) [
        | inl e ↦ absurd (ground arith)
        | inr (payload, e) ↦
            let head = base64url_encode header_json in
            let middle = base64url_encode payload in
            let hp = head ++ (b'.' ∷ middle) in
            let bytes = laws.dump_bytes _ payload e in
            let same : sign json hmac secret hp ≡ token = ground arith in
            subst
              (λ t.
                verify json hmac t secret now ≡ (if ltb (iat + lifetime) now then [] else user_id))
              same
              (verify-joined json hmac head middle (base64url_encode (hmac.mac secret hp)) secret
                  now (base64url_encode-Lacks header_json header_bytes)
                  (base64url_encode-Lacks payload bytes)
                  (base64url_decode_str-base64url_encode _ (hmac.mac_IsByte secret hp))
                ∙ ap (read_claims json hmac now)
                    (base64url_decode_str-base64url_encode payload bytes)
                ∙ read_claims-dump user_id payload iat now e)
      ]
