-- ===== src/Jwt/Token/Words.antt =====
-- The bytes of a token.
use apk.Base.{
  ℕ, ◌<◌, ◌≡◌, refl, true, false, some, List, ◌∷◌, ◌++◌, arith, ltb, All, All-append, holds_below,
  holds_below_sound, Option-cases, inl, inr, subst,
}
use apk.Base.Text.{Str, is_empty}
use apk.Std.Bytes.{IsByte, IsWord}
use apk.Json.{Json, JsonLaws}
use apk.Jwt.Base64.{base64url_encode, encode_loop, remove_char}
use apk.Jwt.Base64.RoundTrip.{url_char, base64url_encode-All}
use apk.Jwt.Token.{Hmac, header_json, claims, sign, create}
use apk.Jwt.Token.RoundTrip.{header_bytes}

url_char_table : holds_below 64 (λ i. ltb b'%' (url_char i)) ≡ true
unfolding holds_below
url_char_table = refl

url_char-IsWord : (i : ℕ) → i < 64 → IsWord (url_char i)
url_char-IsWord i h =
    let test : ltb b'%' (url_char i) ≡ true =
      holds_below_sound 64 (λ i. ltb b'%' (url_char i)) i url_char_table h in
    ground arith

base64url_encode-IsWord : (bs : List ℕ) → All IsByte bs → All IsWord (base64url_encode bs)
base64url_encode-IsWord bs h = base64url_encode-All IsWord url_char-IsWord bs h

module _ (json : Json) (laws : JsonLaws json) (hmac : Hmac) where
  sign-IsWord :
      (secret payload : Str)
      → All IsByte payload
      → All IsWord (
          sign json hmac secret (base64url_encode header_json ++ (b'.' ∷ base64url_encode payload)))
  sign-IsWord secret payload h =
      let mac_words = base64url_encode-IsWord _ (hmac.mac_IsByte secret _) in
      All-append IsWord _ _
        (All-append IsWord _ _ (base64url_encode-IsWord header_json header_bytes)
          (omega arith, base64url_encode-IsWord payload h))
        (omega arith, mac_words)

  pub create-IsWord :
      (user_id secret token : Str) (iat : ℕ)
      → create json hmac user_id secret iat ≡ some token
      → All IsWord token
  unfolding create
  create-IsWord user_id secret token iat h =
      elim (Option-cases (json.dump (claims json hmac user_id iat))) [
        | inl e ↦ absurd (ground arith)
        | inr (payload, e) ↦
            let hp = base64url_encode header_json ++ (b'.' ∷ base64url_encode payload) in
            let same : sign json hmac secret hp ≡ token = ground arith in
            subst (λ t. All IsWord t) same
              (sign-IsWord secret payload (laws.dump_bytes _ payload e))
      ]

  -- A token has a dot, so it is not empty.
  pub create-is_empty :
      (user_id secret token : Str) (iat : ℕ)
      → create json hmac user_id secret iat ≡ some token
      → is_empty token ≡ false
  unfolding create is_empty base64url_encode encode_loop remove_char
  create-is_empty user_id secret token iat h =
      elim (Option-cases (json.dump (claims json hmac user_id iat))) [
        | inl e ↦ absurd (ground arith)
        | inr (payload, e) ↦
            let hp = base64url_encode header_json ++ (b'.' ∷ base64url_encode payload) in
            let same : sign json hmac secret hp ≡ token = ground arith in
            subst (λ t. is_empty t ≡ false) same refl
      ]
