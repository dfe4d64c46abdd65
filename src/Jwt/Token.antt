-- ===== src/Jwt/Token.antt =====
-- JwtHelper::create and JwtHelper::verify of src/http_api.cpp, over nlohmann::json and libsodium's
-- HMAC-SHA256. `now` is the time in seconds.
pub mod RoundTrip
pub mod Soundness
pub mod Words
use mathlib.Core.Option
use apk.Base.{
  ℕ, zero, suc, ◌+◌, ◌-◌, ◌*◌, ◌≡◌, Bool, true, false, Option, none, some, List, [], ◌∷◌, ◌++◌, ltb,
  ◌==◌, if◌then◌else◌, length, take, drop, All,
}
use apk.Base.Text.{Str, lit, str_eq}
use apk.Std.Stoi.{ℤ, pos, negsuc}
use apk.Std.Bytes.{IsByte}
use apk.Std.Search.{find_char, find_from}
use apk.Json.{Json}
use apk.Jwt.Base64.{base64url_encode, base64url_decode_str}

-- crypto_auth_hmacsha256_BYTES
abbrev pub mac_bytes : ℕ
mac_bytes = 32

-- crypto_auth_hmacsha256: the secret, the message, and a string of 32 bytes.
pub record Hmac : Type 0 where
  pub mac : Str → Str → Str
  pub mac_size : (secret msg : Str) → length (mac secret msg) ≡ mac_bytes
  pub mac_IsByte : (secret msg : Str) → All IsByte (mac secret msg)

-- 30 days, in seconds.
abbrev pub lifetime : ℕ
lifetime = 30 * 24 * 3600

abbrev pub header_json : Str
header_json = lit "{\"alg\":\"HS256\",\"typ\":\"JWT\"}"

abbrev pub is_before : ℤ → ℕ → Bool
is_before (pos a) b = ltb a b
is_before (negsuc a) b = true

module _ (json : Json) (hmac : Hmac) where
  open json use {J}

  abbrev pub claims : Str → ℕ → J
  claims user_id iat = json.object (
      (lit "sub", json.text user_id)
      ∷ (lit "iat", json.integer (pos iat))
      ∷ (lit "exp", json.integer (pos (iat + lifetime)))
      ∷ [])

  abbrev pub sign : Str → Str → Str
  sign secret hp = hp ++ (b'.' ∷ base64url_encode (hmac.mac secret hp))

  -- `none` is the exception of `dump`.
  unfoldable pub create : Str → Str → ℕ → Option Str
  create user_id secret now =
      Option.map
        (λ payload_json.
          sign secret (base64url_encode header_json ++ (b'.' ∷ base64url_encode payload_json)))
        (json.dump (claims user_id now))

  -- The try block; the empty text stands for failure.
  unfoldable pub read_claims : ℕ → Str → Str
  read_claims now payload_str = elim (json.parse payload_str) [
    | none ↦ []
    | some pl ↦ elim (json.value_integer pl (lit "exp") (pos 0)) [
      | none ↦ []
      | some exp ↦
          if is_before exp now
          then []
          else elim (json.value_text pl (lit "sub") []) [ none ↦ [] | some sub ↦ sub ]
    ]
  ]

  -- The part behind the search for the two dots.
  unfoldable pub verify_parts : Str → Str → ℕ → ℕ → ℕ → Str
  verify_parts token secret now dot1 dot2 =
      let hp = take dot2 token in
      let sig_raw = base64url_decode_str (drop (dot2 + 1) token) in
      let payload_b64 = take (dot2 - dot1 - 1) (drop (dot1 + 1) token) in
      let user_id = read_claims now (base64url_decode_str payload_b64) in
      if length sig_raw == mac_bytes
      then if str_eq (hmac.mac secret hp) sig_raw then user_id else []
      else []

  unfoldable pub verify : Str → Str → ℕ → Str
  verify token secret now = elim (find_char b'.' token) [
    | none ↦ []
    | some dot1 ↦ elim (find_from b'.' (dot1 + 1) token) [
      | none ↦ []
      | some dot2 ↦ verify_parts token secret now dot1 dot2
    ]
  ]
