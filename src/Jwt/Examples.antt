-- ===== src/Jwt/Examples.antt =====
-- A JSON library that can dump the claims of a token and no other value, a MAC of 32 equal bytes,
-- and the theorems on a token that is made with them.
pub mod Claims
use apk.Base.{
  ℕ, ◌+◌, ◌≡◌, ◌≢◌, refl, Bool, true, false, Option, none, some, List, [], ◌∷◌, ◌++◌, arith, ltb,
  if◌then◌else◌, replicate, All, length, ap, sym, ◌∙◌,
}
use apk.Base.Text.{Str, lit, str_eq}
use apk.Map.{find}
use apk.Std.Bytes.{IsByte}
use apk.Std.Stoi.{pos}
use apk.Jwt.Base64.{base64url_encode, base64url_decode_str}
use apk.Jwt.Token.{Hmac, create, verify, lifetime}
use apk.Jwt.Token.Soundness.{Grants, verify_sound}
use apk.Jwt.Token.RoundTrip.{verify-create}
use apk.Jwt.Examples.Claims.{claims_json, claims_json-JsonLaws}

pub mac-IsByte : All IsByte (replicate 32 170)
mac-IsByte = ground arith

abbrev pub key_mac : Hmac
key_mac = record {
  mac = λ secret msg. replicate 32 170;
  mac_size = λ secret msg. refl;
  mac_IsByte = λ secret msg. mac-IsByte;
}

abbrev pub secret : Str
secret = lit "s3cret"

-- The token of bob, made at time 7.
abbrev pub token : Str
token = elim (create claims_json key_mac (lit "bob") secret 7) [ none ↦ [] | some t ↦ t ]

pub create_lem : create claims_json key_mac (lit "bob") secret 7 ≡ some token
unfolding create str_eq find
create_lem = refl

verify-create_example :
    verify claims_json key_mac token secret 1000
    ≡ (if ltb (7 + lifetime) 1000 then [] else lit "bob")
verify-create_example =
    verify-create claims_json claims_json-JsonLaws key_mac (lit "bob") secret token 7 1000
      create_lem

token-accepted : verify claims_json key_mac token secret 1000 ≢ []
token-accepted rejected = absurd (cc (verify-create_example, rejected))

verify_sound_example :
    (head payload_b64 signature : Str) × (token
      ≡ (head ++ (b'.' ∷ payload_b64)) ++ (b'.' ∷ signature))
    × (base64url_decode_str signature ≡ replicate 32 170)
    × Grants claims_json key_mac
        (base64url_decode_str payload_b64)
        1000
        (verify claims_json key_mac token secret 1000)
verify_sound_example = verify_sound claims_json key_mac token secret 1000 token-accepted
