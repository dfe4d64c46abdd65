-- ===== src/Encryption/Sodium.antt =====
-- E2EEncryption::initialize, generate_keypair, sign_message and verify_signature, over libsodium.
use apk.Base.{zero, suc, Bool, true, false, Option, none, some, take, ◌++◌, if◌then◌else◌}
use apk.Base.Text.{Str}
use apk.Std.Stoi.{ℤ, pos, negsuc}
use apk.Encryption.Keys.{KeyPair}

-- sodium_init, which answers below zero for an error, crypto_kx_keypair, crypto_sign_detached of a
-- message under a secret key of 64 bytes, and crypto_sign_verify_detached of a signature and a
-- message under a public key, which answers zero for a good one.
pub record Signing : Type 0 where
  pub sodium_init : ℤ
  pub kx_keypair : KeyPair
  pub sign_detached : Str → Str → Str
  pub sign_verify_detached : Str → Str → Str → ℤ

-- `sodium_initialized_`, and what a call returns; `none` is the exception.
abbrev pub Attempt : Type 0 → Type 0
Attempt A = Bool → Option (A × Bool)

module _ (sodium : Signing) where
  abbrev first_try : ℤ → Option (Bool × Bool)
  first_try (pos n) = some (true, true)
  first_try (negsuc n) = none

  unfoldable pub initialize : Attempt Bool
  initialize true = some (true, true)
  initialize false = first_try sodium.sodium_init

  -- if (!sodium_initialized_) initialize();
  abbrev pub initialized : {A : Type 0} → A → Attempt A
  initialized a flag =
      if flag
      then some (a, flag)
      else elim (initialize flag) [ none ↦ none | some (b, up) ↦ some (a, up) ]

  unfoldable pub generate_keypair : Attempt KeyPair
  unfolding initialize
  generate_keypair = initialized sodium.kx_keypair

  -- The key of the caller has 32 bytes, and `beyond` is what stands behind it in memory.
  unfoldable pub sign_message : Str → Str → Str → Attempt Str
  unfolding initialize
  sign_message message signing_key beyond =
      initialized (sodium.sign_detached message (take 64 (signing_key ++ beyond)))

  abbrev pub is_zero : ℤ → Bool
  is_zero (pos zero) = true
  is_zero (pos (suc n)) = false
  is_zero (negsuc n) = false

  unfoldable pub verify_signature : Str → Str → Str → Attempt Bool
  unfolding initialize
  verify_signature message signature verifying_key =
      initialized (is_zero (sodium.sign_verify_detached signature message verifying_key))
