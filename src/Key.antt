-- ===== src/Key.antt =====
-- The order that std::map uses: `int` and std::string keys are its two instances.
use apk.Base.{ℕ, Bool, true, false, ◌≡◌, ◌≢◌, ◌↔◌, arith, ltb, ◌==◌, ==_iff}
use apk.Base.Text.{Str, str_eq, str_lt, str_eq_iff, str_lt_irrefl, str_lt_trans, str_lt_total}

pub record Key (K : Type 0) : Type 0 where
  pub beq : K → K → Bool
  pub lt : K → K → Bool
  pub beq_iff : (x y : K) → (beq x y ≡ true) ↔ (x ≡ y)
  pub lt_irrefl : (x : K) → lt x x ≡ false
  pub lt_trans : (x y z : K) → lt x y ≡ true → lt y z ≡ true → lt x z ≡ true
  pub lt_total : (x y : K) → lt x y ≡ false → x ≢ y → lt y x ≡ true

pub ltb_irrefl : (x : ℕ) → ltb x x ≡ false
ltb_irrefl x = ground arith

pub ltb_trans : (x y z : ℕ) → ltb x y ≡ true → ltb y z ≡ true → ltb x z ≡ true
ltb_trans x y z p q = ground arith

pub ltb_total : (x y : ℕ) → ltb x y ≡ false → x ≢ y → ltb y x ≡ true
ltb_total x y p q = ground arith

instance abbrev pub int_key : Key ℕ
int_key = record {
  beq = ◌==◌;
  lt = ltb;
  beq_iff = ==_iff;
  lt_irrefl = ltb_irrefl;
  lt_trans = ltb_trans;
  lt_total = ltb_total;
}

instance abbrev pub string_key : Key Str
string_key = record {
  beq = str_eq;
  lt = str_lt;
  beq_iff = str_eq_iff;
  lt_irrefl = str_lt_irrefl;
  lt_trans = str_lt_trans;
  lt_total = str_lt_total;
}
