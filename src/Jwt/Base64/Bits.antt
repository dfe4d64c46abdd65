-- ===== src/Jwt/Base64/Bits.antt =====
-- The bit operations of base64 as arithmetic, from tables checked by evaluation.
use Prim.Native.Nat.{bit_and, bit_or}
use apk.Base.{
  ℕ, ◌+◌, ◌*◌, ◌/◌, ◌%◌, ◌<◌, ◌≡◌, refl, true, arith, ◌==◌, ==_iff, holds_below, holds_below_sound,
}

-- Two functions that agree below a bound by evaluation.
agree : (f g : ℕ → ℕ) (n : ℕ) → holds_below n (λ x. f x == g x) ≡ true → (x : ℕ) → x < n → f x ≡ g x
agree f g n table x h = (==_iff _ _).0 (holds_below_sound n (λ x. f x == g x) x table h)

pub bit_and_three : (b : ℕ) → b < 256 → bit_and b 3 ≡ b % 4
unfolding holds_below
bit_and_three = agree (λ b. bit_and b 3) (λ b. b % 4) 256 refl

pub bit_and_fifteen : (b : ℕ) → b < 256 → bit_and b 0xf ≡ b % 16
unfolding holds_below
bit_and_fifteen = agree (λ b. bit_and b 0xf) (λ b. b % 16) 256 refl

pub bit_and_sixty_three : (b : ℕ) → b < 256 → bit_and b 0x3f ≡ b % 64
unfolding holds_below
bit_and_sixty_three = agree (λ b. bit_and b 0x3f) (λ b. b % 64) 256 refl

or_table16 : (n : ℕ) → n < 256 → bit_or (n / 16 * 16) (n % 16) ≡ n
unfolding holds_below
or_table16 = agree (λ n. bit_or (n / 16 * 16) (n % 16)) (λ n. n) 256 refl

or_table4 : (n : ℕ) → n < 256 → bit_or (n / 4 * 4) (n % 4) ≡ n
unfolding holds_below
or_table4 = agree (λ n. bit_or (n / 4 * 4) (n % 4)) (λ n. n) 256 refl

or_table64 : (n : ℕ) → n < 256 → bit_or (n / 64 * 64) (n % 64) ≡ n
unfolding holds_below
or_table64 = agree (λ n. bit_or (n / 64 * 64) (n % 64)) (λ n. n) 256 refl

-- An `|` of parts that do not overlap is a sum.
pub bit_or_sixteen : (x y : ℕ) → x < 16 → y < 16 → bit_or (x * 16) y ≡ x * 16 + y
bit_or_sixteen x y hx hy =
    let hi : (x * 16 + y) / 16 ≡ x = omega arith in
    let lo : (x * 16 + y) % 16 ≡ y = omega arith in
    rw (hi, lo) at (or_table16 (x * 16 + y) (omega arith))

pub bit_or_four : (x y : ℕ) → x < 64 → y < 4 → bit_or (x * 4) y ≡ x * 4 + y
bit_or_four x y hx hy =
    let hi : (x * 4 + y) / 4 ≡ x = omega arith in
    let lo : (x * 4 + y) % 4 ≡ y = omega arith in
    rw (hi, lo) at (or_table4 (x * 4 + y) (omega arith))

pub bit_or_sixty_four : (x y : ℕ) → x < 4 → y < 64 → bit_or (x * 64) y ≡ x * 64 + y
bit_or_sixty_four x y hx hy =
    let hi : (x * 64 + y) / 64 ≡ x = omega arith in
    let lo : (x * 64 + y) % 64 ≡ y = omega arith in
    rw (hi, lo) at (or_table64 (x * 64 + y) (omega arith))
