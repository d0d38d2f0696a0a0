-- ===== src/Base/Bits.antt =====
-- The bit operations at variables, as arithmetic: one equation for the lowest binary digit of
-- each, and from it the laws that the label and header code rests on.
use Prim.Native.Nat.{
  ℕ, zero, suc, ◌+◌, ◌-◌, ◌*◌, ◌/◌, ◌%◌, ◌^◌, ◌≤◌, ◌<◌, min, max, bit_and, bit_or, bit_xor, digits,
  bit_and-bitwise, bit_or-bitwise, bit_xor-bitwise, bitwise, differ,
}
use mathlib.Core.Path.{◌≡◌, refl, ap}
use native.Mathlib.Omega.{arith}
use native.Mathlib.Nat.{pow-suc, pow-zero, one-le-pow, mul-one, mul_assoc, add-zero, add-suc}

-- The fuel of the digit recursion does not matter once it covers the number.
module _ (last : ℕ → ℕ) (digit : ℕ → ℕ → ℕ) where
  digits_enough :
      (x y fuel other : ℕ)
      → x ≤ fuel
      → x ≤ other
      → digits last digit fuel x y ≡ digits last digit other x y
  digits_enough zero y zero zero le le' = refl
  digits_enough zero y zero (suc other) le le' = refl
  digits_enough zero y (suc fuel) zero le le' = refl
  digits_enough zero y (suc fuel) (suc other) le le' = refl
  digits_enough (suc x) y zero other le le' = absurd (omega arith)
  digits_enough (suc x) y (suc fuel) zero le le' = absurd (omega arith)
  digits_enough (suc x) y (suc fuel) (suc other) le le' =
      rw (digits_enough (suc x / 2) (y / 2) fuel other (omega arith) (omega arith))

  bitwise_step :
      (x y : ℕ)
      → bitwise last digit (suc x) y
        ≡ bitwise last digit (suc x / 2) (y / 2) * 2 + digit (suc x % 2) (y % 2)
  bitwise_step x y =
      omega (arith, digits_enough (suc x / 2) (y / 2) x (suc x / 2) (omega arith) (omega arith))

pub bit_and_digit : (a b : ℕ) → bit_and a b ≡ bit_and (a / 2) (b / 2) * 2 + min (a % 2) (b % 2)
bit_and_digit zero b = simp bit_and-bitwise (omega arith)
bit_and_digit (suc a) b = simp bit_and-bitwise (bitwise_step (λ y. 0) min a b)

pub bit_or_digit : (a b : ℕ) → bit_or a b ≡ bit_or (a / 2) (b / 2) * 2 + max (a % 2) (b % 2)
bit_or_digit zero b = simp bit_or-bitwise (omega arith)
bit_or_digit (suc a) b = simp bit_or-bitwise (bitwise_step (λ y. y) max a b)

differ-digits : (x y : ℕ) → x < 2 → y < 2 → differ x y ≡ (x + y) % 2
differ-digits zero y p q = omega arith
differ-digits (suc zero) zero p q = refl
differ-digits (suc zero) (suc zero) p q = refl
differ-digits (suc zero) (suc (suc y)) p q = absurd (omega arith)
differ-digits (suc (suc x)) y p q = absurd (omega arith)

pub bit_xor_digit : (a b : ℕ) → bit_xor a b ≡ bit_xor (a / 2) (b / 2) * 2 + (a + b) % 2
bit_xor_digit zero b = simp bit_xor-bitwise (omega arith)
bit_xor_digit (suc a) b =
    let low : differ (suc a % 2) (b % 2) ≡ (suc a % 2 + b % 2) % 2 =
      differ-digits (suc a % 2) (b % 2) (omega arith) (omega arith) in
    simp bit_xor-bitwise (omega (arith, bitwise_step (λ y. y) differ a b, low))

-- Operations with zero, by recursion on a bound of the number.
pub bit_and-zero_below : (n a : ℕ) → a ≤ n → bit_and a 0 ≡ 0
bit_and-zero_below n zero h = refl
bit_and-zero_below zero (suc a) h = absurd (omega arith)
bit_and-zero_below (suc n) (suc a) h =
    omega (arith, bit_and_digit (suc a) 0, bit_and-zero_below n (suc a / 2) (omega arith))

bit_or-zero_below : (n a : ℕ) → a ≤ n → bit_or a 0 ≡ a
bit_or-zero_below n zero h = refl
bit_or-zero_below zero (suc a) h = absurd (omega arith)
bit_or-zero_below (suc n) (suc a) h =
    omega (arith, bit_or_digit (suc a) 0, bit_or-zero_below n (suc a / 2) (omega arith))

bit_xor-zero_below : (n a : ℕ) → a ≤ n → bit_xor a 0 ≡ a
bit_xor-zero_below n zero h = refl
bit_xor-zero_below zero (suc a) h = absurd (omega arith)
bit_xor-zero_below (suc n) (suc a) h =
    omega (arith, bit_xor_digit (suc a) 0, bit_xor-zero_below n (suc a / 2) (omega arith))

pub bit_xor-one : (q : ℕ) → bit_xor q 1 ≡ q / 2 * 2 + (q + 1) % 2
bit_xor-one q = omega (arith, bit_xor_digit q 1, bit_xor-zero_below (q / 2) (q / 2) (omega arith))

-- `x ^ 1` twice is `x`.
bit_xor-one_twice : (q : ℕ) → bit_xor (bit_xor q 1) 1 ≡ q
bit_xor-one_twice q = omega (arith, bit_xor-one q, bit_xor-one (bit_xor q 1))

-- Quotient and remainder of a sum of two fields.
pub div-fields : (q p r : ℕ) → r < p → (q * p + r) / p ≡ q
div-fields q p r h = grind arith

pub mod-fields : (q p r : ℕ) → r < p → (q * p + r) % p ≡ r
mod-fields q p r h = grind arith

pub pow_add : (m n : ℕ) → 2 ^ (m + n) ≡ 2 ^ m * 2 ^ n
pow_add m zero = rw (add-zero, pow-zero, mul-one)
pow_add m (suc n) =
    rw (add-suc, pow-suc 2 (m + n), pow_add m n, pow-suc 2 n) (mul_assoc (2 ^ m) (2 ^ n) 2)

pub double_power : (q k : ℕ) → q * 2 ^ suc k ≡ q * 2 ^ k * 2
double_power q k = omega (arith, ap (λ (t : ℕ). q * t) (pow-suc 2 k))

-- The heart of splicing. Flipping the lowest bit of `q` before the shift makes the exclusive or
-- with a number whose top bit is bit `k` put the `k` lower bits of that number under `q`.
pub bit_xor_splice :
    (k q r : ℕ) → r < 2 ^ k → bit_xor (bit_xor q 1 * 2 ^ k) (2 ^ k + r) ≡ q * 2 ^ k + r
bit_xor_splice zero q r h =
    let none_left : r ≡ 0 = omega arith in
    rw none_left (omega (arith, ap (λ t. bit_xor t 1) (mul-one (bit_xor q 1)), bit_xor-one_twice q))
bit_xor_splice (suc k) q r h = ground (
  arith,
  bit_xor_digit (bit_xor q 1 * 2 ^ suc k) (2 ^ suc k + r),
  double_power (bit_xor q 1) k,
  double_power q k,
  pow-suc 2 k,
  bit_xor_splice k q (r / 2) (omega (arith, pow-suc 2 k)),
)

-- `(q << k) | r` is a sum when `r` fits `k` bits.
pub bit_or_fields : (k q r : ℕ) → r < 2 ^ k → bit_or (q * 2 ^ k) r ≡ q * 2 ^ k + r
bit_or_fields zero q r h =
    let none_left : r ≡ 0 = omega arith in
    rw none_left (omega (arith, bit_or-zero_below (q * 1) (q * 1) (omega arith)))
bit_or_fields (suc k) q r h = ground (
  arith,
  bit_or_digit (q * 2 ^ suc k) r,
  double_power q k,
  bit_or_fields k q (r / 2) (omega (arith, pow-suc 2 k)),
)

-- A mask of `k` ones takes the remainder by `2 ^ k`.
bit_and_low : (k q r : ℕ) → r < 2 ^ k → bit_and (q * 2 ^ k + r) (2 ^ k - 1) ≡ r
bit_and_low zero q r h =
    let n = q * 2 ^ 0 + r in omega (arith, bit_and-zero_below n n (omega arith))
bit_and_low (suc k) q r h = ground (
  arith,
  bit_and_digit (q * 2 ^ suc k + r) (2 ^ suc k - 1),
  double_power q k,
  pow-suc 2 k,
  one-le-pow k 2,
  bit_and_low k q (r / 2) (omega (arith, pow-suc 2 k)),
)

pub bit_and_mask : (k a : ℕ) → bit_and a (2 ^ k - 1) ≡ a % 2 ^ k
bit_and_mask k a = ground (arith, one-le-pow k 2, bit_and_low k (a / 2 ^ k) (a % 2 ^ k))
