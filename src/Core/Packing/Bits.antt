-- ===== src/Core/Packing/Bits.antt =====
-- The bytes of a packed scheme as one number, lowest byte first, and the bits of that number.
use cjdns_route_server.Base.{
  ℕ, zero, suc, ◌+◌, ◌-◌, ◌*◌, ◌/◌, ◌%◌, ◌^◌, ◌≤◌, ◌<◌, ◌≡◌, refl, sym, ap, ◌∙◌, arith, List, [],
  ◌∷◌, ◌++◌, some, length, get_elem?, IsBytes,
}
use cjdns_route_server.Base.Bits.{
  bit_and_digit, bit_or_digit, bit_or_fields, pow_add, bit_and-zero_below, double_power,
}
use native.Mathlib.Nat.{pow-suc, div-div-eq-div-mul, mul_comm}
use Prim.Native.Nat.{bit_and, bit_or}

unfoldable pub le_value : List ℕ → ℕ
le_value [] = 0
le_value (b ∷ bs) = b + 256 * le_value bs

pub le_value-append :
    (xs ys : List ℕ) → le_value (xs ++ ys) ≡ le_value xs + 2 ^ (8 * length xs) * le_value ys
unfolding le_value
le_value-append [] ys = omega arith
le_value-append (b ∷ xs) ys =
    let e : 8 * suc (length xs) ≡ 8 + 8 * length xs = omega arith in
    rw (le_value-append xs ys, e, pow_add 8 (8 * length xs)) (omega arith)

-- Properties of the numbers below eight, one by one.
pub below_eight {ℓ} :
    (P : ℕ → Type ℓ) → P 0 → P 1 → P 2 → P 3 → P 4 → P 5 → P 6 → P 7 → (r : ℕ) → r < 8 → P r
below_eight P a b c d e f g i zero h = a
below_eight P a b c d e f g i (suc zero) h = b
below_eight P a b c d e f g i (suc (suc zero)) h = c
below_eight P a b c d e f g i (suc (suc (suc zero))) h = d
below_eight P a b c d e f g i (suc (suc (suc (suc zero)))) h = e
below_eight P a b c d e f g i (suc (suc (suc (suc (suc zero))))) h = f
below_eight P a b c d e f g i (suc (suc (suc (suc (suc (suc zero)))))) h = g
below_eight P a b c d e f g i (suc (suc (suc (suc (suc (suc (suc zero))))))) h = i
below_eight P a b c d e f g i (suc (suc (suc (suc (suc (suc (suc (suc r)))))))) h =
    absurd (omega arith)

-- A bit of the number is a bit of one of its bytes.
low_bit : (b v r : ℕ) → r < 8 → (b + 256 * v) / 2 ^ r % 2 ≡ b / 2 ^ r % 2
low_bit b v r h =
    below_eight (λ r. (b + 256 * v) / 2 ^ r % 2 ≡ b / 2 ^ r % 2) (omega arith) (omega arith)
      (omega arith) (omega arith) (omega arith) (omega arith) (omega arith) (omega arith) r h

pub bit-le_value :
    (xs : List ℕ) (i b r : ℕ)
    → r < 8
    → IsBytes xs
    → get_elem? xs i ≡ some b
    → le_value xs / 2 ^ (8 * i + r) % 2 ≡ b / 2 ^ r % 2
unfolding le_value
bit-le_value [] i b r h hs e = cc
bit-le_value (c ∷ xs) zero b r h (hc, hs) e =
    let n : 8 * 0 + r ≡ r = omega arith in
    let same : c ≡ b = cc in rw (n, same) (low_bit b (le_value xs) r h)
bit-le_value (c ∷ xs) (suc i) b r h (hc, hs) e =
    let n : 8 * suc i + r ≡ 8 + (8 * i + r) = omega arith in
    let tail : (c + 256 * le_value xs) / 256 ≡ le_value xs = omega arith in
    rw
      (
        n,
        pow_add 8 (8 * i + r),
        sym (div-div-eq-div-mul (c + 256 * le_value xs) 256 (2 ^ (8 * i + r))),
        tail,
      )
      (bit-le_value xs i b r h hs e)

pub get-lt : (xs : List ℕ) (i : ℕ) → i < length xs → (b : ℕ) × (get_elem? xs i ≡ some b)
get-lt [] i h = absurd (omega arith)
get-lt (x ∷ xs) zero h = (x, refl)
get-lt (x ∷ xs) (suc i) h = get-lt xs i (omega arith)

pub mask_power : (c : ℕ) → c < 8 → 128 / 2 ^ c ≡ 2 ^ (7 - c)
mask_power = below_eight (λ c. 128 / 2 ^ c ≡ 2 ^ (7 - c)) refl refl refl refl refl refl refl refl

-- A mask of one bit.
pub bit_and_power : (k b : ℕ) → bit_and b (2 ^ k) ≡ b / 2 ^ k % 2 * 2 ^ k
bit_and_power zero b =
    omega (arith, bit_and_digit b 1, bit_and-zero_below (b / 2) (b / 2) (omega arith))
bit_and_power (suc k) b =
    let half : 2 ^ suc k / 2 ≡ 2 ^ k = omega (arith, pow-suc 2 k) in
    let even : 2 ^ suc k % 2 ≡ 0 = omega (arith, pow-suc 2 k) in
    let low : b / 2 ^ suc k ≡ b / 2 / 2 ^ k =
      ap (λ m. b / m) (pow-suc 2 k ∙ mul_comm (2 ^ k) 2) ∙ sym (div-div-eq-div-mul b 2 (2 ^ k)) in
    omega (
      arith,
      bit_and_digit b (2 ^ suc k),
      half,
      even,
      ap (λ m. bit_and (b / 2) m) half,
      bit_and_power k (b / 2),
      ap (λ q. q % 2 * 2 ^ suc k) low,
      double_power (b / 2 / 2 ^ k % 2) k,
    )

bit_or-comm_below : (n a b : ℕ) → a ≤ n → b ≤ n → bit_or a b ≡ bit_or b a
bit_or-comm_below zero a b h k = let e : a ≡ b = omega arith in rw e refl
bit_or-comm_below (suc n) a b h k = omega (
  arith,
  bit_or_digit a b,
  bit_or_digit b a,
  bit_or-comm_below n (a / 2) (b / 2) (omega arith) (omega arith),
)

-- A bit above a byte's bits that are set already.
pub bit_or_top : (r b : ℕ) → b < 2 ^ r → bit_or b (2 ^ r) ≡ b + 2 ^ r
bit_or_top r b h =
    let one : 1 * 2 ^ r ≡ 2 ^ r = omega arith in
    omega (
      arith,
      bit_or-comm_below (b + 2 ^ r) b (2 ^ r) (omega arith) (omega arith),
      bit_or_fields r 1 b h,
      ap (λ t. bit_or t b) one,
    )
