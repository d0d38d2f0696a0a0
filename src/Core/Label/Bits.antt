-- ===== src/Core/Label/Bits.antt =====
-- What `highest_set_bit` finds.
use cjdns_route_server.Base.{
  ℕ, zero, suc, ◌-◌, ◌*◌, ◌^◌, ◌≤◌, ◌<◌, ◌≡◌, some, arith, le→leb, gt→leb, ne→==,
}
use native.Mathlib.Nat.{pow-suc, one-le-pow, pow-le-pow_right}
use native.Mathlib.Decide.{dec_le, dec_lt}
use cjdns_route_server.Core.Label.{LabelBits, bit_size, leading_zeros, highest_set_bit}

-- Bit `h` is the highest that is set in `x`.
pub record IsTopBit (x h : ℕ) : Type 0 where
  pub lower : 2 ^ h ≤ x
  pub upper : x < 2 ^ h * 2

leading_zeros-IsTopBit :
    (w x : ℕ) → 1 ≤ x → x < 2 ^ w → (leading_zeros w x < w) × IsTopBit x (w - 1 - leading_zeros w x)
unfolding leading_zeros
leading_zeros-IsTopBit zero x p q = absurd (omega arith)
leading_zeros-IsTopBit (suc w) x p q = elim (dec_le (2 ^ w) x) [
  | yes h ↦
      let top : suc w - 1 - 0 ≡ w = omega arith in
      rw (le→leb (2 ^ w) x h)
        (omega arith, rw top (record { lower = h; upper = omega (arith, pow-suc 2 w) }))
  | no h ↦
      let below : x < 2 ^ w = omega arith in
      let (less, top) = leading_zeros-IsTopBit w x p below in
      let same : suc w - 1 - suc (leading_zeros w x) ≡ w - 1 - leading_zeros w x = omega arith in
      rw (gt→leb (2 ^ w) x below) (omega arith, rw same top)
]

top_bit-le : (x h k : ℕ) → 2 ^ h ≤ x → x < 2 ^ k * 2 → h ≤ k
top_bit-le x h k p q = elim (dec_lt k h) [
  | yes l ↦ absurd (omega (arith, pow-le-pow_right {n = 2} (omega arith) l, pow-suc 2 k))
  | no l ↦ omega arith
]

pub top_bit_unique : (x h k : ℕ) → IsTopBit x h → IsTopBit x k → h ≡ k
top_bit_unique x h k p q =
    omega (arith, top_bit-le x h k p.lower q.upper, top_bit-le x k h q.lower p.upper)

-- The position of the highest bit, as a number.
unfoldable pub top_bit : LabelBits → ℕ → ℕ
top_bit L x = bit_size L - 1 - leading_zeros (bit_size L) x

pub top_bit_lem :
    (L : LabelBits) (x : ℕ)
    → 1 ≤ x
    → x < 2 ^ bit_size L
    → (highest_set_bit L x ≡ some (top_bit L x))
      × (top_bit L x < bit_size L)
      × IsTopBit x (top_bit L x)
unfolding top_bit highest_set_bit
top_bit_lem L x p q =
    let (less, top) = leading_zeros-IsTopBit (bit_size L) x p q in
    (rw (ne→== x 0 (omega arith)), omega arith, top)

pub top_bit-eq : (L : LabelBits) (x h : ℕ) → x < 2 ^ bit_size L → IsTopBit x h → top_bit L x ≡ h
top_bit-eq L x h q t =
    let (found, small, top) = top_bit_lem L x (omega (arith, t.lower, one-le-pow h 2)) q in
    top_bit_unique x (top_bit L x) h top t
