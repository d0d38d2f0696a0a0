-- ===== src/Core/Packing/Read.antt =====
-- cjdns-core/src/encoding.rs, `read_bits`: the bits it takes are those of the bytes' number.
use cjdns_route_server.Base.{
  ℕ, zero, suc, ◌+◌, ◌-◌, ◌*◌, ◌/◌, ◌%◌, ◌^◌, ◌≤◌, ◌<◌, ◌≡◌, refl, sym, ap, ◌∙◌, arith, List,
  length, IsBytes, ok, if◌then◌else◌, ◌==◌, ge→ltb, le→leb, ne→==,
}
use cjdns_route_server.Base.Bits.{
  bit_and_digit, bit_and_mask, bit_or_fields, pow_add, mod-fields, double_power,
}
use cjdns_route_server.Core.Packing.{read_bits, read_bits_loop}
use cjdns_route_server.Core.Packing.Bits.{le_value, bit-le_value, get-lt, mask_power, bit_and_power}
use native.Mathlib.Nat.{
  pow-suc, one-le-pow, div-div-eq-div-mul, mod-lt, div-add-mod, pow-le-pow_right, mul-le-mul_left,
}
use Prim.Native.Nat.{bit_and, bit_or}

pick_bit : (q m x : ℕ) → q < 2 → 1 ≤ m → (if q * m == 0 then x else x + 1) ≡ x + q
pick_bit zero m x h k = grind arith
pick_bit (suc zero) m x h k = rw (ne→== (1 * m) 0 (λ e. omega arith)) refl
pick_bit (suc (suc q)) m x h k = absurd (omega arith)

two_fields : (c m r : ℕ) → c < 2 → r < m → c * m + r < m * 2
two_fields zero m r h k = omega arith
two_fields (suc zero) m r h k = omega arith
two_fields (suc (suc c)) m r h k = absurd (omega arith)

-- The new accumulator: the old one, one bit further left, and the bit.
add_bit :
    (acc b k : ℕ)
    → acc < 2 ^ 31
    → (if bit_and b (2 ^ k) == 0
        then bit_and (acc * 2 % 2 ^ 32) (2 ^ 32 - 2)
        else bit_or (acc * 2 % 2 ^ 32) 1)
      ≡ acc * 2 + b / 2 ^ k % 2
add_bit acc b k h =
    let fits : acc * 2 % 2 ^ 32 ≡ acc * 2 = omega arith in
    let halved : acc * 2 / 2 ≡ acc = omega arith in
    let cleared : bit_and (acc * 2) (2 ^ 32 - 2) ≡ acc * 2 = omega (
      arith,
      bit_and_digit (acc * 2) (2 ^ 32 - 2),
      ap (λ m. bit_and m (2 ^ 31 - 1)) halved,
      bit_and_mask 31 acc,
    ) in
    let set : bit_or (acc * 2) 1 ≡ acc * 2 + 1 = bit_or_fields 1 acc 1 (omega arith) in
    rw (bit_and_power k b, fits, cleared, set)
      (pick_bit (b / 2 ^ k % 2) (2 ^ k) (acc * 2) (omega arith) (one-le-pow k 2 (omega arith)))

split_mod : (w n : ℕ) → w % 2 ^ suc n ≡ w / 2 ^ n % 2 * 2 ^ n + w % 2 ^ n
split_mod w n =
    let a = w / 2 ^ n in
    let small : w % 2 ^ n < 2 ^ n = mod-lt w (one-le-pow n 2 (omega arith)) in
    let low = two_fields (a % 2) (2 ^ n) (w % 2 ^ n) (omega arith) small in
    let whole : w ≡ a / 2 * 2 ^ suc n + (a % 2 * 2 ^ n + w % 2 ^ n) = omega (
      arith,
      div-add-mod w (2 ^ n),
      double_power (a / 2) n,
      ap (λ t. t * 2 ^ n) (div-add-mod a 2),
    ) in
    ap (λ t. t % 2 ^ suc n) whole
    ∙ mod-fields (a / 2) (2 ^ suc n) (a % 2 * 2 ^ n + w % 2 ^ n) (omega (arith, pow-suc 2 n))

room : (acc n : ℕ) → acc * 2 ^ suc n + 2 ^ suc n ≤ 2 ^ 32 → acc < 2 ^ 31
room acc n h = omega (
  arith,
  pow-suc 2 n,
  double_power acc n,
  mul-le-mul_left (acc + 1) (one-le-pow n 2 (omega arith)),
)

room_left :
    (acc c n : ℕ)
    → c < 2
    → acc * 2 ^ suc n + 2 ^ suc n ≤ 2 ^ 32
    → (acc * 2 + c) * 2 ^ n + 2 ^ n ≤ 2 ^ 32
room_left acc zero n h k = omega (arith, pow-suc 2 n, double_power acc n)
room_left acc (suc zero) n h k = omega (arith, pow-suc 2 n, double_power acc n)
room_left acc (suc (suc c)) n h k = absurd (omega arith)

join_bit :
    (acc w n : ℕ) → (acc * 2 + w / 2 ^ n % 2) * 2 ^ n + w % 2 ^ n ≡ acc * 2 ^ suc n + w % 2 ^ suc n
join_bit acc w n = omega (arith, split_mod w n, double_power acc n)

module _ (xs : List ℕ) (bytes : IsBytes xs) where
  read_step :
      (n p acc : ℕ)
      → p < 8 * length xs
      → acc < 2 ^ 31
      → read_bits_loop xs (suc n) p acc
        ≡ read_bits_loop xs n (p + 1) (acc * 2 + le_value xs / 2 ^ (8 * length xs - 1 - p) % 2)
  unfolding read_bits_loop
  read_step n p acc h k =
      let i = length xs - 1 - (p - p % 8) / 8 in
      let (b, found) = get-lt xs i (omega arith) in
      let place : 8 * length xs - 1 - p ≡ 8 * i + (7 - p % 8) = omega arith in
      rw
        (
          ge→ltb (length xs) 1 (omega arith),
          ge→ltb (length xs - 1) ((p - p % 8) / 8) (omega arith),
          found,
          mask_power (p % 8) (omega arith),
          add_bit acc b (7 - p % 8) k,
          place,
          bit-le_value xs i b (7 - p % 8) (omega arith) bytes found,
        )
        refl

  read_loop :
      (n p acc : ℕ)
      → p + n ≤ 8 * length xs
      → acc * 2 ^ n + 2 ^ n ≤ 2 ^ 32
      → read_bits_loop xs n p acc
        ≡ ok (acc * 2 ^ n + le_value xs / 2 ^ (8 * length xs - p - n) % 2 ^ n)
  read_loop zero p acc h k = unfold read_bits_loop in ap ok (omega arith)
  read_loop (suc n) p acc h k =
      let w = le_value xs / 2 ^ (8 * length xs - p - suc n) in
      let place : 8 * length xs - 1 - p ≡ (8 * length xs - p - suc n) + n = omega arith in
      let bit : le_value xs / 2 ^ (8 * length xs - 1 - p) ≡ w / 2 ^ n =
        ap (λ m. le_value xs / 2 ^ m) place
        ∙ ap (λ m. le_value xs / m) (pow_add (8 * length xs - p - suc n) n)
        ∙ sym (div-div-eq-div-mul (le_value xs) (2 ^ (8 * length xs - p - suc n)) (2 ^ n)) in
      let same : 8 * length xs - (p + 1) - n ≡ 8 * length xs - p - suc n = omega arith in
      rw
        (
          read_step n p acc (omega arith) (room acc n k),
          bit,
          read_loop n (p + 1) (acc * 2 + w / 2 ^ n % 2) (omega arith)
              (room_left acc (w / 2 ^ n % 2) n (omega arith) k),
          same,
        )
        (ap ok (join_bit acc w n))

  -- `read_bits` takes a field of the number, counted from the top.
  pub read_bits-field :
      (p n : ℕ)
      → n ≤ 32
      → p + n ≤ 8 * length xs
      → read_bits xs p n ≡ ok (le_value xs / 2 ^ (8 * length xs - p - n) % 2 ^ n)
  unfolding read_bits
  read_bits-field p n h k =
      rw (le→leb n 32 h, le→leb (p + n) (length xs * 8) (omega arith))
        (read_loop n p 0 k
            (omega (arith, pow-le-pow_right {n = 2} (omega arith) {i = n} {j = 32} h))
          ∙ ap ok (omega arith))
