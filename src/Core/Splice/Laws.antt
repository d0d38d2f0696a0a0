-- ===== src/Core/Splice/Laws.antt =====
-- `splice` as arithmetic: the bits of the second label below its highest are put under the first.
use cjdns_route_server.Base.{
  ℕ, suc, ◌+◌, ◌-◌, ◌*◌, ◌^◌, ◌≤◌, ◌<◌, ◌≡◌, refl, ◌∙◌, arith, List, [], ◌∷◌, length, ok, err, All,
  lt→ltb, ge→ltb,
}
use cjdns_route_server.Base.Bits.{bit_xor_splice, bit_xor-one, pow_add}
use Prim.Native.Nat.{bit_xor}
use native.Mathlib.Decide.{dec_lt}
use native.Mathlib.Nat.{pow-suc, one-le-pow, pow-le-pow_right, mod-eq_of_lt}
use cjdns_route_server.Core.Label.{
  LabelBits, u32, u64, u128, RoutingLabel, IsLabel, bit_size, max_payload_bits,
}
use cjdns_route_server.Core.Label.Bits.{IsTopBit, top_bit, top_bit_lem, top_bit-eq}
use cjdns_route_server.Core.Splice.{label_too_long, splice_loop, label_highest_set_bit}

times_le : (x y p : ℕ) → x ≤ y → x * p ≤ y * p
times_le x y p h = grind arith

-- The way `a` after the way `b`, as bits, where bit `h` is the highest of `b`.
abbrev pub after : ℕ → ℕ → ℕ → ℕ
after a h b = a * 2 ^ h + (b - 2 ^ h)

module _ (a h b k : ℕ) (top_a : IsTopBit a k) (top_b : IsTopBit b h) where
  after-IsTopBit : IsTopBit (after a h b) (k + h)
  after-IsTopBit = record {
    lower = omega (arith, pow_add k h, times_le (2 ^ k) a (2 ^ h) top_a.lower);
    upper =
        omega (arith, pow_add k h, times_le (suc a) (2 ^ k * 2) (2 ^ h) top_a.upper, top_b.upper);
  }

  flipped-small : bit_xor a 1 < 2 ^ k * 2
  flipped-small = omega (arith, bit_xor-one a, top_a.upper)

  flipped-lt : bit_xor a 1 * 2 ^ h < 2 ^ (k + h) * 2
  flipped-lt = omega (
    arith,
    pow_add k h,
    one-le-pow h 2,
    times_le (suc (bit_xor a 1)) (2 ^ k * 2) (2 ^ h) flipped-small,
  )

  flipped-xor : bit_xor (bit_xor a 1 * 2 ^ h) b ≡ after a h b
  flipped-xor =
      let low : b - 2 ^ h < 2 ^ h = omega (arith, top_b.lower, top_b.upper) in
      let whole : 2 ^ h + (b - 2 ^ h) ≡ b = omega (arith, top_b.lower) in
      rw whole at (bit_xor_splice h a (b - 2 ^ h) low)

pub max_payload-le : (L : LabelBits) → max_payload_bits L + 4 ≡ bit_size L
max_payload-le u32 = refl
max_payload-le u64 = refl
max_payload-le u128 = refl

pub max_payload-pos : (L : LabelBits) → 1 ≤ max_payload_bits L
max_payload-pos u32 = omega arith
max_payload-pos u64 = omega arith
max_payload-pos u128 = omega arith

module _ (L : LabelBits) where
  -- The bits of the way `a` followed by the hop `l`, and by a list of hops.
  abbrev pub follow : ℕ → RoutingLabel L → ℕ
  follow a l = after a (top_bit L l.bits) l.bits

  abbrev pub follow_all : ℕ → List (RoutingLabel L) → ℕ
  follow_all a [] = a
  follow_all a (l ∷ ls) = follow_all (follow a l) ls

  -- The number of bits that a list of hops takes.
  abbrev pub path_bits : List (RoutingLabel L) → ℕ
  path_bits [] = 0
  path_bits (l ∷ ls) = top_bit L l.bits + path_bits ls

  -- `a` is the bits of a label.
  abbrev pub IsBits : ℕ → Type 0
  IsBits a = (1 ≤ a) × (a < 2 ^ bit_size L)

  short-lt : (n : ℕ) → n < max_payload_bits L → 2 ^ n * 2 < 2 ^ bit_size L
  short-lt n h = omega (
    arith,
    max_payload-le L,
    one-le-pow n 2,
    pow-suc 2 n,
    pow-suc 2 (suc n),
    pow-le-pow_right {n = 2} (omega arith) {i = suc (suc n)} {j = bit_size L}
        (omega (arith, max_payload-le L)),
  )

  module _ (a : ℕ) (l : RoutingLabel L) (va : IsBits a) (vl : IsLabel L l) where
    abbrev sum_bits : ℕ
    sum_bits = top_bit L a + top_bit L l.bits

    pub follow-top : IsTopBit (follow a l) sum_bits
    follow-top =
        after-IsTopBit a (top_bit L l.bits) l.bits (top_bit L a) (top_bit_lem L a va.0 va.1).2
          (top_bit_lem L l.bits vl.non_zero vl.fits).2

    pub follow-IsBits : sum_bits < max_payload_bits L → IsBits (follow a l)
    follow-IsBits h = (
      omega (arith, follow-top.lower, one-le-pow sum_bits 2),
      omega (arith, follow-top.upper, short-lt sum_bits h),
    )

    pub follow-top_bit : sum_bits < max_payload_bits L → top_bit L (follow a l) ≡ sum_bits
    follow-top_bit h = top_bit-eq L (follow a l) sum_bits (follow-IsBits h).1 follow-top

    shifted-lt : sum_bits < max_payload_bits L → bit_xor a 1 * 2 ^ top_bit L l.bits < 2 ^ bit_size L
    shifted-lt h = omega (
      arith,
      short-lt sum_bits h,
      flipped-lt a (top_bit L l.bits) l.bits (top_bit L a) (top_bit_lem L a va.0 va.1).2
          (top_bit_lem L l.bits vl.non_zero vl.fits).2,
    )

    -- One round of the loop, where the hop fits and where it does not.
    splice_loop-step :
        (rest : List (RoutingLabel L))
        → sum_bits < max_payload_bits L
        → splice_loop L a (l ∷ rest) ≡ splice_loop L (follow a l) rest
    unfolding splice_loop label_highest_set_bit
    splice_loop-step rest h = rw (
      (top_bit_lem L l.bits vl.non_zero vl.fits).0,
      (top_bit_lem L a va.0 va.1).0,
      ge→ltb (max_payload_bits L - 1) sum_bits (omega arith),
      lt→ltb (top_bit L l.bits) (bit_size L) (top_bit_lem L l.bits vl.non_zero vl.fits).1,
      mod-eq_of_lt (shifted-lt h),
      flipped-xor a (top_bit L l.bits) l.bits (top_bit L a) (top_bit_lem L a va.0 va.1).2
          (top_bit_lem L l.bits vl.non_zero vl.fits).2,
    )

    splice_loop-long :
        (rest : List (RoutingLabel L))
        → max_payload_bits L ≤ sum_bits
        → splice_loop L a (l ∷ rest) ≡ err label_too_long
    unfolding splice_loop label_highest_set_bit
    splice_loop-long rest h =
        let room : 1 ≤ max_payload_bits L = max_payload-pos L in
        rw (
          (top_bit_lem L l.bits vl.non_zero vl.fits).0,
          (top_bit_lem L a va.0 va.1).0,
          lt→ltb (max_payload_bits L - 1) sum_bits (omega arith),
        )

  -- The whole loop.
  pub splice_loop-ok :
      (a : ℕ) (ls : List (RoutingLabel L))
      → IsBits a
      → All (IsLabel L) ls
      → top_bit L a + path_bits ls < max_payload_bits L
      → (splice_loop L a ls ≡ ok (follow_all a ls))
        × IsBits (follow_all a ls)
        × (top_bit L (follow_all a ls) ≡ top_bit L a + path_bits ls)
  splice_loop-ok a [] va vls h = (unfold splice_loop in refl, va, omega arith)
  splice_loop-ok a (l ∷ ls) va (vl, vls) h =
      let short : top_bit L a + top_bit L l.bits < max_payload_bits L = omega arith in
      let grown = follow-top_bit a l va vl short in
      let (runs, valid, top) =
        splice_loop-ok (follow a l) ls (follow-IsBits a l va vl short) vls (omega (arith, grown)) in
      (splice_loop-step a l va vl ls short ∙ runs, valid, omega (arith, top, grown))

  pub splice_loop-err :
      (a : ℕ) (ls : List (RoutingLabel L))
      → IsBits a
      → All (IsLabel L) ls
      → 1 ≤ length ls
      → max_payload_bits L ≤ top_bit L a + path_bits ls
      → splice_loop L a ls ≡ err label_too_long
  splice_loop-err a [] va vls n h = absurd (omega arith)
  splice_loop-err a (l ∷ []) va (vl, vls) n h = splice_loop-long a l va vl [] (omega arith)
  splice_loop-err a (l ∷ m ∷ ls) va (vl, vls) n h =
      elim (dec_lt (top_bit L a + top_bit L l.bits) (max_payload_bits L)) [
        | yes short ↦
            splice_loop-step a l va vl (m ∷ ls) short
            ∙ splice_loop-err (follow a l) (m ∷ ls) (follow-IsBits a l va vl short) vls
                (omega arith) (omega (arith, follow-top_bit a l va vl short))
        | no long ↦ splice_loop-long a l va vl (m ∷ ls) (omega arith)
      ]
