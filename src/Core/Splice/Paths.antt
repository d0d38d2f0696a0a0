-- ===== src/Core/Splice/Paths.antt =====
-- What `splice`, `routes_through` and `unsplice` promise one another.
use cjdns_route_server.Base.{
  ℕ, ◌+◌, ◌*◌, ◌/◌, ◌%◌, ◌^◌, ◌≤◌, ◌<◌, ◌≡◌, arith, List, [], ◌∷◌, length, All, ok, err, true,
  false, ◌==◌, ltb, if◌then◌else◌, ge→ltb, lt→ltb, ne→==,
}
use cjdns_route_server.Base.Bits.{bit_and_mask}
use native.Mathlib.Nat.{one-le-pow, one-mul, mod-eq_of_lt, pow-le-pow_right, div-le_self, le_trans}
use native.Mathlib.Decide.{dec_lt}
use cjdns_route_server.Core.Label.{LabelBits, RoutingLabel, IsLabel, bit_size, max_payload_bits}
use cjdns_route_server.Core.Label.{try_new}
use cjdns_route_server.Core.Label.Bits.{top_bit, top_bit_lem}
use cjdns_route_server.Core.Splice.{
  splice, routes_through, unsplice, label_highest_set_bit, label_too_long,
}
use cjdns_route_server.Core.Splice.Laws.{
  follow, follow_all, path_bits, IsBits, splice_loop-ok, splice_loop-err,
}

div-pos : (n p : ℕ) → 1 ≤ p → p ≤ n → 1 ≤ n / p
div-pos n p pos le = grind arith

le_lt_trans : {a b c : ℕ} → a ≤ b → b < c → a < c
le_lt_trans p q = omega arith

module _ (L : LabelBits) where
  abbrev pub label : ℕ → RoutingLabel L
  label bits = record { bits = bits }

  abbrev as_bits : (l : RoutingLabel L) → IsLabel L l → IsBits L l.bits
  as_bits l v = (v.non_zero, v.fits)

  module _ (a b : RoutingLabel L) (ls : List (RoutingLabel L)) where
    enough : ltb (length (a ∷ b ∷ ls)) 2 ≡ false
    enough = ge→ltb (length (a ∷ b ∷ ls)) 2 (omega arith)

    -- `splice` of two or more labels whose bits fit the payload of their type gives the label with
    -- each hop's bits below those of the hops before it in the list, and that is a label.
    pub splice-fits :
        IsLabel L a
        → All (IsLabel L) (b ∷ ls)
        → top_bit L a.bits + path_bits L (b ∷ ls) < max_payload_bits L
        → (splice L (a ∷ b ∷ ls) ≡ ok (label (follow_all L a.bits (b ∷ ls))))
          × IsLabel L (label (follow_all L a.bits (b ∷ ls)))
    unfolding splice try_new
    splice-fits va vls short =
        let (runs, valid, top) = splice_loop-ok L a.bits (b ∷ ls) (as_bits a va) vls short in
        (
          rw (enough, runs, ne→== (follow_all L a.bits (b ∷ ls)) 0 (omega arith)),
          record { non_zero = valid.0; fits = valid.1 },
        )

    -- `splice` of two or more labels whose bits do not fit the payload is refused with
    -- `LabelTooLong`.
    pub splice-too_long :
        IsLabel L a
        → All (IsLabel L) (b ∷ ls)
        → max_payload_bits L ≤ top_bit L a.bits + path_bits L (b ∷ ls)
        → splice L (a ∷ b ∷ ls) ≡ err label_too_long
    unfolding splice
    splice-too_long va vls long =
        rw (enough, splice_loop-err L a.bits (b ∷ ls) (as_bits a va) vls (omega arith) long)

  -- `routes_through` compares the bits below the highest bit of the middle path.
  pub routes_through_lem :
      (d m : RoutingLabel L)
      → IsLabel L d
      → IsLabel L m
      → routes_through L d m
        ≡ ok (
            if ltb (top_bit L d.bits) (top_bit L m.bits)
            then false
            else d.bits % 2 ^ top_bit L m.bits == m.bits % 2 ^ top_bit L m.bits)
  unfolding routes_through label_highest_set_bit
  routes_through_lem d m vd vm =
      let (found_d, small_d, top_d) = top_bit_lem L d.bits vd.non_zero vd.fits in
      let (found_m, small_m, top_m) = top_bit_lem L m.bits vm.non_zero vm.fits in
      let one_fits : 1 * 2 ^ top_bit L m.bits < 2 ^ bit_size L =
        omega (arith, top_m.lower, vm.fits) in
      rw (
        found_d,
        found_m,
        lt→ltb (top_bit L m.bits) (bit_size L) small_m,
        mod-eq_of_lt one_fits,
        one-mul (2 ^ top_bit L m.bits),
        bit_and_mask (top_bit L m.bits) d.bits,
        bit_and_mask (top_bit L m.bits) m.bits,
      )

  -- A label divided by a power of two that it reaches is a label.
  pub shorter-IsLabel :
      (d : RoutingLabel L) (p : ℕ)
      → IsLabel L d
      → 1 ≤ p
      → p ≤ d.bits
      → IsLabel L (label (d.bits / p))
  shorter-IsLabel d p vd pos le = record {
    non_zero = div-pos d.bits p pos le;
    fits = le_lt_trans (div-le_self d.bits p) vd.fits;
  }

  pub top-le :
      (d m : RoutingLabel L)
      → IsLabel L d
      → top_bit L m.bits ≤ top_bit L d.bits
      → 2 ^ top_bit L m.bits ≤ d.bits
  top-le d m vd le =
      le_trans (pow-le-pow_right {n = 2} (omega arith) le)
        (top_bit_lem L d.bits vd.non_zero vd.fits).2.lower

  pub unsplice_lem :
      (d m : RoutingLabel L)
      → IsLabel L d
      → IsLabel L m
      → routes_through L d m ≡ ok true
      → top_bit L m.bits ≤ top_bit L d.bits
      → unsplice L d m ≡ ok (label (d.bits / 2 ^ top_bit L m.bits))
  unfolding unsplice label_highest_set_bit try_new
  unsplice_lem d m vd vm through le =
      let (found_m, small_m, top_m) = top_bit_lem L m.bits vm.non_zero vm.fits in
      let quotient =
        shorter-IsLabel d (2 ^ top_bit L m.bits) vd (one-le-pow (top_bit L m.bits) 2 (omega arith))
          (top-le d m vd le) in
      rw (
        through,
        found_m,
        lt→ltb (top_bit L m.bits) (bit_size L) small_m,
        ne→== (d.bits / 2 ^ top_bit L m.bits) 0 (omega (arith, quotient.non_zero)),
      )

  -- Splicing two labels whose bits do not fit is refused, so a result means that they fit.
  pub splice-short :
      (a b r : RoutingLabel L)
      → IsLabel L a
      → IsLabel L b
      → splice L (a ∷ b ∷ []) ≡ ok r
      → (top_bit L a.bits + top_bit L b.bits < max_payload_bits L) × (r ≡ label (follow L a.bits b))
  splice-short a b r va vb e =
      elim (dec_lt (top_bit L a.bits + top_bit L b.bits) (max_payload_bits L)) [
        | yes h ↦ (h, cc ((splice-fits a b [] va (vb, tt) (omega arith)).0, e))
        | no h ↦ cc (splice-too_long a b [] va (vb, tt) (omega arith), e)
      ]
