-- ===== src/Core/Splice/Inverse.antt =====
-- Unsplicing undoes splicing, splicing undoes unsplicing, and splicing is associative.
use cjdns_route_server.Base.{
  ℕ, ◌+◌, ◌-◌, ◌*◌, ◌/◌, ◌%◌, ◌^◌, ◌≤◌, ◌<◌, ◌≡◌, refl, sym, ap, ◌∙◌, arith, [], ◌∷◌, ok, Bool,
  true, false, ◌==◌, ltb, if◌then◌else◌, ge→ltb, eq→==,
}
use cjdns_route_server.Base.Bits.{div-fields, mod-fields, pow_add}
use native.Mathlib.Nat.{one-le-pow, div-add-mod'}
use native.Mathlib.Decide.{dec_lt}
use cjdns_route_server.Core.Label.{LabelBits, RoutingLabel, IsLabel, max_payload_bits}
use cjdns_route_server.Core.Label.Bits.{IsTopBit, top_bit, top_bit_lem, top_bit_unique}
use cjdns_route_server.Core.Splice.{splice, routes_through, unsplice}
use cjdns_route_server.Core.Splice.Laws.{after, follow, follow-IsBits, follow-top_bit, follow-top}
use cjdns_route_server.Core.Splice.Paths.{
  label, splice-fits, splice-too_long, splice-short, routes_through_lem, unsplice_lem, splice-fits,
  splice-too_long, shorter-IsLabel, top-le,
}

-- What is left of `b` below its highest bit.
low-of-top : (b h : ℕ) → IsTopBit b h → (b - 2 ^ h < 2 ^ h) × (b % 2 ^ h ≡ b - 2 ^ h)
low-of-top b h t =
    let whole : 1 * 2 ^ h + (b - 2 ^ h) ≡ b = omega (arith, t.lower) in
    let low : b - 2 ^ h < 2 ^ h = omega (arith, t.lower, t.upper) in
    (low, rw whole at (mod-fields 1 (2 ^ h) (b - 2 ^ h) low))

-- What the test of `routes_through` means where it succeeds.
through_test : (x h m n : ℕ) → (if ltb x h then false else m == n) ≡ true → (h ≤ x) × (m ≡ n)
through_test x h m n e = ground arith

-- The bits of three labels put together, `a` above `b` above `c`, in both orders.
after_assoc :
    (a b c h k : ℕ)
    → 2 ^ h ≤ b
    → 2 ^ k ≤ c
    → after a (h + k) (after b k c) ≡ after (after a h b) k c
after_assoc a b c h k p q =
    let rest : b - 2 ^ h + 2 ^ h ≡ b = omega arith in
    omega (arith, ap (λ (t : ℕ). t * 2 ^ k) rest, ap (λ (t : ℕ). a * t) (pow_add h k), pow_add h k)

module _ (L : LabelBits) where
  module _ (a b : RoutingLabel L) (va : IsLabel L a) (vb : IsLabel L b)
      (short : top_bit L a.bits + top_bit L b.bits < max_payload_bits L) where
    abbrev h : ℕ
    h = top_bit L b.bits

    abbrev joined : RoutingLabel L
    joined = label L (follow L a.bits b)

    joined-IsLabel : IsLabel L joined
    joined-IsLabel =
        let (pos, fits) = follow-IsBits L a.bits b (va.non_zero, va.fits) vb short in
        record { non_zero = pos; fits = fits }

    joined-top : top_bit L joined.bits ≡ top_bit L a.bits + h
    joined-top = follow-top_bit L a.bits b (va.non_zero, va.fits) vb short

    low : (b.bits - 2 ^ h < 2 ^ h) × (b.bits % 2 ^ h ≡ b.bits - 2 ^ h)
    low = low-of-top b.bits h (top_bit_lem L b.bits vb.non_zero vb.fits).2

    routes_through-joined : routes_through L joined b ≡ ok true
    routes_through-joined =
        routes_through_lem L joined b joined-IsLabel vb
        ∙ rw (
          ge→ltb (top_bit L joined.bits) h (omega (arith, joined-top)),
          mod-fields a.bits (2 ^ h) (b.bits - 2 ^ h) low.0,
          eq→== (b.bits - 2 ^ h) (b.bits % 2 ^ h) (sym low.1),
        )

    unsplice-joined : unsplice L joined b ≡ ok a
    unsplice-joined =
        unsplice_lem L joined b joined-IsLabel vb routes_through-joined (omega (arith, joined-top))
        ∙ ap (λ n. ok (label L n)) (div-fields a.bits (2 ^ h) (b.bits - 2 ^ h) low.0)

  -- The label that `splice` makes of two labels, where it makes one, leads through the second, and
  -- `unsplice` takes the second off it again and gives the first.
  pub unsplice-splice :
      (a b r : RoutingLabel L)
      → IsLabel L a
      → IsLabel L b
      → splice L (a ∷ b ∷ []) ≡ ok r
      → (routes_through L r b ≡ ok true) × (unsplice L r b ≡ ok a)
  unsplice-splice a b r va vb e =
      let (short, same) = splice-short L a b r va vb e in
      rw same (routes_through-joined a b va vb short, unsplice-joined a b va vb short)

  -- The quotient of a label by a middle path on its way, spliced with that path.
  splice-quotient :
      (d m : RoutingLabel L)
      → IsLabel L d
      → IsLabel L m
      → top_bit L m.bits ≤ top_bit L d.bits
      → d.bits % 2 ^ top_bit L m.bits ≡ m.bits % 2 ^ top_bit L m.bits
      → top_bit L d.bits < max_payload_bits L
      → splice L (label L (d.bits / 2 ^ top_bit L m.bits) ∷ m ∷ []) ≡ ok d
  splice-quotient d m vd vm le agree short =
      let p = 2 ^ top_bit L m.bits in
      let pos : 1 ≤ p = one-le-pow (top_bit L m.bits) 2 (omega arith) in
      let r = label L (d.bits / p) in
      let vr = shorter-IsLabel L d p vd pos (top-le L d m vd le) in
      let low = low-of-top m.bits (top_bit L m.bits) (top_bit_lem L m.bits vm.non_zero vm.fits).2 in
      let back : follow L r.bits m ≡ d.bits = omega (arith, div-add-mod' d.bits p, low.1, agree) in
      let top : top_bit L d.bits ≡ top_bit L r.bits + top_bit L m.bits =
        top_bit_unique d.bits (top_bit L d.bits) (top_bit L r.bits + top_bit L m.bits)
          (top_bit_lem L d.bits vd.non_zero vd.fits).2
          (rw back at (follow-top L r.bits m (vr.non_zero, vr.fits) vm)) in
      (splice-fits L r m [] vr (vm, tt) (omega (arith, top))).0 ∙ ap (λ n. ok (label L n)) back

  -- Both ways of putting three labels together.
  assoc_joined :
      (a b c : RoutingLabel L)
      → IsLabel L a
      → IsLabel L b
      → IsLabel L c
      → top_bit L a.bits + top_bit L b.bits < max_payload_bits L
      → top_bit L b.bits + top_bit L c.bits < max_payload_bits L
      → splice L (a ∷ label L (follow L b.bits c) ∷ [])
        ≡ splice L (label L (follow L a.bits b) ∷ c ∷ [])
  assoc_joined a b c va vb vc short_ab short_bc =
      let ab = label L (follow L a.bits b) in
      let bc = label L (follow L b.bits c) in
      let vab = joined-IsLabel a b va vb short_ab in
      let vbc = joined-IsLabel b c vb vc short_bc in
      let top_ab = joined-top a b va vb short_ab in
      let top_bc = joined-top b c vb vc short_bc in
      elim (dec_lt (top_bit L ab.bits + top_bit L c.bits) (max_payload_bits L)) [
        | yes h ↦
            (splice-fits L a bc [] va (vbc, tt) (omega (arith, top_ab, top_bc))).0
            ∙ ap (λ n. ok (label L n))
                (ap (λ n. after a.bits n bc.bits) top_bc
                  ∙ after_assoc a.bits b.bits c.bits (top_bit L b.bits) (top_bit L c.bits)
                      (top_bit_lem L b.bits vb.non_zero vb.fits).2.lower
                      (top_bit_lem L c.bits vc.non_zero vc.fits).2.lower)
            ∙ sym ((splice-fits L ab c [] vab (vc, tt) (omega arith)).0)
        | no h ↦
            splice-too_long L a bc [] va (vbc, tt) (omega (arith, top_ab, top_bc))
            ∙ sym (splice-too_long L ab c [] vab (vc, tt) (omega arith))
      ]

  -- `unsplice` gives a label only where the middle path lies on the way.
  through-of-unsplice :
      (d m r : RoutingLabel L) (through : Bool)
      → routes_through L d m ≡ ok through
      → unsplice L d m ≡ ok r
      → through ≡ true
  unfolding unsplice
  through-of-unsplice d m r true found e = refl
  through-of-unsplice d m r false found e = cc (rw (found, unsplice) at e)

  -- Where `unsplice` takes a middle path off a label that fits the payload of its type, `splice`
  -- puts the path back below the result and gives the label.
  pub splice-unsplice :
      (d m r : RoutingLabel L)
      → IsLabel L d
      → IsLabel L m
      → top_bit L d.bits < max_payload_bits L
      → unsplice L d m ≡ ok r
      → splice L (r ∷ m ∷ []) ≡ ok d
  splice-unsplice d m r vd vm short e =
      let found = routes_through_lem L d m vd vm in
      let test = through-of-unsplice d m r _ found e in
      let (le, agree) = through_test (top_bit L d.bits) (top_bit L m.bits) _ _ test in
      let result = unsplice_lem L d m vd vm (found ∙ ap ok test) le in
      let same : label L (d.bits / 2 ^ top_bit L m.bits) ≡ r = cc (result, e) in
      rw (← same) (splice-quotient d m vd vm le agree short)

  -- Of three labels of which the first two and the last two can be spliced, the label of the way
  -- through all three, or the error, is the same from whichever side they are put together.
  pub splice_assoc :
      (a b c ab bc : RoutingLabel L)
      → IsLabel L a
      → IsLabel L b
      → IsLabel L c
      → splice L (a ∷ b ∷ []) ≡ ok ab
      → splice L (b ∷ c ∷ []) ≡ ok bc
      → splice L (a ∷ bc ∷ []) ≡ splice L (ab ∷ c ∷ [])
  splice_assoc a b c ab bc va vb vc e f =
      let (short_ab, same_ab) = splice-short L a b ab va vb e in
      let (short_bc, same_bc) = splice-short L b c bc vb vc f in
      rw (same_ab, same_bc) (assoc_joined a b c va vb vc short_ab short_bc)
