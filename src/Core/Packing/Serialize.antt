-- ===== src/Core/Packing/Serialize.antt =====
-- cjdns-core/src/encoding.rs, `serialize_scheme`: the number that it writes, from the forms.
use cjdns_route_server.Base.{
  ℕ, ◌+◌, ◌*◌, ◌^◌, ◌≤◌, ◌<◌, ◌≡◌, inl, inr, refl, ap, ◌∙◌, arith, List, [], ◌∷◌, ◌++◌, length,
  length-append, IsBytes, All, All-append, ok, if◌then◌else◌, ge→ltb, lt→ltb, subst, ltb,
}
use cjdns_route_server.Base.Bits.{pow_add, bit_or_fields}
use cjdns_route_server.Core.Scheme.{EncodingSchemeForm, EncodingScheme}
use cjdns_route_server.Core.Packing.{
  Packed, empty_packed, form_acc, write_form, write_forms, serialize_scheme,
}
use cjdns_route_server.Core.Packing.Bits.{le_value, le_value-append}
use native.Mathlib.Decide.{ℕ_discrete}
use native.Mathlib.Nat.{pow-le-pow_right, mod-eq_of_lt}
use Prim.Native.Nat.{bit_or}
use cjdns_route_server.Core.Packing.Write.{
  IsPacked, Writes, write_bits-IsPacked, le_value-one, small_byte,
}

-- A form that `EncodingSchemeForm::try_new` makes.
pub record IsForm (f : EncodingSchemeForm) : Type 0 where
  pub some_bits : 1 ≤ f.bit_count
  pub bits_fit : f.bit_count ≤ 31
  pub prefix_fits : f.prefix_len ≤ 31
  pub prefix_small : f.prefix < 2 ^ f.prefix_len

-- The fields of a form as one number: the prefix above the bit count above the prefix length.
abbrev pub form_bits : EncodingSchemeForm → ℕ
form_bits f = 5 + 5 + f.prefix_len

abbrev pub form_value : EncodingSchemeForm → ℕ
form_value f = (f.prefix * 32 + f.bit_count) * 32 + f.prefix_len

-- A scheme as one number, its first form lowest.
unfoldable pub scheme_bits : EncodingScheme → ℕ
scheme_bits [] = 0
scheme_bits (f ∷ fs) = form_bits f + scheme_bits fs

unfoldable pub scheme_value : EncodingScheme → ℕ
scheme_value [] = 0
scheme_value (f ∷ fs) = form_value f + scheme_value fs * 2 ^ form_bits f

prefix_bound : (f : EncodingSchemeForm) → IsForm f → f.prefix < 2 ^ 31
prefix_bound f v = omega (
  arith,
  v.prefix_small,
  pow-le-pow_right {n = 2} (omega arith) {i = f.prefix_len} {j = 31} v.prefix_fits,
)

pub form_value-lt : (f : EncodingSchemeForm) → IsForm f → form_value f < 2 ^ form_bits f
form_value-lt f v =
    omega (arith, v.prefix_small, v.bits_fit, v.prefix_fits, pow_add 10 f.prefix_len)

bit_or-zero_left : (x : ℕ) → x < 2 ^ 32 → bit_or 0 x ≡ x
bit_or-zero_left x h = omega (arith, bit_or_fields 32 0 x h)

no_prefix :
    (f : EncodingSchemeForm)
    → IsForm f
    → (if ltb 0 f.prefix_len then bit_or 0 f.prefix else 0) ≡ f.prefix
no_prefix f v = elim (ℕ_discrete f.prefix_len 0) [
  | yes e ↦ rw e (omega (arith, v.prefix_small, ap (λ k. 2 ^ k) e))
  | no ne ↦
      rw (lt→ltb 0 f.prefix_len (omega (arith, ne)))
        (bit_or-zero_left f.prefix (omega (arith, prefix_bound f v)))
]

form_acc-value : (f : EncodingSchemeForm) → IsForm f → form_acc f ≡ form_value f
unfolding form_acc
form_acc-value f v =
    let small = prefix_bound f v in
    let first : (if ltb 0 f.prefix_len then bit_or 0 f.prefix else 0) ≡ f.prefix = no_prefix f v in
    rw
      (
        first,
        mod-eq_of_lt {n = f.prefix * 32} {m = 2 ^ 64} (omega arith),
        bit_or_fields 5 f.prefix f.bit_count (omega (arith, v.bits_fit)),
        mod-eq_of_lt {n = (f.prefix * 32 + f.bit_count) * 32} {m = 2 ^ 64}
            (omega (arith, v.bits_fit)),
        bit_or_fields 5 (f.prefix * 32 + f.bit_count) f.prefix_len (omega (arith, v.prefix_fits)),
      )
      refl

write_form-IsPacked :
    (f : EncodingSchemeForm) (s : Packed) (n : ℕ)
    → IsForm f
    → IsPacked s n
    → Writes (write_form f s) (n + form_value f * 2 ^ s.pos) (s.pos + form_bits f)
unfolding write_form
write_form-IsPacked f s n v p =
    rw
      (
        ge→ltb 31 f.prefix_len v.prefix_fits,
        ge→ltb f.bit_count 1 v.some_bits,
        ge→ltb 31 f.bit_count v.bits_fit,
        form_acc-value f v,
      )
      (write_bits-IsPacked (form_bits f) (form_value f) s n (form_value-lt f v) p)

write_forms-IsPacked :
    (fs : EncodingScheme) (s : Packed) (n : ℕ)
    → All IsForm fs
    → IsPacked s n
    → Writes (write_forms fs s) (n + scheme_value fs * 2 ^ s.pos) (s.pos + scheme_bits fs)
unfolding write_forms scheme_value scheme_bits
write_forms-IsPacked [] s n vs p =
    let same : n ≡ n + 0 * 2 ^ s.pos = omega arith in
    (s, refl, subst (λ m. IsPacked s m) same p, omega arith)
write_forms-IsPacked (f ∷ fs) s n (v, vs) p =
    let (t, wrote, packed, at) = write_form-IsPacked f s n v p in
    let (s', rest, packed', at') =
      write_forms-IsPacked fs t (n + form_value f * 2 ^ s.pos) vs packed in
    let total : n + form_value f * 2 ^ s.pos + scheme_value fs * 2 ^ t.pos
        ≡ n + (form_value f + scheme_value fs * 2 ^ form_bits f) * 2 ^ s.pos =
      rw (ap (λ q. 2 ^ q) at ∙ pow_add s.pos (form_bits f)) (omega arith) in
    (s', rw wrote rest, subst (λ m. IsPacked s' m) total packed', omega (arith, at, at'))

-- The loop ends with a byte open, since every form has ten bits at least.
scheme_out :
    (f : EncodingSchemeForm) (fs : EncodingScheme) (s : Packed)
    → serialize_scheme (f ∷ fs) ≡ ok s.result_vec
    → IsPacked s (0 + scheme_value (f ∷ fs) * 1)
    → s.pos ≡ 0 + scheme_bits (f ∷ fs)
    → (bytes : List ℕ) × (serialize_scheme (f ∷ fs) ≡ ok bytes)
      × IsBytes bytes
      × (le_value bytes ≡ scheme_value (f ∷ fs))
      × (scheme_bits (f ∷ fs) ≤ 8 * length bytes)
      × (8 * length bytes < scheme_bits (f ∷ fs) + 8)
scheme_out f fs s done (inl (e, z)) at =
    let none : s.pos ≡ 0 = ap (λ (t : Packed). t.pos) e in
    absurd (unfold scheme_bits in omega (arith, none, at))
scheme_out f fs s done (inr (front, b, r, some_bits, o)) at = (
  front ++ (b ∷ []),
  done ∙ ap ok o.vec,
  All-append _ front (b ∷ []) o.bytes (small_byte b r o.small o.within, tt),
  omega (
    arith,
    le_value-append front (b ∷ []),
    ap (λ t. 2 ^ (8 * length front) * t) (le_value-one b),
    o.value,
  ),
  omega (arith, length-append front (b ∷ []), at, o.at, o.within),
  omega (arith, length-append front (b ∷ []), at, o.at),
)

-- The bytes of a scheme are those of its number, in as few bytes as hold its bits.
pub serialize_scheme_lem :
    (f : EncodingSchemeForm) (fs : EncodingScheme)
    → All IsForm (f ∷ fs)
    → (bytes : List ℕ) × (serialize_scheme (f ∷ fs) ≡ ok bytes)
      × IsBytes bytes
      × (le_value bytes ≡ scheme_value (f ∷ fs))
      × (scheme_bits (f ∷ fs) ≤ 8 * length bytes)
      × (8 * length bytes < scheme_bits (f ∷ fs) + 8)
unfolding serialize_scheme
serialize_scheme_lem f fs vs =
    let start = inl (refl, refl) in
    let (s, wrote, packed, at) = write_forms-IsPacked (f ∷ fs) empty_packed 0 vs start in
    scheme_out f fs s (rw wrote refl) packed at
