-- ===== src/Core/Packing/RoundTrip.antt =====
-- cjdns-core/src/encoding.rs, `deserialize_scheme` on what `serialize_scheme` writes.
use cjdns_route_server.Base.{
  ℕ, zero, suc, ◌+◌, ◌-◌, ◌*◌, ◌/◌, ◌%◌, ◌^◌, ◌≤◌, ◌<◌, ◌≡◌, refl, sym, ap, ◌∙◌, arith, List, [],
  ◌∷◌, ◌++◌, append_assoc, length, IsBytes, All, ok, ge→ltb, lt→ltb, ne→==,
}
use cjdns_route_server.Base.Bits.{pow_add, div-fields, mod-fields}
use cjdns_route_server.Core.Scheme.{
  EncodingSchemeForm, EncodingScheme, form_try_new, try_new, validate,
}
use cjdns_route_server.Core.Packing.{
  read_bits, read_form, read_forms, serialize_scheme, deserialize_scheme,
}
use cjdns_route_server.Core.Packing.Bits.{le_value}
use cjdns_route_server.Core.Packing.Read.{read_bits-field}
use cjdns_route_server.Core.Packing.Serialize.{
  IsForm, form_bits, form_value, form_value-lt, scheme_bits, scheme_value, serialize_scheme_lem,
}
use cjdns_route_server.Core.Scheme.Sane.{empty-refused}
use native.Mathlib.Nat.{mod-eq_of_lt, div-div-eq-div-mul}

form_again :
    (f : EncodingSchemeForm) → IsForm f → form_try_new f.bit_count f.prefix_len f.prefix ≡ ok f
unfolding form_try_new
form_again f v =
    rw
      (
        ne→== f.bit_count 0 (λ e. omega (arith, v.some_bits)),
        ge→ltb 31 f.bit_count v.bits_fit,
        lt→ltb f.prefix_len 32 (omega (arith, v.prefix_fits)),
        ge→ltb (2 ^ f.prefix_len - 1) f.prefix (omega (arith, v.prefix_small)),
      )
      refl

-- The three fields at the bottom of a number that starts with a form.
module _ (f : EncodingSchemeForm) (v : IsForm f) (w rest : ℕ)
    (e : w ≡ form_value f + rest * 2 ^ form_bits f) where
  high : rest * 2 ^ form_bits f ≡ rest * 2 ^ f.prefix_len * 1024
  high = rw (pow_add 10 f.prefix_len) (omega arith)

  len_field : w % 2 ^ 5 ≡ f.prefix_len
  len_field = omega (arith, e, high, v.prefix_fits)

  count_field : w / 2 ^ 5 % 2 ^ 5 ≡ f.bit_count
  count_field = omega (arith, e, high, v.prefix_fits, v.bits_fit)

  prefix_field : w / 2 ^ 10 % 2 ^ f.prefix_len ≡ f.prefix
  prefix_field =
      let above : w / 2 ^ 10 ≡ rest * 2 ^ f.prefix_len + f.prefix =
        omega (arith, e, high, v.prefix_fits, v.bits_fit) in
      ap (λ t. t % 2 ^ f.prefix_len) above
      ∙ mod-fields rest (2 ^ f.prefix_len) f.prefix v.prefix_small

  rest_field : w / 2 ^ form_bits f ≡ rest
  rest_field =
      let turned : w ≡ rest * 2 ^ form_bits f + form_value f = omega (arith, e) in
      ap (λ t. t / 2 ^ form_bits f) turned
      ∙ div-fields rest (2 ^ form_bits f) (form_value f) (form_value-lt f v)

-- The bits from bit `c` on: the form that stands there, and those behind it.
module _ (xs : List ℕ) (bytes : IsBytes xs) where
  above : (c k : ℕ) → le_value xs / 2 ^ (c + k) ≡ le_value xs / 2 ^ c / 2 ^ k
  above c k =
      ap (λ m. le_value xs / m) (pow_add c k)
      ∙ sym (div-div-eq-div-mul (le_value xs) (2 ^ c) (2 ^ k))

  field :
      (c k n q x : ℕ)
      → n ≤ 32
      → q + n + c + k ≡ 8 * length xs
      → le_value xs / 2 ^ c / 2 ^ k % 2 ^ n ≡ x
      → read_bits xs q n ≡ ok x
  field c k n q x h fits e =
      let place : 8 * length xs - q - n ≡ c + k = omega arith in
      read_bits-field xs bytes q n h (omega arith) ∙ rw (place, above c k, e) refl

  read_form-step :
      (f : EncodingSchemeForm) (c p rest : ℕ)
      → IsForm f
      → c + form_bits f + p ≡ 8 * length xs
      → le_value xs / 2 ^ c ≡ form_value f + rest * 2 ^ form_bits f
      → read_form xs (form_bits f + p) ≡ ok (f, p)
  unfolding read_form
  read_form-step f c p rest v fits e =
      let w = le_value xs / 2 ^ c in
      let p1 : form_bits f + p - 5 ≡ 5 + f.prefix_len + p = omega arith in
      let p2 : 5 + f.prefix_len + p - 5 ≡ f.prefix_len + p = omega arith in
      let p3 : f.prefix_len + p - f.prefix_len ≡ p = omega arith in
      let whole : w / 2 ^ 0 % 2 ^ 5 ≡ w % 2 ^ 5 = omega arith in
      rw
        (
          ge→ltb (form_bits f + p) 5 (omega arith),
          p1,
          field c 0 5 (5 + f.prefix_len + p) f.prefix_len (omega arith) (omega arith)
              (whole ∙ len_field f v w rest e),
          ge→ltb (5 + f.prefix_len + p) 5 (omega arith),
          p2,
          field c 5 5 (f.prefix_len + p) f.bit_count (omega arith) (omega arith)
              (count_field f v w rest e),
          ge→ltb (f.prefix_len + p) f.prefix_len (omega arith),
          p3,
          mod-eq_of_lt {n = f.prefix_len} {m = 256} (omega (arith, v.prefix_fits)),
          mod-eq_of_lt {n = f.bit_count} {m = 256} (omega (arith, v.bits_fit)),
          field c 10 f.prefix_len p f.prefix (omega (arith, v.prefix_fits)) (omega arith)
              (prefix_field f v w rest e),
          form_again f v,
        )
        refl

  read_forms_again :
      (f : EncodingSchemeForm) (fs before : EncodingScheme) (fuel c p : ℕ)
      → All IsForm (f ∷ fs)
      → length (f ∷ fs) ≤ fuel
      → p < 8
      → c + (scheme_bits (f ∷ fs) + p) ≡ 8 * length xs
      → le_value xs / 2 ^ c ≡ scheme_value (f ∷ fs)
      → read_forms fuel xs (scheme_bits (f ∷ fs) + p) before ≡ ok (before ++ (f ∷ fs))
  unfolding read_forms scheme_bits scheme_value
  read_forms_again f fs before zero c p vs enough small at e = absurd (omega arith)
  read_forms_again f [] before (suc fuel) c p (v, vs) enough small at e =
      let q : form_bits f + 0 + p ≡ form_bits f + p = omega arith in
      rw (q, read_form-step f c p 0 v (omega arith) e, lt→ltb p 10 (omega arith)) refl
  read_forms_again f (g ∷ fs) before (suc fuel) c p (v, vs) enough small at e =
      let left = scheme_bits (g ∷ fs) + p in
      let q : form_bits f + scheme_bits (g ∷ fs) + p ≡ form_bits f + left = omega arith in
      let next : le_value xs / 2 ^ (c + form_bits f) ≡ scheme_value (g ∷ fs) =
        above c (form_bits f) ∙ rest_field f v (le_value xs / 2 ^ c) (scheme_value (g ∷ fs)) e in
      rw
        (
          q,
          read_form-step f c left (scheme_value (g ∷ fs)) v (omega arith) e,
          ge→ltb left 10 (omega arith),
          read_forms_again g fs (before ++ (f ∷ [])) fuel (c + form_bits f) p vs (omega arith) small
              (omega arith) next,
          append_assoc,
        )
        refl

length-le_bits : (fs : EncodingScheme) → length fs * 10 ≤ scheme_bits fs
unfolding scheme_bits
length-le_bits [] = omega arith
length-le_bits (f ∷ fs) = omega (arith, length-le_bits fs)

deserialize_bytes :
    (f : EncodingSchemeForm) (fs : EncodingScheme) (bytes : List ℕ)
    → All IsForm (f ∷ fs)
    → validate (f ∷ fs) ≡ ok tt
    → IsBytes bytes
    → le_value bytes ≡ scheme_value (f ∷ fs)
    → scheme_bits (f ∷ fs) ≤ 8 * length bytes
    → 8 * length bytes < scheme_bits (f ∷ fs) + 8
    → deserialize_scheme bytes ≡ ok (f ∷ fs)
unfolding deserialize_scheme try_new
deserialize_bytes f fs bytes vs valid is_bytes value fits tight =
    let p = 8 * length bytes - scheme_bits (f ∷ fs) in
    let size : length bytes * 8 ≡ scheme_bits (f ∷ fs) + p = omega arith in
    let some_bits = length-le_bits (f ∷ fs) in
    let all : le_value bytes / 2 ^ 0 ≡ scheme_value (f ∷ fs) = omega (arith, value) in
    rw
      (
        ge→ltb (length bytes) 2 (omega arith),
        size,
        read_forms_again bytes is_bytes f fs [] (scheme_bits (f ∷ fs) + p) 0 p vs (omega arith)
            (omega arith) (omega arith) all,
        valid,
      )
      refl

-- A valid scheme, of forms that `EncodingSchemeForm::try_new` makes, is serialized without an
-- error or a panic, and what is serialized is read back as the same scheme.
pub deserialize_scheme-serialize_scheme :
    (scheme : EncodingScheme)
    → All IsForm scheme
    → validate scheme ≡ ok tt
    → (bytes : List ℕ) × (serialize_scheme scheme ≡ ok bytes)
      × IsBytes bytes
      × (deserialize_scheme bytes ≡ ok scheme)
deserialize_scheme-serialize_scheme [] vs valid = absurd (empty-refused valid)
deserialize_scheme-serialize_scheme (f ∷ fs) vs valid =
    let (bytes, done, is_bytes, value, fits, tight) = serialize_scheme_lem f fs vs in
    (bytes, done, is_bytes, deserialize_bytes f fs bytes vs valid is_bytes value fits tight)
