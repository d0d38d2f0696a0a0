-- ===== src/Core/Packing/Malformed.antt =====
-- cjdns-core/src/encoding.rs, `deserialize_scheme` on bytes that no scheme is serialized to.
use cjdns_route_server.Base.{
  ℕ, zero, suc, ◌+◌, ◌-◌, ◌*◌, ◌/◌, ◌%◌, ◌^◌, ◌≤◌, ◌<◌, ◌≡◌, ◌⊎◌, inl, inr, refl, sym, ap, ◌∙◌,
  arith, List, [], ◌∷◌, ◌++◌, IsBytes, Result, ok, err, panic, ge→ltb, lt→ltb,
}
use cjdns_route_server.Core.Scheme.{EncodingSchemeForm, EncodingScheme, form_try_new}
use cjdns_route_server.Core.Packing.{
  read_bits, read_form, read_forms, deserialize_scheme, EncodingSerializationError,
}
use cjdns_route_server.Core.Packing.Bits.{le_value}
use native.Mathlib.Decide.{dec_le}
use native.Mathlib.Nat.{mod-eq_of_lt}
use cjdns_route_server.Core.Packing.Read.{read_bits-field}

-- A round that ends with a form takes ten bits at least.
read_form-shorter :
    (xs : List ℕ) (p q : ℕ) (f : EncodingSchemeForm) → read_form xs p ≡ ok (f, q) → q + 10 ≤ p
unfolding read_form
read_form-shorter xs p q f h = ground arith

read_forms-zero : (n : ℕ) (xs : List ℕ) (before : EncodingScheme) → read_forms n xs 0 before ≡ panic
unfolding read_forms read_form
read_forms-zero zero xs before = refl
read_forms-zero (suc n) xs before = refl

same_round :
    (n m : ℕ) (xs : List ℕ) (p : ℕ) (before : EncodingScheme)
    → (r : Result EncodingSerializationError (EncodingSchemeForm × ℕ)) → read_form xs p ≡ r
    → ((q : ℕ) (bs : EncodingScheme) → q ≤ n → q ≤ m → read_forms n xs q bs ≡ read_forms m xs q bs)
    → p ≤ suc n
    → p ≤ suc m
    → read_forms (suc n) xs p before ≡ read_forms (suc m) xs p before
unfolding read_forms
same_round n m xs p before (ok (f, q)) e rest h k =
    let less = read_form-shorter xs p q f e in
    rw (e, rest q (before ++ (f ∷ [])) (omega arith) (omega arith)) refl
same_round n m xs p before (err x) e rest h k = rw e refl
same_round n m xs p before panic e rest h k = rw e refl

-- The fuel of the loop does not matter once it is as large as the number of bits that are left:
-- the loop of `deserialize_scheme` ends for all bytes.
pub read_forms_ends :
    (n m : ℕ) (xs : List ℕ) (p : ℕ) (before : EncodingScheme)
    → p ≤ n
    → p ≤ m
    → read_forms n xs p before ≡ read_forms m xs p before
read_forms_ends zero m xs p before h k =
    let done : p ≡ 0 = omega arith in
    rw (done, read_forms-zero m xs before) (read_forms-zero 0 xs before)
read_forms_ends (suc n) zero xs p before h k =
    let done : p ≡ 0 = omega arith in
    rw (done, read_forms-zero (suc n) xs before) (sym (read_forms-zero 0 xs before))
read_forms_ends (suc n) (suc m) xs p before h k =
    same_round n m xs p before (read_form xs p) refl (λ q. read_forms_ends n m xs q) h k

module _ (a b : ℕ) (bytes : IsBytes (a ∷ b ∷ [])) where
  two-field :
      (q n : ℕ)
      → n ≤ 32
      → q + n ≤ 16
      → read_bits (a ∷ b ∷ []) q n ≡ ok ((a + 256 * b) / 2 ^ (16 - q - n) % 2 ^ n)
  unfolding le_value
  two-field q n h k =
      let value : a + 256 * (b + 256 * 0) ≡ a + 256 * b = omega arith in
      rw (sym value) (read_bits-field (a ∷ b ∷ []) bytes q n h k)

  len_field : read_bits (a ∷ b ∷ []) 11 5 ≡ ok (a % 32)
  len_field = two-field 11 5 (omega arith) (omega arith) ∙ ap ok (omega arith)

  long-panics : 6 < a % 32 → deserialize_scheme (a ∷ b ∷ []) ≡ panic
  unfolding deserialize_scheme read_forms read_form
  long-panics h =
      rw (len_field, two-field 6 5 (omega arith) (omega arith), lt→ltb 6 (a % 32) h) refl

  empty-panics : a % 32 ≤ 6 → (a + 256 * b) / 32 % 32 ≡ 0 → deserialize_scheme (a ∷ b ∷ []) ≡ panic
  unfolding deserialize_scheme read_forms read_form form_try_new
  empty-panics h e =
      rw
        (
          len_field,
          two-field 6 5 (omega arith) (omega arith),
          e,
          ge→ltb 6 (a % 32) h,
          mod-eq_of_lt {n = a % 32} {m = 256} (omega arith),
          two-field (6 - a % 32) (a % 32) (omega arith) (omega arith),
        )
        refl

  -- Two bytes whose form has a prefix that is longer than the six bits that are left for it, or a
  -- bit count of zero, are not refused with an error: `deserialize_scheme` panics on them.
  pub deserialize_scheme-panics :
      (6 < a % 32) ⊎ ((a + 256 * b) / 32 % 32 ≡ 0) → deserialize_scheme (a ∷ b ∷ []) ≡ panic
  deserialize_scheme-panics (inl h) = long-panics h
  deserialize_scheme-panics (inr e) = elim (dec_le (a % 32) 6) [
    | yes h ↦ empty-panics h e
    | no more ↦ long-panics (omega arith)
  ]
