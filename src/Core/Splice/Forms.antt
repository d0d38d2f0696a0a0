-- ===== src/Core/Splice/Forms.antt =====
-- Which form `get_encoding_form` finds.
use Prim.Native.Nat.{bit_and}
use native.Mathlib.Decide.{ℕ_discrete}
use cjdns_route_server.Base.{
  ℕ, suc, ◌+◌, ◌-◌, ◌%◌, ◌^◌, ◌≡◌, ◌≢◌, refl, sym, ◌∙◌, arith, [], ◌∷◌, take, get_elem?, All, some,
  Result, ok, ◌⊎◌, inl, inr,
}
use cjdns_route_server.Base.Bits.{bit_and_mask}
use cjdns_route_server.Core.Label.{LabelBits, RoutingLabel}
use cjdns_route_server.Core.Scheme.{
  EncodingSchemeForm, EncodingScheme, size_bits, contains, validate_loop, validate,
}
use cjdns_route_server.Core.Splice.{get_encoding_form_from, get_encoding_form, SpliceError}

abbrev answer : EncodingSchemeForm → ℕ → Result SpliceError (EncodingSchemeForm × ℕ)
answer f i = ok (f, i)

module _ (L : LabelBits) (label : RoutingLabel L) where
  -- The label ends in the prefix of the form, or the form has none.
  abbrev pub Matches : EncodingSchemeForm → Type 0
  Matches f = (f.prefix_len ≡ 0) ⊎ (label.bits % 2 ^ f.prefix_len ≡ f.prefix)

  abbrev pub Misses : EncodingSchemeForm → Type 0
  Misses f = (f.prefix_len ≢ 0) × (label.bits % 2 ^ f.prefix_len ≢ f.prefix)

  -- The form at place `n` of the scheme matches, and none before it does.
  abbrev pub IsFirst : EncodingScheme → ℕ → EncodingSchemeForm → Type 0
  IsFirst scheme n f = (get_elem? scheme n ≡ some f) × Matches f × All Misses (take n scheme)

  abbrev Finds : ℕ → EncodingScheme → EncodingSchemeForm → ℕ → Type 0
  Finds i scheme f k = (n : ℕ) × (k ≡ i + n) × IsFirst scheme n f

  hit :
      (i : ℕ) (g : EncodingSchemeForm) (gs : EncodingScheme) (f : EncodingSchemeForm) (k : ℕ)
      → Matches g
      → answer g i ≡ answer f k
      → Finds i (g ∷ gs) f k
  hit i g gs f k m h =
      let form : g ≡ f = cc in let place : i ≡ k = cc in rw (← form) (0, omega arith, (refl, m, tt))

  miss :
      (i : ℕ) (g : EncodingSchemeForm) (gs : EncodingScheme) (f : EncodingSchemeForm) (k : ℕ)
      → Misses g
      → Finds (i + 1) gs f k
      → Finds i (g ∷ gs) f k
  miss i g gs f k m (n, place, (found, matches, missed)) =
      (suc n, omega arith, (found, matches, (m, missed)))

  from-IsFirst :
      (i : ℕ) (scheme : EncodingScheme) (f : EncodingSchemeForm) (k : ℕ)
      → get_encoding_form_from L label i scheme ≡ ok (f, k)
      → Finds i scheme f k
  unfolding get_encoding_form_from
  from-IsFirst i [] f k h = cc
  from-IsFirst i (g ∷ gs) f k h = elim (ℕ_discrete g.prefix_len 0) as (λ _. Finds i (g ∷ gs) f k) [
    | yes none_needed ↦ hit i g gs f k (inl none_needed) (ground arith)
    | no some_prefix ↦
        elim (ℕ_discrete (bit_and label.bits (2 ^ g.prefix_len - 1)) g.prefix)
          as (λ _. Finds i (g ∷ gs) f k) [
            | yes same ↦
                hit i g gs f k (inr (sym (bit_and_mask g.prefix_len label.bits) ∙ same))
                  (ground arith)
            | no other ↦
                miss i g gs f k (some_prefix, λ e. other (bit_and_mask g.prefix_len label.bits ∙ e))
                  (from-IsFirst (i + 1) gs f k (ground arith))
          ]
  ]

  -- The form that `get_encoding_form` finds stands in the scheme at the index that it returns, the
  -- label ends in its prefix or it has none, and the label ends in the prefix of no form before it.
  pub get_encoding_form-IsFirst :
      (scheme : EncodingScheme) (f : EncodingSchemeForm) (i : ℕ)
      → get_encoding_form L label scheme ≡ ok (f, i)
      → IsFirst scheme i f
  unfolding get_encoding_form
  get_encoding_form-IsFirst scheme f i h =
      let (n, place, first) = from-IsFirst 0 scheme f i h in
      let same : i ≡ n = omega arith in rw same first

abbrev pub first_form : EncodingSchemeForm
first_form = record { bit_count = 3; prefix_len = 1; prefix = 0b1 }

abbrev pub hidden_form : EncodingSchemeForm
hidden_form = record { bit_count = 5; prefix_len = 2; prefix = 0b11 }

-- Validation accepts the scheme of the forms (3, 1, 0b1) and (5, 2, 0b11), whose prefixes have
-- different values, but no label at all is found to use its second form.
pub validate-get_encoding_form :
    (L : LabelBits) (label : RoutingLabel L)
    → (validate (first_form ∷ hidden_form ∷ []) ≡ ok tt)
      × (get_encoding_form L label (first_form ∷ hidden_form ∷ []) ≢ ok (hidden_form, 1))
unfolding validate validate_loop size_bits contains
validate-get_encoding_form L label = (
  refl,
  λ h.
      let (found, matches, (missed, none_left)) =
        get_encoding_form-IsFirst L label (first_form ∷ hidden_form ∷ []) hidden_form 1 h in
      elim matches [ inl none_needed ↦ absurd (omega arith) | inr same ↦ missed.1 (omega arith) ],
)
