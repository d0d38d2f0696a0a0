-- ===== src/Core/Scheme/Sane.antt =====
-- The schemes that validation accepts, described without its loop.
use cjdns_route_server.Base.{
  ℕ, ◌+◌, ◌≤◌, ◌≡◌, ◌≢◌, ◌↔◌, refl, sym, ◌∙◌, arith, false, List, [], ◌∷◌, length, All, ok, ne→==,
  ge→ltb,
}
use cjdns_route_server.Core.Scheme.{
  EncodingSchemeForm, EncodingScheme, size_bits, contains, validate_loop, validate_single, validate,
}

-- A form of a scheme of several forms: a prefix of 1 to 31 bits, and at most 59 bits in all.
pub record IsMulti (f : EncodingSchemeForm) : Type 0 where
  pub some_prefix : 1 ≤ f.prefix_len
  pub prefix_fits : f.prefix_len ≤ 31
  pub size_fits : f.bit_count + f.prefix_len ≤ 59

-- The bit counts do not decrease, and none is below `last`.
abbrev pub Ascending : ℕ → EncodingScheme → Type 0
Ascending last [] = Unit
Ascending last (f ∷ fs) = (last ≤ f.bit_count) × Ascending f.bit_count fs

-- No two forms have the same prefix.
abbrev pub DistinctPrefixes : EncodingScheme → Type 0
DistinctPrefixes [] = Unit
DistinctPrefixes (f ∷ fs) = All (λ g. f.prefix ≢ g.prefix) fs × DistinctPrefixes fs

-- One form without a prefix, or 2 to 31 forms that can be told apart by the values of their prefixes.
abbrev pub IsSane : EncodingScheme → Type 0
IsSane [] = ⊥
IsSane (f ∷ []) = (f.prefix_len ≡ 0) × (f.prefix ≡ 0)
IsSane (f ∷ g ∷ fs) =
    (length (f ∷ g ∷ fs) ≤ 31)
    × All IsMulti (f ∷ g ∷ fs)
    × Ascending 0 (f ∷ g ∷ fs)
    × DistinctPrefixes (f ∷ g ∷ fs)

contains-head :
    (p x : ℕ) (used : List ℕ) → contains (p ∷ used) x ≡ false → (p ≢ x) × (contains used x ≡ false)
unfolding contains
contains-head p x used h = ground arith

head-contains :
    (p x : ℕ) (used : List ℕ) → p ≢ x → contains used x ≡ false → contains (p ∷ used) x ≡ false
unfolding contains
head-contains p x used ne h = rw (ne→== p x ne) h

-- The prefixes that were used are not those of the forms.
abbrev Fresh : List ℕ → EncodingScheme → Type 0
Fresh used fs = All (λ g. contains used g.prefix ≡ false) fs

Fresh-split :
    (p : ℕ) (used : List ℕ) (fs : EncodingScheme)
    → Fresh (p ∷ used) fs
    → All (λ g. p ≢ g.prefix) fs × Fresh used fs
Fresh-split p used [] h = (tt, tt)
Fresh-split p used (g ∷ gs) (h, hs) =
    let (ne, old) = contains-head p g.prefix used h in
    let (nes, olds) = Fresh-split p used gs hs in ((ne, nes), (old, olds))

Fresh-join :
    (p : ℕ) (used : List ℕ) (fs : EncodingScheme)
    → All (λ g. p ≢ g.prefix) fs
    → Fresh used fs
    → Fresh (p ∷ used) fs
Fresh-join p used [] h k = tt
Fresh-join p used (g ∷ gs) (h, hs) (k, ks) =
    (head-contains p g.prefix used h k, Fresh-join p used gs hs ks)

-- What one round of the loop asks for.
step_sound :
    (last : ℕ) (used : List ℕ) (f : EncodingSchemeForm) (fs : EncodingScheme)
    → validate_loop last used (f ∷ fs) ≡ ok tt
    → IsMulti f
      × (last ≤ f.bit_count)
      × (contains used f.prefix ≡ false)
      × (validate_loop f.bit_count (f.prefix ∷ used) fs ≡ ok tt)
unfolding validate_loop size_bits
step_sound last used f fs h = ground arith

step_complete :
    (last : ℕ) (used : List ℕ) (f : EncodingSchemeForm) (fs : EncodingScheme)
    → IsMulti f
    → last ≤ f.bit_count
    → contains used f.prefix ≡ false
    → validate_loop f.bit_count (f.prefix ∷ used) fs ≡ ok tt
    → validate_loop last used (f ∷ fs) ≡ ok tt
unfolding validate_loop size_bits
step_complete last used f fs v asc fresh rest =
    rw
      (
        ne→== f.prefix_len 0 (λ e. omega (arith, v.some_prefix)),
        ge→ltb 31 f.prefix_len v.prefix_fits,
        ge→ltb f.bit_count last asc,
        ge→ltb 59 (f.bit_count + f.prefix_len) v.size_fits,
        fresh,
      )
      rest

loop_sound :
    (last : ℕ) (used : List ℕ) (fs : EncodingScheme)
    → validate_loop last used fs ≡ ok tt
    → All IsMulti fs × Ascending last fs × DistinctPrefixes fs × Fresh used fs
loop_sound last used [] h = (tt, tt, tt, tt)
loop_sound last used (f ∷ fs) h =
    let (v, asc, fresh, rest) = step_sound last used f fs h in
    let (vs, ascs, distinct, both) = loop_sound f.bit_count (f.prefix ∷ used) fs rest in
    let (nes, olds) = Fresh-split f.prefix used fs both in
    ((v, vs), (asc, ascs), (nes, distinct), (fresh, olds))

loop_complete :
    (last : ℕ) (used : List ℕ) (fs : EncodingScheme)
    → All IsMulti fs
    → Ascending last fs
    → DistinctPrefixes fs
    → Fresh used fs
    → validate_loop last used fs ≡ ok tt
loop_complete last used [] vs ascs ds olds = unfold validate_loop in refl
loop_complete last used (f ∷ fs) (v, vs) (asc, ascs) (d, ds) (old, olds) =
    step_complete last used f fs v asc old (
      loop_complete f.bit_count (f.prefix ∷ used) fs vs ascs ds
        (Fresh-join f.prefix used fs d olds))

nothing_used : (fs : EncodingScheme) → Fresh [] fs
unfolding contains
nothing_used [] = tt
nothing_used (f ∷ fs) = (refl, nothing_used fs)

single-IsSane : (f : EncodingSchemeForm) → (validate (f ∷ []) ≡ ok tt) ↔ IsSane (f ∷ [])
unfolding validate validate_single
single-IsSane f = (λ h. ground arith, λ h. ground arith)

pub empty-refused : validate [] ≢ ok tt
unfolding validate
empty-refused h = cc

-- Two or more forms go through the loop, if they are not too many.
module _ (f g : EncodingSchemeForm) (fs : EncodingScheme) where
  validate-loop : length (f ∷ g ∷ fs) ≤ 31 → validate (f ∷ g ∷ fs) ≡ validate_loop 0 [] (f ∷ g ∷ fs)
  unfolding validate
  validate-loop h =
      rw
        (
          ne→== (length (f ∷ g ∷ fs)) 0 (λ e. omega arith),
          ge→ltb 31 (length (f ∷ g ∷ fs)) h,
          ne→== (length (f ∷ g ∷ fs)) 1 (λ e. omega arith),
        )
        refl

  validate-length : validate (f ∷ g ∷ fs) ≡ ok tt → length (f ∷ g ∷ fs) ≤ 31
  unfolding validate
  validate-length h = ground arith

  multi_sound : validate (f ∷ g ∷ fs) ≡ ok tt → IsSane (f ∷ g ∷ fs)
  multi_sound h =
      let short = validate-length h in
      let (vs, ascs, ds, olds) = loop_sound 0 [] (f ∷ g ∷ fs) (sym (validate-loop short) ∙ h) in
      (short, vs, ascs, ds)

  multi_complete : IsSane (f ∷ g ∷ fs) → validate (f ∷ g ∷ fs) ≡ ok tt
  multi_complete (short, vs, ascs, ds) =
      validate-loop short ∙ loop_complete 0 [] (f ∷ g ∷ fs) vs ascs ds (nothing_used (f ∷ g ∷ fs))

-- Validation accepts a list of forms exactly where it is sane: one form without a prefix, or 2 to
-- 31 forms with prefixes of 1 to 31 bits and different values, of at most 59 bits each, and with
-- bit counts that do not decrease. It does not ask that a bit count is 1 to 31: that is the test of
-- `EncodingSchemeForm::try_new`.
pub validate-IsSane : (forms : EncodingScheme) → (validate forms ≡ ok tt) ↔ IsSane forms
validate-IsSane [] = (λ h. absurd (empty-refused h), λ h. absurd h)
validate-IsSane (f ∷ []) = single-IsSane f
validate-IsSane (f ∷ g ∷ fs) = (multi_sound f g fs, multi_complete f g fs)
