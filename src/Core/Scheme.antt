-- ===== src/Core/Scheme.antt =====
-- cjdns-core/src/encoding.rs, `encoding_scheme` and `errors`: the forms of an encoding scheme and
-- their validation. A scheme is the list of its forms.
pub mod Sane
use cjdns_route_server.Base.{
  ℕ, ◌+◌, ◌-◌, ◌^◌, Bool, true, false, not, ◌&&◌, ◌||◌, List, [], ◌∷◌, length, get_elem?, ltb, ◌==◌,
  if◌then◌else◌,
}
use cjdns_route_server.Base.{Result, ok, ◌>>=◌, ◌>>◌, fail_if, assert, expect}

pub data FormValidationError : Type 0 where
  bad_bit_count invalid_prefix_data : FormValidationError

pub data SchemeValidationError : Type 0 where
  invalid_forms_amount single_form_with_prefix multi_form_bad_prefix : SchemeValidationError
  bit_count_not_sorted duplicate_prefix too_big_form : SchemeValidationError

pub record EncodingSchemeForm : Type 0 where
  pub bit_count : ℕ
  pub prefix_len : ℕ
  pub prefix : ℕ

abbrev pub EncodingScheme : Type 0
EncodingScheme = List EncodingSchemeForm

abbrev pub form_max_bit_size : ℕ
form_max_bit_size = 59

-- `EncodingSchemeForm::try_new`; the shift `1 << prefix_len` of a `u32` panics from 32 on.
unfoldable pub form_try_new : ℕ → ℕ → ℕ → Result FormValidationError EncodingSchemeForm
form_try_new bit_count prefix_len prefix = do
  fail_if (bit_count == 0 || ltb 31 bit_count) bad_bit_count
  assert (ltb prefix_len 32)
  fail_if (ltb (2 ^ prefix_len - 1) prefix) invalid_prefix_data
  ok (record { bit_count = bit_count; prefix_len = prefix_len; prefix = prefix })

unfoldable pub params : EncodingSchemeForm → ℕ × ℕ × ℕ
params f = (f.bit_count, f.prefix_len, f.prefix)

-- A `u8` sum; both parts of a form are at most 31.
unfoldable pub size_bits : EncodingSchemeForm → ℕ
size_bits f = f.bit_count + f.prefix_len

-- `HashSet::contains`
unfoldable pub contains : List ℕ → ℕ → Bool
contains [] x = false
contains (y ∷ ys) x = y == x || contains ys x

-- The loop of `validate` over the forms that are left.
unfoldable pub validate_loop :
    ℕ → List ℕ → List EncodingSchemeForm → Result SchemeValidationError (Unit {0})
validate_loop last_bit_count used_prefixes [] = ok tt
validate_loop last_bit_count used_prefixes (form ∷ forms) = do
  fail_if (form.prefix_len == 0 || ltb 31 form.prefix_len) multi_form_bad_prefix
  fail_if (ltb form.bit_count last_bit_count) bit_count_not_sorted
  fail_if (ltb form_max_bit_size (size_bits form)) too_big_form
  fail_if (contains used_prefixes form.prefix) duplicate_prefix
  validate_loop form.bit_count (form.prefix ∷ used_prefixes) forms

unfoldable pub validate_single : EncodingSchemeForm → Result SchemeValidationError (Unit {0})
validate_single form = do
  fail_if (not (form.prefix_len == 0) || not (form.prefix == 0)) single_form_with_prefix
  ok tt

unfoldable pub validate : List EncodingSchemeForm → Result SchemeValidationError (Unit {0})
validate forms = do
  fail_if (length forms == 0 || ltb 31 (length forms)) invalid_forms_amount
  if length forms == 1
      then expect (get_elem? forms 0) >>= validate_single
      else validate_loop 0 [] forms

unfoldable pub try_new : List EncodingSchemeForm → Result SchemeValidationError EncodingScheme
try_new forms = do validate forms; ok forms

-- `==` on forms, derived.
unfoldable pub form_eq : EncodingSchemeForm → EncodingSchemeForm → Bool
form_eq f g = f.bit_count == g.bit_count && f.prefix_len == g.prefix_len && f.prefix == g.prefix

-- `==` on schemes, derived.
unfoldable pub scheme_eq : EncodingScheme → EncodingScheme → Bool
scheme_eq [] [] = true
scheme_eq [] (g ∷ gs) = false
scheme_eq (f ∷ fs) [] = false
scheme_eq (f ∷ fs) (g ∷ gs) = form_eq f g && scheme_eq fs gs

abbrev form : ℕ → ℕ → ℕ → EncodingSchemeForm
form bit_count prefix_len prefix = record {
  bit_count = bit_count;
  prefix_len = prefix_len;
  prefix = prefix;
}

-- The well-known schemes.
abbrev pub f4 : EncodingScheme
f4 = form 4 0 0 ∷ []

abbrev pub f8 : EncodingScheme
f8 = form 8 0 0 ∷ []

abbrev pub v48 : EncodingScheme
v48 = form 4 1 0b01 ∷ form 8 1 0b00 ∷ []

abbrev pub v358_0 : EncodingSchemeForm
v358_0 = form 3 1 0b01

abbrev pub v358_1 : EncodingSchemeForm
v358_1 = form 5 2 0b10

abbrev pub v358 : EncodingScheme
v358 = v358_0 ∷ v358_1 ∷ form 8 2 0b00 ∷ []

abbrev pub v37 : EncodingScheme
v37 = form 3 1 0b01 ∷ form 7 1 0b00 ∷ []

abbrev pub all_schemes : List EncodingScheme
all_schemes = f4 ∷ f8 ∷ v48 ∷ v358 ∷ v37 ∷ []
