-- ===== src/Core/Splice/Examples.antt =====
-- The theorems on labels at labels of the documentation's examples.
use cjdns_route_server.Base.{
  ◌+◌, ◌^◌, ◌≤◌, ◌<◌, ◌≡◌, ◌≢◌, ◌↔◌, refl, arith, true, some, [], ◌∷◌, ok, err, false,
}
use cjdns_route_server.Core.Label.{
  bit_size, max_payload_bits, u64, IsLabel, highest_set_bit, leading_zeros, try_new,
}
use cjdns_route_server.Core.Label.Bits.{top_bit}
use cjdns_route_server.Core.Scheme.{
  validate, EncodingSchemeForm, v48, v358, v358_0, v358_1, form_eq, scheme_eq,
}
use cjdns_route_server.Core.Splice.{
  splice, splice_loop, label_highest_set_bit, label_too_long, routes_through, unsplice, re_encode,
  get_encoding_form, get_encoding_form_from,
}
use cjdns_route_server.Core.Splice.Laws.{follow_all, path_bits}
use cjdns_route_server.Core.Splice.Paths.{label, splice-fits, splice-too_long}
use cjdns_route_server.Core.Splice.Inverse.{unsplice-splice, splice-unsplice, splice_assoc}
use cjdns_route_server.Core.Splice.Layout.{laid_out, used_bits}
use cjdns_route_server.Core.Scheme.Sane.{IsSane, validate-IsSane}
use cjdns_route_server.Core.Splice.Forms.{
  IsFirst, get_encoding_form-IsFirst, first_form, hidden_form, validate-get_encoding_form,
}
use cjdns_route_server.Core.Splice.ReEncode.{re_encode_lem, re_encode_back}
use cjdns_route_server.Core.Splice.Legacy.{re_encode-358, re_encode-358_collision}

a-IsLabel : IsLabel u64 (label u64 0x15)
a-IsLabel = omega arith

b-IsLabel : IsLabel u64 (label u64 0x13)
b-IsLabel = omega arith

d-IsLabel : IsLabel u64 (label u64 0x153)
d-IsLabel = omega arith

long-IsLabel : IsLabel u64 (label u64 0x0400000000001111)
long-IsLabel = omega arith

joined : splice u64 (label u64 0x15 ∷ label u64 0x13 ∷ []) ≡ ok (label u64 0x153)
unfolding splice splice_loop label_highest_set_bit highest_set_bit leading_zeros try_new
joined = refl

joined_again : splice u64 (label u64 0x13 ∷ label u64 0x15 ∷ []) ≡ ok (label u64 0x135)
unfolding splice splice_loop label_highest_set_bit highest_set_bit leading_zeros try_new
joined_again = refl

taken_off : unsplice u64 (label u64 0x153) (label u64 0x13) ≡ ok (label u64 0x15)
unfolding unsplice routes_through label_highest_set_bit highest_set_bit leading_zeros try_new
taken_off = refl

unsplice-splice_example :
    (routes_through u64 (label u64 0x153) (label u64 0x13) ≡ ok true)
    × (unsplice u64 (label u64 0x153) (label u64 0x13) ≡ ok (label u64 0x15))
unsplice-splice_example =
    unsplice-splice u64 (label u64 0x15) (label u64 0x13) (label u64 0x153) a-IsLabel b-IsLabel
      joined

short : top_bit u64 0x153 < 60
unfolding top_bit highest_set_bit leading_zeros
short = omega arith

splice-unsplice_example : splice u64 (label u64 0x15 ∷ label u64 0x13 ∷ []) ≡ ok (label u64 0x153)
splice-unsplice_example =
    splice-unsplice u64 (label u64 0x153) (label u64 0x13) (label u64 0x15) d-IsLabel b-IsLabel
      short taken_off

splice_assoc_example :
    splice u64 (label u64 0x15 ∷ label u64 0x135 ∷ [])
    ≡ splice u64 (label u64 0x153 ∷ label u64 0x15 ∷ [])
splice_assoc_example =
    splice_assoc u64 (label u64 0x15) (label u64 0x13) (label u64 0x15) (label u64 0x153)
      (label u64 0x135) a-IsLabel b-IsLabel a-IsLabel joined joined_again

short_path : top_bit u64 0x15 + path_bits u64 (label u64 0x13 ∷ []) < 60
unfolding top_bit highest_set_bit leading_zeros
short_path = omega arith

splice-fits_example :
    (splice u64 (label u64 0x15 ∷ label u64 0x13 ∷ [])
      ≡ ok (label u64 (follow_all u64 0x15 (label u64 0x13 ∷ []))))
    × IsLabel u64 (label u64 (follow_all u64 0x15 (label u64 0x13 ∷ [])))
splice-fits_example =
    splice-fits u64 (label u64 0x15) (label u64 0x13) [] a-IsLabel (b-IsLabel, tt) short_path

long_path : 60 ≤ top_bit u64 0x0400000000001111 + path_bits u64 (label u64 0x15 ∷ [])
unfolding top_bit highest_set_bit leading_zeros
long_path = omega arith

splice-too_long_example :
    splice u64 (label u64 0x0400000000001111 ∷ label u64 0x15 ∷ []) ≡ err label_too_long
splice-too_long_example =
    splice-too_long u64 (label u64 0x0400000000001111) (label u64 0x15) [] long-IsLabel
      (a-IsLabel, tt) long_path

abbrev form_4 : EncodingSchemeForm
form_4 = record { bit_count = 4; prefix_len = 1; prefix = 0b01 }

abbrev form_8 : EncodingSchemeForm
form_8 = record { bit_count = 8; prefix_len = 1; prefix = 0b00 }

other_scheme : scheme_eq v48 v358 ≡ false
unfolding scheme_eq form_eq
other_scheme = refl

fits_4 : laid_out 1 2 form_4 < 2 ^ bit_size u64
unfolding laid_out
fits_4 = omega arith

short_4 : used_bits u64 1 form_4 ≤ max_payload_bits u64
unfolding top_bit highest_set_bit leading_zeros
short_4 = omega arith

short_8 : used_bits u64 1 form_8 ≤ max_payload_bits u64
unfolding top_bit highest_set_bit leading_zeros
short_8 = omega arith

found_4 : get_encoding_form u64 (label u64 (laid_out 1 2 form_4)) v48 ≡ ok (form_4, 0)
unfolding get_encoding_form get_encoding_form_from laid_out
found_4 = refl

found_8 : get_encoding_form u64 (label u64 (laid_out 1 2 form_8)) v48 ≡ ok (form_8, 1)
unfolding get_encoding_form get_encoding_form_from laid_out
found_8 = refl

re_encode_lem_example :
    re_encode u64 (label u64 (laid_out 1 2 form_4)) v48 (some 1)
    ≡ ok (label u64 (laid_out 1 2 form_8))
re_encode_lem_example =
    re_encode_lem u64 1 2 0 1 v48 form_4 form_8 other_scheme (omega arith) (omega arith)
      (omega arith) fits_4 short_8 found_4 (omega arith) refl

re_encode_back_example :
    re_encode u64 (label u64 (laid_out 1 2 form_8)) v48 (some 0)
    ≡ ok (label u64 (laid_out 1 2 form_4))
re_encode_back_example =
    re_encode_back u64 1 2 0 1 v48 form_4 form_8 (label u64 (laid_out 1 2 form_8)) other_scheme
      (omega arith) (omega arith) (omega arith) fits_4 short_4 short_8 found_4 found_8 refl refl
      re_encode_lem_example

short_358 : used_bits u64 1 v358_1 ≤ max_payload_bits u64
unfolding top_bit highest_set_bit leading_zeros
short_358 = omega arith

re_encode-358_example :
    (re_encode u64 (label u64 (laid_out 1 (4 + 1) v358_0)) v358 (some 1)
      ≡ ok (label u64 (laid_out 1 4 v358_1)))
    × (re_encode u64 (label u64 (laid_out 1 4 v358_1)) v358 (some 0)
        ≡ ok (label u64 (laid_out 1 (4 + 1) v358_0)))
re_encode-358_example = re_encode-358 u64 1 (omega arith) (omega arith) short_358 4 (omega arith)

re_encode-358_collision_example :
    (re_encode u64 (label u64 (laid_out 1 6 v358_1)) v358 (some 0)
      ≡ ok (label u64 (laid_out 1 7 v358_0)))
    × (re_encode u64 (label u64 (laid_out 1 7 v358_1)) v358 (some 0)
        ≡ ok (label u64 (laid_out 1 7 v358_0)))
    × (re_encode u64 (label u64 (laid_out 1 7 v358_0)) v358 (some 0)
        ≡ ok (label u64 (laid_out 1 6 v358_0)))
re_encode-358_collision_example =
    re_encode-358_collision u64 1 (omega arith) (omega arith) short_358

get_encoding_form-IsFirst_example : IsFirst u64 (label u64 (laid_out 1 2 form_8)) v48 1 form_8
get_encoding_form-IsFirst_example =
    get_encoding_form-IsFirst u64 (label u64 (laid_out 1 2 form_8)) v48 form_8 1 found_8

validate-get_encoding_form_example :
    (validate (first_form ∷ hidden_form ∷ []) ≡ ok tt)
    × (get_encoding_form u64 (label u64 0x67) (first_form ∷ hidden_form ∷ []) ≢ ok (hidden_form, 1))
validate-get_encoding_form_example = validate-get_encoding_form u64 (label u64 0x67)

validate-IsSane_example : (validate v358 ≡ ok tt) ↔ IsSane v358
validate-IsSane_example = validate-IsSane v358
