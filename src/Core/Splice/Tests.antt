-- ===== src/Core/Splice/Tests.antt =====
-- Runs of the documentation's examples.
use cjdns_route_server.Base.{ℕ, ◌≡◌, refl, [], ◌∷◌, false, none, some, ok, err}
use cjdns_route_server.Core.Label.{u64, RoutingLabel, leading_zeros, highest_set_bit, try_new}
use cjdns_route_server.Core.Scheme.{v358, v48, form_eq, scheme_eq}
use cjdns_route_server.Core.PathHop.{PathHop}
use cjdns_route_server.Core.Splice.{
  splice, splice_loop, label_highest_set_bit, label_too_long, get_encoding_form, re_encode,
  get_encoding_form_from, get_director, director_bit_length, shortest_from, find_shortest_form,
  is_358_zero_form, desired_form, director_358, legacy_director, rest_bit_length, routes_through,
  unsplice, hop_label, build_path, build_label_impl, build_label, bad_argument,
}

abbrev label : ℕ → RoutingLabel u64
label n = record { bits = n }

splice_test : splice u64 (label 0x15 ∷ label 0x13 ∷ []) ≡ ok (label 0x153)
unfolding splice splice_loop label_highest_set_bit highest_set_bit leading_zeros try_new
splice_test = refl

splice_long_test :
    (splice u64 (label 0x0200000000001111 ∷ label 5 ∷ []) ≡ ok (label 0x0800000000004445))
    × (splice u64 (label 0x0400000000001111 ∷ label 5 ∷ []) ≡ err label_too_long)
unfolding splice splice_loop label_highest_set_bit highest_set_bit leading_zeros try_new
splice_long_test = (refl, refl)

re_encode_test :
    (re_encode u64 (label 0x15) v358 (some 2) ≡ ok (label 0x404))
    × (re_encode u64 (label 0x15) v358 (some 1) ≡ ok (label 0x86))
    × (re_encode u64 (label 0x15) v358 (some 0) ≡ ok (label 0x15))
    × (re_encode u64 (label 0x404) v358 none ≡ ok (label 0x15))
    × (re_encode u64 (label 0x15) v358 (some 3) ≡ err bad_argument)
    × (re_encode u64 (label 0x0040000000000067) v48 (some 1) ≡ ok (label 0x0400000000000606))
    × (re_encode u64 (label 0x0400000000000067) v48 (some 1) ≡ err label_too_long)
unfolding re_encode get_encoding_form get_encoding_form_from get_director desired_form
    find_shortest_form shortest_from director_bit_length legacy_director director_358
    is_358_zero_form form_eq scheme_eq rest_bit_length highest_set_bit leading_zeros try_new
re_encode_test = (refl, refl, refl, refl, refl, refl, refl)

unsplice_test :
    (unsplice u64 (label 0x153) (label 0x13) ≡ ok (label 0x15))
    × (routes_through u64 (label 0x001b053510e5) (label 0x13) ≡ ok false)
unfolding unsplice routes_through label_highest_set_bit highest_set_bit leading_zeros try_new
unsplice_test = (refl, refl)

abbrev hop : ℕ → ℕ → PathHop u64
hop p n = record { label_p = some (label p); label_n = some (label n); encoding_scheme = v358 }

build_label_test :
    build_label u64 (
      record { label_p = none; label_n = some (label 0x15); encoding_scheme = v358 }
      ∷ hop 0x9e 0x8e
      ∷ hop 0x13 0xa2
      ∷ hop 0x1b 0x1d
      ∷ hop 0xee 0x1b
      ∷ hop 0x19 0x1b
      ∷ record { label_p = some (label 0x13); label_n = none; encoding_scheme = v358 }
      ∷ [])
    ≡ ok (
      label 0x000364b510e5,
      label 0x15 ∷ label 0x8e ∷ label 0xa2 ∷ label 0x1d ∷ label 0x92 ∷ label 0x1b ∷ [],
    )
unfolding build_label build_label_impl build_path hop_label splice splice_loop label_highest_set_bit
    re_encode get_encoding_form get_encoding_form_from get_director desired_form find_shortest_form
    shortest_from director_bit_length legacy_director director_358 is_358_zero_form form_eq
    scheme_eq rest_bit_length highest_set_bit leading_zeros try_new
build_label_test = refl
