-- ===== src/Core/Packing/Tests.antt =====
-- The packing of schemes at concrete values; those of the tests of cjdns-core/src/encoding.rs.
use cjdns_route_server.Base.{◌≡◌, refl, []}
use cjdns_route_server.Core.Scheme.{
  form_try_new, try_new, validate, validate_single, validate_loop, size_bits, contains, v358, v48,
  f8,
}
use cjdns_route_server.Core.Packing.{
  next_byte, write_bit, write_bits, form_acc, write_form, write_forms, serialize_scheme,
  read_bits_loop, read_bits, read_form, read_forms, deserialize_scheme,
}
use cjdns_route_server.Base.{ok, ◌∷◌, ℕ, List, IsBytes, All, arith}
use cjdns_route_server.Core.Packing.Serialize.{IsForm}
use cjdns_route_server.Core.Packing.RoundTrip.{deserialize_scheme-serialize_scheme}

pub serialize-v358 : serialize_scheme v358 ≡ ok (0x61 ∷ 0x14 ∷ 0x45 ∷ 0x81 ∷ 0 ∷ [])
unfolding next_byte write_bit write_bits form_acc write_form write_forms serialize_scheme
serialize-v358 = refl

serialize-f8 : serialize_scheme f8 ≡ ok (0 ∷ 1 ∷ [])
unfolding next_byte write_bit write_bits form_acc write_form write_forms serialize_scheme
serialize-f8 = refl

deserialize-v358 : deserialize_scheme (0x61 ∷ 0x14 ∷ 0x45 ∷ 0x81 ∷ 0 ∷ []) ≡ ok v358
unfolding read_bits_loop read_bits read_form read_forms deserialize_scheme form_try_new try_new
    validate validate_single validate_loop size_bits contains
deserialize-v358 = refl

deserialize-v48 : deserialize_scheme (0x81 ∷ 0x0c ∷ 0x08 ∷ []) ≡ ok v48
unfolding read_bits_loop read_bits read_form read_forms deserialize_scheme form_try_new try_new
    validate validate_single validate_loop size_bits contains
deserialize-v48 = refl

-- The theorem at scheme 358.
pub v358-IsForms : All IsForm v358
v358-IsForms = (
  record {
    some_bits = omega arith;
    bits_fit = omega arith;
    prefix_fits = omega arith;
    prefix_small = omega arith;
  },
  (
    record {
      some_bits = omega arith;
      bits_fit = omega arith;
      prefix_fits = omega arith;
      prefix_small = omega arith;
    },
    (
      record {
        some_bits = omega arith;
        bits_fit = omega arith;
        prefix_fits = omega arith;
        prefix_small = omega arith;
      },
      tt,
    ),
  ),
)

pub v358-valid : validate v358 ≡ ok tt
unfolding validate validate_single validate_loop size_bits contains
v358-valid = refl

deserialize_scheme-serialize_scheme_example :
    (bytes : List ℕ) × (serialize_scheme v358 ≡ ok bytes)
    × IsBytes bytes
    × (deserialize_scheme bytes ≡ ok v358)
deserialize_scheme-serialize_scheme_example =
    deserialize_scheme-serialize_scheme v358 v358-IsForms v358-valid
