-- ===== src/Ann/Entities/Malformed.antt =====
-- A scheme in an announcement that makes the parser panic.
use cjdns_route_server.Base.{
  ℕ, ◌+◌, ◌*◌, ◌/◌, ◌%◌, ◌<◌, ◌≡◌, ◌⊎◌, refl, arith, List, [], ◌∷◌, length, IsBytes, panic, ne→==,
}
use cjdns_route_server.Bytes.Reader.{is_empty}
use cjdns_route_server.Bytes.Reader.Laws.{
  read_u8-cons, read_slice-append, read_not_less_than-ok, read_remainder-all,
}
use cjdns_route_server.Core.Packing.Malformed.{deserialize_scheme-panics}
use cjdns_route_server.Ann.Models.{External}
use cjdns_route_server.Ann.Wire.{framed}
use cjdns_route_server.Ann.Entities.{
  parse_encoding_scheme, parse_entity, parse_step, parse_entities_loop, parse_entities_impl,
}

module _ (x : External) (a b : ℕ) (rest : List ℕ) (bytes : IsBytes (a ∷ b ∷ [])) where
  -- An entity that claims to be an encoding scheme, of two bytes whose form is longer than they are
  -- or has a bit count of zero, is not refused with an error: the parser of entities panics.
  pub parse_entities_impl-panics :
      (6 < a % 32) ⊎ ((a + 256 * b) / 32 % 32 ≡ 0)
      → parse_entities_impl x (framed 0 (a ∷ b ∷ []) rest) ≡ panic
  unfolding parse_entities_impl parse_entities_loop is_empty parse_step parse_entity
      parse_encoding_scheme
  parse_entities_impl-panics h =
      rw
        (
          ne→== (length (framed 0 (a ∷ b ∷ []) rest)) 0 (λ e. omega arith),
          read_u8-cons 4 (0 ∷ a ∷ b ∷ rest),
          read_slice-append 3 (0 ∷ a ∷ b ∷ []) rest refl,
          read_not_less_than-ok 2 _ (a ∷ b ∷ []) (a ∷ b ∷ []) (omega arith)
              (read_remainder-all (a ∷ b ∷ [])),
          deserialize_scheme-panics a b bytes h,
        )
        refl
