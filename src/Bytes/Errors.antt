-- ===== src/Bytes/Errors.antt =====
-- cjdns-bytes/src/errors.rs: what parsers and serializers answer on failure.
use Prim.Native.String.{String}
use cjdns_route_server.Base.{ℕ}

pub data ParseError : Type 0 where
  invalid_packet_size : ParseError
  invalid_invariant : String → ParseError
  invalid_data : String → ParseError
  invalid_checksum : ℕ → ℕ → ParseError

pub data SerializeError : Type 0 where
  unrecognized_data : SerializeError
  invalid_invariant : String → SerializeError
  invalid_data : String → SerializeError
