-- ===== src/Ctrl/ErrorData/RoundTrip.antt =====
-- Error messages survive the wire.
use cjdns_route_server.Base.{
  ℕ, ◌+◌, ◌≤◌, ◌≡◌, refl, sym, arith, false, List, [], ◌++◌, length, length-append, append_assoc,
  be_bytes, length-be_bytes, IsBytes, All-append, be_bytes-IsBytes, ok, ◌==◌, ne→==, ◌||◌,
}
use cjdns_route_server.Bytes.Reader.Laws.{
  read_u32_be-bytes, read_slice-append, read_remainder-all, read_not_less_than-ok,
}
use cjdns_route_server.Bytes.Writer.{with_capacity, into_vec, write_slice, write_u32_be}
use cjdns_route_server.Hdr.SwitchHeader
use cjdns_route_server.Hdr.SwitchHeader.{SwitchHeader}
use cjdns_route_server.Hdr.SwitchHeader.RoundTrip
use cjdns_route_server.Hdr.SwitchHeader.RoundTrip.{IsSwitchHeader}
use cjdns_route_server.Ctrl.ErrorData.{
  ErrorMessageType, no_error, malformed_address, flood, link_limit_exceeded, oversize_message,
  undersized_message, authentication, invalid, undeliverable, loop_route, return_path_invalid,
  unrecognized, to_u32, from_u32, ErrorData, read_fields, parse, serialize,
}

-- The type has a number of its own, other than that of no error, and the header fits its bits.
pub record IsErrorData (d : ErrorData) : Type 0 where
  pub is_error : 1 ≤ to_u32 d.err_type
  pub recognized : to_u32 d.err_type ≤ 10
  pub switch_valid : IsSwitchHeader d.switch_header
  pub additional_valid : IsBytes d.additional

from_u32-to_u32 : (t : ErrorMessageType) → from_u32 (to_u32 t) ≡ t
unfolding from_u32 to_u32
from_u32-to_u32 no_error = refl
from_u32-to_u32 malformed_address = refl
from_u32-to_u32 flood = refl
from_u32-to_u32 link_limit_exceeded = refl
from_u32-to_u32 oversize_message = refl
from_u32-to_u32 undersized_message = refl
from_u32-to_u32 authentication = refl
from_u32-to_u32 invalid = refl
from_u32-to_u32 undeliverable = refl
from_u32-to_u32 loop_route = refl
from_u32-to_u32 return_path_invalid = refl
from_u32-to_u32 unrecognized = refl

-- The bytes of an error message, around those of its header.
unfoldable pub wire : ErrorData → List ℕ → List ℕ
wire d inner = be_bytes 4 (to_u32 d.err_type) ++ (inner ++ d.additional)

length-wire :
    (d : ErrorData) (inner : List ℕ)
    → length inner ≡ 12
    → length (wire d inner) ≡ 16 + length d.additional
unfolding wire
length-wire d inner size = omega (
  arith,
  length-append (be_bytes 4 (to_u32 d.err_type)) (inner ++ d.additional),
  length-append inner d.additional,
  length-be_bytes 4 (to_u32 d.err_type),
)

module _ (d : ErrorData) (v : IsErrorData d) where
  tests : (to_u32 d.err_type == 11 || to_u32 d.err_type == 0) ≡ false
  tests =
      rw
        (
          ne→== (to_u32 d.err_type) 11 (λ e. omega (arith, v.recognized)),
          ne→== (to_u32 d.err_type) 0 (λ e. omega (arith, v.is_error)),
        )
        refl

  serialize-wire :
      (inner : List ℕ)
      → SwitchHeader.serialize d.switch_header ≡ ok inner
      → serialize d ≡ ok (wire d inner)
  unfolding serialize wire with_capacity into_vec write_slice write_u32_be
  serialize-wire inner written = rw (tests, written) (simp append_assoc)

  read_fields-wire :
      (inner : List ℕ)
      → length inner ≡ 12
      → read_fields (wire d inner) ≡ ok ((to_u32 d.err_type, inner, d.additional), [])
  unfolding read_fields wire
  read_fields-wire inner size = rw (
    read_u32_be-bytes (to_u32 d.err_type) (inner ++ d.additional) (omega (arith, v.recognized)),
    read_slice-append 12 inner d.additional (sym size),
    read_remainder-all d.additional,
  )

  parse-wire :
      (inner : List ℕ) (s : SwitchHeader)
      → length inner ≡ 12
      → SwitchHeader.parse inner ≡ ok s
      → parse (wire d inner) ≡ ok (record d { switch_header = s })
  unfolding parse
  parse-wire inner s size back = rw (
    read_not_less_than-ok 16 read_fields (wire d inner) (to_u32 d.err_type, inner, d.additional)
        (omega (arith, length-wire d inner size)) (read_fields-wire inner size),
    from_u32-to_u32 d.err_type,
    ne→== (to_u32 d.err_type) 0 (λ e. omega (arith, v.is_error)),
    back,
  )

  wire-IsBytes : (inner : List ℕ) → IsBytes inner → IsBytes (wire d inner)
  unfolding wire
  wire-IsBytes inner valid =
      All-append _ (be_bytes 4 (to_u32 d.err_type)) (inner ++ d.additional)
        (be_bytes-IsBytes 4 (to_u32 d.err_type))
        (All-append _ inner d.additional valid v.additional_valid)

  -- An error of a known type, with a valid switch header, is written as sixteen bytes and the
  -- additional ones, and is read back with the current version in its switch header.
  pub parse_error-serialize_error :
      (bytes : List ℕ) × (serialize d ≡ ok bytes)
      × (length bytes ≡ 16 + length d.additional)
      × IsBytes bytes
      × (parse bytes ≡ ok (record d { switch_header = record d.switch_header { version = 1 } }))
  parse_error-serialize_error =
      let (inner, written, size, inner_valid, back) =
        RoundTrip.parse_switch-serialize_switch d.switch_header v.switch_valid in
      (
        wire d inner,
        serialize-wire inner written,
        length-wire d inner size,
        wire-IsBytes inner inner_valid,
        parse-wire inner _ size back,
      )
