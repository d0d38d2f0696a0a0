-- ===== src/Hdr/SwitchHeader.antt =====
-- cjdns-hdr/src/switch_header.rs: the header that the switch reads.
pub mod RoundTrip
pub mod Canonical
use Prim.Native.Nat.{bit_and, bit_or}
use cjdns_route_server.Base.{
  ℕ, ◌*◌, ◌/◌, ◌%◌, ◌^◌, Bool, true, false, not, ◌&&◌, List, ltb, ◌==◌, if◌then◌else◌,
}
use cjdns_route_server.Base.{Result, ok, err, ◌>>=◌, ◌>>◌, fail_if, ok_or, map_err}
use cjdns_route_server.Bytes.Errors.{ParseError, SerializeError, invalid_packet_size}
use cjdns_route_server.Bytes.Errors
use cjdns_route_server.Bytes.Reader.{
  Reader, Reading, exact, read, read_u8, read_u16_be, read_u64_be,
}
use cjdns_route_server.Bytes.Writer.{with_capacity, into_vec, write_u8, write_u16_be, write_u64_be}
use cjdns_route_server.Core.Label.{RoutingLabel, u64, try_new}

pub record SwitchHeader : Type 0 where
  pub label : RoutingLabel u64
  pub congestion : ℕ
  pub suppress_errors : Bool
  pub version : ℕ
  pub label_shift : ℕ
  pub penalty : ℕ

abbrev pub size : ℕ
size = 12

abbrev pub current_version : ℕ
current_version = 1

-- The closure that `parse` reads the fields with: the label, two shared bytes and the penalty.
unfoldable pub read_fields : Reading (ℕ × ℕ × ℕ × ℕ)
read_fields r = do
  (label_num, r1) ← read_u64_be r
  (congestion_and_suppress_errors, r2) ← read_u8 r1
  (version_and_label_shift, r3) ← read_u8 r2
  (penalty, r4) ← read_u16_be r3
  ok ((label_num, congestion_and_suppress_errors, version_and_label_shift, penalty), r4)

-- The part of `parse` after the fields are read.
unfoldable pub from_fields : ℕ → ℕ → ℕ → ℕ → Result ParseError SwitchHeader
from_fields label_num congestion_and_suppress_errors version_and_label_shift penalty = do
  label ← ok_or (try_new u64 label_num) (ParseError.invalid_data "zero label bytes")
  let congestion = congestion_and_suppress_errors / 2
  let suppress_errors = bit_and congestion_and_suppress_errors 1 == 1
  let version = version_and_label_shift / 2 ^ 6
  let label_shift = bit_and version_and_label_shift 0x3f
  fail_if (not (version == current_version) && not (version == 0))
      (ParseError.invalid_data "unrecognized switch header version")
  ok (record {
    label = label;
    congestion = congestion;
    suppress_errors = suppress_errors;
    version = version;
    label_shift = label_shift;
    penalty = penalty;
  })

unfoldable pub parse : List ℕ → Result ParseError SwitchHeader
parse bytes = do
  ((label_num, shared, version_and_shift, penalty), r) ←
      map_err (read (exact size) read_fields bytes) invalid_packet_size
  from_fields label_num shared version_and_shift penalty

-- `suppress_errors as u8`
abbrev pub flag : Bool → ℕ
flag true = 1
flag false = 0

-- `<<` of a `u8` cuts off what leaves the byte.
unfoldable pub congestion_byte : SwitchHeader → ℕ
congestion_byte h = bit_or (h.congestion * 2 % 256) (flag h.suppress_errors)

unfoldable pub version_byte : SwitchHeader → ℕ
version_byte h =
    if h.version == 0
    then bit_or (current_version * 2 ^ 6 % 256) h.label_shift
    else bit_or (h.version * 2 ^ 6 % 256) h.label_shift

unfoldable pub serialize : SwitchHeader → Result SerializeError (List ℕ)
serialize h = do
  fail_if (not (h.version == current_version) && not (h.version == 0))
      SerializeError.unrecognized_data
  fail_if (ltb 63 h.label_shift)
      (SerializeError.invalid_invariant "label_shift value can't take more than 6 bits")
  fail_if (ltb 127 h.congestion)
      (SerializeError.invalid_invariant "congestion value can't take more than 7 bits")
  let w0 = with_capacity size
  let w1 = write_u64_be w0 h.label.bits
  let w2 = write_u8 w1 (congestion_byte h)
  let w3 = write_u8 w2 (version_byte h)
  let w4 = write_u16_be w3 h.penalty
  ok (into_vec w4)
