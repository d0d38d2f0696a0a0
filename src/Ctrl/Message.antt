-- ===== src/Ctrl/Message.antt =====
-- cjdns-ctrl/src/control_message.rs: a control message, with its checksum in front.
pub mod RoundTrip
use cjdns_route_server.Base.{
  ℕ, ◌+◌, ◌*◌, ◌/◌, ◌%◌, ◌^◌, Bool, true, false, not, ◌&&◌, Option, none, some, List, [], ◌∷◌, ◌++◌,
  length, be_bytes, ◌==◌, if◌then◌else◌, Result, ok, err, ◌>>=◌, ◌>>◌, fail_if, ok_or, map_err,
  expect_ok,
}
use Prim.Native.Nat.{bit_or}
use cjdns_route_server.Bytes.Errors.{
  ParseError, SerializeError, invalid_packet_size, invalid_checksum,
}
use cjdns_route_server.Bytes.Reader.{
  Reading, not_less_than, read, read_u16_be, peek_remainder, read_remainder,
}
use cjdns_route_server.Bytes.Writer.{with_capacity, into_vec, write_slice, write_u16_be}
use cjdns_route_server.Checksum.{cksum_raw}
use cjdns_route_server.Ctrl.MessageType.{
  CtrlMessageType, error, get_super_node_query, get_super_node_response, to_u16, from_u16,
}
use cjdns_route_server.Ctrl.ErrorData
use cjdns_route_server.Ctrl.ErrorData.{ErrorData}
use cjdns_route_server.Ctrl.PingData
use cjdns_route_server.Ctrl.PingData.{PingData}

pub data CtrlMessageData : Type 0 where
  ping_data : PingData → CtrlMessageData
  error_data : ErrorData → CtrlMessageData
  super_node_query_data : CtrlMessageData

pub record CtrlMessage : Type 0 where
  pub msg_type : CtrlMessageType
  pub msg_data : CtrlMessageData

abbrev pub header_size : ℕ
header_size = 4

unfoldable pub extract_error_data : CtrlMessageData → Option ErrorData
extract_error_data (error_data d) = some d
extract_error_data other = none

unfoldable pub extract_ping_data : CtrlMessageData → Option PingData
extract_ping_data (ping_data d) = some d
extract_ping_data other = none

-- The fields of the wire: the checksum, what it covers, the type and the body.
pub record Fields : Type 0 where
  pub received_checksum : ℕ
  pub after_checksum_data : List ℕ
  pub type_code : ℕ
  pub raw_data : List ℕ

unfoldable pub read_fields : Reading Fields
read_fields r = do
  (received_checksum, r1) ← read_u16_be r
  let after_checksum_data = peek_remainder r1
  (type_code, r2) ← read_u16_be r1
  (raw_data, r3) ← read_remainder r2
  ok (
    record {
      received_checksum = received_checksum;
      after_checksum_data = after_checksum_data;
      type_code = type_code;
      raw_data = raw_data;
    },
    r3,
  )

-- `(c << 8) | (c >> 8)` on `u16`
unfoldable pub inverted : ℕ → ℕ
inverted c = bit_or (c * 2 ^ 8 % 2 ^ 16) (c / 2 ^ 8)

unfoldable pub parse_data : CtrlMessageType → List ℕ → Result ParseError CtrlMessageData
parse_data error raw_data = ErrorData.parse raw_data >>= λ d. ok (error_data d)
parse_data get_super_node_query raw_data = ok super_node_query_data
parse_data get_super_node_response raw_data = ok super_node_query_data
parse_data t raw_data = PingData.parse raw_data t >>= λ d. ok (ping_data d)

-- The part of `parse` after the fields are read.
unfoldable pub from_fields : Fields → Result ParseError CtrlMessage
from_fields f = do
  computed_checksum ← expect_ok (cksum_raw f.after_checksum_data)
  let inverted_checksum = inverted computed_checksum
  fail_if
      (not (f.received_checksum == computed_checksum)
        && not (f.received_checksum == inverted_checksum))
      (invalid_checksum f.received_checksum computed_checksum)
  msg_type ← ok_or (from_u16 f.type_code) (ParseError.invalid_data "unknown ctrl packet")
  msg_data ← parse_data msg_type f.raw_data
  ok (record { msg_type = msg_type; msg_data = msg_data })

unfoldable pub parse : List ℕ → Result ParseError CtrlMessage
parse bytes = do
  (f, r) ← map_err (read (not_less_than header_size) read_fields bytes) invalid_packet_size
  from_fields f

unfoldable pub serialize_data : CtrlMessageType → CtrlMessageData → Result SerializeError (List ℕ)
serialize_data error msg_data = do
  d ←
      ok_or (extract_error_data msg_data)
        (SerializeError.invalid_invariant "message with error header, but ping data body")
  ErrorData.serialize d
serialize_data get_super_node_query msg_data =
    err (SerializeError.invalid_data "can't serialize GetsNode messages")
serialize_data get_super_node_response msg_data =
    err (SerializeError.invalid_data "can't serialize GetsNode messages")
serialize_data ping_type msg_data = do
  d ←
      ok_or (extract_ping_data msg_data)
        (SerializeError.invalid_invariant "message with ping header, but error data body")
  PingData.serialize d ping_type

unfoldable pub serialize : CtrlMessage → Result SerializeError (List ℕ)
serialize m = do
  raw_data ← serialize_data m.msg_type m.msg_data
  let checksum_data = be_bytes 2 (to_u16 m.msg_type) ++ raw_data
  checksum ← expect_ok (cksum_raw checksum_data)
  let w0 = with_capacity (2 + length checksum_data)
  let w1 = write_u16_be w0 checksum
  let w2 = write_slice w1 checksum_data
  ok (into_vec w2)
