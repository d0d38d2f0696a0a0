-- ===== src/Ctrl/ErrorData.antt =====
-- cjdns-ctrl/src/error_data.rs: the body of an error message.
pub mod RoundTrip
use cjdns_route_server.Base.{
  ℕ, ◌+◌, Bool, true, false, ◌||◌, Option, none, some, List, [], ◌∷◌, length, ◌==◌, ltb,
  if◌then◌else◌, Result, ok, err, ◌>>=◌, ◌>>◌, fail_if, map_err,
}
use cjdns_route_server.Bytes.Errors.{ParseError, SerializeError, invalid_packet_size}
use cjdns_route_server.Bytes.Reader.{
  Reading, not_less_than, read, read_slice, read_u32_be, read_remainder,
}
use cjdns_route_server.Bytes.Writer.{with_capacity, into_vec, write_slice, write_u32_be}
use cjdns_route_server.Hdr.SwitchHeader
use cjdns_route_server.Hdr.SwitchHeader.{SwitchHeader}

pub data ErrorMessageType : Type 0 where
  no_error : ErrorMessageType
  malformed_address : ErrorMessageType
  flood : ErrorMessageType
  link_limit_exceeded : ErrorMessageType
  oversize_message : ErrorMessageType
  undersized_message : ErrorMessageType
  authentication : ErrorMessageType
  invalid : ErrorMessageType
  undeliverable : ErrorMessageType
  loop_route : ErrorMessageType
  return_path_invalid : ErrorMessageType
  unrecognized : ErrorMessageType

unfoldable pub to_u32 : ErrorMessageType → ℕ
to_u32 no_error = 0
to_u32 malformed_address = 1
to_u32 flood = 2
to_u32 link_limit_exceeded = 3
to_u32 oversize_message = 4
to_u32 undersized_message = 5
to_u32 authentication = 6
to_u32 invalid = 7
to_u32 undeliverable = 8
to_u32 loop_route = 9
to_u32 return_path_invalid = 10
to_u32 unrecognized = 11

unfoldable pub from_u32 : ℕ → ErrorMessageType
from_u32 code =
    if code == 0
    then no_error
    else if code == 1
    then malformed_address
    else if code == 2
    then flood
    else if code == 3
    then link_limit_exceeded
    else if code == 4
    then oversize_message
    else if code == 5
    then undersized_message
    else if code == 6
    then authentication
    else if code == 7
    then invalid
    else if code == 8
    then undeliverable
    else if code == 9
    then loop_route
    else if code == 10
    then return_path_invalid
    else unrecognized

pub record ErrorData : Type 0 where
  pub err_type : ErrorMessageType
  pub switch_header : SwitchHeader
  pub additional : List ℕ

abbrev pub min_size : ℕ
min_size = 4 + SwitchHeader.size

unfoldable pub read_fields : Reading (ℕ × List ℕ × List ℕ)
read_fields r = do
  (err_type_code, r1) ← read_u32_be r
  (header_bytes, r2) ← read_slice SwitchHeader.size r1
  (additional, r3) ← read_remainder r2
  ok ((err_type_code, header_bytes, additional), r3)

-- The comparison of the types is that of their codes, which are different.
unfoldable pub parse : List ℕ → Result ParseError ErrorData
parse bytes = do
  ((err_type_code, header_bytes, additional), r) ←
      map_err (read (not_less_than min_size) read_fields bytes) invalid_packet_size
  let err_type = from_u32 err_type_code
  fail_if (to_u32 err_type == 0)
      (ParseError.invalid_data "control message has None body error type")
  switch_header ← SwitchHeader.parse header_bytes
  ok (record { err_type = err_type; switch_header = switch_header; additional = additional })

unfoldable pub serialize : ErrorData → Result SerializeError (List ℕ)
serialize d = do
  fail_if (to_u32 d.err_type == 11 || to_u32 d.err_type == 0)
      (SerializeError.invalid_data "Unrecognized or None error type")
  let err_type_code = to_u32 d.err_type
  switch_header_bytes ← SwitchHeader.serialize d.switch_header
  let w0 = with_capacity (4 + SwitchHeader.size + length d.additional)
  let w1 = write_u32_be w0 err_type_code
  let w2 = write_slice w1 switch_header_bytes
  let w3 = write_slice w2 d.additional
  ok (into_vec w3)
