-- ===== src/Hdr/DataHeader.antt =====
-- cjdns-hdr/src/data_header.rs: the header that names the type of the content.
pub mod RoundTrip
use cjdns_route_server.Base.{
  ℕ, ◌*◌, ◌/◌, ◌%◌, ◌^◌, List, ltb, ◌==◌, if◌then◌else◌, Result, ok, ◌>>=◌, ◌>>◌, fail_if, ok_or,
  map_err,
}
use cjdns_route_server.Bytes.Errors.{ParseError, SerializeError, invalid_packet_size}
use cjdns_route_server.Bytes.Reader.{Reading, exact, read, read_u8, read_u16_be, skip}
use cjdns_route_server.Bytes.Writer.{with_capacity, into_vec, write_u8, write_u16_be}
use cjdns_route_server.Hdr.ContentType.{ContentType, other, from_u16, try_to_u16, is_other}

pub record DataHeader : Type 0 where
  pub version : ℕ
  pub content_type : ContentType

abbrev pub size : ℕ
size = 4

abbrev pub current_version : ℕ
current_version = 1

-- The closure that `parse` reads the fields with.
unfoldable pub read_fields : Reading (ℕ × ℕ)
read_fields r = do
  (version_with_flags, r1) ← read_u8 r
  (padding, r2) ← skip 1 r1
  (content_type_code, r3) ← read_u16_be r2
  ok ((version_with_flags, content_type_code), r3)

unfoldable pub parse : List ℕ → Result ParseError DataHeader
parse bytes = do
  ((version_with_flags, content_type_code), r) ←
      map_err (read (exact size) read_fields bytes) invalid_packet_size
  let version = version_with_flags / 2 ^ 4
  ok (record { version = version; content_type = from_u16 content_type_code })

-- `<<` of a `u8` cuts off what leaves the byte.
unfoldable pub version_byte : DataHeader → ℕ
version_byte h = if h.version == 0 then current_version * 2 ^ 4 % 256 else h.version * 2 ^ 4 % 256

abbrev pub version_too_wide : SerializeError
version_too_wide = SerializeError.invalid_invariant "version value can't take more than 4 bits"

abbrev pub type_not_recognized : SerializeError
type_not_recognized = SerializeError.invalid_data "content type is not recognized or not preserved"

abbrev pub type_too_long : SerializeError
type_too_long =
    SerializeError.invalid_data
      "content type can't be serialized into bytes slice with respected length"

unfoldable pub serialize : DataHeader → Result SerializeError (List ℕ)
serialize h = do
  fail_if (ltb 15 h.version) version_too_wide
  fail_if (is_other h.content_type) type_not_recognized
  content_type_code ← ok_or (try_to_u16 h.content_type) type_too_long
  let w0 = with_capacity size
  let w1 = write_u8 w0 (version_byte h)
  let w2 = write_u8 w1 0
  let w3 = write_u16_be w2 content_type_code
  ok (into_vec w3)

unfoldable pub default : DataHeader
default = record { version = current_version; content_type = other }
