-- ===== src/Ctrl/PingData.antt =====
-- cjdns-ctrl/src/ping_data.rs: the body of the four ping messages.
pub mod RoundTrip
use cjdns_route_server.Base.{
  ℕ, ◌+◌, Bool, true, false, not, ◌&&◌, Option, none, some, List, [], ◌∷◌, ◌==◌, if◌then◌else◌,
  Result, ok, err, panic, ◌>>=◌, ◌>>◌, fail_if, ensure, map_err,
}
use cjdns_route_server.Bytes.Errors.{ParseError, SerializeError, invalid_packet_size}
use cjdns_route_server.Bytes.Reader.{
  InsufficientBuffer, Reading, not_less_than, read, attempt, read_array_32, read_u32_be,
  read_remainder,
}
use cjdns_route_server.Bytes.Writer.{with_capacity, into_vec, write_slice, write_u32_be}
use cjdns_route_server.Ctrl.MessageType.{
  CtrlMessageType, ping, pong, key_ping, key_pong, is_key_ping,
}
use cjdns_route_server.Keys.{CjdnsPublicKey, key_from_array}

pub record PingData : Type 0 where
  pub version : ℕ
  pub key : Option CjdnsPublicKey
  pub content : List ℕ

abbrev pub min_size : ℕ
min_size = 8

unfoldable pub ping_to_magic {ℓ} : {E : Type ℓ} → CtrlMessageType → Result E ℕ
ping_to_magic ping = ok 0x09f91102
ping_to_magic pong = ok 0x9d74e35b
ping_to_magic key_ping = ok 0x01234567
ping_to_magic key_pong = ok 0x89abcdef
ping_to_magic t = panic

-- The fields of the wire. The key is what `read_array_32` answered, an error or 32 bytes.
pub record Fields : Type 0 where
  pub encoded_magic : ℕ
  pub version : ℕ
  pub pk_bytes : Result InsufficientBuffer (List ℕ)
  pub content : List ℕ

unfoldable pub read_fields : Reading Fields
read_fields r = do
  (encoded_magic, r1) ← read_u32_be r
  (version, r2) ← read_u32_be r1
  (pk_bytes, r3) ← attempt read_array_32 r2
  (content, r4) ← read_remainder r3
  ok (
    record {
      encoded_magic = encoded_magic;
      version = version;
      pk_bytes = pk_bytes;
      content = content;
    },
    r4,
  )

unfoldable pub read_key :
    Bool → Result InsufficientBuffer (List ℕ) → Result ParseError (Option CjdnsPublicKey)
read_key true pk_bytes = do k ← map_err pk_bytes invalid_packet_size; ok (some (key_from_array k))
read_key false pk_bytes = ok none

unfoldable pub parse : List ℕ → CtrlMessageType → Result ParseError PingData
parse bytes t = do
  (f, r) ← map_err (read (not_less_than min_size) read_fields bytes) invalid_packet_size
  original_magic ← ping_to_magic t
  ensure (f.encoded_magic == original_magic)
      (ParseError.invalid_data "invalid encoded connection magic")
  key ← read_key (is_key_ping t) f.pk_bytes
  ok (record { version = f.version; key = key; content = f.content })

abbrev pub is_none : Option CjdnsPublicKey → Bool
is_none none = true
is_none (some key) = false

abbrev pub writer_size : Option CjdnsPublicKey → ℕ
writer_size none = min_size
writer_size (some key) = min_size + 32

abbrev pub key_bytes : Option CjdnsPublicKey → List ℕ
key_bytes none = []
key_bytes (some key) = key.k

unfoldable pub serialize : PingData → CtrlMessageType → Result SerializeError (List ℕ)
serialize d t = do
  fail_if (d.version == 0) (SerializeError.invalid_data "version should be greater than 0")
  fail_if (is_key_ping t && is_none d.key)
      (SerializeError.invalid_invariant "key should be specified for key ping/pong messages")
  ping_magic ← ping_to_magic t
  let w0 = with_capacity (writer_size d.key)
  let w1 = write_u32_be w0 ping_magic
  let w2 = write_u32_be w1 d.version
  let w3 = write_slice w2 (key_bytes d.key)
  let w4 = write_slice w3 d.content
  ok (into_vec w4)
