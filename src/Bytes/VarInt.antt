-- ===== src/Bytes/VarInt.antt =====
-- cjdns-bytes/src/var_int.rs and readext.rs: integers of variable length. The crate byteorder, which
-- reads and writes the fixed widths, is a parameter; its laws are the record `IsByteOrder`.
pub mod RoundTrip
pub mod Safe
pub mod Examples
use cjdns_route_server.Base.{
  ℕ, ◌-◌, ◌*◌, ◌^◌, ◌<◌, ◌≡◌, List, ◌++◌, length, take, drop, be_bytes, ltb, ◌==◌, if◌then◌else◌,
  Result, ok, err, panic, ◌>>=◌, map_err,
}
use cjdns_route_server.Bytes.Reader.{Reader}
use cjdns_route_server.Bytes.Message
use cjdns_route_server.Bytes.Message.{Message}

-- The types that are a `VarInt`, and their bits.
pub data VarInt : Type 0 where
  u8 u16 u32 u64 : VarInt

abbrev pub bits : VarInt → ℕ
bits u8 = 8
bits u16 = 16
bits u32 = 32
bits u64 = 64

pub data VarIntError : Type 0 where
  unexpected_end_of_data : VarIntError
  malformed_encoding : ℕ → ℕ → VarIntError
  value_too_big : ℕ → ℕ → ℕ → VarIntError

pub data IoError : Type 0 where
  io_error : IoError

-- `ReadBytesExt` on a reader and `WriteBytesExt` on a message: `read_u8` and `write_u8` at width 1,
-- and `read_u16::<BE>` up to `write_u64::<BE>` at the widths 2, 4 and 8, in bytes.
pub record ByteOrder : Type 0 where
  pub read_uint : ℕ → Reader → Result IoError (ℕ × Reader)
  pub write_uint : ℕ → ℕ → Message → Result IoError Message

-- What its documentation says: a number is read from its bytes, highest first, or there is an error
-- where the bytes end too soon, and it is written by `Write::write` of its bytes.
pub record IsByteOrder (o : ByteOrder) : Type 0 where
  pub read_number :
      (k v : ℕ) (rest : List ℕ) → v < 256 ^ k → o.read_uint k (be_bytes k v ++ rest) ≡ ok (v, rest)
  pub read_short : (k : ℕ) (r : List ℕ) → length r < k → o.read_uint k r ≡ err io_error
  pub write_number :
      (k v : ℕ) (m m' : Message)
      → Message.write m (be_bytes k v) ≡ ok (k, m')
      → o.write_uint k v m ≡ ok m'

module _ (o : ByteOrder) where
  -- The number behind a marker byte: its width in bytes, and `TryFrom` of the type.
  unfoldable pub read_marked : VarInt → ℕ → ℕ → Reader → Result VarIntError (ℕ × Reader)
  read_marked t k byte r = do
    (value, r') ← map_err (o.read_uint k r) (malformed_encoding k byte)
    if ltb value (2 ^ bits t) then ok (value, r') else err (value_too_big value (bits t) (k * 8))

  unfoldable pub read_var_int : VarInt → Reader → Result VarIntError (ℕ × Reader)
  read_var_int t r = do
    (byte, r') ← map_err (o.read_uint 1 r) unexpected_end_of_data
    if byte == 0xff
        then read_marked t 8 byte r'
        else if byte == 0xfe
        then read_marked t 4 byte r'
        else if byte == 0xfd
        then read_marked t 2 byte r'
        else if ltb byte (2 ^ bits t)
        then ok (byte, r')
        else panic

  -- The marker goes in front of the number, since a message is written from its end.
  unfoldable pub write_var_int : ℕ → Message → Result IoError Message
  write_var_int t m =
      if ltb (2 ^ 32 - 1) t
      then (do m' ← o.write_uint 8 t m; o.write_uint 1 0xff m')
      else if ltb (2 ^ 16 - 1) t
      then (do m' ← o.write_uint 4 t m; o.write_uint 1 0xfe m')
      else if ltb 0xfc t
      then (do m' ← o.write_uint 2 t m; o.write_uint 1 0xfd m')
      else o.write_uint 1 t m
