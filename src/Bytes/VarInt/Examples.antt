-- ===== src/Bytes/VarInt/Examples.antt =====
-- Integers of variable length at concrete bytes, with a byteorder that follows its documentation;
-- the bytes of the tests of cjdns-bytes/src/var_int.rs.
use cjdns_route_server.Base.{
  ℕ, ◌≡◌, refl, sym, ap, arith, [], ◌∷◌, ◌++◌, length, length-append, take, drop, take-exact,
  drop-exact, be_bytes, length-be_bytes, be_value, be_value-be_bytes, be_value_from, Result, ok,
  err, panic, ltb, lt→ltb, ge→ltb, if◌then◌else◌,
}
use cjdns_route_server.Bytes.Reader.{Reader}
use cjdns_route_server.Bytes.Message
use cjdns_route_server.Bytes.Message.{Overflow, Message, as_vec, with_chunk_size}
use cjdns_route_server.Bytes.Message.Stack.Reads.{IsMessage}
use cjdns_route_server.Bytes.Message.Stack.Writes.{with_chunk_size-IsMessage}
use cjdns_route_server.Bytes.VarInt.{
  u8, u16, u32, u64, malformed_encoding, value_too_big, IoError, io_error, ByteOrder, IsByteOrder,
  read_marked, read_var_int, write_var_int,
}
use cjdns_route_server.Bytes.VarInt.RoundTrip.{read_var_int-write_var_int}

abbrev read_number : ℕ → Reader → Result IoError (ℕ × Reader)
read_number k r = if ltb (length r) k then err io_error else ok (be_value (take k r), drop k r)

-- `write_all`, for a writer that takes the whole buffer at once.
abbrev write_outcome : Result Overflow (ℕ × Message) → Result IoError Message
write_outcome (ok p) = ok p.1
write_outcome (err e) = err io_error
write_outcome panic = panic

abbrev write_number : ℕ → ℕ → Message → Result IoError Message
write_number k v m = write_outcome (Message.write m (be_bytes k v))

abbrev pub order : ByteOrder
order = record { read_uint = read_number; write_uint = write_number }

pub order-IsByteOrder : IsByteOrder order
order-IsByteOrder = record {
  read_number = λ k v rest h.
      rw
        (
          ge→ltb (length (be_bytes k v ++ rest)) k
              (omega (arith, length-append (be_bytes k v) rest, length-be_bytes k v)),
          take-exact k (be_bytes k v) rest (sym (length-be_bytes k v)),
          drop-exact k (be_bytes k v) rest (sym (length-be_bytes k v)),
          be_value-be_bytes k v h,
        )
        refl;
  read_short = λ k r h. rw (lt→ltb (length r) k h) refl;
  write_number = λ k v m m' h. ap write_outcome h;
}

read_u32 : read_var_int order u32 (0xfe ∷ 4 ∷ 5 ∷ 6 ∷ 7 ∷ 8 ∷ []) ≡ ok (0x04050607, 8 ∷ [])
unfolding read_var_int read_marked be_value be_value_from
read_u32 = refl

too_big : read_var_int order u8 (0xfd ∷ 2 ∷ 3 ∷ []) ≡ err (value_too_big 0x0203 8 16)
unfolding read_var_int read_marked be_value be_value_from
too_big = refl

cut_off : read_var_int order u64 (0xff ∷ 1 ∷ 2 ∷ []) ≡ err (malformed_encoding 8 0xff)
unfolding read_var_int read_marked be_value be_value_from
cut_off = refl

read_var_int-write_var_int_example :
    (m' : Message) × (write_var_int order 1000 (with_chunk_size 4) ≡ ok m')
    × IsMessage m'
    × (read_var_int order u16 (as_vec m') ≡ ok (1000, as_vec (with_chunk_size 4)))
read_var_int-write_var_int_example =
    read_var_int-write_var_int order order-IsByteOrder u16 1000 (with_chunk_size 4) (omega arith)
      (with_chunk_size-IsMessage 4)
