-- ===== src/Bytes/Reader.antt =====
-- cjdns-bytes/src/utils.rs, `reader`: a reader is the list of the bytes that are left. An operation
-- returns its value with the bytes that are left after it; an `Err` leaves the reader as it was.
pub mod Laws
use cjdns_route_server.Base.{
  ℕ, ◌-◌, Bool, true, false, List, [], ◌∷◌, length, take, drop, get_elem?, be_value, ltb, leb, ◌==◌,
  if◌then◌else◌,
}
use cjdns_route_server.Base.{Result, ok, err, panic, ◌>>=◌, ◌>>◌, ensure, fail_if, assert, expect}
use cjdns_route_server.Base.{expect_ok}

pub data InsufficientBuffer : Type 0 where
  insufficient_buffer : InsufficientBuffer

pub data ReadError : Type 0 where
  read_error : ReadError

pub data ExpectedSize : Type 0 where
  exact : ℕ → ExpectedSize
  not_less_than : ℕ → ExpectedSize

abbrev pub Reader : Type 0
Reader = List ℕ

abbrev pub Reading : Type 0 → Type 0
Reading A = Reader → Result InsufficientBuffer (A × Reader)

-- `<[u8; k]>::try_from(bytes).expect(..)`
abbrev pub array : ℕ → List ℕ → Result InsufficientBuffer (List ℕ)
array k bytes = if length bytes == k then ok bytes else panic

unfoldable pub read_slice : ℕ → Reading (List ℕ)
read_slice count r =
    if ltb (length r) count then err insufficient_buffer else ok (take count r, drop count r)

unfoldable pub read_u8 : Reading ℕ
read_u8 r = do (bytes, r') ← read_slice 1 r; b ← expect (get_elem? bytes 0); ok (b, r')

unfoldable pub read_u16_be : Reading ℕ
read_u16_be r = do
  (bytes, r') ← read_slice 2 r
  bytes_array ← array 2 bytes
  ok (be_value bytes_array, r')

unfoldable pub read_u32_be : Reading ℕ
read_u32_be r = do
  (bytes, r') ← read_slice 4 r
  bytes_array ← array 4 bytes
  ok (be_value bytes_array, r')

unfoldable pub read_u64_be : Reading ℕ
read_u64_be r = do
  (bytes, r') ← read_slice 8 r
  bytes_array ← array 8 bytes
  ok (be_value bytes_array, r')

unfoldable pub read_array_32 : Reading (List ℕ)
read_array_32 r = do
  (bytes, r') ← read_slice 32 r
  bytes_array ← array 32 bytes
  ok (bytes_array, r')

unfoldable pub peek_remainder : Reader → List ℕ
peek_remainder r = r

-- `expect` on a slice as long as what is left.
unfoldable pub read_remainder : Reading (List ℕ)
read_remainder r = expect_ok (read_slice (length r) r)

unfoldable pub skip : ℕ → Reading (Unit {0})
skip count r = do (bytes, r') ← read_slice count r; ok (tt, r')

unfoldable pub is_empty : Reader → Bool
is_empty r = length r == 0

-- A call whose `Result` the caller keeps instead of returning early: on an error the reader has
-- not moved.
abbrev pub attempt : {A : Type 0} → Reading A → Reading (Result InsufficientBuffer A)
attempt op r = elim (op r) [ ok p ↦ ok (ok p.0, p.1) | err e ↦ ok (err e, r) | panic ↦ panic ]

-- `Reader::read`: the size is checked before the job and after it.
unfoldable pub read :
    {A : Type 0} → ExpectedSize → Reading A → Reader → Result ReadError (A × Reader)
read (exact count) job r = do
  ensure (length r == count) read_error
  (res, r') ← expect_ok (job r)
  assert (length r' == length r - count)
  ok (res, r')
read (not_less_than count) job r = do
  fail_if (ltb (length r) count) read_error
  (res, r') ← expect_ok (job r)
  assert (leb (length r') (length r - count))
  ok (res, r')

-- `io::Read::read` into a buffer of `size` bytes: the bytes that it fills.
unfoldable pub read_into : ℕ → Reader → Result InsufficientBuffer (List ℕ × Reader)
read_into size r =
    let n = if ltb (length r) size then length r else size in expect_ok (read_slice n r)
