-- ===== src/Core/Packing.antt =====
-- cjdns-core/src/encoding.rs, `encoding_serialization`: schemes packed into bits. The first form
-- stands in the lowest bits, and the first byte is the lowest one.
mod Bits
mod Read
mod Write
pub mod Serialize
pub mod RoundTrip
pub mod Malformed
pub mod Tests
use Prim.Native.Nat.{bit_and, bit_or}
use cjdns_route_server.Base.{
  ℕ, zero, suc, ◌+◌, ◌-◌, ◌*◌, ◌/◌, ◌%◌, ◌^◌, ◌||◌, List, [], ◌∷◌, ◌++◌, length, get_elem?,
  set_elem?, ltb, leb, ◌==◌, if◌then◌else◌, Result, ok, panic, ◌>>=◌, ◌>>◌, fail_if, assert, expect,
  expect_ok, map_err, checked_sub,
}
use cjdns_route_server.Core.Scheme.{EncodingScheme, EncodingSchemeForm, form_try_new, try_new}

pub data EncodingSerializationError : Type 0 where
  bad_serialized_data bad_encoding_form : EncodingSerializationError

-- The variables of the loop of `serialize_scheme`.
pub record Packed : Type 0 where
  pub result_vec : List ℕ
  pub pos : ℕ
  pub cur_byte_num : ℕ
  pub cur_bit_num : ℕ

abbrev pub empty_packed : Packed
empty_packed = record { result_vec = []; pos = 0; cur_byte_num = 0; cur_bit_num = 0 }

-- A new byte on each eighth bit.
unfoldable pub next_byte : Packed → Packed
next_byte s =
    if s.pos % 8 == 0
    then record s {
      result_vec = s.result_vec ++ (0 ∷ []);
      cur_byte_num = s.cur_byte_num + 1;
      cur_bit_num = 0;
    }
    else s

-- The lowest bit of `acc` goes to the current place.
unfoldable pub write_bit : ℕ → Packed → Result EncodingSerializationError Packed
write_bit acc s = do
  mask ← if ltb s.cur_bit_num 8 then ok (2 ^ s.cur_bit_num) else panic
  v ←
      if acc % 2 == 1
      then (checked_sub s.cur_byte_num 1 >>= λ i. expect (get_elem? s.result_vec i) >>= λ b.
          expect (set_elem? s.result_vec i (bit_or b mask)))
      else ok s.result_vec
  ok (record s { result_vec = v; pos = s.pos + 1; cur_bit_num = s.cur_bit_num + 1 })

-- The loop over the bits of a form, and the `assert_eq!` behind it.
unfoldable pub write_bits : ℕ → ℕ → Packed → Result EncodingSerializationError Packed
write_bits zero acc s = do assert (acc == 0); ok s
write_bits (suc bits_needed) acc s = do
  s' ← write_bit acc (next_byte s)
  write_bits bits_needed (acc / 2) s'

-- The `u64` of a form: its three fields.
unfoldable pub form_acc : EncodingSchemeForm → ℕ
form_acc f =
    let acc0 = if ltb 0 f.prefix_len then bit_or 0 f.prefix else 0 in
    let acc1 = bit_or (acc0 * 2 ^ 5 % 2 ^ 64) f.bit_count in
    bit_or (acc1 * 2 ^ 5 % 2 ^ 64) f.prefix_len

unfoldable pub write_form : EncodingSchemeForm → Packed → Result EncodingSerializationError Packed
write_form f s = do
  fail_if (ltb 31 f.prefix_len) bad_encoding_form
  fail_if (ltb f.bit_count 1 || ltb 31 f.bit_count) bad_encoding_form
  write_bits (5 + 5 + f.prefix_len) (form_acc f) s

unfoldable pub write_forms : EncodingScheme → Packed → Result EncodingSerializationError Packed
write_forms [] s = ok s
write_forms (f ∷ fs) s = do s' ← write_form f s; write_forms fs s'

unfoldable pub serialize_scheme : EncodingScheme → Result EncodingSerializationError (List ℕ)
serialize_scheme scheme = do s ← write_forms scheme empty_packed; ok s.result_vec

-- The loop of `read_bits`: the bit at `pos` counts from the highest bit of the last byte.
unfoldable pub read_bits_loop : List ℕ → ℕ → ℕ → ℕ → Result EncodingSerializationError ℕ
read_bits_loop bytes zero pos acc = ok acc
read_bits_loop bytes (suc bits_left) pos acc = do
  let cur_byte_num = (pos - pos % 8) / 8
  let cur_bit_num = pos % 8
  let byte_mask = 128 / 2 ^ cur_bit_num
  let acc1 = acc * 2 % 2 ^ 32
  last ← checked_sub (length bytes) 1
  i ← checked_sub last cur_byte_num
  cur_byte ← expect (get_elem? bytes i)
  let acc2 = if bit_and cur_byte byte_mask == 0 then bit_and acc1 (2 ^ 32 - 2) else bit_or acc1 1
  read_bits_loop bytes bits_left (pos + 1) acc2

unfoldable pub read_bits : List ℕ → ℕ → ℕ → Result EncodingSerializationError ℕ
read_bits bytes position bits_amount = do
  assert (leb bits_amount 32)
  assert (leb (position + bits_amount) (length bytes * 8))
  read_bits_loop bytes bits_amount position 0

-- One round of the loop of `deserialize_scheme`: the form that ends below `cur_pos`.
unfoldable pub read_form : List ℕ → ℕ → Result EncodingSerializationError (EncodingSchemeForm × ℕ)
read_form scheme_bytes cur_pos = do
  pos1 ← checked_sub cur_pos 5
  prefix_len ← read_bits scheme_bytes pos1 5
  pos2 ← checked_sub pos1 5
  bit_count ← read_bits scheme_bytes pos2 5
  pos3 ← checked_sub pos2 prefix_len
  prefix ← read_bits scheme_bytes pos3 (prefix_len % 2 ^ 8)
  form ← expect_ok (form_try_new (bit_count % 2 ^ 8) (prefix_len % 2 ^ 8) prefix)
  ok (form, pos3)

-- The loop, on fuel: every form takes ten bits at least.
unfoldable pub read_forms :
    ℕ → List ℕ → ℕ → EncodingScheme → Result EncodingSerializationError EncodingScheme
read_forms zero scheme_bytes cur_pos result = panic
read_forms (suc fuel) scheme_bytes cur_pos result = do
  (form, pos) ← read_form scheme_bytes cur_pos
  let result' = result ++ (form ∷ [])
  if ltb pos (5 + 5) then ok result' else read_forms fuel scheme_bytes pos result'

-- The length times eight is taken to fit a `u32`, as it does below 512 megabytes.
unfoldable pub deserialize_scheme : List ℕ → Result EncodingSerializationError EncodingScheme
deserialize_scheme scheme_bytes = do
  fail_if (ltb (length scheme_bytes) 2) bad_serialized_data
  let cur_pos = length scheme_bytes * 8
  result ← read_forms cur_pos scheme_bytes cur_pos []
  map_err (try_new result) bad_serialized_data
