-- ===== src/Checksum.antt =====
-- netchecksum/src/lib.rs: the checksum of control messages, and the one of UDP over IPv4. What
-- cannot fail but by a panic has no errors: it is a `Result ⊥`.
pub mod Laws
mod Tests
use Prim.Native.Nat.{bit_and}
use cjdns_route_server.Base.{
  ℕ, zero, suc, ◌+◌, ◌-◌, ◌*◌, ◌/◌, ◌%◌, ◌^◌, Bool, Option, none, some, List, [], ◌∷◌, ◌++◌, length,
  get_elem?, be_bytes, ltb, ◌==◌, if◌then◌else◌, Result, ok, err, panic, ◌>>=◌, ◌>>◌, assert,
  expect, expect_ok, fail_if,
}

-- The sum of the words, the low byte first, in the wrapping arithmetic of `u32`. A last odd byte
-- is left to the caller.
unfoldable pub sum_words : List ℕ → ℕ → ℕ
sum_words [] sum = sum
sum_words (a ∷ []) sum = sum
sum_words (a ∷ b ∷ rest) sum = sum_words rest ((sum + (a + 256 * b)) % 2 ^ 32)

-- The last byte is added with the checked `+=`.
unfoldable pub sum_be_words : List ℕ → Result ⊥ ℕ
sum_be_words bytes =
    let sum = sum_words bytes 0 in
    if bit_and (length bytes) 1 == 0
    then ok sum
    else (expect (get_elem? bytes (length bytes - 1)) >>= λ last.
        if ltb (sum + last) (2 ^ 32) then ok (sum + last) else panic)

-- `while sum > 0xFFFF`, on fuel.
unfoldable pub fold_sum : ℕ → ℕ → Option ℕ
fold_sum zero sum = none
fold_sum (suc fuel) sum =
    let rest = fold_sum fuel (sum / 2 ^ 16 + sum % 2 ^ 16) in
    if ltb 0xFFFF sum then rest else some sum

-- A sum of 32 bits takes at most two rounds, and the third finds it folded.
abbrev pub fold_fuel : ℕ
fold_fuel = 3

-- `u16::from_be` on a machine whose low byte comes first.
unfoldable pub swap_bytes : ℕ → ℕ
swap_bytes w = w % 256 * 256 + w / 256

unfoldable pub finalize_checksum : ℕ → Result ⊥ ℕ
finalize_checksum sum = do
  folded ← expect (fold_sum fold_fuel sum)
  ok (0xFFFF - swap_bytes (folded % 2 ^ 16))

unfoldable pub cksum_raw : List ℕ → Result ⊥ ℕ
cksum_raw buf = do sum ← sum_be_words buf; finalize_checksum sum

pub data TooLong : Type 0 where
  too_long : TooLong

unfoldable pub cksum_udp4 : List ℕ → List ℕ → ℕ → ℕ → List ℕ → Result TooLong ℕ
cksum_udp4 src_ip dst_ip src_port dst_port content = do
  fail_if (ltb 0xFFFF (8 + length content)) too_long
  let udp_length = be_bytes 2 (8 + length content)
  expect_ok (
      cksum_raw (
        src_ip
        ++ (dst_ip
            ++ ((0 ∷ 17 ∷ [])
                ++ (udp_length
                    ++ (be_bytes 2 src_port
                        ++ (be_bytes 2 dst_port ++ (udp_length ++ ((0 ∷ 0 ∷ []) ++ content)))))))))
