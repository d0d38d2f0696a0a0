-- ===== src/Checksum/Tests.antt =====
-- The values of the source's own tests.
use cjdns_route_server.Base.{ℕ, ◌-◌, ◌%◌, ◌^◌, ◌<◌, arith, [], ◌∷◌, ◌≡◌, refl, ok}
use cjdns_route_server.Checksum.Laws.{finalize_checksum-ok, cksum_raw-ok, le_value}
use cjdns_route_server.Checksum.{
  cksum_raw, sum_be_words, sum_words, finalize_checksum, fold_sum, swap_bytes,
}

one_byte : cksum_raw (0 ∷ []) ≡ ok 0xffff
unfolding cksum_raw sum_be_words sum_words finalize_checksum fold_sum swap_bytes
one_byte = refl

three_bytes : cksum_raw (0 ∷ 1 ∷ 2 ∷ []) ≡ ok 0xfdfe
unfolding cksum_raw sum_be_words sum_words finalize_checksum fold_sum swap_bytes
three_bytes = refl

four_bytes : cksum_raw (0xff ∷ 0xfe ∷ 0xfd ∷ 0xfc ∷ []) ≡ ok 0x204
unfolding cksum_raw sum_be_words sum_words finalize_checksum fold_sum swap_bytes
four_bytes = refl

finalize_checksum-ok_example :
    (c : ℕ) × (finalize_checksum 0x12345 ≡ ok c)
    × (c < 2 ^ 16)
    × (swap_bytes (0xFFFF - c) % 0xFFFF ≡ 0x12345 % 0xFFFF)
finalize_checksum-ok_example = finalize_checksum-ok 0x12345 (omega arith)

cksum_raw-ok_example :
    (c : ℕ) × (cksum_raw (1 ∷ 2 ∷ 3 ∷ []) ≡ ok c)
    × (c < 2 ^ 16)
    × (swap_bytes (0xFFFF - c) % 0xFFFF ≡ le_value (1 ∷ 2 ∷ 3 ∷ []) % 0xFFFF)
cksum_raw-ok_example = cksum_raw-ok (1 ∷ 2 ∷ 3 ∷ []) (omega arith) (omega arith)
