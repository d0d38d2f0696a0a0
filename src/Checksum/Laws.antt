-- ===== src/Checksum/Laws.antt =====
-- The checksum as a number modulo 0xFFFF, for any buffer that the checked addition takes.
use Prim.Native.Nat.{bit_and}
use native.Mathlib.Decide.{ℕ_discrete, dec_le}
use cjdns_route_server.Base.{
  refl, ◌≢◌, ◌∙◌, eq→==, ne→==, lt→ltb, ge→ltb, ℕ, zero, suc, ◌+◌, ◌-◌, ◌*◌, ◌/◌, ◌%◌, ◌^◌, ◌≤◌,
  ◌<◌, ◌≡◌, arith, List, [], ◌∷◌, length, some, ok, get_elem?, IsBytes,
}
use cjdns_route_server.Base.Bits.{bit_and_mask}
use cjdns_route_server.Checksum.{
  sum_words, sum_be_words, fold_sum, fold_fuel, swap_bytes, finalize_checksum, cksum_raw,
}

sum_words-le : (xs : List ℕ) (sum : ℕ) → IsBytes xs → sum_words xs sum ≤ sum + 32768 * length xs
unfolding sum_words
sum_words-le [] sum h = omega arith
sum_words-le (a ∷ []) sum h = omega arith
sum_words-le (a ∷ b ∷ rest) sum (ha, (hb, hs)) =
    omega (arith, sum_words-le rest ((sum + (a + 256 * b)) % 2 ^ 32) hs)

get_elem?-IsByte :
    (xs : List ℕ) (i : ℕ)
    → IsBytes xs
    → i < length xs
    → (b : ℕ) × (get_elem? xs i ≡ some b) × (b < 256)
get_elem?-IsByte [] i h short = absurd (omega arith)
get_elem?-IsByte (x ∷ xs) zero (hx, hs) short = (x, refl, hx)
get_elem?-IsByte (x ∷ xs) (suc i) (hx, hs) short = get_elem?-IsByte xs i hs (omega arith)

last-IsByte :
    (xs : List ℕ)
    → IsBytes xs
    → (length xs ≢ 0)
    → (b : ℕ) × (get_elem? xs (length xs - 1) ≡ some b) × (b < 256)
last-IsByte xs h some_bytes = get_elem?-IsByte xs (length xs - 1) h (omega arith)

-- The number that the bytes are with the lowest first.
unfoldable pub le_value : List ℕ → ℕ
le_value [] = 0
le_value (b ∷ bs) = b + 256 * le_value bs

-- The byte that the words leave over.
odd_byte : List ℕ → ℕ
odd_byte [] = 0
odd_byte (a ∷ []) = a
odd_byte (a ∷ b ∷ rest) = odd_byte rest

odd_byte-even : (xs : List ℕ) → length xs % 2 ≡ 0 → odd_byte xs ≡ 0
unfolding odd_byte
odd_byte-even [] h = refl
odd_byte-even (a ∷ []) h = absurd (omega arith)
odd_byte-even (a ∷ b ∷ rest) h = odd_byte-even rest (omega arith)

odd_byte-odd : (xs : List ℕ) → length xs % 2 ≢ 0 → get_elem? xs (length xs - 1) ≡ some (odd_byte xs)
unfolding odd_byte
odd_byte-odd [] h = absurd (h refl)
odd_byte-odd (a ∷ []) h = refl
odd_byte-odd (a ∷ b ∷ rest) h =
    let last : length (a ∷ b ∷ rest) - 1 ≡ suc (suc (length rest - 1)) = omega arith in
    rw last (odd_byte-odd rest (λ e. h (omega arith)))

-- The words and the byte left over are the bytes as a number, modulo 0xFFFF.
sum_words-le_value :
    (xs : List ℕ) (sum : ℕ)
    → IsBytes xs
    → sum + 32768 * length xs < 2 ^ 32
    → (sum_words xs sum + odd_byte xs) % 0xFFFF ≡ (sum + le_value xs) % 0xFFFF
unfolding sum_words odd_byte le_value
sum_words-le_value [] sum h small = omega arith
sum_words-le_value (a ∷ []) sum h small = omega arith
sum_words-le_value (a ∷ b ∷ rest) sum (ha, (hb, hs)) small =
    omega (arith, sum_words-le_value rest ((sum + (a + 256 * b)) % 2 ^ 32) hs (omega arith))

sum_be_words-ok :
    (xs : List ℕ)
    → IsBytes xs
    → length xs ≤ 131000
    → (sum : ℕ) × (sum_be_words xs ≡ ok sum)
      × (sum < 2 ^ 32)
      × (sum % 0xFFFF ≡ le_value xs % 0xFFFF)
unfolding sum_be_words
sum_be_words-ok xs h short =
    let bound = sum_words-le xs 0 h in
    let words = sum_words-le_value xs 0 h (omega arith) in
    let parity : bit_and (length xs) 1 ≡ length xs % 2 = bit_and_mask 1 (length xs) in
    elim (ℕ_discrete (bit_and (length xs) 1) 0) [
      | yes even ↦ (
        sum_words xs 0,
        rw (eq→== _ 0 even) refl,
        omega arith,
        omega (arith, odd_byte-even xs (omega arith), words),
      )
      | no odd ↦
          let (b, found, small) = last-IsByte xs h (λ e. odd (rw e refl)) in
          let last = odd_byte-odd xs (λ e. odd (parity ∙ e)) in
          let same : b ≡ odd_byte xs = cc in
          (
            sum_words xs 0 + b,
            rw (ne→== _ 0 odd, found, lt→ltb (sum_words xs 0 + b) (2 ^ 32) (omega arith)) refl,
            omega arith,
            omega (arith, same, words),
          )
    ]

-- The loop ends on this fuel, with the sum folded into 16 bits and kept modulo 0xFFFF.
abbrev Folds : ℕ → ℕ → Type 0
Folds fuel sum = (c : ℕ) × (fold_sum fuel sum ≡ some c) × (c ≤ 0xFFFF) × (c % 0xFFFF ≡ sum % 0xFFFF)

done-Folds : (fuel sum : ℕ) → sum ≤ 0xFFFF → Folds (suc fuel) sum
unfolding fold_sum
done-Folds fuel sum h = (sum, rw (ge→ltb 0xFFFF sum h) refl, h, refl)

step-Folds :
    (fuel sum : ℕ)
    → (sum ≤ 0xFFFF → ⊥)
    → Folds fuel (sum / 2 ^ 16 + sum % 2 ^ 16)
    → Folds (suc fuel) sum
unfolding fold_sum
step-Folds fuel sum h (c, ends, small, same) =
    (c, rw (lt→ltb 0xFFFF sum (omega arith)) ends, small, omega arith)

-- A 32-bit sum takes at most two rounds.
fold_sum-ok : (sum : ℕ) → sum < 2 ^ 32 → Folds fold_fuel sum
fold_sum-ok sum h = elim (dec_le sum 0xFFFF) [
  | yes small ↦ done-Folds 2 sum small
  | no large ↦ step-Folds 2 sum large (second (sum / 2 ^ 16 + sum % 2 ^ 16) (omega arith))
]
  where
    second : (s : ℕ) → s ≤ 131070 → Folds 2 s
    second s bound = elim (dec_le s 0xFFFF) [
      | yes small ↦ done-Folds 1 s small
      | no large ↦ step-Folds 1 s large (done-Folds 0 (s / 2 ^ 16 + s % 2 ^ 16) (omega arith))
    ]

-- For every 32-bit sum the loop of `finalize_checksum` ends, and the checksum is 16 bits wide:
-- turned back over and complemented, it is the sum modulo 0xFFFF.
pub finalize_checksum-ok :
    (sum : ℕ)
    → sum < 2 ^ 32
    → (c : ℕ) × (finalize_checksum sum ≡ ok c)
      × (c < 2 ^ 16)
      × (swap_bytes (0xFFFF - c) % 0xFFFF ≡ sum % 0xFFFF)
unfolding finalize_checksum swap_bytes
finalize_checksum-ok sum h =
    let (folded, ends, small, same) = fold_sum-ok sum h in
    (0xFFFF - swap_bytes (folded % 2 ^ 16), rw ends refl, omega arith, omega arith)

-- The checksum of up to 131000 bytes is defined and 16 bits wide. Complemented and with its bytes
-- swapped, it is the same modulo 0xFFFF as the number that the bytes are with the lowest first.
pub cksum_raw-ok :
    (xs : List ℕ)
    → IsBytes xs
    → length xs ≤ 131000
    → (c : ℕ) × (cksum_raw xs ≡ ok c)
      × (c < 2 ^ 16)
      × (swap_bytes (0xFFFF - c) % 0xFFFF ≡ le_value xs % 0xFFFF)
unfolding cksum_raw
cksum_raw-ok xs h short =
    let (sum, summed, fits, words) = sum_be_words-ok xs h short in
    let (c, final, small, same) = finalize_checksum-ok sum fits in
    (c, rw (summed, final) refl, small, same ∙ words)
