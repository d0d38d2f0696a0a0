-- ===== src/Core/Splice/Layout.antt =====
-- Labels laid out as `rest`, director and prefix, and how the code cuts them apart.
use cjdns_route_server.Base.{
  ℕ, suc, ◌+◌, ◌-◌, ◌*◌, ◌/◌, ◌%◌, ◌^◌, ◌≤◌, ◌<◌, ◌≡◌, ◌≢◌, ap, ◌∙◌, arith, ok, ge→ltb, lt→ltb,
}
use cjdns_route_server.Base.Bits.{div-fields, mod-fields, pow_add}
use native.Mathlib.Decide.{dec_lt}
use native.Mathlib.Nat.{one-le-pow, mul_comm, div-le_self, pow-le-pow_right}
use cjdns_route_server.Core.Label.{LabelBits, bit_size, max_payload_bits}
use cjdns_route_server.Core.Label.Bits.{top_bit, top_bit_lem}
use cjdns_route_server.Core.Scheme.{EncodingSchemeForm}
use cjdns_route_server.Core.Splice.{get_director}
use cjdns_route_server.Core.Splice.Laws.{max_payload-le}
use cjdns_route_server.Core.Splice.Paths.{label}

times_le : (x y p : ℕ) → x ≤ y → x * p ≤ y * p
times_le x y p h = grind arith

-- The bits of a label whose first director `dir` is written in the form `f`, below `rest`.
unfoldable pub laid_out : ℕ → ℕ → EncodingSchemeForm → ℕ
laid_out rest dir f = (rest * 2 ^ f.bit_count + dir) * 2 ^ f.prefix_len + f.prefix

-- The director and the prefix fit their fields.
pub record IsWritten (dir : ℕ) (f : EncodingSchemeForm) : Type 0 where
  pub some_bits : 1 ≤ f.bit_count
  pub director_fits : dir < 2 ^ f.bit_count
  pub prefix_fits : f.prefix < 2 ^ f.prefix_len

field_lt : (dir s b p : ℕ) → dir < b → s < p → dir * p + s < b * p
field_lt dir s b p hd hs = omega (arith, times_le (suc dir) b p hd)

lt_of_pow : (m n : ℕ) → 2 ^ m < 2 ^ n → m < n
lt_of_pow m n h = elim (dec_lt m n) [
  | yes l ↦ l
  | no l ↦
      absurd (omega (arith, pow-le-pow_right {n = 2} (omega arith) {i = n} {j = m} (omega arith)))
]

-- One field cut out of the middle of a number by shifting left and then right, in arithmetic:
-- `q` is what the width of the type cuts off and `s` what the shift to the right drops.
middle_field :
    (rest dir s b p pad : ℕ)
    → dir < b
    → s < p
    → 1 ≤ pad
    → ((rest * b + dir) * p + s) * pad % (b * p * pad) / (p * pad) ≡ dir
middle_field rest dir s b p pad hd hs hp =
    let low : dir * p + s < b * p = field_lt dir s b p hd hs in
    let low_pad : (dir * p + s) * pad < b * p * pad =
      omega (arith, times_le (suc (dir * p + s)) (b * p) pad low) in
    let small : s * pad < p * pad = omega (arith, times_le (suc s) p pad hs) in
    let split : ((rest * b + dir) * p + s) * pad ≡ rest * (b * p * pad) + (dir * p + s) * pad =
      omega arith in
    let parts : (dir * p + s) * pad ≡ dir * (p * pad) + s * pad = omega arith in
    ap (λ n. n % (b * p * pad) / (p * pad)) split
    ∙ ap (λ n. n / (p * pad)) (mod-fields rest (b * p * pad) ((dir * p + s) * pad) low_pad)
    ∙ ap (λ n. n / (p * pad)) parts
    ∙ div-fields dir (p * pad) (s * pad) small

module _ (rest dir : ℕ) (f : EncodingSchemeForm) (w : IsWritten dir f) where
  pub laid_out-above : laid_out rest dir f / 2 ^ (f.bit_count + f.prefix_len) ≡ rest
  unfolding laid_out
  laid_out-above =
      let b = 2 ^ f.bit_count in
      let p = 2 ^ f.prefix_len in
      let split : laid_out rest dir f ≡ rest * (b * p) + (dir * p + f.prefix) = omega arith in
      rw (pow_add f.bit_count f.prefix_len, split)
        (div-fields rest (b * p) (dir * p + f.prefix)
          (field_lt dir f.prefix b p w.director_fits w.prefix_fits))

  -- A label that fits its type leaves room above the form.
  pub laid_out-room :
      (L : LabelBits)
      → 1 ≤ rest
      → laid_out rest dir f < 2 ^ bit_size L
      → f.bit_count + f.prefix_len < bit_size L
  unfolding laid_out
  laid_out-room L pos fits =
      let n = f.bit_count + f.prefix_len in
      lt_of_pow n (bit_size L) (
        omega (
          arith,
          pow_add f.bit_count f.prefix_len,
          times_le 1 rest (2 ^ f.bit_count * 2 ^ f.prefix_len) pos,
        ))

  pub get_director-laid_out :
      (L : LabelBits)
      → 1 ≤ rest
      → laid_out rest dir f < 2 ^ bit_size L
      → get_director L (label L (laid_out rest dir f)) f ≡ ok dir
  unfolding get_director
  get_director-laid_out L pos fits =
      let room = laid_out-room L pos fits in
      let pad = bit_size L - f.bit_count - f.prefix_len in
      let width : bit_size L ≡ f.bit_count + f.prefix_len + pad = omega arith in
      rw
        (
          ge→ltb (bit_size L) f.bit_count (omega arith),
          ge→ltb (bit_size L - f.bit_count) f.prefix_len (omega arith),
          lt→ltb pad (bit_size L) (omega (arith, w.some_bits)),
          lt→ltb (pad + f.prefix_len) (bit_size L) (omega (arith, w.some_bits)),
        )
        (ap ok (
          ap (λ n. laid_out rest dir f * 2 ^ pad % n / 2 ^ (pad + f.prefix_len))
            (width-pow pad width)
          ∙ ap
              (λ n.
                laid_out rest dir f * 2 ^ pad % (2 ^ f.bit_count * 2 ^ f.prefix_len * 2 ^ pad) / n)
              shift-pow
          ∙ unfold laid_out in
            middle_field rest dir f.prefix (2 ^ f.bit_count) (2 ^ f.prefix_len) (2 ^ pad)
              w.director_fits w.prefix_fits (one-le-pow pad 2 (omega arith))))
    where
      width-pow :
          (pad : ℕ)
          → bit_size L ≡ f.bit_count + f.prefix_len + pad
          → 2 ^ bit_size L ≡ 2 ^ f.bit_count * 2 ^ f.prefix_len * 2 ^ pad
      width-pow pad e =
          ap (λ n. 2 ^ n) e
          ∙ pow_add (f.bit_count + f.prefix_len) pad
          ∙ ap (λ n. n * 2 ^ pad) (pow_add f.bit_count f.prefix_len)

      shift-pow :
          2 ^ (bit_size L - f.bit_count - f.prefix_len + f.prefix_len)
          ≡ 2 ^ f.prefix_len * 2 ^ (bit_size L - f.bit_count - f.prefix_len)
      shift-pow = pow_add _ f.prefix_len ∙ mul_comm _ _

module _ (L : LabelBits) where
  -- The bits that a label takes up.
  abbrev pub used_bits : ℕ → EncodingSchemeForm → ℕ
  used_bits rest f = top_bit L rest + 1 + f.bit_count + f.prefix_len

  pub laid_out-lt :
      (rest dir : ℕ) (f : EncodingSchemeForm)
      → IsWritten dir f
      → 1 ≤ rest
      → rest < 2 ^ bit_size L
      → used_bits rest f ≤ max_payload_bits L
      → laid_out rest dir f < 2 ^ bit_size L
  unfolding laid_out
  laid_out-lt rest dir f w pos fits short =
      let t = top_bit L rest in
      let b = 2 ^ f.bit_count in
      let p = 2 ^ f.prefix_len in
      let low = field_lt rest dir (suc rest) b (omega arith) w.director_fits in
      let all = field_lt (rest * b + dir) f.prefix (suc rest * b) p low w.prefix_fits in
      let top : suc rest ≤ 2 ^ t * 2 = (top_bit_lem L rest pos fits).2.upper in
      let scaled : suc rest * b * p ≤ 2 ^ t * 2 * b * p =
        times_le (suc rest * b) (2 ^ t * 2 * b) p (times_le (suc rest) (2 ^ t * 2) b top) in
      let power : 2 ^ used_bits rest f ≡ 2 ^ t * 2 * b * p =
        pow_add (t + 1 + f.bit_count) f.prefix_len
        ∙ ap (λ n. n * p) (pow_add (t + 1) f.bit_count ∙ ap (λ n. n * b) (pow_add t 1)) in
      let room : 2 ^ used_bits rest f ≤ 2 ^ bit_size L =
        pow-le-pow_right {n = 2} (omega arith) (omega (arith, max_payload-le L)) in
      omega (arith, all, scaled, power, room)

  -- The parts of a label that fits its type fit too.
  pub rest-lt :
      (rest dir : ℕ) (f : EncodingSchemeForm)
      → IsWritten dir f
      → laid_out rest dir f < 2 ^ bit_size L
      → rest < 2 ^ bit_size L
  rest-lt rest dir f w fits =
      let below = div-le_self (laid_out rest dir f) (2 ^ (f.bit_count + f.prefix_len)) in
      omega (arith, below, laid_out-above rest dir f w)

  pub parts-lt :
      (rest dir : ℕ) (f : EncodingSchemeForm)
      → laid_out rest dir f < 2 ^ bit_size L
      → (rest * 2 ^ f.bit_count < 2 ^ bit_size L)
        × ((rest * 2 ^ f.bit_count + dir) * 2 ^ f.prefix_len < 2 ^ bit_size L)
  unfolding laid_out
  parts-lt rest dir f fits =
      let one = one-le-pow f.prefix_len 2 (omega arith) in
      let whole = times_le 1 (2 ^ f.prefix_len) (rest * 2 ^ f.bit_count + dir) one in
      (omega (arith, whole), omega arith)

  pub laid_out-ne :
      (rest dir : ℕ) (f : EncodingSchemeForm)
      → 1 ≤ rest
      → (rest * 2 ^ f.bit_count + dir) * 2 ^ f.prefix_len + f.prefix ≢ 0
  laid_out-ne rest dir f pos =
      let p = one-le-pow f.prefix_len 2 (omega arith) in
      let b = one-le-pow f.bit_count 2 (omega arith) in
      let upper : 1 ≤ rest * 2 ^ f.bit_count = grind arith in
      let all : 1 ≤ (rest * 2 ^ f.bit_count + dir) * 2 ^ f.prefix_len = grind arith in omega arith
