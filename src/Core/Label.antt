-- ===== src/Core/Label.antt =====
-- cjdns-core/src/routinglabel.rs: routing labels over 32, 64 or 128 bits.
pub mod Bits
use cjdns_route_server.Base.{
  ℕ, zero, suc, ◌-◌, ◌/◌, ◌^◌, ◌≤◌, ◌<◌, Option, none, some, ltb, leb, ◌==◌, if◌then◌else◌,
}

-- The types that implement the trait `LabelBits`.
pub data LabelBits : Type 0 where
  u32 u64 u128 : LabelBits

-- `size_of::<Self>() * 8`
abbrev pub bit_size : LabelBits → ℕ
bit_size u32 = 32
bit_size u64 = 64
bit_size u128 = 128

abbrev pub max_payload_bits : LabelBits → ℕ
max_payload_bits L = bit_size L - 4

-- `leading_zeros` of a number of `w` bits.
unfoldable pub leading_zeros : ℕ → ℕ → ℕ
leading_zeros zero x = 0
leading_zeros (suc w) x = let rest = leading_zeros w x in if leb (2 ^ w) x then 0 else suc rest

pub record RoutingLabel (L : LabelBits) : Type 0 where
  pub bits : ℕ

-- What every label keeps: it is not zero, and fits its type.
pub record IsLabel (L : LabelBits) (l : RoutingLabel L) : Type 0 where
  pub non_zero : 1 ≤ l.bits
  pub fits : l.bits < 2 ^ bit_size L

module _ (L : LabelBits) where
  unfoldable pub highest_set_bit : ℕ → Option ℕ
  highest_set_bit x = if x == 0 then none else some (bit_size L - 1 - leading_zeros (bit_size L) x)

  unfoldable pub try_new : ℕ → Option (RoutingLabel L)
  try_new bits = if bits == 0 then none else some (record { bits = bits })

  unfoldable pub self_reference : RoutingLabel L
  self_reference = record { bits = 1 }

  -- Size in bytes.
  unfoldable pub size : RoutingLabel L → ℕ
  size l = bit_size L / 8
