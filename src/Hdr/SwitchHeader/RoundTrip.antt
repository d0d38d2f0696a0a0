-- ===== src/Hdr/SwitchHeader/RoundTrip.antt =====
-- Switch headers survive the wire, in both directions.
use Prim.Native.Nat.{bit_and}
use cjdns_route_server.Base.{
  ℕ, ◌+◌, ◌*◌, ◌/◌, ◌%◌, ◌^◌, ◌≤◌, ◌<◌, ◌≡◌, sym, ◌∙◌, arith, Bool, true, false, not, ◌&&◌, List,
  [], ◌∷◌, ◌++◌, length, length-append, append_assoc, be_bytes, length-be_bytes, IsBytes,
  All-append, be_bytes-IsBytes, ok, ◌==◌, ge→ltb, ne→==, eq→==,
}
use cjdns_route_server.Base.Bits.{bit_or_fields, bit_and_mask}
use cjdns_route_server.Bytes.Reader.Laws.{
  read_u8-cons, read_u16_be-last, read_u64_be-bytes, read_exact-ok,
}
use cjdns_route_server.Bytes.Writer.{
  with_capacity, into_vec, write_slice, write_u8, write_u16_be, write_u64_be,
}
use cjdns_route_server.Core.Label.{IsLabel, u64, try_new}
use cjdns_route_server.Hdr.SwitchHeader.{
  SwitchHeader, read_fields, from_fields, parse, flag, congestion_byte, version_byte, serialize,
}

-- The fields fit their bits.
pub record IsSwitchHeader (h : SwitchHeader) : Type 0 where
  pub label_valid : IsLabel u64 h.label
  pub congestion_fits : h.congestion < 128
  pub version_known : h.version ≤ 1
  pub shift_fits : h.label_shift < 64
  pub penalty_fits : h.penalty < 2 ^ 16

flag-lt : (b : Bool) → flag b < 2 ^ 1
flag-lt true = omega arith
flag-lt false = omega arith

-- The twelve bytes: label, congestion with the flag, version with the shift, penalty.
unfoldable pub frame : ℕ → ℕ → ℕ → ℕ → List ℕ
frame l a b p = be_bytes 8 l ++ (a ∷ b ∷ be_bytes 2 p)

length-frame : (l a b p : ℕ) → length (frame l a b p) ≡ 12
unfolding frame
length-frame l a b p = omega (
  arith,
  length-append (be_bytes 8 l) (a ∷ b ∷ be_bytes 2 p),
  length-be_bytes 8 l,
  length-be_bytes 2 p,
)

read_fields-frame :
    (l a b p : ℕ) → l < 2 ^ 64 → p < 2 ^ 16 → read_fields (frame l a b p) ≡ ok ((l, a, b, p), [])
unfolding read_fields frame
read_fields-frame l a b p hl hp = rw (
  read_u64_be-bytes l (a ∷ b ∷ be_bytes 2 p) hl,
  read_u8-cons,
  read_u8-cons,
  read_u16_be-last p hp,
)

pub parse-frame :
    (l a b p : ℕ) → l < 2 ^ 64 → p < 2 ^ 16 → parse (frame l a b p) ≡ from_fields l a b p
unfolding parse
parse-frame l a b p hl hp = rw (
    read_exact-ok 12 read_fields (frame l a b p) (l, a, b, p) (sym (length-frame l a b p))
      (read_fields-frame l a b p hl hp))

version_test : (n : ℕ) → n ≤ 1 → (not (n == 1) && not (n == 0)) ≡ false
version_test n h = ground arith

flag_test : (c : ℕ) (s : Bool) → ((c * 2 ^ 1 + flag s) % 2 == 1) ≡ s
flag_test c true = eq→== _ 1 (omega arith)
flag_test c false = ne→== _ 1 (omega arith)

-- The shared bytes of a valid header as sums.
congestion_byte-eq :
    (h : SwitchHeader)
    → IsSwitchHeader h
    → congestion_byte h ≡ h.congestion * 2 ^ 1 + flag h.suppress_errors
unfolding congestion_byte
congestion_byte-eq h v =
    let small : h.congestion * 2 % 256 ≡ h.congestion * 2 ^ 1 = omega (arith, v.congestion_fits) in
    rw small (bit_or_fields 1 h.congestion (flag h.suppress_errors) (flag-lt h.suppress_errors))

version_byte-eq : (h : SwitchHeader) → IsSwitchHeader h → version_byte h ≡ 1 * 2 ^ 6 + h.label_shift
unfolding version_byte
version_byte-eq h v =
    let known = v.version_known in ground (arith, bit_or_fields 6 1 h.label_shift v.shift_fits)

unfoldable pub wire : SwitchHeader → List ℕ
wire h =
    frame h.label.bits (h.congestion * 2 ^ 1 + flag h.suppress_errors) (1 * 2 ^ 6 + h.label_shift)
      h.penalty

pub serialize-wire : (h : SwitchHeader) → IsSwitchHeader h → serialize h ≡ ok (wire h)
unfolding serialize wire frame with_capacity into_vec write_slice write_u8 write_u16_be write_u64_be
serialize-wire h v =
    rw
      (
        version_test h.version v.version_known,
        ge→ltb 63 h.label_shift (omega (arith, v.shift_fits)),
        ge→ltb 127 h.congestion (omega (arith, v.congestion_fits)),
        congestion_byte-eq h v,
        version_byte-eq h v,
      )
      (simp append_assoc)

from_fields-eq :
    (h : SwitchHeader)
    → IsSwitchHeader h
    → from_fields h.label.bits
        (h.congestion * 2 ^ 1 + flag h.suppress_errors)
        (1 * 2 ^ 6 + h.label_shift)
        h.penalty
      ≡ ok (record h { version = 1 })
unfolding from_fields try_new
from_fields-eq h v =
    let a = h.congestion * 2 ^ 1 + flag h.suppress_errors in
    let b = 1 * 2 ^ 6 + h.label_shift in
    let high : a / 2 ≡ h.congestion = omega (arith, flag-lt h.suppress_errors) in
    let low : bit_and b 0x3f ≡ h.label_shift = omega (arith, bit_and_mask 6 b, v.shift_fits) in
    let version : b / 2 ^ 6 ≡ 1 = omega (arith, v.shift_fits) in
    rw (
      ne→== h.label.bits 0 (omega (arith, v.label_valid.non_zero)),
      high,
      bit_and_mask 1 a,
      flag_test h.congestion h.suppress_errors,
      version,
      low,
    )

wire-IsBytes : (h : SwitchHeader) → IsSwitchHeader h → IsBytes (wire h)
unfolding wire frame
wire-IsBytes h v =
    let congestion_byte : h.congestion * 2 ^ 1 + flag h.suppress_errors < 256 =
      omega (arith, v.congestion_fits, flag-lt h.suppress_errors) in
    let version_byte : 1 * 2 ^ 6 + h.label_shift < 256 = omega (arith, v.shift_fits) in
    All-append _ (be_bytes 8 h.label.bits) _ (be_bytes-IsBytes 8 h.label.bits)
      (congestion_byte, (version_byte, be_bytes-IsBytes 2 h.penalty))

-- A header whose fields fit their bits is written as twelve bytes, and these are read as the same header, with the
-- current version filled in where it was left 0.
pub parse_switch-serialize_switch :
    (h : SwitchHeader)
    → IsSwitchHeader h
    → (bytes : List ℕ) × (serialize h ≡ ok bytes)
      × (length bytes ≡ 12)
      × IsBytes bytes
      × (parse bytes ≡ ok (record h { version = 1 }))
parse_switch-serialize_switch h v = (
  wire h,
  serialize-wire h v,
  unfold wire in length-frame _ _ _ _,
  wire-IsBytes h v,
  unfold wire in parse-frame _ _ _ _ v.label_valid.fits v.penalty_fits ∙ from_fields-eq h v,
)
