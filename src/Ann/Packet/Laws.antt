-- ===== src/Ann/Packet/Laws.antt =====
-- The check of a packet asks the signature scheme about the right parts of it.
use cjdns_route_server.Base.{
  ℕ, ◌<◌, ◌≤◌, ◌≡◌, refl, arith, List, length, take, drop, length-take, length-drop, ok, err, ◌>>=◌,
  lt→ltb, ◌⊎◌, inl, inr, if◌then◌else◌, ge→ltb, Result, panic, true, false, Bool-cases,
}
use native.Mathlib.Decide.{dec_le}
use cjdns_route_server.Ann.Models.{
  External, IsExternal, has_low_scalar, PacketError, cannot_instantiate_packet,
  invalid_packet_signature,
}
use cjdns_route_server.Ann.Packet.{
  try_new, check, get_signature_bytes, get_pub_key_bytes, get_signed_data,
}

module _ (x : External) (laws : IsExternal x) where
  -- The verdict of the signature scheme on the first 64 bytes as the signature, all bytes behind
  -- them as what is signed and the first 32 of those as the key.
  abbrev pub verdict : List ℕ → Result PacketError (Unit {0})
  verdict bytes =
      if x.verify_detached (take 64 bytes) (drop 64 bytes) (take 32 (drop 64 bytes))
      then ok tt
      else err invalid_packet_signature

  accepted :
      (bytes : List ℕ)
      → 120 ≤ length bytes
      → has_low_scalar (take 64 bytes) ≡ true
      → (try_new bytes >>= check x) ≡ verdict bytes
  unfolding try_new check get_signature_bytes get_pub_key_bytes get_signed_data
  accepted bytes h low =
      let left = length-drop 64 bytes in
      rw
        (
          ge→ltb (length bytes) 120 h,
          ge→ltb (length bytes) 64 (omega arith),
          laws.signature_accepted (take 64 bytes) (length-take 64 bytes (omega arith)) low,
          ge→ltb (length (drop 64 bytes)) 32 (omega (arith, left)),
          laws.key_size (take 32 (drop 64 bytes))
              (length-take 32 (drop 64 bytes) (omega (arith, left))),
        )
        refl

  refused :
      (bytes : List ℕ)
      → 120 ≤ length bytes
      → has_low_scalar (take 64 bytes) ≡ false
      → (try_new bytes >>= check x) ≡ panic
  unfolding try_new check get_signature_bytes
  refused bytes h high =
      rw
        (
          ge→ltb (length bytes) 120 h,
          ge→ltb (length bytes) 64 (omega arith),
          laws.signature_refused (take 64 bytes) (length-take 64 bytes (omega arith)) high,
        )
        refl

  too_short :
      (bytes : List ℕ)
      → length bytes < 120
      → (try_new bytes >>= check x) ≡ err cannot_instantiate_packet
  unfolding try_new
  too_short bytes h = rw (lt→ltb (length bytes) 120 h) refl

  -- What the check of a packet gives for some bytes.
  abbrev pub Checked : List ℕ → Result PacketError (Unit {0}) → Type 0
  Checked bytes out =
      ((120 ≤ length bytes) × (has_low_scalar (take 64 bytes) ≡ true) × (out ≡ verdict bytes))
      ⊎ ((120 ≤ length bytes) × (has_low_scalar (take 64 bytes) ≡ false) × (out ≡ panic))
      ⊎ ((length bytes < 120) × (out ≡ err cannot_instantiate_packet))

  -- Fewer than 120 bytes are refused. Others are taken as a packet, and then the check panics if one of
  -- the three high bits of byte 63 is set, which `Signature::from_bytes` refuses; otherwise it is the
  -- verdict of the signature scheme on the signature, the signed bytes and the key where the format
  -- has them.
  pub check-Checked : (bytes : List ℕ) → Checked bytes (try_new bytes >>= check x)
  check-Checked bytes = elim (dec_le 120 (length bytes)) [
    | yes h ↦ elim (Bool-cases (has_low_scalar (take 64 bytes))) [
      | inl low ↦ inl (h, low, accepted bytes h low)
      | inr high ↦ inr (inl (h, high, refused bytes h high))
    ]
    | no h ↦ inr (inr (omega arith, too_short bytes (omega arith)))
  ]
