-- ===== src/Ann/Packet.antt =====
-- cjdns-ann/src/serialized_ann.rs, `serialized_data`: an announcement on the wire and the check of
-- its signature.
pub mod Laws
use cjdns_route_server.Base.{
  ℕ, ◌+◌, List, length, take, drop, ltb, if◌then◌else◌, Result, ok, err, panic, ◌>>=◌, ◌>>◌,
  fail_if, expect,
}
use cjdns_route_server.Ann.Models.{
  External, AnnHash, PacketError, cannot_instantiate_packet, invalid_packet_signature,
}

abbrev pub sign_size : ℕ
sign_size = 64

abbrev pub sign_key_size : ℕ
sign_key_size = 32

abbrev pub ip_size : ℕ
ip_size = 16

abbrev pub header_size : ℕ
header_size = sign_size + sign_key_size + ip_size + 8

abbrev pub announcement_min_size : ℕ
announcement_min_size = header_size

pub record AnnouncementPacket : Type 0 where
  pub ann_data : List ℕ

unfoldable pub try_new : List ℕ → Result PacketError AnnouncementPacket
try_new ann_data = do
  fail_if (ltb (length ann_data) announcement_min_size) cannot_instantiate_packet
  ok (record { ann_data = ann_data })

-- `&bytes[n..]` and `&bytes[..n]`
abbrev slice_from {ℓ} : {E : Type ℓ} → ℕ → List ℕ → Result E (List ℕ)
slice_from n bytes = if ltb (length bytes) n then panic else ok (drop n bytes)

abbrev slice_to {ℓ} : {E : Type ℓ} → ℕ → List ℕ → Result E (List ℕ)
slice_to n bytes = if ltb (length bytes) n then panic else ok (take n bytes)

module _ {ℓ} {E : Type ℓ} where
  unfoldable pub get_entities_bytes : AnnouncementPacket → Result E (List ℕ)
  get_entities_bytes p = slice_from header_size p.ann_data

  unfoldable pub get_header_bytes : AnnouncementPacket → Result E (List ℕ)
  get_header_bytes p = slice_to header_size p.ann_data

  unfoldable pub get_signature_bytes : AnnouncementPacket → Result E (List ℕ)
  get_signature_bytes p = slice_to sign_size p.ann_data

  unfoldable pub get_signed_data : AnnouncementPacket → Result E (List ℕ)
  get_signed_data p = slice_from sign_size p.ann_data

  unfoldable pub get_pub_key_bytes : AnnouncementPacket → Result E (List ℕ)
  unfolding get_signed_data
  get_pub_key_bytes p = do signed ← get_signed_data p; slice_to sign_key_size signed

module _ (x : External) where
  unfoldable pub check : AnnouncementPacket → Result PacketError (Unit {0})
  check p = do
    signature_bytes ← get_signature_bytes p
    signature ← expect (x.signature_from_bytes signature_bytes)
    pub_key_bytes ← get_pub_key_bytes p
    public_sign_key ← expect (x.public_key_from_slice pub_key_bytes)
    signed_data ← get_signed_data p
    if x.verify_detached signature signed_data public_sign_key
        then ok tt
        else err invalid_packet_signature

  -- `get_hash` and `AnnHash::from_digest`
  unfoldable pub get_hash : AnnouncementPacket → AnnHash
  get_hash p = record { bytes = x.sha512 p.ann_data }
