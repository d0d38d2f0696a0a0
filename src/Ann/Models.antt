-- ===== src/Ann/Models.antt =====
-- cjdns-ann/src/models.rs and errors.rs: a parsed announcement, and the errors of the parser. What
-- the code takes from libsodium and from the crate hex is the record `External`.
use Prim.Native.String.{String}
use cjdns_route_server.Base.{
  ℕ, Bool, Option, none, some, List, length, replicate, get_elem?, ltb, true, false, ◌≡◌,
}
use cjdns_route_server.Core.Label.{u32, RoutingLabel}
use cjdns_route_server.Core.Scheme.{EncodingScheme}
use cjdns_route_server.Keys.{CjdnsPublicKey, CjdnsIp6}
use cjdns_route_server.Bytes.VarInt.{ByteOrder}

pub data EntityParserError : Type 0 where
  invalid_size insufficient_data : EntityParserError
  bad_data : String → EntityParserError

pub data ParserError : Type 0 where
  cannot_parse_header cannot_parse_auth_data : String → ParserError
  cannot_parse_entity : EntityParserError → ParserError

pub data PacketError : Type 0 where
  cannot_instantiate_packet invalid_packet_signature : PacketError
  cannot_parse_packet : ParserError → PacketError

abbrev pub link_state_slots : ℕ
link_state_slots = 18

-- An array of `link_state_slots` samples.
abbrev pub LinkStateSlots : Type 0
LinkStateSlots = List (Option ℕ)

abbrev pub default_slots : LinkStateSlots
default_slots = replicate link_state_slots none

pub record PeerData : Type 0 where
  pub ipv6 : CjdnsIp6
  pub label : Option (RoutingLabel u32)
  pub mtu : ℕ
  pub peer_num : ℕ
  pub unused : ℕ
  pub encoding_form_number : ℕ
  pub flags : ℕ

pub record LinkStateData : Type 0 where
  pub node_id : ℕ
  pub starting_point : ℕ
  pub lag_slots : LinkStateSlots
  pub drop_slots : LinkStateSlots
  pub kb_recv_slots : LinkStateSlots

pub data Entity : Type 0 where
  node_protocol_version : ℕ → Entity
  peer : PeerData → Entity
  encoding_scheme : String → EncodingScheme → Entity
  link_state : LinkStateData → Entity

pub record AnnouncementHeader : Type 0 where
  pub signature : String
  pub pub_signing_key : String
  pub snode_ip : CjdnsIp6
  pub version : ℕ
  pub is_reset : Bool
  pub timestamp : ℕ

pub record AnnHash : Type 0 where
  pub bytes : List ℕ

pub record Announcement : Type 0 where
  pub header : AnnouncementHeader
  pub entities : List Entity
  pub node_pub_key : CjdnsPublicKey
  pub node_ip : CjdnsIp6
  pub binary : List ℕ
  pub hash : AnnHash

-- `sha512::hash`, `verify_detached`, `crypto_sign_ed25519_pk_to_curve25519`, `Signature::from_bytes`,
-- `PublicKey::from_slice` and `hex::encode`. Keys, signatures and digests are their bytes.
pub record External : Type 0 where
  pub sha512 : List ℕ → List ℕ
  pub verify_detached : List ℕ → List ℕ → List ℕ → Bool
  pub pk_to_curve25519 : List ℕ → Option (List ℕ)
  pub signature_from_bytes : List ℕ → Option (List ℕ)
  pub public_key_from_slice : List ℕ → Option (List ℕ)
  pub hex_encode : List ℕ → String
  pub byte_order : ByteOrder

-- The last byte of a signature has its three high bits clear.
abbrev pub has_low_scalar : List ℕ → Bool
has_low_scalar bytes = elim (get_elem? bytes 63) [ none ↦ false | some b ↦ ltb b 32 ]

-- Keys are 32 bytes. Signatures are 64 bytes, of which `Signature::from_bytes` (in the crate ed25519,
-- version 1.5.3) refuses those whose scalar has one of its three high bits set.
pub record IsExternal (x : External) : Type 0 where
  pub signature_accepted :
      (bytes : List ℕ)
      → length bytes ≡ 64
      → has_low_scalar bytes ≡ true
      → x.signature_from_bytes bytes ≡ some bytes
  pub signature_refused :
      (bytes : List ℕ)
      → length bytes ≡ 64
      → has_low_scalar bytes ≡ false
      → x.signature_from_bytes bytes ≡ none
  pub key_size : (bytes : List ℕ) → length bytes ≡ 32 → x.public_key_from_slice bytes ≡ some bytes
