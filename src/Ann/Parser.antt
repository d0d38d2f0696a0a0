-- ===== src/Ann/Parser.antt =====
-- cjdns-ann/src/serialized_ann.rs, `parser`: the header of an announcement, and the announcement as
-- a whole.
pub mod RoundTrip
use Prim.Native.Nat.{bit_and}
use cjdns_route_server.Base.{
  ℕ, ◌/◌, ◌^◌, Option, none, some, List, [], ◌∷◌, ◌==◌, Result, ok, err, panic, ◌>>=◌, expect,
  map_err, ok_or,
}
use cjdns_route_server.Bytes.Reader.{Reading, exact, read, read_u64_be, read_slice, peek_remainder}
use cjdns_route_server.Keys.{CjdnsPublicKey, CjdnsIp6, ip6_from_bytes, ip6_from_key, key_from_array}
use cjdns_route_server.Ann.Models.{
  External, ParserError, cannot_parse_header, cannot_parse_auth_data, cannot_parse_entity,
  PacketError, cannot_parse_packet, Entity, AnnouncementHeader, Announcement,
}
use cjdns_route_server.Ann.Packet.{
  AnnouncementPacket, header_size, sign_size, sign_key_size, ip_size, get_header_bytes,
  get_pub_key_bytes, get_entities_bytes, get_hash,
}
use cjdns_route_server.Ann.Entities.{parse_entities_impl}

-- `last` of a slice
abbrev pub last : List ℕ → Option ℕ
last [] = none
last (b ∷ []) = some b
last (b ∷ c ∷ bs) = last (c ∷ bs)

-- `map_err(F)` of an error that keeps the one below it.
abbrev pub wrap_err : {E F A : Type 0} → Result E A → (E → F) → Result F A
wrap_err r f = elim r [ ok a ↦ ok a | err e ↦ err (f e) | panic ↦ panic ]

-- The fields of a header as they stand on the wire.
pub record HeaderFields : Type 0 where
  pub signature_bytes : List ℕ
  pub sign_key_bytes : List ℕ
  pub snode_bytes : List ℕ
  pub last_byte : ℕ
  pub timestamp : ℕ

unfoldable pub read_header_fields : Reading HeaderFields
read_header_fields r = do
  (signature_bytes, r1) ← read_slice sign_size r
  (sign_key_bytes, r2) ← read_slice sign_key_size r1
  (snode_bytes, r3) ← read_slice ip_size r2
  last_byte ← expect (last (peek_remainder r3))
  (timestamp, r4) ← read_u64_be r3
  ok (
    record {
      signature_bytes = signature_bytes;
      sign_key_bytes = sign_key_bytes;
      snode_bytes = snode_bytes;
      last_byte = last_byte;
      timestamp = timestamp;
    },
    r4,
  )

module _ (x : External) where
  unfoldable pub parse_header : List ℕ → Result ParserError AnnouncementHeader
  parse_header header_data = do
    (f, r) ←
        map_err (read (exact header_size) read_header_fields header_data)
          (cannot_parse_header "invalid data size")
    let signature = x.hex_encode f.signature_bytes
    let pub_signing_key = x.hex_encode f.sign_key_bytes
    snode_ip6 ←
        map_err (ip6_from_bytes f.snode_bytes)
          (cannot_parse_header "failed ip6 creation from received data")
    let version = bit_and f.last_byte 7
    let is_reset = bit_and (f.last_byte / 2 ^ 3) 1 == 1
    let timestamp = f.timestamp / 2 ^ 4
    ok (record {
      signature = signature;
      pub_signing_key = pub_signing_key;
      snode_ip = snode_ip6;
      version = version;
      is_reset = is_reset;
      timestamp = timestamp;
    })

  unfoldable pub parse_sender_auth_data : List ℕ → Result ParserError (CjdnsPublicKey × CjdnsIp6)
  parse_sender_auth_data pub_key_bytes = do
    public_sign_key ← expect (x.public_key_from_slice pub_key_bytes)
    curve25519_key_bytes ←
        ok_or (x.pk_to_curve25519 public_sign_key)
          (cannot_parse_auth_data "conversion from x25519 to curve25519 failed")
    let node_encryption_key = key_from_array curve25519_key_bytes
    node_ip6 ←
        map_err (ip6_from_key x.sha512 node_encryption_key)
          (cannot_parse_auth_data "failed ip6 creation from received data")
    ok (node_encryption_key, node_ip6)

  unfoldable pub parse_entities : List ℕ → Result ParserError (List Entity)
  parse_entities entities_data = wrap_err (parse_entities_impl x entities_data) cannot_parse_entity

  -- `parser::parse`
  unfoldable pub parse_packet : AnnouncementPacket → Result ParserError Announcement
  parse_packet packet = do
    header_bytes ← get_header_bytes packet
    header ← parse_header header_bytes
    pub_key_bytes ← get_pub_key_bytes packet
    (node_encryption_key, node_ip6) ← parse_sender_auth_data pub_key_bytes
    entities_bytes ← get_entities_bytes packet
    entities ← parse_entities entities_bytes
    let digest = get_hash x packet
    ok (record {
      header = header;
      node_pub_key = node_encryption_key;
      node_ip = node_ip6;
      entities = entities;
      hash = digest;
      binary = packet.ann_data;
    })

  -- `AnnouncementPacket::parse`
  unfoldable pub parse : AnnouncementPacket → Result PacketError Announcement
  parse packet = wrap_err (parse_packet packet) cannot_parse_packet
