-- ===== src/Ann/Entities.antt =====
-- cjdns-ann/src/serialized_ann.rs, the entities of an announcement: each is its length, its type and
-- its data.
pub mod Single
pub mod RoundTrip
pub mod Ends
pub mod Malformed
use cjdns_route_server.Base.{
  ℕ, zero, suc, ◌-◌, ◌*◌, Option, none, some, List, [], ◌∷◌, ◌++◌, length, drop, get_elem?, ◌==◌,
  if◌then◌else◌, Result, ok, panic, ◌>>=◌, ◌>>◌, fail_if, expect, expect_ok, map_err,
}
use cjdns_route_server.Bytes.Reader.{
  Reader, Reading, exact, not_less_than, read, read_u8, read_u16_be, read_u32_be, read_slice,
  read_remainder, is_empty,
}
use cjdns_route_server.Core.Label
use cjdns_route_server.Core.Label.{u32}
use cjdns_route_server.Core.Packing.{deserialize_scheme}
use cjdns_route_server.Keys.{ip6_from_bytes}
use cjdns_route_server.Ann.Models.{
  External, EntityParserError, invalid_size, bad_data, Entity, node_protocol_version, peer,
  encoding_scheme,
}
use cjdns_route_server.Ann.LinkState.{parse_link_state}

abbrev pub peer_type : ℕ
peer_type = 1

abbrev pub version_type : ℕ
version_type = 2

abbrev pub link_state_type : ℕ
link_state_type = 3

abbrev pub encoding_scheme_type : ℕ
encoding_scheme_type = 0

abbrev pub peer_entity_size : ℕ
peer_entity_size = 30

abbrev pub version_entity_size : ℕ
version_entity_size = 2

abbrev pub encoding_scheme_entity_min_size : ℕ
encoding_scheme_entity_min_size = 2

unfoldable pub parse_version : List ℕ → Result EntityParserError Entity
parse_version version_data = do
  (version, r) ← map_err (read (exact version_entity_size) read_u16_be version_data) invalid_size
  ok (node_protocol_version version)

-- The fields of a peer as they stand on the wire.
pub record PeerFields : Type 0 where
  pub encoding_form_number : ℕ
  pub flags : ℕ
  pub mtu8 : ℕ
  pub peer_num : ℕ
  pub unused : ℕ
  pub ip6_bytes : List ℕ
  pub label_bits : ℕ

unfoldable pub read_peer_fields : Reading PeerFields
read_peer_fields r = do
  (encoding_form_number, r1) ← read_u8 r
  (flags, r2) ← read_u8 r1
  (mtu8, r3) ← read_u16_be r2
  (peer_num, r4) ← read_u16_be r3
  (unused, r5) ← read_u32_be r4
  (ip6_bytes, r6) ← read_slice 16 r5
  (label_bits, r7) ← read_u32_be r6
  ok (
    record {
      encoding_form_number = encoding_form_number;
      flags = flags;
      mtu8 = mtu8;
      peer_num = peer_num;
      unused = unused;
      ip6_bytes = ip6_bytes;
      label_bits = label_bits;
    },
    r7,
  )

unfoldable pub parse_peer : List ℕ → Result EntityParserError Entity
parse_peer peer_data = do
  (f, r) ← map_err (read (exact peer_entity_size) read_peer_fields peer_data) invalid_size
  let mtu = f.mtu8 * 8
  ipv6 ← map_err (ip6_from_bytes f.ip6_bytes) (bad_data "failed ip6 creation from peer bytes")
  let label = Label.try_new u32 f.label_bits
  ok (
      peer (record {
        ipv6 = ipv6;
        label = label;
        mtu = mtu;
        peer_num = f.peer_num;
        unused = f.unused;
        encoding_form_number = f.encoding_form_number;
        flags = f.flags;
      }))

-- `Ok(Some(r?))`
abbrev pub found : Result EntityParserError Entity → Result EntityParserError (Option Entity)
found r = r >>= λ e. ok (some e)

module _ (x : External) where
  unfoldable pub parse_encoding_scheme : List ℕ → Result EntityParserError Entity
  parse_encoding_scheme encoding_scheme_data = do
    (scheme_data, r) ←
        map_err
          (read (not_less_than encoding_scheme_entity_min_size) read_remainder encoding_scheme_data)
          invalid_size
    let hex = x.hex_encode scheme_data
    scheme ←
        map_err (deserialize_scheme scheme_data)
          (bad_data "encoding scheme bytes can't be deserialized")
    ok (encoding_scheme hex scheme)

  unfoldable pub parse_entity : List ℕ → Result EntityParserError (Option Entity)
  parse_entity entity_data = do
    entity_type ← expect (get_elem? entity_data 0)
    let parsing_data = drop 1 entity_data
    if entity_type == encoding_scheme_type
        then found (parse_encoding_scheme parsing_data)
        else if entity_type == peer_type
        then found (parse_peer parsing_data)
        else if entity_type == version_type
        then found (parse_version parsing_data)
        else if entity_type == link_state_type
        then found (parse_link_state x.byte_order parsing_data)
        else ok none

  -- `parsed_entities.push`, where there is an entity.
  unfoldable pub push_entity : List Entity → Option Entity → List Entity
  push_entity parsed none = parsed
  push_entity parsed (some e) = parsed ++ (e ∷ [])

  -- One round of the loop: the entities so far, and what is left of the data.
  unfoldable pub parse_step : List Entity → Reader → Result EntityParserError (List Entity × Reader)
  parse_step parsed_entities r = do
    (entity_length, r1) ← expect_ok (read_u8 r)
    fail_if (entity_length == 0) (bad_data "zero length entity")
    if entity_length == 1 then ok (parsed_entities, r1) else (do
      (entity_data, r2) ←
          map_err (read_slice (entity_length - 1) r1)
            (bad_data "encoded entity len > entities data remainder size")
      parsed_entity ← parse_entity entity_data
      ok (push_entity parsed_entities parsed_entity, r2))

  -- The loop, on fuel: every round reads a byte at least.
  unfoldable pub parse_entities_loop :
      ℕ → List Entity → Reader → Result EntityParserError (List Entity)
  parse_entities_loop zero parsed_entities r = if is_empty r then ok parsed_entities else panic
  parse_entities_loop (suc fuel) parsed_entities r =
      if is_empty r
      then ok parsed_entities
      else (do (parsed, r') ← parse_step parsed_entities r; parse_entities_loop fuel parsed r')

  unfoldable pub parse_entities_impl : List ℕ → Result EntityParserError (List Entity)
  parse_entities_impl entities_data = parse_entities_loop (length entities_data) [] entities_data
