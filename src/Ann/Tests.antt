-- ===== src/Ann/Tests.antt =====
-- Announcements at concrete bytes; those of the tests of cjdns-ann/src/serialized_ann.rs.
use cjdns_route_server.Base.{
  ℕ, ◌≡◌, inl, refl, arith, true, Option, none, some, List, [], ◌∷◌, ◌++◌, length, replicate, ok,
  panic, ◌>>=◌, ◌==◌, if◌then◌else◌, be_bytes, be_value, be_value_from,
}
use cjdns_route_server.Bytes.Reader.{read_u8, read_slice, is_empty}
use cjdns_route_server.Bytes.VarInt.{read_marked, read_var_int}
use cjdns_route_server.Bytes.VarInt.Examples.{order, order-IsByteOrder}
use cjdns_route_server.Core.Scheme.{v358}
use cjdns_route_server.Core.Packing.{serialize_scheme}
use cjdns_route_server.Core.Packing.Tests.{v358-IsForms, v358-valid, serialize-v358}
use cjdns_route_server.Keys.{CjdnsIp6, ip6_from_bytes, ip6_from_key, key_from_array}
use cjdns_route_server.Ann.Models.{
  External, IsExternal, has_low_scalar, PeerData, Entity, node_protocol_version, peer,
  encoding_scheme, link_state, LinkStateSlots,
}
use cjdns_route_server.Ann.Wire.{
  IsPeer, peer_bytes, framed, Wire, wire_end, wire_pad, wire_version, wire_peer, wire_link_state,
  wire_scheme,
}
use cjdns_route_server.Ann.Entities.{parse_entities_impl}
use cjdns_route_server.Ann.Entities.RoundTrip.{parse_entities_impl-Wire}
use cjdns_route_server.Ann.Entities.Ends.{Runs, parse_entities_impl-Runs}
use cjdns_route_server.Ann.Entities.Malformed.{parse_entities_impl-panics}
use cjdns_route_server.Ann.LinkState.{
  parse_link_state, read_pads, count_zeros, read_samples, read_sample,
}
use cjdns_route_server.Ann.LinkState.Safe.{Outcome, IsParsed, parse_link_state-Outcome}
use cjdns_route_server.Ann.Packet.{try_new, check}
use cjdns_route_server.Ann.Packet.Laws.{Checked, check-Checked}
use cjdns_route_server.Ann.Parser.{parse}
use cjdns_route_server.Ann.Parser.RoundTrip.{header_wire, stamp, parse-bytes}

-- A hash that starts like every address, and a signature scheme that accepts everything.
abbrev of_size : ℕ → List ℕ → Option (List ℕ)
of_size n bytes = if length bytes == n then some bytes else none

abbrev external : External
external = record {
  sha512 = λ bytes. 0xfc ∷ replicate 63 1;
  verify_detached = λ signature bytes key. true;
  pk_to_curve25519 = λ key. some key;
  signature_from_bytes = λ bytes. if has_low_scalar bytes then of_size 64 bytes else none;
  public_key_from_slice = of_size 32;
  hex_encode = λ bytes. "6114458100";
  byte_order = order;
}

external-IsExternal : IsExternal external
external-IsExternal = record {
  signature_accepted = λ bytes h low. rw (low, h) refl;
  signature_refused = λ bytes h high. rw high refl;
  key_size = λ bytes h. rw h refl;
}

abbrev address : CjdnsIp6
address = record {
  k =
      0xfc ∷ 0x92 ∷ 0x81 ∷ 0x36 ∷ 0xdc ∷ 0x1f ∷ 0xe6 ∷ 0xe0 ∷ 0x4e ∷ 0xf6 ∷ 0xa6 ∷ 0xdd ∷ 0x71
      ∷ 0x87 ∷ 0xb8 ∷ 0x5f ∷ [];
}

address-valid : ip6_from_bytes address.k ≡ ok address
unfolding ip6_from_bytes
address-valid = refl

abbrev the_peer : PeerData
the_peer = record {
  ipv6 = address;
  label = some (record { bits = 21 });
  mtu = 0;
  peer_num = 65535;
  unused = 4294967295;
  encoding_form_number = 0;
  flags = 0;
}

the_peer-IsPeer : IsPeer the_peer
the_peer-IsPeer = record {
  address = address-valid;
  peer_label = record { non_zero = omega arith; fits = omega arith };
  mtu_units = refl;
  mtu_fits = omega arith;
  peer_num_fits = omega arith;
  unused_fits = omega arith;
}

abbrev v358_bytes : List ℕ
v358_bytes = 0x61 ∷ 0x14 ∷ 0x45 ∷ 0x81 ∷ 0 ∷ []

v358-packed : serialize_scheme v358 ≡ ok v358_bytes
v358-packed = serialize-v358

abbrev link_bytes : List ℕ
link_bytes = 3 ∷ 0 ∷ 0 ∷ 0 ∷ 4 ∷ 16 ∷ 0x13 ∷ 0 ∷ 1 ∷ []

abbrev slot : ℕ → LinkStateSlots
slot a = replicate 16 none ++ (some a ∷ none ∷ [])

abbrev the_link : Entity
the_link = link_state (record {
  node_id = 4;
  starting_point = 16;
  lag_slots = slot 0x13;
  drop_slots = slot 0;
  kb_recv_slots = slot 1;
})

link-read : parse_link_state order link_bytes ≡ ok the_link
unfolding parse_link_state read_pads count_zeros read_samples read_sample read_u8 read_slice
    is_empty read_var_int read_marked be_value be_value_from
link-read = refl

abbrev entities : List Entity
entities = node_protocol_version 18 ∷ encoding_scheme "6114458100" v358 ∷ peer the_peer ∷ []

abbrev entities_bytes : List ℕ
entities_bytes =
    framed 2 (be_bytes 2 18) (1 ∷ framed 0 v358_bytes (framed 1 (peer_bytes the_peer) []))

-- The bytes of the test are those of the wire format.
entities-bytes :
    entities_bytes
    ≡ 4
      ∷ 2
      ∷ 0
      ∷ 18
      ∷ 1
      ∷ 7
      ∷ 0
      ∷ 0x61
      ∷ 0x14
      ∷ 0x45
      ∷ 0x81
      ∷ 0
      ∷ 0x20
      ∷ 1
      ∷ 0
      ∷ 0
      ∷ 0
      ∷ 0
      ∷ 0xff
      ∷ 0xff
      ∷ 0xff
      ∷ 0xff
      ∷ 0xff
      ∷ 0xff
      ∷ (address.k ++ (0 ∷ 0 ∷ 0 ∷ 0x15 ∷ []))
unfolding be_bytes peer_bytes
entities-bytes = refl

entities-Wire : Wire external entities entities_bytes
entities-Wire = wire_version 18 _ _ (omega arith) (
    wire_pad _ _ (
      wire_scheme v358 v358_bytes _ _ v358-IsForms v358-valid v358-packed
        (wire_peer the_peer _ _ the_peer-IsPeer wire_end)))

-- The same behind a link state.
abbrev linked_bytes : List ℕ
linked_bytes = framed 3 link_bytes entities_bytes

linked-Wire : Wire external (the_link ∷ entities) linked_bytes
linked-Wire = wire_link_state the_link link_bytes entities entities_bytes link-read entities-Wire

parse_entities_impl-Wire_example :
    parse_entities_impl external linked_bytes ≡ ok (the_link ∷ entities)
parse_entities_impl-Wire_example =
    parse_entities_impl-Wire external (the_link ∷ entities) linked_bytes linked-Wire

parse_entities_impl-Runs_example :
    Runs external [] entities_bytes (parse_entities_impl external entities_bytes)
parse_entities_impl-Runs_example = parse_entities_impl-Runs external entities_bytes

parse_entities_impl-panics_example :
    parse_entities_impl external (4 ∷ 0 ∷ 0xff ∷ 0xff ∷ 1 ∷ []) ≡ panic
parse_entities_impl-panics_example =
    parse_entities_impl-panics external 0xff 0xff (1 ∷ []) (omega arith, (omega arith, tt))
      (inl (omega arith))

abbrev ring : ℕ → ℕ → ℕ → ℕ → ℕ → ℕ → ℕ → LinkStateSlots
ring a b c d e f g =
    some c ∷ some d ∷ some e ∷ some f ∷ some g ∷ (replicate 11 none ++ (some a ∷ some b ∷ []))

-- Seven samples from slot 16 on go round the ring.
link_state_test :
    parse_link_state order (
      6 ∷ 0 ∷ 0 ∷ 0 ∷ 0 ∷ 0 ∷ 0 ∷ 4 ∷ 16 ∷ 0x13 ∷ 0 ∷ 1 ∷ 0x12 ∷ 0 ∷ 2 ∷ 0x13 ∷ 0 ∷ 2 ∷ 0x13 ∷ 0 ∷ 0
      ∷ 0x14 ∷ 0 ∷ 3 ∷ 0x12 ∷ 0 ∷ 1 ∷ 0x13 ∷ 0 ∷ 1 ∷ [])
    ≡ ok (
        link_state (record {
          node_id = 4;
          starting_point = 16;
          lag_slots = ring 0x13 0x12 0x13 0x13 0x14 0x12 0x13;
          drop_slots = ring 0 0 0 0 0 0 0;
          kb_recv_slots = ring 1 2 2 0 3 1 1;
        }))
unfolding parse_link_state read_pads count_zeros read_samples read_sample read_u8 read_slice
    is_empty read_var_int read_marked be_value be_value_from
link_state_test = refl

-- A link state without pads, with one sample.
parse_link_state-Outcome_example :
    Outcome IsParsed (parse_link_state order (0 ∷ 1 ∷ 2 ∷ 3 ∷ 4 ∷ 5 ∷ []))
parse_link_state-Outcome_example =
    parse_link_state-Outcome order order-IsByteOrder (0 ∷ 1 ∷ 2 ∷ 3 ∷ 4 ∷ 5 ∷ [])
      (omega arith, (omega arith, (omega arith, (omega arith, (omega arith, (omega arith, tt))))))

check-Checked_example :
    Checked external external-IsExternal
      (replicate 120 7)
      (try_new (replicate 120 7) >>= check external)
check-Checked_example = check-Checked external external-IsExternal (replicate 120 7)

abbrev signature : List ℕ
signature = replicate 64 0x3a

abbrev signing_key : List ℕ
signing_key = replicate 32 0xf2

abbrev header_bytes : List ℕ
header_bytes = header_wire signature signing_key address.k (stamp 1474857989878 true 1)

abbrev node_address : CjdnsIp6
node_address = record { k = 0xfc ∷ replicate 15 1 }

node_address-derived : ip6_from_key external.sha512 (key_from_array signing_key) ≡ ok node_address
unfolding ip6_from_key ip6_from_bytes
node_address-derived = refl

parse-bytes_example :
    (try_new (header_bytes ++ entities_bytes) >>= parse external)
    ≡ ok (record {
      header = record {
        signature = "6114458100";
        pub_signing_key = "6114458100";
        snode_ip = address;
        version = 1;
        is_reset = true;
        timestamp = 1474857989878;
      };
      entities = entities;
      node_pub_key = key_from_array signing_key;
      node_ip = node_address;
      binary = header_bytes ++ entities_bytes;
      hash = record { bytes = 0xfc ∷ replicate 63 1 };
    })
parse-bytes_example =
    parse-bytes external signature signing_key address 1474857989878 1 true refl refl address-valid
      (omega arith) (omega arith) external-IsExternal signing_key node_address refl
      node_address-derived entities entities_bytes entities-Wire
