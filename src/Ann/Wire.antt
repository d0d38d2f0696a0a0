-- ===== src/Ann/Wire.antt =====
-- The wire format of the entities of an announcement, as its documentation in cjdns-ann/src/lib.rs
-- and models.rs gives it, without the parser; but the data of a link state stand for what
-- `parse_link_state` reads in them.
use cjdns_route_server.Base.{
  ℕ, ◌+◌, ◌*◌, ◌/◌, ◌^◌, ◌<◌, ◌≡◌, Option, none, some, List, [], ◌∷◌, ◌++◌, length, All, be_bytes,
  ok,
}
use cjdns_route_server.Core.Label.{u32, RoutingLabel, IsLabel}
use cjdns_route_server.Core.Scheme.{EncodingScheme, validate}
use cjdns_route_server.Core.Packing.{serialize_scheme}
use cjdns_route_server.Core.Packing.Serialize.{IsForm}
use cjdns_route_server.Keys.{ip6_from_bytes}
use cjdns_route_server.Ann.LinkState.{parse_link_state}
use cjdns_route_server.Ann.Models.{
  External, PeerData, Entity, node_protocol_version, peer, encoding_scheme,
}

-- A route that is withdrawn has the label 0.
abbrev pub label_bits : Option (RoutingLabel u32) → ℕ
label_bits none = 0
label_bits (some l) = l.bits

abbrev pub IsPeerLabel : Option (RoutingLabel u32) → Type 0
IsPeerLabel none = Unit
IsPeerLabel (some l) = IsLabel u32 l

pub record IsPeer (p : PeerData) : Type 0 where
  pub address : ip6_from_bytes p.ipv6.k ≡ ok p.ipv6
  pub peer_label : IsPeerLabel p.label
  pub mtu_units : p.mtu ≡ p.mtu / 8 * 8
  pub mtu_fits : p.mtu < 2 ^ 19
  pub peer_num_fits : p.peer_num < 2 ^ 16
  pub unused_fits : p.unused < 2 ^ 32

unfoldable pub peer_bytes : PeerData → List ℕ
peer_bytes p =
    p.encoding_form_number
    ∷ p.flags
    ∷ (be_bytes 2 (p.mtu / 8)
        ++ (be_bytes 2 p.peer_num
            ++ (be_bytes 4 p.unused ++ (p.ipv6.k ++ be_bytes 4 (label_bits p.label)))))

-- A byte of length, one of type, and the data; the length counts all three.
abbrev pub framed : ℕ → List ℕ → List ℕ → List ℕ
framed entity_type data_bytes rest = (length data_bytes + 2) ∷ entity_type ∷ (data_bytes ++ rest)

-- The entities, and the bytes that stand for them: pads and entities of unknown types stand for
-- none.
pub data Wire (x : External) : List Entity → List ℕ → Type 0 where
  wire_end : Wire x [] []
  wire_pad : (es : List Entity) (bs : List ℕ) → Wire x es bs → Wire x es (1 ∷ bs)
  wire_unknown :
      (t : ℕ) (body : List ℕ) (es : List Entity) (bs : List ℕ)
      → 3 < t
      → Wire x es bs
      → Wire x es (framed t body bs)
  wire_version :
      (v : ℕ) (es : List Entity) (bs : List ℕ)
      → v < 2 ^ 16
      → Wire x es bs
      → Wire x (node_protocol_version v ∷ es) (framed 2 (be_bytes 2 v) bs)
  wire_peer :
      (p : PeerData) (es : List Entity) (bs : List ℕ)
      → IsPeer p
      → Wire x es bs
      → Wire x (peer p ∷ es) (framed 1 (peer_bytes p) bs)
  wire_link_state :
      (e : Entity) (body : List ℕ) (es : List Entity) (bs : List ℕ)
      → parse_link_state x.byte_order body ≡ ok e
      → Wire x es bs
      → Wire x (e ∷ es) (framed 3 body bs)
  wire_scheme :
      (scheme : EncodingScheme) (bytes : List ℕ) (es : List Entity) (bs : List ℕ)
      → All IsForm scheme
      → validate scheme ≡ ok tt
      → serialize_scheme scheme ≡ ok bytes
      → Wire x es bs
      → Wire x (encoding_scheme (x.hex_encode bytes) scheme ∷ es) (framed 0 bytes bs)
