-- ===== src/Ann/Entities/Single.antt =====
-- One entity of each kind: the parser reads what its wire format says.
use cjdns_route_server.Base.{
  ℕ, ◌/◌, ◌^◌, ◌≤◌, ◌<◌, ◌≡◌, refl, sym, arith, Option, none, some, List, [], ◌∷◌, ◌++◌, length,
  length-append, All, be_bytes, length-be_bytes, ok, ne→==,
}
use cjdns_route_server.Bytes.Reader.Laws.{
  read_u8-cons, read_slice-append, read_u16_be-bytes, read_u16_be-last, read_u32_be-bytes,
  read_u32_be-last, read_exact-ok, read_not_less_than-ok, read_remainder-all,
}
use cjdns_route_server.Core.Label
use cjdns_route_server.Core.Label.{u32, RoutingLabel}
use cjdns_route_server.Core.Scheme.{EncodingScheme, validate}
use cjdns_route_server.Core.Packing.{serialize_scheme, deserialize_scheme}
use cjdns_route_server.Core.Packing.Serialize.{IsForm}
use cjdns_route_server.Core.Packing.RoundTrip.{deserialize_scheme-serialize_scheme}
use cjdns_route_server.Keys.{ip6_from_bytes, CjdnsIp6}
use cjdns_route_server.Ann.Models.{External, PeerData, node_protocol_version, peer, encoding_scheme}
use cjdns_route_server.Ann.Wire.{label_bits, IsPeerLabel, IsPeer, peer_bytes}
use cjdns_route_server.Ann.Entities.{
  parse_version, PeerFields, read_peer_fields, parse_peer, parse_encoding_scheme,
}

pub parse_version-bytes :
    (v : ℕ) → v < 2 ^ 16 → parse_version (be_bytes 2 v) ≡ ok (node_protocol_version v)
unfolding parse_version
parse_version-bytes v h =
    rw (read_exact-ok 2 _ (be_bytes 2 v) v (sym (length-be_bytes 2 v)) (read_u16_be-last v h)) refl

label-back :
    (l : Option (RoutingLabel u32))
    → IsPeerLabel l
    → (Label.try_new u32 (label_bits l) ≡ l) × (label_bits l < 2 ^ 32)
unfolding Label.try_new
label-back none v = (refl, omega arith)
label-back (some l) v = (rw (ne→== l.bits 0 (λ e. omega (arith, v.non_zero))) refl, v.fits)

pub address_length : (a : CjdnsIp6) → ip6_from_bytes a.k ≡ ok a → length a.k ≡ 16
unfolding ip6_from_bytes
address_length a h = ground arith

abbrev fields_of : PeerData → PeerFields
fields_of p = record {
  encoding_form_number = p.encoding_form_number;
  flags = p.flags;
  mtu8 = p.mtu / 8;
  peer_num = p.peer_num;
  unused = p.unused;
  ip6_bytes = p.ipv6.k;
  label_bits = label_bits p.label;
}

module _ (p : PeerData) (v : IsPeer p) where
  length-peer_bytes : 30 ≡ length (peer_bytes p)
  unfolding peer_bytes
  length-peer_bytes =
      let last = be_bytes 4 (label_bits p.label) in
      omega (
        arith,
        length-append (be_bytes 2 (p.mtu / 8))
            (be_bytes 2 p.peer_num ++ (be_bytes 4 p.unused ++ (p.ipv6.k ++ last))),
        length-append (be_bytes 2 p.peer_num) (be_bytes 4 p.unused ++ (p.ipv6.k ++ last)),
        length-append (be_bytes 4 p.unused) (p.ipv6.k ++ last),
        length-append p.ipv6.k last,
        address_length p.ipv6 v.address,
        length-be_bytes 2 (p.mtu / 8),
        length-be_bytes 2 p.peer_num,
        length-be_bytes 4 p.unused,
        length-be_bytes 4 (label_bits p.label),
      )

  read_peer_fields-bytes : read_peer_fields (peer_bytes p) ≡ ok (fields_of p, [])
  unfolding peer_bytes read_peer_fields
  read_peer_fields-bytes =
      let last = be_bytes 4 (label_bits p.label) in
      rw
        (
          read_u8-cons p.encoding_form_number (
              p.flags
              ∷ (be_bytes 2 (p.mtu / 8)
                  ++ (be_bytes 2 p.peer_num ++ (be_bytes 4 p.unused ++ (p.ipv6.k ++ last))))),
          read_u8-cons p.flags (
              be_bytes 2 (p.mtu / 8)
              ++ (be_bytes 2 p.peer_num ++ (be_bytes 4 p.unused ++ (p.ipv6.k ++ last)))),
          read_u16_be-bytes (p.mtu / 8)
              (be_bytes 2 p.peer_num ++ (be_bytes 4 p.unused ++ (p.ipv6.k ++ last)))
              (omega (arith, v.mtu_fits)),
          read_u16_be-bytes p.peer_num (be_bytes 4 p.unused ++ (p.ipv6.k ++ last)) v.peer_num_fits,
          read_u32_be-bytes p.unused (p.ipv6.k ++ last) v.unused_fits,
          read_slice-append 16 p.ipv6.k last (sym (address_length p.ipv6 v.address)),
          read_u32_be-last (label_bits p.label) (label-back p.label v.peer_label).1,
        )
        refl

  pub parse_peer-bytes : parse_peer (peer_bytes p) ≡ ok (peer p)
  unfolding parse_peer
  parse_peer-bytes =
      rw
        (
          read_exact-ok 30 read_peer_fields (peer_bytes p) (fields_of p) length-peer_bytes
              read_peer_fields-bytes,
          v.address,
          (label-back p.label v.peer_label).0,
          sym v.mtu_units,
        )
        refl

two_bytes :
    (bytes : List ℕ) (scheme : EncodingScheme)
    → deserialize_scheme bytes ≡ ok scheme
    → 2 ≤ length bytes
unfolding deserialize_scheme
two_bytes bytes scheme h = ground arith

module _ (x : External) where
  pub parse_encoding_scheme-bytes :
      (scheme : EncodingScheme) (bytes : List ℕ)
      → All IsForm scheme
      → validate scheme ≡ ok tt
      → serialize_scheme scheme ≡ ok bytes
      → parse_encoding_scheme x bytes ≡ ok (encoding_scheme (x.hex_encode bytes) scheme)
  unfolding parse_encoding_scheme
  parse_encoding_scheme-bytes scheme bytes forms valid done =
      let (bytes', done', are_bytes, back) =
        deserialize_scheme-serialize_scheme scheme forms valid in
      let same : bytes' ≡ bytes = cc in
      let read_back : deserialize_scheme bytes ≡ ok scheme = rw (sym same) back in
      rw
        (
          read_not_less_than-ok 2 _ bytes bytes (two_bytes bytes scheme read_back)
              (read_remainder-all bytes),
          read_back,
        )
        refl
