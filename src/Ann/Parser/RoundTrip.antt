-- ===== src/Ann/Parser/RoundTrip.antt =====
-- The header of an announcement is read as its wire format says, and so is the whole.
use Prim.Native.Nat.{bit_and}
use cjdns_route_server.Base.{
  ℕ, suc, ◌+◌, ◌*◌, ◌/◌, ◌%◌, ◌^◌, ◌≤◌, ◌<◌, ◌≡◌, refl, sym, ap, ◌∙◌, arith, Bool, true, false,
  some, List, [], ◌∷◌, ◌++◌, length, length-append, append_assoc, take-exact, drop-exact, drop,
  be_bytes, length-be_bytes, ok, ◌>>=◌, ge→ltb, eq→==, ne→==, ◌==◌,
}
use cjdns_route_server.Base.Bits.{bit_and_mask}
use cjdns_route_server.Bytes.Reader.Laws.{read_slice-append, read_u64_be-last, read_exact-ok}
use cjdns_route_server.Bytes.Reader.{peek_remainder}
use cjdns_route_server.Keys.{CjdnsIp6, ip6_from_bytes, ip6_from_key, key_from_array}
use cjdns_route_server.Ann.Models.{External, IsExternal, ParserError, Entity, AnnouncementHeader}
use cjdns_route_server.Ann.Wire.{Wire}
use cjdns_route_server.Ann.Packet.{
  AnnouncementPacket, try_new, get_hash, get_header_bytes, get_pub_key_bytes, get_signed_data,
  get_entities_bytes,
}
use cjdns_route_server.Ann.Entities.RoundTrip.{parse_entities_impl-Wire}
use cjdns_route_server.Ann.Entities.Single.{address_length}
use cjdns_route_server.Ann.Parser.{
  last, HeaderFields, read_header_fields, parse_header, parse_sender_auth_data, parse_entities,
  parse_packet, parse,
}

last-append : (xs : List ℕ) (b : ℕ) → last (xs ++ (b ∷ [])) ≡ some b
last-append [] b = refl
last-append (x ∷ []) b = refl
last-append (x ∷ y ∷ xs) b = last-append (y ∷ xs) b

last-be_bytes : (k v : ℕ) → last (be_bytes (suc k) v) ≡ some (v % 256)
unfolding be_bytes
last-be_bytes k v = last-append (be_bytes k (v / 256)) (v % 256)

-- The last eight bytes of the header: the time above the reset flag above three bits of version.
abbrev reset_bit : Bool → ℕ
reset_bit true = 8
reset_bit false = 0

unfoldable pub stamp : ℕ → Bool → ℕ → ℕ
stamp timestamp is_reset version = timestamp * 16 + reset_bit is_reset + version

unfoldable pub header_wire : List ℕ → List ℕ → List ℕ → ℕ → List ℕ
header_wire signature key ip s = signature ++ (key ++ (ip ++ be_bytes 8 s))

stamp-version :
    (timestamp version : ℕ) (is_reset : Bool)
    → version < 8
    → bit_and (stamp timestamp is_reset version % 256) 7 ≡ version
unfolding stamp
stamp-version t v true h = bit_and_mask 3 ((t * 16 + 8 + v) % 256) ∙ omega arith
stamp-version t v false h = bit_and_mask 3 ((t * 16 + 0 + v) % 256) ∙ omega arith

stamp-is_reset :
    (timestamp version : ℕ) (is_reset : Bool)
    → version < 8
    → (bit_and (stamp timestamp is_reset version % 256 / 2 ^ 3) 1 == 1) ≡ is_reset
unfolding stamp
stamp-is_reset t v true h =
    eq→== _ 1 (bit_and_mask 1 ((t * 16 + 8 + v) % 256 / 2 ^ 3) ∙ omega arith)
stamp-is_reset t v false h =
    let low : bit_and ((t * 16 + 0 + v) % 256 / 8) 1 ≡ 0 =
      bit_and_mask 1 ((t * 16 + 0 + v) % 256 / 8) ∙ omega arith in
    ne→== _ 1 (λ e. omega (arith, low))

stamp-timestamp :
    (timestamp version : ℕ) (is_reset : Bool)
    → version < 8
    → stamp timestamp is_reset version / 2 ^ 4 ≡ timestamp
unfolding stamp
stamp-timestamp t v true h = omega arith
stamp-timestamp t v false h = omega arith

stamp-lt :
    (timestamp version : ℕ) (is_reset : Bool)
    → version < 8
    → timestamp < 2 ^ 60
    → stamp timestamp is_reset version < 2 ^ 64
unfolding stamp
stamp-lt t v true h k = omega arith
stamp-lt t v false h k = omega arith

-- A header, and the conditions on its parts.
module _ (x : External) (signature key : List ℕ) (snode_ip : CjdnsIp6) (timestamp version : ℕ)
    (is_reset : Bool) (signature_size : length signature ≡ 64) (key_size : length key ≡ 32)
    (address : ip6_from_bytes snode_ip.k ≡ ok snode_ip) (version_fits : version < 8)
    (timestamp_fits : timestamp < 2 ^ 60) where
  abbrev the_stamp : ℕ
  the_stamp = stamp timestamp is_reset version

  abbrev the_bytes : List ℕ
  the_bytes = header_wire signature key snode_ip.k the_stamp

  abbrev the_header : AnnouncementHeader
  the_header = record {
    signature = x.hex_encode signature;
    pub_signing_key = x.hex_encode key;
    snode_ip = snode_ip;
    version = version;
    is_reset = is_reset;
    timestamp = timestamp;
  }

  abbrev the_fields : HeaderFields
  the_fields = record {
    signature_bytes = signature;
    sign_key_bytes = key;
    snode_bytes = snode_ip.k;
    last_byte = the_stamp % 256;
    timestamp = the_stamp;
  }

  length-the_bytes : 120 ≡ length the_bytes
  unfolding header_wire
  length-the_bytes = omega (
    arith,
    length-append signature (key ++ (snode_ip.k ++ be_bytes 8 the_stamp)),
    length-append key (snode_ip.k ++ be_bytes 8 the_stamp),
    length-append snode_ip.k (be_bytes 8 the_stamp),
    address_length snode_ip address,
    length-be_bytes 8 the_stamp,
    signature_size,
    key_size,
  )

  read_header_fields-bytes : read_header_fields the_bytes ≡ ok (the_fields, [])
  unfolding header_wire read_header_fields peek_remainder
  read_header_fields-bytes =
      rw
        (
          read_slice-append 64 signature (key ++ (snode_ip.k ++ be_bytes 8 the_stamp))
              (sym signature_size),
          read_slice-append 32 key (snode_ip.k ++ be_bytes 8 the_stamp) (sym key_size),
          read_slice-append 16 snode_ip.k (be_bytes 8 the_stamp)
              (sym (address_length snode_ip address)),
          last-be_bytes 7 the_stamp,
          read_u64_be-last the_stamp
              (stamp-lt timestamp version is_reset version_fits timestamp_fits),
        )
        refl

  -- 120 bytes that hold a signature, a key, an address, a time of 60 bits, the reset flag and a
  -- version of 3 bits in the places that the documentation gives them are read as those.
  pub parse_header-bytes : parse_header x the_bytes ≡ ok the_header
  unfolding parse_header
  parse_header-bytes =
      rw
        (
          read_exact-ok 120 read_header_fields the_bytes the_fields length-the_bytes
              read_header_fields-bytes,
          address,
          stamp-version timestamp version is_reset version_fits,
          stamp-is_reset timestamp version is_reset version_fits,
          stamp-timestamp timestamp version is_reset version_fits,
        )
        refl

  module _ (laws : IsExternal x) (curve_key : List ℕ) (node_ip : CjdnsIp6)
      (converted : x.pk_to_curve25519 key ≡ some curve_key)
      (derived : ip6_from_key x.sha512 (key_from_array curve_key) ≡ ok node_ip)
      (entities : List Entity) (entities_bytes : List ℕ)
      (wire : Wire x entities entities_bytes) where
    abbrev the_packet : AnnouncementPacket
    the_packet = record { ann_data = the_bytes ++ entities_bytes }

    enough : 120 ≤ length (the_bytes ++ entities_bytes)
    enough = omega (arith, length-append the_bytes entities_bytes, length-the_bytes)

    behind_signature :
        drop 64 (the_bytes ++ entities_bytes)
        ≡ key ++ ((snode_ip.k ++ be_bytes 8 the_stamp) ++ entities_bytes)
    unfolding header_wire
    behind_signature =
        let rest = snode_ip.k ++ be_bytes 8 the_stamp in
        ap (λ v. drop 64 v) (append_assoc signature (key ++ rest) entities_bytes)
        ∙ drop-exact 64 signature ((key ++ rest) ++ entities_bytes) (sym signature_size)
        ∙ append_assoc key rest entities_bytes

    slices :
        (get_header_bytes {E = ParserError} the_packet ≡ ok the_bytes)
        × (get_pub_key_bytes {E = ParserError} the_packet ≡ ok key)
        × (get_entities_bytes {E = ParserError} the_packet ≡ ok entities_bytes)
    unfolding get_header_bytes get_pub_key_bytes get_signed_data get_entities_bytes
    slices = (
      rw
          (
            ge→ltb (length (the_bytes ++ entities_bytes)) 120 enough,
            take-exact 120 the_bytes entities_bytes length-the_bytes,
          )
          refl,
      rw
          (
            ge→ltb (length (the_bytes ++ entities_bytes)) 64 (omega (arith, enough)),
            behind_signature,
            ge→ltb (length (key ++ ((snode_ip.k ++ be_bytes 8 the_stamp) ++ entities_bytes))) 32 (
                omega (
                  arith,
                  key_size,
                  length-append key ((snode_ip.k ++ be_bytes 8 the_stamp) ++ entities_bytes),
                )),
            take-exact 32 key ((snode_ip.k ++ be_bytes 8 the_stamp) ++ entities_bytes)
                (sym key_size),
          )
          refl,
      rw
          (
            ge→ltb (length (the_bytes ++ entities_bytes)) 120 enough,
            drop-exact 120 the_bytes entities_bytes length-the_bytes,
          )
          refl,
    )

    auth : parse_sender_auth_data x key ≡ ok (key_from_array curve_key, node_ip)
    unfolding parse_sender_auth_data
    auth = rw (laws.key_size key key_size, converted, derived) refl

    -- Let a header be 120 bytes of a 64-byte signature, a 32-byte signing key from which the
    -- parameters derive a key and an address, an address of cjdns, a time below 2^60, the reset flag
    -- and a version below 8. An announcement of such a header and of bytes that stand for entities
    -- (versions, peers, valid encoding schemes in their serialized form, link states as far as
    -- `parse_link_state` reads their data, pads and unknown types) is taken as a packet and parsed
    -- into its header, its entities, the derived key and address, its bytes and their hash.
    pub parse-bytes :
        (try_new (the_bytes ++ entities_bytes) >>= parse x)
        ≡ ok (record {
          header = the_header;
          entities = entities;
          node_pub_key = key_from_array curve_key;
          node_ip = node_ip;
          binary = the_bytes ++ entities_bytes;
          hash = record { bytes = x.sha512 (the_bytes ++ entities_bytes) };
        })
    unfolding try_new parse parse_packet parse_entities get_hash
    parse-bytes =
        rw
          (
            ge→ltb (length (the_bytes ++ entities_bytes)) 120 enough,
            slices.0,
            parse_header-bytes,
            slices.1,
            auth,
            slices.2,
            parse_entities_impl-Wire x entities entities_bytes wire,
          )
          refl
