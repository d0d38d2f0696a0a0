-- ===== src/Hdr/RouteHeader.antt =====
-- cjdns-hdr/src/route_header.rs: the header between the two halves of the cjdns engine.
pub mod RoundTrip
use Prim.Native.Nat.{bit_and}
use Prim.Native.String.{String}
use cjdns_route_server.Base.{
  ℕ, ◌+◌, Bool, true, false, not, ◌&&◌, Option, none, some, List, [], ◌∷◌, replicate, bytes_eq,
  ◌==◌, if◌then◌else◌, Result, ok, err, ◌>>=◌, ◌>>◌, fail_if, ensure, map_err,
}
use cjdns_route_server.Bytes.Errors.{ParseError, SerializeError, invalid_packet_size}
use cjdns_route_server.Bytes.Reader.{
  Reading, exact, read, read_slice, read_array_32, read_u8, read_u32_be, skip,
}
use cjdns_route_server.Bytes.Writer.{with_capacity, into_vec, write_slice, write_u8, write_u32_be}
use cjdns_route_server.Hdr.SwitchHeader
use cjdns_route_server.Hdr.SwitchHeader.{SwitchHeader}
use cjdns_route_server.Keys.{
  CjdnsPublicKey, CjdnsIp6, ip6_from_bytes, ip6_from_key, key_from_array, ip6_eq,
}

pub record RouteHeader : Type 0 where
  pub public_key : Option CjdnsPublicKey
  pub ip6 : Option CjdnsIp6
  pub version : ℕ
  pub switch_header : SwitchHeader
  pub is_incoming : Bool
  pub is_ctrl : Bool

abbrev pub size : ℕ
size = 68

abbrev pub zero_public_key_bytes : List ℕ
zero_public_key_bytes = replicate 32 0

abbrev pub zero_ip6_bytes : List ℕ
zero_ip6_bytes = replicate 16 0

abbrev pub incoming_frame : ℕ
incoming_frame = 1

abbrev pub control_frame : ℕ
control_frame = 2

-- The fields as they stand on the wire.
pub record Fields : Type 0 where
  pub pk_bytes : List ℕ
  pub header_bytes : List ℕ
  pub version : ℕ
  pub flags : ℕ
  pub ip6_bytes : List ℕ

unfoldable pub read_fields : Reading Fields
read_fields r = do
  (pk_bytes, r1) ← read_array_32 r
  (header_bytes, r2) ← read_slice SwitchHeader.size r1
  (version, r3) ← read_u32_be r2
  (flags, r4) ← read_u8 r3
  (padding, r5) ← skip 3 r4
  (ip6_bytes, r6) ← read_slice 16 r5
  ok (
    record {
      pk_bytes = pk_bytes;
      header_bytes = header_bytes;
      version = version;
      flags = flags;
      ip6_bytes = ip6_bytes;
    },
    r6,
  )

abbrev is_some : {A : Type 0} → Option A → Bool
is_some none = false
is_some (some a) = true

-- The invariants that both `parse` and `serialize` check, with the errors of the one that calls.
module _ {E : Type 0} (invariant data_error : String → E) (sha512 : List ℕ → List ℕ) where
  abbrev check_key : Option CjdnsPublicKey → Option CjdnsIp6 → Result E (Unit {0})
  check_key none ip6 = ok tt
  check_key (some key) none = ok tt
  check_key (some key) (some ip6) = do
    ip6_from_key ← map_err (ip6_from_key sha512 key) (data_error "can't create ip6 from public key")
    fail_if (not (ip6_eq ip6_from_key ip6))
        (data_error "ip6 derived from public key is not equal to ip6 from header bytes")

  unfoldable pub check_address :
      Bool → Option CjdnsPublicKey → Option CjdnsIp6 → Result E (Unit {0})
  check_address is_ctrl public_key ip6 = do
    fail_if (is_ctrl && is_some public_key)
        (invariant "public key can not be defined in control frame")
    fail_if (is_ctrl && is_some ip6) (invariant "ip6 is defined for control frame")
    fail_if (not is_ctrl && not (is_some ip6))
        (invariant "ip6 is not defined for non-control frame")
    check_key public_key ip6

unfoldable pub read_key : List ℕ → Option CjdnsPublicKey
read_key pk_bytes =
    if bytes_eq zero_public_key_bytes pk_bytes then none else some (key_from_array pk_bytes)

unfoldable pub read_ip6 : List ℕ → Result ParseError (Option CjdnsIp6)
read_ip6 ip6_bytes =
    if bytes_eq ip6_bytes zero_ip6_bytes
    then ok none
    else (map_err (ip6_from_bytes ip6_bytes)
          (ParseError.invalid_data "can't create ip6 from received bytes")
        >>= λ ip6. ok (some ip6))

unfoldable pub flags_byte : RouteHeader → ℕ
flags_byte h =
    let with_ctrl = if h.is_ctrl then 0 + control_frame else 0 in
    if h.is_incoming then with_ctrl + incoming_frame else with_ctrl

abbrev pub key_bytes : Option CjdnsPublicKey → List ℕ
key_bytes none = zero_public_key_bytes
key_bytes (some key) = key.k

abbrev pub address_bytes : Option CjdnsIp6 → List ℕ
address_bytes none = zero_ip6_bytes
address_bytes (some ip6) = ip6.k

module _ (sha512 : List ℕ → List ℕ) where
  -- The part of `parse` after the fields are read.
  unfoldable pub from_fields : Fields → Result ParseError RouteHeader
  from_fields f = do
    let public_key = read_key f.pk_bytes
    switch_header ← SwitchHeader.parse f.header_bytes
    let is_ctrl = not (bit_and f.flags control_frame == 0)
    let is_incoming = not (bit_and f.flags incoming_frame == 0)
    ip6 ← read_ip6 f.ip6_bytes
    check_address ParseError.invalid_invariant ParseError.invalid_data sha512 is_ctrl public_key ip6
    ok (record {
      public_key = public_key;
      ip6 = ip6;
      version = f.version;
      switch_header = switch_header;
      is_incoming = is_incoming;
      is_ctrl = is_ctrl;
    })

  unfoldable pub parse : List ℕ → Result ParseError RouteHeader
  parse bytes = do
    (f, r) ← map_err (read (exact size) read_fields bytes) invalid_packet_size
    from_fields f

  unfoldable pub serialize : RouteHeader → Result SerializeError (List ℕ)
  serialize h = do
    check_address SerializeError.invalid_invariant SerializeError.invalid_data sha512 h.is_ctrl
        h.public_key h.ip6
    switch_header_bytes ← SwitchHeader.serialize h.switch_header
    let w0 = with_capacity size
    let w1 = write_slice w0 (key_bytes h.public_key)
    let w2 = write_slice w1 switch_header_bytes
    let w3 = write_u32_be w2 h.version
    let w4 = write_u8 w3 (flags_byte h)
    let w5 = write_slice w4 (replicate 3 0)
    let w6 = write_slice w5 (address_bytes h.ip6)
    ok (into_vec w6)
