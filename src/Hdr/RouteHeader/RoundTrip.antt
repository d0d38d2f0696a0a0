-- ===== src/Hdr/RouteHeader/RoundTrip.antt =====
-- Route headers survive the wire.
use Prim.Native.Nat.{bit_and}
use Prim.Native.String.{String}
use cjdns_route_server.Base.{
  ℕ, ◌+◌, ◌^◌, ◌<◌, ◌≡◌, ◌≢◌, refl, sym, arith, Bool, true, false, not, Option, some, none, List,
  [], ◌∷◌, ◌++◌, length, length-append, get_elem?, replicate, append_assoc, be_bytes,
  length-be_bytes, bytes_eq_self, ne→bytes_eq, ok, ◌==◌, if◌then◌else◌, eq→==,
}
use cjdns_route_server.Bytes.Errors.{ParseError, SerializeError}
use cjdns_route_server.Bytes.Reader.Laws.{
  read_u8-cons, skip-append, read_u32_be-bytes, read_array_32-append, read_slice-append,
  read_slice-last, read_exact-ok,
}
use cjdns_route_server.Bytes.Writer.{with_capacity, into_vec, write_slice, write_u8, write_u32_be}
use cjdns_route_server.Hdr.SwitchHeader
use cjdns_route_server.Hdr.SwitchHeader.{SwitchHeader}
use cjdns_route_server.Hdr.SwitchHeader.RoundTrip.{IsSwitchHeader}
use cjdns_route_server.Hdr.SwitchHeader.RoundTrip
use cjdns_route_server.Keys.{
  CjdnsPublicKey, CjdnsIp6, ip6_from_bytes, ip6_from_key, key_from_array, ip6_eq,
}
use cjdns_route_server.Hdr.RouteHeader.{
  RouteHeader, read_fields, check_address, read_key, read_ip6, from_fields, parse, flags_byte,
  key_bytes, address_bytes, serialize, zero_public_key_bytes, zero_ip6_bytes,
}

abbrev pub IsKey : CjdnsPublicKey → Type 0
IsKey key = (length key.k ≡ 32) × (zero_public_key_bytes ≢ key.k)

abbrev pub IsIp6 : CjdnsIp6 → Type 0
IsIp6 a = (length a.k ≡ 16) × (get_elem? a.k 0 ≡ some 0xfc)

first-ne-zero : (xs : List ℕ) → get_elem? xs 0 ≡ some 0xfc → xs ≢ zero_ip6_bytes
first-ne-zero [] h e = cc
first-ne-zero (x ∷ xs) h e = ground arith

module _ (sha512 : List ℕ → List ℕ) where
  -- A control frame has neither key nor address; any other frame has an address, and if it has
  -- a key, the address is the one derived from the key.
  abbrev pub IsAddressed : Option CjdnsPublicKey → Option CjdnsIp6 → Bool → Type 0
  IsAddressed none none true = Unit
  IsAddressed none (some a) false = IsIp6 a
  IsAddressed (some key) (some a) false = IsKey key × IsIp6 a × (ip6_from_key sha512 key ≡ ok a)
  IsAddressed key a ctrl = ⊥

  pub record IsRouteHeader (h : RouteHeader) : Type 0 where
    pub switch_valid : IsSwitchHeader h.switch_header
    pub version_fits : h.version < 2 ^ 32
    pub addressed : IsAddressed h.public_key h.ip6 h.is_ctrl

  check_address-ok :
      {E : Type 0} (invariant data_error : String → E) (key : Option CjdnsPublicKey)
      (a : Option CjdnsIp6) (ctrl : Bool)
      → IsAddressed key a ctrl
      → check_address invariant data_error sha512 ctrl key a ≡ ok tt
  unfolding check_address ip6_eq
  check_address-ok i d none none true v = refl
  check_address-ok i d none none false v = absurd v
  check_address-ok i d none (some a) true v = absurd v
  check_address-ok i d none (some a) false v = refl
  check_address-ok i d (some key) none ctrl v = absurd v
  check_address-ok i d (some key) (some a) true v = absurd v
  check_address-ok i d (some key) (some a) false v = rw (v.2, bytes_eq_self a.k)

  read_key-key_bytes :
      (key : Option CjdnsPublicKey) (a : Option CjdnsIp6) (ctrl : Bool)
      → IsAddressed key a ctrl
      → (read_key (key_bytes key) ≡ key) × (length (key_bytes key) ≡ 32)
  unfolding read_key key_from_array
  read_key-key_bytes none a ctrl v = (rw (bytes_eq_self zero_public_key_bytes), refl)
  read_key-key_bytes (some key) none ctrl v = absurd v
  read_key-key_bytes (some key) (some a) true v = absurd v
  read_key-key_bytes (some key) (some a) false v =
      (rw (ne→bytes_eq zero_public_key_bytes key.k v.0.1), v.0.0)

  read_some_ip6 : (a : CjdnsIp6) → IsIp6 a → read_ip6 a.k ≡ ok (some a)
  unfolding read_ip6 ip6_from_bytes
  read_some_ip6 a v =
      rw (ne→bytes_eq a.k zero_ip6_bytes (first-ne-zero a.k v.1), eq→== (length a.k) 16 v.0, v.1)

  read_ip6-address_bytes :
      (key : Option CjdnsPublicKey) (a : Option CjdnsIp6) (ctrl : Bool)
      → IsAddressed key a ctrl
      → (read_ip6 (address_bytes a) ≡ ok a) × (length (address_bytes a) ≡ 16)
  read_ip6-address_bytes key none ctrl v =
      (unfold read_ip6 in rw (bytes_eq_self zero_ip6_bytes), refl)
  read_ip6-address_bytes none (some a) true v = absurd v
  read_ip6-address_bytes none (some a) false v = (read_some_ip6 a v, v.0)
  read_ip6-address_bytes (some key) (some a) true v = absurd v
  read_ip6-address_bytes (some key) (some a) false v = (read_some_ip6 a v.1, v.1.0)

-- The bytes of the fields, one after the other.
unfoldable frame : List ℕ → List ℕ → ℕ → ℕ → List ℕ → List ℕ
frame k s v f a = k ++ (s ++ (be_bytes 4 v ++ (f ∷ (replicate 3 0 ++ a))))

read_fields-frame :
    (k s : List ℕ) (v f : ℕ) (a : List ℕ)
    → length k ≡ 32
    → length s ≡ 12
    → v < 2 ^ 32
    → length a ≡ 16
    → read_fields (frame k s v f a)
      ≡ ok (record { pk_bytes = k; header_bytes = s; version = v; flags = f; ip6_bytes = a }, [])
unfolding read_fields frame
read_fields-frame k s v f a hk hs hv ha = rw (
  read_array_32-append k (s ++ (be_bytes 4 v ++ (f ∷ (replicate 3 0 ++ a)))) hk,
  read_slice-append 12 s (be_bytes 4 v ++ (f ∷ (replicate 3 0 ++ a))) (sym hs),
  read_u32_be-bytes v (f ∷ (replicate 3 0 ++ a)) hv,
  read_u8-cons,
  skip-append 3 (replicate 3 0) a refl,
  read_slice-last 16 a (sym ha),
)

length-frame :
    (k s : List ℕ) (v f : ℕ) (a : List ℕ)
    → length k ≡ 32
    → length s ≡ 12
    → length a ≡ 16
    → 68 ≡ length (frame k s v f a)
unfolding frame
length-frame k s v f a hk hs ha = omega (
  arith,
  length-append k (s ++ (be_bytes 4 v ++ (f ∷ (replicate 3 0 ++ a)))),
  length-append s (be_bytes 4 v ++ (f ∷ (replicate 3 0 ++ a))),
  length-append (be_bytes 4 v) (f ∷ (replicate 3 0 ++ a)),
  length-be_bytes 4 v,
)

abbrev flags_of : Bool → Bool → ℕ
flags_of ctrl incoming =
    let with_ctrl = if ctrl then 0 + 2 else 0 in if incoming then with_ctrl + 1 else with_ctrl

flags_cases :
    (ctrl incoming : Bool)
    → (not (bit_and (flags_of ctrl incoming) 2 == 0) ≡ ctrl)
      × (not (bit_and (flags_of ctrl incoming) 1 == 0) ≡ incoming)
flags_cases true true = (refl, refl)
flags_cases true false = (refl, refl)
flags_cases false true = (refl, refl)
flags_cases false false = (refl, refl)

-- The flags byte gives both flags back.
flags_test :
    (h : RouteHeader)
    → (not (bit_and (flags_byte h) 2 == 0) ≡ h.is_ctrl)
      × (not (bit_and (flags_byte h) 1 == 0) ≡ h.is_incoming)
unfolding flags_byte
flags_test h = flags_cases h.is_ctrl h.is_incoming

module _ (sha512 : List ℕ → List ℕ) (h : RouteHeader) (v : IsRouteHeader sha512 h) where
  unfoldable wire : List ℕ → List ℕ
  wire inner = frame (key_bytes h.public_key) inner h.version (flags_byte h) (address_bytes h.ip6)

  serialize-wire :
      (inner : List ℕ)
      → SwitchHeader.serialize h.switch_header ≡ ok inner
      → serialize sha512 h ≡ ok (wire inner)
  unfolding serialize wire frame with_capacity into_vec write_slice write_u8 write_u32_be
  serialize-wire inner written =
      rw
        (
          check_address-ok sha512 SerializeError.invalid_invariant SerializeError.invalid_data
              h.public_key h.ip6 h.is_ctrl v.addressed,
          written,
        )
        (simp append_assoc)

  parse-wire :
      (inner : List ℕ) (s : SwitchHeader)
      → length inner ≡ 12
      → SwitchHeader.parse inner ≡ ok s
      → (length (wire inner) ≡ 68)
        × (parse sha512 (wire inner) ≡ ok (record h { switch_header = s }))
  parse-wire inner s size back =
      let (key_back, key_length) =
        read_key-key_bytes sha512 h.public_key h.ip6 h.is_ctrl v.addressed in
      let (ip6_back, ip6_length) =
        read_ip6-address_bytes sha512 h.public_key h.ip6 h.is_ctrl v.addressed in
      let (ctrl_back, incoming_back) = flags_test h in
      let total =
        length-frame (key_bytes h.public_key) inner h.version (flags_byte h) (address_bytes h.ip6)
          key_length size ip6_length in
      let fields =
        read_fields-frame (key_bytes h.public_key) inner h.version (flags_byte h)
          (address_bytes h.ip6) key_length size v.version_fits ip6_length in
      (
        unfold wire in sym total,
        unfold wire parse from_fields in
            rw (
              read_exact-ok 68 read_fields _ _ total fields,
              back,
              key_back,
              ctrl_back,
              incoming_back,
              ip6_back,
              check_address-ok sha512 ParseError.invalid_invariant ParseError.invalid_data
                  h.public_key h.ip6 h.is_ctrl v.addressed,
            ),
      )

  -- A route header with consistent addresses, a version of 32 bits and a valid switch header is
  -- written as 68 bytes, and these are read as the
  -- same header, with the current version in its switch header.
  pub parse_route-serialize_route :
      (bytes : List ℕ) × (serialize sha512 h ≡ ok bytes)
      × (length bytes ≡ 68)
      × (parse sha512 bytes
          ≡ ok (record h { switch_header = record h.switch_header { version = 1 } }))
  parse_route-serialize_route =
      let (inner, written, size, inner_valid, back) =
        RoundTrip.parse_switch-serialize_switch h.switch_header v.switch_valid in
      let (total, again) = parse-wire inner _ size back in
      (wire inner, serialize-wire inner written, total, again)
