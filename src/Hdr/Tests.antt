-- ===== src/Hdr/Tests.antt =====
-- The theorems on headers at the headers of the source's own tests.
use cjdns_route_server.Base.{
  ℕ, ◌≡◌, refl, arith, true, false, some, List, [], ◌∷◌, length, replicate, IsBytes, be_value, ok,
}
use cjdns_route_server.Core.Label.{try_new}
use cjdns_route_server.Keys.{ip6_from_key, ip6_from_bytes}
use cjdns_route_server.Bytes.Reader.{read, read_slice, read_u8, read_u16_be, read_u64_be}
use cjdns_route_server.Hdr.ContentType.{cjdht, try_to_u16, to_u32}
use cjdns_route_server.Hdr.DataHeader
use cjdns_route_server.Hdr.DataHeader.{DataHeader}
use cjdns_route_server.Hdr.DataHeader.RoundTrip.{parse_header-serialize_header}
use cjdns_route_server.Hdr.SwitchHeader
use cjdns_route_server.Hdr.SwitchHeader.{SwitchHeader}
use cjdns_route_server.Hdr.SwitchHeader.RoundTrip.{IsSwitchHeader, parse_switch-serialize_switch}
use cjdns_route_server.Hdr.SwitchHeader.Canonical.{
  parse-IsSwitchHeader, serialize_switch-parse_switch,
}
use cjdns_route_server.Hdr.RouteHeader
use cjdns_route_server.Hdr.RouteHeader.{RouteHeader}
use cjdns_route_server.Hdr.RouteHeader.RoundTrip.{IsRouteHeader, parse_route-serialize_route}

data_code : try_to_u16 cjdht ≡ some 256
unfolding try_to_u16 to_u32
data_code = refl

abbrev data_header : DataHeader
data_header = record { version = 0; content_type = cjdht }

parse_header-serialize_header_example :
    (bytes : List ℕ) × (DataHeader.serialize data_header ≡ ok bytes)
    × (length bytes ≡ 4)
    × (DataHeader.parse bytes ≡ ok (record { version = 1; content_type = cjdht }))
parse_header-serialize_header_example =
    parse_header-serialize_header data_header 256 (omega arith) data_code

abbrev switch_header : SwitchHeader
switch_header = record {
  label = record { bits = 0x62c1d23a64811401 };
  congestion = 1;
  suppress_errors = true;
  version = 0;
  label_shift = 57;
  penalty = 3;
}

abbrev current_switch_header : SwitchHeader
current_switch_header = record switch_header { version = 1 }

switch_header-IsSwitchHeader : IsSwitchHeader switch_header
switch_header-IsSwitchHeader = record {
  label_valid = omega arith;
  congestion_fits = omega arith;
  version_known = omega arith;
  shift_fits = omega arith;
  penalty_fits = omega arith;
}

parse_switch-serialize_switch_example :
    (bytes : List ℕ) × (SwitchHeader.serialize switch_header ≡ ok bytes)
    × (length bytes ≡ 12)
    × IsBytes bytes
    × (SwitchHeader.parse bytes ≡ ok current_switch_header)
parse_switch-serialize_switch_example =
    parse_switch-serialize_switch switch_header switch_header-IsSwitchHeader

abbrev switch_bytes : List ℕ
switch_bytes = 0x62 ∷ 0xc1 ∷ 0xd2 ∷ 0x3a ∷ 0x64 ∷ 0x81 ∷ 0x14 ∷ 1 ∷ 3 ∷ 0x79 ∷ 0 ∷ 3 ∷ []

abbrev switch_bytes-IsBytes : IsBytes switch_bytes
switch_bytes-IsBytes = omega arith

switch_bytes_parsed : SwitchHeader.parse switch_bytes ≡ ok current_switch_header
unfolding SwitchHeader.parse SwitchHeader.read_fields SwitchHeader.from_fields read read_slice
    read_u8 read_u16_be read_u64_be try_new be_value
switch_bytes_parsed = refl

parse-IsSwitchHeader_example : (length switch_bytes ≡ 12) × IsSwitchHeader current_switch_header
parse-IsSwitchHeader_example =
    parse-IsSwitchHeader switch_bytes current_switch_header switch_bytes-IsBytes switch_bytes_parsed

serialize_switch-parse_switch_example :
    SwitchHeader.serialize current_switch_header ≡ ok switch_bytes
serialize_switch-parse_switch_example =
    serialize_switch-parse_switch switch_bytes current_switch_header switch_bytes-IsBytes
      switch_bytes_parsed refl

-- A hash with which every key has the same address.
abbrev sample_hash : List ℕ → List ℕ
sample_hash bytes = 0xfc ∷ replicate 63 7

abbrev route_header : RouteHeader
route_header = record {
  public_key = some (record { k = replicate 32 5 });
  ip6 = some (record { k = 0xfc ∷ replicate 15 7 });
  version = 20;
  switch_header = switch_header;
  is_incoming = true;
  is_ctrl = false;
}

route_header-IsRouteHeader : IsRouteHeader sample_hash route_header
unfolding ip6_from_key ip6_from_bytes
route_header-IsRouteHeader = record {
  switch_valid = switch_header-IsSwitchHeader;
  version_fits = omega arith;
  addressed = ((refl, λ e. cc), (refl, refl), refl);
}

parse_route-serialize_route_example :
    (bytes : List ℕ) × (RouteHeader.serialize sample_hash route_header ≡ ok bytes)
    × (length bytes ≡ 68)
    × (RouteHeader.parse sample_hash bytes
        ≡ ok (record route_header { switch_header = current_switch_header }))
parse_route-serialize_route_example =
    parse_route-serialize_route sample_hash route_header route_header-IsRouteHeader
