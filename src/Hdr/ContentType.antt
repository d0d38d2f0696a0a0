-- ===== src/Hdr/ContentType.antt =====
-- cjdns-hdr/src/content_type.rs: the content types and their numbers.
use cjdns_route_server.Base.{
  ℕ, ◌+◌, ◌^◌, ◌<◌, ◌≡◌, refl, arith, Bool, true, false, Option, none, some, List, [], ◌∷◌, ltb,
  ◌==◌, if◌then◌else◌,
}

pub data ContentType : Type 0 where
  ip6_hop ip6_icmp ip6_igmp ip6_ipv4 ip6_tcp ip6_egp ip6_pup ip6_udp : ContentType
  ip6_idp ip6_tp ip6_dccp ip6_ipv6 ip6_rsvp ip6_gre ip6_esp ip6_ah : ContentType
  ip6_icmpv6 ip6_mtp ip6_beetph ip6_encap ip6_pim ip6_comp ip6_sctp ip6_udplite : ContentType
  cjdht iptun ctrl other : ContentType

-- `ContentType::MAX`
abbrev pub max_code : ℕ
max_code = 0xffff + 2

-- The number of a content type, its discriminant.
unfoldable pub to_u32 : ContentType → ℕ
to_u32 ip6_hop = 0
to_u32 ip6_icmp = 1
to_u32 ip6_igmp = 2
to_u32 ip6_ipv4 = 4
to_u32 ip6_tcp = 6
to_u32 ip6_egp = 8
to_u32 ip6_pup = 12
to_u32 ip6_udp = 17
to_u32 ip6_idp = 22
to_u32 ip6_tp = 29
to_u32 ip6_dccp = 33
to_u32 ip6_ipv6 = 41
to_u32 ip6_rsvp = 46
to_u32 ip6_gre = 47
to_u32 ip6_esp = 50
to_u32 ip6_ah = 51
to_u32 ip6_icmpv6 = 58
to_u32 ip6_mtp = 92
to_u32 ip6_beetph = 94
to_u32 ip6_encap = 98
to_u32 ip6_pim = 103
to_u32 ip6_comp = 108
to_u32 ip6_sctp = 132
to_u32 ip6_udplite = 136
to_u32 cjdht = 256
to_u32 iptun = 257
to_u32 ctrl = 0xffff + 1
to_u32 other = max_code

-- The content types that have a number of their own.
abbrev numbered : List ContentType
numbered =
    ip6_hop ∷ ip6_icmp ∷ ip6_igmp ∷ ip6_ipv4 ∷ ip6_tcp ∷ ip6_egp ∷ ip6_pup ∷ ip6_udp ∷ ip6_idp
    ∷ ip6_tp ∷ ip6_dccp ∷ ip6_ipv6 ∷ ip6_rsvp ∷ ip6_gre ∷ ip6_esp ∷ ip6_ah ∷ ip6_icmpv6 ∷ ip6_mtp
    ∷ ip6_beetph ∷ ip6_encap ∷ ip6_pim ∷ ip6_comp ∷ ip6_sctp ∷ ip6_udplite ∷ cjdht ∷ iptun ∷ ctrl
    ∷ []

-- The one of these types that has the number, and otherwise the default.
unfoldable pub with_number : ℕ → List ContentType → ContentType
with_number code [] = other
with_number code (t ∷ ts) = if to_u32 t == code then t else with_number code ts

-- `FromPrimitive`, derived: the type with this number, or `Other`.
unfoldable pub from_primitive : ℕ → ContentType
from_primitive code = with_number code numbered

unfoldable pub from_u16 : ℕ → ContentType
from_u16 code = from_primitive code

unfoldable pub try_to_u16 : ContentType → Option ℕ
try_to_u16 t = if ltb (to_u32 t) (2 ^ 16) then some (to_u32 t) else none

-- `self.content_type == ContentType::Other`
unfoldable pub is_other : ContentType → Bool
is_other other = true
is_other t = false

-- Each type is read back from its number.
from_primitive-to_u32 : (t : ContentType) → from_primitive (to_u32 t) ≡ t
unfolding from_primitive with_number to_u32
from_primitive-to_u32 ip6_hop = refl
from_primitive-to_u32 t = refl

-- A type that has a 16-bit number is read back from it.
pub from_u16-try_to_u16 :
    (t : ContentType) (code : ℕ) → try_to_u16 t ≡ some code → from_u16 code ≡ t
unfolding from_u16 try_to_u16
from_u16-try_to_u16 t code e =
    let same : to_u32 t ≡ code = ground arith in rw (← same) (from_primitive-to_u32 t)

pub try_to_u16-lt : (t : ContentType) (code : ℕ) → try_to_u16 t ≡ some code → code < 2 ^ 16
unfolding try_to_u16
try_to_u16-lt t code e = ground arith
