-- ===== src/Hdr.antt =====
-- The crate cjdns-hdr: the switch, data and route headers.
pub mod ContentType
pub mod DataHeader
pub mod SwitchHeader
pub mod RouteHeader
mod Tests
