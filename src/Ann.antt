-- ===== src/Ann.antt =====
-- The crate cjdns-ann: the announcements in which nodes tell the route server of their links.
pub mod Models
pub mod Entities
pub mod Wire
pub mod LinkState
pub mod Packet
pub mod Parser
mod Tests
