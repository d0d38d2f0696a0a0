-- ===== src/Ctrl.antt =====
-- cjdns-ctrl: the control messages, that switches answer to each other.
pub mod MessageType
pub mod ErrorData
pub mod PingData
pub mod Message
mod Tests
