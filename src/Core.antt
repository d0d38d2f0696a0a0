-- ===== src/Core.antt =====
-- The crate cjdns-core: routing labels, encoding schemes, and the splicing of labels.
pub mod Label
pub mod Scheme
pub mod PathHop
pub mod Splice
pub mod Packing
