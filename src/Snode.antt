-- ===== src/Snode.antt =====
-- The crate cjdns-snode: of the route server, the search for paths over the graph of links.
pub mod PathSearch
