-- ===== src/Snode/PathSearch.antt =====
-- cjdns-snode/src/pathsearch: shortest paths by the algorithm of Dijkstra.
pub mod Weight
pub mod Frontier
pub mod Dijkstra
mod Tests
