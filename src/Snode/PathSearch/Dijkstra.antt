-- ===== src/Snode/PathSearch/Dijkstra.antt =====
-- cjdns-snode/src/pathsearch/dijkstra.rs and graph.rs: the search itself. A hash set is the list of
-- its elements.
mod Tags
pub mod Invariant
mod Links
mod Visit
mod Steps
pub mod Walks
mod Traces
pub mod Tree
use cjdns_route_server.Base.{
  ℕ, suc, zero, ◌+◌, Bool, true, not, ◌&&◌, none, some, List, [], ◌∷◌, ◌++◌, reverse, length, ◌==◌,
  if◌then◌else◌, Result, ok, panic, ◌>>=◌, ◌>>◌, assert,
}
use cjdns_route_server.Base.Maps.{Map, get, insert, map_keys}
use cjdns_route_server.Core.Scheme.{contains}
use cjdns_route_server.Snode.PathSearch.Weight.{Weight}
use cjdns_route_server.Snode.PathSearch.Frontier
use cjdns_route_server.Snode.PathSearch.Frontier.{Item}

pub record PathSearchTree : Type 0 where
  pub start_node : ℕ
  pub paths : List (ℕ × List ℕ)

module _ (weight : Weight) where
  pub record Dijkstra : Type 0 where
    pub nodes : Map (List (Item weight))

  abbrev pub new : Dijkstra
  new = record { nodes = [] }

  unfoldable pub no_negative : List (Item weight) → Bool
  no_negative [] = true
  no_negative (l ∷ links) = weight.ge l.1 weight.zero_weight && no_negative links

  -- `add_node`, with its `debug_assert!`
  unfoldable pub add_node {ℓ} : {E : Type ℓ} → Dijkstra → ℕ → List (Item weight) → Result E Dijkstra
  add_node d node_tag links = do
    assert (no_negative links)
    ok (record { nodes = insert d.nodes node_tag links })

  -- The state of the algorithm.
  pub record Search : Type 0 where
    pub explored : List ℕ
    pub frontier : Frontier.Frontier weight
    pub previous : Map ℕ

  -- The starting point is in the frontier, and nothing is explored.
  unfoldable pub start_search {ℓ} : {E : Type ℓ} → ℕ → Result E Search
  start_search start = do
    frontier ← Frontier.push weight (Frontier.new weight) start weight.zero_weight
    ok (record { explored = []; frontier = frontier; previous = [] })

  -- One neighbour of the node `tag`, which was reached at `cost`.
  unfoldable pub visit {ℓ} : {E : Type ℓ} → ℕ → weight.W → Search → Item weight → Result E Search
  visit tag cost s n = if contains s.explored n.0 then ok s else (do
    (updated, frontier) ←
        Frontier.try_insert_or_decrease_cost weight s.frontier n.0 (weight.add cost n.1)
    ok (record s {
      frontier = frontier;
      previous = if updated then insert s.previous n.0 tag else s.previous;
    }))

  unfoldable pub visit_all {ℓ} :
      {E : Type ℓ} → ℕ → weight.W → Search → List (Item weight) → Result E Search
  visit_all tag cost s [] = ok s
  visit_all tag cost s (n ∷ neighbors) = do s' ← visit tag cost s n; visit_all tag cost s' neighbors

  unfoldable pub neighbors_of : Dijkstra → ℕ → List (Item weight)
  neighbors_of d tag = elim (get d.nodes tag) [ none ↦ [] | some neighbors ↦ neighbors ]

  -- A node that was taken from the frontier is explored, and its neighbours are visited.
  unfoldable pub explore {ℓ} :
      {E : Type ℓ} → Dijkstra → Item weight → Frontier.Frontier weight → Search → Result E Search
  explore d item frontier s =
      visit_all item.0 item.1 (record s { explored = item.0 ∷ s.explored; frontier = frontier })
        (neighbors_of d item.0)

  -- The way back over `previous`, on fuel.
  unfoldable pub trace_back {ℓ} : {E : Type ℓ} → ℕ → Map ℕ → ℕ → List ℕ → Result E (List ℕ)
  trace_back zero previous cur_tag rev_path = panic
  trace_back (suc fuel) previous cur_tag rev_path = elim (get previous cur_tag) [
    | none ↦ ok rev_path
    | some prev_tag ↦ trace_back fuel previous prev_tag (rev_path ++ (cur_tag ∷ []))
  ]

  -- The loop of `reverse_path`, on fuel, up to the goal.
  unfoldable pub search_goal {ℓ} : {E : Type ℓ} → ℕ → Dijkstra → ℕ → Search → Result E (List ℕ)
  search_goal zero d to s = panic
  search_goal (suc fuel) d to s = elim (Frontier.pop weight s.frontier) [
    | none ↦ ok []
    | some p ↦
        if p.0.0 == to
        then trace_back (suc (length s.explored)) s.previous p.0.0 []
        else (do s' ← explore d p.0 p.1 s; search_goal fuel d to s')
  ]

  -- The number of links, which bounds the nodes that can be reached.
  unfoldable pub count_links : Map (List (Item weight)) → ℕ
  count_links [] = 0
  count_links (e ∷ nodes) = length e.1 + count_links nodes

  abbrev pub search_fuel : Dijkstra → ℕ
  search_fuel d = count_links d.nodes + 2

  unfoldable pub reverse_path {ℓ} : {E : Type ℓ} → Dijkstra → ℕ → ℕ → Result E (List ℕ)
  reverse_path d from to = if length d.nodes == 0 then ok [] else (do
    s ← start_search from
    rev_path ← search_goal (search_fuel d) d to s
    if length rev_path == 0 then ok rev_path else ok (rev_path ++ (from ∷ [])))

  unfoldable pub path {ℓ} : {E : Type ℓ} → Dijkstra → ℕ → ℕ → Result E (List ℕ)
  path d from to = do rev_path ← reverse_path d from to; ok (reverse rev_path)

  -- The loop of `path_search_tree`, on fuel, until the frontier is empty.
  unfoldable pub search_all {ℓ} : {E : Type ℓ} → ℕ → Dijkstra → Search → Result E Search
  search_all zero d s = panic
  search_all (suc fuel) d s = elim (Frontier.pop weight s.frontier) [
    | none ↦ ok s
    | some p ↦ (do s' ← explore d p.0 p.1 s; search_all fuel d s')
  ]

  -- The nodes between the end and the start, on fuel.
  unfoldable pub trace_inner {ℓ} : {E : Type ℓ} → ℕ → Map ℕ → ℕ → ℕ → List ℕ → Result E (List ℕ)
  trace_inner zero previous start cur_tag rev_path = panic
  trace_inner (suc fuel) previous start cur_tag rev_path = elim (get previous cur_tag) [
    | none ↦ ok rev_path
    | some prev_tag ↦
        trace_inner fuel previous start prev_tag
          (if not (prev_tag == start) then rev_path ++ (prev_tag ∷ []) else rev_path)
  ]

  unfoldable pub tree_paths {ℓ} :
      {E : Type ℓ} → ℕ → Map ℕ → ℕ → List ℕ → Result E (List (ℕ × List ℕ))
  tree_paths fuel previous start [] = ok []
  tree_paths fuel previous start (end_tag ∷ keys) = do
    rev_path ← trace_inner fuel previous start end_tag []
    paths ← tree_paths fuel previous start keys
    ok ((end_tag, reverse rev_path) ∷ paths)

  -- The keys of a hash map come in no fixed order; here it is that of the list.
  unfoldable pub path_search_tree {ℓ} : {E : Type ℓ} → Dijkstra → ℕ → Result E PathSearchTree
  path_search_tree d start =
      if length d.nodes == 0 then ok (record { start_node = start; paths = [] }) else (do
        s0 ← start_search start
        s ← search_all (search_fuel d) d s0
        paths ← tree_paths (suc (length s.explored)) s.previous start (map_keys s.previous)
        ok (record { start_node = start; paths = paths }))
