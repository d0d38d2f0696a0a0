-- ===== src/Snode/PathSearch/Tests.antt =====
-- The path search at concrete graphs; those of the tests of cjdns-snode/src/pathsearch.rs and
-- frontier.rs, with natural numbers as weights.
use cjdns_route_server.Base.{
  ℕ, ◌+◌, ◌≡◌, ◌≢◌, refl, [], ◌∷◌, arith, true, ltb, leb, if◌then◌else◌, Result, ok, panic,
}
use cjdns_route_server.Base.Maps.{get, position, insert, remove, map_values, map_keys}
use cjdns_route_server.Core.Scheme.{contains}
use cjdns_route_server.Snode.PathSearch.Weight.{Weight}
use cjdns_route_server.Snode.PathSearch.Frontier.{
  insert_at, remove_at, pop_last, Frontier, key_lt, insertion_pos, insert_item, all_finite, push,
  pop, decrease_cost, try_insert_or_decrease_cost,
}
use cjdns_route_server.Snode.PathSearch.Frontier.Refines.{
  IsFinite, IsFrontier, Offers, Pops, try_insert_or_decrease_cost-Offers, pop-Pops,
}
use cjdns_route_server.Snode.PathSearch.Dijkstra.Invariant.{WalksFinite, reach_start, reach_link}
use cjdns_route_server.Snode.PathSearch.Dijkstra.Tree.{Tree, path_search_tree-Tree}
use cjdns_route_server.Snode.PathSearch.Dijkstra.Walks.{Way, reverse_path-Way}
use cjdns_route_server.Snode.PathSearch.Dijkstra.{
  Dijkstra, start_search, visit, visit_all, neighbors_of, explore, trace_back, search_goal,
  count_links, reverse_path, path, search_all, trace_inner, tree_paths, path_search_tree,
}

-- Numbers whose sums stay at the greatest finite one, as those of a floating point type do where the
-- weights are far below it.
abbrev number_weight : Weight
number_weight = record {
  W = ℕ;
  zero_weight = 0;
  add = λ a b. let s = a + b in if ltb s 1000 then s else 999;
  lt = λ a b. ltb a b;
  ge = λ a b. leb b a;
  is_finite = λ a. ltb a 1000;
  into_ord = λ a. a;
}

-- A is 1, B is 2, C is 3 and D is 4.
abbrev letters : Dijkstra number_weight
letters = record {
  nodes =
      (1, (2, 1) ∷ [])
      ∷ (2, (1, 1) ∷ (3, 2) ∷ (4, 4) ∷ [])
      ∷ (3, (2, 2) ∷ (4, 1) ∷ [])
      ∷ (4, (3, 1) ∷ (2, 4) ∷ [])
      ∷ [];
}

abbrev Run : Type 0 → Type 0
Run A = Result (Unit {0}) A

abbrev done : {A : Type 0} → A → Run A
done a = ok a

path-letters : path number_weight letters 1 4 ≡ done (1 ∷ 2 ∷ 3 ∷ 4 ∷ [])
unfolding path reverse_path search_goal explore visit_all visit start_search neighbors_of trace_back
    count_links contains get insert remove map_values insert_at remove_at pop_last key_lt
    insertion_pos insert_item all_finite push pop decrease_cost try_insert_or_decrease_cost
path-letters = refl

abbrev ring : Dijkstra number_weight
ring = record {
  nodes =
      (1, (2, 7) ∷ (3, 9) ∷ (6, 14) ∷ [])
      ∷ (2, (1, 7) ∷ (3, 10) ∷ (4, 15) ∷ [])
      ∷ (3, (1, 9) ∷ (2, 10) ∷ (4, 11) ∷ (6, 2) ∷ [])
      ∷ (4, (2, 15) ∷ (3, 11) ∷ (5, 6) ∷ [])
      ∷ (5, (4, 6) ∷ (6, 9) ∷ [])
      ∷ (6, (1, 14) ∷ (3, 2) ∷ (5, 9) ∷ [])
      ∷ [];
}

tree-ring :
    path_search_tree number_weight ring 1
    ≡ done (record {
      start_node = 1;
      paths = (5, 3 ∷ 6 ∷ []) ∷ (6, 3 ∷ []) ∷ (4, 3 ∷ []) ∷ (3, []) ∷ (2, []) ∷ [];
    })
unfolding path_search_tree search_all explore visit_all visit start_search neighbors_of trace_inner
    tree_paths count_links contains get insert remove map_values map_keys insert_at remove_at
    pop_last key_lt insertion_pos insert_item all_finite push pop decrease_cost
    try_insert_or_decrease_cost
tree-ring = refl

-- Two nodes, of which the second costs less.
abbrev two_nodes : Frontier number_weight
two_nodes = record { queue = (1, 5) ∷ (2, 3) ∷ []; index = (1, 0) ∷ (2, 1) ∷ [] }

two_nodes-IsFrontier : IsFrontier number_weight two_nodes
unfolding get position key_lt
two_nodes-IsFrontier = record {
  sorted = ((refl, tt), (tt, tt));
  distinct = (refl, (refl, tt));
  indexed = λ t. ground arith;
}

two_nodes-IsFinite : IsFinite number_weight two_nodes
unfolding get
two_nodes-IsFinite u c h = ground (arith, h)

sums-finite : (a b : ℕ) → number_weight.is_finite (number_weight.add a b) ≡ true
sums-finite a b = ground arith

letters-WalksFinite : WalksFinite number_weight letters 1
letters-WalksFinite u c reach_start = refl
letters-WalksFinite u c (reach_link v c' i n r h) = sums-finite c' n.1

ring-WalksFinite : WalksFinite number_weight ring 1
ring-WalksFinite u c reach_start = refl
ring-WalksFinite u c (reach_link v c' i n r h) = sums-finite c' n.1

try_insert_or_decrease_cost-Offers_example :
    Offers number_weight {E = Unit {0}} two_nodes 1 2
      (try_insert_or_decrease_cost number_weight two_nodes 1 2)
try_insert_or_decrease_cost-Offers_example =
    try_insert_or_decrease_cost-Offers number_weight two_nodes 1 2 two_nodes-IsFrontier refl
      two_nodes-IsFinite

-- A cost that is not finite fails the assertion of `into_ord`.
not_finite : try_insert_or_decrease_cost number_weight {E = Unit {0}} two_nodes 3 1000 ≡ panic
unfolding try_insert_or_decrease_cost get push insert_item all_finite
not_finite = refl

pop-Pops_example : Pops number_weight two_nodes (pop number_weight two_nodes)
pop-Pops_example = pop-Pops number_weight two_nodes two_nodes-IsFrontier

reverse_path-Way_example :
    Way number_weight letters 1 {E = Unit {0}} 4 (reverse_path number_weight letters 1 4)
reverse_path-Way_example =
    reverse_path-Way number_weight letters 1 {E = Unit {0}} 4 letters-WalksFinite

other_node : ◌≢◌ {A = ℕ} 5 1
other_node = omega arith

path_search_tree-Tree_example :
    Tree number_weight ring 1 {E = Unit {0}} 5 (path_search_tree number_weight ring 1)
path_search_tree-Tree_example =
    path_search_tree-Tree number_weight ring 1 {E = Unit {0}} 5 ring-WalksFinite other_node
