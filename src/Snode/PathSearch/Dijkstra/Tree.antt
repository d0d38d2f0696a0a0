-- ===== src/Snode/PathSearch/Dijkstra/Tree.antt =====
-- The search tree has the tags that can be reached, and the ways to them.
use native.Mathlib.Decide.{ℕ_discrete}
use cjdns_route_server.Base.{
  ℕ, suc, zero, ◌≡◌, ◌≢◌, ◌⊎◌, inl, inr, refl, sym, ap, ◌∙◌, subst, arith, true, List, [], ◌∷◌,
  reverse, length, eq→==, ne→==, Option, none, some, Option-cases, Result, ok,
}
use cjdns_route_server.Base.Maps.{get, map_keys, get-empty}
use cjdns_route_server.Core.Scheme.{contains}
use cjdns_route_server.Snode.PathSearch.Weight.{Weight}
use cjdns_route_server.Snode.PathSearch.Frontier.Refines.{pop-Pops, cost}
use cjdns_route_server.Snode.PathSearch.Dijkstra.{
  Dijkstra, Search, PathSearchTree, search_fuel, search_all, path_search_tree,
}
use cjdns_route_server.Snode.PathSearch.Dijkstra.Tags.{length-le, contains-empty, true-ne-false}
use cjdns_route_server.Snode.PathSearch.Dijkstra.Invariant.{
  WalksFinite, all_tags, Back, IsSearch, settle,
}
use cjdns_route_server.Snode.PathSearch.Dijkstra.Steps.{explore-Kept, start_search-Kept}
use cjdns_route_server.Snode.PathSearch.Dijkstra.Links.{length-all_tags}
use cjdns_route_server.Snode.PathSearch.Dijkstra.Walks.{
  Closed, reached, Closed-explore, no_way, Enough,
}
use cjdns_route_server.Snode.PathSearch.Dijkstra.Traces.{
  between, Traced, tree_paths-Traced, map_keys-some, map_keys-none,
}

module _ (weight : Weight) (d : Dijkstra weight) (from : ℕ) where
  -- The state in which the search ends, with an empty frontier.
  abbrev Ended : {E : Type 0} → Result E (Search weight) → Type 0
  Ended out =
      (s : Search weight) × (out ≡ ok s)
      × IsSearch weight d from s
      × Closed weight d from s
      × ((u : ℕ) → cost weight s.frontier u ≡ none)

  search_all-Ended :
      {E : Type 0} (fuel : ℕ) (s : Search weight)
      → WalksFinite weight d from
      → IsSearch weight d from s
      → Closed weight d from s
      → Enough weight d from fuel s
      → Ended (search_all weight {E = E} fuel d s)
  unfolding search_all
  search_all-Ended zero s finite v closed h =
      absurd (omega (arith, length-le s.explored (all_tags weight d from) v.distinct v.within, h))
  search_all-Ended {E = E} (suc fuel) s finite v closed h =
      elim (pop-Pops weight s.frontier v.frontier_valid)
        as (λ _. Ended (search_all weight {E = E} (suc fuel) d s)) [
          | inl (nothing, all) ↦ rw (search_all, nothing) (s, refl, v, closed, all)
          | inr (item, f', popped, valid, there, gone, others, least) ↦
              let (s', done, v', same, grows, all) =
                explore-Kept weight d from {E = E} s item f' v valid there gone others finite in
              let (s2, done', v2, closed2, empty) =
                search_all-Ended {E = E} fuel s' finite v'
                  (Closed-explore weight d from s s' item.0 f' closed others same grows all)
                  (omega (arith, ap length same, h)) in
              (s2, rw (search_all, popped, done) done', v2, closed2, empty)
        ]

  -- The way to `u` in the tree, or nothing where no links lead there.
  abbrev pub Leads : ℕ → Option (List ℕ) → Type 0
  Leads u o =
      ((o ≡ none) × ((r : List ℕ) → ¬ Back weight d from u r))
      ⊎ ((r : List ℕ) × (o ≡ some (reverse (between weight d from r)))
          × Back weight d from u (u ∷ r))

  -- What the tree says of one tag.
  abbrev pub Tree : {E : Type 0} → ℕ → Result E PathSearchTree → Type 0
  Tree u out = (t : PathSearchTree) × (out ≡ ok t) × (t.start_node ≡ from) × Leads u (get t.paths u)

  Traced-Leads :
      (paths : List (ℕ × List ℕ)) (u : ℕ)
      → u ≢ from
      → Traced weight d from paths u
      → Leads u (get paths u)
  Traced-Leads paths u ne ([], found, back) = absurd (ne back)
  Traced-Leads paths u ne (x ∷ r, found, (same, rest)) = inr (r, found, (refl, rest))

  -- A tag without a predecessor, which is not the start, was not reached.
  unreached :
      (s : Search weight) (u : ℕ)
      → IsSearch weight d from s
      → contains s.explored u ≡ true
      → get s.previous u ≡ none
      → u ≡ from
  unreached s u v inside nothing =
      let (before, o, p, less) = settle weight d from s.previous s.explored u v.ordered inside in
      elim p [ inl (there, start) ↦ start | inr (t, there, before_it, edge) ↦ absurd (cc) ]

  built-Tree :
      {E : Type 0} (u : ℕ)
      → WalksFinite weight d from
      → u ≢ from
      → length d.nodes ≢ 0
      → Tree u (path_search_tree weight {E = E} d from)
  unfolding path_search_tree
  built-Tree {E = E} u finite apart some_nodes =
      let (s0, started, v0, fresh, known) = start_search-Kept weight d from {E = E} finite in
      let closed0 : Closed weight d from s0 = record {
        start = known;
        next = λ v u h edge. absurd (contains-empty v (subst (λ xs. contains xs v ≡ true) fresh h));
      } in
      let (s, done, v, closed, empty) =
        search_all-Ended {E = E} (search_fuel weight d) s0 finite v0 closed0
          (omega (arith, length-all_tags weight d from)) in
      let inside : (k : ℕ)
          → contains (map_keys s.previous) k ≡ true
          → contains s.explored k ≡ true =
        λ k h. elim (Option-cases (get s.previous k)) [
          | inl nothing ↦ absurd (true-ne-false (sym h ∙ map_keys-none s.previous k nothing))
          | inr (t, there) ↦ elim (v.kept k t there) [
            | inl explored ↦ explored
            | inr (c, waits) ↦ absurd (let e = empty k in cc)
          ]
        ] in
      let (paths, traced, all, others) =
        tree_paths-Traced weight d from {E = E} (suc (length s.explored)) s.previous s.explored
          (map_keys s.previous) (omega arith) v.ordered inside in
      let leads : Leads u (get paths u) = elim (Option-cases (get s.previous u)) [
        | inl nothing ↦ inl (
          others u (map_keys-none s.previous u nothing),
          λ r back. apart (unreached s u v (reached weight d from s closed empty u r back) nothing),
        )
        | inr (t, there) ↦ Traced-Leads paths u apart (all u (map_keys-some s.previous u t there))
      ] in
      (
        record { start_node = from; paths = paths },
        rw (ne→== (length d.nodes) 0 some_nodes, started, done, traced) refl,
        refl,
        leads,
      )

  -- Where the weights of every walk from the start have a finite sum, which `into_ord` asserts,
  -- `path_search_tree` ends within its fuel and does not panic, whatever the graph. For each tag but
  -- the start the tree has the tags between the start and it, in their order, on a way along links;
  -- or it has nothing, and then no links lead from the start to the tag.
  pub path_search_tree-Tree :
      {E : Type 0} (u : ℕ)
      → WalksFinite weight d from
      → u ≢ from
      → Tree u (path_search_tree weight {E = E} d from)
  unfolding path_search_tree
  path_search_tree-Tree {E = E} u finite apart =
      elim (ℕ_discrete (length d.nodes) 0)
        as (λ _. Tree u (path_search_tree weight {E = E} d from)) [
          | yes e ↦ (
            record { start_node = from; paths = [] },
            rw (eq→== (length d.nodes) 0 e) refl,
            refl,
            inl (get-empty u, λ r back. apart (no_way weight d from e u r back)),
          )
          | no ne ↦ built-Tree u finite apart ne
        ]
