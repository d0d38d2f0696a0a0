-- ===== src/Snode/PathSearch/Dijkstra/Walks.antt =====
-- The way that a search finds is one along links.
use native.Mathlib.Decide.{ℕ_discrete}
use cjdns_route_server.Base.{
  ℕ, suc, zero, ◌+◌, ◌<◌, ◌≡◌, ◌≢◌, ◌⊎◌, inl, inr, refl, sym, ap, ◌∙◌, subst, arith, true, false,
  List, [], ◌∷◌, ◌++◌, length, eq→==, ne→==, none, Result, ok,
}
use cjdns_route_server.Core.Scheme.{contains}
use cjdns_route_server.Snode.PathSearch.Weight.{Weight}
use cjdns_route_server.Snode.PathSearch.Frontier
use cjdns_route_server.Snode.PathSearch.Frontier.Refines.{pop-Pops, cost}
use cjdns_route_server.Snode.PathSearch.Dijkstra.{
  Dijkstra, Search, search_fuel, search_goal, reverse_path,
}
use cjdns_route_server.Snode.PathSearch.Dijkstra.Tags.{
  length-le, contains-cases, contains-empty, contains-other, true-ne-false,
}
use cjdns_route_server.Snode.PathSearch.Dijkstra.Invariant.{
  WalksFinite, Known, all_tags, Back, IsSearch, trace_back-Back, Edge,
}
use cjdns_route_server.Snode.PathSearch.Dijkstra.Steps.{
  Known-taken, explore-Kept, start_search-Kept,
}
use cjdns_route_server.Snode.PathSearch.Dijkstra.Links.{length-all_tags, unlinked}

module _ (weight : Weight) (d : Dijkstra weight) (from : ℕ) where
  -- The state of a search: what is explored has only neighbours that are known, and so is the start.
  pub record Closed (s : Search weight) : Type 0 where
    pub start : Known weight d from s from
    pub next :
        (v u : ℕ) → contains s.explored v ≡ true → Edge weight d from v u → Known weight d from s u

  -- Where the frontier is empty, all that can be reached is explored.
  pub reached :
      (s : Search weight)
      → Closed s
      → ((u : ℕ) → cost weight s.frontier u ≡ none)
      → (u : ℕ) (r : List ℕ) → Back weight d from u r
      → contains s.explored u ≡ true
  reached s closed empty u r back =
      let explored : (k : ℕ) → Known weight d from s k → contains s.explored k ≡ true =
        λ k known. elim known [ inl h ↦ h | inr (c, h) ↦ absurd (let e = empty k in cc) ] in
      explored u (along r u back)
    where
      along : (r : List ℕ) (u : ℕ) → Back weight d from u r → Known weight d from s u
      along [] u e = subst (λ k. Known weight d from s k) (sym e) closed.start
      along (x ∷ r) u (e, (v, edge, back)) = elim (along r v back) [
        | inl h ↦ closed.next v u h edge
        | inr (c, h) ↦ absurd (let none_there = empty v in cc)
      ]

  pub Closed-explore :
      (s s' : Search weight) (t : ℕ) (f' : Frontier.Frontier weight)
      → Closed s
      → ((u : ℕ) → t ≢ u → cost weight f' u ≡ cost weight s.frontier u)
      → s'.explored ≡ t ∷ s.explored
      → ((u : ℕ)
          → Known weight d from (record s { explored = t ∷ s.explored; frontier = f' }) u
          → Known weight d from s' u)
      → ((u : ℕ) → Edge weight d from t u → Known weight d from s' u)
      → Closed s'
  Closed-explore s s' t f' closed others same grows all = record {
    start = grows from (Known-taken weight d from s t f' others from closed.start);
    next = λ v u h edge.
        elim (contains-cases t v s.explored (subst (λ xs. contains xs v ≡ true) same h)) [
          | inl e ↦ all u (subst (λ k. Edge weight d from k u) (sym e) edge)
          | inr (ne, rest) ↦
              grows u (Known-taken weight d from s t f' others u (closed.next v u rest edge))
        ];
  }

  abbrev pub Enough : ℕ → Search weight → Type 0
  Enough fuel s = length (all_tags weight d from) < fuel + length s.explored

  -- Nothing leads to the end, or the tags before the start lead back to it along links.
  abbrev Found : {E : Type 0} → ℕ → Result E (List ℕ) → Type 0
  Found to out =
      (r : List ℕ) × (out ≡ ok r)
      × (((r ≡ []) × ((r' : List ℕ) → ¬ Back weight d from to r')) ⊎ Back weight d from to r)

  search_goal-Found :
      {E : Type 0} (fuel : ℕ) (to : ℕ) (s : Search weight)
      → WalksFinite weight d from
      → IsSearch weight d from s
      → Closed s
      → contains s.explored to ≡ false
      → Enough fuel s
      → Found to (search_goal weight {E = E} fuel d to s)
  unfolding search_goal
  search_goal-Found zero to s finite v closed ahead h =
      absurd (omega (arith, length-le s.explored (all_tags weight d from) v.distinct v.within, h))
  search_goal-Found {E = E} (suc fuel) to s finite v closed ahead h =
      elim (pop-Pops weight s.frontier v.frontier_valid)
        as (λ _. Found to (search_goal weight {E = E} (suc fuel) d to s)) [
          | inl (nothing, all) ↦
              rw (search_goal, nothing)
                (
                  [],
                  refl,
                  inl (
                    refl,
                    λ r back. true-ne-false (sym (reached s closed all to r back) ∙ ahead),
                  ),
                )
          | inr (item, f', popped, valid, there, gone, others, least) ↦
              elim (ℕ_discrete item.0 to)
                as (λ _. Found to (search_goal weight {E = E} (suc fuel) d to s)) [
                  | yes goal ↦
                      let (r, done, back) =
                        trace_back-Back weight d from {E = E} (suc (length s.explored)) s.previous
                          s.explored item.0 [] (omega arith) v.ordered
                          (v.pointed item.0 item.1 there) in
                      (
                        r,
                        rw (search_goal, popped, eq→== item.0 to goal) done,
                        inr (subst (λ t. Back weight d from t r) goal back),
                      )
                  | no other ↦
                      let (s', done, v', same, grows, all) =
                        explore-Kept weight d from {E = E} s item f' v valid there gone others
                          finite in
                      let ahead' =
                        subst (λ xs. contains xs to ≡ false) (sym same)
                          (contains-other item.0 to s.explored other ahead) in
                      let (r, done', found) =
                        search_goal-Found {E = E} fuel to s' finite v'
                          (Closed-explore s s' item.0 f' closed others same grows all) ahead'
                          (omega (arith, ap length same, h)) in
                      (r, rw (search_goal, popped, ne→== item.0 to other, done) done', found)
                ]
        ]

  -- Nothing, where the end is the start or no links lead to it; or else the end, the tags that lead
  -- back from it along links, and the start.
  abbrev pub Way : {E : Type 0} → ℕ → Result E (List ℕ) → Type 0
  Way to out =
      ((out ≡ ok []) × ((to ≡ from) ⊎ ((r : List ℕ) → ¬ Back weight d from to r)))
      ⊎ ((r : List ℕ) × (out ≡ ok (to ∷ (r ++ (from ∷ [])))) × Back weight d from to (to ∷ r))

  searched-Way :
      {E : Type 0} (to : ℕ)
      → WalksFinite weight d from
      → length d.nodes ≢ 0
      → Way to (reverse_path weight {E = E} d from to)
  unfolding reverse_path contains
  searched-Way {E = E} to finite some_nodes =
      let (s, started, v, fresh, known) = start_search-Kept weight d from {E = E} finite in
      let closed : Closed s = record {
        start = known;
        next = λ v u h edge. absurd (contains-empty v (subst (λ xs. contains xs v ≡ true) fresh h));
      } in
      let (r, done, found) =
        search_goal-Found {E = E} (search_fuel weight d) to s finite v closed
          (subst (λ xs. contains xs to ≡ false) (sym fresh) refl)
          (omega (arith, length-all_tags weight d from)) in
      elim r
          as (λ r.
            (search_goal weight {E = E} (search_fuel weight d) d to s ≡ ok r)
            → (((r ≡ []) × ((r' : List ℕ) → ¬ Back weight d from to r')) ⊎ Back weight d from to r)
            → Way to (reverse_path weight {E = E} d from to)) [
              | [] ↦ λ done found. inl (
                rw (ne→== (length d.nodes) 0 some_nodes, started, done) refl,
                elim found [ inl (e, none_leads) ↦ inr none_leads | inr back ↦ inl back ],
              )
              | x ∷ rest ↦ λ done found. elim found [
                | inl (e, none_leads) ↦ absurd (cc)
                | inr back ↦ inr (
                  rest,
                  rw
                      (
                        ne→== (length d.nodes) 0 some_nodes,
                        started,
                        done,
                        ne→== (suc (length rest)) 0 (omega arith),
                      )
                      (ap (λ t. ok (t ∷ (rest ++ (from ∷ [])))) back.0),
                  (refl, back.1),
                )
              ]
            ]
        done found

  -- A graph without nodes has no links.
  pub no_way : length d.nodes ≡ 0 → (to : ℕ) (r : List ℕ) → Back weight d from to r → to ≡ from
  no_way e to [] back = back
  no_way e to (x ∷ r) (same, (v, edge, back)) = absurd (unlinked weight d from v to e edge)

  -- Where the weights of every walk from the start have a finite sum, which `into_ord` asserts,
  -- `reverse_path` ends within its fuel and does not panic, whatever the graph. It gives a way back from the end to the start, each tag with a link from the next, both ends
  -- included; or nothing, and then the two are the same or no links lead from the start to the end.
  pub reverse_path-Way :
      {E : Type 0} (to : ℕ)
      → WalksFinite weight d from
      → Way to (reverse_path weight {E = E} d from to)
  unfolding reverse_path
  reverse_path-Way {E = E} to finite =
      elim (ℕ_discrete (length d.nodes) 0)
        as (λ _. Way to (reverse_path weight {E = E} d from to)) [
          | yes e ↦ inl (
            rw (eq→== (length d.nodes) 0 e) refl,
            elim (ℕ_discrete to from) [
              | yes same ↦ inl same
              | no ne ↦ inr (λ r back. ne (no_way e to r back))
            ],
          )
          | no ne ↦ searched-Way to finite ne
        ]
