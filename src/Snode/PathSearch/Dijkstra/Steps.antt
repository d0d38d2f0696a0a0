-- ===== src/Snode/PathSearch/Dijkstra/Steps.antt =====
-- The first state of the search and the step of its loop.
use native.Mathlib.Decide.{ℕ_discrete}
use cjdns_route_server.Base.{
  ℕ, ◌≡◌, ◌≢◌, inl, inr, refl, sym, ◌∙◌, subst, true, List, [], ◌∷◌, All, get_elem?, suc, none,
  some, ok,
}
use cjdns_route_server.Base.Maps.{map_keys, get-empty}
use cjdns_route_server.Core.Scheme.{contains}
use cjdns_route_server.Snode.PathSearch.Weight.{Weight}
use cjdns_route_server.Snode.PathSearch.Frontier
use cjdns_route_server.Snode.PathSearch.Frontier.{Item, push, try_insert_or_decrease_cost}
use cjdns_route_server.Snode.PathSearch.Frontier.Refines.{
  IsFrontier, cost, insert_item-Updates, new-IsFrontier,
}
use cjdns_route_server.Snode.PathSearch.Dijkstra.{
  Dijkstra, Search, neighbors_of, start_search, explore,
}
use cjdns_route_server.Snode.PathSearch.Dijkstra.Tags.{
  contains-cases, contains-empty, contains-behind, contains-head, contains-other,
}
use cjdns_route_server.Snode.PathSearch.Dijkstra.Invariant.{
  targets, all_tags, IsSearch, Known, WalksFinite, Reaches, reach_start, reach_link, Points-behind,
}
use cjdns_route_server.Snode.PathSearch.Dijkstra.Visit.{Kept, visit_all-Kept}

All-get_elem? :
    {A : Type 0} (P : A → Type 0) (xs : List A)
    → ((i : ℕ) (x : A) → get_elem? xs i ≡ some x → P x)
    → All P xs
All-get_elem? P [] h = tt
All-get_elem? P (x ∷ xs) h = (h 0 x refl, All-get_elem? P xs (λ i y e. h (suc i) y e))

module _ (weight : Weight) (d : Dijkstra weight) (from : ℕ) where
  -- A tag that was known stays so when one is taken from the frontier.
  pub Known-taken :
      (s : Search weight) (t : ℕ) (f' : Frontier.Frontier weight)
      → ((u : ℕ) → t ≢ u → cost weight f' u ≡ cost weight s.frontier u)
      → (u : ℕ) → Known weight d from s u
      → Known weight d from (record s { explored = t ∷ s.explored; frontier = f' }) u
  Known-taken s t f' others u (inl h) = inl (contains-behind t u s.explored h)
  Known-taken s t f' others u (inr (c, h)) = elim (ℕ_discrete t u) [
    | yes e ↦ inl (subst (λ k. contains (t ∷ s.explored) k ≡ true) e (contains-head t s.explored))
    | no ne ↦ inr (c, others u ne ∙ h)
  ]

  -- The links of a node that a walk comes to prolong it.
  prolonged :
      (v : ℕ) (c : weight.W) (ns : List (Item weight))
      → Reaches weight d from v c
      → ((i : ℕ) (n : Item weight)
          → get_elem? ns i ≡ some n
          → get_elem? (neighbors_of weight d v) i ≡ some n)
      → All (λ n. Reaches weight d from n.0 (weight.add c n.1)) ns
  prolonged v c ns r h =
      All-get_elem? (λ n. Reaches weight d from n.0 (weight.add c n.1)) ns
        (λ i n e. reach_link v c i n r (h i n e))

  -- A tag that is taken from the frontier is explored.
  taken :
      (s : Search weight) (item : Item weight) (f' : Frontier.Frontier weight)
      → IsSearch weight d from s
      → IsFrontier weight f'
      → cost weight s.frontier item.0 ≡ some item.1
      → cost weight f' item.0 ≡ none
      → ((u : ℕ) → item.0 ≢ u → cost weight f' u ≡ cost weight s.frontier u)
      → IsSearch weight d from (record s { explored = item.0 ∷ s.explored; frontier = f' })
  taken s item f' v valid there gone others =
      let t = item.0 in
      let other : (u : ℕ) (c : weight.W)
          → cost weight f' u ≡ some c
          → (t ≢ u) × (cost weight s.frontier u ≡ some c) =
        λ u c h. elim (ℕ_discrete t u) [
          | yes e ↦ absurd (let gone' = subst (λ k. cost weight f' k ≡ none) e gone in cc)
          | no ne ↦ (ne, sym (others u ne) ∙ h)
        ] in
      record {
        frontier_valid = valid;
        apart =
            λ u c h. contains-other t u s.explored (other u c h).0 (v.apart u c (other u c h).1);
        pointed = λ u c h.
            Points-behind weight d from s.previous s.explored t u (v.pointed u c (other u c h).1);
        met = λ u c h. v.met u c (other u c h).1;
        reached_at = λ u c h. v.reached_at u c (other u c h).1;
        ordered = (v.pointed t item.1 there, v.ordered);
        within = λ u h. elim (contains-cases t u s.explored h) [
          | inl e ↦ subst (λ k. contains (all_tags weight d from) k ≡ true) e (v.met t item.1 there)
          | inr (ne, rest) ↦ v.within u rest
        ];
        distinct = (v.apart t item.1 there, v.distinct);
        kept = λ u p h. Known-taken s t f' others u (v.kept u p h);
      }

  pub explore-Kept :
      {E : Type 0} (s : Search weight) (item : Item weight) (f' : Frontier.Frontier weight)
      → IsSearch weight d from s
      → IsFrontier weight f'
      → cost weight s.frontier item.0 ≡ some item.1
      → cost weight f' item.0 ≡ none
      → ((u : ℕ) → item.0 ≢ u → cost weight f' u ≡ cost weight s.frontier u)
      → WalksFinite weight d from
      → Kept weight d from
          (record s { explored = item.0 ∷ s.explored; frontier = f' })
          (map_keys (neighbors_of weight d item.0))
          (explore weight {E = E} d item f' s)
  unfolding explore
  explore-Kept {E = E} s item f' v valid there gone others finite =
      visit_all-Kept weight d from {E = E} item.0 item.1 (neighbors_of weight d item.0)
        (record s { explored = item.0 ∷ s.explored; frontier = f' })
        (taken s item f' v valid there gone others) (contains-head item.0 s.explored) (λ u h. h)
        finite
        (prolonged item.0 item.1 (neighbors_of weight d item.0) (v.reached_at item.0 item.1 there)
          (λ i n e. e))

  pub start_search-Kept :
      {E : Type 0}
      → WalksFinite weight d from
      → (s : Search weight) × (start_search weight {E = E} from ≡ ok s)
        × IsSearch weight d from s
        × (s.explored ≡ [])
        × Known weight d from s from
  unfolding start_search push contains
  start_search-Kept {E = E} finite =
      let empty = new-IsFrontier weight in
      let (f, done, (valid, there, others)) =
        insert_item-Updates weight {E = E} (Frontier.new weight) from weight.zero_weight
          empty.sorted empty.distinct (get-empty from) (λ u ne. empty.indexed u)
          (finite from weight.zero_weight reach_start)
          (λ u c h. absurd (let e = get-empty {V = weight.W} u in cc)) in
      let only : (u : ℕ) (c : weight.W) → cost weight f u ≡ some c → from ≡ u = λ u c h.
        elim (ℕ_discrete from u) [
          | yes e ↦ e
          | no ne ↦ absurd (let e1 = others u ne in let e2 = get-empty {V = weight.W} u in cc)
        ] in
      (
        record { explored = []; frontier = f; previous = [] },
        rw done refl,
        record {
          frontier_valid = valid;
          apart = λ u c h. refl;
          pointed = λ u c h. inl (get-empty u, sym (only u c h));
          met = λ u c h.
              subst (λ k. contains (all_tags weight d from) k ≡ true) (only u c h)
                (contains-head from (targets weight d from d.nodes));
          reached_at = λ u c h.
              let e = only u c h in
              let same : weight.zero_weight ≡ c =
                (let h' = subst (λ k. cost weight f k ≡ some weight.zero_weight) e there in cc) in
              subst (λ k. Reaches weight d from k c) e
                (subst (λ b. Reaches weight d from from b) same reach_start);
          ordered = tt;
          within = λ u h. absurd (contains-empty u h);
          distinct = tt;
          kept = λ u p h. absurd (let e = get-empty {V = ℕ} u in cc);
        },
        refl,
        inr (weight.zero_weight, there),
      )
