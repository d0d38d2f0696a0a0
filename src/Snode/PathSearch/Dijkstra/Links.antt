-- ===== src/Snode/PathSearch/Dijkstra/Links.antt =====
-- The links of the graph, and the tags at their ends.
use cjdns_route_server.Base.{
  ℕ, suc, ◌+◌, ◌≡◌, ◌≢◌, inl, inr, refl, sym, ap, ◌∙◌, subst, arith, true, List, [], ◌∷◌, length,
  length-append, none, some, Option-cases,
}
use cjdns_route_server.Base.Maps.{Map, get, map_keys, get-cases, get-empty}
use cjdns_route_server.Core.Scheme.{contains}
use cjdns_route_server.Snode.PathSearch.Weight.{Weight}
use cjdns_route_server.Snode.PathSearch.Frontier.{Item}
use cjdns_route_server.Snode.PathSearch.Dijkstra.{Dijkstra, neighbors_of, count_links}
use cjdns_route_server.Snode.PathSearch.Dijkstra.Tags.{
  contains-empty, contains-behind, contains-front, contains-back,
}
use cjdns_route_server.Snode.PathSearch.Dijkstra.Invariant.{Edge, targets, all_tags}

length-map_keys : {V : Type 0} (m : Map V) → length (map_keys m) ≡ length m
unfolding map_keys
length-map_keys [] = refl
length-map_keys (e ∷ m) = ap suc (length-map_keys m)

module _ (weight : Weight) (d : Dijkstra weight) (from : ℕ) where
  length-targets :
      (nodes : Map (List (Item weight)))
      → length (targets weight d from nodes) ≡ count_links weight nodes
  unfolding targets count_links
  length-targets [] = refl
  length-targets (e ∷ nodes) = omega (
    arith,
    length-append (map_keys e.1) (targets weight d from nodes),
    length-map_keys e.1,
    length-targets nodes,
  )

  pub length-all_tags : length (all_tags weight d from) ≡ count_links weight d.nodes + 1
  length-all_tags = omega (arith, length-targets d.nodes)

  listed-targets :
      (nodes : Map (List (Item weight))) (v u : ℕ) (links : List (Item weight))
      → get nodes v ≡ some links
      → contains (map_keys links) u ≡ true
      → contains (targets weight d from nodes) u ≡ true
  unfolding targets
  listed-targets [] v u links h k = absurd (let empty = get-empty {V = List (Item weight)} v in cc)
  listed-targets (e ∷ nodes) v u links h k = elim (get-cases e nodes v links h) [
    | inl (p, same) ↦
        contains-front (map_keys e.1) (targets weight d from nodes) u
          (subst (λ ls. contains (map_keys ls) u ≡ true) (sym same) k)
    | inr (ne, rest) ↦
        contains-back (map_keys e.1) (targets weight d from nodes) u
          (listed-targets nodes v u links rest k)
  ]

  neighbors_of-some :
      (v : ℕ) (links : List (Item weight))
      → get d.nodes v ≡ some links
      → neighbors_of weight d v ≡ links
  unfolding neighbors_of
  neighbors_of-some v links h = rw (neighbors_of, h) refl

  neighbors_of-none : (v : ℕ) → get d.nodes v ≡ none → neighbors_of weight d v ≡ []
  unfolding neighbors_of
  neighbors_of-none v h = rw (neighbors_of, h) refl

  no_links : (u : ℕ) → contains (map_keys {V = weight.W} []) u ≢ true
  unfolding map_keys
  no_links u h = contains-empty u h

  -- The end of a link is one of the tags.
  pub link_met : (v u : ℕ) → Edge weight d from v u → contains (all_tags weight d from) u ≡ true
  link_met v u edge = elim (Option-cases (get d.nodes v)) [
    | inl absent ↦ absurd (
        no_links u
          (subst (λ ls. contains (map_keys ls) u ≡ true) (neighbors_of-none v absent) edge))
    | inr (links, found) ↦ contains-behind from u (targets weight d from d.nodes) (
        listed-targets d.nodes v u links found
          (subst (λ ls. contains (map_keys ls) u ≡ true) (neighbors_of-some v links found) edge))
  ]

  pub unlinked : (v u : ℕ) → length d.nodes ≡ 0 → ¬ Edge weight d from v u
  unlinked v u e edge = by_nodes d.nodes e refl
    where
      by_nodes : (nodes : Map (List (Item weight))) → length nodes ≡ 0 → d.nodes ≡ nodes → ⊥
      by_nodes [] e same = no_links u (
          subst (λ ls. contains (map_keys ls) u ≡ true)
            (neighbors_of-none v (ap (λ m. get m v) same ∙ get-empty v)) edge)
      by_nodes (x ∷ nodes) e same = absurd (omega arith)
