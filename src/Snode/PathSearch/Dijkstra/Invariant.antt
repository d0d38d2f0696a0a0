-- ===== src/Snode/PathSearch/Dijkstra/Invariant.antt =====
-- The state of the search is in order: the frontier holds tags that are not explored, and what stands
-- in `previous` leads back to the start over explored nodes.
use cjdns_route_server.Base.{
  ℕ, suc, zero, ◌<◌, ◌≡◌, ◌≢◌, ◌⊎◌, inl, inr, refl, sym, ap, ◌∙◌, subst, arith, true, false, List,
  [], ◌∷◌, ◌++◌, append_assoc, append-nil, length, get_elem?, none, some, ok,
}
use cjdns_route_server.Base.Maps.{Map, get, insert, map_keys, get-insert_other}
use cjdns_route_server.Core.Scheme.{contains}
use cjdns_route_server.Snode.PathSearch.Weight.{Weight}
use cjdns_route_server.Snode.PathSearch.Frontier.{Item}
use cjdns_route_server.Snode.PathSearch.Frontier.Refines.{IsFrontier, cost}
use cjdns_route_server.Snode.PathSearch.Dijkstra.{Dijkstra, Search, neighbors_of, trace_back}
use cjdns_route_server.Snode.PathSearch.Dijkstra.Tags.{
  contains-cases, contains-empty, contains-head, contains-behind, DistinctTags, true-ne-false,
  not_behind,
}

module _ (weight : Weight) (d : Dijkstra weight) (from : ℕ) where
  -- There is a link from `v` to `u`.
  abbrev pub Edge : ℕ → ℕ → Type 0
  Edge v u = contains (map_keys (neighbors_of weight d v)) u ≡ true

  unfoldable pub targets : Map (List (Item weight)) → List ℕ
  targets [] = []
  targets (e ∷ nodes) = map_keys e.1 ++ targets nodes

  -- Every tag that the search can meet.
  abbrev pub all_tags : List ℕ
  all_tags = from ∷ targets d.nodes

  -- The tag is the start, or its predecessor is explored and has a link to it.
  abbrev pub Points : Map ℕ → List ℕ → ℕ → Type 0
  Points previous explored u =
      ((get previous u ≡ none) × (u ≡ from))
      ⊎ ((v : ℕ) × (get previous u ≡ some v) × (contains explored v ≡ true) × Edge v u)

  abbrev pub Ordered : Map ℕ → List ℕ → Type 0
  Ordered previous [] = Unit
  Ordered previous (u ∷ explored) = Points previous explored u × Ordered previous explored

  -- The tag is explored, or in the frontier.
  abbrev pub Known : Search weight → ℕ → Type 0
  Known s u =
      (contains s.explored u ≡ true) ⊎ ((c : weight.W) × (cost weight s.frontier u ≡ some c))

  -- A walk from the start comes to the tag, and the sum of its weights is `c`.
  pub data Reaches : ℕ → weight.W → Type 0 where
    reach_start : Reaches from weight.zero_weight
    reach_link :
        (v : ℕ) (c : weight.W) (i : ℕ) (n : Item weight)
        → Reaches v c
        → get_elem? (neighbors_of weight d v) i ≡ some n
        → Reaches n.0 (weight.add c n.1)

  -- The sums of all walks are finite.
  abbrev pub WalksFinite : Type 0
  WalksFinite = (u : ℕ) (c : weight.W) → Reaches u c → weight.is_finite c ≡ true

  pub record IsSearch (s : Search weight) : Type 0 where
    pub frontier_valid : IsFrontier weight s.frontier
    pub apart :
        (u : ℕ) (c : weight.W) → cost weight s.frontier u ≡ some c → contains s.explored u ≡ false
    pub pointed :
        (u : ℕ) (c : weight.W) → cost weight s.frontier u ≡ some c → Points s.previous s.explored u
    pub met :
        (u : ℕ) (c : weight.W) → cost weight s.frontier u ≡ some c → contains all_tags u ≡ true
    pub ordered : Ordered s.previous s.explored
    pub reached_at : (u : ℕ) (c : weight.W) → cost weight s.frontier u ≡ some c → Reaches u c
    pub within : (u : ℕ) → contains s.explored u ≡ true → contains all_tags u ≡ true
    pub distinct : DistinctTags s.explored
    pub kept : (u t : ℕ) → get s.previous u ≡ some t → Known s u

  pub Points-behind :
      (previous : Map ℕ) (explored : List ℕ) (e u : ℕ)
      → Points previous explored u
      → Points previous (e ∷ explored) u
  Points-behind previous explored e u (inl p) = inl p
  Points-behind previous explored e u (inr (v, there, inside, edge)) =
      inr (v, there, contains-behind e v explored inside, edge)

  pub Points-insert :
      (previous : Map ℕ) (explored : List ℕ) (n t u : ℕ)
      → n ≢ u
      → Points previous explored u
      → Points (insert previous n t) explored u
  Points-insert previous explored n t u ne (inl (there, start)) =
      inl (get-insert_other previous n u t ne ∙ there, start)
  Points-insert previous explored n t u ne (inr (v, there, inside, edge)) =
      inr (v, get-insert_other previous n u t ne ∙ there, inside, edge)

  -- A new predecessor for a tag that is not explored changes nothing for those that are.
  pub Ordered-insert :
      (previous : Map ℕ) (explored : List ℕ) (n t : ℕ)
      → contains explored n ≡ false
      → Ordered previous explored
      → Ordered (insert previous n t) explored
  Ordered-insert previous [] n t fresh o = tt
  Ordered-insert previous (e ∷ explored) n t fresh (p, o) = (
    Points-insert previous explored n t e
        (λ same.
          true-ne-false
            (sym (contains-head e explored) ∙ ap (contains (e ∷ explored)) (sym same) ∙ fresh))
        p,
    Ordered-insert previous explored n t (not_behind e n explored fresh) o,
  )

  -- The tags that lead back from `u` to the start, which is not among them.
  abbrev pub Back : ℕ → List ℕ → Type 0
  Back u [] = u ≡ from
  Back u (x ∷ rest) = (x ≡ u) × ((v : ℕ) × Edge v u × Back v rest)

  -- An explored tag has its own predecessor among those that were explored before it.
  pub settle :
      (previous : Map ℕ) (explored : List ℕ) (v : ℕ)
      → Ordered previous explored
      → contains explored v ≡ true
      → (before : List ℕ) × Ordered previous before
        × Points previous before v
        × (length before < length explored)
  settle previous [] v o h = absurd (contains-empty v h)
  settle previous (e ∷ explored) v (p, o) h = elim (contains-cases e v explored h) [
    | inl same ↦ (explored, o, subst (λ n. Points previous explored n) same p, omega arith)
    | inr (ne, rest) ↦
        let (before, o', p', less) = settle previous explored v o rest in
        (before, o', p', omega arith)
  ]

  pub trace_back-Back :
      {E : Type 0} (fuel : ℕ) (previous : Map ℕ) (explored : List ℕ) (u : ℕ) (rev_path : List ℕ)
      → length explored < fuel
      → Ordered previous explored
      → Points previous explored u
      → (r : List ℕ) × (trace_back weight {E = E} fuel previous u rev_path ≡ ok (rev_path ++ r))
        × Back u r
  unfolding trace_back
  trace_back-Back zero previous explored u rev_path h o p = absurd (omega arith)
  trace_back-Back (suc fuel) previous explored u rev_path h o (inl (there, start)) =
      ([], rw (trace_back, there) (ap ok (sym (append-nil rev_path))), start)
  trace_back-Back {E = E} (suc fuel) previous explored u rev_path h o
        (inr (v, there, inside, edge)) =
      let (before, o', p', less) = settle previous explored v o inside in
      let (r, done, back) =
        trace_back-Back {E = E} fuel previous before v (rev_path ++ (u ∷ [])) (omega arith) o' p' in
      (
        u ∷ r,
        rw (trace_back, there) (done ∙ ap ok (append_assoc rev_path (u ∷ []) r)),
        (refl, (v, edge, back)),
      )
