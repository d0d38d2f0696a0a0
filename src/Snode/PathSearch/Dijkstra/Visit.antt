-- ===== src/Snode/PathSearch/Dijkstra/Visit.antt =====
-- A visit to the neighbours of a node keeps the state in order, and makes them known.
use native.Mathlib.Decide.{ℕ_discrete}
use cjdns_route_server.Base.{
  ℕ, ◌≡◌, ◌≢◌, ◌⊎◌, inl, inr, refl, sym, ◌∙◌, subst, true, false, List, [], ◌∷◌, All, Option, none,
  some, Bool-cases, Result, ok,
}
use cjdns_route_server.Base.Maps.{insert, map_keys, get-insert, get-insert_other}
use cjdns_route_server.Core.Scheme.{contains}
use cjdns_route_server.Snode.PathSearch.Weight.{Weight}
use cjdns_route_server.Snode.PathSearch.Frontier
use cjdns_route_server.Snode.PathSearch.Frontier.{Item, push, try_insert_or_decrease_cost}
use cjdns_route_server.Snode.PathSearch.Frontier.Refines.{
  cost, offer, Updates, try_insert_or_decrease_cost-Offers,
}
use cjdns_route_server.Snode.PathSearch.Dijkstra.{Dijkstra, Search, visit, visit_all}
use cjdns_route_server.Snode.PathSearch.Dijkstra.Tags.{
  contains-cases, contains-empty, contains-head, contains-behind,
}
use cjdns_route_server.Snode.PathSearch.Dijkstra.Invariant.{
  Known, Edge, all_tags, Points, IsSearch, WalksFinite, Reaches, Points-insert, Ordered-insert,
}
use cjdns_route_server.Snode.PathSearch.Dijkstra.Links.{link_met}

module _ (weight : Weight) (d : Dijkstra weight) (from : ℕ) where
  -- What is known in another state with the same explored tags.
  Known-update :
      (s s' : Search weight) (n : ℕ) (w : weight.W)
      → s'.explored ≡ s.explored
      → Updates weight s.frontier n w s'.frontier
      → (u : ℕ) → Known weight d from s u
      → Known weight d from s' u
  Known-update s s' n w same updates u (inl h) =
      inl (subst (λ xs. contains xs u ≡ true) (sym same) h)
  Known-update s s' n w same updates u (inr (c, h)) = elim (ℕ_discrete n u) [
    | yes e ↦ inr (w, subst (λ k. cost weight s'.frontier k ≡ some w) e updates.1)
    | no ne ↦ inr (c, updates.2 u ne ∙ h)
  ]

  module _ (s : Search weight) (t n : ℕ) (f' : Frontier.Frontier weight) (w : weight.W)
      (v : IsSearch weight d from s) (inside : contains s.explored t ≡ true)
      (edge : Edge weight d from t n) (fresh : contains s.explored n ≡ false)
      (updates : Updates weight s.frontier n w f') where
    -- The other tags have the costs that they had.
    old_cost :
        (u : ℕ) (c : weight.W)
        → n ≢ u
        → cost weight f' u ≡ some c
        → cost weight s.frontier u ≡ some c
    old_cost u c ne h = sym (updates.2 u ne) ∙ h

    with_update :
        Reaches weight d from n w
        → IsSearch weight d from (record s { frontier = f'; previous = insert s.previous n t })
    with_update reaches = record {
      frontier_valid = updates.0;
      apart = λ u c h. elim (ℕ_discrete n u) [
        | yes e ↦ subst (λ k. contains s.explored k ≡ false) e fresh
        | no ne ↦ v.apart u c (old_cost u c ne h)
      ];
      pointed = λ u c h. elim (ℕ_discrete n u) [
        | yes e ↦
            subst (λ k. Points weight d from (insert s.previous n t) s.explored k) e
              (inr (t, get-insert s.previous n t, inside, edge))
        | no ne ↦
            Points-insert weight d from s.previous s.explored n t u ne
              (v.pointed u c (old_cost u c ne h))
      ];
      met = λ u c h. elim (ℕ_discrete n u) [
        | yes e ↦
            subst (λ k. contains (all_tags weight d from) k ≡ true) e
              (link_met weight d from t n edge)
        | no ne ↦ v.met u c (old_cost u c ne h)
      ];
      reached_at = λ u c h. elim (ℕ_discrete n u) [
        | yes e ↦
            let same : w ≡ c =
              (let h' = subst (λ k. cost weight f' k ≡ some w) e updates.1 in cc) in
            subst (λ k. Reaches weight d from k c) e
              (subst (λ b. Reaches weight d from n b) same reaches)
        | no ne ↦ v.reached_at u c (old_cost u c ne h)
      ];
      ordered = Ordered-insert weight d from s.previous s.explored n t fresh v.ordered;
      within = v.within;
      distinct = v.distinct;
      kept = λ u p h.
          let s' : Search weight = record s { frontier = f'; previous = insert s.previous n t } in
          elim (ℕ_discrete n u) [
            | yes e ↦ inr (w, subst (λ k. cost weight f' k ≡ some w) e updates.1)
            | no ne ↦
                Known-update s s' n w refl updates u
                  (v.kept u p (sym (get-insert_other s.previous n u t ne) ∙ h))
          ];
    }

    without_update :
        (old : weight.W)
        → cost weight s.frontier n ≡ some old
        → old ≡ w
        → IsSearch weight d from (record s { frontier = f' })
    without_update old there same =
        let known : (u : ℕ) (c : weight.W)
            → cost weight f' u ≡ some c
            → (c' : weight.W) × (cost weight s.frontier u ≡ some c') =
          λ u c h. elim (ℕ_discrete n u) [
            | yes e ↦ (old, subst (λ k. cost weight s.frontier k ≡ some old) e there)
            | no ne ↦ (c, old_cost u c ne h)
          ] in
        record {
          frontier_valid = updates.0;
          apart = λ u c h. v.apart u (known u c h).0 (known u c h).1;
          pointed = λ u c h. v.pointed u (known u c h).0 (known u c h).1;
          met = λ u c h. v.met u (known u c h).0 (known u c h).1;
          reached_at = λ u c h. elim (ℕ_discrete n u) [
            | yes e ↦
                let eq : old ≡ c =
                  (let h' = subst (λ k. cost weight f' k ≡ some w) e updates.1 in cc) in
                subst (λ k. Reaches weight d from k c) e
                  (subst (λ b. Reaches weight d from n b) eq (v.reached_at n old there))
            | no ne ↦ v.reached_at u c (old_cost u c ne h)
          ];
          ordered = v.ordered;
          within = v.within;
          distinct = v.distinct;
          kept = λ u p h.
              Known-update s (record s { frontier = f' }) n w refl updates u (v.kept u p h);
        }

  -- The outcome of a step: a state in order that has explored the same tags, that knows those that
  -- `s` knows, and those of the list.
  abbrev pub Kept : {E : Type 0} → Search weight → List ℕ → Result E (Search weight) → Type 0
  Kept s us out =
      (s' : Search weight) × (out ≡ ok s')
      × IsSearch weight d from s'
      × (s'.explored ≡ s.explored)
      × ((u : ℕ) → Known weight d from s u → Known weight d from s' u)
      × ((u : ℕ) → contains us u ≡ true → Known weight d from s' u)

  Known-one :
      (s : Search weight) (n : ℕ)
      → Known weight d from s n
      → (u : ℕ) → contains (n ∷ []) u ≡ true
      → Known weight d from s u
  Known-one s n k u h = elim (contains-cases n u [] h) [
    | inl e ↦ subst (λ m. Known weight d from s m) e k
    | inr (ne, rest) ↦ absurd (contains-empty u rest)
  ]

  -- Where an offer changes nothing, the tag was in the frontier before.
  offer-cases :
      (o : Option weight.W) (c : weight.W)
      → (((offer weight o c).0 ≡ true) × (c ≡ (offer weight o c).1))
        ⊎ ((old : weight.W) × ((offer weight o c).0 ≡ false)
            × (o ≡ some old)
            × (old ≡ (offer weight o c).1))
  offer-cases none c = inl (refl, refl)
  offer-cases (some old) c =
      elim (Bool-cases (weight.lt c old))
        as (λ _.
          (((offer weight (some old) c).0 ≡ true) × (c ≡ (offer weight (some old) c).1))
          ⊎ ((w : weight.W) × ((offer weight (some old) c).0 ≡ false)
              × (some old ≡ some w)
              × (w ≡ (offer weight (some old) c).1))) [
                | inl less ↦ inl (rw less refl, rw less refl)
                | inr no_less ↦ inr (old, rw no_less refl, refl, rw no_less refl)
              ]

  visit-Kept :
      {E : Type 0} (t : ℕ) (c : weight.W) (s : Search weight) (item : Item weight)
      → IsSearch weight d from s
      → contains s.explored t ≡ true
      → Edge weight d from t item.0
      → WalksFinite weight d from
      → Reaches weight d from item.0 (weight.add c item.1)
      → Kept s (item.0 ∷ []) (visit weight {E = E} t c s item)
  unfolding visit
  visit-Kept {E = E} t c s item v inside edge finite reaches =
      elim (Bool-cases (contains s.explored item.0))
        as (λ _. Kept s (item.0 ∷ []) (visit weight {E = E} t c s item)) [
          | inl old ↦ rw old (s, refl, v, refl, λ u k. k, λ u h. Known-one s item.0 (inl old) u h)
          | inr fresh ↦
              let n = item.0 in
              let sum = weight.add c item.1 in
              let (f', done, updates) =
                try_insert_or_decrease_cost-Offers weight {E = E} s.frontier n sum v.frontier_valid
                  (finite n sum reaches) (λ u b h. finite u b (v.reached_at u b h)) in
              let w = (offer weight (cost weight s.frontier n) sum).1 in
              elim (offer-cases (cost weight s.frontier n) sum)
                as (λ _. Kept s (item.0 ∷ []) (visit weight {E = E} t c s item)) [
                  | inl (yes_update, same) ↦
                      let s' : Search weight = record s {
                        frontier = f';
                        previous = insert s.previous n t;
                      } in
                      rw (fresh, done, yes_update)
                        (
                          s',
                          refl,
                          with_update s t n f' w v inside edge fresh updates
                              (subst (λ b. Reaches weight d from n b) same reaches),
                          refl,
                          λ u k. Known-update s s' n w refl updates u k,
                          λ u h. Known-one s' n (inr (w, updates.1)) u h,
                        )
                  | inr (old, no_update, there, same) ↦
                      let s' : Search weight = record s { frontier = f' } in
                      rw (fresh, done, no_update)
                        (
                          s',
                          refl,
                          without_update s t n f' w v inside edge fresh updates old there same,
                          refl,
                          λ u k. Known-update s s' n w refl updates u k,
                          λ u h. Known-one s' n (inr (w, updates.1)) u h,
                        )
                ]
        ]

  pub visit_all-Kept :
      {E : Type 0} (t : ℕ) (c : weight.W) (ns : List (Item weight)) (s : Search weight)
      → IsSearch weight d from s
      → contains s.explored t ≡ true
      → ((u : ℕ) → contains (map_keys ns) u ≡ true → Edge weight d from t u)
      → WalksFinite weight d from
      → All (λ n. Reaches weight d from n.0 (weight.add c n.1)) ns
      → Kept s (map_keys ns) (visit_all weight {E = E} t c s ns)
  unfolding visit_all map_keys
  visit_all-Kept t c [] s v inside edges finite sums =
      (s, refl, v, refl, λ u k. k, λ u h. absurd (contains-empty u h))
  visit_all-Kept {E = E} t c (n ∷ ns) s v inside edges finite (reaches, sums) =
      let (s1, done, v1, same, grows, one) =
        visit-Kept {E = E} t c s n v inside (edges n.0 (contains-head n.0 (map_keys ns))) finite
          reaches in
      let (s2, done', v2, same', grows', all) =
        visit_all-Kept {E = E} t c ns s1 v1 (subst (λ xs. contains xs t ≡ true) (sym same) inside)
          (λ u h. edges u (contains-behind n.0 u (map_keys ns) h)) finite sums in
      (
        s2,
        rw (done, done') refl,
        v2,
        same' ∙ same,
        λ u k. grows' u (grows u k),
        λ u h. elim (contains-cases n.0 u (map_keys ns) h) [
          | inl e ↦
              grows' u (subst (λ m. Known weight d from s1 m) e (one n.0 (contains-head n.0 [])))
          | inr (ne, rest) ↦ all u rest
        ],
      )
