-- ===== src/Snode/PathSearch/Frontier/Refines.antt =====
-- The frontier is a finite map from tags to costs: its index agrees with its queue at all times, a
-- tag is offered at a cost, and the tag that is popped is one of the least cost.
use mathlib.Core.Option.{map}
use native.Mathlib.Decide.{ℕ_discrete}
use cjdns_route_server.Base.{
  ℕ, ◌≤◌, ◌≡◌, ◌≢◌, ◌⊎◌, inl, inr, refl, sym, ap, ◌∙◌, subst, Bool, true, false, List, [], ◌∷◌,
  Option, none, some, Option-cases, Bool-cases, if◌then◌else◌, Result, ok, get_elem?,
}
use cjdns_route_server.Base.Maps.{
  Map, get, insert, remove, map_values, position, DistinctKeys, none-position, get-insert,
  get-insert_other, get-map_values, get-remove_other, get-remove, get-empty, position-none,
  get-head, get-behind,
}
use cjdns_route_server.Snode.PathSearch.Weight.{Weight}
use cjdns_route_server.Snode.PathSearch.Frontier.{
  Item, Frontier, pop_last, new, insertion_pos, shift_up, shift_down, insert_item, push, pop,
  decrease_cost, try_insert_or_decrease_cost, all_finite,
}
use cjdns_route_server.Snode.PathSearch.Frontier.Order.{Sorted}
use cjdns_route_server.Snode.PathSearch.Frontier.Insert.{insert_item-Inserted}
use cjdns_route_server.Snode.PathSearch.Frontier.Remove.{remove_at-Removed, get_elem?-position}
use cjdns_route_server.Snode.PathSearch.Frontier.Pop.{pop_last-Popped}

module _ (weight : Weight) where
  -- The queue is in the order of its keys, has each tag once, and the index tells its place.
  pub record IsFrontier (f : Frontier weight) : Type 0 where
    pub sorted : Sorted weight f.queue
    pub distinct : DistinctKeys f.queue
    pub indexed : (t : ℕ) → get f.index t ≡ position t f.queue

  -- The cost of a tag, where the frontier has it.
  abbrev pub cost : Frontier weight → ℕ → Option weight.W
  cost f t = get f.queue t

  pub new-IsFrontier : IsFrontier (new weight)
  unfolding get position
  new-IsFrontier = record { sorted = tt; distinct = tt; indexed = λ t. refl }

  -- The costs of all tags are finite.
  abbrev pub IsFinite : Frontier weight → Type 0
  IsFinite f = (u : ℕ) (c : weight.W) → cost f u ≡ some c → weight.is_finite c ≡ true

  -- The assertion of `into_ord` holds for all of a queue.
  finite-all :
      (q : List (Item weight))
      → DistinctKeys q
      → ((u : ℕ) (c : weight.W) → get q u ≡ some c → weight.is_finite c ≡ true)
      → all_finite weight q ≡ true
  unfolding all_finite
  finite-all [] distinct h = refl
  finite-all (x ∷ q) (fresh, distinct) h =
      let rest = finite-all q distinct (λ u c there. elim (ℕ_discrete x.0 u) [
        | yes e ↦ absurd (let none_there = subst (λ k. get q k ≡ none) e fresh in cc)
        | no ne ↦ h u c (get-behind x q u ne ∙ there)
      ]) in
      rw (h x.0 x.1 (get-head x q x.0 refl)) rest

  finite-cons :
      (t : ℕ) (w : weight.W) (q : List (Item weight))
      → weight.is_finite w ≡ true
      → all_finite weight q ≡ true
      → all_finite weight ((t, w) ∷ q) ≡ true
  unfolding all_finite
  finite-cons t w q h hs = rw h hs

  -- The frontier `f'` is `f` with the tag at the cost `w`.
  abbrev pub Updates : Frontier weight → ℕ → weight.W → Frontier weight → Type 0
  Updates f t w f' = IsFrontier f' × (cost f' t ≡ some w) × ((u : ℕ) → t ≢ u → cost f' u ≡ cost f u)

  pub insert_item-Updates :
      {E : Type 0} (f : Frontier weight) (t : ℕ) (w : weight.W)
      → Sorted weight f.queue
      → DistinctKeys f.queue
      → cost f t ≡ none
      → ((u : ℕ) → t ≢ u → get f.index u ≡ position u f.queue)
      → weight.is_finite w ≡ true
      → IsFinite f
      → (f' : Frontier weight) × (insert_item weight {E = E} f (t, w) ≡ ok f') × Updates f t w f'
  unfolding insert_item
  insert_item-Updates f t w sorted distinct fresh indexed finite all =
      let asserted = finite-cons t w f.queue finite (finite-all f.queue distinct all) in
      let (q', i) = insert_item-Inserted weight t w f.queue sorted distinct fresh in
      let k = insertion_pos weight f.queue (t, w) in
      let index' = insert (map_values (shift_up k) f.index) t k in
      let agrees : (u : ℕ) → get index' u ≡ position u q' = λ u. elim (ℕ_discrete t u) [
        | yes e ↦
            subst (λ n. get index' n ≡ position n q') e
              (get-insert (map_values (shift_up k) f.index) t k ∙ sym i.place)
        | no ne ↦
            get-insert_other (map_values (shift_up k) f.index) t u k ne
            ∙ get-map_values (shift_up k) f.index u
            ∙ ap (map (shift_up k)) (indexed u ne)
            ∙ sym (i.places u ne)
      ] in
      (
        record { queue = q'; index = index' },
        rw (asserted, i.at) refl,
        (record { sorted = i.sorted; distinct = i.distinct; indexed = agrees }, i.there, i.others),
      )

  -- A new cost for a tag counts where there is none, or where it is less.
  abbrev pub offer : Option weight.W → weight.W → Bool × weight.W
  offer none c = (true, c)
  offer (some old) c = if weight.lt c old then (true, c) else (false, old)

  abbrev pub Offers :
      {E : Type 0} → Frontier weight → ℕ → weight.W → Result E (Bool × Frontier weight) → Type 0
  Offers f t c out =
      let o = offer (cost f t) c in
      (f' : Frontier weight) × (out ≡ ok (o.0, f')) × Updates f t o.1 f'

  -- The tag is in the queue, at the place `k` and at the cost `w`.
  decrease_cost-Offers :
      {E : Type 0} (f : Frontier weight) (t : ℕ) (c w : weight.W) (k : ℕ)
      → IsFrontier f
      → get_elem? f.queue k ≡ some (t, w)
      → cost f t ≡ some w
      → position t f.queue ≡ some k
      → weight.is_finite c ≡ true
      → IsFinite f
      → Offers f t c (decrease_cost weight {E = E} f t c k)
  unfolding decrease_cost
  decrease_cost-Offers {E = E} f t c w k v found there place finite all =
      elim (Bool-cases (weight.lt c w))
        as (λ _. Offers f t c (decrease_cost weight {E = E} f t c k)) [
          | inr no_less ↦ rw (found, there, no_less) (f, refl, (v, there, λ u ne. refl))
          | inl less ↦
              let (q', r) = remove_at-Removed weight t f.queue k v.sorted v.distinct place in
              let index' = map_values (shift_down k) (remove f.index t) in
              let f1 : Frontier weight = record { queue = q'; index = index' } in
              let indexed : (u : ℕ) → t ≢ u → get index' u ≡ position u q' = λ u ne.
                get-map_values (shift_down k) (remove f.index t) u
                ∙ ap (map (shift_down k)) (get-remove_other f.index t u ne ∙ v.indexed u)
                ∙ sym (r.places u ne) in
              let (f', done, updates) =
                insert_item-Updates {E = E} f1 t c r.sorted r.distinct r.gone indexed finite
                  (λ u b h. elim (ℕ_discrete t u) [
                    | yes e ↦ absurd (let gone = subst (λ n. get q' n ≡ none) e r.gone in cc)
                    | no ne ↦ all u b (sym (r.others u ne) ∙ h)
                  ]) in
              rw (found, there, less, r.at, done)
                (f', refl, (updates.0, updates.1, λ u ne. updates.2 u ne ∙ r.others u ne))
        ]

  -- Offering a tag at a finite cost to a frontier in order, whose costs are finite, does not panic
  -- and leaves a frontier in order; the tag has the cost where it had none or a greater one and keeps
  -- its own otherwise, the result says which, and all other tags keep theirs.
  pub try_insert_or_decrease_cost-Offers :
      {E : Type 0} (f : Frontier weight) (t : ℕ) (c : weight.W)
      → IsFrontier f
      → weight.is_finite c ≡ true
      → IsFinite f
      → Offers f t c (try_insert_or_decrease_cost weight {E = E} f t c)
  unfolding try_insert_or_decrease_cost push
  try_insert_or_decrease_cost-Offers {E = E} f t c v finite all =
      elim (Option-cases (get f.index t))
        as (λ _. Offers f t c (try_insert_or_decrease_cost weight {E = E} f t c)) [
          | inl none_there ↦
              let fresh = none-position t f.queue (sym (v.indexed t) ∙ none_there) in
              let (f', done, updates) =
                insert_item-Updates {E = E} f t c v.sorted v.distinct fresh (λ u ne. v.indexed u)
                  finite all in
              rw (try_insert_or_decrease_cost, none_there, fresh, done) (f', refl, updates)
          | inr (k, found) ↦
              let place = sym (v.indexed t) ∙ found in
              let (w, item, there) = get_elem?-position weight t f.queue k place in
              rw (try_insert_or_decrease_cost, found)
                (decrease_cost-Offers {E = E} f t c w k v item there place finite all)
        ]

  -- The outcome of `pop`: nothing where the frontier has no tag, or else a tag of the least cost,
  -- which the new frontier does not have, while it has all others.
  abbrev pub Pops : Frontier weight → Option (Item weight × Frontier weight) → Type 0
  Pops f out =
      ((out ≡ none) × ((u : ℕ) → cost f u ≡ none))
      ⊎ ((item : Item weight) × (f' : Frontier weight) × (out ≡ some (item, f'))
          × IsFrontier f'
          × (cost f item.0 ≡ some item.1)
          × (cost f' item.0 ≡ none)
          × ((u : ℕ) → item.0 ≢ u → cost f' u ≡ cost f u)
          × ((u : ℕ) (c : weight.W)
              → cost f u ≡ some c
              → weight.into_ord item.1 ≤ weight.into_ord c))

  pop_empty :
      (index : Map ℕ)
      → Pops
          (record { queue = []; index = index })
          (pop weight (record { queue = []; index = index }))
  unfolding pop pop_last
  pop_empty index = inl (refl, λ u. get-empty u)

  pop_some :
      (x : Item weight) (q : List (Item weight)) (index : Map ℕ)
      → IsFrontier (record { queue = x ∷ q; index = index })
      → Pops
          (record { queue = x ∷ q; index = index })
          (pop weight (record { queue = x ∷ q; index = index }))
  unfolding pop
  pop_some x q index v =
      let (item, q', p) = pop_last-Popped weight x q v.sorted v.distinct in
      let agrees : (u : ℕ) → get (remove index item.0) u ≡ position u q' = λ u.
        elim (ℕ_discrete item.0 u) [
          | yes e ↦
              subst (λ n. get (remove index item.0) n ≡ position n q') e
                (get-remove index item.0 ∙ sym (position-none item.0 q' p.gone))
          | no ne ↦ get-remove_other index item.0 u ne ∙ v.indexed u ∙ sym (p.places u ne)
        ] in
      inr (
        item,
        record { queue = q'; index = remove index item.0 },
        rw (pop, p.at) refl,
        record { sorted = p.sorted; distinct = p.distinct; indexed = agrees },
        p.there,
        p.gone,
        p.others,
        p.least,
      )

  -- `pop` on a frontier in order gives nothing exactly where it has no tag; otherwise it gives a tag
  -- with its cost, which is the least of all, and leaves a frontier in order that has all tags but
  -- that one, at their costs.
  pub pop-Pops : (f : Frontier weight) → IsFrontier f → Pops f (pop weight f)
  pop-Pops f v = by_queue f.queue f.index v
    where
      by_queue :
          (queue : List (Item weight)) (index : Map ℕ)
          → IsFrontier (record { queue = queue; index = index })
          → Pops
              (record { queue = queue; index = index })
              (pop weight (record { queue = queue; index = index }))
      by_queue [] index v = pop_empty index
      by_queue (x ∷ queue) index v = pop_some x queue index v
