-- ===== src/Snode/PathSearch/Frontier/Pop.antt =====
-- The last item of the queue is one of the least cost.
use cjdns_route_server.Base.{
  ℕ, ◌≤◌, ◌≡◌, ◌≢◌, refl, sym, ap, ◌∙◌, subst, arith, List, [], ◌∷◌, ◌++◌, All, none, some, inl,
  inr,
}
use cjdns_route_server.Base.Maps.{
  get, position, DistinctKeys, get-head, get-behind, get-cases, get-empty, get-agree,
  position-agree, position-behind,
}
use cjdns_route_server.Snode.PathSearch.Weight.{Weight}
use cjdns_route_server.Snode.PathSearch.Frontier.{Item, pop_last}
use cjdns_route_server.Snode.PathSearch.Frontier.Order.{Before, Sorted, Before-cost}

some-ne-none : {A : Type 0} {a : A} → some a ≢ none
some-ne-none h = cc

All-front : {A : Type 0} (P : A → Type 0) (xs ys : List A) → All P (xs ++ ys) → All P xs
All-front P [] ys h = tt
All-front P (x ∷ xs) ys (h, hs) = (h, All-front P xs ys hs)

module _ (weight : Weight) where
  -- The queue `q` is `q'` with the item behind it.
  pub record Popped (q : List (Item weight)) (item : Item weight) (q' : List (Item weight))
      : Type 0 where
    pub at : pop_last q ≡ some (item, q')
    pub whole : q ≡ q' ++ (item ∷ [])
    pub sorted : Sorted weight q'
    pub distinct : DistinctKeys q'
    pub there : get q item.0 ≡ some item.1
    pub gone : get q' item.0 ≡ none
    pub others : (u : ℕ) → item.0 ≢ u → get q' u ≡ get q u
    pub places : (u : ℕ) → item.0 ≢ u → position u q' ≡ position u q
    pub least :
        (u : ℕ) (c : weight.W) → get q u ≡ some c → weight.into_ord item.1 ≤ weight.into_ord c

  All-get :
      (P : Item weight → Type 0) (q : List (Item weight)) (u : ℕ) (c : weight.W)
      → All P q
      → get q u ≡ some c
      → P (u, c)
  All-get P [] u c h e = absurd (let none_there = get-empty {V = weight.W} u in cc)
  All-get P (x ∷ q) u c (h, hs) e = elim (get-cases x q u c e) [
    | inl (p, same) ↦
        subst (λ (y : Item weight). P y) (ap (λ n. (n, x.1)) p ∙ ap (λ v. (u, v)) same) h
    | inr (ne, rest) ↦ All-get P q u c hs rest
  ]

  alone : (x : Item weight) → Popped (x ∷ []) x []
  unfolding pop_last
  alone x = record {
    at = refl;
    whole = refl;
    sorted = tt;
    distinct = tt;
    there = get-head x [] x.0 refl;
    gone = get-empty x.0;
    others = λ u ne. sym (get-behind x [] u ne);
    places = λ u ne. sym (position-behind x [] u ne ∙ unfold position in refl);
    least = λ u c e. elim (get-cases x [] u c e) [
      | inl (p, same) ↦ rw same (omega arith)
      | inr (ne, rest) ↦ absurd (let none_there = get-empty {V = weight.W} u in cc)
    ];
  }

  behind :
      (x : Item weight) (q : List (Item weight)) (item : Item weight) (q' : List (Item weight))
      → All (Before weight x) q
      → get q x.0 ≡ none
      → Popped q item q'
      → Popped (x ∷ q) item (x ∷ q')
  unfolding pop_last
  behind x q item q' before fresh p =
      let ne : item.0 ≢ x.0 = λ e. some-ne-none (sym p.there ∙ ap (λ n. get q n) e ∙ fresh) in
      record {
        at = rw p.at refl;
        whole = ap (λ ys. x ∷ ys) p.whole;
        sorted = (
          All-front (Before weight x) q' (item ∷ [])
              (subst (λ ys. All (Before weight x) ys) p.whole before),
          p.sorted,
        );
        distinct = (p.others x.0 ne ∙ fresh, p.distinct);
        there = get-behind x q item.0 (λ e. ne (sym e)) ∙ p.there;
        gone = get-behind x q' item.0 (λ e. ne (sym e)) ∙ p.gone;
        others = λ u h. get-agree x q' q u (p.others u h);
        places = λ u h. position-agree x q' q u (p.places u h);
        least = λ u c e. elim (get-cases x q u c e) [
          | inl (k, same) ↦
              let first =
                Before-cost weight x item
                  (All-get (Before weight x) q item.0 item.1 before p.there) in
              subst (λ w. weight.into_ord item.1 ≤ weight.into_ord w) same first
          | inr (k, rest) ↦ p.least u c rest
        ];
      }

  pub pop_last-Popped :
      (x : Item weight) (q : List (Item weight))
      → Sorted weight (x ∷ q)
      → DistinctKeys (x ∷ q)
      → (item : Item weight) × (q' : List (Item weight)) × Popped (x ∷ q) item q'
  pop_last-Popped x [] sorted distinct = (x, [], alone x)
  pop_last-Popped x (y ∷ q) sorted distinct =
      let (item, q', p) = pop_last-Popped y q sorted.1 distinct.1 in
      (item, x ∷ q', behind x (y ∷ q) item q' sorted.0 distinct.0 p)
