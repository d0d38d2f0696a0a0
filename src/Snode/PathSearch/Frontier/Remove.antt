-- ===== src/Snode/PathSearch/Frontier/Remove.antt =====
-- What becomes of the queue when a tag is removed from its place, and when the last item is popped.
use mathlib.Core.Option.{map}
use cjdns_route_server.Base.{
  ℕ, zero, suc, ◌≡◌, ◌≢◌, refl, sym, ap, ◌∙◌, subst, arith, Bool, true, false, List, [], ◌∷◌, All,
  Option, none, some, ◌==◌, ne→==, if◌then◌else◌, Option-cases, inl, inr, get_elem?,
}
use cjdns_route_server.Base.Maps.{
  Map, get, position, DistinctKeys, position-cases, get-head, get-behind,
}
use cjdns_route_server.Snode.PathSearch.Weight.{Weight}
use cjdns_route_server.Snode.PathSearch.Frontier.{Item, remove_at, shift_down}
use cjdns_route_server.Snode.PathSearch.Frontier.Order.{Before, Sorted}

-- Two keys do not stand at one place.
position-ne :
    {V : Type 0} (m : Map V) (k j i : ℕ) → k ≢ j → position k m ≡ some i → position j m ≢ some i
unfolding position
position-ne [] k j i ne h e = cc
position-ne (x ∷ m) k j i ne h e = elim (position-cases x m k i h) [
  | inl (p, z) ↦ elim (position-cases x m j i e) [
    | inl (q, z') ↦ ne (sym p ∙ q)
    | inr (b, q, z', e') ↦ omega (arith, z, z')
  ]
  | inr (a, p, z, h') ↦ elim (position-cases x m j i e) [
    | inl (q, z') ↦ omega (arith, z, z')
    | inr (b, q, z', e') ↦
        let same : a ≡ b = omega (arith, z, z') in
        position-ne m k j b ne (subst (λ n. position k m ≡ some n) same h') e'
  ]
]

shift_down-suc : (k i : ℕ) → i ≢ k → suc (shift_down k i) ≡ shift_down (suc k) (suc i)
shift_down-suc k i ne = ground arith

map-shift_down-zero : (o : Option ℕ) → o ≡ map (shift_down 0) (map suc o)
map-shift_down-zero none = refl
map-shift_down-zero (some i) = ap some (ground arith)

shifted-cons :
    (b : Bool) (k : ℕ) (o o' : Option ℕ)
    → o' ≡ map (shift_down k) o
    → o ≢ some k
    → (if b then some 0 else map suc o')
      ≡ map (shift_down (suc k)) (if b then some 0 else map suc o)
shifted-cons true k o o' h ne = ap some (ground arith)
shifted-cons false k none o' h ne = rw h refl
shifted-cons false k (some i) o' h ne = rw h (ap some (shift_down-suc k i (λ e. ne (ap some e))))

module _ (weight : Weight) (t : ℕ) where
  -- The queue `q'` is `q` without the tag, which was at the place `k`.
  pub record Removed (q q' : List (Item weight)) (k : ℕ) : Type 0 where
    pub at : remove_at q k ≡ some q'
    pub sorted : Sorted weight q'
    pub distinct : DistinctKeys q'
    pub gone : get q' t ≡ none
    pub others : (u : ℕ) → t ≢ u → get q' u ≡ get q u
    pub places : (u : ℕ) → t ≢ u → position u q' ≡ map (shift_down k) (position u q)

  All-remove_at :
      (P : Item weight → Type 0) (q q' : List (Item weight)) (k : ℕ)
      → remove_at q k ≡ some q'
      → All P q
      → All P q'
  unfolding remove_at
  All-remove_at P [] q' k e hs = cc
  All-remove_at P (x ∷ q) q' zero e (h, hs) =
      let same : q ≡ q' = cc in subst (λ xs. All P xs) same hs
  All-remove_at P (x ∷ q) q' (suc k) e (h, hs) = elim (Option-cases (remove_at q k)) [
    | inl none_left ↦ absurd (ground (arith, none_left, e))
    | inr (ys, found) ↦
        let same : x ∷ ys ≡ q' = ground (arith, found, e) in
        subst (λ xs. All P xs) same (h, All-remove_at P q ys k found hs)
  ]

  -- The item in front is removed.
  here :
      (x : Item weight) (q : List (Item weight))
      → x.0 ≡ t
      → Sorted weight (x ∷ q)
      → DistinctKeys (x ∷ q)
      → Removed (x ∷ q) q 0
  unfolding remove_at get position
  here x q e sorted distinct = record {
    at = refl;
    sorted = sorted.1;
    distinct = distinct.1;
    gone = subst (λ n. get q n ≡ none) e distinct.0;
    others = λ u ne. rw (ne→== x.0 u (λ p. ne (sym e ∙ p))) refl;
    places = λ u ne. rw (ne→== x.0 u (λ p. ne (sym e ∙ p))) (map-shift_down-zero (position u q));
  }

  -- An item further behind is removed.
  later :
      (x : Item weight) (q q' : List (Item weight)) (k : ℕ)
      → x.0 ≢ t
      → Sorted weight (x ∷ q)
      → DistinctKeys (x ∷ q)
      → position t q ≡ some k
      → Removed q q' k
      → Removed (x ∷ q) (x ∷ q') (suc k)
  unfolding remove_at get position
  later x q q' k ne sorted distinct place r = record {
    at = rw r.at refl;
    sorted = (All-remove_at (Before weight x) q q' k r.at sorted.0, r.sorted);
    distinct = (r.others x.0 (λ e. ne (sym e)) ∙ distinct.0, r.distinct);
    gone = rw (ne→== x.0 t ne) r.gone;
    others = λ u h. rw (r.others u h) refl;
    places = λ u h.
        shifted-cons (x.0 == u) k (position u q) (position u q') (r.places u h)
          (position-ne q t u k h place);
  }

  pub remove_at-Removed :
      (q : List (Item weight)) (k : ℕ)
      → Sorted weight q
      → DistinctKeys q
      → position t q ≡ some k
      → (q' : List (Item weight)) × Removed q q' k
  remove_at-Removed [] k sorted distinct h = absurd (unfold position in ground (arith, h))
  remove_at-Removed (x ∷ q) k sorted distinct h = elim (position-cases x q t k h) [
    | inl (e, z) ↦ (q, subst (λ n. Removed (x ∷ q) q n) (sym z) (here x q e sorted distinct))
    | inr (j, ne, z, place) ↦
        let (q', r) = remove_at-Removed q j sorted.1 distinct.1 place in
        (
          x ∷ q',
          subst (λ n. Removed (x ∷ q) (x ∷ q') n) (sym z)
              (later x q q' j ne sorted distinct place r),
        )
  ]

  -- The item at the place of a tag.
  pub get_elem?-position :
      (q : List (Item weight)) (k : ℕ)
      → position t q ≡ some k
      → (w : weight.W) × (get_elem? q k ≡ some (t, w)) × (get q t ≡ some w)
  get_elem?-position [] k h = absurd (unfold position in ground (arith, h))
  get_elem?-position (x ∷ q) k h = elim (position-cases x q t k h) [
    | inl (e, z) ↦ (x.1, rw z (ap (λ n. some (n, x.1)) e), get-head x q t e)
    | inr (j, ne, z, place) ↦
        let (w, found, there) = get_elem?-position q j place in
        (w, rw z found, get-behind x q t ne ∙ there)
  ]
