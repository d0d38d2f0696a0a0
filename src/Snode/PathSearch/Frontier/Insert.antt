-- ===== src/Snode/PathSearch/Frontier/Insert.antt =====
-- What becomes of the queue when a tag that it does not have is inserted at its place.
use mathlib.Core.Option.{map}
use cjdns_route_server.Base.{
  ℕ, zero, suc, ◌≡◌, ◌≢◌, refl, sym, ap, ◌∙◌, subst, arith, Option-cases, Bool, true, false, List,
  [], ◌∷◌, All, Option, none, some, ◌==◌, eq→==, ne→==, if◌then◌else◌, Bool-cases, inl, inr,
}
use cjdns_route_server.Base.Maps.{get, position, DistinctKeys}
use cjdns_route_server.Snode.PathSearch.Weight.{Weight}
use cjdns_route_server.Snode.PathSearch.Frontier.{Item, insert_at, key_lt, insertion_pos, shift_up}
use cjdns_route_server.Snode.PathSearch.Frontier.Order.{Before, Sorted, Before-total, All-Before}

shift_up-suc : (r i : ℕ) → shift_up (suc r) (suc i) ≡ suc (shift_up r i)
shift_up-suc r i = ground arith

map-shift_up-zero : (o : Option ℕ) → map suc o ≡ map (shift_up 0) o
map-shift_up-zero none = refl
map-shift_up-zero (some i) = ap some (ground arith)

map-shift_up-suc :
    (r : ℕ) (o : Option ℕ) → map suc (map (shift_up r) o) ≡ map (shift_up (suc r)) (map suc o)
map-shift_up-suc r none = refl
map-shift_up-suc r (some i) = ap some (sym (shift_up-suc r i))

shifted-cons :
    (b : Bool) (k : ℕ) (o o' : Option ℕ)
    → o' ≡ map (shift_up k) o
    → (if b then some 0 else map suc o') ≡ map (shift_up (suc k)) (if b then some 0 else map suc o)
shifted-cons true k o o' h = ap some (ground arith)
shifted-cons false k o o' h = rw h (map-shift_up-suc k o)

none_then :
    {A : Type 0} (P : A → Type 0) (x : A) (q q' : List A) (k : ℕ) (a : A)
    → insert_at q k a ≡ none
    → insert_at (x ∷ q) (suc k) a ≢ some q'
unfolding insert_at
none_then P x q q' k a h e = ground arith

some_then :
    {A : Type 0} (P : A → Type 0) (x : A) (q q' ys : List A) (k : ℕ) (a : A)
    → insert_at q k a ≡ some ys
    → insert_at (x ∷ q) (suc k) a ≡ some q'
    → x ∷ ys ≡ q'
unfolding insert_at
some_then P x q q' ys k a h e = ground arith

All-insert_at :
    {A : Type 0} (P : A → Type 0) (q q' : List A) (k : ℕ) (a : A)
    → insert_at q k a ≡ some q'
    → P a
    → All P q
    → All P q'
unfolding insert_at
All-insert_at P q q' zero a e h hs =
    let same : a ∷ q ≡ q' = cc in subst (λ xs. All P xs) same (h, hs)
All-insert_at P [] q' (suc k) a e h hs = cc
All-insert_at P (x ∷ q) q' (suc k) a e h (hx, hs) = elim (Option-cases (insert_at q k a)) [
  | inl none_left ↦ absurd (none_then P x q q' k a none_left e)
  | inr (ys, found) ↦
      let same : x ∷ ys ≡ q' = some_then P x q q' ys k a found e in
      subst (λ xs. All P xs) same (hx, All-insert_at P q ys k a found h hs)
]

module _ (weight : Weight) (t : ℕ) (w : weight.W) where
  abbrev item : Item weight
  item = (t, w)

  -- The queue `q'` is `q` with the item at the place `k`.
  pub record Inserted (q q' : List (Item weight)) (k : ℕ) : Type 0 where
    pub at : insert_at q k item ≡ some q'
    pub sorted : Sorted weight q'
    pub distinct : DistinctKeys q'
    pub there : get q' t ≡ some w
    pub others : (u : ℕ) → t ≢ u → get q' u ≡ get q u
    pub place : position t q' ≡ some k
    pub places : (u : ℕ) → t ≢ u → position u q' ≡ map (shift_up k) (position u q)

  front :
      (q : List (Item weight))
      → All (Before weight item) q
      → Sorted weight q
      → DistinctKeys q
      → get q t ≡ none
      → Inserted q (item ∷ q) 0
  unfolding insert_at get position
  front q before sorted distinct fresh = record {
    at = refl;
    sorted = (before, sorted);
    distinct = (fresh, distinct);
    there = rw (eq→== t t refl) refl;
    others = λ u ne. rw (ne→== t u ne) refl;
    place = rw (eq→== t t refl) refl;
    places = λ u ne. rw (ne→== t u ne) (map-shift_up-zero (position u q));
  }

  fresh-cons :
      (x : Item weight) (q : List (Item weight))
      → get (x ∷ q) t ≡ none
      → (t ≢ x.0) × (get q t ≡ none)
  unfolding get
  fresh-cons x q h = ground arith

  -- An item with a smaller key stays in front.
  behind :
      (x : Item weight) (q q' : List (Item weight)) (k : ℕ)
      → Before weight x item
      → t ≢ x.0
      → All (Before weight x) q
      → get q x.0 ≡ none
      → Inserted q q' k
      → Inserted (x ∷ q) (x ∷ q') (suc k)
  unfolding insert_at get position
  behind x q q' k before ne all fresh i = record {
    at = rw i.at refl;
    sorted = (All-insert_at (Before weight x) q q' k item i.at before all, i.sorted);
    distinct = (i.others x.0 ne ∙ fresh, i.distinct);
    there = rw (ne→== x.0 t (λ e. ne (sym e))) i.there;
    others = λ u h. rw (i.others u h) refl;
    place = rw (ne→== x.0 t (λ e. ne (sym e)), i.place) refl;
    places = λ u h. shifted-cons (x.0 == u) k (position u q) (position u q') (i.places u h);
  }

  pub insert_item-Inserted :
      (q : List (Item weight))
      → Sorted weight q
      → DistinctKeys q
      → get q t ≡ none
      → (q' : List (Item weight)) × Inserted q q' (insertion_pos weight q item)
  unfolding insertion_pos get
  insert_item-Inserted [] sorted distinct fresh = (item ∷ [], front [] tt tt tt refl)
  insert_item-Inserted (x ∷ q) sorted distinct fresh =
      let (ne, fresh') = fresh-cons x q fresh in
      elim (Bool-cases (key_lt weight x item))
        as (λ _.
          (q' : List (Item weight)) × Inserted (x ∷ q) q' (insertion_pos weight (x ∷ q) item)) [
            | inl before ↦
                let (q', i) = insert_item-Inserted q sorted.1 distinct.1 fresh' in
                (
                  x ∷ q',
                  rw before
                      (behind x q q' (insertion_pos weight q item) before ne sorted.0 distinct.0 i),
                )
            | inr not_before ↦
                let first = Before-total weight x item (λ e. ne (sym e)) not_before in
                (
                  item ∷ x ∷ q,
                  rw not_before (
                      front (x ∷ q) (first, All-Before weight item x q first sorted.0) sorted
                        distinct fresh),
                )
          ]
