-- ===== src/Snode/PathSearch/Dijkstra/Tags.antt =====
-- Sets of tags as lists, and how many tags a set can have.
use cjdns_route_server.Base.{
  ℕ, suc, ◌≤◌, ◌≡◌, ◌≢◌, ◌⊎◌, inl, inr, refl, sym, ap, ◌∙◌, subst, arith, true, false, List, [],
  ◌∷◌, ◌++◌, length, eq→==, ne→==,
}
use native.Mathlib.Decide.{ℕ_discrete}
use cjdns_route_server.Core.Scheme.{contains}

pub contains-cases :
    (y x : ℕ) (ys : List ℕ)
    → contains (y ∷ ys) x ≡ true
    → (y ≡ x) ⊎ ((y ≢ x) × (contains ys x ≡ true))
unfolding contains
contains-cases y x ys h = elim (ℕ_discrete y x) [
  | yes e ↦ inl e
  | no ne ↦ inr (ne, ground (arith, ne→== y x ne, h))
]

pub contains-empty : (x : ℕ) → contains [] x ≢ true
unfolding contains
contains-empty x h = cc

pub contains-head : (x : ℕ) (ys : List ℕ) → contains (x ∷ ys) x ≡ true
unfolding contains
contains-head x ys = rw (eq→== x x refl) refl

pub contains-behind : (y x : ℕ) (ys : List ℕ) → contains ys x ≡ true → contains (y ∷ ys) x ≡ true
unfolding contains
contains-behind y x ys h = ground (arith, h)

pub contains-other :
    (y x : ℕ) (ys : List ℕ) → y ≢ x → contains ys x ≡ false → contains (y ∷ ys) x ≡ false
unfolding contains
contains-other y x ys ne h = rw (ne→== y x ne) h

pub not_behind : (y x : ℕ) (ys : List ℕ) → contains (y ∷ ys) x ≡ false → contains ys x ≡ false
unfolding contains
not_behind y x ys h = ground (arith, h)

pub contains-front : (xs ys : List ℕ) (x : ℕ) → contains xs x ≡ true → contains (xs ++ ys) x ≡ true
contains-front [] ys x h = absurd (contains-empty x h)
contains-front (z ∷ xs) ys x h = elim (contains-cases z x xs h) [
  | inl e ↦ subst (λ n. contains (z ∷ (xs ++ ys)) n ≡ true) e (contains-head z (xs ++ ys))
  | inr (ne, rest) ↦ contains-behind z x (xs ++ ys) (contains-front xs ys x rest)
]

pub contains-back : (xs ys : List ℕ) (x : ℕ) → contains ys x ≡ true → contains (xs ++ ys) x ≡ true
contains-back [] ys x h = h
contains-back (z ∷ xs) ys x h = contains-behind z x (xs ++ ys) (contains-back xs ys x h)

abbrev pub DistinctTags : List ℕ → Type 0
DistinctTags [] = Unit
DistinctTags (x ∷ xs) = (contains xs x ≡ false) × DistinctTags xs

-- The list without the first occurrence of a tag.
without :
    (ys : List ℕ) (x : ℕ)
    → contains ys x ≡ true
    → (zs : List ℕ) × (length ys ≡ suc (length zs))
      × ((u : ℕ) → u ≢ x → contains ys u ≡ true → contains zs u ≡ true)
without [] x h = absurd (contains-empty x h)
without (y ∷ ys) x h = elim (contains-cases y x ys h) [
  | inl e ↦ (
    ys,
    refl,
    λ u ne k. elim (contains-cases y u ys k) [
      | inl e' ↦ absurd (ne (sym e' ∙ e))
      | inr (ne', rest) ↦ rest
    ],
  )
  | inr (ne, rest) ↦
      let (zs, size, kept) = without ys x rest in
      (
        y ∷ zs,
        ap suc size,
        λ u ne' k. elim (contains-cases y u ys k) [
          | inl e' ↦ subst (λ n. contains (y ∷ zs) n ≡ true) e' (contains-head y zs)
          | inr (ne'', there) ↦ contains-behind y u zs (kept u ne' there)
        ],
      )
]

pub true-ne-false : true ≢ false
true-ne-false h = cc

-- Distinct tags out of a set are not more than it has.
pub length-le :
    (xs ys : List ℕ)
    → DistinctTags xs
    → ((u : ℕ) → contains xs u ≡ true → contains ys u ≡ true)
    → length xs ≤ length ys
length-le [] ys d h = omega arith
length-le (x ∷ xs) ys (fresh, d) h =
    let (zs, size, kept) = without ys x (h x (contains-head x xs)) in
    let rest = length-le xs zs d (λ u k.
      kept u (λ e. true-ne-false (sym k ∙ ap (contains xs) e ∙ fresh))
        (h u (contains-behind x u xs k))) in
    omega (arith, size, rest)
