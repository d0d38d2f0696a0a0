-- ===== src/Base/Maps.antt =====
-- `HashMap` with numbers as keys: an association list that has each key once at most.
use Prim.Native.Nat.{ℕ, suc}
use mathlib.Core.Path.{◌≡◌, refl, ap, sym, ◌∙◌}
use mathlib.Core.Logic.{◌≢◌, ◌⊎◌, inl, inr}
use mathlib.Core.List.{List, [], ◌∷◌}
use mathlib.Core.Option.{Option, none, some, map}
use native.Mathlib.Omega.{arith}
use native.Mathlib.Decide.{ℕ_discrete}
use cjdns_route_server.Base.Tests.{◌==◌, if◌then◌else◌, eq→==, ne→==}

abbrev pub Map : Type 0 → Type 0
Map V = List (ℕ × V)

module _ {V : Type 0} where
  unfoldable pub get : Map V → ℕ → Option V
  get [] k = none
  get (e ∷ m) k = if e.0 == k then some e.1 else get m k

  unfoldable pub remove : Map V → ℕ → Map V
  remove [] k = []
  remove (e ∷ m) k = let rest = remove m k in if e.0 == k then rest else e ∷ rest

  unfoldable pub insert : Map V → ℕ → V → Map V
  insert m k v = (k, v) ∷ remove m k

  -- `iter_mut().for_each(..)`
  unfoldable pub map_values : (V → V) → Map V → Map V
  map_values f [] = []
  map_values f (e ∷ m) = (e.0, f e.1) ∷ map_values f m

  unfoldable pub map_keys : Map V → List ℕ
  map_keys [] = []
  map_keys (e ∷ m) = e.0 ∷ map_keys m

  pub get-head : (e : ℕ × V) (m : Map V) (k : ℕ) → e.0 ≡ k → get (e ∷ m) k ≡ some e.1
  unfolding get
  get-head e m k p = rw (eq→== e.0 k p) refl

  pub get-behind : (e : ℕ × V) (m : Map V) (k : ℕ) → e.0 ≢ k → get (e ∷ m) k ≡ get m k
  unfolding get
  get-behind e m k ne = rw (ne→== e.0 k ne) refl

  pub get-cases :
      (e : ℕ × V) (m : Map V) (k : ℕ) (v : V)
      → get (e ∷ m) k ≡ some v
      → ((e.0 ≡ k) × (e.1 ≡ v)) ⊎ ((e.0 ≢ k) × (get m k ≡ some v))
  get-cases e m k v h = elim (ℕ_discrete e.0 k) [
    | yes p ↦ inl (p, let head = get-head e m k p in cc)
    | no p ↦ inr (p, sym (get-behind e m k p) ∙ h)
  ]

  pub get-empty : (k : ℕ) → get [] k ≡ none
  unfolding get
  get-empty k = refl

  pub get-remove : (m : Map V) (k : ℕ) → get (remove m k) k ≡ none
  unfolding get remove
  get-remove [] k = refl
  get-remove (e ∷ m) k = elim (ℕ_discrete e.0 k) as (λ _. get (remove (e ∷ m) k) k ≡ none) [
    | yes p ↦ rw (eq→== e.0 k p) (get-remove m k)
    | no p ↦ rw (ne→== e.0 k p, ne→== e.0 k p) (get-remove m k)
  ]

  pub get-remove_other : (m : Map V) (k j : ℕ) → k ≢ j → get (remove m k) j ≡ get m j
  unfolding get remove
  get-remove_other [] k j ne = refl
  get-remove_other (e ∷ m) k j ne =
      elim (ℕ_discrete e.0 k) as (λ _. get (remove (e ∷ m) k) j ≡ get (e ∷ m) j) [
        | yes p ↦
            rw
              (
                eq→== e.0 k p,
                ne→== e.0 j (λ q. ground (arith, p, q, ne)),
                get-remove_other m k j ne,
              )
              refl
        | no p ↦ rw (ne→== e.0 k p, get-remove_other m k j ne) refl
      ]

  pub get-insert : (m : Map V) (k : ℕ) (v : V) → get (insert m k v) k ≡ some v
  unfolding get insert
  get-insert m k v = rw (eq→== k k refl) refl

  pub get-insert_other : (m : Map V) (k j : ℕ) (v : V) → k ≢ j → get (insert m k v) j ≡ get m j
  unfolding get insert
  get-insert_other m k j v ne = rw (ne→== k j ne) (get-remove_other m k j ne)

  pub get-map_values : (f : V → V) (m : Map V) (k : ℕ) → get (map_values f m) k ≡ map f (get m k)
  unfolding get map_values
  get-map_values f [] k = refl
  get-map_values f (e ∷ m) k =
      elim (ℕ_discrete e.0 k) as (λ _. get (map_values f (e ∷ m)) k ≡ map f (get (e ∷ m) k)) [
        | yes p ↦ rw (eq→== e.0 k p) refl
        | no p ↦ rw (ne→== e.0 k p) (get-map_values f m k)
      ]

  -- The place of a key in the list.
  unfoldable pub position : ℕ → Map V → Option ℕ
  position k [] = none
  position k (e ∷ m) = if e.0 == k then some 0 else map suc (position k m)

  -- Each key has one entry.
  abbrev pub DistinctKeys : Map V → Type 0
  DistinctKeys [] = Unit
  DistinctKeys (e ∷ m) = (get m e.0 ≡ none) × DistinctKeys m

  pub position-behind :
      (e : ℕ × V) (m : Map V) (k : ℕ) → e.0 ≢ k → position k (e ∷ m) ≡ map suc (position k m)
  unfolding position
  position-behind e m k ne = rw (ne→== e.0 k ne) refl

  pub position-agree :
      (e : ℕ × V) (m m' : Map V) (k : ℕ)
      → position k m ≡ position k m'
      → position k (e ∷ m) ≡ position k (e ∷ m')
  unfolding position
  position-agree e m m' k h = rw h refl

  pub get-agree :
      (e : ℕ × V) (m m' : Map V) (k : ℕ) → get m k ≡ get m' k → get (e ∷ m) k ≡ get (e ∷ m') k
  unfolding get
  get-agree e m m' k h = rw h refl

  pub position-none : (k : ℕ) (m : Map V) → get m k ≡ none → position k m ≡ none
  unfolding get position
  position-none k [] h = refl
  position-none k (e ∷ m) h = elim (ℕ_discrete e.0 k) as (λ _. position k (e ∷ m) ≡ none) [
    | yes p ↦ absurd (ground (arith, eq→== e.0 k p, h))
    | no p ↦
        let rest : get m k ≡ none = ground (arith, ne→== e.0 k p, h) in
        rw (ne→== e.0 k p, position-none k m rest) refl
  ]

  pub none-position : (k : ℕ) (m : Map V) → position k m ≡ none → get m k ≡ none
  unfolding get position
  none-position k [] h = refl
  none-position k (e ∷ m) h = ground (arith, none-position k m)

-- Two functions that agree on what is there.
pub map-agree :
    {A B : Type 0} (f g : A → B) (o : Option A)
    → ((a : A) → o ≡ some a → f a ≡ g a)
    → map f o ≡ map g o
map-agree f g none h = refl
map-agree f g (some a) h = ap some (h a refl)

map-suc-some : (o : Option ℕ) (k : ℕ) → map suc o ≡ some k → (j : ℕ) × (k ≡ suc j) × (o ≡ some j)
map-suc-some none k h = absurd (ground (arith, h))
map-suc-some (some j) k h = (j, ground (arith, h), refl)

-- A key stands at the front, or further behind.
pub position-cases :
    {V : Type 0} (e : ℕ × V) (m : Map V) (k i : ℕ)
    → position k (e ∷ m) ≡ some i
    → ((e.0 ≡ k) × (i ≡ 0)) ⊎ ((j : ℕ) × (e.0 ≢ k) × (i ≡ suc j) × (position k m ≡ some j))
unfolding position
position-cases e m k i h = elim (ℕ_discrete e.0 k) [
  | yes p ↦ inl (p, ground (arith, eq→== e.0 k p, h))
  | no p ↦
      let (j, z, place) = map-suc-some (position k m) i (rw (ne→== e.0 k p) at h) in
      inr (j, p, z, place)
]
