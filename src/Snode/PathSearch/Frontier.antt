-- ===== src/Snode/PathSearch/Frontier.antt =====
-- cjdns-snode/src/pathsearch/frontier.rs: the nodes that were reached, by falling cost, with an index
-- from tags to places in the queue.
mod Order
mod Insert
mod Remove
mod Pop
pub mod Refines
use cjdns_route_server.Base.{
  ℕ, suc, zero, ◌+◌, ◌-◌, Bool, true, false, ◌&&◌, ◌||◌, Option, none, some, List, [], ◌∷◌,
  get_elem?, ltb, leb, ◌==◌, if◌then◌else◌, Result, ok, panic, ◌>>=◌, ◌>>◌, assert, expect,
}
use cjdns_route_server.Base.Maps.{Map, get, insert, remove, map_values}
use cjdns_route_server.Snode.PathSearch.Weight.{Weight}

-- `Vec::insert` and `Vec::remove` within their bounds.
unfoldable pub insert_at : {A : Type 0} → List A → ℕ → A → Option (List A)
insert_at xs zero a = some (a ∷ xs)
insert_at [] (suc i) a = none
insert_at (x ∷ xs) (suc i) a = elim (insert_at xs i a) [ none ↦ none | some ys ↦ some (x ∷ ys) ]

unfoldable pub remove_at : {A : Type 0} → List A → ℕ → Option (List A)
remove_at [] i = none
remove_at (x ∷ xs) zero = some xs
remove_at (x ∷ xs) (suc i) = elim (remove_at xs i) [ none ↦ none | some ys ↦ some (x ∷ ys) ]

-- `Vec::pop`: the last element, and those before it.
unfoldable pub pop_last : {A : Type 0} → List A → Option (A × List A)
pop_last [] = none
pop_last (x ∷ xs) = elim (pop_last xs) [ none ↦ some (x, []) | some p ↦ some (p.0, x ∷ p.1) ]

-- What becomes of the places behind one that is inserted, or removed.
abbrev pub shift_up : ℕ → ℕ → ℕ
shift_up index old_idx = if leb index old_idx then old_idx + 1 else old_idx

abbrev pub shift_down : ℕ → ℕ → ℕ
shift_down i old_idx = if leb i old_idx then old_idx - 1 else old_idx

module _ (weight : Weight) where
  abbrev pub Item : Type 0
  Item = ℕ × weight.W

  pub record Frontier : Type 0 where
    pub queue : List Item
    pub index : Map ℕ

  abbrev pub new : Frontier
  new = record { queue = []; index = [] }

  -- `key_fn`: the key of `x` is less than that of `y`.
  unfoldable pub key_lt : Item → Item → Bool
  key_lt x y =
      let a = weight.into_ord x.1 in
      let b = weight.into_ord y.1 in ltb b a || (a == b && ltb x.0 y.0)

  -- `binary_search_by_key`, in a queue in the order of its keys: the place of the first item whose
  -- key is not less.
  unfoldable pub insertion_pos : List Item → Item → ℕ
  insertion_pos [] item = 0
  insertion_pos (x ∷ queue) item =
      let rest = insertion_pos queue item in if key_lt x item then suc rest else 0

  -- The weights that pass the `debug_assert!` of `into_ord`.
  unfoldable pub all_finite : List Item → Bool
  all_finite [] = true
  all_finite (x ∷ queue) = weight.is_finite x.1 && all_finite queue

  -- The end that `push` and `try_insert_or_decrease_cost` share: the item goes to its place, and the
  -- index follows. The search for the place takes the keys of the new item and of items of the queue,
  -- and `into_ord` asserts that their weights are finite: here those of all.
  unfoldable pub insert_item {ℓ} : {E : Type ℓ} → Frontier → Item → Result E Frontier
  insert_item f item = do
    assert (all_finite (item ∷ f.queue))
    let index = insertion_pos f.queue item
    queue ← expect (insert_at f.queue index item)
    ok (record { queue = queue; index = insert (map_values (shift_up index) f.index) item.0 index })

  unfoldable pub push {ℓ} : {E : Type ℓ} → Frontier → ℕ → weight.W → Result E Frontier
  push f tag cost = insert_item f (tag, cost)

  unfoldable pub pop : Frontier → Option (Item × Frontier)
  pop f = elim (pop_last f.queue) [
    | none ↦ none
    | some p ↦ some (p.0, record { queue = p.1; index = remove f.index p.0.0 })
  ]

  -- The branch for a tag that is in the queue already, at `i`.
  unfoldable pub decrease_cost {ℓ} :
      {E : Type ℓ} → Frontier → ℕ → weight.W → ℕ → Result E (Bool × Frontier)
  decrease_cost f tag new_cost i = do
    old ← expect (get_elem? f.queue i)
    if weight.lt new_cost old.1
        then (do
          queue ← expect (remove_at f.queue i)
          let index = map_values (shift_down i) (remove f.index tag)
          f' ← insert_item (record { queue = queue; index = index }) (tag, new_cost)
          ok (true, f'))
        else ok (false, f)

  unfoldable pub try_insert_or_decrease_cost {ℓ} :
      {E : Type ℓ} → Frontier → ℕ → weight.W → Result E (Bool × Frontier)
  try_insert_or_decrease_cost f tag new_cost = elim (get f.index tag) [
    | none ↦ (do f' ← push f tag new_cost; ok (true, f'))
    | some i ↦ decrease_cost f tag new_cost i
  ]
