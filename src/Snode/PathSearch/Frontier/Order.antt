-- ===== src/Snode/PathSearch/Frontier/Order.antt =====
-- The order of the queue: falling cost, and rising tags where costs are equal.
use cjdns_route_server.Base.{◌≤◌, ◌≡◌, ◌≢◌, arith, true, false, List, [], ◌∷◌, All}
use cjdns_route_server.Snode.PathSearch.Weight.{Weight}
use cjdns_route_server.Snode.PathSearch.Frontier.{Item, key_lt}

module _ (weight : Weight) where
  abbrev pub Before : Item weight → Item weight → Type 0
  Before x y = key_lt weight x y ≡ true

  abbrev pub Sorted : List (Item weight) → Type 0
  Sorted [] = Unit
  Sorted (x ∷ queue) = All (Before x) queue × Sorted queue

  pub Before-trans : (x y z : Item weight) → Before x y → Before y z → Before x z
  unfolding key_lt
  Before-trans x y z h k = ground arith

  pub Before-total : (x y : Item weight) → x.0 ≢ y.0 → key_lt weight x y ≡ false → Before y x
  unfolding key_lt
  Before-total x y ne h = ground arith

  -- What comes later costs no more.
  pub Before-cost : (x y : Item weight) → Before x y → weight.into_ord y.1 ≤ weight.into_ord x.1
  unfolding key_lt
  Before-cost x y h = ground arith

  pub All-Before :
      (x y : Item weight) (queue : List (Item weight))
      → Before x y
      → All (Before y) queue
      → All (Before x) queue
  All-Before x y [] h k = tt
  All-Before x y (z ∷ queue) h (k, ks) = (Before-trans x y z h k, All-Before x y queue h ks)
