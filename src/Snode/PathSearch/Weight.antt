-- ===== src/Snode/PathSearch/Weight.antt =====
-- cjdns-snode/src/pathsearch/numtraits.rs: what the search asks of a weight. The code is generic in
-- the tags, which are numbers here, and in the weights; it is used at `f64`, whose arithmetic is a
-- parameter.
use cjdns_route_server.Base.{ℕ, Bool}

-- `Zero`, `Add`, `<`, `>=` (which a NaN makes no negation of `<`) and `IntoOrd`. The ordered type that `into_ord` gives is known by the numbers
-- of its values in their order; `is_finite` is what `into_ord` asserts of the weight first.
pub record Weight : Type 1 where
  pub W : Type 0
  pub zero_weight : W
  pub add : W → W → W
  pub lt : W → W → Bool
  pub ge : W → W → Bool
  pub is_finite : W → Bool
  pub into_ord : W → ℕ
