-- ===== src/Snode/PathSearch/Dijkstra/Traces.antt =====
-- The ways that `tree_paths` reads out of `previous`.
use native.Mathlib.Decide.{ℕ_discrete}
use cjdns_route_server.Base.{
  ℕ, suc, zero, ◌<◌, ◌≡◌, inl, inr, refl, sym, ap, ◌∙◌, subst, arith, true, false, not, List, [],
  ◌∷◌, ◌++◌, append_assoc, append-nil, reverse, length, ◌==◌, eq→==, ne→==, none, some, ok,
  if◌then◌else◌,
}
use cjdns_route_server.Base.Maps.{Map, get, map_keys, get-head, get-behind, get-empty}
use cjdns_route_server.Core.Scheme.{contains}
use cjdns_route_server.Snode.PathSearch.Weight.{Weight}
use cjdns_route_server.Snode.PathSearch.Dijkstra.{Dijkstra, trace_inner, tree_paths}
use cjdns_route_server.Snode.PathSearch.Dijkstra.Tags.{
  contains-cases, contains-empty, contains-behind, contains-head, contains-other, not_behind,
  true-ne-false,
}
use cjdns_route_server.Snode.PathSearch.Dijkstra.Invariant.{Back, Points, Ordered, settle}

-- A tag is a key of a map or has no value there.
pub map_keys-some :
    {V : Type 0} (m : Map V) (u : ℕ) (v : V) → get m u ≡ some v → contains (map_keys m) u ≡ true
unfolding map_keys
map_keys-some {V = V} [] u v h = absurd (let e = get-empty {V = V} u in cc)
map_keys-some (e ∷ m) u v h = elim (ℕ_discrete e.0 u) [
  | yes p ↦ subst (λ k. contains (e.0 ∷ map_keys m) k ≡ true) p (contains-head e.0 (map_keys m))
  | no p ↦ contains-behind e.0 u (map_keys m) (map_keys-some m u v (sym (get-behind e m u p) ∙ h))
]

pub map_keys-none :
    {V : Type 0} (m : Map V) (u : ℕ) → get m u ≡ none → contains (map_keys m) u ≡ false
unfolding map_keys contains
map_keys-none [] u h = refl
map_keys-none (e ∷ m) u h = elim (ℕ_discrete e.0 u) [
  | yes p ↦ absurd (let head = get-head e m u p in cc)
  | no p ↦ contains-other e.0 u (map_keys m) p (map_keys-none m u (sym (get-behind e m u p) ∙ h))
]

module _ (weight : Weight) (d : Dijkstra weight) (from : ℕ) where
  -- The tags of a way but for the start.
  abbrev pub between : List ℕ → List ℕ
  between [] = []
  between (x ∷ r) = if not (x == from) then x ∷ between r else between r

  abbrev pub behind : List ℕ → List ℕ
  behind [] = []
  behind (x ∷ r) = r

  between-behind :
      (v : ℕ) (r rev_path : List ℕ)
      → Back weight d from v r
      → (if not (v == from) then rev_path ++ (v ∷ []) else rev_path) ++ between (behind r)
        ≡ rev_path ++ between r
  between-behind v [] rev_path start = rw (eq→== v from start) refl
  between-behind v (x ∷ r) rev_path (same, rest) = elim (ℕ_discrete v from) [
    | yes e ↦ rw (eq→== v from e, eq→== x from (same ∙ e)) refl
    | no ne ↦
        rw (ne→== v from ne, ne→== x from (λ e. ne (sym same ∙ e)))
          (append_assoc rev_path (v ∷ []) (between r)
            ∙ ap (λ k. rev_path ++ (k ∷ between r)) (sym same))
  ]

  trace_inner-Back :
      {E : Type 0} (fuel : ℕ) (previous : Map ℕ) (explored : List ℕ) (u : ℕ) (rev_path : List ℕ)
      → length explored < fuel
      → Ordered weight d from previous explored
      → Points weight d from previous explored u
      → (r : List ℕ) × (trace_inner weight {E = E} fuel previous from u rev_path
          ≡ ok (rev_path ++ between (behind r)))
        × Back weight d from u r
  unfolding trace_inner
  trace_inner-Back zero previous explored u rev_path h o p = absurd (omega arith)
  trace_inner-Back (suc fuel) previous explored u rev_path h o (inl (there, start)) =
      ([], rw (trace_inner, there) (ap ok (sym (append-nil rev_path))), start)
  trace_inner-Back {E = E} (suc fuel) previous explored u rev_path h o
        (inr (v, there, inside, edge)) =
      let (before, o', p', less) = settle weight d from previous explored v o inside in
      let rev_path' = if not (v == from) then rev_path ++ (v ∷ []) else rev_path in
      let (r, done, back) =
        trace_inner-Back {E = E} fuel previous before v rev_path' (omega arith) o' p' in
      (
        u ∷ r,
        rw (trace_inner, there) (done ∙ ap ok (between-behind v r rev_path back)),
        (refl, (v, edge, back)),
      )

  abbrev pub Traced : List (ℕ × List ℕ) → ℕ → Type 0
  Traced paths u =
      (r : List ℕ) × (get paths u ≡ some (reverse (between (behind r)))) × Back weight d from u r

  pub tree_paths-Traced :
      {E : Type 0} (fuel : ℕ) (previous : Map ℕ) (explored : List ℕ) (ks : List ℕ)
      → length explored < fuel
      → Ordered weight d from previous explored
      → ((u : ℕ) → contains ks u ≡ true → contains explored u ≡ true)
      → (paths : List (ℕ × List ℕ)) × (tree_paths weight {E = E} fuel previous from ks ≡ ok paths)
        × ((u : ℕ) → contains ks u ≡ true → Traced paths u)
        × ((u : ℕ) → contains ks u ≡ false → get paths u ≡ none)
  unfolding tree_paths
  tree_paths-Traced fuel previous explored [] h o inside =
      ([], refl, λ u k. absurd (contains-empty u k), λ u k. get-empty u)
  tree_paths-Traced {E = E} fuel previous explored (e ∷ ks) h o inside =
      let (before, o', p', less) =
        settle weight d from previous explored e o (inside e (contains-head e ks)) in
      let (r, done, back) =
        trace_inner-Back {E = E} fuel previous before e [] (omega arith) o' p' in
      let (paths, done', all, others) =
        tree_paths-Traced {E = E} fuel previous explored ks h o
          (λ u k. inside u (contains-behind e u ks k)) in
      let head : ℕ × List ℕ = (e, reverse (between (behind r))) in
      (
        head ∷ paths,
        rw (done, done') refl,
        λ u k. elim (contains-cases e u ks k) [
          | inl same ↦
              (r, get-head head paths u same, subst (λ n. Back weight d from n r) same back)
          | inr (ne, rest) ↦
              ((all u rest).0, get-behind head paths u ne ∙ (all u rest).1, (all u rest).2)
        ],
        λ u k. elim (ℕ_discrete e u) [
          | yes same ↦
              absurd (true-ne-false (sym (contains-head e ks) ∙ ap (contains (e ∷ ks)) same ∙ k))
          | no ne ↦ get-behind head paths u ne ∙ others u (not_behind e u ks k)
        ],
      )
