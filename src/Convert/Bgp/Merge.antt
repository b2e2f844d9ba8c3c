-- ===== src/Convert/Bgp/Merge.antt =====
-- Where the attributes of a merged route come from.
use mathlib.Core.Path.{subst}
use hammerhead_bench.Prelude.{
  ==_iff, All, Bool, List, Option, Text, [], ap, arith, codes, false, if◌then◌else◌, is_some,
  list_eq, map, none, pair_eq, refl, some, true, ℕ_eq, ◌==◌, ◌∷◌, ◌≡◌,
}
use hammerhead_bench.Prelude.Dict.{Dict, get}
use hammerhead_bench.Json.{Json, look}
use hammerhead_bench.Json.Fields.{Result, ok, raise}
use hammerhead_bench.Fib.{NodeFib, Protocol_eq, Route, bgp}
use hammerhead_bench.Fib.Canon.{canonicalize_vrf}
use hammerhead_bench.Convert.Bgp.{
  Best, BgpUpdate, Merged, best_paths, merge_bgp_attributes, merge_route, parse_as_path, update_of,
  walk_bgp_blocks,
}
use hammerhead_bench.Convert.Bgp.Laws.{Sound, best_key, best_paths-Sound}
use hammerhead_bench.Convert.Bgp.Complete.{Has, best_paths_found}
use hammerhead_bench.Convert.Bgp.Blocks.{IsOffered, walk_bgp_blocks-IsOffered}

-- The attributes are those that the path has: its `path` read as numbers, its `locPrf` and `metric`.
abbrev pub IsUpdateOf : Dict Text Json → BgpUpdate → Type 0
IsUpdateOf p u =
    (u.as_path ≡ parse_as_path (look (codes "path") p))
    × (u.local_pref ≡ look (codes "locPrf") p)
    × (u.med ≡ look (codes "metric") p)

-- The update of a merged route is that of a best path of a block of the FIB's VRF, and a BGP route
-- has one if a block offers a best path for its prefix.
pub record IsMerged (bgp_json : Json) (vrf : Text) (m : Merged) : Type 0 where
  pub offered :
      (u : BgpUpdate)
      → m.update ≡ some u
      → (m.route.protocol ≡ bgp)
        × (p : Dict Text Json) × IsUpdateOf p u
        × IsOffered bgp_json vrf m.route.prefix p
  pub updated :
      (p : Dict Text Json)
      → m.route.protocol ≡ bgp
      → IsOffered bgp_json vrf m.route.prefix p
      → is_some m.update ≡ true

-- The merged route, by the two tests.
abbrev picked : Route → Bool → Option (Dict Text Json) → Merged
picked r b o =
    if b
    then elim o [
      | none ↦ record { route = r; update = none }
      | some pi ↦ record { route = r; update = some (update_of pi) }
    ]
    else record { route = r; update = none }

route-merge_route :
    (best : Best) (vrf : Text) (rs : List Route)
    → map (λ (m : Merged). m.route) (map (merge_route best vrf) rs) ≡ rs
unfolding merge_route
route-merge_route best vrf [] = refl
route-merge_route best vrf (r ∷ rs) =
    go (r.protocol == bgp) (get (best_key vrf r.prefix) best) (route-merge_route best vrf rs)
  where
    go :
        (b : Bool) (o : Option (Dict Text Json))
        → map (λ (m : Merged). m.route) (map (merge_route best vrf) rs) ≡ rs
        → (picked r b o).route ∷ map (λ (m : Merged). m.route) (map (merge_route best vrf) rs)
          ≡ r ∷ rs
    go true none ih = ap (λ l. r ∷ l) ih
    go true (some pi) ih = ap (λ l. r ∷ l) ih
    go false o ih = ap (λ l. r ∷ l) ih

merge_route-IsMerged :
    (bgp_json : Json) (best : Best) (vrf : Text) (rs : List Route)
    → Sound (IsOffered bgp_json) best
    → ((q : Text) (p : Dict Text Json) → IsOffered bgp_json vrf q p → Has vrf q best)
    → All (IsMerged bgp_json vrf) (map (merge_route best vrf) rs)
unfolding merge_route update_of
merge_route-IsMerged bgp_json best vrf [] h c = tt
merge_route-IsMerged bgp_json best vrf (r ∷ rs) h c = (
  go (r.protocol == bgp) refl (get (best_key vrf r.prefix) best) refl,
  merge_route-IsMerged bgp_json best vrf rs h c,
)
  where
    updates : (pi : Dict Text Json) (u : BgpUpdate) → update_of pi ≡ u → IsUpdateOf pi u
    updates pi u e = subst (IsUpdateOf pi) e (refl, refl, refl)

    go :
        (b : Bool)
        → (r.protocol == bgp) ≡ b
        → (o : Option (Dict Text Json)) → get (best_key vrf r.prefix) best ≡ o
        → IsMerged bgp_json vrf (picked r b o)
    go true b none o = record {
      offered = λ u e. absurd cc;
      updated = λ p e s. let there = c r.prefix p s in absurd (ground arith);
    }
    go true b (some pi) o = record {
      offered = λ u e. ((==_iff r.protocol bgp).0 b, pi, updates pi u (cc e), h vrf r.prefix pi o);
      updated = λ p e s. refl;
    }
    go false b o q = record {
      offered = λ u e. absurd cc;
      updated =
          λ p e s. let is : (r.protocol == bgp) ≡ true = (==_iff r.protocol bgp).1 e in absurd cc;
    }

-- If the merge returns, its routes are those of the FIB, each in its place and unchanged but for the
-- update. A route with an update is a BGP route, and its attributes are the AS path, local preference and metric of a
-- path that some block of the FIB's canonical VRF lists under the route's prefix and marks as the
-- best. A block is the document itself where it has routes, or else any part of it that has. A BGP
-- route for whose prefix some block of the VRF lists such a path has an update.
pub merge_bgp_attributes-IsMerged :
    (fib : NodeFib) (bgp_json : Json) (ms : List Merged)
    → merge_bgp_attributes fib bgp_json ≡ ok ms
    → (map (λ (m : Merged). m.route) ms ≡ fib.routes)
      × All (IsMerged bgp_json (canonicalize_vrf fib.vrf)) ms
unfolding merge_bgp_attributes get
merge_bgp_attributes-IsMerged fib bgp_json ms h = go (best_paths (walk_bgp_blocks bgp_json) []) refl
  where
    vrf : Text
    vrf = canonicalize_vrf fib.vrf

    go :
        (o : Result Best)
        → best_paths (walk_bgp_blocks bgp_json) [] ≡ o
        → (map (λ (m : Merged). m.route) ms ≡ fib.routes) × All (IsMerged bgp_json vrf) ms
    go (raise x) o = absurd (ground arith)
    go (ok best) o =
        let same : map (merge_route best vrf) fib.routes ≡ ms = ground arith in
        let sound =
          best_paths-Sound (IsOffered bgp_json) (walk_bgp_blocks bgp_json) [] best
            (λ v q p e. absurd cc) (λ v q p m. (walk_bgp_blocks-IsOffered bgp_json v q p).0 m) o in
        subst (λ l. (map (λ (m : Merged). m.route) l ≡ fib.routes) × All (IsMerged bgp_json vrf) l)
          same
          (
            route-merge_route best vrf fib.routes,
            merge_route-IsMerged bgp_json best vrf fib.routes sound (λ q p m.
                best_paths_found vrf q p (walk_bgp_blocks bgp_json) [] best
                  ((walk_bgp_blocks-IsOffered bgp_json vrf q p).1 m) o),
          )
