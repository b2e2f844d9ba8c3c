-- ===== src/Convert/Frr/Fibs.antt =====
-- FRR's JSON yields one FIB for each VRF, with one route for each entry in scope.
use mathlib.Core.Path.{subst}
use hammerhead_bench.Prelude.{
  List, Option, Text, [], arith, codes, list_beq, list_eq, lower, none, refl, some, strip, ℕ_eq,
  ◌∷◌, ◌≡◌,
}
use hammerhead_bench.Prelude.Dict.{Dict, get}
use hammerhead_bench.Json.{Json, as_dict, as_list, members_of, no_members, object}
use hammerhead_bench.Json.Fields.{Result, Validation, need_dict, ok, raise}
use hammerhead_bench.Fib.{NodeFib, Protocol, Route, Source}
use hammerhead_bench.Fib.Canon.{canonicalize_vrf}
use hammerhead_bench.Convert.Scope.{
  IsFibOf, collect-gather, gather, produced, produced-append, produced_of, row_of_route,
}
use hammerhead_bench.Convert.Frr.{
  empty_fib, frr_prefix_routes, frr_routes, frr_vrf, frr_vrfs, parse_frr_route_entry,
  parse_frr_route_json, vrf_map_of,
}
use hammerhead_bench.Convert.Frr.Laws.{frr_entry_expected, frr_prefix_expected, selected_expected}

entry_expected :
    (v : Validation) (prefix : Text) (j : Json) (o : Option Route)
    → parse_frr_route_entry v prefix j ≡ ok o
    → frr_entry_expected prefix j ≡ produced_of o
unfolding parse_frr_route_entry need_dict
entry_expected v prefix j o h = go (as_dict j) refl
  where
    go : (d : Option (Dict Text Json)) → as_dict j ≡ d → frr_entry_expected prefix j ≡ produced_of o
    go none e = ground arith
    go (some entry) e = ground (arith, selected_expected v prefix entry o)

prefix_expected :
    (v : Validation) (p : Text × Json) (rs : List Route)
    → frr_prefix_routes v p ≡ ok rs
    → produced rs ≡ frr_prefix_expected p
unfolding frr_prefix_routes
prefix_expected v (prefix, entries) rs h = go (as_list entries) refl
  where
    go :
        (l : Option (List Json))
        → as_list entries ≡ l
        → produced rs ≡ frr_prefix_expected (prefix, entries)
    go none e = ground arith
    go (some es) e = ground (
      arith,
      collect-gather (parse_frr_route_entry v prefix) (frr_entry_expected prefix) row_of_route es rs
          (entry_expected v prefix),
    )

routes_expected :
    (v : Validation) (ps : Dict Text Json) (rs : List Route)
    → frr_routes v ps ≡ ok rs
    → produced rs ≡ gather frr_prefix_expected ps
unfolding frr_routes
routes_expected v [] rs h = ground arith
routes_expected v (p ∷ ps) rs h =
    go (frr_prefix_routes v p) refl (frr_routes v ps) refl (routes_expected v ps)
  where
    go :
        (o : Result (List Route))
        → frr_prefix_routes v p ≡ o
        → (rest : Result (List Route)) → frr_routes v ps ≡ rest
        → ((rs' : List Route)
            → frr_routes v ps ≡ ok rs'
            → produced rs' ≡ gather frr_prefix_expected ps)
        → produced rs ≡ gather frr_prefix_expected (p ∷ ps)
    go (raise x) e rest q ih = ground arith
    go (ok o) e (raise x) q ih = ground arith
    go (ok o) e (ok rs') q ih =
        ground (arith, prefix_expected v p o e, ih rs' q, produced-append o rs')

-- What a VRF's value should yield.
abbrev pub frr_vrf_expected : Json → List (Text × Option Protocol)
frr_vrf_expected j = elim (as_dict j) [ none ↦ [] | some ps ↦ gather frr_prefix_expected ps ]

-- One FIB for each VRF, in order.
abbrev pub AreFrrFibs : Text → Source → List NodeFib → Dict Text Json → Type 0
AreFrrFibs node source [] [] = Unit
AreFrrFibs node source (fib ∷ fibs) ((vrf, j) ∷ ms) =
    IsFibOf node (canonicalize_vrf vrf) source (frr_vrf_expected j) fib
    × AreFrrFibs node source fibs ms
AreFrrFibs node source _ _ = ⊥

vrf_expected :
    (v : Validation) (node : Text) (source : Source) (vrf : Text) (j : Json) (fib : NodeFib)
    → frr_vrf v node source (vrf, j) ≡ ok fib
    → IsFibOf node (canonicalize_vrf vrf) source (frr_vrf_expected j) fib
unfolding frr_vrf need_dict
vrf_expected v node source vrf j fib h = go (as_dict j) refl
  where
    go :
        (d : Option (Dict Text Json))
        → as_dict j ≡ d
        → IsFibOf node (canonicalize_vrf vrf) source (frr_vrf_expected j) fib
    go none e = absurd (ground arith)
    go (some ps) e = step (frr_routes v ps) refl
      where
        step :
            (o : Result (List Route))
            → frr_routes v ps ≡ o
            → IsFibOf node (canonicalize_vrf vrf) source (frr_vrf_expected j) fib
        step (raise x) q = absurd (ground arith)
        step (ok rs) q = record {
          same_node = ground arith;
          same_vrf = ground arith;
          same_source = ground arith;
          routes = ground (arith, routes_expected v ps rs q);
        }

vrfs_expected :
    (v : Validation) (node : Text) (source : Source) (ms : Dict Text Json) (fibs : List NodeFib)
    → frr_vrfs v node source ms ≡ ok fibs
    → AreFrrFibs node source fibs ms
unfolding frr_vrfs
vrfs_expected v node source [] fibs h =
    let same : [] ≡ fibs = ground arith in subst (λ l. AreFrrFibs node source l []) same tt
vrfs_expected v node source ((vrf, j) ∷ ms) fibs h =
    go (frr_vrf v node source (vrf, j)) refl (frr_vrfs v node source ms) refl
      (vrfs_expected v node source ms)
  where
    go :
        (o : Result NodeFib)
        → frr_vrf v node source (vrf, j) ≡ o
        → (rest : Result (List NodeFib)) → frr_vrfs v node source ms ≡ rest
        → ((fs : List NodeFib) → frr_vrfs v node source ms ≡ ok fs → AreFrrFibs node source fs ms)
        → AreFrrFibs node source fibs ((vrf, j) ∷ ms)
    go (raise x) e rest q ih = absurd (ground arith)
    go (ok f) e (raise x) q ih = absurd (ground arith)
    go (ok f) e (ok fs) q ih =
        let same : f ∷ fs ≡ fibs = ground arith in
        subst (λ l. AreFrrFibs node source l ((vrf, j) ∷ ms)) same
          (vrf_expected v node source vrf j f e, ih fs q)

-- What the whole output should yield: data that is empty has the default VRF alone.
abbrev pub frr_vrf_map : Dict Text Json → Dict Text Json
frr_vrf_map [] = (codes "default", object no_members) ∷ []
frr_vrf_map (m ∷ data') = vrf_map_of (m ∷ data')

-- The FIBs that the conversion returns are one for each VRF, in order. Each has exactly one route
-- for each entry that is selected and installed and whose label is not on the skip list, in the
-- order of the table, with the entry's prefix and the protocol that its label maps to.
pub parse_frr_route_json-AreFrrFibs :
    (v : Validation) (data' : Dict Text Json) (node : Text) (source : Source) (fibs : List NodeFib)
    → parse_frr_route_json v data' node source ≡ ok fibs
    → AreFrrFibs node source fibs (frr_vrf_map data')
unfolding parse_frr_route_json as_dict members_of canonicalize_vrf get list_beq strip lower
parse_frr_route_json-AreFrrFibs v [] node source fibs h =
    let same : empty_fib node source ∷ [] ≡ fibs = ground arith in
    subst (λ l. AreFrrFibs node source l ((codes "default", object no_members) ∷ [])) same
      (record { same_node = refl; same_vrf = refl; same_source = refl; routes = refl }, tt)
parse_frr_route_json-AreFrrFibs v (m ∷ data') node source fibs h =
    vrfs_expected v node source (vrf_map_of (m ∷ data')) fibs h
