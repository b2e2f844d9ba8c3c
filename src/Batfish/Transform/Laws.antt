-- ===== src/Batfish/Transform/Laws.antt =====
-- harness/tools/batfish.py: what `transform_batfish_rows` makes of the rows of the two answers.
use mathlib.Core.Path.{ap₂, subst}
use hammerhead_bench.Prelude.{
  ==_iff, All, All-imp, Bool, List, Option, Text, [], all, ap, arith, codes, contains, false,
  is_empty, list_eq, map, none, not, pair_eq, refl, some, sym, true, ℕ_eq, ◌==◌, ◌∙◌, ◌∷◌, ◌≡◌,
}
use hammerhead_bench.Prelude.Dict.{Dict, Distinct, contains-keys, get, get-items, keys}
use hammerhead_bench.Prelude.Groups.{group}
use hammerhead_bench.Prelude.Sort.{All-map, All-sort, IsSorted, insert, sort, sort-IsSorted}
use hammerhead_bench.Prelude.Sets.{contains-sort, sort-Distinct}
use hammerhead_bench.Prelude.Order.{pair_order, text_order}
use hammerhead_bench.Json.{Json, look, text}
use hammerhead_bench.Json.Fields.{Result, is_ok, ok, raise, ◌>>=◌}
use hammerhead_bench.Json.Words.{str_of}
use hammerhead_bench.Fib.{NodeFib, Route}
use hammerhead_bench.Fib.Canon.{canonicalize_node_fib, canonicalize_vrf, default}
use hammerhead_bench.Fib.Canon.Laws.{canonicalize_vrf_idem}
use hammerhead_bench.Batfish.Transform.{
  Fibs, Place, fib_of, merge_if_any, or_else, place_of_item, route_loop, row_place, row_vrf,
  transform_batfish_rows,
}
use hammerhead_bench.Batfish.Transform.Rows.{
  enriched, expected_route, routes_at, row_fits, with_route,
}
use hammerhead_bench.Batfish.Transform.Loops.{
  Holds, enrich, merge_if_any-enrich, route_loop-Holds, route_loop-is_ok, rows_of,
}

abbrev pub node_place : NodeFib → Place
node_place f = (f.node, f.vrf)

abbrev same : Place → Place
same place = place

-- The FIBs stand in the order of their places, one for each place that the rows give a route. Each
-- is the canonical form of the routes that the rows give its place, with the attributes of the
-- best BGP rows.
pub record IsTransformed (route_rows : List (Dict Text Json))
    (bgp_rows : Option (List (Dict Text Json))) (fibs : List NodeFib) : Type 0 where
  pub sorted : IsSorted same (map node_place fibs)
  pub distinct : Distinct (map node_place fibs)
  pub covered :
      (place : Place)
      → contains place (map node_place fibs) ≡ not (is_empty (routes_at place route_rows))
  pub expected :
      All
        (λ (f : NodeFib).
          f
          ≡ fib_of (
            node_place f,
            map (enriched (rows_of bgp_rows) (node_place f)) (routes_at (node_place f) route_rows),
          ))
        fibs

row_place_vrf : (row : Dict Text Json) → canonicalize_vrf (row_place row).1 ≡ (row_place row).1
unfolding row_place row_vrf
row_place_vrf row = canonicalize_vrf_idem (str_of (or_else (look (codes "VRF") row) (text default)))

-- A place with routes has a canonical VRF.
vrf_of_routes :
    (place : Place) (rows : List (Dict Text Json))
    → is_empty (routes_at place rows) ≡ false
    → canonicalize_vrf place.1 ≡ place.1
unfolding routes_at is_empty
vrf_of_routes place [] h = cc
vrf_of_routes place (row ∷ rows) h =
    go (place == row_place row) refl (expected_route row) h (vrf_of_routes place rows)
  where
    go :
        (here : Bool)
        → (place == row_place row) ≡ here
        → (found : Option Route) → is_empty (with_route here found (routes_at place rows)) ≡ false
        → (is_empty (routes_at place rows) ≡ false → canonicalize_vrf place.1 ≡ place.1)
        → canonicalize_vrf place.1 ≡ place.1
    go here e none k ih = ih k
    go false e (some r) k ih = ih k
    go true e (some r) k ih =
        subst (λ (p : Place). canonicalize_vrf p.1 ≡ p.1) (sym ((==_iff place (row_place row)).0 e))
          (row_place_vrf row)

-- What is known of an item before it is sorted.
abbrev Expected : List (Dict Text Json) → List (Dict Text Json) → Place × List Route → Type 0
Expected route_rows bgp_rows entry =
    (canonicalize_vrf entry.0.1 ≡ entry.0.1)
    × (entry.1 ≡ map (enriched bgp_rows entry.0) (routes_at entry.0 route_rows))

item-Expected :
    (route_rows bgp_rows : List (Dict Text Json)) (fibs : Fibs)
    → Holds (λ place. []) route_rows fibs
    → (entry : Place × List Route) → get entry.0 fibs ≡ some entry.1
    → Expected route_rows bgp_rows (enrich bgp_rows entry)
unfolding enrich group
item-Expected route_rows bgp_rows fibs h (place, routes) found =
    let e : routes ≡ routes_at place route_rows = ground (arith, h.routes place) in
    (
      vrf_of_routes place route_rows (ground (arith, h.none_empty place)),
      ap (λ (rs : List Route). map (enriched bgp_rows place) rs) e,
    )

-- An item that is as expected yields the FIB of its place.
node_place-fib_of :
    (entry : Place × List Route)
    → canonicalize_vrf entry.0.1 ≡ entry.0.1
    → node_place (fib_of entry) ≡ entry.0
unfolding fib_of canonicalize_node_fib
node_place-fib_of ((node, vrf), routes) h = ap (λ (v : Text). (node, v)) h

module _ (route_rows bgp_rows : List (Dict Text Json)) where
  places-fib_of :
      (items : Fibs)
      → All (Expected route_rows bgp_rows) items
      → map node_place (map fib_of items) ≡ keys items
  places-fib_of [] h = refl
  places-fib_of (entry ∷ items) h =
      ap₂ (λ (p : Place) (ps : List Place). p ∷ ps) (node_place-fib_of entry h.0.0)
        (places-fib_of items h.1)

  fibs-Expected :
      (items : Fibs)
      → All (Expected route_rows bgp_rows) items
      → All
          (λ (f : NodeFib).
            f
            ≡ fib_of (
              node_place f,
              map (enriched bgp_rows (node_place f)) (routes_at (node_place f) route_rows),
            ))
          (map fib_of items)
  fibs-Expected [] h = tt
  fibs-Expected ((place, routes) ∷ items) h = (
    (let e : place ≡ node_place (fib_of (place, routes)) =
          sym (node_place-fib_of (place, routes) h.0.0) in
        ap (λ (rs : List Route). fib_of (place, rs)) h.0.1
        ∙ ap (λ (p : Place). fib_of (p, map (enriched bgp_rows p) (routes_at p route_rows))) e),
    fibs-Expected items h.1,
  )

keys-enrich :
    (rows : List (Dict Text Json)) (fibs : Fibs) → keys (map (enrich rows) fibs) ≡ keys fibs
unfolding enrich
keys-enrich rows [] = refl
keys-enrich rows ((place, routes) ∷ fibs) =
    ap (λ (ps : List Place). place ∷ ps) (keys-enrich rows fibs)

keys-insert :
    (entry : Place × List Route) (items : Fibs)
    → keys (insert place_of_item entry items) ≡ insert same entry.0 (keys items)
unfolding insert
keys-insert (p, rs) [] = refl
keys-insert (p, rs) ((q, qs) ∷ items) = ground (arith, keys-insert (p, rs) items)

keys-sort : (items : Fibs) → keys (sort place_of_item items) ≡ sort same (keys items)
unfolding sort
keys-sort [] = refl
keys-sort ((p, rs) ∷ items) =
    keys-insert (p, rs) (sort place_of_item items)
    ∙ ap (λ (ps : List Place). insert same p ps) (keys-sort items)

sorted_items :
    (route_rows bgp_rows : List (Dict Text Json)) (fibs : Fibs)
    → Holds (λ place. []) route_rows fibs
    → All (Expected route_rows bgp_rows) (sort place_of_item (map (enrich bgp_rows) fibs))
sorted_items route_rows bgp_rows fibs h =
    All-sort place_of_item (Expected route_rows bgp_rows) (map (enrich bgp_rows) fibs) (
      All-map place_of_item (Expected route_rows bgp_rows) (enrich bgp_rows) fibs (
        All-imp (λ (entry : Place × List Route). get entry.0 fibs ≡ some entry.1)
          (λ entry. Expected route_rows bgp_rows (enrich bgp_rows entry)) fibs
          (item-Expected route_rows bgp_rows fibs h) (get-items fibs h.is_dict)))

places-sorted :
    (route_rows bgp_rows : List (Dict Text Json)) (fibs : Fibs)
    → Holds (λ place. []) route_rows fibs
    → map node_place (map fib_of (sort place_of_item (map (enrich bgp_rows) fibs)))
      ≡ sort same (keys fibs)
places-sorted route_rows bgp_rows fibs h =
    places-fib_of route_rows bgp_rows (sort place_of_item (map (enrich bgp_rows) fibs))
      (sorted_items route_rows bgp_rows fibs h)
    ∙ keys-sort (map (enrich bgp_rows) fibs)
    ∙ ap (λ (ps : List Place). sort same ps) (keys-enrich bgp_rows fibs)

sorted_fibs-IsTransformed :
    (route_rows : List (Dict Text Json)) (bgp_rows : Option (List (Dict Text Json))) (fibs : Fibs)
    → Holds (λ place. []) route_rows fibs
    → IsTransformed route_rows bgp_rows
        (map fib_of (sort place_of_item (map (enrich (rows_of bgp_rows)) fibs)))
unfolding group
sorted_fibs-IsTransformed route_rows bgp_rows fibs h =
    let places = places-sorted route_rows (rows_of bgp_rows) fibs h in
    record {
      sorted =
          subst (λ (ps : List Place). IsSorted same ps) (sym places)
            (sort-IsSorted same (keys fibs));
      distinct =
          subst (λ (ps : List Place). Distinct ps) (sym places)
            (sort-Distinct same (keys fibs) h.is_dict);
      covered = λ place.
          ap (λ (ps : List Place). contains place ps) places
          ∙ contains-sort same place (keys fibs)
          ∙ contains-keys place fibs
          ∙ h.none_empty place
          ∙ ap (λ (rs : List Route). not (is_empty rs)) (h.routes place);
      expected =
          fibs-Expected route_rows (rows_of bgp_rows)
            (sort place_of_item (map (enrich (rows_of bgp_rows)) fibs))
            (sorted_items route_rows (rows_of bgp_rows) fibs h);
    }

-- If the transform of the rows ends with FIBs, these stand in the order of their places, one for
-- each place that a row in scope names. Each is the canonical form of the routes of the rows that
-- name its place, in their order, where a BGP route has the attributes of the last row of the BGP
-- table that is marked as the best for its place and prefix.
pub transform_batfish_rows-IsTransformed :
    (route_rows : List (Dict Text Json)) (bgp_rows : Option (List (Dict Text Json)))
    (fibs : List NodeFib)
    → transform_batfish_rows route_rows bgp_rows ≡ ok fibs
    → IsTransformed route_rows bgp_rows fibs
unfolding transform_batfish_rows get is_empty
transform_batfish_rows-IsTransformed route_rows bgp_rows fibs h =
    go (route_loop [] route_rows) refl h
  where
    go :
        (r : Result Fibs)
        → route_loop [] route_rows ≡ r
        → (r >>= λ loaded. ok (map fib_of (sort place_of_item (merge_if_any loaded bgp_rows))))
          ≡ ok fibs
        → IsTransformed route_rows bgp_rows fibs
    go (raise e) q k = cc
    go (ok loaded) q k =
        subst (λ (fs : List NodeFib). IsTransformed route_rows bgp_rows fs)
          (cc (merge_if_any-enrich loaded bgp_rows))
          (sorted_fibs-IsTransformed route_rows bgp_rows loaded
            (route_loop-Holds [] route_rows loaded tt (λ place. refl) q))

-- The transform ends with FIBs exactly if every row in scope has a label that `Route` accepts: a
-- label that is not known is never dropped, and neither is EIGRP.
pub transform_batfish_rows-is_ok :
    (route_rows : List (Dict Text Json)) (bgp_rows : Option (List (Dict Text Json)))
    → is_ok (transform_batfish_rows route_rows bgp_rows) ≡ all row_fits route_rows
unfolding transform_batfish_rows
transform_batfish_rows-is_ok route_rows bgp_rows = ground (arith, route_loop-is_ok [] route_rows)
