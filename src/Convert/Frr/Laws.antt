-- ===== src/Convert/Frr/Laws.antt =====
-- FRR's table yields one route for each entry in scope, in the order of the table.
use hammerhead_bench.Prelude.{
  Bool, List, Option, Text, [], codes, contains, list_eq, none, not, refl, some, ℕ_eq, ℤ, ◌&&◌, ◌≡◌,
}
use hammerhead_bench.Prelude.Dict.{Dict, get}
use hammerhead_bench.Json.{Json, as_dict, as_list, look, truthy}
use hammerhead_bench.Json.Fields.{
  Result, Validation, collect, iterate_key, lowered, ok, raise, ◌>>=◌,
}
use hammerhead_bench.Fib.{NextHop, Protocol, Route}
use hammerhead_bench.Convert.Scope.{
  IsRouteOf, gather, if_in_scope, label_expected, labelled_route-expected, produced_of,
  text_or_empty,
}
use hammerhead_bench.Convert.Frr.{
  frr_mapped_route, frr_next_hop, frr_protocol_map, frr_protocol_skip, frr_selected_route,
  make_route,
}

-- The lower-case label of an entry.
abbrev pub frr_label : Dict Text Json → Text
frr_label entry = text_or_empty (lowered (look (codes "protocol") entry))

-- An entry is in scope if it is selected and installed and its label is not on the skip list.
abbrev pub frr_in_scope : Dict Text Json → Bool
frr_in_scope entry =
    truthy (look (codes "selected") entry)
    && truthy (look (codes "installed") entry)
    && not (contains (frr_label entry) frr_protocol_skip)

abbrev pub frr_expected_of : Text → Dict Text Json → List (Text × Option Protocol)
frr_expected_of prefix entry =
    if_in_scope (frr_in_scope entry) prefix (get (frr_label entry) frr_protocol_map)

abbrev pub frr_entry_expected : Text → Json → List (Text × Option Protocol)
frr_entry_expected prefix j = elim (as_dict j) [
  | none ↦ []
  | some entry ↦ frr_expected_of prefix entry
]

abbrev pub frr_prefix_expected : Text × Json → List (Text × Option Protocol)
frr_prefix_expected (prefix, entries) = elim (as_list entries) [
  | none ↦ []
  | some es ↦ gather (frr_entry_expected prefix) es
]

pub make_route-IsRouteOf :
    (v : Validation) (prefix : Text) (protocol : Protocol) (nhs : List NextHop) (d m : Json)
    → IsRouteOf prefix protocol (make_route v prefix protocol nhs d m)
unfolding make_route
make_route-IsRouteOf v prefix protocol nhs d m = go (v.int_field d) (v.int_field m)
  where
    go :
        (a b : Result (Option ℤ))
        → IsRouteOf prefix protocol (
            a >>= λ admin. b >>= λ cost. ok (record {
              prefix = prefix;
              protocol = protocol;
              next_hops = nhs;
              admin_distance = admin;
              metric = cost;
              as_path = none;
              local_pref = none;
              med = none;
              communities = none;
            }))
    go (raise e) b = tt
    go (ok a) (raise e) = tt
    go (ok a) (ok b) = (refl, refl)

frr_mapped_route-IsRouteOf :
    (v : Validation) (prefix : Text) (entry : Dict Text Json) (protocol : Protocol)
    → IsRouteOf prefix protocol (frr_mapped_route v prefix entry protocol)
unfolding frr_mapped_route
frr_mapped_route-IsRouteOf v prefix entry protocol = go (iterate_key (codes "nexthops") entry)
  where
    go :
        (hops : Result (List Json))
        → IsRouteOf prefix protocol (
            hops >>= λ h. collect (frr_next_hop v) h >>= λ nhs.
            make_route v prefix protocol nhs
              (look (codes "distance") entry)
              (look (codes "metric") entry))
    go (raise e) = tt
    go (ok h) = go' (collect (frr_next_hop v) h)
      where
        go' :
            (hops : Result (List NextHop))
            → IsRouteOf prefix protocol (
                hops >>= λ nhs.
                make_route v prefix protocol nhs
                  (look (codes "distance") entry)
                  (look (codes "metric") entry))
        go' (raise e) = tt
        go' (ok nhs) =
            make_route-IsRouteOf v prefix protocol nhs (look (codes "distance") entry)
              (look (codes "metric") entry)

pub selected_expected :
    (v : Validation) (prefix : Text) (entry : Dict Text Json) (o : Option Route)
    → frr_selected_route v prefix entry ≡ ok o
    → label_expected frr_protocol_skip frr_protocol_map prefix (frr_label entry) ≡ produced_of o
unfolding frr_selected_route
selected_expected v prefix entry o h =
    labelled_route-expected frr_protocol_skip frr_protocol_map prefix
      (lowered (look (codes "protocol") entry)) (frr_mapped_route v prefix entry) o
      (frr_mapped_route-IsRouteOf v prefix entry) h
