-- ===== src/Batfish/Transform/Rows.antt =====
-- harness/tools/batfish.py: which rows count, and what each place and each cell should get.
use hammerhead_bench.Prelude.{
  Bool, List, Option, Text, [], codes, contains, false, if◌then◌else◌, is_some, list_eq, none, not,
  pair_eq, refl, some, true, ℕ_eq, ◌&&◌, ◌==◌, ◌∷◌, ◌≡◌,
}
use hammerhead_bench.Prelude.Dict.{Dict, get}
use hammerhead_bench.Json.{Json}
use hammerhead_bench.Json.Fields.{Result, is_ok, ok, raise, validation_error, value_error}
use hammerhead_bench.Fib.{Protocol, Protocol_eq, Route, bgp}
use hammerhead_bench.Batfish.Transform.{
  Label, Place, batfish_protocol_map, built_route, cell_text, eigrp, is_best, is_unplaced, known,
  map_batfish_protocol, normal_label, row_label, row_place, row_route, row_to_route, with_best,
}

abbrev pub skipped_labels : List Text
skipped_labels = codes "kernel" ∷ codes "unknown" ∷ []

abbrev pub accepted : Option Label → Option Protocol
accepted none = none
accepted (some eigrp) = none
accepted (some (known p)) = some p

-- A row has a node, a prefix and a label that is not skipped.
abbrev pub in_scope : Dict Text Json → Bool
in_scope row = not (is_unplaced row) && not (contains (normal_label (row_label row)) skipped_labels)

-- The protocol of a row's label, for a label of `Route`.
abbrev pub row_protocol : Dict Text Json → Option Protocol
row_protocol row = accepted (get (normal_label (row_label row)) batfish_protocol_map)

abbrev pub row_fits : Dict Text Json → Bool
row_fits row = if in_scope row then is_some (row_protocol row) else true

abbrev pub built {ℓ} : {A : Type ℓ} → (Protocol → A) → Option Protocol → Option A
built f none = none
built f (some p) = some (f p)

abbrev pub expected_route : Dict Text Json → Option Route
expected_route row = if in_scope row then built (built_route row) (row_protocol row) else none

-- What `_row_to_route` does once its three tests are known.
abbrev outcome : Dict Text Json → Bool → Bool → Option Label → Result (Place × Option Route)
outcome row true skipped mapped = ok (row_place row, none)
outcome row false true mapped = ok (row_place row, none)
outcome row false false none = raise value_error
outcome row false false (some eigrp) = raise validation_error
outcome row false false (some (known p)) = ok (row_place row, some (built_route row p))

row_to_route_lem :
    (row : Dict Text Json) (unplaced skipped : Bool) (mapped : Option Label)
    → is_unplaced row ≡ unplaced
    → contains (normal_label (row_label row)) skipped_labels ≡ skipped
    → get (normal_label (row_label row)) batfish_protocol_map ≡ mapped
    → row_to_route row ≡ outcome row unplaced skipped mapped
unfolding row_to_route map_batfish_protocol row_route
row_to_route_lem row true skipped mapped e f g = rw e
row_to_route_lem row false true mapped e f g = rw (e, f)
row_to_route_lem row false false none e f g = rw (e, f, g)
row_to_route_lem row false false (some eigrp) e f g = rw (e, f, g)
row_to_route_lem row false false (some (known p)) e f g = rw (e, f, g)

-- What is known of the answer for a row: when there is one, and which.
abbrev RowView : Dict Text Json → Result (Place × Option Route) → Bool → Option Route → Type 0
RowView row r fits route =
    (is_ok r ≡ fits)
    × ((parsed : Place × Option Route)
        → r ≡ ok parsed
        → (parsed.0 ≡ row_place row) × (parsed.1 ≡ route))

outcome-view :
    (row : Dict Text Json) (unplaced skipped : Bool) (mapped : Option Label)
    → RowView row
        (outcome row unplaced skipped mapped)
        (if not unplaced && not skipped then is_some (accepted mapped) else true)
        (if not unplaced && not skipped then built (built_route row) (accepted mapped) else none)
outcome-view row true skipped mapped = (refl, λ parsed h. (cc, cc))
outcome-view row false true mapped = (refl, λ parsed h. (cc, cc))
outcome-view row false false none = (refl, λ parsed h. (cc, cc))
outcome-view row false false (some eigrp) = (refl, λ parsed h. (cc, cc))
outcome-view row false false (some (known p)) = (refl, λ parsed h. (cc, cc))

pub row_view :
    (row : Dict Text Json) → RowView row (row_to_route row) (row_fits row) (expected_route row)
row_view row =
    rw
      (row_to_route_lem row (is_unplaced row)
        (contains (normal_label (row_label row)) skipped_labels)
        (get (normal_label (row_label row)) batfish_protocol_map) refl refl refl)
      (outcome-view row (is_unplaced row) (contains (normal_label (row_label row)) skipped_labels)
        (get (normal_label (row_label row)) batfish_protocol_map))

abbrev pub with_route : Bool → Option Route → List Route → List Route
with_route here none rest = rest
with_route here (some r) rest = if here then r ∷ rest else rest

-- The routes that the rows should give a place, in order.
unfoldable pub routes_at : Place → List (Dict Text Json) → List Route
routes_at place [] = []
routes_at place (row ∷ rows) =
    with_route (place == row_place row) (expected_route row) (routes_at place rows)

-- The row has a status of BEST, and the cell is its node, VRF and prefix.
abbrev pub is_best_of : Place × Text → Dict Text Json → Bool
is_best_of cell row =
    is_best row && not (is_unplaced row) && cell == (row_place row, cell_text (codes "Network") row)

abbrev pub first_some {ℓ} : {A : Type ℓ} → Option A → Option A → Option A
first_some (some a) other = some a
first_some none other = other

-- The last of the rows that is the best one of a cell.
unfoldable pub last_best : Place × Text → List (Dict Text Json) → Option (Dict Text Json)
last_best cell [] = none
last_best cell (row ∷ rows) =
    first_some (last_best cell rows) (if is_best_of cell row then some row else none)

-- A BGP route takes the attributes of the last best row of its cell.
abbrev pub enriched : List (Dict Text Json) → Place → Route → Route
enriched bgp_rows place r =
    if r.protocol == bgp then with_best r (last_best (place, r.prefix) bgp_rows) else r
