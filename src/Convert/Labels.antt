-- ===== src/Convert/Labels.antt =====
-- harness/extract/fib.py: what the two parsers of routing tables do with an entry's label.
use hammerhead_bench.Prelude.{
  List, Option, Text, contains, if◌then◌else◌, list_eq, none, some, ℕ_eq,
}
use hammerhead_bench.Prelude.Dict.{Dict, get}
use hammerhead_bench.Json.Fields.{Result, ok, raise, value_error, ◌>>=◌}
use hammerhead_bench.Fib.{Protocol, Route}

-- A label: `none` if it is on the skip list, an error if it is not in the map either.
unfoldable pub map_label : List Text → Dict Text Protocol → Text → Result (Option Protocol)
map_label skip labels raw =
    if contains raw skip
    then ok none
    else elim (get raw labels) [ none ↦ raise value_error | some protocol ↦ ok (some protocol) ]

-- The route of an entry whose label is mapped; `none` for a label on the skip list.
unfoldable pub labelled_route :
    List Text → Dict Text Protocol → Result Text → (Protocol → Result Route) → Result (Option Route)
unfolding map_label
labelled_route skip labels label make = do
  raw_proto ← label
  mapped ← map_label skip labels raw_proto
  elim mapped [ none ↦ ok none | some protocol ↦ do route ← make protocol; ok (some route) ]
