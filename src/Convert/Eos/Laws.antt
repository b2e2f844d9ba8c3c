-- ===== src/Convert/Eos/Laws.antt =====
-- EOS's table yields one route for each entry in scope, in the order of the table.
use hammerhead_bench.Prelude.{
  Bool, List, Option, Text, [], codes, contains, if◌then◌else◌, is_empty, list_eq, none, not, some,
  ℕ_eq, ◌&&◌, ◌==◌, ◌||◌, ◌∷◌,
}
use hammerhead_bench.Prelude.Dict.{Dict, get}
use hammerhead_bench.Json.{Json, as_dict, is_json_false, look}
use hammerhead_bench.Fib.{NodeFib, Protocol}
use hammerhead_bench.Fib.Canon.{canonicalize_vrf}
use hammerhead_bench.Convert.Scope.{gather, if_in_scope, produced, text_or_empty}
use hammerhead_bench.Convert.Eos.{eos_action, eos_label, eos_protocol_map, eos_protocol_skip}

abbrev pub forwards : Text → Bool
forwards action = action == codes "forward" || action == codes "permit"

-- An entry is in scope if it forwards, is not marked as missing from the kernel, and its label is
-- not on the skip list.
abbrev pub eos_in_scope : Dict Text Json → Bool
eos_in_scope entry =
    forwards (text_or_empty (eos_action entry))
    && not (is_json_false (look (codes "kernelProgrammed") entry))
    && not (contains (text_or_empty (eos_label entry)) eos_protocol_skip)

abbrev pub eos_expected_of : Text → Dict Text Json → List (Text × Option Protocol)
eos_expected_of prefix entry =
    if_in_scope (eos_in_scope entry) prefix (get (text_or_empty (eos_label entry)) eos_protocol_map)

abbrev pub eos_item_expected : Text × Json → List (Text × Option Protocol)
eos_item_expected (prefix, j) = elim (as_dict j) [
  | none ↦ []
  | some entry ↦ eos_expected_of prefix entry
]

-- The name of a FIB's VRF, with its routes.
abbrev pub fib_row : NodeFib → Text × List (Text × Option Protocol)
fib_row fib = (fib.vrf, produced fib.routes)

-- A VRF with a body yields one FIB; routes that are no dictionary count as none.
abbrev pub eos_vrf_expected : Text × Json → List (Text × List (Text × Option Protocol))
eos_vrf_expected (vrf, body) = elim (as_dict body) [
  | none ↦ []
  | some b ↦
      (
        canonicalize_vrf vrf,
        elim (as_dict (look (codes "routes") b)) [
          | none ↦ []
          | some items ↦ gather eos_item_expected items
        ],
      )
      ∷ []
]

-- The VRFs of an output that has them.
abbrev pub vrfs_of : Json → Dict Text Json
vrfs_of j = elim (as_dict j) [
  | none ↦ []
  | some d ↦ elim (as_dict (look (codes "vrfs") d)) [ none ↦ [] | some vrfs ↦ vrfs ]
]

-- The FIBs that should come out: those of the VRFs, or one empty FIB in the default VRF.
abbrev pub eos_expected : Json → List (Text × List (Text × Option Protocol))
eos_expected j =
    let rows = gather eos_vrf_expected (vrfs_of j) in
    if is_empty rows then (codes "default", []) ∷ [] else rows
