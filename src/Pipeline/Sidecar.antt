-- ===== src/Pipeline/Sidecar.antt =====
-- harness/pipeline.py: what is read from the statistics that a simulator leaves. A file is missing, or
-- holds what `json.loads` makes of it; `none` is its `JSONDecodeError`.
pub mod Laws
use hammerhead_bench.Prelude.{
  Bool, Option, Text, [], codes, if◌then◌else◌, is_empty, list_eq, map, none, some, ℕ_eq, ℤ, ◌∷◌,
}
use hammerhead_bench.Prelude.Dict.{Dict}
use hammerhead_bench.Json.{
  Json, array, array_of, as_dict, as_list, boolean, is_null, look, null, text,
}
use hammerhead_bench.Json.Words.{int_of, str_of}
use hammerhead_bench.Json.Fields.{Result, attribute_error, ok, raise}
use hammerhead_bench.Pipeline.Coverage.{CoverageVerdict}

pub data File : Type 0 where
  missing : File
  holds : Option Json → File

abbrev pub not_recorded : CoverageVerdict
not_recorded = record { status = none; degraded = none; blockers = none }

-- A text that is not empty, and a Boolean.
unfoldable pub filled_text : Json → Option Text
filled_text (text s) = if is_empty s then none else some s
filled_text _ = none

unfoldable pub as_boolean : Json → Option Bool
as_boolean (boolean b) = some b
as_boolean _ = none

unfoldable pub coverage_in : Dict Text Json → CoverageVerdict
unfolding filled_text as_boolean
coverage_in d = record {
  status = filled_text (look (codes "coverage_status") d);
  degraded = as_boolean (look (codes "coverage_degraded") d);
  blockers = elim (as_list (look (codes "coverage_blockers") d)) [
    | none ↦ none
    | some js ↦ some (map str_of js)
  ];
}

-- `_read_hammerhead_coverage`
unfoldable pub read_hammerhead_coverage : File → CoverageVerdict
unfolding coverage_in
read_hammerhead_coverage missing = not_recorded
read_hammerhead_coverage (holds none) = not_recorded
read_hammerhead_coverage (holds (some j)) = elim (as_dict j) [
  | none ↦ not_recorded
  | some d ↦ coverage_in d
]

-- `_read_str_stat`; what is not an object has no `get`.
unfoldable pub read_str_stat : File → Text → Result (Option Text)
read_str_stat missing key = ok none
read_str_stat (holds none) key = ok none
read_str_stat (holds (some j)) key = elim (as_dict j) [
  | none ↦ raise attribute_error
  | some d ↦
      let s = str_of (look key d) in
      ok (if is_null (look key d) then none else if is_empty s then none else some s)
]

-- `_read_int_stat`
unfoldable pub read_int_stat : File → Text → Result (Option ℤ)
read_int_stat missing key = ok none
read_int_stat (holds none) key = ok none
read_int_stat (holds (some j)) key = elim (as_dict j) [
  | none ↦ raise attribute_error
  | some d ↦ ok (if is_null (look key d) then none else int_of (look key d))
]

-- The coverage fields of `HammerheadStats.as_dict`, as JSON.
unfoldable pub coverage_json : CoverageVerdict → Dict Text Json
coverage_json c =
    (codes "coverage_status", elim c.status [ none ↦ null | some s ↦ text s ])
    ∷ (codes "coverage_degraded", elim c.degraded [ none ↦ null | some b ↦ boolean b ])
    ∷ (
      codes "coverage_blockers",
      elim c.blockers [ none ↦ null | some bs ↦ array (array_of (map text bs)) ],
    )
    ∷ []
