-- ===== src/Drivers/Hammerhead.antt =====
-- harness/tools/hammerhead.py: `run_hammerhead` and the runner of its subprocess. The exit code of the
-- subprocess, what `json.loads` makes of its output, the times and the memory reading are arguments.
-- The binary is found and files can be written.
pub mod Laws
use hammerhead_bench.Prelude.{
  Bool, List, Option, Text, [], all, codes, contains, false, if◌then◌else◌, is_empty, is_some,
  length, list_eq, map, none, not, pair_eq, pos, some, strip, true, ℕ, ℕ_eq, ℤ, ℤ_eq, ◌&&◌, ◌+◌,
  ◌==◌, ◌∷◌,
}
use hammerhead_bench.Prelude.Order.{text_order}
use hammerhead_bench.Prelude.Sort.{sort}
use hammerhead_bench.Prelude.Dict.{Dict, get, keys}
use hammerhead_bench.Prelude.Items.{put_all}
use hammerhead_bench.Json.{Json, as_dict, is_json_true, look, text, truthy}
use hammerhead_bench.Json.Words.{str_of}
use hammerhead_bench.Json.Fields.{Result, Validation, iterate, ok, raise, runtime_error, ◌>>=◌}
use hammerhead_bench.Fib.{NodeFib}
use hammerhead_bench.Convert.Hammerhead.{transform_rib_view}
use hammerhead_bench.Pipeline.Coverage.{CoverageVerdict}

-- `EXIT_COVERAGE_DEGRADED`
abbrev pub exit_coverage_degraded : ℤ
exit_coverage_degraded = pos 3

-- `_parse_json`, on what `json.loads` returns; `none` is its `JSONDecodeError`.
unfoldable pub parse_json : Option Json → Result (Dict Text Json)
parse_json none = raise runtime_error
parse_json (some j) = elim (as_dict j) [ none ↦ raise runtime_error | some bulk ↦ ok bulk ]

-- `cov.get("degraded") is True`, for a `coverage` that is a dictionary.
unfoldable pub says_degraded : Dict Text Json → Bool
says_degraded bulk = elim (as_dict (look (codes "coverage") bulk)) [
  | none ↦ false
  | some cov ↦ is_json_true (look (codes "degraded") cov)
]

-- The answer that exit code 3 lets pass.
unfoldable pub degraded_answer : Result (Dict Text Json) → Bool
unfolding says_degraded
degraded_answer (ok bulk) = says_degraded bulk
degraded_answer (raise e) = false

-- `SubprocessHammerheadRunner.simulate_emit_rib_all`
unfoldable pub simulate_emit_rib_all : ℤ → Option Json → Result (Dict Text Json)
unfolding parse_json degraded_answer
simulate_emit_rib_all rc out =
    if rc == exit_coverage_degraded && degraded_answer (parse_json out)
    then parse_json out
    else if not (rc == pos 0)
    then raise runtime_error
    else parse_json out

-- The host of an entry: its own `hostname`, if that is a text and not blank, else its key.
unfoldable pub host_of : Text → Dict Text Json → Text
host_of k view = elim (look (codes "hostname") view) [
  | text nested ↦ if is_empty (strip nested) then strip k else strip nested
  | _ ↦ strip k
]

-- The loop of `_extract_rib_map`, before its items are put in.
unfoldable pub rib_items : Dict Text Json → List (Text × Dict Text Json)
unfolding host_of
rib_items [] = []
rib_items ((k, j) ∷ rib) =
    let rest = rib_items rib in
    if is_empty (strip k)
    then rest
    else elim (as_dict j) [ none ↦ rest | some view ↦ (host_of k view, view) ∷ rest ]

-- `_extract_rib_map`
unfoldable pub extract_rib_map : Dict Text Json → Dict Text (Dict Text Json)
unfolding rib_items
extract_rib_map bulk = elim (as_dict (look (codes "rib") bulk)) [
  | none ↦ []
  | some rib ↦ put_all (rib_items rib) []
]

-- `{h.strip() for h in expected_hostnames if h and h.strip()}`, before it is a set.
unfoldable pub named_hosts : List Text → List Text
named_hosts [] = []
named_hosts (h ∷ hs) =
    let rest = named_hosts hs in if is_empty (strip h) then rest else strip h ∷ rest

-- The check that no expected host is missing.
unfoldable pub check_expected : Option (List Text) → Dict Text (Dict Text Json) → Result Bool
unfolding named_hosts
check_expected none rib_map = ok true
check_expected (some expected) rib_map =
    if all (λ h. contains h (keys rib_map)) (named_hosts expected)
    then ok true
    else raise runtime_error

-- `[str(b) for b in coverage.get("blockers") or []]`
unfoldable pub blockers_of : Dict Text Json → Result (List Text)
blockers_of cov =
    let blockers = look (codes "blockers") cov in
    if truthy blockers then (do js ← iterate blockers; ok (map str_of js)) else ok []

-- The warning of a degraded answer reads the blockers.
unfoldable pub warn : Dict Text Json → Result Bool
unfolding says_degraded blockers_of
warn bulk =
    if says_degraded bulk
    then (do
      bs ← elim (as_dict (look (codes "coverage") bulk)) [
        | none ↦ ok []
        | some cov ↦ blockers_of cov
      ]
      ok true)
    else ok true

-- The `coverage_*` fields; an empty dictionary counts as absent.
unfoldable pub verdict_of : Option (Dict Text Json) → Result CoverageVerdict
unfolding blockers_of
verdict_of none = ok (record { status = none; degraded = none; blockers = none })
verdict_of (some []) = ok (record { status = none; degraded = none; blockers = none })
verdict_of (some (entry ∷ entries)) = do
  bs ← blockers_of (entry ∷ entries)
  ok (record {
    status = elim (get (codes "status") (entry ∷ entries)) [
      | none ↦ none
      | some j ↦ some (str_of j)
    ];
    degraded = elim (get (codes "degraded") (entry ∷ entries)) [
      | none ↦ none
      | some j ↦ some (truthy j)
    ];
    blockers = some bs;
  })

-- `PeakRssReading`, and what the clock says.
pub record PeakRssReading : Type 0 where
  pub mb : Option ℕ
  pub sample_count : ℕ
  pub source : Text

pub record Clock : Type 0 where
  pub sim_s : ℕ
  pub total_s : ℕ

-- `HammerheadStats`
pub record HammerheadStats : Type 0 where
  pub simulate_s : ℕ
  pub rib_total_s : ℕ
  pub device_count : ℕ
  pub total_routes : ℕ
  pub total_s : ℕ
  pub peak_rss_mb : Option ℕ
  pub peak_rss_source : Option Text
  pub peak_rss_sample_count : ℕ
  pub coverage : CoverageVerdict

-- `sum` of the routes, and the files by node and VRF: a later file replaces an earlier one.
unfoldable pub count_routes : List NodeFib → ℕ
count_routes [] = 0
count_routes (fib ∷ fibs) = length fib.routes + count_routes fibs

abbrev pub place_of : NodeFib → (Text × Text) × NodeFib
place_of fib = ((fib.node, fib.vrf), fib)

unfoldable pub stats_of :
    Clock → PeakRssReading → ℕ → List NodeFib → CoverageVerdict → HammerheadStats
unfolding count_routes
stats_of clock peak devices fibs verdict = record {
  simulate_s = clock.sim_s;
  rib_total_s = 0;
  device_count = devices;
  total_routes = count_routes fibs;
  total_s = clock.total_s;
  peak_rss_mb = peak.mb;
  peak_rss_source = if is_some peak.mb then some peak.source else none;
  peak_rss_sample_count = peak.sample_count;
  coverage = verdict;
}

abbrev pub same_host : Text → Text
same_host h = h

module _ (v : Validation) where
  -- The loop over the hosts; a host that is not in the map is not asked for.
  unfoldable pub transform_all : Dict Text (Dict Text Json) → List Text → Result (List NodeFib)
  unfolding transform_rib_view
  transform_all rib_map [] = ok []
  transform_all rib_map (h ∷ hosts) = do
    fib ←
        transform_rib_view v (elim (get h rib_map) [ none ↦ [] | some view ↦ view ])
          (codes "default")
    fibs ← transform_all rib_map hosts
    ok (fib ∷ fibs)

  -- From the response on.
  unfoldable pub score_response :
      Clock
      → PeakRssReading
      → Option (List Text)
      → Dict Text Json
      → Result (HammerheadStats × Dict (Text × Text) NodeFib)
  unfolding extract_rib_map warn check_expected transform_all verdict_of stats_of
  score_response clock peak expected bulk = do
    warned ← warn bulk
    complete ← check_expected expected (extract_rib_map bulk)
    fibs ← transform_all (extract_rib_map bulk) (sort same_host (keys (extract_rib_map bulk)))
    verdict ← verdict_of (as_dict (look (codes "coverage") bulk))
    ok (
      stats_of clock peak (length (sort same_host (keys (extract_rib_map bulk)))) fibs verdict,
      put_all (map place_of fibs) [],
    )

  unfoldable pub run_hammerhead :
      Clock
      → PeakRssReading
      → Option (List Text)
      → ℤ
      → Option Json
      → Result (HammerheadStats × Dict (Text × Text) NodeFib)
  unfolding simulate_emit_rib_all score_response
  run_hammerhead clock peak expected rc out = do
    bulk ← simulate_emit_rib_all rc out
    score_response clock peak expected bulk
