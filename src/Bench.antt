-- ===== src/Bench.antt =====
-- harness/cli.py: the three loops of `bench` over the topologies and their summaries. What each run
-- meets stands in a record by topology. The result files can be written, and what is printed is
-- left out.
pub mod Command
pub mod Laws
pub mod Outcome
use hammerhead_bench.Prelude.{
  Bool, List, Option, Text, [], filter, if◌then◌else◌, is_empty, length, list_eq, map, none, some,
  suc, zero, ℕ, ℕ_eq, ◌++◌, ◌∷◌,
}
use hammerhead_bench.Prelude.Order.{text_order}
use hammerhead_bench.Json.Fields.{Result, ok, raise, runtime_error}
use hammerhead_bench.Diff.Metrics.{TopologyMetrics, batfish, hammerhead}
use hammerhead_bench.Diff.Metrics.Corpus.{CorpusMetrics, aggregate_many}
use hammerhead_bench.Topologies.{Node, TopologySpec}
use hammerhead_bench.Pipeline.Coverage.{
  CoverageFields, CoverageSummary, is_false, summarize_hammerhead_coverage,
}
use hammerhead_bench.Pipeline.Run.{
  Ending, Fates, Hooks, Run, has_passed, raised, returned, run_topology,
}
use hammerhead_bench.Pipeline.Trials.{Trial}
use hammerhead_bench.Pipeline.SimOnlyRun.{BenchHooks, SimOnlyResult, World, run_topology_sim_only}
use hammerhead_bench.Pipeline.SimOnlyRun.Laws.{is_passed}
use hammerhead_bench.Pipeline.Corpus.{Scored, SimOnlyCorpus, aggregate_sim_only}
use hammerhead_bench.Pipeline.ThreeWay.{AddedKeys, ThreeWayAgreement, as_dict, three_way}
use hammerhead_bench.Pipeline.TruthRun.{FrrOnlyTruthResult, TruthWorld, run_topology_frr_only_truth}

-- What a loop gathers: the results, with the names of their topologies, and `failed`.
pub record Gathered (R : Type 0) : Type 0 where
  pub results : List (Text × R)
  pub failed_topologies : List Text

-- One pass of the loop: an exception counts as a failure and leaves no result.
unfoldable pub gather : {R : Type 0} → (R → Bool) → Text → Result R → Gathered R → Gathered R
gather passes name (raise e) g = record g { failed_topologies = name ∷ g.failed_topologies }
gather passes name (ok r) g = record {
  results = (name, r) ∷ g.results;
  failed_topologies = if passes r then g.failed_topologies else name ∷ g.failed_topologies;
}

-- The loop over the selected topologies.
unfoldable pub bench_loop :
    {R : Type 0} → (TopologySpec → Result R) → (R → Bool) → List TopologySpec → Gathered R
unfolding gather
bench_loop run passes [] = record { results = []; failed_topologies = [] }
bench_loop run passes (spec ∷ selected) =
    gather passes spec.name (run spec) (bench_loop run passes selected)

-- What a run in the lab meets, with the metrics and the verdict that it leaves.
pub record LabWorld : Type 0 where
  pub has_driver : Bool
  pub fates : Fates
  pub ending : Ending
  pub metrics : TopologyMetrics
  pub coverage : CoverageFields

-- The run of a lab has metrics exactly if it has compared the FIBs.
pub record LabResult : Type 0 where
  pub run : Run
  pub metrics : Option TopologyMetrics
  pub coverage : CoverageFields

-- What the runs meet, topology by topology: the reports of each trial, the rest of a head-to-head
-- run, the world of a run with FRR alone, and the lab.
pub record BenchWorld : Type 0 where
  pub trial : TopologySpec → ℕ → Trial
  pub sim : TopologySpec → World
  pub truth : TopologySpec → TruthWorld
  pub lab : TopologySpec → LabWorld

-- `if result.agreement is not None`
unfoldable pub agreements : List (Text × SimOnlyResult) → List Scored
agreements [] = []
agreements ((topology, r) ∷ results) =
    let rest = agreements results in
    elim r.agreement [ none ↦ rest | some a ↦ (topology, a) ∷ rest ]

-- The trials of one topology, as many as asked for.
unfoldable pub trial_list : (ℕ → Trial) → ℕ → List Trial
trial_list trial zero = []
trial_list trial (suc n) = trial_list trial n ++ trial n ∷ []

abbrev pub sim_world : BenchWorld → ℕ → TopologySpec → World
sim_world w trials spec = record (w.sim spec) {
  trials = trial_list (w.trial spec) trials;
  templates = map (λ (n : Node). n.templates) spec.nodes;
}

abbrev pub run_sim_only : BenchHooks → BenchWorld → ℕ → TopologySpec → Result SimOnlyResult
run_sim_only hooks w trials spec = run_topology_sim_only hooks (sim_world w trials spec)

-- The summary that a bench run writes, by its mode.
pub data BenchSummary : Type 0 where
  sim_only_summary : SimOnlyCorpus → BenchSummary
  truth_summary : ℕ → ℕ → ℕ → CoverageSummary → Option SimOnlyCorpus → List AddedKeys → BenchSummary
  lab_summary : CorpusMetrics → CoverageSummary → Option CorpusMetrics → BenchSummary

-- `summary`, with `failed_topologies`.
pub record Report : Type 0 where
  pub summary : BenchSummary
  pub failed_topologies : List Text

-- `_run_bench_sim_only`
unfoldable pub run_bench_sim_only : ℕ → BenchHooks → BenchWorld → ℕ → List TopologySpec → Report
unfolding bench_loop agreements
run_bench_sim_only units hooks w trials selected =
    let g =
      bench_loop (run_sim_only hooks w trials) (λ (r : SimOnlyResult). is_passed r.status)
        selected in
    record {
      summary = sim_only_summary (aggregate_sim_only units (agreements g.results));
      failed_topologies = g.failed_topologies;
    }

-- `three_way` and `sim_only_agrees`
unfoldable pub three_ways : List (Text × FrrOnlyTruthResult) → List (Text × ThreeWayAgreement)
three_ways [] = []
three_ways ((topology, r) ∷ results) =
    let rest = three_ways results in
    elim r.three_way_agreement [ none ↦ rest | some a ↦ (topology, a) ∷ rest ]

unfoldable pub sim_only_agrees : List (Text × FrrOnlyTruthResult) → List Scored
sim_only_agrees [] = []
sim_only_agrees ((topology, r) ∷ results) =
    let rest = sim_only_agrees results in
    elim r.sim_only_agreement [ none ↦ rest | some a ↦ (topology, a) ∷ rest ]

abbrev pub run_frr_only_truth : BenchHooks → BenchWorld → TopologySpec → Result FrrOnlyTruthResult
run_frr_only_truth hooks w spec =
    run_topology_frr_only_truth spec hooks (w.truth spec) (w.trial spec 0) (w.sim spec)

-- `_run_bench_frr_only_truth`
unfoldable pub run_bench_frr_only_truth : ℕ → BenchHooks → BenchWorld → List TopologySpec → Report
unfolding bench_loop three_ways sim_only_agrees
run_bench_frr_only_truth units hooks w selected =
    let g =
      bench_loop (run_frr_only_truth hooks w) (λ (r : FrrOnlyTruthResult). is_passed r.status)
        selected in
    let three_way = three_ways g.results in
    let fallbacks = sim_only_agrees g.results in
    record {
      summary =
          truth_summary (length selected) (length three_way) (length fallbacks)
            (summarize_hammerhead_coverage (
              map (λ (t : Text × ThreeWayAgreement). (t.0, t.1.coverage)) three_way
              ++ map (λ (t : Scored). (t.0, t.1.timing.coverage)) fallbacks))
            (if is_empty fallbacks then none else some (aggregate_sim_only units fallbacks))
            (map (λ (t : Text × ThreeWayAgreement). as_dict t.1) three_way);
      failed_topologies = g.failed_topologies;
    }

-- The verdict is read once Hammerhead has run; without it the fields keep their defaults.
abbrev no_coverage : CoverageFields
no_coverage = record {
  status = none;
  degraded = none;
  blockers = none;
  degraded_trials = 0;
  trials = 0;
}

unfoldable pub run_lab : BenchHooks → Bool → BenchWorld → TopologySpec → Result LabResult
run_lab hooks keep_lab_on_failure w spec =
    let l = w.lab spec in
    let lab_hooks : Hooks = record {
      batfish = hooks.has_callable;
      hammerhead = hooks.hammerhead;
    } in
    elim (run_topology l.has_driver lab_hooks l.fates keep_lab_on_failure l.ending) [
      | returned r ↦ ok (record {
        run = r;
        metrics = if r.diff_path then some l.metrics else none;
        coverage = if r.hammerhead_path then l.coverage else no_coverage;
      })
      | raised r ↦ raise runtime_error
    ]

-- `[r for r in results if r.metrics is not None]`
unfoldable pub lab_scored : List (Text × LabResult) → List (Text × TopologyMetrics × CoverageFields)
lab_scored [] = []
lab_scored ((topology, r) ∷ results) =
    let rest = lab_scored results in
    elim r.metrics [ none ↦ rest | some m ↦ (topology, m, r.coverage) ∷ rest ]

abbrev metrics_of : Text × TopologyMetrics × CoverageFields → TopologyMetrics
metrics_of (topology, m, c) = m

abbrev verdict_of : Text × TopologyMetrics × CoverageFields → Text × CoverageFields
verdict_of (topology, m, c) = (topology, c)

abbrev lab_complete : Text × TopologyMetrics × CoverageFields → Bool
lab_complete (topology, m, c) = is_false c.degraded

-- The four means of `_with_truth_coverage_summary`, for the topologies whose verdict is complete.
unfoldable pub complete_lab_means : List TopologyMetrics → Option CorpusMetrics
complete_lab_means [] = none
complete_lab_means (m ∷ ms) = some (aggregate_many (m ∷ ms))

-- `result.status == "passed"`
abbrev pub lab_passed : LabResult → Bool
lab_passed r = has_passed r.run

-- The loop of `bench` itself, with `_with_truth_coverage_summary`.
unfoldable pub run_bench_lab : BenchHooks → Bool → BenchWorld → List TopologySpec → Report
unfolding bench_loop run_lab lab_scored complete_lab_means
run_bench_lab hooks keep_lab_on_failure w selected =
    let g = bench_loop (run_lab hooks keep_lab_on_failure w) lab_passed selected in
    let scored = lab_scored g.results in
    record {
      summary =
          lab_summary (aggregate_many (map metrics_of scored))
            (summarize_hammerhead_coverage (map verdict_of scored))
            (complete_lab_means (map metrics_of (filter lab_complete scored)));
      failed_topologies = g.failed_topologies;
    }
