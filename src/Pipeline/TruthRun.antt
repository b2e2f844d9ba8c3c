-- ===== src/Pipeline/TruthRun.antt =====
-- harness/pipeline.py: `run_topology_frr_only_truth`. What rendering, the hooks and the files do is
-- decided outside; directories can be made.
pub mod Laws
use hammerhead_bench.Prelude.{
  Bool, List, Option, Text, [], codes, false, if◌then◌else◌, is_some, map, none, not, some, true, ℕ,
  ℕ_eq, ◌++◌, ◌+◌, ◌∷◌,
}
use hammerhead_bench.Json.Fields.{Result, ok, raise}
use hammerhead_bench.Topologies.{Node, TopologySpec, frr_only_truth_eligible}
use hammerhead_bench.Pipeline.Coverage.{CoverageVerdict}
use hammerhead_bench.Pipeline.Run.{
  Ending, Fates, Hooks, Status, failed, has_passed, passed, raised, returned, run_topology,
}
use hammerhead_bench.Pipeline.Trials.{Trial, simulate_le_total, simulate_plus_rib}
use hammerhead_bench.Pipeline.SimOnlyRun.{
  Agreement, BenchHooks, SimOnlyResult, World, run_topology_sim_only,
}
use hammerhead_bench.Pipeline.ThreeWay.{
  ThreeWayAgreement, Times, Workspace, compute_three_way_agreement,
}

-- The collector of vendor truth: one that is passed, which returns or raises, or the default one,
-- which brings up the lab by `run_topology` without hooks. The truth value says whether there is a
-- CLI to drive the lab.
pub data Collector : Type 0 where
  injected : Bool → Collector
  containerlab : Bool → Fates → Ending → Collector

abbrev no_hooks : Hooks
no_hooks = record { batfish = false; hammerhead = false }

-- `_default_truth_collector` raises unless `run_topology` returns a run that has passed.
unfoldable pub default_truth_collector : Bool → Fates → Ending → Bool
default_truth_collector has_driver f e = elim (run_topology has_driver no_hooks f false e) [
  | returned r ↦ has_passed r
  | raised r ↦ false
]

unfoldable pub collects : Collector → Bool
unfolding default_truth_collector
collects (injected returns) = returns
collects (containerlab has_driver f e) = default_truth_collector has_driver f e

-- What the sidecar of a simulator says, also if its hook is unset and an earlier run left it.
pub record Sidecar : Type 0 where
  pub simulate_s : Option ℕ
  pub rib_total_s : Option ℕ
  pub total_s : Option ℕ

-- What the run meets: rendering, the collector and its time, each hook's time if it returns, the
-- sidecars, the FIBs that are read back, if they can be, and whether the scores are written.
pub record TruthWorld : Type 0 where
  pub renders : Bool
  pub collector : Collector
  pub truth_wall : ℕ
  pub batfish_wall : Option ℕ
  pub hammerhead_wall : Option ℕ
  pub batfish_stats : Sidecar
  pub hammerhead_stats : Sidecar
  pub hammerhead_coverage : CoverageVerdict
  pub workspace : Option Workspace
  pub writes : Bool

-- `FrrOnlyTruthResult`: paths are set or not, and an error is recorded or not.
pub record FrrOnlyTruthResult : Type 0 where
  pub status : Status
  pub truth_source : Option Text
  pub vendor_truth_path : Bool
  pub batfish_path : Bool
  pub hammerhead_path : Bool
  pub diff_path : Bool
  pub three_way_agreement : Option ThreeWayAgreement
  pub sim_only_agreement : Option Agreement
  pub error : Bool

-- The wrapped result of the head-to-head run.
unfoldable pub wrap : SimOnlyResult → FrrOnlyTruthResult
wrap r = record {
  status = r.status;
  truth_source = none;
  vendor_truth_path = false;
  batfish_path = r.batfish_path;
  hammerhead_path = r.hammerhead_path;
  diff_path = r.diff_path;
  three_way_agreement = none;
  sim_only_agreement = r.agreement;
  error = r.error;
}

abbrev pub begun : FrrOnlyTruthResult
begun = record {
  status = failed;
  truth_source = some (codes "containerlab-frr");
  vendor_truth_path = false;
  batfish_path = false;
  hammerhead_path = false;
  diff_path = false;
  three_way_agreement = none;
  sim_only_agreement = none;
  error = false;
}

-- A hook that is unset has no wall time, whatever it would report.
abbrev pub when_set : Bool → Option ℕ → Option ℕ
when_set b wall = if b then wall else none

unfoldable pub times_of : BenchHooks → TruthWorld → Times
unfolding simulate_plus_rib
times_of hooks w = record {
  truth_wall_s = some w.truth_wall;
  batfish_wall_s = when_set hooks.has_callable w.batfish_wall;
  hammerhead_wall_s = when_set hooks.hammerhead w.hammerhead_wall;
  batfish_simulate_s = w.batfish_stats.simulate_s;
  hammerhead_simulate_s = w.hammerhead_stats.simulate_s;
  hammerhead_rib_total_s = w.hammerhead_stats.rib_total_s;
  hammerhead_simulate_plus_rib_s =
      simulate_plus_rib w.hammerhead_stats.simulate_s w.hammerhead_stats.rib_total_s;
}

-- One trial of Hammerhead, or none.
abbrev pub coverages_of : BenchHooks → TruthWorld → List CoverageVerdict
coverages_of hooks w = if hooks.hammerhead then w.hammerhead_coverage ∷ [] else []

-- The scores of the FIBs that are read back; `none` where they cannot be read or written.
unfoldable pub scores_of :
    BenchHooks → TruthWorld → Option Workspace → Bool → Option ThreeWayAgreement
unfolding compute_three_way_agreement times_of
scores_of hooks w none writes = none
scores_of hooks w (some fibs) false = none
scores_of hooks w (some fibs) true =
    compute_three_way_agreement fibs hooks.loopback_policy (times_of hooks w) (coverages_of hooks w)

-- A step of the `try` block: whether it returns, and what it changes then.
pub record Step : Type 0 where
  pub returns : Bool
  pub change : FrrOnlyTruthResult → FrrOnlyTruthResult

abbrev pub same : FrrOnlyTruthResult → FrrOnlyTruthResult
same r = r

-- A step that is taken only if its hook is set.
abbrev pub step_if : Bool → Step → List Step
step_if b s = if b then s ∷ [] else []

-- `hh_sim is not None and hh_rib is not None`, then the check of their sum.
unfoldable pub sum_fits : Sidecar → Bool
unfolding simulate_le_total
sum_fits s = elim s.simulate_s [
  | none ↦ true
  | some sim ↦ elim s.rib_total_s [
    | none ↦ true
    | some rib ↦ simulate_le_total (some (sim + rib)) s.total_s
  ]
]

-- The steps before the scores, in order. The service is not asked here.
unfoldable pub steps : BenchHooks → TruthWorld → List Step
unfolding collects simulate_le_total sum_fits
steps hooks w =
    record { returns = w.renders; change = same }
    ∷ record { returns = collects w.collector; change = λ r. record r { vendor_truth_path = true } }
    ∷ (step_if hooks.has_callable (record {
      returns = is_some w.batfish_wall;
      change = λ r. record r { batfish_path = true };
    })
        ++ (step_if hooks.hammerhead (record {
          returns = is_some w.hammerhead_wall;
          change = λ r. record r { hammerhead_path = true };
        })
            ++ (record {
              returns = simulate_le_total w.batfish_stats.simulate_s w.batfish_stats.total_s;
              change = same;
            }
                ∷ record {
                  returns =
                      simulate_le_total w.hammerhead_stats.simulate_s w.hammerhead_stats.total_s;
                  change = same;
                }
                ∷ record { returns = sum_fits w.hammerhead_stats; change = same }
                ∷ [])))

abbrev pub errs : FrrOnlyTruthResult → FrrOnlyTruthResult
errs r = record r { error = true }

-- The end of the `try` block.
unfoldable pub conclude : Option ThreeWayAgreement → FrrOnlyTruthResult → FrrOnlyTruthResult
conclude none r = errs r
conclude (some a) r = record r { three_way_agreement = some a; diff_path = true; status = passed }

-- An exception ends the block and leaves the result as it is, with the error.
unfoldable pub try_steps :
    List Step → Option ThreeWayAgreement → FrrOnlyTruthResult → FrrOnlyTruthResult
unfolding conclude
try_steps [] agreement r = conclude agreement r
try_steps (s ∷ ss) agreement r =
    let rest = try_steps ss agreement (s.change r) in if s.returns then rest else errs r

-- The fallback runs one trial, the default number, on the nodes of the spec.
abbrev pub fallback : TopologySpec → Trial → World → World
fallback spec trial sim = record sim {
  trials = trial ∷ [];
  templates = map (λ (n : Node). n.templates) spec.nodes;
}

unfoldable pub run_topology_frr_only_truth :
    TopologySpec → BenchHooks → TruthWorld → Trial → World → Result FrrOnlyTruthResult
unfolding frr_only_truth_eligible run_topology_sim_only wrap steps scores_of try_steps
run_topology_frr_only_truth spec hooks w trial sim =
    if not (frr_only_truth_eligible spec)
    then elim (run_topology_sim_only hooks (fallback spec trial sim)) [
      | ok r ↦ ok (wrap r)
      | raise e ↦ raise e
    ]
    else ok (try_steps (steps hooks w) (scores_of hooks w w.workspace w.writes) begun)
