-- ===== src/Pipeline/ThreeWay.antt =====
-- harness/pipeline.py: `_compute_three_way_agreement`, on the FIBs of the routers, of Batfish and of
-- Hammerhead, and the ratios of `ThreeWayAgreement.as_dict`. A time is a number of microseconds.
pub mod Laws
use hammerhead_bench.Prelude.{List, Option, if◌then◌else◌, length, ltb, none, some, ℕ, ℕ_eq, ◌>>=◌}
use hammerhead_bench.Prelude.Ratio.{Ratio}
use hammerhead_bench.Fib.{LoopbackPolicy, NodeFib}
use hammerhead_bench.Diff.Key.{Index, RouteKey_eq}
use hammerhead_bench.Pipeline.Loopback.{sim_only_index}
use hammerhead_bench.Pipeline.Pairwise.{Pairwise, pairwise_agreement}
use hammerhead_bench.Pipeline.Coverage.{CoverageFields, CoverageVerdict, rollup_hammerhead_coverage}

-- `DiffWorkspace`
pub record Workspace : Type 0 where
  pub vendor : List NodeFib
  pub batfish : List NodeFib
  pub hammerhead : List NodeFib

-- The times among the arguments, which the result repeats.
pub record Times : Type 0 where
  pub truth_wall_s : Option ℕ
  pub batfish_wall_s : Option ℕ
  pub hammerhead_wall_s : Option ℕ
  pub batfish_simulate_s : Option ℕ
  pub hammerhead_simulate_s : Option ℕ
  pub hammerhead_rib_total_s : Option ℕ
  pub hammerhead_simulate_plus_rib_s : Option ℕ

-- `ThreeWayAgreement`, where a triad of scores is a record of its own.
pub record ThreeWayAgreement : Type 0 where
  pub truth_routes : ℕ
  pub batfish_routes : ℕ
  pub hammerhead_routes : ℕ
  pub times : Times
  pub batfish_vs_truth : Pairwise
  pub hammerhead_vs_truth : Pairwise
  pub batfish_vs_hammerhead : Pairwise
  pub coverage : CoverageFields

-- `none` is the exception of a comparison.
unfoldable pub three_way :
    Index → Index → Index → Times → List CoverageVerdict → Option ThreeWayAgreement
unfolding pairwise_agreement
three_way truth_ix batfish_ix hammer_ix times coverages = do
  bt ← pairwise_agreement batfish_ix truth_ix
  ht ← pairwise_agreement hammer_ix truth_ix
  bh ← pairwise_agreement batfish_ix hammer_ix
  some (record {
    truth_routes = length truth_ix;
    batfish_routes = length batfish_ix;
    hammerhead_routes = length hammer_ix;
    times = times;
    batfish_vs_truth = bt;
    hammerhead_vs_truth = ht;
    batfish_vs_hammerhead = bh;
    coverage = rollup_hammerhead_coverage coverages;
  })

-- The indexes, then their comparison; the policy is applied to all three.
unfoldable pub compute_three_way_agreement :
    Workspace → LoopbackPolicy → Times → List CoverageVerdict → Option ThreeWayAgreement
unfolding three_way
compute_three_way_agreement w loopback_policy times coverages =
    three_way (sim_only_index w.vendor loopback_policy) (sim_only_index w.batfish loopback_policy)
      (sim_only_index w.hammerhead loopback_policy) times coverages

-- `a / b`, unless one is missing or `b` is not positive.
unfoldable pub quotient_of : Option ℕ → Option ℕ → Option Ratio
quotient_of (some a) (some b) = if ltb 0 b then some (record { num = a; den = b }) else none
quotient_of _ _ = none

-- The ratios and the coverage keys that `as_dict` adds.
pub record AddedKeys : Type 0 where
  pub batfish_vs_truth_coverage : Ratio
  pub hammerhead_vs_truth_coverage : Ratio
  pub batfish_vs_hammerhead_coverage : Ratio
  pub wall_ratio : Option Ratio
  pub fair_ratio : Option Ratio
  pub asym_ratio : Option Ratio

unfoldable pub as_dict : ThreeWayAgreement → AddedKeys
unfolding quotient_of
as_dict a = record {
  batfish_vs_truth_coverage = a.batfish_vs_truth.presence;
  hammerhead_vs_truth_coverage = a.hammerhead_vs_truth.presence;
  batfish_vs_hammerhead_coverage = a.batfish_vs_hammerhead.presence;
  wall_ratio = quotient_of a.times.batfish_wall_s a.times.hammerhead_wall_s;
  fair_ratio = quotient_of a.times.batfish_simulate_s a.times.hammerhead_simulate_plus_rib_s;
  asym_ratio = quotient_of a.times.batfish_simulate_s a.times.hammerhead_simulate_s;
}
