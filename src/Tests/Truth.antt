-- ===== src/Tests/Truth.antt =====
-- Which topologies a bench run takes, and a ring that is scored against its routers.
use hammerhead_bench.Prelude.{
  Bool, List, Option, String, [], all, any, codes, contains, false, filter, is_empty, list_beq,
  list_eq, lower, none, option_eq, refl, some, true, ℕ, ℕ_eq, ℤ_eq, ◌∷◌, ◌≡◌,
}
use hammerhead_bench.Prelude.Order.{ℕ_order}
use hammerhead_bench.Json.Fields.{ok}
use hammerhead_bench.Fib.{LoopbackPolicy, Protocol_eq}
use hammerhead_bench.Topologies.{
  Entry, Node, Selection, TopologySpec, all_frr, frr_only_truth_eligible, has_frr_kind, is_named,
  is_small, is_taken, select_from, select_topologies,
}
use hammerhead_bench.Topologies.Laws.{IsSelection, is_faulty, select_topologies-IsSelection}
use hammerhead_bench.Pipeline.Coverage.{CoverageVerdict}
use hammerhead_bench.Pipeline.Run.{
  deploy_lab, destroyed, guard_error, half_deployed, none_dangling, phases, recovers, sampled,
}
use hammerhead_bench.Pipeline.Trials.{simulate_le_total}
use hammerhead_bench.Pipeline.SimOnly.{compute_sim_only_agreement}
use hammerhead_bench.Pipeline.SimOnlyRun.{BenchHooks, World}
use hammerhead_bench.Pipeline.ThreeWay.{
  ThreeWayAgreement, Times, Workspace, compute_three_way_agreement,
}
use hammerhead_bench.Pipeline.ThreeWay.Laws.{IsThreeWay, compute_three_way_agreement-IsThreeWay}
use hammerhead_bench.Pipeline.TruthRun.{
  FrrOnlyTruthResult, Sidecar, TruthWorld, collects, injected, run_topology_frr_only_truth,
}
use hammerhead_bench.Pipeline.TruthRun.Laws.{
  IsFrrRun, run_topology_frr_only_truth-IsFrrRun, truth_works,
}
use hammerhead_bench.Diff.Metrics.{aggregate}
use hammerhead_bench.Bench.{BenchWorld, LabWorld}
use hammerhead_bench.Bench.Laws.{failures}
use hammerhead_bench.Bench.Command.{
  Ended, Options, bench, default_trials, hooks_of, parse_policy, usage_error,
}
use hammerhead_bench.Bench.Outcome.{IsBench, bench-IsBench, verdict}
use hammerhead_bench.Tests.Scores.{bat, ham}

abbrev router : String → Node
router kind = record {
  name = codes "r1";
  kind = some (codes kind);
  templates = codes "frr.conf.j2" ∷ [];
}

abbrev spec_of : String → List Node → Bool → TopologySpec
spec_of name nodes external = record {
  name = codes name;
  nodes = nodes;
  external_renderer = external;
}

abbrev ring : TopologySpec
ring = spec_of "ring" (router "frr" ∷ router "frr" ∷ router "frr" ∷ []) false

abbrev mixed : TopologySpec
mixed = spec_of "mixed" (router "frr" ∷ router "ceos" ∷ []) false

abbrev tree : TopologySpec
tree = spec_of "tree" [] true

ring_eligible : frr_only_truth_eligible ring ≡ true
unfolding frr_only_truth_eligible all_frr has_frr_kind contains list_beq
ring_eligible = refl

mixed_ineligible : frr_only_truth_eligible mixed ≡ false
unfolding frr_only_truth_eligible all_frr has_frr_kind contains list_beq
mixed_ineligible = refl

tree_ineligible : frr_only_truth_eligible tree ≡ false
unfolding frr_only_truth_eligible
tree_ineligible = refl

abbrev on_disk : TopologySpec → Entry
on_disk spec = record { name = spec.name; is_dir = true; has_topo = true; spec = some spec }

-- A directory without a `topo.py`, which would not load, and three topologies.
abbrev entries : List Entry
entries =
    on_disk tree
    ∷ on_disk ring
    ∷ record { name = codes "_shared"; is_dir = true; has_topo = false; spec = none }
    ∷ on_disk mixed
    ∷ []

abbrev small_only : Selection
small_only = record {
  only = [];
  skip = codes "line" ∷ [];
  with_acl_semantics = false;
  max_nodes = some 2;
}

none_faulty : any (is_faulty small_only) entries ≡ false
unfolding is_named contains is_empty any list_beq
none_faulty = refl

select_topologies-IsSelection_example :
    (specs : List TopologySpec) × (select_topologies small_only entries ≡ some specs)
    × IsSelection small_only entries specs
select_topologies-IsSelection_example = select_topologies-IsSelection small_only entries none_faulty

-- The ring is too large, and the tree has a renderer of its own.
small_selected : select_from small_only entries ≡ some (mixed ∷ [])
unfolding select_from is_named is_taken is_small contains is_empty list_beq
small_selected = refl

abbrev fibs : Workspace
fibs = record { vendor = ham; batfish = bat; hammerhead = ham }

abbrev complete_verdict : CoverageVerdict
complete_verdict = record {
  status = some (codes "complete");
  degraded = some false;
  blockers = some [];
}

abbrev no_times : Times
no_times = record {
  truth_wall_s = none;
  batfish_wall_s = none;
  hammerhead_wall_s = none;
  batfish_simulate_s = none;
  hammerhead_simulate_s = none;
  hammerhead_rib_total_s = none;
  hammerhead_simulate_plus_rib_s = none;
}

compute_three_way_agreement-IsThreeWay_example :
    (a : ThreeWayAgreement) × (compute_three_way_agreement fibs LoopbackPolicy.strip no_times
        (complete_verdict ∷ [])
      ≡ some a)
    × IsThreeWay fibs LoopbackPolicy.strip no_times
        (complete_verdict ∷ [])
        a
        (compute_sim_only_agreement bat ham LoopbackPolicy.strip).0
compute_three_way_agreement-IsThreeWay_example =
    compute_three_way_agreement-IsThreeWay fibs LoopbackPolicy.strip no_times
      (complete_verdict ∷ [])

abbrev callables : BenchHooks
callables = record {
  has_service = false;
  has_callable = true;
  hammerhead = true;
  loopback_policy = LoopbackPolicy.strip;
}

abbrev sidecar : ℕ → Option ℕ → ℕ → Sidecar
sidecar sim rib total = record { simulate_s = some sim; rib_total_s = rib; total_s = some total }

abbrev lab : ℕ → TruthWorld
lab hammer_total = record {
  renders = true;
  collector = injected true;
  truth_wall = 40000000;
  batfish_wall = some 9000000;
  hammerhead_wall = some 700000;
  batfish_stats = sidecar 4000000 none 8000000;
  hammerhead_stats = sidecar 200000 (some 300000) hammer_total;
  hammerhead_coverage = complete_verdict;
  workspace = some fibs;
  writes = true;
}

abbrev fallback_world : World
fallback_world = record {
  renders = true;
  trials = [];
  fibs = some ([], []);
  writes = true;
  container_start_s = none;
  templates = [];
}

run_topology_frr_only_truth-IsFrrRun_example :
    (r : FrrOnlyTruthResult) × (run_topology_frr_only_truth ring callables
        (lab 600000)
        (none, none)
        fallback_world
      ≡ ok r)
    × IsFrrRun ring callables (lab 600000) (none, none) fallback_world r
run_topology_frr_only_truth-IsFrrRun_example =
    run_topology_frr_only_truth-IsFrrRun ring callables (lab 600000) (none, none) fallback_world

-- The run passes; with a total time below the sum of its parts it does not.
ring_passes : truth_works callables (lab 600000) ≡ true
unfolding collects simulate_le_total
ring_passes = refl

aliased_total : truth_works callables (lab 300000) ≡ false
unfolding collects simulate_le_total
aliased_total = refl

abbrev lab_run : LabWorld
lab_run = record {
  has_driver = true;
  fates = record {
    first_sample = none;
    first_log = none;
    headroom = some guard_error;
    render = none;
    deploy = none;
    deploy_leaves = false;
    second_sample = none;
    second_log = none;
    converge = none;
    extract = none;
    write = none;
    run_batfish = none;
    run_hammerhead = none;
    read_coverage = none;
    compute_diff = none;
  };
  ending = record {
    destroying = destroyed;
    sampling = sampled;
    checking = none_dangling;
    recovering = recovers;
  };
  metrics = aggregate (codes "ring") [];
  coverage = record {
    status = none;
    degraded = none;
    blockers = none;
    degraded_trials = 0;
    trials = 0;
  };
}

-- Batfish reports in no trial, so the head-to-head runs fail.
abbrev bench_world : BenchWorld
bench_world = record {
  trial = λ spec n. (none, none);
  sim = λ spec. fallback_world;
  truth = λ spec. lab 600000;
  lab = λ spec. lab_run;
}

abbrev options : Bool → ℕ → Options
options frr_only_truth trials = record {
  selection = record {
    only = codes "ring" ∷ [];
    skip = [];
    with_acl_semantics = false;
    max_nodes = none;
  };
  no_batfish = false;
  no_hammerhead = false;
  keep_lab_on_failure = false;
  sim_only = false;
  frr_only_truth = frr_only_truth;
  trials = trials;
  persistent_batfish = true;
  loopback_policy_str = codes "Strip";
}

ring_loads :
    (frr : Bool) (trials : ℕ) → any (is_faulty (options frr trials).selection) entries ≡ false
unfolding is_named contains is_empty any list_beq
ring_loads frr trials = refl

bench-IsBench_example :
    (selected : List TopologySpec) × (e : Ended) × IsSelection
      (options true 1).selection
      entries
      selected
    × (bench 1000 (options true 1) entries true bench_world ≡ some e)
    × IsBench (options true 1) true bench_world selected e
bench-IsBench_example =
    bench-IsBench 1000 (options true 1) entries true bench_world (ring_loads true 1)

-- The ring passes with FRR alone, and fails the headroom check in the lab.
ring_ends :
    verdict (options true 1) true bench_world (some LoopbackPolicy.strip) (ring ∷ []) ≡ (0, some [])
unfolding frr_only_truth_eligible all_frr has_frr_kind contains list_beq collects simulate_le_total
    failures all filter hooks_of
ring_ends = refl

lab_ends :
    verdict (options false 1) true bench_world (some LoopbackPolicy.strip) (ring ∷ [])
    ≡ (1, some (codes "ring" ∷ []))
unfolding phases deploy_lab half_deployed failures all filter hooks_of
lab_ends = refl

strip_parsed : parse_policy (codes "Strip") ≡ some LoopbackPolicy.strip
unfolding parse_policy lower list_beq
strip_parsed = refl

-- Without `--trials`, the modes other than head-to-head are refused.
default_refused :
    (frr_only_truth : Bool) → usage_error (options frr_only_truth default_trials) ≡ true
unfolding usage_error
default_refused frr_only_truth = refl
