-- ===== src/Bench/Laws.antt =====
-- harness/cli.py: what a bench run reports as failed, and how it ends.
use hammerhead_bench.Prelude.{
  Bool, Bool-cases, List, Option, Text, [], all, ap, arith, false, filter, if◌then◌else◌, inl, inr,
  is_empty, length, length-append, list_eq, ltb, map, not, refl, suc, sym, true, zero, ℕ, ℕ_eq,
  ◌&&◌, ◌<◌, ◌∙◌, ◌∷◌, ◌≡◌,
}
use hammerhead_bench.Json.Fields.{Result, ok, raise, runtime_error}
use hammerhead_bench.Diff.Metrics.{TopologyMetrics}
use hammerhead_bench.Topologies.{TopologySpec, frr_only_truth_eligible}
use hammerhead_bench.Pipeline.Run.{
  Ending, Fates, Hooks, Outcome, Run, does_return, has_passed, raised, returned, run_of,
  run_topology,
}
use hammerhead_bench.Pipeline.Run.Laws.{IsRun, run_topology-IsRun}
use hammerhead_bench.Pipeline.Run.Phases.{raises_nothing}
use hammerhead_bench.Pipeline.Run.Finally.{ending_returns}
use hammerhead_bench.Pipeline.Coverage.{CoverageFields}
use hammerhead_bench.Pipeline.Trials.{Trial}
use hammerhead_bench.Pipeline.SimOnlyRun.{
  BenchHooks, SimOnlyResult, run_topology_sim_only, try_trials,
}
use hammerhead_bench.Pipeline.SimOnlyRun.Laws.{
  all_works, is_passed, run_topology_sim_only-IsSimOnlyRun,
}
use hammerhead_bench.Pipeline.TruthRun.{FrrOnlyTruthResult, fallback, wrap}
use hammerhead_bench.Pipeline.TruthRun.Laws.{run_topology_frr_only_truth-IsFrrRun, truth_works}
use hammerhead_bench.Bench.{
  BenchWorld, Gathered, bench_loop, gather, lab_passed, run_frr_only_truth, run_lab, run_sim_only,
  sim_world, trial_list,
}

-- A run returns a result that has passed.
abbrev goes_well : {R : Type 0} → (R → Bool) → Result R → Bool
goes_well passes (ok r) = passes r
goes_well passes (raise e) = false

-- The names of the topologies that do not work.
unfoldable pub failures : (TopologySpec → Bool) → List TopologySpec → List Text
failures works selected = map (λ (s : TopologySpec). s.name) (filter (λ s. not (works s)) selected)

gather-failed :
    {R : Type 0} (passes : R → Bool) (name : Text) (r : Result R) (g : Gathered R)
    → (gather passes name r g).failed_topologies
      ≡ (if not (goes_well passes r) then name ∷ g.failed_topologies else g.failed_topologies)
unfolding gather
gather-failed passes name (raise e) g = refl
gather-failed passes name (ok r) g = elim (Bool-cases (passes r)) [
  | inl e ↦ rw e refl
  | inr e ↦ rw e refl
]

failures-cons :
    (works : TopologySpec → Bool) (spec : TopologySpec) (selected : List TopologySpec)
    → failures works (spec ∷ selected)
      ≡ (if not (works spec) then spec.name ∷ failures works selected else failures works selected)
unfolding failures filter
failures-cons works spec selected = elim (Bool-cases (works spec)) [
  | inl e ↦ rw e refl
  | inr e ↦ rw e refl
]

pub bench_loop-failures :
    {R : Type 0} (run : TopologySpec → Result R) (passes : R → Bool) (works : TopologySpec → Bool)
    → ((spec : TopologySpec) → goes_well passes (run spec) ≡ works spec)
    → (selected : List TopologySpec)
    → (bench_loop run passes selected).failed_topologies ≡ failures works selected
unfolding bench_loop failures filter
bench_loop-failures run passes works h [] = refl
bench_loop-failures run passes works h (spec ∷ selected) =
    gather-failed passes spec.name (run spec) (bench_loop run passes selected)
    ∙ rw (h spec, bench_loop-failures run passes works h selected)
        (sym (failures-cons works spec selected))

pub failures_none :
    (works : TopologySpec → Bool) (selected : List TopologySpec)
    → is_empty (failures works selected) ≡ all works selected
unfolding failures filter all is_empty
failures_none works [] = refl
failures_none works (spec ∷ selected) = ground (arith, failures_none works selected)

-- When a topology works in each of the modes.
abbrev pub sim_only_works : BenchHooks → BenchWorld → ℕ → TopologySpec → Bool
sim_only_works hooks w trials spec = all_works hooks (sim_world w trials spec)

abbrev pub truth_mode_works : BenchHooks → BenchWorld → TopologySpec → Bool
truth_mode_works hooks w spec =
    if frr_only_truth_eligible spec
    then truth_works hooks (w.truth spec)
    else all_works hooks (fallback spec (w.trial spec 0) (w.sim spec))

pub truth_mode_lem :
    (hooks : BenchHooks) (w : BenchWorld) (spec : TopologySpec)
    → goes_well (λ (r : FrrOnlyTruthResult). is_passed r.status) (run_frr_only_truth hooks w spec)
      ≡ truth_mode_works hooks w spec
unfolding wrap
truth_mode_lem hooks w spec =
    let (r, e, run) =
      run_topology_frr_only_truth-IsFrrRun spec hooks (w.truth spec) (w.trial spec 0)
        (w.sim spec) in
    elim run [
      | inl (eligible, t) ↦ rw (e, eligible) t.passes
      | inr (other, q, h, s) ↦
          rw (e, other) (ap (λ (x : FrrOnlyTruthResult). is_passed x.status) h ∙ s.returned.passes)
    ]

length-trial_list : (trial : ℕ → Trial) (n : ℕ) → length (trial_list trial n) ≡ n
unfolding trial_list
length-trial_list trial zero = refl
length-trial_list trial (suc n) =
    omega (arith, length-append (trial_list trial n) (trial n ∷ []), length-trial_list trial n)

pub sim_only_lem :
    (hooks : BenchHooks) (w : BenchWorld) (trials : ℕ) (spec : TopologySpec)
    → 0 < trials
    → goes_well (λ (r : SimOnlyResult). is_passed r.status) (run_sim_only hooks w trials spec)
      ≡ sim_only_works hooks w trials spec
unfolding run_topology_sim_only
sim_only_lem hooks w trials spec h =
    let v = sim_world w trials spec in
    let enough : ltb (length v.trials) 1 ≡ false =
      ground (arith, length-trial_list (w.trial spec) trials) in
    let e : run_topology_sim_only hooks v ≡ ok (try_trials hooks v v.renders) = rw enough refl in
    rw e
      (run_topology_sim_only-IsSimOnlyRun hooks v (try_trials hooks v v.renders) e).returned.passes

abbrev lab_hooks : BenchHooks → Hooks
lab_hooks hooks = record { batfish = hooks.has_callable; hammerhead = hooks.hammerhead }

-- There is a driver, no phase raises, and the end of the run raises nothing that is not caught.
abbrev pub lab_works : BenchHooks → Bool → BenchWorld → TopologySpec → Bool
lab_works hooks keep w spec =
    let l = w.lab spec in
    l.has_driver && (raises_nothing (lab_hooks hooks) l.fates && ending_returns l.ending true)

-- The caller counts a run of the lab as passed if it gets it and the run has passed.
goes_well-lab :
    (out : Outcome) (metrics : Run → Option TopologyMetrics) (coverage : Run → CoverageFields)
    → goes_well lab_passed (elim out [
      | returned r ↦ ok (record { run = r; metrics = metrics r; coverage = coverage r })
      | raised r ↦ raise runtime_error
    ])
      ≡ (does_return out && has_passed (run_of out))
goes_well-lab (returned r) metrics coverage = refl
goes_well-lab (raised r) metrics coverage = refl

clear_returns :
    (hooks : Hooks) (clear keep : Bool) (f : Fates) (e : Ending) (out : Outcome)
    → IsRun hooks clear keep f e out
    → (does_return out && has_passed (run_of out)) ≡ (clear && ending_returns e true)
clear_returns hooks true keep f e out h =
    let (l, b, p) = h.deploys refl in rw (h.returns, h.passes, l, b) (ground arith)
clear_returns hooks false keep f e out h = ground (arith, h.passes)

pub lab_lem :
    (hooks : BenchHooks) (keep : Bool) (w : BenchWorld) (spec : TopologySpec)
    → goes_well lab_passed (run_lab hooks keep w spec) ≡ lab_works hooks keep w spec
unfolding run_lab
lab_lem hooks keep w spec =
    let l = w.lab spec in
    goes_well-lab (run_topology l.has_driver (lab_hooks hooks) l.fates keep l.ending) _ _
    ∙ go l.has_driver
  where
    go :
        (b : Bool)
        → (let l = w.lab spec in
            let out = run_topology b (lab_hooks hooks) l.fates keep l.ending in
            (does_return out && has_passed (run_of out))
            ≡ (b && (raises_nothing (lab_hooks hooks) l.fates && ending_returns l.ending true)))
    go true =
        let l = w.lab spec in
        clear_returns _ _ keep l.fates l.ending _
          ((run_topology-IsRun true (lab_hooks hooks) l.fates keep l.ending).1 refl)
    go false =
        let l = w.lab spec in
        let (r, u) = (run_topology-IsRun false (lab_hooks hooks) l.fates keep l.ending).0 refl in
        rw r refl
