-- ===== src/Bench/Outcome.antt =====
-- harness/cli.py: the exit code of `bench` and the failures that it reports.
use hammerhead_bench.Prelude.{
  Bool, Bool-cases, List, Option, Text, [], all, any, ap, arith, false, if◌then◌else◌, inl, inr,
  list_eq, ltb, none, not, refl, some, ℕ, ℕ_eq, ◌&&◌, ◌<◌, ◌||◌, ◌∙◌, ◌∷◌, ◌≡◌,
}
use hammerhead_bench.Fib.{LoopbackPolicy}
use hammerhead_bench.Topologies.{Entry, TopologySpec}
use hammerhead_bench.Topologies.Laws.{IsSelection, is_faulty, select_topologies-IsSelection}
use hammerhead_bench.Pipeline.SimOnlyRun.{SimOnlyResult}
use hammerhead_bench.Pipeline.SimOnlyRun.Laws.{is_passed}
use hammerhead_bench.Pipeline.TruthRun.{FrrOnlyTruthResult}
use hammerhead_bench.Bench.{
  BenchWorld, lab_passed, run_bench_frr_only_truth, run_bench_lab, run_bench_sim_only,
  run_frr_only_truth, run_lab, run_sim_only,
}
use hammerhead_bench.Bench.Command.{
  Ended, Options, bench, bench_selected, exit_with, hooks_of, parse_policy, run_mode,
  sim_only_hooks, usage_error,
}
use hammerhead_bench.Bench.Laws.{
  bench_loop-failures, failures, failures_none, lab_lem, lab_works, sim_only_lem, sim_only_works,
  truth_mode_lem, truth_mode_works,
}

-- The options that are refused: two modes at once, no trial, and more than one trial in a mode other
-- than head-to-head.
abbrev pub is_misused : Options → Bool
is_misused o =
    (o.sim_only && o.frr_only_truth) || (ltb o.trials 1 || (not o.sim_only && ltb 1 o.trials))

-- When a topology works in the mode that is asked for.
abbrev pub mode_works : Options → LoopbackPolicy → Bool → BenchWorld → TopologySpec → Bool
mode_works o policy starts w =
    if o.sim_only
    then sim_only_works (sim_only_hooks o policy starts) w o.trials
    else if o.frr_only_truth
    then truth_mode_works (hooks_of o policy) w
    else lab_works (hooks_of o policy) o.keep_lab_on_failure w

-- The exit code, and the failures that are reported, if there is a report.
abbrev pub verdict :
    Options → Bool → BenchWorld → Option LoopbackPolicy → List TopologySpec → ℕ × Option (List Text)
verdict o starts w policy [] = (1, none)
verdict o starts w none (spec ∷ selected) = (2, none)
verdict o starts w (some policy) (spec ∷ selected) = (
  if all (mode_works o policy starts w) (spec ∷ selected) then 0 else 1,
  some (failures (mode_works o policy starts w) (spec ∷ selected)),
)

abbrev pub reported : Ended → Option (List Text)
reported e = elim e.report [ none ↦ none | some r ↦ some r.failed_topologies ]

run_mode-failures :
    (units : ℕ) (o : Options) (policy : LoopbackPolicy) (starts : Bool) (w : BenchWorld)
    (selected : List TopologySpec)
    → 0 < o.trials
    → (run_mode units o policy starts w selected).failed_topologies
      ≡ failures (mode_works o policy starts w) selected
unfolding run_mode run_bench_sim_only run_bench_frr_only_truth run_bench_lab
run_mode-failures units o policy starts w selected h = elim (Bool-cases o.sim_only) [
  | inl e ↦
      let hooks = sim_only_hooks o policy starts in
      rw e (
        bench_loop-failures (run_sim_only hooks w o.trials)
          (λ (r : SimOnlyResult). is_passed r.status) (sim_only_works hooks w o.trials)
          (λ spec. sim_only_lem hooks w o.trials spec h) selected)
  | inr e ↦ elim (Bool-cases o.frr_only_truth) [
    | inl f ↦
        rw (e, f)
          (bench_loop-failures (run_frr_only_truth (hooks_of o policy) w)
            (λ (r : FrrOnlyTruthResult). is_passed r.status)
            (truth_mode_works (hooks_of o policy) w) (truth_mode_lem (hooks_of o policy) w)
            selected)
    | inr f ↦
        rw (e, f)
          (bench_loop-failures (run_lab (hooks_of o policy) o.keep_lab_on_failure w) lab_passed
            (lab_works (hooks_of o policy) o.keep_lab_on_failure w)
            (lab_lem (hooks_of o policy) o.keep_lab_on_failure w) selected)
  ]
]

abbrev IsEndedBy : ℕ × Option (List Text) → Ended → Type 0
IsEndedBy v e = (e.code ≡ v.0) × (reported e ≡ v.1)

bench_selected-IsEndedBy :
    (units : ℕ) (o : Options) (starts : Bool) (w : BenchWorld) (selected : List TopologySpec)
    → 0 < o.trials
    → IsEndedBy
        (verdict o starts w (parse_policy o.loopback_policy_str) selected)
        (bench_selected units o starts w selected)
unfolding bench_selected exit_with
bench_selected-IsEndedBy units o starts w [] h = (refl, refl)
bench_selected-IsEndedBy units o starts w (spec ∷ selected) h =
    go (parse_policy o.loopback_policy_str)
  where
    go :
        (p : Option LoopbackPolicy)
        → IsEndedBy (verdict o starts w p (spec ∷ selected)) (elim p [
          | none ↦ record { code = 2; report = none }
          | some policy ↦ exit_with (run_mode units o policy starts w (spec ∷ selected))
        ])
    go none = (refl, refl)
    go (some policy) =
        let e = run_mode-failures units o policy starts w (spec ∷ selected) h in
        (rw (e, failures_none (mode_works o policy starts w) (spec ∷ selected)) refl, ap some e)

misused_lem : (o : Options) → usage_error o ≡ is_misused o
unfolding usage_error
misused_lem o = ground arith

-- How the command ends, given the topologies that are selected.
abbrev pub IsBench : Options → Bool → BenchWorld → List TopologySpec → Ended → Type 0
IsBench o starts w selected e =
    IsEndedBy
      (if is_misused o
        then (2, none)
        else verdict o starts w (parse_policy o.loopback_policy_str) selected)
      e

-- If every directory that passes the tests on its name loads, `bench` ends. It exits with 2, and
-- reports nothing, if its options are refused: in particular for any number of trials but one in a
-- mode other than head-to-head. Otherwise it exits with 1 if no topology is selected, with 2 if
-- the policy has no such name, and else with 0 exactly if each selected topology works in the mode
-- asked for, with the service for Batfish if it has started and the mode is head-to-head. It
-- reports as failed exactly those that do not, in their order.
pub bench-IsBench :
    (units : ℕ) (o : Options) (entries : List Entry) (starts : Bool) (w : BenchWorld)
    → any (is_faulty o.selection) entries ≡ false
    → (selected : List TopologySpec) × (e : Ended) × IsSelection o.selection entries selected
      × (bench units o entries starts w ≡ some e)
      × IsBench o starts w selected e
unfolding bench
bench-IsBench units o entries starts w h =
    let (selected, found, sound) = select_topologies-IsSelection o.selection entries h in
    elim (Bool-cases (is_misused o)) [
      | inl bad ↦ (
        selected,
        record { code = 2; report = none },
        sound,
        rw (misused_lem o ∙ bad) refl,
        rw bad (refl, refl),
      )
      | inr fine ↦ (
        selected,
        bench_selected units o starts w selected,
        sound,
        rw (misused_lem o ∙ fine, found) refl,
        rw fine (bench_selected-IsEndedBy units o starts w selected (ground (arith, fine))),
      )
    ]
