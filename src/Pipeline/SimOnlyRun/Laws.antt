-- ===== src/Pipeline/SimOnlyRun/Laws.antt =====
-- harness/pipeline.py: when `run_topology_sim_only` passes, and what it returns then.
use mathlib.Core.Path.{subst}
use hammerhead_bench.Prelude.{
  Bool, Bool-cases, List, Option, all, arith, false, if◌then◌else◌, inl, inr, is_some, length, ltb,
  none, not, refl, some, true, ℕ_eq, ◌&&◌, ◌<◌, ◌≡◌,
}
use hammerhead_bench.Json.Fields.{ok}
use hammerhead_bench.Fib.{NodeFib}
use hammerhead_bench.Pipeline.Run.{Status, failed, passed}
use hammerhead_bench.Pipeline.Trials.{Series, is_used, no_series}
use hammerhead_bench.Pipeline.Trials.Laws.{
  batfish_count, entries, hammer_count, per_trial, trial_fits, trial_loop_lem,
}
use hammerhead_bench.Pipeline.Timing.{timing_of}
use hammerhead_bench.Pipeline.SimOnly.{compute_sim_only_agreement}
use hammerhead_bench.Pipeline.SimOnlyRun.{
  Agreement, BenchHooks, SimOnlyResult, World, conclude, config_nodes, hook_of,
  run_topology_sim_only, score, scored_trials, start_of, try_trials,
}

abbrev pub is_passed : Status → Bool
is_passed passed = true
is_passed failed = false

-- The configs render, the hooks that are set report in each trial with times that fit, the FIBs can
-- be read and the scores written.
abbrev pub all_works : BenchHooks → World → Bool
all_works hooks w =
    w.renders
    && (all (trial_fits (hook_of hooks) hooks.hammerhead) w.trials && (is_some w.fibs && w.writes))

abbrev gathered : BenchHooks → World → Series
gathered hooks w = entries (hook_of hooks) hooks.hammerhead w.trials

abbrev pub Counted : BenchHooks → World → Type 0
Counted hooks w =
    (length (gathered hooks w).batfish_walls ≡ per_trial (is_used (hook_of hooks)) w.trials)
    × (length (gathered hooks w).batfish_warms ≡ per_trial (is_used (hook_of hooks)) w.trials)
    × (length (gathered hooks w).hammer_walls ≡ per_trial hooks.hammerhead w.trials)
    × (length (gathered hooks w).hammer_coverages ≡ per_trial hooks.hammerhead w.trials)

-- The scores of the FIBs, with the times of all trials.
abbrev pub agreement_of : BenchHooks → World → List NodeFib × List NodeFib → Agreement
agreement_of hooks w (batfish, hammerhead) =
    let scored = compute_sim_only_agreement batfish hammerhead hooks.loopback_policy in
    record {
      nodes = config_nodes w.templates;
      scores = scored.0;
      records = scored.1;
      timing = timing_of (gathered hooks w) (start_of (hook_of hooks) w);
    }

abbrev pub on_some {ℓ κ} : {A : Type ℓ} {B : Type κ} → (A → B) → Option A → Option B
on_some f none = none
on_some f (some a) = some (f a)

-- What a run returns, by whether the configs render and whether all works.
pub record IsRunOf (hooks : BenchHooks) (w : World) (fibs : Option (List NodeFib × List NodeFib))
    (renders works : Bool) (r : SimOnlyResult) : Type 0 where
  pub passes : is_passed r.status ≡ works
  pub errs : r.error ≡ not works
  pub diffed : r.diff_path ≡ works
  pub batfish_path : r.batfish_path ≡ (renders && is_used (hook_of hooks))
  pub hammerhead_path : r.hammerhead_path ≡ (renders && hooks.hammerhead)
  pub agreed : r.agreement ≡ (if works then on_some (agreement_of hooks w) fibs else none)

abbrev with_paths : BenchHooks → SimOnlyResult
with_paths hooks = record {
  status = failed;
  batfish_path = is_used (hook_of hooks);
  hammerhead_path = hooks.hammerhead;
  diff_path = false;
  agreement = none;
  error = false;
}

concluded :
    (hooks : BenchHooks) (w : World) (fibs : Option (List NodeFib × List NodeFib)) (writes : Bool)
    → IsRunOf hooks w fibs true
        (is_some fibs && writes)
        (conclude (with_paths hooks) (score hooks w (gathered hooks w) fibs writes))
unfolding score
concluded hooks w none writes = record {
  passes = refl;
  errs = refl;
  diffed = refl;
  batfish_path = refl;
  hammerhead_path = refl;
  agreed = refl;
}
concluded hooks w (some fibs) false = record {
  passes = refl;
  errs = refl;
  diffed = refl;
  batfish_path = refl;
  hammerhead_path = refl;
  agreed = refl;
}
concluded hooks w (some (batfish, hammerhead)) true = record {
  passes = refl;
  errs = refl;
  diffed = refl;
  batfish_path = refl;
  hammerhead_path = refl;
  agreed = refl;
}

tried :
    (hooks : BenchHooks) (w : World) (fits : Bool)
    → IsRunOf hooks w w.fibs true
        (fits && (is_some w.fibs && w.writes))
        (scored_trials hooks w (with_paths hooks) (if fits then some (gathered hooks w) else none))
unfolding scored_trials
tried hooks w true = concluded hooks w w.fibs w.writes
tried hooks w false = record {
  passes = refl;
  errs = refl;
  diffed = refl;
  batfish_path = refl;
  hammerhead_path = refl;
  agreed = refl;
}

try_trials-IsRunOf :
    (hooks : BenchHooks) (w : World) (renders : Bool)
    → IsRunOf hooks w w.fibs renders
        (renders
          && (all (trial_fits (hook_of hooks) hooks.hammerhead) w.trials
              && (is_some w.fibs && w.writes)))
        (try_trials hooks w renders)
unfolding try_trials
try_trials-IsRunOf hooks w false = record {
  passes = refl;
  errs = refl;
  diffed = refl;
  batfish_path = refl;
  hammerhead_path = refl;
  agreed = refl;
}
try_trials-IsRunOf hooks w true =
    rw (trial_loop_lem (hook_of hooks) hooks.hammerhead w.trials no_series)
      (tried hooks w (all (trial_fits (hook_of hooks) hooks.hammerhead) w.trials))

middle : (a b c : Bool) → (a && (b && c)) ≡ true → b ≡ true
middle true true c h = refl
middle true false c h = h
middle false b c h = cc

works-Counted : (hooks : BenchHooks) (w : World) → all_works hooks w ≡ true → Counted hooks w
works-Counted hooks w works =
    let fits =
      middle w.renders (all (trial_fits (hook_of hooks) hooks.hammerhead) w.trials)
        (is_some w.fibs && w.writes) works in
    let (walls, warms) = batfish_count (hook_of hooks) hooks.hammerhead w.trials fits in
    let (times, verdicts) = hammer_count (hook_of hooks) hooks.hammerhead w.trials fits in
    (walls, warms, times, verdicts)

pub record IsSimOnlyRun (hooks : BenchHooks) (w : World) (r : SimOnlyResult) : Type 0 where
  pub returned : IsRunOf hooks w w.fibs w.renders (all_works hooks w) r
  pub trials : 0 < length w.trials
  pub counted : all_works hooks w ≡ true → Counted hooks w

-- A head-to-head run passes exactly if the configs render, each hook that is set reports in every
-- trial with a solving time that is at most its total time and 100 ms, and the FIBs can be read and
-- the scores written. Otherwise it records an error and no scores. If it passes, its scores are
-- those of the FIBs that were read, and its times are those of all trials in order: each trial has
-- added one wall time and one warm flag for Batfish, and one wall time and one coverage verdict for
-- Hammerhead, where these are run. The service goes before the plain callable.
pub run_topology_sim_only-IsSimOnlyRun :
    (hooks : BenchHooks) (w : World) (r : SimOnlyResult)
    → run_topology_sim_only hooks w ≡ ok r
    → IsSimOnlyRun hooks w r
unfolding run_topology_sim_only
run_topology_sim_only-IsSimOnlyRun hooks w r h = elim (Bool-cases (ltb (length w.trials) 1)) [
  | inl few ↦ ground arith
  | inr enough ↦
      let e : try_trials hooks w w.renders ≡ r = ground arith in
      record {
        returned =
            subst (λ (q : SimOnlyResult). IsRunOf hooks w w.fibs w.renders (all_works hooks w) q) e
              (try_trials-IsRunOf hooks w w.renders);
        trials = ground arith;
        counted = λ works. works-Counted hooks w works;
      }
]
