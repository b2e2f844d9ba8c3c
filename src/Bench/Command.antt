-- ===== src/Bench/Command.antt =====
-- harness/cli.py: `bench`, from its options to its exit code. The help texts of the options and what
-- is printed are left out.
use hammerhead_bench.Prelude.{
  Bool, List, Option, Text, [], codes, false, if◌then◌else◌, is_empty, list_eq, lower, ltb, nat_eq,
  none, not, some, true, ℕ, ℕ_eq, ◌&&◌, ◌==◌, ◌∷◌,
}
use hammerhead_bench.Fib.{LoopbackPolicy}
use hammerhead_bench.Topologies.{Entry, Selection, TopologySpec, select_topologies}
use hammerhead_bench.Pipeline.SimOnlyRun.{BenchHooks}
use hammerhead_bench.Bench.{
  BenchWorld, Report, run_bench_frr_only_truth, run_bench_lab, run_bench_sim_only,
}

-- The options of the command. `trials` is a whole number, and a negative one is refused like zero.
pub record Options : Type 0 where
  pub selection : Selection
  pub no_batfish : Bool
  pub no_hammerhead : Bool
  pub keep_lab_on_failure : Bool
  pub sim_only : Bool
  pub frr_only_truth : Bool
  pub trials : ℕ
  pub persistent_batfish : Bool
  pub loopback_policy_str : Text

-- `default` of `--trials`.
abbrev pub default_trials : ℕ
default_trials = 5

-- `LoopbackPolicy(s.lower())`; `none` is a `ValueError`.
unfoldable pub parse_policy : Text → Option LoopbackPolicy
parse_policy s =
    let name = lower s in
    if name == codes "strip"
    then some LoopbackPolicy.strip
    else if name == codes "materialize"
    then some LoopbackPolicy.materialize
    else if name == codes "passthrough"
    then some LoopbackPolicy.passthrough
    else none

-- The checks before the selection.
unfoldable pub usage_error : Options → Bool
usage_error o =
    if o.sim_only && o.frr_only_truth
    then true
    else if ltb o.trials 1
    then true
    else if not (nat_eq o.trials 1) && not o.sim_only
    then true
    else false

unfoldable pub hooks_of : Options → LoopbackPolicy → BenchHooks
hooks_of o policy = record {
  has_service = false;
  has_callable = not o.no_batfish;
  hammerhead = not o.no_hammerhead;
  loopback_policy = policy;
}

-- `_maybe_attach_persistent_batfish`, by whether the service starts: the service takes the place of
-- the callable.
unfoldable pub maybe_attach_persistent_batfish : BenchHooks → Bool → Bool → BenchHooks
maybe_attach_persistent_batfish hooks enabled starts =
    if not enabled
    then hooks
    else if not starts
    then hooks
    else record hooks { has_service = true; has_callable = false }

-- How the command ends: its exit code, with the report if it wrote one.
pub record Ended : Type 0 where
  pub code : ℕ
  pub report : Option Report

-- `sys.exit(0 if not failed else 1)`
unfoldable pub exit_with : Report → Ended
exit_with r = record { code = if is_empty r.failed_topologies then 0 else 1; report = some r }

abbrev pub sim_only_hooks : Options → LoopbackPolicy → Bool → BenchHooks
sim_only_hooks o policy starts =
    maybe_attach_persistent_batfish (hooks_of o policy) (o.persistent_batfish && not o.no_batfish)
      starts

-- The bench run in the mode that is asked for.
unfoldable pub run_mode :
    ℕ → Options → LoopbackPolicy → Bool → BenchWorld → List TopologySpec → Report
unfolding run_bench_sim_only run_bench_frr_only_truth run_bench_lab hooks_of
    maybe_attach_persistent_batfish
run_mode units o policy starts w selected =
    if o.sim_only
    then run_bench_sim_only units (sim_only_hooks o policy starts) w o.trials selected
    else if o.frr_only_truth
    then run_bench_frr_only_truth units (hooks_of o policy) w selected
    else run_bench_lab (hooks_of o policy) o.keep_lab_on_failure w selected

abbrev stop : ℕ → Ended
stop code = record { code = code; report = none }

-- The end of `bench`, once the topologies are selected.
unfoldable pub bench_selected : ℕ → Options → Bool → BenchWorld → List TopologySpec → Ended
unfolding parse_policy run_mode exit_with
bench_selected units o starts w [] = stop 1
bench_selected units o starts w (spec ∷ selected) = elim (parse_policy o.loopback_policy_str) [
  | none ↦ stop 2
  | some policy ↦ exit_with (run_mode units o policy starts w (spec ∷ selected))
]

-- `none` is an exception of the selection.
unfoldable pub bench : ℕ → Options → List Entry → Bool → BenchWorld → Option Ended
unfolding usage_error select_topologies bench_selected
bench units o entries starts w =
    if usage_error o then some (stop 2) else elim (select_topologies o.selection entries) [
      | none ↦ none
      | some selected ↦ some (bench_selected units o starts w selected)
    ]
