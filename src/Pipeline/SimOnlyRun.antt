-- ===== src/Pipeline/SimOnlyRun.antt =====
-- harness/pipeline.py: `run_topology_sim_only`. What rendering, the hooks and the files do is decided
-- outside; directories can be made.
pub mod Laws
use hammerhead_bench.Prelude.{
  Bool, List, Option, Text, count, false, if◌then◌else◌, is_empty, length, ltb, none, not, some,
  true, ℕ, ℕ_eq,
}
use hammerhead_bench.Json.Fields.{Result, ok, raise, value_error}
use hammerhead_bench.Fib.{LoopbackPolicy, NodeFib}
use hammerhead_bench.Pipeline.Run.{Status, failed, passed}
use hammerhead_bench.Pipeline.Trials.{
  BatfishHook, Series, Trial, chosen_hook, is_used, no_series, service, trial_loop,
}
use hammerhead_bench.Pipeline.Timing.{Timing, timing_of}
use hammerhead_bench.Pipeline.SimOnly.{Row, SimOnlyScores, compute_sim_only_agreement}

-- `SimOnlyAgreement`, by where its fields come from, with the rows that are written beside it.
pub record Agreement : Type 0 where
  pub nodes : ℕ
  pub scores : SimOnlyScores
  pub records : List Row
  pub timing : Timing

-- `SimOnlyResult`: paths are set or not, and an error is recorded or not.
pub record SimOnlyResult : Type 0 where
  pub status : Status
  pub batfish_path : Bool
  pub hammerhead_path : Bool
  pub diff_path : Bool
  pub agreement : Option Agreement
  pub error : Bool

-- The hooks that are set, and the policy in effect.
pub record BenchHooks : Type 0 where
  pub has_service : Bool
  pub has_callable : Bool
  pub hammerhead : Bool
  pub loopback_policy : LoopbackPolicy

-- What the run meets: whether the configs render, the reports of the hooks in each trial, the FIBs
-- that are read back, if they can be, whether the scores are written, the time that the service's
-- container took, and the names of the config templates of each node.
pub record World : Type 0 where
  pub renders : Bool
  pub trials : List Trial
  pub fibs : Option (List NodeFib × List NodeFib)
  pub writes : Bool
  pub container_start_s : Option ℕ
  pub templates : List (List Text)

-- `sum(1 for n in spec.nodes if n.adapter.config_template_names)`
unfoldable pub config_nodes : List (List Text) → ℕ
config_nodes templates = count (λ names. not (is_empty names)) templates

abbrev pub hook_of : BenchHooks → BatfishHook
hook_of hooks = chosen_hook hooks.has_service hooks.has_callable

-- Only the service knows the time that its container took.
abbrev pub start_of : BatfishHook → World → Option ℕ
start_of service w = w.container_start_s
start_of _ w = none

abbrev begun : SimOnlyResult
begun = record {
  status = failed;
  batfish_path = false;
  hammerhead_path = false;
  diff_path = false;
  agreement = none;
  error = false;
}

-- `_compute_sim_only_agreement`, on the FIBs that are read back; writing the scores may fail.
unfoldable pub score :
    BenchHooks → World → Series → Option (List NodeFib × List NodeFib) → Bool → Option Agreement
unfolding config_nodes
score hooks w s none writes = none
score hooks w s (some fibs) false = none
score hooks w s (some (batfish, hammerhead)) true =
    let scored = compute_sim_only_agreement batfish hammerhead hooks.loopback_policy in
    some (record {
      nodes = config_nodes w.templates;
      scores = scored.0;
      records = scored.1;
      timing = timing_of s (start_of (hook_of hooks) w);
    })

abbrev fail : SimOnlyResult → SimOnlyResult
fail r = record r { error = true }

-- The end of the `try` block, once the trials have ended and the scores are computed.
abbrev conclude : SimOnlyResult → Option Agreement → SimOnlyResult
conclude paths none = fail paths
conclude paths (some a) = record paths { agreement = some a; diff_path = true; status = passed }

-- The `try` block from the trials on, then the whole: an exception leaves the result as it is,
-- with the error.
unfoldable pub scored_trials : BenchHooks → World → SimOnlyResult → Option Series → SimOnlyResult
unfolding score
scored_trials hooks w paths none = fail paths
scored_trials hooks w paths (some s) = conclude paths (score hooks w s w.fibs w.writes)

unfoldable pub try_trials : BenchHooks → World → Bool → SimOnlyResult
unfolding scored_trials
try_trials hooks w false = fail begun
try_trials hooks w true =
    scored_trials hooks w
      (record begun { batfish_path = is_used (hook_of hooks); hammerhead_path = hooks.hammerhead })
      (trial_loop (hook_of hooks) hooks.hammerhead w.trials no_series)

-- `trials` is the length of the list of reports.
unfoldable pub run_topology_sim_only : BenchHooks → World → Result SimOnlyResult
unfolding try_trials
run_topology_sim_only hooks w =
    if ltb (length w.trials) 1 then raise value_error else ok (try_trials hooks w w.renders)
