-- ===== src/Pipeline/Run.antt =====
-- harness/pipeline.py: the phases of `run_topology`. What each phase meets is decided outside: the
-- fates say where an exception is raised, in the `try` block and in the `finally` block. Paths are
-- set or not; texts of errors are left out.
pub mod Finally
pub mod Laws
pub mod Phases
use hammerhead_bench.Prelude.{
  Bool, List, Option, [], false, if◌then◌else◌, is_some, none, not, some, true, ℕ_eq, ◌&&◌, ◌++◌,
  ◌||◌, ◌∷◌,
}

-- An exception of a phase: `MemoryGuardError` or any other.
pub data Fault : Type 0 where
  guard_error : Fault
  other_error : Fault

pub data Status : Type 0 where
  passed : Status
  failed : Status

-- The phases of memory samples.
pub data SamplePhase : Type 0 where
  pre_deploy post_deploy post_teardown recovered : SamplePhase

-- What the end of a run notes.
pub data Note : Type 0 where
  destroy_failed teardown_unverified dangling_containers memory_not_recovered : Note

-- `TopologyRunResult` and the local variables `lab` and `baseline`; `live` says that the lab's
-- containers are up.
pub record Run : Type 0 where
  pub status : Status
  pub vendor_truth_path : Bool
  pub batfish_path : Bool
  pub hammerhead_path : Bool
  pub diff_path : Bool
  pub error : Option Fault
  pub notes : List Note
  pub memory_samples : List SamplePhase
  pub lab : Bool
  pub baseline : Bool
  pub live : Bool

abbrev pub begun : Run
begun = record {
  status = failed;
  vendor_truth_path = false;
  batfish_path = false;
  hammerhead_path = false;
  diff_path = false;
  error = none;
  notes = [];
  memory_samples = [];
  lab = false;
  baseline = false;
  live = false;
}

-- A phase: what it changes, and the exception that it raises before the change or after it.
pub record Phase : Type 0 where
  pub before : Option Fault
  pub change : Run → Run
  pub after : Option Fault

-- The hooks that are set.
pub record Hooks : Type 0 where
  pub batfish : Bool
  pub hammerhead : Bool

-- Where the phases of the `try` block raise. Of a sample, the reading and the log can fail. A deploy
-- that raises may leave containers up: it starts them before it looks at the exit code, runs out of
-- time or misses the lab's name.
pub record Fates : Type 0 where
  pub first_sample : Option Fault
  pub first_log : Option Fault
  pub headroom : Option Fault
  pub render : Option Fault
  pub deploy : Option Fault
  pub deploy_leaves : Bool
  pub second_sample : Option Fault
  pub second_log : Option Fault
  pub converge : Option Fault
  pub extract : Option Fault
  pub write : Option Fault
  pub run_batfish : Option Fault
  pub run_hammerhead : Option Fault
  pub read_coverage : Option Fault
  pub compute_diff : Option Fault

abbrev pub nothing : Run → Run
nothing r = r

-- `_record_sample`: the result first, then the log.
abbrev pub record_sample : SamplePhase → Run → Run
record_sample p r = record r { memory_samples = r.memory_samples ++ p ∷ [] }

abbrev pub plain : Option Fault → (Run → Run) → Phase
plain fault change = record { before = fault; change = change; after = none }

-- A deploy that raises with containers up.
unfoldable pub half_deployed : Fates → Bool
half_deployed f = is_some f.deploy && f.deploy_leaves

-- `lab = driver.deploy(topology_yaml)`: the variable is set only if the deploy returns.
unfoldable pub deploy_lab : Fates → Phase
unfolding half_deployed
deploy_lab f =
    if half_deployed f
    then record { before = none; change = λ r. record r { live = true }; after = f.deploy }
    else plain f.deploy (λ r. record r { lab = true; live = true })

-- The phases of the `try` block, in order.
unfoldable pub phases : Hooks → Fates → List Phase
unfolding deploy_lab
phases hooks f =
    plain f.first_sample (λ r. record r { baseline = true })
      ∷ record { before = none; change = record_sample pre_deploy; after = f.first_log }
      ∷ plain f.headroom nothing
      ∷ plain f.render nothing
      ∷ deploy_lab f
      ∷ record {
        before = f.second_sample;
        change = record_sample post_deploy;
        after = f.second_log;
      }
      ∷ plain f.converge nothing
      ∷ plain f.extract nothing
      ∷ plain f.write (λ r. record r { vendor_truth_path = true })
      ∷ (if hooks.batfish
          then plain f.run_batfish (λ r. record r { batfish_path = true }) ∷ []
          else [])
    ++ (if hooks.hammerhead
        then record {
          before = f.run_hammerhead;
          change = λ r. record r { hammerhead_path = true };
          after = f.read_coverage;
        }
          ∷ []
        else [])
    ++ (if hooks.batfish || hooks.hammerhead
        then plain f.compute_diff (λ r. record r { diff_path = true }) ∷ []
        else [])

-- The first exception ends the block and is recorded; without one the run has passed.
unfoldable pub try_phases : List Phase → Run → Run
try_phases [] r = record r { status = passed }
try_phases (p ∷ ps) r =
    let rest = try_phases ps (p.change r) in
    elim p.before [
      | some fault ↦ record r { error = some fault }
      | none ↦ elim p.after [
        | some fault ↦ let changed = p.change r in record changed { error = some fault }
        | none ↦ rest
      ]
    ]

-- How a part of the run ends: it returns, or it raises, and then the caller gets the exception and
-- not the result. Either way the run stands for the state that is left.
pub data Outcome : Type 0 where
  returned : Run → Outcome
  raised : Run → Outcome

abbrev pub run_of : Outcome → Run
run_of (returned r) = r
run_of (raised r) = r

abbrev pub does_return : Outcome → Bool
does_return (returned r) = true
does_return (raised r) = false

-- The next part is reached only if the one before it returns.
unfoldable pub and_then : Outcome → (Run → Outcome) → Outcome
and_then (returned r) next = next r
and_then (raised r) next = raised r

-- What the `finally` block meets: `destroy`, the last sample, the check for dangling containers and
-- the recovery. Only a `ClabError` of the first and third and a `MemoryGuardError` of the last are
-- caught.
pub data DestroyFate : Type 0 where
  destroyed clab_error destroy_raises : DestroyFate

pub data SampleFate : Type 0 where
  sampled reading_raises log_raises : SampleFate

pub data TeardownFate : Type 0 where
  none_dangling some_dangling check_fails check_raises : TeardownFate

pub data RecoveryFate : Type 0 where
  recovers never_recovers recovery_raises recovery_log_raises : RecoveryFate

pub record Ending : Type 0 where
  pub destroying : DestroyFate
  pub sampling : SampleFate
  pub checking : TeardownFate
  pub recovering : RecoveryFate

unfoldable pub destroy : DestroyFate → Run → Outcome
destroy destroyed r = returned (record r { live = false })
destroy clab_error r = returned (record r { notes = r.notes ++ destroy_failed ∷ [] })
destroy destroy_raises r = raised r

-- The sample after the teardown.
unfoldable pub sample_torn_down : SampleFate → Run → Outcome
sample_torn_down sampled r = returned (record_sample post_teardown r)
sample_torn_down reading_raises r = raised r
sample_torn_down log_raises r = raised (record_sample post_teardown r)

-- `_verify_teardown`
unfoldable pub verify_teardown : TeardownFate → Run → Outcome
verify_teardown none_dangling r = returned r
verify_teardown some_dangling r =
    returned (record r { notes = r.notes ++ dangling_containers ∷ [] })
verify_teardown check_fails r = returned (record r { notes = r.notes ++ teardown_unverified ∷ [] })
verify_teardown check_raises r = raised r

-- `_verify_recovery`, which does nothing without a baseline.
unfoldable pub verify_recovery : RecoveryFate → Run → Outcome
verify_recovery fate r = if r.baseline then verify fate else returned r
  where
    verify : RecoveryFate → Outcome
    verify recovers = returned (record_sample recovered r)
    verify never_recovers = returned (record r { notes = r.notes ++ memory_not_recovered ∷ [] })
    verify recovery_raises = raised r
    verify recovery_log_raises = raised (record_sample recovered r)

abbrev pub has_passed : Run → Bool
has_passed r = elim r.status [ passed ↦ true | failed ↦ false ]

unfoldable pub tear_down : Ending → Run → Outcome
unfolding and_then destroy sample_torn_down verify_teardown verify_recovery
tear_down e r = and_then (destroy e.destroying r) (λ r1.
    and_then (sample_torn_down e.sampling r1)
      (λ r2. and_then (verify_teardown e.checking r2) (verify_recovery e.recovering)))

-- The `finally` block.
unfoldable pub finish : Bool → Ending → Run → Outcome
unfolding tear_down
finish keep_lab_on_failure e r =
    if r.lab && (has_passed r || not keep_lab_on_failure) then tear_down e r else returned r

-- `driver = clab or RealClab()` raises if no driver is passed and there is no CLI.
unfoldable pub run_topology : Bool → Hooks → Fates → Bool → Ending → Outcome
unfolding phases try_phases finish
run_topology has_driver hooks f keep_lab_on_failure e =
    if has_driver
    then finish keep_lab_on_failure e (try_phases (phases hooks f) begun)
    else raised begun
