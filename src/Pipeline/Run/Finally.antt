-- ===== src/Pipeline/Run/Finally.antt =====
-- What the `finally` block keeps of a run, and when it returns.
use hammerhead_bench.Prelude.{Bool, ap, arith, false, not, refl, true, ℕ_eq, ◌&&◌, ◌||◌, ◌∙◌, ◌≡◌}
use hammerhead_bench.Pipeline.Run.{
  DestroyFate, Ending, Outcome, RecoveryFate, Run, SampleFate, TeardownFate, and_then, check_fails,
  check_raises, clab_error, destroy, destroy_raises, destroyed, does_return, log_raises,
  never_recovers, none_dangling, raised, reading_raises, recovers, recovery_log_raises,
  recovery_raises, returned, run_of, sample_torn_down, sampled, some_dangling, tear_down,
  verify_recovery, verify_teardown,
}

-- The paths of the results that are set.
abbrev pub paths_of : Run → Bool × Bool × Bool × Bool
paths_of r = (r.vendor_truth_path, r.batfish_path, r.hammerhead_path, r.diff_path)

-- A part of the end keeps the run but for its samples and notes, with the lab up or down as given.
pub record IsKept (up : Bool) (r r' : Run) : Type 0 where
  pub status : r'.status ≡ r.status
  pub error : r'.error ≡ r.error
  pub paths : paths_of r' ≡ paths_of r
  pub lab : r'.lab ≡ r.lab
  pub baseline : r'.baseline ≡ r.baseline
  pub live : r'.live ≡ up

kept : (r : Run) → IsKept r.live r r
kept r = record {
  status = refl;
  error = refl;
  paths = refl;
  lab = refl;
  baseline = refl;
  live = refl;
}

and_then-IsKept :
    (up : Bool) (r : Run) (o : Outcome) (next : Run → Outcome)
    → IsKept up r (run_of o)
    → ((r' : Run) → IsKept r'.live r' (run_of (next r')))
    → IsKept up r (run_of (and_then o next))
unfolding and_then
and_then-IsKept up r (raised r') next h n = h
and_then-IsKept up r (returned r') next h n =
    let k = n r' in
    record {
      status = k.status ∙ h.status;
      error = k.error ∙ h.error;
      paths = k.paths ∙ h.paths;
      lab = k.lab ∙ h.lab;
      baseline = k.baseline ∙ h.baseline;
      live = k.live ∙ h.live;
    }

-- Whether a part returns.
abbrev pub destroy_returns : DestroyFate → Bool
destroy_returns d = elim d [ destroyed ↦ true | clab_error ↦ true | destroy_raises ↦ false ]

abbrev pub sample_returns : SampleFate → Bool
sample_returns s = elim s [ sampled ↦ true | reading_raises ↦ false | log_raises ↦ false ]

abbrev pub check_returns : TeardownFate → Bool
check_returns t = elim t [
  | none_dangling ↦ true
  | some_dangling ↦ true
  | check_fails ↦ true
  | check_raises ↦ false
]

abbrev pub recovery_returns : RecoveryFate → Bool
recovery_returns v = elim v [
  | recovers ↦ true
  | never_recovers ↦ true
  | recovery_raises ↦ false
  | recovery_log_raises ↦ false
]

abbrev pub destroy_works : DestroyFate → Bool
destroy_works d = elim d [ destroyed ↦ true | clab_error ↦ false | destroy_raises ↦ false ]

destroy-IsKept :
    (d : DestroyFate) (r : Run) → IsKept (r.live && not (destroy_works d)) r (run_of (destroy d r))
unfolding destroy
destroy-IsKept destroyed r = record {
  status = refl;
  error = refl;
  paths = refl;
  lab = refl;
  baseline = refl;
  live = ground arith;
}
destroy-IsKept clab_error r = record {
  status = refl;
  error = refl;
  paths = refl;
  lab = refl;
  baseline = refl;
  live = ground arith;
}
destroy-IsKept destroy_raises r = record {
  status = refl;
  error = refl;
  paths = refl;
  lab = refl;
  baseline = refl;
  live = ground arith;
}

sample_torn_down-IsKept :
    (s : SampleFate) (r : Run) → IsKept r.live r (run_of (sample_torn_down s r))
unfolding sample_torn_down
sample_torn_down-IsKept sampled r = record {
  status = refl;
  error = refl;
  paths = refl;
  lab = refl;
  baseline = refl;
  live = refl;
}
sample_torn_down-IsKept reading_raises r = kept r
sample_torn_down-IsKept log_raises r = record {
  status = refl;
  error = refl;
  paths = refl;
  lab = refl;
  baseline = refl;
  live = refl;
}

verify_teardown-IsKept :
    (t : TeardownFate) (r : Run) → IsKept r.live r (run_of (verify_teardown t r))
unfolding verify_teardown
verify_teardown-IsKept none_dangling r = kept r
verify_teardown-IsKept some_dangling r = record {
  status = refl;
  error = refl;
  paths = refl;
  lab = refl;
  baseline = refl;
  live = refl;
}
verify_teardown-IsKept check_fails r = record {
  status = refl;
  error = refl;
  paths = refl;
  lab = refl;
  baseline = refl;
  live = refl;
}
verify_teardown-IsKept check_raises r = kept r

verify_recovery-IsKept :
    (v : RecoveryFate) (r : Run) → IsKept r.live r (run_of (verify_recovery v r))
unfolding verify_recovery
verify_recovery-IsKept v r = record {
  status = ground arith;
  error = ground arith;
  paths = ground arith;
  lab = ground arith;
  baseline = ground arith;
  live = ground arith;
}

pub tear_down-IsKept :
    (e : Ending) (r : Run)
    → IsKept (r.live && not (destroy_works e.destroying)) r (run_of (tear_down e r))
unfolding tear_down
tear_down-IsKept e r =
    and_then-IsKept _ r (destroy e.destroying r) _ (destroy-IsKept e.destroying r) (λ r1.
      and_then-IsKept _ r1 (sample_torn_down e.sampling r1) _
        (sample_torn_down-IsKept e.sampling r1)
        (λ r2.
          and_then-IsKept _ r2 (verify_teardown e.checking r2) _
            (verify_teardown-IsKept e.checking r2) (verify_recovery-IsKept e.recovering)))

-- The whole end returns; the recovery counts only if there is a baseline.
abbrev pub ending_returns : Ending → Bool → Bool
ending_returns e baseline =
    destroy_returns e.destroying
    && (sample_returns e.sampling
        && (check_returns e.checking && (not baseline || recovery_returns e.recovering)))

both : {a b c d : Bool} → a ≡ b → c ≡ d → (a && c) ≡ (b && d)
both p q = λ i. p i && q i

does_return-and_then :
    (o : Outcome) (next : Run → Outcome)
    → does_return (and_then o next) ≡ (does_return o && does_return (next (run_of o)))
unfolding and_then
does_return-and_then (returned r) next = refl
does_return-and_then (raised r) next = refl

does_return-destroy : (d : DestroyFate) (r : Run) → does_return (destroy d r) ≡ destroy_returns d
unfolding destroy
does_return-destroy d r = ground arith

does_return-sample_torn_down :
    (s : SampleFate) (r : Run) → does_return (sample_torn_down s r) ≡ sample_returns s
unfolding sample_torn_down
does_return-sample_torn_down s r = ground arith

does_return-verify_teardown :
    (t : TeardownFate) (r : Run) → does_return (verify_teardown t r) ≡ check_returns t
unfolding verify_teardown
does_return-verify_teardown t r = ground arith

does_return-verify_recovery :
    (v : RecoveryFate) (r : Run)
    → does_return (verify_recovery v r) ≡ (not r.baseline || recovery_returns v)
unfolding verify_recovery
does_return-verify_recovery v r = ground arith

pub does_return-tear_down :
    (e : Ending) (r : Run) → does_return (tear_down e r) ≡ ending_returns e r.baseline
unfolding tear_down
does_return-tear_down e r =
    let r1 = run_of (destroy e.destroying r) in
    let r2 = run_of (sample_torn_down e.sampling r1) in
    let r3 = run_of (verify_teardown e.checking r2) in
    let based : r3.baseline ≡ r.baseline =
      (verify_teardown-IsKept e.checking r2).baseline
      ∙ (sample_torn_down-IsKept e.sampling r1).baseline
      ∙ (destroy-IsKept e.destroying r).baseline in
    does_return-and_then (destroy e.destroying r) _
    ∙ both (does_return-destroy e.destroying r) (
        does_return-and_then (sample_torn_down e.sampling r1) _
        ∙ both (does_return-sample_torn_down e.sampling r1) (
            does_return-and_then (verify_teardown e.checking r2) _
            ∙ both (does_return-verify_teardown e.checking r2) (
                does_return-verify_recovery e.recovering r3
                ∙ ap (λ b. not b || recovery_returns e.recovering) based)))
