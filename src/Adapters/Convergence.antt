-- ===== src/Adapters/Convergence.antt =====
-- `wait_for_convergence` of harness/adapters/frr.py and harness/adapters/ceos.py. Times are those
-- of the monotonic clock in milliseconds. What the router answers and when is the list of polls.
pub mod Laws
pub mod Progress
pub mod Liveness
use hammerhead_bench.Prelude.{
  Bool, List, Option, [], count, false, if◌then◌else◌, leb, ltb, none, option_eq, some, true, ℕ,
  ℕ_eq, ◌+◌, ◌==◌, ◌∷◌,
}

-- What one pass of the loop reads: an error of the CLI or of its JSON, BGP sessions that are not
-- all established, or the number of routes with all sessions established.
pub data Reading : Type 0 where
  failed : Reading
  sessions_down : Reading
  routes : ℕ → Reading

-- One pass: the clock at the loop's test, the reading, and the clock after it.
pub record Poll : Type 0 where
  pub at : ℕ
  pub reading : Reading
  pub now : ℕ

-- `CONVERGENCE_SAMPLE_INTERVAL_S`, in milliseconds.
abbrev pub sample_interval : ℕ
sample_interval = 15000

-- The local variables of the loop.
pub record Watch : Type 0 where
  pub prev_count : Option ℕ
  pub stable_since : Option ℕ

abbrev pub started : Watch
started = record { prev_count = none; stable_since = none }

-- What a pass does: return `True`, or go on with new variables.
pub data Outcome : Type 0 where
  converged : Outcome
  go_on : Watch → Outcome

unfoldable pub poll_step : Watch → Poll → Outcome
poll_step w p = elim p.reading [
  | failed ↦ go_on w
  | sessions_down ↦ go_on started
  | routes count ↦
      if w.prev_count == some count
      then elim w.stable_since [
        | none ↦ go_on (record { prev_count = some count; stable_since = some p.now })
        | some since ↦
            if leb (since + sample_interval) p.now
            then converged
            else go_on (record { prev_count = some count; stable_since = some since })
      ]
      else go_on (record { prev_count = some count; stable_since = none })
]

-- The loop; `none` says that the polls given do not reach its end.
unfoldable pub watch_loop : ℕ → Watch → List Poll → Option Bool
unfolding poll_step
watch_loop deadline w [] = none
watch_loop deadline w (p ∷ ps) =
    if ltb p.at deadline
    then elim (poll_step w p) [ converged ↦ some true | go_on w' ↦ watch_loop deadline w' ps ]
    else some false

-- `wait_for_convergence`, called at the time `start`.
unfoldable pub wait_for_convergence : ℕ → ℕ → List Poll → Option Bool
unfolding watch_loop
wait_for_convergence start timeout polls = watch_loop (start + timeout) started polls
