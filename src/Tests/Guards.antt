-- ===== src/Tests/Guards.antt =====
-- A router that converges, a host that recovers, and a corpus of two topologies.
use hammerhead_bench.Prelude.{
  List, [], all, any, arith, codes, false, filter, int_eq, is_some, leb, none, option_beq,
  option_eq, pos, refl, some, true, ℕ, ℕ_eq, ℤ_eq, ◌*◌, ◌+◌, ◌-◌, ◌↔◌, ◌∷◌, ◌≡◌,
}
use hammerhead_bench.Prelude.Ratio.{Ratio}
use hammerhead_bench.Adapters.Convergence.{
  Poll, Reading, failed, poll_step, routes, sample_interval, sessions_down, wait_for_convergence,
  watch_loop,
}
use hammerhead_bench.Adapters.Convergence.Laws.{EndsAt, wait_for_convergence-EndsAt}
use hammerhead_bench.Adapters.Convergence.Progress.{Paced, wait_for_convergence_ends}
use hammerhead_bench.Adapters.Convergence.Liveness.{
  InOrder, is_timely, wait_for_convergence_returns,
}
use hammerhead_bench.Memory.{
  MemoryPoll, assert_recovered_to_baseline, check_headroom_before_deploy, negative, passed,
  recovery_loop, size_of,
}
use hammerhead_bench.Memory.Laws.{
  HasHeadroom, Recovery, Ticking, assert_recovered_to_baseline-Recovery,
  assert_recovered_to_baseline_ends, check_headroom_before_deploy-HasHeadroom,
}
use hammerhead_bench.Diff.Metrics.{TopologyMetrics, aggregate}
use hammerhead_bench.Batfish.Service.{
  Call, call_close, call_run, call_start, close, count_run, fresh, no_container, not_ready, perform,
  perform_all, raised, ran, ready, returned, run_one, start, stop_container, stopped, work_on,
}
use hammerhead_bench.Batfish.Service.Laws.{IsTidy, perform_all-IsTidy}
use hammerhead_bench.Batfish.Service.Warm.{ColdFirst, perform_all-ColdFirst}
use hammerhead_bench.Batfish.Service.Refinement.{Trace, perform_all-Trace, switch_of, switched_off}
use hammerhead_bench.Tests.Diffs.{records}

abbrev poll : ℕ → Reading → Poll
poll at reading = record { at = at; reading = reading; now = at + 100 }

-- Sessions come up, and three samples agree; a failed pass between them does not count.
abbrev polls : List Poll
polls =
    poll 0 sessions_down
    ∷ poll 3000 (routes 4)
    ∷ poll 19000 (routes 4)
    ∷ poll 20000 failed
    ∷ poll 36000 (routes 4)
    ∷ []

polls_converge : wait_for_convergence 0 300000 polls ≡ some true
unfolding wait_for_convergence watch_loop poll_step option_beq
polls_converge = refl

wait_for_convergence-EndsAt_example : EndsAt (0 + 300000) [] polls
wait_for_convergence-EndsAt_example = wait_for_convergence-EndsAt 0 300000 polls polls_converge

polls_ordered : InOrder 0 (poll 0 sessions_down ∷ poll 3000 (routes 4) ∷ poll 19000 (routes 4) ∷ [])
polls_ordered = ground arith

calm_polls :
    all (is_timely (0 + 300000)) (
      poll 0 sessions_down
      ∷ poll 3000 (routes 4)
      ∷ poll 19000 (routes 4)
      ∷ poll 36000 (routes 4)
      ∷ [])
    ≡ true
unfolding all
calm_polls = refl

late_poll :
    any (λ (x : Poll). leb (19100 + sample_interval) x.now) (poll 36000 (routes 4) ∷ []) ≡ true
unfolding any
late_poll = refl

wait_for_convergence_returns_example :
    wait_for_convergence 0 300000 (
      poll 0 sessions_down
      ∷ poll 3000 (routes 4)
      ∷ poll 19000 (routes 4)
      ∷ poll 36000 (routes 4)
      ∷ [])
    ≡ some true
wait_for_convergence_returns_example =
    wait_for_convergence_returns 0 300000 4 (poll 0 sessions_down ∷ []) (poll 3000 (routes 4))
      (poll 19000 (routes 4)) (poll 36000 (routes 4) ∷ []) polls_ordered (refl, (refl, (refl, tt)))
      calm_polls late_poll

polls-Paced : Paced 0 polls
polls-Paced = ground arith

wait_for_convergence_ends_example : is_some (wait_for_convergence 0 4000 polls) ≡ true
wait_for_convergence_ends_example = wait_for_convergence_ends 0 4000 polls polls-Paced (omega arith)

abbrev double : Ratio
double = record { num = 2; den = 1 }

check_headroom_before_deploy-HasHeadroom_example :
    (check_headroom_before_deploy (pos 512) double 1024 ≡ none) ↔ HasHeadroom (pos 512) double 1024
check_headroom_before_deploy-HasHeadroom_example =
    check_headroom_before_deploy-HasHeadroom (pos 512) double 1024 (omega arith)

abbrev memory : List MemoryPoll
memory = record { available = 7000; now = 10 } ∷ record { available = 7600; now = 1020 } ∷ []

memory_recovers :
    assert_recovered_to_baseline (pos 8000) (pos 500) (pos 30) 0 memory ≡ some (passed 7600)
unfolding assert_recovered_to_baseline negative size_of recovery_loop int_eq
memory_recovers = refl

assert_recovered_to_baseline-Recovery_example :
    Recovery (8000 - 500) (0 + 1000 * 30) memory (passed 7600)
assert_recovered_to_baseline-Recovery_example =
    assert_recovered_to_baseline-Recovery 8000 500 30 0 memory (passed 7600) (omega arith)
      memory_recovers

memory-Ticking : Ticking 0 memory
memory-Ticking = ground arith

assert_recovered_to_baseline_ends_example :
    is_some (assert_recovered_to_baseline (pos 8000) (pos 500) (pos 1) 0 memory) ≡ true
unfolding size_of
assert_recovered_to_baseline_ends_example =
    assert_recovered_to_baseline_ends (pos 8000) (pos 500) (pos 1) 0 memory memory-Ticking
      (omega arith)

abbrev line : TopologyMetrics
line = aggregate (codes "line") records

-- A service that starts, runs, closes, and starts again for another run.
abbrev calls : List Call
calls =
    call_start (ready 9000) stopped
    ∷ call_run no_container stopped true
    ∷ call_close stopped
    ∷ call_run not_ready stopped true
    ∷ call_run (ready 8000) stopped true
    ∷ []

perform_all-IsTidy_example :
    IsTidy (perform_all calls fresh).0 × ((close stopped (perform_all calls fresh).0).running ≡ [])
perform_all-IsTidy_example = perform_all-IsTidy calls (refl, (refl, (refl, (refl, (refl, tt)))))

perform_all-ColdFirst_example : ColdFirst (perform_all calls fresh).1
perform_all-ColdFirst_example = perform_all-ColdFirst calls

perform_all-Trace_example :
    Trace switched_off calls (switch_of (perform_all calls fresh).0) (perform_all calls fresh).1
perform_all-Trace_example = perform_all-Trace calls

-- The second run pays for a start of 8 s and is reported as warm, at no cost.
restart_is_warm :
    (perform_all calls fresh).1 ≡ returned ∷ ran false 9000 ∷ returned ∷ raised ∷ ran true 0 ∷ []
unfolding perform_all perform start close run_one work_on count_run stop_container filter
restart_is_warm = refl
