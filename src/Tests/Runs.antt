-- ===== src/Tests/Runs.antt =====
-- A run whose routers do not converge.
use hammerhead_bench.Prelude.{[], false, none, refl, some, true, ℕ_eq, ◌∷◌, ◌≡◌}
use hammerhead_bench.Pipeline.Run.{
  Ending, Fates, Hooks, and_then, deploy_lab, destroy, destroy_raises, destroyed, does_return,
  finish, half_deployed, memory_not_recovered, never_recovers, none_dangling, other_error, phases,
  post_deploy, post_teardown, pre_deploy, run_of, run_topology, sample_torn_down, sampled,
  tear_down, try_phases, verify_recovery, verify_teardown,
}

abbrev timed_out : Fates
timed_out = record {
  first_sample = none;
  first_log = none;
  headroom = none;
  render = none;
  deploy = none;
  deploy_leaves = false;
  second_sample = none;
  second_log = none;
  converge = some other_error;
  extract = none;
  write = none;
  run_batfish = none;
  run_hammerhead = none;
  read_coverage = none;
  compute_diff = none;
}

abbrev both : Hooks
both = record { batfish = true; hammerhead = true }

-- The end returns, but the memory does not recover.
abbrev ending : Ending
ending = record {
  destroying = destroyed;
  sampling = sampled;
  checking = none_dangling;
  recovering = never_recovers;
}

-- The samples of that run, and its note.
timed_out_samples :
    (let r = run_of (run_topology true both timed_out false ending) in
      (r.memory_samples ≡ pre_deploy ∷ post_deploy ∷ post_teardown ∷ [])
      × (r.notes ≡ memory_not_recovered ∷ []))
unfolding run_topology phases deploy_lab half_deployed try_phases finish tear_down and_then destroy
    sample_torn_down verify_teardown verify_recovery
timed_out_samples = (refl, refl)

-- A deploy that runs out of time with containers up leaves them up, even if `destroy` would work.
abbrev half_up : Fates
half_up = record timed_out { deploy = some other_error; deploy_leaves = true }

half_up_stays : (run_of (run_topology true both half_up false ending)).live ≡ true
unfolding run_topology phases deploy_lab half_deployed try_phases finish
half_up_stays = refl

-- A `destroy` that runs out of time leaves the caller without a result.
destroy_times_out :
    does_return
      (run_topology true both timed_out false (record ending { destroying = destroy_raises }))
    ≡ false
unfolding run_topology phases deploy_lab half_deployed try_phases finish tear_down and_then destroy
destroy_times_out = refl
