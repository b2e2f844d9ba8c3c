-- ===== src/Tests/Trials.antt =====
-- Three trials of the service, whose first one is cold, and of Hammerhead, which once reports no
-- time for its tables.
use hammerhead_bench.Prelude.{
  Bool, List, Option, String, [], codes, false, filter, is_empty, list_eq, none, option_eq, refl,
  some, true, ℕ, ℕ_eq, ℤ_eq, ◌*◌, ◌∷◌, ◌≡◌,
}
use hammerhead_bench.Prelude.Order.{ℕ_order}
use hammerhead_bench.Prelude.Ratio.{Ratio}
use hammerhead_bench.Json.Fields.{ok}
use hammerhead_bench.Fib.{LoopbackPolicy, NodeFib, Protocol_eq}
use hammerhead_bench.Prelude.Sort.{insert, sort}
use hammerhead_bench.Diff.Key.{RouteKey_eq}
use hammerhead_bench.Pipeline.Trials.{
  BatfishReading, HammerReading, Series, Trial, hammer_trial, no_series, service, simulate_le_total,
  warm_of,
}
use hammerhead_bench.Pipeline.Trials.Laws.{entries}
use hammerhead_bench.Pipeline.Means.{cold_and_warm, mean_or_none, sims_where, total}
use hammerhead_bench.Pipeline.Timing.{solve_plus_materialize_ratio, solve_ratio, timing_of}
use hammerhead_bench.Pipeline.Timing.Laws.{IsAtMost, solve_plus_materialize_ratio-IsAtMost}
use hammerhead_bench.Pipeline.SimOnlyRun.{
  Agreement, BenchHooks, SimOnlyResult, World, run_topology_sim_only, try_trials,
}
use hammerhead_bench.Pipeline.SimOnlyRun.Laws.{IsSimOnlyRun, run_topology_sim_only-IsSimOnlyRun}
use hammerhead_bench.Pipeline.SimOnly.{compute_sim_only_agreement}
use hammerhead_bench.Pipeline.Corpus.{Scored, aggregate_sim_only, summary_of}
use hammerhead_bench.Pipeline.Corpus.Comparisons.{compute_sim_only_agreement-IsComparison}
use hammerhead_bench.Pipeline.Corpus.Laws.{Flattered, aggregate_sim_only-Flattered}
use hammerhead_bench.Aggregate.{
  WeightedSample, interpolate, is_positive, item, quantile, reductions_of, summarize_ratios,
}
use hammerhead_bench.Aggregate.Laws.{IsSummary, summarize_ratios-IsSummary}
use hammerhead_bench.Tests.Scores.{bat, ham}

abbrev batfish_run : ℕ → ℕ → Bool → BatfishReading
batfish_run wall sim is_warm = record {
  wall = wall;
  simulate_s = some sim;
  init_snapshot_s = none;
  total_s = some wall;
  peak_rss_mb = some 900;
  peak_rss_source = some (codes "docker-stats");
  peak_rss_sample_count = some 4;
  warm = is_warm;
}

abbrev hammer_run : ℕ → Option ℕ → HammerReading
hammer_run sim rib = record {
  wall = 700000;
  simulate_s = some sim;
  rib_total_s = rib;
  total_s = some 600000;
  peak_rss_mb = none;
  peak_rss_source = some (codes "rusage");
  peak_rss_sample_count = some 0;
  coverage = record { status = none; degraded = some false; blockers = none };
}

abbrev three : List Trial
three =
    (some (batfish_run 9000000 4000000 false), some (hammer_run 200000 (some 50000)))
    ∷ (some (batfish_run 5000000 3000000 true), some (hammer_run 300000 none))
    ∷ (some (batfish_run 5000000 2000000 true), some (hammer_run 100000 (some 70000)))
    ∷ []

abbrev with_service : BenchHooks
with_service = record {
  has_service = true;
  has_callable = true;
  hammerhead = true;
  loopback_policy = LoopbackPolicy.strip;
}

abbrev world : World
world = record {
  renders = true;
  trials = three;
  fibs = some ([], []);
  writes = true;
  container_start_s = some 60000000;
  templates = (codes "frr.conf.j2" ∷ []) ∷ [] ∷ [];
}

abbrev three_result : SimOnlyResult
three_result = try_trials with_service world true

three_returned : run_topology_sim_only with_service world ≡ ok three_result
unfolding run_topology_sim_only
three_returned = refl

run_topology_sim_only-IsSimOnlyRun_example : IsSimOnlyRun with_service world three_result
run_topology_sim_only-IsSimOnlyRun_example =
    run_topology_sim_only-IsSimOnlyRun with_service world three_result three_returned

abbrev three_series : Series
three_series = entries service true three

-- One trial has no time for the tables, so the denominator is the sum of two means.
three_asym :
    solve_ratio (timing_of three_series none)
    ≡ some (record { num = 9000000 * 3; den = 3 * 600000 })
unfolding solve_ratio timing_of mean_or_none total
three_asym = refl

solve_plus_materialize_ratio-IsAtMost_example :
    (fair : Ratio) × (solve_plus_materialize_ratio (timing_of three_series none) ≡ some fair)
    × IsAtMost fair (record { num = 9000000 * 3; den = 3 * 600000 })
solve_plus_materialize_ratio-IsAtMost_example =
    solve_plus_materialize_ratio-IsAtMost three_series none
      (record { num = 9000000 * 3; den = 3 * 600000 }) three_asym

-- The cold time is that of the first trial, the warm one the mean of the others.
three_cold :
    cold_and_warm three_series.batfish_sims three_series.batfish_warms
    ≡ (some 4000000, some (record { num = 5000000; den = 2 }))
unfolding cold_and_warm sims_where mean_or_none total is_empty warm_of
three_cold = refl

-- A solving time of 700 ms in a run of 500 ms is refused.
aliased_times : hammer_trial true (some (hammer_run 800000 none)) no_series ≡ none
unfolding hammer_trial simulate_le_total
aliased_times = refl

abbrev sample : String → ℕ → ℕ → WeightedSample
sample name ratio weight = record { label = codes name; ratio = ratio; weight = weight }

-- Four ratios, of which one is excluded.
abbrev samples : List WeightedSample
samples = sample "a" 40 1 ∷ sample "b" 0 7 ∷ sample "c" 10 3 ∷ sample "d" 20 0 ∷ []

samples_median : (summarize_ratios samples).reductions.median ≡ some (record { num = 80; den = 4 })
unfolding summarize_ratios reductions_of quantile interpolate item filter sort insert is_positive
samples_median = refl

samples_p75 : (summarize_ratios samples).reductions.p75 ≡ some (record { num = 120; den = 4 })
unfolding summarize_ratios reductions_of quantile interpolate item filter sort insert is_positive
samples_p75 = refl

summarize_ratios-IsSummary_example : IsSummary samples (summarize_ratios samples)
summarize_ratios-IsSummary_example = summarize_ratios-IsSummary samples

-- A corpus of two topologies, where Batfish has no route in the second.
abbrev topology : List NodeFib → List NodeFib → Agreement
topology batfish hammerhead =
    let scored = compute_sim_only_agreement batfish hammerhead LoopbackPolicy.strip in
    record {
      nodes = 1;
      scores = scored.0;
      records = scored.1;
      timing = timing_of three_series none;
    }

abbrev scored_corpus : List Scored
scored_corpus = (codes "line", topology bat ham) ∷ (codes "ring", topology [] ham) ∷ []

scored_corpus_summary :
    (aggregate_sim_only 1000 scored_corpus).summary ≡ some (summary_of 1000 scored_corpus)
unfolding aggregate_sim_only
scored_corpus_summary = refl

aggregate_sim_only-Flattered_example : Flattered (summary_of 1000 scored_corpus)
aggregate_sim_only-Flattered_example =
    aggregate_sim_only-Flattered 1000 scored_corpus (summary_of 1000 scored_corpus)
      (
        compute_sim_only_agreement-IsComparison bat ham LoopbackPolicy.strip,
        (compute_sim_only_agreement-IsComparison [] ham LoopbackPolicy.strip, tt),
      )
      scored_corpus_summary
