-- ===== src/Pipeline/Timing.antt =====
-- harness/pipeline.py: the times, the memory and the ratios of `SimOnlyAgreement`.
pub mod Laws
use hammerhead_bench.Prelude.{
  List, Option, Text, if◌then◌else◌, leb, length, ltb, none, some, ℕ, ℕ_eq, ◌*◌,
}
use hammerhead_bench.Prelude.Ratio.{Ratio}
use hammerhead_bench.Pipeline.Coverage.{CoverageFields, rollup_hammerhead_coverage}
use hammerhead_bench.Pipeline.Trials.{Series}
use hammerhead_bench.Pipeline.Means.{
  Summary, cold_and_warm, first_of, mean_or_none, sim_plus_rib_mean, sim_plus_rib_series,
  summarize_timings, total,
}

-- The keys of `trials_payload`, and those of `stats_payload`.
pub record Payload (A : Type 0) : Type 0 where
  pub batfish_wall_s : A
  pub hammerhead_wall_s : A
  pub batfish_simulate_s : A
  pub hammerhead_simulate_s : A
  pub hammerhead_rib_total_s : A
  pub hammerhead_simulate_plus_rib_s : A
  pub batfish_init_snapshot_s : A

unfoldable pub trials_payload : Series → Payload (List ℕ)
unfolding sim_plus_rib_series
trials_payload s = record {
  batfish_wall_s = s.batfish_walls;
  hammerhead_wall_s = s.hammer_walls;
  batfish_simulate_s = s.batfish_sims;
  hammerhead_simulate_s = s.hammer_sims;
  hammerhead_rib_total_s = s.hammer_ribs;
  hammerhead_simulate_plus_rib_s = sim_plus_rib_series s.hammer_sims s.hammer_ribs;
  batfish_init_snapshot_s = s.batfish_inits;
}

unfoldable pub stats_payload : Payload (List ℕ) → Payload (Option Summary)
unfolding summarize_timings
stats_payload p = record {
  batfish_wall_s = summarize_timings p.batfish_wall_s;
  hammerhead_wall_s = summarize_timings p.hammerhead_wall_s;
  batfish_simulate_s = summarize_timings p.batfish_simulate_s;
  hammerhead_simulate_s = summarize_timings p.hammerhead_simulate_s;
  hammerhead_rib_total_s = summarize_timings p.hammerhead_rib_total_s;
  hammerhead_simulate_plus_rib_s = summarize_timings p.hammerhead_simulate_plus_rib_s;
  batfish_init_snapshot_s = summarize_timings p.batfish_init_snapshot_s;
}

abbrev max2 : ℕ → ℕ → ℕ
max2 a b = if ltb a b then b else a

unfoldable pub trial_count : Series → ℕ
trial_count s =
    max2 (max2 (max2 (length s.batfish_walls) (length s.hammer_walls)) (length s.batfish_sims))
      (length s.hammer_sims)

-- The mean peak of a simulator with where it comes from; without a mean it comes from nowhere.
pub record Peak : Type 0 where
  pub peak_rss_mb : Option Ratio
  pub peak_rss_source : Option Text
  pub peak_rss_sample_count : ℕ

unfoldable pub peak_of : List ℕ → List Text → List ℕ → Peak
unfolding mean_or_none total
peak_of peaks sources samples = elim (mean_or_none peaks) [
  | none ↦ record { peak_rss_mb = none; peak_rss_source = none; peak_rss_sample_count = 0 }
  | some mb ↦ record {
    peak_rss_mb = some mb;
    peak_rss_source = first_of sources;
    peak_rss_sample_count = total samples;
  }
]

-- The fields of `SimOnlyAgreement` that do not come from the FIBs.
pub record Timing : Type 0 where
  pub batfish_wall_s : Option Ratio
  pub hammerhead_wall_s : Option Ratio
  pub batfish_simulate_s : Option Ratio
  pub hammerhead_simulate_s : Option Ratio
  pub hammerhead_rib_total_s : Option Ratio
  pub hammerhead_simulate_plus_rib_s : Option Ratio
  pub batfish_init_snapshot_s : Option Ratio
  pub batfish_simulate_s_cold : Option ℕ
  pub batfish_simulate_s_warm_mean : Option Ratio
  pub batfish_container_start_s : Option ℕ
  pub batfish_peak : Peak
  pub hammerhead_peak : Peak
  pub trials : Option (ℕ × Payload (List ℕ))
  pub trial_stats : Option (Payload (Option Summary))
  pub coverage : CoverageFields

unfoldable pub timing_of : Series → Option ℕ → Timing
unfolding mean_or_none sim_plus_rib_mean cold_and_warm peak_of trial_count trials_payload
    stats_payload
timing_of s container_start =
    let n = trial_count s in
    record {
      batfish_wall_s = mean_or_none s.batfish_walls;
      hammerhead_wall_s = mean_or_none s.hammer_walls;
      batfish_simulate_s = mean_or_none s.batfish_sims;
      hammerhead_simulate_s = mean_or_none s.hammer_sims;
      hammerhead_rib_total_s = mean_or_none s.hammer_ribs;
      hammerhead_simulate_plus_rib_s = sim_plus_rib_mean s.hammer_sims s.hammer_ribs;
      batfish_init_snapshot_s = mean_or_none s.batfish_inits;
      batfish_simulate_s_cold = (cold_and_warm s.batfish_sims s.batfish_warms).0;
      batfish_simulate_s_warm_mean = (cold_and_warm s.batfish_sims s.batfish_warms).1;
      batfish_container_start_s = container_start;
      batfish_peak = peak_of s.batfish_peaks s.batfish_peak_sources s.batfish_peak_samples;
      hammerhead_peak = peak_of s.hammer_peaks s.hammer_peak_sources s.hammer_peak_samples;
      trials = if leb 2 n then some (n, trials_payload s) else none;
      trial_stats = if leb 2 n then some (stats_payload (trials_payload s)) else none;
      coverage = rollup_hammerhead_coverage s.hammer_coverages;
    }

-- `a / b`, unless one is missing or `b` is not positive.
unfoldable pub ratio_of : Option Ratio → Option Ratio → Option Ratio
ratio_of (some a) (some b) =
    if ltb 0 b.num then some (record { num = a.num * b.den; den = a.den * b.num }) else none
ratio_of _ _ = none

-- `SimOnlyAgreement.solve_ratio`
unfoldable pub solve_ratio : Timing → Option Ratio
unfolding ratio_of
solve_ratio t = ratio_of t.batfish_simulate_s t.hammerhead_simulate_s

-- `SimOnlyAgreement.solve_plus_materialize_ratio`
unfoldable pub solve_plus_materialize_ratio : Timing → Option Ratio
unfolding ratio_of
solve_plus_materialize_ratio t = ratio_of t.batfish_simulate_s t.hammerhead_simulate_plus_rib_s

-- `SimOnlyAgreement.wall_ratio`
unfoldable pub wall_ratio : Timing → Option Ratio
unfolding ratio_of
wall_ratio t = ratio_of t.batfish_wall_s t.hammerhead_wall_s
