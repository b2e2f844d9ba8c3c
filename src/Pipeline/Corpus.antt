-- ===== src/Pipeline/Corpus.antt =====
-- harness/pipeline.py: `aggregate_sim_only`, the summary of a corpus of head-to-head scores. The
-- ratios are measured in units, so many to the number one, for `summarize_ratios`.
pub mod Comparisons
pub mod Laws
use hammerhead_bench.Prelude.{
  Bool, List, Option, Text, [], filter, if◌then◌else◌, is_empty, length, list_eq, ltb, map, nat_eq,
  none, not, some, ℕ, ℕ_eq, ◌*◌, ◌+◌, ◌/◌, ◌∷◌,
}
use hammerhead_bench.Prelude.Dict.{dedup}
use hammerhead_bench.Prelude.Ratio.{Ratio, mean, sum}
use hammerhead_bench.Aggregate.{RatioSummary, WeightedSample, summarize_ratios}
use hammerhead_bench.Pipeline.Coverage.{
  CoverageFields, CoverageSummary, is_false, summarize_hammerhead_coverage,
}
use hammerhead_bench.Pipeline.SimOnly.{coverage}
use hammerhead_bench.Pipeline.Means.{maximum}
use hammerhead_bench.Pipeline.Timing.{
  Peak, Timing, solve_plus_materialize_ratio, solve_ratio, wall_ratio,
}
use hammerhead_bench.Pipeline.SimOnlyRun.{Agreement}

-- The scores of a topology, with its name.
abbrev pub Scored : Type 0
Scored = Text × Agreement

abbrev pub is_covered : Scored → Bool
is_covered (topology, a) = ltb 0 a.scores.both_sides_keys

abbrev pub is_complete : Scored → Bool
is_complete (topology, a) = is_false a.timing.coverage.degraded

abbrev pub next_hop_of : Scored → Ratio
next_hop_of (topology, a) = a.scores.next_hop_agreement

abbrev pub protocol_score : Scored → Ratio
protocol_score (topology, a) = a.scores.protocol_agreement

abbrev pub bgp_attr_of : Scored → Ratio
bgp_attr_of (topology, a) = a.scores.bgp_attr_agreement

-- `_mean_or_none`, of rates.
unfoldable pub rate_mean_or_none : List Ratio → Option Ratio
rate_mean_or_none [] = none
rate_mean_or_none (x ∷ xs) = some (mean (x ∷ xs))

-- `hammerhead_coverage_summary`, with the means over the covered topologies that are complete.
pub record CompleteMeans : Type 0 where
  pub summary : CoverageSummary
  pub covered_complete_topology_count : ℕ
  pub next_hop_agreement_mean_covered_complete : Option Ratio
  pub protocol_agreement_mean_covered_complete : Option Ratio
  pub bgp_attr_agreement_mean_covered_complete : Option Ratio

abbrev coverage_item : Scored → Text × CoverageFields
coverage_item (topology, a) = (topology, a.timing.coverage)

unfoldable pub complete_means : List Scored → CompleteMeans
unfolding rate_mean_or_none
complete_means per_topology =
    let covered_complete = filter is_complete (filter is_covered per_topology) in
    record {
      summary = summarize_hammerhead_coverage (map coverage_item per_topology);
      covered_complete_topology_count = length covered_complete;
      next_hop_agreement_mean_covered_complete =
          rate_mean_or_none (map next_hop_of covered_complete);
      protocol_agreement_mean_covered_complete =
          rate_mean_or_none (map protocol_score covered_complete);
      bgp_attr_agreement_mean_covered_complete =
          rate_mean_or_none (map bgp_attr_of covered_complete);
    }

-- `(a.trials or {}).get("n", 1)`
abbrev pub trials_of : Scored → ℕ
trials_of (topology, a) = elim a.timing.trials [ none ↦ 1 | some payload ↦ payload.0 ]

unfoldable pub max_or : ℕ → List ℕ → ℕ
max_or n [] = n
max_or n (x ∷ xs) = maximum x xs

-- `trials_n`
unfoldable pub common_trials : List Scored → ℕ
unfolding max_or
common_trials per_topology = elim (dedup (map trials_of per_topology)) [
  | [] ↦ 1
  | n ∷ more ↦ if is_empty more then n else max_or 1 (n ∷ more)
]

-- A ratio in units, or 0.0.
unfoldable pub in_units : ℕ → Option Ratio → ℕ
in_units unit none = 0
in_units unit (some r) = r.num * unit / r.den

-- `_mk_samples`
unfoldable pub mk_samples : ℕ → (Timing → Option Ratio) → List Scored → List WeightedSample
unfolding in_units
mk_samples unit getter [] = []
mk_samples unit getter ((topology, a) ∷ items) =
    record {
      label = topology;
      ratio = in_units unit (getter a.timing);
      weight = if ltb 0 a.scores.batfish_routes then a.scores.batfish_routes else 1;
    }
    ∷ mk_samples unit getter items

-- What `_peak_summary` returns; `mixed` stands for "mixed".
pub data PeakSource : Type 0 where
  no_source mixed : PeakSource
  one_source : Text → PeakSource

pub record PeakSummary : Type 0 where
  pub max_mb : Option Ratio
  pub mean_mb : Option Ratio
  pub source : PeakSource
  pub sample_count : ℕ
  pub topology_count : ℕ

abbrev ratio_ltb : Ratio → Ratio → Bool
ratio_ltb a b = ltb (a.num * b.den) (b.num * a.den)

unfoldable pub max_ratio : Ratio → List Ratio → Ratio
max_ratio x [] = x
max_ratio x (y ∷ ys) = max_ratio (if ratio_ltb x y then y else x) ys

unfoldable pub present_values {ℓ} : {A : Type ℓ} → List (Option A) → List A
present_values [] = []
present_values (o ∷ os) = let rest = present_values os in elim o [ none ↦ rest | some a ↦ a ∷ rest ]

-- `sources[0] if len(sources) == 1 else ("mixed" if sources else None)`
unfoldable pub source_of : List Text → PeakSource
source_of sources = elim (dedup (filter (λ s. not (is_empty s)) sources)) [
  | [] ↦ no_source
  | s ∷ more ↦ if is_empty more then one_source s else mixed
]

unfoldable pub count_total : List ℕ → ℕ
count_total [] = 0
count_total (x ∷ xs) = x + count_total xs

unfoldable pub peak_summary : List Peak → PeakSummary
unfolding max_ratio present_values source_of count_total
peak_summary peaks = elim (present_values (map (λ (p : Peak). p.peak_rss_mb) peaks)) [
  | [] ↦ record {
    max_mb = none;
    mean_mb = none;
    source = no_source;
    sample_count = 0;
    topology_count = 0;
  }
  | mb ∷ mbs ↦ record {
    max_mb = some (max_ratio mb mbs);
    mean_mb = some (mean (mb ∷ mbs));
    source = source_of (present_values (map (λ (p : Peak). p.peak_rss_source) peaks));
    sample_count = count_total (map (λ (p : Peak). p.peak_rss_sample_count) peaks);
    topology_count = length (mb ∷ mbs);
  }
]

-- The means of the three agreements.
pub record AgreementMeans : Type 0 where
  pub next_hop : Ratio
  pub protocol : Ratio
  pub bgp_attr : Ratio

unfoldable pub agreement_means : List Scored → AgreementMeans
agreement_means items = record {
  next_hop = mean (map next_hop_of items);
  protocol = mean (map protocol_score items);
  bgp_attr = mean (map bgp_attr_of items);
}

abbrev or_zero : Option Ratio → Ratio
or_zero none = record { num = 0; den = 1 }
or_zero (some r) = r

-- The keys of the summary of a corpus that is not empty.
pub record CorpusSummary : Type 0 where
  pub covered_topology_count : ℕ
  pub trials : ℕ
  pub mean_coverage : Ratio
  pub agreement_mean : AgreementMeans
  pub agreement_mean_covered : AgreementMeans
  pub total_batfish_routes : ℕ
  pub total_hammerhead_routes : ℕ
  pub total_batfish_wall_s : Ratio
  pub total_hammerhead_wall_s : Ratio
  pub presence_strict_mean : Ratio
  pub presence_reconciled_mean : Ratio
  pub fair_ratio_summary : RatioSummary
  pub wall_ratio_summary : RatioSummary
  pub asym_ratio_summary : RatioSummary
  pub batfish_peak_rss_summary : PeakSummary
  pub hammerhead_peak_rss_summary : PeakSummary

pub record SimOnlyCorpus : Type 0 where
  pub topology_count : ℕ
  pub hammerhead_coverage_summary : CompleteMeans
  pub summary : Option CorpusSummary

unfoldable pub summary_of : ℕ → List Scored → CorpusSummary
unfolding common_trials agreement_means mk_samples peak_summary
summary_of unit items = record {
  covered_topology_count = length (filter is_covered items);
  trials = common_trials items;
  mean_coverage = mean (map (λ (s : Scored). coverage s.1.scores) items);
  agreement_mean = agreement_means items;
  agreement_mean_covered = agreement_means (filter is_covered items);
  total_batfish_routes = count_total (map (λ (s : Scored). s.1.scores.batfish_routes) items);
  total_hammerhead_routes = count_total (map (λ (s : Scored). s.1.scores.hammerhead_routes) items);
  total_batfish_wall_s = sum (map (λ (s : Scored). or_zero s.1.timing.batfish_wall_s) items);
  total_hammerhead_wall_s = sum (map (λ (s : Scored). or_zero s.1.timing.hammerhead_wall_s) items);
  presence_strict_mean = mean (map (λ (s : Scored). s.1.scores.presence_strict) items);
  presence_reconciled_mean = mean (map (λ (s : Scored). coverage s.1.scores) items);
  fair_ratio_summary = summarize_ratios (mk_samples unit solve_plus_materialize_ratio items);
  wall_ratio_summary = summarize_ratios (mk_samples unit wall_ratio items);
  asym_ratio_summary = summarize_ratios (mk_samples unit solve_ratio items);
  batfish_peak_rss_summary = peak_summary (map (λ (s : Scored). s.1.timing.batfish_peak) items);
  hammerhead_peak_rss_summary =
      peak_summary (map (λ (s : Scored). s.1.timing.hammerhead_peak) items);
}

-- `aggregate_sim_only`
unfoldable pub aggregate_sim_only : ℕ → List Scored → SimOnlyCorpus
unfolding complete_means summary_of
aggregate_sim_only unit per_topology = record {
  topology_count = length per_topology;
  hammerhead_coverage_summary = complete_means per_topology;
  summary = if nat_eq (length per_topology) 0 then none else some (summary_of unit per_topology);
}
