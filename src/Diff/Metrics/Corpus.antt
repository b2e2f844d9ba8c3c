-- ===== src/Diff/Metrics/Corpus.antt =====
-- harness/diff/metrics.py: the means over a corpus of topologies.
use mathlib.Core.Path.{subst}
use hammerhead_bench.Prelude.{All, List, Option, [], arith, length, map, none, some, ℕ, ◌∷◌, ◌≡◌}
use hammerhead_bench.Prelude.Ratio.{IsRate, Ratio, mean, mean-IsRate, one}
use hammerhead_bench.Diff.Metrics.{TopologyMetrics}
use hammerhead_bench.Diff.Metrics.Rates.{AreRates}

-- The means that `aggregate_many` leaves out where there are no topologies.
pub record OtherMeans : Type 0 where
  pub batfish_presence_match_rate_mean : Ratio
  pub batfish_protocol_match_rate_mean : Ratio
  pub batfish_bgp_attr_match_rate_mean : Ratio
  pub hammerhead_presence_match_rate_mean : Ratio
  pub hammerhead_protocol_match_rate_mean : Ratio
  pub hammerhead_bgp_attr_match_rate_mean : Ratio

-- What `aggregate_many` returns.
pub record CorpusMetrics : Type 0 where
  pub topology_count : ℕ
  pub batfish_next_hop_match_rate_mean : Ratio
  pub hammerhead_next_hop_match_rate_mean : Ratio
  pub other_means : Option OtherMeans

-- `aggregate_many`
unfoldable pub aggregate_many : List TopologyMetrics → CorpusMetrics
unfolding mean
aggregate_many [] = record {
  topology_count = 0;
  batfish_next_hop_match_rate_mean = one;
  hammerhead_next_hop_match_rate_mean = one;
  other_means = none;
}
aggregate_many (t ∷ ts) =
    let ms = t ∷ ts in
    record {
      topology_count = length ms;
      batfish_next_hop_match_rate_mean =
          mean (map (λ (m : TopologyMetrics). m.batfish_next_hop_match_rate) ms);
      hammerhead_next_hop_match_rate_mean =
          mean (map (λ (m : TopologyMetrics). m.hammerhead_next_hop_match_rate) ms);
      other_means = some (record {
        batfish_presence_match_rate_mean =
            mean (map (λ (m : TopologyMetrics). m.batfish_presence_match_rate) ms);
        batfish_protocol_match_rate_mean =
            mean (map (λ (m : TopologyMetrics). m.batfish_protocol_match_rate) ms);
        batfish_bgp_attr_match_rate_mean =
            mean (map (λ (m : TopologyMetrics). m.batfish_bgp_attr_match_rate) ms);
        hammerhead_presence_match_rate_mean =
            mean (map (λ (m : TopologyMetrics). m.hammerhead_presence_match_rate) ms);
        hammerhead_protocol_match_rate_mean =
            mean (map (λ (m : TopologyMetrics). m.hammerhead_protocol_match_rate) ms);
        hammerhead_bgp_attr_match_rate_mean =
            mean (map (λ (m : TopologyMetrics). m.hammerhead_bgp_attr_match_rate) ms);
      });
    }

All-rates :
    (f : TopologyMetrics → Ratio) (ms : List TopologyMetrics)
    → ((m : TopologyMetrics) → AreRates m → IsRate (f m))
    → All AreRates ms
    → All IsRate (map f ms)
All-rates f [] each h = tt
All-rates f (m ∷ ms) each h = (each m h.0, All-rates f ms each h.1)

-- All means are rates.
pub record AreMeans (c : CorpusMetrics) : Type 0 where
  pub batfish_next_hop : IsRate c.batfish_next_hop_match_rate_mean
  pub hammerhead_next_hop : IsRate c.hammerhead_next_hop_match_rate_mean
  pub others :
      (o : OtherMeans)
      → c.other_means ≡ some o
      → IsRate o.batfish_presence_match_rate_mean
        × IsRate o.batfish_protocol_match_rate_mean
        × IsRate o.batfish_bgp_attr_match_rate_mean
        × IsRate o.hammerhead_presence_match_rate_mean
        × IsRate o.hammerhead_protocol_match_rate_mean
        × IsRate o.hammerhead_bgp_attr_match_rate_mean

one-IsRate : IsRate one
one-IsRate = record { defined = omega arith; bounded = omega arith }

-- If the rates of every topology lie between 0 and 1, so do the means over the corpus, each with a
-- positive denominator.
pub aggregate_many-AreMeans :
    (ms : List TopologyMetrics) → All AreRates ms → AreMeans (aggregate_many ms)
unfolding aggregate_many
aggregate_many-AreMeans [] h = record {
  batfish_next_hop = one-IsRate;
  hammerhead_next_hop = one-IsRate;
  others = λ o e. absurd cc;
}
aggregate_many-AreMeans (t ∷ ts) h = record {
  batfish_next_hop = mean_of (λ m. m.batfish_next_hop_match_rate) (λ m r. r.batfish_next_hop);
  hammerhead_next_hop =
      mean_of (λ m. m.hammerhead_next_hop_match_rate) (λ m r. r.hammerhead_next_hop);
  others = λ o e.
      let Others : OtherMeans → Type 0 = λ o'.
        IsRate o'.batfish_presence_match_rate_mean
        × IsRate o'.batfish_protocol_match_rate_mean
        × IsRate o'.batfish_bgp_attr_match_rate_mean
        × IsRate o'.hammerhead_presence_match_rate_mean
        × IsRate o'.hammerhead_protocol_match_rate_mean
        × IsRate o'.hammerhead_bgp_attr_match_rate_mean in
      subst Others (some_inj e) (
        mean_of (λ m. m.batfish_presence_match_rate) (λ m r. r.batfish_presence),
        mean_of (λ m. m.batfish_protocol_match_rate) (λ m r. r.batfish_protocol),
        mean_of (λ m. m.batfish_bgp_attr_match_rate) (λ m r. r.batfish_bgp_attr),
        mean_of (λ m. m.hammerhead_presence_match_rate) (λ m r. r.hammerhead_presence),
        mean_of (λ m. m.hammerhead_protocol_match_rate) (λ m r. r.hammerhead_protocol),
        mean_of (λ m. m.hammerhead_bgp_attr_match_rate) (λ m r. r.hammerhead_bgp_attr),
      );
}
  where
    some_inj : {o p : OtherMeans} → some o ≡ some p → o ≡ p
    some_inj e = cc e

    mean_of :
        (f : TopologyMetrics → Ratio)
        → ((m : TopologyMetrics) → AreRates m → IsRate (f m))
        → IsRate (mean (map f (t ∷ ts)))
    mean_of f each = mean-IsRate (map f (t ∷ ts)) (All-rates f (t ∷ ts) each h)
