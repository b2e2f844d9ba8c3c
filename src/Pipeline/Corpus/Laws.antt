-- ===== src/Pipeline/Corpus/Laws.antt =====
-- harness/pipeline.py: the plain means of a corpus against those over the topologies that could be
-- compared.
use mathlib.Core.Path.{subst}
use native.Mathlib.Nat.{mul-le-mul_right}
use hammerhead_bench.Prelude.{
  All, All-filter, All-imp, Bool-cases, List, [], ap, arith, count, filter, inl, inr, length,
  list_eq, map, nat_eq, not, refl, some, suc, ℕ, ℕ_eq, ◌*◌, ◌+◌, ◌<◌, ◌∷◌, ◌≡◌, ◌≤◌,
}
use hammerhead_bench.Prelude.Ratio.{IsRate, Ratio, mean, one, sum, sum-bounds}
use hammerhead_bench.Diff.Key.{RouteKey_eq}
use hammerhead_bench.Pipeline.Timing.Laws.{IsAtMost}
use hammerhead_bench.Pipeline.Corpus.{
  CorpusSummary, Scored, aggregate_sim_only, agreement_means, bgp_attr_of, is_covered, next_hop_of,
  protocol_score, summary_of,
}
use hammerhead_bench.Pipeline.Corpus.Comparisons.{IsComparison, IsVacuous}

covered_step :
    (a b n d c e k : ℕ)
    → n * e ≡ (c + k * e) * d
    → (a * d + n * b) * (b * e) ≡ (a * e + c * b + (0 + k) * (b * e)) * (b * d)
covered_step a b n d c e k h = omega (arith, ap (λ (t : ℕ). t * (b * b)) h)

bare_step :
    (a b n d c e k : ℕ)
    → a ≡ 1
    → b ≡ 1
    → n * e ≡ (c + k * e) * d
    → (a * d + n * b) * e ≡ (c + (1 + k) * e) * (b * d)
bare_step a b n d c e k p q h = rw (p, q) (omega (arith, h))

-- The mean of all is at least that of the covered, for sums in this relation.
means_le :
    (n d c e m k t : ℕ)
    → n * e ≡ (c + k * e) * d
    → m + k ≡ t
    → c ≤ e * m
    → c * (d * t) ≤ n * (e * m)
means_le n d c e m k t h size p =
    subst (λ (x : ℕ). c * (d * x) ≤ n * (e * m)) size
      (omega (arith, ap (λ (x : ℕ). x * m) h, mul-le-mul_right (k * d) p))

none_covered : (n d k t : ℕ) → n * 1 ≡ (0 + k * 1) * d → 0 + k ≡ t → 1 * (d * t) ≤ n * 1
none_covered n d k t h size = subst (λ (x : ℕ). 1 * (d * x) ≤ n * 1) size (omega (arith, h))

mean_nothing : mean [] ≡ one
unfolding mean
mean_nothing = refl

partition_size :
    (items : List Scored)
    → length (filter is_covered items) + count (λ s. not (is_covered s)) items ≡ length items
unfolding filter count
partition_size [] = refl
partition_size (s ∷ items) = ground (arith, partition_size items)

module _ (score : Scored → Ratio) where
  -- The sum of all scores is that of the covered ones and one for each other topology.
  covered_sum :
      (items : List Scored)
      → All (λ s. IsVacuous s.1.scores.both_sides_keys (score s)) items
      → (sum (map score items)).num * (sum (map score (filter is_covered items))).den
        ≡ ((sum (map score (filter is_covered items))).num
            + count (λ s. not (is_covered s)) items
              * (sum (map score (filter is_covered items))).den)
          * (sum (map score items)).den
  unfolding sum filter count
  covered_sum [] h = omega arith
  covered_sum (s ∷ items) h = elim (Bool-cases (is_covered s)) [
    | inl covered ↦ rw covered (
        covered_step (score s).num (score s).den (sum (map score items)).num
          (sum (map score items)).den (sum (map score (filter is_covered items))).num
          (sum (map score (filter is_covered items))).den (count (λ x. not (is_covered x)) items)
          (covered_sum items h.1))
    | inr bare ↦
        let all_one = h.0.1 (ground arith) in
        rw bare (
          bare_step (score s).num (score s).den (sum (map score items)).num
            (sum (map score items)).den (sum (map score (filter is_covered items))).num
            (sum (map score (filter is_covered items))).den (count (λ x. not (is_covered x)) items)
            (ap (λ (r : Ratio). r.num) all_one) (ap (λ (r : Ratio). r.den) all_one)
            (covered_sum items h.1))
  ]

  length-scores : (xs : List Scored) → length (map score xs) ≡ length xs
  length-scores [] = refl
  length-scores (x ∷ xs) = ap (λ (n : ℕ). suc n) (length-scores xs)

  mean_of :
      (xs : List Scored)
      → 0 < length xs
      → mean (map score xs)
        ≡ record { num = (sum (map score xs)).num; den = (sum (map score xs)).den * length xs }
  unfolding mean
  mean_of [] h = absurd (omega arith)
  mean_of (x ∷ xs) h =
      ap
        (λ (n : ℕ). record {
          num = (sum (map score (x ∷ xs))).num;
          den = (sum (map score (x ∷ xs))).den * n;
        })
        (length-scores (x ∷ xs))

  rates_of_vacuous :
      (xs : List Scored)
      → All (λ s. IsVacuous s.1.scores.both_sides_keys (score s)) xs
      → All IsRate (map score xs)
  rates_of_vacuous [] h = tt
  rates_of_vacuous (x ∷ xs) h = (h.0.0, rates_of_vacuous xs h.1)

  abbrev others : List Scored → ℕ
  others items = count (λ s. not (is_covered s)) items

  covered-IsAtMost :
      (items covered : List Scored)
      → 0 < length items
      → (sum (map score items)).num * (sum (map score covered)).den
        ≡ ((sum (map score covered)).num + others items * (sum (map score covered)).den)
          * (sum (map score items)).den
      → length covered + others items ≡ length items
      → All IsRate (map score covered)
      → IsAtMost (mean (map score covered)) (mean (map score items))
  unfolding sum
  covered-IsAtMost items [] some_items e size rates =
      rw (mean_of items some_items, mean_nothing)
        (none_covered (sum (map score items)).num (sum (map score items)).den (others items)
          (length items) e size)
  covered-IsAtMost items (x ∷ xs) some_items e size rates =
      let bound = (sum-bounds (map score (x ∷ xs)) rates).1 in
      rw (mean_of items some_items) (
        rw (mean_of (x ∷ xs) (omega arith)) (
          means_le (sum (map score items)).num (sum (map score items)).den
            (sum (map score (x ∷ xs))).num (sum (map score (x ∷ xs))).den (length (x ∷ xs))
            (others items) (length items) e size
            (subst (λ (n : ℕ). (sum (map score (x ∷ xs))).num ≤ (sum (map score (x ∷ xs))).den * n)
              (length-scores (x ∷ xs)) bound)))

  -- The mean over the covered topologies is at most the mean over all.
  mean-covered :
      (items : List Scored)
      → All (λ s. IsVacuous s.1.scores.both_sides_keys (score s)) items
      → IsAtMost (mean (map score (filter is_covered items))) (mean (map score items))
  unfolding filter
  mean-covered [] h = omega arith
  mean-covered (s ∷ rest) h =
      covered-IsAtMost (s ∷ rest) (filter is_covered (s ∷ rest)) (omega arith)
        (covered_sum (s ∷ rest) h) (partition_size (s ∷ rest))
        (rates_of_vacuous (filter is_covered (s ∷ rest)) (
          All-filter (λ x. IsVacuous x.1.scores.both_sides_keys (score x)) is_covered (s ∷ rest) h))

abbrev pub Flattered : CorpusSummary → Type 0
Flattered s =
    IsAtMost s.agreement_mean_covered.next_hop s.agreement_mean.next_hop
    × IsAtMost s.agreement_mean_covered.protocol s.agreement_mean.protocol
    × IsAtMost s.agreement_mean_covered.bgp_attr s.agreement_mean.bgp_attr

summary_of-Flattered :
    (unit : ℕ) (items : List Scored)
    → All (λ (x : Scored). IsComparison x.1.scores) items
    → Flattered (summary_of unit items)
unfolding summary_of agreement_means
summary_of-Flattered unit items h = (
  mean-covered next_hop_of items (
      All-imp (λ (x : Scored). IsComparison x.1.scores)
        (λ x. IsVacuous x.1.scores.both_sides_keys (next_hop_of x)) items (λ x c. c.next_hop) h),
  mean-covered protocol_score items (
      All-imp (λ (x : Scored). IsComparison x.1.scores)
        (λ x. IsVacuous x.1.scores.both_sides_keys (protocol_score x)) items (λ x c. c.protocol) h),
  mean-covered bgp_attr_of items (
      All-imp (λ (x : Scored). IsComparison x.1.scores)
        (λ x. IsVacuous x.1.scores.both_sides_keys (bgp_attr_of x)) items (λ x c. c.bgp_attr) h),
)

-- In the summary of a corpus that is not empty, none of the three agreements has a lower mean over
-- all topologies than over those that could be compared: taking topologies without a common cell
-- for perfect never hurts. The condition, that an agreement is a rate and 1 without a common cell,
-- holds of every result of `_compute_sim_only_agreement`.
pub aggregate_sim_only-Flattered :
    (unit : ℕ) (items : List Scored) (s : CorpusSummary)
    → All (λ (x : Scored). IsComparison x.1.scores) items
    → (aggregate_sim_only unit items).summary ≡ some s
    → Flattered s
unfolding aggregate_sim_only
aggregate_sim_only-Flattered unit items s h e = elim (Bool-cases (nat_eq (length items) 0)) [
  | inl empty ↦ ground arith
  | inr some_items ↦
      let same : summary_of unit items ≡ s = ground arith in
      subst (λ (c : CorpusSummary). Flattered c) same (summary_of-Flattered unit items h)
]
