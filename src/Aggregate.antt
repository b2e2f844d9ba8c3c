-- ===== src/Aggregate.antt =====
-- harness/aggregate.py: the summary of the ratios of a corpus. A ratio is a number of units, for a
-- unit that measures all of them, so that none is infinite or not a number. The geometric mean, which
-- goes by logarithms of doubles, is left out.
pub mod Quantile
pub mod Laws
use hammerhead_bench.Prelude.{
  Bool, List, Option, Text, [], filter, if◌then◌else◌, leb, length, ltb, map, nat_eq, none, not,
  some, suc, zero, ℕ, ℕ_eq, ◌%◌, ◌&&◌, ◌*◌, ◌+◌, ◌-◌, ◌/◌, ◌∷◌,
}
use hammerhead_bench.Prelude.Order.{ℕ_order}
use hammerhead_bench.Prelude.Sort.{sort}
use hammerhead_bench.Prelude.Ratio.{Ratio}

-- `WeightedSample`
pub record WeightedSample : Type 0 where
  pub label : Text
  pub ratio : ℕ
  pub weight : ℕ

-- `_is_positive_finite`, which is also when `_exclusion_reason` has none.
unfoldable pub is_positive : ℕ → Bool
is_positive x = ltb 0 x

abbrev pub is_used : WeightedSample → Bool
is_used s = is_positive s.ratio

unfoldable pub total_of {ℓ} : {A : Type ℓ} → (A → ℕ) → List A → ℕ
total_of f [] = 0
total_of f (x ∷ xs) = f x + total_of f xs

abbrev pub identity : ℕ → ℕ
identity x = x

-- `statistics.fmean`
unfoldable pub fmean : List ℕ → Option Ratio
unfolding total_of
fmean [] = none
fmean (x ∷ xs) = some (record { num = total_of identity (x ∷ xs); den = length (x ∷ xs) })

-- `arithmetic_mean`
unfoldable pub arithmetic_mean : List ℕ → Option Ratio
unfolding fmean
arithmetic_mean ratios = fmean (filter is_positive ratios)

-- `s.weight`, of a sample that counts towards the weighted mean.
abbrev pub counted_weight : WeightedSample → ℕ
counted_weight s = if is_positive s.ratio && is_positive s.weight then s.weight else 0

-- `workload_weighted_mean`
unfoldable pub workload_weighted_mean : List WeightedSample → Option Ratio
unfolding total_of
workload_weighted_mean samples =
    let denom = total_of counted_weight samples in
    if leb denom 0
    then none
    else some (record { num = total_of (λ s. counted_weight s * s.ratio) samples; den = denom })

-- `xs[i]`, for an index in range.
unfoldable pub item : List ℕ → ℕ → ℕ
item [] i = 0
item (x ∷ xs) zero = x
item (x ∷ xs) (suc i) = item xs i

-- The value at `position / 4`, in quarters of a unit: between two items it is interpolated.
unfoldable pub interpolate : List ℕ → ℕ → ℕ
unfolding item
interpolate xs position =
    let lo = item xs (position / 4) in
    if nat_eq (position % 4) 0
    then 4 * lo
    else 4 * lo + (item xs (position / 4 + 1) - lo) * (position % 4)

-- `_quantile(xs, quarters / 4)`; `none` is the `ValueError`.
unfoldable pub quantile : List ℕ → ℕ → Option Ratio
unfolding interpolate
quantile [] quarters = none
quantile (x ∷ xs) quarters =
    some (record { num = interpolate (x ∷ xs) (quarters * length xs); den = 4 })

unfoldable pub last_item : ℕ → List ℕ → ℕ
last_item x [] = x
last_item x (y ∷ ys) = last_item y ys

-- The reductions of the ratios that are used.
pub record Reductions : Type 0 where
  pub arithmetic_mean : Option Ratio
  pub workload_weighted_mean : Option Ratio
  pub median : Option Ratio
  pub p25 : Option Ratio
  pub p75 : Option Ratio
  pub min : Option ℕ
  pub max : Option ℕ

pub record RatioSummary : Type 0 where
  pub n_total : ℕ
  pub n_used : ℕ
  pub excluded : List WeightedSample
  pub samples : List WeightedSample
  pub reductions : Reductions

abbrev pub no_reductions : Reductions
no_reductions = record {
  arithmetic_mean = none;
  workload_weighted_mean = none;
  median = none;
  p25 = none;
  p75 = none;
  min = none;
  max = none;
}

abbrev pub ratio_of : WeightedSample → ℕ
ratio_of s = s.ratio

-- The reductions, by the sorted ratios.
unfoldable pub reductions_of : List WeightedSample → List ℕ → Reductions
unfolding fmean workload_weighted_mean quantile last_item
reductions_of used [] = no_reductions
reductions_of used (x ∷ xs) = record {
  arithmetic_mean = fmean (map ratio_of used);
  workload_weighted_mean = workload_weighted_mean used;
  median = quantile (x ∷ xs) 2;
  p25 = quantile (x ∷ xs) 1;
  p75 = quantile (x ∷ xs) 3;
  min = some x;
  max = some (last_item x xs);
}

-- `summarize_ratios`
unfoldable pub summarize_ratios : List WeightedSample → RatioSummary
unfolding reductions_of
summarize_ratios samples =
    let used = filter is_used samples in
    record {
      n_total = length samples;
      n_used = length used;
      excluded = filter (λ s. not (is_used s)) samples;
      samples = used;
      reductions = reductions_of used (sort identity (map ratio_of used));
    }
