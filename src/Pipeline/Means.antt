-- ===== src/Pipeline/Means.antt =====
-- harness/pipeline.py: means and summaries of the times of the trials. Times are numbers of
-- microseconds, and a mean is the fraction whose quotient the program computes.
use hammerhead_bench.Prelude.{
  Bool, List, Option, [], false, if◌then◌else◌, is_empty, leb, length, ltb, nat_eq, none, not, some,
  true, ℕ, ℕ_eq, ◌&&◌, ◌*◌, ◌+◌, ◌-◌, ◌∷◌,
}
use hammerhead_bench.Prelude.Ratio.{Ratio}

unfoldable pub total : List ℕ → ℕ
total [] = 0
total (x ∷ xs) = x + total xs

-- `_mean_or_none`
unfoldable pub mean_or_none : List ℕ → Option Ratio
unfolding total
mean_or_none [] = none
mean_or_none (x ∷ xs) = some (record { num = total (x ∷ xs); den = length (x ∷ xs) })

-- `[s + r for s, r in zip(sims, ribs, strict=True)]`, for lists of the same length.
unfoldable pub paired_sums : List ℕ → List ℕ → List ℕ
paired_sums (s ∷ sims) (r ∷ ribs) = (s + r) ∷ paired_sums sims ribs
paired_sums _ _ = []

abbrev pub add_ratios : Ratio → Ratio → Ratio
add_ratios a b = record { num = a.num * b.den + b.num * a.den; den = a.den * b.den }

-- `sims and ribs and len(sims) == len(ribs)`
unfoldable pub are_paired : List ℕ → List ℕ → Bool
are_paired sims ribs =
    not (is_empty sims) && not (is_empty ribs) && nat_eq (length sims) (length ribs)

abbrev pub sum_of_means : Option Ratio → Option Ratio → Option Ratio
sum_of_means (some s) (some r) = some (add_ratios s r)
sum_of_means (some s) none = some s
sum_of_means none r = none

-- `hh_sim_plus_rib_mean`
unfoldable pub sim_plus_rib_mean : List ℕ → List ℕ → Option Ratio
unfolding mean_or_none paired_sums are_paired
sim_plus_rib_mean sims ribs =
    if are_paired sims ribs
    then mean_or_none (paired_sums sims ribs)
    else sum_of_means (mean_or_none sims) (mean_or_none ribs)

-- `hh_sim_plus_rib_series`
unfoldable pub sim_plus_rib_series : List ℕ → List ℕ → List ℕ
unfolding paired_sums are_paired
sim_plus_rib_series sims ribs = if are_paired sims ribs then paired_sums sims ribs else sims

unfoldable pub minimum : ℕ → List ℕ → ℕ
minimum x [] = x
minimum x (y ∷ ys) = minimum (if ltb y x then y else x) ys

unfoldable pub maximum : ℕ → List ℕ → ℕ
maximum x [] = x
maximum x (y ∷ ys) = maximum (if ltb x y then y else x) ys

-- The sum of the squares of `n x - S`, for a sum S of n numbers.
unfoldable pub squared_deviations : ℕ → ℕ → List ℕ → ℕ
squared_deviations n s [] = 0
squared_deviations n s (x ∷ xs) =
    let d = n * x - s + (s - n * x) in d * d + squared_deviations n s xs

-- `{mean, std, min, max}`, where `variance` is the square of the sample deviation `std`.
pub record Summary : Type 0 where
  pub mean : Ratio
  pub variance : Ratio
  pub min : ℕ
  pub max : ℕ

unfoldable pub sample_variance : List ℕ → Ratio
unfolding squared_deviations total
sample_variance xs =
    let n = length xs in
    if leb 2 n
    then record { num = squared_deviations n (total xs) xs; den = n * n * (n - 1) }
    else record { num = 0; den = 1 }

-- `_summarize_timings`
unfoldable pub summarize_timings : List ℕ → Option Summary
unfolding total sample_variance minimum maximum
summarize_timings [] = none
summarize_timings (x ∷ xs) = some (record {
  mean = record { num = total (x ∷ xs); den = length (x ∷ xs) };
  variance = sample_variance (x ∷ xs);
  min = minimum x xs;
  max = maximum x xs;
})

-- The times of the runs that were warm, or were not.
unfoldable pub sims_where : Bool → List ℕ → List Bool → List ℕ
sims_where warm (s ∷ sims) (w ∷ warms) =
    let rest = sims_where warm sims warms in
    if (if w then warm else not warm) then s ∷ rest else rest
sims_where warm _ _ = []

abbrev pub first_of {ℓ} : {A : Type ℓ} → List A → Option A
first_of [] = none
first_of (x ∷ xs) = some x

-- `bf_cold_sim` and `bf_warm_sim_mean`
unfoldable pub cold_and_warm : List ℕ → List Bool → Option ℕ × Option Ratio
unfolding sims_where mean_or_none
cold_and_warm sims warms =
    if not (is_empty warms) && not (is_empty sims) && nat_eq (length warms) (length sims)
    then (first_of (sims_where false sims warms), mean_or_none (sims_where true sims warms))
    else (first_of sims, none)
