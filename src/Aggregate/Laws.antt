-- ===== src/Aggregate/Laws.antt =====
-- harness/aggregate.py: the reductions of a corpus lie in order.
use mathlib.Core.Path.{subst}
use native.Mathlib.Nat.{le_trans, mul-le-mul_right}
use hammerhead_bench.Prelude.{
  All, All-imp, Bool, Bool-cases, List, [], ap, arith, contains, false, filter, filter-All,
  if◌then◌else◌, inl, inr, leb, leb→le, length, map, not, refl, some, suc, sym, true, ℕ, ℕ_eq, ◌*◌,
  ◌+◌, ◌<◌, ◌∙◌, ◌∷◌, ◌≡◌, ◌≤◌,
}
use hammerhead_bench.Prelude.Order.{ℕ_order}
use hammerhead_bench.Prelude.Sort.{insert, sort, sort-IsSorted}
use hammerhead_bench.Prelude.Sets.{contains-sort}
use hammerhead_bench.Prelude.Ratio.{Ratio}
use hammerhead_bench.Aggregate.{
  RatioSummary, Reductions, WeightedSample, counted_weight, fmean, identity, interpolate, is_used,
  last_item, no_reductions, quantile, ratio_of, reductions_of, summarize_ratios, total_of,
  workload_weighted_mean,
}
use hammerhead_bench.Aggregate.Quantile.{
  IsAscending, first_position, interpolate_mono, last_position,
}

insert-All {μ} :
    (P : ℕ → Type μ) (x : ℕ) (ys : List ℕ) → All P (insert identity x ys) → P x × All P ys
unfolding insert
insert-All P x [] h = (h.0, tt)
insert-All P x (y ∷ ys) h = go (leb x y) h (insert-All P x ys)
  where
    go :
        (below : Bool)
        → All P (if below then x ∷ y ∷ ys else y ∷ insert identity x ys)
        → (All P (insert identity x ys) → P x × All P ys)
        → P x × All P (y ∷ ys)
    go true k ih = (k.0, k.1)
    go false k ih = ((ih k.1).0, (k.0, (ih k.1).1))

-- What holds of the sorted numbers holds of the numbers.
sort-All {μ} : (P : ℕ → Type μ) (xs : List ℕ) → All P (sort identity xs) → All P xs
unfolding sort
sort-All P [] h = tt
sort-All P (x ∷ xs) h =
    let (p, rest) = insert-All P x (sort identity xs) h in (p, sort-All P xs rest)

contains-last_item : (x : ℕ) (xs : List ℕ) → contains (last_item x xs) (x ∷ xs) ≡ true
unfolding last_item contains
contains-last_item x [] = ground arith
contains-last_item x (y ∷ ys) = ground (arith, contains-last_item y ys)

-- A number lies between two others.
abbrev Within : ℕ → ℕ → ℕ → Type 0
Within lo hi x = (lo ≤ x) × (x ≤ hi)

IsAscending-Within :
    (x : ℕ) (xs : List ℕ) → IsAscending (x ∷ xs) → All (Within x (last_item x xs)) (x ∷ xs)
unfolding last_item
IsAscending-Within x [] h = ((omega arith, omega arith), tt)
IsAscending-Within x (y ∷ ys) h =
    let rest = IsAscending-Within y ys h.1 in
    let first = leb→le x y h.0.0 in
    (
      (omega arith, le_trans first rest.0.1),
      All-imp (Within y (last_item y ys)) (Within x (last_item y ys)) (y ∷ ys)
          (λ z w. (le_trans first w.0, w.1)) rest,
    )

total-Within :
    (lo hi : ℕ) (xs : List ℕ)
    → All (Within lo hi) xs
    → (lo * length xs ≤ total_of identity xs) × (total_of identity xs ≤ hi * length xs)
unfolding total_of
total-Within lo hi [] h = omega arith
total-Within lo hi (x ∷ xs) h = omega (arith, total-Within lo hi xs h.1)

weighted-Within :
    (lo hi : ℕ) (samples : List WeightedSample)
    → All (Within lo hi) (map ratio_of samples)
    → (lo * total_of counted_weight samples ≤ total_of (λ s. counted_weight s * s.ratio) samples)
      × (total_of (λ s. counted_weight s * s.ratio) samples ≤ hi * total_of counted_weight samples)
unfolding total_of
weighted-Within lo hi [] h = omega arith
weighted-Within lo hi (s ∷ samples) h = omega (
  arith,
  weighted-Within lo hi samples h.1,
  mul-le-mul_right (counted_weight s) h.0.0,
  mul-le-mul_right (counted_weight s) h.0.1,
)

-- The reductions of ratios that are not all excluded. Quantiles count quarters of a unit.
pub record Spread (used : List WeightedSample) (r : Reductions) : Type 0 where
  pub lo : ℕ
  pub hi : ℕ
  pub q1 : ℕ
  pub q2 : ℕ
  pub q3 : ℕ
  pub min : r.min ≡ some lo
  pub max : r.max ≡ some hi
  pub p25 : r.p25 ≡ some (record { num = q1; den = 4 })
  pub median : r.median ≡ some (record { num = q2; den = 4 })
  pub p75 : r.p75 ≡ some (record { num = q3; den = 4 })
  pub attained : (contains lo (map ratio_of used) ≡ true) × (contains hi (map ratio_of used) ≡ true)
  pub within : All (λ x. (lo ≤ x) × (x ≤ hi)) (map ratio_of used)
  pub rising : (4 * lo ≤ q1) × (q1 ≤ q2) × (q2 ≤ q3) × (q3 ≤ 4 * hi)
  pub arithmetic :
      (m : Ratio)
      → r.arithmetic_mean ≡ some m
      → (lo * m.den ≤ m.num) × (m.num ≤ hi * m.den) × (0 < m.den)
  pub weighted :
      (m : Ratio)
      → r.workload_weighted_mean ≡ some m
      → (lo * m.den ≤ m.num) × (m.num ≤ hi * m.den) × (0 < m.den)

fmean-Within :
    (lo hi : ℕ) (xs : List ℕ) (m : Ratio)
    → All (Within lo hi) xs
    → fmean xs ≡ some m
    → (lo * m.den ≤ m.num) × (m.num ≤ hi * m.den) × (0 < m.den)
unfolding fmean
fmean-Within lo hi [] m h e = cc
fmean-Within lo hi (x ∷ xs) m h e =
    let (below, above) = total-Within lo hi (x ∷ xs) h in
    let same : record { num = total_of identity (x ∷ xs); den = length (x ∷ xs) } ≡ m = cc in
    subst (λ (q : Ratio). (lo * q.den ≤ q.num) × (q.num ≤ hi * q.den) × (0 < q.den)) same
      (below, above, omega arith)

weighted_mean-Within :
    (lo hi : ℕ) (samples : List WeightedSample) (m : Ratio)
    → All (Within lo hi) (map ratio_of samples)
    → workload_weighted_mean samples ≡ some m
    → (lo * m.den ≤ m.num) × (m.num ≤ hi * m.den) × (0 < m.den)
unfolding workload_weighted_mean
weighted_mean-Within lo hi samples m h e =
    elim (Bool-cases (leb (total_of counted_weight samples) 0)) [
      | inl weightless ↦ ground arith
      | inr weighty ↦
          let (below, above) = weighted-Within lo hi samples h in
          let same : record {
            num = total_of (λ s. counted_weight s * s.ratio) samples;
            den = total_of counted_weight samples;
          }
              ≡ m =
            ground arith in
          subst (λ (q : Ratio). (lo * q.den ≤ q.num) × (q.num ≤ hi * q.den) × (0 < q.den)) same
            (below, above, ground arith)
    ]

-- The quartiles of sorted numbers rise from the first to the last.
quartiles_rise :
    (x : ℕ) (xs : List ℕ)
    → IsAscending (x ∷ xs)
    → (4 * x ≤ interpolate (x ∷ xs) (1 * length xs))
      × (interpolate (x ∷ xs) (1 * length xs) ≤ interpolate (x ∷ xs) (2 * length xs))
      × (interpolate (x ∷ xs) (2 * length xs) ≤ interpolate (x ∷ xs) (3 * length xs))
      × (interpolate (x ∷ xs) (3 * length xs) ≤ 4 * last_item x xs)
quartiles_rise x xs h =
    let rises = interpolate_mono (x ∷ xs) h in
    (
      le_trans (first_position x xs) (rises 0 (1 * length xs) (omega arith) (omega arith)),
      rises (1 * length xs) (2 * length xs) (omega arith) (omega arith),
      rises (2 * length xs) (3 * length xs) (omega arith) (omega arith),
      le_trans (rises (3 * length xs) (4 * length xs) (omega arith) (omega arith))
          (last_position x xs),
    )

reductions-Spread :
    (used : List WeightedSample) (x : ℕ) (xs : List ℕ)
    → sort identity (map ratio_of used) ≡ x ∷ xs
    → Spread used (reductions_of used (x ∷ xs))
unfolding reductions_of quantile contains
reductions-Spread used x xs e =
    let sorted : IsAscending (x ∷ xs) =
      subst (λ (l : List ℕ). IsAscending l) e (sort-IsSorted identity (map ratio_of used)) in
    let within = sort-All (Within x (last_item x xs)) (map ratio_of used) (
      subst (λ (l : List ℕ). All (Within x (last_item x xs)) l) (sym e)
        (IsAscending-Within x xs sorted)) in
    let member : (y : ℕ) → contains y (x ∷ xs) ≡ true → contains y (map ratio_of used) ≡ true =
      λ y m.
        sym (contains-sort identity y (map ratio_of used))
        ∙ ap (λ (l : List ℕ). contains y l) e
        ∙ m in
    record {
      lo = x;
      hi = last_item x xs;
      q1 = interpolate (x ∷ xs) (1 * length xs);
      q2 = interpolate (x ∷ xs) (2 * length xs);
      q3 = interpolate (x ∷ xs) (3 * length xs);
      min = refl;
      max = refl;
      p25 = refl;
      median = refl;
      p75 = refl;
      attained = (member x (ground arith), member (last_item x xs) (contains-last_item x xs));
      within = within;
      rising = quartiles_rise x xs sorted;
      arithmetic = λ m. fmean-Within x (last_item x xs) (map ratio_of used) m within;
      weighted = λ m. weighted_mean-Within x (last_item x xs) used m within;
    }

pub record IsSummary (samples : List WeightedSample) (s : RatioSummary) : Type 0 where
  pub partition : length s.samples + length s.excluded ≡ length samples
  pub counts : (s.n_used ≡ length s.samples) × (s.n_total ≡ length samples)
  pub kept : All (λ (x : WeightedSample). is_used x ≡ true) s.samples
  pub refused : All (λ (x : WeightedSample). not (is_used x) ≡ true) s.excluded
  pub empty : s.n_used ≡ 0 → s.reductions ≡ no_reductions
  pub spread : 0 < s.n_used → Spread s.samples s.reductions

filter_partition :
    (p : WeightedSample → Bool) (xs : List WeightedSample)
    → length (filter p xs) + length (filter (λ x. not (p x)) xs) ≡ length xs
unfolding filter
filter_partition p [] = refl
filter_partition p (x ∷ xs) = ground (arith, filter_partition p xs)

length-insert : (x : ℕ) (ys : List ℕ) → length (insert identity x ys) ≡ suc (length ys)
unfolding insert
length-insert x [] = refl
length-insert x (y ∷ ys) = ground (arith, length-insert x ys)

length-sort : (xs : List ℕ) → length (sort identity xs) ≡ length xs
unfolding sort
length-sort [] = refl
length-sort (x ∷ xs) = omega (arith, length-insert x (sort identity xs), length-sort xs)

length-ratios : (xs : List WeightedSample) → length (map ratio_of xs) ≡ length xs
length-ratios [] = refl
length-ratios (x ∷ xs) = ap (λ (n : ℕ). suc n) (length-ratios xs)

-- The samples of a summary are those with a positive ratio; the others are excluded, and none is
-- lost. Without samples nothing is reduced. Otherwise the smallest ratio, the quartiles and the
-- largest ratio rise in this order, the smallest and the largest are ratios of samples, and the
-- mean and the weighted mean, if there is one, lie between them.
pub summarize_ratios-IsSummary :
    (samples : List WeightedSample) → IsSummary samples (summarize_ratios samples)
unfolding summarize_ratios
summarize_ratios-IsSummary samples =
    let used = filter is_used samples in
    let sizes = length-sort (map ratio_of used) ∙ length-ratios used in
    record {
      partition = filter_partition is_used samples;
      counts = (refl, refl);
      kept = filter-All is_used samples;
      refused = filter-All (λ s. not (is_used s)) samples;
      empty = λ h. nothing_left (sort identity (map ratio_of used)) (sizes ∙ h);
      spread = λ h. some_left (sort identity (map ratio_of used)) refl (omega arith);
    }
  where
    nothing_left :
        (ratios : List ℕ)
        → length ratios ≡ 0
        → reductions_of (filter is_used samples) ratios ≡ no_reductions
    nothing_left [] e = refl
    nothing_left (x ∷ xs) e = absurd (omega arith)

    some_left :
        (ratios : List ℕ)
        → sort identity (map ratio_of (filter is_used samples)) ≡ ratios
        → 0 < length ratios
        → Spread (filter is_used samples) (reductions_of (filter is_used samples) ratios)
    some_left [] e h = absurd (omega arith)
    some_left (x ∷ xs) e h = reductions-Spread (filter is_used samples) x xs e
