-- ===== src/Pipeline/Timing/Laws.antt =====
-- harness/pipeline.py: the headline ratio against the ratio that favours Hammerhead.
use mathlib.Core.Path.{ap₂, subst}
use native.Mathlib.Nat.{mul-le-mul_right}
use hammerhead_bench.Prelude.{
  Bool-cases, List, Option, [], arith, inl, inr, length, ltb, none, refl, some, sym, true, ℕ, ℕ_eq,
  ◌*◌, ◌+◌, ◌<◌, ◌∙◌, ◌∷◌, ◌≡◌, ◌≤◌,
}
use hammerhead_bench.Prelude.Ratio.{Ratio}
use hammerhead_bench.Pipeline.Trials.{Series}
use hammerhead_bench.Pipeline.Means.{
  add_ratios, are_paired, mean_or_none, paired_sums, sim_plus_rib_mean, sum_of_means, total,
}
use hammerhead_bench.Pipeline.Timing.{
  ratio_of, solve_plus_materialize_ratio, solve_ratio, timing_of,
}

-- One fraction is at most another, for positive denominators.
abbrev pub IsAtMost : Ratio → Ratio → Type 0
IsAtMost a b = a.num * b.den ≤ b.num * a.den

total-paired_sums :
    (sims ribs : List ℕ)
    → length sims ≡ length ribs
    → (total sims ≤ total (paired_sums sims ribs)) × (length (paired_sums sims ribs) ≡ length sims)
unfolding total paired_sums
total-paired_sums [] [] h = omega arith
total-paired_sums [] (r ∷ ribs) h = omega arith
total-paired_sums (s ∷ sims) [] h = omega arith
total-paired_sums (s ∷ sims) (r ∷ ribs) h = omega (arith, total-paired_sums sims ribs (omega arith))

scaled_le : (a b c d : ℕ) → a ≤ b → c ≡ d → a * c ≤ b * d
scaled_le a b c d h e = rw e (mul-le-mul_right d h)

added_le : (a b c d : ℕ) → a * (b * d) ≤ (a * d + c * b) * b
added_le a b c d = grind arith

-- A mean that is at least `m`, and positive if `m` is.
abbrev AtLeast : Ratio → Option Ratio → Type 0
AtLeast m mean = (q : Ratio) × (mean ≡ some q) × IsAtMost m q × (0 < m.num → 0 < q.num)

paired-AtLeast :
    (s : ℕ) (sims ribs : List ℕ)
    → length (s ∷ sims) ≡ length ribs
    → AtLeast
        (record { num = total (s ∷ sims); den = length (s ∷ sims) })
        (mean_or_none (paired_sums (s ∷ sims) ribs))
unfolding mean_or_none paired_sums
paired-AtLeast s sims [] h = absurd (omega arith)
paired-AtLeast s sims (r ∷ ribs) h =
    let (below, same) = total-paired_sums (s ∷ sims) (r ∷ ribs) h in
    (
      record {
        num = total (paired_sums (s ∷ sims) (r ∷ ribs));
        den = length (paired_sums (s ∷ sims) (r ∷ ribs));
      },
      refl,
      scaled_le (total (s ∷ sims)) (total (paired_sums (s ∷ sims) (r ∷ ribs)))
          (length (paired_sums (s ∷ sims) (r ∷ ribs))) (length (s ∷ sims)) below same,
      λ p. omega arith,
    )

sum_of_means-AtLeast :
    (m : Ratio) (ribs : List ℕ) → AtLeast m (sum_of_means (some m) (mean_or_none ribs))
unfolding mean_or_none
sum_of_means-AtLeast m [] = (m, refl, omega arith, λ p. p)
sum_of_means-AtLeast m (r ∷ ribs) = (
  add_ratios m (record { num = total (r ∷ ribs); den = length (r ∷ ribs) }),
  refl,
  added_le m.num m.den (total (r ∷ ribs)) (length (r ∷ ribs)),
  λ p. grind arith,
)

are_paired→eq : (sims ribs : List ℕ) → are_paired sims ribs ≡ true → length sims ≡ length ribs
unfolding are_paired
are_paired→eq sims ribs h = ground arith

mean_or_none_cons :
    (x : ℕ) (xs : List ℕ)
    → mean_or_none (x ∷ xs) ≡ some (record { num = total (x ∷ xs); den = length (x ∷ xs) })
unfolding mean_or_none
mean_or_none_cons x xs = refl

mean_or_none_nil : mean_or_none [] ≡ none
unfolding mean_or_none
mean_or_none_nil = refl

sim_plus_rib_mean-AtLeast :
    (m : Ratio) (sims ribs : List ℕ)
    → mean_or_none sims ≡ some m
    → AtLeast m (sim_plus_rib_mean sims ribs)
unfolding sim_plus_rib_mean
sim_plus_rib_mean-AtLeast m [] ribs h = cc (mean_or_none_nil)
sim_plus_rib_mean-AtLeast m (s ∷ sims) ribs h =
    let e : record { num = total (s ∷ sims); den = length (s ∷ sims) } ≡ m =
      cc (mean_or_none_cons s sims) in
    elim (Bool-cases (are_paired (s ∷ sims) ribs)) [
      | inl paired ↦ rw paired (
          subst (λ (q : Ratio). AtLeast q (mean_or_none (paired_sums (s ∷ sims) ribs))) e
            (paired-AtLeast s sims ribs (are_paired→eq (s ∷ sims) ribs paired)))
      | inr alone ↦ rw (alone, h) (sum_of_means-AtLeast m ribs)
    ]

cross_le : (a b m n q d : ℕ) → m * d ≤ q * n → a * d * (b * m) ≤ a * n * (b * q)
cross_le a b m n q d h = omega (arith, mul-le-mul_right (a * b) h)

ratio_of-antitone :
    (a m q r : Ratio)
    → IsAtMost m q
    → (0 < m.num → 0 < q.num)
    → ratio_of (some a) (some m) ≡ some r
    → (f : Ratio) × (ratio_of (some a) (some q) ≡ some f) × IsAtMost f r
unfolding ratio_of
ratio_of-antitone a m q r below more h = elim (Bool-cases (ltb 0 m.num)) [
  | inr nought ↦ ground arith
  | inl positive ↦
      let e : record { num = a.num * m.den; den = a.den * m.num } ≡ r = ground arith in
      (
        record { num = a.num * q.den; den = a.den * q.num },
        ground (arith, more (ground arith)),
        subst (λ (x : Ratio). IsAtMost (record { num = a.num * q.den; den = a.den * q.num }) x) e
            (cross_le a.num a.den m.num m.den q.num q.den below),
      )
]

ratio_of-some :
    (x y : Option Ratio) (r : Ratio)
    → ratio_of x y ≡ some r
    → (a : Ratio) × (m : Ratio) × (x ≡ some a) × (y ≡ some m)
unfolding ratio_of
ratio_of-some (some a) (some m) r h = (a, m, refl, refl)
ratio_of-some (some a) none r h = cc
ratio_of-some none y r h = cc

-- Whenever the ratio of the solving times exists, so does the headline ratio, whose denominator
-- takes in the time for the routing tables as well, and it is at most the former: whatever the
-- trials, and also where some of them lack a time.
pub solve_plus_materialize_ratio-IsAtMost :
    (s : Series) (container_start : Option ℕ) (asym : Ratio)
    → solve_ratio (timing_of s container_start) ≡ some asym
    → (fair : Ratio) × (solve_plus_materialize_ratio (timing_of s container_start) ≡ some fair)
      × IsAtMost fair asym
unfolding solve_ratio solve_plus_materialize_ratio timing_of
solve_plus_materialize_ratio-IsAtMost s container_start asym h =
    let (a, m, p, q) =
      ratio_of-some (mean_or_none s.batfish_sims) (mean_or_none s.hammer_sims) asym h in
    let (c, e, below, more) = sim_plus_rib_mean-AtLeast m s.hammer_sims s.hammer_ribs q in
    rw (p, e) (ratio_of-antitone a m c asym below more (sym (ap₂ ratio_of p q) ∙ h))
