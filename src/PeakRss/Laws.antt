-- ===== src/PeakRss/Laws.antt =====
-- The peak that the sampler reports is the largest number that it has read, rounded.
use native.Mathlib.Nat.{div-add-mod, mod-lt, mul-le-mul_right, le_of_mul-le-mul_right}
use hammerhead_bench.Prelude.{
  All, Bool, Bool-cases, List, Option, [], any, ap, arith, if◌then◌else◌, inl, inr, is_empty,
  length, list_eq, ltb, nat_eq, none, refl, some, suc, true, ℕ, ℕ_eq, ◌%◌, ◌&&◌, ◌*◌, ◌+◌, ◌/◌, ◌<◌,
  ◌∷◌, ◌≡◌, ◌≤◌, ◌⊎◌,
}
use hammerhead_bench.Prelude.Ratio.{Ratio}
use hammerhead_bench.PeakRss.{
  DockerPoll, PeakReading, Sampler, add_sample, new_sampler, round_div, sample_loop, sampled, stop,
  usable,
}
use hammerhead_bench.PeakRss.Sizes.{IsPositiveIfAny, usable-IsPositiveIfAny}

-- A whole number is within one half of a fraction.
abbrev pub IsNear : ℕ → Ratio → Type 0
IsNear q r = (2 * (q * r.den) ≤ 2 * r.num + r.den) × (2 * r.num ≤ 2 * (q * r.den) + r.den)

next_times : (q d : ℕ) → (q + 1) * d ≡ q * d + d
next_times q d = omega arith

round_div-IsNear : (n d : ℕ) → 0 < d → IsNear (round_div n d) (record { num = n; den = d })
unfolding round_div
round_div-IsNear n d h =
    let whole : n / d * d + n % d ≡ n = omega (arith, div-add-mod n d) in
    let below = mod-lt n h in
    let next = next_times (n / d) d in
    (ground (arith, whole, below, next), ground (arith, whole, below, next))

-- One fraction is at most another.
abbrev pub IsAtMost : Ratio → Ratio → Type 0
IsAtMost a b = a.num * b.den ≤ b.num * a.den

IsAtMost_trans : (a b c : Ratio) → 0 < b.den → IsAtMost a b → IsAtMost b c → IsAtMost a c
IsAtMost_trans a b c h p q =
    le_of_mul-le-mul_right {k = b.den}
      (omega (arith, mul-le-mul_right c.den p, mul-le-mul_right a.den q)) h

-- The numbers that the polls give.
unfoldable pub readings : List DockerPoll → List Ratio
readings [] = []
readings (p ∷ polls) =
    let rest = readings polls in elim (usable p) [ none ↦ rest | some mb ↦ mb ∷ rest ]

-- The samples of a list of numbers, one after the other.
add_all : List Ratio → Sampler → Sampler
add_all [] s = s
add_all (mb ∷ mbs) s = add_all mbs (add_sample mb s)

sample_loop_lem :
    (polls : List DockerPoll) (s : Sampler) → sample_loop polls s ≡ add_all (readings polls) s
unfolding sample_loop readings add_all
sample_loop_lem [] s = refl
sample_loop_lem (p ∷ polls) s = go (usable p) (λ t. sample_loop_lem polls t)
  where
    go :
        (o : Option Ratio)
        → ((t : Sampler) → sample_loop polls t ≡ add_all (readings polls) t)
        → elim o [ none ↦ sample_loop polls s | some mb ↦ sample_loop polls (add_sample mb s) ]
          ≡ add_all (elim o [ none ↦ readings polls | some mb ↦ mb ∷ readings polls ]) s
    go none ih = ih s
    go (some mb) ih = ih (add_sample mb s)

readings_positive : (polls : List DockerPoll) → All (λ (r : Ratio). 0 < r.den) (readings polls)
unfolding readings
readings_positive [] = tt
readings_positive (p ∷ polls) = go (usable p) (usable-IsPositiveIfAny p) (readings_positive polls)
  where
    go :
        (o : Option Ratio)
        → IsPositiveIfAny o
        → All (λ (r : Ratio). 0 < r.den) (readings polls)
        → All
            (λ (r : Ratio). 0 < r.den)
            (elim o [ none ↦ readings polls | some mb ↦ mb ∷ readings polls ])
    go none h k = k
    go (some mb) h k = (h, k)

abbrev is_same : Ratio → Ratio → Bool
is_same r q = nat_eq r.num q.num && nat_eq r.den q.den

-- What the sampler holds after the samples, if it held `s` before.
record IsPeakOf (s : Sampler) (mbs : List Ratio) (out : Sampler) : Type 0 where
  counted : out.samples ≡ s.samples + length mbs
  defined : 0 < out.peak_mb.den
  kept : IsAtMost s.peak_mb out.peak_mb
  covers : All (λ r. IsAtMost r out.peak_mb) mbs
  attained : any (is_same out.peak_mb) (s.peak_mb ∷ mbs) ≡ true

record IsAfter (mb : Ratio) (s t : Sampler) : Type 0 where
  counted : t.samples ≡ suc s.samples
  defined : 0 < t.peak_mb.den
  kept : IsAtMost s.peak_mb t.peak_mb
  covered : IsAtMost mb t.peak_mb
  either : (t.peak_mb ≡ s.peak_mb) ⊎ (t.peak_mb ≡ mb)

add_sample-IsAfter :
    (mb : Ratio) (s : Sampler) → 0 < s.peak_mb.den → 0 < mb.den → IsAfter mb s (add_sample mb s)
unfolding add_sample
add_sample-IsAfter mb s h k =
    elim (Bool-cases (ltb (s.peak_mb.num * mb.den) (mb.num * s.peak_mb.den))) [
      | inl more ↦ rw more (record {
        counted = refl;
        defined = k;
        kept = ground (arith, more);
        covered = omega arith;
        either = inr refl;
      })
      | inr less ↦ rw less (record {
        counted = refl;
        defined = h;
        kept = omega arith;
        covered = ground (arith, less);
        either = inl refl;
      })
    ]

add_all-IsPeakOf :
    (mbs : List Ratio) (s : Sampler)
    → 0 < s.peak_mb.den
    → All (λ (r : Ratio). 0 < r.den) mbs
    → IsPeakOf s mbs (add_all mbs s)
unfolding add_all any
add_all-IsPeakOf [] s h k = record {
  counted = omega arith;
  defined = h;
  kept = omega arith;
  covers = tt;
  attained = ground arith;
}
add_all-IsPeakOf (mb ∷ mbs) s h k =
    let t = add_sample mb s in
    let step = add_sample-IsAfter mb s h k.0 in
    let out = add_all mbs t in
    let e = add_all-IsPeakOf mbs t step.defined k.1 in
    record {
      counted = omega (arith, e.counted, step.counted);
      defined = e.defined;
      kept = IsAtMost_trans s.peak_mb t.peak_mb out.peak_mb step.defined step.kept e.kept;
      covers = (IsAtMost_trans mb t.peak_mb out.peak_mb step.defined step.covered e.kept, e.covers);
      attained = elim step.either [
        | inl same ↦ ground (arith, e.attained, ap (is_same out.peak_mb) same)
        | inr new ↦ ground (arith, e.attained, ap (is_same out.peak_mb) new)
      ];
    }

counted_if :
    (xs : List Ratio) (n v : ℕ)
    → n ≡ 0 + length xs
    → (if ltb 0 n then some v else none) ≡ (if is_empty xs then none else some v)
unfolding is_empty
counted_if [] n v h = ground arith
counted_if (x ∷ xs) n v h = ground arith

-- The number read as the largest, `0` if there is none above it.
pub record IsPeak (polls : List DockerPoll) (r : PeakReading) (peak : Ratio) : Type 0 where
  pub counted : r.sample_count ≡ length (readings polls)
  pub covers : All (λ q. IsAtMost q peak) (readings polls)
  pub attained : any (is_same peak) (record { num = 0; den = 1 } ∷ readings polls) ≡ true
  pub rounded :
      r.mb ≡ (if is_empty (readings polls) then none else some (round_div peak.num peak.den))
  pub near : IsNear (round_div peak.num peak.den) peak

-- Whatever the polls give, the sampler counts those that could be read. If there are any, it reports
-- the whole number nearest to a fraction which is at least each number that was read, and is one
-- of them or zero. If there are none, it reports nothing.
pub sampled-IsPeak : (polls : List DockerPoll) → (peak : Ratio) × IsPeak polls (sampled polls) peak
unfolding sampled stop
sampled-IsPeak polls =
    let e = sample_loop_lem polls new_sampler in
    let out = sample_loop polls new_sampler in
    let p : IsPeakOf new_sampler (readings polls) out =
      rw e
        (add_all-IsPeakOf (readings polls) new_sampler (omega arith) (readings_positive polls)) in
    (
      out.peak_mb,
      record {
        counted = omega (arith, p.counted);
        covers = p.covers;
        attained = p.attained;
        rounded =
            counted_if (readings polls) out.samples (round_div out.peak_mb.num out.peak_mb.den)
              p.counted;
        near = round_div-IsNear out.peak_mb.num out.peak_mb.den p.defined;
      },
    )
