-- ===== src/Prelude/Ratio.antt =====
-- A rate as the fraction whose quotient the program computes. The rounding of the quotient to a
-- double is not modelled: sums and means of rates are those of the fractions.
use native.Mathlib.Nat.{mul-le-mul_right, one-le-mul}
use hammerhead_bench.Prelude.{All, List, [], arith, length, suc, ℕ, ◌*◌, ◌+◌, ◌<◌, ◌∷◌, ◌≤◌}

pub record Ratio : Type 0 where
  pub num : ℕ
  pub den : ℕ

abbrev pub one : Ratio
one = record { num = 1; den = 1 }

-- A rate lies between 0 and 1.
pub record IsRate (r : Ratio) : Type 0 where
  pub defined : 0 < r.den
  pub bounded : r.num ≤ r.den

-- `sum(xs)`
unfoldable pub sum : List Ratio → Ratio
sum [] = record { num = 0; den = 1 }
sum (x ∷ xs) = let s = sum xs in record { num = x.num * s.den + s.num * x.den; den = x.den * s.den }

-- `sum(xs) / len(xs) if xs else 1.0`
unfoldable pub mean : List Ratio → Ratio
unfolding sum
mean [] = one
mean (x ∷ xs) = let s = sum (x ∷ xs) in record { num = s.num; den = s.den * length (x ∷ xs) }

abbrev pub SumBounds : ℕ → Ratio → Type 0
SumBounds n s = (0 < s.den) × (s.num ≤ s.den * n)

add_bounds : (a b c d n : ℕ) → a ≤ b → c ≤ d * n → a * d + c * b ≤ b * d * suc n
add_bounds a b c d n h k = omega (arith, mul-le-mul_right d h, mul-le-mul_right b k)

pub sum-bounds : (xs : List Ratio) → All IsRate xs → SumBounds (length xs) (sum xs)
unfolding sum
sum-bounds [] h = omega arith
sum-bounds (x ∷ xs) h =
    let (p, b) = sum-bounds xs h.1 in
    (
      one-le-mul h.0.defined p,
      add_bounds x.num x.den (sum xs).num (sum xs).den (length xs) h.0.bounded b,
    )

pub mean-IsRate : (xs : List Ratio) → All IsRate xs → IsRate (mean xs)
unfolding mean
mean-IsRate [] h = omega arith
mean-IsRate (x ∷ xs) h =
    let (p, b) = sum-bounds (x ∷ xs) h in
    record { defined = one-le-mul p (omega arith); bounded = b }
