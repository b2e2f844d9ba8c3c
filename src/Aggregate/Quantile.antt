-- ===== src/Aggregate/Quantile.antt =====
-- harness/aggregate.py: quantiles rise with their position.
use native.Mathlib.Nat.{mul-le-mul_right}
use hammerhead_bench.Prelude.{
  All, Bool-cases, List, [], arith, inl, inr, leb, leb→le, length, ltb, refl, suc, true, zero, ℕ,
  ℕ_eq, ◌%◌, ◌*◌, ◌+◌, ◌-◌, ◌/◌, ◌<◌, ◌∷◌, ◌≡◌, ◌≤◌,
}
use hammerhead_bench.Prelude.Order.{ℕ_order}
use hammerhead_bench.Prelude.Sort.{IsSorted}
use hammerhead_bench.Aggregate.{identity, interpolate, item, last_item}

abbrev pub IsAscending : List ℕ → Type 0
IsAscending xs = IsSorted identity xs

item-All :
    (x : ℕ) (xs : List ℕ) (j : ℕ) → All (λ y. leb x y ≡ true) xs → j < length xs → x ≤ item xs j
unfolding item
item-All x [] j h k = absurd (omega arith)
item-All x (y ∷ ys) zero h k = leb→le x y h.0
item-All x (y ∷ ys) (suc j) h k = item-All x ys j h.1 (omega arith)

item_mono : (xs : List ℕ) (i j : ℕ) → IsAscending xs → i ≤ j → j < length xs → item xs i ≤ item xs j
unfolding item
item_mono [] i j h p q = absurd (omega arith)
item_mono (x ∷ xs) zero zero h p q = omega arith
item_mono (x ∷ xs) zero (suc j) h p q = item-All x xs j h.0 (omega arith)
item_mono (x ∷ xs) (suc i) zero h p q = absurd (omega arith)
item_mono (x ∷ xs) (suc i) (suc j) h p q = item_mono xs i j h.1 (omega arith) (omega arith)

between :
    (lo hi r : ℕ)
    → lo ≤ hi
    → r < 4
    → (4 * lo ≤ 4 * lo + (hi - lo) * r) × (4 * lo + (hi - lo) * r ≤ 4 * hi)
between lo hi zero h k = omega arith
between lo hi (suc zero) h k = omega arith
between lo hi (suc (suc zero)) h k = omega arith
between lo hi (suc (suc (suc zero))) h k = omega arith
between lo hi (suc (suc (suc (suc r)))) h k = absurd (omega arith)

rest_le : (p q : ℕ) → p ≤ q → p / 4 ≡ q / 4 → p % 4 ≤ q % 4
rest_le p q h e = omega arith

module _ (xs : List ℕ) (sorted : IsAscending xs) where
  -- A position in quarters lies between its item and the next one.
  interpolate_low : (p : ℕ) → p + 4 ≤ 4 * length xs → 4 * item xs (p / 4) ≤ interpolate xs p
  unfolding interpolate
  interpolate_low p h = ground (arith, between (item xs (p / 4)) (item xs (p / 4 + 1)) (p % 4))

  interpolate_high : (p j : ℕ) → p / 4 < j → j < length xs → interpolate xs p ≤ 4 * item xs j
  unfolding interpolate
  interpolate_high p j h k =
      let low = item_mono xs (p / 4) (p / 4 + 1) sorted (omega arith) (omega arith) in
      let high = item_mono xs (p / 4 + 1) j sorted (omega arith) k in
      let (above, below) =
        between (item xs (p / 4)) (item xs (p / 4 + 1)) (p % 4) low (omega arith) in
      ground arith

  interpolate_same : (p q : ℕ) → p ≤ q → p / 4 ≡ q / 4 → interpolate xs p ≤ interpolate xs q
  unfolding interpolate
  interpolate_same p q h e =
      rw e
        (ground (arith, mul-le-mul_right (item xs (q / 4 + 1) - item xs (q / 4)) (rest_le p q h e)))

  -- A later position has no smaller value.
  pub interpolate_mono :
      (p q : ℕ) → p ≤ q → q + 4 ≤ 4 * length xs → interpolate xs p ≤ interpolate xs q
  interpolate_mono p q h k = elim (Bool-cases (ltb (p / 4) (q / 4))) [
    | inl apart ↦
        let high = interpolate_high p (q / 4) (ground arith) (omega arith) in
        let low = interpolate_low q k in omega arith
    | inr together ↦ interpolate_same p q h (ground arith)
  ]

pub last_item-item : (x : ℕ) (xs : List ℕ) → last_item x xs ≡ item (x ∷ xs) (length xs)
unfolding last_item item
last_item-item x [] = refl
last_item-item x (y ∷ ys) = last_item-item y ys

whole : (n : ℕ) → (4 * n % 4 ≡ 0) × (4 * n / 4 ≡ n)
whole n = omega arith

pub first_position : (x : ℕ) (xs : List ℕ) → 4 * x ≤ interpolate (x ∷ xs) 0
unfolding interpolate item
first_position x xs = omega arith

pub last_position :
    (x : ℕ) (xs : List ℕ) → interpolate (x ∷ xs) (4 * length xs) ≤ 4 * last_item x xs
unfolding interpolate
last_position x xs = ground (arith, last_item-item x xs, whole (length xs))
