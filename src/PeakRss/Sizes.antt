-- ===== src/PeakRss/Sizes.antt =====
-- The sizes that `docker stats` prints are read as fractions with a positive denominator.
use native.Mathlib.Nat.{one-le-mul}
use hammerhead_bench.Prelude.{
  All, Bool, Bool-cases, List, Option, Text, [], arith, codes, false, if◌then◌else◌, inl, inr,
  is_empty, length, list_eq, lstrip, nat_eq, none, not, some, starts_with, strip, suc, true, zero,
  ℕ, ℕ_eq, ◌&&◌, ◌*◌, ◌++◌, ◌<◌, ◌>>=◌, ◌∷◌,
}
use hammerhead_bench.Prelude.Ratio.{Ratio}
use hammerhead_bench.PeakRss.{
  DockerPoll, after_prefix, answered, digits, errored, line_mb, number_of, parse_memusage_mb,
  ten_to, unit_of, unit_to_mb, usable, value_of,
}

ten_to-positive : (n : ℕ) → 0 < ten_to n
unfolding ten_to
ten_to-positive zero = omega arith
ten_to-positive (suc n) = omega (arith, ten_to-positive n)

Positive : Option (Ratio × Text) → Type 0
Positive none = Unit
Positive (some (r, rest)) = 0 < r.den

value_of-Positive : (s : Text) → Positive (value_of s)
unfolding value_of Positive is_empty
value_of-Positive s = go (digits s)
  where
    tail :
        (whole rest : Text)
        → Positive (elim rest [
          | [] ↦ some (record { num = number_of 0 whole; den = 1 }, [])
          | c ∷ after ↦
              let (part, rest') = digits after in
              if nat_eq c b'.' && not (is_empty part)
              then some
                  (record { num = number_of 0 (whole ++ part); den = ten_to (length part) }, rest')
              else some (record { num = number_of 0 whole; den = 1 }, c ∷ after)
        ])
    tail whole [] = omega arith
    tail whole (c ∷ after) = elim (Bool-cases (nat_eq c b'.' && not (is_empty (digits after).0))) [
      | inl e ↦ rw e (ten_to-positive (length (digits after).0))
      | inr e ↦ rw e (omega arith)
    ]

    go :
        (d : Text × Text)
        → Positive (
            if is_empty d.0 then none else elim d.1 [
              | [] ↦ some (record { num = number_of 0 d.0; den = 1 }, [])
              | c ∷ after ↦
                  let (part, rest') = digits after in
                  if nat_eq c b'.' && not (is_empty part)
                  then some (
                    record { num = number_of 0 (d.0 ++ part); den = ten_to (length part) },
                    rest',
                  )
                  else some (record { num = number_of 0 d.0; den = 1 }, c ∷ after)
            ])
    go ([], rest) = tt
    go (d ∷ ds, rest) = tail (d ∷ ds) rest

unit_of-Positive :
    (units : List (Text × Ratio)) (s : Text)
    → All (λ (u : Text × Ratio). 0 < u.1.den) units
    → Positive (unit_of units s)
unfolding unit_of Positive
unit_of-Positive [] s h = tt
unit_of-Positive ((name, factor) ∷ units) s h =
    go (after_prefix name s) (unit_of-Positive units s h.1)
  where
    go :
        (o : Option Text)
        → Positive (unit_of units s)
        → Positive (elim o [ some rest ↦ some (factor, rest) | none ↦ unit_of units s ])
    go none k = k
    go (some rest) k = h.0

units_positive : All (λ (u : Text × Ratio). 0 < u.1.den) unit_to_mb
unfolding unit_to_mb
units_positive = (omega arith, (omega arith, (omega arith, (omega arith, (omega arith, tt)))))

abbrev pub IsPositiveIfAny : Option Ratio → Type 0
IsPositiveIfAny none = Unit
IsPositiveIfAny (some r) = 0 < r.den

line_mb-IsPositiveIfAny : (s : Text) → IsPositiveIfAny (line_mb s)
unfolding line_mb Positive
line_mb-IsPositiveIfAny s = go (value_of s) (value_of-Positive s)
  where
    scaled :
        (value factor : Ratio) (b : Bool)
        → 0 < value.den
        → 0 < factor.den
        → IsPositiveIfAny (
            if b
            then some (record { num = value.num * factor.num; den = value.den * factor.den })
            else none)
    scaled value factor true h k = one-le-mul h k
    scaled value factor false h k = tt

    unit :
        (value : Ratio)
        → 0 < value.den
        → (o : Option (Ratio × Text)) → Positive o
        → IsPositiveIfAny (
            o >>= λ u.
            if starts_with (lstrip u.1) (codes "/")
            then some (record { num = value.num * u.0.num; den = value.den * u.0.den })
            else none)
    unit value h none k = tt
    unit value h (some (factor, rest)) k =
        scaled value factor (starts_with (lstrip rest) (codes "/")) h k

    go :
        (o : Option (Ratio × Text))
        → Positive o
        → IsPositiveIfAny (
            o >>= λ x. unit_of unit_to_mb (lstrip x.1) >>= λ u.
            if starts_with (lstrip u.1) (codes "/")
            then some (record { num = x.0.num * u.0.num; den = x.0.den * u.0.den })
            else none)
    go none h = tt
    go (some (value, rest)) h =
        unit value h (unit_of unit_to_mb (lstrip rest))
          (unit_of-Positive unit_to_mb (lstrip rest) units_positive)

parse_memusage_mb-IsPositiveIfAny : (lines : List Text) → IsPositiveIfAny (parse_memusage_mb lines)
unfolding parse_memusage_mb
parse_memusage_mb-IsPositiveIfAny [] = tt
parse_memusage_mb-IsPositiveIfAny (l ∷ lines) =
    go (line_mb (strip l)) (line_mb-IsPositiveIfAny (strip l))
      (parse_memusage_mb-IsPositiveIfAny lines)
  where
    go :
        (o : Option Ratio)
        → IsPositiveIfAny o
        → IsPositiveIfAny (parse_memusage_mb lines)
        → IsPositiveIfAny (elim o [ some mb ↦ some mb | none ↦ parse_memusage_mb lines ])
    go none h k = k
    go (some mb) h k = h

pub usable-IsPositiveIfAny : (p : DockerPoll) → IsPositiveIfAny (usable p)
unfolding usable
usable-IsPositiveIfAny errored = tt
usable-IsPositiveIfAny (answered rc out) = elim (Bool-cases (nat_eq rc 0)) [
  | inl e ↦ rw e (parse_memusage_mb-IsPositiveIfAny out)
  | inr e ↦ rw e tt
]
