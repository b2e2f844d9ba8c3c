-- ===== src/PeakRss.antt =====
-- harness/peak_rss.py: reading the peak memory of the simulators. What `getrusage` and `docker stats`
-- say is an argument; a number of MB is a fraction, and `\d` and `\s` are those of ASCII.
pub mod Sizes
pub mod Laws
use hammerhead_bench.Prelude.{
  Bool, List, Option, Text, [], codes, contains, if◌then◌else◌, is_empty, leb, length, list_eq,
  lstrip, ltb, nat_eq, none, not, some, starts_with, strip, suc, zero, ℕ, ℕ_eq, ◌%◌, ◌&&◌, ◌*◌,
  ◌++◌, ◌+◌, ◌-◌, ◌/◌, ◌==◌, ◌>>=◌, ◌∷◌,
}
use hammerhead_bench.Prelude.Ratio.{Ratio}

-- `round(n / d)`: to the nearest number, and to the even one of two.
unfoldable pub round_div : ℕ → ℕ → ℕ
round_div n d =
    if ltb (2 * (n % d)) d
    then n / d
    else if ltb d (2 * (n % d))
    then n / d + 1
    else if nat_eq (n / d % 2) 0
    then n / d
    else n / d + 1

-- `PeakRssReading`, whose source is fixed by the routine.
pub record PeakReading : Type 0 where
  pub mb : Option ℕ
  pub sample_count : ℕ

abbrev pub no_reading : PeakReading
no_reading = record { mb = none; sample_count = 0 }

-- `_ru_maxrss_unit_divisor`
unfoldable pub ru_maxrss_unit_divisor : Text → ℕ
ru_maxrss_unit_divisor sysname =
    if sysname == codes "Linux"
    then 1024
    else if contains sysname
        (codes "Darwin" ∷ codes "FreeBSD" ∷ codes "OpenBSD" ∷ codes "NetBSD" ∷ [])
    then 1024 * 1024
    else 1024

-- The reading of `rusage_peak_mb`; `none` where the module `resource` is missing. What `getrusage`
-- says before the call is not used.
unfoldable pub rusage_peak_mb : Text → Option ℕ → PeakReading
unfolding round_div ru_maxrss_unit_divisor
rusage_peak_mb sysname none = no_reading
rusage_peak_mb sysname (some raw) =
    if leb raw 0
    then no_reading
    else record { mb = some (round_div raw (ru_maxrss_unit_divisor sysname)); sample_count = 1 }

-- `rusage_children_max_rss_mb`
unfoldable pub rusage_children_max_rss_mb : Text → Option ℕ → Option ℕ
unfolding round_div ru_maxrss_unit_divisor
rusage_children_max_rss_mb sysname none = none
rusage_children_max_rss_mb sysname (some raw) =
    if leb raw 0 then none else some (round_div raw (ru_maxrss_unit_divisor sysname))

abbrev pub is_digit : ℕ → Bool
is_digit c = leb b'0' c && leb c b'9'

-- The digits in front of a text, and the rest of it.
unfoldable pub digits : Text → Text × Text
digits [] = ([], [])
digits (c ∷ s) = let (ds, rest) = digits s in if is_digit c then (c ∷ ds, rest) else ([], c ∷ s)

-- The number that digits write, after a number that was read before.
unfoldable pub number_of : ℕ → Text → ℕ
number_of n [] = n
number_of n (c ∷ s) = number_of (10 * n + (c - b'0')) s

unfoldable pub ten_to : ℕ → ℕ
ten_to zero = 1
ten_to (suc n) = 10 * ten_to n

-- `\d+(?:\.\d+)?`, as a fraction, and the rest.
unfoldable pub value_of : Text → Option (Ratio × Text)
unfolding digits number_of ten_to
value_of s =
    let (whole, rest) = digits s in
    if is_empty whole then none else elim rest [
      | [] ↦ some (record { num = number_of 0 whole; den = 1 }, [])
      | c ∷ after ↦
          let (part, rest') = digits after in
          if nat_eq c b'.' && not (is_empty part)
          then some
              (record { num = number_of 0 (whole ++ part); den = ten_to (length part) }, rest')
          else some (record { num = number_of 0 whole; den = 1 }, c ∷ after)
    ]

-- `_UNIT_TO_MB`, with the units in the order of the expression.
unfoldable pub unit_to_mb : List (Text × Ratio)
unit_to_mb =
    (codes "KiB", record { num = 1; den = 1024 })
    ∷ (codes "MiB", record { num = 1; den = 1 })
    ∷ (codes "GiB", record { num = 1024; den = 1 })
    ∷ (codes "TiB", record { num = 1024 * 1024; den = 1 })
    ∷ (codes "B", record { num = 1; den = 1024 * 1024 })
    ∷ []

-- The first unit that stands in front of a text, and the rest of it.
unfoldable pub after_prefix : Text → Text → Option Text
after_prefix [] s = some s
after_prefix (p ∷ ps) [] = none
after_prefix (p ∷ ps) (c ∷ s) = if nat_eq p c then after_prefix ps s else none

unfoldable pub unit_of : List (Text × Ratio) → Text → Option (Ratio × Text)
unfolding after_prefix
unit_of [] s = none
unit_of ((name, factor) ∷ units) s = elim (after_prefix name s) [
  | some rest ↦ some (factor, rest)
  | none ↦ unit_of units s
]

-- A line of the output: a value, a unit and a slash.
unfoldable pub line_mb : Text → Option Ratio
unfolding value_of unit_of unit_to_mb lstrip
line_mb s = do
  (value, after_value) ← value_of s
  (factor, after_unit) ← unit_of unit_to_mb (lstrip after_value)
  (if starts_with (lstrip after_unit) (codes "/")
      then some (record { num = value.num * factor.num; den = value.den * factor.den })
      else none)

-- `_parse_memusage_mb`, on the lines of the output; a blank line does not match.
unfoldable pub parse_memusage_mb : List Text → Option Ratio
unfolding line_mb
parse_memusage_mb [] = none
parse_memusage_mb (line ∷ lines) = elim (line_mb (strip line)) [
  | some mb ↦ some mb
  | none ↦ parse_memusage_mb lines
]

-- What a poll of `docker stats` gives: an exception, or its exit code and the lines of its output.
pub data DockerPoll : Type 0 where
  errored : DockerPoll
  answered : ℕ → List Text → DockerPoll

-- The fields of `DockerStatsSampler` that change.
pub record Sampler : Type 0 where
  pub peak_mb : Ratio
  pub samples : ℕ

abbrev pub new_sampler : Sampler
new_sampler = record { peak_mb = record { num = 0; den = 1 }; samples = 0 }

-- The number of MB that a poll counts with.
unfoldable pub usable : DockerPoll → Option Ratio
unfolding parse_memusage_mb
usable errored = none
usable (answered rc out) = if nat_eq rc 0 then parse_memusage_mb out else none

unfoldable pub add_sample : Ratio → Sampler → Sampler
add_sample mb s = record {
  peak_mb = if ltb (s.peak_mb.num * mb.den) (mb.num * s.peak_mb.den) then mb else s.peak_mb;
  samples = suc s.samples;
}

-- `_run`: one pass after the other, until `stop` is called.
unfoldable pub sample_loop : List DockerPoll → Sampler → Sampler
unfolding usable add_sample
sample_loop [] s = s
sample_loop (p ∷ polls) s = elim (usable p) [
  | none ↦ sample_loop polls s
  | some mb ↦ sample_loop polls (add_sample mb s)
]

-- `stop`, of a sampler that was started.
unfoldable pub stop : Sampler → PeakReading
unfolding round_div
stop s = record {
  mb = if ltb 0 s.samples then some (round_div s.peak_mb.num s.peak_mb.den) else none;
  sample_count = s.samples;
}

-- `start`, the polls, and `stop`.
unfoldable pub sampled : List DockerPoll → PeakReading
unfolding sample_loop stop
sampled polls = stop (sample_loop polls new_sampler)
