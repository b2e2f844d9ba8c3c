-- ===== src/Memory.antt =====
-- harness/memory.py: the guards on the host's memory. Readings are megabytes, times milliseconds.
-- A multiplier is a fraction, and the rounding of its product to a double is not modelled.
pub mod Laws
use hammerhead_bench.Prelude.{
  Bool, List, Option, [], false, if◌then◌else◌, leb, ltb, negsuc, none, pos, some, true, ℕ, ℤ, ℤ_eq,
  ◌*◌, ◌+◌, ◌-◌, ◌/◌, ◌==◌, ◌||◌, ◌∷◌,
}
use hammerhead_bench.Prelude.Ratio.{Ratio}

-- What a guard raises: `ValueError` for its arguments, or `MemoryGuardError`.
pub data GuardError : Type 0 where
  bad_argument : GuardError
  memory_guard : GuardError

pub data Guarded : Type 0 where
  passed : ℕ → Guarded
  refused : GuardError → Guarded

-- `n < 0`, and the value of an integer that is not.
unfoldable pub negative : ℤ → Bool
negative (pos n) = false
negative (negsuc n) = true

unfoldable pub size_of : ℤ → ℕ
size_of (pos n) = n
size_of (negsuc n) = 0

-- `int(cap * multiplier)`, for a denominator that is not zero.
unfoldable pub needed_mb : ℕ → Ratio → ℕ
needed_mb cap multiplier = cap * multiplier.num / multiplier.den

-- `check_headroom_before_deploy`, with the reading of the available memory; `none` if it passes.
unfoldable pub check_headroom_before_deploy : ℤ → Ratio → ℕ → Option GuardError
unfolding negative size_of needed_mb
check_headroom_before_deploy cap multiplier have =
    if negative cap
    then some bad_argument
    else if ltb multiplier.num multiplier.den
    then some bad_argument
    else if ltb have (needed_mb (size_of cap) multiplier)
    then some memory_guard
    else none

-- One pass of the recovery loop: the reading, and the clock after it.
pub record MemoryPoll : Type 0 where
  pub available : ℕ
  pub now : ℕ

-- The loop; `none` says that the polls given do not reach its end.
unfoldable pub recovery_loop : ℕ → ℕ → List MemoryPoll → Option Guarded
recovery_loop threshold deadline [] = none
recovery_loop threshold deadline (p ∷ ps) =
    let rest = recovery_loop threshold deadline ps in
    if leb threshold p.available
    then some (passed p.available)
    else if leb deadline p.now
    then some (refused memory_guard)
    else rest

-- `assert_recovered_to_baseline`, called at the time `start`. A threshold below zero is met by every
-- reading, as one of zero is.
unfoldable pub assert_recovered_to_baseline : ℤ → ℤ → ℤ → ℕ → List MemoryPoll → Option Guarded
unfolding negative size_of recovery_loop
assert_recovered_to_baseline baseline slack timeout start polls =
    if negative baseline
    then some (refused bad_argument)
    else if negative slack
    then some (refused bad_argument)
    else if negative timeout || timeout == pos 0
    then some (refused bad_argument)
    else recovery_loop (size_of baseline - size_of slack) (start + 1000 * size_of timeout) polls
