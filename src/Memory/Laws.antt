-- ===== src/Memory/Laws.antt =====
-- When the guards pass and what they then guarantee.
use native.Mathlib.Nat.{div-lt_iff_lt-mul}
use hammerhead_bench.Prelude.{
  All, Bool, List, [], ap, arith, false, inl, inr, int_eq, is_some, leb, length, negsuc, none, pos,
  refl, some, true, ℕ, ℤ, ℤ_eq, ◌*◌, ◌++◌, ◌+◌, ◌-◌, ◌<◌, ◌↔◌, ◌∷◌, ◌≡◌, ◌≤◌, ◌⊎◌,
}
use hammerhead_bench.Prelude.Ratio.{Ratio}
use hammerhead_bench.Memory.{
  Guarded, MemoryPoll, assert_recovered_to_baseline, check_headroom_before_deploy, memory_guard,
  needed_mb, negative, passed, recovery_loop, refused, size_of,
}

-- The available memory is what the cap takes, times the multiplier, rounded down.
abbrev pub HasHeadroom : ℤ → Ratio → ℕ → Type 0
HasHeadroom (pos n) multiplier have =
    (multiplier.den ≤ multiplier.num) × (n * multiplier.num < (have + 1) * multiplier.den)
HasHeadroom (negsuc n) multiplier have = ⊥

-- For a multiplier with a positive denominator, the guard before a deployment passes exactly if the
-- cap is not negative, the multiplier is one at least, and the available memory is at least the
-- product of the two, rounded down.
pub check_headroom_before_deploy-HasHeadroom :
    (cap : ℤ) (multiplier : Ratio) (have : ℕ)
    → 0 < multiplier.den
    → (check_headroom_before_deploy cap multiplier have ≡ none) ↔ HasHeadroom cap multiplier have
unfolding check_headroom_before_deploy negative size_of needed_mb
check_headroom_before_deploy-HasHeadroom (negsuc m) multiplier have d =
    (λ e. absurd cc, λ h. absurd h)
check_headroom_before_deploy-HasHeadroom (pos n) multiplier have d =
    ground (arith, div-lt_iff_lt-mul {x = n * multiplier.num} {y = have + 1} d)

-- The polls before the end read too little, and before the deadline.
abbrev pub TooLow : ℕ → ℕ → List MemoryPoll → Type 0
TooLow threshold deadline ps =
    All (λ (p : MemoryPoll). (p.available < threshold) × (p.now < deadline)) ps

-- How the loop ends: at the first reading that reaches the threshold, or at the first reading below
-- it after which the clock has passed the deadline.
pub record Recovery (threshold deadline : ℕ) (polls : List MemoryPoll) (o : Guarded) : Type 0 where
  pub done : List MemoryPoll
  pub last : MemoryPoll
  pub rest : List MemoryPoll
  pub split : polls ≡ done ++ last ∷ rest
  pub before : TooLow threshold deadline done
  pub outcome :
      ((o ≡ passed last.available) × (threshold ≤ last.available))
      ⊎ ((o ≡ refused memory_guard) × (last.available < threshold) × (deadline ≤ last.now))

recovery_loop-Recovery :
    (threshold deadline : ℕ) (polls : List MemoryPoll) (o : Guarded)
    → recovery_loop threshold deadline polls ≡ some o
    → Recovery threshold deadline polls o
unfolding recovery_loop
recovery_loop-Recovery threshold deadline [] o e = absurd cc
recovery_loop-Recovery threshold deadline (p ∷ ps) o e =
    go (leb threshold p.available) refl (leb deadline p.now) refl
      (recovery_loop-Recovery threshold deadline ps o)
  where
    go :
        (b : Bool)
        → leb threshold p.available ≡ b
        → (c : Bool) → leb deadline p.now ≡ c
        → (recovery_loop threshold deadline ps ≡ some o → Recovery threshold deadline ps o)
        → Recovery threshold deadline (p ∷ ps) o
    go true b c q ih = record {
      done = [];
      last = p;
      rest = ps;
      split = refl;
      before = tt;
      outcome = inl (ground arith, ground arith);
    }
    go false b true q ih = record {
      done = [];
      last = p;
      rest = ps;
      split = refl;
      before = tt;
      outcome = inr (ground arith, ground arith, ground arith);
    }
    go false b false q ih =
        let r = ih (ground arith) in
        record {
          done = p ∷ r.done;
          last = r.last;
          rest = r.rest;
          split = ap (λ l. p ∷ l) r.split;
          before = ((ground arith, ground arith), r.before);
          outcome = r.outcome;
        }

-- With a baseline and a slack that are not negative and a positive timeout, the wait for memory
-- returns the first reading that is at most the slack below the baseline, or raises
-- `MemoryGuardError` at the first reading below that after which the timeout is over. All
-- readings before were below and in time.
pub assert_recovered_to_baseline-Recovery :
    (baseline slack timeout start : ℕ) (polls : List MemoryPoll) (o : Guarded)
    → 0 < timeout
    → assert_recovered_to_baseline (pos baseline) (pos slack) (pos timeout) start polls ≡ some o
    → Recovery (baseline - slack) (start + 1000 * timeout) polls o
unfolding assert_recovered_to_baseline negative size_of int_eq
assert_recovered_to_baseline-Recovery baseline slack timeout start polls o t e =
    recovery_loop-Recovery (baseline - slack) (start + 1000 * timeout) polls o (ground arith)

-- Each clock reading comes at least a second after the one before, the first not before `time`.
abbrev pub Ticking : ℕ → List MemoryPoll → Type 0
Ticking time [] = Unit
Ticking time (p ∷ ps) = (time ≤ p.now) × Ticking (p.now + 1000) ps

recovery_loop_ends :
    (threshold deadline time : ℕ) (polls : List MemoryPoll)
    → Ticking time polls
    → 0 < length polls
    → deadline + 1000 ≤ time + 1000 * length polls
    → is_some (recovery_loop threshold deadline polls) ≡ true
unfolding recovery_loop
recovery_loop_ends threshold deadline time [] h n e = ground arith
recovery_loop_ends threshold deadline time (p ∷ ps) h n e =
    go (leb threshold p.available) refl (leb deadline p.now) refl
      (recovery_loop_ends threshold deadline (p.now + 1000) ps h.1)
  where
    go :
        (b : Bool)
        → leb threshold p.available ≡ b
        → (c : Bool) → leb deadline p.now ≡ c
        → (0 < length ps
            → deadline + 1000 ≤ p.now + 1000 + 1000 * length ps
            → is_some (recovery_loop threshold deadline ps) ≡ true)
        → is_some (recovery_loop threshold deadline (p ∷ ps)) ≡ true
    go true b c q ih = ground arith
    go false b true q ih = ground arith
    go false b false q ih =
        let early : p.now < deadline = ground arith in
        let more : 0 < length ps = omega (arith, h.0, early, e) in
        let far : deadline + 1000 ≤ p.now + 1000 + 1000 * length ps = omega (arith, h.0, e) in
        ground (arith, ih more far)

-- If the clock moves by a second at least between readings, the wait for memory ends: as many
-- readings as the timeout has seconds, and one more, are enough.
pub assert_recovered_to_baseline_ends :
    (baseline slack timeout : ℤ) (start : ℕ) (polls : List MemoryPoll)
    → Ticking start polls
    → size_of timeout < length polls
    → is_some (assert_recovered_to_baseline baseline slack timeout start polls) ≡ true
unfolding assert_recovered_to_baseline
assert_recovered_to_baseline_ends baseline slack timeout start polls h n = ground (
  arith,
  recovery_loop_ends (size_of baseline - size_of slack) (start + 1000 * size_of timeout) start polls
      h (omega arith) (omega arith),
)
