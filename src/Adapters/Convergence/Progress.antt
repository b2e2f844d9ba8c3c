-- ===== src/Adapters/Convergence/Progress.antt =====
-- The wait ends: each pass sleeps for a second at least.
use hammerhead_bench.Prelude.{
  Bool, List, [], arith, false, is_some, length, ltb, option_eq, refl, true, ℕ, ℕ_eq, ◌*◌, ◌+◌, ◌<◌,
  ◌∷◌, ◌≡◌, ◌≤◌,
}
use hammerhead_bench.Adapters.Convergence.{
  Outcome, Poll, Watch, converged, go_on, poll_step, started, wait_for_convergence, watch_loop,
}

-- Each test of the loop comes at least a second after the one before, the first not before `time`.
abbrev pub Paced : ℕ → List Poll → Type 0
Paced time [] = Unit
Paced time (p ∷ ps) = (time ≤ p.at) × Paced (p.at + 1000) ps

watch_loop_ends :
    (deadline time : ℕ) (w : Watch) (polls : List Poll)
    → Paced time polls
    → 0 < length polls
    → deadline + 1000 ≤ time + 1000 * length polls
    → is_some (watch_loop deadline w polls) ≡ true
unfolding watch_loop
watch_loop_ends deadline time w [] h n e = ground arith
watch_loop_ends deadline time w (p ∷ ps) h n e =
    go (ltb p.at deadline) refl (poll_step w p) refl
      (λ w' n' e'. watch_loop_ends deadline (p.at + 1000) w' ps h.1 n' e')
  where
    go :
        (b : Bool)
        → ltb p.at deadline ≡ b
        → (o : Outcome) → poll_step w p ≡ o
        → ((w' : Watch)
            → 0 < length ps
            → deadline + 1000 ≤ p.at + 1000 + 1000 * length ps
            → is_some (watch_loop deadline w' ps) ≡ true)
        → is_some (watch_loop deadline w (p ∷ ps)) ≡ true
    go false b o q ih = ground arith
    go true b converged q ih = ground arith
    go true b (go_on w') q ih =
        let early : p.at < deadline = ground arith in
        let more : 0 < length ps = omega (arith, h.0, early, e) in
        let far : deadline + 1000 ≤ p.at + 1000 + 1000 * length ps = omega (arith, h.0, e) in
        ground (arith, ih w' more far)

-- If each pass comes a second at least after the one before, as many passes as the timeout has
-- seconds, and one more, are enough for the wait to return.
pub wait_for_convergence_ends :
    (start timeout : ℕ) (polls : List Poll)
    → Paced start polls
    → timeout + 1000 ≤ 1000 * length polls
    → is_some (wait_for_convergence start timeout polls) ≡ true
unfolding wait_for_convergence
wait_for_convergence_ends start timeout polls h e =
    watch_loop_ends (start + timeout) start started polls h (omega arith) (omega arith)
