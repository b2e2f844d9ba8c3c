-- ===== src/Adapters/Convergence/Liveness.antt =====
-- A router that stays converged is seen to be converged.
use hammerhead_bench.Prelude.{
  ==_refl, All, Bool, Bool-cases, List, Option, [], all, any, arith, if◌then◌else◌, inl, inr, leb,
  ltb, none, option_eq, refl, some, true, ℕ, ℕ_eq, ◌++◌, ◌+◌, ◌==◌, ◌∷◌, ◌≡◌, ◌≤◌,
}
use hammerhead_bench.Adapters.Convergence.{
  Outcome, Poll, Watch, converged, go_on, poll_step, routes, sample_interval, started,
  wait_for_convergence, watch_loop,
}

-- Each poll is made before the deadline.
abbrev pub is_timely : ℕ → Poll → Bool
is_timely deadline p = ltb p.at deadline

-- Each poll ends after the one before, the first not before `time`.
abbrev pub InOrder : ℕ → List Poll → Type 0
InOrder time [] = Unit
InOrder time (p ∷ ps) = (time ≤ p.now) × InOrder p.now ps

-- Each poll reads the number of routes with all sessions established.
abbrev pub ReadsAll : ℕ → List Poll → Type 0
ReadsAll n ps = All (λ (p : Poll). p.reading ≡ routes n) ps

-- Stable since a time that has come.
abbrev is_past : ℕ → Option ℕ → Bool
is_past time none = true
is_past time (some since) = leb since time

-- What a pass does, if it reads `n` routes.
step_of : ℕ → Watch → Poll → Outcome
step_of n w p =
    if w.prev_count == some n
    then elim w.stable_since [
      | none ↦ go_on (record { prev_count = some n; stable_since = some p.now })
      | some since ↦
          if leb (since + sample_interval) p.now
          then converged
          else go_on (record { prev_count = some n; stable_since = some since })
    ]
    else go_on (record { prev_count = some n; stable_since = none })

poll_step-reads :
    (n : ℕ) (w : Watch) (p : Poll) → p.reading ≡ routes n → poll_step w p ≡ step_of n w p
unfolding poll_step step_of
poll_step-reads n w p h = rw h refl

-- The wait returns, if it does from what the pass goes on with.
Goes : ℕ → List Poll → Outcome → Type 0
Goes deadline ps converged = Unit
Goes deadline ps (go_on w) = watch_loop deadline w ps ≡ some true

watch_loop-Goes :
    (deadline : ℕ) (w : Watch) (p : Poll) (ps : List Poll)
    → is_timely deadline p ≡ true
    → Goes deadline ps (poll_step w p)
    → watch_loop deadline w (p ∷ ps) ≡ some true
unfolding watch_loop Goes
watch_loop-Goes deadline w p ps h = go (poll_step w p) refl
  where
    go :
        (o : Outcome)
        → poll_step w p ≡ o
        → Goes deadline ps o
        → watch_loop deadline w (p ∷ ps) ≡ some true
    go converged e g = rw (h, e) refl
    go (go_on w') e g = rw (h, e) g

-- With two equal samples seen, the first poll that comes late enough ends the wait.
stable_returns :
    (deadline n since : ℕ) (ps : List Poll)
    → ReadsAll n ps
    → all (is_timely deadline) ps ≡ true
    → any (λ (p : Poll). leb (since + sample_interval) p.now) ps ≡ true
    → watch_loop deadline (record { prev_count = some n; stable_since = some since }) ps ≡ some true
unfolding all any step_of Goes
stable_returns deadline n since [] r t h = cc
stable_returns deadline n since (p ∷ ps) r t h = watch_loop-Goes deadline _ p ps (ground arith) (
    rw (poll_step-reads n _ p r.0, ==_refl (some n))
      (elim (Bool-cases (leb (since + sample_interval) p.now)) [
        | inl late ↦ rw late tt
        | inr early ↦
            rw early (stable_returns deadline n since ps r.1 (ground arith) (ground arith))
      ]))

later_any :
    (s t : ℕ) (ps : List Poll)
    → s ≤ t
    → any (λ (p : Poll). leb (t + sample_interval) p.now) ps ≡ true
    → any (λ (p : Poll). leb (s + sample_interval) p.now) ps ≡ true
unfolding any
later_any s t [] h e = cc
later_any s t (p ∷ ps) h e = ground (arith, later_any s t ps h)

-- A poll that reads `n` routes goes on with `n` seen, unless it ends the wait.
second_returns :
    (deadline n : ℕ) (since : Option ℕ) (p : Poll) (ps : List Poll)
    → is_past p.now since ≡ true
    → ReadsAll n (p ∷ ps)
    → all (is_timely deadline) (p ∷ ps) ≡ true
    → any (λ (q : Poll). leb (p.now + sample_interval) q.now) ps ≡ true
    → watch_loop deadline (record { prev_count = some n; stable_since = since }) (p ∷ ps)
      ≡ some true
unfolding all step_of Goes
second_returns deadline n none p ps past r t h = watch_loop-Goes deadline _ p ps (ground arith) (
    rw (poll_step-reads n _ p r.0, ==_refl (some n))
      (stable_returns deadline n p.now ps r.1 (ground arith) h))
second_returns deadline n (some since) p ps past r t h =
    watch_loop-Goes deadline _ p ps (ground arith) (
      rw (poll_step-reads n _ p r.0, ==_refl (some n))
        (elim (Bool-cases (leb (since + sample_interval) p.now)) [
          | inl late ↦ rw late tt
          | inr early ↦ rw early (
              stable_returns deadline n since ps r.1 (ground arith)
                (later_any since p.now ps (ground arith) h))
        ]))

-- Two polls, then one that comes late enough after the second.
calm_returns :
    (deadline n : ℕ) (w : Watch) (p q : Poll) (ps : List Poll)
    → is_past p.now w.stable_since ≡ true
    → ReadsAll n (p ∷ q ∷ ps)
    → all (is_timely deadline) (p ∷ q ∷ ps) ≡ true
    → p.now ≤ q.now
    → any (λ (x : Poll). leb (q.now + sample_interval) x.now) ps ≡ true
    → watch_loop deadline w (p ∷ q ∷ ps) ≡ some true
unfolding all step_of Goes
calm_returns deadline n w p q ps past r t o h =
    watch_loop-Goes deadline w p (q ∷ ps) (ground arith) (
      rw (poll_step-reads n w p r.0) (elim (Bool-cases (w.prev_count == some n)) [
        | inr other ↦ rw other (second_returns deadline n none q ps refl r.1 (ground arith) h)
        | inl same ↦ rw same (go w.stable_since past)
      ]))
  where
    go :
        (since : Option ℕ)
        → is_past p.now since ≡ true
        → Goes deadline (q ∷ ps) (elim since [
          | none ↦ go_on (record { prev_count = some n; stable_since = some p.now })
          | some s ↦
              if leb (s + sample_interval) p.now
              then converged
              else go_on (record { prev_count = some n; stable_since = some s })
        ])
    go none l = second_returns deadline n (some p.now) q ps (ground arith) r.1 (ground arith) h
    go (some s) l = elim (Bool-cases (leb (s + sample_interval) p.now)) [
      | inl late ↦ rw late tt
      | inr early ↦
          rw early (second_returns deadline n (some s) q ps (ground arith) r.1 (ground arith) h)
    ]

abbrev is_past_of : ℕ → Outcome → Bool
is_past_of time converged = true
is_past_of time (go_on w) = is_past time w.stable_since

step-is_past :
    (time : ℕ) (w : Watch) (p : Poll)
    → is_past time w.stable_since ≡ true
    → time ≤ p.now
    → is_past_of p.now (poll_step w p) ≡ true
unfolding poll_step
step-is_past time w p h o = ground arith

calm_returns_after :
    (deadline time n : ℕ) (w : Watch) (before : List Poll) (p q : Poll) (ps : List Poll)
    → is_past time w.stable_since ≡ true
    → InOrder time (before ++ p ∷ q ∷ [])
    → ReadsAll n (p ∷ q ∷ ps)
    → all (is_timely deadline) (before ++ p ∷ q ∷ ps) ≡ true
    → any (λ (x : Poll). leb (q.now + sample_interval) x.now) ps ≡ true
    → watch_loop deadline w (before ++ p ∷ q ∷ ps) ≡ some true
unfolding all Goes
calm_returns_after deadline time n w [] p q ps past o r t h =
    calm_returns deadline n w p q ps (go w.stable_since past) r t o.1.0 h
  where
    go : (s : Option ℕ) → is_past time s ≡ true → is_past p.now s ≡ true
    go s e = ground (arith, o.0)
calm_returns_after deadline time n w (b ∷ bs) p q ps past o r t h =
    watch_loop-Goes deadline w b (bs ++ p ∷ q ∷ ps) (ground arith) (
      go (poll_step w b) (step-is_past time w b past o.0)
        (λ w' e. calm_returns_after deadline b.now n w' bs p q ps e o.1 r (ground arith) h))
  where
    go :
        (x : Outcome)
        → is_past_of b.now x ≡ true
        → ((w' : Watch)
            → is_past b.now w'.stable_since ≡ true
            → watch_loop deadline w' (bs ++ p ∷ q ∷ ps) ≡ some true)
        → Goes deadline (bs ++ p ∷ q ∷ ps) x
    go converged e ih = tt
    go (go_on w') e ih = ih w' e

-- Whatever a router has shown before, if from some poll on it reads the same number of routes with
-- all sessions established, and a poll comes at least 15 s after the second of these, all before the
-- deadline and on a clock that does not go back up to then, then the wait returns `True`.
pub wait_for_convergence_returns :
    (start timeout n : ℕ) (before : List Poll) (p q : Poll) (ps : List Poll)
    → InOrder start (before ++ p ∷ q ∷ [])
    → ReadsAll n (p ∷ q ∷ ps)
    → all (is_timely (start + timeout)) (before ++ p ∷ q ∷ ps) ≡ true
    → any (λ (x : Poll). leb (q.now + sample_interval) x.now) ps ≡ true
    → wait_for_convergence start timeout (before ++ p ∷ q ∷ ps) ≡ some true
unfolding wait_for_convergence
wait_for_convergence_returns start timeout n before p q ps o r t h =
    calm_returns_after (start + timeout) start n started before p q ps refl o r t h
