-- ===== src/Adapters/Convergence/Laws.antt =====
-- What a router has shown when the wait returns `True`.
use mathlib.Core.Path.{subst}
use hammerhead_bench.Prelude.{
  ==_iff, Bool, List, Option, [], ap, arith, count, false, inl, inr, ltb, none, option_beq,
  option_eq, refl, some, true, ℕ, ℕ_eq, ◌++◌, ◌+◌, ◌<◌, ◌==◌, ◌∷◌, ◌≡◌, ◌≤◌, ◌⊎◌,
}
use hammerhead_bench.Adapters.Convergence.{
  Outcome, Poll, Reading, Watch, converged, failed, go_on, poll_step, routes, sample_interval,
  sessions_down, started, wait_for_convergence, watch_loop,
}

-- The polls seen so far, the last one first. Failed passes do not count: the last good pass read
-- `count` routes with all sessions established.
abbrev pub LastIs : ℕ → List Poll → Type 0
LastIs count [] = ⊥
LastIs count (p ∷ ps) = elim p.reading [
  | failed ↦ LastIs count ps
  | sessions_down ↦ ⊥
  | routes n ↦ n ≡ count
]

-- Since the time `since` every pass that did not fail read `count` routes, and so did the one before.
abbrev pub SteadySince : ℕ → ℕ → List Poll → Type 0
SteadySince count since [] = ⊥
SteadySince count since (p ∷ ps) = elim p.reading [
  | failed ↦ SteadySince count since ps
  | sessions_down ↦ ⊥
  | routes n ↦ (n ≡ count) × ((p.now ≡ since) × LastIs count ps ⊎ SteadySince count since ps)
]

-- The variables of the loop say what they mean.
pub record Remembers (w : Watch) (seen : List Poll) : Type 0 where
  pub prev : (n : ℕ) → w.prev_count ≡ some n → LastIs n seen
  pub stable : (n t : ℕ) → w.prev_count ≡ some n → w.stable_since ≡ some t → SteadySince n t seen

started-Remembers : (seen : List Poll) → Remembers started seen
started-Remembers seen = record { prev = λ n e. absurd cc; stable = λ n t e e'. absurd cc }

-- A pass with the same number of routes as before.
same_prev :
    (w : Watch) (seen : List Poll) (m : ℕ)
    → Remembers w seen
    → (w.prev_count == some m) ≡ true
    → LastIs m seen
unfolding option_beq
same_prev w seen m h e = h.prev m (ground (arith, ==_iff w.prev_count (some m)))

steady_prev :
    (w : Watch) (seen : List Poll) (m t : ℕ)
    → Remembers w seen
    → (w.prev_count == some m) ≡ true
    → w.stable_since ≡ some t
    → SteadySince m t seen
steady_prev w seen m t h e s = h.stable m t (ground (arith, ==_iff w.prev_count (some m))) s

fresh-Remembers :
    (m at now : ℕ) (seen : List Poll)
    → Remembers
        (record { prev_count = some m; stable_since = none })
        (record { at = at; reading = routes m; now = now } ∷ seen)
fresh-Remembers m at now seen = record {
  prev = λ n e. ground arith;
  stable = λ n t e e'. absurd cc;
}

steady-Remembers :
    (m since at now : ℕ) (seen : List Poll)
    → ((now ≡ since) × LastIs m seen) ⊎ SteadySince m since seen
    → Remembers
        (record { prev_count = some m; stable_since = some since })
        (record { at = at; reading = routes m; now = now } ∷ seen)
steady-Remembers m since at now seen h = record {
  prev = λ n e. ground arith;
  stable = λ n t e e'.
      let p : m ≡ n = ground arith in let q : since ≡ t = ground arith in (p, subst2 p q h);
}
  where
    subst2 :
        {n t : ℕ}
        → m ≡ n
        → since ≡ t
        → ((now ≡ since) × LastIs m seen) ⊎ SteadySince m since seen
        → ((now ≡ t) × LastIs n seen) ⊎ SteadySince n t seen
    subst2 p q h =
        subst (λ (x : ℕ × ℕ). ((now ≡ x.1) × LastIs x.0 seen) ⊎ SteadySince x.0 x.1 seen)
          (λ i. (p i, q i)) h

-- Where a pass goes on, the variables keep their meaning.
step-Remembers :
    (w w' : Watch) (r : Reading) (at now : ℕ) (seen : List Poll)
    → Remembers w seen
    → poll_step w (record { at = at; reading = r; now = now }) ≡ go_on w'
    → Remembers w' (record { at = at; reading = r; now = now } ∷ seen)
unfolding poll_step
step-Remembers w w' failed at now seen h e =
    let same : w ≡ w' = ground arith in
    subst (λ x. Remembers x (record { at = at; reading = failed; now = now } ∷ seen)) same
      (record { prev = h.prev; stable = h.stable })
step-Remembers w w' sessions_down at now seen h e =
    let same : started ≡ w' = ground arith in
    subst (λ x. Remembers x (record { at = at; reading = sessions_down; now = now } ∷ seen)) same
      (started-Remembers (record { at = at; reading = sessions_down; now = now } ∷ seen))
step-Remembers w w' (routes m) at now seen h e =
    go (w.prev_count == some m) refl w.stable_since refl
  where
    here : List Poll
    here = record { at = at; reading = routes m; now = now } ∷ seen

    go :
        (b : Bool)
        → (w.prev_count == some m) ≡ b
        → (s : Option ℕ) → w.stable_since ≡ s
        → Remembers w' here
    go false b s q =
        let same : record { prev_count = some m; stable_since = none } ≡ w' = ground arith in
        subst (λ x. Remembers x here) same (fresh-Remembers m at now seen)
    go true b none q =
        let same : record { prev_count = some m; stable_since = some now } ≡ w' = ground arith in
        subst (λ x. Remembers x here) same
          (steady-Remembers m now at now seen (inl (refl, same_prev w seen m h b)))
    go true b (some since) q =
        let same : record { prev_count = some m; stable_since = some since } ≡ w' = ground arith in
        subst (λ x. Remembers x here) same
          (steady-Remembers m since at now seen (inr (steady_prev w seen m since h b q)))

-- A pass that ends the wait.
step_converged :
    (w : Watch) (r : Reading) (at now : ℕ) (seen : List Poll)
    → Remembers w seen
    → poll_step w (record { at = at; reading = r; now = now }) ≡ converged
    → (m : ℕ) × (t : ℕ) × (r ≡ routes m) × (t + sample_interval ≤ now) × SteadySince m t seen
unfolding poll_step
step_converged w failed at now seen h e = absurd (ground arith)
step_converged w sessions_down at now seen h e = absurd (ground arith)
step_converged w (routes m) at now seen h e = go (w.prev_count == some m) refl w.stable_since refl
  where
    go :
        (b : Bool)
        → (w.prev_count == some m) ≡ b
        → (s : Option ℕ) → w.stable_since ≡ s
        → (m' : ℕ) × (t : ℕ) × (routes m ≡ routes m')
          × (t + sample_interval ≤ now)
          × SteadySince m' t seen
    go false b s q = absurd (ground arith)
    go true b none q = absurd (ground arith)
    go true b (some since) q = (m, since, refl, ground arith, steady_prev w seen m since h b q)

-- The polls `done`, put in front of those seen, the last one first.
abbrev pub onto : List Poll → List Poll → List Poll
onto [] seen = seen
onto (p ∷ ps) seen = onto ps (p ∷ seen)

-- The wait ended at the poll `last` after the polls `done`.
pub record EndsAt (deadline : ℕ) (seen polls : List Poll) : Type 0 where
  pub done : List Poll
  pub last : Poll
  pub rest : List Poll
  pub count : ℕ
  pub since : ℕ
  pub split : polls ≡ done ++ last ∷ rest
  pub in_time : last.at < deadline
  pub reads : last.reading ≡ routes count
  pub long_enough : since + sample_interval ≤ last.now
  pub steady : SteadySince count since (onto done seen)

later :
    (deadline : ℕ) (p : Poll) (seen polls : List Poll)
    → EndsAt deadline (p ∷ seen) polls
    → EndsAt deadline seen (p ∷ polls)
later deadline p seen polls e = record {
  done = p ∷ e.done;
  last = e.last;
  rest = e.rest;
  count = e.count;
  since = e.since;
  split = ap (λ l. p ∷ l) e.split;
  in_time = e.in_time;
  reads = e.reads;
  long_enough = e.long_enough;
  steady = e.steady;
}

watch_loop-EndsAt :
    (deadline : ℕ) (w : Watch) (seen polls : List Poll)
    → Remembers w seen
    → watch_loop deadline w polls ≡ some true
    → EndsAt deadline seen polls
unfolding watch_loop
watch_loop-EndsAt deadline w seen [] h e = absurd cc
watch_loop-EndsAt deadline w seen (p ∷ ps) h e =
    go (ltb p.at deadline) refl (poll_step w p) refl
      (λ w' h' e'. watch_loop-EndsAt deadline w' (p ∷ seen) ps h' e')
  where
    go :
        (b : Bool)
        → ltb p.at deadline ≡ b
        → (o : Outcome) → poll_step w p ≡ o
        → ((w' : Watch)
            → Remembers w' (p ∷ seen)
            → watch_loop deadline w' ps ≡ some true
            → EndsAt deadline (p ∷ seen) ps)
        → EndsAt deadline seen (p ∷ ps)
    go false b o q ih = absurd (ground arith)
    go true b (go_on w') q ih =
        later deadline p seen ps
          (ih w' (step-Remembers w w' p.reading p.at p.now seen h q) (ground arith))
    go true b converged q ih =
        let (m, t, reads, long, steady) = step_converged w p.reading p.at p.now seen h q in
        record {
          done = [];
          last = p;
          rest = ps;
          count = m;
          since = t;
          split = refl;
          in_time = ground arith;
          reads = reads;
          long_enough = long;
          steady = steady;
        }

-- If the wait returns `True`, it does so at a poll before the deadline that reads the number of
-- routes with all BGP sessions established. Every earlier poll back to one at the time `since`, at
-- least 15 s before, failed or read the same number with all sessions established, and so did
-- another poll before that time: three equal samples, not two.
pub wait_for_convergence-EndsAt :
    (start timeout : ℕ) (polls : List Poll)
    → wait_for_convergence start timeout polls ≡ some true
    → EndsAt (start + timeout) [] polls
unfolding wait_for_convergence
wait_for_convergence-EndsAt start timeout polls e =
    watch_loop-EndsAt (start + timeout) started [] polls (started-Remembers []) e
