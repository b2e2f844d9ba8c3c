-- ===== src/Pipeline/Trials/Laws.antt =====
-- harness/pipeline.py: what the loop over the trials gathers, and when it raises.
use mathlib.Core.List.{append_assoc, append-nil}
use hammerhead_bench.Prelude.{
  Bool, List, Option, [], all, ap, arith, false, if◌then◌else◌, length, none, refl, some, sym, true,
  ℕ, ℕ_eq, ◌&&◌, ◌++◌, ◌∙◌, ◌∷◌, ◌≡◌,
}
use hammerhead_bench.Pipeline.Trials.{
  BatfishHook, BatfishReading, HammerReading, Series, Trial, add_batfish, add_hammer, batfish_trial,
  callable, given, given_count, given_text, hammer_trial, is_used, no_batfish, no_series, service,
  simulate_le_total, simulate_plus_rib, trial_loop, warm_of,
}

-- What a list takes from the report of a hook, if the hook is set.
abbrev pub taken {ℓ κ} : {R : Type ℓ} {A : Type κ} → Bool → (R → List A) → Option R → List A
taken false f r = []
taken true f none = []
taken true f (some r) = f r

-- What one trial adds to each list.
abbrev pub entry : BatfishHook → Bool → Trial → Series
entry hook hammerhead t = record {
  batfish_walls = taken (is_used hook) (λ (r : BatfishReading). r.wall ∷ []) t.0;
  batfish_sims = taken (is_used hook) (λ (r : BatfishReading). given r.simulate_s) t.0;
  batfish_inits = taken (is_used hook) (λ (r : BatfishReading). given r.init_snapshot_s) t.0;
  batfish_peaks = taken (is_used hook) (λ (r : BatfishReading). given r.peak_rss_mb) t.0;
  batfish_peak_sources =
      taken (is_used hook) (λ (r : BatfishReading). given_text r.peak_rss_source) t.0;
  batfish_peak_samples =
      taken (is_used hook) (λ (r : BatfishReading). given_count r.peak_rss_sample_count) t.0;
  batfish_warms = taken (is_used hook) (λ (r : BatfishReading). warm_of hook r ∷ []) t.0;
  hammer_walls = taken hammerhead (λ (r : HammerReading). r.wall ∷ []) t.1;
  hammer_sims = taken hammerhead (λ (r : HammerReading). given r.simulate_s) t.1;
  hammer_ribs = taken hammerhead (λ (r : HammerReading). given r.rib_total_s) t.1;
  hammer_peaks = taken hammerhead (λ (r : HammerReading). given r.peak_rss_mb) t.1;
  hammer_peak_sources = taken hammerhead (λ (r : HammerReading). given_text r.peak_rss_source) t.1;
  hammer_peak_samples =
      taken hammerhead (λ (r : HammerReading). given_count r.peak_rss_sample_count) t.1;
  hammer_coverages = taken hammerhead (λ (r : HammerReading). r.coverage ∷ []) t.1;
}

abbrev pub joined : Series → Series → Series
joined s t = record {
  batfish_walls = s.batfish_walls ++ t.batfish_walls;
  batfish_sims = s.batfish_sims ++ t.batfish_sims;
  batfish_inits = s.batfish_inits ++ t.batfish_inits;
  batfish_peaks = s.batfish_peaks ++ t.batfish_peaks;
  batfish_peak_sources = s.batfish_peak_sources ++ t.batfish_peak_sources;
  batfish_peak_samples = s.batfish_peak_samples ++ t.batfish_peak_samples;
  batfish_warms = s.batfish_warms ++ t.batfish_warms;
  hammer_walls = s.hammer_walls ++ t.hammer_walls;
  hammer_sims = s.hammer_sims ++ t.hammer_sims;
  hammer_ribs = s.hammer_ribs ++ t.hammer_ribs;
  hammer_peaks = s.hammer_peaks ++ t.hammer_peaks;
  hammer_peak_sources = s.hammer_peak_sources ++ t.hammer_peak_sources;
  hammer_peak_samples = s.hammer_peak_samples ++ t.hammer_peak_samples;
  hammer_coverages = s.hammer_coverages ++ t.hammer_coverages;
}

-- What the trials add, one after the other.
abbrev pub entries : BatfishHook → Bool → List Trial → Series
entries hook hammerhead [] = no_series
entries hook hammerhead (t ∷ ts) = joined (entry hook hammerhead t) (entries hook hammerhead ts)

joined_nothing : (s : Series) → joined s no_series ≡ s
joined_nothing s = simp (append-nil)

joined_assoc : (s t u : Series) → joined (joined s t) u ≡ joined s (joined t u)
joined_assoc s t u = simp (append_assoc)

-- Both hooks of a trial that are set report, with times that fit.
abbrev batfish_fits : BatfishHook → Option BatfishReading → Bool
batfish_fits no_batfish b = true
batfish_fits hook none = false
batfish_fits hook (some r) = simulate_le_total r.simulate_s r.total_s

abbrev hammer_fits : Bool → Option HammerReading → Bool
hammer_fits false h = true
hammer_fits true none = false
hammer_fits true (some r) =
    simulate_le_total r.simulate_s r.total_s
    && simulate_le_total (simulate_plus_rib r.simulate_s r.rib_total_s) r.total_s

abbrev pub trial_fits : BatfishHook → Bool → Trial → Bool
trial_fits hook hammerhead (b, h) = batfish_fits hook b && hammer_fits hammerhead h

-- The parts of one trial.
abbrev of_batfish : BatfishHook → Option BatfishReading → Series
of_batfish hook b = entry hook false (b, none)

abbrev of_hammer : Bool → Option HammerReading → Series
of_hammer hammerhead h = entry no_batfish hammerhead (none, h)

entry_parts :
    (hook : BatfishHook) (hammerhead : Bool) (b : Option BatfishReading) (h : Option HammerReading)
    → joined (of_batfish hook b) (of_hammer hammerhead h) ≡ entry hook hammerhead (b, h)
entry_parts hook hammerhead b h = simp (append-nil)

callable_lem :
    (r : BatfishReading) (s : Series)
    → add_batfish callable r s ≡ joined s (of_batfish callable (some r))
unfolding add_batfish
callable_lem r s = simp (append-nil)

service_lem :
    (r : BatfishReading) (s : Series)
    → add_batfish service r s ≡ joined s (of_batfish service (some r))
unfolding add_batfish
service_lem r s = simp (append-nil)

batfish_trial_lem :
    (hook : BatfishHook) (b : Option BatfishReading) (s : Series)
    → batfish_trial hook b s
      ≡ (if batfish_fits hook b then some (joined s (of_batfish hook b)) else none)
unfolding batfish_trial
batfish_trial_lem no_batfish b s = ap (λ (t : Series). some t) (sym (joined_nothing s))
batfish_trial_lem callable none s = refl
batfish_trial_lem callable (some r) s = rw (callable_lem r s) refl
batfish_trial_lem service none s = refl
batfish_trial_lem service (some r) s = rw (service_lem r s) refl

add_hammer_lem :
    (r : HammerReading) (s : Series) → add_hammer r s ≡ joined s (of_hammer true (some r))
unfolding add_hammer
add_hammer_lem r s = simp (append-nil)

hammer_trial_lem :
    (hammerhead : Bool) (h : Option HammerReading) (s : Series)
    → hammer_trial hammerhead h s
      ≡ (if hammer_fits hammerhead h then some (joined s (of_hammer hammerhead h)) else none)
unfolding hammer_trial
hammer_trial_lem false h s = ap (λ (t : Series). some t) (sym (joined_nothing s))
hammer_trial_lem true none s = refl
hammer_trial_lem true (some r) s = rw (add_hammer_lem r s) refl

regroup :
    (s : Series) (hook : BatfishHook) (hammerhead : Bool) (b : Option BatfishReading)
    (h : Option HammerReading) (rest : Series)
    → joined (joined (joined s (of_batfish hook b)) (of_hammer hammerhead h)) rest
      ≡ joined s (joined (entry hook hammerhead (b, h)) rest)
regroup s hook hammerhead b h rest =
    ap (λ (t : Series). joined t rest) (joined_assoc s (of_batfish hook b) (of_hammer hammerhead h))
    ∙ joined_assoc s (joined (of_batfish hook b) (of_hammer hammerhead h)) rest
    ∙ ap (λ (t : Series). joined s (joined t rest)) (entry_parts hook hammerhead b h)

-- The loop ends without an exception exactly if every trial fits, and then each list has grown by
-- what the trials add, in order.
pub trial_loop_lem :
    (hook : BatfishHook) (hammerhead : Bool) (trials : List Trial) (s : Series)
    → trial_loop hook hammerhead trials s ≡ (
        if all (trial_fits hook hammerhead) trials
        then some (joined s (entries hook hammerhead trials))
        else none)
unfolding trial_loop all
trial_loop_lem hook hammerhead [] s = ap (λ (t : Series). some t) (sym (joined_nothing s))
trial_loop_lem hook hammerhead ((b, h) ∷ trials) s =
    go (batfish_fits hook b) refl (hammer_fits hammerhead h) refl (
      trial_loop_lem hook hammerhead trials
        (joined (joined s (of_batfish hook b)) (of_hammer hammerhead h)))
  where
    regrouped :
        (if all (trial_fits hook hammerhead) trials
          then some (
              joined
                (joined (joined s (of_batfish hook b)) (of_hammer hammerhead h))
                (entries hook hammerhead trials))
          else none)
        ≡ (if all (trial_fits hook hammerhead) trials
            then some
                (joined s (joined (entry hook hammerhead (b, h)) (entries hook hammerhead trials)))
            else none)
    regrouped =
        ap (λ (t : Series). if all (trial_fits hook hammerhead) trials then some t else none)
          (regroup s hook hammerhead b h (entries hook hammerhead trials))

    go :
        (bf : Bool)
        → batfish_fits hook b ≡ bf
        → (hf : Bool) → hammer_fits hammerhead h ≡ hf
        → trial_loop hook hammerhead trials
            (joined (joined s (of_batfish hook b)) (of_hammer hammerhead h))
          ≡ (if all (trial_fits hook hammerhead) trials
              then some (
                  joined
                    (joined (joined s (of_batfish hook b)) (of_hammer hammerhead h))
                    (entries hook hammerhead trials))
              else none)
        → trial_loop hook hammerhead ((b, h) ∷ trials) s ≡ (
            if (bf && hf) && all (trial_fits hook hammerhead) trials
            then some
                (joined s (joined (entry hook hammerhead (b, h)) (entries hook hammerhead trials)))
            else none)
    go false e hf f ih = rw (batfish_trial_lem hook b s, e) refl
    go true e false f ih =
        rw (batfish_trial_lem hook b s, e)
          (rw (hammer_trial_lem hammerhead h (joined s (of_batfish hook b)), f) refl)
    go true e true f ih =
        rw (batfish_trial_lem hook b s, e)
          (rw (hammer_trial_lem hammerhead h (joined s (of_batfish hook b)), f) (ih ∙ regrouped))

and_right : (a b : Bool) → (a && b) ≡ true → b ≡ true
and_right true b h = h
and_right false b h = cc

-- One value for each trial, if the hook is set.
abbrev pub per_trial : Bool → List Trial → ℕ
per_trial used trials = if used then length trials else 0

-- Each wall time and each warm flag stands for one trial.
pub batfish_count :
    (hook : BatfishHook) (hammerhead : Bool) (trials : List Trial)
    → all (trial_fits hook hammerhead) trials ≡ true
    → (length (entries hook hammerhead trials).batfish_walls ≡ per_trial (is_used hook) trials)
      × (length (entries hook hammerhead trials).batfish_warms ≡ per_trial (is_used hook) trials)
unfolding all
batfish_count no_batfish hammerhead [] h = omega arith
batfish_count callable hammerhead [] h = omega arith
batfish_count service hammerhead [] h = omega arith
batfish_count no_batfish hammerhead ((b, x) ∷ trials) h =
    batfish_count no_batfish hammerhead trials
      (and_right (hammer_fits hammerhead x) (all (trial_fits no_batfish hammerhead) trials) h)
batfish_count callable hammerhead ((none, x) ∷ trials) h = cc
batfish_count callable hammerhead ((some r, x) ∷ trials) h = omega (
  arith,
  batfish_count callable hammerhead trials (
      and_right (trial_fits callable hammerhead (some r, x))
        (all (trial_fits callable hammerhead) trials) h),
)
batfish_count service hammerhead ((none, x) ∷ trials) h = cc
batfish_count service hammerhead ((some r, x) ∷ trials) h = omega (
  arith,
  batfish_count service hammerhead trials (
      and_right (trial_fits service hammerhead (some r, x))
        (all (trial_fits service hammerhead) trials) h),
)

-- So does each coverage verdict.
pub hammer_count :
    (hook : BatfishHook) (hammerhead : Bool) (trials : List Trial)
    → all (trial_fits hook hammerhead) trials ≡ true
    → (length (entries hook hammerhead trials).hammer_walls ≡ per_trial hammerhead trials)
      × (length (entries hook hammerhead trials).hammer_coverages ≡ per_trial hammerhead trials)
unfolding all
hammer_count hook false [] h = omega arith
hammer_count hook true [] h = omega arith
hammer_count hook false ((b, x) ∷ trials) h =
    hammer_count hook false trials
      (and_right (trial_fits hook false (b, x)) (all (trial_fits hook false) trials) h)
hammer_count hook true ((b, none) ∷ trials) h = ground arith
hammer_count hook true ((b, some r) ∷ trials) h = omega (
  arith,
  hammer_count hook true trials
      (and_right (trial_fits hook true (b, some r)) (all (trial_fits hook true) trials) h),
)
