-- ===== src/Pipeline/Trials.antt =====
-- harness/pipeline.py: the loop over the trials of `run_topology_sim_only`, and what it gathers. A
-- time is a number of microseconds, and what a hook leaves in its stats is read before.
pub mod Laws
use hammerhead_bench.Prelude.{
  Bool, List, Option, Text, [], false, if◌then◌else◌, is_empty, leb, ltb, none, some, true, ℕ, ℕ_eq,
  ◌&&◌, ◌++◌, ◌+◌, ◌>>=◌, ◌∷◌,
}
use hammerhead_bench.Pipeline.Coverage.{CoverageVerdict}

-- What one run of Batfish reports, and the wall time around it.
pub record BatfishReading : Type 0 where
  pub wall : ℕ
  pub simulate_s : Option ℕ
  pub init_snapshot_s : Option ℕ
  pub total_s : Option ℕ
  pub peak_rss_mb : Option ℕ
  pub peak_rss_source : Option Text
  pub peak_rss_sample_count : Option ℕ
  pub warm : Bool

-- What the sidecar of one run of Hammerhead says, and the wall time around it.
pub record HammerReading : Type 0 where
  pub wall : ℕ
  pub simulate_s : Option ℕ
  pub rib_total_s : Option ℕ
  pub total_s : Option ℕ
  pub peak_rss_mb : Option ℕ
  pub peak_rss_source : Option Text
  pub peak_rss_sample_count : Option ℕ
  pub coverage : CoverageVerdict

-- The lists that the loop fills.
pub record Series : Type 0 where
  pub batfish_walls : List ℕ
  pub batfish_sims : List ℕ
  pub batfish_inits : List ℕ
  pub batfish_peaks : List ℕ
  pub batfish_peak_sources : List Text
  pub batfish_peak_samples : List ℕ
  pub batfish_warms : List Bool
  pub hammer_walls : List ℕ
  pub hammer_sims : List ℕ
  pub hammer_ribs : List ℕ
  pub hammer_peaks : List ℕ
  pub hammer_peak_sources : List Text
  pub hammer_peak_samples : List ℕ
  pub hammer_coverages : List CoverageVerdict

abbrev pub no_series : Series
no_series = record {
  batfish_walls = [];
  batfish_sims = [];
  batfish_inits = [];
  batfish_peaks = [];
  batfish_peak_sources = [];
  batfish_peak_samples = [];
  batfish_warms = [];
  hammer_walls = [];
  hammer_sims = [];
  hammer_ribs = [];
  hammer_peaks = [];
  hammer_peak_sources = [];
  hammer_peak_samples = [];
  hammer_coverages = [];
}

-- Which of the two ways of running Batfish is used: the service, if both are set.
pub data BatfishHook : Type 0 where
  no_batfish callable service : BatfishHook

unfoldable pub chosen_hook : Bool → Bool → BatfishHook
chosen_hook has_service has_callable =
    if has_service then service else if has_callable then callable else no_batfish

abbrev pub is_used : BatfishHook → Bool
is_used no_batfish = false
is_used callable = true
is_used service = true

-- `_SIMULATE_LE_TOTAL_TOLERANCE_S`: 100 ms.
abbrev pub tolerance : ℕ
tolerance = 100000

-- `_assert_simulate_le_total` raises nothing.
unfoldable pub simulate_le_total : Option ℕ → Option ℕ → Bool
simulate_le_total (some sim) (some total) = leb sim (total + tolerance)
simulate_le_total _ _ = true

-- A value that is there, and one that is there and counts.
abbrev pub given {ℓ} : {A : Type ℓ} → Option A → List A
given none = []
given (some a) = a ∷ []

unfoldable pub given_text : Option Text → List Text
given_text none = []
given_text (some s) = if is_empty s then [] else s ∷ []

unfoldable pub given_count : Option ℕ → List ℕ
given_count none = []
given_count (some n) = if ltb 0 n then n ∷ [] else []

-- The service says whether its run was warm; the plain callable starts a container each time.
unfoldable pub warm_of : BatfishHook → BatfishReading → Bool
warm_of service r = r.warm
warm_of _ r = false

unfoldable pub add_batfish : BatfishHook → BatfishReading → Series → Series
unfolding warm_of given_text given_count
add_batfish hook r s = record s {
  batfish_walls = s.batfish_walls ++ r.wall ∷ [];
  batfish_sims = s.batfish_sims ++ given r.simulate_s;
  batfish_inits = s.batfish_inits ++ given r.init_snapshot_s;
  batfish_peaks = s.batfish_peaks ++ given r.peak_rss_mb;
  batfish_peak_sources = s.batfish_peak_sources ++ given_text r.peak_rss_source;
  batfish_peak_samples = s.batfish_peak_samples ++ given_count r.peak_rss_sample_count;
  batfish_warms = s.batfish_warms ++ warm_of hook r ∷ [];
}

-- Batfish's part of a trial; `none` is an exception, of the hook or of the check.
unfoldable pub batfish_trial : BatfishHook → Option BatfishReading → Series → Option Series
unfolding add_batfish simulate_le_total
batfish_trial no_batfish reading s = some s
batfish_trial hook none s = none
batfish_trial hook (some r) s =
    if simulate_le_total r.simulate_s r.total_s then some (add_batfish hook r s) else none

-- `(sim_s or 0.0) + (rib_s or 0.0)` if one of them is there.
unfoldable pub simulate_plus_rib : Option ℕ → Option ℕ → Option ℕ
simulate_plus_rib none none = none
simulate_plus_rib (some sim) none = some sim
simulate_plus_rib none (some rib) = some rib
simulate_plus_rib (some sim) (some rib) = some (sim + rib)

unfoldable pub add_hammer : HammerReading → Series → Series
unfolding given_text given_count
add_hammer r s = record s {
  hammer_walls = s.hammer_walls ++ r.wall ∷ [];
  hammer_sims = s.hammer_sims ++ given r.simulate_s;
  hammer_ribs = s.hammer_ribs ++ given r.rib_total_s;
  hammer_peaks = s.hammer_peaks ++ given r.peak_rss_mb;
  hammer_peak_sources = s.hammer_peak_sources ++ given_text r.peak_rss_source;
  hammer_peak_samples = s.hammer_peak_samples ++ given_count r.peak_rss_sample_count;
  hammer_coverages = s.hammer_coverages ++ r.coverage ∷ [];
}

-- Hammerhead's part of a trial.
unfoldable pub hammer_trial : Bool → Option HammerReading → Series → Option Series
unfolding add_hammer simulate_le_total simulate_plus_rib
hammer_trial false reading s = some s
hammer_trial true none s = none
hammer_trial true (some r) s =
    if simulate_le_total r.simulate_s r.total_s
      && simulate_le_total (simulate_plus_rib r.simulate_s r.rib_total_s) r.total_s
    then some (add_hammer r s)
    else none

-- What the two hooks of one trial report; `none` is an exception.
abbrev pub Trial : Type 0
Trial = Option BatfishReading × Option HammerReading

-- `for i in range(trials)`
unfoldable pub trial_loop : BatfishHook → Bool → List Trial → Series → Option Series
unfolding batfish_trial hammer_trial
trial_loop hook hammerhead [] s = some s
trial_loop hook hammerhead ((b, h) ∷ trials) s = do
  s' ← batfish_trial hook b s
  s'' ← hammer_trial hammerhead h s'
  trial_loop hook hammerhead trials s''
