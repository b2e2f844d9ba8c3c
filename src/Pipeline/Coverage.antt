-- ===== src/Pipeline/Coverage.antt =====
-- harness/pipeline.py: Hammerhead's own verdicts on how much of the configs it read.
pub mod Laws
use hammerhead_bench.Prelude.{
  Bool, List, Option, Text, [], all, any, codes, count, false, filter, if◌then◌else◌, is_empty,
  is_some, length, list_eq, map, none, not, some, true, ℕ, ℕ_eq, ◌&&◌, ◌++◌, ◌∷◌,
}
use hammerhead_bench.Prelude.Dict.{dedup}

-- `_CoverageVerdict`: status, degraded, blockers of one trial.
pub record CoverageVerdict : Type 0 where
  pub status : Option Text
  pub degraded : Option Bool
  pub blockers : Option (List Text)

-- The `hammerhead_coverage_*` fields.
pub record CoverageFields : Type 0 where
  pub status : Option Text
  pub degraded : Option Bool
  pub blockers : Option (List Text)
  pub degraded_trials : ℕ
  pub trials : ℕ

-- `d is True`, `d is False` and `d is None`
abbrev pub is_true : Option Bool → Bool
is_true (some true) = true
is_true _ = false

abbrev pub is_false : Option Bool → Bool
is_false (some false) = true
is_false _ = false

abbrev pub is_none {ℓ} : {A : Type ℓ} → Option A → Bool
is_none none = true
is_none (some a) = false

-- `[s for s, d, _ in verdicts if d is True]`
unfoldable pub degraded_statuses : List CoverageVerdict → List (Option Text)
degraded_statuses [] = []
degraded_statuses (v ∷ vs) =
    let rest = degraded_statuses vs in if is_true v.degraded then v.status ∷ rest else rest

-- The items of the `blockers` that were recorded, trial by trial.
unfoldable pub recorded_blockers : List CoverageVerdict → List Text
recorded_blockers [] = []
recorded_blockers (v ∷ vs) =
    let rest = recorded_blockers vs in elim v.blockers [ none ↦ rest | some bs ↦ bs ++ rest ]

unfoldable pub any_recorded : List CoverageVerdict → Bool
any_recorded vs = any (λ (v : CoverageVerdict). is_some v.blockers) vs

-- `degraded_statuses[0] or "degraded"`
unfoldable pub or_degraded : Option Text → Text
or_degraded none = codes "degraded"
or_degraded (some s) = if is_empty s then codes "degraded" else s

-- `verdicts[-1][0]`
unfoldable pub last_status : List CoverageVerdict → Option Text
last_status [] = none
last_status (v ∷ []) = v.status
last_status (v ∷ w ∷ vs) = last_status (w ∷ vs)

-- The verdict of a topology and the status that goes with it.
unfoldable pub topology_verdict : List CoverageVerdict → Option Bool × Option Text
unfolding degraded_statuses or_degraded last_status
topology_verdict verdicts = elim (degraded_statuses verdicts) [
  | s ∷ ss ↦ (some true, some (or_degraded s))
  | [] ↦
      if not (is_empty verdicts) && all (λ (v : CoverageVerdict). is_false v.degraded) verdicts
      then (some false, last_status verdicts)
      else (none, none)
]

-- `_rollup_hammerhead_coverage`
unfoldable pub rollup_hammerhead_coverage : List CoverageVerdict → CoverageFields
unfolding topology_verdict any_recorded recorded_blockers
rollup_hammerhead_coverage verdicts = record {
  status = (topology_verdict verdicts).1;
  degraded = (topology_verdict verdicts).0;
  blockers = if any_recorded verdicts then some (dedup (recorded_blockers verdicts)) else none;
  degraded_trials = length (degraded_statuses verdicts);
  trials = length verdicts;
}

-- An item of `degraded_topologies`.
pub record DegradedTopology : Type 0 where
  pub topology : Text
  pub status : Option Text
  pub blockers : List Text
  pub degraded_trials : ℕ
  pub trials : ℕ

pub record CoverageSummary : Type 0 where
  pub complete_topology_count : ℕ
  pub degraded_topology_count : ℕ
  pub unknown_topology_count : ℕ
  pub degraded_topologies : List DegradedTopology

-- `list(blockers or [])`
abbrev pub or_empty {ℓ} : {A : Type ℓ} → Option (List A) → List A
or_empty none = []
or_empty (some xs) = xs

unfoldable pub degraded_row : Text × CoverageFields → DegradedTopology
degraded_row (topology, f) = record {
  topology = topology;
  status = f.status;
  blockers = or_empty f.blockers;
  degraded_trials = f.degraded_trials;
  trials = f.trials;
}

abbrev pub item_degraded : (Option Bool → Bool) → Text × CoverageFields → Bool
item_degraded p (topology, f) = p f.degraded

-- `summarize_hammerhead_coverage`: each item is a topology with its fields.
unfoldable pub summarize_hammerhead_coverage : List (Text × CoverageFields) → CoverageSummary
unfolding degraded_row
summarize_hammerhead_coverage items =
    let degraded = filter (item_degraded is_true) items in
    record {
      complete_topology_count = count (item_degraded is_false) items;
      degraded_topology_count = length degraded;
      unknown_topology_count = count (item_degraded is_none) items;
      degraded_topologies = map degraded_row degraded;
    }
