-- ===== src/Pipeline/Coverage/Laws.antt =====
-- What the verdict of a topology says of its trials, and that the summary counts each topology once.
use hammerhead_bench.Prelude.{
  Bool, List, Option, Text, [], all, any, ap, arith, contains, count, count-le-length, false,
  filter, if◌then◌else◌, is_empty, is_some, length, length-filter, list_eq, map, none, refl, some,
  suc, true, ℕ_eq, ◌++◌, ◌+◌, ◌<◌, ◌||◌, ◌↔◌, ◌∷◌, ◌≡◌,
}
use hammerhead_bench.Prelude.Dict.{Distinct, contains-append, contains-dedup, dedup, dedup-Distinct}
use hammerhead_bench.Pipeline.Coverage.{
  CoverageFields, CoverageVerdict, any_recorded, degraded_row, degraded_statuses, is_false, is_none,
  is_true, item_degraded, or_degraded, or_empty, recorded_blockers, rollup_hammerhead_coverage,
  summarize_hammerhead_coverage, topology_verdict,
}

abbrev pub trial_is : (Option Bool → Bool) → CoverageVerdict → Bool
trial_is p v = p v.degraded

length-degraded_statuses :
    (vs : List CoverageVerdict) → length (degraded_statuses vs) ≡ count (trial_is is_true) vs
unfolding degraded_statuses count
length-degraded_statuses [] = refl
length-degraded_statuses (v ∷ vs) = ground (arith, length-degraded_statuses vs)

all_false_counts :
    (vs : List CoverageVerdict)
    → (all (trial_is is_false) vs ≡ true) ↔ (count (trial_is is_false) vs ≡ length vs)
unfolding all count
all_false_counts [] = ground arith
all_false_counts (v ∷ vs) =
    ground (arith, all_false_counts vs, count-le-length (trial_is is_false) vs)

disjoint_counts :
    (vs : List CoverageVerdict)
    → count (trial_is is_true) vs + count (trial_is is_false) vs + count (trial_is is_none) vs
      ≡ length vs
unfolding count
disjoint_counts [] = refl
disjoint_counts (v ∷ vs) = ground (arith, disjoint_counts vs)

-- Some trial recorded the blocker.
abbrev pub lists_blocker : Text → CoverageVerdict → Bool
lists_blocker b v = contains b (or_empty v.blockers)

contains-recorded :
    (b : Text) (vs : List CoverageVerdict)
    → contains b (recorded_blockers vs) ≡ any (lists_blocker b) vs
unfolding contains recorded_blockers any
contains-recorded b [] = refl
contains-recorded b (v ∷ vs) = go v.blockers refl (contains-recorded b vs)
  where
    go :
        (o : Option (List Text))
        → v.blockers ≡ o
        → contains b (recorded_blockers vs) ≡ any (lists_blocker b) vs
        → contains b (elim o [ none ↦ recorded_blockers vs | some bs ↦ bs ++ recorded_blockers vs ])
          ≡ (contains b (or_empty o) || any (lists_blocker b) vs)
    go none e ih = ih
    go (some bs) e ih = ground (arith, contains-append b bs (recorded_blockers vs))

any-count :
    (vs : List CoverageVerdict)
    → (any (trial_is is_true) vs ≡ true) ↔ (0 < count (trial_is is_true) vs)
unfolding any count
any-count [] = ground arith
any-count (v ∷ vs) = ground (arith, any-count vs)

or_degraded_nonempty : (s : Option Text) → is_empty (or_degraded s) ≡ false
unfolding or_degraded is_empty
or_degraded_nonempty none = refl
or_degraded_nonempty (some []) = refl
or_degraded_nonempty (some (c ∷ s)) = refl

-- What the fields say of the trials.
pub record IsRollup (vs : List CoverageVerdict) (f : CoverageFields) : Type 0 where
  pub degraded_iff : (f.degraded ≡ some true) ↔ (any (trial_is is_true) vs ≡ true)
  pub complete_iff :
      (f.degraded ≡ some false) ↔ ((0 < length vs) × (count (trial_is is_false) vs ≡ length vs))
  pub degraded_trials : f.degraded_trials ≡ count (trial_is is_true) vs
  pub trials : f.trials ≡ length vs
  pub named : f.degraded ≡ some true → (s : Text) × (f.status ≡ some s) × (is_empty s ≡ false)
  pub blockers : (b : Text) → contains b (or_empty f.blockers) ≡ any (lists_blocker b) vs
  pub no_repeats : Distinct (or_empty f.blockers)
  pub recorded : is_some f.blockers ≡ any (λ (v : CoverageVerdict). is_some v.blockers) vs

verdict-degraded :
    (vs : List CoverageVerdict)
    → ((topology_verdict vs).0 ≡ some true) ↔ (0 < count (trial_is is_true) vs)
unfolding topology_verdict
verdict-degraded vs = go (degraded_statuses vs) refl
  where
    go :
        (l : List (Option Text))
        → degraded_statuses vs ≡ l
        → ((topology_verdict vs).0 ≡ some true) ↔ (0 < count (trial_is is_true) vs)
    go [] e = ground (arith, length-degraded_statuses vs)
    go (s ∷ ss) e = ground (arith, length-degraded_statuses vs)

verdict_complete :
    (vs : List CoverageVerdict)
    → ((topology_verdict vs).0 ≡ some false)
      ↔ ((0 < length vs) × (count (trial_is is_false) vs ≡ length vs))
unfolding topology_verdict is_empty
verdict_complete vs = go vs refl (degraded_statuses vs) refl
  where
    go :
        (ws : List CoverageVerdict)
        → vs ≡ ws
        → (l : List (Option Text)) → degraded_statuses vs ≡ l
        → ((topology_verdict vs).0 ≡ some false)
          ↔ ((0 < length vs) × (count (trial_is is_false) vs ≡ length vs))
    go ws e' l e =
        ground (arith, length-degraded_statuses vs, all_false_counts vs, disjoint_counts vs)

verdict_named :
    (vs : List CoverageVerdict)
    → (topology_verdict vs).0 ≡ some true
    → (s : Text) × ((topology_verdict vs).1 ≡ some s) × (is_empty s ≡ false)
unfolding topology_verdict
verdict_named vs h = go (degraded_statuses vs) refl
  where
    go :
        (l : List (Option Text))
        → degraded_statuses vs ≡ l
        → (s : Text) × ((topology_verdict vs).1 ≡ some s) × (is_empty s ≡ false)
    go [] e = absurd (ground arith)
    go (s ∷ ss) e = (or_degraded s, ground arith, or_degraded_nonempty s)

none_listed :
    (b : Text) (vs : List CoverageVerdict)
    → any (λ (v : CoverageVerdict). is_some v.blockers) vs ≡ false
    → any (lists_blocker b) vs ≡ false
unfolding any contains
none_listed b [] h = refl
none_listed b (v ∷ vs) h = ground (arith, none_listed b vs)

blockers_of :
    (vs : List CoverageVerdict) (b : Text)
    → contains b (or_empty (rollup_hammerhead_coverage vs).blockers) ≡ any (lists_blocker b) vs
unfolding rollup_hammerhead_coverage any_recorded contains
blockers_of vs b =
    ground
      (arith, contains-dedup b (recorded_blockers vs), contains-recorded b vs, none_listed b vs)

blockers-Distinct :
    (vs : List CoverageVerdict) → Distinct (or_empty (rollup_hammerhead_coverage vs).blockers)
unfolding rollup_hammerhead_coverage
blockers-Distinct vs = go (any_recorded vs) (dedup-Distinct (recorded_blockers vs))
  where
    go :
        (t : Bool)
        → Distinct (dedup (recorded_blockers vs))
        → Distinct (or_empty (if t then some (dedup (recorded_blockers vs)) else none))
    go true h = h
    go false h = tt

-- A topology is degraded exactly if some trial is, and complete exactly if there are trials and all
-- are complete. The counters count the trials, a degraded topology has a status that is not empty,
-- and the blockers are those that some trial lists, each once; they are recorded if a trial
-- recorded any.
pub rollup_hammerhead_coverage-IsRollup :
    (vs : List CoverageVerdict) → IsRollup vs (rollup_hammerhead_coverage vs)
unfolding rollup_hammerhead_coverage any_recorded
rollup_hammerhead_coverage-IsRollup vs = record {
  degraded_iff = ground (arith, verdict-degraded vs, any-count vs);
  complete_iff = verdict_complete vs;
  degraded_trials = length-degraded_statuses vs;
  trials = refl;
  named = verdict_named vs;
  blockers = blockers_of vs;
  no_repeats = blockers-Distinct vs;
  recorded = ground arith;
}

count_verdicts :
    (items : List (Text × CoverageFields))
    → count (item_degraded is_false) items
        + count (item_degraded is_true) items
        + count (item_degraded is_none) items
      ≡ length items
unfolding count
count_verdicts [] = refl
count_verdicts (i ∷ is) = ground (arith, count_verdicts is)

length-map : {A : Type 0} {B : Type 0} (f : A → B) (xs : List A) → length (map f xs) ≡ length xs
length-map f [] = refl
length-map f (x ∷ xs) = ap suc (length-map f xs)

-- The summary counts each topology under exactly one verdict, and lists as many degraded
-- topologies as it counts.
pub summarize_hammerhead_coverage-partition :
    (items : List (Text × CoverageFields))
    → (let s = summarize_hammerhead_coverage items in
        (s.complete_topology_count + s.degraded_topology_count + s.unknown_topology_count
          ≡ length items)
        × (length s.degraded_topologies ≡ s.degraded_topology_count))
unfolding summarize_hammerhead_coverage
summarize_hammerhead_coverage-partition items = (
  omega (arith, count_verdicts items, length-filter (item_degraded is_true) items),
  length-map degraded_row (filter (item_degraded is_true) items),
)
