-- ===== src/Pipeline/TruthRun/Laws.antt =====
-- harness/pipeline.py: when `run_topology_frr_only_truth` scores three ways, and what it returns.
use mathlib.Core.Path.{subst}
use hammerhead_bench.Prelude.{
  All, Bool, Bool-cases, List, Option, [], all, ap, arith, codes, false, if◌then◌else◌, inl, inr,
  is_some, leb, ltb, none, not, refl, some, sym, true, ℕ, ℕ_eq, ◌&&◌, ◌*◌, ◌++◌, ◌+◌, ◌||◌, ◌∙◌,
  ◌∷◌, ◌≡◌, ◌≤◌, ◌⊎◌,
}
use hammerhead_bench.Prelude.Ratio.{Ratio}
use hammerhead_bench.Json.Fields.{ok}
use hammerhead_bench.Topologies.{TopologySpec, frr_only_truth_eligible}
use hammerhead_bench.Pipeline.Trials.{Trial, simulate_le_total, simulate_plus_rib, tolerance}
use hammerhead_bench.Pipeline.Timing.Laws.{IsAtMost}
use hammerhead_bench.Pipeline.SimOnlyRun.{
  BenchHooks, SimOnlyResult, World, run_topology_sim_only, try_trials,
}
use hammerhead_bench.Pipeline.SimOnlyRun.Laws.{
  IsSimOnlyRun, is_passed, run_topology_sim_only-IsSimOnlyRun,
}
use hammerhead_bench.Pipeline.SimOnly.{compute_sim_only_agreement}
use hammerhead_bench.Pipeline.ThreeWay.{ThreeWayAgreement, Times, Workspace, as_dict, quotient_of}
use hammerhead_bench.Pipeline.ThreeWay.Laws.{IsThreeWay, compute_three_way_agreement-IsThreeWay}
use hammerhead_bench.Pipeline.TruthRun.{
  FrrOnlyTruthResult, Sidecar, Step, TruthWorld, begun, collects, conclude, coverages_of, fallback,
  run_topology_frr_only_truth, same, scores_of, step_if, steps, sum_fits, times_of, try_steps, wrap,
}

-- What the end of the steps returns, against the result before them.
record Ends (works : Bool) (agreement : Option ThreeWayAgreement) (r s : FrrOnlyTruthResult)
    : Type 0 where
  passes : is_passed s.status ≡ (works || is_passed r.status)
  errors : s.error ≡ (not works || r.error)
  diffed : s.diff_path ≡ (works || r.diff_path)
  agreed : s.three_way_agreement ≡ (if works then agreement else r.three_way_agreement)
  source : s.truth_source ≡ r.truth_source
  sim_only : s.sim_only_agreement ≡ r.sim_only_agreement

-- A step sets paths of sources at most.
record Keeps (s : Step) : Type 0 where
  status : (r : FrrOnlyTruthResult) → (s.change r).status ≡ r.status
  error : (r : FrrOnlyTruthResult) → (s.change r).error ≡ r.error
  diffed : (r : FrrOnlyTruthResult) → (s.change r).diff_path ≡ r.diff_path
  agreed : (r : FrrOnlyTruthResult) → (s.change r).three_way_agreement ≡ r.three_way_agreement
  source : (r : FrrOnlyTruthResult) → (s.change r).truth_source ≡ r.truth_source
  sim_only : (r : FrrOnlyTruthResult) → (s.change r).sim_only_agreement ≡ r.sim_only_agreement

abbrev returns_all : List Step → Bool
returns_all steps = all (λ (s : Step). s.returns) steps

try_steps-Ends :
    (steps : List Step) (agreement : Option ThreeWayAgreement) (r : FrrOnlyTruthResult)
    → All Keeps steps
    → Ends (returns_all steps && is_some agreement) agreement r (try_steps steps agreement r)
unfolding try_steps conclude all
try_steps-Ends [] none r h = record {
  passes = refl;
  errors = refl;
  diffed = refl;
  agreed = refl;
  source = refl;
  sim_only = refl;
}
try_steps-Ends [] (some a) r h = record {
  passes = refl;
  errors = refl;
  diffed = refl;
  agreed = refl;
  source = refl;
  sim_only = refl;
}
try_steps-Ends (s ∷ ss) agreement r h =
    let k = h.0 in
    let e = try_steps-Ends ss agreement (s.change r) h.1 in
    record {
      passes = ground (arith, e.passes, k.status r);
      errors = ground (arith, e.errors, k.error r);
      diffed = ground (arith, e.diffed, k.diffed r);
      agreed = ground (arith, e.agreed, k.agreed r);
      source = ground (arith, e.source, k.source r);
      sim_only = ground (arith, e.sim_only, k.sim_only r);
    }

-- The steps that set the path of a source.
paths_kept :
    (b : Bool)
    → Keeps (record { returns = b; change = same })
      × Keeps (record { returns = b; change = λ r. record r { vendor_truth_path = true } })
      × Keeps (record { returns = b; change = λ r. record r { batfish_path = true } })
      × Keeps (record { returns = b; change = λ r. record r { hammerhead_path = true } })
paths_kept b = (
  record {
    status = λ r. refl;
    error = λ r. refl;
    diffed = λ r. refl;
    agreed = λ r. refl;
    source = λ r. refl;
    sim_only = λ r. refl;
  },
  record {
    status = λ r. refl;
    error = λ r. refl;
    diffed = λ r. refl;
    agreed = λ r. refl;
    source = λ r. refl;
    sim_only = λ r. refl;
  },
  record {
    status = λ r. refl;
    error = λ r. refl;
    diffed = λ r. refl;
    agreed = λ r. refl;
    source = λ r. refl;
    sim_only = λ r. refl;
  },
  record {
    status = λ r. refl;
    error = λ r. refl;
    diffed = λ r. refl;
    agreed = λ r. refl;
    source = λ r. refl;
    sim_only = λ r. refl;
  },
)

step_if-All :
    (P : Step → Type 0) (b : Bool) (s : Step) (ss : List Step)
    → P s
    → All P ss
    → All P (step_if b s ++ ss)
step_if-All P true s ss p h = (p, h)
step_if-All P false s ss p h = h

steps-Keep : (hooks : BenchHooks) (w : TruthWorld) → All Keeps (steps hooks w)
unfolding steps
steps-Keep hooks w = (
  (paths_kept w.renders).0,
  (
    (paths_kept (collects w.collector)).1,
    step_if-All Keeps hooks.has_callable _ _ (paths_kept (is_some w.batfish_wall)).2 (
        step_if-All Keeps hooks.hammerhead _ _ (paths_kept (is_some w.hammerhead_wall)).3
          ((paths_kept _).0, ((paths_kept _).0, ((paths_kept _).0, tt)))),
  ),
)

-- The solving time and that of the tables are within the total time and 100 ms, if all three are
-- there.
abbrev pub parts_fit : Option ℕ → Option ℕ → Option ℕ → Bool
parts_fit (some sim) (some rib) (some total) = leb (sim + rib) (total + tolerance)
parts_fit _ _ _ = true

sum_fits_lem : (s : Sidecar) → sum_fits s ≡ parts_fit s.simulate_s s.rib_total_s s.total_s
unfolding sum_fits simulate_le_total
sum_fits_lem s = ground arith

-- The configs render, the truth is collected, the callables that are set return, and the times of
-- the sidecars fit.
abbrev pub all_return : BenchHooks → TruthWorld → Bool
all_return hooks w =
    w.renders
    && (collects w.collector
        && ((not hooks.has_callable || is_some w.batfish_wall)
            && ((not hooks.hammerhead || is_some w.hammerhead_wall)
                && (simulate_le_total w.batfish_stats.simulate_s w.batfish_stats.total_s
                    && (simulate_le_total w.hammerhead_stats.simulate_s w.hammerhead_stats.total_s
                        && parts_fit w.hammerhead_stats.simulate_s w.hammerhead_stats.rib_total_s
                            w.hammerhead_stats.total_s)))))

returns_all_lem :
    (hooks : BenchHooks) (w : TruthWorld) → returns_all (steps hooks w) ≡ all_return hooks w
unfolding steps all
returns_all_lem hooks w = ground (arith, sum_fits_lem w.hammerhead_stats)

-- Where the second ratio exists, so does the first, and it is at most the second.
abbrev pub IsBelow : Option Ratio → Option Ratio → Type 0
IsBelow fair none = Unit
IsBelow none (some asym) = ⊥
IsBelow (some fair) (some asym) = IsAtMost fair asym

-- The three-way scores of the FIBs that were read, if there are scores.
abbrev pub AreScored : BenchHooks → TruthWorld → Option ThreeWayAgreement → Type 0
AreScored hooks w none = Unit
AreScored hooks w (some a) =
    (fibs : Workspace) × (w.workspace ≡ some fibs)
    × IsThreeWay fibs hooks.loopback_policy (times_of hooks w) (coverages_of hooks w) a
        (compute_sim_only_agreement fibs.batfish fibs.hammerhead hooks.loopback_policy).0
    × IsBelow (as_dict a).fair_ratio (as_dict a).asym_ratio

le_add : (b s r : ℕ) → b * s ≤ b * (s + r)
le_add b s r = omega arith

IsBelow-none : (o : Option Ratio) → IsBelow o none
IsBelow-none none = tt
IsBelow-none (some a) = tt

quotient-IsBelow :
    (b sim rib : Option ℕ) → IsBelow (quotient_of b (simulate_plus_rib sim rib)) (quotient_of b sim)
unfolding quotient_of simulate_plus_rib
quotient-IsBelow none sim rib = tt
quotient-IsBelow (some b) none none = tt
quotient-IsBelow (some b) none (some r) = tt
quotient-IsBelow (some b) (some s) none = elim (Bool-cases (ltb 0 s)) [
  | inl e ↦ rw e (omega arith)
  | inr e ↦ rw e tt
]
quotient-IsBelow (some b) (some s) (some r) = elim (Bool-cases (ltb 0 s)) [
  | inl e ↦ let f : ltb 0 (s + r) ≡ true = ground arith in rw (e, f) (le_add b s r)
  | inr e ↦ rw e (IsBelow-none (quotient_of (some b) (some (s + r))))
]

-- The scores exist whenever the FIBs are read, and belong to them.
scores_of-AreScored :
    (hooks : BenchHooks) (w : TruthWorld) (fibs : Option Workspace) (writes : Bool)
    → w.workspace ≡ fibs
    → (is_some (scores_of hooks w fibs writes) ≡ (is_some fibs && writes))
      × AreScored hooks w (scores_of hooks w fibs writes)
unfolding scores_of as_dict times_of
scores_of-AreScored hooks w none writes h = (refl, tt)
scores_of-AreScored hooks w (some fibs) false h = (refl, tt)
scores_of-AreScored hooks w (some fibs) true h =
    let (a, e, three) =
      compute_three_way_agreement-IsThreeWay fibs hooks.loopback_policy (times_of hooks w)
        (coverages_of hooks w) in
    rw e (refl, (fibs, h, three, below a three.timed))
  where
    below :
        (a : ThreeWayAgreement)
        → a.times ≡ times_of hooks w
        → IsBelow (as_dict a).fair_ratio (as_dict a).asym_ratio
    below a e =
        subst
          (λ (t : Times).
            IsBelow (quotient_of t.batfish_simulate_s t.hammerhead_simulate_plus_rib_s)
              (quotient_of t.batfish_simulate_s t.hammerhead_simulate_s))
          (sym e)
          (quotient-IsBelow w.batfish_stats.simulate_s w.hammerhead_stats.simulate_s
            w.hammerhead_stats.rib_total_s)

paths :
    (hooks : BenchHooks) (w : TruthWorld) (agreement : Option ThreeWayAgreement)
    → (let r = try_steps (steps hooks w) agreement begun in
        (r.vendor_truth_path ≡ (w.renders && collects w.collector))
        × (r.batfish_path
            ≡ (w.renders && collects w.collector && hooks.has_callable && is_some w.batfish_wall)))
unfolding steps try_steps conclude
paths hooks w agreement = (ground arith, ground arith)

-- All works: the steps return, and the FIBs are read and the scores written.
abbrev pub truth_works : BenchHooks → TruthWorld → Bool
truth_works hooks w = all_return hooks w && (is_some w.workspace && w.writes)

pub record IsTruthRun (hooks : BenchHooks) (w : TruthWorld) (r : FrrOnlyTruthResult) : Type 0 where
  pub passes : is_passed r.status ≡ truth_works hooks w
  pub errors : r.error ≡ not (truth_works hooks w)
  pub diffed : r.diff_path ≡ truth_works hooks w
  pub source : r.truth_source ≡ some (codes "containerlab-frr")
  pub agreed : is_some r.three_way_agreement ≡ truth_works hooks w
  pub scored : AreScored hooks w r.three_way_agreement
  pub sim_only : r.sim_only_agreement ≡ none
  pub collected : r.vendor_truth_path ≡ (w.renders && collects w.collector)
  pub asked :
      r.batfish_path
      ≡ (w.renders && collects w.collector && hooks.has_callable && is_some w.batfish_wall)

if-is_some :
    (b : Bool) (o : Option ThreeWayAgreement)
    → is_some (if b && is_some o then o else none) ≡ (b && is_some o)
if-is_some true none = refl
if-is_some true (some a) = refl
if-is_some false o = refl

if-AreScored :
    (hooks : BenchHooks) (w : TruthWorld) (b : Bool) (o : Option ThreeWayAgreement)
    → AreScored hooks w o
    → AreScored hooks w (if b then o else none)
if-AreScored hooks w true o h = h
if-AreScored hooks w false o h = tt

try_steps-IsTruthRun :
    (hooks : BenchHooks) (w : TruthWorld)
    → IsTruthRun hooks w (try_steps (steps hooks w) (scores_of hooks w w.workspace w.writes) begun)
try_steps-IsTruthRun hooks w =
    let scores = scores_of hooks w w.workspace w.writes in
    let (there, scored) = scores_of-AreScored hooks w w.workspace w.writes refl in
    let e = try_steps-Ends (steps hooks w) scores begun (steps-Keep hooks w) in
    let works : (returns_all (steps hooks w) && is_some scores) ≡ truth_works hooks w =
      cc (returns_all_lem hooks w, there) in
    let (vendor, batfish) = paths hooks w scores in
    record {
      passes = ground (arith, e.passes, works);
      errors = ground (arith, e.errors, works);
      diffed = ground (arith, e.diffed, works);
      source = e.source;
      agreed = ap is_some e.agreed ∙ if-is_some (returns_all (steps hooks w)) scores ∙ works;
      scored =
          subst (λ (o : Option ThreeWayAgreement). AreScored hooks w o) (sym e.agreed)
            (if-AreScored hooks w _ scores scored);
      sim_only = e.sim_only;
      collected = vendor;
      asked = batfish;
    }

-- A run with FRR as the only vendor, in its two modes.
abbrev pub IsFrrRun :
    TopologySpec → BenchHooks → TruthWorld → Trial → World → FrrOnlyTruthResult → Type 0
IsFrrRun spec hooks w trial sim r =
    ((frr_only_truth_eligible spec ≡ true) × IsTruthRun hooks w r)
    ⊎ ((frr_only_truth_eligible spec ≡ false)
        × (q : SimOnlyResult) × (r ≡ wrap q)
        × IsSimOnlyRun hooks (fallback spec trial sim) q)

-- A run with FRR as the only vendor always returns a result. If the topology is eligible, the run
-- passes exactly if the configs render, the truth is collected, the callables that are set return,
-- the times of the sidecars fit, and the FIBs can be read and the scores written. Otherwise it
-- records an error and no scores. Its scores are the three-way scores of the FIBs that were read,
-- and their headline ratio is at most that of the solving times, if there is one. The path
-- of the truth is set exactly if it was collected, and that of Batfish if its callable returned as
-- well. If the topology
-- is not eligible, the result is that of the head-to-head run of one trial, without a source of
-- truth.
pub run_topology_frr_only_truth-IsFrrRun :
    (spec : TopologySpec) (hooks : BenchHooks) (w : TruthWorld) (trial : Trial) (sim : World)
    → (r : FrrOnlyTruthResult) × (run_topology_frr_only_truth spec hooks w trial sim ≡ ok r)
      × IsFrrRun spec hooks w trial sim r
unfolding run_topology_frr_only_truth run_topology_sim_only
run_topology_frr_only_truth-IsFrrRun spec hooks w trial sim =
    elim (Bool-cases (frr_only_truth_eligible spec)) [
      | inl eligible ↦ (
        try_steps (steps hooks w) (scores_of hooks w w.workspace w.writes) begun,
        ground arith,
        inl (eligible, try_steps-IsTruthRun hooks w),
      )
      | inr other ↦
          let w' = fallback spec trial sim in
          let q = try_trials hooks w' sim.renders in
          (
            wrap q,
            rw other refl,
            inr (other, q, refl, run_topology_sim_only-IsSimOnlyRun hooks w' q refl),
          )
    ]
