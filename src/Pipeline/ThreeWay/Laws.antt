-- ===== src/Pipeline/ThreeWay/Laws.antt =====
-- The three-way scores against the head-to-head ones of the same FIBs.
use mathlib.Core.Path.{subst}
use hammerhead_bench.Prelude.{
  Bool-cases, List, arith, inl, inr, length, nat_eq, refl, some, ℕ, ℕ_eq, ◌*◌, ◌≡◌, ◌≤◌,
}
use hammerhead_bench.Prelude.Dict.{IsDict}
use hammerhead_bench.Fib.{LoopbackPolicy}
use hammerhead_bench.Diff.Key.{Index, RouteKey_eq}
use hammerhead_bench.Pipeline.Loopback.{both_size, reconcile, sim_only_index, union_size}
use hammerhead_bench.Pipeline.Loopback.Indexes.{sim_only_index-IsDict}
use hammerhead_bench.Pipeline.Loopback.Strip.{reconcile-IsStripped}
use hammerhead_bench.Pipeline.Loopback.Mirror.{reconcile-IsMirrored}
use hammerhead_bench.Pipeline.Loopback.Presence.{reconcile-presence}
use hammerhead_bench.Pipeline.Pairwise.{Pairwise, pairwise_agreement, scores, share}
use hammerhead_bench.Pipeline.Pairwise.Laws.{counts, pairwise_agreement-counts}
use hammerhead_bench.Pipeline.Pairwise.Bounds.{
  AreScores, both-le-union, pairwise_agreement-AreScores, share-IsRate,
}
use hammerhead_bench.Pipeline.Coverage.{CoverageVerdict, rollup_hammerhead_coverage}
use hammerhead_bench.Pipeline.SimOnly.{
  SimOnlyScores, compute_sim_only_agreement, coverage, sim_only_scores,
}
use hammerhead_bench.Pipeline.Timing.Laws.{IsAtMost}
use hammerhead_bench.Pipeline.ThreeWay.{
  ThreeWayAgreement, Times, Workspace, as_dict, compute_three_way_agreement, three_way,
}

share_mono :
    (a b c d : ℕ) → a ≤ b → a * d ≤ c * b → (b ≡ 0 → d ≡ 0) → IsAtMost (share a b) (share c d)
unfolding share
share_mono a b c d h k e = elim (Bool-cases (nat_eq d 0)) [
  | inl gone ↦ let r = share-IsRate a b h in rw gone (omega (arith, r.bounded))
  | inr some_cells ↦ elim (Bool-cases (nat_eq b 0)) [
    | inl none_before ↦ absurd (ground (arith, e (ground arith)))
    | inr before ↦ ground (arith, k)
  ]
]

module _ (x y : Index) (hx : IsDict x) (hy : IsDict y) where
  -- Without cells there are none to add.
  reconciled_empty :
      (policy : LoopbackPolicy)
      → union_size x y ≡ 0
      → union_size (reconcile x y policy).0 (reconcile x y policy).1 ≡ 0
  reconciled_empty LoopbackPolicy.strip h =
      let s = reconcile-IsStripped x y hx hy in omega (arith, s.all)
  reconciled_empty LoopbackPolicy.materialize h =
      let m = reconcile-IsMirrored x y hx hy in omega (arith, m.all)
  reconciled_empty LoopbackPolicy.passthrough h = unfold reconcile in h

  presence_grows :
      (policy : LoopbackPolicy)
      → IsAtMost (share (both_size x y) (union_size x y)) (
          share
            (both_size (reconcile x y policy).0 (reconcile x y policy).1)
            (union_size (reconcile x y policy).0 (reconcile x y policy).1))
  presence_grows policy =
      share_mono (both_size x y) (union_size x y) _ _ (both-le-union x y)
        (reconcile-presence x y hx hy policy) (reconciled_empty policy)

-- A triad is the comparison of two indexes, and its scores are rates.
abbrev IsTriad : Index → Index → Pairwise → Type 0
IsTriad x y p = (pairwise_agreement x y ≡ some p) × AreScores p

triad : (x y : Index) → IsTriad x y (scores (both_size x y) (union_size x y) (counts x y))
triad x y =
    let (q, found, rates) = pairwise_agreement-AreScores x y in
    let e : q ≡ scores (both_size x y) (union_size x y) (counts x y) =
      cc (pairwise_agreement-counts x y) in
    (pairwise_agreement-counts x y, subst (λ (r : Pairwise). AreScores r) e rates)

pub record IsThreeWay (w : Workspace) (policy : LoopbackPolicy) (given_times : Times)
    (coverages : List CoverageVerdict) (a : ThreeWayAgreement) (s : SimOnlyScores) : Type 0 where
  pub batfish_vs_truth :
      IsTriad (sim_only_index w.batfish policy) (sim_only_index w.vendor policy) a.batfish_vs_truth
  pub hammerhead_vs_truth :
      IsTriad
        (sim_only_index w.hammerhead policy)
        (sim_only_index w.vendor policy)
        a.hammerhead_vs_truth
  pub batfish_vs_hammerhead :
      IsTriad
        (sim_only_index w.batfish policy)
        (sim_only_index w.hammerhead policy)
        a.batfish_vs_hammerhead
  pub timed : a.times ≡ given_times
  pub verdicts : a.coverage ≡ rollup_hammerhead_coverage coverages
  pub both_strict : a.batfish_vs_hammerhead.both ≡ s.both_sides_keys_strict
  pub union_strict : a.batfish_vs_hammerhead.union ≡ s.union_keys_strict
  pub presence_strict : a.batfish_vs_hammerhead.presence ≡ s.presence_strict
  pub presence : IsAtMost (as_dict a).batfish_vs_hammerhead_coverage (coverage s)

-- The three-way scores exist for all FIBs. Each of the three triads is the comparison of the two
-- indexes that it names, with scores between 0 and 1, and the times are those given, and the coverage verdict is the
-- roll-up of the trials. The triad of Batfish and Hammerhead has the strict counts and the strict presence of
-- the head-to-head scores of the same FIBs, since these FIBs are not reconciled here, so the
-- presence that `as_dict` reports for it is at most the head-to-head one.
pub compute_three_way_agreement-IsThreeWay :
    (w : Workspace) (policy : LoopbackPolicy) (times : Times) (coverages : List CoverageVerdict)
    → (a : ThreeWayAgreement) × (compute_three_way_agreement w policy times coverages ≡ some a)
      × IsThreeWay w policy times coverages a
          (compute_sim_only_agreement w.batfish w.hammerhead policy).0
unfolding compute_three_way_agreement three_way as_dict scores coverage compute_sim_only_agreement
    sim_only_scores
compute_three_way_agreement-IsThreeWay w policy times coverages =
    let t = sim_only_index w.vendor policy in
    let b = sim_only_index w.batfish policy in
    let h = sim_only_index w.hammerhead policy in
    let (e, bt_rates) = triad b t in
    let (f, ht_rates) = triad h t in
    let (g, bh_rates) = triad b h in
    (
      record {
        truth_routes = length t;
        batfish_routes = length b;
        hammerhead_routes = length h;
        times = times;
        batfish_vs_truth = scores (both_size b t) (union_size b t) (counts b t);
        hammerhead_vs_truth = scores (both_size h t) (union_size h t) (counts h t);
        batfish_vs_hammerhead = scores (both_size b h) (union_size b h) (counts b h);
        coverage = rollup_hammerhead_coverage coverages;
      },
      rw (e, f, g) refl,
      record {
        batfish_vs_truth = (e, bt_rates);
        hammerhead_vs_truth = (f, ht_rates);
        batfish_vs_hammerhead = (g, bh_rates);
        timed = refl;
        verdicts = refl;
        both_strict = refl;
        union_strict = refl;
        presence_strict = refl;
        presence =
            presence_grows b h (sim_only_index-IsDict w.batfish policy)
              (sim_only_index-IsDict w.hammerhead policy) policy;
      },
    )
