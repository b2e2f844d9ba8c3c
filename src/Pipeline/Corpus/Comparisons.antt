-- ===== src/Pipeline/Corpus/Comparisons.antt =====
-- harness/pipeline.py: the agreements of a topology without a common cell are 1.
use mathlib.Core.Path.{subst}
use hammerhead_bench.Prelude.{
  Bool, List, arith, count, count-le-length, list_eq, some, sym, ℕ, ℕ_eq, ◌≡◌,
}
use hammerhead_bench.Prelude.Dict.{keys}
use hammerhead_bench.Prelude.Items.{inter}
use hammerhead_bench.Prelude.Ratio.{IsRate, Ratio, one}
use hammerhead_bench.Diff.Key.{Index, RouteKey, RouteKey_eq}
use hammerhead_bench.Fib.{LoopbackPolicy, NodeFib}
use hammerhead_bench.Pipeline.Loopback.{both_size, reconcile, sim_only_index, union_size}
use hammerhead_bench.Pipeline.Pairwise.{Pairwise, both_bgp, pairwise_agreement, scores, share}
use hammerhead_bench.Pipeline.Pairwise.Laws.{counts, on_both, pairwise_agreement-counts}
use hammerhead_bench.Pipeline.Pairwise.Bounds.{AreScores, pairwise_agreement-AreScores}
use hammerhead_bench.Pipeline.SimOnly.{SimOnlyScores, compute_sim_only_agreement}
use hammerhead_bench.Pipeline.SimOnly.Laws.{compute_sim_only_agreement-IsScored}

-- A rate that is 1 where nothing could be compared.
abbrev pub IsVacuous : ℕ → Ratio → Type 0
IsVacuous both r = IsRate r × (both ≡ 0 → r ≡ one)

-- The agreements of a topology are such rates.
pub record IsComparison (a : SimOnlyScores) : Type 0 where
  pub next_hop : IsVacuous a.both_sides_keys a.next_hop_agreement
  pub protocol : IsVacuous a.both_sides_keys a.protocol_agreement
  pub bgp_attr : IsVacuous a.both_sides_keys a.bgp_attr_agreement

nothing_counted :
    (x y : Index) (f : RouteKey → Bool) → both_size x y ≡ 0 → count f (inter (keys x) (keys y)) ≡ 0
unfolding both_size
nothing_counted x y f h = omega (arith, count-le-length f (inter (keys x) (keys y)))

share_nothing : (n d : ℕ) → d ≡ 0 → share n d ≡ one
unfolding share
share_nothing n d h = ground arith

abbrev AreVacuous : Pairwise → Type 0
AreVacuous p =
    IsVacuous p.both p.next_hop × IsVacuous p.both p.protocol × IsVacuous p.both p.bgp_attr

scores-AreVacuous :
    (x y : Index)
    → AreScores (scores (both_size x y) (union_size x y) (counts x y))
    → AreVacuous (scores (both_size x y) (union_size x y) (counts x y))
unfolding scores
scores-AreVacuous x y rates = (
  (rates.next_hop, share_nothing (counts x y).nh_agree (both_size x y)),
  (rates.protocol, share_nothing (counts x y).proto_agree (both_size x y)),
  (
    rates.bgp_attr,
    λ h.
        share_nothing (counts x y).bgp_agree (counts x y).bgp_total
          (nothing_counted x y (on_both both_bgp x y) h),
  ),
)

pairwise_agreement-AreVacuous :
    (x y : Index) (p : Pairwise) → pairwise_agreement x y ≡ some p → AreVacuous p
pairwise_agreement-AreVacuous x y p h =
    let (q, found, rates) = pairwise_agreement-AreScores x y in
    let e : q ≡ scores (both_size x y) (union_size x y) (counts x y) =
      cc (pairwise_agreement-counts x y) in
    let f : scores (both_size x y) (union_size x y) (counts x y) ≡ p =
      cc (pairwise_agreement-counts x y) in
    subst (λ (r : Pairwise). AreVacuous r) f
      (scores-AreVacuous x y (subst (λ (r : Pairwise). AreScores r) e rates))

moved : {m n : ℕ} {r t : Ratio} → m ≡ n → r ≡ t → IsVacuous m r → IsVacuous n t
moved {m} {n} {r} {t} e f v =
    subst (λ (k : ℕ). IsVacuous k t) e (subst (λ (q : Ratio). IsVacuous m q) f v)

-- The scores that `_compute_sim_only_agreement` returns are such a comparison.
pub compute_sim_only_agreement-IsComparison :
    (batfish hammerhead : List NodeFib) (policy : LoopbackPolicy)
    → IsComparison (compute_sim_only_agreement batfish hammerhead policy).0
compute_sim_only_agreement-IsComparison batfish hammerhead policy =
    let (p, strict, scored) = compute_sim_only_agreement-IsScored batfish hammerhead policy in
    let x = sim_only_index batfish policy in
    let y = sim_only_index hammerhead policy in
    let (next_hop, protocol, bgp_attr) =
      pairwise_agreement-AreVacuous (reconcile x y policy).0 (reconcile x y policy).1 p
        scored.reconciled in
    record {
      next_hop = moved (sym scored.both) (sym scored.next_hop) next_hop;
      protocol = moved (sym scored.both) (sym scored.protocol) protocol;
      bgp_attr = moved (sym scored.both) (sym scored.bgp_attr) bgp_attr;
    }
