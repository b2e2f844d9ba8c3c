-- ===== src/Pipeline/Pairwise/Bounds.antt =====
-- The scores of two simulators lie between 0 and 1, and are computed for all indexes.
use hammerhead_bench.Prelude.{
  All-of-contains, List, Option, arith, contains, count, count-le-length, count_mono, filter,
  length, length-append, length-filter, list_eq, not, some, true, ℕ, ℕ_eq, ◌≡◌, ◌≤◌,
}
use hammerhead_bench.Prelude.Dict.{get, keys, union}
use hammerhead_bench.Prelude.Items.{inter}
use hammerhead_bench.Prelude.Ratio.{IsRate}
use hammerhead_bench.Fib.{Protocol_eq, Route}
use hammerhead_bench.Diff.Key.{Index, RouteKey, RouteKey_eq}
use hammerhead_bench.Pipeline.Loopback.{both_size, union_size}
use hammerhead_bench.Pipeline.Pairwise.{
  Pairwise, both_bgp, nh_sets_equal_sim_only, pairwise_agreement, scores, share,
}
use hammerhead_bench.Pipeline.Pairwise.Laws.{
  counts, on_both, pairwise_agreement-counts, passes, same_attrs, same_protocol,
}

pub share-IsRate : (n d : ℕ) → n ≤ d → IsRate (share n d)
unfolding share
share-IsRate n d h = ground (arith, h)

pub both-le-union : (x y : Index) → both_size x y ≤ union_size x y
unfolding both_size union_size inter union
both-le-union x y = omega (
  arith,
  length-filter (λ k. contains k (keys y)) (keys x),
  count-le-length (λ k. contains k (keys y)) (keys x),
  length-append (keys x) (filter (λ k. not (contains k (keys x))) (keys y)),
)

-- All four scores of a result are rates, and no cell is common without being in the union.
pub record AreScores (p : Pairwise) : Type 0 where
  pub sizes : p.both ≤ p.union
  pub presence : IsRate p.presence
  pub next_hop : IsRate p.next_hop
  pub protocol : IsRate p.protocol
  pub bgp_attr : IsRate p.bgp_attr

pub attrs-le-bgp :
    (x y : Index) (ks : List RouteKey)
    → count (on_both same_attrs x y) ks ≤ count (on_both both_bgp x y) ks
attrs-le-bgp x y ks = count_mono (on_both same_attrs x y) (on_both both_bgp x y) ks (
    All-of-contains (λ k. on_both same_attrs x y k ≡ true → on_both both_bgp x y k ≡ true) ks
      (λ k m e. implied (get k x) (get k y) e))
  where
    implied : (r s : Option Route) → passes same_attrs r s ≡ true → passes both_bgp r s ≡ true
    implied r s e = ground arith

-- For any two indexes the scores are computed: no lookup of a common cell fails. Each score is a
-- rate with a positive denominator that lies between 0 and 1.
pub pairwise_agreement-AreScores :
    (x y : Index) → (p : Pairwise) × (pairwise_agreement x y ≡ some p) × AreScores p
unfolding scores both_size
pairwise_agreement-AreScores x y =
    let ks = inter (keys x) (keys y) in
    (
      scores (both_size x y) (union_size x y) (counts x y),
      pairwise_agreement-counts x y,
      record {
        sizes = both-le-union x y;
        presence = share-IsRate (both_size x y) (union_size x y) (both-le-union x y);
        next_hop =
            share-IsRate (count (on_both nh_sets_equal_sim_only x y) ks) (length ks)
              (count-le-length (on_both nh_sets_equal_sim_only x y) ks);
        protocol =
            share-IsRate (count (on_both same_protocol x y) ks) (length ks)
              (count-le-length (on_both same_protocol x y) ks);
        bgp_attr =
            share-IsRate (count (on_both same_attrs x y) ks) (count (on_both both_bgp x y) ks)
              (attrs-le-bgp x y ks);
      },
    )
