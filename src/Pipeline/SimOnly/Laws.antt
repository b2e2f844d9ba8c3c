-- ===== src/Pipeline/SimOnly/Laws.antt =====
-- The scores of the two simulators against the pairwise comparison.
use hammerhead_bench.Prelude.{
  All-of-contains, Bool, List, Option, [], ap, arith, count, count-filter, count_congr, filter,
  if◌then◌else◌, list_eq, refl, some, sym, ℕ_eq, ◌&&◌, ◌+◌, ◌∙◌, ◌∷◌, ◌≡◌,
}
use hammerhead_bench.Prelude.Order.{pair_order, text_order}
use hammerhead_bench.Prelude.Sets.{contains-sort, count_of_members, sort-Distinct}
use hammerhead_bench.Prelude.Dict.{
  IsDict, contains-filter, contains-keys, contains-union, filter-Distinct, get, keys, union,
  union-Distinct,
}
use hammerhead_bench.Prelude.Items.{inter}
use hammerhead_bench.Fib.{LoopbackPolicy, NodeFib, Protocol_eq, Route}
use hammerhead_bench.Diff.Key.{Index, RouteKey, RouteKey_eq, key_tuple}
use hammerhead_bench.Diff.Engine.{when_both}
use hammerhead_bench.Pipeline.Loopback.{both_size, reconcile, sim_only_index, union_size}
use hammerhead_bench.Pipeline.Loopback.Indexes.{sim_only_index-IsDict}
use hammerhead_bench.Pipeline.Loopback.Strip.{reconcile-IsStripped}
use hammerhead_bench.Pipeline.Loopback.Mirror.{reconcile-IsMirrored}
use hammerhead_bench.Pipeline.Pairwise.{
  Agreed, Pairwise, both_bgp, nh_sets_equal_sim_only, none_agreed, pairwise_agreement, scores,
  share,
}
use hammerhead_bench.Pipeline.Pairwise.Laws.{
  Agreed-ext, counted, counted_none, counts, counts_over, has_both, on_both,
  pairwise_agreement-counts, passes, same_attrs, same_protocol,
}
use hammerhead_bench.Pipeline.Pairwise.Symmetry.{common_members, inter-Distinct}
use hammerhead_bench.Pipeline.SimOnly.{
  SimOnlyScores, compute_sim_only_agreement, coverage, is_set, row_of, score_rows, sim_only_scores,
  tally_row, union_sorted,
}

tally_row-counted :
    (x y : Index) (k : RouteKey) (ks : List RouteKey) (t : Agreed)
    → counted x y ks (tally_row t (row_of k (get k x) (get k y))) ≡ counted x y (k ∷ ks) t
unfolding tally_row row_of when_both is_set count
tally_row-counted x y k ks t = go (get k x) (get k y)
  where
    go :
        (r s : Option Route)
        → counted x y ks (tally_row t (row_of k r s)) ≡ record {
          nh_agree =
              t.nh_agree
              + ((if passes nh_sets_equal_sim_only r s then 1 else 0)
                  + count (on_both nh_sets_equal_sim_only x y) ks);
          proto_agree =
              t.proto_agree
              + ((if passes same_protocol r s then 1 else 0)
                  + count (on_both same_protocol x y) ks);
          bgp_total =
              t.bgp_total
              + ((if passes both_bgp r s then 1 else 0) + count (on_both both_bgp x y) ks);
          bgp_agree =
              t.bgp_agree
              + ((if passes same_attrs r s then 1 else 0) + count (on_both same_attrs x y) ks);
        }
    go r s = Agreed-ext _ _ (ground arith) (ground arith) (ground arith) (ground arith)

score_rows-counted :
    (x y : Index) (ks : List RouteKey) (t : Agreed) → (score_rows x y ks t).0 ≡ counted x y ks t
unfolding score_rows count
score_rows-counted x y [] t =
    Agreed-ext t (counted x y [] t) (ground arith) (ground arith) (ground arith) (ground arith)
score_rows-counted x y (k ∷ ks) t =
    score_rows-counted x y ks (tally_row t (row_of k (get k x) (get k y)))
    ∙ tally_row-counted x y k ks t

module _ (x y : Index) (hx : IsDict x) (hy : IsDict y) where
  -- A count of agreeing cells over the sorted union is a count over the common cells.
  count_union :
      (f : Route → Route → Bool)
      → count (on_both f x y) (union_sorted x y) ≡ count (on_both f x y) (inter (keys x) (keys y))
  unfolding union_sorted
  count_union f =
      let all_cells = union_sorted x y in
      let cells = filter (has_both x y) all_cells in
      sym (
        count-filter (has_both x y) (on_both f x y) all_cells
        ∙ count_congr (λ k. has_both x y k && on_both f x y k) (on_both f x y) all_cells
            (All-of-contains (λ k. (has_both x y k && on_both f x y k) ≡ on_both f x y k) all_cells
              (λ k m. ground arith)))
      ∙ count_of_members (on_both f x y) cells (inter (keys x) (keys y))
          (filter-Distinct (has_both x y) all_cells (
            sort-Distinct key_tuple (union (keys x) (keys y))
              (union-Distinct (keys x) (keys y) hx hy)))
          (inter-Distinct x y hx)
          (λ k. ground (
            arith,
            contains-filter (has_both x y) k all_cells,
            common_members x y k,
            contains-sort key_tuple k (union (keys x) (keys y)),
            contains-union k (keys x) (keys y),
            contains-keys k x,
            contains-keys k y,
          ))

  counts_union : counts_over x y (union_sorted x y) ≡ counts x y
  counts_union =
      Agreed-ext (counts_over x y (union_sorted x y)) (counts x y)
        (count_union nh_sets_equal_sim_only) (count_union same_protocol) (count_union both_bgp)
        (count_union same_attrs)

  score_rows-counts : (score_rows x y (union_sorted x y) none_agreed).0 ≡ counts x y
  score_rows-counts =
      score_rows-counted x y (union_sorted x y) none_agreed
      ∙ counted_none x y (union_sorted x y)
      ∙ counts_union

reconcile-IsDicts :
    (x y : Index)
    → IsDict x
    → IsDict y
    → (policy : LoopbackPolicy) → IsDict (reconcile x y policy).0 × IsDict (reconcile x y policy).1
unfolding reconcile
reconcile-IsDicts x y hx hy LoopbackPolicy.strip =
    let s = reconcile-IsStripped x y hx hy in (s.first_dict, s.second_dict)
reconcile-IsDicts x y hx hy LoopbackPolicy.materialize =
    let m = reconcile-IsMirrored x y hx hy in (m.first_dict, m.second_dict)
reconcile-IsDicts x y hx hy LoopbackPolicy.passthrough = (hx, hy)

-- The scores of the reconciled indexes, and the strict presence of the raw ones.
pub record IsScored (x y : Index) (policy : LoopbackPolicy) (a : SimOnlyScores)
    (p strict : Pairwise) : Type 0 where
  pub reconciled : pairwise_agreement (reconcile x y policy).0 (reconcile x y policy).1 ≡ some p
  pub raw : pairwise_agreement x y ≡ some strict
  pub both : a.both_sides_keys ≡ p.both
  pub all : a.union_keys ≡ p.union
  pub presence : coverage a ≡ p.presence
  pub next_hop : a.next_hop_agreement ≡ p.next_hop
  pub protocol : a.protocol_agreement ≡ p.protocol
  pub bgp_attr : a.bgp_attr_agreement ≡ p.bgp_attr
  pub both_strict : a.both_sides_keys_strict ≡ strict.both
  pub all_strict : a.union_keys_strict ≡ strict.union
  pub presence_strict : a.presence_strict ≡ strict.presence

-- The head-to-head scores are those of the pairwise comparison of the reconciled indexes, which a
-- separate routine computes, and the strict presence is that of the comparison of the raw indexes.
pub compute_sim_only_agreement-IsScored :
    (batfish hammerhead : List NodeFib) (policy : LoopbackPolicy)
    → (p : Pairwise) × (strict : Pairwise) × IsScored
        (sim_only_index batfish policy)
        (sim_only_index hammerhead policy)
        policy
        (compute_sim_only_agreement batfish hammerhead policy).0
        p
        strict
unfolding compute_sim_only_agreement sim_only_scores scores coverage
compute_sim_only_agreement-IsScored batfish hammerhead policy =
    let x = sim_only_index batfish policy in
    let y = sim_only_index hammerhead policy in
    let dicts =
      reconcile-IsDicts x y (sim_only_index-IsDict batfish policy)
        (sim_only_index-IsDict hammerhead policy) policy in
    let u = (reconcile x y policy).0 in
    let v = (reconcile x y policy).1 in
    let same = score_rows-counts u v dicts.0 dicts.1 in
    (
      scores (both_size u v) (union_size u v) (counts u v),
      scores (both_size x y) (union_size x y) (counts x y),
      record {
        reconciled = pairwise_agreement-counts u v;
        raw = pairwise_agreement-counts x y;
        both = refl;
        all = refl;
        presence = refl;
        next_hop = ap (λ (t : Agreed). share t.nh_agree (both_size u v)) same;
        protocol = ap (λ (t : Agreed). share t.proto_agree (both_size u v)) same;
        bgp_attr = ap (λ (t : Agreed). share t.bgp_agree t.bgp_total) same;
        both_strict = refl;
        all_strict = refl;
        presence_strict = refl;
      },
    )
