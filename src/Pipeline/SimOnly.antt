-- ===== src/Pipeline/SimOnly.antt =====
-- harness/pipeline.py: the routing part of `_compute_sim_only_agreement`. The timings, the memory
-- readings and the files it writes are not here.
pub mod Laws
use hammerhead_bench.Prelude.{
  Bool, List, Option, Text, [], false, if◌then◌else◌, is_some, length, list_eq, none, option_eq,
  some, ℕ, ℕ_eq, ℤ_eq, ◌==◌, ◌∷◌,
}
use hammerhead_bench.Prelude.Order.{pair_order, text_order}
use hammerhead_bench.Prelude.Sort.{sort}
use hammerhead_bench.Prelude.Dict.{get, keys, union}
use hammerhead_bench.Prelude.Ratio.{Ratio}
use hammerhead_bench.Fib.{LoopbackPolicy, NodeFib, Protocol, Protocol_eq, Route}
use hammerhead_bench.Diff.Key.{Index, RouteKey, RouteKey_eq, key_tuple}
use hammerhead_bench.Diff.Engine.{protocol_of, when_both}
use hammerhead_bench.Pipeline.Loopback.{both_size, reconcile, sim_only_index, union_size}
use hammerhead_bench.Pipeline.Pairwise.{
  Agreed, add_if, bgp_attrs_equal, both_bgp, nh_sets_equal_sim_only, none_agreed, share,
}

-- A row of `records.json`. The agreement bits of a row that one side lacks are absent.
pub record Row : Type 0 where
  pub node : Text
  pub vrf : Text
  pub prefix : Text
  pub in_batfish : Bool
  pub in_hammerhead : Bool
  pub batfish_protocol : Option Protocol
  pub hammerhead_protocol : Option Protocol
  pub next_hop_agree : Option Bool
  pub protocol_agree : Option Bool
  pub bgp_attrs_agree : Option Bool

unfoldable pub row_of : RouteKey → Option Route → Option Route → Row
unfolding protocol_of when_both nh_sets_equal_sim_only both_bgp bgp_attrs_equal
row_of key b h = record {
  node = key.node;
  vrf = key.vrf;
  prefix = key.prefix;
  in_batfish = is_some b;
  in_hammerhead = is_some h;
  batfish_protocol = protocol_of b;
  hammerhead_protocol = protocol_of h;
  next_hop_agree = when_both b h (λ r s. some (nh_sets_equal_sim_only r s));
  protocol_agree = when_both b h (λ r s. some (r.protocol == s.protocol));
  bgp_attrs_agree =
      when_both b h (λ r s. if both_bgp r s then some (bgp_attrs_equal r s) else none);
}

-- A bit that is set and true.
unfoldable pub is_set : Option Bool → Bool
is_set none = false
is_set (some b) = b

unfoldable pub tally_row : Agreed → Row → Agreed
unfolding is_set
tally_row t row = record {
  nh_agree = add_if (is_set row.next_hop_agree) t.nh_agree;
  proto_agree = add_if (is_set row.protocol_agree) t.proto_agree;
  bgp_total = add_if (is_some row.bgp_attrs_agree) t.bgp_total;
  bgp_agree = add_if (is_set row.bgp_attrs_agree) t.bgp_agree;
}

-- The loop over the sorted cells: the counters and the rows.
unfoldable pub score_rows : Index → Index → List RouteKey → Agreed → Agreed × List Row
unfolding row_of tally_row
score_rows batfish_ix hammer_ix [] t = (t, [])
score_rows batfish_ix hammer_ix (key ∷ ks) t =
    let row = row_of key (get key batfish_ix) (get key hammer_ix) in
    let (t', rows) = score_rows batfish_ix hammer_ix ks (tally_row t row) in (t', row ∷ rows)

-- The routing fields of `SimOnlyAgreement`.
pub record SimOnlyScores : Type 0 where
  pub batfish_routes : ℕ
  pub hammerhead_routes : ℕ
  pub union_keys : ℕ
  pub both_sides_keys : ℕ
  pub next_hop_agreement : Ratio
  pub protocol_agreement : Ratio
  pub bgp_attr_agreement : Ratio
  pub loopback_reconciled_count : ℕ
  pub presence_strict : Ratio
  pub union_keys_strict : ℕ
  pub both_sides_keys_strict : ℕ

-- `sorted(union_keys, key=lambda k: (k.node, k.vrf, k.prefix))`
unfoldable pub union_sorted : Index → Index → List RouteKey
union_sorted x y = sort key_tuple (union (keys x) (keys y))

-- The routing fields of the result, from the raw and the reconciled indexes and the counters.
unfoldable pub sim_only_scores : Index × Index → Index × Index × ℕ → Agreed → SimOnlyScores
unfolding share both_size union_size
sim_only_scores (batfish_ix_raw, hammer_ix_raw) (batfish_ix, hammer_ix, reconciled_pairs) t =
    record {
      batfish_routes = length batfish_ix;
      hammerhead_routes = length hammer_ix;
      union_keys = union_size batfish_ix hammer_ix;
      both_sides_keys = both_size batfish_ix hammer_ix;
      next_hop_agreement = share t.nh_agree (both_size batfish_ix hammer_ix);
      protocol_agreement = share t.proto_agree (both_size batfish_ix hammer_ix);
      bgp_attr_agreement = share t.bgp_agree t.bgp_total;
      loopback_reconciled_count = reconciled_pairs;
      presence_strict =
          share (both_size batfish_ix_raw hammer_ix_raw) (union_size batfish_ix_raw hammer_ix_raw);
      union_keys_strict = union_size batfish_ix_raw hammer_ix_raw;
      both_sides_keys_strict = both_size batfish_ix_raw hammer_ix_raw;
    }

unfoldable pub compute_sim_only_agreement :
    List NodeFib → List NodeFib → LoopbackPolicy → SimOnlyScores × List Row
unfolding score_rows union_sorted sim_only_scores
compute_sim_only_agreement batfish hammerhead loopback_policy =
    let batfish_ix_raw = sim_only_index batfish loopback_policy in
    let hammer_ix_raw = sim_only_index hammerhead loopback_policy in
    let reconciled = reconcile batfish_ix_raw hammer_ix_raw loopback_policy in
    let cells = union_sorted reconciled.0 reconciled.1 in
    let (t, records) = score_rows reconciled.0 reconciled.1 cells none_agreed in
    (sim_only_scores (batfish_ix_raw, hammer_ix_raw) reconciled t, records)

-- `SimOnlyAgreement.coverage`
unfoldable pub coverage : SimOnlyScores → Ratio
unfolding share
coverage a = share a.both_sides_keys a.union_keys
