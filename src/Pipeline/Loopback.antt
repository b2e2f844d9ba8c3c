-- ===== src/Pipeline/Loopback.antt =====
-- harness/pipeline.py: the /32 loopback routes that only one simulator has.
pub mod Indexes
pub mod Sizes
pub mod Strip
pub mod Mirror
pub mod Presence
use hammerhead_bench.Prelude.{
  Bool, List, [], any, codes, contains, ends_with, false, filter, if◌then◌else◌, length, list_eq,
  not, some, true, ℕ, ℕ_eq, ◌&&◌, ◌++◌, ◌+◌, ◌==◌, ◌||◌, ◌∷◌,
}
use hammerhead_bench.Prelude.Dict.{dedup, has_key, keys, union}
use hammerhead_bench.Prelude.Items.{inter, put_all}
use hammerhead_bench.Fib.{
  LoopbackPolicy, NodeFib, Protocol, Protocol_eq, Route, connected, isis, local, ospf,
}
use hammerhead_bench.Fib.Canon.{canonicalize_node_fib, loopback_interface}
use hammerhead_bench.Diff.Key.{Index, RouteKey, RouteKey_eq, index_fib}

-- `_sim_only_index`
sim_only_from : LoopbackPolicy → Index → List NodeFib → Index
sim_only_from policy out [] = out
sim_only_from policy out (raw ∷ fibs) =
    let fib = canonicalize_node_fib raw false (some policy) in
    sim_only_from policy (index_fib fib out fib.routes) fibs

unfoldable pub sim_only_index : List NodeFib → LoopbackPolicy → Index
unfolding sim_only_from
sim_only_index fibs policy = sim_only_from policy [] fibs

-- `_LOOPBACK_HOST_PROTOCOLS`
unfoldable pub loopback_host_protocols : List Protocol
loopback_host_protocols = connected ∷ local ∷ isis ∷ ospf ∷ []

unfoldable pub looks_like_loopback_host : Route → Bool
unfolding loopback_host_protocols
looks_like_loopback_host route =
    if not (ends_with route.prefix (codes "/32"))
    then false
    else if not (contains route.protocol loopback_host_protocols)
    then false
    else if route.protocol == connected || route.protocol == local
    then any loopback_interface route.next_hops
    else true

-- The items of one index that the other lacks and that look like loopback hosts.
abbrev pub lonely_item : Index → RouteKey × Route → Bool
lonely_item other (k, r) = not (has_key k other) && looks_like_loopback_host r

unfoldable pub lonely : Index → Index → Index
lonely ix other = filter (lonely_item other) ix

abbrev pub survives : List RouteKey → RouteKey × Route → Bool
survives to_strip (k, r) = not (contains k to_strip)

-- `_reconcile_loopback_host_routes`. The last `raise` is for policies that the type excludes.
unfoldable pub reconcile : Index → Index → LoopbackPolicy → Index × Index × ℕ
unfolding lonely
reconcile bf_ix hh_ix LoopbackPolicy.passthrough = (bf_ix, hh_ix, 0)
reconcile bf_ix hh_ix LoopbackPolicy.strip =
    let to_strip = dedup (keys (lonely bf_ix hh_ix) ++ keys (lonely hh_ix bf_ix)) in
    (filter (survives to_strip) bf_ix, filter (survives to_strip) hh_ix, length to_strip)
reconcile bf_ix hh_ix LoopbackPolicy.materialize =
    let to_mirror_on_hh = lonely bf_ix hh_ix in
    let to_mirror_on_bf = lonely hh_ix bf_ix in
    (
      put_all to_mirror_on_bf bf_ix,
      put_all to_mirror_on_hh hh_ix,
      length to_mirror_on_hh + length to_mirror_on_bf,
    )

-- `len(set(x) & set(y))` and `len(set(x) | set(y))`
unfoldable pub both_size : Index → Index → ℕ
both_size x y = length (inter (keys x) (keys y))

unfoldable pub union_size : Index → Index → ℕ
union_size x y = length (union (keys x) (keys y))
