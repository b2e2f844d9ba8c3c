-- ===== src/Pipeline/Loopback/Indexes.antt =====
-- The index of a simulator in harness/pipeline.py and that of harness/diff/engine.py.
use hammerhead_bench.Prelude.{List, [], false, refl, some, ◌∷◌, ◌≡◌}
use hammerhead_bench.Prelude.Dict.{IsDict}
use hammerhead_bench.Fib.{LoopbackPolicy, NodeFib}
use hammerhead_bench.Fib.Canon.{canonicalize_node_fib}
use hammerhead_bench.Diff.Key.{Index, RouteKey_eq, index_fib, index_from, index_routes}
use hammerhead_bench.Diff.Key.Index.{index_routes-IsDict}
use hammerhead_bench.Pipeline.Loopback.{sim_only_from, sim_only_index}

same_from :
    (policy : LoopbackPolicy) (out : Index) (fibs : List NodeFib)
    → sim_only_from policy out fibs ≡ index_from policy out fibs
unfolding sim_only_from index_from
same_from policy out [] = refl
same_from policy out (raw ∷ fibs) =
    let fib = canonicalize_node_fib raw false (some policy) in
    same_from policy (index_fib fib out fib.routes) fibs

-- The two routines that index a source build the same dictionary.
pub sim_only_index-index_routes :
    (fibs : List NodeFib) (policy : LoopbackPolicy)
    → sim_only_index fibs policy ≡ index_routes fibs policy
unfolding sim_only_index index_routes
sim_only_index-index_routes fibs policy = same_from policy [] fibs

pub sim_only_index-IsDict :
    (fibs : List NodeFib) (policy : LoopbackPolicy) → IsDict (sim_only_index fibs policy)
sim_only_index-IsDict fibs policy =
    rw (sim_only_index-index_routes fibs policy) (index_routes-IsDict fibs policy)
