-- ===== src/Diff/Key.antt =====
-- harness/diff/engine.py: the key of a cell, and the index of the routes by it.
pub mod Index
use hammerhead_bench.Prelude.{
  ==_iff, Bool, Eq, List, Text, [], ap, false, list_eq, pair_eq, some, true, ℕ_eq, ◌==◌, ◌↔◌, ◌∷◌,
  ◌≡◌,
}
use hammerhead_bench.Prelude.Dict.{Dict, put}
use hammerhead_bench.Fib.{LoopbackPolicy, NodeFib, Route}
use hammerhead_bench.Fib.Canon.{canonicalize_node_fib}

-- `_RouteKey`
pub record RouteKey : Type 0 where
  pub node : Text
  pub vrf : Text
  pub prefix : Text

-- `lambda k: (k.node, k.vrf, k.prefix)`
abbrev pub key_tuple : RouteKey → Text × (Text × Text)
key_tuple k = (k.node, (k.vrf, k.prefix))

unfoldable pub key_beq : RouteKey → RouteKey → Bool
key_beq j k = key_tuple j == key_tuple k

pub key_beq_iff : (j k : RouteKey) → (key_beq j k ≡ true) ↔ (j ≡ k)
unfolding key_beq
key_beq_iff j k = (
  λ h.
      let p = (==_iff (key_tuple j) (key_tuple k)).0 h in
      λ i. record { node = (p i).0; vrf = (p i).1.0; prefix = (p i).1.1 },
  λ p. (==_iff (key_tuple j) (key_tuple k)).1 (ap key_tuple p),
)

instance abbrev pub RouteKey_eq : Eq RouteKey
unfolding key_beq
RouteKey_eq = record { eqb = key_beq; eqb_iff = key_beq_iff }

abbrev pub Index : Type 0
Index = Dict RouteKey Route

abbrev pub cell : NodeFib → Route → RouteKey
cell fib r = record { node = fib.node; vrf = fib.vrf; prefix = r.prefix }

-- The inner loop of `_index_routes`: the routes of one canonical FIB.
unfoldable pub index_fib : NodeFib → Index → List Route → Index
index_fib fib out [] = out
index_fib fib out (r ∷ rs) = index_fib fib (put (cell fib r) r out) rs

unfoldable pub index_from : LoopbackPolicy → Index → List NodeFib → Index
index_from policy out [] = out
index_from policy out (raw ∷ fibs) =
    let fib = canonicalize_node_fib raw false (some policy) in
    index_from policy (index_fib fib out fib.routes) fibs

unfoldable pub index_routes : List NodeFib → LoopbackPolicy → Index
unfolding index_from
index_routes fibs policy = index_from policy [] fibs
