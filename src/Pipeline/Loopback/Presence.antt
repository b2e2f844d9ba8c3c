-- ===== src/Pipeline/Loopback/Presence.antt =====
-- The presence rate before and after reconciliation, and reconciling twice.
use native.Mathlib.Nat.{mul-le-mul, le_refl}
use hammerhead_bench.Prelude.{
  All-imp, arith, count, count_none, false, list_eq, some, ℕ_eq, ◌*◌, ◌≡◌, ◌≤◌,
}
use hammerhead_bench.Prelude.Dict.{IsDict, get, get-items}
use hammerhead_bench.Fib.{LoopbackPolicy, Protocol_eq, Route}
use hammerhead_bench.Diff.Key.{Index, RouteKey, RouteKey_eq}
use hammerhead_bench.Pipeline.Loopback.{both_size, lonely_item, reconcile, union_size}
use hammerhead_bench.Pipeline.Loopback.Strip.{is_lonely, reconcile-IsStripped}
use hammerhead_bench.Pipeline.Loopback.Mirror.{reconcile-IsMirrored}

no_items :
    (a b : Index)
    → IsDict a
    → ((k : RouteKey) → is_lonely k a b ≡ false)
    → count (lonely_item b) a ≡ 0
no_items a b h none_lonely = count_none (lonely_item b) a (
    All-imp (λ (i : RouteKey × Route). get i.0 a ≡ some i.1) (λ i. lonely_item b i ≡ false) a
      (λ i e. ground (arith, none_lonely i.0)) (get-items a h))

module _ (x y : Index) (hx : IsDict x) (hy : IsDict y) where
  -- For two indexes that hold each cell once, reconciliation never lowers the presence rate |both| / |union|, whatever the policy.
  pub reconcile-presence :
      (policy : LoopbackPolicy)
      → both_size x y * union_size (reconcile x y policy).0 (reconcile x y policy).1
        ≤ both_size (reconcile x y policy).0 (reconcile x y policy).1 * union_size x y
  reconcile-presence LoopbackPolicy.strip =
      let s = reconcile-IsStripped x y hx hy in
      mul-le-mul (omega (arith, s.both)) (omega (arith, s.all))
  reconcile-presence LoopbackPolicy.materialize =
      let m = reconcile-IsMirrored x y hx hy in
      mul-le-mul (omega (arith, m.both)) (omega (arith, m.all))
  reconcile-presence LoopbackPolicy.passthrough = unfold reconcile in le_refl _

  not_lonely_x :
      (k : RouteKey)
      → is_lonely k (reconcile x y LoopbackPolicy.strip).0 (reconcile x y LoopbackPolicy.strip).1
        ≡ false
  not_lonely_x k = let s = reconcile-IsStripped x y hx hy in ground (arith, s.first k, s.second k)

  not_lonely_y :
      (k : RouteKey)
      → is_lonely k (reconcile x y LoopbackPolicy.strip).1 (reconcile x y LoopbackPolicy.strip).0
        ≡ false
  not_lonely_y k = let s = reconcile-IsStripped x y hx hy in ground (arith, s.first k, s.second k)

  -- For two indexes that hold each cell once, stripping what is already stripped changes no cell and counts nothing.
  pub reconcile-strip_idem :
      (let once = reconcile x y LoopbackPolicy.strip in
        let twice = reconcile once.0 once.1 LoopbackPolicy.strip in
        ((k : RouteKey) → get k twice.0 ≡ get k once.0)
        × ((k : RouteKey) → get k twice.1 ≡ get k once.1)
        × (twice.2 ≡ 0))
  reconcile-strip_idem =
      let once = reconcile x y LoopbackPolicy.strip in
      let s = reconcile-IsStripped x y hx hy in
      let t = reconcile-IsStripped once.0 once.1 s.first_dict s.second_dict in
      (
        λ k. ground (arith, t.first k, not_lonely_x k),
        λ k. ground (arith, t.second k, not_lonely_y k),
        omega (
          arith,
          t.dropped,
          no_items once.0 once.1 s.first_dict not_lonely_x,
          no_items once.1 once.0 s.second_dict not_lonely_y,
        ),
      )
