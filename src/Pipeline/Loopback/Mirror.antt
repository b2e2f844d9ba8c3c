-- ===== src/Pipeline/Loopback/Mirror.antt =====
-- Reconciliation under `materialize`: what is mirrored, and the sizes.
use mathlib.Core.Path.{subst}
use hammerhead_bench.Prelude.{
  All-imp, ap, arith, count, count-append, count-filter, count-split, count_none, false,
  if◌then◌else◌, length, length-append, length-filter, list_eq, not, some, sym, ℕ, ℕ_eq, ◌&&◌, ◌++◌,
  ◌+◌, ◌∙◌, ◌≡◌,
}
use hammerhead_bench.Prelude.Dict.{IsDict, contains-keys, get, get-items}
use hammerhead_bench.Prelude.Items.{IsFresh, append-IsDict, get-append, put_all, put_all_fresh}
use hammerhead_bench.Fib.{LoopbackPolicy, Protocol_eq, Route}
use hammerhead_bench.Diff.Key.{Index, RouteKey, RouteKey_eq}
use hammerhead_bench.Pipeline.Loopback.{both_size, lonely, lonely_item, reconcile, union_size}
use hammerhead_bench.Pipeline.Loopback.Sizes.{
  both_size-count, in_other, not_in_other, union_size-count,
}
use hammerhead_bench.Pipeline.Loopback.Strip.{
  contains-lonely, count_items, get-lonely, is_lonely, lonely-IsDict,
}

module _ (x y : Index) (hx : IsDict x) (hy : IsDict y) where
  full_x : Index
  full_x = put_all (lonely y x) x

  full_y : Index
  full_y = put_all (lonely x y) y

  IsFresh-x : IsFresh (lonely y x) x
  IsFresh-x k m = ground (arith, contains-lonely k y x hy, contains-keys k x)

  IsFresh-y : IsFresh (lonely x y) y
  IsFresh-y k m = ground (arith, contains-lonely k x y hx, contains-keys k y)

  full_x-append : full_x ≡ x ++ lonely y x
  unfolding full_x
  full_x-append = put_all_fresh (lonely y x) x (lonely-IsDict y x hy) IsFresh-x

  full_y-append : full_y ≡ y ++ lonely x y
  unfolding full_y
  full_y-append = put_all_fresh (lonely x y) y (lonely-IsDict x y hx) IsFresh-y

  get-full_x : (k : RouteKey) → get k full_x ≡ (if is_lonely k y x then get k y else get k x)
  get-full_x k = rw full_x-append (ground (arith, get-append k x (lonely y x), get-lonely k y x hy))

  get-full_y : (k : RouteKey) → get k full_y ≡ (if is_lonely k x y then get k x else get k y)
  get-full_y k = rw full_y-append (ground (arith, get-append k y (lonely x y), get-lonely k x y hx))

  both_first : count (in_other full_y) x ≡ count (in_other y) x + count (lonely_item y) x
  both_first = omega (
    arith,
    count-split (in_other y) (in_other full_y) x,
    count_items (λ i. in_other y i && in_other full_y i) (in_other y) x hx
        (λ i e. ground (arith, get-full_y i.0)),
    count_items (λ i. not (in_other y i) && in_other full_y i) (lonely_item y) x hx
        (λ i e. ground (arith, get-full_y i.0)),
  )

  both_rest : count (in_other full_y) (lonely y x) ≡ count (lonely_item x) y
  unfolding lonely
  both_rest =
      count-filter (lonely_item x) (in_other full_y) y
      ∙ count_items (λ i. lonely_item x i && in_other full_y i) (lonely_item x) y hy
          (λ i e. ground (arith, get-full_y i.0))

  all_first : count (not_in_other full_x) y + count (lonely_item x) y ≡ count (not_in_other x) y
  all_first = omega (
    arith,
    count-split (lonely_item x) (not_in_other x) y,
    count_items (λ i. lonely_item x i && not_in_other x i) (lonely_item x) y hy
        (λ i e. ground arith),
    count_items (λ i. not (lonely_item x i) && not_in_other x i) (not_in_other full_x) y hy
        (λ i e. ground (arith, get-full_x i.0)),
  )

  all_rest : count (not_in_other full_x) (lonely x y) ≡ 0
  unfolding lonely
  all_rest =
      count-filter (lonely_item y) (not_in_other full_x) x
      ∙ count_none (λ i. lonely_item y i && not_in_other full_x i) x
          (All-imp (λ (i : RouteKey × Route). get i.0 x ≡ some i.1)
            (λ i. (lonely_item y i && not_in_other full_x i) ≡ false) x
            (λ i e. ground (arith, get-full_x i.0)) (get-items x hx))

  mirrored : ℕ
  mirrored = length (lonely x y) + length (lonely y x)

  length-lonely : (a b : Index) → length (lonely a b) ≡ count (lonely_item b) a
  unfolding lonely
  length-lonely a b = length-filter (lonely_item b) a

  both-full : both_size full_x full_y ≡ both_size x y + mirrored
  unfolding mirrored
  both-full = omega (
    arith,
    both_size-count full_x full_y,
    both_size-count x y,
    ap (count (in_other full_y)) full_x-append,
    count-append (in_other full_y) x (lonely y x),
    both_first,
    both_rest,
    length-lonely x y,
    length-lonely y x,
  )

  all-full : union_size full_x full_y ≡ union_size x y
  all-full = omega (
    arith,
    union_size-count full_x full_y,
    union_size-count x y,
    ap (length {A = RouteKey × Route}) full_x-append,
    length-append x (lonely y x),
    ap (count (not_in_other full_x)) full_y-append,
    count-append (not_in_other full_x) y (lonely x y),
    all_first,
    all_rest,
    length-lonely y x,
  )

  -- What the reconciled indexes are, and how their sizes compare.
  pub record IsMirrored (out : Index × Index × ℕ) : Type 0 where
    pub first : (k : RouteKey) → get k out.0 ≡ (if is_lonely k y x then get k y else get k x)
    pub second : (k : RouteKey) → get k out.1 ≡ (if is_lonely k x y then get k x else get k y)
    pub first_dict : IsDict out.0
    pub second_dict : IsDict out.1
    pub both : both_size out.0 out.1 ≡ both_size x y + out.2
    pub all : union_size out.0 out.1 ≡ union_size x y

  -- For two indexes that hold each cell once, under `materialize` a cell that one simulator alone has and that looks like a loopback host is
  -- copied to the other. All other cells stay, and the count returned is the number of new common
  -- cells.
  pub reconcile-IsMirrored : IsMirrored (reconcile x y LoopbackPolicy.materialize)
  unfolding reconcile full_x full_y mirrored
  reconcile-IsMirrored = record {
    first = get-full_x;
    second = get-full_y;
    first_dict =
        subst IsDict (sym full_x-append)
          (append-IsDict x (lonely y x) hx (lonely-IsDict y x hy) IsFresh-x);
    second_dict =
        subst IsDict (sym full_y-append)
          (append-IsDict y (lonely x y) hy (lonely-IsDict x y hx) IsFresh-y);
    both = both-full;
    all = all-full;
  }
