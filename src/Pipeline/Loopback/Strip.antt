-- ===== src/Pipeline/Loopback/Strip.antt =====
-- Reconciliation under `strip`: what is dropped, what stays, and the sizes.
use hammerhead_bench.Prelude.{
  All-imp, Bool, List, ap, arith, contains, count, count-filter, count-split, count_all,
  count_congr, false, filter, if◌then◌else◌, length, length-append, length-filter, list_eq, none,
  not, some, sym, true, ℕ, ℕ_eq, ◌&&◌, ◌++◌, ◌+◌, ◌||◌, ◌∙◌, ◌≡◌,
}
use hammerhead_bench.Prelude.Dict.{
  IsDict, append-Distinct, contains-append, contains-dedup, contains-keys, dedup, get, get-items,
  keys,
}
use hammerhead_bench.Prelude.Items.{dedup_of_Distinct, filter-IsDict, get-filter}
use hammerhead_bench.Fib.{LoopbackPolicy, Protocol_eq, Route}
use hammerhead_bench.Diff.Key.{Index, RouteKey, RouteKey_eq}
use hammerhead_bench.Pipeline.Loopback.{
  both_size, lonely, lonely_item, reconcile, survives, union_size,
}
use hammerhead_bench.Pipeline.Loopback.Sizes.{
  both_size-count, in_other, length-keys, not_in_other, union_size-count,
}

-- The cell is a loopback host of `ix` that `other` does not have.
abbrev pub is_lonely : RouteKey → Index → Index → Bool
is_lonely k ix other = elim (get k ix) [ none ↦ false | some r ↦ lonely_item other (k, r) ]

pub contains-lonely :
    (k : RouteKey) (x y : Index) → IsDict x → contains k (keys (lonely x y)) ≡ is_lonely k x y
unfolding lonely
contains-lonely k x y h =
    ground (arith, contains-keys k (filter (lonely_item y) x), get-filter (lonely_item y) k x h)

pub lonely-IsDict : (x y : Index) → IsDict x → IsDict (lonely x y)
unfolding lonely
lonely-IsDict x y h = filter-IsDict (lonely_item y) x h

pub get-lonely :
    (k : RouteKey) (x y : Index)
    → IsDict x
    → get k (lonely x y) ≡ (if is_lonely k x y then get k x else none)
unfolding lonely
get-lonely k x y h = ground (arith, get-filter (lonely_item y) k x h)

-- Two tests that agree on the items of an index count the same items.
pub count_items :
    (p q : RouteKey × Route → Bool) (x : Index)
    → IsDict x
    → ((i : RouteKey × Route) → get i.0 x ≡ some i.1 → p i ≡ q i)
    → count p x ≡ count q x
count_items p q x h f =
    count_congr p q x (
      All-imp (λ (i : RouteKey × Route). get i.0 x ≡ some i.1) (λ i. p i ≡ q i) x f (get-items x h))

module _ (x y : Index) (hx : IsDict x) (hy : IsDict y) where
  to_strip : List RouteKey
  to_strip = dedup (keys (lonely x y) ++ keys (lonely y x))

  contains-to_strip : (k : RouteKey) → contains k to_strip ≡ (is_lonely k x y || is_lonely k y x)
  unfolding to_strip
  contains-to_strip k = ground (
    arith,
    contains-dedup k (keys (lonely x y) ++ keys (lonely y x)),
    contains-append k (keys (lonely x y)) (keys (lonely y x)),
    contains-lonely k x y hx,
    contains-lonely k y x hy,
  )

  length-to_strip : length to_strip ≡ count (lonely_item y) x + count (lonely_item x) y
  unfolding to_strip lonely
  length-to_strip = omega (
    arith,
    ap (length {A = RouteKey}) (
        dedup_of_Distinct (keys (lonely x y) ++ keys (lonely y x)) (
          append-Distinct (keys (lonely x y)) (keys (lonely y x)) (lonely-IsDict x y hx)
            (lonely-IsDict y x hy) apart)),
    length-append (keys (lonely x y)) (keys (lonely y x)),
    length-keys (lonely x y),
    length-keys (lonely y x),
    length-filter (lonely_item y) x,
    length-filter (lonely_item x) y,
  )
    where
      apart :
          (k : RouteKey)
          → contains k (keys (lonely x y)) ≡ true
          → contains k (keys (lonely y x)) ≡ false
      apart k m = ground (arith, contains-lonely k x y hx, contains-lonely k y x hy)

  kept_x : Index
  kept_x = filter (survives to_strip) x

  kept_y : Index
  kept_y = filter (survives to_strip) y

  get-kept_x : (k : RouteKey) → get k kept_x ≡ (if is_lonely k x y then none else get k x)
  unfolding kept_x
  get-kept_x k = ground (arith, get-filter (survives to_strip) k x hx, contains-to_strip k)

  get-kept_y : (k : RouteKey) → get k kept_y ≡ (if is_lonely k y x then none else get k y)
  unfolding kept_y
  get-kept_y k = ground (arith, get-filter (survives to_strip) k y hy, contains-to_strip k)

  both-kept : both_size kept_x kept_y ≡ both_size x y
  unfolding kept_x
  both-kept =
      both_size-count (filter (survives to_strip) x) kept_y
      ∙ count-filter (survives to_strip) (in_other kept_y) x
      ∙ count_items (λ i. survives to_strip i && in_other kept_y i) (in_other y) x hx
          (λ i e. ground (arith, contains-to_strip i.0, get-kept_y i.0))
      ∙ sym (both_size-count x y)

  dropped_x : count (λ i. not (survives to_strip i) && true) x ≡ count (lonely_item y) x
  dropped_x =
      count_items (λ i. not (survives to_strip i) && true) (lonely_item y) x hx
        (λ i e. ground (arith, contains-to_strip i.0))

  dropped_y : count (λ i. not (survives to_strip i) && not_in_other x i) y ≡ count (lonely_item x) y
  dropped_y =
      count_items (λ i. not (survives to_strip i) && not_in_other x i) (lonely_item x) y hy
        (λ i e. ground (arith, contains-to_strip i.0))

  new_y :
      count (λ i. survives to_strip i && not_in_other kept_x i) y
      ≡ count (λ i. survives to_strip i && not_in_other x i) y
  new_y =
      count_items (λ i. survives to_strip i && not_in_other kept_x i)
        (λ i. survives to_strip i && not_in_other x i) y hy
        (λ i e. ground (arith, contains-to_strip i.0, get-kept_x i.0))

  survive_x : count (λ i. survives to_strip i && true) x ≡ count (survives to_strip) x
  survive_x =
      count_items (λ i. survives to_strip i && true) (survives to_strip) x hx (λ i e. ground arith)

  length-kept_x : length kept_x + count (lonely_item y) x ≡ length x
  unfolding kept_x
  length-kept_x = omega (
    arith,
    length-filter (survives to_strip) x,
    count-split (survives to_strip) (λ i. true) x,
    count_all x,
    dropped_x,
    survive_x,
  )

  count-kept_y :
      count (not_in_other kept_x) kept_y + count (lonely_item x) y ≡ count (not_in_other x) y
  unfolding kept_y
  count-kept_y = omega (
    arith,
    count-filter (survives to_strip) (not_in_other kept_x) y,
    new_y,
    count-split (survives to_strip) (not_in_other x) y,
    dropped_y,
  )

  union-kept : union_size kept_x kept_y + length to_strip ≡ union_size x y
  union-kept = omega (
    arith,
    union_size-count kept_x kept_y,
    union_size-count x y,
    length-kept_x,
    count-kept_y,
    length-to_strip,
  )

  -- What the reconciled indexes are, and how their sizes compare.
  pub record IsStripped (out : Index × Index × ℕ) : Type 0 where
    pub first : (k : RouteKey) → get k out.0 ≡ (if is_lonely k x y then none else get k x)
    pub second : (k : RouteKey) → get k out.1 ≡ (if is_lonely k y x then none else get k y)
    pub first_dict : IsDict out.0
    pub second_dict : IsDict out.1
    pub both : both_size out.0 out.1 ≡ both_size x y
    pub all : union_size out.0 out.1 + out.2 ≡ union_size x y
    pub dropped : out.2 ≡ count (lonely_item y) x + count (lonely_item x) y

  -- For two indexes that hold each cell once, under `strip` a cell goes exactly if one simulator
  -- alone has it and it looks like a loopback host. The common cells stay, and the count returned is the number of cells that went.
  pub reconcile-IsStripped : IsStripped (reconcile x y LoopbackPolicy.strip)
  unfolding reconcile kept_x kept_y to_strip
  reconcile-IsStripped = record {
    first = get-kept_x;
    second = get-kept_y;
    first_dict = filter-IsDict (survives to_strip) x hx;
    second_dict = filter-IsDict (survives to_strip) y hy;
    both = both-kept;
    all = union-kept;
    dropped = length-to_strip;
  }
