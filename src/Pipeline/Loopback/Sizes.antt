-- ===== src/Pipeline/Loopback/Sizes.antt =====
-- The sizes of the common and of all cells, as counts of items.
use hammerhead_bench.Prelude.{
  Bool, [], ap, arith, contains, count, filter, length, length-append, length-filter, list_eq, not,
  refl, suc, ℕ_eq, ◌+◌, ◌∙◌, ◌∷◌, ◌≡◌,
}
use hammerhead_bench.Prelude.Dict.{contains-keys, has_key, keys, union}
use hammerhead_bench.Prelude.Items.{inter}
use hammerhead_bench.Fib.{Protocol_eq, Route}
use hammerhead_bench.Diff.Key.{Index, RouteKey, RouteKey_eq}
use hammerhead_bench.Pipeline.Loopback.{both_size, union_size}

-- The item's key is in the other index.
abbrev pub in_other : Index → RouteKey × Route → Bool
in_other other (k, r) = has_key k other

abbrev pub not_in_other : Index → RouteKey × Route → Bool
not_in_other other (k, r) = not (has_key k other)

pub length-keys : (d : Index) → length (keys d) ≡ length d
length-keys [] = refl
length-keys ((k, r) ∷ d) = ap suc (length-keys d)

count-keys_in :
    (other d : Index) → count (λ k. contains k (keys other)) (keys d) ≡ count (in_other other) d
unfolding count
count-keys_in other [] = refl
count-keys_in other ((k, r) ∷ d) = ground (arith, contains-keys k other, count-keys_in other d)

count-keys-not_in :
    (other d : Index)
    → count (λ k. not (contains k (keys other))) (keys d) ≡ count (not_in_other other) d
unfolding count
count-keys-not_in other [] = refl
count-keys-not_in other ((k, r) ∷ d) =
    ground (arith, contains-keys k other, count-keys-not_in other d)

pub both_size-count : (x y : Index) → both_size x y ≡ count (in_other y) x
unfolding both_size inter
both_size-count x y = length-filter (λ k. contains k (keys y)) (keys x) ∙ count-keys_in y x

pub union_size-count : (x y : Index) → union_size x y ≡ length x + count (not_in_other x) y
unfolding union_size union
union_size-count x y = omega (
  arith,
  length-append (keys x) (filter (λ k. not (contains k (keys x))) (keys y)),
  length-filter (λ k. not (contains k (keys x))) (keys y),
  count-keys-not_in x y,
  length-keys x,
)
