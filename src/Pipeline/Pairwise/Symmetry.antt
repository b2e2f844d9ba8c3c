-- ===== src/Pipeline/Pairwise/Symmetry.antt =====
-- The scores of two simulators do not depend on their order, and an index agrees with itself.
use hammerhead_bench.Prelude.{
  ==_comm, All-of-contains, Bool, List, Option, arith, contains, count, count_all, count_congr,
  list_eq, none, option_eq, refl, some, sym, true, ℕ_eq, ℤ, ℤ_eq, ◌∙◌, ◌≡◌,
}
use hammerhead_bench.Prelude.Dict.{
  Distinct, IsDict, contains-filter, contains-keys, contains-union, filter-Distinct, get, keys,
  union, union-Distinct,
}
use hammerhead_bench.Prelude.Sets.{count_of_members, set_eq_comm}
use hammerhead_bench.Prelude.Items.{inter}
use hammerhead_bench.Fib.{Protocol_eq, Route}
use hammerhead_bench.Diff.Key.{Index, RouteKey, RouteKey_eq}
use hammerhead_bench.Pipeline.Loopback.{both_size, union_size}
use hammerhead_bench.Pipeline.Pairwise.{
  as_path_equal_sim_only, bgp_attrs_equal, both_bgp, ips, nh_sets_equal_sim_only,
  pairwise_agreement, scores,
}
use hammerhead_bench.Pipeline.Pairwise.Laws.{
  Agreed-ext, counts, has_both, on_both, pairwise_agreement-counts, passes, same_attrs,
  same_protocol,
}

nh_comm : (r s : Route) → nh_sets_equal_sim_only r s ≡ nh_sets_equal_sim_only s r
unfolding nh_sets_equal_sim_only
nh_comm r s = ground (arith, set_eq_comm (ips r.next_hops) (ips s.next_hops))

as_path_comm : (a b : Option (List ℤ)) → as_path_equal_sim_only a b ≡ as_path_equal_sim_only b a
unfolding as_path_equal_sim_only
as_path_comm none none = refl
as_path_comm none (some b) = refl
as_path_comm (some a) none = refl
as_path_comm (some a) (some b) = ==_comm a b

bgp_comm : (r s : Route) → both_bgp r s ≡ both_bgp s r
unfolding both_bgp
bgp_comm r s = ground arith

attrs_comm : (r s : Route) → same_attrs r s ≡ same_attrs s r
unfolding bgp_attrs_equal
attrs_comm r s = ground (
  arith,
  bgp_comm r s,
  as_path_comm r.as_path s.as_path,
  ==_comm r.local_pref s.local_pref,
  ==_comm r.med s.med,
)

pub common_members :
    (x y : Index) (k : RouteKey) → contains k (inter (keys x) (keys y)) ≡ has_both x y k
unfolding inter
common_members x y k = ground (
  arith,
  contains-filter (λ j. contains j (keys y)) k (keys x),
  contains-keys k x,
  contains-keys k y,
)

pub inter-Distinct : (x y : Index) → IsDict x → Distinct (inter (keys x) (keys y))
unfolding inter
inter-Distinct x y h = filter-Distinct (λ j. contains j (keys y)) (keys x) h

module _ (x y : Index) (hx : IsDict x) (hy : IsDict y) where
  -- Counts over the common cells in either order.
  count_common :
      (p : RouteKey → Bool) → count p (inter (keys x) (keys y)) ≡ count p (inter (keys y) (keys x))
  count_common p =
      count_of_members p (inter (keys x) (keys y)) (inter (keys y) (keys x)) (inter-Distinct x y hx)
        (inter-Distinct y x hy) (λ k. ground (arith, common_members x y k, common_members y x k))

  both_size_comm : both_size x y ≡ both_size y x
  unfolding both_size
  both_size_comm =
      sym (count_all (inter (keys x) (keys y)))
      ∙ count_common (λ k. true)
      ∙ count_all (inter (keys y) (keys x))

  union_size_comm : union_size x y ≡ union_size y x
  unfolding union_size
  union_size_comm =
      sym (count_all (union (keys x) (keys y)))
      ∙ count_of_members (λ k. true) (union (keys x) (keys y)) (union (keys y) (keys x))
          (union-Distinct (keys x) (keys y) hx hy) (union-Distinct (keys y) (keys x) hy hx)
          (λ k.
            ground (arith, contains-union k (keys x) (keys y), contains-union k (keys y) (keys x)))
      ∙ count_all (union (keys y) (keys x))

  swapped :
      (f : Route → Route → Bool)
      → ((r s : Route) → f r s ≡ f s r)
      → count (on_both f x y) (inter (keys x) (keys y))
        ≡ count (on_both f y x) (inter (keys y) (keys x))
  swapped f c =
      count_common (on_both f x y)
      ∙ count_congr (on_both f x y) (on_both f y x) (inter (keys y) (keys x)) (
          All-of-contains (λ k. on_both f x y k ≡ on_both f y x k) (inter (keys y) (keys x))
            (λ k m. flip (get k x) (get k y)))
    where
      flip : (r s : Option Route) → passes f r s ≡ passes f s r
      flip none none = refl
      flip none (some b) = refl
      flip (some a) none = refl
      flip (some a) (some b) = c a b

  counts_comm : counts x y ≡ counts y x
  counts_comm =
      Agreed-ext (counts x y) (counts y x) (swapped nh_sets_equal_sim_only nh_comm)
        (swapped same_protocol (λ r s. ==_comm r.protocol s.protocol)) (swapped both_bgp bgp_comm)
        (swapped same_attrs attrs_comm)

  -- For two dictionaries the result of the comparison does not depend on which simulator is named
  -- first.
  pub pairwise_agreement_comm : pairwise_agreement x y ≡ pairwise_agreement y x
  pairwise_agreement_comm =
      pairwise_agreement-counts x y ∙ swap_scores ∙ sym (pairwise_agreement-counts y x)
    where
      swap_scores :
          some (scores (both_size x y) (union_size x y) (counts x y))
          ≡ some (scores (both_size y x) (union_size y x) (counts y x))
      swap_scores = cc (both_size_comm, union_size_comm, counts_comm)
