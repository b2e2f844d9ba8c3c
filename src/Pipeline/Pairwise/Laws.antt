-- ===== src/Pipeline/Pairwise/Laws.antt =====
-- The scores of two simulators as counts over their cells, with their bounds and symmetry.
use hammerhead_bench.Prelude.{
  All, All-of-contains, Bool, List, Option, Option-cases, [], ap, arith, contains, count, false,
  inl, inr, list_eq, option_eq, some, true, ℕ_eq, ℤ_eq, ◌&&◌, ◌+◌, ◌==◌, ◌∙◌, ◌∷◌, ◌≡◌,
}
use hammerhead_bench.Prelude.Dict.{contains-filter, contains-keys, get, has_key, keys}
use hammerhead_bench.Prelude.Items.{inter}
use hammerhead_bench.Fib.{Protocol_eq, Route}
use hammerhead_bench.Diff.Key.{Index, RouteKey, RouteKey_eq}
use hammerhead_bench.Pipeline.Loopback.{both_size, union_size}
use hammerhead_bench.Pipeline.Pairwise.{
  Agreed, agree_all, agree_step, bgp_attrs_equal, both_bgp, nh_sets_equal_sim_only, none_agreed,
  pairwise_agreement, scores,
}

abbrev pub passes : (Route → Route → Bool) → Option Route → Option Route → Bool
passes f (some r) (some s) = f r s
passes f _ _ = false

-- Both indexes have the cell, and their routes pass the test.
abbrev pub on_both : (Route → Route → Bool) → Index → Index → RouteKey → Bool
on_both f x y k = passes f (get k x) (get k y)

abbrev pub has_both : Index → Index → RouteKey → Bool
has_both x y k = has_key k x && has_key k y

abbrev pub same_protocol : Route → Route → Bool
same_protocol r s = r.protocol == s.protocol

abbrev pub same_attrs : Route → Route → Bool
same_attrs r s = both_bgp r s && bgp_attrs_equal r s

-- The counters after the given cells, as counts.
abbrev pub counted : Index → Index → List RouteKey → Agreed → Agreed
counted x y ks t = record {
  nh_agree = t.nh_agree + count (on_both nh_sets_equal_sim_only x y) ks;
  proto_agree = t.proto_agree + count (on_both same_protocol x y) ks;
  bgp_total = t.bgp_total + count (on_both both_bgp x y) ks;
  bgp_agree = t.bgp_agree + count (on_both same_attrs x y) ks;
}

pub Agreed-ext :
    (s t : Agreed)
    → s.nh_agree ≡ t.nh_agree
    → s.proto_agree ≡ t.proto_agree
    → s.bgp_total ≡ t.bgp_total
    → s.bgp_agree ≡ t.bgp_agree
    → s ≡ t
Agreed-ext s t p q r u i = record {
  nh_agree = p i;
  proto_agree = q i;
  bgp_total = r i;
  bgp_agree = u i;
}

agree_all-cons :
    (x y : Index) (k : RouteKey) (ks : List RouteKey) (t : Agreed) (r s : Route)
    → get k x ≡ some r
    → get k y ≡ some s
    → agree_all x y (k ∷ ks) t ≡ agree_all x y ks (agree_step t r s)
unfolding agree_all
agree_all-cons x y k ks t r s e e' = ground arith

counted_step :
    (x y : Index) (k : RouteKey) (ks : List RouteKey) (t : Agreed) (r s : Route)
    → get k x ≡ some r
    → get k y ≡ some s
    → counted x y ks (agree_step t r s) ≡ counted x y (k ∷ ks) t
unfolding agree_step count
counted_step x y k ks t r s e e' =
    Agreed-ext (counted x y ks (agree_step t r s)) (counted x y (k ∷ ks) t) (ground arith)
      (ground arith) (ground arith) (ground arith)

pub agree_all-counted :
    (x y : Index) (ks : List RouteKey) (t : Agreed)
    → All (λ k. has_both x y k ≡ true) ks
    → agree_all x y ks t ≡ some (counted x y ks t)
unfolding agree_all count
agree_all-counted x y [] t h =
    ap some
      (Agreed-ext t (counted x y [] t) (ground arith) (ground arith) (ground arith) (ground arith))
agree_all-counted x y (k ∷ ks) t h = elim (Option-cases (get k x)) [
  | inl e ↦ absurd (cc (h.0, e))
  | inr (r, e) ↦ elim (Option-cases (get k y)) [
    | inl e' ↦ absurd (ground (arith, h.0))
    | inr (s, e') ↦
        agree_all-cons x y k ks t r s e e'
        ∙ agree_all-counted x y ks (agree_step t r s) h.1
        ∙ ap some (counted_step x y k ks t r s e e')
  ]
]

common_has_both : (x y : Index) → All (λ k. has_both x y k ≡ true) (inter (keys x) (keys y))
unfolding inter
common_has_both x y =
    All-of-contains (λ k. has_both x y k ≡ true) (inter (keys x) (keys y))
      (λ k m. ground (
        arith,
        contains-filter (λ j. contains j (keys y)) k (keys x),
        contains-keys k x,
        contains-keys k y,
      ))

-- The counters, as counts over the given cells.
abbrev pub counts_over : Index → Index → List RouteKey → Agreed
counts_over x y ks = record {
  nh_agree = count (on_both nh_sets_equal_sim_only x y) ks;
  proto_agree = count (on_both same_protocol x y) ks;
  bgp_total = count (on_both both_bgp x y) ks;
  bgp_agree = count (on_both same_attrs x y) ks;
}

abbrev pub counts : Index → Index → Agreed
counts x y = counts_over x y (inter (keys x) (keys y))

pub counted_none :
    (x y : Index) (ks : List RouteKey) → counted x y ks none_agreed ≡ counts_over x y ks
counted_none x y ks =
    Agreed-ext (counted x y ks none_agreed) (counts_over x y ks) (omega arith) (omega arith)
      (omega arith) (omega arith)

pub pairwise_agreement-counts :
    (x y : Index)
    → pairwise_agreement x y ≡ some (scores (both_size x y) (union_size x y) (counts x y))
unfolding pairwise_agreement
pairwise_agreement-counts x y =
    let ks = inter (keys x) (keys y) in
    cc (agree_all-counted x y ks none_agreed (common_has_both x y), counted_none x y ks)
