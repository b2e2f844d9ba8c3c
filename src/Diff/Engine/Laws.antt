-- ===== src/Diff/Engine/Laws.antt =====
-- What `diff_fibs` returns: it never raises, and has one faithful record for each cell, in order.
use mathlib.Core.Path.{subst}
use hammerhead_bench.Prelude.{
  ==_iff, All, All-of-contains, Bool, List, Option, Text, [], ap, arith, contains, is_some, list_eq,
  map, none, option_eq, pair_eq, refl, some, sym, true, ℕ_eq, ℤ, ℤ_eq, ◌||◌, ◌↔◌, ◌∙◌, ◌∷◌, ◌≡◌,
}
use hammerhead_bench.Prelude.Order.{pair_order, text_order}
use hammerhead_bench.Prelude.Sort.{IsSorted, sort-IsSorted}
use hammerhead_bench.Prelude.Sets.{contains-sort, set_eq_iff, sort-Distinct}
use hammerhead_bench.Prelude.Dict.{
  Distinct, IsDict, contains-keys, contains-union, get, has_key, keys, union, union-Distinct,
}
use hammerhead_bench.Fib.{LoopbackPolicy, NextHop, Protocol_eq, Route, chosen_policy}
use hammerhead_bench.Diff.Key.{Index, RouteKey, RouteKey_eq, index_routes, key_tuple}
use hammerhead_bench.Diff.Key.Index.{index_routes-IsDict}
use hammerhead_bench.Diff.Engine.{
  DiffRecord, DiffWorkspace, all_keys, all_three, as_path_equal, batfish_and_hammerhead,
  batfish_only, build_record, build_records, diff_fibs, hammerhead_only, nh_pairs, nh_sets_equal,
  record_of, vendor_and_batfish, vendor_and_hammerhead, vendor_only,
}

abbrev pub record_key : DiffRecord → RouteKey
record_key r = record { node = r.node; vrf = r.vrf; prefix = r.prefix }

module _ (vendor batfish hammerhead : Index) where
  -- Some source has the cell.
  abbrev pub present : RouteKey → Bool
  present k = has_key k vendor || has_key k batfish || has_key k hammerhead

  abbrev pub IsFaithful : DiffRecord → Type 0
  IsFaithful r =
      let k = record_key r in
      build_record k (get k vendor) (get k batfish) (get k hammerhead) ≡ some r

  -- One record for each cell that some source has, sorted by cell, each built from what the
  -- three sources have there.
  pub record IsDiff (rs : List DiffRecord) : Type 0 where
    pub sorted : IsSorted key_tuple (map record_key rs)
    pub distinct : Distinct (map record_key rs)
    pub complete : (k : RouteKey) → contains k (map record_key rs) ≡ present k
    pub faithful : All IsFaithful rs

  build_record_total :
      (k : RouteKey)
      → present k ≡ true
      → (r : DiffRecord) × (build_record k (get k vendor) (get k batfish) (get k hammerhead)
          ≡ some r)
        × (record_key r ≡ k)
  unfolding build_record
  build_record_total k h = go (get k vendor) (get k batfish) (get k hammerhead) h
    where
      go :
          (v b u : Option Route)
          → (is_some v || is_some b || is_some u) ≡ true
          → (r : DiffRecord) × (build_record k v b u ≡ some r) × (record_key r ≡ k)
      go (some v) (some b) (some u) h =
          (record_of k (some v) (some b) (some u) all_three, refl, refl)
      go (some v) (some b) none h =
          (record_of k (some v) (some b) none vendor_and_batfish, refl, refl)
      go (some v) none (some u) h =
          (record_of k (some v) none (some u) vendor_and_hammerhead, refl, refl)
      go (some v) none none h = (record_of k (some v) none none vendor_only, refl, refl)
      go none (some b) (some u) h =
          (record_of k none (some b) (some u) batfish_and_hammerhead, refl, refl)
      go none (some b) none h = (record_of k none (some b) none batfish_only, refl, refl)
      go none none (some u) h = (record_of k none none (some u) hammerhead_only, refl, refl)
      go none none none h = cc

  build_records_total :
      (ks : List RouteKey)
      → All (λ k. present k ≡ true) ks
      → (rs : List DiffRecord) × (build_records vendor batfish hammerhead ks ≡ some rs)
        × (map record_key rs ≡ ks)
        × All IsFaithful rs
  unfolding build_records
  build_records_total [] h = ([], refl, refl, tt)
  build_records_total (k ∷ ks) h =
      let (r, built, at) = build_record_total k h.0 in
      let (rs, rest, ats, faithful) = build_records_total ks h.1 in
      (
        r ∷ rs,
        rw (built, rest),
        (λ i. at i ∷ ats i),
        (
          subst (λ j. build_record j (get j vendor) (get j batfish) (get j hammerhead) ≡ some r)
              (sym at) built,
          faithful,
        ),
      )

  contains-all_keys : (k : RouteKey) → contains k (all_keys vendor batfish hammerhead) ≡ present k
  unfolding all_keys
  contains-all_keys k = ground (
    arith,
    contains-sort key_tuple k (union (union (keys vendor) (keys batfish)) (keys hammerhead)),
    contains-union k (union (keys vendor) (keys batfish)) (keys hammerhead),
    contains-union k (keys vendor) (keys batfish),
    contains-keys k vendor,
    contains-keys k batfish,
    contains-keys k hammerhead,
  )

  all_keys_present : All (λ k. present k ≡ true) (all_keys vendor batfish hammerhead)
  all_keys_present =
      All-of-contains (λ k. present k ≡ true) (all_keys vendor batfish hammerhead)
        (λ k m. sym (contains-all_keys k) ∙ m)

  all_keys-Distinct :
      IsDict vendor
      → IsDict batfish
      → IsDict hammerhead
      → Distinct (all_keys vendor batfish hammerhead)
  unfolding all_keys
  all_keys-Distinct dv db dh =
      sort-Distinct key_tuple (union (union (keys vendor) (keys batfish)) (keys hammerhead)) (
        union-Distinct (union (keys vendor) (keys batfish)) (keys hammerhead)
          (union-Distinct (keys vendor) (keys batfish) dv db) dh)

  all_keys-IsSorted : IsSorted key_tuple (all_keys vendor batfish hammerhead)
  unfolding all_keys
  all_keys-IsSorted =
      sort-IsSorted key_tuple (union (union (keys vendor) (keys batfish)) (keys hammerhead))

  pub build_records-IsDiff :
      IsDict vendor
      → IsDict batfish
      → IsDict hammerhead
      → (rs : List DiffRecord) × (build_records vendor batfish hammerhead
            (all_keys vendor batfish hammerhead)
          ≡ some rs)
        × IsDiff rs
  build_records-IsDiff dv db dh =
      let ks = all_keys vendor batfish hammerhead in
      let (rs, built, at, faithful) = build_records_total ks all_keys_present in
      (
        rs,
        built,
        record {
          sorted = subst (IsSorted key_tuple) (sym at) all_keys-IsSorted;
          distinct = subst Distinct (sym at) (all_keys-Distinct dv db dh);
          complete = λ k. ap (contains k) at ∙ contains-all_keys k;
          faithful = faithful;
        },
      )

-- `diff_fibs` never raises. Its records are sorted by cell, one for each cell that some source has
-- after canonicalization, and each is built from the rows that the three sources have there.
pub diff_fibs-IsDiff :
    (w : DiffWorkspace) (flag : Bool) (policy : Option LoopbackPolicy)
    → (rs : List DiffRecord) × (diff_fibs w flag policy ≡ some rs)
      × IsDiff
          (index_routes w.vendor (chosen_policy flag policy))
          (index_routes w.batfish (chosen_policy flag policy))
          (index_routes w.hammerhead (chosen_policy flag policy))
          rs
unfolding diff_fibs
diff_fibs-IsDiff w flag policy =
    let p = chosen_policy flag policy in
    build_records-IsDiff (index_routes w.vendor p) (index_routes w.batfish p)
      (index_routes w.hammerhead p) (index_routes-IsDict w.vendor p)
      (index_routes-IsDict w.batfish p) (index_routes-IsDict w.hammerhead p)

pub diff_fibs-IsDiff_of :
    (w : DiffWorkspace) (flag : Bool) (policy : Option LoopbackPolicy) (rs : List DiffRecord)
    → diff_fibs w flag policy ≡ some rs
    → IsDiff
        (index_routes w.vendor (chosen_policy flag policy))
        (index_routes w.batfish (chosen_policy flag policy))
        (index_routes w.hammerhead (chosen_policy flag policy))
        rs
diff_fibs-IsDiff_of w flag policy rs e =
    let p = chosen_policy flag policy in
    let (rs', found, d) = diff_fibs-IsDiff w flag policy in
    subst
      (IsDiff (index_routes w.vendor p) (index_routes w.batfish p) (index_routes w.hammerhead p))
      (cc (found, e)) d

-- The next-hop test is set equality of the (ip, interface) pairs: order and repetition do not count.
pub nh_sets_equal_iff :
    (a b : List NextHop)
    → (nh_sets_equal a b ≡ true)
      ↔ ((p : Option Text × Option Text) → contains p (nh_pairs a) ≡ contains p (nh_pairs b))
unfolding nh_sets_equal
nh_sets_equal_iff a b = set_eq_iff (nh_pairs a) (nh_pairs b)

pub as_path_equal_iff : (a b : Option (List ℤ)) → (as_path_equal a b ≡ true) ↔ (a ≡ b)
unfolding as_path_equal
as_path_equal_iff none none = (λ _. refl, λ _. refl)
as_path_equal_iff none (some b) = ground arith
as_path_equal_iff (some a) none = ground arith
as_path_equal_iff (some a) (some b) = ground (arith, ==_iff a b)
