-- ===== src/Diff/Metrics/Agreement.antt =====
-- A simulator that agrees with the vendor on every cell scores 1 everywhere.
use mathlib.Core.Path.{subst}
use hammerhead_bench.Prelude.{
  ==_refl, >>=-eq-some, All, All-imp, Bool, List, Option, arith, count, count_congr, is_some,
  list_eq, none, option_eq, pair_eq, refl, some, true, ℕ_eq, ℤ_eq, ◌&&◌, ◌∙◌, ◌≡◌,
}
use hammerhead_bench.Prelude.Dict.{get}
use hammerhead_bench.Prelude.Sets.{set_eq_refl}
use hammerhead_bench.Fib.{LoopbackPolicy, NextHop, Protocol_eq, Route, chosen_policy}
use hammerhead_bench.Diff.Key.{RouteKey, RouteKey_eq, index_routes}
use hammerhead_bench.Diff.Engine.{
  DiffRecord, DiffWorkspace, Presence, bgp_attrs_match, build_record, diff_fibs, find_presence,
  nh_pairs, nh_sets_equal, record_of,
}
use hammerhead_bench.Diff.Engine.Laws.{
  IsFaithful, as_path_equal_iff, diff_fibs-IsDiff_of, record_key,
}
use hammerhead_bench.Diff.Metrics.{
  Simulator, batfish, bgp_attr, both_sides, collect, hammerhead, is_true, nh_attr, proto_attr,
}
use hammerhead_bench.Diff.Metrics.Bits.{collect-CountsFrom, common}

-- The row of the simulator that is compared.
abbrev pub sim_row {ℓ} : {A : Type ℓ} → Simulator → A → A → A
sim_row batfish b h = b
sim_row hammerhead b h = h

-- The record shows no disagreement of the simulator with the vendor.
record IsPerfect (which : Simulator) (r : DiffRecord) : Type 0 where
  same_cells : common which r ≡ is_some r.vendor_protocol
  next_hop : is_true (nh_attr which r) ≡ common which r
  protocol : is_true (proto_attr which r) ≡ common which r
  bgp_attr : is_true (bgp_attr which r) ≡ is_some (bgp_attr which r)

nh_sets_equal_refl : (a : List NextHop) → nh_sets_equal a a ≡ true
unfolding nh_sets_equal
nh_sets_equal_refl a = set_eq_refl (nh_pairs a)

bgp_attrs_match_self : (r : Route) → is_true (bgp_attrs_match r r) ≡ is_some (bgp_attrs_match r r)
unfolding bgp_attrs_match
bgp_attrs_match_self r =
    ground
      (arith, (as_path_equal_iff r.as_path r.as_path).1 refl, ==_refl r.local_pref, ==_refl r.med)

IsPerfect-batfish :
    (k : RouteKey) (v h : Option Route) (p : Presence)
    → find_presence v v h ≡ some p
    → IsPerfect batfish (record_of k v v h p)
unfolding find_presence record_of both_sides
IsPerfect-batfish k (some v) (some h) p e = record {
  same_cells = ground arith;
  next_hop = ground (arith, nh_sets_equal_refl v.next_hops);
  protocol = ground (arith, ==_refl v.protocol);
  bgp_attr = ground (arith, bgp_attrs_match_self v);
}
IsPerfect-batfish k (some v) none p e = record {
  same_cells = ground arith;
  next_hop = ground (arith, nh_sets_equal_refl v.next_hops);
  protocol = ground (arith, ==_refl v.protocol);
  bgp_attr = ground (arith, bgp_attrs_match_self v);
}
IsPerfect-batfish k none (some h) p e = record {
  same_cells = ground arith;
  next_hop = ground arith;
  protocol = ground arith;
  bgp_attr = ground arith;
}
IsPerfect-batfish k none none p e = cc

IsPerfect-hammerhead :
    (k : RouteKey) (v b : Option Route) (p : Presence)
    → find_presence v b v ≡ some p
    → IsPerfect hammerhead (record_of k v b v p)
unfolding find_presence record_of both_sides
IsPerfect-hammerhead k (some v) (some b) p e = record {
  same_cells = ground arith;
  next_hop = ground (arith, nh_sets_equal_refl v.next_hops);
  protocol = ground (arith, ==_refl v.protocol);
  bgp_attr = ground (arith, bgp_attrs_match_self v);
}
IsPerfect-hammerhead k (some v) none p e = record {
  same_cells = ground arith;
  next_hop = ground (arith, nh_sets_equal_refl v.next_hops);
  protocol = ground (arith, ==_refl v.protocol);
  bgp_attr = ground (arith, bgp_attrs_match_self v);
}
IsPerfect-hammerhead k none (some b) p e = record {
  same_cells = ground arith;
  next_hop = ground arith;
  protocol = ground arith;
  bgp_attr = ground arith;
}
IsPerfect-hammerhead k none none p e = cc

IsPerfect-of :
    (which : Simulator) (k : RouteKey) (v b h : Option Route) (r : DiffRecord)
    → sim_row which b h ≡ v
    → build_record k v b h ≡ some r
    → IsPerfect which r
unfolding build_record
IsPerfect-of batfish k v b h r e f =
    let f' : build_record k v v h ≡ some r = subst (λ x. build_record k v x h ≡ some r) e f in
    let (p, found, built) =
      >>=-eq-some (find_presence v v h) (λ p. some (record_of k v v h p)) f' in
    subst (IsPerfect batfish) (ground arith) (IsPerfect-batfish k v h p found)
IsPerfect-of hammerhead k v b h r e f =
    let f' : build_record k v b v ≡ some r = subst (λ x. build_record k v b x ≡ some r) e f in
    let (p, found, built) =
      >>=-eq-some (find_presence v b v) (λ p. some (record_of k v b v p)) f' in
    subst (IsPerfect hammerhead) (ground arith) (IsPerfect-hammerhead k v b p found)

sim_row-get :
    (which : Simulator) (w : DiffWorkspace) (p : LoopbackPolicy) (k : RouteKey)
    → sim_row which (get k (index_routes w.batfish p)) (get k (index_routes w.hammerhead p))
      ≡ get k (index_routes (sim_row which w.batfish w.hammerhead) p)
sim_row-get batfish w p k = refl
sim_row-get hammerhead w p k = refl

-- The counts of a simulator whose index has the vendor's rows.
pub record IsFullScore (which : Simulator) (rs : List DiffRecord) : Type 0 where
  pub presence : (collect rs which).present_in_both ≡ count (λ r. is_some r.vendor_protocol) rs
  pub next_hop : (collect rs which).next_hop_match ≡ (collect rs which).present_in_both
  pub protocol : (collect rs which).protocol_match ≡ (collect rs which).present_in_both
  pub bgp_attr : (collect rs which).bgp_attr_match ≡ (collect rs which).bgp_total

IsFullScore-of :
    (which : Simulator) (rs : List DiffRecord) → All (IsPerfect which) rs → IsFullScore which rs
IsFullScore-of which rs h =
    let c = collect-CountsFrom which rs in
    record {
      presence = omega (
        arith,
        c.present,
        count_congr (common which) (λ r. is_some r.vendor_protocol) rs
            (All-imp (IsPerfect which) (λ r. common which r ≡ is_some r.vendor_protocol) rs
              (λ r p. p.same_cells) h),
      );
      next_hop = omega (
        arith,
        c.present,
        c.next_hop,
        count_congr (λ r. common which r && is_true (nh_attr which r)) (common which) rs
            (All-imp (IsPerfect which)
              (λ r. (common which r && is_true (nh_attr which r)) ≡ common which r) rs
              (λ r p. ground (arith, p.next_hop)) h),
      );
      protocol = omega (
        arith,
        c.present,
        c.protocol,
        count_congr (λ r. common which r && is_true (proto_attr which r)) (common which) rs
            (All-imp (IsPerfect which)
              (λ r. (common which r && is_true (proto_attr which r)) ≡ common which r) rs
              (λ r p. ground (arith, p.protocol)) h),
      );
      bgp_attr = omega (
        arith,
        c.bgp_all,
        c.bgp_same,
        count_congr (λ r. common which r && is_true (bgp_attr which r))
            (λ r. common which r && is_some (bgp_attr which r)) rs
            (All-imp (IsPerfect which)
              (λ r.
                (common which r && is_true (bgp_attr which r))
                ≡ (common which r && is_some (bgp_attr which r)))
              rs (λ r p. ground (arith, p.bgp_attr)) h),
      );
    }

-- If a simulator's index has, for every cell, the row that the vendor's index has, then every cell of
-- the vendor is common and every next-hop, protocol and BGP comparison of the simulator matches.
pub collect-IsFullScore :
    (which : Simulator) (w : DiffWorkspace) (flag : Bool) (policy : Option LoopbackPolicy)
    (rs : List DiffRecord)
    → diff_fibs w flag policy ≡ some rs
    → ((k : RouteKey)
        → get k (index_routes (sim_row which w.batfish w.hammerhead) (chosen_policy flag policy))
          ≡ get k (index_routes w.vendor (chosen_policy flag policy)))
    → IsFullScore which rs
collect-IsFullScore which w flag policy rs e same =
    let p = chosen_policy flag policy in
    let v = index_routes w.vendor p in
    let b = index_routes w.batfish p in
    let h = index_routes w.hammerhead p in
    let d = diff_fibs-IsDiff_of w flag policy rs e in
    IsFullScore-of which rs (
      All-imp (IsFaithful v b h) (IsPerfect which) rs
        (λ r f.
          let k = record_key r in
          IsPerfect-of which k (get k v) (get k b) (get k h) r (sim_row-get which w p k ∙ same k) f)
        d.faithful)
