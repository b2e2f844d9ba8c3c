-- ===== src/Diff/Metrics/Bits.antt =====
-- What the comparison bits of a record say, and the counts of `_collect` as numbers of records.
use mathlib.Core.Path.{subst}
use hammerhead_bench.Prelude.{
  >>=-eq-some, All, All-imp, Bool, List, Option, [], arith, count, count_mono, is_some, list_eq,
  option_beq, option_eq, some, true, ℕ_eq, ◌&&◌, ◌+◌, ◌==◌, ◌∷◌, ◌≡◌, ◌≤◌,
}
use hammerhead_bench.Prelude.Order.{text_order}
use hammerhead_bench.Fib.{Protocol_eq, Route, bgp}
use hammerhead_bench.Diff.Key.{RouteKey, RouteKey_eq}
use hammerhead_bench.Diff.Engine.{DiffRecord, Presence, build_record, find_presence, record_of}
use hammerhead_bench.Diff.Metrics.{
  SimRates, Simulator, batfish, bgp_attr, both_sides, collect, collect_from, collect_step, is_true,
  nh_attr, no_rates, proto_attr, sim_proto_attr,
}

-- What the bits of a record say, by the simulator that they are about.
pub record IsApplicable (which : Simulator) (r : DiffRecord) : Type 0 where
  pub by_presence :
      both_sides which r.presence ≡ (is_some r.vendor_protocol && is_some (sim_proto_attr which r))
  pub next_hop_bit : is_some (nh_attr which r) ≡ both_sides which r.presence
  pub protocol_bit : is_some (proto_attr which r) ≡ both_sides which r.presence
  pub protocol_value :
      is_true (proto_attr which r)
      ≡ (both_sides which r.presence && r.vendor_protocol == sim_proto_attr which r)
  pub bgp_bit : is_some (bgp_attr which r) ≡ (
      both_sides which r.presence
      && r.vendor_protocol == some bgp
      && sim_proto_attr which r == some bgp)

IsApplicable-of :
    (which : Simulator) (k : RouteKey) (v b h : Option Route) (p : Presence)
    → find_presence v b h ≡ some p
    → IsApplicable which (record_of k v b h p)
unfolding find_presence record_of both_sides option_beq
IsApplicable-of batfish k (some v) (some b) (some h) p e = record {
  by_presence = ground arith;
  next_hop_bit = ground arith;
  protocol_bit = ground arith;
  protocol_value = ground arith;
  bgp_bit = ground arith;
}
IsApplicable-of which k v b h p e = record {
  by_presence = ground arith;
  next_hop_bit = ground arith;
  protocol_bit = ground arith;
  protocol_value = ground arith;
  bgp_bit = ground arith;
}

IsBuilt : DiffRecord → Type 0
IsBuilt r =
    (k : RouteKey) × (v : Option Route) × (b : Option Route) × (h : Option Route) × (build_record k
        v b h
      ≡ some r)

-- In a record that `_build_record` returns, the presence and the comparison bits say the same: a bit
-- is set exactly where the vendor and that simulator both have the cell.
pub build_record-IsApplicable :
    (which : Simulator) (k : RouteKey) (v b h : Option Route) (r : DiffRecord)
    → build_record k v b h ≡ some r
    → IsApplicable which r
unfolding build_record
build_record-IsApplicable which k v b h r e =
    let (p, found, built) = >>=-eq-some (find_presence v b h) (λ p. some (record_of k v b h p)) e in
    subst (IsApplicable which) (ground arith) (IsApplicable-of which k v b h p found)

-- The counts of `_collect` are numbers of records.
module _ (which : Simulator) where
  abbrev pub common : DiffRecord → Bool
  common r = both_sides which r.presence

  pub record CountsFrom (rates : SimRates) (rs : List DiffRecord) (out : SimRates) : Type 0 where
    pub present : out.present_in_both ≡ rates.present_in_both + count common rs
    pub next_hop :
        out.next_hop_match
        ≡ rates.next_hop_match + count (λ r. common r && is_true (nh_attr which r)) rs
    pub protocol :
        out.protocol_match
        ≡ rates.protocol_match + count (λ r. common r && is_true (proto_attr which r)) rs
    pub bgp_all :
        out.bgp_total ≡ rates.bgp_total + count (λ r. common r && is_some (bgp_attr which r)) rs
    pub bgp_same :
        out.bgp_attr_match
        ≡ rates.bgp_attr_match + count (λ r. common r && is_true (bgp_attr which r)) rs

  collect_from-CountsFrom :
      (rates : SimRates) (rs : List DiffRecord) → CountsFrom rates rs (collect_from which rates rs)
  unfolding collect_from count collect_step
  collect_from-CountsFrom rates [] = record {
    present = omega arith;
    next_hop = omega arith;
    protocol = omega arith;
    bgp_all = omega arith;
    bgp_same = omega arith;
  }
  collect_from-CountsFrom rates (r ∷ rs) =
      let ih = collect_from-CountsFrom (collect_step which rates r) rs in
      record {
        present = ground (arith, ih.present);
        next_hop = ground (arith, ih.next_hop);
        protocol = ground (arith, ih.protocol);
        bgp_all = ground (arith, ih.bgp_all);
        bgp_same = ground (arith, ih.bgp_same);
      }

  pub collect-CountsFrom : (rs : List DiffRecord) → CountsFrom no_rates rs (collect rs which)
  unfolding collect
  collect-CountsFrom rs = collect_from-CountsFrom no_rates rs

  AllApplicable : List DiffRecord → Type 0
  AllApplicable = All (IsApplicable which)

  -- The common cells are among the vendor's.
  pub present-le-vendor :
      (rs : List DiffRecord)
      → All (IsApplicable which) rs
      → (collect rs which).present_in_both ≤ count (λ r. is_some r.vendor_protocol) rs
  present-le-vendor rs h = omega (
    arith,
    (collect-CountsFrom rs).present,
    count_mono common (λ r. is_some r.vendor_protocol) rs
        (All-imp (IsApplicable which) (λ r. common r ≡ true → is_some r.vendor_protocol ≡ true) rs
          (λ r a c. ground (arith, a.by_presence)) h),
  )
