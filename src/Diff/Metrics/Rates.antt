-- ===== src/Diff/Metrics/Rates.antt =====
-- The rates of `aggregate` on the records of `diff_fibs`.
use hammerhead_bench.Prelude.{
  All, All-imp, Bool, List, Option, Text, [], arith, count, is_some, list_eq, option_eq, some, ℕ,
  ℕ_eq, ◌∷◌, ◌≡◌, ◌≤◌,
}
use hammerhead_bench.Prelude.Dict.{Dict, get, get-items}
use hammerhead_bench.Prelude.Order.{text_order}
use hammerhead_bench.Prelude.Sort.{All-sort, sort}
use hammerhead_bench.Prelude.Ratio.{IsRate, Ratio}
use hammerhead_bench.Fib.{LoopbackPolicy, Protocol_eq, chosen_policy}
use hammerhead_bench.Diff.Key.{Index, RouteKey_eq, index_routes}
use hammerhead_bench.Diff.Engine.{DiffRecord, DiffWorkspace, diff_fibs}
use hammerhead_bench.Diff.Engine.Laws.{IsFaithful, diff_fibs-IsDiff_of, record_key}
use hammerhead_bench.Diff.Metrics.{
  SimRates, Simulator, TopologyMetrics, aggregate, batfish, collect, hammerhead, per_protocol_rates,
  rates_of, safe_div, tally,
}
use hammerhead_bench.Diff.Metrics.Laws.{IsConsistent, collect-IsConsistent}
use hammerhead_bench.Diff.Metrics.Bits.{IsApplicable, build_record-IsApplicable, present-le-vendor}

safe_div-IsRate : (num denom : ℕ) → num ≤ denom → IsRate (safe_div num denom)
unfolding safe_div
safe_div-IsRate num denom h = record { defined = ground arith; bounded = ground arith }

rates_of-IsRate :
    (matches totals : Dict Text ℕ)
    → All (λ item. tally item.0 matches ≤ item.1) totals
    → All (λ (item : Text × Ratio). IsRate item.1) (rates_of matches totals)
unfolding rates_of
rates_of-IsRate matches [] h = tt
rates_of-IsRate matches ((proto, n) ∷ totals) h =
    (safe_div-IsRate (tally proto matches) n h.0, rates_of-IsRate matches totals h.1)

per_protocol_rates-IsRate :
    (rates : SimRates)
    → IsConsistent rates
    → All (λ (item : Text × Ratio). IsRate item.1) (per_protocol_rates rates)
unfolding per_protocol_rates tally
per_protocol_rates-IsRate rates h =
    let ok = λ (item : Text × ℕ). tally item.0 rates.per_protocol_match ≤ item.1 in
    rates_of-IsRate rates.per_protocol_match
      (sort (λ (item : Text × ℕ). item.0) rates.per_protocol_total)
      (All-sort (λ (item : Text × ℕ). item.0) ok rates.per_protocol_total
        (All-imp (λ (item : Text × ℕ). get item.0 rates.per_protocol_total ≡ some item.1) ok
          rates.per_protocol_total (λ item e. ground (arith, h.match_within item.0))
          (get-items rates.per_protocol_total h.labels_distinct)))

-- All rates of one topology lie between 0 and 1.
pub record AreRates (m : TopologyMetrics) : Type 0 where
  pub batfish_presence : IsRate m.batfish_presence_match_rate
  pub batfish_next_hop : IsRate m.batfish_next_hop_match_rate
  pub batfish_protocol : IsRate m.batfish_protocol_match_rate
  pub batfish_bgp_attr : IsRate m.batfish_bgp_attr_match_rate
  pub batfish_per_protocol :
      All (λ (item : Text × Ratio). IsRate item.1) m.batfish_per_protocol_next_hop_match_rate
  pub hammerhead_presence : IsRate m.hammerhead_presence_match_rate
  pub hammerhead_next_hop : IsRate m.hammerhead_next_hop_match_rate
  pub hammerhead_protocol : IsRate m.hammerhead_protocol_match_rate
  pub hammerhead_bgp_attr : IsRate m.hammerhead_bgp_attr_match_rate
  pub hammerhead_per_protocol :
      All (λ (item : Text × Ratio). IsRate item.1) m.hammerhead_per_protocol_next_hop_match_rate

aggregate-AreRates_of :
    (topology : Text) (rs : List DiffRecord)
    → All (IsApplicable batfish) rs
    → All (IsApplicable hammerhead) rs
    → AreRates (aggregate topology rs)
unfolding aggregate
aggregate-AreRates_of topology rs hb hh =
    let vendor_total = count (λ (r : DiffRecord). is_some r.vendor_protocol) rs in
    let b = collect rs batfish in
    let h = collect rs hammerhead in
    let cb = collect-IsConsistent rs batfish in
    let ch = collect-IsConsistent rs hammerhead in
    record {
      batfish_presence =
          safe_div-IsRate b.present_in_both vendor_total (present-le-vendor batfish rs hb);
      batfish_next_hop = safe_div-IsRate b.next_hop_match b.present_in_both cb.next_hop_within;
      batfish_protocol = safe_div-IsRate b.protocol_match b.present_in_both cb.protocol_within;
      batfish_bgp_attr = safe_div-IsRate b.bgp_attr_match b.bgp_total cb.bgp_attr_within;
      batfish_per_protocol = per_protocol_rates-IsRate b cb;
      hammerhead_presence =
          safe_div-IsRate h.present_in_both vendor_total (present-le-vendor hammerhead rs hh);
      hammerhead_next_hop = safe_div-IsRate h.next_hop_match h.present_in_both ch.next_hop_within;
      hammerhead_protocol = safe_div-IsRate h.protocol_match h.present_in_both ch.protocol_within;
      hammerhead_bgp_attr = safe_div-IsRate h.bgp_attr_match h.bgp_total ch.bgp_attr_within;
      hammerhead_per_protocol = per_protocol_rates-IsRate h ch;
    }

faithful-IsApplicable :
    (which : Simulator) (v b h : Index) (rs : List DiffRecord)
    → All (IsFaithful v b h) rs
    → All (IsApplicable which) rs
faithful-IsApplicable which v b h rs f =
    All-imp (IsFaithful v b h) (IsApplicable which) rs
      (λ r e.
        let k = record_key r in build_record-IsApplicable which k (get k v) (get k b) (get k h) r e)
      f

-- Every rate that `aggregate` computes from the records of `diff_fibs` lies between 0 and 1.
pub aggregate-AreRates :
    (topology : Text) (w : DiffWorkspace) (flag : Bool) (policy : Option LoopbackPolicy)
    (rs : List DiffRecord)
    → diff_fibs w flag policy ≡ some rs
    → AreRates (aggregate topology rs)
aggregate-AreRates topology w flag policy rs e =
    let p = chosen_policy flag policy in
    let v = index_routes w.vendor p in
    let b = index_routes w.batfish p in
    let h = index_routes w.hammerhead p in
    let d = diff_fibs-IsDiff_of w flag policy rs e in
    aggregate-AreRates_of topology rs (faithful-IsApplicable batfish v b h rs d.faithful)
      (faithful-IsApplicable hammerhead v b h rs d.faithful)
