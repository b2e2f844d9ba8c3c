-- ===== src/Diff/Metrics.antt =====
-- harness/diff/metrics.py: the counts and rates of one topology, and their means.
pub mod Laws
pub mod Bits
pub mod Rates
pub mod Agreement
pub mod Corpus
use hammerhead_bench.Prelude.{
  Bool, List, Option, Text, [], codes, count, false, if◌then◌else◌, is_some, list_eq, nat_eq, none,
  not, some, true, ℕ, ℕ_eq, ◌+◌, ◌∷◌,
}
use hammerhead_bench.Prelude.Order.{text_order}
use hammerhead_bench.Prelude.Sort.{sort}
use hammerhead_bench.Prelude.Dict.{Dict, get, put}
use hammerhead_bench.Prelude.Ratio.{Ratio, one}
use hammerhead_bench.Fib.{Protocol, Protocol_eq, protocol_name}
use hammerhead_bench.Diff.Engine.{
  DiffRecord, Presence, all_three, vendor_and_batfish, vendor_and_hammerhead,
}

-- `Simulator`
pub data Simulator : Type 0 where
  batfish hammerhead : Simulator

-- `_BOTH_SIDES_BATFISH` and `_BOTH_SIDES_HAMMERHEAD`
unfoldable pub both_sides : Simulator → Presence → Bool
both_sides which all_three = true
both_sides batfish vendor_and_batfish = true
both_sides hammerhead vendor_and_hammerhead = true
both_sides _ _ = false

-- `_SimRates`
pub record SimRates : Type 0 where
  pub present_in_both : ℕ
  pub next_hop_match : ℕ
  pub protocol_match : ℕ
  pub bgp_total : ℕ
  pub bgp_attr_match : ℕ
  pub per_protocol_total : Dict Text ℕ
  pub per_protocol_match : Dict Text ℕ

abbrev no_rates : SimRates
no_rates = record {
  present_in_both = 0;
  next_hop_match = 0;
  protocol_match = 0;
  bgp_total = 0;
  bgp_attr_match = 0;
  per_protocol_total = [];
  per_protocol_match = [];
}

-- `getattr(r, nh_attr)` and so on
abbrev pub nh_attr : Simulator → DiffRecord → Option Bool
nh_attr batfish r = r.batfish_next_hop_match
nh_attr hammerhead r = r.hammerhead_next_hop_match

abbrev pub proto_attr : Simulator → DiffRecord → Option Bool
proto_attr batfish r = r.batfish_protocol_match
proto_attr hammerhead r = r.hammerhead_protocol_match

abbrev pub bgp_attr : Simulator → DiffRecord → Option Bool
bgp_attr batfish r = r.batfish_bgp_attrs_match
bgp_attr hammerhead r = r.hammerhead_bgp_attrs_match

abbrev pub sim_proto_attr : Simulator → DiffRecord → Option Protocol
sim_proto_attr batfish r = r.batfish_protocol
sim_proto_attr hammerhead r = r.hammerhead_protocol

-- `x is True`
abbrev pub is_true : Option Bool → Bool
is_true (some true) = true
is_true _ = false

-- The label that a record is counted under: the vendor's, else the simulator's, else "unknown".
protocol_label : Option Protocol → Option Protocol → Text
protocol_label (some p) sim = protocol_name p
protocol_label none (some p) = protocol_name p
protocol_label none none = codes "unknown"

-- `counter[k]`
unfoldable pub tally : Text → Dict Text ℕ → ℕ
tally k d = elim (get k d) [ none ↦ 0 | some n ↦ n ]

-- `counter[k] += 1`
unfoldable pub bump : Text → Dict Text ℕ → Dict Text ℕ
unfolding tally
bump k d = put k (tally k d + 1) d

-- One round of the loop of `_collect`.
unfoldable pub collect_step : Simulator → SimRates → DiffRecord → SimRates
unfolding both_sides protocol_label
collect_step which rates r =
    let proto = protocol_label r.vendor_protocol (sim_proto_attr which r) in
    if not (both_sides which r.presence) then rates else record {
      present_in_both = rates.present_in_both + 1;
      next_hop_match = rates.next_hop_match + (if is_true (nh_attr which r) then 1 else 0);
      protocol_match = rates.protocol_match + (if is_true (proto_attr which r) then 1 else 0);
      bgp_total = rates.bgp_total + (if is_some (bgp_attr which r) then 1 else 0);
      bgp_attr_match = rates.bgp_attr_match + (if is_true (bgp_attr which r) then 1 else 0);
      per_protocol_total = bump proto rates.per_protocol_total;
      per_protocol_match =
          if is_true (nh_attr which r)
          then bump proto rates.per_protocol_match
          else rates.per_protocol_match;
    }

collect_from : Simulator → SimRates → List DiffRecord → SimRates
collect_from which rates [] = rates
collect_from which rates (r ∷ rs) = collect_from which (collect_step which rates r) rs

unfoldable pub collect : List DiffRecord → Simulator → SimRates
unfolding collect_from
collect records which = collect_from which no_rates records

-- `_safe_div`: an empty denominator counts as full agreement.
unfoldable pub safe_div : ℕ → ℕ → Ratio
safe_div num denom = if nat_eq denom 0 then one else record { num = num; den = denom }

rates_of : Dict Text ℕ → Dict Text ℕ → Dict Text Ratio
rates_of matches [] = []
rates_of matches ((proto, total) ∷ totals) =
    (proto, safe_div (tally proto matches) total) ∷ rates_of matches totals

-- `_per_protocol_rates`: in the order of the labels, which are distinct.
unfoldable pub per_protocol_rates : SimRates → Dict Text Ratio
unfolding rates_of safe_div
per_protocol_rates r = rates_of r.per_protocol_match (sort (λ item. item.0) r.per_protocol_total)

pub record TopologyMetrics : Type 0 where
  pub topology : Text
  pub total_routes_vendor : ℕ
  pub total_routes_batfish : ℕ
  pub total_routes_hammerhead : ℕ
  pub batfish_presence_match_rate : Ratio
  pub batfish_next_hop_match_rate : Ratio
  pub batfish_protocol_match_rate : Ratio
  pub batfish_bgp_attr_match_rate : Ratio
  pub batfish_per_protocol_next_hop_match_rate : Dict Text Ratio
  pub hammerhead_presence_match_rate : Ratio
  pub hammerhead_next_hop_match_rate : Ratio
  pub hammerhead_protocol_match_rate : Ratio
  pub hammerhead_bgp_attr_match_rate : Ratio
  pub hammerhead_per_protocol_next_hop_match_rate : Dict Text Ratio

unfoldable pub aggregate : Text → List DiffRecord → TopologyMetrics
aggregate topology records =
    let vendor_total = count (λ r. is_some r.vendor_protocol) records in
    let b = collect records batfish in
    let h = collect records hammerhead in
    record {
      topology = topology;
      total_routes_vendor = vendor_total;
      total_routes_batfish = count (λ r. is_some r.batfish_protocol) records;
      total_routes_hammerhead = count (λ r. is_some r.hammerhead_protocol) records;
      batfish_presence_match_rate = safe_div b.present_in_both vendor_total;
      batfish_next_hop_match_rate = safe_div b.next_hop_match b.present_in_both;
      batfish_protocol_match_rate = safe_div b.protocol_match b.present_in_both;
      batfish_bgp_attr_match_rate = safe_div b.bgp_attr_match b.bgp_total;
      batfish_per_protocol_next_hop_match_rate = per_protocol_rates b;
      hammerhead_presence_match_rate = safe_div h.present_in_both vendor_total;
      hammerhead_next_hop_match_rate = safe_div h.next_hop_match h.present_in_both;
      hammerhead_protocol_match_rate = safe_div h.protocol_match h.present_in_both;
      hammerhead_bgp_attr_match_rate = safe_div h.bgp_attr_match h.bgp_total;
      hammerhead_per_protocol_next_hop_match_rate = per_protocol_rates h;
    }
