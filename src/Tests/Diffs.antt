-- ===== src/Tests/Diffs.antt =====
-- Three small tables and what the comparison of them says.
use hammerhead_bench.Prelude.{
  List, Text, [], codes, contains, false, filter, list_beq, list_eq, lower, none, option_eq,
  pair_beq, pair_eq, pos, refl, some, strip, true, ℕ_eq, ℤ_eq, ◌∷◌, ◌≡◌,
}
use hammerhead_bench.Prelude.Order.{pair_le, pair_order, text_le, text_order}
use hammerhead_bench.Prelude.Sort.{insert, sort}
use hammerhead_bench.Prelude.Dict.{get, put, union}
use hammerhead_bench.Fib.{
  LoopbackPolicy, NextHop, NodeFib, Protocol, Protocol_eq, Route, Source, batfish, bgp,
  chosen_policy, from_bool, hammerhead, ospf, protocol_beq, protocol_name, strip_loopback_host,
  vendor,
}
use hammerhead_bench.Fib.Canon.{
  canonicalize_next_hops, canonicalize_node_fib, canonicalize_route, canonicalize_vrf, get_or,
  keep_routes, vrf_aliases,
}
use hammerhead_bench.Diff.Key.{RouteKey, RouteKey_eq, index_fib, index_from, index_routes, key_beq}
use hammerhead_bench.Diff.Engine.{
  DiffRecord, DiffWorkspace, all_keys, all_three, build_record, build_records, diff_fibs,
  find_presence, record_of, vendor_and_batfish,
}
use hammerhead_bench.Diff.Engine.Laws.{IsDiff, diff_fibs-IsDiff}
use hammerhead_bench.Diff.Metrics.{Simulator, aggregate, collect}
use hammerhead_bench.Diff.Metrics.Laws.{IsConsistent, collect-IsConsistent}
use hammerhead_bench.Diff.Metrics.Rates.{AreRates, aggregate-AreRates}
use hammerhead_bench.Diff.Metrics.Agreement.{IsFullScore, collect-IsFullScore}
use hammerhead_bench.Fib.Canon.Laws.{
  IsCanonical, canonicalize_node_fib-IsCanonical, canonicalize_node_fib_idem,
}

abbrev hop : NextHop
hop = record { ip = some (codes "10.0.0.2"); interface = some (codes "eth1") }

abbrev pub one_hop : Text → Protocol → Route
one_hop prefix protocol = record {
  prefix = prefix;
  protocol = protocol;
  next_hops = hop ∷ [];
  admin_distance = none;
  metric = none;
  as_path = some (pos 65001 ∷ []);
  local_pref = none;
  med = none;
  communities = none;
}

abbrev pub fib : Source → List Route → NodeFib
fib source routes = record {
  node = codes "r1";
  vrf = codes "default";
  source = source;
  routes = routes;
}

abbrev pub route_a : Route
route_a = one_hop (codes "10.1.0.0/16") bgp

abbrev pub route_b : Route
route_b = one_hop (codes "10.2.0.0/16") ospf

abbrev pub loop : Route
loop = one_hop (codes "10.9.9.9/32") ospf

abbrev pub workspace : DiffWorkspace
workspace = record {
  vendor = fib vendor (route_b ∷ route_a ∷ []) ∷ [];
  batfish = fib batfish (route_a ∷ route_b ∷ []) ∷ [];
  hammerhead = fib hammerhead (route_a ∷ []) ∷ [];
}

abbrev pub key : Text → RouteKey
key prefix = record { node = codes "r1"; vrf = codes "default"; prefix = prefix }

abbrev pub records : List DiffRecord
records =
    record_of (key (codes "10.1.0.0/16")) (some route_a) (some route_a) (some route_a) all_three
    ∷ record_of (key (codes "10.2.0.0/16")) (some route_b) (some route_b) none vendor_and_batfish
    ∷ []

two_records : diff_fibs workspace false none ≡ some records
unfolding diff_fibs build_records build_record find_presence all_keys index_routes index_from
    index_fib canonicalize_node_fib canonicalize_vrf canonicalize_route canonicalize_next_hops
    keep_routes chosen_policy from_bool strip_loopback_host sort insert union get put contains lower
    strip list_beq filter pair_le text_le get_or vrf_aliases protocol_name key_beq protocol_beq
    pair_beq
two_records = refl

same_index :
    (k : RouteKey)
    → get k (index_routes workspace.batfish LoopbackPolicy.passthrough)
      ≡ get k (index_routes workspace.vendor LoopbackPolicy.passthrough)
unfolding index_routes index_from index_fib canonicalize_node_fib canonicalize_vrf
    canonicalize_route canonicalize_next_hops keep_routes chosen_policy strip_loopback_host sort
    insert get put contains lower strip list_beq filter pair_le text_le get_or vrf_aliases
    protocol_name key_beq pair_beq
same_index k = refl

diff_fibs-IsDiff_example :
    (rs : List DiffRecord) × (diff_fibs workspace false none ≡ some rs)
    × IsDiff
        (index_routes workspace.vendor (chosen_policy false none))
        (index_routes workspace.batfish (chosen_policy false none))
        (index_routes workspace.hammerhead (chosen_policy false none))
        rs
diff_fibs-IsDiff_example = diff_fibs-IsDiff workspace false none

collect-IsFullScore_example : IsFullScore Simulator.batfish records
unfolding chosen_policy from_bool
collect-IsFullScore_example =
    collect-IsFullScore Simulator.batfish workspace false none records two_records same_index

aggregate-AreRates_example : AreRates (aggregate (codes "line") records)
aggregate-AreRates_example =
    aggregate-AreRates (codes "line") workspace false none records two_records

collect-IsConsistent_example : IsConsistent (collect records Simulator.hammerhead)
collect-IsConsistent_example = collect-IsConsistent records Simulator.hammerhead

canonicalize_node_fib-IsCanonical_example :
    IsCanonical
      (chosen_policy true none)
      (fib vendor (route_b ∷ loop ∷ route_a ∷ []))
      (canonicalize_node_fib (fib vendor (route_b ∷ loop ∷ route_a ∷ [])) true none)
canonicalize_node_fib-IsCanonical_example =
    canonicalize_node_fib-IsCanonical (fib vendor (route_b ∷ loop ∷ route_a ∷ [])) true none

canonicalize_node_fib_idem_example :
    canonicalize_node_fib
      (canonicalize_node_fib (fib vendor (route_b ∷ loop ∷ [])) true none)
      true
      none
    ≡ canonicalize_node_fib (fib vendor (route_b ∷ loop ∷ [])) true none
canonicalize_node_fib_idem_example =
    canonicalize_node_fib_idem (fib vendor (route_b ∷ loop ∷ [])) true none

pub line-AreRates : AreRates (aggregate (codes "line") records)
line-AreRates = aggregate-AreRates (codes "line") workspace false none records two_records
