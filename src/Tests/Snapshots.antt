-- ===== src/Tests/Snapshots.antt =====
-- A small snapshot's answers, and what the driver of Batfish makes of them.
use hammerhead_bench.Prelude.{
  List, String, Text, [], all, any, codes, contains, ends_with, filter, has_infix, is_empty,
  is_space, list_beq, list_eq, lower, none, pair_beq, pos, refl, some, starts_with, strip, upper,
  ℕ_eq, ◌∷◌, ◌≡◌,
}
use hammerhead_bench.Prelude.Dict.{Dict, get, put}
use hammerhead_bench.Prelude.Sort.{insert, sort}
use hammerhead_bench.Prelude.Groups.{add_to, group}
use hammerhead_bench.Prelude.Order.{pair_le, text_le}
use hammerhead_bench.Json.{
  Json, as_dict, as_list, is_null, items_of, look, members_of, number, text, truthy,
}
use hammerhead_bench.Json.Fields.{is_ok, ok, raise, validation_error}
use hammerhead_bench.Json.Words.{int_of, int_of_text, ints_of, split, str_of, str_or_empty}
use hammerhead_bench.Fib.{
  NodeFib, Protocol_eq, batfish, bgp, chosen_policy, connected, protocol_beq, protocol_name,
  strip_loopback_host,
}
use hammerhead_bench.Fib.Canon.{
  canonicalize_next_hops, canonicalize_node_fib, canonicalize_route, canonicalize_vrf, keep_routes,
}
use hammerhead_bench.Batfish.Transform.{
  as_int, attach, best_rows, cell_text, first_present, is_best, is_unplaced, map_batfish_protocol,
  merge_bgp_attrs, parse_as_path, parse_communities, row_label, row_place, row_to_next_hops,
  row_to_route, row_vrf, transform_batfish_rows, with_attrs,
}
use hammerhead_bench.Batfish.Transform.Rows.{row_fits}
use hammerhead_bench.Batfish.Transform.Laws.{
  IsTransformed, transform_batfish_rows-IsTransformed, transform_batfish_rows-is_ok,
}

abbrev cell : String → String → Text × Json
cell k s = (codes k, text (codes s))

-- A connected route of r2, a kernel route of r1, and a BGP route of r1.
abbrev route_rows : List (Dict Text Json)
route_rows =
    (cell "Node" "r2"
      ∷ cell "VRF" "default"
      ∷ cell "Network" "10.0.0.0/31"
      ∷ cell "Protocol" "connected"
      ∷ cell "Next_Hop_Interface" "eth1"
      ∷ cell "Next_Hop_IP" "AUTO/NONE(-1l)"
      ∷ [])
    ∷ (cell "Node" "r1" ∷ cell "Network" "10.9.0.0/16" ∷ cell "Protocol" "kernel" ∷ [])
    ∷ (cell "Node" "r1"
        ∷ cell "VRF" "global"
        ∷ cell "Network" "10.1.0.0/16"
        ∷ cell "Protocol" "eBGP"
        ∷ cell "Next_Hop_IP" "10.0.0.1"
        ∷ cell "Next_Hop_Interface" "dynamic"
        ∷ (codes "Admin_Distance", number (pos 20))
        ∷ [])
    ∷ []

-- A path that is a backup only, and the best one.
abbrev bgp_rows : List (Dict Text Json)
bgp_rows =
    (cell "Node" "r1"
      ∷ cell "Network" "10.1.0.0/16"
      ∷ cell "Status" "best"
      ∷ cell "AS_Path" "65001 65002"
      ∷ (codes "Metric", number (pos 0))
      ∷ [])
    ∷ (cell "Node" "r1"
        ∷ cell "Network" "10.1.0.0/16"
        ∷ cell "Status" "BACKUP"
        ∷ cell "AS_Path" "65003"
        ∷ [])
    ∷ []

abbrev snapshot_fibs : List NodeFib
snapshot_fibs =
    record {
      node = codes "r1";
      vrf = codes "default";
      source = batfish;
      routes =
          record {
            prefix = codes "10.1.0.0/16";
            protocol = bgp;
            next_hops = record { ip = some (codes "10.0.0.1"); interface = none } ∷ [];
            admin_distance = some (pos 20);
            metric = none;
            as_path = some (pos 65001 ∷ pos 65002 ∷ []);
            local_pref = none;
            med = some (pos 0);
            communities = none;
          }
          ∷ [];
    }
    ∷ record {
      node = codes "r2";
      vrf = codes "default";
      source = batfish;
      routes =
          record {
            prefix = codes "10.0.0.0/31";
            protocol = connected;
            next_hops = record { ip = none; interface = some (codes "eth1") } ∷ [];
            admin_distance = none;
            metric = none;
            as_path = none;
            local_pref = none;
            med = none;
            communities = none;
          }
          ∷ [];
    }
    ∷ []

snapshot_transformed : transform_batfish_rows route_rows (some bgp_rows) ≡ ok snapshot_fibs
unfolding transform_batfish_rows get put filter all any contains is_empty strip lower upper
    starts_with ends_with has_infix sort insert str_or_empty str_of truthy look items_of members_of
    split int_of int_of_text ints_of is_space row_to_route map_batfish_protocol add_to group
    merge_bgp_attrs attach best_rows is_best is_unplaced row_place cell_text row_vrf with_attrs
    first_present parse_as_path parse_communities canonicalize_node_fib canonicalize_route
    canonicalize_next_hops canonicalize_vrf as_dict as_list is_null as_int list_beq pair_beq
    protocol_beq text_le pair_le row_label row_to_next_hops chosen_policy strip_loopback_host
    keep_routes protocol_name
snapshot_transformed = refl

transform_batfish_rows-IsTransformed_example :
    IsTransformed route_rows (some bgp_rows) snapshot_fibs
transform_batfish_rows-IsTransformed_example =
    transform_batfish_rows-IsTransformed route_rows (some bgp_rows) snapshot_fibs
      snapshot_transformed

-- An EIGRP route is refused with a label that is in the map.
abbrev eigrp_rows : List (Dict Text Json)
eigrp_rows =
    (cell "Node" "r1" ∷ cell "Network" "10.2.0.0/16" ∷ cell "Protocol" "EIGRP EX" ∷ []) ∷ []

eigrp_refused : transform_batfish_rows eigrp_rows none ≡ raise validation_error
unfolding transform_batfish_rows get contains is_empty strip lower str_or_empty str_of truthy look
    is_space row_to_route map_batfish_protocol is_unplaced row_place cell_text row_vrf list_beq
    row_label
eigrp_refused = refl

transform_batfish_rows-is_ok_example :
    is_ok (transform_batfish_rows eigrp_rows none) ≡ all row_fits eigrp_rows
transform_batfish_rows-is_ok_example = transform_batfish_rows-is_ok eigrp_rows none
