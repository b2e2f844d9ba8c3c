-- ===== src/Tests/Tables.antt =====
-- Small outputs of the tools, and what the converters make of them.
use hammerhead_bench.Prelude.{
  All, List, String, Text, [], all, codes, contains, false, is_empty, is_space, list_beq, list_eq,
  lower, lstrip, map, none, not, pair_beq, pos, refl, some, strip, true, ℕ_eq, ◌&&◌, ◌∷◌, ◌≡◌,
}
use hammerhead_bench.Prelude.Dict.{Dict, get, put}
use hammerhead_bench.Json.{
  Json, Members, array, array_of, as_dict, as_list, boolean, is_json_true, is_null, items_of, look,
  members_of, null, number, object, object_of, text, truthy,
}
use hammerhead_bench.Json.Fields.{is_ok, need_dict, ok, strict, strict-IsTyped}
use hammerhead_bench.Json.Words.{
  digits_value, int_of_text, ints_of, is_digit, negate, split, str_of, str_or_empty, words_from,
}
use hammerhead_bench.Fib.{
  NodeFib, Protocol_eq, Route, bgp, hammerhead, isis, ospf, protocol_beq, vendor,
}
use hammerhead_bench.Fib.Canon.{canonicalize_vrf, get_or, vrf_aliases}
use hammerhead_bench.Convert.Scope.{produced}
use hammerhead_bench.Convert.Hammerhead.{
  as_int, as_int_list, communities_of, discard_marker, hammerhead_protocol_map,
  hammerhead_protocol_skip, map_protocol, next_hops, parse_entries, parse_entry, transform_rib_view,
  when_bgp,
}
use hammerhead_bench.Convert.Hammerhead.Laws.{
  entries_of, expected, field_text, transform_rib_view-expected,
}
use hammerhead_bench.Convert.Hammerhead.Errors.{item_fits, transform_rib_view-fits}
use hammerhead_bench.Convert.Frr.{parse_frr_route_json}
use hammerhead_bench.Convert.Frr.Fibs.{AreFrrFibs, frr_vrf_map, parse_frr_route_json-AreFrrFibs}
use hammerhead_bench.Convert.Frr.Roundtrip.{IsFrrRoute, fib_json, parse_frr_route_json-fib_json}
use hammerhead_bench.Convert.Bgp.{
  Merged, best_of_block, best_paths, first_best, look_or, merge_bgp_attributes, merge_route,
  parse_as_path, update_of, vrf_of, walk_bgp_blocks,
}
use hammerhead_bench.Convert.Bgp.Merge.{IsMerged, merge_bgp_attributes-IsMerged}
use hammerhead_bench.Adapters.Sessions.{
  frr_peers, frr_peers_up, frr_sessions_established, frr_vrfs_up, is_established,
}
use hammerhead_bench.Tests.Diffs.{fib, route_a, route_b}

abbrev str : String → Json
str s = text (codes s)

-- A view with a BGP route and an LDP label.
abbrev view : Dict Text Json
view =
    (codes "hostname", str "r1")
    ∷ (
      codes "entries",
      array (
          array_of (
            object (
              object_of (
                (codes "prefix", str "10.1.0.0/16")
                ∷ (codes "protocol", str "B")
                ∷ (codes "next_hop_ip", str "10.0.0.2")
                ∷ []))
            ∷ object
                (object_of ((codes "prefix", str "10.3.0.0/16") ∷ (codes "protocol", str "L") ∷ []))
            ∷ [])),
    )
    ∷ []

abbrev view_fib : NodeFib
view_fib = fib hammerhead (
    record {
      prefix = codes "10.1.0.0/16";
      protocol = bgp;
      next_hops = record { ip = some (codes "10.0.0.2"); interface = none } ∷ [];
      admin_distance = none;
      metric = none;
      as_path = none;
      local_pref = none;
      med = none;
      communities = none;
    }
    ∷ [])

view_converts : transform_rib_view strict view (codes "default") ≡ ok view_fib
unfolding transform_rib_view parse_entries parse_entry map_protocol next_hops when_bgp as_int
    as_int_list communities_of discard_marker hammerhead_protocol_map hammerhead_protocol_skip
    str_or_empty str_of truthy is_empty is_null look get list_beq as_list as_dict items_of
    members_of array_of object_of strip lstrip is_space contains canonicalize_vrf get_or vrf_aliases
    lower
view_converts = refl

transform_rib_view-expected_example :
    (view_fib.node ≡ field_text view (codes "hostname"))
    × (view_fib.vrf ≡ canonicalize_vrf (codes "default"))
    × (produced view_fib.routes ≡ expected (entries_of view))
transform_rib_view-expected_example =
    transform_rib_view-expected strict view (codes "default") view_fib view_converts

transform_rib_view-fits_example : is_ok (transform_rib_view strict view (codes "default")) ≡ (
    not (is_empty (field_text view (codes "hostname"))) && all (item_fits strict) (entries_of view))
transform_rib_view-fits_example = transform_rib_view-fits strict view (codes "default")

abbrev plain : Route
plain = record {
  prefix = codes "10.1.0.0/16";
  protocol = ospf;
  next_hops = record { ip = some (codes "10.0.0.2"); interface = none } ∷ [];
  admin_distance = some (pos 110);
  metric = some (pos 20);
  as_path = none;
  local_pref = none;
  med = none;
  communities = none;
}

plain-IsFrrRoute : IsFrrRoute plain
plain-IsFrrRoute = record {
  hops = (refl, tt);
  as_path = refl;
  local_pref = refl;
  med = refl;
  communities = refl;
}

abbrev plain_fib : NodeFib
plain_fib = fib vendor (plain ∷ [])

parse_frr_route_json-fib_json_example :
    parse_frr_route_json strict (fib_json plain_fib) (codes "r1") vendor
    ≡ ok (record plain_fib { vrf = canonicalize_vrf (codes "default") } ∷ [])
parse_frr_route_json-fib_json_example =
    parse_frr_route_json-fib_json strict strict-IsTyped plain_fib (plain-IsFrrRoute, tt)

parse_frr_route_json-AreFrrFibs_example :
    AreFrrFibs
      (codes "r1")
      vendor
      (record plain_fib { vrf = canonicalize_vrf (codes "default") } ∷ [])
      (frr_vrf_map (fib_json plain_fib))
parse_frr_route_json-AreFrrFibs_example =
    parse_frr_route_json-AreFrrFibs strict (fib_json plain_fib) (codes "r1") vendor
      (record plain_fib { vrf = canonicalize_vrf (codes "default") } ∷ [])
      (parse_frr_route_json-fib_json strict strict-IsTyped plain_fib (plain-IsFrrRoute, tt))

-- One VRF with an IS-IS route by its `routeType`.
abbrev eos_output : Json
eos_output = object (
    object_of (
      (
        codes "vrfs",
        object (
            object_of (
              (
                codes "default",
                object (
                    object_of (
                      (
                        codes "routes",
                        object (
                            object_of (
                              (
                                codes "10.1.0.0/16",
                                object (object_of ((codes "routeType", str "isisLevel2") ∷ [])),
                              )
                              ∷ [])),
                      )
                      ∷ [])),
              )
              ∷ [])),
      )
      ∷ []))

abbrev eos_fibs : List NodeFib
eos_fibs =
    fib vendor (
      record {
        prefix = codes "10.1.0.0/16";
        protocol = isis;
        next_hops = [];
        admin_distance = none;
        metric = none;
        as_path = none;
        local_pref = none;
        med = none;
        communities = none;
      }
      ∷ [])
    ∷ []

-- A block with two paths, the second of which is the best.
abbrev bgp_output : Json
bgp_output = object (
    object_of (
      (
        codes "routes",
        object (
            object_of (
              (
                codes "10.1.0.0/16",
                array (
                    array_of (
                      object (object_of ((codes "path", str "65009") ∷ []))
                      ∷ object best_path
                      ∷ [])),
              )
              ∷ [])),
      )
      ∷ []))
  where
    best_path : Members
    best_path = object_of (
        (codes "bestpath", boolean true)
        ∷ (codes "path", str "65001 65002")
        ∷ (codes "locPrf", number (pos 100))
        ∷ [])

abbrev merged : List Merged
merged =
    record {
      route = route_a;
      update = some (record {
        as_path = some (pos 65001 ∷ pos 65002 ∷ []);
        local_pref = number (pos 100);
        med = null;
      });
    }
    ∷ record { route = route_b; update = none }
    ∷ []

bgp_merges : merge_bgp_attributes (fib vendor (route_a ∷ route_b ∷ [])) bgp_output ≡ ok merged
unfolding merge_bgp_attributes walk_bgp_blocks look_or best_paths best_of_block first_best vrf_of
    need_dict look get list_beq as_dict as_list members_of object_of items_of array_of is_json_true
    put merge_route update_of parse_as_path split words_from ints_of int_of_text digits_value
    is_digit negate strip lstrip is_space is_empty canonicalize_vrf get_or vrf_aliases lower
    protocol_beq pair_beq
bgp_merges = refl

merge_bgp_attributes-IsMerged_example :
    (map (λ (m : Merged). m.route) merged ≡ route_a ∷ route_b ∷ [])
    × All (IsMerged bgp_output (canonicalize_vrf (codes "default"))) merged
merge_bgp_attributes-IsMerged_example =
    merge_bgp_attributes-IsMerged (fib vendor (route_a ∷ route_b ∷ [])) bgp_output merged bgp_merges

-- A flat summary with one peer up and one that is not.
abbrev summary : Dict Text Json
summary =
    (
      codes "peers",
      object (
          object_of (
            (codes "10.0.0.2", object (object_of ((codes "state", str "Established") ∷ [])))
            ∷ (codes "10.0.0.3", object (object_of ((codes "state", str "Active") ∷ [])))
            ∷ [])),
    )
    ∷ []

one_is_down : frr_sessions_established (object (object_of summary)) ≡ ok false
unfolding frr_sessions_established frr_vrfs_up frr_peers frr_peers_up is_established as_dict
    members_of object_of need_dict look get list_beq
one_is_down = refl
