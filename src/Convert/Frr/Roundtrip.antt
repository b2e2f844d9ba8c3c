-- ===== src/Convert/Frr/Roundtrip.antt =====
-- A FIB printed the way FRR prints it is read back.
use hammerhead_bench.Prelude.{
  All, List, Option, Text, [], ap, arith, codes, contains, if◌then◌else◌, is_empty, is_some,
  list_beq, list_eq, lower, map, none, not, refl, some, sym, true, ℕ_eq, ℤ, ◌||◌, ◌∙◌, ◌∷◌, ◌≡◌,
}
use hammerhead_bench.Prelude.Dict.{Dict, get}
use hammerhead_bench.Json.{
  Json, array, array_of, as_dict, as_list, boolean, is_json_false, is_null, item, items_of,
  items_of-array_of, look, member, members_of, members_of-object_of, no_items, no_members, null,
  number, object, object_of, text, truthy,
}
use hammerhead_bench.Json.Fields.{
  IsTyped, Result, Validation, collect, iterate, iterate_key, lowered, need_dict, ok,
}
use hammerhead_bench.Fib.{
  NextHop, NodeFib, Protocol, Route, bgp, connected, isis, local, ospf, protocol_name, rip, static,
}
use hammerhead_bench.Fib.Canon.{canonicalize_vrf}
use hammerhead_bench.Convert.Labels.{labelled_route, map_label}
use hammerhead_bench.Convert.Frr.{
  frr_mapped_route, frr_next_hop, frr_prefix_routes, frr_protocol_map, frr_protocol_skip,
  frr_routes, frr_selected_route, frr_vrf, frr_vrfs, make_next_hop, make_route,
  parse_frr_route_entry, parse_frr_route_json, vrf_map_of,
}

abbrev pub opt_text : Option Text → Json
opt_text none = null
opt_text (some s) = text s

abbrev pub opt_int : Option ℤ → Json
opt_int none = null
opt_int (some n) = number n

-- FRR's JSON for a next hop, a route, the routes of a VRF and one VRF.
abbrev pub hop_json : NextHop → Json
hop_json n = object (
    member (codes "ip") (opt_text n.ip)
      (member (codes "interfaceName") (opt_text n.interface) no_members))

abbrev pub route_fields : Route → Dict Text Json
route_fields r =
    (codes "prefix", text r.prefix)
    ∷ (codes "protocol", text (protocol_name r.protocol))
    ∷ (codes "selected", boolean true)
    ∷ (codes "installed", boolean true)
    ∷ (codes "distance", opt_int r.admin_distance)
    ∷ (codes "metric", opt_int r.metric)
    ∷ (codes "nexthops", array (array_of (map hop_json r.next_hops)))
    ∷ []

abbrev pub route_json : Route → Json
route_json r = object (object_of (route_fields r))

abbrev pub routes_json : List Route → Dict Text Json
routes_json [] = []
routes_json (r ∷ rs) = (r.prefix, array (item (route_json r) no_items)) ∷ routes_json rs

abbrev pub fib_json : NodeFib → Dict Text Json
fib_json fib = (fib.vrf, object (object_of (routes_json fib.routes))) ∷ []

-- A hop has an address or an interface.
abbrev pub IsHop : NextHop → Type 0
IsHop n = (is_some n.ip || is_some n.interface) ≡ true

-- What FRR's table can say of a route: no BGP attributes.
pub record IsFrrRoute (r : Route) : Type 0 where
  pub hops : All IsHop r.next_hops
  pub as_path : r.as_path ≡ none
  pub local_pref : r.local_pref ≡ none
  pub med : r.med ≡ none
  pub communities : r.communities ≡ none

label_of :
    (p : Protocol) → map_label frr_protocol_skip frr_protocol_map (protocol_name p) ≡ ok (some p)
unfolding map_label frr_protocol_skip frr_protocol_map protocol_name get contains list_beq
label_of bgp = refl
label_of ospf = refl
label_of isis = refl
label_of static = refl
label_of connected = refl
label_of local = refl
label_of rip = refl

lowered_name : (p : Protocol) → lowered (text (protocol_name p)) ≡ ok (protocol_name p)
unfolding lowered lower protocol_name truthy is_empty
lowered_name bgp = refl
lowered_name ospf = refl
lowered_name isis = refl
lowered_name static = refl
lowered_name connected = refl
lowered_name local = refl
lowered_name rip = refl

module _ (v : Validation) (t : IsTyped v) where
  text_field_opt : (s : Option Text) → v.text_field (opt_text s) ≡ ok s
  text_field_opt none = t.text_null
  text_field_opt (some s) = t.text_text s

  int_field_opt : (n : Option ℤ) → v.int_field (opt_int n) ≡ ok n
  int_field_opt none = t.int_null
  int_field_opt (some n) = t.int_number n

  read_hop : (n : NextHop) → IsHop n → frr_next_hop v (hop_json n) ≡ ok (some n)
  unfolding frr_next_hop make_next_hop look get list_beq as_dict members_of is_null is_json_false
  read_hop n h = ground (arith, text_field_opt n.ip, text_field_opt n.interface)

  read_hops :
      (ns : List NextHop) → All IsHop ns → collect (frr_next_hop v) (map hop_json ns) ≡ ok ns
  unfolding collect
  read_hops [] h = refl
  read_hops (n ∷ ns) h = ground (arith, read_hop n h.0, read_hops ns h.1)

  plain_route :
      (r : Route)
      → IsFrrRoute r
      → record {
        prefix = r.prefix;
        protocol = r.protocol;
        next_hops = r.next_hops;
        admin_distance = r.admin_distance;
        metric = r.metric;
        as_path = none;
        local_pref = none;
        med = none;
        communities = none;
      }
        ≡ r
  plain_route r h i = record {
    prefix = r.prefix;
    protocol = r.protocol;
    next_hops = r.next_hops;
    admin_distance = r.admin_distance;
    metric = r.metric;
    as_path = sym h.as_path i;
    local_pref = sym h.local_pref i;
    med = sym h.med i;
    communities = sym h.communities i;
  }

  read_mapped :
      (r : Route) → IsFrrRoute r → frr_mapped_route v r.prefix (route_fields r) r.protocol ≡ ok r
  unfolding frr_mapped_route make_route look get list_beq iterate_key iterate
  read_mapped r h =
      rw
        (
          items_of-array_of (map hop_json r.next_hops),
          read_hops r.next_hops h.hops,
          int_field_opt r.admin_distance,
          int_field_opt r.metric,
        )
        (ap ok (plain_route r h))

  read_selected :
      (r : Route) → IsFrrRoute r → frr_selected_route v r.prefix (route_fields r) ≡ ok (some r)
  unfolding frr_selected_route labelled_route look get list_beq
  read_selected r h = rw (lowered_name r.protocol, label_of r.protocol, read_mapped r h) refl

  entry_of : Route → Dict Text Json → Result (Option Route)
  entry_of r d =
      if not (truthy (look (codes "selected") d)) || not (truthy (look (codes "installed") d))
      then ok none
      else frr_selected_route v r.prefix d

  read_route :
      (r : Route) → IsFrrRoute r → parse_frr_route_entry v r.prefix (route_json r) ≡ ok (some r)
  unfolding parse_frr_route_entry entry_of need_dict look get list_beq as_dict truthy
  read_route r h =
      (let fields = members_of-object_of (route_fields r) in
        ap (λ d. entry_of r d) fields ∙ read_selected r h)

  read_routes : (rs : List Route) → All IsFrrRoute rs → frr_routes v (routes_json rs) ≡ ok rs
  unfolding frr_routes frr_prefix_routes as_list items_of collect
  read_routes [] h = refl
  read_routes (r ∷ rs) h = ground (arith, read_route r h.0, read_routes rs h.1)

  -- A FIB without BGP attributes whose next hops all have an address or an interface, printed in
  -- FRR's format with its routes selected and installed, is read back with its VRF name
  -- canonical, if validation takes values of the declared types as they are.
  pub parse_frr_route_json-fib_json :
      (fib : NodeFib)
      → All IsFrrRoute fib.routes
      → parse_frr_route_json v (fib_json fib) fib.node fib.source
        ≡ ok (record fib { vrf = canonicalize_vrf fib.vrf } ∷ [])
  unfolding parse_frr_route_json frr_vrfs frr_vrf vrf_map_of as_dict need_dict
  parse_frr_route_json-fib_json fib h =
      ground (arith, members_of-object_of (routes_json fib.routes), read_routes fib.routes h)
