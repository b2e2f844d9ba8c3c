-- ===== src/Convert/Eos.antt =====
-- harness/extract/fib.py: from EOS's `show ip route vrf all | json` to canonical FIBs.
pub mod Laws
use hammerhead_bench.Prelude.{
  List, Option, Text, [], codes, if◌then◌else◌, is_empty, list_eq, lower, none, not, some, strip,
  ℕ_eq, ◌&&◌, ◌==◌, ◌∷◌,
}
use hammerhead_bench.Prelude.Dict.{Dict, get}
use hammerhead_bench.Json.{Json, as_dict, is_json_false, look, null, text, truthy}
use hammerhead_bench.Json.Fields.{
  Result, Validation, attribute_error, collect, iterate_key, lowered, ok, raise, ◌>>=◌,
}
use hammerhead_bench.Fib.{
  NextHop, NodeFib, Protocol, Route, Source, bgp, connected, isis, local, ospf, rip, static,
}
use hammerhead_bench.Fib.Canon.{canonicalize_vrf}
use hammerhead_bench.Convert.Labels.{labelled_route}
use hammerhead_bench.Convert.Frr.{empty_fib, make_next_hop, make_route}

-- `_EOS_PROTOCOL_MAP`
unfoldable pub eos_protocol_map : Dict Text Protocol
eos_protocol_map =
    (codes "bgp", bgp)
    ∷ (codes "ibgp", bgp)
    ∷ (codes "ebgp", bgp)
    ∷ (codes "ospf", ospf)
    ∷ (codes "ospf intra area", ospf)
    ∷ (codes "ospf inter area", ospf)
    ∷ (codes "ospf external type 1", ospf)
    ∷ (codes "ospf external type 2", ospf)
    ∷ (codes "ospf nssa external type 1", ospf)
    ∷ (codes "ospf nssa external type 2", ospf)
    ∷ (codes "ospfintraarea", ospf)
    ∷ (codes "ospfinterarea", ospf)
    ∷ (codes "ospfexternal", ospf)
    ∷ (codes "isis", isis)
    ∷ (codes "isis level-1", isis)
    ∷ (codes "isis level-2", isis)
    ∷ (codes "static", static)
    ∷ (codes "connected", connected)
    ∷ (codes "direct", connected)
    ∷ (codes "local", local)
    ∷ (codes "rip", rip)
    ∷ []

-- `_EOS_PROTOCOL_SKIP`
unfoldable pub eos_protocol_skip : List Text
eos_protocol_skip =
    codes "attached host"
    ∷ codes "attached-host"
    ∷ codes "aggregate"
    ∷ codes "dhcp"
    ∷ codes "vxlan control service"
    ∷ []

-- The labels of the `routeType` tokens.
unfoldable pub route_type_labels : Dict Text Text
route_type_labels =
    (codes "ospfIntraArea", codes "ospf intra area")
    ∷ (codes "ospfInterArea", codes "ospf inter area")
    ∷ (codes "ospfExternalType1", codes "ospf external type 1")
    ∷ (codes "ospfExternalType2", codes "ospf external type 2")
    ∷ (codes "ospfNssaExternalType1", codes "ospf nssa external type 1")
    ∷ (codes "ospfNssaExternalType2", codes "ospf nssa external type 2")
    ∷ (codes "isisLevel1", codes "isis level-1")
    ∷ (codes "isisLevel2", codes "isis level-2")
    ∷ (codes "bgpInternal", codes "ibgp")
    ∷ (codes "bgpExternal", codes "ebgp")
    ∷ []

-- `_route_type_to_proto`
unfoldable pub route_type_to_proto : Text → Text
unfolding route_type_labels
route_type_to_proto route_type =
    let rt = strip route_type in
    if is_empty rt
    then []
    else elim (get rt route_type_labels) [ none ↦ lower rt | some label ↦ label ]

-- `(entry.get("routeAction") or "forward").lower()`
unfoldable pub eos_action : Dict Text Json → Result Text
eos_action entry =
    let action = look (codes "routeAction") entry in
    if truthy action then lowered action else ok (codes "forward")

-- `(entry.get("routeType") or "")`, which must be text.
unfoldable pub eos_route_type : Dict Text Json → Result Text
eos_route_type entry =
    let route_type = look (codes "routeType") entry in
    if truthy route_type
    then elim route_type [ text s ↦ ok s | _ ↦ raise attribute_error ]
    else ok []

-- The label of an entry: its `protocol`, or else its `routeType`.
unfoldable pub eos_label : Dict Text Json → Result Text
unfolding eos_route_type route_type_to_proto
eos_label entry = do
  raw ← lowered (look (codes "protocol") entry)
  (if is_empty (strip raw)
      then (do route_type ← eos_route_type entry; ok (route_type_to_proto route_type))
      else ok (strip raw))

-- `a or b`
abbrev pub or_json : Json → Json → Json
or_json a b = if truthy a then a else b

-- "0.0.0.0" reads as no address.
unfoldable pub drop_zero : Json → Json
drop_zero ip = elim ip [ text s ↦ if s == codes "0.0.0.0" then null else text s | other ↦ other ]

module _ (v : Validation) where
  -- One item of `vias`; `none` if it is passed over.
  unfoldable pub eos_next_hop : Json → Result (Option NextHop)
  unfolding drop_zero make_next_hop
  eos_next_hop via = elim (as_dict via) [
    | none ↦ ok none
    | some d ↦
        let ip = or_json (look (codes "nexthopAddr") d) (look (codes "nextHopAddr") d) in
        let iface = look (codes "interface") d in
        if not (truthy ip) && not (truthy iface)
        then ok none
        else (do hop ← make_next_hop v (drop_zero ip) iface; ok (some hop))
  ]

  -- The route of an entry whose label is mapped.
  unfoldable pub eos_mapped_route : Text → Dict Text Json → Protocol → Result Route
  unfolding eos_next_hop make_route
  eos_mapped_route prefix entry protocol = do
    vias ← iterate_key (codes "vias") entry
    nhs ← collect eos_next_hop vias
    make_route v prefix protocol nhs (look (codes "preference") entry) (look (codes "metric") entry)

  -- The rest of the routine, for an entry that forwards and is programmed.
  unfoldable pub eos_programmed_route : Text → Dict Text Json → Result (Option Route)
  unfolding labelled_route eos_label eos_mapped_route eos_protocol_map eos_protocol_skip
  eos_programmed_route prefix entry =
      labelled_route eos_protocol_skip eos_protocol_map (eos_label entry)
        (eos_mapped_route prefix entry)

  -- `_parse_eos_route_entry`
  unfoldable pub parse_eos_route_entry : Text → Dict Text Json → Result (Option Route)
  unfolding eos_action eos_programmed_route
  parse_eos_route_entry prefix entry = do
    action ← eos_action entry
    (if not (action == codes "forward") && not (action == codes "permit")
        then ok none
        else if is_json_false (look (codes "kernelProgrammed") entry)
        then ok none
        else eos_programmed_route prefix entry)

  -- One item of `routes`; what is not a dictionary is passed over.
  unfoldable pub eos_item : Text × Json → Result (Option Route)
  unfolding parse_eos_route_entry
  eos_item (prefix, j) = elim (as_dict j) [
    | none ↦ ok none
    | some entry ↦ parse_eos_route_entry prefix entry
  ]

  -- One VRF; `none` if its body is not a dictionary.
  unfoldable pub eos_vrf : Text → Source → Text × Json → Result (Option NodeFib)
  unfolding eos_item
  eos_vrf node_name source (vrf_name, vrf_body) = elim (as_dict vrf_body) [
    | none ↦ ok none
    | some body ↦ do
      routes ← elim (as_dict (look (codes "routes") body)) [
        | none ↦ ok []
        | some route_map ↦ collect eos_item route_map
      ]
      ok (
          some (record {
            node = node_name;
            vrf = canonicalize_vrf vrf_name;
            source = source;
            routes = routes;
          }))
  ]

  -- `parse_eos_route_json`
  unfoldable pub parse_eos_route_json : Json → Text → Source → Result (List NodeFib)
  unfolding eos_vrf
  parse_eos_route_json j node_name source = elim (as_dict j) [
    | none ↦ ok (empty_fib node_name source ∷ [])
    | some d ↦ elim (as_dict (look (codes "vrfs") d)) [
      | none ↦ ok (empty_fib node_name source ∷ [])
      | some vrfs ↦ do
        results ← collect (eos_vrf node_name source) vrfs
        ok (if is_empty results then empty_fib node_name source ∷ [] else results)
    ]
  ]
