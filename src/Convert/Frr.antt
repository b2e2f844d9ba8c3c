-- ===== src/Convert/Frr.antt =====
-- harness/extract/fib.py: from FRR's `show ip route vrf all json` to canonical FIBs.
pub mod Laws
pub mod Fibs
pub mod Roundtrip
use hammerhead_bench.Prelude.{
  List, Option, Text, [], codes, if◌then◌else◌, is_some, list_eq, none, not, some, ℕ_eq, ◌&&◌, ◌++◌,
  ◌||◌, ◌∷◌,
}
use hammerhead_bench.Prelude.Dict.{Dict}
use hammerhead_bench.Json.{
  Json, as_dict, as_list, is_json_false, is_null, look, object, object_of, truthy,
}
use hammerhead_bench.Json.Fields.{
  Result, Validation, collect, iterate_key, lowered, need_dict, ok, ◌>>=◌,
}
use hammerhead_bench.Fib.{
  NextHop, NodeFib, Protocol, Route, Source, bgp, connected, isis, local, ospf, rip, static,
}
use hammerhead_bench.Fib.Canon.{canonicalize_vrf}
use hammerhead_bench.Convert.Labels.{labelled_route}

-- `_FRR_PROTOCOL_MAP`
unfoldable pub frr_protocol_map : Dict Text Protocol
frr_protocol_map =
    (codes "bgp", bgp)
    ∷ (codes "ospf", ospf)
    ∷ (codes "isis", isis)
    ∷ (codes "static", static)
    ∷ (codes "connected", connected)
    ∷ (codes "local", local)
    ∷ (codes "rip", rip)
    ∷ []

-- `_FRR_PROTOCOL_SKIP`
unfoldable pub frr_protocol_skip : List Text
frr_protocol_skip =
    codes "kernel" ∷ codes "table" ∷ codes "system" ∷ codes "nhrp" ∷ codes "babel" ∷ []

module _ (v : Validation) where
  -- `NextHop(ip=ip, interface=iface)`
  unfoldable pub make_next_hop : Json → Json → Result NextHop
  make_next_hop ip iface = do
    hop_ip ← v.text_field ip
    hop_iface ← v.text_field iface
    ok (record { ip = hop_ip; interface = hop_iface })

  -- `Route(...)` without BGP attributes.
  unfoldable pub make_route : Text → Protocol → List NextHop → Json → Json → Result Route
  make_route prefix protocol nhs distance metric = do
    admin ← v.int_field distance
    cost ← v.int_field metric
    ok (record {
      prefix = prefix;
      protocol = protocol;
      next_hops = nhs;
      admin_distance = admin;
      metric = cost;
      as_path = none;
      local_pref = none;
      med = none;
      communities = none;
    })

  -- One item of `nexthops`; `none` if it is passed over.
  unfoldable pub frr_next_hop : Json → Result (Option NextHop)
  unfolding make_next_hop
  frr_next_hop nh = elim (as_dict nh) [
    | none ↦ ok none
    | some d ↦
        let ip = look (codes "ip") d in
        let iface = look (codes "interfaceName") d in
        if is_json_false (look (codes "active") d)
        then ok none
        else if is_null ip && is_null iface
        then ok none
        else (do hop ← make_next_hop ip iface; ok (some hop))
  ]

  -- The route of an entry whose label is mapped.
  unfoldable pub frr_mapped_route : Text → Dict Text Json → Protocol → Result Route
  unfolding frr_next_hop make_route
  frr_mapped_route prefix entry protocol = do
    hops ← iterate_key (codes "nexthops") entry
    nhs ← collect frr_next_hop hops
    make_route prefix protocol nhs (look (codes "distance") entry) (look (codes "metric") entry)

  -- The rest of the routine, for an entry that is selected and installed.
  unfoldable pub frr_selected_route : Text → Dict Text Json → Result (Option Route)
  unfolding labelled_route frr_mapped_route frr_protocol_map frr_protocol_skip
  frr_selected_route prefix entry =
      labelled_route frr_protocol_skip frr_protocol_map (lowered (look (codes "protocol") entry))
        (frr_mapped_route prefix entry)

  -- `_parse_frr_route_entry`
  unfoldable pub parse_frr_route_entry : Text → Json → Result (Option Route)
  unfolding frr_selected_route
  parse_frr_route_entry prefix j = do
    entry ← need_dict j
    (if not (truthy (look (codes "selected") entry))
          || not (truthy (look (codes "installed") entry))
        then ok none
        else frr_selected_route prefix entry)

  -- The entries of one prefix; what is not a list is passed over.
  unfoldable pub frr_prefix_routes : Text × Json → Result (List Route)
  unfolding parse_frr_route_entry
  frr_prefix_routes (prefix, entries) = elim (as_list entries) [
    | none ↦ ok []
    | some es ↦ collect (parse_frr_route_entry prefix) es
  ]

  -- The prefixes of one VRF.
  unfoldable pub frr_routes : Dict Text Json → Result (List Route)
  unfolding frr_prefix_routes
  frr_routes [] = ok []
  frr_routes (p ∷ ps) = do routes ← frr_prefix_routes p; rest ← frr_routes ps; ok (routes ++ rest)

  -- One VRF: its value must be a dictionary.
  unfoldable pub frr_vrf : Text → Source → Text × Json → Result NodeFib
  unfolding frr_routes
  frr_vrf node_name source (vrf_name, prefix_map) = do
    prefixes ← need_dict prefix_map
    routes ← frr_routes prefixes
    ok (record {
      node = node_name;
      vrf = canonicalize_vrf vrf_name;
      source = source;
      routes = routes;
    })

  frr_vrfs : Text → Source → Dict Text Json → Result (List NodeFib)
  unfolding frr_vrf
  frr_vrfs node_name source [] = ok []
  frr_vrfs node_name source (m ∷ ms) = do
    fib ← frr_vrf node_name source m
    rest ← frr_vrfs node_name source ms
    ok (fib ∷ rest)

-- One empty FIB in the default VRF.
abbrev pub empty_fib : Text → Source → NodeFib
empty_fib node_name source = record {
  node = node_name;
  vrf = codes "default";
  source = source;
  routes = [];
}

-- `{"default": data}` unless the first value is a dictionary.
unfoldable pub vrf_map_of : Dict Text Json → Dict Text Json
vrf_map_of [] = []
vrf_map_of ((k, j) ∷ d) =
    if is_some (as_dict j)
    then (k, j) ∷ d
    else (codes "default", object (object_of ((k, j) ∷ d))) ∷ []

-- `parse_frr_route_json`
unfoldable pub parse_frr_route_json :
    Validation → Dict Text Json → Text → Source → Result (List NodeFib)
unfolding frr_vrfs vrf_map_of
parse_frr_route_json v [] node_name source = ok (empty_fib node_name source ∷ [])
parse_frr_route_json v (m ∷ data') node_name source =
    frr_vrfs v node_name source (vrf_map_of (m ∷ data'))
