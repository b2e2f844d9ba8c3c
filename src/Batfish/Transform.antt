-- ===== src/Batfish/Transform.antt =====
-- harness/tools/batfish.py: from the rows that pybatfish answers to canonical FIBs.
pub mod Rows
pub mod Loops
pub mod Laws
use hammerhead_bench.Prelude.{
  Bool, List, Option, Text, [], any, codes, contains, false, filter, has_infix, if◌then◌else◌,
  is_empty, list_eq, lower, map, nat_eq, none, not, pair_eq, some, starts_with, strip, true, upper,
  ℕ_eq, ℤ, ◌++◌, ◌==◌, ◌||◌, ◌∷◌,
}
use hammerhead_bench.Prelude.Dict.{Dict, get, has_key, put}
use hammerhead_bench.Prelude.Groups.{add_to}
use hammerhead_bench.Prelude.Sort.{sort}
use hammerhead_bench.Prelude.Order.{pair_order, text_order}
use hammerhead_bench.Json.{
  Json, array, as_dict, as_list, is_null, items_of, look, null, text, truthy,
}
use hammerhead_bench.Json.Words.{int_of, ints_of, split, str_of, str_or_empty}
use hammerhead_bench.Json.Fields.{Result, ok, raise, validation_error, value_error, ◌>>=◌}
use hammerhead_bench.Fib.{
  NextHop, NodeFib, Protocol, Protocol_eq, Route, batfish, bgp, connected, isis, local, ospf, rip,
  static,
}
use hammerhead_bench.Fib.Canon.{canonicalize_node_fib, canonicalize_vrf, default}

-- A value of the protocol map: a label of `Route`, or "eigrp", which `Route` refuses.
pub data Label : Type 0 where
  known : Protocol → Label
  eigrp : Label

-- `_BATFISH_PROTOCOL_MAP`
unfoldable pub batfish_protocol_map : Dict Text Label
batfish_protocol_map =
    (codes "connected", known connected)
    ∷ (codes "local", known local)
    ∷ (codes "static", known static)
    ∷ (codes "ospf", known ospf)
    ∷ (codes "ospf-inter", known ospf)
    ∷ (codes "ospf-intra", known ospf)
    ∷ (codes "ospf-external-type-1", known ospf)
    ∷ (codes "ospf-external-type-2", known ospf)
    ∷ (codes "ospf-ia", known ospf)
    ∷ (codes "ospf-e1", known ospf)
    ∷ (codes "ospf-e2", known ospf)
    ∷ (codes "bgp", known bgp)
    ∷ (codes "ibgp", known bgp)
    ∷ (codes "ebgp", known bgp)
    ∷ (codes "aggregate", known bgp)
    ∷ (codes "isis-l1", known isis)
    ∷ (codes "isis-l2", known isis)
    ∷ (codes "isisl1", known isis)
    ∷ (codes "isisl2", known isis)
    ∷ (codes "isisel1", known isis)
    ∷ (codes "isisel2", known isis)
    ∷ (codes "isis-el1", known isis)
    ∷ (codes "isis-el2", known isis)
    ∷ (codes "isis", known isis)
    ∷ (codes "rip", known rip)
    ∷ (codes "eigrp", eigrp)
    ∷ (codes "eigrp-ex", eigrp)
    ∷ (codes "eigrpex", eigrp)
    ∷ []

-- `(raw or "").strip().lower().replace(" ", "-")`
unfoldable pub normal_label : Text → Text
normal_label raw = map (λ c. if nat_eq c 32 then 45 else c) (lower (strip raw))

-- `_map_batfish_protocol`: `none` for a label that is skipped.
unfoldable pub map_batfish_protocol : Text → Result (Option Label)
unfolding batfish_protocol_map normal_label
map_batfish_protocol raw =
    let norm = normal_label raw in
    if contains norm (codes "kernel" ∷ codes "unknown" ∷ [])
    then ok none
    else elim (get norm batfish_protocol_map) [
      | none ↦ raise value_error
      | some mapped ↦ ok (some mapped)
    ]

-- `_as_int`
unfoldable pub as_int : Json → Option ℤ
as_int val = if is_null val then none else int_of val

-- `_none_or_str`
unfoldable pub none_or_str : Json → Option Text
none_or_str val =
    if is_null val
    then none
    else let s = strip (str_of val) in
      if is_empty s || contains (lower s) (codes "none" ∷ codes "null" ∷ []) then none else some s

-- `_clean_ip`
unfoldable pub clean_ip : Json → Option Text
unfolding none_or_str
clean_ip ip = elim (none_or_str ip) [
  | none ↦ none
  | some s ↦ if starts_with s (codes "AUTO/NONE") || lower s == codes "none" then none else some s
]

-- `_SENTINEL_IFACES`
unfoldable pub sentinel_ifaces : List Text
sentinel_ifaces =
    codes "dynamic" ∷ codes "null_interface" ∷ codes "null0" ∷ codes "null_0" ∷ codes "none" ∷ []

-- `_clean_iface`
unfoldable pub clean_iface : Json → Option Text
unfolding none_or_str sentinel_ifaces
clean_iface iface = elim (none_or_str iface) [
  | none ↦ none
  | some s ↦ if contains (lower s) sentinel_ifaces then none else some s
]

-- `a or b`
abbrev pub or_else : Json → Json → Json
or_else a b = if truthy a then a else b

abbrev pub json_of : Option Text → Json
json_of none = null
json_of (some s) = text s

-- `_nh_ip`
unfoldable pub nh_ip : Dict Text Json → Option Text
unfolding none_or_str
nh_ip d = none_or_str (
    or_else (look (codes "ip") d)
      (or_else (look (codes "nextHopIp") d) (look (codes "Next_Hop_IP") d)))

-- `_nh_iface`
unfoldable pub nh_iface : Dict Text Json → Option Text
unfolding none_or_str
nh_iface d =
    let iface =
      or_else (look (codes "interface") d)
        (or_else (look (codes "nextHopInterface") d) (look (codes "Next_Hop_Interface") d)) in
    let kept = none_or_str iface in
    elim iface [
      | text s ↦ if contains s (codes "dynamic" ∷ codes "null_interface" ∷ []) then none else kept
      | _ ↦ kept
    ]

-- The hop of an address and an interface, unless both are missing.
unfoldable pub hop_of : Option Text → Option Text → List NextHop
hop_of none none = []
hop_of ip iface = record { ip = ip; interface = iface } ∷ []

-- The loop over `zip(ips, ifaces, strict=False)`.
unfoldable pub zipped_hops : List Json → List Json → List NextHop
unfolding hop_of clean_ip clean_iface
zipped_hops (ip_raw ∷ ips) (ifc_raw ∷ ifaces) =
    hop_of (clean_ip ip_raw) (clean_iface ifc_raw) ++ zipped_hops ips ifaces
zipped_hops _ _ = []

-- `_row_to_next_hops`
unfoldable pub row_to_next_hops : Dict Text Json → List NextHop
unfolding nh_ip nh_iface hop_of clean_ip clean_iface zipped_hops
row_to_next_hops row = elim (as_dict (look (codes "Next_Hop") row)) [
  | some nh ↦ hop_of (clean_ip (json_of (nh_ip nh))) (clean_iface (json_of (nh_iface nh)))
  | none ↦
      let ip_val = look (codes "Next_Hop_IP") row in
      let iface_val = look (codes "Next_Hop_Interface") row in
      elim (as_list ip_val) [
        | none ↦ hop_of (clean_ip ip_val) (clean_iface iface_val)
        | some ips ↦
            zipped_hops ips
              (elim (as_list iface_val) [ none ↦ map (λ _. iface_val) ips | some js ↦ js ])
      ]
]

-- `str(row.get(k) or "").strip()`
unfoldable pub cell_text : Text → Dict Text Json → Text
cell_text k row = strip (str_or_empty (look k row))

-- `canonicalize_vrf(str(row.get("VRF") or "default"))`
unfoldable pub row_vrf : Dict Text Json → Text
row_vrf row = canonicalize_vrf (str_of (or_else (look (codes "VRF") row) (text default)))

abbrev pub Place : Type 0
Place = Text × Text

-- `Route(...)` with the mapped label.
unfoldable pub built_route : Dict Text Json → Protocol → Route
unfolding row_to_next_hops as_int cell_text
built_route row proto = record {
  prefix = cell_text (codes "Network") row;
  protocol = proto;
  next_hops = row_to_next_hops row;
  admin_distance = as_int (look (codes "Admin_Distance") row);
  metric = as_int (look (codes "Metric") row);
  as_path = none;
  local_pref = none;
  med = none;
  communities = none;
}

-- pydantic refuses the label "eigrp".
unfoldable pub row_route : Dict Text Json → Label → Result Route
unfolding built_route
row_route row eigrp = raise validation_error
row_route row (known proto) = ok (built_route row proto)

-- `(node, vrf)`
unfoldable pub row_place : Dict Text Json → Place
unfolding cell_text row_vrf
row_place row = (cell_text (codes "Node") row, row_vrf row)

-- `not node or not prefix`
unfoldable pub is_unplaced : Dict Text Json → Bool
unfolding cell_text
is_unplaced row =
    is_empty (cell_text (codes "Node") row) || is_empty (cell_text (codes "Network") row)

-- `str(row.get("Protocol") or "")`
unfoldable pub row_label : Dict Text Json → Text
row_label row = str_or_empty (look (codes "Protocol") row)

-- `_row_to_route`
unfoldable pub row_to_route : Dict Text Json → Result (Place × Option Route)
unfolding row_place is_unplaced map_batfish_protocol row_route
row_to_route row = if is_unplaced row then ok (row_place row, none) else do
  proto ← map_batfish_protocol (row_label row)
  elim proto [
    | none ↦ ok (row_place row, none)
    | some p ↦ do r ← row_route row p; ok (row_place row, some r)
  ]

abbrev pub Fibs : Type 0
Fibs = Dict Place (List Route)

-- The loop over `route_rows`.
unfoldable pub route_loop : Fibs → List (Dict Text Json) → Result Fibs
unfolding row_to_route add_to
route_loop fibs [] = ok fibs
route_loop fibs (row ∷ rows) = do
  parsed ← row_to_route row
  route_loop (elim parsed.1 [ none ↦ fibs | some route ↦ add_to parsed.0 route fibs ]) rows

-- `bgpRib` rows whose status is a list or a text without BEST are passed over.
unfoldable pub is_best : Dict Text Json → Bool
is_best row = elim (look (codes "Status") row) [
  | array js ↦ any (λ s. starts_with (upper (str_of s)) (codes "BEST")) (items_of js)
  | text s ↦ has_infix (codes "BEST") (upper s)
  | _ ↦ true
]

abbrev pub Best : Type 0
Best = Dict (Place × Text) (Dict Text Json)

-- The first loop of `_merge_bgp_attrs`: a later row of a cell replaces an earlier one.
unfoldable pub best_rows : Best → List (Dict Text Json) → Best
best_rows best [] = best
best_rows best (row ∷ rows) =
    best_rows
      (if not (is_best row) || is_unplaced row
        then best
        else put (row_place row, cell_text (codes "Network") row) row best)
      rows

-- `br.get(a) if a in br else br.get(b)`
unfoldable pub first_present : Text → Text → Dict Text Json → Json
first_present a b br = if has_key a br then look a br else look b br

ints_in : List Json → List ℤ
ints_in [] = []
ints_in (j ∷ js) = let rest = ints_in js in elim (int_of j) [ none ↦ rest | some n ↦ n ∷ rest ]

-- `_parse_as_path`
unfoldable pub parse_as_path : Json → Option (List ℤ)
unfolding ints_in
parse_as_path (array js) = some (ints_in (items_of js))
parse_as_path (text s) = some (ints_of (split (strip s)))
parse_as_path _ = none

-- `_parse_communities`
unfoldable pub parse_communities : Json → Option (List Text)
parse_communities (array js) = some (map str_of (items_of js))
parse_communities (text s) = some (filter (λ w. not (is_empty w)) (map strip (split s)))
parse_communities _ = none

-- `r.model_copy(update={...})`
unfoldable pub with_attrs : Dict Text Json → Route → Route
unfolding first_present parse_as_path parse_communities as_int
with_attrs br r = record r {
  as_path = parse_as_path (first_present (codes "AS_Path") (codes "As_Path") br);
  local_pref = as_int (first_present (codes "Local_Pref") (codes "LocalPref") br);
  med = as_int (first_present (codes "Metric") (codes "Med") br);
  communities = parse_communities (look (codes "Communities") br);
}

abbrev pub with_best : Route → Option (Dict Text Json) → Route
with_best r none = r
with_best r (some br) = with_attrs br r

-- What the second loop of `_merge_bgp_attrs` does to one route.
unfoldable pub attach : Best → Place → Route → Route
attach best place r =
    if not (r.protocol == bgp) then r else with_best r (get (place, r.prefix) best)

-- `_merge_bgp_attrs`
unfoldable pub merge_bgp_attrs : Fibs → List (Dict Text Json) → Fibs
unfolding attach best_rows
merge_bgp_attrs fibs bgp_rows =
    let best = best_rows [] bgp_rows in
    map (λ (entry : Place × List Route). (entry.0, map (attach best entry.0) entry.1)) fibs

-- The last loop of `transform_batfish_rows`, on one item.
unfoldable pub fib_of : Place × List Route → NodeFib
fib_of entry =
    canonicalize_node_fib
      (record { node = entry.0.0; vrf = entry.0.1; source = batfish; routes = entry.1 }) false none

abbrev pub place_of_item : Place × List Route → Place
place_of_item entry = entry.0

-- `if bgp_rows: _merge_bgp_attrs(fibs, bgp_rows)`
unfoldable pub merge_if_any : Fibs → Option (List (Dict Text Json)) → Fibs
unfolding merge_bgp_attrs
merge_if_any fibs none = fibs
merge_if_any fibs (some rows) = if is_empty rows then fibs else merge_bgp_attrs fibs rows

-- Items of a dictionary are sorted by their keys, which differ.
unfoldable pub transform_batfish_rows :
    List (Dict Text Json) → Option (List (Dict Text Json)) → Result (List NodeFib)
unfolding route_loop merge_if_any fib_of
transform_batfish_rows route_rows bgp_rows = do
  fibs ← route_loop [] route_rows
  ok (map fib_of (sort place_of_item (merge_if_any fibs bgp_rows)))
