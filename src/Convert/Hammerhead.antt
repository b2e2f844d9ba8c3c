-- ===== src/Convert/Hammerhead.antt =====
-- harness/tools/hammerhead_transform.py: from `hammerhead rib --format json` to a canonical FIB.
pub mod Laws
pub mod Errors
use hammerhead_bench.Prelude.{
  List, Option, Text, [], codes, contains, if◌then◌else◌, is_empty, list_eq, none, some, strip,
  ℕ_eq, ℤ, ◌&&◌, ◌++◌, ◌==◌, ◌∷◌,
}
use hammerhead_bench.Prelude.Dict.{Dict, get}
use hammerhead_bench.Json.{
  Json, array, as_dict, as_list, is_null, items_of, look, null, text, truthy,
}
use hammerhead_bench.Json.Words.{int_of, ints_of, split, str_or_empty}
use hammerhead_bench.Json.Fields.{Result, Validation, ok, raise, value_error, ◌>>=◌}
use hammerhead_bench.Fib.{
  NextHop, NodeFib, Protocol, Route, bgp, connected, hammerhead, isis, ospf, rip, static,
}
use hammerhead_bench.Fib.Canon.{canonicalize_vrf}

-- `_HAMMERHEAD_PROTOCOL_MAP`
unfoldable pub hammerhead_protocol_map : Dict Text Protocol
hammerhead_protocol_map =
    (codes "C", connected)
    ∷ (codes "S", static)
    ∷ (codes "B", bgp)
    ∷ (codes "O", ospf)
    ∷ (codes "O IA", ospf)
    ∷ (codes "O E1", ospf)
    ∷ (codes "O E2", ospf)
    ∷ (codes "i L1", isis)
    ∷ (codes "i L2", isis)
    ∷ (codes "R", rip)
    ∷ []

-- `_HAMMERHEAD_PROTOCOL_SKIP`
unfoldable pub hammerhead_protocol_skip : List Text
hammerhead_protocol_skip =
    codes "L"
    ∷ codes "T"
    ∷ codes "SR"
    ∷ codes "SR-TE"
    ∷ codes "SR6"
    ∷ codes "R6"
    ∷ codes "D"
    ∷ codes "D EX"
    ∷ codes "D6"
    ∷ codes "D6 EX"
    ∷ codes "Bd"
    ∷ codes "M"
    ∷ []

-- `_map_protocol`: `none` for a code that is skipped.
unfoldable pub map_protocol : Text → Result (Option Protocol)
unfolding hammerhead_protocol_map hammerhead_protocol_skip
map_protocol raw =
    if contains raw hammerhead_protocol_skip
    then ok none
    else elim (get raw hammerhead_protocol_map) [
      | none ↦ raise value_error
      | some mapped ↦ ok (some mapped)
    ]

-- The discard marker "0.0.0.0" reads as `None`.
unfoldable pub discard_marker : Json → Json
discard_marker ip = elim ip [
  | text s ↦ if strip s == codes "0.0.0.0" then null else text s
  | other ↦ other
]

-- `x if x else None`
abbrev pub or_null : Json → Json
or_null j = if truthy j then j else null

-- `_as_int`
unfoldable pub as_int : Json → Option ℤ
as_int j = if is_null j then none else int_of j

ints_in : List Json → List ℤ
ints_in [] = []
ints_in (j ∷ js) = let rest = ints_in js in elim (int_of j) [ none ↦ rest | some n ↦ n ∷ rest ]

-- `_as_int_list`
unfoldable pub as_int_list : Json → Option (List ℤ)
unfolding ints_in
as_int_list (array js) = some (ints_in (items_of js))
as_int_list (text s) = some (ints_of (split (strip s)))
as_int_list _ = none

-- The strings of a list that are not blank, stripped.
texts_in : List Json → List Text
texts_in [] = []
texts_in (j ∷ js) =
    let rest = texts_in js in
    elim j [ text s ↦ if is_empty (strip s) then rest else strip s ∷ rest | _ ↦ rest ]

texts_of : Json → List Text
unfolding texts_in
texts_of j = elim (as_list j) [ none ↦ [] | some js ↦ texts_in js ]

-- `_communities`
unfoldable pub communities_of : Dict Text Json → Option (List Text)
unfolding texts_of
communities_of bgp_attrs =
    let out =
      texts_of (look (codes "communities") bgp_attrs)
      ++ texts_of (look (codes "ext_communities") bgp_attrs) in
    if is_empty out then none else some out

-- `f(bgp) if bgp else None`, where an empty dictionary counts as absent.
unfoldable pub when_bgp {ℓ} : {A : Type ℓ} → Json → (Dict Text Json → Option A) → Option A
when_bgp j f = elim (as_dict j) [ none ↦ none | some d ↦ if is_empty d then none else f d ]

module _ (v : Validation) where
  -- `_next_hops`
  unfoldable pub next_hops : Dict Text Json → Result (List NextHop)
  unfolding discard_marker
  next_hops entry =
      let ip = discard_marker (look (codes "next_hop_ip") entry) in
      let iface = look (codes "next_hop_interface") entry in
      if is_null ip && is_null iface then ok [] else do
        hop_ip ← v.text_field (or_null ip)
        hop_iface ← v.text_field (or_null iface)
        ok (record { ip = hop_ip; interface = hop_iface } ∷ [])

  -- `_parse_entry`: `none` for an entry that is skipped.
  unfoldable pub parse_entry : Dict Text Json → Result (Option Route)
  unfolding map_protocol next_hops when_bgp as_int as_int_list communities_of
  parse_entry entry =
      let prefix = strip (str_or_empty (look (codes "prefix") entry)) in
      let raw_proto = strip (str_or_empty (look (codes "protocol") entry)) in
      let bgp_attrs = look (codes "bgp") entry in
      if is_empty prefix then ok none else do
        mapped ← map_protocol raw_proto
        elim mapped [
          | none ↦ ok none
          | some protocol ↦ do
            nhs ← next_hops entry
            ok (
                some (record {
                  prefix = prefix;
                  protocol = protocol;
                  next_hops = nhs;
                  admin_distance = as_int (look (codes "admin_distance") entry);
                  metric = as_int (look (codes "metric") entry);
                  as_path = when_bgp bgp_attrs (λ d. as_int_list (look (codes "as_path") d));
                  local_pref = when_bgp bgp_attrs (λ d. as_int (look (codes "local_preference") d));
                  med = when_bgp bgp_attrs (λ d. as_int (look (codes "med") d));
                  communities = when_bgp bgp_attrs communities_of;
                }))
        ]

  -- The loop over `entries`; what is not a dictionary is passed over.
  unfoldable pub parse_entries : List Json → Result (List Route)
  unfolding parse_entry
  parse_entries [] = ok []
  parse_entries (e ∷ es) =
      let rest = parse_entries es in
      elim (as_dict e) [
        | none ↦ rest
        | some entry ↦ do
          parsed ← parse_entry entry
          routes ← rest
          ok (elim parsed [ none ↦ routes | some r ↦ r ∷ routes ])
      ]

  unfoldable pub transform_rib_view : Dict Text Json → Text → Result NodeFib
  unfolding parse_entries
  transform_rib_view view vrf =
      let hostname = strip (str_or_empty (look (codes "hostname") view)) in
      if is_empty hostname then raise value_error else do
        routes ← elim (as_list (look (codes "entries") view)) [
          | none ↦ ok []
          | some raw_entries ↦ parse_entries raw_entries
        ]
        ok (record {
          node = hostname;
          vrf = canonicalize_vrf vrf;
          source = hammerhead;
          routes = routes;
        })
