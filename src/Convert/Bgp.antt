-- ===== src/Convert/Bgp.antt =====
-- harness/extract/fib.py: BGP attributes from `show ip bgp vrf all json`.
pub mod Blocks
pub mod Complete
pub mod Laws
pub mod Merge
use hammerhead_bench.Prelude.{
  List, Option, Text, [], codes, if◌then◌else◌, list_eq, map, none, pair_eq, some, strip, ℕ_eq, ℤ,
  ◌==◌, ◌∷◌,
}
use hammerhead_bench.Prelude.Dict.{Dict, get, has_key, put}
use hammerhead_bench.Json.{Json, as_dict, as_list, is_json_true, look, text}
use hammerhead_bench.Json.Words.{ints_of, split}
use hammerhead_bench.Json.Fields.{Result, attribute_error, need_dict, ok, raise, ◌>>=◌}
use hammerhead_bench.Fib.{NodeFib, Protocol_eq, Route, bgp}
use hammerhead_bench.Fib.Canon.{canonicalize_vrf}

-- `d.get(k, default)`
unfoldable pub look_or : Text → Dict Text Json → Json → Json
look_or k d other = elim (get k d) [ none ↦ other | some j ↦ j ]

-- The nested shape: each value that is a dictionary with `routes` is a block.
nested_blocks : Dict Text Json → List (Json × Dict Text Json)
unfolding look_or
nested_blocks [] = []
nested_blocks ((k, j) ∷ d) =
    let rest = nested_blocks d in
    elim (as_dict j) [
      | none ↦ rest
      | some v ↦
          if has_key (codes "routes") v
          then (look_or (codes "vrfName") v (text k), v) ∷ rest
          else rest
    ]

-- `_walk_bgp_blocks`
unfoldable pub walk_bgp_blocks : Json → List (Json × Dict Text Json)
unfolding nested_blocks look_or
walk_bgp_blocks bgp_json = elim (as_dict bgp_json) [
  | none ↦ []
  | some d ↦
      if has_key (codes "routes") d
      then (look_or (codes "vrfName") d (text (codes "default")), d) ∷ []
      else nested_blocks d
]

-- The first path that is marked as the best one.
unfoldable pub first_best : List Json → Result (Option (Dict Text Json))
first_best [] = ok none
first_best (j ∷ js) =
    let rest = first_best js in
    do p ← need_dict j; (if is_json_true (look (codes "bestpath") p) then ok (some p) else rest)

abbrev pub Best : Type 0
Best = Dict (Text × Text) (Dict Text Json)

-- The prefixes of one block; what is not a list is passed over.
unfoldable pub best_of_block : Text → Dict Text Json → Best → Result Best
unfolding first_best
best_of_block vrf [] best = ok best
best_of_block vrf ((prefix, paths) ∷ rs) best = elim (as_list paths) [
  | none ↦ best_of_block vrf rs best
  | some ps ↦ do
    found ← first_best ps
    best_of_block vrf rs (elim found [ none ↦ best | some p ↦ put (vrf, prefix) p best ])
]

-- `canonicalize_vrf` of a name that must be text.
unfoldable pub vrf_of : Json → Result Text
vrf_of (text s) = ok (canonicalize_vrf s)
vrf_of _ = raise attribute_error

-- The best path of each VRF and prefix; a later block overrides an earlier one.
unfoldable pub best_paths : List (Json × Dict Text Json) → Best → Result Best
unfolding best_of_block vrf_of
best_paths [] best = ok best
best_paths ((name, block) ∷ bs) best = do
  vrf ← vrf_of name
  rs ← need_dict (look (codes "routes") block)
  next ← best_of_block vrf rs best
  best_paths bs next

-- `_parse_as_path`
unfoldable pub parse_as_path : Json → Option (List ℤ)
parse_as_path (text path) = some (ints_of (split (strip path)))
parse_as_path _ = none

-- The attributes that `model_copy` sets. It does not validate them, so two of them are the JSON
-- values themselves.
pub record BgpUpdate : Type 0 where
  pub as_path : Option (List ℤ)
  pub local_pref : Json
  pub med : Json

-- A route of the new FIB: the old one, with the update if there is one.
pub record Merged : Type 0 where
  pub route : Route
  pub update : Option BgpUpdate

unfoldable pub update_of : Dict Text Json → BgpUpdate
unfolding parse_as_path
update_of pi = record {
  as_path = parse_as_path (look (codes "path") pi);
  local_pref = look (codes "locPrf") pi;
  med = look (codes "metric") pi;
}

unfoldable pub merge_route : Best → Text → Route → Merged
unfolding update_of
merge_route best target_vrf r =
    if r.protocol == bgp
    then elim (get (target_vrf, r.prefix) best) [
      | none ↦ record { route = r; update = none }
      | some pi ↦ record { route = r; update = some (update_of pi) }
    ]
    else record { route = r; update = none }

-- `merge_bgp_attributes`: the routes of the new FIB; its other fields are those of the old one.
unfoldable pub merge_bgp_attributes : NodeFib → Json → Result (List Merged)
unfolding walk_bgp_blocks best_paths merge_route
merge_bgp_attributes fib bgp_json = do
  best ← best_paths (walk_bgp_blocks bgp_json) []
  ok (map (merge_route best (canonicalize_vrf fib.vrf)) fib.routes)
