-- ===== src/Convert/Flatten.antt =====
-- harness/adapters/ceos.py: `_flatten_eos_bgp`, from EOS's table of BGP paths to the shape that
-- `merge_bgp_attributes` reads, and `_total_route_count`.
use hammerhead_bench.Prelude.{
  Bool, List, Text, [], codes, false, if◌then◌else◌, is_empty, length, list_eq, none, some, true, ℕ,
  ℕ_eq, ◌+◌, ◌∷◌,
}
use hammerhead_bench.Prelude.Dict.{Dict, get}
use hammerhead_bench.Json.{
  Json, array, array_of, as_dict, boolean, look, null, object, object_of, text,
}
use hammerhead_bench.Json.Words.{str_or_empty}
use hammerhead_bench.Json.Fields.{Result, iterate_key, need_dict, ok, ◌>>=◌}

-- `d.get(k, {}).items()`: what is there and is no dictionary has no items.
unfoldable pub items_in : Text → Dict Text Json → Result (Dict Text Json)
items_in k d = elim (get k d) [ none ↦ ok [] | some j ↦ need_dict j ]

-- `p.get("reasonNotBestpath") in (None, "")`
unfoldable pub is_bestpath : Dict Text Json → Bool
is_bestpath p = elim (look (codes "reasonNotBestpath") p) [
  | null ↦ true
  | text s ↦ is_empty s
  | _ ↦ false
]

unfoldable pub as_path_text : Dict Text Json → Text
as_path_text p = elim (as_dict (look (codes "asPathEntry") p)) [
  | none ↦ []
  | some as_entry ↦ str_or_empty (look (codes "asPath") as_entry)
]

unfoldable pub flat_path : Dict Text Json → Json
unfolding is_bestpath as_path_text
flat_path p = object (
    object_of (
      (codes "bestpath", boolean (is_bestpath p))
      ∷ (codes "path", text (as_path_text p))
      ∷ (codes "locPrf", look (codes "localPreference") p)
      ∷ (codes "metric", look (codes "med") p)
      ∷ []))

-- The loop over the paths of a prefix; what is no dictionary is passed over.
unfoldable pub flat_paths : List Json → List Json
unfolding flat_path
flat_paths [] = []
flat_paths (j ∷ js) =
    let rest = flat_paths js in elim (as_dict j) [ none ↦ rest | some p ↦ flat_path p ∷ rest ]

-- The loop over the prefixes of a VRF; one without paths is left out.
unfoldable pub flat_routes : Dict Text Json → Result (Dict Text Json)
unfolding flat_paths
flat_routes [] = ok []
flat_routes ((prefix, j) ∷ entries) =
    let rest = flat_routes entries in
    elim (as_dict j) [
      | none ↦ rest
      | some entry ↦ do
        raw ← iterate_key (codes "bgpRoutePaths") entry
        routes ← rest
        ok (
            if is_empty (flat_paths raw)
            then routes
            else (prefix, array (array_of (flat_paths raw))) ∷ routes)
    ]

-- The loop over the VRFs.
unfoldable pub flat_vrfs : Dict Text Json → Result (Dict Text Json)
unfolding flat_routes items_in
flat_vrfs [] = ok []
flat_vrfs ((vrf_name, j) ∷ vrfs) =
    let rest = flat_vrfs vrfs in
    elim (as_dict j) [
      | none ↦ rest
      | some body ↦ do
        entries ← items_in (codes "bgpRouteEntries") body
        routes ← flat_routes entries
        out ← rest
        ok (
            (
              vrf_name,
              object (
                  object_of (
                    (codes "routes", object (object_of routes))
                    ∷ (codes "vrfName", text vrf_name)
                    ∷ [])),
            )
            ∷ out)
    ]

-- `_flatten_eos_bgp`
unfoldable pub flatten_eos_bgp : Json → Result (Dict Text Json)
unfolding flat_vrfs items_in
flatten_eos_bgp bgp_json = elim (as_dict bgp_json) [
  | none ↦ ok []
  | some d ↦ do vrfs ← items_in (codes "vrfs") d; flat_vrfs vrfs
]

-- The routes of the VRFs that have a dictionary of them.
unfoldable pub count_vrfs : Dict Text Json → ℕ
count_vrfs [] = 0
count_vrfs ((vrf_name, j) ∷ vrfs) =
    let rest = count_vrfs vrfs in
    elim (as_dict j) [
      | none ↦ rest
      | some body ↦ elim (as_dict (look (codes "routes") body)) [
        | none ↦ rest
        | some routes ↦ length routes + rest
      ]
    ]

-- `_total_route_count` of EOS
unfoldable pub eos_route_count : Json → Result ℕ
unfolding items_in count_vrfs
eos_route_count data' = elim (as_dict data') [
  | none ↦ ok 0
  | some d ↦ do vrfs ← items_in (codes "vrfs") d; ok (count_vrfs vrfs)
]
