-- ===== src/Topologies.antt =====
-- harness/topology.py and harness/cli.py: the topologies, which of them a bench run takes, and which
-- can run with FRR as the only vendor. What is on disk and what `topo.py` says stand in a record.
pub mod Laws
use hammerhead_bench.Prelude.{
  Bool, List, Option, Text, [], codes, contains, false, if◌then◌else◌, is_empty, length, list_eq,
  ltb, none, not, some, true, ℕ, ℕ_eq, ◌&&◌, ◌>>=◌, ◌||◌, ◌∷◌,
}
use hammerhead_bench.Prelude.Order.{text_order}
use hammerhead_bench.Prelude.Sort.{sort}

-- `Node`, with what its adapter says: its kind, if it has one, and its config templates.
pub record Node : Type 0 where
  pub name : Text
  pub kind : Option Text
  pub templates : List Text

-- `TopologySpec`, by whether it has a renderer of its own.
pub record TopologySpec : Type 0 where
  pub name : Text
  pub nodes : List Node
  pub external_renderer : Bool

-- `_FRR_ONLY_TRUTH_ADAPTER_KINDS` and `FRR_ONLY_TRUTH_MAX_NODES`
abbrev pub frr_only_truth_adapter_kinds : List Text
frr_only_truth_adapter_kinds = codes "frr" ∷ codes "cumulus_vx" ∷ []

abbrev pub frr_only_truth_max_nodes : ℕ
frr_only_truth_max_nodes = 20

unfoldable pub has_frr_kind : Node → Bool
has_frr_kind n = elim n.kind [
  | none ↦ false
  | some kind ↦ contains kind frr_only_truth_adapter_kinds
]

-- The loop over the nodes.
unfoldable pub all_frr : List Node → Bool
unfolding has_frr_kind
all_frr [] = true
all_frr (n ∷ nodes) = let rest = all_frr nodes in if not (has_frr_kind n) then false else rest

unfoldable pub frr_only_truth_eligible : TopologySpec → Bool
unfolding all_frr
frr_only_truth_eligible spec =
    if spec.external_renderer
    then false
    else if ltb frr_only_truth_max_nodes (length spec.nodes)
    then false
    else all_frr spec.nodes

-- A path under `topologies/`: its name, whether it is a directory with a `topo.py`, and what
-- `load_spec` returns for it; `none` is an exception.
pub record Entry : Type 0 where
  pub name : Text
  pub is_dir : Bool
  pub has_topo : Bool
  pub spec : Option TopologySpec

-- The arguments of `_select_topologies`.
pub record Selection : Type 0 where
  pub only : List Text
  pub skip : List Text
  pub with_acl_semantics : Bool
  pub max_nodes : Option ℕ

-- `ACL_SEMANTICS_TOPOLOGIES`
abbrev pub acl_semantics_topologies : List Text
acl_semantics_topologies = codes "acl-semantics-3node" ∷ []

-- The tests before the spec is loaded, then those on the spec.
unfoldable pub is_named : Selection → Entry → Bool
is_named s p =
    if not p.is_dir || not p.has_topo
    then false
    else if not (is_empty s.only) && not (contains p.name s.only)
    then false
    else if contains p.name s.skip
    then false
    else if contains p.name acl_semantics_topologies && not s.with_acl_semantics
    then false
    else true

unfoldable pub is_small : Option ℕ → ℕ → Bool
is_small none n = true
is_small (some max_nodes) n = not (ltb max_nodes n)

unfoldable pub is_taken : Selection → Text → TopologySpec → Bool
unfolding is_small
is_taken s name spec =
    if spec.external_renderer && not (contains name s.only)
    then false
    else is_small s.max_nodes (length spec.nodes)

-- The loop over the sorted paths.
unfoldable pub select_from : Selection → List Entry → Option (List TopologySpec)
unfolding is_named is_taken
select_from s [] = some []
select_from s (p ∷ paths) =
    let rest = select_from s paths in
    if not (is_named s p) then rest else do
      spec ← p.spec
      specs ← rest
      some (if is_taken s p.name spec then spec ∷ specs else specs)

-- `path`, the key of `sorted`: all paths are in one directory.
abbrev pub path_of : Entry → Text
path_of p = p.name

unfoldable pub select_topologies : Selection → List Entry → Option (List TopologySpec)
unfolding select_from
select_topologies s entries = select_from s (sort path_of entries)
