-- ===== src/Topologies/Laws.antt =====
-- harness/cli.py: what `_select_topologies` takes.
use hammerhead_bench.Prelude.{
  All, All-imp, Bool, Bool-cases, List, Option, Option-cases, [], any, arith, contains, false,
  filter, filter-All, inl, inr, is_empty, is_some, length, list_eq, map, none, not, refl, some,
  true, ℕ, ℕ_eq, ◌&&◌, ◌||◌, ◌∙◌, ◌∷◌, ◌≡◌, ◌≤◌,
}
use hammerhead_bench.Prelude.Order.{text_order}
use hammerhead_bench.Prelude.Sort.{IsSorted, any-sort, filter-IsSorted, sort, sort-IsSorted}
use hammerhead_bench.Topologies.{
  Entry, Selection, TopologySpec, acl_semantics_topologies, is_named, is_small, is_taken, path_of,
  select_from, select_topologies,
}

abbrev pub is_chosen : Selection → Entry → Bool
is_chosen s p = is_named s p && elim p.spec [ none ↦ false | some spec ↦ is_taken s p.name spec ]

-- The entry passes the tests on its name and does not load.
abbrev pub is_faulty : Selection → Entry → Bool
is_faulty s p = is_named s p && not (is_some p.spec)

-- What the options allow.
pub record IsAllowed (s : Selection) (p : Entry) (spec : TopologySpec) : Type 0 where
  pub loaded : p.spec ≡ some spec
  pub found : (p.is_dir && p.has_topo) ≡ true
  pub asked : (is_empty s.only || contains p.name s.only) ≡ true
  pub kept : contains p.name s.skip ≡ false
  pub acl : (not (contains p.name acl_semantics_topologies) || s.with_acl_semantics) ≡ true
  pub rendered : (not spec.external_renderer || contains p.name s.only) ≡ true
  pub small : (m : ℕ) → s.max_nodes ≡ some m → length spec.nodes ≤ m

is_small-le : (o : Option ℕ) (n m : ℕ) → is_small o n ≡ true → o ≡ some m → n ≤ m
unfolding is_small
is_small-le none n m h e = cc
is_small-le (some k) n m h e = ground arith

chosen-IsAllowed :
    (s : Selection) (p : Entry) → is_chosen s p ≡ true → (spec : TopologySpec) × IsAllowed s p spec
unfolding is_named is_taken
chosen-IsAllowed s p h = elim (Option-cases p.spec) [
  | inl e ↦ absurd (ground arith)
  | inr (spec, e) ↦ (
    spec,
    record {
      loaded = e;
      found = ground arith;
      asked = ground arith;
      kept = ground arith;
      acl = ground arith;
      rendered = ground arith;
      small = λ m q. is_small-le s.max_nodes (length spec.nodes) m (ground arith) q;
    },
  )
]

-- The directories that are taken, in the order of their paths.
abbrev pub chosen : Selection → List Entry → List Entry
chosen s entries = filter (is_chosen s) (sort path_of entries)

le-is_small : (o : Option ℕ) (n : ℕ) → ((m : ℕ) → o ≡ some m → n ≤ m) → is_small o n ≡ true
unfolding is_small
le-is_small none n h = refl
le-is_small (some k) n h = ground (arith, h k refl)

allowed-chosen :
    (s : Selection) (p : Entry) (spec : TopologySpec) → IsAllowed s p spec → is_chosen s p ≡ true
unfolding is_named is_taken
allowed-chosen s p spec a = ground (
  arith,
  a.loaded,
  a.found,
  a.asked,
  a.kept,
  a.acl,
  a.rendered,
  le-is_small s.max_nodes (length spec.nodes) a.small,
)

pub record IsSelection (s : Selection) (entries : List Entry) (specs : List TopologySpec)
    : Type 0 where
  pub loaded : map (λ (p : Entry). p.spec) (chosen s entries) ≡ map some specs
  pub sorted : IsSorted path_of (chosen s entries)
  pub complete : (p : Entry) (spec : TopologySpec) → IsAllowed s p spec → is_chosen s p ≡ true
  pub allowed : All (λ p. (spec : TopologySpec) × IsAllowed s p spec) (chosen s entries)

-- What the loop returns: the specs of the entries that are taken.
Selects : Selection → List Entry → Type 0
Selects s paths =
    (specs : List TopologySpec) × (select_from s paths ≡ some specs)
    × (map (λ (p : Entry). p.spec) (filter (is_chosen s) paths) ≡ map some specs)

select_from-cons :
    (s : Selection) (p : Entry) (paths : List Entry)
    → is_faulty s p ≡ false
    → Selects s paths
    → Selects s (p ∷ paths)
unfolding select_from filter Selects
select_from-cons s p paths h (specs, e, q) = elim (Bool-cases (is_named s p)) [
  | inr skipped ↦ (specs, ground (arith), ground (arith))
  | inl named ↦ elim (Option-cases p.spec) [
    | inl missing ↦ absurd (ground arith)
    | inr (spec, found) ↦ elim (Bool-cases (is_taken s p.name spec)) [
      | inl taken ↦ (spec ∷ specs, ground arith, ground arith)
      | inr left ↦ (specs, ground arith, ground arith)
    ]
  ]
]

select_from-Selects :
    (s : Selection) (paths : List Entry) → any (is_faulty s) paths ≡ false → Selects s paths
unfolding select_from filter any Selects
select_from-Selects s [] h = ([], refl, refl)
select_from-Selects s (p ∷ paths) h =
    select_from-cons s p paths (ground arith) (select_from-Selects s paths (ground arith))

-- If every directory that passes the tests on its name loads, a bench run takes, in the order of
-- their paths, the specs of exactly the directories with a `topo.py` that are asked for (if any are
-- named), not skipped and not behind the switch for ACL semantics, have no renderer of their own
-- unless they are named, and are not larger than the largest size, if one is set.
pub select_topologies-IsSelection :
    (s : Selection) (entries : List Entry)
    → any (is_faulty s) entries ≡ false
    → (specs : List TopologySpec) × (select_topologies s entries ≡ some specs)
      × IsSelection s entries specs
unfolding select_topologies Selects
select_topologies-IsSelection s entries h =
    let (specs, e, loaded) =
      select_from-Selects s (sort path_of entries) (any-sort path_of (is_faulty s) entries ∙ h) in
    (
      specs,
      e,
      record {
        loaded = loaded;
        sorted =
            filter-IsSorted path_of (is_chosen s) (sort path_of entries)
              (sort-IsSorted path_of entries);
        complete = allowed-chosen s;
        allowed =
            All-imp (λ p. is_chosen s p ≡ true) (λ p. (spec : TopologySpec) × IsAllowed s p spec)
              (chosen s entries) (chosen-IsAllowed s)
              (filter-All (is_chosen s) (sort path_of entries));
      },
    )

-- A directory that passes the tests on its name and does not load ends the selection.
select_from_faulty :
    (s : Selection) (paths : List Entry)
    → any (is_faulty s) paths ≡ true
    → select_from s paths ≡ none
unfolding select_from any
select_from_faulty s [] h = cc
select_from_faulty s (p ∷ paths) h = elim (Option-cases p.spec) [
  | inl e ↦ elim (Bool-cases (is_named s p)) [
    | inl named ↦ ground arith
    | inr skipped ↦ ground (arith, select_from_faulty s paths)
  ]
  | inr (spec, e) ↦ ground (arith, select_from_faulty s paths (ground arith))
]
