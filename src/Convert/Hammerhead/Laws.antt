-- ===== src/Convert/Hammerhead/Laws.antt =====
-- What the routes of a converted view are: one for each entry in scope, in their order.
use hammerhead_bench.Prelude.{
  Bool, Bool-cases, List, Option, Text, [], arith, codes, contains, false, inl, inr, is_empty,
  list_eq, none, not, refl, some, strip, true, ℕ_eq, ◌&&◌, ◌++◌, ◌∷◌, ◌≡◌,
}
use hammerhead_bench.Prelude.Dict.{Dict, get}
use hammerhead_bench.Json.{Json, as_dict, as_list, look}
use hammerhead_bench.Json.Words.{str_or_empty}
use hammerhead_bench.Json.Fields.{Result, Validation, ok, raise, ◌>>=◌}
use hammerhead_bench.Fib.{NextHop, NodeFib, Protocol, Route, hammerhead}
use hammerhead_bench.Fib.Canon.{canonicalize_vrf}
use hammerhead_bench.Convert.Scope.{if_in_scope, map-kept, produced, produced_of, row_of_route}
use hammerhead_bench.Convert.Hammerhead.{
  hammerhead_protocol_map, hammerhead_protocol_skip, map_protocol, next_hops, parse_entries,
  parse_entry, transform_rib_view,
}

-- The stripped text of a field.
abbrev pub field_text : Dict Text Json → Text → Text
field_text entry k = strip (str_or_empty (look k entry))

-- An entry is in scope if it has a prefix and its code is not on the skip list.
abbrev pub in_scope : Dict Text Json → Bool
in_scope entry =
    not (is_empty (field_text entry (codes "prefix")))
    && not (contains (field_text entry (codes "protocol")) hammerhead_protocol_skip)

-- The prefix of an entry in scope with the protocol of its code.
abbrev pub expected_of : Dict Text Json → List (Text × Option Protocol)
expected_of entry =
    if_in_scope (in_scope entry) (field_text entry (codes "prefix"))
      (get (field_text entry (codes "protocol")) hammerhead_protocol_map)

unfoldable pub expected : List Json → List (Text × Option Protocol)
expected [] = []
expected (e ∷ es) =
    let rest = expected es in
    elim (as_dict e) [ none ↦ rest | some entry ↦ expected_of entry ++ rest ]

entry_produces :
    (v : Validation) (entry : Dict Text Json) (parsed : Option Route)
    → parse_entry v entry ≡ ok parsed
    → expected_of entry ≡ produced_of parsed
unfolding parse_entry map_protocol
entry_produces v entry parsed h =
    go (is_empty prefix) refl (contains code hammerhead_protocol_skip) refl
      (get code hammerhead_protocol_map) refl (next_hops v entry) refl
  where
    prefix : Text
    prefix = field_text entry (codes "prefix")

    code : Text
    code = field_text entry (codes "protocol")

    go :
        (blank : Bool)
        → is_empty prefix ≡ blank
        → (skipped : Bool) → contains code hammerhead_protocol_skip ≡ skipped
        → (mapped : Option Protocol) → get code hammerhead_protocol_map ≡ mapped
        → (nhs : Result (List NextHop)) → next_hops v entry ≡ nhs
        → expected_of entry ≡ produced_of parsed
    go true b s p m q n o = ground arith
    go false b true p m q n o = ground arith
    go false b false p none q n o = ground arith
    go false b false p (some m) q (ok nhs) o = ground arith
    go false b false p (some m) q (raise e) o = ground arith

pub parse_entries-expected :
    (v : Validation) (es : List Json) (rs : List Route)
    → parse_entries v es ≡ ok rs
    → produced rs ≡ expected es
unfolding parse_entries expected
parse_entries-expected v [] rs h = ground arith
parse_entries-expected v (e ∷ es) rs h =
    go (as_dict e) refl (parse_entries v es) refl (parse_entries-expected v es)
  where
    go :
        (d : Option (Dict Text Json))
        → as_dict e ≡ d
        → (rest : Result (List Route)) → parse_entries v es ≡ rest
        → ((rs' : List Route) → parse_entries v es ≡ ok rs' → produced rs' ≡ expected es)
        → produced rs ≡ expected (e ∷ es)
    go none q rest p ih = ground (arith, ih rs)
    go (some entry) q rest p ih = step (parse_entry v entry) refl rest p
      where
        step :
            (o : Result (Option Route))
            → parse_entry v entry ≡ o
            → (rest' : Result (List Route)) → parse_entries v es ≡ rest'
            → produced rs ≡ expected (e ∷ es)
        step (raise x) o (ok rs') p' = ground arith
        step (raise x) o (raise y) p' = ground arith
        step (ok parsed) o (raise y) p' = ground arith
        step (ok parsed) o (ok rs') p' =
            ground
              (arith, ih rs' p', map-kept row_of_route parsed rs', entry_produces v entry parsed o)

-- The entries of a view; a view without a list has none.
abbrev pub entries_of : Dict Text Json → List Json
entries_of view = elim (as_list (look (codes "entries") view)) [ none ↦ [] | some es ↦ es ]

pub transform_entries :
    (v : Validation) (view : Dict Text Json) (vrf : Text)
    → is_empty (field_text view (codes "hostname")) ≡ false
    → transform_rib_view v view vrf ≡ (
        parse_entries v (entries_of view) >>= λ routes. ok (record {
          node = field_text view (codes "hostname");
          vrf = canonicalize_vrf vrf;
          source = hammerhead;
          routes = routes;
        }))
unfolding transform_rib_view parse_entries
transform_entries v view vrf h = go (as_list (look (codes "entries") view)) refl
  where
    go :
        (es : Option (List Json))
        → as_list (look (codes "entries") view) ≡ es
        → transform_rib_view v view vrf ≡ (
            parse_entries v (elim es [ none ↦ [] | some l ↦ l ]) >>= λ routes. ok (record {
              node = field_text view (codes "hostname");
              vrf = canonicalize_vrf vrf;
              source = hammerhead;
              routes = routes;
            }))
    go none e = ground arith
    go (some l) e = ground arith

-- A FIB that the conversion returns is that of the named host, with exactly one route for each
-- entry in scope, in the order of the entries: its prefix is the entry's and its protocol is the
-- one that the entry's code maps to.
pub transform_rib_view-expected :
    (v : Validation) (view : Dict Text Json) (vrf : Text) (fib : NodeFib)
    → transform_rib_view v view vrf ≡ ok fib
    → (fib.node ≡ field_text view (codes "hostname"))
      × (fib.vrf ≡ canonicalize_vrf vrf)
      × (produced fib.routes ≡ expected (entries_of view))
transform_rib_view-expected v view vrf fib h =
    elim (Bool-cases (is_empty (field_text view (codes "hostname")))) [
      | inl blank ↦ absurd (nameless blank)
      | inr named ↦ go named (parse_entries v (entries_of view)) refl
    ]
  where
    nameless : is_empty (field_text view (codes "hostname")) ≡ true → ⊥
    nameless blank = unfold transform_rib_view in ground arith

    go :
        is_empty (field_text view (codes "hostname")) ≡ false
        → (o : Result (List Route)) → parse_entries v (entries_of view) ≡ o
        → (fib.node ≡ field_text view (codes "hostname"))
          × (fib.vrf ≡ canonicalize_vrf vrf)
          × (produced fib.routes ≡ expected (entries_of view))
    go named (ok rs) e =
        ground (
          arith,
          transform_entries v view vrf named,
          parse_entries-expected v (entries_of view) rs e,
        )
    go named (raise x) e = ground (arith, transform_entries v view vrf named)
