-- ===== src/Convert/Hammerhead/Errors.antt =====
-- When the conversion of a view raises, and that unknown protocol codes are never dropped.
use hammerhead_bench.Prelude.{
  Bool, Bool-cases, List, Option, Text, [], all, arith, codes, contains, false, if◌then◌else◌, inl,
  inr, is_empty, is_some, list_eq, none, not, refl, some, true, ℕ_eq, ◌&&◌, ◌∷◌, ◌≡◌,
}
use hammerhead_bench.Prelude.Dict.{Dict, get}
use hammerhead_bench.Json.{Json, as_dict}
use hammerhead_bench.Json.Fields.{Result, Validation, is_ok, ok, raise}
use hammerhead_bench.Fib.{NextHop, Protocol, Route}
use hammerhead_bench.Convert.Hammerhead.{
  hammerhead_protocol_map, hammerhead_protocol_skip, map_protocol, next_hops, parse_entries,
  parse_entry, transform_rib_view,
}
use hammerhead_bench.Convert.Hammerhead.Laws.{entries_of, field_text, in_scope, transform_entries}

-- An entry in scope has a known code, and its next hop passes validation.
abbrev pub entry_fits : Validation → Dict Text Json → Bool
entry_fits v entry =
    if in_scope entry
    then is_some (get (field_text entry (codes "protocol")) hammerhead_protocol_map)
      && is_ok (next_hops v entry)
    else true

abbrev pub item_fits : Validation → Json → Bool
item_fits v e = elim (as_dict e) [ none ↦ true | some entry ↦ entry_fits v entry ]

parse_entry-fits :
    (v : Validation) (entry : Dict Text Json) → is_ok (parse_entry v entry) ≡ entry_fits v entry
unfolding parse_entry map_protocol
parse_entry-fits v entry =
    go (is_empty (field_text entry (codes "prefix"))) refl
      (contains (field_text entry (codes "protocol")) hammerhead_protocol_skip) refl
      (get (field_text entry (codes "protocol")) hammerhead_protocol_map) refl (next_hops v entry)
      refl
  where
    go :
        (blank : Bool)
        → is_empty (field_text entry (codes "prefix")) ≡ blank
        → (skipped : Bool)
        → contains (field_text entry (codes "protocol")) hammerhead_protocol_skip ≡ skipped
        → (mapped : Option Protocol)
        → get (field_text entry (codes "protocol")) hammerhead_protocol_map ≡ mapped
        → (nhs : Result (List NextHop)) → next_hops v entry ≡ nhs
        → is_ok (parse_entry v entry) ≡ entry_fits v entry
    go true b s p m q n o = ground arith
    go false b true p m q n o = ground arith
    go false b false p none q n o = ground arith
    go false b false p (some m) q (ok nhs) o = ground arith
    go false b false p (some m) q (raise e) o = ground arith

parse_entries-fits :
    (v : Validation) (es : List Json) → is_ok (parse_entries v es) ≡ all (item_fits v) es
unfolding parse_entries all
parse_entries-fits v [] = refl
parse_entries-fits v (e ∷ es) =
    go (as_dict e) refl (parse_entries v es) refl (parse_entries-fits v es)
  where
    go :
        (d : Option (Dict Text Json))
        → as_dict e ≡ d
        → (rest : Result (List Route)) → parse_entries v es ≡ rest
        → is_ok (parse_entries v es) ≡ all (item_fits v) es
        → is_ok (parse_entries v (e ∷ es)) ≡ all (item_fits v) (e ∷ es)
    go none q rest p ih = ground arith
    go (some entry) q rest p ih = step (parse_entry v entry) refl rest p
      where
        step :
            (o : Result (Option Route))
            → parse_entry v entry ≡ o
            → (rest' : Result (List Route)) → parse_entries v es ≡ rest'
            → is_ok (parse_entries v (e ∷ es)) ≡ all (item_fits v) (e ∷ es)
        step (raise x) o (ok rs') p' = ground (arith, parse_entry-fits v entry)
        step (raise x) o (raise y) p' = ground (arith, parse_entry-fits v entry)
        step (ok parsed) o (raise y) p' = ground (arith, parse_entry-fits v entry)
        step (ok parsed) o (ok rs') p' = ground (arith, parse_entry-fits v entry)

-- The conversion returns a FIB exactly when the view names its host, every entry in scope has a
-- known protocol code, and the next hop of each of these passes validation.
pub transform_rib_view-fits :
    (v : Validation) (view : Dict Text Json) (vrf : Text)
    → is_ok (transform_rib_view v view vrf)
      ≡ (not (is_empty (field_text view (codes "hostname"))) && all (item_fits v) (entries_of view))
transform_rib_view-fits v view vrf =
    elim (Bool-cases (is_empty (field_text view (codes "hostname")))) [
      | inl blank ↦ unfold transform_rib_view in ground arith
      | inr named ↦ go named (parse_entries v (entries_of view)) refl
    ]
  where
    go :
        is_empty (field_text view (codes "hostname")) ≡ false
        → (o : Result (List Route)) → parse_entries v (entries_of view) ≡ o
        → is_ok (transform_rib_view v view vrf) ≡ (
            not (is_empty (field_text view (codes "hostname")))
            && all (item_fits v) (entries_of view))
    go named (ok rs) e =
        ground (arith, transform_entries v view vrf named, parse_entries-fits v (entries_of view))
    go named (raise x) e =
        ground (arith, transform_entries v view vrf named, parse_entries-fits v (entries_of view))
