-- ===== src/Batfish/Transform/Loops.antt =====
-- harness/tools/batfish.py: what the loops over rows and over items leave in their dictionaries.
use mathlib.Core.Path.{subst, ap₂, fun_ext}
use mathlib.Core.List.{append_assoc, append-nil}
use hammerhead_bench.Prelude.{
  Bool-cases, List, Option, Text, [], all, ap, arith, codes, if◌then◌else◌, inl, inr, is_empty,
  list_eq, map, none, not, pair_eq, refl, some, sym, ℕ_eq, ◌&&◌, ◌++◌, ◌==◌, ◌||◌, ◌∙◌, ◌∷◌, ◌≡◌,
}
use hammerhead_bench.Prelude.Dict.{Dict, IsDict, get, get-put, put}
use hammerhead_bench.Prelude.Groups.{
  NoneEmpty, add_to, add_to-IsDict, add_to-NoneEmpty, group, group-add_to,
}
use hammerhead_bench.Json.{Json}
use hammerhead_bench.Json.Fields.{Result, is_ok, ok, raise, ◌>>=◌}
use hammerhead_bench.Fib.{Protocol_eq, Route}
use hammerhead_bench.Batfish.Transform.{
  Best, Fibs, Place, attach, best_rows, cell_text, is_best, is_unplaced, merge_bgp_attrs,
  merge_if_any, route_loop, row_place, row_to_route,
}
use hammerhead_bench.Batfish.Transform.Rows.{
  enriched, first_some, is_best_of, last_best, routes_at, row_fits, row_view, with_route,
}

-- The dictionary of routes holds what the rows give, and no place without a route.
pub record Holds (start : Place → List Route) (rows : List (Dict Text Json)) (fibs : Fibs)
    : Type 0 where
  pub is_dict : IsDict fibs
  pub none_empty : NoneEmpty fibs
  pub routes : (place : Place) → group place fibs ≡ start place ++ routes_at place rows

abbrev added : Fibs → Place × Option Route → Fibs
added fibs parsed = elim parsed.1 [ none ↦ fibs | some route ↦ add_to parsed.0 route fibs ]

added-group :
    (fibs : Fibs) (p : Place) (found : Option Route) (place : Place) (rest : List Route)
    → group place (added fibs (p, found)) ++ rest
      ≡ group place fibs ++ with_route (place == p) found rest
added-group fibs p none place rest = refl
added-group fibs p (some r) place rest = elim (Bool-cases (place == p)) [
  | inl here ↦
      rw (group-add_to p place r fibs, here) (append_assoc (group place fibs) (r ∷ []) rest)
  | inr away ↦ rw (group-add_to p place r fibs, away) refl
]

added-IsDict :
    (fibs : Fibs) (parsed : Place × Option Route) → IsDict fibs → IsDict (added fibs parsed)
added-IsDict fibs (p, none) d = d
added-IsDict fibs (p, some r) d = add_to-IsDict p r fibs d

added-NoneEmpty :
    (fibs : Fibs) (parsed : Place × Option Route) → NoneEmpty fibs → NoneEmpty (added fibs parsed)
added-NoneEmpty fibs (p, none) n = n
added-NoneEmpty fibs (p, some r) n = add_to-NoneEmpty p r fibs n

pub route_loop-Holds :
    (fibs : Fibs) (rows : List (Dict Text Json)) (out : Fibs)
    → IsDict fibs
    → NoneEmpty fibs
    → route_loop fibs rows ≡ ok out
    → Holds (λ place. group place fibs) rows out
unfolding route_loop routes_at
route_loop-Holds fibs [] out d n h =
    let e : fibs ≡ out = cc in
    record {
      is_dict = subst (λ (f : Fibs). IsDict f) e d;
      none_empty = subst (λ (f : Fibs). NoneEmpty f) e n;
      routes =
          λ place. ap (λ (f : Fibs). group place f) (sym e) ∙ sym (append-nil (group place fibs));
    }
route_loop-Holds fibs (row ∷ rows) out d n h =
    go (row_to_route row) refl h (λ f. route_loop-Holds f rows out)
  where
    go :
        (r : Result (Place × Option Route))
        → row_to_route row ≡ r
        → (r >>= λ parsed. route_loop (added fibs parsed) rows) ≡ ok out
        → ((f : Fibs)
            → IsDict f
            → NoneEmpty f
            → route_loop f rows ≡ ok out
            → Holds (λ place. group place f) rows out)
        → Holds (λ place. group place fibs) (row ∷ rows) out
    go (raise e) q k ih = cc
    go (ok (p, found)) q k ih =
        let seen = (row_view row).1 (p, found) q in
        let rest =
          ih (added fibs (p, found)) (added-IsDict fibs (p, found) d)
            (added-NoneEmpty fibs (p, found) n) k in
        record {
          is_dict = rest.is_dict;
          none_empty = rest.none_empty;
          routes = λ place.
              rest.routes place
              ∙ added-group fibs p found place (routes_at place rows)
              ∙ ap₂
                  (λ (q : Place) (o : Option Route).
                    group place fibs ++ with_route (place == q) o (routes_at place rows))
                  seen.0 seen.1;
        }

-- The loop ends with a dictionary exactly if every row in scope has a label of `Route`.
pub route_loop-is_ok :
    (fibs : Fibs) (rows : List (Dict Text Json)) → is_ok (route_loop fibs rows) ≡ all row_fits rows
unfolding route_loop all
route_loop-is_ok fibs [] = refl
route_loop-is_ok fibs (row ∷ rows) =
    go (row_to_route row) (row_view row).0 (λ f. route_loop-is_ok f rows)
  where
    go :
        (r : Result (Place × Option Route))
        → is_ok r ≡ row_fits row
        → ((f : Fibs) → is_ok (route_loop f rows) ≡ all row_fits rows)
        → is_ok (r >>= λ parsed. route_loop (added fibs parsed) rows)
          ≡ (row_fits row && all row_fits rows)
    go (raise e) q ih = rw (← q) refl
    go (ok parsed) q ih = rw (← q) (ih (added fibs parsed))

abbrev replaced : Best → Dict Text Json → Best
replaced best row =
    if not (is_best row) || is_unplaced row
    then best
    else put (row_place row, cell_text (codes "Network") row) row best

best_step :
    (best : Best) (row : Dict Text Json) (cell : Place × Text)
    → get cell (replaced best row) ≡ (if is_best_of cell row then some row else get cell best)
best_step best row cell =
    ground (arith, get-put (row_place row, cell_text (codes "Network") row) cell row best)

pub best_rows-get :
    (best : Best) (rows : List (Dict Text Json)) (cell : Place × Text)
    → get cell (best_rows best rows) ≡ first_some (last_best cell rows) (get cell best)
unfolding best_rows last_best
best_rows-get best [] cell = refl
best_rows-get best (row ∷ rows) cell =
    best_rows-get (replaced best row) rows cell ∙ later (last_best cell rows)
  where
    later :
        (found : Option (Dict Text Json))
        → first_some found (get cell (replaced best row))
          ≡ first_some
              (first_some found (if is_best_of cell row then some row else none))
              (get cell best)
    later (some br) = refl
    later none = ground (arith, best_step best row cell)

first_some-none {ℓ} : {A : Type ℓ} (o : Option A) → first_some o none ≡ o
first_some-none none = refl
first_some-none (some a) = refl

-- The second loop gives a route the attributes of the last best row of its cell.
pub attach-enriched :
    (rows : List (Dict Text Json)) (place : Place) (r : Route)
    → attach (best_rows [] rows) place r ≡ enriched rows place r
unfolding attach get
attach-enriched rows place r =
    let found : get (place, r.prefix) (best_rows [] rows) ≡ last_best (place, r.prefix) rows =
      best_rows-get [] rows (place, r.prefix)
      ∙ first_some-none (last_best (place, r.prefix) rows) in
    rw found (ground arith)

enriched_nothing : (place : Place) (r : Route) → enriched [] place r ≡ r
unfolding last_best
enriched_nothing place r = ground arith

-- A place with its routes, enriched by the BGP rows.
unfoldable pub enrich : List (Dict Text Json) → Place × List Route → Place × List Route
enrich rows entry = (entry.0, map (enriched rows entry.0) entry.1)

map_fixed {ℓ} : {A : Type ℓ} (f : A → A) (xs : List A) → ((x : A) → f x ≡ x) → map f xs ≡ xs
map_fixed f [] h = refl
map_fixed f (x ∷ xs) h = ap₂ (λ (y : _) (ys : _). y ∷ ys) (h x) (map_fixed f xs h)

enrich_nothing : (entry : Place × List Route) → enrich [] entry ≡ entry
unfolding enrich
enrich_nothing (place, routes) =
    ap (λ (rs : List Route). (place, rs))
      (map_fixed (enriched [] place) routes (enriched_nothing place))

abbrev pub rows_of : Option (List (Dict Text Json)) → List (Dict Text Json)
rows_of none = []
rows_of (some rows) = rows

merge_bgp_attrs-enrich :
    (fibs : Fibs) (rows : List (Dict Text Json))
    → (if is_empty rows then fibs else merge_bgp_attrs fibs rows) ≡ map (enrich rows) fibs
unfolding is_empty merge_bgp_attrs enrich
merge_bgp_attrs-enrich fibs [] = sym (map_fixed (enrich []) fibs enrich_nothing)
merge_bgp_attrs-enrich fibs (row ∷ rows) =
    ap (λ (f : Place × List Route → Place × List Route). map f fibs)
      (fun_ext λ entry.
        ap (λ (g : Route → Route). (entry.0, map g entry.1))
          (fun_ext (attach-enriched (row ∷ rows) entry.0)))

-- The merge enriches every place; without BGP rows that changes nothing.
pub merge_if_any-enrich :
    (fibs : Fibs) (bgp_rows : Option (List (Dict Text Json)))
    → merge_if_any fibs bgp_rows ≡ map (enrich (rows_of bgp_rows)) fibs
unfolding merge_if_any
merge_if_any-enrich fibs none = sym (map_fixed (enrich []) fibs enrich_nothing)
merge_if_any-enrich fibs (some rows) = merge_bgp_attrs-enrich fibs rows
