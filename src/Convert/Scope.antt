-- ===== src/Convert/Scope.antt =====
-- Which routes a table should yield: one for each entry in scope. Entries are named by their
-- prefix and the protocol of their label.
use hammerhead_bench.Prelude.{
  Bool, List, Option, Text, [], ap, arith, contains, false, list_eq, map, none, not, refl, some,
  true, ℕ_eq, ◌++◌, ◌∷◌, ◌≡◌,
}
use hammerhead_bench.Prelude.Dict.{Dict, get}
use hammerhead_bench.Json.Fields.{Result, collect, ok, raise}
use hammerhead_bench.Fib.{NodeFib, Protocol, Route, Source}
use hammerhead_bench.Convert.Labels.{labelled_route, map_label}

abbrev pub if_in_scope : Bool → Text → Option Protocol → List (Text × Option Protocol)
if_in_scope false prefix mapped = []
if_in_scope true prefix mapped = (prefix, mapped) ∷ []

abbrev pub row_of_route : Route → Text × Option Protocol
row_of_route r = (r.prefix, some r.protocol)

abbrev pub listed {ℓ κ} : {B : Type ℓ} {C : Type κ} → (B → C) → Option B → List C
listed out none = []
listed out (some b) = out b ∷ []

abbrev pub produced_of : Option Route → List (Text × Option Protocol)
produced_of o = listed row_of_route o

abbrev pub produced : List Route → List (Text × Option Protocol)
produced rs = map row_of_route rs

pub produced-append : (xs ys : List Route) → produced (xs ++ ys) ≡ produced xs ++ produced ys
produced-append [] ys = refl
produced-append (r ∷ rs) ys = ap (λ l. row_of_route r ∷ l) (produced-append rs ys)

pub map-kept {ℓ κ} :
    {B : Type ℓ} {C : Type κ} (out : B → C) (kept : Option B) (bs : List B)
    → map out (elim kept [ none ↦ bs | some b ↦ b ∷ bs ]) ≡ listed out kept ++ map out bs
map-kept out none bs = refl
map-kept out (some b) bs = refl

-- What a list of items has in scope.
abbrev pub gather {ℓ κ} : {A : Type ℓ} {C : Type κ} → (A → List C) → List A → List C
gather view [] = []
gather view (a ∷ as') = view a ++ gather view as'

module _ {ℓ κ μ} {A : Type ℓ} {B : Type κ} {C : Type μ} (f : A → Result (Option B))
    (view : A → List C) (out : B → C) where
  -- A loop that yields what is in scope of each item yields what is in scope of the list.
  pub collect-gather :
      (as' : List A) (bs : List B)
      → ((a : A) (o : Option B) → f a ≡ ok o → view a ≡ listed out o)
      → collect f as' ≡ ok bs
      → map out bs ≡ gather view as'
  unfolding collect
  collect-gather [] bs each h = ground arith
  collect-gather (a ∷ as') bs each h =
      go (f a) refl (collect f as') refl (λ bs'. collect-gather as' bs' each)
    where
      go :
          (o : Result (Option B))
          → f a ≡ o
          → (rest : Result (List B)) → collect f as' ≡ rest
          → ((bs' : List B) → collect f as' ≡ ok bs' → map out bs' ≡ gather view as')
          → map out bs ≡ gather view (a ∷ as')
      go (raise x) e rest p ih = ground arith
      go (ok o) e (raise x) p ih = ground arith
      go (ok o) e (ok bs') p ih = ground (arith, each a o e, ih bs' p, map-kept out o bs')

-- A route that was made has the prefix and the protocol that were asked for.
abbrev pub IsRouteOf : Text → Protocol → Result Route → Type 0
IsRouteOf prefix protocol (ok r) = (r.prefix ≡ prefix) × (r.protocol ≡ protocol)
IsRouteOf prefix protocol (raise e) = Unit

IsRouteOf-ok :
    (prefix : Text) (protocol : Protocol) (o : Result Route) (r : Route)
    → IsRouteOf prefix protocol o
    → o ≡ ok r
    → (r.prefix ≡ prefix) × (r.protocol ≡ protocol)
IsRouteOf-ok prefix protocol (ok s) r h e = ground arith
IsRouteOf-ok prefix protocol (raise x) r h e = ground arith

abbrev pub text_or_empty : Result Text → Text
text_or_empty (ok s) = s
text_or_empty (raise e) = []

-- What an entry with the label yields.
abbrev pub label_expected :
    List Text → Dict Text Protocol → Text → Text → List (Text × Option Protocol)
label_expected skip labels prefix label =
    if_in_scope (not (contains label skip)) prefix (get label labels)

pub labelled_route-expected :
    (skip : List Text) (labels : Dict Text Protocol) (prefix : Text) (label : Result Text)
    (make : Protocol → Result Route) (o : Option Route)
    → ((p : Protocol) → IsRouteOf prefix p (make p))
    → labelled_route skip labels label make ≡ ok o
    → label_expected skip labels prefix (text_or_empty label) ≡ produced_of o
unfolding labelled_route map_label
labelled_route-expected skip labels prefix (raise e) make o each h = ground arith
labelled_route-expected skip labels prefix (ok raw) make o each h =
    go (contains raw skip) refl (get raw labels) refl
  where
    go :
        (skipped : Bool)
        → contains raw skip ≡ skipped
        → (mapped : Option Protocol) → get raw labels ≡ mapped
        → label_expected skip labels prefix raw ≡ produced_of o
    go true s m q = ground arith
    go false s none q = ground arith
    go false s (some p) q = step (make p) refl
      where
        step :
            (made : Result Route)
            → make p ≡ made
            → label_expected skip labels prefix raw ≡ produced_of o
        step (raise e) made = ground arith
        step (ok r) made = ground (arith, IsRouteOf-ok prefix p (make p) r (each p) made)

-- The FIB is that of the node and VRF, and its routes are the given ones.
pub record IsFibOf (node : Text) (vrf : Text) (source : Source)
    (rows : List (Text × Option Protocol)) (fib : NodeFib) : Type 0 where
  pub same_node : fib.node ≡ node
  pub same_vrf : fib.vrf ≡ vrf
  pub same_source : fib.source ≡ source
  pub routes : produced fib.routes ≡ rows
