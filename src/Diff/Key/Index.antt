-- ===== src/Diff/Key/Index.antt =====
-- The index of `_index_routes` against its description: the last canonical row of each cell.
use hammerhead_bench.Prelude.{
  List, Option, [], arith, false, if◌then◌else◌, none, refl, some, ◌++◌, ◌==◌, ◌∷◌, ◌≡◌,
}
use hammerhead_bench.Prelude.Dict.{IsDict, get, get-put, put, put-IsDict}
use hammerhead_bench.Fib.{LoopbackPolicy, NodeFib, Route}
use hammerhead_bench.Fib.Canon.{canonicalize_node_fib}
use hammerhead_bench.Diff.Key.{
  Index, RouteKey, RouteKey_eq, cell, index_fib, index_from, index_routes,
}

-- The rows of one FIB, each with its cell.
abbrev pub fib_rows : NodeFib → List Route → List (RouteKey × Route)
fib_rows fib [] = []
fib_rows fib (r ∷ rs) = (cell fib r, r) ∷ fib_rows fib rs

-- The rows of all FIBs of one source, canonical, in order.
pub rows : LoopbackPolicy → List NodeFib → List (RouteKey × Route)
rows policy [] = []
rows policy (raw ∷ fibs) =
    let fib = canonicalize_node_fib raw false (some policy) in
    fib_rows fib fib.routes ++ rows policy fibs

abbrev or_else {ℓ} : {A : Type ℓ} → Option A → Option A → Option A
or_else (some a) o = some a
or_else none o = o

-- The last row with the key.
pub last_row : RouteKey → List (RouteKey × Route) → Option Route
last_row k [] = none
last_row k ((j, r) ∷ rest) = or_else (last_row k rest) (if k == j then some r else none)

last_row-append :
    (k : RouteKey) (xs ys : List (RouteKey × Route))
    → last_row k (xs ++ ys) ≡ or_else (last_row k ys) (last_row k xs)
unfolding last_row
last_row-append k [] ys = ground arith
last_row-append k ((j, r) ∷ xs) ys = ground (arith, last_row-append k xs ys)

get-index_fib :
    (k : RouteKey) (fib : NodeFib) (out : Index) (rs : List Route)
    → get k (index_fib fib out rs) ≡ or_else (last_row k (fib_rows fib rs)) (get k out)
unfolding index_fib last_row
get-index_fib k fib out [] = refl
get-index_fib k fib out (r ∷ rs) =
    ground (arith, get-index_fib k fib (put (cell fib r) r out) rs, get-put (cell fib r) k r out)

get-index_from :
    (k : RouteKey) (policy : LoopbackPolicy) (out : Index) (fibs : List NodeFib)
    → get k (index_from policy out fibs) ≡ or_else (last_row k (rows policy fibs)) (get k out)
unfolding index_from rows last_row
get-index_from k policy out [] = refl
get-index_from k policy out (raw ∷ fibs) =
    let fib = canonicalize_node_fib raw false (some policy) in
    ground (
      arith,
      get-index_from k policy (index_fib fib out fib.routes) fibs,
      get-index_fib k fib out fib.routes,
      last_row-append k (fib_rows fib fib.routes) (rows policy fibs),
    )

-- The index holds, for every cell, the last canonical row that any FIB has for it.
pub get-index_routes :
    (k : RouteKey) (fibs : List NodeFib) (policy : LoopbackPolicy)
    → get k (index_routes fibs policy) ≡ last_row k (rows policy fibs)
unfolding index_routes get
get-index_routes k fibs policy = ground (arith, get-index_from k policy [] fibs)

index_fib-IsDict :
    (fib : NodeFib) (out : Index) (rs : List Route) → IsDict out → IsDict (index_fib fib out rs)
unfolding index_fib
index_fib-IsDict fib out [] h = h
index_fib-IsDict fib out (r ∷ rs) h =
    index_fib-IsDict fib (put (cell fib r) r out) rs (put-IsDict (cell fib r) r out h)

index_from-IsDict :
    (policy : LoopbackPolicy) (out : Index) (fibs : List NodeFib)
    → IsDict out
    → IsDict (index_from policy out fibs)
unfolding index_from
index_from-IsDict policy out [] h = h
index_from-IsDict policy out (raw ∷ fibs) h =
    let fib = canonicalize_node_fib raw false (some policy) in
    index_from-IsDict policy (index_fib fib out fib.routes) fibs
      (index_fib-IsDict fib out fib.routes h)

-- No cell stands in the index twice.
pub index_routes-IsDict :
    (fibs : List NodeFib) (policy : LoopbackPolicy) → IsDict (index_routes fibs policy)
unfolding index_routes
index_routes-IsDict fibs policy = index_from-IsDict policy [] fibs tt
