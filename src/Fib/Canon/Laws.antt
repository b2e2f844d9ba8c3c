-- ===== src/Fib/Canon/Laws.antt =====
-- Canonicalization of a FIB: a normal form that loses nothing but what the policy drops.
use mathlib.Core.List.{Perm}
use mathlib.Core.Path.{subst}
use hammerhead_bench.Prelude.{
  All, All-filter, Bool, List, Option, Text, [], ap, arith, false, filter, filter-All,
  filter_of_All, if◌then◌else◌, inl, inr, list_beq, list_eq, lower, map, map_of_All, none, not,
  refl, some, strip, sym, true, ℕ_eq, ◌∙◌, ◌∷◌, ◌≡◌, ◌⊎◌,
}
use hammerhead_bench.Prelude.Sort.{
  All-sort, IsSorted, any-sort, sort, sort-IsSorted, sort-perm, sort_of_IsSorted,
}
use hammerhead_bench.Prelude.Order.{pair_order, text_order}
use hammerhead_bench.Prelude.Dict.{get}
use hammerhead_bench.Fib.{
  LoopbackPolicy, NextHop, NodeFib, Route, chosen_policy, strip_loopback_host,
}
use hammerhead_bench.Fib.Canon.{
  canonicalize_next_hops, canonicalize_node_fib, canonicalize_route, canonicalize_vrf, default,
  get_or, is_loopback_host, keep_routes, loopback_interface, next_hop_key, route_key, vrf_aliases,
}

get_aliases : (s : Text) → (get s vrf_aliases ≡ none) ⊎ (get s vrf_aliases ≡ some default)
unfolding get vrf_aliases
get_aliases s = ground arith

default_unaliased : canonicalize_vrf default ≡ default
unfolding canonicalize_vrf vrf_aliases get_or get lower strip list_beq
default_unaliased = refl

pub canonicalize_vrf_idem :
    (vrf : Text) → canonicalize_vrf (canonicalize_vrf vrf) ≡ canonicalize_vrf vrf
unfolding canonicalize_vrf get_or
canonicalize_vrf_idem vrf = elim (get_aliases (strip (lower vrf))) [
  | inl miss ↦ rw (miss, get_or) (rw (miss, get_or) refl)
  | inr hit ↦ rw (hit, get_or) default_unaliased
]

pub canonicalize_route_idem :
    (r : Route) → canonicalize_route (canonicalize_route r) ≡ canonicalize_route r
unfolding canonicalize_route canonicalize_next_hops
canonicalize_route_idem r =
    ap (λ nhs. record r { next_hops = nhs })
      (sort_of_IsSorted next_hop_key (sort next_hop_key r.next_hops)
        (sort-IsSorted next_hop_key r.next_hops))

is_loopback_host-canonicalize_route :
    (r : Route) → is_loopback_host (canonicalize_route r) ≡ is_loopback_host r
unfolding canonicalize_route canonicalize_next_hops is_loopback_host
is_loopback_host-canonicalize_route r =
    ground (arith, any-sort next_hop_key loopback_interface r.next_hops)

-- The routes that `canonicalize_node_fib` sorts.
abbrev kept : LoopbackPolicy → List Route → List Route
kept policy routes = keep_routes policy (map canonicalize_route routes)

All-keep_routes {ℓ} :
    (P : Route → Type ℓ) (policy : LoopbackPolicy) (rs : List Route)
    → All P rs
    → All P (keep_routes policy rs)
unfolding keep_routes
All-keep_routes P policy rs h = go (strip_loopback_host policy)
  where
    go : (b : Bool) → All P (if b then filter (λ r. not (is_loopback_host r)) rs else rs)
    go true = All-filter P (λ r. not (is_loopback_host r)) rs h
    go false = h

canonical : (rs : List Route) → All (λ r. canonicalize_route r ≡ r) (map canonicalize_route rs)
canonical [] = tt
canonical (r ∷ rs) = (canonicalize_route_idem r, canonical rs)

-- What the policy has kept once it keeps again.
keep_routes_sorted :
    (policy : LoopbackPolicy) (rs : List Route)
    → keep_routes policy (sort route_key (keep_routes policy rs))
      ≡ sort route_key (keep_routes policy rs)
unfolding keep_routes
keep_routes_sorted policy rs = go (strip_loopback_host policy)
  where
    keep : List Route → List Route
    keep = filter (λ r. not (is_loopback_host r))

    go :
        (b : Bool)
        → (if b
            then keep (sort route_key (if b then keep rs else rs))
            else sort route_key (if b then keep rs else rs))
          ≡ sort route_key (if b then keep rs else rs)
    go true =
        filter_of_All (λ r. not (is_loopback_host r)) (sort route_key (keep rs))
          (All-sort route_key (λ r. not (is_loopback_host r) ≡ true) (keep rs)
            (filter-All (λ r. not (is_loopback_host r)) rs))
    go false = refl

routes_idem :
    (policy : LoopbackPolicy) (rs : List Route)
    → sort route_key (kept policy (sort route_key (kept policy rs)))
      ≡ sort route_key (kept policy rs)
routes_idem policy rs =
    let once = sort route_key (kept policy rs) in
    let fixed : map canonicalize_route once ≡ once = map_of_All canonicalize_route once (
      All-sort route_key (λ r. canonicalize_route r ≡ r) (kept policy rs)
        (All-keep_routes (λ r. canonicalize_route r ≡ r) policy (map canonicalize_route rs)
          (canonical rs))) in
    ap (λ l. sort route_key (keep_routes policy l)) fixed
    ∙ ap (sort route_key) (keep_routes_sorted policy (map canonicalize_route rs))
    ∙ sort_of_IsSorted route_key once (sort-IsSorted route_key (kept policy rs))

-- Canonicalizing a FIB again, under the same arguments, changes nothing.
pub canonicalize_node_fib_idem :
    (fib : NodeFib) (flag : Bool) (policy : Option LoopbackPolicy)
    → canonicalize_node_fib (canonicalize_node_fib fib flag policy) flag policy
      ≡ canonicalize_node_fib fib flag policy
unfolding canonicalize_node_fib
canonicalize_node_fib_idem fib flag policy = λ i. record fib {
  vrf = canonicalize_vrf_idem fib.vrf i;
  routes = routes_idem (chosen_policy flag policy) fib.routes i;
}

-- The routes that a policy drops: loopback hosts under `strip`, none under the others.
abbrev pub drops : LoopbackPolicy → Route → Bool
drops LoopbackPolicy.strip r = is_loopback_host r
drops LoopbackPolicy.materialize r = false
drops LoopbackPolicy.passthrough r = false

filter_all {ℓ} : {A : Type ℓ} (xs : List A) → filter (λ _. true) xs ≡ xs
unfolding filter
filter_all [] = refl
filter_all (x ∷ xs) = ap (λ l. x ∷ l) (filter_all xs)

keep_routes-drops :
    (policy : LoopbackPolicy) (rs : List Route)
    → keep_routes policy rs ≡ filter (λ r. not (drops policy r)) rs
unfolding keep_routes strip_loopback_host
keep_routes-drops LoopbackPolicy.strip rs = refl
keep_routes-drops LoopbackPolicy.materialize rs = sym (filter_all rs)
keep_routes-drops LoopbackPolicy.passthrough rs = sym (filter_all rs)

-- The second route is the first one but for the order of its next hops.
abbrev pub IsReordered : Route → Route → Type 0
IsReordered r r' = (hs : List NextHop) × (r' ≡ record r { next_hops = hs }) × Perm hs r.next_hops

canonicalize_route-IsReordered :
    (rs : List Route) → All (λ r. IsReordered r (canonicalize_route r)) rs
unfolding canonicalize_route canonicalize_next_hops
canonicalize_route-IsReordered [] = tt
canonicalize_route-IsReordered (r ∷ rs) = (
  (sort next_hop_key r.next_hops, refl, sort-perm next_hop_key r.next_hops),
  canonicalize_route-IsReordered rs,
)

-- The result of `canonicalize_node_fib`, described without reference to how it is computed.
pub record IsCanonical (policy : LoopbackPolicy) (fib out : NodeFib) : Type 0 where
  pub same_node : out.node ≡ fib.node
  pub same_source : out.source ≡ fib.source
  pub sorted : IsSorted route_key out.routes
  pub hops_sorted : All (λ r. IsSorted next_hop_key r.next_hops) out.routes
  pub reordered : All (λ r. IsReordered r (canonicalize_route r)) fib.routes
  pub nothing_lost :
      Perm out.routes (filter (λ r. not (drops policy r)) (map canonicalize_route fib.routes))
  pub stripped : policy ≡ LoopbackPolicy.strip → All (λ r. is_loopback_host r ≡ false) out.routes

hops-IsSorted-map :
    (rs : List Route) → All (λ r. IsSorted next_hop_key r.next_hops) (map canonicalize_route rs)
unfolding canonicalize_route canonicalize_next_hops
hops-IsSorted-map [] = tt
hops-IsSorted-map (r ∷ rs) = (sort-IsSorted next_hop_key r.next_hops, hops-IsSorted-map rs)

All-not-true :
    (rs : List Route)
    → All (λ r. not (is_loopback_host r) ≡ true) rs
    → All (λ r. is_loopback_host r ≡ false) rs
All-not-true [] h = tt
All-not-true (r ∷ rs) h = (ground (arith, h.0), All-not-true rs h.1)

keep_routes-strip :
    (policy : LoopbackPolicy) (rs : List Route)
    → policy ≡ LoopbackPolicy.strip
    → All (λ r. is_loopback_host r ≡ false) (keep_routes policy rs)
unfolding keep_routes strip_loopback_host
keep_routes-strip LoopbackPolicy.strip rs e =
    All-not-true (filter (λ r. not (is_loopback_host r)) rs)
      (filter-All (λ r. not (is_loopback_host r)) rs)
keep_routes-strip LoopbackPolicy.materialize rs e = cc
keep_routes-strip LoopbackPolicy.passthrough rs e = cc

-- Under every policy the canonical FIB has the node and source of the FIB it is made of, and its
-- routes and the next hops of each are sorted. Its routes are those of the FIB, with the next hops
-- of each in another order at most: under `strip` all but the loopback hosts, and under the other
-- policies all. Under `strip` none of them is a loopback host.
pub canonicalize_node_fib-IsCanonical :
    (fib : NodeFib) (flag : Bool) (policy : Option LoopbackPolicy)
    → IsCanonical (chosen_policy flag policy) fib (canonicalize_node_fib fib flag policy)
unfolding canonicalize_node_fib
canonicalize_node_fib-IsCanonical fib flag policy =
    let p = chosen_policy flag policy in
    record {
      same_node = refl;
      same_source = refl;
      sorted = sort-IsSorted route_key (kept p fib.routes);
      hops_sorted =
          All-sort route_key (λ r. IsSorted next_hop_key r.next_hops) (kept p fib.routes)
            (All-keep_routes (λ r. IsSorted next_hop_key r.next_hops) p
              (map canonicalize_route fib.routes) (hops-IsSorted-map fib.routes));
      reordered = canonicalize_route-IsReordered fib.routes;
      nothing_lost =
          subst (λ rs. Perm (sort route_key (kept p fib.routes)) rs)
            (keep_routes-drops p (map canonicalize_route fib.routes))
            (sort-perm route_key (kept p fib.routes));
      stripped = λ e.
          All-sort route_key (λ r. is_loopback_host r ≡ false) (kept p fib.routes)
            (keep_routes-strip p (map canonicalize_route fib.routes) e);
    }
