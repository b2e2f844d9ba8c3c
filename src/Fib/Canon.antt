-- ===== src/Fib/Canon.antt =====
-- harness/extract/fib.py: canonicalization of VRF names, next hops, routes and FIBs.
pub mod Laws
use hammerhead_bench.Prelude.{
  Bool, List, Option, Text, [], any, codes, ends_with, false, filter, if◌then◌else◌, is_empty,
  list_eq, lower, map, none, not, some, starts_with, strip, ℕ_eq, ◌&&◌, ◌==◌, ◌||◌, ◌∷◌,
}
use hammerhead_bench.Prelude.Sort.{sort}
use hammerhead_bench.Prelude.Order.{pair_order, text_order}
use hammerhead_bench.Prelude.Dict.{Dict, get}
use hammerhead_bench.Fib.{
  LoopbackPolicy, NextHop, NodeFib, Protocol_eq, Route, chosen_policy, connected, local,
  protocol_name, strip_loopback_host,
}

abbrev pub default : Text
default = codes "default"

-- `_VRF_ALIASES`
unfoldable pub vrf_aliases : Dict Text Text
vrf_aliases = (codes "", default) ∷ (codes "global", default) ∷ (codes "master", default) ∷ []

-- `d.get(k, v)`
unfoldable pub get_or : Option Text → Text → Text
get_or none v = v
get_or (some a) v = a

unfoldable pub canonicalize_vrf : Text → Text
unfolding vrf_aliases get_or
canonicalize_vrf vrf = get_or (get (strip (lower vrf)) vrf_aliases) vrf

-- `x or ""`
abbrev pub or_empty : Option Text → Text
or_empty none = []
or_empty (some s) = s

abbrev pub next_hop_key : NextHop → Text × Text
next_hop_key n = (or_empty n.ip, or_empty n.interface)

unfoldable pub canonicalize_next_hops : List NextHop → List NextHop
canonicalize_next_hops = sort next_hop_key

unfoldable pub canonicalize_route : Route → Route
canonicalize_route r = record r { next_hops = canonicalize_next_hops r.next_hops }

-- `nh.interface and nh.interface.lower().startswith(("lo", "loopback"))`
unfoldable pub loopback_interface : NextHop → Bool
loopback_interface nh = elim nh.interface [
  | none ↦ false
  | some name ↦
      not (is_empty name)
      && (starts_with (lower name) (codes "lo") || starts_with (lower name) (codes "loopback"))
]

unfoldable pub is_loopback_host : Route → Bool
is_loopback_host r =
    if not (r.protocol == connected || r.protocol == local)
    then false
    else if not (ends_with r.prefix (codes "/32"))
    then false
    else any loopback_interface r.next_hops

abbrev pub route_key : Route → Text × Text
route_key r = (r.prefix, protocol_name r.protocol)

-- The routes that the policy keeps.
unfoldable pub keep_routes : LoopbackPolicy → List Route → List Route
keep_routes policy routes =
    if strip_loopback_host policy then filter (λ r. not (is_loopback_host r)) routes else routes

unfoldable pub canonicalize_node_fib : NodeFib → Bool → Option LoopbackPolicy → NodeFib
unfolding keep_routes
canonicalize_node_fib fib filter_loopback_host loopback_policy =
    let policy = chosen_policy filter_loopback_host loopback_policy in
    record fib {
      vrf = canonicalize_vrf fib.vrf;
      routes = sort route_key (keep_routes policy (map canonicalize_route fib.routes));
    }
