-- ===== src/Diff/Engine.antt =====
-- harness/diff/engine.py: one record for each cell of three indexed sources.
pub mod Laws
use hammerhead_bench.Prelude.{
  Bool, List, Option, Text, [], false, if◌then◌else◌, is_some, list_eq, none, not, option_eq,
  pair_eq, some, true, ℕ_eq, ℤ, ℤ_eq, ◌&&◌, ◌==◌, ◌>>=◌, ◌||◌, ◌∷◌,
}
use hammerhead_bench.Prelude.Order.{pair_order, text_order}
use hammerhead_bench.Prelude.Sort.{sort}
use hammerhead_bench.Prelude.Sets.{set_eq}
use hammerhead_bench.Prelude.Dict.{get, keys, union}
use hammerhead_bench.Fib.{
  LoopbackPolicy, NextHop, NodeFib, Protocol, Protocol_eq, Route, bgp, chosen_policy,
}
use hammerhead_bench.Diff.Key.{Index, RouteKey, RouteKey_eq, index_routes, key_tuple}

-- `Presence`: which sources carry the cell.
pub data Presence : Type 0 where
  all_three vendor_and_batfish vendor_and_hammerhead batfish_and_hammerhead : Presence
  vendor_only batfish_only hammerhead_only : Presence

pub record DiffRecord : Type 0 where
  pub node : Text
  pub vrf : Text
  pub prefix : Text
  pub presence : Presence
  pub vendor_protocol : Option Protocol
  pub batfish_protocol : Option Protocol
  pub hammerhead_protocol : Option Protocol
  pub vendor_next_hops : List (Option Text × Option Text)
  pub batfish_next_hops : List (Option Text × Option Text)
  pub hammerhead_next_hops : List (Option Text × Option Text)
  pub batfish_next_hop_match : Option Bool
  pub hammerhead_next_hop_match : Option Bool
  pub batfish_protocol_match : Option Bool
  pub hammerhead_protocol_match : Option Bool
  pub batfish_bgp_attrs_match : Option Bool
  pub hammerhead_bgp_attrs_match : Option Bool

pub record DiffWorkspace : Type 0 where
  pub vendor : List NodeFib
  pub batfish : List NodeFib
  pub hammerhead : List NodeFib

-- `_PRESENCE_TABLE`; `none` is the `RuntimeError` for a cell that no source has.
presence_table : Bool → Bool → Bool → Option Presence
presence_table true true true = some all_three
presence_table true true false = some vendor_and_batfish
presence_table true false true = some vendor_and_hammerhead
presence_table false true true = some batfish_and_hammerhead
presence_table true false false = some vendor_only
presence_table false true false = some batfish_only
presence_table false false true = some hammerhead_only
presence_table false false false = none

unfoldable pub find_presence : Option Route → Option Route → Option Route → Option Presence
unfolding presence_table
find_presence v b h = presence_table (is_some v) (is_some b) (is_some h)

unfoldable pub nh_pairs : List NextHop → List (Option Text × Option Text)
nh_pairs [] = []
nh_pairs (n ∷ nhs) = (n.ip, n.interface) ∷ nh_pairs nhs

unfoldable pub nh_sets_equal : List NextHop → List NextHop → Bool
nh_sets_equal a b = set_eq (nh_pairs a) (nh_pairs b)

unfoldable pub as_path_equal : Option (List ℤ) → Option (List ℤ) → Bool
as_path_equal none none = true
as_path_equal none (some b) = false
as_path_equal (some a) none = false
as_path_equal (some a) (some b) = a == b

unfoldable pub bgp_attrs_match : Route → Route → Option Bool
unfolding as_path_equal
bgp_attrs_match a b =
    if not (a.protocol == bgp) || not (b.protocol == bgp)
    then none
    else some (as_path_equal a.as_path b.as_path && a.local_pref == b.local_pref && a.med == b.med)

-- `v.protocol if v else None`
unfoldable pub protocol_of : Option Route → Option Protocol
protocol_of none = none
protocol_of (some r) = some r.protocol

-- `_nh_pairs(v.next_hops) if v else []`
unfoldable pub next_hops_of : Option Route → List (Option Text × Option Text)
unfolding nh_pairs
next_hops_of none = []
next_hops_of (some r) = nh_pairs r.next_hops

-- A comparison bit is set where both sides have the cell, and is `None` elsewhere.
unfoldable pub when_both {ℓ} :
    {A : Type ℓ} → Option Route → Option Route → (Route → Route → Option A) → Option A
when_both (some v) (some s) f = f v s
when_both _ _ f = none

unfoldable pub record_of :
    RouteKey → Option Route → Option Route → Option Route → Presence → DiffRecord
unfolding protocol_of next_hops_of when_both nh_sets_equal bgp_attrs_match
record_of key v b h presence = record {
  node = key.node;
  vrf = key.vrf;
  prefix = key.prefix;
  presence = presence;
  vendor_protocol = protocol_of v;
  batfish_protocol = protocol_of b;
  hammerhead_protocol = protocol_of h;
  vendor_next_hops = next_hops_of v;
  batfish_next_hops = next_hops_of b;
  hammerhead_next_hops = next_hops_of h;
  batfish_next_hop_match = when_both v b (λ r s. some (nh_sets_equal r.next_hops s.next_hops));
  hammerhead_next_hop_match = when_both v h (λ r s. some (nh_sets_equal r.next_hops s.next_hops));
  batfish_protocol_match = when_both v b (λ r s. some (r.protocol == s.protocol));
  hammerhead_protocol_match = when_both v h (λ r s. some (r.protocol == s.protocol));
  batfish_bgp_attrs_match = when_both v b bgp_attrs_match;
  hammerhead_bgp_attrs_match = when_both v h bgp_attrs_match;
}

unfoldable pub build_record :
    RouteKey → Option Route → Option Route → Option Route → Option DiffRecord
unfolding find_presence record_of
build_record key v b h = do presence ← find_presence v b h; some (record_of key v b h presence)

-- The loop of `diff_fibs` over the sorted cells.
unfoldable pub build_records : Index → Index → Index → List RouteKey → Option (List DiffRecord)
unfolding build_record
build_records vendor batfish hammerhead [] = some []
build_records vendor batfish hammerhead (key ∷ ks) = do
  rec ← build_record key (get key vendor) (get key batfish) (get key hammerhead)
  rest ← build_records vendor batfish hammerhead ks
  some (rec ∷ rest)

-- `sorted(set(vendor) | set(batfish) | set(hammerhead))`
unfoldable pub all_keys : Index → Index → Index → List RouteKey
all_keys vendor batfish hammerhead =
    sort key_tuple (union (union (keys vendor) (keys batfish)) (keys hammerhead))

unfoldable pub diff_fibs : DiffWorkspace → Bool → Option LoopbackPolicy → Option (List DiffRecord)
unfolding build_records all_keys
diff_fibs workspace filter_loopback_host loopback_policy =
    let policy = chosen_policy filter_loopback_host loopback_policy in
    let vendor = index_routes workspace.vendor policy in
    let batfish = index_routes workspace.batfish policy in
    let hammerhead = index_routes workspace.hammerhead policy in
    build_records vendor batfish hammerhead (all_keys vendor batfish hammerhead)
