-- ===== src/Pipeline/Pairwise.antt =====
-- harness/pipeline.py: how far two indexed simulators agree.
pub mod Laws
pub mod Bounds
pub mod Symmetry
use hammerhead_bench.Prelude.{
  Bool, List, Option, Text, [], any, false, if◌then◌else◌, is_empty, list_eq, nat_eq, none, not,
  option_eq, some, true, ℕ, ℕ_eq, ℤ, ℤ_eq, ◌&&◌, ◌+◌, ◌==◌, ◌>>=◌, ◌∷◌,
}
use hammerhead_bench.Prelude.Sets.{set_eq}
use hammerhead_bench.Prelude.Dict.{get, keys, union}
use hammerhead_bench.Prelude.Items.{inter}
use hammerhead_bench.Prelude.Ratio.{Ratio, one}
use hammerhead_bench.Fib.{NextHop, Protocol_eq, Route, bgp}
use hammerhead_bench.Diff.Key.{Index, RouteKey, RouteKey_eq}
use hammerhead_bench.Pipeline.Loopback.{both_size, union_size}

-- `[n.ip for n in next_hops if n.ip is not None]`
unfoldable pub ips : List NextHop → List Text
ips [] = []
ips (n ∷ nhs) = let rest = ips nhs in elim n.ip [ none ↦ rest | some ip ↦ ip ∷ rest ]

-- A truthy interface: neither `None` nor empty.
unfoldable pub has_interface : NextHop → Bool
has_interface n = elim n.interface [ none ↦ false | some name ↦ not (is_empty name) ]

-- `_nh_sets_equal_sim_only`
unfoldable pub nh_sets_equal_sim_only : Route → Route → Bool
unfolding ips has_interface
nh_sets_equal_sim_only a b =
    let a_ips = ips a.next_hops in
    let b_ips = ips b.next_hops in
    let a_has_iface = any has_interface a.next_hops in
    let b_has_iface = any has_interface b.next_hops in
    if not (is_empty a_ips) && not (is_empty b_ips)
    then set_eq a_ips b_ips
    else if is_empty a_ips && is_empty b_ips && a_has_iface && b_has_iface
    then true
    else if is_empty a_ips && is_empty b_ips && not a_has_iface && not b_has_iface
    then true
    else false

-- `_as_path_equal_sim_only`
unfoldable pub as_path_equal_sim_only : Option (List ℤ) → Option (List ℤ) → Bool
as_path_equal_sim_only none none = true
as_path_equal_sim_only none (some b) = false
as_path_equal_sim_only (some a) none = false
as_path_equal_sim_only (some a) (some b) = a == b

unfoldable pub both_bgp : Route → Route → Bool
both_bgp x y = x.protocol == bgp && y.protocol == bgp

unfoldable pub bgp_attrs_equal : Route → Route → Bool
unfolding as_path_equal_sim_only
bgp_attrs_equal x y =
    as_path_equal_sim_only x.as_path y.as_path && x.local_pref == y.local_pref && x.med == y.med

-- The counters of the loop.
pub record Agreed : Type 0 where
  pub nh_agree : ℕ
  pub proto_agree : ℕ
  pub bgp_total : ℕ
  pub bgp_agree : ℕ

abbrev pub none_agreed : Agreed
none_agreed = record { nh_agree = 0; proto_agree = 0; bgp_total = 0; bgp_agree = 0 }

-- `n += 1` under a test.
abbrev pub add_if : Bool → ℕ → ℕ
add_if b n = if b then n + 1 else n

unfoldable pub agree_step : Agreed → Route → Route → Agreed
unfolding nh_sets_equal_sim_only both_bgp bgp_attrs_equal
agree_step t x y = record {
  nh_agree = add_if (nh_sets_equal_sim_only x y) t.nh_agree;
  proto_agree = add_if (x.protocol == y.protocol) t.proto_agree;
  bgp_total = add_if (both_bgp x y) t.bgp_total;
  bgp_agree = add_if (both_bgp x y && bgp_attrs_equal x y) t.bgp_agree;
}

-- The loop over the common keys; `none` is the `KeyError` of a key that one side lacks.
unfoldable pub agree_all : Index → Index → List RouteKey → Agreed → Option Agreed
unfolding agree_step
agree_all ix_x ix_y [] t = some t
agree_all ix_x ix_y (key ∷ ks) t = do
  x ← get key ix_x
  y ← get key ix_y
  agree_all ix_x ix_y ks (agree_step t x y)

-- `n / d if d else 1.0`
unfoldable pub share : ℕ → ℕ → Ratio
share n d = if nat_eq d 0 then one else record { num = n; den = d }

pub record Pairwise : Type 0 where
  pub both : ℕ
  pub union : ℕ
  pub presence : Ratio
  pub next_hop : Ratio
  pub protocol : Ratio
  pub bgp_attr : Ratio

-- The fields of the result, from the sizes and the counters.
unfoldable pub scores : ℕ → ℕ → Agreed → Pairwise
unfolding share
scores both union t = record {
  both = both;
  union = union;
  presence = share both union;
  next_hop = share t.nh_agree both;
  protocol = share t.proto_agree both;
  bgp_attr = share t.bgp_agree t.bgp_total;
}

-- `_pairwise_agreement`
unfoldable pub pairwise_agreement : Index → Index → Option Pairwise
unfolding agree_all scores both_size union_size
pairwise_agreement ix_x ix_y = do
  t ← agree_all ix_x ix_y (inter (keys ix_x) (keys ix_y)) none_agreed
  some (scores (both_size ix_x ix_y) (union_size ix_x ix_y) t)
