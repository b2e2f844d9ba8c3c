-- ===== src/Fib.antt =====
-- harness/extract/fib.py: the canonical FIB schema, and the loopback policy of harness/aggregate.py.
-- A FIB row is a `Route`; `NodeFib` holds the rows of one (node, vrf, source) triple.
pub mod Canon
use hammerhead_bench.Prelude.{
  ℕ, ◌≡◌, ◌↔◌, Bool, true, false, Option, none, some, List, [], arith, Text, codes, Eq, ◌==◌,
  ==_iff, ℤ, nat_eq, ◌&&◌, if◌then◌else◌,
}

-- `Protocol`, the labels that pydantic accepts in a `Route`.
pub data Protocol : Type 0 where
  bgp ospf isis static connected local rip : Protocol

-- The text of a label, by which routes are sorted.
unfoldable pub protocol_name : Protocol → Text
protocol_name bgp = codes "bgp"
protocol_name ospf = codes "ospf"
protocol_name isis = codes "isis"
protocol_name static = codes "static"
protocol_name connected = codes "connected"
protocol_name local = codes "local"
protocol_name rip = codes "rip"

pub protocol_number : Protocol → ℕ
protocol_number bgp = 0
protocol_number ospf = 1
protocol_number isis = 2
protocol_number static = 3
protocol_number connected = 4
protocol_number local = 5
protocol_number rip = 6

unfoldable pub protocol_beq : Protocol → Protocol → Bool
unfolding protocol_number
protocol_beq p q = nat_eq (protocol_number p) (protocol_number q)

pub protocol_beq_iff : (p q : Protocol) → (protocol_beq p q ≡ true) ↔ (p ≡ q)
unfolding protocol_beq
protocol_beq_iff p q = ground arith

instance abbrev pub Protocol_eq : Eq Protocol
unfolding protocol_beq
Protocol_eq = record { eqb = protocol_beq; eqb_iff = protocol_beq_iff }

-- `Source`.
pub data Source : Type 0 where
  vendor batfish hammerhead : Source

pub record NextHop : Type 0 where
  pub ip : Option Text
  pub interface : Option Text

pub record Route : Type 0 where
  pub prefix : Text
  pub protocol : Protocol
  pub next_hops : List NextHop
  pub admin_distance : Option ℤ
  pub metric : Option ℤ
  pub as_path : Option (List ℤ)
  pub local_pref : Option ℤ
  pub med : Option ℤ
  pub communities : Option (List Text)

pub record NodeFib : Type 0 where
  pub node : Text
  pub vrf : Text
  pub source : Source
  pub routes : List Route

-- `LoopbackPolicy`: what happens to the /32 routes of loopback interfaces.
pub data LoopbackPolicy : Type 0 where
  strip materialize passthrough : LoopbackPolicy

unfoldable pub from_bool : Bool → LoopbackPolicy
from_bool filter_loopback_host = if filter_loopback_host then strip else passthrough

-- The property of the same name.
unfoldable pub strip_loopback_host : LoopbackPolicy → Bool
strip_loopback_host strip = true
strip_loopback_host _ = false

-- `loopback_policy or LoopbackPolicy.from_bool(filter_loopback_host)`
unfoldable pub chosen_policy : Bool → Option LoopbackPolicy → LoopbackPolicy
unfolding from_bool
chosen_policy filter_loopback_host none = from_bool filter_loopback_host
chosen_policy filter_loopback_host (some policy) = policy
