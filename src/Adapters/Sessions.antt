-- ===== src/Adapters/Sessions.antt =====
-- harness/adapters/frr.py and ceos.py: what the loop of `wait_for_convergence` reads from the JSON of
-- a poll.
pub mod Laws
use hammerhead_bench.Prelude.{
  Bool, List, Option, Text, [], all, codes, false, if◌then◌else◌, is_empty, is_some, length,
  list_eq, none, not, some, true, ℕ, ℕ_eq, ◌&&◌, ◌+◌, ◌==◌, ◌||◌, ◌∷◌,
}
use hammerhead_bench.Prelude.Dict.{Dict, get, has_key}
use hammerhead_bench.Json.{Json, as_dict, as_list, look, text, truthy}
use hammerhead_bench.Json.Fields.{Result, need_dict, ok, ◌>>=◌}

abbrev pub values : Dict Text Json → List Json
values [] = []
values ((k, j) ∷ d) = j ∷ values d

-- `j == "Established"`
unfoldable pub is_established : Json → Bool
is_established (text s) = s == codes "Established"
is_established _ = false

-- The first peer that is not established ends the loop.
unfoldable pub frr_peers_up : List Json → Result Bool
frr_peers_up [] = ok true
frr_peers_up (j ∷ js) =
    let rest = frr_peers_up js in
    do peer ← need_dict j; (if is_established (look (codes "state") peer) then rest else ok false)

-- The peers of one VRF: those of its address family, or its own.
unfoldable pub frr_peers : Dict Text Json → Result (List Json)
frr_peers vrf = peers_of (get (codes "ipv4Unicast") vrf)
  where
    peers_in : Dict Text Json → Result (List Json)
    peers_in af = elim (get (codes "peers") af) [
      | none ↦ ok []
      | some j ↦ do d ← need_dict j; ok (values d)
    ]

    peers_of : Option Json → Result (List Json)
    peers_of none = peers_in vrf
    peers_of (some j) = elim (as_dict j) [ none ↦ ok [] | some af ↦ peers_in af ]

unfoldable pub frr_vrfs_up : List Json → Result Bool
unfolding frr_peers frr_peers_up
frr_vrfs_up [] = ok true
frr_vrfs_up (j ∷ js) =
    let rest = frr_vrfs_up js in
    elim (as_dict j) [
      | none ↦ rest
      | some vrf ↦ do
        peers ← frr_peers vrf
        up ← frr_peers_up peers
        (if up then rest else ok false)
    ]

-- `_all_bgp_sessions_established` of FRR. The JSON of an empty output is an empty dictionary.
unfoldable pub frr_sessions_established : Json → Result Bool
unfolding frr_vrfs_up
frr_sessions_established data' = elim (as_dict data') [
  | none ↦ ok false
  | some d ↦
      if has_key (codes "ipv4Unicast") d || has_key (codes "peers") d
      then frr_vrfs_up (data' ∷ [])
      else frr_vrfs_up (values d)
]

-- The size of a dictionary; anything else counts as none.
unfoldable pub size_in : Json → ℕ
size_in j = elim (as_dict j) [ none ↦ 0 | some d ↦ length d ]

unfoldable pub total_size : List Json → ℕ
unfolding size_in
total_size [] = 0
total_size (j ∷ js) = size_in j + total_size js

unfoldable pub is_list : Json → Bool
is_list j = is_some (as_list j)

-- `_total_route_count` of FRR
unfoldable pub frr_route_count : Json → ℕ
unfolding total_size is_list
frr_route_count data' = elim (as_dict data') [
  | none ↦ 0
  | some d ↦ if not (is_empty d) && all is_list (values d) then length d else total_size (values d)
]

-- The state of an EOS peer: its `peerState`, or else its `bgpState`.
unfoldable pub eos_state : Dict Text Json → Json
eos_state peer =
    let state = look_text (codes "peerState") peer in
    if truthy state then state else look_text (codes "bgpState") peer
  where
    look_text : Text → Dict Text Json → Json
    look_text k d = elim (get k d) [ none ↦ text [] | some j ↦ j ]

-- What is not a dictionary is passed over.
unfoldable pub eos_peer_up : Json → Bool
unfolding eos_state
eos_peer_up j = elim (as_dict j) [ none ↦ true | some peer ↦ is_established (eos_state peer) ]

unfoldable pub eos_peers : Json → List Json
eos_peers vrf_body = elim (as_dict vrf_body) [
  | none ↦ []
  | some body ↦ elim (as_dict (look (codes "peers") body)) [ none ↦ [] | some peers ↦ values peers ]
]

-- `_all_bgp_sessions_established` of EOS
unfoldable pub eos_sessions_established : Json → Bool
unfolding eos_peer_up eos_peers
eos_sessions_established data' = elim (as_dict data') [
  | none ↦ false
  | some d ↦ elim (as_dict (look (codes "vrfs") d)) [
    | none ↦ true
    | some vrfs ↦ all (λ body. all eos_peer_up (eos_peers body)) (values vrfs)
  ]
]
