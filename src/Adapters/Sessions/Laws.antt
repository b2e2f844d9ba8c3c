-- ===== src/Adapters/Sessions/Laws.antt =====
-- FRR's sessions count as established only if every peer of every VRF is.
use hammerhead_bench.Prelude.{
  Bool, List, Text, [], all, codes, false, if◌then◌else◌, list_eq, none, some, true, ℕ_eq, ◌==◌,
  ◌||◌, ◌∷◌,
}
use hammerhead_bench.Prelude.Dict.{Dict, get, has_key}
use hammerhead_bench.Json.{Json, as_dict, look, text}
use hammerhead_bench.Json.Fields.{Result, ok, raise}
use hammerhead_bench.Adapters.Sessions.{values}

-- The value is the text.
abbrev pub says : Text → Json → Bool
says word (text s) = s == word
says word _ = false

-- The peer says that it is established.
abbrev pub peer_up : Json → Bool
peer_up j = elim (as_dict j) [
  | none ↦ false
  | some p ↦ says (codes "Established") (look (codes "state") p)
]

-- What the dictionary has under `peers`, if anything, is a dictionary of established peers.
abbrev pub listed_up : Dict Text Json → Bool
listed_up af = elim (get (codes "peers") af) [
  | none ↦ true
  | some j ↦ elim (as_dict j) [
    | none ↦ false
    | some peers ↦ all (λ (e : Text × Json). peer_up e.1) peers
  ]
]

-- The peers under `ipv4Unicast`, or else those of the VRF itself, are established.
unfoldable pub peers_up : Dict Text Json → Bool
peers_up vrf = elim (get (codes "ipv4Unicast") vrf) [
  | none ↦ listed_up vrf
  | some family ↦ elim (as_dict family) [ none ↦ true | some af ↦ listed_up af ]
]

abbrev pub vrf_up : Json → Bool
vrf_up j = elim (as_dict j) [ none ↦ true | some vrf ↦ peers_up vrf ]

-- The peers that the loop reads can be read and are established.
abbrev read_up : Result (List Json) → Bool
read_up (ok peers) = all peer_up peers
read_up (raise e) = false

-- The VRFs of a summary: the summary itself where it is flat, or else its values.
abbrev pub vrfs_in : Json → Dict Text Json → List Json
vrfs_in data' d =
    if has_key (codes "ipv4Unicast") d || has_key (codes "peers") d then data' ∷ [] else values d
