-- ===== src/Drivers/Hammerhead/Laws.antt =====
-- What a run of Hammerhead that returns has checked, written and counted.
use hammerhead_bench.Prelude.{
  Bool, List, Option, Text, [], all, codes, contains, length, list_eq, map, none, pair_eq, pos,
  some, true, ℕ_eq, ℤ, ℤ_eq, ◌&&◌, ◌==◌, ◌||◌, ◌∷◌, ◌≡◌,
}
use hammerhead_bench.Prelude.Order.{text_order}
use hammerhead_bench.Prelude.Sort.{sort}
use hammerhead_bench.Prelude.Dict.{Dict, IsDict, get, keys}
use hammerhead_bench.Prelude.Items.{put_all}
use hammerhead_bench.Json.{Json, as_dict, look}
use hammerhead_bench.Json.Fields.{Validation, ok}
use hammerhead_bench.Fib.{NodeFib}
use hammerhead_bench.Convert.Hammerhead.{transform_rib_view}
use hammerhead_bench.Drivers.Hammerhead.{
  HammerheadStats, count_routes, exit_coverage_degraded, extract_rib_map, named_hosts, parse_json,
  place_of, same_host, says_degraded, verdict_of,
}

-- The answers that are scored: those of exit code 0, and of 3 if they say that they are degraded.
abbrev pub is_accepted : ℤ → Dict Text Json → Bool
is_accepted rc bulk = rc == pos 0 || (rc == exit_coverage_degraded && says_degraded bulk)

-- Each host with its FIB, in the order of the hosts.
abbrev pub AreFibsOf : Validation → Dict Text (Dict Text Json) → List Text → List NodeFib → Type 0
AreFibsOf v rib_map [] [] = Unit
AreFibsOf v rib_map (h ∷ hosts) (fib ∷ fibs) =
    ((view : Dict Text Json) × (get h rib_map ≡ some view)
      × (transform_rib_view v view (codes "default") ≡ ok fib))
    × AreFibsOf v rib_map hosts fibs
AreFibsOf v rib_map _ _ = ⊥

-- No expected host that is not blank is missing.
abbrev pub is_complete : Option (List Text) → Dict Text (Dict Text Json) → Bool
is_complete none rib_map = true
is_complete (some expected) rib_map = all (λ h. contains h (keys rib_map)) (named_hosts expected)

-- A run that returns: the answer, its hosts and FIBs, and what was written and counted.
pub record IsRun (v : Validation) (expected : Option (List Text)) (rc : ℤ) (out : Option Json)
    (stats : HammerheadStats) (files : Dict (Text × Text) NodeFib) : Type 0 where
  pub bulk : Dict Text Json
  pub fibs : List NodeFib
  pub parsed : parse_json out ≡ ok bulk
  pub accepted : is_accepted rc bulk ≡ true
  pub distinct : IsDict (extract_rib_map bulk)
  pub complete : is_complete expected (extract_rib_map bulk) ≡ true
  pub converted :
      AreFibsOf v (extract_rib_map bulk) (sort same_host (keys (extract_rib_map bulk))) fibs
  pub devices : stats.device_count ≡ length fibs
  pub routes : stats.total_routes ≡ count_routes fibs
  pub verdict : verdict_of (as_dict (look (codes "coverage") bulk)) ≡ ok stats.coverage
  pub written : files ≡ put_all (map place_of fibs) []
