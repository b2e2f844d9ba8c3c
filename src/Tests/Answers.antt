-- ===== src/Tests/Answers.antt =====
-- An answer of Hammerhead over a degraded snapshot, with one host, polls of docker stats, and EOS's
-- table of BGP paths.
use hammerhead_bench.Prelude.{
  Bool, List, Option, String, Text, [], codes, false, is_empty, is_space, list_beq, list_eq, lstrip,
  none, pair_eq, pos, refl, some, starts_with, strip, true, ℕ_eq, ℤ, ℤ_eq, ◌++◌, ◌∷◌, ◌≡◌,
}
use hammerhead_bench.Prelude.Order.{text_order}
use hammerhead_bench.Prelude.Dict.{Dict, get}
use hammerhead_bench.Json.{
  Json, array, array_of, as_dict, boolean, item, items_of, look, members_of, no_items, no_members,
  null, number, object, object_of, text, truthy,
}
use hammerhead_bench.Json.Fields.{Result, iterate, iterate_key, need_dict, ok, strict}
use hammerhead_bench.Json.Words.{str_of, str_or_empty}
use hammerhead_bench.Fib.{NodeFib, Protocol_eq, hammerhead}
use hammerhead_bench.Convert.Flatten.{
  as_path_text, flat_path, flat_paths, flat_routes, flat_vrfs, flatten_eos_bgp, is_bestpath,
  items_in,
}
use hammerhead_bench.Pipeline.Sidecar.{coverage_json, holds, read_hammerhead_coverage}
use hammerhead_bench.Pipeline.Sidecar.Laws.{
  has_coverage_key, read_hammerhead_coverage-coverage_json, read_status,
}
use hammerhead_bench.Drivers.Hammerhead.{Clock, HammerheadStats, PeakRssReading, run_hammerhead}
use hammerhead_bench.Prelude.Ratio.{Ratio}
use hammerhead_bench.PeakRss.{
  DockerPoll, add_sample, after_prefix, answered, digits, errored, line_mb, number_of,
  parse_memusage_mb, round_div, sample_loop, sampled, stop, ten_to, unit_of, unit_to_mb, usable,
  value_of,
}
use hammerhead_bench.PeakRss.Laws.{IsPeak, sampled-IsPeak}

abbrev str : String → Json
str s = text (codes s)

abbrev view_of : String → Json
view_of host =
    object (object_of ((codes "hostname", str host) ∷ (codes "entries", array no_items) ∷ []))

abbrev degraded_bulk : Dict Text Json
degraded_bulk =
    (codes "rib", object (object_of ((codes " r2 ", view_of "r2") ∷ [])))
    ∷ (
      codes "coverage",
      object (
          object_of (
            (codes "degraded", boolean true)
            ∷ (codes "blockers", array (item (str "acl") no_items))
            ∷ [])),
    )
    ∷ []

abbrev empty_host : Text → NodeFib
empty_host name = record { node = name; vrf = codes "default"; source = hammerhead; routes = [] }

abbrev clock : Clock
clock = record { sim_s = 1000; total_s = 1500 }

abbrev no_peak : PeakRssReading
no_peak = record { mb = none; sample_count = 0; source = codes "rusage" }

abbrev one_stats : HammerheadStats
one_stats = record {
  simulate_s = 1000;
  rib_total_s = 0;
  device_count = 1;
  total_routes = 0;
  total_s = 1500;
  peak_rss_mb = none;
  peak_rss_source = none;
  peak_rss_sample_count = 0;
  coverage = record { status = none; degraded = some true; blockers = some (codes "acl" ∷ []) };
}

abbrev one_files : Dict (Text × Text) NodeFib
one_files = ((codes "r2", codes "default"), empty_host (codes "r2")) ∷ []

abbrev ran : ℤ → Option (List Text) → Result (HammerheadStats × Dict (Text × Text) NodeFib)
ran rc expected =
    run_hammerhead strict clock no_peak expected rc (some (object (object_of degraded_bulk)))

abbrev docker_polls : List DockerPoll
docker_polls =
    errored
    ∷ answered 0 ([] ∷ codes " 1.25GiB / 4GiB" ∷ [])
    ∷ answered 1 (codes "9GiB / 9GiB" ∷ [])
    ∷ answered 0 (codes "512.5 MiB/ 4GiB" ∷ [])
    ∷ answered 0 (codes "-- / --" ∷ [])
    ∷ []

docker_reading : sampled docker_polls ≡ record { mb = some 1280; sample_count = 2 }
unfolding sampled sample_loop stop usable add_sample parse_memusage_mb line_mb value_of unit_of
    unit_to_mb after_prefix digits number_of ten_to round_div is_empty lstrip strip starts_with
    is_space
docker_reading = refl

-- Half a MB goes to the even neighbour.
half_down : round_div 1025 2 ≡ 512
unfolding round_div
half_down = refl

sampled-IsPeak_example : (peak : Ratio) × IsPeak docker_polls (sampled docker_polls) peak
sampled-IsPeak_example = sampled-IsPeak docker_polls

abbrev other_fields : Dict Text Json
other_fields = (codes "topology", str "ring") ∷ (codes "device_count", number (pos 1)) ∷ []

other_fields_apart : has_coverage_key other_fields ≡ false
unfolding get list_beq
other_fields_apart = refl

read_hammerhead_coverage-coverage_json_example :
    read_hammerhead_coverage
      (holds (some (object (object_of (other_fields ++ coverage_json one_stats.coverage)))))
    ≡ record one_stats.coverage { status = read_status one_stats.coverage.status }
read_hammerhead_coverage-coverage_json_example =
    read_hammerhead_coverage-coverage_json other_fields one_stats.coverage other_fields_apart

-- Two paths, of which the second is not the best, and a prefix without paths.
abbrev eos_bgp : Json
eos_bgp = object (
    object_of (
      (
        codes "vrfs",
        object (
            object_of (
              (
                codes "default",
                object (
                    object_of (
                      (
                        codes "bgpRouteEntries",
                        object (
                            object_of (
                              (
                                codes "10.0.0.0/8",
                                object (
                                    object_of (
                                      (
                                        codes "bgpRoutePaths",
                                        array (
                                            array_of (
                                              object (
                                                object_of (
                                                  (
                                                    codes "asPathEntry",
                                                    object (
                                                        object_of
                                                          ((codes "asPath", str "65001") ∷ [])),
                                                  )
                                                  ∷ (codes "med", number (pos 5))
                                                  ∷ []))
                                              ∷ object (
                                                  object_of
                                                    ((codes "reasonNotBestpath", str "older") ∷ []))
                                              ∷ [])),
                                      )
                                      ∷ [])),
                              )
                              ∷ (codes "10.1.0.0/16", object no_members)
                              ∷ [])),
                      )
                      ∷ [])),
              )
              ∷ [])),
      )
      ∷ []))

abbrev frr_path : Bool → String → Json → Json
frr_path best path metric = object (
    object_of (
      (codes "bestpath", boolean best)
      ∷ (codes "path", str path)
      ∷ (codes "locPrf", null)
      ∷ (codes "metric", metric)
      ∷ []))

eos_bgp_flat :
    flatten_eos_bgp eos_bgp
    ≡ ok (
        (
          codes "default",
          object (
              object_of (
                (
                  codes "routes",
                  object (
                      object_of (
                        (
                          codes "10.0.0.0/8",
                          array (
                              array_of (
                                frr_path true "65001" (number (pos 5))
                                ∷ frr_path false "" null
                                ∷ [])),
                        )
                        ∷ [])),
                )
                ∷ (codes "vrfName", str "default")
                ∷ [])),
        )
        ∷ [])
unfolding flatten_eos_bgp flat_vrfs flat_routes flat_paths flat_path is_bestpath as_path_text
    items_in need_dict iterate_key iterate as_dict look get list_beq members_of object_of items_of
    array_of is_empty str_or_empty str_of truthy
eos_bgp_flat = refl
