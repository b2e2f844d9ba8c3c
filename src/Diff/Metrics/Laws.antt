-- ===== src/Diff/Metrics/Laws.antt =====
-- The counts of `_collect`, and the bounds of the rates.
use hammerhead_bench.Prelude.{
  ==_iff, List, Text, [], arith, if◌then◌else◌, list_eq, refl, ℕ, ℕ_eq, ◌+◌, ◌==◌, ◌∷◌, ◌≡◌, ◌≤◌,
}
use hammerhead_bench.Prelude.Dict.{Dict, IsDict, get, get-put, put, put-IsDict}
use hammerhead_bench.Prelude.Order.{text_order}
use hammerhead_bench.Diff.Engine.{DiffRecord}
use hammerhead_bench.Diff.Metrics.{
  SimRates, Simulator, bump, collect, collect_from, collect_step, no_rates, protocol_label,
  sim_proto_attr, tally,
}

-- The sum of a counter's values.
pub total : Dict Text ℕ → ℕ
total [] = 0
total ((k, n) ∷ d) = n + total d

tally-bump :
    (k j : Text) (d : Dict Text ℕ)
    → tally j (bump k d) ≡ (if j == k then tally j d + 1 else tally j d)
unfolding tally bump
tally-bump k j d = ground (arith, get-put k j (tally k d + 1) d, ==_iff j k)

total-put : (k : Text) (n : ℕ) (d : Dict Text ℕ) → total (put k n d) + tally k d ≡ total d + n
unfolding total put tally get
total-put k n [] = omega arith
total-put k n ((j, m) ∷ d) = ground (arith, total-put k n d)

total-bump : (k : Text) (d : Dict Text ℕ) → total (bump k d) ≡ total d + 1
unfolding bump
total-bump k d = omega (arith, total-put k (tally k d + 1) d)

bump-IsDict : (k : Text) (d : Dict Text ℕ) → IsDict d → IsDict (bump k d)
unfolding bump
bump-IsDict k d h = put-IsDict k (tally k d + 1) d h

-- The counts fit together: matches are among the common cells, BGP matches among the BGP cells, and
-- the counters by protocol split the totals.
pub record IsConsistent (r : SimRates) : Type 0 where
  pub next_hop_within : r.next_hop_match ≤ r.present_in_both
  pub protocol_within : r.protocol_match ≤ r.present_in_both
  pub bgp_total_within : r.bgp_total ≤ r.present_in_both
  pub bgp_attr_within : r.bgp_attr_match ≤ r.bgp_total
  pub split_total : total r.per_protocol_total ≡ r.present_in_both
  pub split_match : total r.per_protocol_match ≡ r.next_hop_match
  pub labels_distinct : IsDict r.per_protocol_total
  pub match_within : (k : Text) → tally k r.per_protocol_match ≤ tally k r.per_protocol_total

no_rates-IsConsistent : IsConsistent no_rates
unfolding total tally get
no_rates-IsConsistent = record {
  next_hop_within = omega arith;
  protocol_within = omega arith;
  bgp_total_within = omega arith;
  bgp_attr_within = omega arith;
  split_total = refl;
  split_match = refl;
  labels_distinct = tt;
  match_within = λ k. omega arith;
}

collect_step-IsConsistent :
    (which : Simulator) (rates : SimRates) (r : DiffRecord)
    → IsConsistent rates
    → IsConsistent (collect_step which rates r)
unfolding collect_step
collect_step-IsConsistent which rates r h =
    let label = protocol_label r.vendor_protocol (sim_proto_attr which r) in
    record {
      next_hop_within = ground arith;
      protocol_within = ground arith;
      bgp_total_within = ground arith;
      bgp_attr_within = ground arith;
      split_total = ground (arith, total-bump label rates.per_protocol_total);
      split_match = ground (arith, total-bump label rates.per_protocol_match);
      labels_distinct =
          ground (arith, bump-IsDict label rates.per_protocol_total h.labels_distinct);
      match_within = λ k. ground (
        arith,
        h.match_within k,
        tally-bump label k rates.per_protocol_total,
        tally-bump label k rates.per_protocol_match,
      );
    }

collect_from-IsConsistent :
    (which : Simulator) (rates : SimRates) (rs : List DiffRecord)
    → IsConsistent rates
    → IsConsistent (collect_from which rates rs)
unfolding collect_from
collect_from-IsConsistent which rates [] h = h
collect_from-IsConsistent which rates (r ∷ rs) h =
    collect_from-IsConsistent which (collect_step which rates r) rs
      (collect_step-IsConsistent which rates r h)

-- Whatever the records, the counts of one simulator fit together.
pub collect-IsConsistent :
    (rs : List DiffRecord) (which : Simulator) → IsConsistent (collect rs which)
unfolding collect
collect-IsConsistent rs which = collect_from-IsConsistent which no_rates rs no_rates-IsConsistent
