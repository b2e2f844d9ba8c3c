-- ===== src/Tests/Scores.antt =====
-- Two small indexes, how they are reconciled and scored, and verdicts of three trials.
use hammerhead_bench.Prelude.{
  List, [], codes, contains, false, list_beq, list_eq, none, option_eq, pair_beq, refl, some, true,
  ℕ_eq, ℤ_eq, ◌∷◌,
}
use hammerhead_bench.Prelude.Dict.{IsDict}
use hammerhead_bench.Fib.{LoopbackPolicy, NodeFib, Protocol_eq, batfish, hammerhead}
use hammerhead_bench.Diff.Key.{Index, RouteKey_eq, key_beq}
use hammerhead_bench.Pipeline.Loopback.{reconcile, sim_only_index}
use hammerhead_bench.Pipeline.Loopback.Strip.{IsStripped, reconcile-IsStripped}
use hammerhead_bench.Pipeline.Loopback.Mirror.{IsMirrored, reconcile-IsMirrored}
use hammerhead_bench.Pipeline.Pairwise.{Pairwise}
use hammerhead_bench.Pipeline.SimOnly.{compute_sim_only_agreement}
use hammerhead_bench.Pipeline.SimOnly.Laws.{IsScored, compute_sim_only_agreement-IsScored}
use hammerhead_bench.Pipeline.Coverage.{CoverageVerdict, rollup_hammerhead_coverage}
use hammerhead_bench.Pipeline.Coverage.Laws.{IsRollup, rollup_hammerhead_coverage-IsRollup}
use hammerhead_bench.Tests.Diffs.{fib, key, loop, route_a, route_b}

-- Both have 10.1.0.0/16; the second alone has a loopback host.
abbrev left : Index
left = (key route_a.prefix, route_a) ∷ (key route_b.prefix, route_b) ∷ []

abbrev right : Index
right = (key loop.prefix, loop) ∷ (key route_a.prefix, route_a) ∷ []

left-IsDict : IsDict left
unfolding contains key_beq pair_beq list_beq
left-IsDict = (refl, (refl, tt))

right-IsDict : IsDict right
unfolding contains key_beq pair_beq list_beq
right-IsDict = (refl, (refl, tt))

reconcile-IsStripped_example :
    IsStripped left right left-IsDict right-IsDict (reconcile left right LoopbackPolicy.strip)
reconcile-IsStripped_example = reconcile-IsStripped left right left-IsDict right-IsDict

reconcile-IsMirrored_example :
    IsMirrored left right left-IsDict right-IsDict (reconcile left right LoopbackPolicy.materialize)
reconcile-IsMirrored_example = reconcile-IsMirrored left right left-IsDict right-IsDict

abbrev pub bat : List NodeFib
bat = fib batfish (route_a ∷ route_b ∷ []) ∷ []

abbrev pub ham : List NodeFib
ham = fib hammerhead (route_a ∷ loop ∷ []) ∷ []

compute_sim_only_agreement-IsScored_example :
    (p : Pairwise) × (strict : Pairwise) × IsScored
      (sim_only_index bat LoopbackPolicy.strip)
      (sim_only_index ham LoopbackPolicy.strip)
      LoopbackPolicy.strip
      (compute_sim_only_agreement bat ham LoopbackPolicy.strip).0
      p
      strict
compute_sim_only_agreement-IsScored_example =
    compute_sim_only_agreement-IsScored bat ham LoopbackPolicy.strip

-- One of three trials is degraded, and two recorded the same blocker.
abbrev trials : List CoverageVerdict
trials =
    record { status = some (codes "complete"); degraded = some false; blockers = some [] }
    ∷ record { status = some []; degraded = some true; blockers = some (codes "acl" ∷ []) }
    ∷ record { status = none; degraded = none; blockers = some (codes "acl" ∷ []) }
    ∷ []

rollup_hammerhead_coverage-IsRollup_example : IsRollup trials (rollup_hammerhead_coverage trials)
rollup_hammerhead_coverage-IsRollup_example = rollup_hammerhead_coverage-IsRollup trials
