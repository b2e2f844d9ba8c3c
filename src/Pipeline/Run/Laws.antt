-- ===== src/Pipeline/Run/Laws.antt =====
-- When a run passes, when its caller gets it, and what becomes of its lab.
use mathlib.Core.Path.{subst}
use hammerhead_bench.Prelude.{
  Bool, [], all, arith, false, if◌then◌else◌, is_some, not, refl, sym, true, ℕ_eq, ◌&&◌, ◌||◌, ◌∙◌,
  ◌≡◌,
}
use hammerhead_bench.Pipeline.Run.{
  Ending, Fates, Hooks, Outcome, Run, begun, destroyed, does_return, finish, half_deployed,
  has_passed, phases, returned, run_of, run_topology, tear_down, try_phases,
}
use hammerhead_bench.Pipeline.Run.Finally.{
  does_return-tear_down, ending_returns, paths_of, tear_down-IsKept,
}
use hammerhead_bench.Pipeline.Run.Phases.{
  IsEnded, clear_deploys, clear_ends, clear_lem, half_deployed_ends, is_clear, paths_asked, pending,
  phases_keep, raises_nothing, reaches_deploy, try_phases-IsEnded,
}

-- How a run ends: whether the caller gets it, and what it has become, also if an exception leaves it.
pub record IsRun (hooks : Hooks) (clear keep : Bool) (f : Fates) (e : Ending) (out : Outcome)
    : Type 0 where
  pub returns :
      does_return out
      ≡ (not ((run_of out).lab && (clear || not keep)) || ending_returns e (run_of out).baseline)
  pub deploys :
      clear ≡ true
      → ((run_of out).lab ≡ true)
        × ((run_of out).baseline ≡ true)
        × (paths_of (run_of out) ≡ paths_asked hooks)
  pub passes : has_passed (run_of out) ≡ clear
  pub raises : is_some (run_of out).error ≡ not clear
  pub torn_down :
      e.destroying ≡ destroyed
      → (clear || not keep && not (half_deployed f)) ≡ true
      → (run_of out).live ≡ false
  pub left_up :
      (clear || not keep) ≡ false
      → (half_deployed f ≡ false → (run_of out).live ≡ (run_of out).lab) × ((run_of out).notes ≡ [])
  pub abandoned :
      half_deployed f ≡ true → ((run_of out).live ≡ reaches_deploy f) × ((run_of out).lab ≡ false)

-- What the `try` block leaves: how it ended, and what it says of the lab.
pub record IsTried (hooks : Hooks) (clear : Bool) (f : Fates) (r : Run) : Type 0 where
  pub ended : IsEnded (half_deployed f) clear r
  pub whole : clear ≡ true → half_deployed f ≡ false
  pub deployed :
      clear ≡ true → (r.lab ≡ true) × (r.baseline ≡ true) × (paths_of r ≡ paths_asked hooks)
  pub half : half_deployed f ≡ true → (r.lab ≡ false) × (r.live ≡ reaches_deploy f)

left_alone :
    (hooks : Hooks) (clear keep : Bool) (f : Fates) (e : Ending) (r : Run)
    → IsTried hooks clear f r
    → (r.lab && (clear || not keep)) ≡ false
    → IsRun hooks clear keep f e (returned r)
left_alone hooks clear keep f e r t alone =
    let h = t.ended in
    record {
      returns = rw alone refl;
      deploys = t.deployed;
      passes = h.passes;
      raises = h.raises;
      torn_down = λ w o. ground (arith, alone, t.whole, h.live);
      left_up = λ o. (h.live, h.notes);
      abandoned = λ a. ((t.half a).1, (t.half a).0);
    }

torn :
    (hooks : Hooks) (clear keep : Bool) (f : Fates) (e : Ending) (r : Run)
    → IsTried hooks clear f r
    → (r.lab && (clear || not keep)) ≡ true
    → IsRun hooks clear keep f e (tear_down e r)
torn hooks clear keep f e r t up =
    let h = t.ended in
    let k = tear_down-IsKept e r in
    record {
      returns = does_return-tear_down e r ∙ ground (arith, up, k.lab, k.baseline);
      deploys = λ c. let (l, b, p) = t.deployed c in (k.lab ∙ l, k.baseline ∙ b, k.paths ∙ p);
      passes = ground (arith, k.status, h.passes);
      raises = ground (arith, k.error, h.raises);
      torn_down = λ w o. ground (arith, w, k.live);
      left_up = λ o. absurd (ground (arith, up, o));
      abandoned = λ a. let half = t.half a in absurd (ground (arith, up));
    }

finish-IsRun :
    (hooks : Hooks) (clear keep : Bool) (f : Fates) (e : Ending) (r : Run)
    → IsTried hooks clear f r
    → IsRun hooks clear keep f e (finish keep e r)
unfolding finish
finish-IsRun hooks clear keep f e r t =
    subst
      (λ b.
        IsRun hooks clear keep f e (if r.lab && (b || not keep) then tear_down e r else returned r))
      (sym t.ended.passes) (go (r.lab && (clear || not keep)) refl)
  where
    go :
        (b : Bool)
        → (r.lab && (clear || not keep)) ≡ b
        → IsRun hooks clear keep f e (if b then tear_down e r else returned r)
    go true up = torn hooks clear keep f e r t up
    go false alone = left_alone hooks clear keep f e r t alone

pub run_topology-IsRun :
    (has_driver : Bool) (hooks : Hooks) (f : Fates) (keep : Bool) (e : Ending)
    → (let out = run_topology has_driver hooks f keep e in
        (has_driver ≡ false → (does_return out ≡ false) × ((run_of out).live ≡ false))
        × (has_driver ≡ true → IsRun hooks (raises_nothing hooks f) keep f e out))
unfolding run_topology
run_topology-IsRun false hooks f keep e = (λ d. (refl, refl), λ d. absurd cc)
run_topology-IsRun true hooks f keep e =
    let r = try_phases (phases hooks f) begun in
    (
      λ d. absurd cc,
      λ d.
          subst (λ clear. IsRun hooks clear keep f e (finish keep e r)) (clear_lem hooks f)
            (finish-IsRun hooks (all is_clear (phases hooks f)) keep f e r (record {
              ended =
                  try_phases-IsEnded (half_deployed f) (phases hooks f) begun (phases_keep hooks f)
                    (pending (half_deployed f) begun refl refl (λ h. refl) refl);
              whole = clear_deploys hooks f;
              deployed = clear_ends hooks f;
              half = half_deployed_ends hooks f;
            })),
    )
