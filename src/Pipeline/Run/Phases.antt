-- ===== src/Pipeline/Run/Phases.antt =====
-- What the phases of a run leave: its status, its lab, its baseline and its paths.
use hammerhead_bench.Prelude.{
  All, Bool, List, Option, [], all, arith, false, if◌then◌else◌, is_some, none, not, refl, some,
  true, ℕ_eq, ◌&&◌, ◌++◌, ◌||◌, ◌∷◌, ◌≡◌,
}
use hammerhead_bench.Pipeline.Run.{
  Fates, Fault, Hooks, Phase, Run, begun, deploy_lab, failed, half_deployed, has_passed, phases,
  plain, try_phases,
}
use hammerhead_bench.Pipeline.Run.Finally.{paths_of}

-- The phase raises nothing.
abbrev pub is_clear : Phase → Bool
is_clear p = not (is_some p.before) && not (is_some p.after)

-- What holds of the run while the phases go on, given whether the deploy leaves containers up when it
-- raises.
pub record IsPending (half : Bool) (r : Run) : Type 0 where
  pub status : r.status ≡ failed
  pub error : r.error ≡ none
  pub live : half ≡ false → r.live ≡ r.lab
  pub notes : r.notes ≡ []

-- What holds when they have ended.
pub record IsEnded (half clear : Bool) (r : Run) : Type 0 where
  pub passes : has_passed r ≡ clear
  pub raises : is_some r.error ≡ not clear
  pub live : half ≡ false → r.live ≡ r.lab
  pub notes : r.notes ≡ []

-- A change that keeps what holds.
abbrev pub Keeps : Bool → Phase → Type 0
Keeps half p = (r : Run) → IsPending half r → IsPending half (p.change r)

pub try_phases-IsEnded :
    (half : Bool) (ps : List Phase) (r : Run)
    → All (Keeps half) ps
    → IsPending half r
    → IsEnded half (all is_clear ps) (try_phases ps r)
unfolding try_phases all
try_phases-IsEnded half [] r k h = record {
  passes = refl;
  raises = ground (arith, h.error);
  live = h.live;
  notes = h.notes;
}
try_phases-IsEnded half (p ∷ ps) r k h =
    go p.before p.after (k.0 r h) (try_phases-IsEnded half ps (p.change r) k.1 (k.0 r h))
  where
    go :
        (b a : Option Fault)
        → IsPending half (p.change r)
        → IsEnded half (all is_clear ps) (try_phases ps (p.change r))
        → IsEnded half (not (is_some b) && not (is_some a) && all is_clear ps) (elim b [
          | some fault ↦ record r { error = some fault }
          | none ↦ elim a [
            | some fault ↦ let changed = p.change r in record changed { error = some fault }
            | none ↦ try_phases ps (p.change r)
          ]
        ])
    go (some e) a h' ih = record {
      passes = ground (arith, h.status);
      raises = refl;
      live = h.live;
      notes = h.notes;
    }
    go none (some e) h' ih = record {
      passes = ground (arith, h'.status);
      raises = refl;
      live = h'.live;
      notes = h'.notes;
    }
    go none none h' ih = ih

pub pending :
    (half : Bool) (r : Run)
    → r.status ≡ failed
    → r.error ≡ none
    → (half ≡ false → r.live ≡ r.lab)
    → r.notes ≡ []
    → IsPending half r
pending half r s e l n = record { status = s; error = e; live = l; notes = n }

-- The phases that depend on the hooks, and all phases.
hook_phases_keep :
    (half b u : Bool) (f : Fates)
    → All (Keeps half) (
        (if b then plain f.run_batfish (λ r. record r { batfish_path = true }) ∷ [] else [])
        ++ (if u
            then record {
              before = f.run_hammerhead;
              change = λ r. record r { hammerhead_path = true };
              after = f.read_coverage;
            }
              ∷ []
            else [])
        ++ (if b || u then plain f.compute_diff (λ r. record r { diff_path = true }) ∷ [] else []))
hook_phases_keep half true true f = (
  λ r h. pending _ _ h.status h.error h.live h.notes,
  (
    λ r h. pending _ _ h.status h.error h.live h.notes,
    (λ r h. pending _ _ h.status h.error h.live h.notes, tt),
  ),
)
hook_phases_keep half true false f = (
  λ r h. pending _ _ h.status h.error h.live h.notes,
  (λ r h. pending _ _ h.status h.error h.live h.notes, tt),
)
hook_phases_keep half false true f = (
  λ r h. pending _ _ h.status h.error h.live h.notes,
  (λ r h. pending _ _ h.status h.error h.live h.notes, tt),
)
hook_phases_keep half false false f = tt

deploy_lab-Keeps : (f : Fates) → Keeps (half_deployed f) (deploy_lab f)
unfolding deploy_lab
deploy_lab-Keeps f = go (half_deployed f)
  where
    go :
        (half : Bool)
        → Keeps half (
            if half
            then record { before = none; change = λ r. record r { live = true }; after = f.deploy }
            else plain f.deploy (λ r. record r { lab = true; live = true }))
    go true r h = pending _ _ h.status h.error (λ e. absurd cc) h.notes
    go false r h = pending _ _ h.status h.error (λ e. refl) h.notes

pub phases_keep : (hooks : Hooks) (f : Fates) → All (Keeps (half_deployed f)) (phases hooks f)
unfolding phases
phases_keep hooks f = (
  λ r h. pending _ _ h.status h.error h.live h.notes,
  (
    λ r h. pending _ _ h.status h.error h.live h.notes,
    (
      λ r h. h,
      (
        λ r h. h,
        (
          deploy_lab-Keeps f,
          (
            λ r h. pending _ _ h.status h.error h.live h.notes,
            (
              λ r h. h,
              (
                λ r h. h,
                (
                  λ r h. pending _ _ h.status h.error h.live h.notes,
                  hook_phases_keep _ hooks.batfish hooks.hammerhead f,
                ),
              ),
            ),
          ),
        ),
      ),
    ),
  ),
)

-- The phases before the deploy raise nothing.
abbrev pub reaches_deploy : Fates → Bool
reaches_deploy f =
    not (is_some f.first_sample)
    && not (is_some f.first_log)
    && not (is_some f.headroom)
    && not (is_some f.render)

-- A clear run has not half deployed its lab.
pub clear_deploys :
    (hooks : Hooks) (f : Fates) → all is_clear (phases hooks f) ≡ true → half_deployed f ≡ false
unfolding phases deploy_lab half_deployed all
clear_deploys hooks f h = ground arith

-- What a deploy that raises with containers up leaves of the `try` block.
pub half_deployed_ends :
    (hooks : Hooks) (f : Fates)
    → half_deployed f ≡ true
    → (let r = try_phases (phases hooks f) begun in (r.lab ≡ false) × (r.live ≡ reaches_deploy f))
unfolding phases try_phases deploy_lab half_deployed
half_deployed_ends hooks f h = (ground arith, ground arith)

-- Nothing raises that the hooks ask for.
abbrev pub raises_nothing : Hooks → Fates → Bool
raises_nothing hooks f =
    reaches_deploy f
    && (not (is_some f.deploy)
        && (not (is_some f.second_sample)
            && (not (is_some f.second_log)
                && (not (is_some f.converge)
                    && (not (is_some f.extract)
                        && (not (is_some f.write)
                            && ((not hooks.batfish || not (is_some f.run_batfish))
                                && ((not hooks.hammerhead
                                      || (not (is_some f.run_hammerhead)
                                          && not (is_some f.read_coverage)))
                                    && (not (hooks.batfish || hooks.hammerhead)
                                        || not (is_some f.compute_diff))))))))))

pub clear_lem : (hooks : Hooks) (f : Fates) → all is_clear (phases hooks f) ≡ raises_nothing hooks f
unfolding phases deploy_lab half_deployed all
clear_lem hooks f = ground arith

-- A clear run has deployed its lab, has a baseline, and has set the paths that the hooks ask for.
abbrev pub paths_asked : Hooks → Bool × Bool × Bool × Bool
paths_asked hooks = (true, hooks.batfish, hooks.hammerhead, hooks.batfish || hooks.hammerhead)

pub clear_ends :
    (hooks : Hooks) (f : Fates)
    → all is_clear (phases hooks f) ≡ true
    → (let r = try_phases (phases hooks f) begun in
        (r.lab ≡ true) × (r.baseline ≡ true) × (paths_of r ≡ paths_asked hooks))
unfolding phases try_phases deploy_lab half_deployed all
clear_ends hooks f h = (ground arith, ground arith, ground arith)
