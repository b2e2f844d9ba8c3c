-- ===== src/Batfish/Service/Warm.antt =====
-- Which runs the statistics call warm, and which one bears the cost of the start.
use hammerhead_bench.Prelude.{
  Bool, List, Option, [], arith, false, if◌then◌else◌, is_some, ltb, none, not, refl, some, suc,
  true, ℕ, ℕ_eq, ◌&&◌, ◌<◌, ◌||◌, ◌∙◌, ◌∷◌, ◌≡◌,
}
use hammerhead_bench.Batfish.Service.{
  Call, Reply, StartFate, StopFate, World, call_close, call_run, call_start, close, count_run,
  fresh, no_container, not_ready, perform, perform_all, raised, ran, ready, returned, run_one,
  start, stop_container, work_on,
}

-- Every run is warm and bears no cost of a start.
abbrev pub AllWarm : List Reply → Type 0
AllWarm [] = Unit
AllWarm (ran warm cost ∷ rs) = (warm ≡ true) × (cost ≡ 0) × AllWarm rs
AllWarm (_ ∷ rs) = AllWarm rs

-- The first run is cold, and all later ones are warm.
abbrev pub ColdFirst : List Reply → Type 0
ColdFirst [] = Unit
ColdFirst (ran warm cost ∷ rs) = (warm ≡ false) × AllWarm rs
ColdFirst (_ ∷ rs) = ColdFirst rs

-- What one call does to the number of runs.
abbrev pub Counts : World → World × Reply → Type 0
Counts w (w', ran warm cost) =
    (w'.calls ≡ suc w.calls) × (warm ≡ ltb 0 w.calls) × (warm ≡ true → cost ≡ 0)
Counts w (w', _) = w'.calls ≡ w.calls

start_calls :
    (fate : StartFate) (stop : StopFate) (w : World) → (start fate stop w).0.calls ≡ w.calls
unfolding start
start_calls fate stop w = ground arith

start-Counts : (fate : StartFate) (stop : StopFate) (w : World) → Counts w (start fate stop w)
unfolding start
start-Counts fate stop w = go w.container_id fate
  where
    go :
        (c : Option ℕ) (f : StartFate)
        → Counts w (elim c [
          | some i ↦ (w, returned)
          | none ↦ elim f [
            | no_container ↦ (w, raised)
            | not_ready ↦ (
              record w {
                session = false;
                running = stop_container stop w.next (w.next ∷ w.running);
                next = suc w.next;
              },
              raised,
            )
            | ready elapsed ↦ (
              record w {
                container_id = some w.next;
                session = true;
                container_start = elapsed;
                running = w.next ∷ w.running;
                next = suc w.next;
              },
              returned,
            )
          ]
        ])
    go (some i) f = refl
    go none no_container = refl
    go none not_ready = refl
    go none (ready t) = refl

-- The calls so far of a world, and how the work goes on from it.
work_on-Counts :
    (succeeds : Bool) (v w : World) (r : Reply)
    → w.calls ≡ v.calls
    → Counts v (work_on succeeds (w, r))
unfolding work_on count_run
work_on-Counts succeeds v w raised e = e
work_on-Counts succeeds v w returned e = go (is_some w.container_id && w.session && succeeds)
  where
    go : (b : Bool) → Counts v (if b then count_run w else (w, raised))
    go true = (ground arith, ground arith, ground arith)
    go false = e
work_on-Counts succeeds v w (ran warm cost) e = go (is_some w.container_id && w.session && succeeds)
  where
    go : (b : Bool) → Counts v (if b then count_run w else (w, raised))
    go true = (ground arith, ground arith, ground arith)
    go false = e

run_one-Counts :
    (fate : StartFate) (stop : StopFate) (succeeds : Bool) (w : World)
    → Counts w (run_one fate stop succeeds w)
unfolding run_one
run_one-Counts fate stop succeeds w = go (not (is_some w.container_id) || not w.session)
  where
    go : (b : Bool) → Counts w (work_on succeeds (if b then start fate stop w else (w, returned)))
    go true =
        work_on-Counts succeeds w (start fate stop w).0 (start fate stop w).1
          (start_calls fate stop w)
    go false = work_on-Counts succeeds w w returned refl

close_calls : (stop : StopFate) (w : World) → (close stop w).calls ≡ w.calls
unfolding close
close_calls stop w = ground arith

perform-Counts : (c : Call) (w : World) → Counts w (perform c w)
unfolding perform
perform-Counts (call_start fate stop) w = start-Counts fate stop w
perform-Counts (call_close stop) w = close_calls stop w
perform-Counts (call_run fate stop succeeds) w = run_one-Counts fate stop succeeds w

later_runs : (cs : List Call) (w : World) → 0 < w.calls → AllWarm (perform_all cs w).1
unfolding perform_all
later_runs [] w h = tt
later_runs (c ∷ cs) w h = go (perform c w) (perform-Counts c w) (later_runs cs)
  where
    go :
        (o : World × Reply)
        → Counts w o
        → ((w' : World) → 0 < w'.calls → AllWarm (perform_all cs w').1)
        → AllWarm (o.1 ∷ (perform_all cs o.0).1)
    go (w', returned) n ih = ih w' (ground arith)
    go (w', raised) n ih = ih w' (ground arith)
    go (w', ran warm cost) n ih =
        let hot : warm ≡ true = ground (arith, n.1) in (hot, n.2 hot, ih w' (ground arith))

first_runs : (cs : List Call) (w : World) → w.calls ≡ 0 → ColdFirst (perform_all cs w).1
unfolding perform_all
first_runs [] w h = tt
first_runs (c ∷ cs) w h = go (perform c w) (perform-Counts c w) (first_runs cs)
  where
    go :
        (o : World × Reply)
        → Counts w o
        → ((w' : World) → w'.calls ≡ 0 → ColdFirst (perform_all cs w').1)
        → ColdFirst (o.1 ∷ (perform_all cs o.0).1)
    go (w', returned) n ih = ih w' (n ∙ h)
    go (w', raised) n ih = ih w' (n ∙ h)
    go (w', ran warm cost) n ih = (ground (arith, n.1), later_runs cs w' (ground arith))

-- Whatever the calls on a new service, the first run that succeeds is reported as cold and every
-- later one as warm, without any cost of a start: also one for which the service had to start
-- again after a `close`.
pub perform_all-ColdFirst : (cs : List Call) → ColdFirst (perform_all cs fresh).1
perform_all-ColdFirst cs = first_runs cs fresh refl
