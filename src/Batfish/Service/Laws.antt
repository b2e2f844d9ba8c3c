-- ===== src/Batfish/Service/Laws.antt =====
-- No container outlives the service, as long as stopping a container works.
use hammerhead_bench.Prelude.{
  All, Bool, List, Option, [], arith, false, filter, if◌then◌else◌, is_some, none, not, refl, some,
  suc, true, ℕ, ℕ_eq, ◌&&◌, ◌||◌, ◌∷◌, ◌≡◌,
}
use hammerhead_bench.Batfish.Service.{
  Call, Reply, StartFate, World, call_close, call_run, call_start, close, count_run, fresh,
  no_container, not_ready, perform, perform_all, raised, ran, ready, returned, run_one, start,
  stop_container, stop_raises, stopped, work_on,
}

-- The containers that the service holds.
abbrev pub held : Option ℕ → List ℕ
held none = []
held (some c) = c ∷ []

-- The service has a session exactly while it has a container, and this is the only one running.
pub record IsTidy (w : World) : Type 0 where
  pub session : w.session ≡ is_some w.container_id
  pub running : w.running ≡ held w.container_id

-- Stopping works in this call.
abbrev pub stops : Call → Bool
stops (call_start fate stopped) = true
stops (call_start fate stop_raises) = false
stops (call_close stopped) = true
stops (call_close stop_raises) = false
stops (call_run fate stopped succeeds) = true
stops (call_run fate stop_raises succeeds) = false

start-IsTidy : (fate : StartFate) (w : World) → IsTidy w → IsTidy (start fate stopped w).0
unfolding start stop_container filter
start-IsTidy fate w h = go w.container_id refl fate
  where
    go : (c : Option ℕ) → w.container_id ≡ c → (f : StartFate) → IsTidy (start f stopped w).0
    go none e no_container = record {
      session = ground (arith, h.session);
      running = ground (arith, h.running);
    }
    go none e not_ready = record {
      session = ground (arith, h.session);
      running = ground (arith, h.running);
    }
    go none e (ready t) = record {
      session = ground (arith, h.session);
      running = ground (arith, h.running);
    }
    go (some c) e f = record {
      session = ground (arith, h.session);
      running = ground (arith, h.running);
    }

close-IsTidy : (w : World) → IsTidy w → IsTidy (close stopped w)
unfolding close stop_container filter
close-IsTidy w h = go w.container_id refl
  where
    go : (c : Option ℕ) → w.container_id ≡ c → IsTidy (close stopped w)
    go none e = record { session = ground (arith, h.session); running = ground (arith, h.running) }
    go (some c) e = record {
      session = ground (arith, h.session);
      running = ground (arith, h.running);
    }

work_on-IsTidy :
    (succeeds : Bool) (w : World) (r : Reply) → IsTidy w → IsTidy (work_on succeeds (w, r)).0
unfolding work_on count_run
work_on-IsTidy succeeds w r h = go (is_some w.container_id && w.session && succeeds) r
  where
    counted : IsTidy (record w { calls = suc w.calls })
    counted = record { session = h.session; running = h.running }

    pick : Bool → World × Reply
    pick b = if b then count_run w else (w, raised)

    go' : (b : Bool) → IsTidy (pick b).0
    go' true = counted
    go' false = h

    go : (b : Bool) (r' : Reply) → IsTidy (work_on succeeds (w, r')).0
    go b raised = h
    go b returned = go' (is_some w.container_id && w.session && succeeds)
    go b (ran warm cost) = go' (is_some w.container_id && w.session && succeeds)

run_one-IsTidy :
    (fate : StartFate) (succeeds : Bool) (w : World)
    → IsTidy w
    → IsTidy (run_one fate stopped succeeds w).0
unfolding run_one
run_one-IsTidy fate succeeds w h = go (not (is_some w.container_id) || not w.session)
  where
    pick : Bool → World × Reply
    pick b = if b then start fate stopped w else (w, returned)

    go : (b : Bool) → IsTidy (work_on succeeds (pick b)).0
    go true =
        work_on-IsTidy succeeds (start fate stopped w).0 (start fate stopped w).1
          (start-IsTidy fate w h)
    go false = work_on-IsTidy succeeds w returned h

perform-IsTidy : (c : Call) (w : World) → stops c ≡ true → IsTidy w → IsTidy (perform c w).0
unfolding perform
perform-IsTidy (call_start fate stopped) w s h = start-IsTidy fate w h
perform-IsTidy (call_start fate stop_raises) w s h = absurd cc
perform-IsTidy (call_close stopped) w s h = close-IsTidy w h
perform-IsTidy (call_close stop_raises) w s h = absurd cc
perform-IsTidy (call_run fate stopped succeeds) w s h = run_one-IsTidy fate succeeds w h
perform-IsTidy (call_run fate stop_raises succeeds) w s h = absurd cc

IsTidy-perform_all :
    (cs : List Call) (w : World)
    → All (λ c. stops c ≡ true) cs
    → IsTidy w
    → IsTidy (perform_all cs w).0
unfolding perform_all
IsTidy-perform_all [] w s h = h
IsTidy-perform_all (c ∷ cs) w s h =
    IsTidy-perform_all cs (perform c w).0 s.1 (perform-IsTidy c w s.0 h)

close_none_left : (w : World) → IsTidy w → (close stopped w).running ≡ []
unfolding close stop_container filter
close_none_left w h = go w.container_id refl
  where
    go : (c : Option ℕ) → w.container_id ≡ c → (close stopped w).running ≡ []
    go none e = ground (arith, h.running)
    go (some c) e = ground (arith, h.running)

-- Whatever the calls on a new service, and whether containers start, get ready or do their work, if
-- stopping works in each call then the service has a session exactly while it has a container,
-- that container is the only one running, and none is left after `close`.
pub perform_all-IsTidy :
    (cs : List Call)
    → All (λ c. stops c ≡ true) cs
    → IsTidy (perform_all cs fresh).0 × ((close stopped (perform_all cs fresh).0).running ≡ [])
perform_all-IsTidy cs s =
    let tidy = IsTidy-perform_all cs fresh s (record { session = refl; running = refl }) in
    (tidy, close_none_left (perform_all cs fresh).0 tidy)
