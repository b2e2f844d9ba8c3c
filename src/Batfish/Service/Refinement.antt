-- ===== src/Batfish/Service/Refinement.antt =====
-- What a client sees of `BatfishService`: a switch with a counter, without containers and sessions.
use mathlib.Core.Path.{subst}
use hammerhead_bench.Prelude.{
  Bool, List, Option, [], false, if◌then◌else◌, is_some, ltb, none, refl, some, suc, sym, true, ℕ,
  ℕ_eq, ◌∷◌, ◌≡◌,
}
use hammerhead_bench.Batfish.Service.{
  Call, Reply, StartFate, StopFate, World, call_close, call_run, call_start, fresh, no_container,
  not_ready, perform, perform_all, raised, ran, ready, returned,
}

-- Whether the service is on, the runs that it has done, and what its last start cost.
pub record Switch : Type 0 where
  pub on : Bool
  pub runs : ℕ
  pub cost : ℕ

abbrev pub switched_off : Switch
switched_off = record { on = false; runs = 0; cost = 0 }

abbrev pub is_ready : StartFate → Bool
is_ready no_container = false
is_ready not_ready = false
is_ready (ready elapsed) = true

-- The statistics of the next run: the first one alone is cold and bears the cost of the last start.
abbrev pub reply_of : Switch → Reply
reply_of s = ran (ltb 0 s.runs) (if ltb 0 s.runs then 0 else s.cost)

abbrev pub started_in : ℕ → Switch → Switch
started_in elapsed s = record s { on = true; cost = elapsed }

-- How the switch answers a call. How a container is stopped plays no part.
pub data Serves : Switch → Call → Switch → Reply → Type 0 where
  stays_on :
      {s : Switch} (fate : StartFate) (stop : StopFate)
      → s.on ≡ true
      → Serves s (call_start fate stop) s returned
  turns_on :
      {s : Switch} (elapsed : ℕ) (stop : StopFate)
      → s.on ≡ false
      → Serves s (call_start (ready elapsed) stop) (started_in elapsed s) returned
  stays_off :
      {s : Switch} (fate : StartFate) (stop : StopFate)
      → s.on ≡ false
      → is_ready fate ≡ false
      → Serves s (call_start fate stop) s raised
  turns_off :
      {s : Switch} (stop : StopFate) → Serves s (call_close stop) (record s { on = false }) returned
  runs_once :
      {s : Switch} (fate : StartFate) (stop : StopFate)
      → s.on ≡ true
      → Serves s (call_run fate stop true) (record s { runs = suc s.runs }) (reply_of s)
  run_raises :
      {s : Switch} (fate : StartFate) (stop : StopFate)
      → s.on ≡ true
      → Serves s (call_run fate stop false) s raised
  turns_on_first :
      {s t : Switch} {r : Reply} (elapsed : ℕ) (stop : StopFate) (succeeds : Bool)
      → s.on ≡ false
      → Serves (started_in elapsed s) (call_run (ready elapsed) stop succeeds) t r
      → Serves s (call_run (ready elapsed) stop succeeds) t r
  run_unstarted :
      {s : Switch} (fate : StartFate) (stop : StopFate) (succeeds : Bool)
      → s.on ≡ false
      → is_ready fate ≡ false
      → Serves s (call_run fate stop succeeds) s raised

-- How it answers calls in order.
pub data Trace : Switch → List Call → Switch → List Reply → Type 0 where
  ends : {s : Switch} → Trace s [] s []
  goes :
      {s t u : Switch} {c : Call} {cs : List Call} {r : Reply} {rs : List Reply}
      → Serves s c t r
      → Trace t cs u rs
      → Trace s (c ∷ cs) u (r ∷ rs)

-- What the switch shows of the service.
abbrev pub switch_of : World → Switch
switch_of w = record { on = is_some w.container_id; runs = w.calls; cost = w.container_start }

-- There is a session exactly while there is a container.
abbrev HasSession : World → Type 0
HasSession w = w.session ≡ is_some w.container_id

abbrev Refines : World → Call → World × Reply → Type 0
Refines w c (w', r) = Serves (switch_of w) c (switch_of w') r × HasSession w'

abbrev served : Option ℕ → ℕ → ℕ → List ℕ → ℕ → World
served container calls cost running next = record {
  container_id = container;
  session = is_some container;
  calls = calls;
  container_start = cost;
  running = running;
  next = next;
}

perform-served :
    (container : Option ℕ) (calls cost : ℕ) (running : List ℕ) (next : ℕ) (c : Call)
    → Refines
        (served container calls cost running next)
        c
        (perform c (served container calls cost running next))
unfolding perform
perform-served (some i) n k l x (call_start fate stop) = (stays_on fate stop refl, refl)
perform-served none n k l x (call_start no_container stop) =
    (stays_off no_container stop refl refl, refl)
perform-served none n k l x (call_start not_ready stop) = (stays_off not_ready stop refl refl, refl)
perform-served none n k l x (call_start (ready t) stop) = (turns_on t stop refl, refl)
perform-served (some i) n k l x (call_close stop) = (turns_off stop, refl)
perform-served none n k l x (call_close stop) = (turns_off stop, refl)
perform-served (some i) n k l x (call_run fate stop true) = (runs_once fate stop refl, refl)
perform-served (some i) n k l x (call_run fate stop false) = (run_raises fate stop refl, refl)
perform-served none n k l x (call_run no_container stop b) =
    (run_unstarted no_container stop b refl refl, refl)
perform-served none n k l x (call_run not_ready stop b) =
    (run_unstarted not_ready stop b refl refl, refl)
perform-served none n k l x (call_run (ready t) stop true) =
    (turns_on_first t stop true refl (runs_once (ready t) stop refl), refl)
perform-served none n k l x (call_run (ready t) stop false) =
    (turns_on_first t stop false refl (run_raises (ready t) stop refl), refl)

perform-Refines : (w : World) (c : Call) → HasSession w → Refines w c (perform c w)
perform-Refines w c h =
    let same : served w.container_id w.calls w.container_start w.running w.next ≡ w =
      λ i. record w { session = sym h i } in
    subst (λ (v : World). Refines v c (perform c v)) same
      (perform-served w.container_id w.calls w.container_start w.running w.next c)

from-Trace :
    (cs : List Call) (w : World)
    → HasSession w
    → Trace (switch_of w) cs (switch_of (perform_all cs w).0) (perform_all cs w).1
unfolding perform_all
from-Trace [] w h = ends
from-Trace (c ∷ cs) w h =
    let (s, h') = perform-Refines w c h in goes s (from-Trace cs (perform c w).0 h')

-- The service refines the switch: whatever the calls on a new service, and however the containers
-- start and stop, its replies and what the switch shows of its state are a trace of the switch.
pub perform_all-Trace :
    (cs : List Call)
    → Trace switched_off cs (switch_of (perform_all cs fresh).0) (perform_all cs fresh).1
perform_all-Trace cs = from-Trace cs fresh refl
