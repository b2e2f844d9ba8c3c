-- ===== src/Batfish/Service.antt =====
-- `BatfishService`: one container and one session for many runs. What the runner, the session and
-- the clock do is decided outside and stands in the operations.
pub mod Laws
pub mod Warm
pub mod Refinement
use hammerhead_bench.Prelude.{
  Bool, List, Option, [], false, filter, if◌then◌else◌, is_some, ltb, none, not, some, suc, true, ℕ,
  ℕ_eq, ◌&&◌, ◌==◌, ◌||◌, ◌∷◌,
}

-- What `start` meets: `docker run` raises; the container never gets ready or the session cannot be
-- opened; or all is well, after a time in milliseconds.
pub data StartFate : Type 0 where
  no_container : StartFate
  not_ready : StartFate
  ready : ℕ → StartFate

-- What stopping a container does: it is gone, or the call raises and it may be there still.
pub data StopFate : Type 0 where
  stopped : StopFate
  stop_raises : StopFate

-- The fields of the object that change, and the containers on the host. `next` is the identifier
-- that `docker run` gives next.
pub record World : Type 0 where
  pub container_id : Option ℕ
  pub session : Bool
  pub calls : ℕ
  pub container_start : ℕ
  pub running : List ℕ
  pub next : ℕ

abbrev pub fresh : World
fresh = record {
  container_id = none;
  session = false;
  calls = 0;
  container_start = 0;
  running = [];
  next = 0;
}

-- What an operation gives: it returns, it raises, or it returns the `warm` and `container_start_s` of
-- the statistics.
pub data Reply : Type 0 where
  returned : Reply
  raised : Reply
  ran : Bool → ℕ → Reply

-- `self._runner.stop(id)` on the host; an exception is only logged.
unfoldable pub stop_container : StopFate → ℕ → List ℕ → List ℕ
stop_container stopped c running = filter (λ d. not (d == c)) running
stop_container stop_raises c running = running

unfoldable pub start : StartFate → StopFate → World → World × Reply
unfolding stop_container
start fate stop w = elim w.container_id [
  | some c ↦ (w, returned)
  | none ↦ elim fate [
    | no_container ↦ (w, raised)
    | not_ready ↦ (
      record w {
        session = false;
        running = stop_container stop w.next (w.next ∷ w.running);
        next = suc w.next;
      },
      raised,
    )
    | ready elapsed ↦ (
      record w {
        container_id = some w.next;
        session = true;
        container_start = elapsed;
        running = w.next ∷ w.running;
        next = suc w.next;
      },
      returned,
    )
  ]
]

unfoldable pub close : StopFate → World → World
unfolding stop_container
close stop w = elim w.container_id [
  | none ↦ w
  | some c ↦ record w {
    container_id = none;
    session = false;
    running = stop_container stop c w.running;
  }
]

-- The end of `run_one`, once its work is done. The file of the statistics can be written.
unfoldable pub count_run : World → World × Reply
count_run w =
    let warm = ltb 0 w.calls in
    (record w { calls = suc w.calls }, ran warm (if warm then 0 else w.container_start))

-- The rest of `run_one` after starting the service: the assertion that it has started, and the work
-- on the snapshot, which succeeds or raises.
unfoldable pub work_on : Bool → World × Reply → World × Reply
unfolding count_run
work_on succeeds (w, raised) = (w, raised)
work_on succeeds (w, _) =
    if is_some w.container_id && w.session && succeeds then count_run w else (w, raised)

unfoldable pub run_one : StartFate → StopFate → Bool → World → World × Reply
unfolding start work_on
run_one fate stop succeeds w =
    work_on succeeds
      (if not (is_some w.container_id) || not w.session then start fate stop w else (w, returned))

-- A call of one of the three methods.
pub data Call : Type 0 where
  call_start : StartFate → StopFate → Call
  call_close : StopFate → Call
  call_run : StartFate → StopFate → Bool → Call

unfoldable pub perform : Call → World → World × Reply
unfolding start close run_one
perform (call_start fate stop) w = start fate stop w
perform (call_close stop) w = (close stop w, returned)
perform (call_run fate stop succeeds) w = run_one fate stop succeeds w

-- A service and its calls in order, whoever makes them.
unfoldable pub perform_all : List Call → World → World × List Reply
unfolding perform
perform_all [] w = (w, [])
perform_all (c ∷ cs) w =
    let (w', reply) = perform c w in
    let (w'', replies) = perform_all cs w' in (w'', reply ∷ replies)
