-- ===== src/Worker.antt =====
-- packages/agent-client/src/worker.ts: the one serialized request worker.
--
-- A step of the event loop is one call of `step`: it runs the synchronous part of a turn and
-- returns the new state with the effects of the turn, in order. Jobs are numbered, the number
-- standing for the promise that `submit` returns; a turn reads the clock once. The locals of the
-- suspended `runJob` and `dispatch` activations (the job and `settled`) are the field `flight`.
pub mod Accounting
pub mod Order
pub mod Breaker
pub mod Invariant
pub mod Timeout
mod Tests
use tinycloud_agents.Base.{
  ℕ, zero, suc, ◌+◌, Bool, true, false, Option, none, some, List, [], ◌∷◌, ◌++◌, String, leb,
  length, if◌then◌else◌, ◌===◌, number_eq,
}

pub data Lane : Type 0 where
  read write : Lane

pub data BreakerState : Type 0 where
  closed open_state half_open : BreakerState

-- The errors that the worker rejects with; `failed` is the rejection of the job itself.
pub data Failure : Type 0 where
  timed_out : ℕ → Option String → Failure
  queue_full : ℕ → Failure
  circuit_open : ℕ → Failure
  failed : ℕ → Failure

pub record WorkerOptions : Type 0 where
  pub request_timeout_ms : ℕ
  pub write_queue_limit : ℕ
  pub breaker_threshold : ℕ
  pub breaker_open_ms : ℕ

pub record QueuedJob : Type 0 where
  pub id : ℕ
  pub lane : Lane
  pub label : Option String

-- What the race of `dispatch` settled with, once it has.
pub data Outcome : Type 0 where
  success : ℕ → Outcome
  failure : Failure → Outcome

pub record Flight : Type 0 where
  pub job : QueuedJob
  pub settled : Option Outcome

pub record Worker : Type 0 where
  pub options : WorkerOptions
  pub read_queue : List QueuedJob
  pub write_queue : List QueuedJob
  pub running : Bool
  pub flight : Option Flight
  pub state : BreakerState
  pub consecutive_failures : ℕ
  pub open_until : ℕ

-- `calls` is a call of the node: `job.run()`. `resolves` and `rejects` settle the caller's promise.
pub data Effect : Type 0 where
  calls : ℕ → Effect
  resolves : ℕ → ℕ → Effect
  rejects : ℕ → Failure → Effect
  warns : ℕ → Effect
  ignores_late : ℕ → Effect

abbrev pub Turn : Type 0
Turn = Worker × List Effect

pub default_options : WorkerOptions
default_options = record {
  request_timeout_ms = 10000;
  write_queue_limit = 50;
  breaker_threshold = 5;
  breaker_open_ms = 120000;
}

pub new : WorkerOptions → Worker
new options = record {
  options = options;
  read_queue = [];
  write_queue = [];
  running = false;
  flight = none;
  state = closed;
  consecutive_failures = 0;
  open_until = 0;
}

-- Reads first, then writes.
next_job : Worker → Option (QueuedJob × Worker)
next_job w = elim w.read_queue [
  | job ∷ rest ↦ some (job, record w { read_queue = rest })
  | [] ↦ elim w.write_queue [ job ∷ rest ↦ some (job, record w { write_queue = rest }) | [] ↦ none ]
]

abbrev pub depth : Worker → ℕ
depth w = length w.read_queue + length w.write_queue

pub data Gate : Type 0 where
  run reject : Gate

-- `breakerGate`, with the state that it leaves.
breaker_gate : ℕ → Worker → Worker × Gate
breaker_gate now w = elim w.state [
  | closed ↦ (w, run)
  | half_open ↦ (w, run)
  | open_state ↦ if leb w.open_until now then (record w { state = half_open }, run) else (w, reject)
]

pub open_breaker : ℕ → Worker → Worker
open_breaker now w = record w { state = open_state; open_until = now + w.options.breaker_open_ms }

pub record_success : Worker → Worker
record_success w = record w { state = closed; consecutive_failures = 0 }

-- The part of `recordFailure` behind the early return.
pub count_failure : ℕ → Worker → Worker
unfolding open_breaker
count_failure now w =
    let counted = record w { consecutive_failures = w.consecutive_failures + 1 } in
    if leb w.options.breaker_threshold counted.consecutive_failures
    then open_breaker now counted
    else counted

pub record_failure : ℕ → Worker → Worker
unfolding open_breaker count_failure
record_failure now w = elim w.state [
  | half_open ↦ open_breaker now w
  | closed ↦ count_failure now w
  | open_state ↦ count_failure now w
]

-- `runJob` up to its first `await`: a rejected job releases the slot, and `pump` goes on.
start : QueuedJob → Worker × Gate → (Worker → Turn) → Turn
start job (w, run) next = (
  record w { running = true; flight = some (record { job = job; settled = none }) },
  calls job.id ∷ [],
)
start job (w, reject) next =
    let (w', effects) = next (record w { running = false }) in
    (w', rejects job.id (circuit_open w.open_until) ∷ effects)

-- The fuel is the number of queued jobs, each round takes one.
pump_from : ℕ → ℕ → Worker → Turn
pump_from now zero w = (w, [])
pump_from now (suc fuel) w = elim w.running [
  | true ↦ (w, [])
  | false ↦ elim (next_job w) [
    | none ↦ (w, [])
    | some (job, w') ↦ start job (breaker_gate now w') (pump_from now fuel)
  ]
]

pub pump : ℕ → Worker → Turn
pump now w = pump_from now (depth w) w

push : QueuedJob → Worker → Worker
push job w = elim job.lane [
  | read ↦ record w { read_queue = w.read_queue ++ job ∷ [] }
  | write ↦ record w { write_queue = w.write_queue ++ job ∷ [] }
]

pub submit : ℕ → QueuedJob → Worker → Turn
submit now job w = pump now (push job w)

-- `Worker.read` and `Worker.write`, by the lane; only the write lane is bounded.
pub accept : ℕ → QueuedJob → Worker → Turn
accept now job w = elim job.lane [
  | read ↦ submit now job w
  | write ↦
      if leb w.options.write_queue_limit (length w.write_queue)
      then (w, warns job.id ∷ rejects job.id (queue_full w.options.write_queue_limit) ∷ [])
      else submit now job w
]

-- The race in `dispatch`: the first outcome counts, and later ones are ignored. A job that is no
-- longer in flight has settled.
pub race : ℕ → Outcome → Worker → Turn
race id outcome w = elim w.flight [
  | none ↦ (w, ignores_late id ∷ [])
  | some f ↦ elim f.settled [
    | some _ ↦ (w, ignores_late id ∷ [])
    | none ↦
        if f.job.id === id
        then (record w { flight = some (record f { settled = some outcome }) }, [])
        else (w, ignores_late id ∷ [])
  ]
]

-- The timer of `dispatch` runs out; it says nothing if the job has settled.
pub expire : ℕ → Worker → Turn
unfolding race
expire id w = elim w.flight [
  | none ↦ (w, [])
  | some f ↦ elim f.settled [
    | some _ ↦ (w, [])
    | none ↦
        if f.job.id === id
        then race id (failure (timed_out w.options.request_timeout_ms f.job.label)) w
        else (w, [])
  ]
]

-- The rest of `runJob` after `await this.dispatch(job)`, with its `finally`.
pub conclude : ℕ → QueuedJob → Outcome → Worker → Worker × Effect
unfolding record_success record_failure
conclude now job (success v) w = (record_success w, resolves job.id v)
conclude now job (failure e) w = (record_failure now w, rejects job.id e)

pub release : ℕ → Worker × Effect → Turn
release now (w, effect) =
    let (w', effects) = pump now (record w { running = false; flight = none }) in
    (w', effect ∷ effects)

pub resume : ℕ → Worker → Turn
resume now w = elim w.flight [
  | none ↦ (w, [])
  | some f ↦ elim f.settled [
    | none ↦ (w, [])
    | some outcome ↦ release now (conclude now f.job outcome w)
  ]
]

-- What the event loop can do next: a call of `read` or `write`, the node's answer to job `id`, its
-- timer, or the continuation of the job in flight.
pub data Event : Type 0 where
  accepts : QueuedJob → Event
  answers : ℕ → Outcome → Event
  expires : ℕ → Event
  resumes : Event

pub step : ℕ → Event → Worker → Turn
step now (accepts job) w = accept now job w
step now (answers id outcome) w = race id outcome w
step now (expires id) w = expire id w
step now resumes w = resume now w

-- A history: the time of each turn, and what happened in it.
pub play : List (ℕ × Event) → Worker → Turn
play [] w = (w, [])
play ((now, e) ∷ es) w =
    let (w', effects) = step now e w in let (w'', more) = play es w' in (w'', effects ++ more)
