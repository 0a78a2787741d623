-- ===== src/WriteLane.antt =====
-- packages/eliza-plugin-memory/src/write-lane.ts: the process-wide lane of writes.
--
-- A write is numbered by the promise that `runWrite` returns. `executing` holds the suspended
-- `execute` activations, whose number the source keeps in `inFlight`. A job starts when `fn()` is
-- called, and the event loop later settles it.
pub mod Laws
mod Tests
use tinycloud_agents.Base.{
  ℕ, ◌+◌, ◌-◌, Bool, true, false, Option, none, some, List, [], ◌∷◌, ◌++◌, ltb, leb, length,
  if◌then◌else◌, nat_beq, ◌||◌,
}

pub record WriteLane : Type 0 where
  pub concurrency : ℕ
  pub max_queue_depth : ℕ
  pub in_flight : ℕ
  pub executing : List ℕ
  pub queue : List ℕ

pub data Effect : Type 0 where
  starts : ℕ → Effect
  settles : ℕ → Effect
  overflows : ℕ → ℕ → Effect

abbrev pub Turn : Type 0
Turn = WriteLane × List Effect

pub new : ℕ → ℕ → WriteLane
new concurrency max_queue_depth = record {
  concurrency = concurrency;
  max_queue_depth = max_queue_depth;
  in_flight = 0;
  executing = [];
  queue = [];
}

-- `this.inFlight++; this.execute(…)`.
begin : ℕ → WriteLane → WriteLane
begin id w = record w { in_flight = w.in_flight + 1; executing = id ∷ w.executing }

pub run_write : ℕ → WriteLane → Turn
run_write id w =
    if ltb w.in_flight w.concurrency
    then (begin id w, starts id ∷ [])
    else (if leb w.max_queue_depth (length w.queue)
        then (w, overflows id (length w.queue) ∷ [])
        else (record w { queue = w.queue ++ id ∷ [] }, []))

-- The loop of `pump`, over the queue.
pump_from : List ℕ → WriteLane → Turn
pump_from [] w = (record w { queue = [] }, [])
pump_from (next ∷ rest) w =
    let (w', effects) = pump_from rest (begin next w) in
    if ltb w.in_flight w.concurrency
    then (w', starts next ∷ effects)
    else (record w { queue = next ∷ rest }, [])

pub pump : WriteLane → Turn
pump w = pump_from w.queue w

abbrev pub contains : ℕ → List ℕ → Bool
contains id [] = false
contains id (x ∷ xs) = nat_beq x id || contains id xs

abbrev pub remove : ℕ → List ℕ → List ℕ
remove id [] = []
remove id (x ∷ xs) = if nat_beq x id then xs else x ∷ remove id xs

-- The rest of `execute` after `await fn()`, with its `finally`: the write `id` has settled.
pub finish : ℕ → WriteLane → Turn
finish id w =
    if contains id w.executing
    then (let (w', effects) =
          pump (record w { in_flight = w.in_flight - 1; executing = remove id w.executing }) in
        (w', settles id ∷ effects))
    else (w, [])

pub data Event : Type 0 where
  runs : ℕ → Event
  finishes : ℕ → Event

pub step : Event → WriteLane → Turn
step (runs id) w = run_write id w
step (finishes id) w = finish id w

pub play : List Event → WriteLane → Turn
play [] w = (w, [])
play (e ∷ es) w =
    let (w', effects) = step e w in let (w'', more) = play es w' in (w'', effects ++ more)
