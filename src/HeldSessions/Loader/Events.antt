-- ===== src/HeldSessions/Loader/Events.antt =====
-- held-sessions.ts, class HeldSessions: timers, the index, requests and the state that is reported.
use tinycloud_agents.Base.{
  ℕ, zero, suc, length, Bool, true, false, ◌||◌, not, Option, none, some, List, [], ◌∷◌, ◌++◌,
  String, if◌then◌else◌, ◌===◌, text_eq,
}
use tinycloud_agents.Base.Map
use tinycloud_agents.Base.Map.{Map}
use tinycloud_agents.SessionStore.{SessionScope, key, known, peek, is_restoring, Op, apply}
use tinycloud_agents.HeldSessions.Reload.{Surroundings, Answer}
use tinycloud_agents.HeldSessions.Loader.{
  LoaderPhase, Backoff, HeldSessions, holds, includes, is_backing_off, run, pump, settle, advance,
  idle, indexing, ready, stopped,
}

-- The timer of a backoff ends it and puts the entity first.
abbrev pub lapsed : Backoff → Backoff
lapsed b = record b { until = 0; timer = false }

abbrev pub requeue : ℕ → HeldSessions → String → Option Backoff → HeldSessions
requeue now h entity_id none = h
requeue now h entity_id (some b) =
    if not b.timer
    then h
    else let waiting = record h { backoff = Map.set h.backoff entity_id (lapsed b) } in
      if includes h.pending entity_id
      then pump now (record waiting { queue = entity_id ∷ h.queue })
      else waiting

unfoldable pub timer_fires : ℕ → HeldSessions → String → HeldSessions
timer_fires now h entity_id = requeue now h entity_id (Map.get h.backoff entity_id)

-- `pending.add` for each stored entity that has no local state.
unfoldable pub add_pending : HeldSessions → List String → List String → List String
add_pending h [] pending = pending
add_pending h (entity_id ∷ rest) pending = add_pending h rest (
    if known h.reloads.sessions (key h.reloads.scope entity_id) || includes pending entity_id
    then pending
    else pending ++ entity_id ∷ [])

unfoldable pub first_of : ℕ → List String → List String
first_of zero xs = []
first_of (suc n) [] = []
first_of (suc n) (x ∷ xs) = x ∷ first_of n xs

-- The index has been loaded; a failure is tried again later.
unfoldable pub loaded : ℕ → HeldSessions → List String → HeldSessions
loaded now h entity_ids =
    let pending = add_pending h entity_ids h.pending in
    pump now (record h {
      pending = pending;
      queue = h.queue ++ first_of h.eager_limit pending;
      phase = ready;
    })

abbrev pub is_indexing : LoaderPhase → Bool
is_indexing indexing = true
is_indexing _ = false

unfoldable pub index : ℕ → HeldSessions → Option (List String) → HeldSessions
index now h none = h
index now h (some entity_ids) = if is_indexing h.phase then loaded now h entity_ids else h

-- `splice` at `indexOf`.
unfoldable pub remove_first : String → List String → List String
remove_first x [] = []
remove_first x (y ∷ ys) = let rest = remove_first x ys in if y === x then ys else y ∷ rest

-- A request jumps the queue, but not a backoff.
unfoldable pub prioritize : ℕ → HeldSessions → String → HeldSessions
prioritize now h entity_id =
    if not (includes h.pending entity_id) || Map.has h.inflight entity_id
    then h
    else let ahead = record h { queue = remove_first entity_id h.queue } in
      if is_backing_off now (Map.get h.backoff entity_id) then ahead else run ahead entity_id

unfoldable pub forget : HeldSessions → SessionScope → String → HeldSessions
forget h scope entity_id = if holds h scope then settle h entity_id else h

abbrev pub start_indexing : LoaderPhase → LoaderPhase
start_indexing idle = indexing
start_indexing indexing = indexing
start_indexing ready = ready
start_indexing stopped = stopped

unfoldable pub start : HeldSessions → HeldSessions
start h = record h { phase = start_indexing h.phase }

abbrev pub without_timers : Map String Backoff → Map String Backoff
without_timers [] = []
without_timers ((k, b) ∷ rest) = (k, record b { timer = false }) ∷ without_timers rest

unfoldable pub stop : HeldSessions → HeldSessions
stop h = record h { phase = stopped; backoff = without_timers h.backoff }

abbrev pub is_running_phase : LoaderPhase → Bool
is_running_phase idle = false
is_running_phase stopped = false
is_running_phase indexing = true
is_running_phase ready = true

unfoldable pub is_restoring_entity : HeldSessions → SessionScope → String → Bool
is_restoring_entity h scope entity_id =
    if not (holds h scope) || not (is_running_phase h.phase)
    then false
    else is_indexing h.phase
      || includes h.pending entity_id
      || elim (peek h.reloads.sessions (key scope entity_id)) [
        | none ↦ false
        | some snap ↦ is_restoring snap.state
      ]

pub data HealthState : Type 0 where
  health_indexing health_restoring health_ready health_stopped : HealthState

unfoldable pub health_state : LoaderPhase → List String → HealthState
health_state idle pending = health_ready
health_state indexing pending = health_indexing
health_state stopped pending = health_stopped
health_state ready [] = health_ready
health_state ready (x ∷ xs) = health_restoring

unfoldable pub health : HeldSessions → HealthState × ℕ
health h = (health_state h.phase h.pending, length h.pending)

pub data Event : Type 0 where
  starts stops : Event
  indexes : Option (List String) → Event
  advances : String → Answer → Event
  fires : String → Event
  prioritizes : String → Event
  forgets : SessionScope → String → Event
  calls : Op → Event

unfoldable pub step : Surroundings → HeldSessions → ℕ → Event → HeldSessions
step w h now starts = start h
step w h now stops = stop h
step w h now (indexes entity_ids) = index now h entity_ids
step w h now (advances entity_id a) = advance w now h entity_id (Map.get h.inflight entity_id) a
step w h now (fires entity_id) = timer_fires now h entity_id
step w h now (prioritizes entity_id) = prioritize now h entity_id
step w h now (forgets scope entity_id) = forget h scope entity_id
step w h now (calls o) = record h {
  reloads = record h.reloads { sessions = apply h.reloads.sessions o };
}

unfoldable pub play : Surroundings → HeldSessions → List (ℕ × Event) → HeldSessions
play w h [] = h
play w h ((now, e) ∷ es) = play w (step w h now e) es
