-- ===== src/Worker/Breaker.antt =====
-- The circuit breaker, as its documentation states it.
use mathlib.Core.List.{tail}
use tinycloud_agents.Base.{
  ℕ, suc, ◌+◌, ◌≤◌, ◌<◌, ◌≡◌, refl, sym, subst, append-nil_inv, All, false, none, some, List, [],
  ◌∷◌, ◌++◌, map, length, arith,
}
use tinycloud_agents.Worker.{
  Worker, QueuedJob, Lane, read, write, closed, open_state, half_open, success, failure, Failure,
  circuit_open, Event, accepts, answers, expires, resumes, Turn, push, submit, accept, race, expire,
  release, resume, conclude, step, play, Effect, calls, resolves, rejects, ignores_late,
  record_failure, record_success, open_breaker,
}
use tinycloud_agents.Worker.Order.{
  order, fail_fast, pump_shut, pump_clear, first_call, pump-Calls, IsShut, idle_with,
}
use tinycloud_agents.Worker.Invariant.{Inv}

-- The times at which calls failed, one after the other, with no success in between.
abbrev pub fail_all : List ℕ → Worker → Worker
fail_all [] w = w
fail_all (now ∷ times) w = fail_all times (record_failure now w)

-- The number of node calls of a turn.
abbrev pub node_calls : List Effect → ℕ
node_calls [] = 0
node_calls (calls i ∷ xs) = suc (node_calls xs)
node_calls (x ∷ xs) = node_calls xs

failure_below :
    (now : ℕ) (w : Worker)
    → w.state ≡ closed
    → w.consecutive_failures + 1 < w.options.breaker_threshold
    → record_failure now w ≡ record w { consecutive_failures = w.consecutive_failures + 1 }
unfolding record_failure
failure_below now w e h = ground arith

-- Closed after the failures at `times`, and open for `breakerOpenMs` after one more at `now`.
abbrev pub Opens : List ℕ → ℕ → Worker → Type 0
Opens times now w =
    ((fail_all times w).state ≡ closed)
    × ((record_failure now (fail_all times w)).state ≡ open_state)
    × ((record_failure now (fail_all times w)).open_until ≡ now + w.options.breaker_open_ms)

-- A closed breaker stays closed for as many consecutive failures as leave the count below the
-- threshold, whenever they happen; the failure that reaches the threshold, at the time `now`, opens
-- it, until `breakerOpenMs` after `now`.
fail_all-Opens :
    (times : List ℕ) (now : ℕ) (w : Worker)
    → w.state ≡ closed
    → w.consecutive_failures + length times + 1 ≡ w.options.breaker_threshold
    → Opens times now w
unfolding record_failure
fail_all-Opens [] now w e h = ground arith
fail_all-Opens (t ∷ times) now w e h =
    let counted = record w { consecutive_failures = w.consecutive_failures + 1 } in
    let below : record_failure t w ≡ counted = failure_below t w e (omega arith) in
    let rest = fail_all-Opens times now counted e (omega arith) in
    (
      subst (λ v. (fail_all times v).state ≡ closed) (sym below) rest.0,
      subst (λ v. (record_failure now (fail_all times v)).state ≡ open_state) (sym below) rest.1,
      subst
          (λ v.
            (record_failure now (fail_all times v)).open_until ≡ now + w.options.breaker_open_ms)
          (sym below) rest.2,
    )

idle_when_shut : (now : ℕ) (w : Worker) → Inv w → IsShut now w → w.running ≡ false
idle_when_shut now w v s = ground arith

accept_empty_shut :
    (now : ℕ) (job : QueuedJob) (l : Lane) (w : Worker)
    → job.lane ≡ l
    → IsShut now w
    → 1 ≤ w.options.write_queue_limit
    → accept now job (idle_with w [] [])
      ≡ (idle_with w [] [], rejects job.id (circuit_open w.open_until) ∷ [])
unfolding accept submit push
accept_empty_shut now job read w e s room =
    ground (arith, pump_shut now (idle_with w (job ∷ []) []) refl s)
accept_empty_shut now job write w e s room =
    ground (arith, pump_shut now (idle_with w [] (job ∷ [])) refl s)

empty_self : (w : Worker) → w.running ≡ false → order w ≡ [] → idle_with w [] [] ≡ w
empty_self w idle due = ground (arith, append-nil_inv w.read_queue w.write_queue due)

-- While the breaker is open and its window has not elapsed, a submitted job is rejected at once,
-- the node is not called, and the worker stays as it is. The write lane must allow one job.
pub accept_shut :
    (now : ℕ) (job : QueuedJob) (w : Worker)
    → Inv w
    → IsShut now w
    → 1 ≤ w.options.write_queue_limit
    → accept now job w ≡ (w, rejects job.id (circuit_open w.open_until) ∷ [])
accept_shut now job w v s room =
    let idle = idle_when_shut now w v s in
    subst (λ u. accept now job u ≡ (u, rejects job.id (circuit_open w.open_until) ∷ []))
      (empty_self w idle (v.no_wedge idle)) (accept_empty_shut now job job.lane w refl s room)

no_flight_when_shut : (now : ℕ) (w : Worker) → Inv w → IsShut now w → w.flight ≡ none
no_flight_when_shut now w v s = ground (arith, idle_when_shut now w v s)

-- What a turn does while the breaker is shut.
abbrev pub shut_effects : ℕ → Event → List Effect
shut_effects open_until (accepts job) = rejects job.id (circuit_open open_until) ∷ []
shut_effects open_until (answers id o) = ignores_late id ∷ []
shut_effects open_until _ = []

step_shut :
    (now : ℕ) (e : Event) (w : Worker)
    → Inv w
    → IsShut now w
    → 1 ≤ w.options.write_queue_limit
    → step now e w ≡ (w, shut_effects w.open_until e)
unfolding step race expire resume
step_shut now (accepts job) w v s room = accept_shut now job w v s room
step_shut now (answers id o) w v s room = ground (arith, no_flight_when_shut now w v s)
step_shut now (expires id) w v s room = ground (arith, no_flight_when_shut now w v s)
step_shut now resumes w v s room = ground (arith, no_flight_when_shut now w v s)

abbrev pub all_shut_effects : ℕ → List (ℕ × Event) → List Effect
all_shut_effects open_until [] = []
all_shut_effects open_until ((now, e) ∷ es) =
    shut_effects open_until e ++ all_shut_effects open_until es

-- From a state that satisfies the invariant, with the breaker open and a write lane that allows a
-- job: for as long as every turn is before `openUntil`, the worker does not change, the node is not
-- called, every submitted job is rejected with `CircuitOpenError`, and late answers are ignored.
pub play_shut :
    (es : List (ℕ × Event)) (w : Worker)
    → Inv w
    → w.state ≡ open_state
    → All (λ e. e.0 < w.open_until) es
    → 1 ≤ w.options.write_queue_limit
    → play es w ≡ (w, all_shut_effects w.open_until es)
unfolding play
play_shut [] w v o early room = refl
play_shut ((now, e) ∷ es) w v o (first, later) room =
    ground (arith, step_shut now e w v (o, first) room, play_shut es w v o later room)

-- The probe: once the window has elapsed, the next job is called, and the breaker is half open.
pub record Probes (job : QueuedJob) (t : Turn) : Type 0 where
  pub called : t.1 ≡ calls job.id ∷ []
  pub half : t.0.state ≡ half_open
  pub alone : t.0.flight ≡ some (record { job = job; settled = none })
  pub others : order t.0 ≡ []

accept_empty-Probes :
    (now : ℕ) (job : QueuedJob) (l : Lane) (w : Worker)
    → job.lane ≡ l
    → w.state ≡ open_state
    → w.open_until ≤ now
    → 1 ≤ w.options.write_queue_limit
    → Probes job (accept now job (idle_with w [] []))
unfolding accept submit push
accept_empty-Probes now job read w e o late room =
    let c =
      pump-Calls now (idle_with w (job ∷ []) []) job [] refl (λ s. absurd (omega (arith, s.1)))
        refl in
    ground arith
accept_empty-Probes now job write w e o late room =
    let c =
      pump-Calls now (idle_with w [] (job ∷ [])) job [] refl (λ s. absurd (omega (arith, s.1)))
        refl in
    ground arith

-- In a state that satisfies the invariant, with the breaker open, its window elapsed and a write
-- lane that allows a job, a submitted job is the probe.
accept-Probes :
    (now : ℕ) (job : QueuedJob) (w : Worker)
    → Inv w
    → w.state ≡ open_state
    → w.open_until ≤ now
    → 1 ≤ w.options.write_queue_limit
    → Probes job (accept now job w)
accept-Probes now job w v o late room =
    let idle : w.running ≡ false = ground arith in
    subst (λ u. Probes job (accept now job u)) (empty_self w idle (v.no_wedge idle))
      (accept_empty-Probes now job job.lane w refl o late room)

-- A concluded probe decides the breaker at the time `now`. Success closes it with no failures
-- counted. Failure opens it for `breakerOpenMs` again, and if that is positive, rejects all that
-- waited behind the probe without calling the node.
resume_probe_failed :
    (now : ℕ) (w : Worker) (job : QueuedJob) (e : Failure)
    → w.state ≡ half_open
    → w.flight ≡ some (record { job = job; settled = some (failure e) })
    → 1 ≤ w.options.breaker_open_ms
    → let t = resume now w in
      (t.0.state ≡ open_state)
      × (t.0.open_until ≡ now + w.options.breaker_open_ms)
      × (order t.0 ≡ [])
      × (t.1 ≡ rejects job.id e ∷ map (fail_fast (now + w.options.breaker_open_ms)) (order w))
unfolding resume release conclude record_failure open_breaker
resume_probe_failed now w job e half held ms =
    ground (arith, pump_shut now (record (open_breaker now w) { running = false; flight = none }))

-- A job in flight that succeeded closes the breaker, with no failures counted, and the first due job
-- is called next.
resume_succeeded :
    (now : ℕ) (w : Worker) (job : QueuedJob) (v : ℕ)
    → w.flight ≡ some (record { job = job; settled = some (success v) })
    → let t = resume now w in
      (t.0.state ≡ closed)
      × (t.0.consecutive_failures ≡ 0)
      × (t.1 ≡ resolves job.id v ∷ first_call (order w))
      × (order t.0 ≡ tail (order w))
unfolding resume release conclude record_success
resume_succeeded now w job v held =
    let freed = record w {
      state = closed;
      consecutive_failures = 0;
      running = false;
      flight = none;
    } in
    ground (arith, pump_clear now freed refl (λ e. cc))
