-- ===== src/Worker/Order.antt =====
-- How `pump` empties the queues: which jobs it fails fast, and which one it calls the node for.
use mathlib.Core.List.{tail, append_assoc}
use tinycloud_agents.Base.{
  ℕ, zero, suc, ◌+◌, ◌≤◌, ◌<◌, ◌≡◌, refl, subst, ◌≢◌, ◌⊎◌, inl, inr, true, false, none, some, List,
  [], ◌∷◌, ◌++◌, map, length, arith, Bool-cases, List-cases,
}
use tinycloud_agents.Worker.{
  Worker, QueuedJob, BreakerState, closed, open_state, half_open, Effect, calls, rejects,
  circuit_open, Turn, run, next_job, breaker_gate, start, pump_from, pump, read, write, accept,
  submit, push,
}

-- The jobs in the order in which they are due.
abbrev pub order : Worker → List QueuedJob
order w = w.read_queue ++ w.write_queue

-- The breaker is open and its window has not elapsed.
abbrev pub IsShut : ℕ → Worker → Type 0
IsShut now w = (w.state ≡ open_state) × (now < w.open_until)

abbrev pub fail_fast : ℕ → QueuedJob → Effect
fail_fast open_until job = rejects job.id (circuit_open open_until)

abbrev pub idle_with : Worker → List QueuedJob → List QueuedJob → Worker
idle_with w reads writes = record w { read_queue = reads; write_queue = writes; running = false }

-- While the breaker is shut, every queued job is rejected, in order, and nothing else happens.
pump_from_shut :
    (now fuel : ℕ) (reads writes : List QueuedJob) (w : Worker)
    → IsShut now w
    → length reads + length writes ≤ fuel
    → pump_from now fuel (idle_with w reads writes)
      ≡ (idle_with w [] [], map (fail_fast w.open_until) (reads ++ writes))
unfolding pump_from next_job breaker_gate start
pump_from_shut now zero [] [] w s h = refl
pump_from_shut now zero [] (j ∷ writes) w s h = absurd (omega arith)
pump_from_shut now zero (j ∷ reads) writes w s h = absurd (omega arith)
pump_from_shut now (suc fuel) [] [] w s h = refl
pump_from_shut now (suc fuel) [] (j ∷ writes) w s h =
    ground (arith, pump_from_shut now fuel [] writes w s (omega arith))
pump_from_shut now (suc fuel) (j ∷ reads) writes w s h =
    ground (arith, pump_from_shut now fuel reads writes w s (omega arith))

idle_with_self : (w : Worker) → w.running ≡ false → idle_with w w.read_queue w.write_queue ≡ w
idle_with_self w idle = ground arith

pump_from_busy : (now fuel : ℕ) (w : Worker) → w.running ≡ true → pump_from now fuel w ≡ (w, [])
unfolding pump_from
pump_from_busy now zero w busy = refl
pump_from_busy now (suc fuel) w busy = rw busy

-- With a job in flight `pump` does nothing.
pub pump_busy : (now : ℕ) (w : Worker) → w.running ≡ true → pump now w ≡ (w, [])
unfolding pump
pump_busy now w busy = pump_from_busy now _ w busy

pub pump_shut :
    (now : ℕ) (w : Worker)
    → w.running ≡ false
    → IsShut now w
    → pump now w ≡ (idle_with w [] [], map (fail_fast w.open_until) (order w))
unfolding pump
pump_shut now w idle s =
    subst (λ v. pump now v ≡ (idle_with w [] [], map (fail_fast w.open_until) (order w)))
      (idle_with_self w idle) (pump_from_shut now _ w.read_queue w.write_queue w s (omega arith))

abbrev pub probe_state : BreakerState → BreakerState
probe_state closed = closed
probe_state open_state = half_open
probe_state half_open = half_open

-- `pump` has called the node for the job `j`, and for no other.
pub record Calls (w : Worker) (j : QueuedJob) (rest : List QueuedJob) (t : Turn) : Type 0 where
  pub called : t.1 ≡ calls j.id ∷ []
  pub left : order t.0 ≡ rest
  pub held : t.0.flight ≡ some (record { job = j; settled = none })
  pub busy : t.0.running ≡ true
  pub probing : t.0.state ≡ probe_state w.state
  pub kept : (t.0.options ≡ w.options) × (t.0.consecutive_failures ≡ w.consecutive_failures)
  pub narrower : length t.0.write_queue ≤ length w.write_queue

gate_cases :
    (now : ℕ) (w : Worker)
    → ¬ IsShut now w
    → breaker_gate now w ≡ (record w { state = probe_state w.state }, run)
unfolding breaker_gate
gate_cases now w clear = ground arith

pump_from-Calls :
    (now fuel : ℕ) (reads writes : List QueuedJob) (w : Worker) (j : QueuedJob)
    (rest : List QueuedJob)
    → ¬ IsShut now w
    → length reads + length writes ≤ fuel
    → reads ++ writes ≡ j ∷ rest
    → Calls (idle_with w reads writes) j rest (pump_from now fuel (idle_with w reads writes))
unfolding pump_from next_job start
pump_from-Calls now zero [] [] w j rest clear h e = cc
pump_from-Calls now zero [] (k ∷ writes) w j rest clear h e = absurd (omega arith)
pump_from-Calls now zero (k ∷ reads) writes w j rest clear h e = absurd (omega arith)
pump_from-Calls now (suc fuel) [] [] w j rest clear h e = cc
pump_from-Calls now (suc fuel) [] (k ∷ writes) w j rest clear h e =
    rw (gate_cases now (idle_with w [] writes) clear) (ground arith)
pump_from-Calls now (suc fuel) (k ∷ reads) writes w j rest clear h e =
    rw (gate_cases now (idle_with w reads writes) clear) (ground arith)

pub pump-Calls :
    (now : ℕ) (w : Worker) (j : QueuedJob) (rest : List QueuedJob)
    → w.running ≡ false
    → ¬ IsShut now w
    → order w ≡ j ∷ rest
    → Calls w j rest (pump now w)
unfolding pump
pump-Calls now w j rest idle clear e =
    subst (λ v. Calls v j rest (pump now v)) (idle_with_self w idle)
      (pump_from-Calls now _ w.read_queue w.write_queue w j rest clear (omega arith) e)

pump_from_empty : (now fuel : ℕ) (w : Worker) → order w ≡ [] → pump_from now fuel w ≡ (w, [])
unfolding pump_from next_job
pump_from_empty now zero w e = refl
pump_from_empty now (suc fuel) w e = ground arith

-- With nothing queued `pump` does nothing.
pub pump_empty : (now : ℕ) (w : Worker) → order w ≡ [] → pump now w ≡ (w, [])
unfolding pump
pump_empty now w e = pump_from_empty now _ w e

-- An independent description of a turn of `pump`, whatever the state.
pub data Pumped (now : ℕ) (w : Worker) : Turn → Type 0 where
  waited : {t : Turn} → w.running ≡ true → t ≡ (w, []) → Pumped now w t
  drained : {t : Turn} → w.running ≡ false → order w ≡ [] → t ≡ (w, []) → Pumped now w t
  failed_fast :
      {t : Turn}
      → w.running ≡ false
      → IsShut now w
      → t ≡ (idle_with w [] [], map (fail_fast w.open_until) (order w))
      → Pumped now w t
  started :
      {t : Turn} (j : QueuedJob) (rest : List QueuedJob)
      → w.running ≡ false
      → ¬ IsShut now w
      → order w ≡ j ∷ rest
      → Calls w j rest t
      → Pumped now w t

IsShut-cases : (now : ℕ) (w : Worker) → IsShut now w ⊎ (¬ IsShut now w)
IsShut-cases now w = ground arith

-- Every call of `pump` waits for the job in flight, finds the queues empty, rejects all that is
-- queued while the breaker is shut, or calls the node for exactly the first due job.
pub pump-Pumped : (now : ℕ) (w : Worker) → Pumped now w (pump now w)
pump-Pumped now w = elim (Bool-cases w.running) [
  | inl busy ↦ waited busy (pump_busy now w busy)
  | inr idle ↦ elim (List-cases (order w)) [
    | inl none_due ↦ drained idle none_due (pump_empty now w none_due)
    | inr (j, rest, due) ↦ elim (IsShut-cases now w) [
      | inl s ↦ failed_fast idle s (pump_shut now w idle s)
      | inr clear ↦ started j rest idle clear due (pump-Calls now w j rest idle clear due)
    ]
  ]
]

-- The call of the node for the first due job.
abbrev pub first_call : List QueuedJob → List Effect
first_call [] = []
first_call (j ∷ rest) = calls j.id ∷ []

-- With the slot free and the breaker not open, `pump` calls the node for the first due job only.
pub pump_clear :
    (now : ℕ) (w : Worker)
    → w.running ≡ false
    → w.state ≢ open_state
    → ((pump now w).1 ≡ first_call (order w))
      × (order (pump now w).0 ≡ tail (order w))
      × ((pump now w).0.state ≡ w.state)
      × ((pump now w).0.consecutive_failures ≡ w.consecutive_failures)
pump_clear now w idle shut = elim (List-cases (order w)) [
  | inl due ↦ rw (pump_empty now w due, due) (refl, refl, refl, refl)
  | inr (j, rest, due) ↦
      let c = pump-Calls now w j rest idle (λ s. shut s.0) due in
      rw due (c.called, c.left, ground arith, c.kept.1)
]

-- With a job in flight and room in its lane, a submitted job settles nothing and calls nothing: a
-- read is queued behind the queued reads and ahead of every queued write, a write behind all.
accept-order :
    (now : ℕ) (job : QueuedJob) (w : Worker)
    → w.running ≡ true
    → (job.lane ≡ write → length w.write_queue < w.options.write_queue_limit)
    → ((accept now job w).1 ≡ [])
      × (order (accept now job w).0 ≡ elim job.lane [
        | read ↦ w.read_queue ++ job ∷ w.write_queue
        | write ↦ order w ++ job ∷ []
      ])
unfolding accept submit push
accept-order now job w busy room = ground (
  arith,
  pump_busy now (push job w),
  append_assoc w.read_queue (job ∷ []) w.write_queue,
  append_assoc w.read_queue w.write_queue (job ∷ []),
)
