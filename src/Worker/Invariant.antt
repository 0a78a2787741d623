-- ===== src/Worker/Invariant.antt =====
-- What holds of a worker between two turns.
use tinycloud_agents.Base.{
  ℕ, ◌+◌, ◌≤◌, ◌<◌, ◌≡◌, ◌∙◌, ◌≢◌, inl, inr, true, false, none, List, [], ◌∷◌, length,
  length-append, arith, is_some, Bool-cases, Option-cases,
}
use tinycloud_agents.Worker.{
  Worker, WorkerOptions, QueuedJob, read, write, closed, open_state, half_open, Outcome, success,
  failure, Event, accepts, answers, expires, resumes, pump, push, submit, accept, race, expire,
  conclude, release, resume, step, play, new,
}
use tinycloud_agents.Worker.Order.{
  order, pump_busy, waited, drained, failed_fast, started, pump-Pumped,
}

-- The slot is taken exactly while a job is in flight; nothing is queued while it is free; the
-- write lane is within its bound; a half-open breaker has its probe in flight, and no job is in
-- flight while the breaker is open; a closed breaker has counted fewer failures than the threshold.
pub record Inv (w : Worker) : Type 0 where
  pub slot : w.running ≡ is_some w.flight
  pub no_wedge : w.running ≡ false → order w ≡ []
  pub bounded : length w.write_queue ≤ w.options.write_queue_limit
  pub probing : w.state ≡ half_open → w.running ≡ true
  pub calm : w.running ≡ true → w.state ≢ open_state
  pub counted : w.state ≡ closed → w.consecutive_failures < w.options.breaker_threshold
  pub positive : 1 ≤ w.options.breaker_threshold

-- A new worker satisfies the invariant.
pub new-Inv : (options : WorkerOptions) → 1 ≤ options.breaker_threshold → Inv (new options)
unfolding new
new-Inv options h = ground arith

-- What `pump` needs when it is called with the slot free.
record IsReady (w : Worker) : Type 0 where
  free : w.running ≡ false
  landed : w.flight ≡ none
  bounded : length w.write_queue ≤ w.options.write_queue_limit
  decided : w.state ≢ half_open
  counted : w.state ≡ closed → w.consecutive_failures < w.options.breaker_threshold
  positive : 1 ≤ w.options.breaker_threshold

pump-Inv : (now : ℕ) (w : Worker) → IsReady w → Inv (pump now w).0
pump-Inv now w r = elim (pump-Pumped now w) [
  | waited busy e ↦ absurd (ground arith)
  | drained idle due e ↦ rw e (ground arith)
  | failed_fast idle s e ↦ rw e (ground arith)
  | started j rest idle clear due c ↦ ground arith
]

push-bounded :
    (job : QueuedJob) (w : Worker)
    → length (push job w).write_queue
      ≡ elim job.lane [ read ↦ length w.write_queue | write ↦ length w.write_queue + 1 ]
unfolding push
push-bounded job w = ground (arith, length-append w.write_queue (job ∷ []))

-- The bounded lane has room for the job.
abbrev HasRoom : QueuedJob → Worker → Type 0
HasRoom job w = job.lane ≡ write → length w.write_queue < w.options.write_queue_limit

push-Inv :
    (job : QueuedJob) (w : Worker) → w.running ≡ true → HasRoom job w → Inv w → Inv (push job w)
unfolding push
push-Inv job w busy room v = ground (arith, length-append w.write_queue (job ∷ []))

push-running : (job : QueuedJob) (w : Worker) → (push job w).running ≡ w.running
unfolding push
push-running job w = ground arith

push-IsReady :
    (job : QueuedJob) (w : Worker)
    → w.running ≡ false
    → HasRoom job w
    → Inv w
    → IsReady (push job w)
unfolding push
push-IsReady job w idle room v = ground (arith, length-append w.write_queue (job ∷ []))

-- A submitted job is queued behind the job in flight, or taken at once.
submit-Inv :
    (now : ℕ) (job : QueuedJob) (w : Worker) → HasRoom job w → Inv w → Inv (submit now job w).0
unfolding submit
submit-Inv now job w room v = elim (Bool-cases w.running) [
  | inl busy ↦
      rw (pump_busy now (push job w) (push-running job w ∙ busy)) (push-Inv job w busy room v)
  | inr idle ↦ pump-Inv now (push job w) (push-IsReady job w idle room v)
]

accept-Inv : (now : ℕ) (job : QueuedJob) (w : Worker) → Inv w → Inv (accept now job w).0
unfolding accept
accept-Inv now job w v = ground (arith, submit-Inv now job w)

race-Inv : (id : ℕ) (o : Outcome) (w : Worker) → Inv w → Inv (race id o w).0
unfolding race
race-Inv id o w v = ground arith

expire-Inv : (id : ℕ) (w : Worker) → Inv w → Inv (expire id w).0
unfolding expire
expire-Inv id w v = ground arith

-- Success closes the breaker; a failure opens it at the threshold, or at once if it was a probe.
conclude-IsReady :
    (now : ℕ) (job : QueuedJob) (o : Outcome) (w : Worker)
    → Inv w
    → w.running ≡ true
    → IsReady (record (conclude now job o w).0 { running = false; flight = none })
unfolding conclude
conclude-IsReady now job (success x) w v busy = ground arith
conclude-IsReady now job (failure e) w v busy = ground arith

resume-Inv : (now : ℕ) (w : Worker) → Inv w → Inv (resume now w).0
unfolding resume release
resume-Inv now w v = elim (Option-cases w.flight) [
  | inl idle ↦ rw (idle, resume) v
  | inr (f, held) ↦ elim (Option-cases f.settled) [
    | inl waiting ↦ ground arith
    | inr (o, done) ↦ ground (
      arith,
      pump-Inv now (record (conclude now f.job o w).0 { running = false; flight = none }),
      conclude-IsReady now f.job o w,
    )
  ]
]

-- Every turn keeps the invariant, whatever happens in it.
pub step-Inv : (now : ℕ) (e : Event) (w : Worker) → Inv w → Inv (step now e w).0
unfolding step
step-Inv now (accepts job) w v = accept-Inv now job w v
step-Inv now (answers id o) w v = race-Inv id o w v
step-Inv now (expires id) w v = expire-Inv id w v
step-Inv now resumes w v = resume-Inv now w v

play_keeps-Inv : (es : List (ℕ × Event)) (w : Worker) → Inv w → Inv (play es w).0
unfolding play
play_keeps-Inv [] w v = v
play_keeps-Inv ((now, e) ∷ es) w v = play_keeps-Inv es (step now e w).0 (step-Inv now e w v)

-- After any history of a worker whose breaker threshold is positive: the slot is taken exactly
-- while a job is in flight; no job is queued while the slot is free; the write lane is within its
-- bound; a half-open breaker has a job in flight; no job is in flight while the breaker is open; and
-- a closed breaker has counted fewer consecutive failures than the threshold.
pub play-Inv :
    (options : WorkerOptions) (es : List (ℕ × Event))
    → 1 ≤ options.breaker_threshold
    → Inv (play es (new options)).0
play-Inv options es h = play_keeps-Inv es (new options) (new-Inv options h)
