-- ===== src/Worker/Timeout.antt =====
-- The hard timeout: the caller is rejected, the queue advances, and the abandoned job is forgotten.
use mathlib.Core.List.{tail}
use tinycloud_agents.Base.{ℕ, ◌+◌, ◌<◌, ◌≡◌, refl, false, none, some, [], ◌∷◌, arith}
use tinycloud_agents.Worker.{
  Worker, QueuedJob, closed, Outcome, failure, timed_out, rejects, race, expire, resume, release,
  conclude, record_failure,
}
use tinycloud_agents.Worker.Order.{order, first_call, pump_clear}

-- The state in which the timer of the job in flight has run out.
abbrev timed : Worker → QueuedJob → Worker
timed w job = record w {
  flight = some (record {
    job = job;
    settled = some (failure (timed_out w.options.request_timeout_ms job.label));
  });
}

expire_in_flight :
    (w : Worker) (job : QueuedJob)
    → w.flight ≡ some (record { job = job; settled = none })
    → expire job.id w ≡ (timed w job, [])
unfolding expire race
expire_in_flight w job held = ground arith

-- A timeout that does not open the breaker: the caller gets `TimeoutError`, the first due job is
-- called, though the node has not answered the job that timed out, and the failure is counted.
pub expire-resume :
    (now : ℕ) (w : Worker) (job : QueuedJob)
    → w.flight ≡ some (record { job = job; settled = none })
    → w.state ≡ closed
    → w.consecutive_failures + 1 < w.options.breaker_threshold
    → let t = resume now (expire job.id w).0 in
      (t.1
        ≡ rejects job.id (timed_out w.options.request_timeout_ms job.label) ∷ first_call (order w))
      × (order t.0 ≡ tail (order w))
      × (t.0.state ≡ closed)
      × (t.0.consecutive_failures ≡ w.consecutive_failures + 1)
unfolding resume release conclude record_failure
expire-resume now w job held calm below = rw (expire_in_flight w job held) (
    ground (
      arith,
      pump_clear now
          (record w {
            running = false;
            flight = none;
            consecutive_failures = w.consecutive_failures + 1;
          })
          refl (λ e. cc),
    ))

-- The first outcome of a job counts. Once the node has answered a job, a second answer and the
-- timer change nothing; once the timer has run out, a late answer changes nothing.
first_outcome_wins :
    (id : ℕ) (o late : Outcome) (w : Worker)
    → let answered = (race id o w).0 in
      let expired = (expire id w).0 in
      ((race id late answered).0 ≡ answered)
      × (expire id answered ≡ (answered, []))
      × ((race id late expired).0 ≡ expired)
unfolding race expire
first_outcome_wins id o late w = (ground arith, ground arith, ground arith)
