-- ===== src/Worker/Tests.antt =====
-- The theorems about the worker at concrete inputs, and runs of it.
use tinycloud_agents.Base.{ℕ, ◌+◌, ◌≡◌, refl, true, false, none, some, List, [], ◌∷◌, arith}
use tinycloud_agents.Worker.{
  Worker, WorkerOptions, QueuedJob, read, write, closed, open_state, half_open, success, failure,
  timed_out, failed, circuit_open, Event, accepts, answers, expires, resumes, calls, rejects, new,
  play, pump, accept, resume, expire, record_failure, next_job, step, submit, push, pump_from,
  breaker_gate, start, race, release, conclude, record_success,
}
use tinycloud_agents.Worker.Order.{Pumped, pump-Pumped}
use tinycloud_agents.Worker.Invariant.{Inv, play-Inv}
use tinycloud_agents.Worker.Accounting.{pending, settled, play_accounts}
use tinycloud_agents.Worker.Breaker.{play_shut}
use tinycloud_agents.Worker.Timeout.{expire-resume}

abbrev small : WorkerOptions
small = record {
  request_timeout_ms = 10;
  write_queue_limit = 2;
  breaker_threshold = 2;
  breaker_open_ms = 100;
}

abbrev reading : ℕ → QueuedJob
reading i = record { id = i; lane = read; label = none }

abbrev writing : ℕ → QueuedJob
writing i = record { id = i; lane = write; label = none }

-- Two failures open the breaker, and the queued read is rejected.
abbrev history : List (ℕ × Event)
history =
    (0, accepts (writing 1))
    ∷ (1, accepts (writing 2))
    ∷ (2, accepts (reading 3))
    ∷ (3, answers 1 (failure (failed 7)))
    ∷ (3, resumes)
    ∷ (13, expires 3)
    ∷ (13, resumes)
    ∷ []

abbrev busy : Worker
busy = record {
  options = small;
  read_queue = reading 4 ∷ [];
  write_queue = writing 2 ∷ [];
  running = true;
  flight = some (record { job = reading 3; settled = none });
  state = closed;
  consecutive_failures = 0;
  open_until = 0;
}

abbrev shut : Worker
shut = record {
  options = small;
  read_queue = [];
  write_queue = [];
  running = false;
  flight = none;
  state = open_state;
  consecutive_failures = 2;
  open_until = 113;
}

abbrev probe_failed : Worker
probe_failed = record busy {
  state = half_open;
  flight = some (record { job = reading 3; settled = some (failure (failed 9)) });
}

abbrev probe_done : Worker
probe_done = record busy {
  state = half_open;
  flight = some (record { job = reading 3; settled = some (success 5) });
}

shut-Inv : Inv shut
shut-Inv = ground arith

history_test :
    (play history (new small)).1
    ≡ calls 1
      ∷ rejects 1 (failed 7)
      ∷ calls 3
      ∷ rejects 3 (timed_out 10 none)
      ∷ rejects 2 (circuit_open 113)
      ∷ []
unfolding play step new accept submit push pump pump_from next_job breaker_gate start race expire
    resume release conclude record_success record_failure
history_test = refl

play-Inv_example : Inv (play history (new small)).0
play-Inv_example = play-Inv small history (omega arith)

play_accounts_example :
    pending 3 (play history (new small)).0 + settled 3 (play history (new small)).1 ≡ 1
play_accounts_example = play_accounts small 3 history (omega arith)

pump-Pumped_example : Pumped 7 shut (pump 7 shut)
pump-Pumped_example = pump-Pumped 7 shut

play_shut_example :
    play ((20, accepts (reading 8)) ∷ []) shut ≡ (shut, rejects 8 (circuit_open 113) ∷ [])
play_shut_example =
    play_shut ((20, accepts (reading 8)) ∷ []) shut shut-Inv refl (omega arith) (omega arith)

expire-resume_example :
    (resume 10 (expire 3 busy).0).1 ≡ rejects 3 (timed_out 10 none) ∷ calls 4 ∷ []
expire-resume_example = (expire-resume 10 busy (reading 3) refl refl (omega arith)).0
