-- ===== src/HeldSessions/Queue.antt =====
-- packages/eliza-service/src/delegation-store.ts, class DelegationStore: the writes of one entity.
--
-- The state is the queue of one key, with the record that the key-value store holds. A number stands
-- for the promise of a run. `queue.tail` is the running run: the queued one begins when there is
-- none, and reads the desired state then. A write that fails may still have landed. The queue is
-- dropped from the map in the turn in which its last run settles; only `attempts` shows it. Of the
-- timers for a retry there is the last one that was set: an older one, which the source leaves in
-- the clock, would only sync once more.
pub mod Order
pub mod Removal
mod Tests
use tinycloud_agents.Base.{
  ℕ, ◌+◌, ◌-◌, ◌*◌, ◌^◌, Bool, true, false, ◌&&◌, not, Option, none, some, List, [], ◌∷◌, is_some,
  min, if◌then◌else◌,
}
use tinycloud_agents.HeldSessions.{HeldSession, DesiredRecord, put, delete, keep}

pub record EntityQueue : Type 0 where
  pub queued : Option ℕ
  pub running : Option (ℕ × DesiredRecord)
  pub retry : Option ℕ
  pub attempts : ℕ
  pub next : ℕ
  pub stopped : Bool
  pub stored : Option HeldSession
  pub settled : List (ℕ × Bool)
  pub retry_base_ms : ℕ
  pub retry_max_ms : ℕ

-- How a call of the key-value store ends.
pub data KvAnswer : Type 0 where
  succeeded : KvAnswer
  failed : (landed : Bool) → KvAnswer

unfoldable pub new : ℕ → ℕ → Option HeldSession → EntityQueue
new retry_base_ms retry_max_ms stored = record {
  queued = none;
  running = none;
  retry = none;
  attempts = 0;
  next = 0;
  stopped = false;
  stored = stored;
  settled = [];
  retry_base_ms = retry_base_ms;
  retry_max_ms = retry_max_ms;
}

-- The promise that the caller gets.
abbrev pub enqueue : EntityQueue → Option ℕ → EntityQueue × ℕ
enqueue q (some run) = (q, run)
enqueue q none = (record q { queued = some q.next; next = q.next + 1; retry = none }, q.next)

unfoldable pub sync : EntityQueue → EntityQueue × ℕ
sync q = enqueue q q.queued

-- What a write does to the stored record.
abbrev pub written : DesiredRecord → Option HeldSession → Option HeldSession
written (put session) stored = some session
written delete stored = none
written keep stored = stored

-- `!queue.queued && !queue.retry`: the queue is dropped.
abbrev pub attempts_kept : Option ℕ → Option ℕ → ℕ → ℕ
attempts_kept none none attempts = 0
attempts_kept none (some delay) attempts = attempts
attempts_kept (some run) retry attempts = attempts

abbrev pub dropped_if_idle : EntityQueue → EntityQueue
dropped_if_idle q = record q { attempts = attempts_kept q.queued q.retry q.attempts }

-- The run begins; where nothing is to be written it ends at once.
abbrev pub begin_run : EntityQueue → ℕ → DesiredRecord → EntityQueue
begin_run q run (put session) = record q { queued = none; running = some (run, put session) }
begin_run q run delete = record q { queued = none; running = some (run, delete) }
begin_run q run keep =
    dropped_if_idle (record q { queued = none; attempts = 0; settled = (run, true) ∷ q.settled })

abbrev pub start_queued :
    EntityQueue → Option (ℕ × DesiredRecord) → Option ℕ → DesiredRecord → EntityQueue
start_queued q (some current) queued want = q
start_queued q none none want = q
start_queued q none (some run) want = begin_run q run want

unfoldable pub start : EntityQueue → DesiredRecord → EntityQueue
start q want = start_queued q q.running q.queued want

abbrev pub retry_delay : EntityQueue → ℕ → ℕ
retry_delay q attempts = min q.retry_max_ms (q.retry_base_ms * 2 ^ min (attempts - 1) 16)

-- Only a delete is tried again, and not after a stop.
abbrev pub tries_again : Bool → DesiredRecord → Bool
tries_again stopped (put session) = false
tries_again stopped keep = false
tries_again stopped delete = not stopped

abbrev pub schedule_retry : EntityQueue → Bool → EntityQueue
schedule_retry q again = record q {
  attempts = if again then q.attempts + 1 else q.attempts;
  retry = if again then some (retry_delay q (q.attempts + 1)) else q.retry;
}

abbrev pub end_run : EntityQueue → ℕ → DesiredRecord → KvAnswer → EntityQueue
end_run q run want succeeded = dropped_if_idle (record q {
  running = none;
  attempts = 0;
  stored = written want q.stored;
  settled = (run, true) ∷ q.settled;
})
end_run q run want (failed landed) = dropped_if_idle (
    schedule_retry
      (record q {
        running = none;
        stored = if landed then written want q.stored else q.stored;
        settled = (run, false) ∷ q.settled;
      })
      (tries_again q.stopped want))

abbrev pub end_current : EntityQueue → Option (ℕ × DesiredRecord) → KvAnswer → EntityQueue
end_current q none a = q
end_current q (some (run, want)) a = end_run q run want a

unfoldable pub finish : EntityQueue → KvAnswer → EntityQueue
finish q a = end_current q q.running a

-- The timer of a retry.
abbrev pub fire : EntityQueue → Option ℕ → EntityQueue
fire q none = q
fire q (some delay) = (sync (record q { retry = none })).0

unfoldable pub retry_fires : EntityQueue → EntityQueue
retry_fires q = fire q q.retry

unfoldable pub stop : EntityQueue → EntityQueue
stop q = record q { stopped = true; retry = none }

pub data Event : Type 0 where
  syncs retries stops : Event
  starts : DesiredRecord → Event
  ends : KvAnswer → Event

unfoldable pub step : EntityQueue → Event → EntityQueue
step q syncs = (sync q).0
step q retries = retry_fires q
step q stops = stop q
step q (starts want) = start q want
step q (ends a) = finish q a

unfoldable pub play : EntityQueue → List Event → EntityQueue
play q [] = q
play q (e ∷ es) = play (step q e) es
