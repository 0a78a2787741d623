-- ===== src/HeldSessions/Queue/Order.antt =====
-- Runs begin and settle in the order in which they were queued.
use tinycloud_agents.Base.{
  ℕ, ◌+◌, ◌<◌, ◌≡◌, refl, sym, subst, Bool, true, false, Option, none, some, List, [], ◌∷◌, arith,
}
use tinycloud_agents.HeldSessions.{HeldSession, DesiredRecord, put, delete, keep}
use tinycloud_agents.HeldSessions.Queue.{
  EntityQueue, KvAnswer, succeeded, failed, new, enqueue, sync, begin_run, start_queued, start,
  end_current, finish, fire, retry_fires, stop, Event, syncs, retries, stops, starts, ends, step,
  play,
}

-- The number of the run that settles next.
abbrev pub first_open : ℕ → Option (ℕ × DesiredRecord) → Option ℕ → ℕ
first_open next (some (run, want)) queued = run
first_open next none (some run) = run
first_open next none none = next

abbrev pub QueuedBelow : ℕ → Option ℕ → Type 0
QueuedBelow n none = Unit {0}
QueuedBelow n (some run) = run < n

abbrev pub RunningBelow : ℕ → Option (ℕ × DesiredRecord) → Option ℕ → Type 0
RunningBelow n none queued = Unit {0}
RunningBelow n (some (run, want)) none = run < n
RunningBelow n (some (run, want)) (some later) = run < later

-- The settled runs, the last one first, in falling order below a number.
abbrev pub FallingBelow : ℕ → List (ℕ × Bool) → Type 0
FallingBelow n [] = Unit {0}
FallingBelow n ((run, result) ∷ rs) = (run < n) × FallingBelow run rs

-- The settled runs come before the running one, that before the queued one, and that before all
-- later ones.
abbrev pub Ordered : ℕ → Option (ℕ × DesiredRecord) → Option ℕ → List (ℕ × Bool) → Type 0
Ordered next running queued settled =
    QueuedBelow next queued
    × RunningBelow next running queued
    × FallingBelow (first_open next running queued) settled

abbrev pub InOrder : EntityQueue → Type 0
InOrder q = Ordered q.next q.running q.queued q.settled

module _ (n : ℕ) (settled : List (ℕ × Bool)) where
  queue-Ordered :
      (running : Option (ℕ × DesiredRecord))
      → Ordered n running none settled
      → Ordered (n + 1) running (some n) settled
  queue-Ordered none (q, r, s) = (omega arith, tt, s)
  queue-Ordered (some (run, want)) (q, r, s) = (omega arith, r, s)

  begin-Ordered :
      (run : ℕ) (want : DesiredRecord)
      → Ordered n none (some run) settled
      → Ordered n (some (run, want)) none settled
  begin-Ordered run want (q, r, s) = (tt, q, s)

  skip-Ordered :
      (run : ℕ) → Ordered n none (some run) settled → Ordered n none none ((run, true) ∷ settled)
  skip-Ordered run (q, r, s) = (tt, tt, (q, s))

  end-Ordered :
      (run : ℕ) (want : DesiredRecord) (queued : Option ℕ) (result : Bool)
      → Ordered n (some (run, want)) queued settled
      → Ordered n none queued ((run, result) ∷ settled)
  end-Ordered run want none result (q, r, s) = (tt, tt, (r, s))
  end-Ordered run want (some later) result (q, r, s) = (q, tt, (r, s))

enqueue-InOrder :
    (q : EntityQueue) (queued : Option ℕ)
    → q.queued ≡ queued
    → InOrder q
    → InOrder (enqueue q queued).0
enqueue-InOrder q (some run) e i = i
enqueue-InOrder q none e i =
    queue-Ordered q.next q.settled q.running (subst (λ o. Ordered q.next q.running o q.settled) e i)

pub sync-InOrder : (q : EntityQueue) → InOrder q → InOrder (sync q).0
unfolding sync
sync-InOrder q i = enqueue-InOrder q q.queued refl i

begin_run-InOrder :
    (q : EntityQueue) (run : ℕ) (want : DesiredRecord)
    → Ordered q.next none (some run) q.settled
    → q.running ≡ none
    → InOrder (begin_run q run want)
begin_run-InOrder q run (put session) i e = begin-Ordered q.next q.settled run (put session) i
begin_run-InOrder q run delete i e = begin-Ordered q.next q.settled run delete i
begin_run-InOrder q run keep i e =
    subst (λ o. Ordered q.next o none ((run, true) ∷ q.settled)) (sym e)
      (skip-Ordered q.next q.settled run i)

start_queued-InOrder :
    (q : EntityQueue) (running : Option (ℕ × DesiredRecord)) (queued : Option ℕ)
    (want : DesiredRecord)
    → q.running ≡ running
    → q.queued ≡ queued
    → InOrder q
    → InOrder (start_queued q running queued want)
start_queued-InOrder q (some current) queued want er eq i = i
start_queued-InOrder q none none want er eq i = i
start_queued-InOrder q none (some run) want er eq i =
    begin_run-InOrder q run want
      (subst (λ o. Ordered q.next none o q.settled) eq
        (subst (λ o. Ordered q.next o q.queued q.settled) er i))
      er

pub start-InOrder : (q : EntityQueue) (want : DesiredRecord) → InOrder q → InOrder (start q want)
unfolding start
start-InOrder q want i = start_queued-InOrder q q.running q.queued want refl refl i

end_current-InOrder :
    (q : EntityQueue) (running : Option (ℕ × DesiredRecord)) (a : KvAnswer)
    → q.running ≡ running
    → InOrder q
    → InOrder (end_current q running a)
end_current-InOrder q none a e i = i
end_current-InOrder q (some (run, want)) succeeded e i =
    end-Ordered q.next q.settled run want q.queued true
      (subst (λ o. Ordered q.next o q.queued q.settled) e i)
end_current-InOrder q (some (run, want)) (failed landed) e i =
    end-Ordered q.next q.settled run want q.queued false
      (subst (λ o. Ordered q.next o q.queued q.settled) e i)

pub finish-InOrder : (q : EntityQueue) (a : KvAnswer) → InOrder q → InOrder (finish q a)
unfolding finish
finish-InOrder q a i = end_current-InOrder q q.running a refl i

fire-InOrder : (q : EntityQueue) (retry : Option ℕ) → InOrder q → InOrder (fire q retry)
fire-InOrder q none i = i
fire-InOrder q (some delay) i = sync-InOrder (record q { retry = none }) i

pub step-InOrder : (q : EntityQueue) (e : Event) → InOrder q → InOrder (step q e)
unfolding step retry_fires stop
step-InOrder q syncs i = sync-InOrder q i
step-InOrder q retries i = fire-InOrder q q.retry i
step-InOrder q stops i = i
step-InOrder q (starts want) i = start-InOrder q want i
step-InOrder q (ends a) i = finish-InOrder q a i

pub play-InOrder : (q : EntityQueue) (es : List Event) → InOrder q → InOrder (play q es)
unfolding play
play-InOrder q [] i = i
play-InOrder q (e ∷ es) i = play-InOrder (step q e) es (step-InOrder q e i)

pub new-InOrder : (base most : ℕ) (stored : Option HeldSession) → InOrder (new base most stored)
unfolding new
new-InOrder base most stored = (tt, tt, tt)

-- In every history of the queue of an entity the settled runs settled in the order in which they were
-- queued, each once; they come before the running one, that before the queued one, and all of these
-- before the runs to come.
pub queue-InOrder :
    (base most : ℕ) (stored : Option HeldSession) (es : List Event)
    → InOrder (play (new base most stored) es)
queue-InOrder base most stored es =
    play-InOrder (new base most stored) es (new-InOrder base most stored)
