-- ===== src/HeldSessions/Queue/Removal.antt =====
-- The removal of a record: the runs after a Disconnect's `sync`, all of which delete.
use tinycloud_agents.Base.{
  ℕ, ◌+◌, ◌≤◌, ◌≡◌, refl, sym, subst, ap, Bool, ◌∙◌, true, false, ◌&&◌, ◌||◌, not, Option, none,
  some, List, [], ◌∷◌, is_some, ◌===◌, number_eq, arith, if◌then◌else◌, All,
}
use mathlib.Core.Bool.{true≢false}
use mathlib.Core.Option.{some-injective}
use tinycloud_agents.HeldSessions.{HeldSession, DesiredRecord, delete}
use tinycloud_agents.HeldSessions.Queue.{
  EntityQueue, KvAnswer, succeeded, failed, new, enqueue, sync, start_queued, start, end_run,
  end_current, finish, fire, retry_fires, stop, Event, syncs, retries, stops, starts, ends, step,
  play, written, tries_again, retry_delay,
}
use tinycloud_agents.HeldSessions.Queue.Order.{
  InOrder, Ordered, FallingBelow, play-InOrder, step-InOrder, new-InOrder, sync-InOrder,
}

-- The promise of the run resolved to true.
abbrev pub confirmed : ℕ → List (ℕ × Bool) → Bool
confirmed i [] = false
confirmed i ((run, true) ∷ rs) = (run === i) || confirmed i rs
confirmed i ((run, false) ∷ rs) = confirmed i rs

-- No run is queued, running or due.
abbrev pub idle : EntityQueue → Bool
idle q = not (is_some q.queued) && not (is_some q.running) && not (is_some q.retry)

abbrev pub Deletes : Event → Type 0
Deletes syncs = Unit {0}
Deletes retries = Unit {0}
Deletes stops = Unit {0}
Deletes (starts want) = want ≡ delete
Deletes (ends a) = Unit {0}

abbrev pub AtMostDelete : Option (ℕ × DesiredRecord) → Type 0
AtMostDelete none = Unit {0}
AtMostDelete (some (run, want)) = want ≡ delete

-- The run is queued, or it is deleting, or it is over and what runs deletes.
pub data Removing (i : ℕ) (q : EntityQueue) : Type 0 where
  waiting : q.queued ≡ some i → Removing i q
  deleting : q.running ≡ some (i, delete) → Removing i q
  over :
      AtMostDelete q.running
      → (confirmed i q.settled ≡ true → q.stored ≡ none)
      → (idle q ≡ true → q.stopped ≡ false → q.stored ≡ none)
      → Removing i q

confirmed-falling :
    (i n : ℕ) (settled : List (ℕ × Bool))
    → n ≤ i
    → FallingBelow n settled
    → confirmed i settled ≡ false
confirmed-falling i n [] le f = refl
confirmed-falling i n ((run, false) ∷ rs) le (h, f) = confirmed-falling i run rs (omega arith) f
confirmed-falling i n ((run, true) ∷ rs) le (h, f) =
    let rest = confirmed-falling i run rs (omega arith) f in ground arith

-- The promise of a queued run is open.
queued-open :
    (i : ℕ) (q : EntityQueue) → q.queued ≡ some i → InOrder q → confirmed i q.settled ≡ false
queued-open i q e o = go q.running (subst (λ x. Ordered q.next q.running x q.settled) e o)
  where
    go :
        (running : Option (ℕ × DesiredRecord))
        → Ordered q.next running (some i) q.settled
        → confirmed i q.settled ≡ false
    go none (n, r, f) = confirmed-falling i i q.settled (omega arith) f
    go (some (run, want)) (n, r, f) = confirmed-falling i run q.settled (omega arith) f

deleting-open :
    (i : ℕ) (q : EntityQueue)
    → q.running ≡ some (i, delete)
    → InOrder q
    → confirmed i q.settled ≡ false
deleting-open i q e o =
    confirmed-falling i i q.settled (omega arith)
      (subst (λ x. Ordered q.next x q.queued q.settled) e o).2

module _ (i : ℕ) (q : EntityQueue) where
  enqueue-Removing :
      (queued : Option ℕ) → q.queued ≡ queued → Removing i q → Removing i (enqueue q queued).0
  enqueue-Removing (some run) e s = s
  enqueue-Removing none e (waiting w) = cc
  enqueue-Removing none e (deleting d) = deleting d
  enqueue-Removing none e (over m c p) = over m c (λ h. cc)

  -- The timer has fired and its run is queued.
  fire-Removing :
      (queued : Option ℕ)
      → q.queued ≡ queued
      → Removing i q
      → Removing i (enqueue (record q { retry = none }) queued).0
  fire-Removing none e (waiting w) = cc
  fire-Removing none e (deleting d) = deleting d
  fire-Removing none e (over m c p) = over m c (λ h. cc)
  fire-Removing (some run) e (waiting w) = waiting w
  fire-Removing (some run) e (deleting d) = deleting d
  fire-Removing (some run) e (over m c p) = over m c (λ h.
      absurd (true≢false (sym h ∙ ap (λ o. not (is_some o) && not (is_some q.running) && true) e)))

  start-Removing :
      (running : Option (ℕ × DesiredRecord)) (queued : Option ℕ)
      → q.running ≡ running
      → q.queued ≡ queued
      → Removing i q
      → Removing i (start_queued q running queued delete)
  start-Removing (some current) queued er eq s = s
  start-Removing none none er eq s = s
  start-Removing none (some run) er eq (waiting w) =
      deleting (ap (λ n. some (n, delete)) (some-injective run i (sym eq ∙ w)))
  start-Removing none (some run) er eq (deleting d) = cc
  start-Removing none (some run) er eq (over m c p) = over refl c (λ h. cc)

  -- A delete that fails is due again, unless the store has stopped.
  retried-delete :
      (queued : Option ℕ) (want : DesiredRecord) (delay : ℕ)
      → want ≡ delete
      → q.stopped ≡ false
      → (not (is_some queued)
          && true
          && not (is_some (if tries_again q.stopped want then some delay else q.retry)))
        ≡ false
  retried-delete (some run) want delay e f = refl
  retried-delete none want delay e f =
      ap (λ b. not (is_some (if b then some delay else q.retry)))
        (ap (λ w. tries_again q.stopped w) e ∙ ap not f)

  -- A run that deletes ends.
  end_run-Removing :
      (run : ℕ) (want : DesiredRecord) (a : KvAnswer)
      → want ≡ delete
      → (confirmed i q.settled ≡ true → q.stored ≡ none)
      → Removing i (end_run q run want a)
  end_run-Removing run want succeeded e c =
      let gone = ap (λ w. written w q.stored) e in over tt (λ h. gone) (λ h f. gone)
  end_run-Removing run want (failed true) e c =
      let gone = ap (λ w. written w q.stored) e in over tt (λ h. gone) (λ h f. gone)
  end_run-Removing run want (failed false) e c = over tt c (λ h f.
      absurd
        (true≢false (sym h ∙ retried-delete q.queued want (retry_delay q (q.attempts + 1)) e f)))

  end-Removing :
      (running : Option (ℕ × DesiredRecord)) (a : KvAnswer)
      → q.running ≡ running
      → InOrder q
      → Removing i q
      → Removing i (end_current q running a)
  end-Removing none a e o s = s
  end-Removing (some (run, want)) succeeded e o (waiting w) = waiting w
  end-Removing (some (run, want)) (failed landed) e o (waiting w) = waiting w
  end-Removing (some (run, want)) a e o (deleting d) =
      end_run-Removing run want a
        (ap (λ r. r.1) (some-injective (run, want) (i, delete) (sym e ∙ d)))
        (λ h. absurd (true≢false (sym h ∙ deleting-open i q d o)))
  end-Removing (some (run, want)) a e o (over m c p) =
      end_run-Removing run want a (subst AtMostDelete e m) c

  step-Removing : (e : Event) → Deletes e → InOrder q → Removing i q → Removing i (step q e)
  unfolding step sync retry_fires start finish stop
  step-Removing syncs d o s = enqueue-Removing q.queued refl s
  step-Removing retries d o s = retry q.retry
    where
      retry : (due : Option ℕ) → Removing i (fire q due)
      retry none = s
      retry (some delay) = fire-Removing q.queued refl s
  step-Removing stops d o (waiting w) = waiting w
  step-Removing stops d o (deleting e) = deleting e
  step-Removing stops d o (over m c p) = over m c (λ h f. absurd (true≢false f))
  step-Removing (starts want) d o s =
      subst (λ w. Removing i (start_queued q q.running q.queued w)) (sym d)
        (start-Removing q.running q.queued refl refl s)
  step-Removing (ends a) d o s = end-Removing q.running a refl o s

play-Removing :
    (i : ℕ) (q : EntityQueue) (es : List Event)
    → All Deletes es
    → InOrder q
    → Removing i q
    → InOrder (play q es) × Removing i (play q es)
unfolding play
play-Removing i q [] d o s = (o, s)
play-Removing i q (e ∷ es) (d, ds) o s =
    play-Removing i (step q e) es ds (step-InOrder q e o) (step-Removing i q e d o s)

enqueue-waits :
    (q : EntityQueue) (queued : Option ℕ)
    → q.queued ≡ queued
    → (enqueue q queued).0.queued ≡ some (enqueue q queued).1
enqueue-waits q none e = refl
enqueue-waits q (some run) e = e

sync-waits : (q : EntityQueue) → (sync q).0.queued ≡ some (sync q).1
unfolding sync
sync-waits q = enqueue-waits q q.queued refl

confirmed-removed :
    (i : ℕ) (q : EntityQueue)
    → InOrder q
    → Removing i q
    → confirmed i q.settled ≡ true
    → q.stored ≡ none
confirmed-removed i q o (waiting w) h = absurd (true≢false (sym h ∙ queued-open i q w o))
confirmed-removed i q o (deleting d) h = absurd (true≢false (sym h ∙ deleting-open i q d o))
confirmed-removed i q o (over m c p) h = c h

idle-removed :
    (i : ℕ) (q : EntityQueue) → Removing i q → idle q ≡ true → q.stopped ≡ false → q.stored ≡ none
idle-removed i q (waiting w) h f = cc
idle-removed i q (deleting d) h f = absurd (
    true≢false (
      sym h
      ∙ ap (λ r. not (is_some q.queued) && not (is_some r) && not (is_some q.retry)) d
      ∙ busy (not (is_some q.queued)) (not (is_some q.retry))))
  where
    busy : (b c : Bool) → (b && false && c) ≡ false
    busy true c = refl
    busy false c = refl
idle-removed i q (over m c p) h f = p h f

module _ (base most : ℕ) (stored : Option HeldSession) (earlier later : List Event) where
  -- A history of a queue, then a `sync`, and the promise of that.
  abbrev pub synced : EntityQueue × ℕ
  synced = sync (play (new base most stored) earlier)

  -- The queue some events after that `sync`.
  abbrev pub afterwards : EntityQueue
  afterwards = play synced.0 later

  afterwards-Removing : All Deletes later → InOrder afterwards × Removing synced.1 afterwards
  afterwards-Removing d =
      play-Removing synced.1 synced.0 later d
        (sync-InOrder (play (new base most stored) earlier)
          (play-InOrder (new base most stored) earlier (new-InOrder base most stored)))
        (waiting (sync-waits (play (new base most stored) earlier)))

  -- After any history of the queue of an entity, let a `sync` be made and then let every run that
  -- starts find that the record is to be removed. When the promise of that `sync` has resolved to
  -- true, nothing is stored, whatever puts ran, failed or landed before.
  pub sync-removes :
      All Deletes later → confirmed synced.1 afterwards.settled ≡ true → afterwards.stored ≡ none
  sync-removes d = let (o, s) = afterwards-Removing d in confirmed-removed synced.1 afterwards o s

  -- After any history of the queue of an entity, let a `sync` be made and then let every run that
  -- starts find that the record is to be removed. As long as the store has not been stopped, a record
  -- that is still there has a run queued, running or due to be tried again.
  pub sync-retries :
      All Deletes later
      → idle afterwards ≡ true
      → afterwards.stopped ≡ false
      → afterwards.stored ≡ none
  sync-retries d = let (o, s) = afterwards-Removing d in idle-removed synced.1 afterwards s
