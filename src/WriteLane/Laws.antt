-- ===== src/WriteLane/Laws.antt =====
-- The bounds of the write lane, and the order of its writes.
use mathlib.Core.List.{append_assoc, append-nil}
use tinycloud_agents.Base.{
  ℕ, ◌+◌, ◌-◌, ◌≤◌, ◌<◌, ◌≡◌, ◌≢◌, refl, sym, ap, inl, inr, Bool, true, false, List, [], ◌∷◌, ◌++◌,
  length, length-append, if◌then◌else◌, arith, List-cases,
}
use tinycloud_agents.WriteLane.{
  WriteLane, Effect, starts, settles, overflows, new, begin, run_write, pump_from, pump, contains,
  remove, finish, Event, runs, finishes, step, play,
}

-- At most `concurrency` writes run, which `inFlight` counts; the queue is within its bound; and a
-- write waits only while all slots are taken.
pub record IsWithin (w : WriteLane) : Type 0 where
  pub counted : w.in_flight ≡ length w.executing
  pub within : w.in_flight ≤ w.concurrency
  pub bounded : length w.queue ≤ w.max_queue_depth
  pub busy : w.queue ≢ [] → w.in_flight ≡ w.concurrency

run_write-IsWithin : (id : ℕ) (w : WriteLane) → IsWithin w → IsWithin (run_write id w).0
unfolding run_write begin
run_write-IsWithin id w v = ground (arith, length-append w.queue (id ∷ []))

pump_from-IsWithin :
    (q : List ℕ) (w : WriteLane)
    → w.in_flight ≡ length w.executing
    → w.in_flight ≤ w.concurrency
    → length q ≤ w.max_queue_depth
    → IsWithin (pump_from q w).0
unfolding pump_from begin
pump_from-IsWithin [] w c h b = ground arith
pump_from-IsWithin (next ∷ rest) w c h b = ground (arith, pump_from-IsWithin rest (begin next w))

length-remove :
    (id : ℕ) (xs : List ℕ) → contains id xs ≡ true → length (remove id xs) + 1 ≡ length xs
length-remove id [] h = cc
length-remove id (x ∷ xs) h = ground (arith, length-remove id xs)

finish-IsWithin : (id : ℕ) (w : WriteLane) → IsWithin w → IsWithin (finish id w).0
unfolding finish pump
finish-IsWithin id w v = ground (
  arith,
  pump_from-IsWithin w.queue
      (record w { in_flight = w.in_flight - 1; executing = remove id w.executing }),
  length-remove id w.executing,
)

step-IsWithin : (e : Event) (w : WriteLane) → IsWithin w → IsWithin (step e w).0
unfolding step
step-IsWithin (runs id) w v = run_write-IsWithin id w v
step-IsWithin (finishes id) w v = finish-IsWithin id w v

play_keeps-IsWithin : (es : List Event) (w : WriteLane) → IsWithin w → IsWithin (play es w).0
unfolding play
play_keeps-IsWithin [] w v = v
play_keeps-IsWithin (e ∷ es) w v = play_keeps-IsWithin es (step e w).0 (step-IsWithin e w v)

-- After any history of a new lane, at most `concurrency` writes run, `inFlight` being their number;
-- at most `maxQueueDepth` wait; and a write waits only while `concurrency` writes run.
play-IsWithin : (c d : ℕ) (es : List Event) → IsWithin (play es (new c d)).0
unfolding new
play-IsWithin c d es = play_keeps-IsWithin es (new c d) (ground arith)

-- The writes that a turn started, in order.
abbrev pub started : List Effect → List ℕ
started [] = []
started (starts id ∷ xs) = id ∷ started xs
started (x ∷ xs) = started xs

abbrev overflowed : ℕ → List Effect → Bool
overflowed id [] = false
overflowed id (overflows j d ∷ xs) = true
overflowed id (x ∷ xs) = overflowed id xs

-- The writes of a history that were not rejected, in order.
abbrev pub accepted : List Event → WriteLane → List ℕ
accepted [] w = []
accepted (runs id ∷ es) w =
    let later = accepted es (run_write id w).0 in
    if overflowed id (run_write id w).1 then later else id ∷ later
accepted (finishes id ∷ es) w = accepted es (finish id w).0

started-append : (xs ys : List Effect) → started (xs ++ ys) ≡ started xs ++ started ys
started-append [] ys = refl
started-append (starts id ∷ xs) ys = ap (λ l. id ∷ l) (started-append xs ys)
started-append (settles id ∷ xs) ys = started-append xs ys
started-append (overflows id d ∷ xs) ys = started-append xs ys

pump_from_order :
    (q : List ℕ) (w : WriteLane) → started (pump_from q w).1 ++ (pump_from q w).0.queue ≡ q
unfolding pump_from begin
pump_from_order [] w = refl
pump_from_order (next ∷ rest) w = ground (arith, pump_from_order rest (begin next w))

-- The write that an event adds to the order, if any.
abbrev admitted : Event → WriteLane → List ℕ
admitted (runs id) w = if overflowed id (run_write id w).1 then [] else id ∷ []
admitted (finishes id) w = []

free_slot_queue : (w : WriteLane) → IsWithin w → w.in_flight < w.concurrency → w.queue ≡ []
free_slot_queue w v free = elim (List-cases w.queue) [
  | inl e ↦ e
  | inr (x, r, e) ↦ absurd (omega (arith, v.busy (λ n. cc)))
]

step-order :
    (e : Event) (w : WriteLane)
    → IsWithin w
    → started (step e w).1 ++ (step e w).0.queue ≡ w.queue ++ admitted e w
unfolding step run_write finish pump begin
step-order (runs id) w v = ground (arith, append-nil w.queue, free_slot_queue w v)
step-order (finishes id) w v = ground (
  arith,
  append-nil w.queue,
  pump_from_order w.queue
      (record w { in_flight = w.in_flight - 1; executing = remove id w.executing }),
)

admitted-accepted :
    (e : Event) (es : List Event) (w : WriteLane)
    → accepted (e ∷ es) w ≡ admitted e w ++ accepted es (step e w).0
unfolding step
admitted-accepted (runs id) es w = ground arith
admitted-accepted (finishes id) es w = refl

play_keeps_order :
    (es : List Event) (w : WriteLane)
    → IsWithin w
    → started (play es w).1 ++ (play es w).0.queue ≡ w.queue ++ accepted es w
unfolding play
play_keeps_order [] w v = sym (append-nil w.queue)
play_keeps_order (e ∷ es) w v =
    let t = step e w in
    let rest = play es t.0 in
    rw (
      started-append t.1 rest.1,
      append_assoc (started t.1) (started rest.1) rest.0.queue,
      play_keeps_order es t.0 (step-IsWithin e w v),
      ← append_assoc (started t.1) t.0.queue (accepted es t.0),
      step-order e w v,
      admitted-accepted e es w,
      append_assoc w.queue (admitted e w) (accepted es t.0),
    )

-- After any history of a new lane, the writes that have started, in the order in which they did,
-- followed by those that wait, are the accepted writes in the order in which they were submitted.
pub play-order :
    (c d : ℕ) (es : List Event)
    → started (play es (new c d)).1 ++ (play es (new c d)).0.queue ≡ accepted es (new c d)
unfolding new
play-order c d es = play_keeps_order es (new c d) (ground arith)
