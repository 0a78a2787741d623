-- ===== src/Worker/Accounting.antt =====
-- Every promise that the worker hands out is queued, in flight, or settled: once.
use tinycloud_agents.Base.{
  ℕ, ◌+◌, ◌≤◌, ◌≡◌, refl, ap, sym, ◌∙◌, inl, inr, false, Option, none, some, List, [], ◌∷◌, ◌++◌,
  map, arith, Option-cases, from_bool, nat_beq, count,
}
use tinycloud_agents.Worker.{
  Worker, WorkerOptions, QueuedJob, Flight, Outcome, success, failure, Event, accepts, answers,
  expires, resumes, Turn, pump, push, submit, accept, race, expire, conclude, release, resume, step,
  play, new, Effect, resolves, rejects,
}
use tinycloud_agents.Worker.Order.{
  order, fail_fast, waited, drained, failed_fast, started, pump-Pumped,
}
use tinycloud_agents.Worker.Invariant.{Inv, step-Inv, new-Inv}

-- How often the turn settles the promise `i`.
abbrev settles : ℕ → Effect → ℕ
settles i (resolves j v) = from_bool (nat_beq j i)
settles i (rejects j e) = from_bool (nat_beq j i)
settles i _ = 0

abbrev pub settled : ℕ → List Effect → ℕ
settled i [] = 0
settled i (x ∷ xs) = settles i x + settled i xs

abbrev pub ids : List QueuedJob → List ℕ
ids = map λ j. j.id

abbrev in_flight : ℕ → Option Flight → ℕ
in_flight i none = 0
in_flight i (some f) = from_bool (nat_beq f.job.id i)

-- How often the promise `i` is queued or in flight.
abbrev pub pending : ℕ → Worker → ℕ
pending i w = count i (ids (order w)) + in_flight i w.flight

abbrev pub accepted : ℕ → Event → ℕ
accepted i (accepts job) = from_bool (nat_beq job.id i)
accepted i _ = 0

abbrev pub submitted : ℕ → List (ℕ × Event) → ℕ
submitted i [] = 0
submitted i ((now, e) ∷ es) = accepted i e + submitted i es

settled-append : (i : ℕ) (xs ys : List Effect) → settled i (xs ++ ys) ≡ settled i xs + settled i ys
settled-append i [] ys = omega arith
settled-append i (x ∷ xs) ys = omega (arith, settled-append i xs ys)

settled-fail_fast :
    (i o : ℕ) (js : List QueuedJob) → settled i (map (fail_fast o) js) ≡ count i (ids js)
settled-fail_fast i o [] = refl
settled-fail_fast i o (j ∷ js) = omega (arith, settled-fail_fast i o js)

-- The promises of a turn add up.
abbrev Balanced : ℕ → ℕ → Turn → Type 0
Balanced i n t = pending i t.0 + settled i t.1 ≡ n

pump-Balanced :
    (i now : ℕ) (w : Worker)
    → (w.running ≡ false → w.flight ≡ none)
    → Balanced i (pending i w) (pump now w)
pump-Balanced i now w free = elim (pump-Pumped now w) [
  | waited busy e ↦ rw e (omega arith)
  | drained idle due e ↦ rw e (omega arith)
  | failed_fast idle s e ↦ rw e (ground (arith, settled-fail_fast i w.open_until (order w)))
  | started j rest idle clear due c ↦ rw (c.left, c.held, c.called, due, free idle) (omega arith)
]

count-ids-append :
    (i : ℕ) (xs ys : List QueuedJob)
    → count i (ids (xs ++ ys)) ≡ count i (ids xs) + count i (ids ys)
count-ids-append i [] ys = omega arith
count-ids-append i (x ∷ xs) ys = omega (arith, count-ids-append i xs ys)

pending-push :
    (i : ℕ) (job : QueuedJob) (w : Worker)
    → pending i (push job w) ≡ pending i w + from_bool (nat_beq job.id i)
unfolding push
pending-push i job w = ground (
  arith,
  count-ids-append i (w.read_queue ++ job ∷ []) w.write_queue,
  count-ids-append i w.read_queue (job ∷ []),
  count-ids-append i w.read_queue w.write_queue,
  count-ids-append i w.read_queue (w.write_queue ++ job ∷ []),
  count-ids-append i w.write_queue (job ∷ []),
)

push_keeps :
    (job : QueuedJob) (w : Worker)
    → ((push job w).flight ≡ w.flight) × ((push job w).running ≡ w.running)
unfolding push
push_keeps job w = ground arith

free_slot : (w : Worker) → Inv w → w.running ≡ false → w.flight ≡ none
free_slot w v idle = ground (arith, v.slot)

submit-Balanced :
    (i now : ℕ) (job : QueuedJob) (w : Worker)
    → Inv w
    → Balanced i (pending i w + from_bool (nat_beq job.id i)) (submit now job w)
unfolding submit
submit-Balanced i now job w v =
    let (same, idle) = push_keeps job w in
    pump-Balanced i now (push job w) (λ e. same ∙ free_slot w v (sym idle ∙ e))
    ∙ pending-push i job w

accept-Balanced :
    (i now : ℕ) (job : QueuedJob) (w : Worker)
    → Inv w
    → Balanced i (pending i w + from_bool (nat_beq job.id i)) (accept now job w)
unfolding accept
accept-Balanced i now job w v = ground (arith, submit-Balanced i now job w v)

race-Balanced : (i id : ℕ) (o : Outcome) (w : Worker) → Balanced i (pending i w) (race id o w)
unfolding race
race-Balanced i id o w = ground arith

expire-Balanced : (i id : ℕ) (w : Worker) → Balanced i (pending i w) (expire id w)
unfolding expire
expire-Balanced i id w = ground arith

conclude_keeps :
    (now : ℕ) (job : QueuedJob) (o : Outcome) (w : Worker)
    → (order (conclude now job o w).0 ≡ order w)
      × ((i : ℕ) → settles i (conclude now job o w).1 ≡ from_bool (nat_beq job.id i))
unfolding conclude
conclude_keeps now job (success x) w = (refl, λ i. refl)
conclude_keeps now job (failure e) w = (ground arith, λ i. refl)

release-Balanced :
    (i now : ℕ) (job : QueuedJob) (o : Outcome) (w : Worker)
    → Balanced i
        (count i (ids (order w)) + from_bool (nat_beq job.id i))
        (release now (conclude now job o w))
unfolding release
release-Balanced i now job o w =
    let (same, once) = conclude_keeps now job o w in
    let freed = record (conclude now job o w).0 { running = false; flight = none } in
    omega (
      arith,
      pump-Balanced i now freed (λ _. refl),
      once i,
      ap (λ (js : List QueuedJob). count i (ids js)) same,
    )

resume-Balanced : (i now : ℕ) (w : Worker) → Balanced i (pending i w) (resume now w)
unfolding resume
resume-Balanced i now w = elim (Option-cases w.flight) [
  | inl idle ↦ ground arith
  | inr (f, held) ↦ elim (Option-cases f.settled) [
    | inl waiting ↦ ground arith
    | inr (o, done) ↦ ground (arith, release-Balanced i now f.job o w)
  ]
]

step-Balanced :
    (i now : ℕ) (e : Event) (w : Worker)
    → Inv w
    → Balanced i (pending i w + accepted i e) (step now e w)
unfolding step
step-Balanced i now (accepts job) w v = accept-Balanced i now job w v
step-Balanced i now (answers id o) w v = omega (arith, race-Balanced i id o w)
step-Balanced i now (expires id) w v = omega (arith, expire-Balanced i id w)
step-Balanced i now resumes w v = omega (arith, resume-Balanced i now w)

play-Balanced :
    (i : ℕ) (es : List (ℕ × Event)) (w : Worker)
    → Inv w
    → Balanced i (pending i w + submitted i es) (play es w)
unfolding play
play-Balanced i [] w v = refl
play-Balanced i ((now, e) ∷ es) w v =
    let t = step now e w in
    omega (
      arith,
      step-Balanced i now e w v,
      play-Balanced i es t.0 (step-Inv now e w v),
      settled-append i t.1 (play es t.0).1,
    )

-- After any history of a worker whose breaker threshold is positive, and for every number `i`: the
-- times that a job `i` was submitted are the times that it is queued or in flight plus the times
-- that its promise was settled. So no promise is lost, and none is settled twice.
pub play_accounts :
    (options : WorkerOptions) (i : ℕ) (es : List (ℕ × Event))
    → 1 ≤ options.breaker_threshold
    → pending i (play es (new options)).0 + settled i (play es (new options)).1 ≡ submitted i es
unfolding new
play_accounts options i es h = omega (arith, play-Balanced i es (new options) (new-Inv options h))
