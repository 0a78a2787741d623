-- ===== src/HeldSessions/Loader/Slots.antt =====
-- The slots of running reloads, and that a queued one waits only while all are taken.
use tinycloud_agents.Base.{
  ℕ, ◌+◌, ◌-◌, ◌≤◌, ◌≡◌, refl, ap, sym, ◌∙◌, ◌⊎◌, inl, inr, Bool, true, false, ◌&&◌, ◌||◌, not,
  Option, none, some, List, [], ◌∷◌, String, length, ltb, if◌then◌else◌, text_eq, arith, Bool-cases,
  Option-cases,
}
use tinycloud_agents.Base.Map
use tinycloud_agents.Base.Map.{Map}
use tinycloud_agents.Base.Sizes.{
  HasDistinctKeys, set-HasDistinctKeys, delete-HasDistinctKeys, length-set_new, length-set_old,
  length-delete_old,
}
use tinycloud_agents.HeldSessions.Reload.{
  Surroundings, Reloads, Phase, reading, activating, cleaning_up, over, Outcome, Answer,
}
use tinycloud_agents.SessionStore.{SessionScope}
use tinycloud_agents.HeldSessions.Loader.{
  HeldSessions, new, run, take, pump_from, pump, includes, is_ready, is_backing_off, release,
  conclude, retry_later, settle, is_retried, advance, Backoff, holds, LoaderPhase, idle, indexing,
  ready, stopped,
}
use tinycloud_agents.HeldSessions.Loader.Events.{
  requeue, loaded, index, is_indexing, remove_first, prioritize, forget, start, start_indexing,
  Event, starts, stops, indexes, advances, fires, prioritizes, forgets, calls, step, timer_fires,
  stop, play,
}

-- `running` counts the entities in flight, each of which is there once.
abbrev pub CountsFlights : HeldSessions → Type 0
CountsFlights h = (h.running ≡ length h.inflight) × HasDistinctKeys h.inflight

-- While the loader is ready, an entity is queued only if all slots are taken.
abbrev pub IsBusy : HeldSessions → Type 0
IsBusy h = is_ready h.phase ≡ true → (h.queue ≡ []) ⊎ (h.concurrency ≤ h.running)

run-CountsFlights :
    (h : HeldSessions) (entity_id : String) → CountsFlights h → CountsFlights (run h entity_id)
unfolding run
run-CountsFlights h entity_id (n, d) = elim (Option-cases (Map.get h.inflight entity_id)) [
  | inr (phase, e) ↦ rw e (n, d)
  | inl new ↦ rw new (
    ap (λ m. m + 1) n ∙ sym (length-set_new h.inflight entity_id _ new),
    set-HasDistinctKeys h.inflight entity_id _ d,
  )
]

if-CountsFlights :
    (b : Bool) (x y : HeldSessions)
    → CountsFlights x
    → CountsFlights y
    → CountsFlights (if b then x else y)
if-CountsFlights true x y p q = p
if-CountsFlights false x y p q = q

take-CountsFlights :
    (now : ℕ) (h : HeldSessions) (entity_id : String)
    → CountsFlights h
    → CountsFlights (take now h entity_id)
unfolding take
take-CountsFlights now h entity_id c =
    if-CountsFlights (not (includes h.pending entity_id) || Map.has h.inflight entity_id) h
      (if is_backing_off now (Map.get h.backoff entity_id) then h else run h entity_id) c
      (if-CountsFlights (is_backing_off now (Map.get h.backoff entity_id)) h (run h entity_id) c
        (run-CountsFlights h entity_id c))

pump_from-CountsFlights :
    (now : ℕ) (h : HeldSessions) (queue : List String)
    → CountsFlights h
    → CountsFlights (pump_from now h queue)
unfolding pump_from
pump_from-CountsFlights now h [] c = c
pump_from-CountsFlights now h (entity_id ∷ rest) c =
    if-CountsFlights (is_ready h.phase && ltb h.running h.concurrency)
      (pump_from now (take now h entity_id) rest) (record h { queue = entity_id ∷ rest })
      (pump_from-CountsFlights now (take now h entity_id) rest
        (take-CountsFlights now h entity_id c))
      c

pump_from-IsBusy :
    (now : ℕ) (h : HeldSessions) (queue : List String) → IsBusy (pump_from now h queue)
unfolding pump_from
pump_from-IsBusy now h [] = λ e. inl refl
pump_from-IsBusy now h (entity_id ∷ rest) =
    elim (Bool-cases (is_ready h.phase && ltb h.running h.concurrency)) [
      | inl more ↦ rw more (pump_from-IsBusy now (take now h entity_id) rest)
      | inr full ↦ rw full (λ e. inr (ground (arith, full, e)))
    ]

pub record Fits (h : HeldSessions) : Type 0 where
  pub counts : CountsFlights h
  pub busy : IsBusy h

pump-Fits : (now : ℕ) (h : HeldSessions) → CountsFlights h → Fits (pump now h)
unfolding pump
pump-Fits now h c = record {
  counts = pump_from-CountsFlights now h h.queue c;
  busy = pump_from-IsBusy now h h.queue;
}

run-IsBusy : (h : HeldSessions) (entity_id : String) → IsBusy h → IsBusy (run h entity_id)
unfolding run
run-IsBusy h entity_id b = elim (Bool-cases (Map.has h.inflight entity_id)) [
  | inl there ↦ rw there b
  | inr new ↦ rw new (λ e. more (b e))
]
  where
    more :
        (h.queue ≡ []) ⊎ (h.concurrency ≤ h.running)
        → (h.queue ≡ []) ⊎ (h.concurrency ≤ h.running + 1)
    more (inl empty) = inl empty
    more (inr full) = inr (omega (arith, full))

release-Fits :
    (now : ℕ) (h : HeldSessions) (entity_id : String) (phase : Phase)
    → Map.get h.inflight entity_id ≡ some phase
    → CountsFlights h
    → Fits (release now h entity_id)
unfolding release
release-Fits now h entity_id phase e (n, d) =
    pump-Fits now (record h { running = h.running - 1; inflight = Map.delete h.inflight entity_id })
      (
        omega (arith, n, length-delete_old h.inflight entity_id phase d e),
        delete-HasDistinctKeys h.inflight entity_id d,
      )

conclude-Fits :
    (now : ℕ) (h : HeldSessions) (entity_id : String) (phase : Phase) (outcome : Outcome)
    → Map.get h.inflight entity_id ≡ some phase
    → CountsFlights h
    → Fits (conclude now h entity_id outcome)
unfolding conclude retry_later settle
conclude-Fits now h entity_id phase outcome e c =
    elim (Bool-cases (is_retried h entity_id outcome)) [
      | inl again ↦ rw again (release-Fits now (retry_later now h entity_id) entity_id phase e c)
      | inr finished ↦ rw finished (release-Fits now (settle h entity_id) entity_id phase e c)
    ]

module _ (w : Surroundings) (now : ℕ) (h : HeldSessions) (f : Fits h) where
  moved-Fits :
      (entity_id : String) (r : Reloads) (phase next : Phase)
      → Map.get h.inflight entity_id ≡ some phase
      → Fits (record h { reloads = r; inflight = Map.set h.inflight entity_id next })
  moved-Fits entity_id r phase next e = record {
    counts = (
      f.counts.0 ∙ sym (length-set_old h.inflight entity_id next phase e),
      set-HasDistinctKeys h.inflight entity_id next f.counts.1,
    );
    busy = f.busy;
  }

  advance-Fits :
      (entity_id : String) (phase : Option Phase) (a : Answer)
      → Map.get h.inflight entity_id ≡ phase
      → Fits (advance w now h entity_id phase a)
  advance-Fits entity_id none a e = f
  advance-Fits entity_id (some (over outcome)) a e =
      conclude-Fits now h entity_id (over outcome) outcome e f.counts
  advance-Fits entity_id (some (reading lease)) a e = moved-Fits entity_id _ _ _ e
  advance-Fits entity_id (some (activating c stage)) a e = moved-Fits entity_id _ _ _ e
  advance-Fits entity_id (some (cleaning_up c fault)) a e = moved-Fits entity_id _ _ _ e

  requeue-Fits : (entity_id : String) (b : Option Backoff) → Fits (requeue now h entity_id b)
  requeue-Fits entity_id none = f
  requeue-Fits entity_id (some b) = elim (Bool-cases b.timer) [
    | inr quiet ↦ rw quiet f
    | inl set ↦ elim (Bool-cases (includes h.pending entity_id)) [
      | inl wanted ↦ rw (set, wanted) (pump-Fits now _ f.counts)
      | inr settled ↦ rw (set, settled) (record { counts = f.counts; busy = f.busy })
    ]
  ]

  loaded-Fits : (entity_ids : List String) → Fits (loaded now h entity_ids)
  unfolding loaded
  loaded-Fits entity_ids = pump-Fits now _ f.counts

  index-Fits : (entity_ids : Option (List String)) → Fits (index now h entity_ids)
  unfolding index
  index-Fits none = f
  index-Fits (some entity_ids) = elim (Bool-cases (is_indexing h.phase)) [
    | inl now_indexing ↦ rw now_indexing (loaded-Fits entity_ids)
    | inr other ↦ rw other f
  ]

  remove_first-IsBusy :
      (entity_id : String) → IsBusy (record h { queue = remove_first entity_id h.queue })
  unfolding remove_first
  remove_first-IsBusy entity_id e = go (f.busy e)
    where
      go :
          (h.queue ≡ []) ⊎ (h.concurrency ≤ h.running)
          → (remove_first entity_id h.queue ≡ []) ⊎ (h.concurrency ≤ h.running)
      go (inl empty) = inl (ap (remove_first entity_id) empty)
      go (inr full) = inr full

  prioritize-Fits : (entity_id : String) → Fits (prioritize now h entity_id)
  unfolding prioritize
  prioritize-Fits entity_id =
      elim (Bool-cases (not (includes h.pending entity_id) || Map.has h.inflight entity_id)) [
        | inl away ↦ rw away f
        | inr here ↦
            let ahead = record h { queue = remove_first entity_id h.queue } in
            elim (Bool-cases (is_backing_off now (Map.get h.backoff entity_id))) [
              | inl later ↦
                  rw (here, later)
                    (record { counts = f.counts; busy = remove_first-IsBusy entity_id })
              | inr free ↦
                  rw (here, free)
                    (record {
                      counts = run-CountsFlights ahead entity_id f.counts;
                      busy = run-IsBusy ahead entity_id (remove_first-IsBusy entity_id);
                    })
            ]
      ]

  forget-Fits : (scope : SessionScope) (entity_id : String) → Fits (forget h scope entity_id)
  unfolding forget settle
  forget-Fits scope entity_id = elim (Bool-cases (holds h scope)) [
    | inl ours ↦ rw ours (record { counts = f.counts; busy = f.busy })
    | inr others ↦ rw others f
  ]

  start-Fits : Fits (start h)
  unfolding start is_ready
  start-Fits = record { counts = f.counts; busy = λ e. f.busy (same h.phase e) }
    where
      same : (p : LoaderPhase) → is_ready (start_indexing p) ≡ true → is_ready p ≡ true
      same idle e = absurd (cc e)
      same indexing e = absurd (cc e)
      same ready e = refl
      same stopped e = absurd (cc e)

  step-Fits : (e : Event) → Fits (step w h now e)
  unfolding step timer_fires stop is_ready
  step-Fits starts = start-Fits
  step-Fits stops = record { counts = f.counts; busy = λ e. absurd (cc e) }
  step-Fits (indexes entity_ids) = index-Fits entity_ids
  step-Fits (advances entity_id a) = advance-Fits entity_id (Map.get h.inflight entity_id) a refl
  step-Fits (fires entity_id) = requeue-Fits entity_id (Map.get h.backoff entity_id)
  step-Fits (prioritizes entity_id) = prioritize-Fits entity_id
  step-Fits (forgets scope entity_id) = forget-Fits scope entity_id
  step-Fits (calls o) = record { counts = f.counts; busy = f.busy }

play-Fits :
    (w : Surroundings) (h : HeldSessions) (es : List (ℕ × Event)) → Fits h → Fits (play w h es)
unfolding play
play-Fits w h [] f = f
play-Fits w h ((now, e) ∷ es) f = play-Fits w (step w h now e) es (step-Fits w now h f e)

-- In every history of the loader: `running` counts the entities in flight, each of which is there
-- once; and while the loader is ready, an entity waits in the queue only if all the slots for reloads
-- are taken.
pub loader-Fits :
    (w : Surroundings) (r : Reloads) (concurrency : Option ℕ) (eager_limit : ℕ)
    (base most : Option ℕ) (es : List (ℕ × Event))
    → Fits (play w (new r concurrency eager_limit base most) es)
unfolding new
loader-Fits w r concurrency eager_limit base most es =
    play-Fits w (new r concurrency eager_limit base most) es
      (record { counts = (refl, tt); busy = λ e. inl refl })
