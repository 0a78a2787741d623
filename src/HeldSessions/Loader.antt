-- ===== src/HeldSessions/Loader.antt =====
-- packages/eliza-service/src/held-sessions.ts, class HeldSessions: which stored sessions are reloaded
-- and when.
--
-- `inflight` has the phase of each reload that runs. A waiter of `settled` is told by an entry in
-- `woken`. The timer of a backoff is a flag; a lapsed one is `until` 0.
-- A timer that outlives the backoff it was set for is left out.
pub mod Events
pub mod Slots
mod Tests
use tinycloud_agents.Base.{
  ℕ, zero, suc, length, ◌+◌, ◌-◌, ◌*◌, ◌^◌, Bool, true, false, ◌&&◌, ◌||◌, not, Option, none, some,
  List, [], ◌∷◌, ◌++◌, String, ltb, if◌then◌else◌, ◌===◌, text_eq, is_some, without, min,
}
use tinycloud_agents.Base.Map
use tinycloud_agents.Base.Map.{Map}
use tinycloud_agents.SessionStore.{
  SessionStore, SessionScope, SessionLease, key, known, peek, abandon_restore, is_restoring, Op,
  apply,
}
use tinycloud_agents.HeldSessions.Reload.{
  Surroundings, Reloads, Phase, over, Outcome, done, retry, Answer, start_reload,
}
use tinycloud_agents.HeldSessions.Reload.Restore as Restore

pub data LoaderPhase : Type 0 where
  idle indexing ready stopped : LoaderPhase

pub record Backoff : Type 0 where
  pub attempts : ℕ
  pub until : ℕ
  pub timer : Bool

pub record HeldSessions : Type 0 where
  pub reloads : Reloads
  pub phase : LoaderPhase
  pub pending : List String
  pub queue : List String
  pub inflight : Map String Phase
  pub backoff : Map String Backoff
  pub woken : List String
  pub running : ℕ
  pub concurrency : ℕ
  pub eager_limit : ℕ
  pub retry_base_ms : ℕ
  pub retry_max_ms : ℕ

-- `Math.max(1, opts.concurrency ?? 8)`.
abbrev pub concurrency_of : Option ℕ → ℕ
concurrency_of none = 8
concurrency_of (some zero) = 1
concurrency_of (some (suc n)) = suc n

abbrev pub or_else : Option ℕ → ℕ → ℕ
or_else none n = n
or_else (some m) n = m

unfoldable pub new : Reloads → Option ℕ → ℕ → Option ℕ → Option ℕ → HeldSessions
new reloads concurrency eager_limit retry_base_ms retry_max_ms = record {
  reloads = reloads;
  phase = idle;
  pending = [];
  queue = [];
  inflight = [];
  backoff = [];
  woken = [];
  running = 0;
  concurrency = concurrency_of concurrency;
  eager_limit = eager_limit;
  retry_base_ms = or_else retry_base_ms 1000;
  retry_max_ms = or_else retry_max_ms 60000;
}

unfoldable pub holds : HeldSessions → SessionScope → Bool
holds h scope =
    scope.app_id === h.reloads.scope.app_id && scope.agent_id === h.reloads.scope.agent_id

unfoldable pub includes : List String → String → Bool
includes [] x = false
includes (y ∷ ys) x = (y === x) || includes ys x

unfoldable pub is_ready : LoaderPhase → Bool
is_ready ready = true
is_ready _ = false

unfoldable pub delay : HeldSessions → ℕ → ℕ
delay h attempt = min h.retry_max_ms (h.retry_base_ms * 2 ^ min (attempt - 1) 16)

-- A backoff that lasts.
abbrev pub is_backing_off : ℕ → Option Backoff → Bool
is_backing_off now none = false
is_backing_off now (some b) = ltb now b.until

-- `run`, up to the first await of the reload.
unfoldable pub run : HeldSessions → String → HeldSessions
run h entity_id = if Map.has h.inflight entity_id then h else record h {
  running = h.running + 1;
  inflight = Map.set h.inflight entity_id (start_reload h.reloads entity_id);
}

-- A queued entity that is taken from the queue.
unfoldable pub take : ℕ → HeldSessions → String → HeldSessions
take now h entity_id =
    if not (includes h.pending entity_id) || Map.has h.inflight entity_id
    then h
    else if is_backing_off now (Map.get h.backoff entity_id)
    then h
    else run h entity_id

-- The loop over the queue, which stands in the second place.
unfoldable pub pump_from : ℕ → HeldSessions → List String → HeldSessions
pump_from now h [] = record h { queue = [] }
pump_from now h (entity_id ∷ rest) =
    let next = pump_from now (take now h entity_id) rest in
    if is_ready h.phase && ltb h.running h.concurrency
    then next
    else record h { queue = entity_id ∷ rest }

unfoldable pub pump : ℕ → HeldSessions → HeldSessions
pump now h = pump_from now h h.queue

-- The lease is given up, which matters only while the entity is restoring.
abbrev pub give_up_lease : Reloads → String → Option SessionLease → Reloads
give_up_lease r entity_id none = r
give_up_lease r entity_id (some l) = record r {
  sessions = abandon_restore r.sessions (key r.scope entity_id) l;
  leases = Map.delete r.leases entity_id;
}

unfoldable pub settle : HeldSessions → String → HeldSessions
settle h entity_id = record h {
  pending = without (λ x. x === entity_id) h.pending;
  backoff = Map.delete h.backoff entity_id;
  reloads = give_up_lease h.reloads entity_id (Map.get h.reloads.leases entity_id);
  woken = entity_id ∷ h.woken;
}

abbrev pub attempts_of : Option Backoff → ℕ
attempts_of none = 0
attempts_of (some b) = b.attempts

unfoldable pub retry_later : ℕ → HeldSessions → String → HeldSessions
retry_later now h entity_id =
    let attempts = attempts_of (Map.get h.backoff entity_id) + 1 in
    record h {
      backoff =
          Map.set h.backoff entity_id
            (record { attempts = attempts; until = now + delay h attempts; timer = true });
    }

unfoldable pub is_retried : HeldSessions → String → Outcome → Bool
is_retried h entity_id done = false
is_retried h entity_id retry = is_ready h.phase && includes h.pending entity_id

-- `finally`.
unfoldable pub release : ℕ → HeldSessions → String → HeldSessions
release now h entity_id =
    pump now (record h { running = h.running - 1; inflight = Map.delete h.inflight entity_id })

-- After `restore` has given its outcome.
unfoldable pub conclude : ℕ → HeldSessions → String → Outcome → HeldSessions
conclude now h entity_id outcome =
    release now
      (if is_retried h entity_id outcome then retry_later now h entity_id else settle h entity_id)
      entity_id

-- The end of a call that a reload awaits, and the turn after a reload has ended.
abbrev pub advance : Surroundings → ℕ → HeldSessions → String → Option Phase → Answer → HeldSessions
advance w now h entity_id none a = h
advance w now h entity_id (some (over outcome)) a = conclude now h entity_id outcome
advance w now h entity_id (some phase) a =
    let (r, next) = Restore.resume w now h.reloads entity_id phase a in
    record h { reloads = r; inflight = Map.set h.inflight entity_id next }
