-- ===== src/Session.antt =====
-- packages/agent-client/src/session.ts, class Session: lazy sign-in, one retry, refresh and stop.
--
-- Each call of `run` has a number. What waits for the shared sign-in is a Waiter, what waits for the
-- worker an Attempt; the event loop settles them, and runs the timer of the proactive refresh.
pub mod Auth
pub mod Weights
pub mod Calls
pub mod Refresh
mod Tests
use tinycloud_agents.Base.{
  ℕ, ◌+◌, Bool, true, false, not, Option, none, some, List, [], ◌∷◌, ◌++◌, String, length,
  if◌then◌else◌, ◌===◌, number_eq,
}
use tinycloud_agents.Worker.{Lane}
use tinycloud_agents.Session.Auth.{
  TransportResult, Thrown, Outcome, Verdict, completed, auth_failure, propagates, classify,
  stopped_error, auth_error, is_delegation_rejected,
}

pub record SignInResult : Type 0 where
  pub space_id : String
  pub address : String
  pub did : String

-- Who waits for the sign-in: a caller of `ensureSignedIn`, a call of `run` before its first attempt
-- or before its retry, or the proactive refresh.
pub data Waiter : Type 0 where
  ensuring : ℕ → Waiter
  beginning : ℕ → Lane → Waiter
  retrying : ℕ → Lane → Waiter
  refreshing : Waiter

pub record Attempt : Type 0 where
  pub id : ℕ
  pub lane : Lane
  pub second : Bool

-- `armed` says that the clock holds a refresh timer; `refresh_timer` that the field is not null,
-- which it stays after the timer has fired. One flag serves for the clock because scheduleRefresh
-- clears the timer that it replaces.
pub record Session : Type 0 where
  pub proactive_refresh : Bool
  pub delegation_rejected : Bool
  pub established : Option SignInResult
  pub sign_in_in_flight : Option (List Waiter)
  pub refresh_timer : Bool
  pub armed : Bool
  pub stopped : Bool
  pub in_flight : List ℕ
  pub attempts : List Attempt

pub data Effect : Type 0 where
  signs_in invalidates warns_rejected warns_refresh_failed : Effect
  warns_auth : ℕ → Effect
  submits : ℕ → Lane → Effect
  calls_node : ℕ → Effect
  ensured : ℕ → SignInResult → Effect
  ensure_failed : ℕ → Thrown → Effect
  resolves : ℕ → TransportResult → Effect
  rejects : ℕ → Thrown → Effect

abbrev pub Turn : Type 0
Turn = Session × List Effect

pub new : Bool → Session
new proactive_refresh = record {
  proactive_refresh = proactive_refresh;
  delegation_rejected = false;
  established = none;
  sign_in_in_flight = none;
  refresh_timer = false;
  armed = false;
  stopped = false;
  in_flight = [];
  attempts = [];
}

-- One turn, and then another.
abbrev pub and_then : Turn → (Session → Turn) → Turn
and_then t next = let (s', more) = next t.0 in (s', t.1 ++ more)

abbrev pub remove : ℕ → List ℕ → List ℕ
remove id [] = []
remove id (x ∷ xs) = let rest = remove id xs in if x === id then rest else x ∷ rest

-- `done` of `track`.
pub untrack : ℕ → Session → Session
untrack id s = record s { in_flight = remove id s.in_flight }

pub schedule_refresh : Session → Session
schedule_refresh s =
    if s.stopped
    then s
    else (if not s.proactive_refresh then s else record s { refresh_timer = true; armed = true })

-- `attempt` up to its `await`: the job goes to the worker.
pub attempt : ℕ → Lane → Bool → Session → Turn
attempt id lane second s = (
  record s { attempts = record { id = id; lane = lane; second = second } ∷ s.attempts },
  submits id lane ∷ [],
)

-- What a waiter does when the sign-in has succeeded.
pub proceed : SignInResult → Waiter → Session → Turn
proceed r (ensuring id) s = (s, ensured id r ∷ [])
proceed r (beginning id lane) s =
    if s.stopped then (untrack id s, rejects id stopped_error ∷ []) else attempt id lane false s
proceed r (retrying id lane) s = attempt id lane true s
proceed r refreshing s = (s, [])

-- What it does when the sign-in has failed.
pub give_up : Thrown → Waiter → Session → Turn
give_up e (ensuring id) s = (s, ensure_failed id e ∷ [])
give_up e (beginning id lane) s = (untrack id s, rejects id e ∷ [])
give_up e (retrying id lane) s = (untrack id s, rejects id e ∷ [])
give_up e refreshing s =
    if is_delegation_rejected e then (s, []) else (schedule_refresh s, warns_refresh_failed ∷ [])

pub ensure_signed_in : Waiter → Session → Turn
ensure_signed_in w s = if s.stopped then give_up stopped_error w s else elim s.established [
  | some r ↦ proceed r w s
  | none ↦ elim s.sign_in_in_flight [
    | some waiters ↦ (record s { sign_in_in_flight = some (waiters ++ w ∷ []) }, [])
    | none ↦ (record s { sign_in_in_flight = some (w ∷ []) }, signs_in ∷ [])
  ]
]

pub re_sign_in : Waiter → Session → Turn
re_sign_in w s = and_then (record s { established = none }, invalidates ∷ []) (ensure_signed_in w)

pub run : ℕ → Lane → Session → Turn
run id lane s =
    if s.stopped
    then (s, rejects id stopped_error ∷ [])
    else ensure_signed_in (beginning id lane) (record s { in_flight = id ∷ s.in_flight })

pub handle_delegation_rejected : Session → Turn
handle_delegation_rejected s =
    let quiet = if s.refresh_timer then record s { refresh_timer = false; armed = false } else s in
    if quiet.delegation_rejected
    then (quiet, [])
    else (record quiet { delegation_rejected = true }, warns_rejected ∷ [])

-- The waiters go on in the order in which they came.
pub proceed_all : SignInResult → List Waiter → Session → Turn
proceed_all r [] s = (s, [])
proceed_all r (w ∷ ws) s = and_then (proceed r w s) (proceed_all r ws)

pub give_up_all : Thrown → List Waiter → Session → Turn
give_up_all e [] s = (s, [])
give_up_all e (w ∷ ws) s = and_then (give_up e w s) (give_up_all e ws)

pub leave : Thrown → List Waiter → Session → Turn
leave e waiters s = give_up_all e waiters (record s { sign_in_in_flight = none })

-- `transport.signIn()` has settled: the rest of `doSignIn`, and then of those who wait for it.
pub sign_in_succeeds : SignInResult → Session → Turn
sign_in_succeeds r s = elim s.sign_in_in_flight [
  | none ↦ (s, [])
  | some waiters ↦
      if s.stopped
      then leave stopped_error waiters s
      else proceed_all r waiters
          (record (schedule_refresh (record s { delegation_rejected = false })) {
            established = some r;
            sign_in_in_flight = none;
          })
]

-- The `catch` of `doSignIn`.
pub react : Thrown → Session → Turn
react e s = if is_delegation_rejected e then handle_delegation_rejected s else (s, [])

pub sign_in_fails : Thrown → Session → Turn
sign_in_fails e s = elim s.sign_in_in_flight [
  | none ↦ (s, [])
  | some waiters ↦ and_then (react e s) (leave e waiters)
]

abbrev pub attempt_of : ℕ → List Attempt → Option Attempt
attempt_of id [] = none
attempt_of id (a ∷ others) = if a.id === id then some a else attempt_of id others

-- The first attempt of the call is taken out.
abbrev pub drop_attempt : ℕ → List Attempt → List Attempt
drop_attempt id [] = []
drop_attempt id (a ∷ others) =
    let rest = drop_attempt id others in if a.id === id then others else a ∷ rest

-- The rest of `runWithAuthRetry` after an attempt.
pub conclude : Attempt → Verdict → Session → Turn
conclude a (completed r) s = (untrack a.id s, resolves a.id r ∷ [])
conclude a (propagates e) s = (untrack a.id s, rejects a.id e ∷ [])
conclude a auth_failure s =
    if a.second
    then (untrack a.id s, rejects a.id auth_error ∷ [])
    else and_then (s, warns_auth a.id ∷ []) (re_sign_in (retrying a.id a.lane))

-- The worker has settled the job of call `id`.
pub settle : ℕ → Outcome → Session → Turn
settle id outcome s = elim (attempt_of id s.attempts) [
  | none ↦ (s, [])
  | some a ↦ conclude a (classify outcome) (record s { attempts = drop_attempt id s.attempts })
]

-- The worker starts the job of call `id`: `assertRunning`, then the call to the node.
pub dispatch : ℕ → Session → Turn
dispatch id s = elim (attempt_of id s.attempts) [
  | none ↦ (s, [])
  | some a ↦
      if s.stopped then settle id (Outcome.throws stopped_error) s else (s, calls_node id ∷ [])
]

-- The refresh timer fires.
pub do_proactive_refresh : Session → Turn
do_proactive_refresh s =
    if s.armed
    then (let fired = record s { armed = false } in
        if s.stopped then (fired, []) else re_sign_in refreshing fired)
    else (s, [])

-- `stop` up to its wait.
pub stop : Session → Session
stop s = record s { stopped = true; refresh_timer = false; armed = false }

-- What `stop` returns, when all pending calls have settled or the flush budget has elapsed.
pub stop_result : Bool → Session → Bool × ℕ
stop_result flushed s = (flushed, length s.in_flight)

pub data Event : Type 0 where
  ensures : ℕ → Event
  runs : ℕ → Lane → Event
  dispatches : ℕ → Event
  settles : ℕ → Outcome → Event
  signed_in : SignInResult → Event
  sign_in_failed : Thrown → Event
  refresh_fires stops : Event

pub step : Event → Session → Turn
step (ensures id) s = ensure_signed_in (ensuring id) s
step (runs id lane) s = run id lane s
step (dispatches id) s = dispatch id s
step (settles id outcome) s = settle id outcome s
step (signed_in r) s = sign_in_succeeds r s
step (sign_in_failed e) s = sign_in_fails e s
step refresh_fires s = do_proactive_refresh s
step stops s = (stop s, [])

pub play : List Event → Session → Turn
play [] s = (s, [])
play (e ∷ es) s = and_then (step e s) (play es)
