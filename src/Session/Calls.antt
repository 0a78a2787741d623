-- ===== src/Session/Calls.antt =====
-- How often a call of `run` reaches the worker, and that it is answered once.
use tinycloud_agents.Base.{
  ℕ, ◌+◌, ◌*◌, ◌≤◌, ◌≡◌, Bool, false, none, some, List, [], ◌∷◌, ◌++◌, arith, from_bool, nat_beq,
  sum_by, sum_by-append, Option-cases, ◌⊎◌, inl, inr, refl, sym, subst, ◌∙◌, number_eq,
}
use tinycloud_agents.Worker.{Lane}
use tinycloud_agents.Session.Auth.{
  Thrown, Verdict, Outcome, completed, auth_failure, propagates, stopped_error, classify,
}
use tinycloud_agents.Session.{
  Session, Turn, Waiter, ensuring, beginning, retrying, refreshing, Attempt, Effect, and_then,
  untrack, schedule_refresh, attempt, proceed, give_up, ensure_signed_in, re_sign_in, run,
  proceed_all, give_up_all, SignInResult, handle_delegation_rejected, sign_in_succeeds, react,
  leave, sign_in_fails, attempt_of, drop_attempt, conclude, settle, dispatch, do_proactive_refresh,
  stop, Event, ensures, runs, dispatches, settles, signed_in, sign_in_failed, refresh_fires, stops,
  step, play, new,
}
use tinycloud_agents.Session.Weights.{
  waiter_budget, attempt_budget, owes_answer, waiters_of, submissions, answers, budget, pending,
  IsBalanced, and_then-IsBalanced, Ensures, fails, goes_on, joins, ensure_signed_in-Ensures,
  is_submission, is_answer,
}

module _ (id : ℕ) where
  -- What a waiter is owed, and what the session owes to the others.
  abbrev Serves : Waiter → Session → Turn → Type 0
  Serves w s t =
      IsBalanced id (waiter_budget id w + budget id s) (owes_answer id w + pending id s) t

  proceed-IsBalanced : (r : SignInResult) (w : Waiter) (s : Session) → Serves w s (proceed r w s)
  unfolding proceed untrack attempt budget pending
  proceed-IsBalanced r (ensuring j) s = ground arith
  proceed-IsBalanced r (beginning j lane) s = ground arith
  proceed-IsBalanced r (retrying j lane) s = ground arith
  proceed-IsBalanced r refreshing s = ground arith

  give_up-IsBalanced : (e : Thrown) (w : Waiter) (s : Session) → Serves w s (give_up e w s)
  unfolding give_up untrack schedule_refresh budget pending
  give_up-IsBalanced e (ensuring j) s = ground arith
  give_up-IsBalanced e (beginning j lane) s = ground arith
  give_up-IsBalanced e (retrying j lane) s = ground arith
  give_up-IsBalanced e refreshing s = ground arith

  joins-IsBalanced :
      (w : Waiter) (s : Session) (es : List Effect)
      → (es ≡ []) ⊎ (es ≡ Effect.signs_in ∷ [])
      → Serves w s (record s { sign_in_in_flight = some (waiters_of s ++ w ∷ []) }, es)
  unfolding budget pending
  joins-IsBalanced w s es silent = ground (
    arith,
    silent,
    sum_by-append (waiter_budget id) (waiters_of s) (w ∷ []),
    sum_by-append (owes_answer id) (waiters_of s) (w ∷ []),
  )

  Ensures-IsBalanced : (w : Waiter) (s : Session) (t : Turn) → Ensures w s t → Serves w s t
  Ensures-IsBalanced w s t (fails e stopped) =
      subst (Serves w s) (sym e) (give_up-IsBalanced stopped_error w s)
  Ensures-IsBalanced w s t (goes_on r e running) =
      subst (Serves w s) (sym e) (proceed-IsBalanced r w s)
  Ensures-IsBalanced w s t (joins es e silent running) =
      subst (Serves w s) (sym e) (joins-IsBalanced w s es silent)

  ensure_signed_in-IsBalanced : (w : Waiter) (s : Session) → Serves w s (ensure_signed_in w s)
  ensure_signed_in-IsBalanced w s =
      Ensures-IsBalanced w s (ensure_signed_in w s) (ensure_signed_in-Ensures w s)

  re_sign_in-IsBalanced : (w : Waiter) (s : Session) → Serves w s (re_sign_in w s)
  unfolding re_sign_in budget pending
  re_sign_in-IsBalanced w s =
      ground (arith, ensure_signed_in-IsBalanced w (record s { established = none }))

  run-IsBalanced :
      (j : ℕ) (lane : Lane) (s : Session)
      → IsBalanced id
          (2 * from_bool (nat_beq j id) + budget id s)
          (from_bool (nat_beq j id) + pending id s)
          (run j lane s)
  unfolding run budget pending
  run-IsBalanced j lane s = ground (
    arith,
    ensure_signed_in-IsBalanced (beginning j lane) (record s { in_flight = j ∷ s.in_flight }),
  )

  proceed_all-IsBalanced :
      (r : SignInResult) (ws : List Waiter) (s : Session)
      → IsBalanced id
          (sum_by (waiter_budget id) ws + budget id s)
          (sum_by (owes_answer id) ws + pending id s)
          (proceed_all r ws s)
  unfolding proceed_all
  proceed_all-IsBalanced r [] s = ground arith
  proceed_all-IsBalanced r (w ∷ ws) s = ground (
    arith,
    proceed-IsBalanced r w s,
    proceed_all-IsBalanced r ws (proceed r w s).0,
    sum_by-append (is_submission id) (proceed r w s).1 (proceed_all r ws (proceed r w s).0).1,
    sum_by-append (is_answer id) (proceed r w s).1 (proceed_all r ws (proceed r w s).0).1,
  )

  give_up_all-IsBalanced :
      (e : Thrown) (ws : List Waiter) (s : Session)
      → IsBalanced id
          (sum_by (waiter_budget id) ws + budget id s)
          (sum_by (owes_answer id) ws + pending id s)
          (give_up_all e ws s)
  unfolding give_up_all
  give_up_all-IsBalanced e [] s = ground arith
  give_up_all-IsBalanced e (w ∷ ws) s = ground (
    arith,
    give_up-IsBalanced e w s,
    give_up_all-IsBalanced e ws (give_up e w s).0,
    sum_by-append (is_submission id) (give_up e w s).1 (give_up_all e ws (give_up e w s).0).1,
    sum_by-append (is_answer id) (give_up e w s).1 (give_up_all e ws (give_up e w s).0).1,
  )

  -- A turn that begins no call.
  abbrev Keeps : Session → Turn → Type 0
  Keeps s t = IsBalanced id (budget id s) (pending id s) t

  -- The waiters leave, and are told that the sign-in failed.
  leave-Keeps :
      (e : Thrown) (ws : List Waiter) (s : Session)
      → s.sign_in_in_flight ≡ some ws
      → Keeps s (leave e ws s)
  unfolding leave budget pending
  leave-Keeps e ws s there =
      ground (arith, there, give_up_all-IsBalanced e ws (record s { sign_in_in_flight = none }))

  sign_in_succeeds-Keeps : (r : SignInResult) (s : Session) → Keeps s (sign_in_succeeds r s)
  unfolding sign_in_succeeds schedule_refresh budget pending
  sign_in_succeeds-Keeps r s = elim (Option-cases s.sign_in_in_flight) [
    | inl e ↦ ground (arith, e)
    | inr (ws, e) ↦ ground (
      arith,
      e,
      leave-Keeps stopped_error ws s e,
      proceed_all-IsBalanced r ws
          (record (schedule_refresh (record s { delegation_rejected = false })) {
            established = some r;
            sign_in_in_flight = none;
          }),
    )
  ]

  react-Keeps : (e : Thrown) (s : Session) → Keeps s (react e s)
  unfolding react handle_delegation_rejected budget pending
  react-Keeps e s = ground arith

  same_flight : (e : Thrown) (s : Session) → (react e s).0.sign_in_in_flight ≡ s.sign_in_in_flight
  unfolding react handle_delegation_rejected
  same_flight e s = ground arith

  failed-Keeps :
      (e : Thrown) (ws : List Waiter) (s : Session)
      → s.sign_in_in_flight ≡ some ws
      → Keeps s (and_then (react e s) (leave e ws))
  failed-Keeps e ws s there =
      and_then-IsBalanced id (budget id s) (pending id s) (react e s) (leave e ws) (react-Keeps e s)
        (leave-Keeps e ws (react e s).0 (same_flight e s ∙ there))

  sign_in_fails-Keeps : (e : Thrown) (s : Session) → Keeps s (sign_in_fails e s)
  unfolding sign_in_fails
  sign_in_fails-Keeps e s = elim (Option-cases s.sign_in_in_flight) [
    | inl n ↦ ground (arith, n)
    | inr (ws, there) ↦ ground (arith, there, failed-Keeps e ws s there)
  ]

  dropped :
      (a : Attempt) (j : ℕ) (xs : List Attempt)
      → attempt_of j xs ≡ some a
      → (sum_by (attempt_budget id) (drop_attempt j xs) + attempt_budget id a
          ≡ sum_by (attempt_budget id) xs)
        × (sum_by (λ (b : Attempt). from_bool (nat_beq b.id id)) (drop_attempt j xs)
              + from_bool (nat_beq a.id id)
            ≡ sum_by (λ (b : Attempt). from_bool (nat_beq b.id id)) xs)
  dropped a j [] e = absurd (cc e)
  dropped a j (x ∷ xs) e = ground (arith, dropped a j xs)

  conclude-IsBalanced :
      (a : Attempt) (v : Verdict) (s : Session)
      → IsBalanced id
          (attempt_budget id a + budget id s)
          (from_bool (nat_beq a.id id) + pending id s)
          (conclude a v s)
  unfolding conclude untrack budget pending
  conclude-IsBalanced a (completed r) s = ground arith
  conclude-IsBalanced a (propagates e) s = ground arith
  conclude-IsBalanced a auth_failure s =
      ground (arith, re_sign_in-IsBalanced (retrying a.id a.lane) s)

  settle-Keeps : (j : ℕ) (o : Outcome) (s : Session) → Keeps s (settle j o s)
  unfolding settle budget pending
  settle-Keeps j o s = elim (Option-cases (attempt_of j s.attempts)) [
    | inl e ↦ ground (arith, e)
    | inr (a, e) ↦ ground (
      arith,
      e,
      dropped a j s.attempts e,
      conclude-IsBalanced a (classify o) (record s { attempts = drop_attempt j s.attempts }),
    )
  ]

  dispatch-Keeps : (j : ℕ) (s : Session) → Keeps s (dispatch j s)
  unfolding dispatch
  dispatch-Keeps j s = ground (arith, settle-Keeps j (Outcome.throws stopped_error) s)

  refresh-Keeps : (s : Session) → Keeps s (do_proactive_refresh s)
  unfolding do_proactive_refresh budget pending
  refresh-Keeps s = ground (arith, re_sign_in-IsBalanced refreshing (record s { armed = false }))

  stop-Keeps : (s : Session) → Keeps s (stop s, [])
  unfolding stop budget pending
  stop-Keeps s = ground arith

  -- How often `run` is called under this number.
  abbrev pub begun : List Event → ℕ
  begun [] = 0
  begun (runs j lane ∷ es) = from_bool (nat_beq j id) + begun es
  begun (e ∷ es) = begun es

  begun-cons : (e : Event) (es : List Event) → begun (e ∷ es) ≡ begun (e ∷ []) + begun es
  begun-cons (runs j lane) es = omega arith
  begun-cons (ensures j) es = omega arith
  begun-cons (dispatches j) es = omega arith
  begun-cons (settles j o) es = omega arith
  begun-cons (signed_in r) es = omega arith
  begun-cons (sign_in_failed e) es = omega arith
  begun-cons refresh_fires es = omega arith
  begun-cons stops es = omega arith

  step-IsBalanced :
      (e : Event) (s : Session)
      → IsBalanced id (2 * begun (e ∷ []) + budget id s) (begun (e ∷ []) + pending id s) (step e s)
  unfolding step stop
  step-IsBalanced (ensures j) s = ground (arith, ensure_signed_in-IsBalanced (ensuring j) s)
  step-IsBalanced (runs j lane) s = ground (arith, run-IsBalanced j lane s)
  step-IsBalanced (dispatches j) s = ground (arith, dispatch-Keeps j s)
  step-IsBalanced (settles j o) s = ground (arith, settle-Keeps j o s)
  step-IsBalanced (signed_in r) s = ground (arith, sign_in_succeeds-Keeps r s)
  step-IsBalanced (sign_in_failed e) s = ground (arith, sign_in_fails-Keeps e s)
  step-IsBalanced refresh_fires s = ground (arith, refresh-Keeps s)
  step-IsBalanced stops s = ground (arith, stop-Keeps s)

  play-IsBalanced :
      (es : List Event) (s : Session)
      → IsBalanced id (2 * begun es + budget id s) (begun es + pending id s) (play es s)
  unfolding play
  play-IsBalanced [] s = ground arith
  play-IsBalanced (e ∷ es) s = ground (
    arith,
    step-IsBalanced e s,
    play-IsBalanced es (step e s).0,
    sum_by-append (is_submission id) (step e s).1 (play es (step e s).0).1,
    sum_by-append (is_answer id) (step e s).1 (play es (step e s).0).1,
    begun-cons e es,
  )

  new-pays :
      (proactive_refresh : Bool)
      → (budget id (new proactive_refresh) ≡ 0) × (pending id (new proactive_refresh) ≡ 0)
  unfolding new budget pending
  new-pays proactive_refresh = (refl, refl)

-- In any history of a new session, whoever waits for a sign-in and whatever the worker and the node
-- answer, a call of `run` is submitted to the worker at most twice, and is answered exactly once or
-- still waits. The call is counted under its number, as often as `run` is called with it.
pub play_retries_once :
    (proactive_refresh : Bool) (id : ℕ) (es : List Event)
    → let t = play es (new proactive_refresh) in
      (submissions id t.1 ≤ 2 * begun id es) × (answers id t.1 + pending id t.0 ≡ begun id es)
play_retries_once proactive_refresh id es =
    let h = play-IsBalanced id es (new proactive_refresh) in
    ground (arith, h, new-pays id proactive_refresh)
