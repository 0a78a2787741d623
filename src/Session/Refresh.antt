-- ===== src/Session/Refresh.antt =====
-- The proactive refresh of session.ts: what stop and handleDelegationRejected do to its timer.
use tinycloud_agents.Base.{
  ℕ, ◌≡◌, Bool, true, false, ◌&&◌, ◌||◌, not, none, some, List, [], ◌∷◌, ◌++◌, arith, any,
  Option-cases, inl, inr, refl, sym, subst, number_eq,
}
use tinycloud_agents.Worker.{Lane}
use tinycloud_agents.Session.Auth.{
  Thrown, Verdict, Outcome, completed, auth_failure, propagates, stopped_error, classify,
  is_delegation_rejected,
}
use tinycloud_agents.Session.{
  Session, Turn, Waiter, ensuring, beginning, retrying, refreshing, Attempt, untrack,
  schedule_refresh, attempt, proceed, give_up, ensure_signed_in, re_sign_in, run, proceed_all,
  give_up_all, SignInResult, handle_delegation_rejected, sign_in_succeeds, react, leave,
  sign_in_fails, attempt_of, drop_attempt, conclude, settle, dispatch, do_proactive_refresh, stop,
  Event, ensures, runs, dispatches, settles, signed_in, sign_in_failed, refresh_fires, stops, step,
  play, new,
}
use tinycloud_agents.Session.Weights.{
  waiters_of, Ensures, fails, goes_on, joins, ensure_signed_in-Ensures,
}

abbrev is_refreshing : Waiter → Bool
is_refreshing refreshing = true
is_refreshing (ensuring id) = false
is_refreshing (beginning id lane) = false
is_refreshing (retrying id lane) = false

-- The transport has signed in.
abbrev is_success : Event → Bool
is_success (signed_in r) = true
is_success _ = false

module _ (was_stopped was_rejected : Bool) where
  -- No timer is armed in a stopped session, nor after the delegation has been rejected; then no
  -- refresh waits for the sign-in either. The field holds the timer that is armed. A session that was
  -- stopped stays so, and one whose delegation was rejected stays so too.
  pub record IsResting (s : Session) : Type 0 where
    pub after_stop : s.armed && s.stopped ≡ false
    pub after_rejection : s.armed && s.delegation_rejected ≡ false
    pub no_refresh : s.delegation_rejected && any is_refreshing (waiters_of s) ≡ false
    pub held : s.armed && not s.refresh_timer ≡ false
    pub stays_stopped : was_stopped && not s.stopped ≡ false
    pub stays_rejected : was_rejected && not s.delegation_rejected ≡ false

  -- A waiter that may be told of the error `e`.
  abbrev MayHear : Thrown → Session → Bool → Type 0
  MayHear e s refreshes =
      s.delegation_rejected && not (is_delegation_rejected e) && refreshes ≡ false

  proceed-IsResting :
      (r : SignInResult) (w : Waiter) (s : Session) → IsResting s → IsResting (proceed r w s).0
  unfolding proceed untrack attempt
  proceed-IsResting r (ensuring id) s i = i
  proceed-IsResting r (beginning id lane) s i = ground arith
  proceed-IsResting r (retrying id lane) s i = ground arith
  proceed-IsResting r refreshing s i = i

  give_up-IsResting :
      (e : Thrown) (w : Waiter) (s : Session)
      → MayHear e s (is_refreshing w)
      → IsResting s
      → IsResting (give_up e w s).0
        × ((give_up e w s).0.delegation_rejected ≡ s.delegation_rejected)
  unfolding give_up untrack schedule_refresh
  give_up-IsResting e (ensuring id) s h i = (i, refl)
  give_up-IsResting e (beginning id lane) s h i = ground arith
  give_up-IsResting e (retrying id lane) s h i = ground arith
  give_up-IsResting e refreshing s h i = ground arith

  proceed_all-IsResting :
      (r : SignInResult) (ws : List Waiter) (s : Session)
      → IsResting s
      → IsResting (proceed_all r ws s).0
  unfolding proceed_all
  proceed_all-IsResting r [] s i = i
  proceed_all-IsResting r (w ∷ ws) s i =
      proceed_all-IsResting r ws (proceed r w s).0 (proceed-IsResting r w s i)

  give_up_all-IsResting :
      (e : Thrown) (ws : List Waiter) (s : Session)
      → MayHear e s (any is_refreshing ws)
      → IsResting s
      → IsResting (give_up_all e ws s).0
  unfolding give_up_all
  give_up_all-IsResting e [] s h i = i
  give_up_all-IsResting e (w ∷ ws) s h i =
      let (j, same) = give_up-IsResting e w s (ground (arith, h)) i in
      give_up_all-IsResting e ws (give_up e w s).0 (ground (arith, h, same)) j

  any-append :
      (ws vs : List Waiter)
      → any is_refreshing (ws ++ vs) ≡ any is_refreshing ws || any is_refreshing vs
  any-append [] vs = refl
  any-append (w ∷ ws) vs = ground (arith, any-append ws vs)

  joins-IsResting :
      (w : Waiter) (s : Session)
      → s.delegation_rejected && is_refreshing w ≡ false
      → IsResting s
      → IsResting (record s { sign_in_in_flight = some (waiters_of s ++ w ∷ []) })
  joins-IsResting w s h i = ground (arith, any-append (waiters_of s) (w ∷ []))

  Ensures-IsResting :
      (w : Waiter) (s : Session) (t : Turn)
      → s.delegation_rejected && is_refreshing w ≡ false
      → IsResting s
      → Ensures w s t
      → IsResting t.0
  Ensures-IsResting w s t h i (fails e stopped) =
      subst (λ (u : Turn). IsResting u.0) (sym e)
        (give_up-IsResting stopped_error w s (ground (arith, h)) i).0
  Ensures-IsResting w s t h i (goes_on r e running) =
      subst (λ (u : Turn). IsResting u.0) (sym e) (proceed-IsResting r w s i)
  Ensures-IsResting w s t h i (joins es e silent running) =
      subst (λ (u : Turn). IsResting u.0) (sym e) (joins-IsResting w s h i)

  ensure_signed_in-IsResting :
      (w : Waiter) (s : Session)
      → s.delegation_rejected && is_refreshing w ≡ false
      → IsResting s
      → IsResting (ensure_signed_in w s).0
  ensure_signed_in-IsResting w s h i =
      Ensures-IsResting w s (ensure_signed_in w s) h i (ensure_signed_in-Ensures w s)

  re_sign_in-IsResting :
      (w : Waiter) (s : Session)
      → s.delegation_rejected && is_refreshing w ≡ false
      → IsResting s
      → IsResting (re_sign_in w s).0
  unfolding re_sign_in
  re_sign_in-IsResting w s h i =
      ensure_signed_in-IsResting w (record s { established = none }) h
        (record {
          after_stop = i.after_stop;
          after_rejection = i.after_rejection;
          no_refresh = i.no_refresh;
          held = i.held;
          stays_stopped = i.stays_stopped;
          stays_rejected = i.stays_rejected;
        })

  run-IsResting : (id : ℕ) (lane : Lane) (s : Session) → IsResting s → IsResting (run id lane s).0
  unfolding run
  run-IsResting id lane s i = ground (
    arith,
    ensure_signed_in-IsResting (beginning id lane) (record s { in_flight = id ∷ s.in_flight }),
  )

  leave-IsResting :
      (e : Thrown) (ws : List Waiter) (s : Session)
      → MayHear e s (any is_refreshing ws)
      → IsResting (record s { sign_in_in_flight = none })
      → IsResting (leave e ws s).0
  unfolding leave
  leave-IsResting e ws s h i =
      give_up_all-IsResting e ws (record s { sign_in_in_flight = none }) h i

  react_empties :
      (e : Thrown) (s : Session)
      → IsResting s
      → IsResting (record (react e s).0 { sign_in_in_flight = none })
  unfolding react handle_delegation_rejected
  react_empties e s i = ground arith

  react_hears :
      (e : Thrown) (ws : List Waiter) (s : Session)
      → IsResting s
      → s.sign_in_in_flight ≡ some ws
      → MayHear e (react e s).0 (any is_refreshing ws)
  unfolding react handle_delegation_rejected
  react_hears e ws s i there = ground (arith, i.no_refresh, there)

  sign_in_fails-IsResting :
      (e : Thrown) (s : Session) → IsResting s → IsResting (sign_in_fails e s).0
  unfolding sign_in_fails
  sign_in_fails-IsResting e s i = elim (Option-cases s.sign_in_in_flight) [
    | inl n ↦ ground (arith, n)
    | inr (ws, there) ↦ ground (
      arith,
      there,
      leave-IsResting e ws (react e s).0 (react_hears e ws s i there) (react_empties e s i),
    )
  ]

  sign_in_succeeds-IsResting :
      (r : SignInResult) (s : Session)
      → was_rejected ≡ false
      → IsResting s
      → IsResting (sign_in_succeeds r s).0
  unfolding sign_in_succeeds schedule_refresh
  sign_in_succeeds-IsResting r s f i = elim (Option-cases s.sign_in_in_flight) [
    | inl n ↦ ground (arith, n)
    | inr (ws, there) ↦ ground (
      arith,
      there,
      leave-IsResting stopped_error ws s (ground (arith, i.no_refresh, there)) (ground arith),
      proceed_all-IsResting r ws
          (record (schedule_refresh (record s { delegation_rejected = false })) {
            established = some r;
            sign_in_in_flight = none;
          }),
    )
  ]

  conclude-IsResting :
      (a : Attempt) (v : Verdict) (s : Session) → IsResting s → IsResting (conclude a v s).0
  unfolding conclude untrack
  conclude-IsResting a (completed r) s i = ground arith
  conclude-IsResting a (propagates e) s i = ground arith
  conclude-IsResting a auth_failure s i =
      ground (arith, re_sign_in-IsResting (retrying a.id a.lane) s)

  settle-IsResting :
      (id : ℕ) (o : Outcome) (s : Session) → IsResting s → IsResting (settle id o s).0
  unfolding settle
  settle-IsResting id o s i = elim (Option-cases (attempt_of id s.attempts)) [
    | inl e ↦ ground (arith, e)
    | inr (a, e) ↦ ground (
      arith,
      e,
      conclude-IsResting a (classify o) (record s { attempts = drop_attempt id s.attempts }),
    )
  ]

  dispatch-IsResting : (id : ℕ) (s : Session) → IsResting s → IsResting (dispatch id s).0
  unfolding dispatch
  dispatch-IsResting id s i = ground (arith, settle-IsResting id (Outcome.throws stopped_error) s)

  refresh-IsResting : (s : Session) → IsResting s → IsResting (do_proactive_refresh s).0
  unfolding do_proactive_refresh
  refresh-IsResting s i =
      ground (arith, re_sign_in-IsResting refreshing (record s { armed = false }))

  step-IsResting :
      (e : Event) (s : Session)
      → was_rejected && is_success e ≡ false
      → IsResting s
      → IsResting (step e s).0
  unfolding step stop
  step-IsResting (ensures id) s f i = ensure_signed_in-IsResting (ensuring id) s (ground arith) i
  step-IsResting (runs id lane) s f i = run-IsResting id lane s i
  step-IsResting (dispatches id) s f i = dispatch-IsResting id s i
  step-IsResting (settles id o) s f i = settle-IsResting id o s i
  step-IsResting (signed_in r) s f i = sign_in_succeeds-IsResting r s (ground (arith, f)) i
  step-IsResting (sign_in_failed e) s f i = sign_in_fails-IsResting e s i
  step-IsResting refresh_fires s f i = refresh-IsResting s i
  step-IsResting stops s f i = ground arith

  play-IsResting :
      (es : List Event) (s : Session)
      → was_rejected && any is_success es ≡ false
      → IsResting s
      → IsResting (play es s).0
  unfolding play
  play-IsResting [] s f i = i
  play-IsResting (e ∷ es) s f i =
      play-IsResting es (step e s).0 (ground (arith, f)) (step-IsResting e s (ground (arith, f)) i)

stopped-IsResting : (s : Session) → IsResting false false s → IsResting true false (step stops s).0
unfolding step stop
stopped-IsResting s i = ground arith

rejected_empties :
    (e : Thrown) (s : Session)
    → is_delegation_rejected e ≡ true
    → IsResting false false s
    → IsResting false true (record (react e s).0 { sign_in_in_flight = none })
unfolding react handle_delegation_rejected
rejected_empties e s r i = ground (arith, r)

rejected-IsResting :
    (e : Thrown) (ws : List Waiter) (s : Session)
    → is_delegation_rejected e ≡ true
    → s.sign_in_in_flight ≡ some ws
    → IsResting false false s
    → IsResting false true (step (sign_in_failed e) s).0
unfolding step sign_in_fails
rejected-IsResting e ws s r there i = ground (
  arith,
  there,
  leave-IsResting false true e ws (react e s).0 (react_hears false false e ws s i there)
      (rejected_empties e s r i),
)

-- The event ends the refreshes of a session in the state `s`, if `after` follows: the session is
-- stopped, or a sign-in that is in flight is rejected with the delegation, and none of `after` is a
-- sign-in that succeeds.
pub data Silences (s : Session) (after : List Event) : Event → Type 0 where
  by_stop : Silences s after stops
  by_rejection :
      (e : Thrown) (waiters : List Waiter)
      → is_delegation_rejected e ≡ true
      → s.sign_in_in_flight ≡ some waiters
      → any is_success after ≡ false
      → Silences s after (sign_in_failed e)

silenced :
    (after : List Event) (e : Event) (s : Session)
    → IsResting false false s
    → Silences s after e
    → (play after (step e s).0).0.armed ≡ false
silenced after _ s i by_stop =
    let rests = play-IsResting true false after (step stops s).0 refl (stopped-IsResting s i) in
    ground (arith, rests.after_stop, rests.stays_stopped)
silenced after _ s i (by_rejection e ws r there f) =
    let rests =
      play-IsResting false true after (step (sign_in_failed e) s).0 f
        (rejected-IsResting e ws s r there i) in
    ground (arith, rests.after_rejection, rests.stays_rejected)

silenced_after :
    (before after : List Event) (e : Event) (s : Session)
    → IsResting false false s
    → Silences (play before s).0 after e
    → (play (before ++ e ∷ after) s).0.armed ≡ false
unfolding play
silenced_after [] after e s i h = silenced after e s i h
silenced_after (b ∷ before) after e s i h =
    silenced_after before after e (step b s).0 (step-IsResting false false b s refl i) h

-- Once a session has been stopped, at any point of any history, no refresh timer is armed, whatever
-- follows. Once a sign-in in flight has failed with a rejection of the delegation, none is armed
-- either, whatever follows, as long as no sign-in has succeeded since.
pub play-silenced :
    (proactive_refresh : Bool) (before after : List Event) (e : Event)
    → Silences (play before (new proactive_refresh)).0 after e
    → (play (before ++ e ∷ after) (new proactive_refresh)).0.armed ≡ false
unfolding new
play-silenced proactive_refresh before after e h =
    silenced_after before after e (new proactive_refresh) (ground arith) h
