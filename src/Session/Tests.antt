-- ===== src/Session/Tests.antt =====
-- The session at concrete histories.
use tinycloud_agents.Base.{◌+◌, ◌*◌, ◌≤◌, ◌≡◌, refl, true, false, none, some, List, [], ◌∷◌, ◌++◌}
use tinycloud_agents.Worker.{Lane}
use tinycloud_agents.Session.Auth.{
  Thrown, auth_like, auth_markers, classify, Outcome, done, refused, auth_error, rejection,
}
use tinycloud_agents.Session.{
  SignInResult, Event, runs, settles, signed_in, sign_in_failed, refresh_fires, play, step, new,
  run, ensure_signed_in, re_sign_in, proceed, proceed_all, attempt, schedule_refresh,
  sign_in_succeeds, sign_in_fails, react, leave, give_up, give_up_all, handle_delegation_rejected,
  conclude, settle, untrack, do_proactive_refresh, signs_in, submits, warns_auth, invalidates,
  refreshing, resolves, rejects,
}
use tinycloud_agents.Session.Weights.{pending, submissions, answers}
use tinycloud_agents.Session.Calls.{begun, play_retries_once}
use tinycloud_agents.Session.Refresh.{Silences, by_rejection, play-silenced}

-- SQLite's "not authorized" is no failure of the session.
denial : auth_like (some "SQL_ERROR" ∷ some "not authorized" ∷ []) ≡ false
unfolding auth_like auth_markers
denial = refl

expiry : auth_like (none ∷ some "Session EXPIRED" ∷ []) ≡ true
unfolding auth_like auth_markers
expiry = refl

abbrev account : SignInResult
account = record { space_id = "s"; address = "0x1"; did = "did:1" }

abbrev unauthorized : Outcome
unauthorized = Outcome.returns (refused (some "AUTH_UNAUTHORIZED") (some "Unauthorized"))

-- Two calls share a sign-in; the first is refused, signs in again and is refused again.
abbrev history : List Event
history =
    runs 1 Lane.read
    ∷ runs 2 Lane.write
    ∷ signed_in account
    ∷ settles 1 unauthorized
    ∷ settles 2 (Outcome.returns (done 7))
    ∷ signed_in account
    ∷ settles 1 unauthorized
    ∷ []

one_retry :
    (play history (new true)).1
    ≡ signs_in
      ∷ submits 1 Lane.read
      ∷ submits 2 Lane.write
      ∷ warns_auth 1
      ∷ invalidates
      ∷ signs_in
      ∷ resolves 2 (done 7)
      ∷ submits 1 Lane.read
      ∷ rejects 1 auth_error
      ∷ []
unfolding play step new run ensure_signed_in re_sign_in proceed proceed_all attempt schedule_refresh
    sign_in_succeeds conclude settle untrack classify auth_like auth_markers
one_retry = refl

-- The refresh finds the delegation rejected, and no timer is armed again.
abbrev rejected : List Event
rejected =
    runs 1 Lane.read
    ∷ signed_in account
    ∷ refresh_fires
    ∷ sign_in_failed (rejection none (some "delegation has expired: check expiry"))
    ∷ []

rests :
    ((play rejected (new true)).0.armed ≡ false)
    × ((play rejected (new true)).0.refresh_timer ≡ false)
unfolding play step new run ensure_signed_in re_sign_in proceed proceed_all attempt schedule_refresh
    sign_in_succeeds sign_in_fails react leave give_up give_up_all handle_delegation_rejected
    do_proactive_refresh untrack
rests = (refl, refl)

play_retries_once_example :
    let t = play history (new true) in
    (submissions 1 t.1 ≤ 2 * begun 1 history) × (answers 1 t.1 + pending 1 t.0 ≡ begun 1 history)
play_retries_once_example = play_retries_once true 1 history

-- The refresh that has begun is in flight.
abbrev refreshed : List Event
refreshed = runs 1 Lane.read ∷ signed_in account ∷ refresh_fires ∷ []

abbrev denied : Thrown
denied = rejection none (some "delegation has expired: check expiry")

abbrev later_calls : List Event
later_calls = refresh_fires ∷ settles 1 unauthorized ∷ sign_in_failed denied ∷ []

refresh_is_silenced : Silences (play refreshed (new true)).0 later_calls (sign_in_failed denied)
unfolding play step new run ensure_signed_in re_sign_in proceed proceed_all attempt schedule_refresh
    sign_in_succeeds do_proactive_refresh
refresh_is_silenced = by_rejection denied (refreshing ∷ []) refl refl refl

play-silenced_example :
    (play (refreshed ++ sign_in_failed denied ∷ later_calls) (new true)).0.armed ≡ false
play-silenced_example =
    play-silenced true refreshed later_calls (sign_in_failed denied) refresh_is_silenced
