-- ===== src/HeldSessions/Reload/Resting.antt =====
-- The phases of a reload: a bundle that is activated has passed the checks of a new connection.
use tinycloud_agents.Base.{
  ℕ, ◌≡◌, refl, ◌⊎◌, inl, inr, Bool, true, false, Option, none, some, List, [], ◌∷◌, String,
  if◌then◌else◌, Bool-cases, text_eq,
}
use tinycloud_agents.Delegation.{
  Checked, ok, err, malformed, wrong_delegatee, expired, missing_sql_resource, wrong_db_handle,
  insufficient_actions,
}
use tinycloud_agents.SessionStore.{
  SessionStore, SessionLease, SessionRecord, Op, apply, is_current, key_eq,
}
use tinycloud_agents.Handlers.{HandlerResult}
use tinycloud_agents.Handlers.Bundle.{ValidatedBundle, validate_bundle}
use tinycloud_agents.HeldSessions.{HeldSession, held_session_expiry}
use tinycloud_agents.HeldSessions.Stored.{ReadFailure}
use tinycloud_agents.HeldSessions.Reload.{
  Surroundings, Reloads, Activation, Fault, ErrorKind, policy_error, delegation_expired_error,
  other_error, done, Phase, reading, activating, cleaning_up, over, detaching, Answer, start_reload,
  is_forgotten, is_revoked, is_revocation,
}
use tinycloud_agents.HeldSessions.Reload.Restore.{
  is_wanted, caught, activate, bundle_input, activate_checked, activate_record, reload_begun,
  reload_read, reject, load_expired, forget_grant, bury, valid_expired_bundle, reload_record,
  reload_held, take_lease, after_read, after_fault, after_cleanup, resume, expired_bundle,
}

-- Another call on the session store, or the end of an awaited call and its time.
pub data Event : Type 0 where
  other : Op → Event
  ends : ℕ → Answer → Event

abbrev pub step : Surroundings → String → Reloads × Phase → Event → Reloads × Phase
step w entity_id (h, phase) (other o) = (record h { sessions = apply h.sessions o }, phase)
step w entity_id (h, phase) (ends now a) = resume w now h entity_id phase a

-- A reload of the entity after these events, the last one first.
unfoldable pub replay : Surroundings → String → Reloads → List Event → Reloads × Phase
replay w entity_id h [] = (h, start_reload h entity_id)
replay w entity_id h (e ∷ es) = step w entity_id (replay w entity_id h es) e

-- A call ended at this time.
abbrev pub EndedAt : ℕ → List Event → Type 0
EndedAt t [] = ⊥
EndedAt t (other o ∷ es) = EndedAt t es
EndedAt t (ends now a ∷ es) = (now ≡ t) ⊎ EndedAt t es

-- The bundle that is activated passed the checks of a new connection when a call ended.
abbrev pub HasPassed : Surroundings → List Event → Activation → Type 0
HasPassed w es a =
    (t : ℕ) × EndedAt t es
    × (validate_bundle w.sdk w.platform w.parse_json (bundle_input a.record_held) w.agent_did t
        ≡ ok a.bundle)

abbrev pub IsVetted : Surroundings → List Event → Phase → Type 0
IsVetted w es (reading lease) = Unit {0}
IsVetted w es (activating a stage) = HasPassed w es a
IsVetted w es (cleaning_up a fault) = HasPassed w es a
IsVetted w es (over o) = Unit {0}

EndedAt-later : (t : ℕ) (e : Event) (es : List Event) → EndedAt t es → EndedAt t (e ∷ es)
EndedAt-later t (other o) es m = m
EndedAt-later t (ends now a) es m = inr m

pub IsVetted-later :
    (w : Surroundings) (e : Event) (es : List Event) (phase : Phase)
    → IsVetted w es phase
    → IsVetted w (e ∷ es) phase
IsVetted-later w e es (reading lease) v = tt
IsVetted-later w e es (activating a stage) (t, m, v) = (t, EndedAt-later t e es m, v)
IsVetted-later w e es (cleaning_up a fault) (t, m, v) = (t, EndedAt-later t e es m, v)
IsVetted-later w e es (over o) v = tt

module _ (w : Surroundings) (now : ℕ) (answer : Answer) (es : List Event) where
  -- The phase is vetted after a call that ended now.
  abbrev pub Passes : Phase → Type 0
  Passes phase = IsVetted w (ends now answer ∷ es) phase

  either_phase : (b : Bool) (x y : Phase) → Passes x → Passes y → Passes (if b then x else y)
  either_phase true x y p q = p
  either_phase false x y p q = q

  pub caught-Passes :
      (h : Reloads) (a : Activation) (fault : Fault)
      → HasPassed w (ends now answer ∷ es) a
      → Passes (caught h a fault)
  unfolding caught
  caught-Passes h a fault p = either_phase _ (cleaning_up a fault) (over done) p tt

  activate-Passes :
      (h : Reloads) (a : Activation)
      → HasPassed w (ends now answer ∷ es) a
      → Passes (activate w h a)
  unfolding activate
  activate-Passes h a p = either_phase _ (activating a detaching) _ p (caught-Passes h a _ p)

  -- The phase is vetted, and the count of restored sessions is that of `h`.
  abbrev pub Rests : Reloads → Reloads × Phase → Type 0
  Rests h x = Passes x.1 × (x.0.counts.restored ≡ h.counts.restored)

  activate_checked-Rests :
      (h : Reloads) (entity_id : String) (l : SessionLease) (exp : Option ℕ) (rec : SessionRecord)
      (v : Checked HandlerResult ValidatedBundle)
      → validate_bundle w.sdk w.platform w.parse_json (bundle_input rec) w.agent_did now ≡ v
      → Rests h (activate_checked w h entity_id l exp rec v)
  unfolding reject
  activate_checked-Rests h entity_id l exp rec (err refusal) e = (tt, refl)
  activate_checked-Rests h entity_id l exp rec (ok bundle) e = (
    activate-Passes h (record { lease = l; exp = exp; record_held = rec; bundle = bundle })
        (now, inl refl, e),
    refl,
  )

  reload_record-Rests :
      (h : Reloads) (entity_id : String) (l : SessionLease) (exp : Option ℕ) (rec : SessionRecord)
      → Rests h (reload_record w now h entity_id l exp rec)
  unfolding reload_record activate_record load_expired reject
  reload_record-Rests h entity_id l exp rec = elim (Bool-cases (expired_bundle w now rec)) [
    | inl lapsed ↦ rw lapsed (tt, load_or_reject (valid_expired_bundle w now rec))
    | inr live ↦ rw live (activate_checked-Rests h entity_id l exp rec _ refl)
  ]
    where
      load_or_reject :
          (b : Bool)
          → (if b then load_expired h entity_id l rec else reject h entity_id l).counts.restored
            ≡ h.counts.restored
      load_or_reject true = refl
      load_or_reject false = refl

  reload_held-Rests :
      (h : Reloads) (entity_id : String) (held : HeldSession) (l : SessionLease)
      → Rests h (reload_held w now h entity_id held l)
  unfolding reload_held forget_grant bury
  reload_held-Rests h entity_id held l =
      elim (Bool-cases (is_forgotten now (held_session_expiry held))) [
        | inl gone ↦ rw gone (tt, refl)
        | inr kept ↦ elim (Bool-cases (is_revoked held.state)) [
          | inl buried ↦ rw (kept, buried) (tt, refl)
          | inr live ↦ rw (kept, live) (reload_record-Rests h entity_id l _ _)
        ]
      ]

  reload_begun-Rests :
      (h : Reloads) (entity_id : String) (held : HeldSession) (t : SessionStore)
      (begun : Option SessionLease)
      → Rests h (reload_begun w now h entity_id held t begun)
  reload_begun-Rests h entity_id held t none = (tt, refl)
  reload_begun-Rests h entity_id held t (some l) = reload_held-Rests _ entity_id held l

  reload_read-Rests :
      (h : Reloads) (entity_id : String) (lease : Option SessionLease)
      (read : Option (Checked ReadFailure HeldSession))
      → Rests h (reload_read w now h entity_id lease read)
  unfolding take_lease
  reload_read-Rests h entity_id lease none = (tt, refl)
  reload_read-Rests h entity_id lease (some (err e)) = (tt, refl)
  reload_read-Rests h entity_id (some l) (some (ok held)) = reload_held-Rests h entity_id held l
  reload_read-Rests h entity_id none (some (ok held)) = reload_begun-Rests h entity_id held _ _

  pub after_read-Rests :
      (h : Reloads) (entity_id : String) (lease : Option SessionLease)
      (read : Option (Checked ReadFailure HeldSession))
      → Rests h (after_read w now h entity_id lease read)
  unfolding after_read
  after_read-Rests h entity_id lease read = elim (Bool-cases (is_wanted h entity_id lease)) [
    | inl wanted ↦ rw wanted (reload_read-Rests h entity_id lease read)
    | inr unwanted ↦ rw unwanted (tt, refl)
  ]

  after_fault-Rests :
      (h : Reloads) (entity_id : String) (a : Activation) (kind : ErrorKind)
      → Rests h (after_fault w now h entity_id a kind)
  unfolding after_fault load_expired reject
  after_fault-Rests h entity_id a delegation_expired_error = (tt, refl)
  after_fault-Rests h entity_id a (policy_error malformed) = (tt, refl)
  after_fault-Rests h entity_id a (policy_error wrong_delegatee) = (tt, refl)
  after_fault-Rests h entity_id a (policy_error expired) = (tt, refl)
  after_fault-Rests h entity_id a (policy_error missing_sql_resource) = (tt, refl)
  after_fault-Rests h entity_id a (policy_error wrong_db_handle) = (tt, refl)
  after_fault-Rests h entity_id a (policy_error insufficient_actions) = (tt, refl)
  after_fault-Rests h entity_id a other_error = (tt, refl)

  pub after_cleanup-Rests :
      (h : Reloads) (entity_id : String) (a : Activation) (fault : Fault)
      → Rests h (after_cleanup w now h entity_id a fault)
  unfolding after_cleanup bury
  after_cleanup-Rests h entity_id a fault = elim (Bool-cases (is_current h.sessions a.lease)) [
    | inr old ↦ rw old (tt, refl)
    | inl live ↦ elim (Bool-cases (is_revocation w fault)) [
      | inl revoked ↦ rw (live, revoked) (tt, refl)
      | inr intact ↦ rw (live, intact) (after_fault-Rests h entity_id a fault.kind)
    ]
  ]
