-- ===== src/HeldSessions/Reload/Vetted.antt =====
-- What has passed when a reload has restored a session.
use tinycloud_agents.Base.{
  ℕ, ◌≡◌, ◌≢◌, refl, ◌⊎◌, inl, inr, Bool, true, false, Option, none, some, List, [], ◌∷◌, String,
  Bool-cases, ===-refl, subst, text_eq, arith,
}
use tinycloud_agents.Base.Map
use tinycloud_agents.SessionStore.{
  SessionStore, SessionLease, SessionRecord, known, is_current, key, key_eq, holding, restore,
  guarded, is_restoring, snapshot, SessionKey,
}
use tinycloud_agents.SessionStore.Moves.{entry}
use tinycloud_agents.Handlers.Bundle.{bundle_record}
use tinycloud_agents.HeldSessions.Reload.{
  Surroundings, Reloads, Activation, done, Phase, reading, activating, cleaning_up, over, Stage,
  detaching, opening_storage, registering_memory, registering_transcripts, Answer, found,
  unreachable, returned, threw, start_reload, start_with,
}
use tinycloud_agents.HeldSessions.Reload.Restore.{load_active, proceed, resume}
use tinycloud_agents.HeldSessions.Reload.Resting.{
  Event, other, ends, replay, HasPassed, IsVetted, IsVetted-later, Rests, caught-Passes,
  after_read-Rests, after_cleanup-Rests,
}

-- The reload's last call has returned, and the session store has its bundle under the revision of
-- the lease.
pub record HasRestored (x y : Reloads × Phase) (entity_id : String) (a : Answer) : Type 0 where
  pub activation : Activation
  pub last_call : x.1 ≡ activating activation registering_transcripts
  pub last_answer : a ≡ returned true
  pub stored :
      entry y.0.sessions (key x.0.scope entity_id)
      ≡ some
          (holding activation.lease.revision (bundle_record x.0.scope.agent_id activation.bundle))

-- A restore that reports success has written its record.
restore-entry :
    (s : SessionStore) (k : SessionKey) (l : SessionLease) (rec : SessionRecord)
    → (restore s k l rec).1 ≡ true
    → entry (restore s k l rec).0 k ≡ some (holding l.revision rec)
unfolding restore guarded
restore-entry s k l rec e = elim (Bool-cases (is_current s l)) [
  | inr old ↦ absurd (ground (arith, e, old))
  | inl now ↦ elim (Bool-cases (is_restoring (snapshot s k).1.state)) [
    | inr wrong ↦ absurd (ground (arith, e, now, wrong))
    | inl right ↦
        rw
          (now, right, Map.get-set (snapshot s k).0.access k k (holding l.revision rec), ===-refl k)
          refl
  ]
]

module _ (w : Surroundings) (now : ℕ) (es : List Event) (entity_id : String) where
  -- After the end of a call: the next phase, and whether a session has been restored.
  abbrev Resumes : Reloads → Phase → Answer → Reloads × Phase → Type 0
  Resumes h phase a x =
      IsVetted w (ends now a ∷ es) x.1
      × ((x.0.counts.restored ≡ h.counts.restored) ⊎ HasRestored (h, phase) x entity_id a)

  resting :
      (h : Reloads) (phase : Phase) (a : Answer) (x : Reloads × Phase)
      → Rests w now a es h x
      → Resumes h phase a x
  resting h phase a x (p, same) = (p, inl same)

  load_active-Resumes :
      (h : Reloads) (a : Activation)
      → Resumes h
          (activating a registering_transcripts)
          (returned true)
          (load_active h entity_id a.lease (bundle_record h.scope.agent_id a.bundle), over done)
  unfolding load_active
  load_active-Resumes h a =
      let rec = bundle_record h.scope.agent_id a.bundle in
      (
        tt,
        elim (Bool-cases (restore h.sessions (key h.scope entity_id) a.lease rec).1) [
          | inr missed ↦ inl (rw missed)
          | inl kept ↦ inr record {
            activation = a;
            last_call = refl;
            last_answer = refl;
            stored = restore-entry h.sessions (key h.scope entity_id) a.lease rec kept;
          }
        ],
      )

  proceed-Resumes :
      (h : Reloads) (a : Activation) (stage : Stage) (b : Bool)
      → HasPassed w (ends now (returned b) ∷ es) a
      → Resumes h (activating a stage) (returned b) (proceed w now h entity_id a stage b)
  unfolding proceed
  proceed-Resumes h a detaching b p = (p, inl refl)
  proceed-Resumes h a opening_storage b p = (p, inl refl)
  proceed-Resumes h a registering_memory b p = (p, inl refl)
  proceed-Resumes h a registering_transcripts true p = load_active-Resumes h a
  proceed-Resumes h a registering_transcripts false p =
      (caught-Passes w now (returned false) es h a _ p, inl refl)

  continue-Resumes :
      (h : Reloads) (a : Activation) (stage : Stage) (b : Bool)
      → HasPassed w (ends now (returned b) ∷ es) a
      → Resumes h
          (activating a stage)
          (returned b)
          (resume w now h entity_id (activating a stage) (returned b))
  unfolding resume
  continue-Resumes h a stage b p = elim (Bool-cases (is_current h.sessions a.lease)) [
    | inr old ↦ rw old (tt, inl refl)
    | inl live ↦ rw live (proceed-Resumes h a stage b p)
  ]

  resume-Resumes :
      (h : Reloads) (phase : Phase) (a : Answer)
      → IsVetted w (ends now a ∷ es) phase
      → Resumes h phase a (resume w now h entity_id phase a)
  unfolding resume
  resume-Resumes h (reading lease) (found read) p =
      resting h _ _ _ (after_read-Rests w now (found read) es h entity_id lease read)
  resume-Resumes h (reading lease) unreachable p = (tt, inl refl)
  resume-Resumes h (reading lease) (returned b) p = (p, inl refl)
  resume-Resumes h (reading lease) (threw fault) p = (p, inl refl)
  resume-Resumes h (activating a stage) (found read) p = (p, inl refl)
  resume-Resumes h (activating a stage) unreachable p = (p, inl refl)
  resume-Resumes h (activating a stage) (returned b) p = continue-Resumes h a stage b p
  resume-Resumes h (activating a stage) (threw fault) p =
      (caught-Passes w now (threw fault) es h a fault p, inl refl)
  resume-Resumes h (cleaning_up a fault) (found read) p = (p, inl refl)
  resume-Resumes h (cleaning_up a fault) unreachable p = (p, inl refl)
  resume-Resumes h (cleaning_up a fault) (returned b) p =
      resting h _ _ _ (after_cleanup-Rests w now (returned b) es h entity_id a fault)
  resume-Resumes h (cleaning_up a fault) (threw second) p =
      resting h _ _ _ (after_cleanup-Rests w now (threw second) es h entity_id a fault)
  resume-Resumes h (over o) a p = (p, inl refl)

start_with-IsVetted :
    (w : Surroundings) (h : Reloads) (entity_id : String) (lease : Option SessionLease)
    → IsVetted w [] (start_with h entity_id lease)
start_with-IsVetted w h entity_id none =
    elim (Bool-cases (known h.sessions (key h.scope entity_id))) [
      | inl there ↦ rw there tt
      | inr absent ↦ rw absent tt
    ]
start_with-IsVetted w h entity_id (some l) = elim (Bool-cases (is_current h.sessions l)) [
  | inl live ↦ rw live tt
  | inr old ↦ rw old tt
]

replay-IsVetted :
    (w : Surroundings) (entity_id : String) (h : Reloads) (es : List Event)
    → IsVetted w es (replay w entity_id h es).1
unfolding replay start_reload
replay-IsVetted w entity_id h [] = start_with-IsVetted w h entity_id (Map.get h.leases entity_id)
replay-IsVetted w entity_id h (other o ∷ es) =
    IsVetted-later w (other o) es _ (replay-IsVetted w entity_id h es)
replay-IsVetted w entity_id h (ends now a ∷ es) =
    (resume-Resumes w now es entity_id _ _ a
      (IsVetted-later w (ends now a) es _ (replay-IsVetted w entity_id h es))).0

-- When the end of a call, after any history of a reload with other calls on the session store in
-- between, counts the session as restored: this was the last call of the activation, it returned,
-- and private access was available; the store has the bundle, active, under the revision of the
-- reload's lease; and when a call of this reload ended, the stored grants of that bundle passed the
-- checks of a new connection.
pub replay-restores :
    (w : Surroundings) (entity_id : String) (h : Reloads) (es : List Event) (now : ℕ) (a : Answer)
    → (replay w entity_id h (ends now a ∷ es)).0.counts.restored
      ≢ (replay w entity_id h es).0.counts.restored
    → (r : HasRestored
        (replay w entity_id h es)
        (replay w entity_id h (ends now a ∷ es))
        entity_id
        a)
      × HasPassed w (ends now a ∷ es) r.activation
unfolding replay
replay-restores w entity_id h es now a counted =
    let vetted = replay-IsVetted w entity_id h es in
    let x = replay w entity_id h es in
    elim (resume-Resumes w now es entity_id x.0 x.1 a
      (IsVetted-later w (ends now a) es x.1 vetted)).1 [
        | inl same ↦ absurd (counted same)
        | inr r ↦ (
          r,
          IsVetted-later w (ends now a) es (activating r.activation registering_transcripts)
              (subst (λ p. IsVetted w es p) r.last_call vetted),
        )
      ]
