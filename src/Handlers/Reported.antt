-- ===== src/Handlers/Reported.antt =====
-- What GET /sessions reports as active, and when DELETE /sessions confirms.
use tinycloud_agents.Base.{
  ℕ, ◌≡◌, refl, ap, subst, ◌∙◌, ◌⊎◌, inl, inr, Bool, true, false, ◌&&◌, not, Option, none, some,
  String, if◌then◌else◌, ◌===◌, text_eq, number_eq, arith, Bool-cases,
}
use tinycloud_agents.Delegation.{
  DelegationPolicy, PortableDelegation, Sdk, Reason, Checked, ok, err, expired, malformed,
  wrong_delegatee, missing_sql_resource, wrong_db_handle, insufficient_actions,
}
use tinycloud_agents.Delegation.Covers.{Accepts}
use tinycloud_agents.Delegation.Chains.{bind_ok}
use tinycloud_agents.Delegation.Accepted.{validate_delegation_policy_iff}
use tinycloud_agents.Delegation.Policy.{
  deserialize_delegation_safe, default_eliza_memory_policy, default_tinychat_transcript_policy,
  default_db_handle, validate_delegation_policy,
}
use tinycloud_agents.Delegation.Hash.{Digest}
use tinycloud_agents.Delegation.Status.{
  DelegationStatus, status_active, status_expired, status_stale, status_none,
  evaluate_delegation_status, status_of_error,
}
use tinycloud_agents.Delegation.Normalize.{
  Platform, deserialize_transcript_delegation_for_activation,
}
use tinycloud_agents.SessionStore.{
  SessionStore, SessionScope, SessionRecord, SessionSnapshot, AccessState, active, disconnected,
  restoring, revoked, unconnected, activating, key, snapshot,
}
use tinycloud_agents.Handlers.{session_body, HandlerResult, failing_with}
use tinycloud_agents.Handlers.Bundle.{reason_code}
use tinycloud_agents.Handlers.Read.{
  status_text, Metadata, reported, transcript_outcome, memory_status, stored_memory_status,
  stored_transcript_status, transcript_expired, stored_grant_expired, record_expired,
  with_transcripts, report, metadata_of, report_snapshot, handle_get_sessions, is_active_status,
  nothing_stored,
}

-- No error of the validator is the status "active".
inactive_error : {A : Type 0} (r : Reason) → status_of_error r ≡ ok status_active → A
inactive_error expired e = absurd (cc e)
inactive_error malformed e = absurd (cc e)
inactive_error wrong_delegatee e = absurd (cc e)
inactive_error missing_sql_resource e = absurd (cc e)
inactive_error wrong_db_handle e = absurd (cc e)
inactive_error insufficient_actions e = absurd (cc e)

-- An answer that says "active".
abbrev pub says_active : HandlerResult → Bool
says_active r = elim r.body [
  | session_body entity_id status transcripts revision state ↦ status === "active"
  | _ ↦ false
]

active_text : (st : DelegationStatus) → status_text st === "active" ≡ true → st ≡ status_active
unfolding status_text
active_text status_active e = refl
active_text status_expired e = absurd (cc e)
active_text status_stale e = absurd (cc e)
active_text status_none e = absurd (cc e)

lowered_active :
    (st other : DelegationStatus)
    → status_text (if is_active_status other then st else other) === "active" ≡ true
    → (st ≡ status_active) × (other ≡ status_active)
lowered_active st status_active e = (active_text st e, refl)
lowered_active st status_expired e = absurd (cc (active_text status_expired e))
lowered_active st status_stale e = absurd (cc (active_text status_stale e))
lowered_active st status_none e = absurd (cc (active_text status_none e))

module _ (sdk : Sdk) (platform : Platform) (digest : Digest) (agent_did : String) (now : ℕ) where
  -- Only a delegation that the policy accepts is active.
  evaluate-Accepts :
      (d : PortableDelegation) (policy : DelegationPolicy)
      → evaluate_delegation_status sdk digest (some d) policy agent_did none now ≡ ok status_active
      → Accepts sdk d agent_did policy now
  unfolding evaluate_delegation_status
  evaluate-Accepts d policy e = go (validate_delegation_policy sdk d agent_did policy now) refl e
    where
      go :
          (v : Checked Reason (Unit {0}))
          → validate_delegation_policy sdk d agent_did policy now ≡ v
          → (elim v [ err reason ↦ status_of_error reason | ok u ↦ ok status_active ])
            ≡ ok status_active
          → Accepts sdk d agent_did policy now
      go (ok tt) p e = (validate_delegation_policy_iff sdk d agent_did policy now).0 p
      go (err r) p e = inactive_error r e

  -- A transcript grant that is stored: an empty text is none.
  abbrev HasStatus : Option String → Type 0
  HasStatus none = Unit {0}
  HasStatus (some t) =
      (t === "" ≡ true)
      ⊎ (stored_transcript_status sdk platform digest agent_did now t ≡ ok status_active)

  outcome-active :
      (entity_id : String) (m : Metadata) (st : DelegationStatus)
      (x : Checked Reason DelegationStatus)
      → says_active (elim (transcript_outcome x) [
        | err refusal ↦ refusal
        | ok other ↦
            reported entity_id
              (if is_active_status other then st else other)
              (some (status_text other))
              m
      ])
        ≡ true
      → (st ≡ status_active) × (x ≡ ok status_active)
  unfolding transcript_outcome
  outcome-active entity_id m st (ok other) e =
      let (a, b) = lowered_active st other e in (a, ap ok b)
  outcome-active entity_id m st (err expired) e = absurd (cc (active_text status_expired e))
  outcome-active entity_id m st (err malformed) e = absurd (cc e)
  outcome-active entity_id m st (err wrong_delegatee) e = absurd (cc e)
  outcome-active entity_id m st (err missing_sql_resource) e = absurd (cc e)
  outcome-active entity_id m st (err wrong_db_handle) e = absurd (cc e)
  outcome-active entity_id m st (err insufficient_actions) e = absurd (cc e)

  with_transcripts-active :
      (entity_id : String) (m : Metadata) (st : DelegationStatus) (transcripts : Option String)
      → says_active (with_transcripts sdk platform digest agent_did now entity_id m st transcripts)
        ≡ true
      → (st ≡ status_active) × HasStatus transcripts
  unfolding with_transcripts
  with_transcripts-active entity_id m st none = λ e. (active_text st e, tt)
  with_transcripts-active entity_id m st (some t) = elim (Bool-cases (t === "")) [
    | inl blank ↦ rw blank (λ e. (active_text st e, inl refl))
    | inr text ↦ rw text (λ e. let (a, b) = outcome-active entity_id m st _ e in (a, inr b))
  ]

  -- A record whose grants are active.
  record IsLive (rec : SessionRecord) : Type 0 where
    d : PortableDelegation
    read : deserialize_delegation_safe sdk rec.serialized_delegation ≡ ok d
    memory : memory_status sdk platform digest agent_did now d ≡ ok status_active
    transcripts : HasStatus rec.serialized_transcript_delegation

  report-IsLive :
      (entity_id : String) (m : Metadata) (held : Option SessionRecord)
      → says_active (report sdk platform digest agent_did now entity_id m held) ≡ true
      → (rec : SessionRecord) × (held ≡ some rec) × IsLive rec
  unfolding report
  report-IsLive entity_id m none e = absurd (cc e)
  report-IsLive entity_id m (some rec) e =
      go (deserialize_delegation_safe sdk rec.serialized_delegation) refl e
    where
      status : PortableDelegation → Checked Reason DelegationStatus
      status d = memory_status sdk platform digest agent_did now d

      evaluation : Checked Reason DelegationStatus → HandlerResult
      evaluation v = elim v [
        | err reason ↦ failing_with 400 (reason_code reason)
        | ok st ↦
            with_transcripts sdk platform digest agent_did now entity_id m st
              rec.serialized_transcript_delegation
      ]

      evaluated :
          (d : PortableDelegation) (v : Checked Reason DelegationStatus)
          → deserialize_delegation_safe sdk rec.serialized_delegation ≡ ok d
          → status d ≡ v
          → says_active (evaluation v) ≡ true
          → IsLive rec
      evaluated d (err r) read q e = absurd (cc e)
      evaluated d (ok st) read q e =
          let (a, b) =
            with_transcripts-active entity_id m st rec.serialized_transcript_delegation e in
          record { d = d; read = read; memory = q ∙ ap ok a; transcripts = b }

      go :
          (v : Checked Reason PortableDelegation)
          → deserialize_delegation_safe sdk rec.serialized_delegation ≡ v
          → says_active (elim v [ err reason ↦ nothing_stored m | ok d ↦ evaluation (status d) ])
            ≡ true
          → (r : SessionRecord) × (some rec ≡ some r) × IsLive r
      go (err r) p e = absurd (cc e)
      go (ok d) p e = (rec, refl, evaluated d (status d) p refl e)

  -- A transcript grant that is stored is one that the policy accepts, and private access is
  -- available; an empty text is no grant.
  abbrev pub HoldsTranscripts : Bool → Option String → Type 0
  HoldsTranscripts available none = available ≡ true
  HoldsTranscripts available (some t) =
      (t === "" ≡ true)
      ⊎ ((available ≡ true)
          × ((d : PortableDelegation) × (deserialize_transcript_delegation_for_activation platform
                  sdk t
                ≡ ok d)
              × Accepts sdk d agent_did (default_tinychat_transcript_policy sdk) now))

  -- The entity's entry is active, and holds a record whose memory grant can be read and is one that
  -- the policy accepts.
  pub record IsServed (snap : SessionSnapshot) (available : Bool) : Type 0 where
    pub held : SessionRecord
    pub d : PortableDelegation
    pub open_ : snap.state ≡ active
    pub holds : snap.session ≡ some held
    pub read : deserialize_delegation_safe sdk held.serialized_delegation ≡ ok d
    pub accepted : Accepts sdk d agent_did (default_eliza_memory_policy sdk default_db_handle) now
    pub transcripts : HoldsTranscripts available held.serialized_transcript_delegation

  stored-memory :
      (serialized : String) (d : PortableDelegation)
      → deserialize_delegation_safe sdk serialized ≡ ok d
      → stored_memory_status sdk platform digest agent_did now serialized
        ≡ memory_status sdk platform digest agent_did now d
  unfolding stored_memory_status
  stored-memory serialized d e = rw e

  transcript_granted :
      (t : String)
      → stored_transcript_status sdk platform digest agent_did now t ≡ ok status_active
      → (d : PortableDelegation) × (deserialize_transcript_delegation_for_activation platform sdk t
          ≡ ok d)
        × Accepts sdk d agent_did (default_tinychat_transcript_policy sdk) now
  unfolding stored_transcript_status
  transcript_granted t e =
      let (d, read, rest) =
        bind_ok (deserialize_transcript_delegation_for_activation platform sdk t) _ status_active
          e in
      (d, read, evaluate-Accepts d (default_tinychat_transcript_policy sdk) rest)

  transcripts_available :
      (available : Bool) (ts : Option String)
      → HasStatus ts
      → (not available && not (transcript_expired sdk platform digest agent_did now ts)) ≡ false
      → HoldsTranscripts available ts
  unfolding transcript_expired
  transcripts_available true none h e = refl
  transcripts_available false none h e = absurd (cc e)
  transcripts_available available (some t) (inl blank) e = inl blank
  transcripts_available true (some t) (inr live) e = inr (refl, transcript_granted t live)
  transcripts_available false (some t) (inr live) e = absurd (ground (arith, e, live))

  -- Live grants have not expired, so that private access must be available.
  live_available :
      (available : Bool) (rec : SessionRecord)
      → IsLive rec
      → (not available && not (stored_grant_expired sdk platform digest agent_did now rec)) ≡ false
      → HoldsTranscripts available rec.serialized_transcript_delegation
  unfolding stored_grant_expired
  live_available available rec live =
      rw (stored-memory rec.serialized_delegation live.d live.read, live.memory)
        (transcripts_available available rec.serialized_transcript_delegation live.transcripts)

  active-IsServed :
      (entity_id : String) (available : Bool) (snap : SessionSnapshot)
      → snap.state ≡ active
      → (says_active (
          if not available && not (record_expired sdk platform digest agent_did now snap.session)
          then nothing_stored (metadata_of snap)
          else report sdk platform digest agent_did now entity_id (metadata_of snap) snap.session))
        ≡ true
      → IsServed snap available
  unfolding record_expired memory_status
  active-IsServed entity_id available snap st =
      elim (Bool-cases
        (not available && not (record_expired sdk platform digest agent_did now snap.session))) [
          | inl gone ↦ rw gone (λ e. absurd (cc e))
          | inr shut ↦ rw shut (λ e.
              let (rec, holds, live) = report-IsLive entity_id _ snap.session e in
              record {
                held = rec;
                d = live.d;
                open_ = st;
                holds = holds;
                read = live.read;
                accepted =
                    evaluate-Accepts live.d (default_eliza_memory_policy sdk default_db_handle)
                      live.memory;
                transcripts = live_available available rec live (
                    subst
                      (λ (x : Option SessionRecord).
                        (not available && not (record_expired sdk platform digest agent_did now x))
                        ≡ false)
                      holds shut);
              })
        ]

  report_snapshot-IsServed :
      (entity_id : String) (available : Bool) (snap : SessionSnapshot) (st : AccessState)
      → snap.state ≡ st
      → says_active (report_snapshot sdk platform digest agent_did now entity_id available snap st)
        ≡ true
      → IsServed snap available
  unfolding report_snapshot
  report_snapshot-IsServed entity_id available snap active same e =
      active-IsServed entity_id available snap same e
  report_snapshot-IsServed entity_id available snap unconnected same e = absurd (cc e)
  report_snapshot-IsServed entity_id available snap activating same e = absurd (cc e)
  report_snapshot-IsServed entity_id available snap disconnected same e = absurd (cc e)
  report_snapshot-IsServed entity_id available snap restoring same e = absurd (cc e)
  report_snapshot-IsServed entity_id available snap revoked same e = absurd (cc e)

  -- For TinyChat, GET answers "active" only where the entity's access is active and the memory
  -- grant that it holds is one that the policy accepts now; and, unless its transcript grant is an
  -- empty text, only where private access is available and the transcript grant, if it holds one, is
  -- one that its policy accepts now.
  pub handle_get_sessions-IsServed :
      (s : SessionStore) (scope : SessionScope) (entity_id : String) (available : Bool)
      → scope.app_id === "tinychat" ≡ true
      → says_active
          (handle_get_sessions sdk platform digest agent_did now s
            (some scope)
            entity_id
            available).1
        ≡ true
      → IsServed (snapshot s (key scope entity_id)).1 available
  unfolding handle_get_sessions
  handle_get_sessions-IsServed s scope entity_id available app = rw app (
      report_snapshot-IsServed entity_id available (snapshot s (key scope entity_id)).1
        (snapshot s (key scope entity_id)).1.state refl)
