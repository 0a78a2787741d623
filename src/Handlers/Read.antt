-- ===== src/Handlers/Read.antt =====
-- handlers/sessions.ts: handleGetSessions, storedGrantExpired and handleDeleteSessions.
--
-- `available` is what privateAccessAvailable answers, false where the host lacks it. The snapshot's
-- revision and state stand in the body only for TinyChat.
use tinycloud_agents.Base.{
  ℕ, Bool, true, false, ◌&&◌, ◌||◌, not, Option, none, some, String, if◌then◌else◌, ◌===◌, text_eq,
}
use tinycloud_agents.Delegation.{PortableDelegation, Sdk, Reason, expired, Checked, ok, err, ◌>>=◌}
use tinycloud_agents.Delegation.Policy.{
  deserialize_delegation_safe, default_eliza_memory_policy, default_tinychat_transcript_policy,
  default_db_handle,
}
use tinycloud_agents.Delegation.Hash.{Digest}
use tinycloud_agents.Delegation.Status.{
  DelegationStatus, status_active, status_expired, status_stale, status_none,
  evaluate_delegation_status,
}
use tinycloud_agents.Delegation.Normalize.{
  Platform, deserialize_transcript_delegation_for_activation,
}
use tinycloud_agents.SessionStore.{
  SessionStore, SessionScope, SessionRecord, SessionSnapshot, Revision, AccessState, active,
  disconnected, restoring, revoked, unconnected, activating, key, snapshot, disconnect, get_session,
}
use tinycloud_agents.Handlers.{
  HandlerResult, session_body, none_body, restoring_body, unconfirmed, failing_with,
}
use tinycloud_agents.Handlers.Bundle.{reason_code}
use tinycloud_agents.Handlers.Post.{Equipment, Answer, returned, threw, Turn, answers, raises}

unfoldable pub status_text : DelegationStatus → String
status_text status_active = "active"
status_text status_expired = "expired"
status_text status_stale = "stale"
status_text status_none = "none"

abbrev pub is_active_status : DelegationStatus → Bool
is_active_status status_active = true
is_active_status _ = false

-- The revision and the state that a body carries.
pub record Metadata : Type 0 where
  pub revision : Option Revision
  pub state : Option AccessState

abbrev pub nothing_stored : Metadata → HandlerResult
nothing_stored m = record { status = 404; body = none_body m.revision m.state }

abbrev pub reported : String → DelegationStatus → Option String → Metadata → HandlerResult
reported entity_id status transcripts m = record {
  status = 200;
  body = session_body entity_id (status_text status) transcripts m.revision m.state;
}

-- `expired` in storedGrantExpired.
abbrev pub has_expired : Checked Reason DelegationStatus → Bool
has_expired (ok status_expired) = true
has_expired (ok _) = false
has_expired (err expired) = true
has_expired (err _) = false

-- The catch of the transcript's evaluation: an expiry is a status.
unfoldable pub transcript_outcome :
    Checked Reason DelegationStatus → Checked HandlerResult DelegationStatus
transcript_outcome (ok status) = ok status
transcript_outcome (err expired) = ok status_expired
transcript_outcome (err _) = err (failing_with 400 "invalid_transcript_delegation")

abbrev pub metadata_of : SessionSnapshot → Metadata
metadata_of snap = record { revision = some snap.revision; state = some snap.state }

module _ (sdk : Sdk) (platform : Platform) (digest : Digest) (agent_did : String) (now : ℕ) where
  unfoldable pub memory_status : PortableDelegation → Checked Reason DelegationStatus
  memory_status d =
      evaluate_delegation_status sdk digest (some d)
        (default_eliza_memory_policy sdk default_db_handle) agent_did none now

  unfoldable pub stored_memory_status : String → Checked Reason DelegationStatus
  stored_memory_status serialized = do
    d ← deserialize_delegation_safe sdk serialized
    memory_status d

  unfoldable pub stored_transcript_status : String → Checked Reason DelegationStatus
  stored_transcript_status serialized = do
    d ← deserialize_transcript_delegation_for_activation platform sdk serialized
    evaluate_delegation_status sdk digest (some d) (default_tinychat_transcript_policy sdk)
        agent_did none now

  unfoldable pub transcript_expired : Option String → Bool
  transcript_expired none = false
  transcript_expired (some transcripts) = has_expired (stored_transcript_status transcripts)

  unfoldable pub stored_grant_expired : SessionRecord → Bool
  stored_grant_expired rec =
      has_expired (stored_memory_status rec.serialized_delegation)
      || transcript_expired rec.serialized_transcript_delegation

  unfoldable pub record_expired : Option SessionRecord → Bool
  record_expired none = false
  record_expired (some rec) = stored_grant_expired rec

  -- The combined status, which the transcript grant may lower; an empty text is no grant.
  unfoldable pub with_transcripts :
      String → Metadata → DelegationStatus → Option String → HandlerResult
  with_transcripts entity_id m status none = reported entity_id status none m
  with_transcripts entity_id m status (some transcripts) =
      if transcripts === ""
      then reported entity_id status none m
      else elim (transcript_outcome (stored_transcript_status transcripts)) [
        | err refusal ↦ refusal
        | ok other ↦
            reported entity_id (if is_active_status other then status else other)
              (some (status_text other)) m
      ]

  unfoldable pub report : String → Metadata → Option SessionRecord → HandlerResult
  report entity_id m none = nothing_stored m
  report entity_id m (some rec) = elim (deserialize_delegation_safe sdk rec.serialized_delegation) [
    | err reason ↦ nothing_stored m
    | ok d ↦ elim (memory_status d) [
      | err reason ↦ failing_with 400 (reason_code reason)
      | ok status ↦ with_transcripts entity_id m status rec.serialized_transcript_delegation
    ]
  ]

  unfoldable pub report_snapshot : String → Bool → SessionSnapshot → AccessState → HandlerResult
  report_snapshot entity_id available snap restoring = record {
    status = 503;
    body = restoring_body snap.revision snap.state;
  }
  report_snapshot entity_id available snap revoked = record {
    status = 200;
    body = session_body entity_id "revoked" none (some snap.revision) (some snap.state);
  }
  report_snapshot entity_id available snap active =
      if not available && not (record_expired snap.session)
      then nothing_stored (metadata_of snap)
      else report entity_id (metadata_of snap) snap.session
  report_snapshot entity_id available snap unconnected = nothing_stored (metadata_of snap)
  report_snapshot entity_id available snap activating = nothing_stored (metadata_of snap)
  report_snapshot entity_id available snap disconnected = nothing_stored (metadata_of snap)

  unfoldable pub handle_get_sessions :
      SessionStore → Option SessionScope → String → Bool → SessionStore × HandlerResult
  handle_get_sessions s none entity_id available =
      (s, report entity_id (record { revision = none; state = none }) (get_session s entity_id))
  handle_get_sessions s (some scope) entity_id available =
      if scope.app_id === "tinychat"
      then (let (t, snap) = snapshot s (key scope entity_id) in
          (t, report_snapshot entity_id available snap snap.state))
      else (
        s,
        report entity_id (record { revision = none; state = none }) (get_session s entity_id),
      )

-- handleDeleteSessions up to its awaits: the revision of the disconnected entity.
unfoldable pub handle_delete_sessions :
    SessionStore → SessionScope → String → SessionStore × Option Revision
handle_delete_sessions s scope entity_id =
    if not (scope.app_id === "tinychat")
    then (s, none)
    else let (t, snap) = disconnect s (key scope entity_id) in (t, some snap.revision)

abbrev pub detached : Equipment → Answer → Bool
detached host (returned b) = host.disconnects
detached host (threw reason) = false

-- After the host's cleanup and the removal of the stored grant have ended.
unfoldable pub deleted : String → Revision → Bool → Bool → HandlerResult
deleted entity_id r removed was_detached =
    if not removed || not was_detached
    then record { status = 503; body = unconfirmed r }
    else record {
      status = 200;
      body = session_body entity_id "none" none (some r) (some disconnected);
    }

unfoldable pub finish_delete :
    Equipment → String → Option Revision → Answer → Answer → Turn (Unit {0})
finish_delete host entity_id none cleanup removal = answers (failing_with 404 "not_found")
finish_delete host entity_id (some r) cleanup (returned removed) =
    answers (deleted entity_id r (not host.persists || removed) (detached host cleanup))
finish_delete host entity_id (some r) cleanup (threw reason) =
    if host.persists then raises else answers (deleted entity_id r true (detached host cleanup))
