-- ===== src/Handlers/Plain.antt =====
-- handlers/sessions.ts: handlePostSessions for the other applications, cut where it awaits.
use tinycloud_agents.Base.{ℕ, Option, none, some, String, if◌then◌else◌, ◌===◌, text_eq}
use tinycloud_agents.Delegation.{Sdk, Reason, Checked, ok, err}
use tinycloud_agents.Delegation.Normalize.{Platform}
use tinycloud_agents.Delegation.Hash.{Digest}
use tinycloud_agents.Delegation.Status.{DelegationStatus}
use tinycloud_agents.SessionStore.{SessionStore, SessionRecord, set_session}
use tinycloud_agents.Handlers.{HandlerResult, session_body, failing_with}
use tinycloud_agents.Handlers.Bundle.{ValidatedBundle, transcript_error_code}
use tinycloud_agents.Handlers.Post.{
  Equipment, Answer, returned, threw, Turn, waits, answers, raises, PostSessionsBody,
}
use tinycloud_agents.Handlers.Read.{stored_memory_status, status_text}

pub data PlainPhase : Type 0 where
  opening_storage registering_memory registering_transcripts : PlainPhase

-- `if (serializedTranscriptDelegation)`: an empty text is none.
abbrev pub truthy : Option String → Option String
truthy none = none
truthy (some s) = if s === "" then none else some s

-- No expiries are kept.
abbrev pub plain_record : PostSessionsBody → ValidatedBundle → SessionRecord
plain_record body bundle = record {
  agent_id = body.agent_id;
  serialized_delegation = bundle.memory;
  serialized_transcript_delegation = bundle.transcripts;
  room_id = bundle.room_id;
  exp = none;
  expiries = none;
}

abbrev pub transcript_failure : Option Reason → HandlerResult
transcript_failure (some reason) = failing_with 400 (transcript_error_code reason)
transcript_failure none = failing_with 503 "transcript_unavailable"

module _ (sdk : Sdk) (platform : Platform) (digest : Digest) (agent_did : String) (now : ℕ) where
  abbrev pub status_answer :
      String → Option String → Checked Reason DelegationStatus → Turn PlainPhase
  status_answer entity_id transcripts (err reason) = raises
  status_answer entity_id transcripts (ok status) = answers (record {
    status = 200;
    body =
        session_body entity_id (status_text status)
          (elim (truthy transcripts) [ none ↦ none | some t ↦ some "active" ]) none none;
  })

  -- The record is stored, then the status is read from the memory grant.
  unfoldable pub store_plain :
      SessionStore → PostSessionsBody → ValidatedBundle → SessionStore × Turn PlainPhase
  store_plain s body bundle = (
    set_session s body.entity_id (plain_record body bundle),
    status_answer body.entity_id bundle.transcripts
        (stored_memory_status sdk platform digest agent_did now bundle.memory),
  )

  -- After the memory grant is registered.
  unfoldable pub add_transcripts :
      Equipment → SessionStore → PostSessionsBody → ValidatedBundle → SessionStore × Turn PlainPhase
  add_transcripts host s body bundle = elim (truthy bundle.transcripts) [
    | none ↦ store_plain s body bundle
    | some transcripts ↦
        if host.registers_transcripts
        then (s, waits registering_transcripts)
        else (s, answers (failing_with 503 "transcript_unavailable"))
  ]

  unfoldable pub resume_plain :
      Equipment
      → SessionStore
      → PostSessionsBody
      → ValidatedBundle
      → PlainPhase
      → Answer
      → SessionStore × Turn PlainPhase
  resume_plain host s body bundle opening_storage (returned b) = (s, waits registering_memory)
  resume_plain host s body bundle opening_storage (threw reason) = (s, raises)
  resume_plain host s body bundle registering_memory (returned b) =
      add_transcripts host s body bundle
  resume_plain host s body bundle registering_memory (threw reason) = (s, raises)
  resume_plain host s body bundle registering_transcripts (returned b) = store_plain s body bundle
  resume_plain host s body bundle registering_transcripts (threw reason) =
      (s, answers (transcript_failure reason))
