-- ===== src/Handlers/Post.antt =====
-- handlers/sessions.ts: handlePostSessions for a TinyChat bundle, with activateBundle, cut where
-- they await.
--
-- A ceremony is what the handler holds once it has reserved; a phase names the call that it awaits,
-- and an answer is how that call ends. `returned` carries what the handler reads after it: whether
-- private access is available, or whether the write is durable. `forget` and the write that a
-- failure publishes are calls on the persistence that leave the store alone.
use tinycloud_agents.Base.{
  ℕ, Bool, true, false, ◌&&◌, not, Option, none, some, String, if◌then◌else◌, ◌===◌, text_eq,
  number_eq, is_some,
}
use tinycloud_agents.Delegation.{Sdk, Reason, Checked, ok, err}
use tinycloud_agents.Delegation.Normalize.{Json, Platform}
use tinycloud_agents.SessionStore.{
  SessionStore, SessionScope, SessionKey, Revision, revision_eq, SessionLease, key, snapshot,
  reserve, commit, stage, fail, is_current, active,
}
use tinycloud_agents.Handlers.{HandlerResult, session_body, failing_with, stale}
use tinycloud_agents.Handlers.Bundle.{
  ValidatedBundle, transcript_error_code, validate_bundle, bundle_record,
}

-- The body of the other apps. A field is absent or a text: one of another type is not modelled.
pub record Envelope : Type 0 where
  pub version : ℕ
  pub memory : Option String
  pub transcripts : Option String
  pub room_id : Option String

-- A revision that is no text, or names none, is `none`.
pub record PostSessionsBody : Type 0 where
  pub agent_id : String
  pub entity_id : String
  pub serialized_delegation : Option String
  pub room_id : Option String
  pub revision : Option Revision
  pub session : Option Envelope

-- Which of the optional methods the host has, and whether there is a persistence.
pub record Equipment : Type 0 where
  pub disconnects : Bool
  pub registers_transcripts : Bool
  pub checks_access : Bool
  pub persists : Bool

pub record Ceremony : Type 0 where
  pub agent_id : String
  pub entity_id : String
  pub lease : SessionLease
  pub bundle : ValidatedBundle
  pub persists : Bool

pub data Phase : Type 0 where
  detaching opening_storage registering_memory registering_transcripts persisting : Phase
  cleaning_up : Option Reason → Phase

-- An error that is thrown is a policy error with its reason, or another one.
pub data Answer : Type 0 where
  returned : Bool → Answer
  threw : Option Reason → Answer

pub data Turn (P : Type 0) : Type 0 where
  waits : P → Turn P
  answers : HandlerResult → Turn P
  raises : Turn P

pub data Begun : Type 0 where
  refuses : HandlerResult → Begun
  activates : Ceremony → Turn Phase → Begun
  opens : ValidatedBundle → Begun

abbrev pub failure_result : Option Reason → HandlerResult
failure_result (some reason) = failing_with 400 (transcript_error_code reason)
failure_result none = failing_with 503 "private_access_unavailable"

abbrev pub confirmation : Ceremony → HandlerResult
confirmation c = record {
  status = 200;
  body = session_body c.entity_id "active" (some "active") (some c.lease.revision) (some active);
}

-- The catch block, up to the call that it awaits.
unfoldable pub failed : Ceremony → SessionStore → Option Reason → SessionStore × Turn Phase
failed c s reason =
    if not (is_current s c.lease)
    then (s, answers stale)
    else (fail s c.lease.key c.lease, waits (cleaning_up reason))

unfoldable pub confirm : Ceremony → SessionStore → SessionStore × Turn Phase
confirm c s =
    let (t, committed) = commit s c.lease.key c.lease (bundle_record c.agent_id c.bundle) in
    (t, if committed then answers (confirmation c) else answers stale)

unfoldable pub publish : Ceremony → SessionStore → SessionStore × Turn Phase
publish c s =
    let (t, published) = stage s c.lease.key c.lease (bundle_record c.agent_id c.bundle) in
    (t, if published then waits persisting else answers stale)

unfoldable pub activated : Ceremony → SessionStore → SessionStore × Turn Phase
activated c s = if c.persists then publish c s else confirm c s

-- What follows an awaited call that has returned; the lease is asked first.
unfoldable pub proceed : Ceremony → SessionStore → Phase → Bool → SessionStore × Turn Phase
proceed c s detaching b = (s, waits opening_storage)
proceed c s opening_storage b = (s, waits registering_memory)
proceed c s registering_memory b = (s, waits registering_transcripts)
proceed c s registering_transcripts true = activated c s
proceed c s registering_transcripts false = failed c s none
proceed c s persisting true = confirm c s
proceed c s persisting false = failed c s none
proceed c s (cleaning_up reason) b = (s, answers (failure_result reason))

unfoldable pub continue : Ceremony → SessionStore → Phase → Answer → SessionStore × Turn Phase
continue c s phase (threw reason) = failed c s reason
continue c s phase (returned b) =
    if is_current s c.lease then proceed c s phase b else (s, answers stale)

-- Whether the cleanup succeeds or not, its answer is the failure's.
unfoldable pub resume : Ceremony → SessionStore → Phase → Answer → SessionStore × Turn Phase
resume c s detaching a = continue c s detaching a
resume c s opening_storage a = continue c s opening_storage a
resume c s registering_memory a = continue c s registering_memory a
resume c s registering_transcripts a = continue c s registering_transcripts a
resume c s persisting a = continue c s persisting a
resume c s (cleaning_up reason) a = (s, answers (failure_result reason))

abbrev pub equipped : Equipment → Bool
equipped host = (host.disconnects && host.registers_transcripts) && host.checks_access

-- `activateBundle` asks for the methods once more, and for the transcript grant.
unfoldable pub activate : Equipment → Ceremony → SessionStore → SessionStore × Turn Phase
activate host c s =
    if equipped host && is_some c.bundle.transcripts then (s, waits detaching) else failed c s none

abbrev pub ceremony : Equipment → PostSessionsBody → SessionLease → ValidatedBundle → Ceremony
ceremony host body l bundle = record {
  agent_id = body.agent_id;
  entity_id = body.entity_id;
  lease = l;
  bundle = bundle;
  persists = host.persists;
}

abbrev pub memory_of : Option Envelope → Option String → Option String
memory_of none fallback = fallback
memory_of (some envelope) fallback = elim envelope.memory [ none ↦ fallback | some m ↦ some m ]

abbrev pub transcripts_of : Option Envelope → Option String
transcripts_of none = none
transcripts_of (some envelope) = envelope.transcripts

abbrev pub room_of : Option Envelope → Option String → Option String
room_of none fallback = fallback
room_of (some envelope) fallback = elim envelope.room_id [ none ↦ fallback | some r ↦ some r ]

abbrev pub has_bundle : Option Envelope → Bool
has_bundle none = false
has_bundle (some envelope) =
    (envelope.version === 2 && is_some envelope.memory) && is_some envelope.transcripts

-- The checks that only TinyChat meets; to read the revision makes an entry where there is none.
unfoldable pub revision_gate : SessionStore → SessionKey → Option Revision → SessionStore × Bool
revision_gate s k none = (s, false)
revision_gate s k (some r) = let (t, snap) = snapshot s k in (t, r === snap.revision)

module _ (sdk : Sdk) (platform : Platform) (parse_json : String → Option Json) where
  unfoldable pub body_bundle : PostSessionsBody → String → ℕ → Checked HandlerResult ValidatedBundle
  body_bundle body agent_did now = elim (memory_of body.session body.serialized_delegation) [
    | none ↦ err (failing_with 400 "invalid_body")
    | some memory ↦
        validate_bundle sdk platform parse_json
          (record {
            memory = memory;
            transcripts = transcripts_of body.session;
            room_id = room_of body.session body.room_id;
          })
          agent_did now
  ]

  -- From the reservation to the first await.
  unfoldable pub reserve_and_activate :
      Equipment
      → SessionStore
      → SessionKey
      → PostSessionsBody
      → ValidatedBundle
      → SessionStore × Begun
  reserve_and_activate host s k body bundle =
      if not (equipped host)
      then (s, refuses (failing_with 503 "private_access_unavailable"))
      else let (t, reserved) = reserve s k body.revision in
        elim reserved [
          | none ↦ (t, refuses stale)
          | some l ↦
              let c = ceremony host body l bundle in
              let (u, turn) = activate host c t in (u, activates c turn)
        ]

  unfoldable pub post_bundle :
      Equipment → SessionStore → SessionKey → PostSessionsBody → String → ℕ → SessionStore × Begun
  post_bundle host s k body agent_did now =
      let (t, fresh) = revision_gate s k body.revision in
      if not fresh
      then (t, refuses stale)
      else if not (has_bundle body.session)
      then (t, refuses (failing_with 400 "bundle_required"))
      else elim (body_bundle body agent_did now) [
        | err refusal ↦ (t, refuses refusal)
        | ok bundle ↦ reserve_and_activate host t k body bundle
      ]

  unfoldable pub handle_post_sessions :
      Equipment → SessionStore → SessionScope → PostSessionsBody → String → ℕ → SessionStore × Begun
  handle_post_sessions host s scope body agent_did now =
      if scope.app_id === "tinychat"
      then post_bundle host s (key scope body.entity_id) body agent_did now
      else elim (body_bundle body agent_did now) [
        | err refusal ↦ (s, refuses refusal)
        | ok bundle ↦ (s, opens bundle)
      ]
