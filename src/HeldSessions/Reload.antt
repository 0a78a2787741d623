-- ===== src/HeldSessions/Reload.antt =====
-- packages/eliza-service/src/held-sessions.ts: the reload of one stored session, `restore`, cut where
-- it awaits. `sync` is called where the entity is added to `published`; log lines are left out.
pub mod Restore
pub mod Fenced
pub mod Resting
pub mod Vetted
pub mod Tests
use tinycloud_agents.Base.{
  ℕ, zero, suc, ◌+◌, ◌*◌, Bool, true, false, ◌&&◌, ◌||◌, not, Option, none, some, List, [], ◌∷◌,
  String, leb, if◌then◌else◌, ◌===◌, text_eq, is_some,
}
use tinycloud_agents.Base.Map
use tinycloud_agents.Base.Map.{Map}
use tinycloud_agents.Delegation.{Sdk, Reason, expired, Checked, ok, err}
use tinycloud_agents.Delegation.Policy.{text_or_empty}
use tinycloud_agents.Delegation.Normalize.{Json, Platform}
use tinycloud_agents.Delegation.Hash.{Digest}
use tinycloud_agents.Delegation.Status.{
  DelegationStatus, status_active, status_expired, status_stale, status_none,
}
use tinycloud_agents.SessionStore.{
  SessionStore, SessionScope, SessionKey, SessionRecord, SessionLease, Revision, key, known,
  is_current, begin_restore, restore, tombstone, abandon_restore,
}
use tinycloud_agents.Handlers.{HandlerResult}
use tinycloud_agents.Handlers.Bundle.{BundleInput, ValidatedBundle, validate_bundle, bundle_record}
use tinycloud_agents.Handlers.Post.{Equipment, equipped}
use tinycloud_agents.Handlers.Read.{stored_memory_status, stored_transcript_status}
use tinycloud_agents.HeldSessions.{
  HeldState, held_active, held_revoked, HeldSession, held_session_expiry, time_or,
}
use tinycloud_agents.HeldSessions.Stored.{ReadFailure}

-- One error of a chain of causes.
pub record Cause : Type 0 where
  pub code : Option String
  pub message : Option String

pub data ErrorKind : Type 0 where
  policy_error : Reason → ErrorKind
  delegation_expired_error other_error : ErrorKind

-- What activation threw: the error's class, and the error with its causes.
pub record Fault : Type 0 where
  pub kind : ErrorKind
  pub causes : List Cause

-- What a reload uses: the host, and what tests the texts of errors. `read_revision` is the revision
-- that a stored text stands for.
pub record Surroundings : Type 0 where
  pub sdk : Sdk
  pub platform : Platform
  pub digest : Digest
  pub parse_json : String → Option Json
  pub agent_did : String
  pub equipment : Equipment
  pub read_revision : String → Revision
  pub code_says_revoked : String → Bool
  pub message_says_revoked : String → Bool

pub record Counts : Type 0 where
  pub restored : ℕ
  pub lapsed : ℕ
  pub revoked : ℕ
  pub invalid : ℕ
  pub deleted : ℕ

pub record Reloads : Type 0 where
  pub scope : SessionScope
  pub sessions : SessionStore
  pub leases : Map String SessionLease
  pub counts : Counts
  pub published : List String

pub data Outcome : Type 0 where
  done retry : Outcome

pub data Stage : Type 0 where
  detaching opening_storage registering_memory registering_transcripts : Stage

-- What a reload holds once its record has passed.
pub record Activation : Type 0 where
  pub lease : SessionLease
  pub exp : Option ℕ
  pub record_held : SessionRecord
  pub bundle : ValidatedBundle

-- Which call a reload awaits.
pub data Phase : Type 0 where
  reading : Option SessionLease → Phase
  activating : Activation → Stage → Phase
  cleaning_up : Activation → Fault → Phase
  over : Outcome → Phase

-- How the awaited call ends. `returned` says whether private access is available then.
pub data Answer : Type 0 where
  found : Option (Checked ReadFailure HeldSession) → Answer
  unreachable : Answer
  returned : Bool → Answer
  threw : Fault → Answer

-- At most six causes are looked at.
unfoldable pub is_revocation_within : (String → Bool) → (String → Bool) → ℕ → List Cause → Bool
is_revocation_within code message zero causes = false
is_revocation_within code message (suc depth) [] = false
is_revocation_within code message (suc depth) (c ∷ cs) =
    elim c.code [ none ↦ false | some t ↦ code t ]
    || elim c.message [ none ↦ false | some t ↦ message t ]
    || is_revocation_within code message depth cs

unfoldable pub is_revocation : Surroundings → Fault → Bool
is_revocation w fault =
    is_revocation_within w.code_says_revoked w.message_says_revoked 6 fault.causes

-- The status of a grant that is read; `none` for "invalid".
abbrev pub grant_status : Checked Reason DelegationStatus → Option DelegationStatus
grant_status (ok status) = some status
grant_status (err expired) = some status_expired
grant_status (err _) = none

abbrev pub is_expired_status : Option DelegationStatus → Bool
is_expired_status (some status_expired) = true
is_expired_status (some _) = false
is_expired_status none = false

abbrev pub is_live_or_expired : Option DelegationStatus → Bool
is_live_or_expired (some status_active) = true
is_live_or_expired (some status_expired) = true
is_live_or_expired (some _) = false
is_live_or_expired none = false

-- 7 days.
unfoldable pub expired_grant_retention_ms : ℕ
expired_grant_retention_ms = 7 * 24 * 60 * 60 * 1000

abbrev pub is_forgotten : ℕ → Option ℕ → Bool
is_forgotten now none = false
is_forgotten now (some exp) = leb (exp + expired_grant_retention_ms) now

abbrev pub is_revoked : HeldState → Bool
is_revoked held_revoked = true
is_revoked held_active = false

-- A record that has been read holds a memory grant where it is active.
unfoldable pub held_record : SessionScope → HeldSession → SessionRecord
held_record scope held = record {
  agent_id = scope.agent_id;
  serialized_delegation = text_or_empty held.memory;
  serialized_transcript_delegation = held.transcripts;
  room_id = held.room_id;
  exp = held_session_expiry held;
  expiries = some held.expiries;
}

-- With the lease that an earlier try has left, if there is one.
abbrev pub start_with : Reloads → String → Option SessionLease → Phase
start_with h entity_id (some l) = if is_current h.sessions l then reading (some l) else over done
start_with h entity_id none =
    if known h.sessions (key h.scope entity_id) then over done else reading none

unfoldable pub start_reload : Reloads → String → Phase
start_reload h entity_id = start_with h entity_id (Map.get h.leases entity_id)
