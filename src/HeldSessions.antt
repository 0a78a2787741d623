-- ===== src/HeldSessions.antt =====
-- packages/eliza-service/src/delegation-store.ts and held-sessions.ts: the records of held sessions,
-- and what is published for an entity.
pub mod Stored
pub mod RoundTrip
pub mod Keys
pub mod Kv
pub mod Queue
pub mod Reload
pub mod Loader
mod Tests
use Prim.Native.String
use tinycloud_agents.Base.{
  ℕ, suc, Bool, true, false, ◌&&◌, ◌||◌, Option, none, some, String, ltb, leb, is_some,
  if◌then◌else◌, ◌===◌, text_eq, number_eq,
}
use tinycloud_agents.Delegation.{Checked, ok, err, ◌>>=◌, ◌>>◌, unless}
use tinycloud_agents.Delegation.Normalize.{
  Json, text, number, array, object, Members, no_member, member, Platform, lookup,
}
use tinycloud_agents.SessionStore.{
  Expiries, SessionRecord, SessionScope, SessionStore, SessionSnapshot, Revision, AccessState,
  active, activating, revoked, restoring, unconnected, disconnected, Staged, key, peek, staged,
}
use tinycloud_agents.Handlers.Bundle.{earliest}

pub data HeldState : Type 0 where
  held_active held_revoked : HeldState

pub record HeldSession : Type 0 where
  pub app_id : String
  pub agent_id : String
  pub entity_id : String
  pub revision : String
  pub state : HeldState
  pub memory : Option String
  pub transcripts : Option String
  pub expiries : Expiries
  pub room_id : Option String
  pub revoked_at : Option ℕ
  pub stored_at : ℕ

pub data DesiredRecord : Type 0 where
  put : HeldSession → DesiredRecord
  delete keep : DesiredRecord

abbrev pub no_expiries : Expiries
no_expiries = record { memory = none; transcripts = none }

abbrev pub expiries_of : Option Expiries → Expiries
expiries_of none = no_expiries
expiries_of (some e) = e

-- The printed revision, `${instance}:${sequence}`.
unfoldable pub revision_text : Platform → Revision → String
revision_text platform r =
    String.◌++◌ r.instance_id (String.◌++◌ ":" (platform.print_index r.sequence))

-- `heldSession` and the tombstone that `desired` publishes.
unfoldable pub held_session :
    Platform → SessionScope → String → Revision → SessionRecord → ℕ → HeldSession
held_session platform scope entity_id r rec now = record {
  app_id = scope.app_id;
  agent_id = scope.agent_id;
  entity_id = entity_id;
  revision = revision_text platform r;
  state = held_active;
  memory = some rec.serialized_delegation;
  transcripts = rec.serialized_transcript_delegation;
  expiries = expiries_of rec.expiries;
  room_id = rec.room_id;
  revoked_at = none;
  stored_at = now;
}

abbrev pub time_or : ℕ → Option ℕ → ℕ
time_or now none = now
time_or now (some t) = t

unfoldable pub held_tombstone : Platform → SessionScope → String → SessionSnapshot → ℕ → HeldSession
held_tombstone platform scope entity_id snap now = record {
  app_id = scope.app_id;
  agent_id = scope.agent_id;
  entity_id = entity_id;
  revision = revision_text platform snap.revision;
  state = held_revoked;
  memory = none;
  transcripts = none;
  expiries = record { memory = snap.exp; transcripts = none };
  room_id = none;
  revoked_at = some (time_or now snap.revoked_at);
  stored_at = now;
}

abbrev pub put_active :
    Platform → SessionScope → String → Revision → ℕ → Option SessionRecord → DesiredRecord
put_active platform scope entity_id r now none = keep
put_active platform scope entity_id r now (some rec) = elim rec.serialized_transcript_delegation [
  | none ↦ keep
  | some transcripts ↦ put (held_session platform scope entity_id r rec now)
]

abbrev pub put_staged : Platform → SessionScope → String → ℕ → Option Staged → DesiredRecord
put_staged platform scope entity_id now none = keep
put_staged platform scope entity_id now (some st) =
    put (held_session platform scope entity_id st.revision st.session now)

unfoldable pub desired_for :
    Platform
    → SessionScope
    → String
    → ℕ
    → Option Staged
    → SessionSnapshot
    → AccessState
    → DesiredRecord
desired_for platform scope entity_id now st snap active =
    put_active platform scope entity_id snap.revision now snap.session
desired_for platform scope entity_id now st snap activating =
    put_staged platform scope entity_id now st
desired_for platform scope entity_id now st snap revoked =
    put (held_tombstone platform scope entity_id snap now)
desired_for platform scope entity_id now st snap restoring = keep
desired_for platform scope entity_id now st snap unconnected = delete
desired_for platform scope entity_id now st snap disconnected = delete

abbrev pub desired_of :
    Platform → SessionScope → String → ℕ → Option Staged → Option SessionSnapshot → DesiredRecord
desired_of platform scope entity_id now st none = keep
desired_of platform scope entity_id now st (some snap) =
    desired_for platform scope entity_id now st snap snap.state

unfoldable pub desired : Platform → SessionStore → SessionScope → String → ℕ → DesiredRecord
desired platform s scope entity_id now =
    desired_of platform scope entity_id now (staged s (key scope entity_id))
      (peek s (key scope entity_id))

abbrev pub held_session_expiry : HeldSession → Option ℕ
held_session_expiry h = earliest h.expiries
