-- ===== src/HeldSessions/Reload/Restore.antt =====
-- held-sessions.ts: `restore`, from the read record to the end of the reload.
use tinycloud_agents.Base.{
  ℕ, ◌+◌, Bool, true, false, ◌&&◌, ◌||◌, not, Option, none, some, [], ◌∷◌, String, if◌then◌else◌,
  text_eq, is_some,
}
use tinycloud_agents.Base.Map
use tinycloud_agents.Base.Map.{Map}
use tinycloud_agents.Delegation.{expired, Checked, ok, err}
use tinycloud_agents.Delegation.Status.{DelegationStatus}
use tinycloud_agents.SessionStore.{
  SessionStore, SessionRecord, SessionLease, key, known, is_current, begin_restore, restore,
  tombstone, abandon_restore,
}
use tinycloud_agents.Handlers.{HandlerResult}
use tinycloud_agents.Handlers.Bundle.{BundleInput, ValidatedBundle, validate_bundle, bundle_record}
use tinycloud_agents.Handlers.Post.{equipped}
use tinycloud_agents.Handlers.Read.{stored_memory_status, stored_transcript_status}
use tinycloud_agents.HeldSessions.{HeldSession, held_session_expiry, time_or}
use tinycloud_agents.HeldSessions.Stored.{ReadFailure}
use tinycloud_agents.HeldSessions.Reload.{
  ErrorKind, Fault, Surroundings, Reloads, Stage, Activation, Phase, Answer, is_revocation,
  grant_status, is_expired_status, is_live_or_expired, is_forgotten, is_revoked, held_record,
  policy_error, delegation_expired_error, other_error, done, retry, detaching, opening_storage,
  registering_memory, registering_transcripts, reading, activating, cleaning_up, over, found,
  unreachable, returned, threw,
}

-- The reload is not overtaken by local state: by its lease, or without one by the entity's absence.
unfoldable pub is_wanted : Reloads → String → Option SessionLease → Bool
is_wanted h entity_id none = not (known h.sessions (key h.scope entity_id))
is_wanted h entity_id (some l) = is_current h.sessions l

unfoldable pub drop_lease : Reloads → String → Reloads
drop_lease h entity_id = record h { leases = Map.delete h.leases entity_id }

-- `invalid`: the stored record stays.
unfoldable pub reject : Reloads → String → SessionLease → Reloads
reject h entity_id l = record h {
  sessions = abandon_restore h.sessions (key h.scope entity_id) l;
  leases = Map.delete h.leases entity_id;
  counts = record h.counts { invalid = h.counts.invalid + 1 };
}

unfoldable pub forget_grant : Reloads → String → SessionLease → Reloads
forget_grant h entity_id l = record h {
  sessions = abandon_restore h.sessions (key h.scope entity_id) l;
  leases = Map.delete h.leases entity_id;
  counts = record h.counts { deleted = h.counts.deleted + 1 };
  published = entity_id ∷ h.published;
}

unfoldable pub bury : Reloads → String → SessionLease → Option ℕ → ℕ → Reloads
bury h entity_id l exp at = record h {
  sessions = (tombstone h.sessions (key h.scope entity_id) l exp at).0;
  leases = Map.delete h.leases entity_id;
  counts = record h.counts { revoked = h.counts.revoked + 1 };
}

-- The record of an expired grant is loaded, and nothing is registered.
unfoldable pub load_expired : Reloads → String → SessionLease → SessionRecord → Reloads
load_expired h entity_id l rec = record h {
  sessions = (restore h.sessions (key h.scope entity_id) l rec).0;
  leases = Map.delete h.leases entity_id;
  counts = record h.counts { lapsed = h.counts.lapsed + 1 };
}

-- The last step: only a restored entity is counted and gives up its lease here.
unfoldable pub load_active : Reloads → String → SessionLease → SessionRecord → Reloads
load_active h entity_id l rec =
    let (t, restored) = restore h.sessions (key h.scope entity_id) l rec in
    record h {
      sessions = t;
      leases = if restored then Map.delete h.leases entity_id else h.leases;
      counts = record h.counts {
        restored = if restored then h.counts.restored + 1 else h.counts.restored;
      };
    }

-- The throw of `activateBundle` where the host lacks a method or private access is not available.
abbrev pub private_access_unavailable : Fault
private_access_unavailable = record {
  kind = other_error;
  causes = record { code = none; message = some "private access unavailable" } ∷ [];
}

-- The catch block, up to the call that it awaits.
unfoldable pub caught : Reloads → Activation → Fault → Phase
caught h a fault = if is_current h.sessions a.lease then cleaning_up a fault else over done

unfoldable pub activate : Surroundings → Reloads → Activation → Phase
activate w h a =
    if equipped w.equipment && is_some a.bundle.transcripts
    then activating a detaching
    else caught h a private_access_unavailable

abbrev pub bundle_input : SessionRecord → BundleInput
bundle_input rec = record {
  memory = rec.serialized_delegation;
  transcripts = rec.serialized_transcript_delegation;
  room_id = rec.room_id;
}

-- After `validateBundle`.
abbrev pub activate_checked :
    Surroundings
    → Reloads
    → String
    → SessionLease
    → Option ℕ
    → SessionRecord
    → Checked HandlerResult ValidatedBundle
    → Reloads × Phase
activate_checked w h entity_id l exp rec (err refusal) = (reject h entity_id l, over done)
activate_checked w h entity_id l exp rec (ok bundle) =
    (h, activate w h (record { lease = l; exp = exp; record_held = rec; bundle = bundle }))

module _ (w : Surroundings) (now : ℕ) where
  unfoldable pub memory_held : SessionRecord → Option DelegationStatus
  memory_held rec =
      grant_status
        (stored_memory_status w.sdk w.platform w.digest w.agent_did now rec.serialized_delegation)

  unfoldable pub transcripts_held : SessionRecord → Option DelegationStatus
  transcripts_held rec = elim rec.serialized_transcript_delegation [
    | none ↦ none
    | some t ↦ grant_status (stored_transcript_status w.sdk w.platform w.digest w.agent_did now t)
  ]

  unfoldable pub expired_bundle : SessionRecord → Bool
  expired_bundle rec =
      is_expired_status (memory_held rec) || is_expired_status (transcripts_held rec)

  unfoldable pub valid_expired_bundle : SessionRecord → Bool
  valid_expired_bundle rec =
      is_live_or_expired (memory_held rec) && is_live_or_expired (transcripts_held rec)

  unfoldable pub activate_record :
      Reloads → String → SessionLease → Option ℕ → SessionRecord → Reloads × Phase
  activate_record h entity_id l exp rec =
      activate_checked w h entity_id l exp rec
        (validate_bundle w.sdk w.platform w.parse_json (bundle_input rec) w.agent_did now)

  unfoldable pub reload_record :
      Reloads → String → SessionLease → Option ℕ → SessionRecord → Reloads × Phase
  reload_record h entity_id l exp rec =
      if expired_bundle rec
      then (
        if valid_expired_bundle rec then load_expired h entity_id l rec else reject h entity_id l,
        over done,
      )
      else activate_record h entity_id l exp rec

  unfoldable pub reload_held : Reloads → String → HeldSession → SessionLease → Reloads × Phase
  reload_held h entity_id held l =
      if is_forgotten now (held_session_expiry held)
      then (forget_grant h entity_id l, over done)
      else if is_revoked held.state
      then (
        bury h entity_id l (held_session_expiry held) (time_or held.stored_at held.revoked_at),
        over done,
      )
      else reload_record h entity_id l (held_session_expiry held) (held_record h.scope held)

  -- After `beginRestore`.
  abbrev pub reload_begun :
      Reloads → String → HeldSession → SessionStore → Option SessionLease → Reloads × Phase
  reload_begun h entity_id held t none = (record h { sessions = t }, over done)
  reload_begun h entity_id held t (some l) =
      reload_held (record h { sessions = t; leases = Map.set h.leases entity_id l }) entity_id held
        l

  -- A lease is taken where there is none yet.
  unfoldable pub take_lease : Reloads → String → HeldSession → Option SessionLease → Reloads × Phase
  take_lease h entity_id held (some l) = reload_held h entity_id held l
  take_lease h entity_id held none =
      let (t, begun) =
        begin_restore h.sessions (key h.scope entity_id) (w.read_revision held.revision) in
      reload_begun h entity_id held t begun

  abbrev pub reload_read :
      Reloads
      → String
      → Option SessionLease
      → Option (Checked ReadFailure HeldSession)
      → Reloads × Phase
  reload_read h entity_id lease none = (h, over done)
  reload_read h entity_id lease (some (err e)) =
      (record h { counts = record h.counts { invalid = h.counts.invalid + 1 } }, over done)
  reload_read h entity_id lease (some (ok held)) = take_lease h entity_id held lease

  unfoldable pub after_read :
      Reloads
      → String
      → Option SessionLease
      → Option (Checked ReadFailure HeldSession)
      → Reloads × Phase
  after_read h entity_id lease read =
      if not (is_wanted h entity_id lease)
      then (h, over done)
      else reload_read h entity_id lease read

  -- After a call of `activateBundle` has returned.
  unfoldable pub proceed : Reloads → String → Activation → Stage → Bool → Reloads × Phase
  proceed h entity_id a detaching b = (h, activating a opening_storage)
  proceed h entity_id a opening_storage b = (h, activating a registering_memory)
  proceed h entity_id a registering_memory b = (h, activating a registering_transcripts)
  proceed h entity_id a registering_transcripts false = (h, caught h a private_access_unavailable)
  proceed h entity_id a registering_transcripts true =
      (load_active h entity_id a.lease (bundle_record h.scope.agent_id a.bundle), over done)

  -- The end of the catch block.
  unfoldable pub after_fault : Reloads → String → Activation → ErrorKind → Reloads × Phase
  after_fault h entity_id a delegation_expired_error =
      (load_expired h entity_id a.lease a.record_held, over done)
  after_fault h entity_id a (policy_error expired) =
      (load_expired h entity_id a.lease a.record_held, over done)
  after_fault h entity_id a (policy_error _) = (reject h entity_id a.lease, over done)
  after_fault h entity_id a other_error = (h, over retry)

  unfoldable pub after_cleanup : Reloads → String → Activation → Fault → Reloads × Phase
  after_cleanup h entity_id a fault =
      if not (is_current h.sessions a.lease)
      then (h, over done)
      else if is_revocation w fault
      then (
        (let buried = bury h entity_id a.lease a.exp now in
            record buried { published = entity_id ∷ buried.published }),
        over done,
      )
      else after_fault h entity_id a fault.kind

  -- An answer that the phase does not wait for changes nothing.
  unfoldable pub resume : Reloads → String → Phase → Answer → Reloads × Phase
  resume h entity_id (reading lease) (found read) = after_read h entity_id lease read
  resume h entity_id (reading lease) unreachable = (h, over retry)
  resume h entity_id (activating a stage) (returned b) =
      if is_current h.sessions a.lease then proceed h entity_id a stage b else (h, over done)
  resume h entity_id (activating a stage) (threw fault) = (h, caught h a fault)
  resume h entity_id (cleaning_up a fault) (returned b) = after_cleanup h entity_id a fault
  resume h entity_id (cleaning_up a fault) (threw other) = after_cleanup h entity_id a fault
  resume h entity_id phase a = (h, phase)
