-- ===== src/HeldSessions/Reload/Tests.antt =====
-- A stored session that is reloaded.
use tinycloud_agents.Base.{◌≡◌, refl, true, false, none, some, List, [], ◌∷◌}
use tinycloud_agents.Delegation.{ok}
use tinycloud_agents.Delegation.Policy.{
  assert_well_formed, granted_for, granted_among, service_matches, covers_actions, check_granted,
  check_resources, expiry_time, validate_delegation_policy, default_eliza_memory_policy,
  deserialize_delegation_safe, default_db_handle, default_tinychat_transcript_policy, check_entry,
  check_exact, check_all_exact, validate_exact_delegation_policy,
}
use tinycloud_agents.Delegation.Shape.{
  validate_delegation_shape, is_blank, read_expiry, has_sql_action, has_sql_resource,
}
use tinycloud_agents.Delegation.Text.{strip_bearer}
use tinycloud_agents.Delegation.Status.{evaluate_delegation_status}
use tinycloud_agents.Delegation.Normalize.{
  decode_jwt_payload, entries, parse_resource_uri, grant_of, resources_from_entries,
  resources_from_att, att_of, signed_resources, owner_of, signed_owner_address, member_keys, lookup,
  normalize_delegation_grants, deserialize_and_normalize, for_activation,
  deserialize_transcript_delegation_for_activation,
}
use tinycloud_agents.Base.Map
use tinycloud_agents.SessionStore
use tinycloud_agents.SessionStore.{
  SessionStore, key, key_eq, revision_eq, known, begin_restore, restore, guarded, is_current,
  snapshot, lease,
}
use tinycloud_agents.Handlers.Bundle.{
  max_grant_expiry_ms, exp_claim, signed_expiry_seconds, effective_expiry, within_ceiling,
  same_owner, transcript_expiry, transcripts_checked, validate_bundle, earliest,
}
use tinycloud_agents.Handlers.Read.{memory_status, stored_memory_status, stored_transcript_status}
use tinycloud_agents.Handlers.Tests.{sdk, platform, parse_json, digest, equipment, scope}
use tinycloud_agents.HeldSessions.{HeldSession, held_active}
use tinycloud_agents.HeldSessions.Reload.{
  Surroundings, Reloads, done, reading, over, found, returned, start_reload,
  expired_grant_retention_ms, held_record,
}
use tinycloud_agents.HeldSessions.Reload.Restore.{
  resume, after_read, is_wanted, take_lease, reload_held, reload_record, activate_record,
  expired_bundle, memory_held, transcripts_held, activate, proceed, load_active, forget_grant,
}
use tinycloud_agents.HeldSessions.Reload.Fenced.{disconnected_then, disconnect-reload}
use tinycloud_agents.HeldSessions.Reload.Resting.{Event, ends, replay, HasPassed}
use tinycloud_agents.HeldSessions.Reload.Vetted.{HasRestored, replay-restores}

abbrev pub surroundings : Surroundings
surroundings = record {
  sdk = sdk;
  platform = platform;
  digest = digest;
  parse_json = parse_json;
  agent_did = "did:agent";
  equipment = equipment;
  read_revision = λ s. record { instance_id = s; sequence = 1 };
  code_says_revoked = λ s. false;
  message_says_revoked = λ s. false;
}

abbrev pub booted : Reloads
booted = record {
  scope = scope;
  sessions = SessionStore.new "j";
  leases = [];
  counts = record { restored = 0; lapsed = 0; revoked = 0; invalid = 0; deleted = 0 };
  published = [];
}

abbrev held : HeldSession
held = record {
  app_id = "tinychat";
  agent_id = "agent";
  entity_id = "entity";
  revision = "i";
  state = held_active;
  memory = some "Bearer h.m.s";
  transcripts = some "Bearer h.t.s";
  expiries = record { memory = some 40000; transcripts = some 40000 };
  room_id = none;
  revoked_at = none;
  stored_at = 40;
}

-- The last call comes first.
abbrev calls : List Event
calls =
    ends 49 (returned true)
    ∷ ends 49 (returned true)
    ∷ ends 49 (returned true)
    ∷ ends 49 (found (some (ok held)))
    ∷ []

counted :
    ((replay surroundings "entity" booted (ends 49 (returned true) ∷ calls)).0.counts.restored ≡ 1)
    × ((replay surroundings "entity" booted calls).0.counts.restored ≡ 0)
unfolding assert_well_formed granted_for granted_among service_matches covers_actions check_granted
    check_resources expiry_time validate_delegation_policy default_eliza_memory_policy
    deserialize_delegation_safe default_db_handle default_tinychat_transcript_policy check_entry
    check_exact check_all_exact validate_exact_delegation_policy validate_delegation_shape is_blank
    read_expiry has_sql_action has_sql_resource decode_jwt_payload entries parse_resource_uri
    grant_of resources_from_entries resources_from_att att_of signed_resources owner_of
    signed_owner_address member_keys lookup normalize_delegation_grants deserialize_and_normalize
    for_activation deserialize_transcript_delegation_for_activation max_grant_expiry_ms exp_claim
    signed_expiry_seconds effective_expiry within_ceiling same_owner transcript_expiry
    transcripts_checked validate_bundle strip_bearer evaluate_delegation_status memory_status
    stored_memory_status stored_transcript_status replay resume start_reload after_read is_wanted
    take_lease reload_held expired_grant_retention_ms reload_record activate_record expired_bundle
    memory_held transcripts_held held_record activate proceed load_active earliest known
    begin_restore restore guarded is_current snapshot lease key SessionStore.new key_eq revision_eq
    Map.get Map.set Map.delete
counted = (refl, refl)

replay-restores_example :
    (r : HasRestored
      (replay surroundings "entity" booted calls)
      (replay surroundings "entity" booted (ends 49 (returned true) ∷ calls))
      "entity"
      (returned true))
    × HasPassed surroundings (ends 49 (returned true) ∷ calls) r.activation
replay-restores_example =
    replay-restores surroundings "entity" booted calls 49 (returned true)
      (λ e. absurd (cc (e, counted.0, counted.1)))

disconnect-reload_example :
    resume surroundings 49
      (disconnected_then booted "entity" [])
      "entity"
      (reading none)
      (found (some (ok held)))
    ≡ (disconnected_then booted "entity" [], over done)
disconnect-reload_example =
    disconnect-reload surroundings 49 booted "entity" [] (reading none) (found (some (ok held))) tt
      refl

-- Eight days later the stored record is to be deleted.
forgotten :
    (replay surroundings "entity" booted (ends 700000000 (found (some (ok held))) ∷ [])).0.published
    ≡ "entity" ∷ []
unfolding replay resume start_reload after_read is_wanted take_lease reload_held forget_grant
    expired_grant_retention_ms earliest known begin_restore snapshot lease key SessionStore.new
    key_eq Map.get Map.set
forgotten = refl
