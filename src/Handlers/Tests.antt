-- ===== src/Handlers/Tests.antt =====
-- The handlers at a bundle of two signed grants.
use tinycloud_agents.Base.{
  ◌≡◌, refl, inr, Bool, true, false, Option, none, some, List, [], ◌∷◌, String, ◌===◌, text_eq,
  arith,
}
use tinycloud_agents.Delegation.{at, PortableDelegation, Sdk, ok}
use tinycloud_agents.Delegation.Policy.{
  assert_well_formed, granted_for, granted_among, service_matches, covers_actions, check_granted,
  check_resources, expiry_time, validate_delegation_policy, default_eliza_memory_policy,
  deserialize_delegation_safe, default_db_handle, default_tinychat_transcript_policy, check_entry,
  check_exact, check_all_exact, validate_exact_delegation_policy,
}
use tinycloud_agents.Delegation.Shape.{
  validate_delegation_shape, is_blank, read_expiry, has_sql_action, has_sql_resource,
}
use tinycloud_agents.Delegation.Text.{strip_bearer}
use tinycloud_agents.Delegation.Hash.{Digest}
use tinycloud_agents.Delegation.Status.{evaluate_delegation_status}
use tinycloud_agents.Delegation.Normalize.{
  Json, Members, Platform, decode_jwt_payload, entries, parse_resource_uri, grant_of,
  resources_from_entries, resources_from_att, att_of, signed_resources, owner_of,
  signed_owner_address, member_keys, lookup, normalize_delegation_grants, deserialize_and_normalize,
  for_activation, deserialize_transcript_delegation_for_activation,
}
use tinycloud_agents.Base.Map
use tinycloud_agents.SessionStore
use tinycloud_agents.SessionStore.{
  SessionStore, SessionScope, SessionKey, SessionLease, Revision, key_eq, revision_eq, key,
  next_revision, replace, snapshot, lease, is_current, reserve, guarded, commit, stage, fail,
  disconnect, disconnects, apply,
}
use tinycloud_agents.Handlers.{stale}
use tinycloud_agents.Handlers.Bundle.{
  BundleInput, ValidatedBundle, max_grant_expiry_ms, exp_claim, signed_expiry_seconds,
  effective_expiry, within_ceiling, same_owner, transcript_expiry, transcripts_checked,
  validate_bundle, earliest, bundle_record,
}
use tinycloud_agents.Handlers.Ceiling.{IsSound, validate_bundle-IsSound}
use tinycloud_agents.Handlers.Post.{
  Ceremony, detaching, persisting, returned, Equipment, PostSessionsBody, activates, failed,
  confirm, publish, activated, proceed, continue, resume, activate, revision_gate, body_bundle,
  reserve_and_activate, post_bundle, handle_post_sessions, waits, answers,
}
use tinycloud_agents.Handlers.Confirmed.{
  Event, ends, play, succeeds, IsConnected, play-confirms, disconnect-resume,
}
use tinycloud_agents.Handlers.Read.{
  status_text, transcript_outcome, memory_status, stored_transcript_status, with_transcripts,
  report, report_snapshot, handle_get_sessions,
}
use tinycloud_agents.Handlers.Reported.{IsServed, handle_get_sessions-IsServed}

abbrev grants : List String → Json
grants [] = Json.object Members.no_member
grants (a ∷ as_) = Json.object (members (a ∷ as_))
  where
    members : List String → Members
    members [] = Members.no_member
    members (b ∷ bs) = Members.member b Json.null (members bs)

abbrev memory_actions : List String
memory_actions = "tinycloud.sql/read" ∷ "tinycloud.sql/write" ∷ "tinycloud.sql/admin" ∷ []

abbrev payload_of : Members → Json
payload_of att = Json.object (
    Members.member "att" (Json.object att)
      (Members.member "exp" (Json.number 40) Members.no_member))

abbrev memory_payload : Json
memory_payload = payload_of (
    Members.member "space/sql/xyz.tinycloud.eliza/memory" (grants memory_actions) Members.no_member)

abbrev transcript_payload : Json
transcript_payload = payload_of (
    Members.member "space/sql/xyz.tinycloud.tinychat/connectors"
      (grants ("tinycloud.sql/read" ∷ []))
      (Members.member "space/kv/xyz.tinycloud.tinychat/connectors/"
        (grants ("tinycloud.kv/get" ∷ "tinycloud.kv/list" ∷ [])) Members.no_member))

abbrev either : {A : Type 0} → Bool → A → A → A
either true a b = a
either false a b = b

abbrev pub platform : Platform
platform = record {
  parse_segment =
      λ segment. either (segment === "m") (some memory_payload) (some transcript_payload);
  print_index = λ i. "0";
  parse_space_uri = λ space. some (some "0xab");
  lower = λ s. s;
}

abbrev granted_by : String → PortableDelegation
granted_by token = record {
  owner_address = some "0xab";
  delegate_did = some "did:agent";
  expiry = at 50;
  path = "xyz.tinycloud.eliza/memory";
  actions = memory_actions;
  resources = none;
  authorization = some token;
  cid = "";
}

-- A serialized delegation is its token here.
abbrev pub sdk : Sdk
sdk = record {
  expand = λ service actions. actions;
  principals_equal = λ a b. a === b;
  deserialize = λ s. some (granted_by s);
  sql_read = "tinycloud.sql/read";
  sql_write = "tinycloud.sql/write";
  sql_admin = "tinycloud.sql/admin";
  capabilities_read = "tinycloud.capabilities/read";
}

abbrev pub parse_json : String → Option Json
parse_json serialized = some (
    Json.object (
      Members.member "delegationHeader"
        (Json.object (Members.member "Authorization" (Json.text serialized) Members.no_member))
        Members.no_member))

abbrev pub digest : Digest
digest = record { stringify = λ rs. ""; sha256 = λ s. s }

abbrev input : BundleInput
input = record { memory = "Bearer h.m.s"; transcripts = some "Bearer h.t.s"; room_id = none }

-- The signed claims, at 40 seconds, are later than the summaries.
abbrev pub bundle : ValidatedBundle
bundle = record {
  memory = "Bearer h.m.s";
  transcripts = some "Bearer h.t.s";
  room_id = none;
  expiries = record { memory = some 40000; transcripts = some 40000 };
}

passes : validate_bundle sdk platform parse_json input "did:agent" 49 ≡ ok bundle
unfolding assert_well_formed granted_for granted_among service_matches covers_actions check_granted
    check_resources expiry_time validate_delegation_policy default_eliza_memory_policy
    deserialize_delegation_safe default_db_handle default_tinychat_transcript_policy check_entry
    check_exact check_all_exact validate_exact_delegation_policy validate_delegation_shape is_blank
    read_expiry has_sql_action has_sql_resource decode_jwt_payload entries parse_resource_uri
    grant_of resources_from_entries resources_from_att att_of signed_resources owner_of
    signed_owner_address member_keys lookup normalize_delegation_grants deserialize_and_normalize
    for_activation deserialize_transcript_delegation_for_activation max_grant_expiry_ms exp_claim
    signed_expiry_seconds effective_expiry within_ceiling same_owner transcript_expiry
    transcripts_checked validate_bundle strip_bearer
passes = refl

validate_bundle-IsSound_example : IsSound sdk platform parse_json "did:agent" 49 input bundle
validate_bundle-IsSound_example =
    validate_bundle-IsSound sdk platform parse_json "did:agent" 49 input bundle passes

abbrev pub scope : SessionScope
scope = record { app_id = "tinychat"; agent_id = "agent" }

abbrev first_revision : Revision
first_revision = record { instance_id = "i"; sequence = 1 }

abbrev second_revision : Revision
second_revision = record { instance_id = "i"; sequence = 2 }

abbrev pub entity_key : SessionKey
entity_key = record { app_id = "tinychat"; agent_id = "agent"; entity_id = "entity" }

abbrev body : PostSessionsBody
body = record {
  agent_id = "agent";
  entity_id = "entity";
  serialized_delegation = none;
  room_id = none;
  revision = some first_revision;
  session = some (record {
    version = 2;
    memory = some "Bearer h.m.s";
    transcripts = some "Bearer h.t.s";
    room_id = none;
  });
}

abbrev pub equipment : Equipment
equipment = record {
  disconnects = true;
  registers_transcripts = true;
  checks_access = true;
  persists = true;
}

abbrev ceremony : Ceremony
ceremony = record {
  agent_id = "agent";
  entity_id = "entity";
  lease = record { key = entity_key; revision = second_revision; active = false };
  bundle = bundle;
  persists = true;
}

-- The store after the entity has been asked for.
abbrev asked : SessionStore
asked = (snapshot (SessionStore.new "i") entity_key).0

abbrev reserved : SessionStore
reserved = (reserve asked entity_key (some first_revision)).0

begins :
    handle_post_sessions sdk platform parse_json equipment asked scope body "did:agent" 49
    ≡ (reserved, activates ceremony (waits detaching))
unfolding assert_well_formed granted_for granted_among service_matches covers_actions check_granted
    check_resources expiry_time validate_delegation_policy default_eliza_memory_policy
    deserialize_delegation_safe default_db_handle default_tinychat_transcript_policy check_entry
    check_exact check_all_exact validate_exact_delegation_policy validate_delegation_shape is_blank
    read_expiry has_sql_action has_sql_resource decode_jwt_payload entries parse_resource_uri
    grant_of resources_from_entries resources_from_att att_of signed_resources owner_of
    signed_owner_address member_keys lookup normalize_delegation_grants deserialize_and_normalize
    for_activation deserialize_transcript_delegation_for_activation max_grant_expiry_ms exp_claim
    signed_expiry_seconds effective_expiry within_ceiling same_owner transcript_expiry
    transcripts_checked validate_bundle strip_bearer handle_post_sessions post_bundle revision_gate
    body_bundle reserve_and_activate activate snapshot reserve replace next_revision lease key
    SessionStore.new failed key_eq revision_eq Map.get Map.set
begins = refl

abbrev all_return : List Event
all_return =
    ends (returned true)
    ∷ ends (returned true)
    ∷ ends (returned true)
    ∷ ends (returned true)
    ∷ ends (returned true)
    ∷ []

play-confirms_example :
    (succeeds true detaching all_return ≡ true)
    × IsConnected ceremony (play ceremony reserved detaching all_return).0
unfolding play resume continue proceed activated publish confirm is_current commit stage guarded
    snapshot reserve replace next_revision lease SessionStore.new key_eq revision_eq Map.get Map.set
play-confirms_example = play-confirms ceremony reserved detaching all_return refl

abbrev gone : SessionStore
gone = (disconnect reserved entity_key).0

disconnect-resume_example : resume ceremony gone persisting (returned true) ≡ (gone, answers stale)
unfolding SessionStore.run reserve replace next_revision snapshot lease SessionStore.new key_eq
    revision_eq Map.get Map.set
disconnect-resume_example =
    disconnect-resume ceremony reserved [] persisting (returned true) (inr (omega arith)) refl

abbrev connected : SessionStore
connected = (commit reserved entity_key ceremony.lease (bundle_record "agent" bundle)).0

handle_get_sessions-IsServed_example :
    IsServed sdk platform digest "did:agent" 49 (snapshot connected (key scope "entity")).1 true
unfolding assert_well_formed granted_for granted_among service_matches covers_actions check_granted
    check_resources expiry_time validate_delegation_policy default_eliza_memory_policy
    deserialize_delegation_safe default_db_handle default_tinychat_transcript_policy is_blank
    decode_jwt_payload entries parse_resource_uri grant_of resources_from_entries resources_from_att
    att_of signed_resources member_keys lookup normalize_delegation_grants for_activation
    deserialize_transcript_delegation_for_activation strip_bearer bundle_record earliest
    evaluate_delegation_status status_text transcript_outcome memory_status stored_transcript_status
    with_transcripts report report_snapshot handle_get_sessions commit guarded is_current snapshot
    reserve replace next_revision lease key SessionStore.new key_eq revision_eq Map.get Map.set
handle_get_sessions-IsServed_example =
    handle_get_sessions-IsServed sdk platform digest "did:agent" 49 connected scope "entity" true
      refl refl
