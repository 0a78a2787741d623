-- ===== src/Delegation/Transport/Tests.antt =====
-- The sign-in of a delegated transport at a concrete delegation.
use tinycloud_agents.Base.{
  ◌≡◌, refl, Bool, true, false, Option, none, some, List, [], ◌∷◌, String, ◌===◌, text_eq,
}
use tinycloud_agents.Delegation.{at, PortableDelegation, Sdk, wrong_db_handle}
use tinycloud_agents.Delegation.Text.{strip_bearer}
use tinycloud_agents.Delegation.Policy.{
  assert_well_formed, granted_for, granted_among, service_matches, covers_actions, check_granted,
  check_resources, expiry_time, validate_delegation_policy, default_eliza_memory_policy,
  deserialize_delegation_safe,
}
use tinycloud_agents.Delegation.Shape.{
  validate_delegation_shape, is_blank, read_expiry, has_sql_action, has_sql_resource,
}
use tinycloud_agents.Delegation.Normalize.{
  Json, Members, Platform, decode_jwt_payload, entries, parse_resource_uri, grant_of,
  resources_from_entries, resources_from_att, att_of, signed_resources, owner_of,
  signed_owner_address, member_keys, lookup, normalize_delegation_grants,
}
use tinycloud_agents.Delegation.Transport.{
  AgentIdentity, DelegationConfig, Files, Prepared, activates, fails, bad_policy, new,
  serialized_source, agent_identity, owner_agrees, prepare, sign_in,
}
use tinycloud_agents.Delegation.Transport.Vetting.{IsVetted, sign_in-IsVetted}

abbrev abilities : Members
abilities = Members.member "tinycloud.sql/read" Json.null (
    Members.member "tinycloud.sql/write" Json.null
      (Members.member "tinycloud.sql/admin" Json.null Members.no_member))

-- A payload that grants the database `db`.
abbrev payload : Json
payload = Json.object (
    Members.member "att"
      (Json.object (Members.member "space/sql/db" (Json.object abilities) Members.no_member))
      Members.no_member)

abbrev platform : Platform
platform = record {
  parse_segment = λ segment. if_payload (segment === "p");
  print_index = λ i. "0";
  parse_space_uri = λ space. some (some "0xab");
  lower = λ s. s;
}
  where
    if_payload : Bool → Option Json
    if_payload true = some payload
    if_payload false = none

-- The unsigned summary claims other grants than the signed part.
abbrev claimed : PortableDelegation
claimed = record {
  owner_address = some "0xab";
  delegate_did = some "did:agent";
  expiry = at 50;
  path = "";
  actions = "tinycloud.kv/put" ∷ [];
  resources = none;
  authorization = some "bearer  h.p.s";
  cid = "";
}

abbrev sdk : Sdk
sdk = record {
  expand = λ service actions. actions;
  principals_equal = λ a b. a === b;
  deserialize = λ s. some claimed;
  sql_read = "tinycloud.sql/read";
  sql_write = "tinycloud.sql/write";
  sql_admin = "tinycloud.sql/admin";
  capabilities_read = "tinycloud.capabilities/read";
}

abbrev agent : AgentIdentity
agent = record { did = "did:agent"; normalized_key = "k" }

abbrev files : Files
files = record {
  read_file = λ path. none;
  identity_from_key = λ key. some agent;
  identity_from_file = λ path. none;
}

abbrev config_for : String → DelegationConfig
config_for db_handle = record {
  serialized_delegation = some "d";
  delegation_file = none;
  agent_key = some "k";
  agent_key_file = none;
  db_handle = db_handle;
}

abbrev sql_actions : List String
sql_actions = "tinycloud.sql/read" ∷ "tinycloud.sql/write" ∷ "tinycloud.sql/admin" ∷ []

abbrev prepared : Prepared
prepared = record {
  delegation = record claimed {
    resources =
        some (record { service = "sql"; space = "space"; path = "db"; actions = sql_actions } ∷ []);
    actions = sql_actions;
  };
  identity = agent;
  signed_address = some "0xab";
}

signs_in : sign_in sdk platform files (config_for "db") 49 new ≡ activates prepared
unfolding assert_well_formed granted_for granted_among service_matches covers_actions check_granted
    check_resources expiry_time validate_delegation_policy default_eliza_memory_policy
    deserialize_delegation_safe validate_delegation_shape is_blank read_expiry has_sql_action
    has_sql_resource decode_jwt_payload entries parse_resource_uri grant_of resources_from_entries
    resources_from_att att_of signed_resources owner_of signed_owner_address member_keys lookup
    normalize_delegation_grants serialized_source agent_identity owner_agrees prepare sign_in new
    strip_bearer
signs_in = refl

other_database :
    sign_in sdk platform files (config_for "other") 49 new ≡ fails (bad_policy wrong_db_handle)
unfolding assert_well_formed granted_for granted_among service_matches covers_actions check_granted
    check_resources expiry_time validate_delegation_policy default_eliza_memory_policy
    deserialize_delegation_safe validate_delegation_shape is_blank read_expiry has_sql_action
    has_sql_resource decode_jwt_payload entries parse_resource_uri grant_of resources_from_entries
    resources_from_att att_of signed_resources signed_owner_address member_keys lookup
    normalize_delegation_grants serialized_source agent_identity prepare sign_in new strip_bearer
other_database = refl

sign_in-IsVetted_example : IsVetted sdk platform files (config_for "db") 49 prepared
sign_in-IsVetted_example =
    sign_in-IsVetted sdk platform files (config_for "db") 49 new prepared signs_in
