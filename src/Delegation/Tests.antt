-- ===== src/Delegation/Tests.antt =====
-- The theorems about delegations at concrete delegations, and runs of the checks.
use tinycloud_agents.Base.{
  ◌≡◌, ◌↔◌, refl, true, false, none, some, List, [], ◌∷◌, String, map, All, if◌then◌else◌, ◌===◌,
  text_eq,
}
use tinycloud_agents.Delegation.{
  at, GrantResource, PolicyResource, PortableDelegation, DelegationPolicy, Sdk, expired,
  wrong_db_handle, insufficient_actions, ok, err,
}
use tinycloud_agents.Delegation.Policy.{
  assert_well_formed, granted_for, granted_among, service_matches, covers_actions, check_granted,
  check_resources, check_entry, check_exact, check_all_exact, expiry_time,
  validate_delegation_policy, validate_exact_delegation_policy, default_eliza_memory_policy,
  default_tinychat_transcript_policy, resources_or_empty,
}
use tinycloud_agents.Delegation.Hash.{CanonicalResource, canonical, sort_by, insert_by}
use tinycloud_agents.Delegation.Covers.{
  Answers, Accepts, Refuses, validate_delegation_policy-Answers,
}
use tinycloud_agents.Delegation.Shape.{
  other_delegate, no_sql, validate_delegation_shape, validate_delegation_shape_iff, IsShaped,
  is_blank, read_expiry, has_sql_action, has_sql_resource,
}
use tinycloud_agents.Delegation.Accepted.{validate_delegation_policy_iff}
use tinycloud_agents.Delegation.Exact.{Permits, validate_exact_delegation_policy_iff}

-- Knows one short name.
abbrev sdk : Sdk
sdk = record {
  expand = λ service actions. map (λ a. if a === "get" then "tinycloud.kv/get" else a) actions;
  principals_equal = λ a b. a === b;
  deserialize = λ s. none;
  sql_read = "tinycloud.sql/read";
  sql_write = "tinycloud.sql/write";
  sql_admin = "tinycloud.sql/admin";
  capabilities_read = "tinycloud.capabilities/read";
}

abbrev sql_grant : List String → GrantResource
sql_grant actions = record {
  service = "sql";
  space = "s";
  path = "xyz.tinycloud.tinychat/connectors";
  actions = actions;
}

abbrev kv_grant : GrantResource
kv_grant = record {
  service = "tinycloud.kv";
  space = "s";
  path = "xyz.tinycloud.tinychat/connectors/";
  actions = "get" ∷ "tinycloud.kv/list" ∷ [];
}

abbrev listing : List GrantResource → PortableDelegation
listing resources = record {
  owner_address = some "0x1";
  delegate_did = some "did:agent";
  expiry = at 50;
  path = "";
  actions = [];
  resources = some resources;
  authorization = none;
  cid = "";
}

abbrev transcript : DelegationPolicy
transcript = default_tinychat_transcript_policy sdk

abbrev good : PortableDelegation
good = listing (sql_grant ("tinycloud.sql/read" ∷ []) ∷ kv_grant ∷ [])

abbrev too_much : PortableDelegation
too_much = listing (sql_grant ("tinycloud.sql/read" ∷ "tinycloud.sql/write" ∷ []) ∷ kv_grant ∷ [])

good_passes : validate_exact_delegation_policy sdk good "did:agent" transcript 49 ≡ ok tt
unfolding assert_well_formed granted_for granted_among service_matches covers_actions check_granted
    check_resources check_entry check_exact check_all_exact expiry_time validate_delegation_policy
    validate_exact_delegation_policy default_tinychat_transcript_policy
good_passes = refl

good_expires : validate_exact_delegation_policy sdk good "did:agent" transcript 50 ≡ err expired
unfolding assert_well_formed expiry_time validate_delegation_policy validate_exact_delegation_policy
good_expires = refl

too_much_is_enough : validate_delegation_policy sdk too_much "did:agent" transcript 49 ≡ ok tt
unfolding assert_well_formed granted_for granted_among service_matches covers_actions check_granted
    check_resources expiry_time validate_delegation_policy default_tinychat_transcript_policy
too_much_is_enough = refl

too_much_is_refused :
    validate_exact_delegation_policy sdk too_much "did:agent" transcript 49
    ≡ err insufficient_actions
unfolding assert_well_formed granted_for granted_among service_matches covers_actions check_granted
    check_resources check_entry check_exact check_all_exact expiry_time validate_delegation_policy
    validate_exact_delegation_policy default_tinychat_transcript_policy
too_much_is_refused = refl

memory_wants_its_path :
    validate_delegation_policy sdk good "did:agent" (default_eliza_memory_policy sdk "db") 49
    ≡ err wrong_db_handle
unfolding assert_well_formed granted_for granted_among service_matches check_granted check_resources
    expiry_time validate_delegation_policy default_eliza_memory_policy
memory_wants_its_path = refl

validate_delegation_policy-Answers_example :
    Answers
      (Accepts sdk good "did:agent" transcript 49)
      (Refuses sdk good "did:agent" transcript 49)
      (validate_delegation_policy sdk good "did:agent" transcript 49)
validate_delegation_policy-Answers_example =
    validate_delegation_policy-Answers sdk good "did:agent" transcript 49

validate_delegation_policy_iff_example :
    (validate_delegation_policy sdk too_much "did:agent" transcript 49 ≡ ok tt)
    ↔ Accepts sdk too_much "did:agent" transcript 49
validate_delegation_policy_iff_example =
    validate_delegation_policy_iff sdk too_much "did:agent" transcript 49

validate_exact_delegation_policy_iff_example :
    (validate_exact_delegation_policy sdk good "did:agent" transcript 49 ≡ ok tt) ↔ (
      Accepts sdk good "did:agent" transcript 49
      × All (Permits sdk transcript.resources) (resources_or_empty good.resources))
validate_exact_delegation_policy_iff_example =
    validate_exact_delegation_policy_iff sdk good "did:agent" transcript 49

abbrev flat : PortableDelegation
flat = record {
  owner_address = some "0x1";
  delegate_did = some "did:agent";
  expiry = at 50;
  path = "xyz.tinycloud.tinychat/connectors";
  actions = "tinycloud.sql/read" ∷ [];
  resources = none;
  authorization = none;
  cid = "";
}

validate_delegation_shape_iff_example :
    (validate_delegation_shape flat "did:agent" 49 ≡ ok tt) ↔ IsShaped flat "did:agent" 49
validate_delegation_shape_iff_example = validate_delegation_shape_iff flat "did:agent" 49

flat_is_shaped : validate_delegation_shape flat "did:agent" 49 ≡ ok tt
unfolding validate_delegation_shape is_blank read_expiry has_sql_action has_sql_resource
flat_is_shaped = refl

wrong_path : validate_delegation_policy sdk flat "did:agent" transcript 49 ≡ err wrong_db_handle
unfolding assert_well_formed granted_for granted_among service_matches covers_actions check_granted
    check_resources expiry_time validate_delegation_policy default_tinychat_transcript_policy
wrong_path = refl

-- A list whose second SQL resource covers the policy, and whose first one has another path.
abbrev other_first : PortableDelegation
other_first = listing (
    record (sql_grant ("tinycloud.sql/read" ∷ [])) { path = "other" }
    ∷ sql_grant ("tinycloud.sql/read" ∷ [])
    ∷ kv_grant
    ∷ [])

first_one_decides :
    validate_delegation_policy sdk other_first "did:agent" transcript 49 ≡ err wrong_db_handle
unfolding assert_well_formed granted_for granted_among service_matches covers_actions check_granted
    check_resources expiry_time validate_delegation_policy default_tinychat_transcript_policy
first_one_decides = refl

-- The long name of SQL is no SQL resource to the shape check.
abbrev long_name : PortableDelegation
long_name = listing (record (sql_grant ("read" ∷ [])) { service = "tinycloud.sql" } ∷ [])

long_name_is_refused : validate_delegation_shape long_name "did:agent" 49 ≡ err no_sql
unfolding validate_delegation_shape is_blank read_expiry has_sql_action has_sql_resource
long_name_is_refused = refl

shape_of_stranger : validate_delegation_shape flat "did:other" 49 ≡ err other_delegate
unfolding validate_delegation_shape is_blank
shape_of_stranger = refl

-- Two entries with one sort key keep their order, so that reordering them changes the canonical
-- form, and with it what is hashed.
abbrev reading : PolicyResource
reading = record {
  service_long = "tinycloud.sql";
  service_short = "sql";
  path = "db";
  required_actions = "read" ∷ [];
  required = true;
  any_path = false;
}

abbrev writing : PolicyResource
writing = record reading { required_actions = "write" ∷ [] }

keeps_order :
    map
      (λ (r : CanonicalResource). r.required_actions)
      (canonical (record { resources = reading ∷ writing ∷ [] }))
    ≡ ("read" ∷ []) ∷ ("write" ∷ []) ∷ []
unfolding canonical sort_by insert_by
keeps_order = refl

keeps_other_order :
    map
      (λ (r : CanonicalResource). r.required_actions)
      (canonical (record { resources = writing ∷ reading ∷ [] }))
    ≡ ("write" ∷ []) ∷ ("read" ∷ []) ∷ []
unfolding canonical sort_by insert_by
keeps_other_order = refl
