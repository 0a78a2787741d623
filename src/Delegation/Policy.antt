-- ===== src/Delegation/Policy.antt =====
-- delegation-policy.ts: the checks of a delegation against a policy, in their order.
use tinycloud_agents.Base.{
  ℕ, Bool, true, false, ◌&&◌, ◌||◌, not, Option, none, some, List, [], ◌∷◌, String, leb, any, all,
  if◌then◌else◌, ◌===◌, text_eq,
}
use tinycloud_agents.Delegation.{
  Expiry, absent, null_expiry, invalid, at, GrantResource, PortableDelegation, PolicyResource,
  DelegationPolicy, Sdk, Reason, malformed, wrong_delegatee, expired, missing_sql_resource,
  wrong_db_handle, insufficient_actions, Checked, ok, err, ◌>>=◌, ◌>>◌, passed, unless,
}

unfoldable pub default_db_handle : String
default_db_handle = "xyz.tinycloud.eliza/memory"

-- `Set.has` and `Array.includes`.
abbrev pub includes : List String → String → Bool
includes xs a = any (λ x. x === a) xs

-- `Array.find`.
abbrev pub find {ℓ} : {A : Type ℓ} → (A → Bool) → List A → Option A
find p [] = none
find p (x ∷ xs) = if p x then some x else find p xs

unfoldable pub service_matches : String → PolicyResource → Bool
service_matches service r = service === r.service_short || service === r.service_long

-- `new Date(expiry)`, `none` where its time is NaN; `new Date(null)` is the epoch.
unfoldable pub expiry_time : Expiry → Option ℕ
expiry_time absent = none
expiry_time null_expiry = some 0
expiry_time invalid = none
expiry_time (at t) = some t

-- `!s`: a text that is missing or empty.
abbrev pub falsy : Option String → Bool
falsy none = true
falsy (some s) = s === ""

abbrev pub text_or_empty : Option String → String
text_or_empty none = ""
text_or_empty (some s) = s

module _ (sdk : Sdk) where
  unfoldable pub deserialize_delegation_safe : String → Checked Reason PortableDelegation
  deserialize_delegation_safe serialized = elim (sdk.deserialize serialized) [
    | some d ↦ ok d
    | none ↦ err malformed
  ]

  unfoldable pub default_eliza_memory_policy : String → DelegationPolicy
  default_eliza_memory_policy db_handle = record {
    resources =
        record {
          service_long = "tinycloud.sql";
          service_short = "sql";
          path = db_handle;
          required_actions = sdk.sql_read ∷ sdk.sql_write ∷ sdk.sql_admin ∷ [];
          required = true;
          any_path = false;
        }
        ∷ record {
          service_long = "tinycloud.capabilities";
          service_short = "capabilities";
          path = "";
          required_actions = sdk.capabilities_read ∷ [];
          required = false;
          any_path = false;
        }
        ∷ [];
  }

  unfoldable pub default_tinychat_transcript_policy : DelegationPolicy
  default_tinychat_transcript_policy = record {
    resources =
        record {
          service_long = "tinycloud.sql";
          service_short = "sql";
          path = "xyz.tinycloud.tinychat/connectors";
          required_actions = sdk.sql_read ∷ [];
          required = true;
          any_path = false;
        }
        ∷ record {
          service_long = "tinycloud.kv";
          service_short = "kv";
          path = "xyz.tinycloud.tinychat/connectors/";
          required_actions = "tinycloud.kv/get" ∷ "tinycloud.kv/list" ∷ [];
          required = true;
          any_path = false;
        }
        ∷ record {
          service_long = "tinycloud.capabilities";
          service_short = "capabilities";
          path = "";
          required_actions = sdk.capabilities_read ∷ [];
          required = false;
          any_path = true;
        }
        ∷ [];
  }

-- `assertWellFormed`, with the expiry that it has found valid.
unfoldable pub assert_well_formed : PortableDelegation → Checked Reason ℕ
assert_well_formed d =
    if falsy d.delegate_did
    then err malformed
    else elim (expiry_time d.expiry) [ none ↦ err malformed | some t ↦ ok t ]

-- The path and the actions that the delegation grants for a policy resource: of the first resource
-- with its service, or, in the flat shape, of the delegation itself.
unfoldable pub granted_among :
    Option (List GrantResource)
    → PortableDelegation
    → PolicyResource
    → Option (String × List String)
granted_among none d r = some (d.path, d.actions)
granted_among (some granted) d r = elim (find (λ g. service_matches g.service r) granted) [
  | none ↦ none
  | some g ↦ some (g.path, g.actions)
]

unfoldable pub granted_for : PortableDelegation → PolicyResource → Option (String × List String)
granted_for d r = granted_among d.resources d r

abbrev pub resources_or_empty : Option (List GrantResource) → List GrantResource
resources_or_empty none = []
resources_or_empty (some gs) = gs

module _ (sdk : Sdk) where
  -- `normalizedRequired.filter(a => !normalizedGranted.has(a))` is empty.
  unfoldable pub covers_actions : String → List String → List String → Bool
  covers_actions service required granted =
      all (includes (sdk.expand service granted)) (sdk.expand service required)

  unfoldable pub check_granted :
      PolicyResource → Option (String × List String) → Checked Reason (Unit {0})
  check_granted r none = err missing_sql_resource
  check_granted r (some (path, actions)) = do
    unless (path === r.path) wrong_db_handle
    unless (covers_actions r.service_long r.required_actions actions) insufficient_actions

  -- The loop over the policy's resources.
  unfoldable pub check_resources :
      PortableDelegation → List PolicyResource → Checked Reason (Unit {0})
  check_resources d [] = passed
  check_resources d (r ∷ rs) =
      if not r.required
      then check_resources d rs
      else check_granted r (granted_for d r) >> check_resources d rs

  unfoldable pub validate_delegation_policy :
      PortableDelegation → String → DelegationPolicy → ℕ → Checked Reason (Unit {0})
  validate_delegation_policy d agent_did policy now = do
    expiry ← assert_well_formed d
    unless (sdk.principals_equal (text_or_empty d.delegate_did) agent_did) wrong_delegatee
    unless (not (leb expiry now)) expired
    check_resources d policy.resources

  -- One granted resource against the policy's entry for its service.
  unfoldable pub check_entry : GrantResource → Option PolicyResource → Checked Reason (Unit {0})
  check_entry g none = err malformed
  check_entry g (some r) =
      if not r.any_path && not (g.path === r.path)
      then err malformed
      else unless
          (all (includes (sdk.expand r.service_long r.required_actions))
            (sdk.expand r.service_long g.actions))
          insufficient_actions

  unfoldable pub check_exact : List PolicyResource → GrantResource → Checked Reason (Unit {0})
  check_exact policy g = check_entry g (find (λ r. service_matches g.service r) policy)

  unfoldable pub check_all_exact :
      List PolicyResource → List GrantResource → Checked Reason (Unit {0})
  check_all_exact policy [] = passed
  check_all_exact policy (g ∷ gs) = check_exact policy g >> check_all_exact policy gs

  unfoldable pub validate_exact_delegation_policy :
      PortableDelegation → String → DelegationPolicy → ℕ → Checked Reason (Unit {0})
  validate_exact_delegation_policy d agent_did policy now = do
    validate_delegation_policy d agent_did policy now
    check_all_exact policy.resources (resources_or_empty d.resources)
