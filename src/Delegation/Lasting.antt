-- ===== src/Delegation/Lasting.antt =====
-- A delegation that is refused stays refused: the checks of delegation-validate.ts and of
-- delegation-policy.ts as time goes on.
use tinycloud_agents.Base.{ℕ, ◌≤◌, ◌≡◌, ◌⊎◌, String, arith}
use tinycloud_agents.Delegation.{PortableDelegation, DelegationPolicy, Sdk, Reason, expired, err}
use tinycloud_agents.Delegation.Policy.{validate_delegation_policy, assert_well_formed}
use tinycloud_agents.Delegation.Shape.{ShapeError, has_expired, validate_delegation_shape}

module _ (d : PortableDelegation) (agent_did : String) (now later : ℕ) (after : now ≤ later) where
  -- Where the policy check throws at one time, it throws at every later one, the same error or
  -- that the delegation has expired.
  policy_refusal_lasts :
      (sdk : Sdk) (policy : DelegationPolicy) (e : Reason)
      → validate_delegation_policy sdk d agent_did policy now ≡ err e
      → (validate_delegation_policy sdk d agent_did policy later ≡ err e)
        ⊎ (validate_delegation_policy sdk d agent_did policy later ≡ err expired)
  unfolding validate_delegation_policy assert_well_formed
  policy_refusal_lasts sdk policy e refused = ground arith

  -- Where the shape check throws at one time, it throws at every later one, the same error or that
  -- the delegation has expired.
  shape_refusal_lasts :
      (e : ShapeError)
      → validate_delegation_shape d agent_did now ≡ err e
      → (validate_delegation_shape d agent_did later ≡ err e)
        ⊎ (validate_delegation_shape d agent_did later ≡ err has_expired)
  unfolding validate_delegation_shape
  shape_refusal_lasts e refused = ground arith
