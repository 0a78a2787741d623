-- ===== src/Delegation/Status.antt =====
-- delegation-policy.ts: evaluateDelegationStatus.
use tinycloud_agents.Base.{ℕ, Option, none, some, String, if◌then◌else◌, ◌===◌, text_eq}
use tinycloud_agents.Delegation.{
  PortableDelegation, DelegationPolicy, Sdk, Reason, malformed, wrong_delegatee, expired,
  missing_sql_resource, wrong_db_handle, insufficient_actions, Checked, ok, err,
}
use tinycloud_agents.Delegation.Policy.{validate_delegation_policy}
use tinycloud_agents.Delegation.Hash.{Digest, compute_policy_hash}

pub data DelegationStatus : Type 0 where
  status_active status_expired status_stale status_none : DelegationStatus

-- The error of the validator: an expiry is a status, all others are thrown on.
abbrev pub status_of_error : Reason → Checked Reason DelegationStatus
status_of_error expired = ok status_expired
status_of_error malformed = err malformed
status_of_error wrong_delegatee = err wrong_delegatee
status_of_error missing_sql_resource = err missing_sql_resource
status_of_error wrong_db_handle = err wrong_db_handle
status_of_error insufficient_actions = err insufficient_actions

abbrev pub fits_hash : Option String → String → DelegationStatus
fits_hash none computed = status_active
fits_hash (some stored) computed = if stored === computed then status_active else status_stale

unfoldable pub evaluate_delegation_status :
    Sdk
    → Digest
    → Option PortableDelegation
    → DelegationPolicy
    → String
    → Option String
    → ℕ
    → Checked Reason DelegationStatus
evaluate_delegation_status sdk digest none policy agent_did stored_hash now = ok status_none
evaluate_delegation_status sdk digest (some d) policy agent_did stored_hash now =
    elim (validate_delegation_policy sdk d agent_did policy now) [
      | err reason ↦ status_of_error reason
      | ok u ↦ ok (fits_hash stored_hash (compute_policy_hash digest policy agent_did))
    ]
