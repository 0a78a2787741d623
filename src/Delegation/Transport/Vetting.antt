-- ===== src/Delegation/Transport/Vetting.antt =====
-- A delegation is activated only if it has passed every check, on what its signed part grants.
use tinycloud_agents.Base.{ℕ, ◌≡◌, sym, subst, true, some, List, String, distinct, arith}
use tinycloud_agents.Delegation.{
  GrantResource, PortableDelegation, Sdk, malformed, Checked, ok, err, unless,
}
use tinycloud_agents.Delegation.Chains.{bind_ok, unless_ok, ok_inv}
use tinycloud_agents.Delegation.Shape.{
  validate_delegation_shape, IsShaped, validate_delegation_shape_iff,
}
use tinycloud_agents.Delegation.Policy.{
  deserialize_delegation_safe, default_eliza_memory_policy, validate_delegation_policy,
}
use tinycloud_agents.Delegation.Normalize.{
  Platform, signed_resources, all_actions, normalize_delegation_grants, signed_owner_address,
}
use tinycloud_agents.Delegation.Covers.{Accepts}
use tinycloud_agents.Delegation.Accepted.{validate_delegation_policy_iff}
use tinycloud_agents.Delegation.Transport.{
  DelegationConfig, AgentIdentity, Files, Failure, failing, Prepared, DelegatedTransport, activates,
  serialized_source, agent_identity, owner_agrees, prepare, sign_in, bad_policy, bad_shape,
}

failing_ok :
    {E A : Type 0} (g : E → Failure) (m : Checked E A) (a : A) → failing g m ≡ ok a → m ≡ ok a
failing_ok g (ok x) a e = cc e
failing_ok g (err x) a e = absurd (cc e)

prepared_is : (p q : Prepared) → ◌≡◌ {A = Checked Failure Prepared} (ok p) (ok q) → p ≡ q
prepared_is p q e = cc e

module _ (sdk : Sdk) (platform : Platform) (files : Files) (config : DelegationConfig)
    (now : ℕ) where
  -- What holds of a delegation that is handed to the activator. Its grants are those of the signed
  -- part of what was parsed; the delegation passes the shape check and the policy for the database;
  -- and the owner that it claims is the signed one, where both are given.
  pub record IsVetted (p : Prepared) : Type 0 where
    pub serialized : String
    pub parsed : PortableDelegation
    pub grants : List GrantResource
    pub source : serialized_source sdk platform files config ≡ ok serialized
    pub read : deserialize_delegation_safe sdk serialized ≡ ok parsed
    pub signed : signed_resources platform parsed.authorization ≡ ok grants
    pub from_signed : p.delegation ≡ record parsed {
      resources = some grants;
      actions = distinct (all_actions platform grants);
    }
    pub shaped : IsShaped p.delegation p.identity.did now
    pub accepted :
        Accepts sdk p.delegation p.identity.did
          (default_eliza_memory_policy sdk config.db_handle)
          now
    pub owner :
        owner_agrees sdk platform files config
          (signed_owner_address platform p.delegation)
          p.delegation.owner_address
        ≡ true

  Normalized : PortableDelegation → PortableDelegation → Type 0
  Normalized parsed d =
      (grants : List GrantResource) × (signed_resources platform parsed.authorization ≡ ok grants)
      × (d ≡ record parsed {
        resources = some grants;
        actions = distinct (all_actions platform grants);
      })

  normalized :
      (parsed d : PortableDelegation)
      → normalize_delegation_grants platform parsed ≡ ok d
      → Normalized parsed d
  unfolding normalize_delegation_grants Normalized
  normalized parsed d e =
      let (grants, signed, rest) = bind_ok (signed_resources platform parsed.authorization) _ d e in
      (grants, signed, sym (ok_inv _ d rest))

  assemble :
      (serialized : String) (parsed d : PortableDelegation) (identity : AgentIdentity)
      → serialized_source sdk platform files config ≡ ok serialized
      → deserialize_delegation_safe sdk serialized ≡ ok parsed
      → Normalized parsed d
      → validate_delegation_shape d identity.did now ≡ ok tt
      → validate_delegation_policy sdk d identity.did
          (default_eliza_memory_policy sdk config.db_handle)
          now
        ≡ ok tt
      → owner_agrees sdk platform files config (signed_owner_address platform d) d.owner_address
        ≡ true
      → IsVetted (record {
        delegation = d;
        identity = identity;
        signed_address = signed_owner_address platform d;
      })
  unfolding Normalized
  assemble serialized parsed d identity source read (grants, signed, from_signed) shape policy
        owner =
      record {
        serialized = serialized;
        parsed = parsed;
        grants = grants;
        source = source;
        read = read;
        signed = signed;
        from_signed = from_signed;
        shaped = (validate_delegation_shape_iff d identity.did now).0 shape;
        accepted =
            (validate_delegation_policy_iff sdk d identity.did
                (default_eliza_memory_policy sdk config.db_handle) now).0
              policy;
        owner = owner;
      }

  prepare-IsVetted : (p : Prepared) → prepare sdk platform files config now ≡ ok p → IsVetted p
  unfolding prepare normalize_delegation_grants
  prepare-IsVetted p e =
      let (serialized, e1, r1) = bind_ok (serialized_source sdk platform files config) _ p e in
      let (identity, e2, r2) = bind_ok (agent_identity sdk platform files config) _ p r1 in
      let (parsed, e3, r3) =
        bind_ok (failing bad_policy (deserialize_delegation_safe sdk serialized)) _ p r2 in
      let (d, e4, r4) =
        bind_ok (failing bad_policy (normalize_delegation_grants platform parsed)) _ p r3 in
      let (u, e5, r5) =
        bind_ok (failing bad_shape (validate_delegation_shape d identity.did now)) _ p r4 in
      let (v, e6, r6) =
        bind_ok
          (failing bad_policy (
            validate_delegation_policy sdk d identity.did
              (default_eliza_memory_policy sdk config.db_handle) now))
          _ p r5 in
      let (w, e7, r7) =
        bind_ok
          (unless
            (owner_agrees sdk platform files config (signed_owner_address platform d)
              d.owner_address)
            (bad_policy malformed))
          _ p r6 in
      subst IsVetted (prepared_is _ p r7) (
        assemble serialized parsed d identity e1
          (failing_ok bad_policy (deserialize_delegation_safe sdk serialized) parsed e3)
          (normalized parsed d
            (failing_ok bad_policy (normalize_delegation_grants platform parsed) d e4))
          (failing_ok bad_shape (validate_delegation_shape d identity.did now) tt e5)
          (failing_ok bad_policy
            (validate_delegation_policy sdk d identity.did
              (default_eliza_memory_policy sdk config.db_handle) now)
            tt e6)
          (unless_ok _ (bad_policy malformed) e7))

  -- Every delegation that `signIn` hands to the activator is vetted: it was read from the configured
  -- source, its grants are exactly those of the signed part of what was read, it passes the shape
  -- check and the policy for the configured database at this time, and the owner that it claims is
  -- the one that its signed spaces name, where both are given.
  pub sign_in-IsVetted :
      (t : DelegatedTransport) (p : Prepared)
      → sign_in sdk platform files config now t ≡ activates p
      → IsVetted p
  unfolding sign_in
  sign_in-IsVetted t p e = prepare-IsVetted p (ground (arith, e))
