-- ===== src/Delegation/Accepted.antt =====
-- validateDelegationPolicy of delegation-policy.ts passes just the delegations that the policy
-- accepts.
use mathlib.Core.Option.{some-injective}
use tinycloud_agents.Base.{
  ℕ, ◌≡◌, ◌↔◌, inl, inr, refl, subst, true, List, [], ◌∷◌, String, All, ◌===◌, text_eq, Bool-cases,
  arith,
}
use tinycloud_agents.Delegation.{
  PortableDelegation, PolicyResource, DelegationPolicy, Sdk, Reason, malformed, wrong_delegatee,
  expired, missing_sql_resource, wrong_db_handle, insufficient_actions, Checked, ok, err,
}
use tinycloud_agents.Delegation.Policy.{includes, validate_delegation_policy}
use tinycloud_agents.Delegation.Covers.{
  Answers, Covers, Meets, Lacks, FirstLacks, Accepts, Refuses, validate_delegation_policy-Answers,
}
use tinycloud_agents.Delegation.Grants.{granted_for_iff, ungranted_iff}
use tinycloud_agents.Delegation.Form.{named_or_unnamed, expiry_time-IsDate, expiry_time-IsUndated}

pub All-includes :
    (P : String → Type 0) (xs : List String) (a : String) → All P xs → includes xs a ≡ true → P a
All-includes P [] a h e = absurd (ground (arith, e))
All-includes P (x ∷ xs) a (p, h) e = elim (Bool-cases (x === a)) [
  | inl here ↦ subst P ((text_eq.same-eq x a).0 here) p
  | inr away ↦ All-includes P xs a h (ground (arith, away, e))
]

module _ (sdk : Sdk) (d : PortableDelegation) where
  Covers-Lacks : (r : PolicyResource) (e : Reason) → Covers sdk d r → Lacks sdk d r e → ⊥
  Covers-Lacks r missing_sql_resource c l =
      let mine = (granted_for_iff d r r.path c.actions).1 c.granted in
      let theirs = (ungranted_iff d r).1 l in absurd (cc (mine, theirs))
  Covers-Lacks r wrong_db_handle c (path, given, granted, other) =
      let mine = (granted_for_iff d r r.path c.actions).1 c.granted in
      let theirs = (granted_for_iff d r path given).1 granted in other (cc (mine, theirs))
  Covers-Lacks r insufficient_actions c (given, a, granted, required, missing) =
      let mine = (granted_for_iff d r r.path c.actions).1 c.granted in
      let theirs = (granted_for_iff d r r.path given).1 granted in
      let same : c.actions ≡ given = cc (mine, theirs) in
      let there : includes (sdk.expand r.service_long c.actions) a ≡ true =
        All-includes (λ b. includes (sdk.expand r.service_long c.actions) b ≡ true)
          (sdk.expand r.service_long r.required_actions) a c.enough required in
      cc (same, there, missing)
  Covers-Lacks r malformed c l = l
  Covers-Lacks r wrong_delegatee c l = l
  Covers-Lacks r expired c l = l

  All-FirstLacks :
      (rs : List PolicyResource) (e : Reason) → All (Meets sdk d) rs → FirstLacks sdk d rs e → ⊥
  All-FirstLacks [] e m l = l
  All-FirstLacks (r ∷ rs) e (inl optional, ms) (inl (needed, l)) = cc (optional, needed)
  All-FirstLacks (r ∷ rs) e (inr c, ms) (inl (needed, l)) = Covers-Lacks r e c l
  All-FirstLacks (r ∷ rs) e (m, ms) (inr (met, l)) = All-FirstLacks rs e ms l

  module _ (agent_did : String) (policy : DelegationPolicy) (now : ℕ) where
    Accepts-Refuses :
        (e : Reason) → Accepts sdk d agent_did policy now → Refuses sdk d agent_did policy now e → ⊥
    Accepts-Refuses malformed h (inl unnamed) =
        named_or_unnamed d.delegate_did h.delegate h.well_formed.0 unnamed
    Accepts-Refuses malformed h (inr undated) =
        let date = (expiry_time-IsDate d.expiry h.expiry).1 h.well_formed.1 in
        let no_date = (expiry_time-IsUndated d.expiry).1 undated in absurd (cc (date, no_date))
    Accepts-Refuses wrong_delegatee h (name, t, ((given, _), _), other) =
        let mine = h.well_formed.0.0 in
        let same : h.delegate ≡ name = some-injective h.delegate name (cc (mine, given)) in
        absurd (cc (h.is_for, other, same))
    Accepts-Refuses expired h (name, t, (_, date), for_agent, late) =
        let mine = (expiry_time-IsDate d.expiry h.expiry).1 h.well_formed.1 in
        let theirs = (expiry_time-IsDate d.expiry t).1 date in
        let same : h.expiry ≡ t = some-injective h.expiry t (cc (mine, theirs)) in
        omega (arith, same, late, h.live)
    Accepts-Refuses missing_sql_resource h (name, t, form, for_agent, live, l) =
        All-FirstLacks policy.resources missing_sql_resource h.meets l
    Accepts-Refuses wrong_db_handle h (name, t, form, for_agent, live, l) =
        All-FirstLacks policy.resources wrong_db_handle h.meets l
    Accepts-Refuses insufficient_actions h (name, t, form, for_agent, live, l) =
        All-FirstLacks policy.resources insufficient_actions h.meets l

    accepted :
        (c : Checked Reason Unit)
        → Answers (Accepts sdk d agent_did policy now) (Refuses sdk d agent_did policy now) c
        → (c ≡ ok tt) ↔ Accepts sdk d agent_did policy now
    accepted (ok u) h = (λ _. h, λ _. refl)
    accepted (err e) h = (λ q. absurd (cc q), λ a. absurd (Accepts-Refuses e a h))

    -- A delegation passes just where it is well formed, names this agent, has not expired and, for
    -- every required resource of the policy, grants its path and each of its actions. What it
    -- grants for a resource is read from the first resource that it lists of that service, later
    -- ones aside, or from the delegation itself where it has no list.
    pub validate_delegation_policy_iff :
        (validate_delegation_policy sdk d agent_did policy now ≡ ok tt)
        ↔ Accepts sdk d agent_did policy now
    validate_delegation_policy_iff =
        accepted (validate_delegation_policy sdk d agent_did policy now)
          (validate_delegation_policy-Answers sdk d agent_did policy now)
