-- ===== src/Delegation/Exact.antt =====
-- validateExactDelegationPolicy of delegation-policy.ts: nothing beyond the policy is granted.
use tinycloud_agents.Base.{
  ℕ, ◌≡◌, ◌≢◌, ◌↔◌, ◌⊎◌, inl, inr, refl, subst, Bool, true, false, ◌&&◌, not, Option, none, some,
  List, [], ◌∷◌, String, all, All, if◌then◌else◌, ◌===◌, text_eq, Bool-cases, arith,
}
use tinycloud_agents.Delegation.{
  PortableDelegation, PolicyResource, GrantResource, DelegationPolicy, Sdk, Reason, malformed,
  insufficient_actions, Checked, ok, err, ◌>>◌, unless,
}
use tinycloud_agents.Delegation.Policy.{
  find, includes, service_matches, check_entry, check_exact, check_all_exact, resources_or_empty,
  validate_delegation_policy, validate_exact_delegation_policy, default_tinychat_transcript_policy,
}
use tinycloud_agents.Delegation.Covers.{Accepts, all-All}
use tinycloud_agents.Delegation.Accepted.{validate_delegation_policy_iff}
use tinycloud_agents.Delegation.First.{IsFirst, IsOf, service_matches_iff, find-IsFirst}
use tinycloud_agents.Delegation.Grants.{Grants}

both_ok : (c k : Checked Reason Unit) → (c >> k ≡ ok tt) ↔ ((c ≡ ok tt) × (k ≡ ok tt))
both_ok (ok u) k = (λ e. (refl, e), λ h. h.1)
both_ok (err x) k = (λ e. absurd (cc e), λ h. absurd (cc h.0))

unless_ok : (b : Bool) (e : Reason) → (unless b e ≡ ok tt) ↔ (b ≡ true)
unless_ok true e = (λ q. refl, λ q. refl)
unless_ok false e = (λ q. absurd (cc q), λ q. absurd (cc q))

-- A delegation without a list grants its own path.
Grants-flat :
    (d : PortableDelegation) (r : PolicyResource) (path : String) (actions : List String)
    → d.resources ≡ none
    → Grants d r path actions
    → d.path ≡ path
Grants-flat d r path actions flat (inl (_, p, _)) = p
Grants-flat d r path actions flat (inr l) = absurd (cc (flat, l.given))

abbrev sql_path : String
sql_path = "xyz.tinycloud.tinychat/connectors"

abbrev kv_path : String
kv_path = "xyz.tinycloud.tinychat/connectors/"

paths_differ : sql_path ≢ kv_path
paths_differ e = absurd (cc ((text_eq.same-eq sql_path kv_path).1 e))

if_ok :
    (b : Bool) (e : Reason) (c : Checked Reason Unit)
    → ((if b then err e else c) ≡ ok tt) ↔ ((b ≡ false) × (c ≡ ok tt))
if_ok true e c = (λ q. absurd (cc q), λ h. absurd (cc h.0))
if_ok false e c = (λ q. (refl, q), λ h. h.1)

in_or_out :
    (any_path : Bool) (p q : String)
    → (not any_path && not (p === q) ≡ false) ↔ ((any_path ≡ true) ⊎ (p ≡ q))
in_or_out true p q = (λ e. inl refl, λ h. refl)
in_or_out false p q = elim (Bool-cases (p === q)) [
  | inl y ↦ (λ e. inr ((text_eq.same-eq p q).0 y), λ h. rw (y) refl)
  | inr n ↦ (
    λ e. absurd (ground (arith, n, e)),
    λ h. elim h [ inl f ↦ absurd (cc f) | inr e ↦ absurd (cc ((text_eq.same-eq p q).1 e, n)) ],
  )
]

module _ (sdk : Sdk) where
  abbrev pub Allows : PolicyResource → GrantResource → Type 0
  Allows r g =
      ((r.any_path ≡ true) ⊎ (g.path ≡ r.path))
      × All (λ a. includes (sdk.expand r.service_long r.required_actions) a ≡ true)
          (sdk.expand r.service_long g.actions)

  -- The first entry of the policy for the grant's service allows its path and all its actions.
  pub record Permits (policy : List PolicyResource) (g : GrantResource) : Type 0 where
    pub entry : PolicyResource
    pub first : IsFirst (λ r. IsOf r g.service) policy entry
    pub in_path : (entry.any_path ≡ true) ⊎ (g.path ≡ entry.path)
    pub within :
        All
          (λ a. includes (sdk.expand entry.service_long entry.required_actions) a ≡ true)
          (sdk.expand entry.service_long g.actions)

  first_iff :
      (policy : List PolicyResource) (g : GrantResource) (r : PolicyResource)
      → (find (service_matches g.service) policy ≡ some r)
        ↔ IsFirst (λ r. IsOf r g.service) policy r
  first_iff policy g r =
      find-IsFirst (service_matches g.service) (λ r. IsOf r g.service)
        (service_matches_iff g.service) policy r

  entry_is :
      (policy : List PolicyResource) (g : GrantResource) (r : PolicyResource)
      → find (service_matches g.service) policy ≡ some r
      → (p : Permits policy g) → p.entry ≡ r
  entry_is policy g r e p = let there = (first_iff policy g p.entry).1 p.first in cc (e, there)

  check_entry_iff :
      (policy : List PolicyResource) (g : GrantResource) (o : Option PolicyResource)
      → find (service_matches g.service) policy ≡ o
      → (check_entry sdk g o ≡ ok tt) ↔ Permits policy g
  unfolding check_entry
  check_entry_iff policy g none e = (
    λ q. absurd (cc q),
    λ p. let there = (first_iff policy g p.entry).1 p.first in absurd (cc (e, there)),
  )
  check_entry_iff policy g (some r) e =
      let k = if_ok (not r.any_path && not (g.path === r.path)) malformed (
        unless
          (all (includes (sdk.expand r.service_long r.required_actions))
            (sdk.expand r.service_long g.actions))
          insufficient_actions) in
      let i = in_or_out r.any_path g.path r.path in
      let u =
        unless_ok
          (all (includes (sdk.expand r.service_long r.required_actions))
            (sdk.expand r.service_long g.actions))
          insufficient_actions in
      let w =
        all-All (includes (sdk.expand r.service_long r.required_actions))
          (sdk.expand r.service_long g.actions) in
      (
        λ q. record {
          entry = r;
          first = (first_iff policy g r).0 e;
          in_path = i.0 (k.0 q).0;
          within = w.0 (u.0 (k.0 q).1);
        },
        λ p.
            let allowed : Allows r g =
              subst (λ x. Allows x g) (entry_is policy g r e p) (p.in_path, p.within) in
            k.1 (i.1 allowed.0, u.1 (w.1 allowed.1)),
      )

  check_exact_iff :
      (policy : List PolicyResource) (g : GrantResource)
      → (check_exact sdk policy g ≡ ok tt) ↔ Permits policy g
  unfolding check_exact
  check_exact_iff policy g = check_entry_iff policy g (find (service_matches g.service) policy) refl

  check_all_exact_iff :
      (policy : List PolicyResource) (gs : List GrantResource)
      → (check_all_exact sdk policy gs ≡ ok tt) ↔ All (Permits policy) gs
  unfolding check_all_exact
  check_all_exact_iff policy [] = (λ e. tt, λ h. refl)
  check_all_exact_iff policy (g ∷ gs) =
      let b = both_ok (check_exact sdk policy g) (check_all_exact sdk policy gs) in
      let h = check_exact_iff policy g in
      let t = check_all_exact_iff policy gs in
      (λ e. (h.0 (b.0 e).0, t.0 (b.0 e).1), λ p. b.1 (h.1 p.0, t.1 p.1))

  module _ (d : PortableDelegation) (agent_did : String) where
    -- A delegation passes the exact check just where the policy accepts it and, for every resource
    -- that it lists, the first entry of the policy for that service, which there must be, allows
    -- the path and each action; later entries of the service count for nothing. The policy accepts
    -- a delegation that is well formed, names this agent, has not expired and grants every required
    -- resource, where what it grants is read from the first resource that it lists of that service,
    -- or from the delegation itself where it has no list.
    pub validate_exact_delegation_policy_iff :
        (policy : DelegationPolicy) (now : ℕ)
        → (validate_exact_delegation_policy sdk d agent_did policy now ≡ ok tt) ↔ (
            Accepts sdk d agent_did policy now
            × All (Permits policy.resources) (resources_or_empty d.resources))
    unfolding validate_exact_delegation_policy
    validate_exact_delegation_policy_iff policy now =
        let b =
          both_ok (validate_delegation_policy sdk d agent_did policy now)
            (check_all_exact sdk policy.resources (resources_or_empty d.resources)) in
        let v = validate_delegation_policy_iff sdk d agent_did policy now in
        let c = check_all_exact_iff policy.resources (resources_or_empty d.resources) in
        (λ e. (v.0 (b.0 e).0, c.0 (b.0 e).1), λ p. b.1 (v.1 p.0, c.1 p.1))

    -- A delegation of the flat shape, without a list of resources, never passes the exact check
    -- against the transcript policy, whatever it grants: no one path is both of the required ones.
    transcript_refuses_flat :
        (now : ℕ)
        → d.resources ≡ none
        → validate_exact_delegation_policy sdk d agent_did
            (default_tinychat_transcript_policy sdk)
            now
          ≢ ok tt
    unfolding default_tinychat_transcript_policy
    transcript_refuses_flat now flat passes =
        let h =
          ((validate_exact_delegation_policy_iff (default_tinychat_transcript_policy sdk) now).0
            passes).0 in
        elim h.meets.0 [
          | inl e ↦ absurd (cc e)
          | inr sql ↦ elim h.meets.1.0 [
            | inl e ↦ absurd (cc e)
            | inr kv ↦
                let one = Grants-flat d _ sql_path sql.actions flat sql.granted in
                let two = Grants-flat d _ kv_path kv.actions flat kv.granted in
                paths_differ (cc (one, two))
          ]
        ]
