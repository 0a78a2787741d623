-- ===== src/Delegation/Grants.antt =====
-- What a delegation grants for a resource of a policy, as validateDelegationPolicy of
-- delegation-policy.ts reads it: a list of resources is searched for the first of the service.
use tinycloud_agents.Base.{
  ◌≡◌, ◌↔◌, ◌⊎◌, inl, inr, refl, ap, ◌∙◌, true, Option, none, some, List, String, Option-cases,
  arith,
}
use tinycloud_agents.Delegation.{PolicyResource, GrantResource, PortableDelegation}
use tinycloud_agents.Delegation.Policy.{find, service_matches, granted_for, granted_among}
use tinycloud_agents.Delegation.First.{
  Lacking, IsFirst, IsOf, service_matches_iff, find-IsFirst, find-Lacking,
}

module _ (d : PortableDelegation) (r : PolicyResource) where
  abbrev OfService : GrantResource → Type 0
  OfService g = IsOf r g.service

  -- The first of the listed resources that has the policy's service, with its path and actions.
  pub record Lists (path : String) (actions : List String) : Type 0 where
    pub listed : List GrantResource
    pub grant : GrantResource
    pub given : d.resources ≡ some listed
    pub first : IsFirst OfService listed grant
    pub at_path : grant.path ≡ path
    pub with_actions : grant.actions ≡ actions

  -- The delegation lists no resources, and grants its own path and actions.
  abbrev IsFlat : String → List String → Type 0
  IsFlat path actions = (d.resources ≡ none) × (d.path ≡ path) × (d.actions ≡ actions)

  abbrev pub Grants : String → List String → Type 0
  Grants path actions = IsFlat path actions ⊎ Lists path actions

  -- Resources are listed, and none has the policy's service.
  abbrev pub ListsNone : Type 0
  ListsNone = (listed : List GrantResource) × (d.resources ≡ some listed) × Lacking OfService listed

  of_service : (g : GrantResource) → (service_matches g.service r ≡ true) ↔ OfService g
  of_service g = service_matches_iff g.service r

  first_iff :
      (gs : List GrantResource) (g : GrantResource)
      → (find (λ g. service_matches g.service r) gs ≡ some g) ↔ IsFirst OfService gs g
  first_iff = find-IsFirst (λ g. service_matches g.service r) OfService of_service

  none_iff :
      (gs : List GrantResource)
      → (find (λ g. service_matches g.service r) gs ≡ none) ↔ Lacking OfService gs
  none_iff = find-Lacking (λ g. service_matches g.service r) OfService of_service

  among :
      (o : Option (List GrantResource)) (path : String) (actions : List String)
      → d.resources ≡ o
      → granted_among o d r ≡ some (path, actions)
      → Grants path actions
  unfolding granted_among
  among none path actions e h = inl (e, ground (arith, h), ground (arith, h))
  among (some gs) path actions e h =
      elim (Option-cases (find (λ g. service_matches g.service r) gs)) [
        | inl n ↦ absurd (ground (arith, n, h))
        | inr (g, there) ↦ inr (record {
          listed = gs;
          grant = g;
          given = e;
          first = (first_iff gs g).0 there;
          at_path = ground (arith, there, h);
          with_actions = ground (arith, there, h);
        })
      ]

  among_none :
      (o : Option (List GrantResource)) → d.resources ≡ o → granted_among o d r ≡ none → ListsNone
  unfolding granted_among
  among_none none e h = absurd (ground (arith, h))
  among_none (some gs) e h = elim (Option-cases (find (λ g. service_matches g.service r) gs)) [
    | inl n ↦ (gs, e, (none_iff gs).0 n)
    | inr (g, there) ↦ absurd (ground (arith, there, h))
  ]

  granted :
      (path : String) (actions : List String)
      → Grants path actions
      → granted_for d r ≡ some (path, actions)
  unfolding granted_for granted_among
  granted path actions (inl (flat, p, a)) =
      ap (λ o. granted_among o d r) flat ∙ ground (arith, p, a)
  granted path actions (inr l) =
      let there = (first_iff l.listed l.grant).1 l.first in
      ap (λ o. granted_among o d r) l.given ∙ ground (arith, there, l.at_path, l.with_actions)

  ungranted : ListsNone → granted_for d r ≡ none
  unfolding granted_for granted_among
  ungranted (gs, given, lacking) =
      let away = (none_iff gs).1 lacking in
      ap (λ o. granted_among o d r) given ∙ ground (arith, away)

  pub granted_for_iff :
      (path : String) (actions : List String)
      → (granted_for d r ≡ some (path, actions)) ↔ Grants path actions
  unfolding granted_for
  granted_for_iff path actions = (among d.resources path actions refl, granted path actions)

  pub ungranted_iff : (granted_for d r ≡ none) ↔ ListsNone
  unfolding granted_for
  ungranted_iff = (among_none d.resources refl, ungranted)
