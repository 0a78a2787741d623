-- ===== src/Delegation/Covers.antt =====
-- What validateDelegationPolicy of delegation-policy.ts accepts, and why it refuses the rest.
use tinycloud_agents.Base.{
  ℕ, ◌≤◌, ◌<◌, ◌≡◌, ◌≢◌, ◌↔◌, ◌⊎◌, inl, inr, refl, sym, ap, subst, ◌∙◌, Bool, true, false, not,
  Option, none, some, List, [], ◌∷◌, String, leb, all, All, if◌then◌else◌, ◌===◌, text_eq,
  Bool-cases, Option-cases, arith, ===-refl,
}
use tinycloud_agents.Delegation.{
  PortableDelegation, PolicyResource, DelegationPolicy, Sdk, Reason, malformed, wrong_delegatee,
  expired, missing_sql_resource, wrong_db_handle, insufficient_actions, Checked, ok, err, ◌>>◌,
}
use tinycloud_agents.Delegation.Policy.{
  falsy, expiry_time, text_or_empty, assert_well_formed, granted_for, includes, covers_actions,
  check_granted, check_resources, validate_delegation_policy,
}
use tinycloud_agents.Delegation.Grants.{Grants, ListsNone, granted_for_iff, ungranted_iff}
use tinycloud_agents.Delegation.Form.{
  IsNamed, IsUnnamed, IsDate, IsUndated, named, falsy-IsUnnamed, expiry_time-IsDate,
  expiry_time-IsUndated,
}

pub all-All :
    {A : Type 0} (p : A → Bool) (xs : List A) → (all p xs ≡ true) ↔ All (λ x. p x ≡ true) xs
all-All p [] = (λ _. tt, λ _. refl)
all-All p (x ∷ xs) = elim (Bool-cases (p x)) [
  | inl y ↦ (
    λ e. (y, (all-All p xs).0 (ground (arith, y, e))),
    λ h. ground (arith, y, (all-All p xs).1 h.1),
  )
  | inr n ↦ (λ e. ground (arith, n, e), λ h. ground (arith, n, h.0))
]

-- An element of the list fails the test.
pub all_failed :
    (p : String → Bool) (xs : List String)
    → all p xs ≡ false
    → (a : String) × (includes xs a ≡ true) × (p a ≡ false)
all_failed p [] e = ground (arith, e)
all_failed p (x ∷ xs) e = elim (Bool-cases (p x)) [
  | inl y ↦
      let (a, there, f) = all_failed p xs (ground (arith, y, e)) in
      (a, elim (Bool-cases (x === a)) [ inl h ↦ rw (h) refl | inr h ↦ rw (h) there ], f)
  | inr n ↦ (x, rw (===-refl x) refl, n)
]

-- What a check may answer: `P` where it passes, and `Q e` where it throws `e`.
abbrev pub Answers {ℓ} : Type ℓ → (Reason → Type ℓ) → Checked Reason (Unit {0}) → Type ℓ
Answers P Q (ok u) = P
Answers P Q (err e) = Q e

pub Answers-map {ℓ} :
    {P P' : Type ℓ} {Q Q' : Reason → Type ℓ}
    → (P → P')
    → ((e : Reason) → Q e → Q' e)
    → (c : Checked Reason Unit) → Answers P Q c
    → Answers P' Q' c
Answers-map f g (ok u) h = f h
Answers-map f g (err e) h = g e h

-- Two checks in sequence.
pub Answers-then {ℓ} :
    {P P' R : Type ℓ} {Q Q' S : Reason → Type ℓ}
    → (P → P' → R)
    → ((e : Reason) → Q e → S e)
    → ((e : Reason) → P → Q' e → S e)
    → (c k : Checked Reason Unit) → Answers P Q c
    → Answers P' Q' k
    → Answers R S (c >> k)
Answers-then f g h (ok u) (ok v) p q = f p q
Answers-then f g h (ok u) (err e) p q = h e p q
Answers-then f g h (err e) k p q = g e p

module _ (sdk : Sdk) (d : PortableDelegation) where
  -- What the delegation grants for the resource is at its path, with every required action.
  pub record Covers (r : PolicyResource) : Type 0 where
    pub actions : List String
    pub granted : Grants d r r.path actions
    pub enough :
        All
          (λ a. includes (sdk.expand r.service_long actions) a ≡ true)
          (sdk.expand r.service_long r.required_actions)

  abbrev pub Meets : PolicyResource → Type 0
  Meets r = (r.required ≡ false) ⊎ Covers r

  -- Why the delegation does not cover a resource.
  abbrev pub Lacks : PolicyResource → Reason → Type 0
  Lacks r missing_sql_resource = ListsNone d r
  Lacks r wrong_db_handle =
      (path : String) × (given : List String) × Grants d r path given × (path ≢ r.path)
  Lacks r insufficient_actions =
      (given : List String) × (a : String) × Grants d r r.path given
      × (includes (sdk.expand r.service_long r.required_actions) a ≡ true)
      × (includes (sdk.expand r.service_long given) a ≡ false)
  Lacks r _ = ⊥

  -- The first required resource that is not covered lacks it for the reason `e`.
  abbrev pub FirstLacks : List PolicyResource → Reason → Type 0
  FirstLacks [] e = ⊥
  FirstLacks (r ∷ rs) e = ((r.required ≡ true) × Lacks r e) ⊎ (Meets r × FirstLacks rs e)

  check_granted-Answers :
      (r : PolicyResource) (g : Option (String × List String))
      → granted_for d r ≡ g
      → Answers (Covers r) (Lacks r) (check_granted sdk r g)
  unfolding check_granted covers_actions
  check_granted-Answers r none e = (ungranted_iff d r).0 e
  check_granted-Answers r (some (path, given)) e = elim (Bool-cases (path === r.path)) [
    | inr n ↦ rw (n) (
      path,
      given,
      (granted_for_iff d r path given).0 e,
      λ q. ground (arith, n, (text_eq.same-eq path r.path).1 q),
    )
    | inl y ↦
        let here : Grants d r r.path given =
          (granted_for_iff d r r.path given).0
            (e ∙ ap (λ (p : String). some (p, given)) ((text_eq.same-eq path r.path).0 y)) in
        elim (Bool-cases (covers_actions sdk r.service_long r.required_actions given)) [
          | inl c ↦
              rw (y, c)
                (record {
                  actions = given;
                  granted = here;
                  enough =
                      (all-All (includes (sdk.expand r.service_long given))
                          (sdk.expand r.service_long r.required_actions)).0
                        c;
                })
          | inr c ↦
              let (a, there, missing) =
                all_failed (includes (sdk.expand r.service_long given))
                  (sdk.expand r.service_long r.required_actions) c in
              rw (y, c) (given, a, here, there, missing)
        ]
  ]

  -- One turn of the loop, after which the rest is checked.
  check_next-Answers :
      (r : PolicyResource) (rs : List PolicyResource) (needed : Bool)
      → r.required ≡ needed
      → Answers (All Meets rs) (FirstLacks rs) (check_resources sdk d rs)
      → Answers (All Meets (r ∷ rs)) (FirstLacks (r ∷ rs)) (
          if not needed
          then check_resources sdk d rs
          else check_granted sdk r (granted_for d r) >> check_resources sdk d rs)
  check_next-Answers r rs false e rest =
      Answers-map (λ h. (inl e, h)) (λ x h. inr (inl e, h)) (check_resources sdk d rs) rest
  check_next-Answers r rs true e rest =
      Answers-then (λ h k. (inr h, k)) (λ x h. inl (e, h)) (λ x h k. inr (inr h, k))
        (check_granted sdk r (granted_for d r)) (check_resources sdk d rs)
        (check_granted-Answers r (granted_for d r) refl) rest

  check_resources-Answers :
      (rs : List PolicyResource) → Answers (All Meets rs) (FirstLacks rs) (check_resources sdk d rs)
  unfolding check_resources
  check_resources-Answers [] = tt
  check_resources-Answers (r ∷ rs) =
      check_next-Answers r rs r.required refl (check_resources-Answers rs)

  never :
      (e : Reason)
      → ((r : PolicyResource) → Lacks r e → ⊥)
      → (rs : List PolicyResource) → FirstLacks rs e
      → ⊥
  never e none_lacks [] h = h
  never e none_lacks (r ∷ rs) (inl (needed, h)) = none_lacks r h
  never e none_lacks (r ∷ rs) (inr (met, h)) = never e none_lacks rs h

  -- The delegation names a delegate and expires at `t`.
  abbrev pub WellFormed : String → ℕ → Type 0
  WellFormed delegate t = IsNamed d.delegate_did delegate × IsDate d.expiry t

  module _ (agent_did : String) (policy : DelegationPolicy) (now : ℕ) where
    abbrev pub IsFor : String → Type 0
    IsFor delegate = sdk.principals_equal delegate agent_did ≡ true

    pub record Accepts : Type 0 where
      pub delegate : String
      pub expiry : ℕ
      pub well_formed : WellFormed delegate expiry
      pub is_for : IsFor delegate
      pub live : now < expiry
      pub meets : All Meets policy.resources

    -- What the first failing check found, the checks before it having passed.
    abbrev pub Refuses : Reason → Type 0
    Refuses malformed = IsUnnamed d.delegate_did ⊎ IsUndated d.expiry
    Refuses wrong_delegatee =
        (name : String) × (t : ℕ) × WellFormed name t
        × (sdk.principals_equal name agent_did ≡ false)
    Refuses expired = (name : String) × (t : ℕ) × WellFormed name t × IsFor name × (t ≤ now)
    Refuses e =
        (name : String) × (t : ℕ) × WellFormed name t
        × IsFor name
        × (now < t)
        × FirstLacks policy.resources e

    lacking :
        (name : String) (t : ℕ)
        → WellFormed name t
        → IsFor name
        → now < t
        → (e : Reason) → FirstLacks policy.resources e
        → Refuses e
    lacking name t form for_agent live malformed h =
        absurd (never malformed (λ r x. x) policy.resources h)
    lacking name t form for_agent live wrong_delegatee h =
        absurd (never wrong_delegatee (λ r x. x) policy.resources h)
    lacking name t form for_agent live expired h =
        absurd (never expired (λ r x. x) policy.resources h)
    lacking name t form for_agent live missing_sql_resource h = (name, t, form, for_agent, live, h)
    lacking name t form for_agent live wrong_db_handle h = (name, t, form, for_agent, live, h)
    lacking name t form for_agent live insufficient_actions h = (name, t, form, for_agent, live, h)

    resources_decide :
        (name : String) (t : ℕ)
        → WellFormed name t
        → IsFor name
        → now < t
        → Answers Accepts Refuses (check_resources sdk d policy.resources)
    resources_decide name t form for_agent live =
        Answers-map
          (λ h. record {
            delegate = name;
            expiry = t;
            well_formed = form;
            is_for = for_agent;
            live = live;
            meets = h;
          })
          (λ e h. lacking name t form for_agent live e h) (check_resources sdk d policy.resources)
          (check_resources-Answers policy.resources)

    conclude :
        (k : Checked Reason Unit)
        → validate_delegation_policy sdk d agent_did policy now ≡ k
        → Answers Accepts Refuses k
        → Answers Accepts Refuses (validate_delegation_policy sdk d agent_did policy now)
    conclude k e h = subst (Answers Accepts Refuses) (sym e) h

    -- A delegation passes where it is well formed, names this agent, has not expired and, for every
    -- required resource of the policy, grants its path and each of its actions. What it grants for
    -- a resource is read from the first resource that it lists of that service, later ones aside,
    -- or from the delegation itself where it has no list. Otherwise the error thrown is that of the
    -- first check that fails, in the order: form, delegatee, expiry, then, resource by resource,
    -- that some listed resource has the service, the path of the first one, and its actions.
    pub validate_delegation_policy-Answers :
        Answers Accepts Refuses (validate_delegation_policy sdk d agent_did policy now)
    unfolding validate_delegation_policy assert_well_formed
    validate_delegation_policy-Answers = elim (Bool-cases (falsy d.delegate_did)) [
      | inl no_did ↦
          conclude (err malformed) (rw (no_did) refl) (inl (falsy-IsUnnamed d.delegate_did no_did))
      | inr did ↦ elim (Option-cases (expiry_time d.expiry)) [
        | inl no_date ↦
            conclude (err malformed) (rw (did, no_date) refl)
              (inr ((expiry_time-IsUndated d.expiry).0 no_date))
        | inr (t, date) ↦
            let (name, (given, filled)) = named d.delegate_did did in
            let form : WellFormed name t =
              ((given, filled), (expiry_time-IsDate d.expiry t).0 date) in
            let text : text_or_empty d.delegate_did ≡ name = ap text_or_empty given in
            elim (Bool-cases (sdk.principals_equal name agent_did)) [
              | inr other ↦
                  let unlike : sdk.principals_equal (text_or_empty d.delegate_did) agent_did
                      ≡ false =
                    ap (λ (s : String). sdk.principals_equal s agent_did) text ∙ other in
                  conclude (err wrong_delegatee) (rw (did, date, unlike) refl)
                    (name, t, form, other)
              | inl same ↦
                  let alike : sdk.principals_equal (text_or_empty d.delegate_did) agent_did ≡ true =
                    ap (λ (s : String). sdk.principals_equal s agent_did) text ∙ same in
                  elim (Bool-cases (leb t now)) [
                    | inl late ↦
                        conclude (err expired) (rw (did, date, alike, late) refl)
                          (name, t, form, same, ground (arith, late))
                    | inr early ↦
                        conclude (check_resources sdk d policy.resources)
                          (rw (did, date, alike, early) refl)
                          (resources_decide name t form same (ground (arith, early)))
                  ]
            ]
      ]
    ]
