-- ===== src/Delegation/Shape.antt =====
-- packages/agent-client/src/delegation-validate.ts: the shallow check of a delegation, and which
-- errors reject it.
use text.Mathlib.Text.{starts_with}
use Prim.Native.String.{[] as nil, ◌∷◌ as cons}
use tinycloud_agents.Base.{
  ℕ, Bool, true, false, ◌||◌, not, Option, none, some, List, [], ◌∷◌, String, leb, any, ◌===◌,
  text_eq, ◌≡◌, ◌⊎◌, inl, inr, ◌<◌, ◌↔◌, refl, ap, ◌∙◌, Bool-cases, arith,
}
use tinycloud_agents.Delegation.Text.{is_space, all_space}
use tinycloud_agents.Delegation.{
  Expiry, absent, null_expiry, invalid, at, GrantResource, PortableDelegation, Reason, expired,
  Checked, ok, err, ◌>>=◌, ◌>>◌, unless,
}

-- The messages of a `DelegationShapeError`.
pub data ShapeError : Type 0 where
  missing_owner missing_delegate other_delegate missing_expiry invalid_expiry has_expired no_sql :
      ShapeError

-- Its field `expired`.
abbrev pub says_expired : ShapeError → Bool
says_expired has_expired = true
says_expired _ = false

-- `!s || s.trim() === ""`.
unfoldable pub is_blank : Option String → Bool
is_blank none = true
is_blank (some s) = all_space s

abbrev pub is_delegate : Option String → String → Bool
is_delegate none agent_did = false
is_delegate (some s) agent_did = s === agent_did

unfoldable pub read_expiry : Expiry → Checked ShapeError ℕ
read_expiry absent = err missing_expiry
read_expiry null_expiry = err missing_expiry
read_expiry invalid = err invalid_expiry
read_expiry (at t) = ok t

unfoldable pub has_sql_action : PortableDelegation → Bool
has_sql_action d = any (λ a. starts_with a "tinycloud.sql/") d.actions

unfoldable pub has_sql_resource : PortableDelegation → Bool
has_sql_resource d = elim d.resources [
  | none ↦ false
  | some resources ↦ any (λ r. r.service === "sql") resources
]

unfoldable pub validate_delegation_shape :
    PortableDelegation → String → ℕ → Checked ShapeError (Unit {0})
validate_delegation_shape d agent_did now = do
  unless (not (is_blank d.owner_address)) missing_owner
  unless (not (is_blank d.delegate_did)) missing_delegate
  unless (is_delegate d.delegate_did agent_did) other_delegate
  expiry ← read_expiry d.expiry
  unless (not (leb expiry now)) has_expired
  unless (has_sql_action d || has_sql_resource d) no_sql

-- An error that a caller may have caught.
pub data Caught : Type 0 where
  shape_error : ShapeError → Caught
  policy_error : Reason → Caught
  other_error : Caught

pub is_delegation_rejection : Caught → Bool
is_delegation_rejection (shape_error e) = true
is_delegation_rejection (policy_error e) = true
is_delegation_rejection other_error = false

unfoldable pub is_delegation_expired_error : Caught → Bool
is_delegation_expired_error (shape_error e) = says_expired e
is_delegation_expired_error (policy_error expired) = true
is_delegation_expired_error (policy_error _) = false
is_delegation_expired_error other_error = false

-- Some character of the text is not white space.
abbrev pub HasInk : String → Type 0
HasInk nil = ⊥
HasInk (cons c s) = (is_space c ≡ false) ⊎ HasInk s

-- Some element of the list has the property.
abbrev pub Some : {A : Type 0} → (A → Type 0) → List A → Type 0
Some P [] = ⊥
Some P (x ∷ xs) = P x ⊎ Some P xs

all_space-HasInk : (s : String) → (all_space s ≡ false) ↔ HasInk s
all_space-HasInk nil = (λ e. absurd (ground (arith, e)), λ h. absurd h)
all_space-HasInk (cons c s) = elim (Bool-cases (is_space c)) [
  | inl y ↦ (
    λ e. inr ((all_space-HasInk s).0 (ground (arith, y, e))),
    λ h. elim h [
      | inl n ↦ absurd (ground (arith, y, n))
      | inr later ↦ ground (arith, y, (all_space-HasInk s).1 later)
    ],
  )
  | inr n ↦ (λ e. inl n, λ h. ground (arith, n))
]

-- The test is the property's, on each element.
any-Some :
    {A : Type 0} (p : A → Bool) (P : A → Type 0)
    → ((x : A) → (p x ≡ true) ↔ P x)
    → (xs : List A) → (any p xs ≡ true) ↔ Some P xs
any-Some p P f [] = (λ e. absurd (ground (arith, e)), λ h. absurd h)
any-Some p P f (x ∷ xs) = elim (Bool-cases (p x)) [
  | inl y ↦ (λ e. inl ((f x).0 y), λ h. ground (arith, y))
  | inr n ↦ (
    λ e. inr ((any-Some p P f xs).0 (ground (arith, n, e))),
    λ h. elim h [
      | inl here ↦ absurd (ground (arith, n, (f x).1 here))
      | inr there ↦ ground (arith, n, (any-Some p P f xs).1 there)
    ],
  )
]

module _ (d : PortableDelegation) (agent_did : String) (now : ℕ) where
  -- Some action is one of the SQL service.
  abbrev pub ActsOnSql : Type 0
  ActsOnSql = Some (λ (a : String). starts_with a "tinycloud.sql/" ≡ true) d.actions

  -- A list of resources is given, and one of them has the service `sql`, spelled so.
  abbrev pub ListsSql : Type 0
  ListsSql =
      (rs : List GrantResource) × (d.resources ≡ some rs)
      × Some (λ (r : GrantResource). r.service ≡ "sql") rs

  -- The owner is given and not blank, the delegate is this agent, which is not blank either, the
  -- expiry lies ahead, and an action or a listed resource is of SQL.
  pub record IsShaped : Type 0 where
    pub owner : String
    pub expiry : ℕ
    pub owned : d.owner_address ≡ some owner
    pub owner_ink : HasInk owner
    pub delegate : d.delegate_did ≡ some agent_did
    pub delegate_ink : HasInk agent_did
    pub expires : d.expiry ≡ at expiry
    pub live : now < expiry
    pub sql : ActsOnSql ⊎ ListsSql

  is_delegate_iff : (s : Option String) → (is_delegate s agent_did ≡ true) ↔ (s ≡ some agent_did)
  is_delegate_iff none = ground arith
  is_delegate_iff (some s) = (
    λ e. ap some ((text_eq.same-eq s agent_did).0 e),
    λ e. (text_eq.same-eq s agent_did).1 (cc e),
  )

  has_sql_action_iff : (has_sql_action d ≡ true) ↔ ActsOnSql
  unfolding has_sql_action
  has_sql_action_iff =
      any-Some (λ a. starts_with a "tinycloud.sql/")
        (λ (a : String). starts_with a "tinycloud.sql/" ≡ true) (λ a. (λ e. e, λ e. e)) d.actions

  is_sql : (r : GrantResource) → (r.service === "sql" ≡ true) ↔ (r.service ≡ "sql")
  is_sql r = text_eq.same-eq r.service "sql"

  has_sql_resource_iff :
      (o : Option (List GrantResource)) → d.resources ≡ o → (has_sql_resource d ≡ true) ↔ ListsSql
  unfolding has_sql_resource
  has_sql_resource_iff none e =
      (λ h. absurd (ground (arith, e, h)), λ l. let (rs, given, _) = l in absurd (cc (e, given)))
  has_sql_resource_iff (some gs) e =
      let i = any-Some (λ r. r.service === "sql") (λ r. r.service ≡ "sql") is_sql in
      (
        λ h. (gs, e, (i gs).0 (ground (arith, e, h))),
        λ l. let (rs, given, there) = l in ground (arith, given, (i rs).1 there),
      )

  given_owner : (o : Option String) → is_blank o ≡ false → (s : String) × (o ≡ some s) × HasInk s
  unfolding is_blank
  given_owner none e = absurd (ground (arith, e))
  given_owner (some s) e = (s, refl, (all_space-HasInk s).0 e)

  inked : (o : Option String) (s : String) → o ≡ some s → HasInk s → is_blank o ≡ false
  unfolding is_blank
  inked o s e h = ap is_blank e ∙ (all_space-HasInk s).1 h

  filled_ink : (s : String) → is_blank (some s) ≡ false → HasInk s
  unfolding is_blank
  filled_ink s e = (all_space-HasInk s).0 e

  sql_of : has_sql_action d || has_sql_resource d ≡ true → ActsOnSql ⊎ ListsSql
  sql_of e = elim (Bool-cases (has_sql_action d)) [
    | inl y ↦ inl (has_sql_action_iff.0 y)
    | inr n ↦ inr ((has_sql_resource_iff d.resources refl).0 (ground (arith, n, e)))
  ]

  sql_to : ActsOnSql ⊎ ListsSql → has_sql_action d || has_sql_resource d ≡ true
  sql_to (inl a) = ground (arith, has_sql_action_iff.1 a)
  sql_to (inr l) = ground (arith, (has_sql_resource_iff d.resources refl).1 l)

  shaped :
      (x : Expiry) → d.expiry ≡ x → validate_delegation_shape d agent_did now ≡ ok tt → IsShaped
  unfolding validate_delegation_shape read_expiry
  shaped absent e passes = absurd (ground (arith, passes, e))
  shaped null_expiry e passes = absurd (ground (arith, passes, e))
  shaped invalid e passes = absurd (ground (arith, passes, e))
  shaped (at t) e passes =
      let named : d.delegate_did ≡ some agent_did =
        (is_delegate_iff d.delegate_did).0 (ground (arith, passes)) in
      let (owner, owned, ink) = given_owner d.owner_address (ground (arith, passes)) in
      let filled : is_blank (some agent_did) ≡ false = rw (← named) (ground (arith, passes)) in
      record {
        owner = owner;
        expiry = t;
        owned = owned;
        owner_ink = ink;
        delegate = named;
        delegate_ink = filled_ink agent_did filled;
        expires = e;
        live = ground (arith, passes, e);
        sql = sql_of (ground (arith, passes, e));
      }

  unshaped : IsShaped → validate_delegation_shape d agent_did now ≡ ok tt
  unfolding validate_delegation_shape read_expiry
  unshaped s =
      let owned : is_blank d.owner_address ≡ false =
        inked d.owner_address s.owner s.owned s.owner_ink in
      let blank : is_blank d.delegate_did ≡ false =
        inked d.delegate_did agent_did s.delegate s.delegate_ink in
      let named : is_delegate d.delegate_did agent_did ≡ true =
        (is_delegate_iff d.delegate_did).1 s.delegate in
      let soon : leb s.expiry now ≡ false = ground (arith, s.live) in
      let sql : has_sql_action d || has_sql_resource d ≡ true = sql_to s.sql in
      ground (arith, owned, blank, named, s.expires, soon, sql)

  -- A delegation passes the shape check just where it names an owner and this agent as delegate,
  -- both with a character that is not white space, has a date of expiry that lies ahead, and has an
  -- action that starts with `tinycloud.sql/` or lists a resource whose service is the word `sql`.
  pub validate_delegation_shape_iff : (validate_delegation_shape d agent_did now ≡ ok tt) ↔ IsShaped
  validate_delegation_shape_iff = (λ passes. shaped d.expiry refl passes, unshaped)
