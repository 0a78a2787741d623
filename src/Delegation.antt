-- ===== src/Delegation.antt =====
-- packages/agent-client/src/delegation-policy.ts, delegation-validate.ts and errors.ts: portable
-- delegations, the policies that they must meet, and the errors that refuse them.
--
-- What `@tinycloud/node-sdk` and `@tinycloud/bootstrap` provide is the parameter `Sdk`.
pub mod Hash
pub mod Status
pub mod Text
pub mod Chains
pub mod Policy
pub mod Normalize
pub mod Transport
pub mod Shape
mod Lasting
pub mod Covers
pub mod Exact
pub mod First
pub mod Form
pub mod Grants
pub mod Accepted
mod Tests
use tinycloud_agents.Base.{ℕ, Bool, Option, List, String, ◌≡◌, none, some}

-- `undefined`, `null`, a text, not the empty one, that is no date, or a date, as an object or a text,
-- in milliseconds since the epoch.
pub data Expiry : Type 0 where
  absent null_expiry invalid : Expiry
  at : ℕ → Expiry

pub record GrantResource : Type 0 where
  pub service : String
  pub space : String
  pub path : String
  pub actions : List String

-- A text that is missing or no text is `none`.
pub record PortableDelegation : Type 0 where
  pub owner_address : Option String
  pub delegate_did : Option String
  pub expiry : Expiry
  pub path : String
  pub actions : List String
  pub resources : Option (List GrantResource)
  pub authorization : Option String
  pub cid : String

pub record PolicyResource : Type 0 where
  pub service_long : String
  pub service_short : String
  pub path : String
  pub required_actions : List String
  pub required : Bool
  pub any_path : Bool

pub record DelegationPolicy : Type 0 where
  pub resources : List PolicyResource

-- `expand` is `expandActionShortNames`, `principals_equal` is `principalDidEquals`, and
-- `deserialize` is `deserializeDelegation`, `none` where it throws.
pub record Sdk : Type 0 where
  pub expand : String → List String → List String
  pub principals_equal : String → String → Bool
  pub deserialize : String → Option PortableDelegation
  pub sql_read : String
  pub sql_write : String
  pub sql_admin : String
  pub capabilities_read : String

-- The `reason` of a `DelegationPolicyError`.
pub data Reason : Type 0 where
  malformed wrong_delegatee expired missing_sql_resource wrong_db_handle insufficient_actions :
      Reason

-- What a check returns: nothing, or the error that it throws.
pub data Checked (E : Type 0) (A : Type 0) : Type 0 where
  ok : A → Checked E A
  err : E → Checked E A

infixl 5 ◌>>=◌ ◌>>◌
abbrev pub ◌>>=◌ : {E A B : Type 0} → Checked E A → (A → Checked E B) → Checked E B
ok a >>= f = f a
err e >>= f = err e

abbrev pub ◌>>◌ : {E B : Type 0} → Checked E (Unit {0}) → Checked E B → Checked E B
m >> k = m >>= λ _. k

abbrev pub passed : {E : Type 0} → Checked E (Unit {0})
passed = ok tt

-- `if (!test) throw e`.
abbrev pub unless : {E : Type 0} → Bool → E → Checked E (Unit {0})
unless Bool.true e = ok tt
unless Bool.false e = err e
