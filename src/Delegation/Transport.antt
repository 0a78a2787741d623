-- ===== src/Delegation/Transport.antt =====
-- packages/agent-client/src/delegated-transport.ts: the activation of a delegation, and the checks
-- before it.
pub mod Vetting
mod Tests
use tinycloud_agents.Base.{
  ℕ, Bool, true, false, ◌||◌, not, Option, none, some, List, String, if◌then◌else◌, ◌===◌, text_eq,
}
use tinycloud_agents.Delegation.{
  PortableDelegation, Sdk, Reason, malformed, Checked, ok, err, ◌>>=◌, ◌>>◌, unless, passed,
}
use tinycloud_agents.Delegation.Text.{trim}
use tinycloud_agents.Delegation.Shape.{ShapeError, validate_delegation_shape}
use tinycloud_agents.Delegation.Policy.{
  deserialize_delegation_safe, default_eliza_memory_policy, validate_delegation_policy, falsy,
}
use tinycloud_agents.Delegation.Normalize.{
  Platform, normalize_delegation_grants, signed_owner_address,
}
use tinycloud_agents.Session.{SignInResult}

pub record AgentIdentity : Type 0 where
  pub did : String
  pub normalized_key : String

pub record DelegationConfig : Type 0 where
  pub serialized_delegation : Option String
  pub delegation_file : Option String
  pub agent_key : Option String
  pub agent_key_file : Option String
  pub db_handle : String

-- `readFileSync` and the two makers of an identity, `none` where they throw.
pub record Files : Type 0 where
  pub read_file : String → Option String
  pub identity_from_key : String → Option AgentIdentity
  pub identity_from_file : String → Option AgentIdentity

pub data Failure : Type 0 where
  no_delegation_source no_key_source unreadable_file no_identity activation_failed : Failure
  bad_policy : Reason → Failure
  bad_shape : ShapeError → Failure

-- Rethrows an error as a failure.
abbrev pub failing : {E A : Type 0} → (E → Failure) → Checked E A → Checked Failure A
failing f (ok a) = ok a
failing f (err e) = err (f e)

abbrev pub orelse : {A : Type 0} → Failure → Option A → Checked Failure A
orelse e none = err e
orelse e (some a) = ok a

abbrev pub is_given : Option String → Bool
is_given s = not (falsy s)

-- What is handed to the activator.
pub record Prepared : Type 0 where
  pub delegation : PortableDelegation
  pub identity : AgentIdentity
  pub signed_address : Option String

-- `_access`, by its space, and `_cachedSignInResult`.
pub record DelegatedTransport : Type 0 where
  pub access : Option String
  pub cached : Option SignInResult

pub new : DelegatedTransport
new = record { access = none; cached = none }

pub invalidate : DelegatedTransport → DelegatedTransport
invalidate t = record t { access = none; cached = none }

pub data SignIn : Type 0 where
  answers : SignInResult → SignIn
  fails : Failure → SignIn
  activates : Prepared → SignIn

module _ (sdk : Sdk) (platform : Platform) (files : Files) (config : DelegationConfig) where
  -- A text that is there is taken, even the empty one.
  pub serialized_source : Checked Failure String
  serialized_source = elim config.serialized_delegation [
    | some serialized ↦ if serialized === "" then err no_delegation_source else ok serialized
    | none ↦ elim config.delegation_file [
      | none ↦ err no_delegation_source
      | some path ↦ if path === "" then err no_delegation_source else do
        contents ← orelse unreadable_file (files.read_file path)
        if trim contents === "" then err no_delegation_source else ok (trim contents)
    ]
  ]

  abbrev text_of : Option String → String
  text_of none = ""
  text_of (some s) = s

  pub agent_identity : Checked Failure AgentIdentity
  agent_identity =
      if is_given config.agent_key
      then orelse no_identity (files.identity_from_key (text_of config.agent_key))
      else if is_given config.agent_key_file
      then orelse no_identity (files.identity_from_file (text_of config.agent_key_file))
      else err no_key_source

  -- The owner that the signed spaces name is the one that the delegation claims.
  pub owner_agrees : Option String → Option String → Bool
  owner_agrees none owner = true
  owner_agrees (some signed) none = true
  owner_agrees (some signed) (some owner) =
      if signed === "" || owner === "" then true else platform.lower signed === platform.lower owner

  -- `signIn` from the source of the delegation up to the activation.
  pub prepare : ℕ → Checked Failure Prepared
  prepare now = do
    serialized ← serialized_source
    identity ← agent_identity
    parsed ← failing bad_policy (deserialize_delegation_safe sdk serialized)
    delegation ← failing bad_policy (normalize_delegation_grants platform parsed)
    failing bad_shape (validate_delegation_shape delegation identity.did now)
    failing bad_policy (
        validate_delegation_policy sdk delegation identity.did
          (default_eliza_memory_policy sdk config.db_handle) now)
    unless (owner_agrees (signed_owner_address platform delegation) delegation.owner_address)
        (bad_policy malformed)
    ok (record {
      delegation = delegation;
      identity = identity;
      signed_address = signed_owner_address platform delegation;
    })

  -- `signIn` up to its wait for the activator.
  pub sign_in : ℕ → DelegatedTransport → SignIn
  sign_in now t = elim t.access [
    | none ↦ elim (prepare now) [ ok p ↦ activates p | err e ↦ fails e ]
    | some space ↦ elim t.cached [
      | some r ↦ answers r
      | none ↦ elim (prepare now) [ ok p ↦ activates p | err e ↦ fails e ]
    ]
  ]

  -- The rest of it, with the space of the activated access, or `none` where the activator throws.
  pub activated :
      Prepared
      → Option String
      → DelegatedTransport
      → DelegatedTransport × Checked Failure SignInResult
  activated p none t = (t, err activation_failed)
  activated p (some space) t =
      let r : SignInResult = record {
        space_id = space;
        address = elim p.signed_address [ some a ↦ a | none ↦ text_of p.delegation.owner_address ];
        did = p.identity.did;
      } in
      (record { access = some space; cached = some r }, ok r)

  -- The handle that a query uses: `none` stands for the error NOT_ACTIVATED.
  pub active_handle : DelegatedTransport → Option (String × String)
  active_handle t = elim t.access [ none ↦ none | some space ↦ some (space, config.db_handle) ]
