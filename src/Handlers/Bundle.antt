-- ===== src/Handlers/Bundle.antt =====
-- handlers/sessions.ts: validateBundle, the checks that a new connection and a reload share.
use tinycloud_agents.Base.{
  ℕ, ◌+◌, ◌*◌, Bool, false, Option, none, some, [], ◌∷◌, String, ltb, if◌then◌else◌, ◌===◌, text_eq,
  min,
}
use tinycloud_agents.Delegation.{
  PortableDelegation, Sdk, Reason, malformed, wrong_delegatee, expired, missing_sql_resource,
  wrong_db_handle, insufficient_actions, Checked, ok, err, ◌>>=◌, ◌>>◌, unless,
}
use tinycloud_agents.Delegation.Text.{split, strip_bearer}
use tinycloud_agents.Delegation.Policy.{
  deserialize_delegation_safe, default_eliza_memory_policy, default_tinychat_transcript_policy,
  validate_delegation_policy, validate_exact_delegation_policy, expiry_time, default_db_handle,
}
use tinycloud_agents.Delegation.Shape.{validate_delegation_shape}
use tinycloud_agents.Delegation.Normalize.{
  Json, text, number, object, Platform, lookup, deserialize_and_normalize,
  deserialize_transcript_delegation_for_activation, signed_owner_address,
}
use tinycloud_agents.SessionStore.{Expiries, SessionRecord}
use tinycloud_agents.Handlers.{HandlerResult, failing_with}

pub record BundleInput : Type 0 where
  pub memory : String
  pub transcripts : Option String
  pub room_id : Option String

pub record ValidatedBundle : Type 0 where
  pub memory : String
  pub transcripts : Option String
  pub room_id : Option String
  pub expiries : Expiries

-- 30 days.
unfoldable pub max_grant_expiry_ms : ℕ
max_grant_expiry_ms = 30 * 24 * 60 * 60 * 1000

unfoldable pub transcript_error_code : Reason → String
transcript_error_code wrong_delegatee = "wrong_delegatee"
transcript_error_code expired = "delegation_expired"
transcript_error_code insufficient_actions = "transcript_policy_exceeded"
transcript_error_code malformed = "malformed"
transcript_error_code missing_sql_resource = "malformed"
transcript_error_code wrong_db_handle = "malformed"

-- `reason.toLowerCase()`.
unfoldable pub reason_code : Reason → String
reason_code malformed = "malformed"
reason_code wrong_delegatee = "wrong_delegatee"
reason_code expired = "expired"
reason_code missing_sql_resource = "missing_sql_resource"
reason_code wrong_db_handle = "wrong_db_handle"
reason_code insufficient_actions = "insufficient_actions"

abbrev pub failing : {A E F : Type 0} → (E → F) → Checked E A → Checked F A
failing f (ok a) = ok a
failing f (err e) = err (f e)

abbrev pub member : String → Json → Option Json
member key (object members) = lookup key members
member key _ = none

abbrev pub later : ℕ → ℕ → ℕ
later a b = if ltb a b then b else a

module _ (sdk : Sdk) (platform : Platform) (parse_json : String → Option Json) where
  -- The `exp` claim of a token; times are whole seconds from the epoch.
  unfoldable pub exp_claim : String → Option ℕ
  exp_claim auth = elim (split 46 (strip_bearer auth)) [
    | [] ↦ none
    | head ∷ rest ↦ elim rest [
      | [] ↦ none
      | segment ∷ more ↦ if segment === "" then none else elim (platform.parse_segment segment) [
        | none ↦ none
        | some payload ↦ elim (member "exp" payload) [ some (number n) ↦ some n | _ ↦ none ]
      ]
    ]
  ]

  unfoldable pub signed_expiry_seconds : String → Option ℕ
  signed_expiry_seconds serialized = elim (parse_json serialized) [
    | none ↦ none
    | some parsed ↦ elim (member "delegationHeader" parsed) [
      | none ↦ none
      | some header ↦ elim (member "Authorization" header) [
        | some (text auth) ↦ exp_claim auth
        | _ ↦ none
      ]
    ]
  ]

  -- The later of the signed claim and the summary.
  unfoldable pub effective_expiry : String → PortableDelegation → Option ℕ
  effective_expiry serialized d = elim (expiry_time d.expiry) [
    | none ↦ none
    | some summary ↦ elim (signed_expiry_seconds serialized) [
      | none ↦ some summary
      | some seconds ↦ some (later summary (seconds * 1000))
    ]
  ]

  -- The expiry, if it is known and lies within the ceiling.
  unfoldable pub within_ceiling : ℕ → Option ℕ → Checked HandlerResult ℕ
  within_ceiling now none = err (failing_with 400 "delegation_expiry_too_long")
  within_ceiling now (some t) =
      if ltb (now + max_grant_expiry_ms) t
      then err (failing_with 400 "delegation_expiry_too_long")
      else ok t

  unfoldable pub same_owner : Option String → Option String → Bool
  same_owner none b = false
  same_owner (some a) none = false
  same_owner (some a) (some b) = platform.lower a === platform.lower b

  abbrev by_transcript_code : Reason → HandlerResult
  by_transcript_code reason = failing_with 400 (transcript_error_code reason)

  -- The block about the transcript grant.
  unfoldable pub transcript_expiry : String → String → String → ℕ → Checked HandlerResult ℕ
  transcript_expiry memory transcripts agent_did now = do
    d ←
        failing by_transcript_code
          (deserialize_transcript_delegation_for_activation platform sdk transcripts)
    failing by_transcript_code (
        validate_exact_delegation_policy sdk d agent_did (default_tinychat_transcript_policy sdk)
          now)
    t ← within_ceiling now (effective_expiry transcripts d)
    owned ← failing by_transcript_code (deserialize_and_normalize platform sdk memory)
    unless (same_owner (signed_owner_address platform owned) (signed_owner_address platform d))
        (failing_with 400 "wrong_delegator")
    ok t

  unfoldable pub transcripts_checked :
      String → Option String → String → ℕ → Checked HandlerResult (Option ℕ)
  transcripts_checked memory none agent_did now = ok none
  transcripts_checked memory (some transcripts) agent_did now = do
    t ← transcript_expiry memory transcripts agent_did now
    ok (some t)

  unfoldable pub validate_bundle : BundleInput → String → ℕ → Checked HandlerResult ValidatedBundle
  validate_bundle input agent_did now = do
    d ← failing (λ r. failing_with 400 "malformed") (deserialize_delegation_safe sdk input.memory)
    transcripts ← transcripts_checked input.memory input.transcripts agent_did now
    failing (λ e. failing_with 400 "invalid_shape") (validate_delegation_shape d agent_did now)
    failing (λ r. failing_with 400 (reason_code r))
        (validate_delegation_policy sdk d agent_did
          (default_eliza_memory_policy sdk default_db_handle) now)
    t ← within_ceiling now (effective_expiry input.memory d)
    ok (record {
      memory = input.memory;
      transcripts = input.transcripts;
      room_id = input.room_id;
      expiries = record { memory = some t; transcripts = transcripts };
    })

-- The earliest of the expiries that are known.
unfoldable pub earliest : Expiries → Option ℕ
earliest e = elim e.memory [
  | none ↦ e.transcripts
  | some m ↦ elim e.transcripts [ none ↦ some m | some t ↦ some (min m t) ]
]

unfoldable pub bundle_record : String → ValidatedBundle → SessionRecord
bundle_record agent_id bundle = record {
  agent_id = agent_id;
  serialized_delegation = bundle.memory;
  serialized_transcript_delegation = bundle.transcripts;
  room_id = bundle.room_id;
  exp = earliest bundle.expiries;
  expiries = some bundle.expiries;
}
