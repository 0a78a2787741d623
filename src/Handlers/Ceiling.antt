-- ===== src/Handlers/Ceiling.antt =====
-- What a bundle that passes validateBundle is.
use tinycloud_agents.Base.{
  ℕ, ◌+◌, ◌≤◌, ◌≡◌, refl, sym, subst, true, Option, none, some, String, All, arith,
}
use tinycloud_agents.Delegation.{PortableDelegation, Sdk, Reason, Checked, ok, err, unless}
use tinycloud_agents.Delegation.Chains.{bind_ok, unless_ok, ok_inv}
use tinycloud_agents.Delegation.Policy.{
  deserialize_delegation_safe, default_eliza_memory_policy, default_tinychat_transcript_policy,
  validate_delegation_policy, validate_exact_delegation_policy, default_db_handle,
  resources_or_empty,
}
use tinycloud_agents.Delegation.Shape.{
  ShapeError, validate_delegation_shape, IsShaped, validate_delegation_shape_iff,
}
use tinycloud_agents.Delegation.Normalize.{
  Json, Platform, deserialize_and_normalize, deserialize_transcript_delegation_for_activation,
  signed_owner_address,
}
use tinycloud_agents.Delegation.Covers.{Accepts}
use tinycloud_agents.Delegation.Accepted.{validate_delegation_policy_iff}
use tinycloud_agents.Delegation.Exact.{Permits, validate_exact_delegation_policy_iff}
use tinycloud_agents.Handlers.{failing_with}
use tinycloud_agents.Handlers.Bundle.{
  BundleInput, ValidatedBundle, max_grant_expiry_ms, failing, effective_expiry, within_ceiling,
  same_owner, transcript_expiry, transcripts_checked, validate_bundle, reason_code,
  transcript_error_code,
}

failing_ok : {A E F : Type 0} (g : E → F) (m : Checked E A) (a : A) → failing g m ≡ ok a → m ≡ ok a
failing_ok g (ok x) a e = cc e
failing_ok g (err x) a e = absurd (cc e)

module _ (sdk : Sdk) (platform : Platform) (parse_json : String → Option Json) (agent_did : String)
    (now : ℕ) where
  -- An expiry that is known, is this one, and lies at most 30 days ahead.
  abbrev pub LiesWithin : Option ℕ → ℕ → Type 0
  LiesWithin known t = (known ≡ some t) × (t ≤ now + max_grant_expiry_ms)

  within_ceiling-LiesWithin :
      (known : Option ℕ) (t : ℕ)
      → within_ceiling sdk platform parse_json now known ≡ ok t
      → LiesWithin known t
  unfolding within_ceiling
  within_ceiling-LiesWithin none t e = absurd (cc e)
  within_ceiling-LiesWithin (some x) t e = ground (arith, e)

  -- A transcript grant beside a memory grant: the exact policy accepts it, it expires at `t`, and
  -- the signed owners of the two are known and the same.
  pub record IsTranscriptGrant (memory transcripts : String) (t : ℕ) : Type 0 where
    pub d : PortableDelegation
    pub owned : PortableDelegation
    pub read : deserialize_transcript_delegation_for_activation platform sdk transcripts ≡ ok d
    pub normalized : deserialize_and_normalize platform sdk memory ≡ ok owned
    pub accepted : Accepts sdk d agent_did (default_tinychat_transcript_policy sdk) now
    pub nothing_more :
        All
          (Permits sdk (default_tinychat_transcript_policy sdk).resources)
          (resources_or_empty d.resources)
    pub within : LiesWithin (effective_expiry sdk platform parse_json transcripts d) t
    pub owner :
        same_owner sdk platform parse_json
          (signed_owner_address platform owned)
          (signed_owner_address platform d)
        ≡ true

  transcript_expiry-IsTranscriptGrant :
      (memory transcripts : String) (t : ℕ)
      → transcript_expiry sdk platform parse_json memory transcripts agent_did now ≡ ok t
      → IsTranscriptGrant memory transcripts t
  unfolding transcript_expiry
  transcript_expiry-IsTranscriptGrant memory transcripts t e =
      let code = λ (r : Reason). failing_with 400 (transcript_error_code r) in
      let read = deserialize_transcript_delegation_for_activation platform sdk transcripts in
      let (d, e1, r1) = bind_ok (failing code read) _ t e in
      let exact =
        validate_exact_delegation_policy sdk d agent_did (default_tinychat_transcript_policy sdk)
          now in
      let (u, e2, r2) = bind_ok (failing code exact) _ t r1 in
      let (x, e3, r3) =
        bind_ok
          (within_ceiling sdk platform parse_json now
            (effective_expiry sdk platform parse_json transcripts d))
          _ t r2 in
      let (owned, e4, r4) =
        bind_ok (failing code (deserialize_and_normalize platform sdk memory)) _ t r3 in
      let (v, e5, r5) =
        bind_ok
          (unless
            (same_owner sdk platform parse_json (signed_owner_address platform owned)
              (signed_owner_address platform d))
            (failing_with 400 "wrong_delegator"))
          _ t r4 in
      let (accepted, nothing_more) =
        (validate_exact_delegation_policy_iff sdk d agent_did
            (default_tinychat_transcript_policy sdk) now).0
          (failing_ok code exact tt e2) in
      record {
        d = d;
        owned = owned;
        read = failing_ok code read d e1;
        normalized = failing_ok code (deserialize_and_normalize platform sdk memory) owned e4;
        accepted = accepted;
        nothing_more = nothing_more;
        within =
            subst (LiesWithin (effective_expiry sdk platform parse_json transcripts d))
              (ok_inv x t r5) (within_ceiling-LiesWithin _ x e3);
        owner = unless_ok _ (failing_with 400 "wrong_delegator") e5;
      }

  abbrev pub HasTranscripts : String → Option String → Option ℕ → Type 0
  HasTranscripts memory none t = t ≡ none
  HasTranscripts memory (some transcripts) t =
      (x : ℕ) × (t ≡ some x) × IsTranscriptGrant memory transcripts x

  transcripts_checked-HasTranscripts :
      (memory : String) (transcripts : Option String) (t : Option ℕ)
      → transcripts_checked sdk platform parse_json memory transcripts agent_did now ≡ ok t
      → HasTranscripts memory transcripts t
  unfolding transcripts_checked
  transcripts_checked-HasTranscripts memory none t e = sym (ok_inv none t e)
  transcripts_checked-HasTranscripts memory (some transcripts) t e =
      let (x, e1, r1) =
        bind_ok (transcript_expiry sdk platform parse_json memory transcripts agent_did now) _ t
          e in
      (x, sym (ok_inv (some x) t r1), transcript_expiry-IsTranscriptGrant memory transcripts x e1)

  -- A bundle that may be activated. The memory grant passes the shape check and the memory policy,
  -- and expires, by its signed claim and by its summary, at the time recorded, at most 30 days
  -- ahead; the transcript grant, if there is one, is such a grant beside it.
  pub record IsSound (input : BundleInput) (bundle : ValidatedBundle) : Type 0 where
    pub d : PortableDelegation
    pub memory_expiry : ℕ
    pub same_memory : bundle.memory ≡ input.memory
    pub same_transcripts : bundle.transcripts ≡ input.transcripts
    pub read : deserialize_delegation_safe sdk input.memory ≡ ok d
    pub shaped : IsShaped d agent_did now
    pub accepted : Accepts sdk d agent_did (default_eliza_memory_policy sdk default_db_handle) now
    pub within : LiesWithin (effective_expiry sdk platform parse_json input.memory d) memory_expiry
    pub recorded : bundle.expiries.memory ≡ some memory_expiry
    pub transcripts : HasTranscripts input.memory input.transcripts bundle.expiries.transcripts

  -- A bundle that passes has a memory grant that passes the shape check and the memory policy, and
  -- a transcript grant, if it has one, that the exact transcript policy accepts, and the signed
  -- owners of the two are known and equal but for the case of letters; and the expiries that it
  -- records are theirs, and lie at most 30 days ahead.
  pub validate_bundle-IsSound :
      (input : BundleInput) (bundle : ValidatedBundle)
      → validate_bundle sdk platform parse_json input agent_did now ≡ ok bundle
      → IsSound input bundle
  unfolding validate_bundle
  validate_bundle-IsSound input bundle e =
      let unread = λ (r : Reason). failing_with 400 "malformed" in
      let misshapen = λ (x : ShapeError). failing_with 400 "invalid_shape" in
      let refused = λ (r : Reason). failing_with 400 (reason_code r) in
      let (d, e1, r1) =
        bind_ok (failing unread (deserialize_delegation_safe sdk input.memory)) _ bundle e in
      let (ts, e2, r2) =
        bind_ok
          (transcripts_checked sdk platform parse_json input.memory input.transcripts agent_did now)
          _ bundle r1 in
      let shape = validate_delegation_shape d agent_did now in
      let (u, e3, r3) = bind_ok (failing misshapen shape) _ bundle r2 in
      let policy =
        validate_delegation_policy sdk d agent_did
          (default_eliza_memory_policy sdk default_db_handle) now in
      let (v, e4, r4) = bind_ok (failing refused policy) _ bundle r3 in
      let (t, e5, r5) =
        bind_ok
          (within_ceiling sdk platform parse_json now
            (effective_expiry sdk platform parse_json input.memory d))
          _ bundle r4 in
      subst (IsSound input) (ok_inv _ bundle r5) (record {
        d = d;
        memory_expiry = t;
        same_memory = refl;
        same_transcripts = refl;
        read = failing_ok unread (deserialize_delegation_safe sdk input.memory) d e1;
        shaped =
            (validate_delegation_shape_iff d agent_did now).0 (failing_ok misshapen shape tt e3);
        accepted =
            (validate_delegation_policy_iff sdk d agent_did
                (default_eliza_memory_policy sdk default_db_handle) now).0
              (failing_ok refused policy tt e4);
        within = within_ceiling-LiesWithin _ t e5;
        recorded = refl;
        transcripts = transcripts_checked-HasTranscripts input.memory input.transcripts ts e2;
      })
