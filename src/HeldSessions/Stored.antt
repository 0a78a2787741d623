-- ===== src/HeldSessions/Stored.antt =====
-- delegation-store.ts: the JSON of a held session, and parseHeldSession.
--
-- JSON is the data type of Delegation/Normalize; its printer and parser are parameters. A field that
-- is undefined is left out of the printed object.
use Prim.Native.String.{[] as nil, ◌∷◌ as cons}
use tinycloud_agents.Base.{
  ℕ, suc, Bool, true, false, ◌&&◌, ◌||◌, Option, none, some, String, ltb, leb, is_some,
  if◌then◌else◌, ◌===◌, text_eq, number_eq,
}
use tinycloud_agents.Delegation.{Checked, ok, err, ◌>>=◌, ◌>>◌, unless}
use tinycloud_agents.Delegation.Normalize.{
  Json, text, number, array, object, Members, no_member, member, lookup,
}
use tinycloud_agents.SessionStore.{SessionScope}
use tinycloud_agents.HeldSessions.{HeldState, held_active, held_revoked, HeldSession}

pub data ReadFailure : Type 0 where
  invalid_record : ReadFailure

abbrev pub with_text : String → Option String → Members → Members
with_text name none rest = rest
with_text name (some s) rest = member name (text s) rest

abbrev pub with_time : String → Option ℕ → Members → Members
with_time name none rest = rest
with_time name (some t) rest = member name (number t) rest

abbrev pub state_text : HeldState → String
state_text held_active = "active"
state_text held_revoked = "revoked"

unfoldable pub texts : Option String → Option String → Members
texts memory transcripts = with_text "memory" memory (with_text "transcripts" transcripts no_member)

unfoldable pub times : Option ℕ → Option ℕ → Members
times memory transcripts = with_time "memory" memory (with_time "transcripts" transcripts no_member)

unfoldable pub tail : Option String → Option ℕ → ℕ → Members
tail room_id revoked_at stored_at =
    with_text "roomId" room_id
      (with_time "revokedAt" revoked_at (member "storedAt" (number stored_at) no_member))

-- What `JSON.stringify` is given.
unfoldable pub held_members : HeldSession → Members
held_members h = member "v" (number 1) (
    member "kind" (text "tinychat-session") (
      member "appId" (text h.app_id) (
        member "agentId" (text h.agent_id) (
          member "entityId" (text h.entity_id) (
            member "revision" (text h.revision) (
              member "state" (text (state_text h.state)) (
                member "delegations" (object (texts h.memory h.transcripts)) (
                  member "expiries" (object (times h.expiries.memory h.expiries.transcripts))
                    (tail h.room_id h.revoked_at h.stored_at)))))))))

abbrev pub held_json : HeldSession → Json
held_json h = object (held_members h)

abbrev pub text_length : String → ℕ
text_length nil = 0
text_length (cons c s) = suc (text_length s)

-- Not empty, and at most 256 characters; the source counts the units of UTF-16, which are more
-- where a character lies beyond the first 65536.
unfoldable pub is_revision : String → Bool
is_revision s = ltb 0 (text_length s) && leb (text_length s) 256

abbrev pub is_number : ℕ → Option Json → Bool
is_number n (some (number m)) = m === n
is_number n _ = false

abbrev pub is_text : String → Option Json → Bool
is_text s (some (text t)) = t === s
is_text s _ = false

abbrev pub required_text : Option Json → Checked ReadFailure String
required_text (some (text s)) = ok s
required_text _ = err invalid_record

abbrev pub required_time : Option Json → Checked ReadFailure ℕ
required_time (some (number n)) = ok n
required_time _ = err invalid_record

abbrev pub optional_text : Option Json → Checked ReadFailure (Option String)
optional_text none = ok none
optional_text (some (text s)) = ok (some s)
optional_text (some _) = err invalid_record

abbrev pub optional_time : Option Json → Checked ReadFailure (Option ℕ)
optional_time none = ok none
optional_time (some (number n)) = ok (some n)
optional_time (some _) = err invalid_record

-- An array is an object without these members.
abbrev pub required_object : Option Json → Checked ReadFailure Members
required_object (some (object ms)) = ok ms
required_object (some (array es)) = ok no_member
required_object _ = err invalid_record

abbrev pub state_named : String → Checked ReadFailure HeldState
state_named s =
    if s === "active"
    then ok held_active
    else if s === "revoked"
    then ok held_revoked
    else err invalid_record

abbrev pub is_held_revoked : HeldState → Bool
is_held_revoked held_active = false
is_held_revoked held_revoked = true

unfoldable pub read_members : SessionScope → String → Members → Checked ReadFailure HeldSession
read_members scope entity_id ms = do
  unless (is_number 1 (lookup "v" ms)) invalid_record
  unless (is_text "tinychat-session" (lookup "kind" ms)) invalid_record
  unless (is_text scope.app_id (lookup "appId" ms)) invalid_record
  unless (is_text scope.agent_id (lookup "agentId" ms)) invalid_record
  unless (is_text entity_id (lookup "entityId" ms)) invalid_record
  revision ← required_text (lookup "revision" ms)
  unless (is_revision revision) invalid_record
  name ← required_text (lookup "state" ms)
  state ← state_named name
  delegations ← required_object (lookup "delegations" ms)
  memory ← optional_text (lookup "memory" delegations)
  transcripts ← optional_text (lookup "transcripts" delegations)
  unless (is_held_revoked state || (is_some memory && is_some transcripts)) invalid_record
  expiries ← required_object (lookup "expiries" ms)
  memory_expiry ← optional_time (lookup "memory" expiries)
  transcripts_expiry ← optional_time (lookup "transcripts" expiries)
  room_id ← optional_text (lookup "roomId" ms)
  revoked_at ← optional_time (lookup "revokedAt" ms)
  stored_at ← required_time (lookup "storedAt" ms)
  ok (record {
    app_id = scope.app_id;
    agent_id = scope.agent_id;
    entity_id = entity_id;
    revision = revision;
    state = state;
    memory = memory;
    transcripts = transcripts;
    expiries = record { memory = memory_expiry; transcripts = transcripts_expiry };
    room_id = room_id;
    revoked_at = revoked_at;
    stored_at = stored_at;
  })

abbrev pub read_object : SessionScope → String → Option Json → Checked ReadFailure HeldSession
read_object scope entity_id (some (object ms)) = read_members scope entity_id ms
read_object scope entity_id _ = err invalid_record

abbrev pub parse_held_session :
    (String → Option Json) → SessionScope → String → String → Checked ReadFailure HeldSession
parse_held_session parse_json scope entity_id raw = read_object scope entity_id (parse_json raw)
