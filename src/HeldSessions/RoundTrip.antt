-- ===== src/HeldSessions/RoundTrip.antt =====
-- A published record is read back as it was.
use tinycloud_agents.Base.{
  ℕ, ◌≡◌, refl, ap, subst, ◌∙◌, inl, inr, Bool, true, ◌&&◌, ◌||◌, Option, none, some, String,
  is_some, text_eq, number_eq, ===-refl, Option-cases,
}
use tinycloud_agents.Delegation.{ok}
use tinycloud_agents.Delegation.Normalize.{Json, Platform, lookup}
use tinycloud_agents.SessionStore.{
  SessionRecord, SessionScope, SessionStore, SessionSnapshot, Revision, AccessState, active,
  activating, revoked, restoring, unconnected, disconnected, Staged, key, peek, staged,
}
use tinycloud_agents.HeldSessions.{
  HeldState, held_active, held_revoked, HeldSession, DesiredRecord, put, delete, keep, held_session,
  held_tombstone, put_active, put_staged, desired_for, desired_of, desired,
}
use tinycloud_agents.HeldSessions.Stored.{
  texts, times, tail, state_text, held_members, held_json, read_object, is_revision, optional_text,
  optional_time, required_time, state_named, is_held_revoked, read_members, parse_held_session,
}

texts-memory : (m t : Option String) → optional_text (lookup "memory" (texts m t)) ≡ ok m
unfolding texts lookup
texts-memory none none = refl
texts-memory none (some t) = refl
texts-memory (some m) t = refl

texts-transcripts : (m t : Option String) → optional_text (lookup "transcripts" (texts m t)) ≡ ok t
unfolding texts lookup
texts-transcripts none none = refl
texts-transcripts none (some t) = refl
texts-transcripts (some m) none = refl
texts-transcripts (some m) (some t) = refl

times-memory : (m t : Option ℕ) → optional_time (lookup "memory" (times m t)) ≡ ok m
unfolding times lookup
times-memory none none = refl
times-memory none (some t) = refl
times-memory (some m) t = refl

times-transcripts : (m t : Option ℕ) → optional_time (lookup "transcripts" (times m t)) ≡ ok t
unfolding times lookup
times-transcripts none none = refl
times-transcripts none (some t) = refl
times-transcripts (some m) none = refl
times-transcripts (some m) (some t) = refl

tail-room :
    (r : Option String) (v : Option ℕ) (t : ℕ) → optional_text (lookup "roomId" (tail r v t)) ≡ ok r
unfolding tail lookup
tail-room none none t = refl
tail-room none (some v) t = refl
tail-room (some r) v t = refl

tail-revoked :
    (r : Option String) (v : Option ℕ) (t : ℕ)
    → optional_time (lookup "revokedAt" (tail r v t)) ≡ ok v
unfolding tail lookup
tail-revoked none none t = refl
tail-revoked none (some v) t = refl
tail-revoked (some r) none t = refl
tail-revoked (some r) (some v) t = refl

tail-stored :
    (r : Option String) (v : Option ℕ) (t : ℕ)
    → required_time (lookup "storedAt" (tail r v t)) ≡ ok t
unfolding tail lookup
tail-stored none none t = refl
tail-stored none (some v) t = refl
tail-stored (some r) none t = refl
tail-stored (some r) (some v) t = refl

-- Both grants, unless the record is a tombstone.
abbrev pub is_complete : HeldSession → Bool
is_complete h = is_held_revoked h.state || (is_some h.memory && is_some h.transcripts)

state_named-text : (st : HeldState) → state_named (state_text st) ≡ ok st
state_named-text held_active = refl
state_named-text held_revoked = refl

held_members-read :
    (h : HeldSession) (scope : SessionScope)
    → scope.app_id ≡ h.app_id
    → scope.agent_id ≡ h.agent_id
    → is_revision h.revision ≡ true
    → is_complete h ≡ true
    → read_members scope h.entity_id (held_members h) ≡ ok h
unfolding read_members held_members lookup
held_members-read h scope app agent revision complete = rw (
  app,
  agent,
  ===-refl h.app_id,
  ===-refl h.agent_id,
  ===-refl h.entity_id,
  revision,
  state_named-text h.state,
  texts-memory h.memory h.transcripts,
  texts-transcripts h.memory h.transcripts,
  complete,
  times-memory h.expiries.memory h.expiries.transcripts,
  times-transcripts h.expiries.memory h.expiries.transcripts,
  tail-room h.room_id h.revoked_at h.stored_at,
  tail-revoked h.room_id h.revoked_at h.stored_at,
  tail-stored h.room_id h.revoked_at h.stored_at,
)

parse-held :
    (parse_json : String → Option Json) (stringify : Json → String) (h : HeldSession)
    (scope : SessionScope)
    → scope.app_id ≡ h.app_id
    → scope.agent_id ≡ h.agent_id
    → parse_json (stringify (held_json h)) ≡ some (held_json h)
    → is_revision h.revision ≡ true
    → is_complete h ≡ true
    → parse_held_session parse_json scope h.entity_id (stringify (held_json h)) ≡ ok h
parse-held parse_json stringify h scope app agent law revision complete =
    ap (read_object scope h.entity_id) law ∙ held_members-read h scope app agent revision complete

-- A record that is published carries the names of its entity.
abbrev IsNamed : SessionScope → String → DesiredRecord → Type 0
IsNamed scope entity_id (put h) =
    (scope.app_id ≡ h.app_id) × (scope.agent_id ≡ h.agent_id) × (h.entity_id ≡ entity_id)
IsNamed scope entity_id delete = Unit {0}
IsNamed scope entity_id keep = Unit {0}

module _ (platform : Platform) (scope : SessionScope) (entity_id : String) (now : ℕ) where
  put_active-IsNamed :
      (r : Revision) (held : Option SessionRecord)
      → IsNamed scope entity_id (put_active platform scope entity_id r now held)
  unfolding held_session
  put_active-IsNamed r none = tt
  put_active-IsNamed r (some rec) = elim (Option-cases rec.serialized_transcript_delegation) [
    | inl e ↦ rw e tt
    | inr (t, e) ↦ rw e (refl, refl, refl)
  ]

  put_staged-IsNamed :
      (st : Option Staged) → IsNamed scope entity_id (put_staged platform scope entity_id now st)
  unfolding held_session
  put_staged-IsNamed none = tt
  put_staged-IsNamed (some st) = (refl, refl, refl)

  desired_for-IsNamed :
      (st : Option Staged) (snap : SessionSnapshot) (state : AccessState)
      → IsNamed scope entity_id (desired_for platform scope entity_id now st snap state)
  unfolding desired_for held_tombstone
  desired_for-IsNamed st snap active = put_active-IsNamed snap.revision snap.session
  desired_for-IsNamed st snap activating = put_staged-IsNamed st
  desired_for-IsNamed st snap revoked = (refl, refl, refl)
  desired_for-IsNamed st snap restoring = tt
  desired_for-IsNamed st snap unconnected = tt
  desired_for-IsNamed st snap disconnected = tt

  desired_of-IsNamed :
      (st : Option Staged) (held : Option SessionSnapshot)
      → IsNamed scope entity_id (desired_of platform scope entity_id now st held)
  desired_of-IsNamed st none = tt
  desired_of-IsNamed st (some snap) = desired_for-IsNamed st snap snap.state

  desired-IsNamed :
      (s : SessionStore) → IsNamed scope entity_id (desired platform s scope entity_id now)
  unfolding desired
  desired-IsNamed s =
      desired_of-IsNamed (staged s (key scope entity_id)) (peek s (key scope entity_id))

  -- A record that is published for an entity is read back, for the same entity, as it was, if the
  -- parser of JSON reads what its printer prints of it, the printed revision has a valid length, and
  -- the record holds both grants or is a tombstone.
  pub desired-parse_held_session :
      (parse_json : String → Option Json) (stringify : Json → String) (s : SessionStore)
      (h : HeldSession)
      → desired platform s scope entity_id now ≡ put h
      → parse_json (stringify (held_json h)) ≡ some (held_json h)
      → is_revision h.revision ≡ true
      → is_complete h ≡ true
      → parse_held_session parse_json scope entity_id (stringify (held_json h)) ≡ ok h
  desired-parse_held_session parse_json stringify s h e law revision complete =
      let (app, agent, entity) = subst (IsNamed scope entity_id) e (desired-IsNamed s) in
      subst
        (λ (id : String). parse_held_session parse_json scope id (stringify (held_json h)) ≡ ok h)
        entity (parse-held parse_json stringify h scope app agent law revision complete)
