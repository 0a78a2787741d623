-- ===== src/Handlers/Confirmed.antt =====
-- When POST /sessions confirms, and what a Disconnect does to one that waits.
use tinycloud_agents.Base.{
  ◌≡◌, refl, ◌⊎◌, inl, inr, Bool, true, false, Option, none, some, List, [], ◌∷◌, if◌then◌else◌,
  ◌===◌, number_eq, arith, Bool-cases,
}
use tinycloud_agents.SessionStore.{
  SessionStore, SessionRecord, key_eq, holding, is_current, commit, stage, fail, disconnect, Op,
  apply, run,
}
use tinycloud_agents.SessionStore.Moves.{entry}
use tinycloud_agents.SessionStore.Handshake.{commit-entry}
use tinycloud_agents.SessionStore.Fencing.{IsIssued, Fenced, disconnect-Fenced}
use tinycloud_agents.Delegation.{Reason}
use tinycloud_agents.Handlers.{stale}
use tinycloud_agents.Handlers.Bundle.{bundle_record}
use tinycloud_agents.Handlers.Post.{
  Ceremony, Phase, detaching, opening_storage, registering_memory, registering_transcripts,
  persisting, cleaning_up, Answer, returned, threw, Turn, waits, answers, raises, failed, confirm,
  publish, activated, proceed, continue, resume,
}

-- Calls on the store that come in between, and the ends of awaited calls.
pub data Event : Type 0 where
  other : Op → Event
  ends : Answer → Event

unfoldable pub play : Ceremony → SessionStore → Phase → List Event → SessionStore × Turn Phase
play c s phase [] = (s, waits phase)
play c s phase (other o ∷ es) = play c (apply s o) phase es
play c s phase (ends a ∷ es) = elim (resume c s phase a).1 [
  | waits next ↦ play c (resume c s phase a).0 next es
  | answers r ↦ ((resume c s phase a).0, answers r)
  | raises ↦ ((resume c s phase a).0, raises)
]

abbrev pub confirms : Turn Phase → Bool
confirms (waits phase) = false
confirms (answers r) = r.status === 200
confirms raises = false

-- The ceremony's calls all return, in their order, private access is available once both grants are
-- registered, and the write, if there is a persistence, is durable.
unfoldable pub succeeds : Bool → Phase → List Event → Bool
succeeds persists phase [] = false
succeeds persists phase (other o ∷ es) = succeeds persists phase es
succeeds persists phase (ends (threw reason) ∷ es) = false
succeeds persists detaching (ends (returned b) ∷ es) = succeeds persists opening_storage es
succeeds persists opening_storage (ends (returned b) ∷ es) = succeeds persists registering_memory es
succeeds persists registering_memory (ends (returned b) ∷ es) =
    succeeds persists registering_transcripts es
succeeds persists registering_transcripts (ends (returned b) ∷ es) =
    let rest = succeeds persists persisting es in
    if b then (if persists then rest else true) else false
succeeds persists persisting (ends (returned b) ∷ es) = b
succeeds persists (cleaning_up reason) (ends (returned b) ∷ es) = false

abbrev pub record_of : Ceremony → SessionRecord
record_of c = bundle_record c.agent_id c.bundle

-- The entity is active, with this bundle, under the lease's revision.
abbrev pub IsConnected : Ceremony → SessionStore → Type 0
IsConnected c t = entry t c.lease.key ≡ some (holding c.lease.revision (record_of c))

confirm-IsConnected :
    (c : Ceremony) (s : SessionStore)
    → confirms (confirm c s).1 ≡ true
    → IsConnected c (confirm c s).0
unfolding confirm
confirm-IsConnected c s e = elim (Bool-cases (commit s c.lease.key c.lease (record_of c)).1) [
  | inl done ↦ commit-entry s c.lease (record_of c) done
  | inr missed ↦ absurd (ground (arith, e, missed))
]

-- What a run that confirms shows, with `b` for whether the calls succeed.
abbrev Shows : Ceremony → Bool → SessionStore × Turn Phase → Type 0
Shows c b x = confirms x.1 ≡ true → (b ≡ true) × IsConnected c x.0

confirm-Shows : (c : Ceremony) (s : SessionStore) → Shows c true (confirm c s)
confirm-Shows c s e = (refl, confirm-IsConnected c s e)

failed_waits :
    (c : Ceremony) (s : SessionStore) (reason : Option Reason)
    → (failed c s reason ≡ (s, answers stale))
      ⊎ (failed c s reason ≡ (fail s c.lease.key c.lease, waits (cleaning_up reason)))
unfolding failed
failed_waits c s reason = elim (Bool-cases (is_current s c.lease)) [
  | inl now ↦ inr (rw (now))
  | inr old ↦ inl (rw (old))
]

cleaning_up-Shows :
    (c : Ceremony) (s : SessionStore) (reason : Option Reason) (es : List Event) (b : Bool)
    → Shows c b (play c s (cleaning_up reason) es)
unfolding play resume
cleaning_up-Shows c s reason [] b e = absurd (cc e)
cleaning_up-Shows c s reason (other o ∷ es) b e = cleaning_up-Shows c (apply s o) reason es b e
cleaning_up-Shows c s (some reason) (ends a ∷ es) b e = absurd (cc e)
cleaning_up-Shows c s none (ends a ∷ es) b e = absurd (cc e)

-- The run after a resumed ceremony.
abbrev after : Ceremony → List Event → SessionStore × Turn Phase → SessionStore × Turn Phase
after c es x = elim x.1 [
  | waits next ↦ play c x.0 next es
  | answers r ↦ (x.0, answers r)
  | raises ↦ (x.0, raises)
]

failed-Shows :
    (c : Ceremony) (s : SessionStore) (reason : Option Reason) (es : List Event) (b : Bool)
    → Shows c b (after c es (failed c s reason))
failed-Shows c s reason es b = elim (failed_waits c s reason) [
  | inl e ↦ rw e (λ x. absurd (cc x))
  | inr e ↦ rw e (cleaning_up-Shows c (fail s c.lease.key c.lease) reason es b)
]

publish-Shows :
    (c : Ceremony) (s : SessionStore) (es : List Event) (b : Bool)
    → ((t : SessionStore) → Shows c b (play c t persisting es))
    → Shows c b (after c es (publish c s))
unfolding publish
publish-Shows c s es b next = elim (Bool-cases (stage s c.lease.key c.lease (record_of c)).1) [
  | inl done ↦ rw done (next _)
  | inr missed ↦ rw missed (λ x. absurd (cc x))
]

confirm-after :
    (c : Ceremony) (s : SessionStore) (es : List Event) → after c es (confirm c s) ≡ confirm c s
unfolding confirm
confirm-after c s es = elim (Bool-cases (commit s c.lease.key c.lease (record_of c)).1) [
  | inl done ↦ rw done
  | inr missed ↦ rw missed
]

either_Shows :
    (c : Ceremony) (es : List Event) (p b : Bool) (x y : SessionStore × Turn Phase)
    → Shows c b (after c es x)
    → Shows c true (after c es y)
    → Shows c (if p then b else true) (after c es (if p then x else y))
either_Shows c es true b x y here there = here
either_Shows c es false b x y here there = there

activated-Shows :
    (c : Ceremony) (s : SessionStore) (es : List Event) (b : Bool)
    → ((t : SessionStore) → Shows c b (play c t persisting es))
    → Shows c (if c.persists then b else true) (after c es (activated c s))
unfolding activated
activated-Shows c s es b next =
    either_Shows c es c.persists b (publish c s) (confirm c s) (publish-Shows c s es b next)
      (rw (confirm-after c s es) (confirm-Shows c s))

continue-Shows :
    (c : Ceremony) (s : SessionStore) (phase : Phase) (x b : Bool) (es : List Event)
    → Shows c b (after c es (proceed c s phase x))
    → Shows c b (after c es (continue c s phase (returned x)))
unfolding continue
continue-Shows c s phase x b es here = elim (Bool-cases (is_current s c.lease)) [
  | inl now ↦ rw now here
  | inr old ↦ rw old (λ e. absurd (cc e))
]

play-Shows :
    (c : Ceremony) (s : SessionStore) (phase : Phase) (es : List Event)
    → Shows c (succeeds c.persists phase es) (play c s phase es)
unfolding play resume succeeds proceed continue
play-Shows c s phase [] = λ e. absurd (cc e)
play-Shows c s phase (other o ∷ es) = play-Shows c (apply s o) phase es
play-Shows c s detaching (ends (threw r) ∷ es) = failed-Shows c s r es false
play-Shows c s opening_storage (ends (threw r) ∷ es) = failed-Shows c s r es false
play-Shows c s registering_memory (ends (threw r) ∷ es) = failed-Shows c s r es false
play-Shows c s registering_transcripts (ends (threw r) ∷ es) = failed-Shows c s r es false
play-Shows c s persisting (ends (threw r) ∷ es) = failed-Shows c s r es false
play-Shows c s (cleaning_up why) (ends a ∷ es) = cleaning_up-Shows c s why (ends a ∷ es) _
play-Shows c s detaching (ends (returned x) ∷ es) =
    continue-Shows c s detaching x _ es (play-Shows c s opening_storage es)
play-Shows c s opening_storage (ends (returned x) ∷ es) =
    continue-Shows c s opening_storage x _ es (play-Shows c s registering_memory es)
play-Shows c s registering_memory (ends (returned x) ∷ es) =
    continue-Shows c s registering_memory x _ es (play-Shows c s registering_transcripts es)
play-Shows c s registering_transcripts (ends (returned true) ∷ es) =
    continue-Shows c s registering_transcripts true _ es
      (activated-Shows c s es _ (λ t. play-Shows c t persisting es))
play-Shows c s registering_transcripts (ends (returned false) ∷ es) =
    continue-Shows c s registering_transcripts false _ es (failed-Shows c s none es false)
play-Shows c s persisting (ends (returned true) ∷ es) =
    continue-Shows c s persisting true _ es (rw (confirm-after c s es) (confirm-Shows c s))
play-Shows c s persisting (ends (returned false) ∷ es) =
    continue-Shows c s persisting false _ es (failed-Shows c s none es false)

-- When a connection is answered with status 200, whatever calls on the store came in between: its
-- awaited calls have all returned, in their order, private access was available after both grants
-- were registered, and the write, if there is a persistence, was durable; and at the answer the
-- entity is active with this bundle under the revision of the ceremony's lease.
pub play-confirms :
    (c : Ceremony) (s : SessionStore) (phase : Phase) (es : List Event)
    → confirms (play c s phase es).1 ≡ true
    → (succeeds c.persists phase es ≡ true) × IsConnected c (play c s phase es).0
play-confirms = play-Shows

-- Waits for a call other than the cleanup's.
abbrev pub is_working : Phase → Bool
is_working (cleaning_up reason) = false
is_working _ = true

overtaken_continue :
    (c : Ceremony) (t : SessionStore) (phase : Phase) (a : Answer)
    → Fenced t c.lease
    → continue c t phase a ≡ (t, answers stale)
unfolding continue failed
overtaken_continue c t phase (threw reason) f = rw f.stale
overtaken_continue c t phase (returned b) f = rw f.stale

overtaken_resume :
    (c : Ceremony) (t : SessionStore) (phase : Phase) (a : Answer)
    → Fenced t c.lease
    → is_working phase ≡ true
    → resume c t phase a ≡ (t, answers stale)
unfolding resume
overtaken_resume c t detaching a f w = overtaken_continue c t detaching a f
overtaken_resume c t opening_storage a f w = overtaken_continue c t opening_storage a f
overtaken_resume c t registering_memory a f w = overtaken_continue c t registering_memory a f
overtaken_resume c t registering_transcripts a f w =
    overtaken_continue c t registering_transcripts a f
overtaken_resume c t persisting a f w = overtaken_continue c t persisting a f
overtaken_resume c t (cleaning_up reason) a f w = absurd (cc w)

-- Once the entity is disconnected, a connection that was under way, whose lease this store or an
-- earlier process had given before, answers, after whichever call it waits for but the cleanup's and
-- however that ends, that its revision is stale, and it leaves the store as it is; whatever calls on
-- the store come in between.
pub disconnect-resume :
    (c : Ceremony) (s : SessionStore) (os : List Op) (phase : Phase) (a : Answer)
    → IsIssued s c.lease.revision
    → is_working phase ≡ true
    → resume c (run (disconnect s c.lease.key).0 os) phase a
      ≡ (run (disconnect s c.lease.key).0 os, answers stale)
disconnect-resume c s os phase a issued working =
    overtaken_resume c (run (disconnect s c.lease.key).0 os) phase a
      (disconnect-Fenced s c.lease os issued) working
