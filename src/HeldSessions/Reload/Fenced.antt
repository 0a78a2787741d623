-- ===== src/HeldSessions/Reload/Fenced.antt =====
-- A reload whose entity has been disconnected.
use tinycloud_agents.Base.{
  ℕ, ◌≡◌, refl, sym, ap, subst, ◌∙◌, Bool, true, false, not, Option, none, some, List, String,
  ===-refl, is_some,
}
use tinycloud_agents.Base.Map
use tinycloud_agents.SessionStore.{
  SessionStore, SessionKey, SessionLease, SessionSnapshot, key_eq, key, known, is_current, replace,
  next_revision, disconnected, disconnect, Op, run,
}
use tinycloud_agents.SessionStore.Moves.{
  entry, rev, Change, keeps, mints, adopts, Moves, run-Moves, snapshot-Moves, Moves-trans,
}
use tinycloud_agents.SessionStore.Fencing.{IsIssued, disconnect-Fenced}
use tinycloud_agents.HeldSessions.Reload.{
  Surroundings, Reloads, done, Phase, reading, activating, cleaning_up, over, Answer, found,
  unreachable, returned, threw,
}
use tinycloud_agents.HeldSessions.Reload.Restore.{
  is_wanted, caught, after_read, after_cleanup, resume,
}

-- No call removes the entry of a key.
known-Moves :
    (s t : SessionStore) (k : SessionKey) → Moves s t k → known s k ≡ true → known t k ≡ true
unfolding known
known-Moves s t k m e = go m.change
  where
    has : (o : Option SessionSnapshot) → is_some (rev o) ≡ is_some o
    has none = refl
    has (some a) = refl

    go : Change s t k → is_some (entry t k) ≡ true
    go (keeps p) = sym (has (entry t k)) ∙ ap is_some p ∙ has (entry s k) ∙ e
    go (mints r m' p) = sym (has (entry t k)) ∙ ap is_some p
    go (adopts r f p) = sym (has (entry t k)) ∙ ap is_some p

disconnect-known :
    (s : SessionStore) (k : SessionKey) (os : List Op) → known (run (disconnect s k).0 os) k ≡ true
unfolding disconnect replace next_revision known
disconnect-known s k os =
    known-Moves (replace s k disconnected) (run (disconnect s k).0 os) k
      (Moves-trans (snapshot-Moves (replace s k disconnected) k k)
        (run-Moves (disconnect s k).0 os k))
      (rw (Map.get-set s.access k k _, ===-refl k) refl)

abbrev pub lease_of : Phase → Option SessionLease
lease_of (reading lease) = lease
lease_of (activating a stage) = some a.lease
lease_of (cleaning_up a fault) = some a.lease
lease_of (over o) = none

-- The phase waits for such an end of a call; that the store cannot be read is left out.
abbrev pub awaits : Phase → Answer → Bool
awaits (reading lease) (found read) = true
awaits (activating a stage) (returned b) = true
awaits (activating a stage) (threw fault) = true
awaits (cleaning_up a fault) (returned b) = true
awaits (cleaning_up a fault) (threw other) = true
awaits phase a = false

unwanted_resume :
    (w : Surroundings) (now : ℕ) (h : Reloads) (entity_id : String) (phase : Phase) (a : Answer)
    → is_wanted h entity_id (lease_of phase) ≡ false
    → awaits phase a ≡ true
    → resume w now h entity_id phase a ≡ (h, over done)
unfolding resume is_wanted after_read after_cleanup caught
unwanted_resume w now h entity_id (reading lease) (found read) u e = rw u
unwanted_resume w now h entity_id (reading lease) unreachable u e = absurd (cc e)
unwanted_resume w now h entity_id (reading lease) (returned b) u e = absurd (cc e)
unwanted_resume w now h entity_id (reading lease) (threw fault) u e = absurd (cc e)
unwanted_resume w now h entity_id (activating a stage) (found read) u e = absurd (cc e)
unwanted_resume w now h entity_id (activating a stage) unreachable u e = absurd (cc e)
unwanted_resume w now h entity_id (activating a stage) (returned b) u e = rw u
unwanted_resume w now h entity_id (activating a stage) (threw fault) u e = rw u
unwanted_resume w now h entity_id (cleaning_up a fault) (found read) u e = absurd (cc e)
unwanted_resume w now h entity_id (cleaning_up a fault) unreachable u e = absurd (cc e)
unwanted_resume w now h entity_id (cleaning_up a fault) (returned b) u e = rw u
unwanted_resume w now h entity_id (cleaning_up a fault) (threw other) u e = rw u
unwanted_resume w now h entity_id (over o) a u e = absurd (cc e)

-- The lease, if there is one, is of this key and was given before now.
abbrev pub IsGiven : SessionStore → SessionKey → Option SessionLease → Type 0
IsGiven s k none = Unit {0}
IsGiven s k (some l) = (l.key ≡ k) × IsIssued s l.revision

abbrev pub disconnected_then : Reloads → String → List Op → Reloads
disconnected_then h entity_id os = record h {
  sessions = run (disconnect h.sessions (key h.scope entity_id)).0 os;
}

overtaken_unwanted :
    (h : Reloads) (entity_id : String) (os : List Op) (lease : Option SessionLease)
    → IsGiven h.sessions (key h.scope entity_id) lease
    → is_wanted (disconnected_then h entity_id os) entity_id lease ≡ false
unfolding is_wanted
overtaken_unwanted h entity_id os none g =
    ap not (disconnect-known h.sessions (key h.scope entity_id) os)
overtaken_unwanted h entity_id os (some l) (at, issued) =
    subst (λ k. is_current (run (disconnect h.sessions k).0 os) l ≡ false) at
      (disconnect-Fenced h.sessions l os issued).stale

-- Once the entity is disconnected, a reload of it that was under way, with no lease yet or one that
-- this store or an earlier process had given, ends without writing anything, whichever call it waits
-- for and however that call ends, except that a store that cannot be read is read again; whatever
-- calls on the session store come in between.
pub disconnect-reload :
    (w : Surroundings) (now : ℕ) (h : Reloads) (entity_id : String) (os : List Op) (phase : Phase)
    (a : Answer)
    → IsGiven h.sessions (key h.scope entity_id) (lease_of phase)
    → awaits phase a ≡ true
    → resume w now (disconnected_then h entity_id os) entity_id phase a
      ≡ (disconnected_then h entity_id os, over done)
disconnect-reload w now h entity_id os phase a g e =
    unwanted_resume w now (disconnected_then h entity_id os) entity_id phase a
      (overtaken_unwanted h entity_id os (lease_of phase) g) e
