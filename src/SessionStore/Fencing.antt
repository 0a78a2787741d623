-- ===== src/SessionStore/Fencing.antt =====
-- A lease that a later event has overtaken can never write again.
use tinycloud_agents.Base.{
  ℕ, ◌+◌, ◌≤◌, ◌≡◌, ◌≢◌, ap, ◌∙◌, ◌⊎◌, inl, inr, false, Option, none, some, List, arith, ===-refl,
  Bool-cases, Option-cases,
}
use tinycloud_agents.Base.Map
use tinycloud_agents.SessionStore.{
  SessionStore, SessionKey, Revision, SessionLease, SessionRecord, AccessState, key_eq,
  disconnected, activating, lease, snapshot, is_current, replace, next_revision, guarded, commit,
  stage, restore, tombstone, abandon_restore, fail, disconnect, reserve, Op, run,
}
use tinycloud_agents.SessionStore.Moves.{
  entry, revision_at, Change, keeps, mints, adopts, Moves, run-Moves, is_current_iff, replace-Moves,
  snapshot-some, snapshot-Moves, lease-Moves,
}

-- The revision was not made by this store, or it was made before now.
abbrev pub IsIssued : SessionStore → Revision → Type 0
IsIssued s r = (r.instance_id ≢ s.instance_id) ⊎ (r.sequence ≤ s.sequence)

-- Another revision stands at the lease's key.
abbrev pub IsOvertaken : SessionStore → SessionLease → Type 0
IsOvertaken s l = (r : Revision) × (revision_at s l.key ≡ some r) × (r ≢ l.revision)

-- No call brings the revision of an overtaken lease back.
IsOvertaken-mono :
    (s t : SessionStore) (l : SessionLease)
    → Moves s t l.key
    → IsIssued s l.revision
    → IsOvertaken s l
    → IsOvertaken t l
IsOvertaken-mono s t l m issued (r, here, other) = go m.change
  where
    go : Change s t l.key → IsOvertaken t l
    go (keeps p) = (r, p ∙ here, other)
    go (mints r' (own, above, below) p) = (r', p, λ e. ground arith)
    go (adopts r' fresh p) = absurd (ground arith)

-- What an overtaken lease can still do: nothing.
pub record Fenced (t : SessionStore) (l : SessionLease) : Type 0 where
  pub stale : is_current t l ≡ false
  pub no_commit : (rec : SessionRecord) → commit t l.key l rec ≡ (t, false)
  pub no_stage : (rec : SessionRecord) → stage t l.key l rec ≡ (t, false)
  pub no_restore : (rec : SessionRecord) → restore t l.key l rec ≡ (t, false)
  pub no_tombstone : (exp : Option ℕ) (at : ℕ) → tombstone t l.key l exp at ≡ (t, false)
  pub no_abandon : abandon_restore t l.key l ≡ t
  pub no_fail : fail t l.key l ≡ t

IsOvertaken-stale : (t : SessionStore) (l : SessionLease) → IsOvertaken t l → is_current t l ≡ false
IsOvertaken-stale t l (r, here, other) = elim (Bool-cases (is_current t l)) [
  | inl c ↦ absurd (ground (arith, (is_current_iff t l).0 c))
  | inr stale ↦ stale
]

-- The key of an overtaken lease has an entry, so reading it makes none.
overtaken_snapshot :
    (t : SessionStore) (l : SessionLease) → IsOvertaken t l → (snapshot t l.key).0 ≡ t
overtaken_snapshot t l (r, here, other) = elim (Option-cases (entry t l.key)) [
  | inl e ↦ absurd (ground arith)
  | inr (a, e) ↦ ap (λ p. p.0) (snapshot-some t l.key a e)
]

IsOvertaken-Fenced : (t : SessionStore) (l : SessionLease) → IsOvertaken t l → Fenced t l
unfolding commit stage restore tombstone abandon_restore fail guarded
IsOvertaken-Fenced t l o =
    let stale = IsOvertaken-stale t l o in
    let seen = overtaken_snapshot t l o in
    record {
      stale = stale;
      no_commit = λ rec. rw (stale, guarded);
      no_stage = λ rec. rw (stale, guarded);
      no_restore = λ rec. rw (stale, guarded);
      no_tombstone = λ exp at. rw (seen, stale);
      no_abandon = rw stale;
      no_fail = rw stale;
    }

replace-IsOvertaken :
    (s : SessionStore) (l : SessionLease) (st : AccessState)
    → IsIssued s l.revision
    → IsOvertaken (replace s l.key st) l
unfolding replace next_revision
replace-IsOvertaken s l st issued =
    let r : Revision = record { instance_id = s.instance_id; sequence = s.sequence + 1 } in
    (r, rw (Map.get-set s.access l.key l.key _, ===-refl l.key), λ e. ground arith)

run-IsOvertaken :
    (s : SessionStore) (l : SessionLease) (os : List Op)
    → IsIssued s l.revision
    → IsOvertaken s l
    → IsOvertaken (run s os) l
run-IsOvertaken s l os issued o = IsOvertaken-mono s (run s os) l (run-Moves s os l.key) issued o

grown-IsIssued :
    (s t : SessionStore) (l : SessionLease)
    → Moves s t l.key
    → IsIssued s l.revision
    → IsIssued t l.revision
grown-IsIssued s t l m issued = ground arith

replaced-Fenced :
    (s u : SessionStore) (l : SessionLease) (st : AccessState) (os : List Op)
    → IsIssued s l.revision
    → Moves (replace s l.key st) u l.key
    → Fenced (run u os) l
replaced-Fenced s u l st os issued m =
    let t = replace s l.key st in
    let known_there : IsIssued t l.revision =
      grown-IsIssued s t l (replace-Moves s l.key l.key st) issued in
    IsOvertaken-Fenced (run u os) l (
      run-IsOvertaken u l os (grown-IsIssued t u l m known_there)
        (IsOvertaken-mono t u l m known_there (replace-IsOvertaken s l st issued)))

-- Once the entity is disconnected, a lease that was given for it before, whether its revision was
-- made by this store or by an earlier process, is not current, and no write under it succeeds or
-- changes the store, whatever calls come in between.
pub disconnect-Fenced :
    (s : SessionStore) (l : SessionLease) (os : List Op)
    → IsIssued s l.revision
    → Fenced (run (disconnect s l.key).0 os) l
unfolding disconnect
disconnect-Fenced s l os issued =
    replaced-Fenced s _ l disconnected os issued
      (snapshot-Moves (replace s l.key disconnected) l.key l.key)

-- A reservation replaces the entry, after reading it if a revision is expected.
reserve_store :
    (s s' : SessionStore) (k : SessionKey) (l' : SessionLease) (e : Option Revision)
    → reserve s k e ≡ (s', some l')
    → ((lease (replace s k activating) k).0 ≡ s')
      ⊎ ((lease (replace (snapshot s k).0 k activating) k).0 ≡ s')
unfolding reserve
reserve_store s s' k l' none p = inl (ground arith)
reserve_store s s' k l' (some r) p = inr (ground arith)

-- Once a new activation of the entity has been reserved, on condition of an expected revision or
-- not, every lease that was given for it before is fenced off in the same way.
pub reserve-Fenced :
    (s s' : SessionStore) (l l' : SessionLease) (e : Option Revision) (os : List Op)
    → IsIssued s l.revision
    → reserve s l.key e ≡ (s', some l')
    → Fenced (run s' os) l
reserve-Fenced s s' l l' e os issued p = elim (reserve_store s s' l.key l' e p) [
  | inl q ↦ rw (← q) (
      replaced-Fenced s _ l activating os issued
        (lease-Moves (replace s l.key activating) l.key l.key))
  | inr q ↦
      let t = (snapshot s l.key).0 in
      rw (← q) (
        replaced-Fenced t _ l activating os
          (grown-IsIssued s t l (snapshot-Moves s l.key l.key) issued)
          (lease-Moves (replace t l.key activating) l.key l.key))
]
