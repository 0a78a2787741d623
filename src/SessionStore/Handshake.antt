-- ===== src/SessionStore/Handshake.antt =====
-- A reservation or a reload that nobody interferes with succeeds.
use tinycloud_agents.Base.{
  ◌+◌, ◌≡◌, ◌≢◌, refl, sym, ap, ◌∙◌, inl, inr, Bool, true, false, none, some, List, ===-refl, All,
  Option, ◌===◌, arith, Bool-cases,
}
use tinycloud_agents.Base.Map
use tinycloud_agents.SessionStore.{
  SessionStore, SessionKey, Revision, SessionLease, SessionSnapshot, SessionRecord, activating,
  restoring, key_eq, revision_eq, bare, holding, known, snapshot, lease, is_current, replace,
  next_revision, guarded, commit, restore, begin_restore, reserve, Op, run, op_key, is_activating,
  is_restoring, write_committed, write_restored, AccessState,
}
use tinycloud_agents.SessionStore.Moves.{entry, snapshot-some, is_current_iff}
use tinycloud_agents.SessionStore.Diagram.{run_frame}

-- A guarded write whose lease stands at its key with an allowed state.
guarded_ok :
    (s : SessionStore) (k : SessionKey) (l : SessionLease) (allowed : AccessState → Bool)
    (write : SessionStore → SessionStore) (a : SessionSnapshot)
    → l.key ≡ k
    → entry s k ≡ some a
    → a.revision ≡ l.revision
    → allowed a.state ≡ true
    → guarded s k l allowed write ≡ (write s, true)
unfolding guarded
guarded_ok s k l allowed write a at e r ok =
    let c : is_current s l ≡ true = (is_current_iff s l).1 (rw (at, e, r)) in
    rw (c, guarded, snapshot-some s k a e, ok)

-- A lease whose key and revision are those of the entry activates it.
abbrev pub Activates : SessionStore × Bool → SessionKey → Revision → SessionRecord → Type 0
Activates t k r rec = (t.1 ≡ true) × (entry t.0 k ≡ some (holding r rec))

commit-Activates :
    (s : SessionStore) (k : SessionKey) (l : SessionLease) (rec : SessionRecord) (r : Revision)
    → l.key ≡ k
    → l.revision ≡ r
    → entry s k ≡ some (bare r activating)
    → Activates (commit s k l rec) k r rec
unfolding commit
commit-Activates s k l rec r at rev there =
    rw
      (guarded_ok s k l is_activating (write_committed k l rec) (bare r activating) at there
        (sym rev) refl)
      (refl, rw (Map.get-set s.access k k (holding l.revision rec), ===-refl k, rev))

restore-Activates :
    (s : SessionStore) (k : SessionKey) (l : SessionLease) (rec : SessionRecord) (r : Revision)
    → l.key ≡ k
    → l.revision ≡ r
    → entry s k ≡ some (bare r restoring)
    → Activates (restore s k l rec) k r rec
unfolding restore
restore-Activates s k l rec r at rev there =
    rw
      (guarded_ok s k l is_restoring (write_restored k l rec) (bare r restoring) at there (sym rev)
        refl)
      (refl, rw (Map.get-set s.access k k (holding l.revision rec), ===-refl k, rev))

-- A commit that reports success has written its record.
pub commit-entry :
    (s : SessionStore) (l : SessionLease) (rec : SessionRecord)
    → (commit s l.key l rec).1 ≡ true
    → entry (commit s l.key l rec).0 l.key ≡ some (holding l.revision rec)
unfolding commit guarded
commit-entry s l rec e = elim (Bool-cases (is_current s l)) [
  | inr old ↦ absurd (ground (arith, e, old))
  | inl now ↦ elim (Bool-cases (is_activating (snapshot s l.key).1.state)) [
    | inr wrong ↦ absurd (ground (arith, e, now, wrong))
    | inl right ↦
        rw
          (
            now,
            right,
            Map.get-set (snapshot s l.key).0.access l.key l.key (holding l.revision rec),
            ===-refl l.key,
          )
          refl
  ]
]

lease-some :
    (s : SessionStore) (k : SessionKey) (a : SessionSnapshot)
    → entry s k ≡ some a
    → ((lease s k).0 ≡ s) × ((lease s k).1.key ≡ k) × ((lease s k).1.revision ≡ a.revision)
unfolding lease
lease-some s k a e = rw (snapshot-some s k a e) (refl, refl, refl)

entry-replace :
    (s : SessionStore) (k : SessionKey) (st : AccessState)
    → entry (replace s k st) k
      ≡ some (bare (record { instance_id = s.instance_id; sequence = s.sequence + 1 }) st)
unfolding replace next_revision
entry-replace s k st = rw (Map.get-set s.access k k _, ===-refl k)

-- The revision that the caller expects, if any, is the one that the store shows.
abbrev pub IsExpected : SessionStore → SessionKey → Option Revision → Type 0
IsExpected s k none = Unit {0}
IsExpected s k (some r) = (snapshot s k).1.revision ≡ r

-- The store that the reservation changes: it has read the entry if a revision is expected.
abbrev pub read_for : SessionStore → SessionKey → Option Revision → SessionStore
read_for s k none = s
read_for s k (some r) = (snapshot s k).0

abbrev pub fresh_revision : SessionStore → Revision
fresh_revision s = record { instance_id = s.instance_id; sequence = s.sequence + 1 }

reserve_expected :
    (s : SessionStore) (k : SessionKey) (e : Option Revision)
    → IsExpected s k e
    → reserve s k e ≡ (
      (lease (replace (read_for s k e) k activating) k).0,
      some (lease (replace (read_for s k e) k activating) k).1,
    )
unfolding reserve
reserve_expected s k none h = refl
reserve_expected s k (some r) h =
    let same : ((snapshot s k).1.revision === r) ≡ true =
      (revision_eq.same-eq (snapshot s k).1.revision r).1 h in
    rw same

-- A reservation that expects no revision, or the one that the store shows for the entity, gives a
-- lease with a new revision. After any calls about other entities, `commit` under that lease
-- succeeds, and the entity is active, with the given record, under that revision.
pub reserve-commit :
    (s : SessionStore) (k : SessionKey) (e : Option Revision) (os : List Op) (rec : SessionRecord)
    → IsExpected s k e
    → All (λ o. op_key o ≢ some k) os
    → (s' : SessionStore) × (l : SessionLease) × (reserve s k e ≡ (s', some l))
      × Activates (commit (run s' os) k l rec) k (fresh_revision (read_for s k e)) rec
reserve-commit s k e os rec expected others =
    let read = read_for s k e in
    let t = replace read k activating in
    let r = fresh_revision read in
    let (same, at, rev) = lease-some t k (bare r activating) (entry-replace read k activating) in
    let u = (lease t k).0 in
    let there =
      run_frame u os k others
      ∙ ap (λ (v : SessionStore). entry v k) same
      ∙ entry-replace read k activating in
    (
      u,
      (lease t k).1,
      reserve_expected s k e expected,
      commit-Activates (run u os) k (lease t k).1 rec r at rev there,
    )

-- A reload of an entity that this process knows nothing of gives a lease with the persisted
-- revision. After any calls about other entities, `restore` under that lease succeeds, and the
-- entity is active, with the given record, under the persisted revision.
pub begin_restore-restore :
    (s : SessionStore) (k : SessionKey) (r : Revision) (os : List Op) (rec : SessionRecord)
    → known s k ≡ false
    → All (λ o. op_key o ≢ some k) os
    → (s' : SessionStore) × (l : SessionLease) × (begin_restore s k r ≡ (s', some l))
      × Activates (restore (run s' os) k l rec) k r rec
unfolding begin_restore
begin_restore-restore s k r os rec new others =
    let t = record s { access = Map.set s.access k (bare r restoring) } in
    let here : entry t k ≡ some (bare r restoring) =
      rw (Map.get-set s.access k k (bare r restoring), ===-refl k) in
    let (same, at, rev) = lease-some t k (bare r restoring) here in
    let u = (lease t k).0 in
    let there = run_frame u os k others ∙ ap (λ (v : SessionStore). entry v k) same ∙ here in
    (u, (lease t k).1, rw new, restore-Activates (run u os) k (lease t k).1 rec r at rev there)
