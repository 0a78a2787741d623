-- ===== src/SessionStore/Diagram.antt =====
-- The state diagram of an entity's access, and what one entity's calls leave of the others'.
use tinycloud_agents.Base.{
  ℕ, ◌+◌, ◌≡◌, ◌≢◌, refl, sym, ap, ◌∙◌, inl, inr, not, ◌&&◌, subst, All, Bool, true, false, Option,
  none, some, List, [], ◌∷◌, arith, ===-refl, if◌then◌else◌, ◌===◌, Bool-cases, Option-cases,
}
use tinycloud_agents.Base.Map
use tinycloud_agents.SessionStore.{
  SessionStore, SessionKey, Revision, SessionLease, SessionSnapshot, SessionRecord, AccessState,
  unconnected, activating, active, disconnected, restoring, revoked, key_eq, revision_eq, known,
  snapshot, lease, is_current, replace, next_revision, bare, holding, buried, commit, stage,
  restore, tombstone, abandon_restore, begin_restore, fail, disconnect, reserve, set_session, Op,
  apply, run, op_key, snapshots, reserves, commits, stages, begins_restore, restores, tombstones,
  abandons, fails, disconnects, sets, is_activating, is_restoring, is_restoring_or_revoked,
  write_committed, write_staged, write_restored, write_tombstone,
}
use tinycloud_agents.SessionStore.Moves.{
  entry, Writes, guarded_cases, is_current_iff, snapshot-some, lease-store, unknown_entry,
}

abbrev is_replacement : AccessState → Bool
is_replacement unconnected = true
is_replacement activating = true
is_replacement disconnected = true
is_replacement _ = false

abbrev is_pending : AccessState → Bool
is_pending activating = true
is_pending restoring = true
is_pending _ = false

-- How a call on the key `k` may change the entry of the key `j`.
pub data Edge (s t : SessionStore) (k j : SessionKey) : Type 0 where
  same : entry t j ≡ entry s j → Edge s t k j
  replaced :
      (b : SessionSnapshot)
      → (k === j) ≡ true
      → entry t j ≡ some b
      → is_replacement b.state ≡ true
      → Edge s t k j
  began :
      (b : SessionSnapshot)
      → (k === j) ≡ true
      → entry s j ≡ none
      → entry t j ≡ some b
      → b.state ≡ restoring
      → Edge s t k j
  activated :
      (a b : SessionSnapshot)
      → (k === j) ≡ true
      → entry s j ≡ some a
      → is_pending a.state ≡ true
      → entry t j ≡ some b
      → b.state ≡ active
      → b.revision ≡ a.revision
      → Edge s t k j
  buried_at :
      (a b : SessionSnapshot)
      → (k === j) ≡ true
      → entry s j ≡ some a
      → is_restoring_or_revoked a.state ≡ true
      → entry t j ≡ some b
      → b.state ≡ revoked
      → b.revision ≡ a.revision
      → Edge s t k j

-- Steps that only replace, one after the other.
data Replaces (s t : SessionStore) (k j : SessionKey) : Type 0 where
  stays : entry t j ≡ entry s j → Replaces s t k j
  turns :
      (b : SessionSnapshot)
      → (k === j) ≡ true
      → entry t j ≡ some b
      → is_replacement b.state ≡ true
      → Replaces s t k j

Replaces-trans :
    {s t u : SessionStore} {k j : SessionKey}
    → Replaces s t k j
    → Replaces t u k j
    → Replaces s u k j
Replaces-trans (stays p) (stays q) = stays (q ∙ p)
Replaces-trans (turns b h e r) (stays q) = turns b h (q ∙ e) r
Replaces-trans m (turns b h e r) = turns b h e r

Replaces-Edge : {s t : SessionStore} {k j : SessionKey} → Replaces s t k j → Edge s t k j
Replaces-Edge (stays p) = same p
Replaces-Edge (turns b h e r) = replaced b h e r

Replaces-if :
    (c : Bool) (x y : SessionStore) {s : SessionStore} {k j : SessionKey}
    → Replaces s x k j
    → Replaces s y k j
    → Replaces s (if c then x else y) k j
Replaces-if true x y m n = m
Replaces-if false x y m n = n

reserve_if :
    (c : Bool) (x y : SessionStore) (l : SessionLease) {s : SessionStore} {k j : SessionKey}
    → Replaces s x k j
    → Replaces s y k j
    → Replaces s
        (if◌then◌else◌ {A = SessionStore × Option SessionLease} c (x, none) (y, some l)).0
        k
        j
reserve_if true x y l m n = m
reserve_if false x y l m n = n

-- A write of a replacement at `k`.
written :
    (s t : SessionStore) (k j : SessionKey) (b : SessionSnapshot)
    → Writes s t k b
    → is_replacement b.state ≡ true
    → Replaces s t k j
written s t k j b w r = elim (Bool-cases (k === j)) [
  | inl here ↦ turns b here (rw (w j, here)) r
  | inr away ↦ stays (rw (w j, away))
]

replace-Replaces :
    (s : SessionStore) (k j : SessionKey) (st : AccessState)
    → is_replacement st ≡ true
    → Replaces s (replace s k st) k j
unfolding replace next_revision
replace-Replaces s k j st r = written s (replace s k st) k j _ (λ i. Map.get-set s.access k i _) r

snapshot-Replaces : (s : SessionStore) (k j : SessionKey) → Replaces s (snapshot s k).0 k j
unfolding snapshot next_revision
snapshot-Replaces s k j = elim (Option-cases (entry s k)) [
  | inr (a, e) ↦ rw (snapshot-some s k a e) (stays refl)
  | inl e ↦
      rw (e, snapshot)
        (written s _ k j
          (bare (record { instance_id = s.instance_id; sequence = s.sequence + 1 }) unconnected)
          (λ i. Map.get-set s.access k i _) refl)
]

lease-Replaces : (s : SessionStore) (k j : SessionKey) → Replaces s (lease s k).0 k j
lease-Replaces s k j = rw (lease-store s k) (snapshot-Replaces s k j)

reserve-Replaces :
    (s : SessionStore) (k j : SessionKey) (e : Option Revision) → Replaces s (reserve s k e).0 k j
unfolding reserve
reserve-Replaces s k j none =
    Replaces-trans (replace-Replaces s k j activating refl) (lease-Replaces _ k j)
reserve-Replaces s k j (some r) =
    let seen = snapshot-Replaces s k j in
    let s' = (snapshot s k).0 in
    let next = lease (replace s' k activating) k in
    reserve_if (not ((snapshot s k).1.revision === r)) s' next.0 next.1 seen (
      Replaces-trans seen
        (Replaces-trans (replace-Replaces s' k j activating refl) (lease-Replaces _ k j)))

-- A write at `k` seen from `j`.
seen_at :
    (s t : SessionStore) (k j : SessionKey) (b : SessionSnapshot)
    → Writes s t k b
    → ((k === j) ≡ true → k ≡ j → entry t j ≡ some b → Edge s t k j)
    → Edge s t k j
seen_at s t k j b w here = elim (Bool-cases (k === j)) [
  | inl h ↦ here h ((key_eq.same-eq k j).0 h) (rw (w j, h))
  | inr away ↦ same (rw (w j, away))
]

commit-Edge :
    (s : SessionStore) (l : SessionLease) (rec : SessionRecord) (j : SessionKey)
    → Edge s (commit s l.key l rec).0 l.key j
unfolding commit
commit-Edge s l rec j = elim (guarded_cases s l is_activating (write_committed l.key l rec)) [
  | inl e ↦ rw e (same refl)
  | inr (a, found, r, ok, e) ↦ rw e (
      seen_at s (write_committed l.key l rec s) l.key j (holding l.revision rec)
        (λ i. Map.get-set s.access l.key i _)
        λ h k p.
          activated a (holding l.revision rec) h (rw (← k) found) (ground arith) p refl (sym r))
]

stage-Edge :
    (s : SessionStore) (l : SessionLease) (rec : SessionRecord) (j : SessionKey)
    → Edge s (stage s l.key l rec).0 l.key j
unfolding stage
stage-Edge s l rec j = elim (guarded_cases s l is_activating (write_staged l.key l rec)) [
  | inl e ↦ rw e (same refl)
  | inr (a, found, r, ok, e) ↦ rw e (same refl)
]

restore-Edge :
    (s : SessionStore) (l : SessionLease) (rec : SessionRecord) (j : SessionKey)
    → Edge s (restore s l.key l rec).0 l.key j
unfolding restore
restore-Edge s l rec j = elim (guarded_cases s l is_restoring (write_restored l.key l rec)) [
  | inl e ↦ rw e (same refl)
  | inr (a, found, r, ok, e) ↦ rw e (
      seen_at s (write_restored l.key l rec s) l.key j (holding l.revision rec)
        (λ i. Map.get-set s.access l.key i _)
        λ h k p.
          activated a (holding l.revision rec) h (rw (← k) found) (ground arith) p refl (sym r))
]

-- What `snapshot` makes is neither restoring nor revoked.
before_snapshot :
    (s : SessionStore) (k : SessionKey) (a : SessionSnapshot)
    → entry (snapshot s k).0 k ≡ some a
    → is_restoring_or_revoked a.state ≡ true
    → entry s k ≡ some a
before_snapshot s k a e r = go (snapshot-Replaces s k k)
  where
    go : Replaces s (snapshot s k).0 k k → entry s k ≡ some a
    go (stays p) = sym p ∙ e
    go (turns b h q t) = absurd (ground arith)

snapshot_reads :
    (s : SessionStore) (k : SessionKey) → entry (snapshot s k).0 k ≡ some (snapshot s k).1
unfolding snapshot next_revision
snapshot_reads s k = elim (Option-cases (entry s k)) [
  | inr (a, e) ↦ rw (snapshot-some s k a e) e
  | inl e ↦ rw (e, snapshot) (rw (Map.get-set s.access k k _, ===-refl k))
]

tombstone-Edge :
    (s : SessionStore) (l : SessionLease) (exp : Option ℕ) (at : ℕ) (j : SessionKey)
    → Edge s (tombstone s l.key l exp at).0 l.key j
unfolding tombstone
tombstone-Edge s l exp at j =
    let s' = (snapshot s l.key).0 in
    let a = (snapshot s l.key).1 in
    let found : entry s' l.key ≡ some a = snapshot_reads s l.key in
    let t = write_tombstone l.key l exp at s' in
    elim (Bool-cases (is_current s' l && is_restoring_or_revoked a.state)) [
      | inr refused ↦ rw refused (Replaces-Edge (snapshot-Replaces s l.key j))
      | inl ok ↦
          let was = before_snapshot s l.key a found (ground arith) in
          let b = buried l.revision exp at in
          let held : a.revision ≡ l.revision =
            ground (arith, (is_current_iff s' l).0 (ground arith)) in
          let w : Writes s t l.key b =
            subst
              (λ (v : SessionStore).
                (i : SessionKey) → entry t i ≡ (if l.key === i then some b else entry v i))
              (ap (λ (q : SessionStore × SessionSnapshot). q.0) (snapshot-some s l.key a was))
              (λ i. Map.get-set s'.access l.key i b) in
          rw ok (
            seen_at s t l.key j b w
              λ h k p. buried_at a b h (rw (← k) was) (ground arith) p refl (sym held))
    ]

begin_restore-Edge :
    (s : SessionStore) (k j : SessionKey) (r : Revision) → Edge s (begin_restore s k r).0 k j
unfolding begin_restore
begin_restore-Edge s k j r = elim (Bool-cases (known s k)) [
  | inl old ↦ rw old (same refl)
  | inr new ↦
      let t = record s { access = Map.set s.access k (bare r restoring) } in
      let there : entry t k ≡ some (bare r restoring) =
        rw (Map.get-set s.access k k (bare r restoring), ===-refl k) in
      rw (new, lease-store t k, snapshot-some t k (bare r restoring) there)
        (seen_at s t k j (bare r restoring) (λ i. Map.get-set s.access k i _)
          λ h e p. began (bare r restoring) h (rw (← e) (unknown_entry s k new)) p refl)
]

abandon_restore-Edge :
    (s : SessionStore) (l : SessionLease) (j : SessionKey)
    → Edge s (abandon_restore s l.key l) l.key j
unfolding abandon_restore
abandon_restore-Edge s l j =
    let s' = (snapshot s l.key).0 in
    let seen : Replaces s s' l.key j = snapshot-Replaces s l.key j in
    Replaces-Edge (
      Replaces-if (is_current s l) _ s
        (Replaces-if (is_restoring (snapshot s l.key).1.state) (replace s' l.key unconnected) s'
          (Replaces-trans seen (replace-Replaces s' l.key j unconnected refl)) seen)
        (stays refl))

fail-Edge : (s : SessionStore) (l : SessionLease) (j : SessionKey) → Edge s (fail s l.key l) l.key j
unfolding fail
fail-Edge s l j = Replaces-Edge (
    Replaces-if (is_current s l) (replace s l.key unconnected) s
      (replace-Replaces s l.key j unconnected refl) (stays refl))

disconnect-Edge : (s : SessionStore) (k j : SessionKey) → Edge s (disconnect s k).0 k j
unfolding disconnect
disconnect-Edge s k j =
    Replaces-Edge
      (Replaces-trans (replace-Replaces s k j disconnected refl) (snapshot-Replaces _ k j))

-- What the call `o` did to the entry of `j`.
pub data Drawn (s t : SessionStore) (o : Op) (j : SessionKey) : Type 0 where
  drawn : (k : SessionKey) → op_key o ≡ some k → Edge s t k j → Drawn s t o j
  elsewhere : op_key o ≡ none → entry t j ≡ entry s j → Drawn s t o j

-- Every call leaves the entries of all keys but its own, and changes its own entry in one of these
-- ways: it becomes unconnected, activating or disconnected; or restoring, if there was no entry; or
-- active under the same revision, if it was activating or restoring; or revoked under the same
-- revision, if it was restoring or revoked.
pub apply-Drawn : (s : SessionStore) (o : Op) (j : SessionKey) → Drawn s (apply s o) o j
unfolding apply op_key set_session
apply-Drawn s (snapshots k) j = drawn k refl (Replaces-Edge (snapshot-Replaces s k j))
apply-Drawn s (reserves k e) j = drawn k refl (Replaces-Edge (reserve-Replaces s k j e))
apply-Drawn s (commits l rec) j = drawn l.key refl (commit-Edge s l rec j)
apply-Drawn s (stages l rec) j = drawn l.key refl (stage-Edge s l rec j)
apply-Drawn s (begins_restore k r) j = drawn k refl (begin_restore-Edge s k j r)
apply-Drawn s (restores l rec) j = drawn l.key refl (restore-Edge s l rec j)
apply-Drawn s (tombstones l exp at) j = drawn l.key refl (tombstone-Edge s l exp at j)
apply-Drawn s (abandons l) j = drawn l.key refl (abandon_restore-Edge s l j)
apply-Drawn s (fails l) j = drawn l.key refl (fail-Edge s l j)
apply-Drawn s (disconnects k) j = drawn k refl (disconnect-Edge s k j)
apply-Drawn s (sets id rec) j = elsewhere refl refl

pub apply_frame :
    (s : SessionStore) (o : Op) (j : SessionKey)
    → op_key o ≢ some j
    → entry (apply s o) j ≡ entry s j
apply_frame s o j other = go (apply-Drawn s o j)
  where
    away : (k : SessionKey) → op_key o ≡ some k → (k === j) ≡ true → ⊥
    away k e h = other (e ∙ ap some ((key_eq.same-eq k j).0 h))

    edge :
        (k : SessionKey)
        → op_key o ≡ some k
        → Edge s (apply s o) k j
        → entry (apply s o) j ≡ entry s j
    edge k e (same p) = p
    edge k e (replaced b h p q) = absurd (away k e h)
    edge k e (began b h p q r) = absurd (away k e h)
    edge k e (activated a b h p q r t u) = absurd (away k e h)
    edge k e (buried_at a b h p q r t u) = absurd (away k e h)

    go : Drawn s (apply s o) o j → entry (apply s o) j ≡ entry s j
    go (elsewhere n p) = p
    go (drawn k e d) = edge k e d

pub run_frame :
    (s : SessionStore) (os : List Op) (j : SessionKey)
    → All (λ o. op_key o ≢ some j) os
    → entry (run s os) j ≡ entry s j
unfolding run
run_frame s [] j others = refl
run_frame s (o ∷ os) j (other, others) = run_frame (apply s o) os j others ∙ apply_frame s o j other
