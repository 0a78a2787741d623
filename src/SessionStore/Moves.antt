-- ===== src/SessionStore/Moves.antt =====
-- What one call does to the access entry of a key.
use tinycloud_agents.Base.{
  ℕ, ◌+◌, ◌≤◌, ◌<◌, ◌≡◌, refl, sym, ◌∙◌, ◌⊎◌, inl, inr, Bool, true, false, Option, none, some, List,
  [], ◌∷◌, arith, Bool-cases, Option-cases, ◌↔◌, if◌then◌else◌, ◌===◌,
}
use tinycloud_agents.Base.Map
use tinycloud_agents.SessionStore.{
  SessionStore, SessionKey, Revision, SessionLease, SessionSnapshot, SessionRecord, AccessState,
  unconnected, activating, disconnected, restoring, key_eq, revision_eq, bare, holding, buried,
  is_activating, is_restoring, is_restoring_or_revoked, write_committed, write_staged,
  write_restored, write_tombstone, next_revision, replace, known, snapshot, lease, is_current,
  reserve, guarded, commit, stage, begin_restore, restore, tombstone, abandon_restore, fail,
  disconnect, set_session, Op, snapshots, reserves, commits, stages, begins_restore, restores,
  tombstones, abandons, fails, disconnects, sets, apply, run,
}

abbrev pub entry : SessionStore → SessionKey → Option SessionSnapshot
entry s k = Map.get s.access k

abbrev pub rev : Option SessionSnapshot → Option Revision
rev none = none
rev (some a) = some a.revision

-- The revision that the store holds for a key.
abbrev pub revision_at : SessionStore → SessionKey → Option Revision
revision_at s k = rev (entry s k)

-- `r` was made by this store after the sequence number `m` and up to `n`.
abbrev pub MintedIn : SessionStore → ℕ → ℕ → Revision → Type 0
MintedIn s m n r = (r.instance_id ≡ s.instance_id) × (m < r.sequence) × (r.sequence ≤ n)

-- From `s` to `t` the revision at `k` is kept, new, or, if there was none, any.
pub data Change (s t : SessionStore) (k : SessionKey) : Type 0 where
  keeps : revision_at t k ≡ revision_at s k → Change s t k
  mints :
      (r : Revision) → MintedIn s s.sequence t.sequence r → revision_at t k ≡ some r → Change s t k
  adopts : (r : Revision) → revision_at s k ≡ none → revision_at t k ≡ some r → Change s t k

pub record Moves (s t : SessionStore) (k : SessionKey) : Type 0 where
  pub same_instance : t.instance_id ≡ s.instance_id
  pub grows : s.sequence ≤ t.sequence
  pub change : Change s t k

-- The entry that `t` has at `k` is `a`, and elsewhere `t` has those of `s`.
abbrev pub Writes : SessionStore → SessionStore → SessionKey → SessionSnapshot → Type 0
Writes s t k a = (j : SessionKey) → entry t j ≡ (if k === j then some a else entry s j)

module _ (s t : SessionStore) (k j : SessionKey) (a : SessionSnapshot) (w : Writes s t k a) where
  write-mints : MintedIn s s.sequence t.sequence a.revision → Change s t j
  write-mints m = elim (Bool-cases (k === j)) [
    | inl here ↦ mints a.revision m (rw (w j, here))
    | inr away ↦ keeps (rw (w j, away))
  ]

  write-keeps : revision_at s k ≡ some a.revision → Change s t j
  write-keeps old = elim (Bool-cases (k === j)) [
    | inl here ↦ keeps (rw (w j, here, ← (key_eq.same-eq k j).0 here, old))
    | inr away ↦ keeps (rw (w j, away))
  ]

  write-adopts : entry s k ≡ none → Change s t j
  write-adopts fresh = elim (Bool-cases (k === j)) [
    | inl here ↦ adopts a.revision (rw (← (key_eq.same-eq k j).0 here, fresh)) (rw (w j, here))
    | inr away ↦ keeps (rw (w j, away))
  ]

keep-Change :
    {s t u : SessionStore} {k : SessionKey}
    → revision_at t k ≡ revision_at s k
    → s.sequence ≤ t.sequence
    → t.instance_id ≡ s.instance_id
    → Change t u k
    → Change s u k
keep-Change p g e (keeps q) = keeps (q ∙ p)
keep-Change p g e (mints r (own, above, below) q) = mints r (own ∙ e, omega arith, below) q
keep-Change p g e (adopts r fresh q) = adopts r (sym p ∙ fresh) q

Change-trans :
    {s t u : SessionStore} {k : SessionKey}
    → Change s t k
    → s.sequence ≤ t.sequence
    → t.instance_id ≡ s.instance_id
    → t.sequence ≤ u.sequence
    → Change t u k
    → Change s u k
Change-trans (keeps p) g e h d = keep-Change p g e d
Change-trans (mints r m p) g e h (keeps q) = mints r (m.0, m.1, omega arith) (q ∙ p)
Change-trans (mints r m p) g e h (mints r' (own, above, below) q) =
    mints r' (own ∙ e, omega arith, below) q
Change-trans (mints r m p) g e h (adopts r' fresh q) = cc
Change-trans (adopts r fresh p) g e h (keeps q) = adopts r fresh (q ∙ p)
Change-trans (adopts r fresh p) g e h (mints r' m q) = adopts r' fresh q
Change-trans (adopts r fresh p) g e h (adopts r' again q) = cc

pub Moves-trans : {s t u : SessionStore} {k : SessionKey} → Moves s t k → Moves t u k → Moves s u k
Moves-trans m n = record {
  same_instance = n.same_instance ∙ m.same_instance;
  grows = omega arith;
  change = Change-trans m.change m.grows m.same_instance n.grows n.change;
}

pub Moves-refl : (s : SessionStore) (k : SessionKey) → Moves s s k
Moves-refl s k = record { same_instance = refl; grows = omega arith; change = keeps refl }

pub replace-Moves :
    (s : SessionStore) (k j : SessionKey) (st : AccessState) → Moves s (replace s k st) j
unfolding replace next_revision
replace-Moves s k j st = record {
  same_instance = refl;
  grows = omega arith;
  change =
      write-mints s (replace s k st) k j
        (bare (record { instance_id = s.instance_id; sequence = s.sequence + 1 }) st)
        (λ i. Map.get-set s.access k i _) (refl, omega arith, omega arith);
}

pub snapshot-some :
    (s : SessionStore) (k : SessionKey) (a : SessionSnapshot)
    → entry s k ≡ some a
    → snapshot s k ≡ (s, a)
unfolding snapshot
snapshot-some s k a e = rw (e, snapshot)

pub snapshot-Moves : (s : SessionStore) (k j : SessionKey) → Moves s (snapshot s k).0 j
unfolding snapshot next_revision
snapshot-Moves s k j = elim (Option-cases (entry s k)) [
  | inr (a, e) ↦ rw (snapshot-some s k a e) (Moves-refl s j)
  | inl e ↦
      rw (e, snapshot)
        record {
          same_instance = refl;
          grows = omega arith;
          change =
              write-mints s _ k j
                (bare (record { instance_id = s.instance_id; sequence = s.sequence + 1 })
                  unconnected)
                (λ i. Map.get-set s.access k i _) (refl, omega arith, omega arith);
        }
]

pub lease-store : (s : SessionStore) (k : SessionKey) → (lease s k).0 ≡ (snapshot s k).0
unfolding lease
lease-store s k = refl

-- An early return or a further move.
Moves-if :
    {A : Type 0} (b : Bool) (x y : SessionStore × A) {s : SessionStore} {k : SessionKey}
    → Moves s x.0 k
    → Moves s y.0 k
    → Moves s (if b then x else y).0 k
Moves-if true x y m n = m
Moves-if false x y m n = n

Moves-choice :
    (b : Bool) (x y : SessionStore) {s : SessionStore} {k : SessionKey}
    → Moves s x k
    → Moves s y k
    → Moves s (if b then x else y) k
Moves-choice true x y m n = m
Moves-choice false x y m n = n

pub unknown_entry : (s : SessionStore) (k : SessionKey) → known s k ≡ false → entry s k ≡ none
unfolding known
unknown_entry s k u = ground arith

pub lease-Moves : (s : SessionStore) (k j : SessionKey) → Moves s (lease s k).0 j
lease-Moves s k j = rw (lease-store s k) (snapshot-Moves s k j)

pub reserve-Moves :
    (s : SessionStore) (k j : SessionKey) (e : Option Revision) → Moves s (reserve s k e).0 j
unfolding reserve
reserve-Moves s k j none = Moves-trans (replace-Moves s k j activating) (lease-Moves _ k j)
reserve-Moves s k j (some r) = Moves-if _ _ _ (snapshot-Moves s k j) (
    Moves-trans (snapshot-Moves s k j)
      (Moves-trans (replace-Moves _ k j activating) (lease-Moves _ k j)))

-- The lease is current exactly when its revision stands at its key.
pub is_current_iff :
    (s : SessionStore) (l : SessionLease)
    → (is_current s l ≡ true) ↔ (revision_at s l.key ≡ some l.revision)
unfolding is_current
is_current_iff s l = elim (Option-cases (entry s l.key)) [
  | inl e ↦ rw (e, is_current) (ground arith)
  | inr (a, e) ↦ rw (e, is_current) (ground (arith, revision_eq.same-eq a.revision l.revision))
]

-- A current lease finds the entry that it was given for.
pub current_entry :
    (s : SessionStore) (l : SessionLease)
    → is_current s l ≡ true
    → (a : SessionSnapshot) × (entry s l.key ≡ some a) × (a.revision ≡ l.revision)
current_entry s l c = elim (Option-cases (entry s l.key)) [
  | inl e ↦ absurd (ground (arith, (is_current_iff s l).0 c))
  | inr (a, e) ↦ (a, e, ground (arith, (is_current_iff s l).0 c))
]

-- A guarded write under the lease's own key runs exactly if the lease is current and the state is
-- allowed, on the store as it is; else nothing changes.
pub guarded_cases :
    (s : SessionStore) (l : SessionLease) (allowed : AccessState → Bool)
    (write : SessionStore → SessionStore)
    → (guarded s l.key l allowed write ≡ (s, false))
      ⊎ ((a : SessionSnapshot) × (entry s l.key ≡ some a)
          × (a.revision ≡ l.revision)
          × (allowed a.state ≡ true)
          × (guarded s l.key l allowed write ≡ (write s, true)))
unfolding guarded
guarded_cases s l allowed write = elim (Bool-cases (is_current s l)) [
  | inr stale ↦ inl (rw (stale, guarded))
  | inl c ↦
      let (a, e, r) = current_entry s l c in
      elim (Bool-cases (allowed a.state)) [
        | inl ok ↦ inr (a, e, r, ok, rw (c, guarded, snapshot-some s l.key a e, ok))
        | inr bad ↦ inl (rw (c, guarded, snapshot-some s l.key a e, bad))
      ]
]

-- A write of a snapshot with the revision that is there already.
rewrite-Moves :
    (s t : SessionStore) (k j : SessionKey) (a b : SessionSnapshot)
    → entry s k ≡ some a
    → b.revision ≡ a.revision
    → t.instance_id ≡ s.instance_id
    → t.sequence ≡ s.sequence
    → Writes s t k b
    → Moves s t j
rewrite-Moves s t k j a b e r i n w = record {
  same_instance = i;
  grows = omega arith;
  change = write-keeps s t k j b w (rw (e, r));
}

commit-Moves :
    (s : SessionStore) (l : SessionLease) (rec : SessionRecord) (j : SessionKey)
    → Moves s (commit s l.key l rec).0 j
unfolding commit
commit-Moves s l rec j = elim (guarded_cases s l is_activating (write_committed l.key l rec)) [
  | inl e ↦ rw e (Moves-refl s j)
  | inr (a, found, r, ok, e) ↦ rw e (
      rewrite-Moves s _ l.key j a (holding l.revision rec) found (sym r) refl refl
        (λ i. Map.get-set s.access l.key i _))
]

stage-Moves :
    (s : SessionStore) (l : SessionLease) (rec : SessionRecord) (j : SessionKey)
    → Moves s (stage s l.key l rec).0 j
unfolding stage
stage-Moves s l rec j = elim (guarded_cases s l is_activating (write_staged l.key l rec)) [
  | inl e ↦ rw e (Moves-refl s j)
  | inr (a, found, r, ok, e) ↦
      rw e record { same_instance = refl; grows = omega arith; change = keeps refl }
]

restore-Moves :
    (s : SessionStore) (l : SessionLease) (rec : SessionRecord) (j : SessionKey)
    → Moves s (restore s l.key l rec).0 j
unfolding restore
restore-Moves s l rec j = elim (guarded_cases s l is_restoring (write_restored l.key l rec)) [
  | inl e ↦ rw e (Moves-refl s j)
  | inr (a, found, r, ok, e) ↦ rw e (
      rewrite-Moves s _ l.key j a (holding l.revision rec) found (sym r) refl refl
        (λ i. Map.get-set s.access l.key i _))
]

tombstone-Moves :
    (s : SessionStore) (l : SessionLease) (exp : Option ℕ) (at : ℕ) (j : SessionKey)
    → Moves s (tombstone s l.key l exp at).0 j
unfolding tombstone
tombstone-Moves s l exp at j =
    let s' = (snapshot s l.key).0 in
    let seen : Moves s s' j = snapshot-Moves s l.key j in
    elim (Bool-cases (is_current s' l)) [
      | inr stale ↦ rw stale seen
      | inl c ↦
          let (a, found, r) = current_entry s' l c in
          let t = write_tombstone l.key l exp at s' in
          rw c (
            Moves-if (is_restoring_or_revoked (snapshot s l.key).1.state) (t, true) (s', false)
              (Moves-trans seen (
                rewrite-Moves s' t l.key j a (buried l.revision exp at) found (sym r) refl refl
                  (λ i. Map.get-set s'.access l.key i _)))
              seen)
    ]

begin_restore-Moves :
    (s : SessionStore) (k j : SessionKey) (r : Revision) → Moves s (begin_restore s k r).0 j
unfolding begin_restore
begin_restore-Moves s k j r = elim (Bool-cases (known s k)) [
  | inl old ↦ rw old (Moves-refl s j)
  | inr new ↦
      let t = record s { access = Map.set s.access k (bare r restoring) } in
      let w : Moves s t j = record {
        same_instance = refl;
        grows = omega arith;
        change =
            write-adopts s t k j (bare r restoring) (λ i. Map.get-set s.access k i _)
              (unknown_entry s k new);
      } in
      rw new (Moves-trans w (lease-Moves t k j))
]

abandon_restore-Moves :
    (s : SessionStore) (l : SessionLease) (j : SessionKey) → Moves s (abandon_restore s l.key l) j
unfolding abandon_restore
abandon_restore-Moves s l j =
    let s' = (snapshot s l.key).0 in
    let seen : Moves s s' j = snapshot-Moves s l.key j in
    Moves-choice (is_current s l) _ s
      (Moves-choice (is_restoring (snapshot s l.key).1.state) (replace s' l.key unconnected) s'
        (Moves-trans seen (replace-Moves s' l.key j unconnected)) seen)
      (Moves-refl s j)

fail-Moves : (s : SessionStore) (l : SessionLease) (j : SessionKey) → Moves s (fail s l.key l) j
unfolding fail
fail-Moves s l j =
    Moves-choice (is_current s l) (replace s l.key unconnected) s
      (replace-Moves s l.key j unconnected) (Moves-refl s j)

disconnect-Moves : (s : SessionStore) (k j : SessionKey) → Moves s (disconnect s k).0 j
unfolding disconnect
disconnect-Moves s k j = Moves-trans (replace-Moves s k j disconnected) (snapshot-Moves _ k j)

-- Every call, at every key.
pub apply-Moves : (s : SessionStore) (o : Op) (j : SessionKey) → Moves s (apply s o) j
unfolding apply set_session
apply-Moves s (snapshots k) j = snapshot-Moves s k j
apply-Moves s (reserves k e) j = reserve-Moves s k j e
apply-Moves s (commits l rec) j = commit-Moves s l rec j
apply-Moves s (stages l rec) j = stage-Moves s l rec j
apply-Moves s (begins_restore k r) j = begin_restore-Moves s k j r
apply-Moves s (restores l rec) j = restore-Moves s l rec j
apply-Moves s (tombstones l exp at) j = tombstone-Moves s l exp at j
apply-Moves s (abandons l) j = abandon_restore-Moves s l j
apply-Moves s (fails l) j = fail-Moves s l j
apply-Moves s (disconnects k) j = disconnect-Moves s k j
apply-Moves s (sets id rec) j = record {
  same_instance = refl;
  grows = omega arith;
  change = keeps refl;
}

pub run-Moves : (s : SessionStore) (os : List Op) (j : SessionKey) → Moves s (run s os) j
unfolding run
run-Moves s [] j = Moves-refl s j
run-Moves s (o ∷ os) j = Moves-trans (apply-Moves s o j) (run-Moves (apply s o) os j)
