-- ===== src/SessionStore.antt =====
-- packages/eliza-service/src/session-store.ts: access revisions and leases of held sessions.
--
-- A method returns the new store with its result. `JSON.stringify([appId, agentId, entityId])` is
-- injective on texts, so a key is the triple itself; a revision `${instance}:${sequence}` is the
-- pair. A lease holds the key and the revision that its closures captured, and `is_current` is
-- asked of the store. The calls of the invalidation listeners stand in `notified`, newest first.
pub mod Moves
pub mod Fencing
pub mod Diagram
pub mod Handshake
mod Tests
use text.Mathlib.TextEquality.{eq_iff}
use tinycloud_agents.Base.{
  ℕ, ◌+◌, ◌≡◌, refl, ◌↔◌, Bool, true, false, ◌&&◌, not, Option, none, some, List, [], ◌∷◌, String,
  length, if◌then◌else◌, StrictEq, ◌===◌, text_eq, number_eq, arith, is_some, nat_beq_iff,
}
use tinycloud_agents.Base.Map
use tinycloud_agents.Base.Map.{Map}

pub record Expiries : Type 0 where
  pub memory : Option ℕ
  pub transcripts : Option ℕ

pub record SessionRecord : Type 0 where
  pub agent_id : String
  pub serialized_delegation : String
  pub serialized_transcript_delegation : Option String
  pub room_id : Option String
  pub exp : Option ℕ
  pub expiries : Option Expiries

pub record SessionScope : Type 0 where
  pub app_id : String
  pub agent_id : String

pub record SessionKey : Type 0 where
  pub app_id : String
  pub agent_id : String
  pub entity_id : String

unfoldable pub key : SessionScope → String → SessionKey
key scope entity_id = record {
  app_id = scope.app_id;
  agent_id = scope.agent_id;
  entity_id = entity_id;
}

abbrev pub same_key : SessionKey → SessionKey → Bool
same_key a b = (a.app_id === b.app_id && a.agent_id === b.agent_id) && a.entity_id === b.entity_id

pub same_key-eq : (a b : SessionKey) → (same_key a b ≡ true) ↔ (a ≡ b)
same_key-eq a b =
    ground (
      arith,
      eq_iff a.app_id b.app_id,
      eq_iff a.agent_id b.agent_id,
      eq_iff a.entity_id b.entity_id,
    )

instance unfoldable pub key_eq : StrictEq SessionKey
key_eq = record { same = same_key; same-eq = same_key-eq }

pub record Revision : Type 0 where
  pub instance_id : String
  pub sequence : ℕ

abbrev pub same_revision : Revision → Revision → Bool
same_revision a b = a.instance_id === b.instance_id && a.sequence === b.sequence

pub same_revision-eq : (a b : Revision) → (same_revision a b ≡ true) ↔ (a ≡ b)
same_revision-eq a b = ground (arith, eq_iff a.instance_id b.instance_id)

instance unfoldable pub revision_eq : StrictEq Revision
revision_eq = record { same = same_revision; same-eq = same_revision-eq }

pub data AccessState : Type 0 where
  unconnected activating active disconnected restoring revoked : AccessState

pub record SessionSnapshot : Type 0 where
  pub revision : Revision
  pub state : AccessState
  pub session : Option SessionRecord
  pub exp : Option ℕ
  pub revoked_at : Option ℕ

pub record Staged : Type 0 where
  pub revision : Revision
  pub session : SessionRecord

pub record SessionLease : Type 0 where
  pub key : SessionKey
  pub revision : Revision
  pub active : Bool

pub record SessionStore : Type 0 where
  pub sessions : Map String SessionRecord
  pub instance_id : String
  pub sequence : ℕ
  pub access : Map SessionKey SessionSnapshot
  pub persisting : Map SessionKey Staged
  pub notified : List SessionKey

unfoldable pub new : String → SessionStore
new instance_id = record {
  sessions = [];
  instance_id = instance_id;
  sequence = 0;
  access = [];
  persisting = [];
  notified = [];
}

-- `{ revision, state }`, with the optional fields absent.
abbrev pub bare : Revision → AccessState → SessionSnapshot
bare r st = record { revision = r; state = st; session = none; exp = none; revoked_at = none }

abbrev pub is_active : AccessState → Bool
is_active active = true
is_active _ = false

unfoldable pub next_revision : SessionStore → SessionStore × Revision
next_revision s =
    let n = s.sequence + 1 in
    (record s { sequence = n }, record { instance_id = s.instance_id; sequence = n })

unfoldable pub replace : SessionStore → SessionKey → AccessState → SessionStore
replace s k st =
    let (s', r) = next_revision (record s { persisting = Map.delete s.persisting k }) in
    record s' { access = Map.set s'.access k (bare r st); notified = k ∷ s'.notified }

unfoldable pub peek : SessionStore → SessionKey → Option SessionSnapshot
peek s k = Map.get s.access k

unfoldable pub known : SessionStore → SessionKey → Bool
known s k = Map.has s.access k

unfoldable pub snapshot : SessionStore → SessionKey → SessionStore × SessionSnapshot
snapshot s k = elim (Map.get s.access k) [
  | some state ↦ (s, state)
  | none ↦
      let (s', r) = next_revision s in
      (record s' { access = Map.set s'.access k (bare r unconnected) }, bare r unconnected)
]

unfoldable pub lease : SessionStore → SessionKey → SessionStore × SessionLease
lease s k =
    let (s', snap) = snapshot s k in
    (s', record { key = k; revision = snap.revision; active = is_active snap.state })

unfoldable pub is_current : SessionStore → SessionLease → Bool
is_current s l = elim (Map.get s.access l.key) [
  | none ↦ false
  | some snap ↦ snap.revision === l.revision
]

pub is_active_lease : SessionStore → SessionLease → Bool
is_active_lease s l = elim (Map.get s.access l.key) [
  | none ↦ false
  | some snap ↦ is_current s l && is_active snap.state
]

unfoldable pub reserve :
    SessionStore → SessionKey → Option Revision → SessionStore × Option SessionLease
reserve s k none = let (s', l) = lease (replace s k activating) k in (s', some l)
reserve s k (some expected) =
    let (s', snap) = snapshot s k in
    if not (snap.revision === expected)
    then (s', none)
    else let (s'', l) = lease (replace s' k activating) k in (s'', some l)

-- `!lease.isCurrent() || this.snapshot(…).state !== …`, then the write: the guard that `commit`,
-- `stage`, `restore` and `tombstone` share. `allowed` is the test on the state.
unfoldable pub guarded :
    SessionStore
    → SessionKey
    → SessionLease
    → (AccessState → Bool)
    → (SessionStore → SessionStore)
    → SessionStore × Bool
guarded s k l allowed write =
    if not (is_current s l)
    then (s, false)
    else let (s', snap) = snapshot s k in
      if allowed snap.state then (write s', true) else (s', false)

abbrev pub is_activating : AccessState → Bool
is_activating activating = true
is_activating _ = false

abbrev pub is_restoring : AccessState → Bool
is_restoring restoring = true
is_restoring _ = false

abbrev pub is_restoring_or_revoked : AccessState → Bool
is_restoring_or_revoked restoring = true
is_restoring_or_revoked revoked = true
is_restoring_or_revoked _ = false

abbrev pub holding : Revision → SessionRecord → SessionSnapshot
holding r rec = record (bare r active) { session = some rec }

-- The writes behind the guards.
abbrev pub write_committed : SessionKey → SessionLease → SessionRecord → SessionStore → SessionStore
write_committed k l rec t = record t {
  access = Map.set t.access k (holding l.revision rec);
  persisting = Map.delete t.persisting k;
}

abbrev pub write_staged : SessionKey → SessionLease → SessionRecord → SessionStore → SessionStore
write_staged k l rec t = record t {
  persisting = Map.set t.persisting k (record { revision = l.revision; session = rec });
}

abbrev pub write_restored : SessionKey → SessionLease → SessionRecord → SessionStore → SessionStore
write_restored k l rec t = record t { access = Map.set t.access k (holding l.revision rec) }

abbrev pub buried : Revision → Option ℕ → ℕ → SessionSnapshot
buried r exp revoked_at = record (bare r revoked) { exp = exp; revoked_at = some revoked_at }

abbrev pub write_tombstone : SessionKey → SessionLease → Option ℕ → ℕ → SessionStore → SessionStore
write_tombstone k l exp revoked_at t = record t {
  access = Map.set t.access k (buried l.revision exp revoked_at);
}

unfoldable pub commit :
    SessionStore → SessionKey → SessionLease → SessionRecord → SessionStore × Bool
commit s k l rec = guarded s k l is_activating (write_committed k l rec)

unfoldable pub stage :
    SessionStore → SessionKey → SessionLease → SessionRecord → SessionStore × Bool
stage s k l rec = guarded s k l is_activating (write_staged k l rec)

pub staged : SessionStore → SessionKey → Option Staged
staged s k = elim (peek s k) [
  | none ↦ none
  | some current ↦ elim (Map.get s.persisting k) [
    | none ↦ none
    | some st ↦
        if is_activating current.state && st.revision === current.revision then some st else none
  ]
]

unfoldable pub begin_restore :
    SessionStore → SessionKey → Revision → SessionStore × Option SessionLease
begin_restore s k r =
    if known s k
    then (s, none)
    else (let (s', l) = lease (record s { access = Map.set s.access k (bare r restoring) }) k in
        (s', some l))

unfoldable pub restore :
    SessionStore → SessionKey → SessionLease → SessionRecord → SessionStore × Bool
restore s k l rec = guarded s k l is_restoring (write_restored k l rec)

-- Unlike the others, `tombstone` reads the state before it asks whether the lease is current.
unfoldable pub tombstone :
    SessionStore → SessionKey → SessionLease → Option ℕ → ℕ → SessionStore × Bool
tombstone s k l exp revoked_at =
    let (s', snap) = snapshot s k in
    if is_current s' l && is_restoring_or_revoked snap.state
    then (write_tombstone k l exp revoked_at s', true)
    else (s', false)

unfoldable pub abandon_restore : SessionStore → SessionKey → SessionLease → SessionStore
abandon_restore s k l =
    if is_current s l
    then (let (s', snap) = snapshot s k in
        if is_restoring snap.state then replace s' k unconnected else s')
    else s

unfoldable pub fail : SessionStore → SessionKey → SessionLease → SessionStore
fail s k l = if is_current s l then replace s k unconnected else s

unfoldable pub disconnect : SessionStore → SessionKey → SessionStore × SessionSnapshot
disconnect s k = snapshot (replace s k disconnected) k

-- The plain map of records: `set`, `get`, `has` and `size`.
pub set_session : SessionStore → String → SessionRecord → SessionStore
set_session s entity_id rec = record s { sessions = Map.set s.sessions entity_id rec }

pub get_session : SessionStore → String → Option SessionRecord
get_session s entity_id = Map.get s.sessions entity_id

pub has_session : SessionStore → String → Bool
has_session s entity_id = Map.has s.sessions entity_id

pub size : SessionStore → ℕ
size s = length s.sessions

-- The calls that change a store; a lease is used with the key that it was given for.
pub data Op : Type 0 where
  snapshots : SessionKey → Op
  reserves : SessionKey → Option Revision → Op
  commits : SessionLease → SessionRecord → Op
  stages : SessionLease → SessionRecord → Op
  begins_restore : SessionKey → Revision → Op
  restores : SessionLease → SessionRecord → Op
  tombstones : SessionLease → Option ℕ → ℕ → Op
  abandons : SessionLease → Op
  fails : SessionLease → Op
  disconnects : SessionKey → Op
  sets : String → SessionRecord → Op

pub op_key : Op → Option SessionKey
op_key (snapshots k) = some k
op_key (reserves k e) = some k
op_key (commits l rec) = some l.key
op_key (stages l rec) = some l.key
op_key (begins_restore k r) = some k
op_key (restores l rec) = some l.key
op_key (tombstones l exp at) = some l.key
op_key (abandons l) = some l.key
op_key (fails l) = some l.key
op_key (disconnects k) = some k
op_key (sets entity_id rec) = none

unfoldable pub apply : SessionStore → Op → SessionStore
apply s (snapshots k) = (snapshot s k).0
apply s (reserves k e) = (reserve s k e).0
apply s (commits l rec) = (commit s l.key l rec).0
apply s (stages l rec) = (stage s l.key l rec).0
apply s (begins_restore k r) = (begin_restore s k r).0
apply s (restores l rec) = (restore s l.key l rec).0
apply s (tombstones l exp at) = (tombstone s l.key l exp at).0
apply s (abandons l) = abandon_restore s l.key l
apply s (fails l) = fail s l.key l
apply s (disconnects k) = (disconnect s k).0
apply s (sets entity_id rec) = set_session s entity_id rec

unfoldable pub run : SessionStore → List Op → SessionStore
run s [] = s
run s (o ∷ os) = run (apply s o) os
