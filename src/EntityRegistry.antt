-- ===== src/EntityRegistry.antt =====
-- packages/eliza-plugin-memory/src/entity-registry.ts, class EntityClientRegistry: its state, and the
-- operations that do not wait.
--
-- The objects that the code compares by identity, revisions and clients, are numbers from one
-- counter. A caller's closures, isCurrent and canUse, are numbers too; what they answer at a call is
-- given with the time. `stopped` has the clients on which stop was called, newest first.
pub mod Registering
pub mod Revisions
pub mod Fencing
pub mod Access
pub mod Capacity
mod Tests
use tinycloud_agents.Base.{
  ℕ, ◌+◌, Bool, true, false, ◌&&◌, ◌||◌, not, Option, none, some, List, [], ◌∷◌, ◌++◌, String, ltb,
  leb, length, if◌then◌else◌, ◌===◌, text_eq, number_eq, is_some, without,
}
use tinycloud_agents.Base.Map
use tinycloud_agents.Base.Map.{Map}

-- What `Date.now()` and the closures of the callers answer.
pub record Surroundings : Type 0 where
  pub now : ℕ
  pub answers : ℕ → Bool

-- `isCurrent` of an entry: absent, the caller's, or the `owns` of a registration.
pub data Currency : Type 0 where
  unchecked : Currency
  of_caller : ℕ → Currency
  owned : (revision : ℕ) (caller : Option ℕ) → Currency

pub record RegistryEntry : Type 0 where
  pub client : ℕ
  pub last_used : ℕ
  pub registered_at : ℕ
  pub delegation_expiry : Option ℕ
  pub is_current : Currency
  pub can_use : Option ℕ
  pub rejected : Bool

pub record Pending : Type 0 where
  pub serialized : String
  pub revision : ℕ
  pub caller : Option ℕ
  pub client : Option ℕ

pub record EntityRegistry : Type 0 where
  pub entries : Map String RegistryEntry
  pub room_to_entity : Map String String
  pub pending : Map String Pending
  pub revisions : Map String ℕ
  pub prebuilt : List String
  pub fresh : ℕ
  pub max_clients : ℕ
  pub stopped : List ℕ

pub data Failure : Type 0 where
  no_delegation delegation_expired other_error : Failure

pub data Found : Type 0 where
  found : (client : ℕ) → Found
  fails : Failure → Found

abbrev pub new : ℕ → EntityRegistry
new max_clients = record {
  entries = [];
  room_to_entity = [];
  pending = [];
  revisions = [];
  prebuilt = [];
  fresh = 0;
  max_clients = max_clients;
  stopped = [];
}

-- `!isCurrent || isCurrent()`, and the same of canUse.
abbrev pub allows : Surroundings → Option ℕ → Bool
allows s none = true
allows s (some closure) = s.answers closure

abbrev pub has_revision : Option ℕ → ℕ → Bool
has_revision none revision = false
has_revision (some r) revision = r === revision

unfoldable pub owns : Surroundings → EntityRegistry → String → ℕ → Option ℕ → Bool
owns s r entity_id revision caller =
    has_revision (Map.get r.revisions entity_id) revision && allows s caller

abbrev pub currency_holds : Surroundings → EntityRegistry → String → Currency → Bool
currency_holds s r entity_id unchecked = true
currency_holds s r entity_id (of_caller closure) = s.answers closure
currency_holds s r entity_id (owned revision caller) = owns s r entity_id revision caller

-- The signed expiry has passed.
abbrev pub is_over : Surroundings → Option ℕ → Bool
is_over s none = false
is_over s (some t) = leb t s.now

abbrev pub drop_rooms : String → Map String String → Map String String
drop_rooms entity_id rooms = without (λ binding. binding.1 === entity_id) rooms

abbrev pub client_of : Option RegistryEntry → List ℕ
client_of none = []
client_of (some entry) = entry.client ∷ []

abbrev pub candidate_of : Option Pending → List ℕ
candidate_of none = []
candidate_of (some p) = elim p.client [ none ↦ [] | some client ↦ client ∷ [] ]

-- `new Set(…)`.
abbrev pub distinct_clients : List ℕ → List ℕ
distinct_clients [] = []
distinct_clients (c ∷ cs) = c ∷ without (λ x. x === c) (distinct_clients cs)

-- `disconnectEntity`, up to the awaited stops.
unfoldable pub disconnect_entity : EntityRegistry → String → EntityRegistry
disconnect_entity r entity_id = record r {
  entries = Map.delete r.entries entity_id;
  room_to_entity = drop_rooms entity_id r.room_to_entity;
  pending = Map.delete r.pending entity_id;
  revisions = Map.set r.revisions entity_id r.fresh;
  prebuilt = without (λ e. e === entity_id) r.prebuilt;
  fresh = r.fresh + 1;
  stopped =
      distinct_clients
        (client_of (Map.get r.entries entity_id) ++ candidate_of (Map.get r.pending entity_id))
      ++ r.stopped;
}

abbrev pub keys_of : {V : Type 0} → Map String V → List String
keys_of [] = []
keys_of ((k, v) ∷ rest) = k ∷ keys_of rest

abbrev pub disconnect_all : EntityRegistry → List String → EntityRegistry
disconnect_all r [] = r
disconnect_all r (entity_id ∷ rest) = disconnect_all (disconnect_entity r entity_id) rest

-- An entity that stands in both maps is disconnected once by the source; to disconnect it again
-- changes only which number its revision has.
abbrev pub stop : EntityRegistry → EntityRegistry
stop r = disconnect_all r (keys_of r.entries ++ keys_of r.pending)

-- `_evict`, up to the awaited stop.
unfoldable pub evict : EntityRegistry → String → EntityRegistry
evict r entity_id = elim (Map.get r.entries entity_id) [
  | none ↦ r
  | some entry ↦ record r {
    entries = Map.delete r.entries entity_id;
    room_to_entity = drop_rooms entity_id r.room_to_entity;
    stopped = entry.client ∷ r.stopped;
  }
]

-- The first of the entries that were used longest ago; `best` is the candidate so far.
unfoldable pub least_used : Option (String × ℕ) → Map String RegistryEntry → Option (String × ℕ)
least_used best [] = best
least_used none ((k, entry) ∷ rest) = least_used (some (k, entry.last_used)) rest
least_used (some (key, time)) ((k, entry) ∷ rest) =
    least_used (if ltb entry.last_used time then some (k, entry.last_used) else some (key, time))
      rest

unfoldable pub evict_lru : EntityRegistry → EntityRegistry
evict_lru r = elim (least_used none r.entries) [ none ↦ r | some (key, time) ↦ evict r key ]

-- The tests of `clientFor` on an entry.
unfoldable pub is_private : Surroundings → EntityRegistry → String → RegistryEntry → Bool
is_private s r entity_id entry =
    not (currency_holds s r entity_id entry.is_current) || not (allows s entry.can_use)

unfoldable pub has_lapsed : Surroundings → RegistryEntry → Bool
has_lapsed s entry = entry.rejected || is_over s entry.delegation_expiry

abbrev pub touched : Surroundings → RegistryEntry → RegistryEntry
touched s entry = record entry { last_used = s.now }

unfoldable pub use_entry :
    Surroundings → EntityRegistry → String → RegistryEntry → EntityRegistry × Found
use_entry s r entity_id entry =
    if is_private s r entity_id entry
    then (r, fails no_delegation)
    else if has_lapsed s entry
    then (evict r entity_id, fails delegation_expired)
    else (record r { entries = Map.set r.entries entity_id (touched s entry) }, found entry.client)

unfoldable pub client_for : Surroundings → EntityRegistry → String → EntityRegistry × Found
client_for s r entity_id = elim (Map.get r.entries entity_id) [
  | none ↦ (r, fails no_delegation)
  | some entry ↦ use_entry s r entity_id entry
]

-- An empty owner is no owner.
unfoldable pub client_for_room : Surroundings → EntityRegistry → String → EntityRegistry × Found
client_for_room s r room_id = elim (Map.get r.room_to_entity room_id) [
  | none ↦ (r, fails no_delegation)
  | some entity_id ↦ if entity_id === "" then (r, fails no_delegation) else client_for s r entity_id
]

unfoldable pub bind_room : Surroundings → EntityRegistry → String → String → EntityRegistry × Found
bind_room s r entity_id room_id =
    let (t, outcome) = client_for s r entity_id in
    elim outcome [
      | fails e ↦ (t, fails e)
      | found client ↦
          (record t { room_to_entity = Map.set t.room_to_entity room_id entity_id }, found client)
    ]

abbrev pub entry_usable : Surroundings → EntityRegistry → String → Option RegistryEntry → Bool
entry_usable s r entity_id none = false
entry_usable s r entity_id (some entry) =
    (currency_holds s r entity_id entry.is_current && not entry.rejected)
    && not (is_over s entry.delegation_expiry)

unfoldable pub has_delegation : Surroundings → EntityRegistry → String → Bool
has_delegation s r entity_id = entry_usable s r entity_id (Map.get r.entries entity_id)

abbrev pub entity_for_room : EntityRegistry → String → Option String
entity_for_room r room_id = Map.get r.room_to_entity room_id

-- `onDelegationRejected` of a client.
unfoldable pub reject_client : EntityRegistry → String → ℕ → EntityRegistry
reject_client r entity_id client = elim (Map.get r.entries entity_id) [
  | none ↦ r
  | some entry ↦
      if entry.client === client
      then record r { entries = Map.set r.entries entity_id (record entry { rejected = true }) }
      else r
]
