-- ===== src/EntityRegistry/Registering.antt =====
-- entity-registry.ts: registerDelegation and _buildEntry, cut where they await.
--
-- A phase names the awaited call and holds the client; `returned` and `threw` are how it ends. Where
-- the cleanup is awaited, which never throws, `threw` is what createClient throws after it. The
-- `finally` block runs in the turn that settles the registration.
use tinycloud_agents.Base.{
  ℕ, ◌+◌, Bool, true, false, ◌&&◌, ◌||◌, not, Option, none, some, ◌∷◌, String, leb, length, any,
  if◌then◌else◌, ◌===◌, text_eq, number_eq,
}
use tinycloud_agents.Base.Map
use tinycloud_agents.Delegation.{PortableDelegation, Sdk, Reason, Checked, ok, err}
use tinycloud_agents.Delegation.Policy.{deserialize_delegation_safe, expiry_time}
use tinycloud_agents.EntityRegistry.{
  Surroundings, Currency, of_caller, owned, unchecked, RegistryEntry, Pending, EntityRegistry,
  Failure, no_delegation, allows, owns, disconnect_entity, evict_lru,
}

pub record Registration : Type 0 where
  pub entity_id : String
  pub serialized : String
  pub room_id : Option String
  pub caller : Option ℕ
  pub can_use : Option ℕ
  pub revision : ℕ

pub data Phase : Type 0 where
  cleaning installed : Phase
  signing_in queued writing_schema evicting : (client : ℕ) → Phase
  failing : (client : ℕ) → Failure → Phase

pub data Answer : Type 0 where
  returned : Answer
  threw : Failure → Answer

pub data Turn : Type 0 where
  waits : Phase → Turn
  resolves : Turn
  rejects : Failure → Turn

pub data Started : Type 0 where
  refuses resolves_at_once : Started
  joins : Pending → Started
  begins : Registration → Started

-- What a caller of registerDelegation gives.
pub record Request : Type 0 where
  pub entity_id : String
  pub serialized : String
  pub room_id : Option String
  pub caller : Option ℕ
  pub can_use : Option ℕ

-- `if (roomId)`: an empty text is none.
abbrev pub bind : EntityRegistry → Option String → String → EntityRegistry
bind r none entity_id = r
bind r (some room_id) entity_id =
    if room_id === ""
    then r
    else record r { room_to_entity = Map.set r.room_to_entity room_id entity_id }

abbrev pub currency_of : Option ℕ → Currency
currency_of none = unchecked
currency_of (some closure) = of_caller closure

-- The entry of the pre-built seam is kept.
abbrev pub renewed : Surroundings → Request → RegistryEntry → RegistryEntry
renewed s q entry = record entry {
  last_used = s.now;
  is_current = currency_of q.caller;
  can_use = q.can_use;
}

-- Invalidates and detaches the old client, then takes a revision.
unfoldable pub begin : EntityRegistry → Request → EntityRegistry × Started
begin r q =
    let t = disconnect_entity r q.entity_id in
    (
      record t {
        revisions = Map.set t.revisions q.entity_id t.fresh;
        fresh = t.fresh + 1;
        pending = Map.set t.pending q.entity_id (record {
          serialized = q.serialized;
          revision = t.fresh;
          caller = q.caller;
          client = none;
        });
      },
      begins (record {
        entity_id = q.entity_id;
        serialized = q.serialized;
        room_id = q.room_id;
        caller = q.caller;
        can_use = q.can_use;
        revision = t.fresh;
      }),
    )

-- Only a pending registration with the same grant, that still owns the entity, is joined.
unfoldable pub join_or_begin :
    Surroundings → EntityRegistry → Request → Option Pending → EntityRegistry × Started
join_or_begin s r q none = begin r q
join_or_begin s r q (some p) =
    if p.serialized === q.serialized && owns s r q.entity_id p.revision p.caller
    then (r, joins p)
    else begin r q

abbrev pub is_prebuilt : EntityRegistry → String → Bool
is_prebuilt r entity_id = any (λ e. e === entity_id) r.prebuilt

unfoldable pub replace_or_keep :
    Surroundings → EntityRegistry → Request → Option RegistryEntry → EntityRegistry × Started
replace_or_keep s r q none = join_or_begin s r q (Map.get r.pending q.entity_id)
replace_or_keep s r q (some entry) =
    if is_prebuilt r q.entity_id
    then (
      bind (record r { entries = Map.set r.entries q.entity_id (renewed s q entry) }) q.room_id
          q.entity_id,
      resolves_at_once,
    )
    else join_or_begin s r q (Map.get r.pending q.entity_id)

unfoldable pub register_delegation :
    Surroundings → EntityRegistry → Request → EntityRegistry × Started
register_delegation s r q =
    if not (allows s q.caller)
    then (r, refuses)
    else replace_or_keep s r q (Map.get r.entries q.entity_id)

-- After the joined registration has resolved.
unfoldable pub join_resolved :
    Surroundings → EntityRegistry → Request → Pending → EntityRegistry × Turn
join_resolved s r q p =
    if owns s r q.entity_id p.revision p.caller && allows s q.caller
    then (bind r q.room_id q.entity_id, resolves)
    else (r, rejects no_delegation)

-- `finally`: the registration is pending no longer.
abbrev pub same_pending : Option Pending → ℕ → Bool
same_pending none revision = false
same_pending (some p) revision = p.revision === revision

unfoldable pub settle : EntityRegistry → Registration → Turn → EntityRegistry × Turn
settle r g turn = (
  (if same_pending (Map.get r.pending g.entity_id) g.revision
      then record r { pending = Map.delete r.pending g.entity_id }
      else r),
  turn,
)

-- The catch block of `_buildEntry`: the client is stopped, then the error is thrown on.
unfoldable pub fail_build : EntityRegistry → ℕ → Failure → EntityRegistry × Turn
fail_build r client e = (record r { stopped = client ∷ r.stopped }, waits (failing client e))

abbrev pub offer : Option Pending → ℕ → ℕ → Option Pending
offer none revision client = none
offer (some p) revision client =
    if p.revision === revision then some (record p { client = some client }) else some p

abbrev pub note_client : EntityRegistry → String → Option Pending → EntityRegistry
note_client r entity_id none = r
note_client r entity_id (some p) = record r { pending = Map.set r.pending entity_id p }

-- `createClient` and `onClient`.
unfoldable pub build : EntityRegistry → Registration → EntityRegistry × Turn
build r g =
    let noted =
      note_client r g.entity_id (offer (Map.get r.pending g.entity_id) g.revision r.fresh) in
    (record noted { fresh = r.fresh + 1 }, waits (signing_in r.fresh))

abbrev pub expiry_of : Checked Reason PortableDelegation → Option ℕ
expiry_of (ok d) = expiry_time d.expiry
expiry_of (err reason) = none

unfoldable pub install :
    Sdk → Surroundings → EntityRegistry → Registration → ℕ → EntityRegistry × Turn
install sdk s r g client = (
  record r {
    entries = Map.set r.entries g.entity_id (record {
      client = client;
      last_used = s.now;
      registered_at = s.now;
      delegation_expiry = expiry_of (deserialize_delegation_safe sdk g.serialized);
      is_current = owned g.revision g.caller;
      can_use = g.can_use;
      rejected = false;
    });
  },
  waits installed,
)

unfoldable pub make_room :
    Sdk → Surroundings → EntityRegistry → Registration → ℕ → EntityRegistry × Turn
make_room sdk s r g client =
    if leb r.max_clients (length r.entries)
    then (evict_lru r, waits (evicting client))
    else install sdk s r g client

-- An awaited call has returned, and the registration still owns the entity.
unfoldable pub proceed :
    Sdk → Surroundings → EntityRegistry → Registration → Phase → EntityRegistry × Turn
proceed sdk s r g cleaning = build r g
proceed sdk s r g (signing_in client) = (r, waits (queued client))
proceed sdk s r g (queued client) = (r, waits (writing_schema client))
proceed sdk s r g (writing_schema client) = make_room sdk s r g client
proceed sdk s r g (evicting client) = install sdk s r g client
proceed sdk s r g installed = settle (bind r g.room_id g.entity_id) g resolves
proceed sdk s r g (failing client e) = settle r g (rejects e)

-- Where it ends on an error: before the client is built and after it is installed there is nothing
-- to stop.
unfoldable pub give_up : EntityRegistry → Registration → Phase → Failure → EntityRegistry × Turn
give_up r g cleaning e = settle r g (rejects e)
give_up r g installed e = settle r g (rejects e)
give_up r g (signing_in client) e = fail_build r client e
give_up r g (queued client) e = fail_build r client e
give_up r g (writing_schema client) e = fail_build r client e
give_up r g (evicting client) e = fail_build r client e
give_up r g (failing client old) e = settle r g (rejects old)

-- Errors in stopping a client are swallowed.
abbrev pub error_of : Phase → Answer → Option Failure
error_of cleaning (threw e) = some e
error_of (signing_in client) (threw e) = some e
error_of (queued client) (threw e) = some e
error_of (writing_schema client) (threw e) = some e
error_of phase a = none

abbrev pub is_failing : Phase → Bool
is_failing (failing client e) = true
is_failing phase = false

-- After the cleanup the registration must own the entity before a client is made.
abbrev pub first_error : Phase → Bool → Failure → Failure
first_error cleaning false e = no_delegation
first_error phase current e = e

unfoldable pub after_answer :
    Sdk
    → Surroundings
    → EntityRegistry
    → Registration
    → Phase
    → Bool
    → Option Failure
    → EntityRegistry × Turn
after_answer sdk s r g phase current (some e) = give_up r g phase (first_error phase current e)
after_answer sdk s r g phase current none =
    if is_failing phase || current then proceed sdk s r g phase else give_up r g phase no_delegation

unfoldable pub resume :
    Sdk → Surroundings → EntityRegistry → Registration → Phase → Answer → EntityRegistry × Turn
resume sdk s r g phase a =
    after_answer sdk s r g phase (owns s r g.entity_id g.revision g.caller) (error_of phase a)
