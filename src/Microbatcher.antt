-- ===== src/Microbatcher.antt =====
-- packages/eliza-plugin-memory/src/microbatcher.ts: requests of one group that share a batch.
--
-- A number stands for the promise of a request, with its resolver and its rejecter. flushGroup is
-- cut where it awaits runBatch: what it holds meanwhile is a Batch, and settle goes on. Where
-- runBatch gives a member no result, the source resolves with undefined, which is `none`.
pub mod Requests
pub mod Waiters
pub mod Coalescing
mod Tests
use tinycloud_agents.Base.{
  ℕ, Bool, true, false, not, Option, none, some, List, [], ◌∷◌, ◌++◌, String, map, text_eq,
}
use tinycloud_agents.Base.Map
use tinycloud_agents.Base.Map.{Map}

pub record PendingGroup : Type 0 where
  pub members : Map String (List ℕ)
  pub rejecters : List ℕ
  pub armed : Bool

-- `timers` are the groups of the flush timers that are set, newest first.
pub record Microbatcher : Type 0 where
  pub pending : Map String PendingGroup
  pub timers : List String

pub record Batch : Type 0 where
  pub group : String
  pub members : List String
  pub waiting : PendingGroup

abbrev pub new : Microbatcher
new = record { pending = []; timers = [] }

abbrev pub empty_group : PendingGroup
empty_group = record { members = []; rejecters = []; armed = false }

abbrev pub group_or_empty : Option PendingGroup → PendingGroup
group_or_empty none = empty_group
group_or_empty (some p) = p

abbrev pub ids_or_empty : Option (List ℕ) → List ℕ
ids_or_empty none = []
ids_or_empty (some ids) = ids

-- The body of the promise's constructor.
unfoldable pub enlist : PendingGroup → String → ℕ → PendingGroup
enlist p member id = record {
  members = Map.set p.members member (ids_or_empty (Map.get p.members member) ++ id ∷ []);
  rejecters = p.rejecters ++ id ∷ [];
  armed = true;
}

unfoldable pub request : Microbatcher → String → String → ℕ → Microbatcher
request b group member id =
    let p = group_or_empty (Map.get b.pending group) in
    record {
      pending = Map.set b.pending group (enlist p member id);
      timers = elim p.armed [ true ↦ b.timers | false ↦ group ∷ b.timers ];
    }

abbrev pub keys : {V : Type 0} → Map String V → List String
keys [] = []
keys ((k, v) ∷ rest) = k ∷ keys rest

unfoldable pub flush_group : Microbatcher → String → Microbatcher × Option Batch
flush_group b group = elim (Map.get b.pending group) [
  | none ↦ (b, none)
  | some p ↦ (
    record b { pending = Map.delete b.pending group },
    some (record { group = group; members = keys p.members; waiting = p }),
  )
]

-- The batches that `flush` hands to runBatch, in the order of the groups.
unfoldable pub flush_all : Microbatcher → List String → Microbatcher × List Batch
flush_all b [] = (b, [])
flush_all b (group ∷ groups) =
    let (c, batch) = flush_group b group in
    let (d, batches) = flush_all c groups in
    (d, elim batch [ none ↦ batches | some x ↦ x ∷ batches ])

abbrev pub flush : Microbatcher → Microbatcher × List Batch
flush b = flush_all b (keys b.pending)

-- How the promises of a batch end: those of each member, in the order of the members, or all.
pub data Settled (R : Type 0) : Type 0 where
  resolves : Map String (List ℕ × Option R) → Settled R
  rejects : List ℕ → Settled R

unfoldable pub resolutions :
    {R : Type 0} → Map String R → Map String (List ℕ) → Map String (List ℕ × Option R)
resolutions result [] = []
resolutions result ((member, ids) ∷ rest) =
    (member, (ids, Map.get result member)) ∷ resolutions result rest

-- `none` where runBatch throws.
unfoldable pub settle : {R : Type 0} → Batch → Option (Map String R) → Settled R
settle batch none = rejects batch.waiting.rejecters
settle batch (some result) = resolves (resolutions result batch.waiting.members)
