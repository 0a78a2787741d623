-- ===== src/Microbatcher/Coalescing.antt =====
-- The batcher implements an unbatched list of requests.
use tinycloud_agents.Base.{
  ℕ, ◌≡◌, refl, sym, ap, ◌∙◌, inl, inr, ◌&&◌, ◌||◌, false, Option, none, some, List, [], ◌∷◌, ◌++◌,
  String, if◌then◌else◌, ◌===◌, text_eq, arith, Bool-cases, Option-cases,
}
use tinycloud_agents.Base.Map
use tinycloud_agents.Base.Map.{Map}
use tinycloud_agents.Microbatcher.{
  Microbatcher, Batch, new, keys, group_or_empty, ids_or_empty, request, flush_group, resolutions,
  settle, resolves, rejects,
}
use tinycloud_agents.Microbatcher.Requests.{
  is_asked, is_asked-append, is_asked-without_group, Request, Event, asks, flushes, without_group,
  waiting, asked_for, asked_in, one_if, asked_for-append, asked_in-append, asked_for-without_group,
  asked_in-without_group,
}
use tinycloud_agents.Microbatcher.Waiters.{
  includes, asks_for, request-asks_for, flush_group-asks_for, resolvers_at, rejecters_at,
  request-resolvers, request-rejecters, flush_group-some, flush_group-none, flush_group-resolvers,
  flush_group-rejecters,
}

unfoldable pub play : Microbatcher → List Event → Microbatcher
play b [] = b
play b (asks r ∷ es) = play (request b r.group r.member r.id) es
play b (flushes group ∷ es) = play (flush_group b group).0 es

-- The batcher holds the requests that wait.
pub record Implements (b : Microbatcher) (rs : List Request) : Type 0 where
  pub resolvers : (group member : String) → resolvers_at b group member ≡ asked_for group member rs
  pub rejecters : (group : String) → rejecters_at b group ≡ asked_in group rs
  pub members : (group member : String) → asks_for b group member ≡ is_asked group member rs

request-Implements :
    (b : Microbatcher) (rs : List Request) (r : Request)
    → Implements b rs
    → Implements (request b r.group r.member r.id) (rs ++ r ∷ [])
request-Implements b rs r i = record {
  resolvers = λ group member.
      request-resolvers b r group member
      ∙ ap (λ xs. xs ++ one_if (r.group === group && r.member === member) r.id)
          (i.resolvers group member)
      ∙ sym (asked_for-append group member rs r);
  rejecters = λ group.
      request-rejecters b r group
      ∙ ap (λ xs. xs ++ one_if (r.group === group) r.id) (i.rejecters group)
      ∙ sym (asked_in-append group rs r);
  members = λ group member.
      request-asks_for b r group member
      ∙ ap (λ x. (r.group === group && r.member === member) || x) (i.members group member)
      ∙ sym (is_asked-append group member rs r);
}

flush_group-Implements :
    (b : Microbatcher) (rs : List Request) (group : String)
    → Implements b rs
    → Implements (flush_group b group).0 (without_group group rs)
flush_group-Implements b rs group i = record {
  resolvers = λ g member.
      flush_group-resolvers b group g member
      ∙ ap (λ (xs : List ℕ). if group === g then [] else xs) (i.resolvers g member)
      ∙ sym (asked_for-without_group g member group rs);
  rejecters = λ g.
      flush_group-rejecters b group g
      ∙ ap (λ (xs : List ℕ). if group === g then [] else xs) (i.rejecters g)
      ∙ sym (asked_in-without_group g group rs);
  members = λ g member.
      flush_group-asks_for b group g member
      ∙ ap (λ x. if group === g then false else x) (i.members g member)
      ∙ sym (is_asked-without_group g member group rs);
}

play-Implements_from :
    (b : Microbatcher) (rs : List Request) (es : List Event)
    → Implements b rs
    → Implements (play b es) (waiting rs es)
unfolding play waiting
play-Implements_from b rs [] i = i
play-Implements_from b rs (asks r ∷ es) i =
    play-Implements_from (request b r.group r.member r.id) (rs ++ r ∷ []) es
      (request-Implements b rs r i)
play-Implements_from b rs (flushes group ∷ es) i =
    play-Implements_from (flush_group b group).0 (without_group group rs) es
      (flush_group-Implements b rs group i)

new-Implements : Implements new []
unfolding Map.get asked_for asked_in is_asked
new-Implements = record {
  resolvers = λ group member. refl;
  rejecters = λ group. refl;
  members = λ group member. refl;
}

-- What is resolved for a member: its waiters, with its slice.
get-resolutions :
    {R : Type 0} (result : Map String R) (members : Map String (List ℕ)) (member : String)
    → Map.get (resolutions result members) member ≡ (elim (Map.get members member) [
      | none ↦ none
      | some ids ↦ some (ids, Map.get result member)
    ])
unfolding resolutions Map.get
get-resolutions result [] member = refl
get-resolutions result ((m, ids) ∷ rest) member = elim (Bool-cases (m === member)) [
  | inl here ↦ rw (here, (text_eq.same-eq m member).0 here)
  | inr away ↦ rw (away, get-resolutions result rest member)
]

-- What one member's entry in a settled batch is: the given promises, resolved with `v`.
abbrev pub Matches : {R : Type 0} → Option (List ℕ × Option R) → List ℕ → Option R → Type 0
Matches none ids v = ids ≡ []
Matches (some (settled, w)) ids v = (settled ≡ ids) × (w ≡ v)

-- The batch that a flush hands over carries these requests: runBatch is asked for the members of the
-- group for which one waits, and for no other; if it throws, all of the group are rejected, in their
-- order; if it gives results, those for a member are resolved, in their order, with what the results
-- have for that member. Without a batch there are none.
abbrev pub Delivers : {R : Type 0} → String → List Request → Map String R → Option Batch → Type 0
Delivers group rs result none = asked_in group rs ≡ []
Delivers {R} group rs result (some batch) =
    (batch.group ≡ group)
    × ((member : String) → includes batch.members member ≡ is_asked group member rs)
    × (settle {R = R} batch none ≡ rejects (asked_in group rs))
    × ((ends : Map String (List ℕ × Option R)) × (settle batch (some result) ≡ resolves ends)
        × ((member : String)
            → Matches (Map.get ends member) (asked_for group member rs) (Map.get result member)))

resolutions-Matches :
    {R : Type 0} (result : Map String R) (members : Map String (List ℕ)) (member : String)
    (ids : List ℕ)
    → ids_or_empty (Map.get members member) ≡ ids
    → Matches (Map.get (resolutions result members) member) ids (Map.get result member)
resolutions-Matches result members member ids same = elim (Option-cases (Map.get members member)) [
  | inl e ↦ rw (get-resolutions result members member, e) (ground (arith, same, e))
  | inr (held, e) ↦ rw (get-resolutions result members member, e) (ground (arith, same, e), refl)
]

Implements-Delivers :
    {R : Type 0} (b : Microbatcher) (rs : List Request) (group : String) (result : Map String R)
    → Implements b rs
    → Delivers group rs result (flush_group b group).1
unfolding settle
Implements-Delivers {R} b rs group result i = elim (Option-cases (Map.get b.pending group)) [
  | inl e ↦
      rw (flush_group-none b group e)
        (sym (i.rejecters group) ∙ ap (λ o. (group_or_empty o).rejecters) e)
  | inr (p, e) ↦ rw (flush_group-some b group p e) (
    refl,
    λ member.
        sym (ap (λ o. includes (keys (group_or_empty o).members) member) e)
        ∙ i.members group member,
    ap rejects (sym (ap (λ o. (group_or_empty o).rejecters) e) ∙ i.rejecters group),
    (
      resolutions result p.members,
      refl,
      λ member. resolutions-Matches result p.members member (asked_for group member rs) (
          sym (ap (λ o. ids_or_empty (Map.get (group_or_empty o).members member)) e)
          ∙ i.resolvers group member),
    ),
  )
]

-- The batcher implements a plain list of requests: after any requests and flushes, a flush of a
-- group asks runBatch for just those members of the group for which there are requests since its last
-- flush. If runBatch throws, all of these requests are rejected, in their order; if it gives results,
-- those for a member are resolved, in their order, with what the results have for that member.
-- Without a batch there are none.
pub play-Delivers :
    {R : Type 0} (es : List Event) (group : String) (result : Map String R)
    → Delivers group (waiting [] es) result (flush_group (play new es) group).1
play-Delivers es group result =
    Implements-Delivers (play new es) (waiting [] es) group result
      (play-Implements_from new [] es new-Implements)
