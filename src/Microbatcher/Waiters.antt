-- ===== src/Microbatcher/Waiters.antt =====
-- What a request and a flush do to the promises that the batcher holds.
use tinycloud_agents.Base.{
  ℕ, Bool, false, ◌||◌, any, arith, ◌≡◌, refl, sym, ap, subst, ◌∙◌, inl, inr, ◌&&◌, none, some,
  List, [], ◌∷◌, ◌++◌, String, if◌then◌else◌, ◌===◌, text_eq, Bool-cases, Option-cases,
}
use tinycloud_agents.Base.Map
use tinycloud_agents.Base.Map.{Map}
use tinycloud_agents.Microbatcher.{
  PendingGroup, Microbatcher, keys, group_or_empty, ids_or_empty, enlist, request, flush_group,
}
use tinycloud_agents.Microbatcher.Requests.{Request, one_if, append-nil}

abbrev pub resolvers_at : Microbatcher → String → String → List ℕ
resolvers_at b group member =
    ids_or_empty (Map.get (group_or_empty (Map.get b.pending group)).members member)

abbrev pub rejecters_at : Microbatcher → String → List ℕ
rejecters_at b group = (group_or_empty (Map.get b.pending group)).rejecters

enlist-members :
    (p : PendingGroup) (member other : String) (id : ℕ)
    → ids_or_empty (Map.get (enlist p member id).members other)
      ≡ ids_or_empty (Map.get p.members other) ++ one_if (member === other) id
unfolding enlist
enlist-members p member other id = elim (Bool-cases (member === other)) [
  | inr away ↦
      rw
        (
          Map.get-set p.members member other (ids_or_empty (Map.get p.members member) ++ id ∷ []),
          away,
        )
        (sym (append-nil _))
  | inl here ↦ rw (
    Map.get-set p.members member other (ids_or_empty (Map.get p.members member) ++ id ∷ []),
    here,
    (text_eq.same-eq member other).0 here,
  )
]

pub request-resolvers :
    (b : Microbatcher) (r : Request) (group member : String)
    → resolvers_at (request b r.group r.member r.id) group member
      ≡ resolvers_at b group member ++ one_if (r.group === group && r.member === member) r.id
unfolding request
request-resolvers b r group member = elim (Bool-cases (r.group === group)) [
  | inr away ↦
      rw
        (
          Map.get-set b.pending r.group group
              (enlist (group_or_empty (Map.get b.pending r.group)) r.member r.id),
          away,
        )
        (sym (append-nil _))
  | inl here ↦
      rw
        (
          Map.get-set b.pending r.group group
              (enlist (group_or_empty (Map.get b.pending r.group)) r.member r.id),
          here,
          enlist-members (group_or_empty (Map.get b.pending r.group)) r.member member r.id,
        )
        (ap (λ (g : String). resolvers_at b g member ++ one_if (r.member === member) r.id)
          ((text_eq.same-eq r.group group).0 here))
]

enlist-rejecters :
    (p : PendingGroup) (member : String) (id : ℕ)
    → (enlist p member id).rejecters ≡ p.rejecters ++ id ∷ []
unfolding enlist
enlist-rejecters p member id = refl

request-get :
    (b : Microbatcher) (r : Request) (group : String)
    → Map.get (request b r.group r.member r.id).pending group ≡ (
        if r.group === group
        then some (enlist (group_or_empty (Map.get b.pending r.group)) r.member r.id)
        else Map.get b.pending group)
unfolding request
request-get b r group = Map.get-set b.pending r.group group _

pub request-rejecters :
    (b : Microbatcher) (r : Request) (group : String)
    → rejecters_at (request b r.group r.member r.id) group
      ≡ rejecters_at b group ++ one_if (r.group === group) r.id
request-rejecters b r group =
    ap (λ o. (group_or_empty o).rejecters) (request-get b r group)
    ∙ elim (Bool-cases (r.group === group)) [
      | inr away ↦ rw away (sym (append-nil _))
      | inl here ↦ rw here (
          enlist-rejecters (group_or_empty (Map.get b.pending r.group)) r.member r.id
          ∙ ap (λ (g : String). rejecters_at b g ++ r.id ∷ [])
              ((text_eq.same-eq r.group group).0 here))
    ]

-- A group that waits is handed over whole; another flush does nothing.
pub flush_group-some :
    (b : Microbatcher) (group : String) (p : PendingGroup)
    → Map.get b.pending group ≡ some p
    → flush_group b group ≡ (
      record b { pending = Map.delete b.pending group },
      some (record { group = group; members = keys p.members; waiting = p }),
    )
unfolding flush_group
flush_group-some b group p e = rw (e, flush_group)

pub flush_group-none :
    (b : Microbatcher) (group : String)
    → Map.get b.pending group ≡ none
    → flush_group b group ≡ (b, none)
unfolding flush_group
flush_group-none b group e = rw (e, flush_group)

flush_group-get :
    (b : Microbatcher) (group other : String)
    → Map.get (flush_group b group).0.pending other
      ≡ (if group === other then none else Map.get b.pending other)
flush_group-get b group other = elim (Option-cases (Map.get b.pending group)) [
  | inr (p, e) ↦ rw (flush_group-some b group p e) (Map.get-delete b.pending group other)
  | inl e ↦ elim (Bool-cases (group === other)) [
    | inl here ↦
        rw (flush_group-none b group e, here)
          (subst (λ (g : String). Map.get b.pending g ≡ none) ((text_eq.same-eq group other).0 here)
            e)
    | inr away ↦ rw (flush_group-none b group e, away)
  ]
]

pub flush_group-resolvers :
    (b : Microbatcher) (group other member : String)
    → resolvers_at (flush_group b group).0 other member
      ≡ (if group === other then [] else resolvers_at b other member)
unfolding Map.get
flush_group-resolvers b group other member = elim (Bool-cases (group === other)) [
  | inl here ↦
      ap (λ o. ids_or_empty (Map.get (group_or_empty o).members member))
        (flush_group-get b group other)
      ∙ rw here
  | inr away ↦
      ap (λ o. ids_or_empty (Map.get (group_or_empty o).members member))
        (flush_group-get b group other)
      ∙ rw away
]

pub flush_group-rejecters :
    (b : Microbatcher) (group other : String)
    → rejecters_at (flush_group b group).0 other
      ≡ (if group === other then [] else rejecters_at b other)
flush_group-rejecters b group other = elim (Bool-cases (group === other)) [
  | inl here ↦ ap (λ o. (group_or_empty o).rejecters) (flush_group-get b group other) ∙ rw here
  | inr away ↦ ap (λ o. (group_or_empty o).rejecters) (flush_group-get b group other) ∙ rw away
]

-- `members.includes(member)`.
abbrev pub includes : List String → String → Bool
includes ms member = any (λ m. m === member) ms

-- The members of the group for which the batcher would ask.
abbrev pub asks_for : Microbatcher → String → String → Bool
asks_for b group member = includes (keys (group_or_empty (Map.get b.pending group)).members) member

keys-set :
    {V : Type 0} (m : Map String V) (key other : String) (value : V)
    → includes (keys (Map.set m key value)) other ≡ (key === other) || includes (keys m) other
unfolding Map.set
keys-set [] key other value = refl
keys-set ((k, old) ∷ rest) key other value = ground (
  arith,
  keys-set rest key other value,
  text_eq.same-eq k key,
  text_eq.same-eq k other,
  text_eq.same-eq key other,
)

enlist-keys :
    (p : PendingGroup) (member other : String) (id : ℕ)
    → includes (keys (enlist p member id).members) other
      ≡ (member === other) || includes (keys p.members) other
unfolding enlist
enlist-keys p member other id = keys-set p.members member other _

pub request-asks_for :
    (b : Microbatcher) (r : Request) (group member : String)
    → asks_for (request b r.group r.member r.id) group member
      ≡ (r.group === group && r.member === member) || asks_for b group member
request-asks_for b r group member =
    ap (λ o. includes (keys (group_or_empty o).members) member) (request-get b r group)
    ∙ elim (Bool-cases (r.group === group)) [
      | inr away ↦ rw away refl
      | inl here ↦ rw here (
          enlist-keys (group_or_empty (Map.get b.pending r.group)) r.member member r.id
          ∙ ap (λ (g : String). (r.member === member) || asks_for b g member)
              ((text_eq.same-eq r.group group).0 here))
    ]

pub flush_group-asks_for :
    (b : Microbatcher) (group other member : String)
    → asks_for (flush_group b group).0 other member
      ≡ (if group === other then false else asks_for b other member)
flush_group-asks_for b group other member = elim (Bool-cases (group === other)) [
  | inl here ↦
      ap (λ o. includes (keys (group_or_empty o).members) member) (flush_group-get b group other)
      ∙ rw here
  | inr away ↦
      ap (λ o. includes (keys (group_or_empty o).members) member) (flush_group-get b group other)
      ∙ rw away
]
