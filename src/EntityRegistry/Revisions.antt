-- ===== src/EntityRegistry/Revisions.antt =====
-- What a call on the registry does to the revision of an entity.
use tinycloud_agents.Base.{
  ℕ, ◌≤◌, ◌≡◌, refl, ap, ◌∙◌, ◌⊎◌, inl, inr, Bool, true, false, ◌&&◌, ◌||◌, not, Option, none, some,
  List, [], ◌∷◌, String, if◌then◌else◌, ◌===◌, text_eq, number_eq, arith, Bool-cases, Option-cases,
}
use tinycloud_agents.Base.Map
use tinycloud_agents.Delegation.{Sdk}
use tinycloud_agents.EntityRegistry.{
  Surroundings, RegistryEntry, Pending, EntityRegistry, Failure, no_delegation, owns, allows,
  disconnect_entity, evict, evict_lru, least_used, client_for, use_entry, client_for_room,
  bind_room, reject_client,
}
use tinycloud_agents.EntityRegistry.Registering.{
  Registration, Phase, cleaning, installed, signing_in, queued, writing_schema, evicting, failing,
  Answer, Turn, resolves, rejects, Request, bind, begin, join_or_begin, replace_or_keep,
  register_delegation, join_resolved, settle, fail_build, build, install, make_room, proceed,
  give_up, after_answer, resume, is_failing, first_error, error_of, renewed, is_prebuilt,
}

-- The calls on a registry, each with what the surroundings answer.
pub data Call : Type 0 where
  registers : Surroundings → Request → Call
  resumes : Surroundings → Registration → Phase → Answer → Call
  join_resolves : Surroundings → Request → Pending → Call
  asks : Surroundings → String → Call
  asks_room : Surroundings → String → Call
  binds : Surroundings → String → String → Call
  disconnects : String → Call
  rejects_client : String → ℕ → Call

module _ (sdk : Sdk) where
  unfoldable pub apply : EntityRegistry → Call → EntityRegistry
  apply r (registers s q) = (register_delegation s r q).0
  apply r (resumes s g phase a) = (resume sdk s r g phase a).0
  apply r (join_resolves s q p) = (join_resolved s r q p).0
  apply r (asks s entity_id) = (client_for s r entity_id).0
  apply r (asks_room s room_id) = (client_for_room s r room_id).0
  apply r (binds s entity_id room_id) = (bind_room s r entity_id room_id).0
  apply r (disconnects entity_id) = disconnect_entity r entity_id
  apply r (rejects_client entity_id client) = reject_client r entity_id client

  unfoldable pub run : EntityRegistry → List Call → EntityRegistry
  run r [] = r
  run r (c ∷ cs) = run (apply r c) cs

abbrev pub revision_at : EntityRegistry → String → Option ℕ
revision_at r entity_id = Map.get r.revisions entity_id

-- From `r` to `t` the entity keeps its revision, or gets a new one.
pub record Moves (r t : EntityRegistry) (entity_id : String) : Type 0 where
  pub grows : r.fresh ≤ t.fresh
  pub change :
      (revision_at t entity_id ≡ revision_at r entity_id)
      ⊎ ((n : ℕ) × (revision_at t entity_id ≡ some n) × (r.fresh ≤ n))

Moves-refl : (r : EntityRegistry) (e : String) → Moves r r e
Moves-refl r e = record { grows = omega arith; change = inl refl }

-- The revisions are left alone, and the counter goes no way back.
abbrev Spares : EntityRegistry → EntityRegistry → Type 0
Spares r t = (t.revisions ≡ r.revisions) × (r.fresh ≤ t.fresh)

Spares-Moves : (r t : EntityRegistry) (e : String) → Spares r t → Moves r t e
Spares-Moves r t e (same, more) = record {
  grows = more;
  change = inl (ap (λ revisions. Map.get revisions e) same);
}

Moves-trans : {r t u : EntityRegistry} {e : String} → Moves r t e → Moves t u e → Moves r u e
Moves-trans {r} {t} {u} {e} m n = record {
  grows = omega (arith, m.grows, n.grows);
  change = go m.change n.change;
}
  where
    go :
        (revision_at t e ≡ revision_at r e) ⊎ ((k : ℕ) × (revision_at t e ≡ some k) × (r.fresh ≤ k))
        → (revision_at u e ≡ revision_at t e)
          ⊎ ((k : ℕ) × (revision_at u e ≡ some k) × (t.fresh ≤ k))
        → (revision_at u e ≡ revision_at r e)
          ⊎ ((k : ℕ) × (revision_at u e ≡ some k) × (r.fresh ≤ k))
    go p (inr (k, q, above)) = inr (k, q, omega (arith, m.grows))
    go (inl p) (inl q) = inl (q ∙ p)
    go (inr (k, p, above)) (inl q) = inr (k, q ∙ p, above)

disconnect_entity-Moves :
    (r : EntityRegistry) (e other : String) → Moves r (disconnect_entity r other) e
unfolding disconnect_entity
disconnect_entity-Moves r e other = elim (Bool-cases (other === e)) [
  | inl here ↦ record {
    grows = omega arith;
    change = inr (r.fresh, rw (Map.get-set r.revisions other e r.fresh, here), omega arith);
  }
  | inr away ↦ record {
    grows = omega arith;
    change = inl (rw (Map.get-set r.revisions other e r.fresh, away));
  }
]

begin-Moves : (r : EntityRegistry) (q : Request) (e : String) → Moves r (begin r q).0 e
unfolding begin
begin-Moves r q e =
    let t = disconnect_entity r q.entity_id in
    Moves-trans (disconnect_entity-Moves r e q.entity_id) (elim (Bool-cases (q.entity_id === e)) [
      | inl here ↦ record {
        grows = omega arith;
        change =
            inr (t.fresh, rw (Map.get-set t.revisions q.entity_id e t.fresh, here), omega arith);
      }
      | inr away ↦ record {
        grows = omega arith;
        change = inl (rw (Map.get-set t.revisions q.entity_id e t.fresh, away));
      }
    ])

Spares-trans : (r t u : EntityRegistry) → Spares r t → Spares t u → Spares r u
Spares-trans r t u (p, m) (q, n) = (q ∙ p, omega arith)

evict-Spares : (r : EntityRegistry) (e : String) → Spares r (evict r e)
unfolding evict
evict-Spares r e = ground arith

evict_lru-Spares : (r : EntityRegistry) → Spares r (evict_lru r)
unfolding evict_lru
evict_lru-Spares r = go (least_used none r.entries)
  where
    go : (o : Option (String × ℕ)) → Spares r (elim o [ none ↦ r | some (key, time) ↦ evict r key ])
    go none = (refl, omega arith)
    go (some (key, time)) = evict-Spares r key

client_for-Spares :
    (s : Surroundings) (r : EntityRegistry) (e : String) → Spares r (client_for s r e).0
unfolding client_for use_entry
client_for-Spares s r e = ground (arith, evict-Spares r e)

client_for_room-Spares :
    (s : Surroundings) (r : EntityRegistry) (room : String) → Spares r (client_for_room s r room).0
unfolding client_for_room
client_for_room-Spares s r room = elim (Option-cases (Map.get r.room_to_entity room)) [
  | inl e ↦ rw (e, client_for_room) (refl, omega arith)
  | inr (entity, e) ↦ ground (arith, e, client_for-Spares s r entity)
]

bind_room-Spares :
    (s : Surroundings) (r : EntityRegistry) (e room : String) → Spares r (bind_room s r e room).0
unfolding bind_room
bind_room-Spares s r e room = ground (arith, client_for-Spares s r e)

reject_client-Spares :
    (r : EntityRegistry) (e : String) (client : ℕ) → Spares r (reject_client r e client)
unfolding reject_client
reject_client-Spares r e client = ground arith

bind-Spares : (r : EntityRegistry) (room : Option String) (e : String) → Spares r (bind r room e)
bind-Spares r room e = ground arith

settle-Spares : (r : EntityRegistry) (g : Registration) (turn : Turn) → Spares r (settle r g turn).0
unfolding settle
settle-Spares r g turn = ground arith

give_up-Spares :
    (r : EntityRegistry) (g : Registration) (phase : Phase) (e : Failure)
    → Spares r (give_up r g phase e).0
unfolding give_up fail_build
give_up-Spares r g cleaning e = settle-Spares r g (rejects e)
give_up-Spares r g installed e = settle-Spares r g (rejects e)
give_up-Spares r g (signing_in client) e = (refl, omega arith)
give_up-Spares r g (queued client) e = (refl, omega arith)
give_up-Spares r g (writing_schema client) e = (refl, omega arith)
give_up-Spares r g (evicting client) e = (refl, omega arith)
give_up-Spares r g (failing client old) e = settle-Spares r g (rejects old)

build-Spares : (r : EntityRegistry) (g : Registration) → Spares r (build r g).0
unfolding build
build-Spares r g = ground arith

make_room-Spares :
    (sdk : Sdk) (s : Surroundings) (r : EntityRegistry) (g : Registration) (client : ℕ)
    → Spares r (make_room sdk s r g client).0
unfolding make_room install
make_room-Spares sdk s r g client = ground (arith, evict_lru-Spares r)

proceed-Spares :
    (sdk : Sdk) (s : Surroundings) (r : EntityRegistry) (g : Registration) (phase : Phase)
    → Spares r (proceed sdk s r g phase).0
unfolding proceed install
proceed-Spares sdk s r g cleaning = build-Spares r g
proceed-Spares sdk s r g (signing_in client) = (refl, omega arith)
proceed-Spares sdk s r g (queued client) = (refl, omega arith)
proceed-Spares sdk s r g (writing_schema client) = make_room-Spares sdk s r g client
proceed-Spares sdk s r g (evicting client) = (refl, omega arith)
proceed-Spares sdk s r g installed =
    Spares-trans r (bind r g.room_id g.entity_id)
      (settle (bind r g.room_id g.entity_id) g resolves).0 (bind-Spares r g.room_id g.entity_id)
      (settle-Spares (bind r g.room_id g.entity_id) g resolves)
proceed-Spares sdk s r g (failing client e) = settle-Spares r g (rejects e)

after_answer-Spares :
    (sdk : Sdk) (s : Surroundings) (r : EntityRegistry) (g : Registration) (phase : Phase)
    (current : Bool) (e : Option Failure)
    → Spares r (after_answer sdk s r g phase current e).0
unfolding after_answer
after_answer-Spares sdk s r g phase current (some e) =
    give_up-Spares r g phase (first_error phase current e)
after_answer-Spares sdk s r g phase current none = elim (Bool-cases (is_failing phase || current)) [
  | inl on ↦ rw on (proceed-Spares sdk s r g phase)
  | inr off ↦ rw off (give_up-Spares r g phase no_delegation)
]

join_resolved-Spares :
    (s : Surroundings) (r : EntityRegistry) (q : Request) (p : Pending)
    → Spares r (join_resolved s r q p).0
unfolding join_resolved
join_resolved-Spares s r q p = ground (arith, bind-Spares r q.room_id q.entity_id)

-- An early return or another move.
Moves-if :
    {A : Type 0} (b : Bool) (x y : EntityRegistry × A) {r : EntityRegistry} {e : String}
    → Moves r x.0 e
    → Moves r y.0 e
    → Moves r (if b then x else y).0 e
Moves-if true x y m n = m
Moves-if false x y m n = n

join_or_begin-Moves :
    (s : Surroundings) (r : EntityRegistry) (q : Request) (p : Option Pending) (e : String)
    → Moves r (join_or_begin s r q p).0 e
unfolding join_or_begin
join_or_begin-Moves s r q none e = begin-Moves r q e
join_or_begin-Moves s r q (some p) e =
    Moves-if (p.serialized === q.serialized && owns s r q.entity_id p.revision p.caller) _ _
      (Moves-refl r e) (begin-Moves r q e)

register_delegation-Moves :
    (s : Surroundings) (r : EntityRegistry) (q : Request) (e : String)
    → Moves r (register_delegation s r q).0 e
unfolding register_delegation replace_or_keep
register_delegation-Moves s r q e =
    Moves-if (not (allows s q.caller)) _ _ (Moves-refl r e) (go (Map.get r.entries q.entity_id))
  where
    go : (entry : Option RegistryEntry) → Moves r (replace_or_keep s r q entry).0 e
    go none = join_or_begin-Moves s r q (Map.get r.pending q.entity_id) e
    go (some entry) =
        Moves-if (is_prebuilt r q.entity_id) _ _
          (Spares-Moves r _ e (
            bind-Spares (record r { entries = Map.set r.entries q.entity_id (renewed s q entry) })
              q.room_id q.entity_id))
          (join_or_begin-Moves s r q (Map.get r.pending q.entity_id) e)

module _ (sdk : Sdk) where
  apply-Moves : (r : EntityRegistry) (c : Call) (e : String) → Moves r (apply sdk r c) e
  unfolding apply resume
  apply-Moves r (registers s q) e = register_delegation-Moves s r q e
  apply-Moves r (resumes s g phase a) e = Spares-Moves r _ e (
      after_answer-Spares sdk s r g phase (owns s r g.entity_id g.revision g.caller)
        (error_of phase a))
  apply-Moves r (join_resolves s q p) e = Spares-Moves r _ e (join_resolved-Spares s r q p)
  apply-Moves r (asks s entity_id) e = Spares-Moves r _ e (client_for-Spares s r entity_id)
  apply-Moves r (asks_room s room_id) e = Spares-Moves r _ e (client_for_room-Spares s r room_id)
  apply-Moves r (binds s entity_id room_id) e =
      Spares-Moves r _ e (bind_room-Spares s r entity_id room_id)
  apply-Moves r (disconnects entity_id) e = disconnect_entity-Moves r e entity_id
  apply-Moves r (rejects_client entity_id client) e =
      Spares-Moves r _ e (reject_client-Spares r entity_id client)

  pub run-Moves : (r : EntityRegistry) (cs : List Call) (e : String) → Moves r (run sdk r cs) e
  unfolding run
  run-Moves r [] e = Moves-refl r e
  run-Moves r (c ∷ cs) e = Moves-trans (apply-Moves r c e) (run-Moves (apply sdk r c) cs e)
