-- ===== src/EntityRegistry/Fencing.antt =====
-- A registration that a disconnect has overtaken installs nothing.
use tinycloud_agents.Base.{
  ℕ, ◌≤◌, ◌<◌, ◌≡◌, ◌≢◌, refl, ◌∙◌, ◌⊎◌, inl, inr, false, Option, none, some, List, ◌∷◌, text_eq,
  number_eq, nat_beq_iff, arith, Bool-cases, ===-refl,
}
use tinycloud_agents.Base.Map
use tinycloud_agents.Delegation.{Sdk}
use tinycloud_agents.EntityRegistry.{
  Surroundings, EntityRegistry, Failure, no_delegation, owns, disconnect_entity,
}
use tinycloud_agents.EntityRegistry.Registering.{
  Registration, Phase, cleaning, installed, signing_in, queued, writing_schema, evicting, failing,
  Answer, Turn, waits, rejects, settle, fail_build, proceed, give_up, after_answer, resume,
  first_error, error_of, same_pending,
}
use tinycloud_agents.EntityRegistry.Revisions.{Call, run, revision_at, Moves, run-Moves}

-- Another revision stands at the entity.
abbrev IsOvertaken : EntityRegistry → Registration → Type 0
IsOvertaken r g = (n : ℕ) × (revision_at r g.entity_id ≡ some n) × (n ≢ g.revision)

Moves-IsOvertaken :
    (r t : EntityRegistry) (g : Registration)
    → Moves r t g.entity_id
    → g.revision < r.fresh
    → IsOvertaken r g
    → IsOvertaken t g
Moves-IsOvertaken r t g m old (n, here, other) = go m.change
  where
    go :
        (revision_at t g.entity_id ≡ revision_at r g.entity_id)
          ⊎ ((k : ℕ) × (revision_at t g.entity_id ≡ some k) × (r.fresh ≤ k))
        → IsOvertaken t g
    go (inl p) = (n, p ∙ here, other)
    go (inr (k, p, above)) = (k, p, λ e. ground (arith, e, old, above))

disconnect_entity-IsOvertaken :
    (r : EntityRegistry) (g : Registration)
    → g.revision < r.fresh
    → IsOvertaken (disconnect_entity r g.entity_id) g
unfolding disconnect_entity
disconnect_entity-IsOvertaken r g old = (
  r.fresh,
  rw (Map.get-set r.revisions g.entity_id g.entity_id r.fresh, ===-refl g.entity_id),
  λ e. ground (arith, e, old),
)

IsOvertaken-owns :
    (s : Surroundings) (r : EntityRegistry) (g : Registration)
    → IsOvertaken r g
    → owns s r g.entity_id g.revision g.caller ≡ false
unfolding owns
IsOvertaken-owns s r g (n, here, other) = ground (arith, here, other, nat_beq_iff n g.revision)

-- How a registration fails in a phase: where it has a client that it has not installed, it waits for
-- that to stop, and rejects after that; otherwise it rejects.
abbrev pub Fails : Phase → Turn → Type 0
Fails cleaning turn = (e : Failure) × (turn ≡ rejects e)
Fails installed turn = (e : Failure) × (turn ≡ rejects e)
Fails (signing_in client) turn = (e : Failure) × (turn ≡ waits (failing client e))
Fails (queued client) turn = (e : Failure) × (turn ≡ waits (failing client e))
Fails (writing_schema client) turn = (e : Failure) × (turn ≡ waits (failing client e))
Fails (evicting client) turn = (e : Failure) × (turn ≡ waits (failing client e))
Fails (failing client e) turn = turn ≡ rejects e

-- The client of a phase before the installation is stopped.
abbrev pub Stops : Phase → EntityRegistry → EntityRegistry → Type 0
Stops cleaning r t = t.stopped ≡ r.stopped
Stops installed r t = t.stopped ≡ r.stopped
Stops (signing_in client) r t = t.stopped ≡ client ∷ r.stopped
Stops (queued client) r t = t.stopped ≡ client ∷ r.stopped
Stops (writing_schema client) r t = t.stopped ≡ client ∷ r.stopped
Stops (evicting client) r t = t.stopped ≡ client ∷ r.stopped
Stops (failing client e) r t = t.stopped ≡ r.stopped

-- A turn that leaves the entries and the rooms, stops the client and fails.
pub record IsCut (r : EntityRegistry) (phase : Phase) (x : EntityRegistry × Turn) : Type 0 where
  pub entries : x.0.entries ≡ r.entries
  pub rooms : x.0.room_to_entity ≡ r.room_to_entity
  pub stops : Stops phase r x.0
  pub failure : Fails phase x.1

settle-IsCut :
    (r : EntityRegistry) (g : Registration) (e : Failure) (phase : Phase)
    → Stops phase r r
    → Fails phase (rejects e)
    → IsCut r phase (settle r g (rejects e))
unfolding settle
settle-IsCut r g e phase same fails =
    elim (Bool-cases (same_pending (Map.get r.pending g.entity_id) g.revision)) [
      | inl on ↦
          rw on record { entries = refl; rooms = refl; stops = keeps phase same; failure = fails }
      | inr off ↦ rw off record { entries = refl; rooms = refl; stops = same; failure = fails }
    ]
  where
    keeps :
        (phase : Phase)
        → Stops phase r r
        → Stops phase r (record r { pending = Map.delete r.pending g.entity_id })
    keeps cleaning h = h
    keeps installed h = h
    keeps (signing_in client) h = h
    keeps (queued client) h = h
    keeps (writing_schema client) h = h
    keeps (evicting client) h = h
    keeps (failing client e) h = h

give_up-IsCut :
    (r : EntityRegistry) (g : Registration) (phase : Phase) (e : Failure)
    → IsCut r phase (give_up r g phase e)
unfolding give_up fail_build
give_up-IsCut r g cleaning e = settle-IsCut r g e cleaning refl (e, refl)
give_up-IsCut r g installed e = settle-IsCut r g e installed refl (e, refl)
give_up-IsCut r g (failing client old) e = settle-IsCut r g old (failing client old) refl refl
give_up-IsCut r g (signing_in client) e = record {
  entries = refl;
  rooms = refl;
  stops = refl;
  failure = (e, refl);
}
give_up-IsCut r g (queued client) e = record {
  entries = refl;
  rooms = refl;
  stops = refl;
  failure = (e, refl);
}
give_up-IsCut r g (writing_schema client) e = record {
  entries = refl;
  rooms = refl;
  stops = refl;
  failure = (e, refl);
}
give_up-IsCut r g (evicting client) e = record {
  entries = refl;
  rooms = refl;
  stops = refl;
  failure = (e, refl);
}

kept_old :
    (r : EntityRegistry) (g : Registration)
    → g.revision < r.fresh
    → g.revision < (disconnect_entity r g.entity_id).fresh
unfolding disconnect_entity
kept_old r g old = omega arith

module _ (sdk : Sdk) where
  unowned-IsCut :
      (s : Surroundings) (r : EntityRegistry) (g : Registration) (phase : Phase)
      (e : Option Failure)
      → IsCut r phase (after_answer sdk s r g phase false e)
  unfolding after_answer proceed
  unowned-IsCut s r g phase (some e) = give_up-IsCut r g phase (first_error phase false e)
  unowned-IsCut s r g cleaning none = give_up-IsCut r g cleaning no_delegation
  unowned-IsCut s r g installed none = give_up-IsCut r g installed no_delegation
  unowned-IsCut s r g (signing_in client) none = give_up-IsCut r g (signing_in client) no_delegation
  unowned-IsCut s r g (queued client) none = give_up-IsCut r g (queued client) no_delegation
  unowned-IsCut s r g (writing_schema client) none =
      give_up-IsCut r g (writing_schema client) no_delegation
  unowned-IsCut s r g (evicting client) none = give_up-IsCut r g (evicting client) no_delegation
  unowned-IsCut s r g (failing client e) none = settle-IsCut r g e (failing client e) refl refl

  -- Once its entity is disconnected, a registration that was begun before installs nothing: after
  -- any calls in between, and however the call that it awaits ends, it leaves the entries and the
  -- rooms as they are; it stops the client that it has built, if it has not been installed, and then
  -- waits for that; and it rejects, in this turn or, where it waits for a client to stop, when that
  -- has ended, with the error that it had when it began to stop it.
  pub disconnect_entity-resume :
      (s : Surroundings) (r : EntityRegistry) (g : Registration) (cs : List Call) (phase : Phase)
      (a : Answer)
      → g.revision < r.fresh
      → IsCut
          (run sdk (disconnect_entity r g.entity_id) cs)
          phase
          (resume sdk s (run sdk (disconnect_entity r g.entity_id) cs) g phase a)
  unfolding resume
  disconnect_entity-resume s r g cs phase a old =
      let cut = disconnect_entity r g.entity_id in
      let t = run sdk cut cs in
      let overtaken =
        Moves-IsOvertaken cut t g (run-Moves sdk cut cs g.entity_id) (kept_old r g old)
          (disconnect_entity-IsOvertaken r g old) in
      rw (IsOvertaken-owns s t g overtaken) (unowned-IsCut s t g phase (error_of phase a))
