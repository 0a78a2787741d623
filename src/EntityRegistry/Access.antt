-- ===== src/EntityRegistry/Access.antt =====
-- Whom clientFor and clientForRoom serve.
use tinycloud_agents.Base.{
  ℕ, ◌≡◌, ◌↔◌, refl, sym, ap, ◌∙◌, inl, inr, true, none, some, String, if◌then◌else◌, ◌===◌,
  text_eq, arith, Option-cases, Bool-cases,
}
use tinycloud_agents.Base.Map
use tinycloud_agents.EntityRegistry.{
  Surroundings, RegistryEntry, EntityRegistry, no_delegation, found, fails, allows, client_for,
  use_entry, client_for_room, is_private, has_lapsed, has_delegation, entry_usable,
}

-- The entity has this client, its grant is usable, and canUse allows it.
pub record Serves (s : Surroundings) (r : EntityRegistry) (entity_id : String) (client : ℕ)
    : Type 0 where
  pub entry : RegistryEntry
  pub held : Map.get r.entries entity_id ≡ some entry
  pub its : entry.client ≡ client
  pub usable : has_delegation s r entity_id ≡ true
  pub admitted : allows s entry.can_use ≡ true

has_delegation-entry :
    (s : Surroundings) (r : EntityRegistry) (e : String) (entry : RegistryEntry)
    → Map.get r.entries e ≡ some entry
    → has_delegation s r e ≡ entry_usable s r e (some entry)
unfolding has_delegation
has_delegation-entry s r e entry held = rw held

client_for-entry :
    (s : Surroundings) (r : EntityRegistry) (e : String) (entry : RegistryEntry)
    → Map.get r.entries e ≡ some entry
    → client_for s r e ≡ use_entry s r e entry
unfolding client_for
client_for-entry s r e entry held = rw (held, client_for) refl

client_for-none :
    (s : Surroundings) (r : EntityRegistry) (e : String)
    → Map.get r.entries e ≡ none
    → client_for s r e ≡ (r, fails no_delegation)
unfolding client_for
client_for-none s r e absent = rw (absent, client_for) refl

use_entry_iff :
    (s : Surroundings) (r : EntityRegistry) (e : String) (entry : RegistryEntry) (client : ℕ)
    → ((use_entry s r e entry).1 ≡ found client) ↔ (
        (entry.client ≡ client)
        × (entry_usable s r e (some entry) ≡ true)
        × (allows s entry.can_use ≡ true))
unfolding use_entry is_private has_lapsed
use_entry_iff s r e entry client = ground arith

-- clientFor returns a client just where it is the entity's, the entity's grant is usable, as
-- hasDelegation says, and the entry's canUse allows it.
pub client_for_iff :
    (s : Surroundings) (r : EntityRegistry) (e : String) (client : ℕ)
    → ((client_for s r e).1 ≡ found client) ↔ Serves s r e client
client_for_iff s r e client = elim (Option-cases (Map.get r.entries e)) [
  | inl absent ↦
      (λ h. absurd (cc (h, client_for-none s r e absent)), λ v. absurd (cc (v.held, absent)))
  | inr (entry, held) ↦ rw (client_for-entry s r e entry held) (
    λ h.
        let (its, usable, admitted) = (use_entry_iff s r e entry client).0 h in
        record {
          entry = entry;
          held = held;
          its = its;
          usable = has_delegation-entry s r e entry held ∙ usable;
          admitted = admitted;
        },
    λ v.
        let same : entry ≡ v.entry = cc (held, v.held) in
        (use_entry_iff s r e entry client).1 (
          ap (λ (x : RegistryEntry). x.client) same ∙ v.its,
          sym (has_delegation-entry s r e entry held) ∙ v.usable,
          ap (λ (x : RegistryEntry). allows s x.can_use) same ∙ v.admitted,
        ),
  )
]

client_for_room-entity :
    (s : Surroundings) (r : EntityRegistry) (room e : String)
    → Map.get r.room_to_entity room ≡ some e
    → client_for_room s r room ≡ (if e === "" then (r, fails no_delegation) else client_for s r e)
unfolding client_for_room
client_for_room-entity s r room e owner = rw (owner, client_for_room) refl

-- Where clientForRoom returns a client, the room is bound to an entity, whom clientFor serves with
-- that client.
pub client_for_room-Serves :
    (s : Surroundings) (r : EntityRegistry) (room : String) (client : ℕ)
    → (client_for_room s r room).1 ≡ found client
    → (e : String) × (Map.get r.room_to_entity room ≡ some e) × Serves s r e client
unfolding client_for_room
client_for_room-Serves s r room client = elim (Option-cases (Map.get r.room_to_entity room)) [
  | inl absent ↦ rw (absent, client_for_room) (λ h. absurd (cc h))
  | inr (e, owner) ↦ rw (client_for_room-entity s r room e owner) (elim (Bool-cases (e === "")) [
    | inl empty ↦ rw empty (λ h. absurd (cc h))
    | inr named ↦ rw named (λ h. (e, owner, (client_for_iff s r e client).0 h))
  ])
]
