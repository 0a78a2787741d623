-- ===== src/EntityRegistry/Tests.antt =====
-- The registry at concrete inputs.
use tinycloud_agents.Base.{ℕ, ◌≤◌, ◌≡◌, ◌⊎◌, refl, true, false, none, some, [], ◌∷◌, length, arith}
use tinycloud_agents.Base.Map
use tinycloud_agents.Delegation.{at, PortableDelegation, Sdk}
use tinycloud_agents.EntityRegistry.{
  Surroundings, RegistryEntry, EntityRegistry, unchecked, new, found, owns, disconnect_entity,
  evict, evict_lru, least_used, client_for, use_entry, is_private, has_lapsed,
}
use tinycloud_agents.EntityRegistry.Registering.{
  Registration, evicting, writing_schema, installed, returned, waits, resume, after_answer, proceed,
  make_room, install,
}
use tinycloud_agents.EntityRegistry.Revisions.{asks, run}
use tinycloud_agents.EntityRegistry.Fencing.{IsCut, disconnect_entity-resume}
use tinycloud_agents.EntityRegistry.Access.{Serves, client_for_iff}
use tinycloud_agents.EntityRegistry.Capacity.{
  EvictsLeastUsed, evict_lru-EvictsLeastUsed, make_room-install,
}

abbrev grant : PortableDelegation
grant = record {
  owner_address = none;
  delegate_did = none;
  expiry = at 50;
  path = "";
  actions = [];
  resources = none;
  authorization = none;
  cid = "";
}

abbrev sdk : Sdk
sdk = record {
  expand = λ service actions. actions;
  principals_equal = λ a b. true;
  deserialize = λ s. some grant;
  sql_read = "";
  sql_write = "";
  sql_admin = "";
  capabilities_read = "";
}

abbrev at_nine : Surroundings
at_nine = record { now = 9; answers = λ closure. true }

abbrev entry_of : ℕ → ℕ → RegistryEntry
entry_of client last_used = record {
  client = client;
  last_used = last_used;
  registered_at = 0;
  delegation_expiry = some 50;
  is_current = unchecked;
  can_use = none;
  rejected = false;
}

-- One place, which "a" takes; "b" and "c" are about to be registered.
abbrev full : EntityRegistry
full = record (new 1) {
  entries = ("a", entry_of 7 3) ∷ [];
  revisions = ("b", 1) ∷ ("c", 2) ∷ [];
  fresh = 3;
}

abbrev registering_b : Registration
registering_b = record {
  entity_id = "b";
  serialized = "";
  room_id = some "room";
  caller = none;
  can_use = none;
  revision = 1;
}

abbrev registering_c : Registration
registering_c = record registering_b { entity_id = "c"; room_id = none; revision = 2 }

-- Both make room while "b" waits for the evicted client to stop.
abbrev b_evicts : EntityRegistry
b_evicts = (resume sdk at_nine full registering_b (writing_schema 8) returned).0

abbrev c_installs : EntityRegistry
c_installs = (resume sdk at_nine b_evicts registering_c (writing_schema 9) returned).0

over_capacity :
    length (resume sdk at_nine c_installs registering_b (evicting 8) returned).0.entries ≡ 2
unfolding resume after_answer proceed make_room install evict_lru evict least_used owns Map.get
    Map.set Map.delete
over_capacity = refl

disconnect_entity-resume_example :
    IsCut (run sdk (disconnect_entity full "b") (asks at_nine "a" ∷ [])) (evicting 8) (
      resume sdk at_nine
        (run sdk (disconnect_entity full "b") (asks at_nine "a" ∷ []))
        registering_b
        (evicting 8)
        returned)
disconnect_entity-resume_example =
    disconnect_entity-resume sdk at_nine full registering_b (asks at_nine "a" ∷ []) (evicting 8)
      returned (omega arith)

client_for_iff_example :
    (((client_for at_nine full "a").1 ≡ found 7) → Serves at_nine full "a" 7)
    × (Serves at_nine full "a" 7 → ((client_for at_nine full "a").1 ≡ found 7))
client_for_iff_example = client_for_iff at_nine full "a" 7

serves_a : (client_for at_nine full "a").1 ≡ found 7
unfolding client_for use_entry is_private has_lapsed Map.get
serves_a = refl

evict_lru-EvictsLeastUsed_example : EvictsLeastUsed full (evict_lru full)
evict_lru-EvictsLeastUsed_example = evict_lru-EvictsLeastUsed full (omega arith)

make_room-install_example :
    (((make_room sdk at_nine full registering_b 8).1 ≡ waits installed)
      × (length (make_room sdk at_nine full registering_b 8).0.entries ≤ 1))
    ⊎ (((make_room sdk at_nine full registering_b 8).1 ≡ waits (evicting 8))
        × (length
              (install sdk at_nine
                (make_room sdk at_nine full registering_b 8).0
                registering_b
                8).0.entries
            ≤ 1))
make_room-install_example =
    make_room-install sdk at_nine at_nine full registering_b 8 (omega arith) (omega arith)
