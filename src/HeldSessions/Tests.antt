-- ===== src/HeldSessions/Tests.antt =====
-- Held sessions at a concrete record.
use tinycloud_agents.Base.{◌≡◌, refl, Option, none, some, [], ◌∷◌, String}
use tinycloud_agents.Base.Map
use tinycloud_agents.Delegation.{ok}
use tinycloud_agents.Delegation.Normalize.{Json, Platform}
use tinycloud_agents.SessionStore.{
  SessionStore, SessionScope, SessionKey, SessionRecord, key_eq, holding, key, peek,
}
use tinycloud_agents.HeldSessions.{
  HeldSession, held_active, put, revision_text, held_session, desired_for, desired,
}
use tinycloud_agents.HeldSessions.Stored.{held_json, is_revision, parse_held_session}
use tinycloud_agents.HeldSessions.RoundTrip.{desired-parse_held_session}

abbrev platform : Platform
platform = record {
  parse_segment = λ s. none;
  print_index = λ i. "1";
  parse_space_uri = λ s. none;
  lower = λ s. s;
}

abbrev scope : SessionScope
scope = record { app_id = "tinychat"; agent_id = "agent" }

abbrev grant : SessionRecord
grant = record {
  agent_id = "agent";
  serialized_delegation = "m";
  serialized_transcript_delegation = some "t";
  room_id = none;
  exp = some 50;
  expiries = some (record { memory = some 50; transcripts = some 60 });
}

abbrev entity_key : SessionKey
entity_key = record { app_id = "tinychat"; agent_id = "agent"; entity_id = "entity" }

abbrev store : SessionStore
store = record {
  sessions = [];
  instance_id = "i";
  sequence = 1;
  access = (entity_key, holding (record { instance_id = "i"; sequence = 1 }) grant) ∷ [];
  persisting = [];
  notified = [];
}

abbrev pub published : HeldSession
published = record {
  app_id = "tinychat";
  agent_id = "agent";
  entity_id = "entity";
  revision = "i:1";
  state = held_active;
  memory = some "m";
  transcripts = some "t";
  expiries = record { memory = some 50; transcripts = some 60 };
  room_id = none;
  revoked_at = none;
  stored_at = 49;
}

-- A parser that knows one text.
abbrev parse_json : String → Option Json
parse_json raw = some (held_json published)

abbrev stringify : Json → String
stringify j = "{}"

publishes : desired platform store scope "entity" 49 ≡ put published
unfolding desired desired_for held_session revision_text peek key Map.get key_eq
publishes = refl

desired-parse_held_session_example :
    parse_held_session parse_json scope "entity" (stringify (held_json published)) ≡ ok published
unfolding is_revision
desired-parse_held_session_example =
    desired-parse_held_session platform scope "entity" 49 parse_json stringify store published
      publishes refl refl refl
