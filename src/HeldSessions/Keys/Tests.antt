-- ===== src/HeldSessions/Keys/Tests.antt =====
-- Keys at concrete scopes.
use tinycloud_agents.Base.{◌≡◌, refl, none, some, String}
use tinycloud_agents.SessionStore.{SessionScope}
use tinycloud_agents.HeldSessions.Keys.{
  is_segment_code, are_segment_codes, has_dots, count_units, is_segment, segment, slashed,
  delegation_key, delegation_key_injective,
}

abbrev scope : SessionScope
scope = record { app_id = "tinychat"; agent_id = "agent" }

made : delegation_key scope "e:1" ≡ some "delegations/v1/tinychat/agent/e:1"
unfolding is_segment_code are_segment_codes has_dots count_units is_segment segment slashed
    delegation_key
made = refl

-- No way up.
dots_refused : delegation_key scope ".." ≡ none
unfolding is_segment_code are_segment_codes has_dots count_units is_segment segment slashed
    delegation_key
dots_refused = refl

slash_refused : delegation_key scope "a/b" ≡ none
unfolding is_segment_code are_segment_codes has_dots count_units is_segment segment slashed
    delegation_key
slash_refused = refl

abbrev entity : String
entity = "e:1"

delegation_key_injective_example :
    (scope.app_id ≡ scope.app_id) × (scope.agent_id ≡ scope.agent_id) × (entity ≡ entity)
delegation_key_injective_example =
    delegation_key_injective scope scope entity entity "delegations/v1/tinychat/agent/e:1" made made
