-- ===== src/SessionStore/Tests.antt =====
-- The theorems about the session store at concrete inputs, and a run of it.
use text.Mathlib.TextEquality.{eq_iff}
use tinycloud_agents.Base.{◌≡◌, refl, inr, true, false, none, some, List, [], ◌∷◌, arith, All}
use tinycloud_agents.Base.Map
use tinycloud_agents.SessionStore.{
  SessionStore, SessionKey, Revision, SessionLease, SessionRecord, new, holding, reserve, commit,
  disconnect, replace, snapshot, lease, next_revision, begin_restore, restore, Op, disconnects,
  fails, snapshots, run, apply, op_key, key_eq, revision_eq, is_current, guarded, known,
}
use tinycloud_agents.SessionStore.Fencing.{Fenced, disconnect-Fenced, reserve-Fenced}
use tinycloud_agents.SessionStore.Diagram.{Drawn, apply-Drawn}
use tinycloud_agents.SessionStore.Handshake.{
  Activates, IsExpected, fresh_revision, read_for, reserve-commit, begin_restore-restore,
}

abbrev alice : SessionKey
alice = record { app_id = "tinychat"; agent_id = "g"; entity_id = "alice" }

abbrev bob : SessionKey
bob = record { app_id = "tinychat"; agent_id = "g"; entity_id = "bob" }

abbrev grant : SessionRecord
grant = record {
  agent_id = "g";
  serialized_delegation = "d";
  serialized_transcript_delegation = none;
  room_id = none;
  exp = some 9;
  expiries = none;
}

abbrev first : Revision
first = record { instance_id = "p"; sequence = 1 }

abbrev persisted : Revision
persisted = record { instance_id = "q"; sequence = 7 }

abbrev connected : SessionStore
connected = record (new "p") { sequence = 1; access = (alice, holding first grant) ∷ [] }

abbrev old_lease : SessionLease
old_lease = record { key = alice; revision = first; active = true }

abbrev second_lease : SessionLease
second_lease = record {
  key = alice;
  revision = record { instance_id = "p"; sequence = 2 };
  active = false;
}

bob_is_not_alice : some bob ≡ some alice → ⊥
bob_is_not_alice e = ground (arith, eq_iff "bob" "alice")

reserve_and_commit : (commit (reserve connected alice none).0 alice second_lease grant).1 ≡ true
unfolding reserve commit replace snapshot lease next_revision guarded is_current key_eq revision_eq
    Map.get Map.set Map.delete new
reserve_and_commit = refl

disconnect-Fenced_example :
    commit (run (disconnect connected alice).0 (snapshots bob ∷ [])) alice old_lease grant
    ≡ (run (disconnect connected alice).0 (snapshots bob ∷ []), false)
unfolding new
disconnect-Fenced_example =
    (disconnect-Fenced connected old_lease (snapshots bob ∷ []) (inr (omega arith))).no_commit grant

reserved : reserve connected alice none ≡ ((reserve connected alice none).0, some second_lease)
unfolding new reserve replace snapshot lease next_revision key_eq Map.get Map.set Map.delete
reserved = refl

reserve-Fenced_example :
    Fenced (run (reserve connected alice none).0 (fails second_lease ∷ [])) old_lease
unfolding new
reserve-Fenced_example =
    reserve-Fenced connected (reserve connected alice none).0 old_lease second_lease none
      (fails second_lease ∷ []) (inr (omega arith)) reserved

apply-Drawn_example : Drawn connected (apply connected (disconnects alice)) (disconnects alice) bob
apply-Drawn_example = apply-Drawn connected (disconnects alice) bob

abbrev other_calls : List Op
other_calls = disconnects bob ∷ []

others : All (λ o. op_key o ≡ some alice → ⊥) other_calls
unfolding op_key
others = (bob_is_not_alice, tt)

shown_now : IsExpected connected alice (some old_lease.revision)
unfolding new reserve commit guarded is_current replace snapshot lease next_revision key_eq
    revision_eq Map.get Map.set Map.delete
shown_now = refl

reserve-commit_example :
    (s' : SessionStore) × (l : SessionLease) × (reserve connected alice (some old_lease.revision)
      ≡ (s', some l))
    × Activates
        (commit (run s' other_calls) alice l grant)
        alice
        (fresh_revision (read_for connected alice (some old_lease.revision)))
        grant
reserve-commit_example =
    reserve-commit connected alice (some old_lease.revision) other_calls grant shown_now others

nobody_known : known (new "p") alice ≡ false
unfolding new known Map.get
nobody_known = refl

begin_restore-restore_example :
    (s' : SessionStore) × (l : SessionLease) × (begin_restore (new "p") alice persisted
      ≡ (s', some l))
    × Activates (restore (run s' other_calls) alice l grant) alice persisted grant
begin_restore-restore_example =
    begin_restore-restore (new "p") alice persisted other_calls grant nobody_known others
