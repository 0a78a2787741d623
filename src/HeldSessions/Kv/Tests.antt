-- ===== src/HeldSessions/Kv/Tests.antt =====
-- A listing of two pages.
use tinycloud_agents.Base.{ℕ, ◌≡◌, refl, true, false, Option, none, some, [], ◌∷◌, String}
use tinycloud_agents.Delegation.{ok}
use tinycloud_agents.HeldSessions.Kv.{
  KvResult, succeeded, failed, Call, Page, call, try_once, is_auth_failure, delete, is_missing_key,
  delegation_store_enabled,
}
use tinycloud_agents.HeldSessions.Kv.Listing.{Listing}

abbrev answers : {A : Type 0} → KvResult A → Call A
answers r = record {
  first = record { signs_in = true; result = some r };
  second = record { signs_in = true; result = some r };
}

abbrev first_page : Page
first_page = record { keys = "k/a" ∷ "x" ∷ []; truncated = true; next_cursor = some "k/a" }

abbrev last_page : Page
last_page = record { keys = "k/b" ∷ []; truncated = false; next_cursor = none }

abbrev node : ℕ → Option String → Call Page
node i none = answers (succeeded first_page)
node i (some cursor) = answers (succeeded last_page)

-- A key that is not there has been deleted.
missing_deleted :
    delete
      (λ m. true)
      true
      (answers {A = Unit {0}} (
        failed
          (record { code = some "KV_NOT_FOUND"; message = some "Key not found"; status = none })))
    ≡ (true, true)
unfolding delete call try_once is_auth_failure is_missing_key
missing_deleted = refl

off_in_tests : delegation_store_enabled (some "off") (some "test") ≡ ok false
unfolding delegation_store_enabled
off_in_tests = refl
