-- ===== src/HeldSessions/Kv.antt =====
-- packages/eliza-service/src/delegation-store.ts, class TinyCloudDelegationKv: the key-value store in
-- the agent's own space.
--
-- The node's answers are parameters. What throws is `none`; the error is always store_unavailable.
pub mod Listing
mod Tests
use tinycloud_agents.Base.{
  ℕ, zero, suc, ◌+◌, Bool, true, false, ◌&&◌, ◌||◌, not, Option, none, some, List, [], ◌∷◌, ◌++◌,
  String, if◌then◌else◌, ◌===◌, text_eq, number_eq, is_some, without,
}
use tinycloud_agents.Delegation.{Checked, ok, err}
use tinycloud_agents.Delegation.Normalize.{Json, text, number, array, object, boolean, null}
use tinycloud_agents.ServiceAuth.{after_prefix}

pub record KvError : Type 0 where
  pub code : Option String
  pub message : Option String
  pub status : Option ℕ

pub data KvResult (A : Type 0) : Type 0 where
  succeeded : A → KvResult A
  failed : KvError → KvResult A

-- A sign-in, if one is asked for, and then the operation.
pub record Attempt (A : Type 0) : Type 0 where
  pub signs_in : Bool
  pub result : Option (KvResult A)

pub record Call (A : Type 0) : Type 0 where
  pub first : Attempt A
  pub second : Attempt A

abbrev pub is_code : Option String → String → Bool
is_code none code = false
is_code (some c) code = c === code

abbrev pub is_status : Option ℕ → ℕ → Bool
is_status none status = false
is_status (some s) status = s === status

unfoldable pub is_auth_failure : KvError → Bool
is_auth_failure e =
    is_code e.code "AUTH_REQUIRED"
    || is_code e.code "AUTH_EXPIRED"
    || is_code e.code "AUTH_UNAUTHORIZED"
    || is_status e.status 401

unfoldable pub try_once : {A : Type 0} → Bool → Attempt A → Option (KvResult A)
try_once signed_in a = if signed_in || a.signs_in then a.result else none

abbrev pub answered : {A : Type 0} → Option (KvResult A) → Bool × Option (KvResult A)
answered none = (false, none)
answered (some r) = (true, some r)

-- One more sign-in where the first answer says that it is needed.
abbrev pub answered_first :
    {A : Type 0} → Attempt A → Option (KvResult A) → Bool × Option (KvResult A)
answered_first second none = (false, none)
answered_first second (some (succeeded a)) = (true, some (succeeded a))
answered_first second (some (failed e)) =
    if is_auth_failure e then answered (try_once false second) else (true, some (failed e))

-- Whether the client is signed in afterwards, and the result.
unfoldable pub call : {A : Type 0} → Bool → Call A → Bool × Option (KvResult A)
call signed_in c = answered_first c.second (try_once signed_in c.first)

pub record Page : Type 0 where
  pub keys : List String
  pub truncated : Bool
  pub next_cursor : Option String

abbrev pub nonempty : Option String → Option String
nonempty none = none
nonempty (some c) = if c === "" then none else some c

unfoldable pub next_of : Page → Option String
next_of p = if p.truncated then nonempty p.next_cursor else none

unfoldable pub matching : String → List String → List String
matching prefix keys = without (λ key. not (is_some (after_prefix prefix key))) keys

-- `says_not_found` is the test of a message for /^Key not found/i.
module _ (says_not_found : String → Bool) where
  unfoldable pub is_missing_key : KvError → Bool
  is_missing_key e =
      is_code e.code "KV_NOT_FOUND" && elim e.message [ none ↦ false | some m ↦ says_not_found m ]

  abbrev pub text_of : (Json → String) → Option Json → Option String
  text_of stringify none = none
  text_of stringify (some (text s)) = some s
  text_of stringify (some (number n)) = none
  text_of stringify (some null) = none
  text_of stringify (some (boolean b)) = none
  text_of stringify (some (array js)) = some (stringify (array js))
  text_of stringify (some (object ms)) = some (stringify (object ms))

  abbrev pub got : (Json → String) → Option (KvResult (Option Json)) → Option (Option String)
  got stringify none = none
  got stringify (some (failed e)) = if is_missing_key e then some none else none
  got stringify (some (succeeded value)) = some (text_of stringify value)

  unfoldable pub get : (Json → String) → Bool → Call (Option Json) → Bool × Option (Option String)
  get stringify signed_in c = let (s, r) = call signed_in c in (s, got stringify r)

  -- Whether the write succeeds.
  abbrev pub put_done : {A : Type 0} → Option (KvResult A) → Bool
  put_done none = false
  put_done (some (failed e)) = false
  put_done (some (succeeded a)) = true

  unfoldable pub put : {A : Type 0} → Bool → Call A → Bool × Bool
  put signed_in c = let (s, r) = call signed_in c in (s, put_done r)

  abbrev pub delete_done : {A : Type 0} → Option (KvResult A) → Bool
  delete_done none = false
  delete_done (some (failed e)) = is_missing_key e
  delete_done (some (succeeded a)) = true

  unfoldable pub delete : {A : Type 0} → Bool → Call A → Bool × Bool
  delete signed_in c = let (s, r) = call signed_in c in (s, delete_done r)

  -- After a page, with `rest` for the pages that follow.
  abbrev pub after_success :
      (Bool → String → List String → Option (List String))
      → Bool
      → List String
      → Option String
      → Option (List String)
  after_success rest signed_in keys none = some keys
  after_success rest signed_in keys (some cursor) = rest signed_in cursor keys

  abbrev pub after_page :
      String
      → (Bool → String → List String → Option (List String))
      → List String
      → Bool
      → Option (KvResult Page)
      → Option (List String)
  after_page prefix rest keys signed_in none = none
  after_page prefix rest keys signed_in (some (failed e)) =
      if is_missing_key e then some keys else none
  after_page prefix rest keys signed_in (some (succeeded p)) =
      after_success rest signed_in (keys ++ matching prefix p.keys) (next_of p)

  module _ (prefix : String) (node : ℕ → Option String → Call Page) where
    -- At most this many pages, from the one with number `i`.
    unfoldable pub list_from : ℕ → ℕ → Bool → Option String → List String → Option (List String)
    list_from zero i signed_in cursor keys = none
    list_from (suc n) i signed_in cursor keys =
        after_page prefix (λ s c ks. list_from n (i + 1) s (some c) ks) keys
          (call signed_in (node i cursor)).0 (call signed_in (node i cursor)).1

    unfoldable pub list : Bool → Option (List String)
    list signed_in = list_from 10000 0 signed_in none []

abbrev pub is_set_to : Option String → String → Bool
is_set_to none value = false
is_set_to (some s) value = s === value

-- `delegationStoreEnabled`, with ELIZA_DELEGATION_STORE and NODE_ENV; a message is thrown.
unfoldable pub delegation_store_enabled : Option String → Option String → Checked String Bool
delegation_store_enabled none node_env = ok true
delegation_store_enabled (some value) node_env =
    if value === "" || value === "on"
    then ok true
    else if not (value === "off")
    then err "ELIZA_DELEGATION_STORE must be on or off"
    else if is_set_to node_env "development" || is_set_to node_env "test"
    then ok false
    else err "ELIZA_DELEGATION_STORE=off requires NODE_ENV=development or test"
