-- ===== src/ServiceAuth.antt =====
-- packages/eliza-service/src/auth/app-registry.ts and service-auth.ts: which app a request's
-- credential belongs to.
pub mod Credentials
mod Tests
use Prim.Native.Char.{code}
use Prim.Native.String.{[] as nil, ◌∷◌ as cons}
use tinycloud_agents.Base.{
  Bool, true, false, Option, none, some, List, [], ◌∷◌, ◌++◌, String, if◌then◌else◌, ◌===◌, text_eq,
  nat_beq,
}

-- `process.env`, as far as it is read.
pub record Environment : Type 0 where
  pub eliza_service_secret : Option String
  pub artifactory_service_secret : Option String

pub record AppEntry : Type 0 where
  pub app_id : String
  pub agent_id : String
  pub secret : String

pub record ResolvedApp : Type 0 where
  pub app_id : String
  pub agent_id : String

-- The two responses are those with status 401 and 403.
pub data AuthResult : Type 0 where
  resolved : ResolvedApp → AuthResult
  unauthorized forbidden : AuthResult

abbrev pub tinychat : ResolvedApp
tinychat = record { app_id = "tinychat"; agent_id = "92361e74-91ed-43a2-9656-5cc37ff3a07a" }

abbrev pub artifactory : ResolvedApp
artifactory = record { app_id = "artifactory"; agent_id = "b5c9f7e2-1a3d-4e5f-8b7a-9c0d1e2f3a4b" }

-- One entry, unless its secret is missing or empty.
abbrev pub entry_of : ResolvedApp → Option String → List AppEntry
entry_of app none = []
entry_of app (some secret) =
    if secret === ""
    then []
    else record { app_id = app.app_id; agent_id = app.agent_id; secret = secret } ∷ []

pub build_registry : Environment → List AppEntry
build_registry env =
    entry_of tinychat env.eliza_service_secret
    ++ entry_of artifactory env.artifactory_service_secret

-- The entry whose secret has the same bytes.
abbrev pub find_app : String → List AppEntry → Option ResolvedApp
find_app credential [] = none
find_app credential (e ∷ rest) =
    if e.secret === credential
    then some (record { app_id = e.app_id; agent_id = e.agent_id })
    else find_app credential rest

pub resolve_app : Environment → String → Option ResolvedApp
resolve_app env credential =
    if credential === "" then none else find_app credential (build_registry env)

-- `startsWith(prefix)`, and then `slice(prefix.length)`.
unfoldable pub after_prefix : String → String → Option String
after_prefix nil s = some s
after_prefix (cons p rest) nil = none
after_prefix (cons p rest) (cons c s) =
    let tail = after_prefix rest s in if nat_beq (code p) (code c) then tail else none

pub answer_to : Option ResolvedApp → AuthResult
answer_to none = forbidden
answer_to (some app) = resolved app

pub check_service_auth : Environment → Option String → AuthResult
check_service_auth env none = unauthorized
check_service_auth env (some header) = elim (after_prefix "Bearer " header) [
  | none ↦ unauthorized
  | some credential ↦
      if credential === "" then unauthorized else answer_to (resolve_app env credential)
]
