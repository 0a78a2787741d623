-- ===== src/Handlers.antt =====
-- packages/eliza-service/src/handlers/sessions.ts: connecting, asking for and disconnecting a held
-- session.
--
-- Within one turn the clock is read once. A handler's answer is its status and its body; the texts
-- of error messages are left out.
pub mod Bundle
pub mod Ceiling
pub mod Post
pub mod Confirmed
pub mod Plain
pub mod Read
pub mod Reported
pub mod Tests
use tinycloud_agents.Base.{ℕ, Option, List, [], ◌∷◌, String}
use tinycloud_agents.SessionStore.{Revision, AccessState}

pub data Body : Type 0 where
  error_body : String → Body
  unconfirmed : Revision → Body
  restoring_body : (revision : Revision) (state : AccessState) → Body
  none_body : (revision : Option Revision) (state : Option AccessState) → Body
  session_body :
      (entity_id : String) (status : String) (transcript_status : Option String)
      (revision : Option Revision) (state : Option AccessState)
      → Body

pub record HandlerResult : Type 0 where
  pub status : ℕ
  pub body : Body

abbrev pub failing_with : ℕ → String → HandlerResult
failing_with status code = record { status = status; body = error_body code }

abbrev pub stale : HandlerResult
stale = failing_with 409 "stale_revision"
