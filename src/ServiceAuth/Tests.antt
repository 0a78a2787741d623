-- ===== src/ServiceAuth/Tests.antt =====
-- The check of credentials at concrete requests.
use Prim.Native.String
use tinycloud_agents.Base.{◌≡◌, ◌≢◌, ◌↔◌, refl, some, String}
use tinycloud_agents.ServiceAuth.{
  Environment, resolved, unauthorized, forbidden, artifactory, tinychat, build_registry,
  resolve_app, after_prefix, answer_to, check_service_auth,
}
use tinycloud_agents.ServiceAuth.Credentials.{IsSecretOf, check_service_auth_iff}

abbrev env : Environment
env = record { eliza_service_secret = some "s1"; artifactory_service_secret = some "s2" }

second_app : check_service_auth env (some "Bearer s2") ≡ resolved artifactory
unfolding check_service_auth answer_to resolve_app build_registry after_prefix
second_app = refl

shared_secret :
    check_service_auth
      (record { eliza_service_secret = some "s2"; artifactory_service_secret = some "s2" })
      (some "Bearer s2")
    ≡ resolved tinychat
unfolding check_service_auth answer_to resolve_app build_registry after_prefix
shared_secret = refl

unknown_secret : check_service_auth env (some "Bearer s3") ≡ forbidden
unfolding check_service_auth answer_to resolve_app build_registry after_prefix
unknown_secret = refl

other_scheme : check_service_auth env (some "Basic s1") ≡ unauthorized
unfolding check_service_auth after_prefix
other_scheme = refl

no_credential : check_service_auth env (some "Bearer ") ≡ unauthorized
unfolding check_service_auth after_prefix
no_credential = refl

check_service_auth_iff_example :
    (check_service_auth env (some "Bearer s2") ≡ resolved artifactory) ↔ (
      (c : String) × (some "Bearer s2" ≡ some (String.◌++◌ "Bearer " c))
      × (c ≢ "")
      × IsSecretOf env c artifactory)
check_service_auth_iff_example = check_service_auth_iff env (some "Bearer s2") artifactory
