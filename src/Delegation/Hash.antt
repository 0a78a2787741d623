-- ===== src/Delegation/Hash.antt =====
-- delegation-policy.ts: computePolicyHash, the canonical form of a policy.
--
-- Texts are compared by their characters; the source compares UTF-16 units, the same order on texts
-- without characters beyond the first plane. `sort` is stable, as is insertion from the right.
use Prim.Native.Char.{code}
use Prim.Native.String.{[] as nil, ◌∷◌ as cons}
use Prim.Native.String
use tinycloud_agents.Base.{
  Bool, true, false, ◌&&◌, ◌||◌, List, [], ◌∷◌, String, map, ltb, nat_beq, if◌then◌else◌,
}
use tinycloud_agents.Delegation.{PolicyResource, DelegationPolicy}

abbrev pub text_before : String → String → Bool
text_before nil nil = false
text_before nil (cons c s) = true
text_before (cons b t) nil = false
text_before (cons b t) (cons c s) =
    ltb (code b) (code c) || (nat_beq (code b) (code c) && text_before t s)

unfoldable pub insert_by : {A : Type 0} → (A → A → Bool) → A → List A → List A
insert_by before x [] = x ∷ []
insert_by before x (y ∷ ys) =
    let rest = insert_by before x ys in if before y x then y ∷ rest else x ∷ y ∷ ys

unfoldable pub sort_by : {A : Type 0} → (A → A → Bool) → List A → List A
sort_by before [] = []
sort_by before (x ∷ xs) = insert_by before x (sort_by before xs)

pub record CanonicalResource : Type 0 where
  pub service_long : String
  pub path : String
  pub required_actions : List String

abbrev pub canonical_resource : PolicyResource → CanonicalResource
canonical_resource r = record {
  service_long = r.service_long;
  path = r.path;
  required_actions = sort_by text_before r.required_actions;
}

abbrev pub sort_key : CanonicalResource → String
sort_key r = String.◌++◌ r.service_long r.path

abbrev pub key_before : CanonicalResource → CanonicalResource → Bool
key_before a b = text_before (sort_key a) (sort_key b)

unfoldable pub canonical : DelegationPolicy → List CanonicalResource
canonical policy = sort_by key_before (map canonical_resource policy.resources)

-- `JSON.stringify` and `createHash("sha256")`.
pub record Digest : Type 0 where
  pub stringify : List CanonicalResource → String
  pub sha256 : String → String

unfoldable pub compute_policy_hash : Digest → DelegationPolicy → String → String
compute_policy_hash digest policy agent_did =
    digest.sha256 (String.◌++◌ (digest.stringify (canonical policy)) (String.◌++◌ "|" agent_did))
