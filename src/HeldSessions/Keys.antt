-- ===== src/HeldSessions/Keys.antt =====
-- packages/eliza-service/src/delegation-store.ts: the keys of stored records.
mod Tests
use Prim.Native.String
use Prim.Native.String.{[] as nil, ◌∷◌ as cons}
use Prim.Native.Char.{code}
use mathlib.Core.Option.{some-injective}
use tinycloud_agents.Base.{
  ℕ, suc, ◌≡◌, ◌≢◌, refl, sym, ap, ◌∙◌, Bool, true, false, ◌&&◌, ◌||◌, not, Option, none, some,
  String, ltb, leb, inl, inr, if◌then◌else◌, ◌===◌, number_eq, arith, Bool-cases,
}
use tinycloud_agents.SessionStore.{SessionScope}

-- A character of /[A-Za-z0-9._:-]/, by its code.
unfoldable pub is_segment_code : ℕ → Bool
is_segment_code n =
    (leb 65 n && leb n 90)
    || (leb 97 n && leb n 122)
    || (leb 48 n && leb n 57)
    || (n === 46)
    || (n === 95)
    || (n === 58)
    || (n === 45)

unfoldable pub are_segment_codes : String → Bool
are_segment_codes nil = true
are_segment_codes (cons c s) = is_segment_code (code c) && are_segment_codes s

slashless : (n : ℕ) → is_segment_code n ≡ true → n ≢ 47
unfolding is_segment_code
slashless n h = ground arith

-- `includes("..")`, with whether a dot stands before.
unfoldable pub has_dots : Bool → String → Bool
has_dots after_dot nil = false
has_dots after_dot (cons c s) = (after_dot && code c === 46) || has_dots (code c === 46) s

unfoldable pub count_units : String → ℕ
count_units nil = 0
count_units (cons c s) = suc (count_units s)

-- The test of /^[A-Za-z0-9._:-]{1,128}$/ and of no "..".
unfoldable pub is_segment : String → Bool
is_segment s =
    are_segment_codes s
    && (leb 1 (count_units s) && leb (count_units s) 128)
    && not (has_dots false s)

-- What is no segment throws invalid_key.
unfoldable pub segment : String → Option String
segment s = if is_segment s then some s else none

-- `${a}/${s}`.
unfoldable pub slashed : String → String → String
slashed nil s = cons "/" s
slashed (cons c a) s = cons c (slashed a s)

-- A segment ends where the slash after it stands.
slashed_injective :
    (a b s t : String)
    → are_segment_codes a ≡ true
    → are_segment_codes b ≡ true
    → slashed a s ≡ slashed b t
    → (a ≡ b) × (s ≡ t)
unfolding are_segment_codes slashed
slashed_injective nil nil s t p q h = (refl, cc h)
slashed_injective nil (cons d b) s t p q h =
    let same : "/" ≡ d = cc h in absurd (slashless (code d) (ground arith) (sym (ap code same)))
slashed_injective (cons c a) nil s t p q h =
    let same : c ≡ "/" = cc h in absurd (slashless (code c) (ground arith) (ap code same))
slashed_injective (cons c a) (cons d b) s t p q h =
    let (same, rest) = slashed_injective a b s t (ground arith) (ground arith) (cc h) in
    (cc (h, same), rest)

abbrev pub key_prefix : String
key_prefix = "delegations/v1"

abbrev pub prefix_of : Option String → Option String → String → Option String
prefix_of none agent rest = none
prefix_of (some app) none rest = none
prefix_of (some app) (some agent) rest =
    some (slashed key_prefix (slashed app (slashed agent rest)))

unfoldable pub scope_prefix : SessionScope → Option String
scope_prefix scope = prefix_of (segment scope.app_id) (segment scope.agent_id) ""

abbrev pub key_of : SessionScope → Option String → Option String
key_of scope none = none
key_of scope (some entity) = prefix_of (segment scope.app_id) (segment scope.agent_id) entity

-- The prefix of the scope, and then the entity.
unfoldable pub delegation_key : SessionScope → String → Option String
delegation_key scope entity_id = key_of scope (segment entity_id)

segment_ok : (s t : String) → segment s ≡ some t → (are_segment_codes s ≡ true) × (s ≡ t)
unfolding segment is_segment
segment_ok s t = elim (Bool-cases (is_segment s)) [
  | inl good ↦ rw good (λ e. (ground arith, some-injective s t e))
  | inr bad ↦ rw bad (λ e. absurd (cc e))
]

-- The parts of a key that is made.
abbrev pub IsKey : SessionScope → String → String → Type 0
IsKey scope entity_id k =
    (are_segment_codes scope.app_id ≡ true)
    × (are_segment_codes scope.agent_id ≡ true)
    × (slashed key_prefix (slashed scope.app_id (slashed scope.agent_id entity_id)) ≡ k)

prefix_of_parts :
    (app agent : Option String) (rest k : String)
    → prefix_of app agent rest ≡ some k
    → (a : String) × (b : String) × (app ≡ some a)
      × (agent ≡ some b)
      × (slashed key_prefix (slashed a (slashed b rest)) ≡ k)
prefix_of_parts none agent rest k e = absurd (cc e)
prefix_of_parts (some a) none rest k e = absurd (cc e)
prefix_of_parts (some a) (some b) rest k e = (a, b, refl, refl, some-injective _ k e)

key_of_parts :
    (scope : SessionScope) (entity : Option String) (k : String)
    → key_of scope entity ≡ some k
    → (e : String) × (entity ≡ some e)
      × (prefix_of (segment scope.app_id) (segment scope.agent_id) e ≡ some k)
key_of_parts scope none k e = absurd (cc e)
key_of_parts scope (some entity) k e = (entity, refl, e)

delegation_key-IsKey :
    (scope : SessionScope) (entity_id k : String)
    → delegation_key scope entity_id ≡ some k
    → IsKey scope entity_id k
unfolding delegation_key
delegation_key-IsKey scope entity_id k h =
    let (e, from, p) = key_of_parts scope (segment entity_id) k h in
    let (a, b, is_a, is_b, made) =
      prefix_of_parts (segment scope.app_id) (segment scope.agent_id) e k p in
    let (a_ok, same_a) = segment_ok scope.app_id a is_a in
    let (b_ok, same_b) = segment_ok scope.agent_id b is_b in
    let (e_ok, same_e) = segment_ok entity_id e from in
    (a_ok, b_ok, rw (same_a, same_b, same_e) made)

slashed_left : (a s t : String) → slashed a s ≡ slashed a t → s ≡ t
unfolding slashed
slashed_left nil s t h = cc h
slashed_left (cons c a) s t h = slashed_left a s t (cc h)

-- Where two entities, each in its scope, have a key, and it is the same key, the scopes are the same
-- and the entities are the same.
pub delegation_key_injective :
    (s t : SessionScope) (e f k : String)
    → delegation_key s e ≡ some k
    → delegation_key t f ≡ some k
    → (s.app_id ≡ t.app_id) × (s.agent_id ≡ t.agent_id) × (e ≡ f)
delegation_key_injective s t e f k h g =
    let (a, b, p) = delegation_key-IsKey s e k h in
    let (c, d, q) = delegation_key-IsKey t f k g in
    let (same_app, rest) =
      slashed_injective s.app_id t.app_id _ _ a c (slashed_left key_prefix _ _ (p ∙ sym q)) in
    let (same_agent, same) = slashed_injective s.agent_id t.agent_id e f b d rest in
    (same_app, same_agent, same)
