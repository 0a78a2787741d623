-- ===== src/Session/Auth.antt =====
-- Which failures mean that the session is no longer valid: authLike, isAuthError and the outcome of
-- attempt in packages/agent-client/src/session.ts.
use Prim.Native.Char.{code}
use Prim.Native.String.{[] as nil, ◌∷◌ as cons}
use tinycloud_agents.Base.{
  ℕ, ◌+◌, Bool, true, false, ◌&&◌, ◌||◌, Option, none, some, List, [], ◌∷◌, ◌++◌, String, any, leb,
  nat_beq, if◌then◌else◌,
}

-- An error as far as its handlers look at it: an `AuthError`, a rejection of the delegation, the
-- error of a stopped session, or another with its code and message.
pub data Thrown : Type 0 where
  auth_error stopped_error : Thrown
  rejection other : Option String → Option String → Thrown

pub data TransportResult : Type 0 where
  done : ℕ → TransportResult
  refused : Option String → Option String → TransportResult

pub data Outcome : Type 0 where
  returns : TransportResult → Outcome
  throws : Thrown → Outcome

-- `Attempt` of the source, with the errors that `attempt` throws on.
pub data Verdict : Type 0 where
  completed : TransportResult → Verdict
  auth_failure : Verdict
  propagates : Thrown → Verdict

-- `isDelegationRejection`.
abbrev pub is_delegation_rejected : Thrown → Bool
is_delegation_rejected (rejection error_code message) = true
is_delegation_rejected _ = false

abbrev pub codes : String → List ℕ
codes nil = []
codes (cons c s) = code c ∷ codes s

-- `toLowerCase`, as far as letters of the markers come out of it.
abbrev pub lower : List ℕ → List ℕ
lower [] = []
lower (n ∷ ns) = (if leb 65 n && leb n 90 then n + 32 else n) ∷ lower ns

abbrev pub begins : List ℕ → List ℕ → Bool
begins text [] = true
begins [] (m ∷ ms) = false
begins (t ∷ ts) (m ∷ ms) = nat_beq t m && begins ts ms

abbrev pub includes : List ℕ → List ℕ → Bool
includes [] marker = begins [] marker
includes (t ∷ ts) marker = begins (t ∷ ts) marker || includes ts marker

-- `filter(Boolean).join(" ")`.
abbrev pub joined : List (Option String) → List ℕ
joined [] = []
joined (none ∷ parts) = joined parts
joined (some nil ∷ parts) = joined parts
joined (some (cons c s) ∷ parts) =
    let rest = joined parts in
    elim rest [ [] ↦ codes (cons c s) | n ∷ ns ↦ codes (cons c s) ++ 32 ∷ n ∷ ns ]

unfoldable pub auth_markers : List String
auth_markers = "401" ∷ "unauthorized" ∷ "expired" ∷ "auth_expired" ∷ "unauthenticated" ∷ []

unfoldable pub auth_like : List (Option String) → Bool
auth_like parts = any (λ marker. includes (lower (joined parts)) (codes marker)) auth_markers

unfoldable pub is_auth_error : Thrown → Bool
is_auth_error auth_error = true
is_auth_error stopped_error = false
is_auth_error (rejection error_code message) = auth_like (error_code ∷ message ∷ [])
is_auth_error (other error_code message) = auth_like (error_code ∷ message ∷ [])

unfoldable pub classify : Outcome → Verdict
classify (returns (done r)) = completed (done r)
classify (returns (refused error_code message)) =
    if auth_like (error_code ∷ message ∷ [])
    then auth_failure
    else completed (refused error_code message)
classify (throws e) = if is_auth_error e then auth_failure else propagates e
