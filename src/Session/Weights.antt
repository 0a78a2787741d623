-- ===== src/Session/Weights.antt =====
-- What a session owes to a call of `run`: submissions to the worker, and an answer.
use tinycloud_agents.Base.{
  ℕ, ◌+◌, ◌*◌, ◌≤◌, ◌≡◌, true, false, none, some, List, [], ◌∷◌, ◌++◌, arith, from_bool, nat_beq,
  sum_by, sum_by-append, if◌then◌else◌, Option-cases, Bool-cases, ◌⊎◌, inl, inr, refl,
}
use tinycloud_agents.Session.Auth.{stopped_error}
use tinycloud_agents.Session.{
  Session, Turn, Waiter, ensuring, beginning, retrying, refreshing, Attempt, Effect, signs_in,
  submits, resolves, rejects, and_then, proceed, give_up, ensure_signed_in, SignInResult,
}

abbrev pub waiters_of : Session → List Waiter
waiters_of s = elim s.sign_in_in_flight [ some ws ↦ ws | none ↦ [] ]

module _ (id : ℕ) where
  -- The submissions that a waiter or an attempt may still make for the call `id`.
  abbrev pub waiter_budget : Waiter → ℕ
  waiter_budget (ensuring j) = 0
  waiter_budget (beginning j lane) = 2 * from_bool (nat_beq j id)
  waiter_budget (retrying j lane) = from_bool (nat_beq j id)
  waiter_budget refreshing = 0

  abbrev pub attempt_budget : Attempt → ℕ
  attempt_budget a = if a.second then 0 else from_bool (nat_beq a.id id)

  abbrev pub owes_answer : Waiter → ℕ
  owes_answer (ensuring j) = 0
  owes_answer (beginning j lane) = from_bool (nat_beq j id)
  owes_answer (retrying j lane) = from_bool (nat_beq j id)
  owes_answer refreshing = 0

  -- How often the call is submitted, and how often it is answered.
  abbrev pub is_submission : Effect → ℕ
  is_submission (submits j lane) = from_bool (nat_beq j id)
  is_submission _ = 0

  abbrev pub is_answer : Effect → ℕ
  is_answer (resolves j r) = from_bool (nat_beq j id)
  is_answer (rejects j e) = from_bool (nat_beq j id)
  is_answer _ = 0

  abbrev pub submissions : List Effect → ℕ
  submissions es = sum_by is_submission es

  abbrev pub answers : List Effect → ℕ
  answers es = sum_by is_answer es

  unfoldable pub budget : Session → ℕ
  budget s = sum_by waiter_budget (waiters_of s) + sum_by attempt_budget s.attempts

  -- The calls of `run` under this number that wait.
  unfoldable pub pending : Session → ℕ
  pending s =
      sum_by owes_answer (waiters_of s)
      + sum_by (λ (a : Attempt). from_bool (nat_beq a.id id)) s.attempts

  -- A turn that may spend `b` submissions and owes `p` answers.
  pub record IsBalanced (b p : ℕ) (t : Turn) : Type 0 where
    pub spent : submissions t.1 + budget t.0 ≤ b
    pub owed : answers t.1 + pending t.0 ≡ p

  pub and_then-IsBalanced :
      (b p : ℕ) (t : Turn) (next : Session → Turn)
      → IsBalanced b p t
      → IsBalanced (budget t.0) (pending t.0) (next t.0)
      → IsBalanced b p (and_then t next)
  and_then-IsBalanced b p t next h k = record {
    spent = omega (arith, sum_by-append is_submission t.1 (next t.0).1, h.spent, k.spent);
    owed = omega (arith, sum_by-append is_answer t.1 (next t.0).1, h.owed, k.owed);
  }

-- A waiter fails at once, goes on at once, or joins those who wait for the sign-in, which it begins
-- if there are none.
pub data Ensures (w : Waiter) (s : Session) (t : Turn) : Type 0 where
  fails : t ≡ give_up stopped_error w s → s.stopped ≡ true → Ensures w s t
  goes_on : (r : SignInResult) → t ≡ proceed r w s → s.stopped ≡ false → Ensures w s t
  joins :
      (es : List Effect)
      → t ≡ (record s { sign_in_in_flight = some (waiters_of s ++ w ∷ []) }, es)
      → (es ≡ []) ⊎ (es ≡ signs_in ∷ [])
      → s.stopped ≡ false
      → Ensures w s t

pub ensure_signed_in-Ensures : (w : Waiter) (s : Session) → Ensures w s (ensure_signed_in w s)
unfolding ensure_signed_in
ensure_signed_in-Ensures w s = elim (Bool-cases s.stopped) [
  | inl y ↦ fails (ground (arith, y)) y
  | inr n ↦ elim (Option-cases s.established) [
    | inr (r, e) ↦ goes_on r (ground (arith, n, e)) n
    | inl e ↦ elim (Option-cases s.sign_in_in_flight) [
      | inr (ws, f) ↦ joins [] (ground (arith, n, e, f)) (inl refl) n
      | inl f ↦ joins (signs_in ∷ []) (ground (arith, n, e, f)) (inr refl) n
    ]
  ]
]
