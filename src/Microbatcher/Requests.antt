-- ===== src/Microbatcher/Requests.antt =====
-- The specification of the batcher: a plain list of the requests that wait.
use tinycloud_agents.Base.{
  ℕ, ◌≡◌, refl, ap, inl, inr, Bool, true, false, ◌&&◌, ◌||◌, any, List, [], ◌∷◌, ◌++◌, String,
  if◌then◌else◌, ◌===◌, text_eq, arith, Bool-cases,
}

-- What a caller asks for.
pub record Request : Type 0 where
  pub group : String
  pub member : String
  pub id : ℕ

pub data Event : Type 0 where
  asks : Request → Event
  flushes : String → Event

-- The specification keeps the requests that wait, in their order; a flush takes those of its group.
pub without_group : String → List Request → List Request
without_group group [] = []
without_group group (r ∷ rs) =
    let rest = without_group group rs in if r.group === group then rest else r ∷ rest

unfoldable pub waiting : List Request → List Event → List Request
waiting rs [] = rs
waiting rs (asks r ∷ es) = waiting (rs ++ r ∷ []) es
waiting rs (flushes group ∷ es) = waiting (without_group group rs) es

-- The requests that wait for a member of a group, and those that wait for a group.
unfoldable pub asked_for : String → String → List Request → List ℕ
asked_for group member [] = []
asked_for group member (r ∷ rs) =
    let rest = asked_for group member rs in
    if r.group === group && r.member === member then r.id ∷ rest else rest

unfoldable pub asked_in : String → List Request → List ℕ
asked_in group [] = []
asked_in group (r ∷ rs) =
    let rest = asked_in group rs in if r.group === group then r.id ∷ rest else rest

abbrev pub one_if : Bool → ℕ → List ℕ
one_if true id = id ∷ []
one_if false id = []

pub append-nil : (xs : List ℕ) → xs ++ [] ≡ xs
append-nil [] = refl
append-nil (x ∷ xs) = ap (λ ys. x ∷ ys) (append-nil xs)

pub asked_for-append :
    (group member : String) (rs : List Request) (r : Request)
    → asked_for group member (rs ++ r ∷ [])
      ≡ asked_for group member rs ++ one_if (r.group === group && r.member === member) r.id
unfolding asked_for
asked_for-append group member [] r = elim (Bool-cases (r.group === group && r.member === member)) [
  | inl e ↦ rw e
  | inr e ↦ rw e
]
asked_for-append group member (q ∷ rs) r =
    elim (Bool-cases (q.group === group && q.member === member)) [
      | inl e ↦ rw (e, asked_for-append group member rs r)
      | inr e ↦ rw (e, asked_for-append group member rs r)
    ]

pub asked_in-append :
    (group : String) (rs : List Request) (r : Request)
    → asked_in group (rs ++ r ∷ []) ≡ asked_in group rs ++ one_if (r.group === group) r.id
unfolding asked_in
asked_in-append group [] r = elim (Bool-cases (r.group === group)) [ inl e ↦ rw e | inr e ↦ rw e ]
asked_in-append group (q ∷ rs) r = elim (Bool-cases (q.group === group)) [
  | inl e ↦ rw (e, asked_in-append group rs r)
  | inr e ↦ rw (e, asked_in-append group rs r)
]

pub asked_for-without_group :
    (group member other : String) (rs : List Request)
    → asked_for group member (without_group other rs)
      ≡ (if other === group then [] else asked_for group member rs)
unfolding asked_for without_group
asked_for-without_group group member other [] = ground arith
asked_for-without_group group member other (r ∷ rs) = ground (
  arith,
  asked_for-without_group group member other rs,
  text_eq.same-eq r.group other,
  text_eq.same-eq r.group group,
  text_eq.same-eq other group,
)

pub asked_in-without_group :
    (group other : String) (rs : List Request)
    → asked_in group (without_group other rs) ≡ (if other === group then [] else asked_in group rs)
unfolding asked_in without_group
asked_in-without_group group other [] = ground arith
asked_in-without_group group other (r ∷ rs) = ground (
  arith,
  asked_in-without_group group other rs,
  text_eq.same-eq r.group other,
  text_eq.same-eq r.group group,
  text_eq.same-eq other group,
)

-- A request for the member of the group waits.
unfoldable pub is_asked : String → String → List Request → Bool
is_asked group member rs = any (λ r. r.group === group && r.member === member) rs

pub is_asked-append :
    (group member : String) (rs : List Request) (r : Request)
    → is_asked group member (rs ++ r ∷ [])
      ≡ (r.group === group && r.member === member) || is_asked group member rs
unfolding is_asked
is_asked-append group member [] r = refl
is_asked-append group member (q ∷ rs) r = ground (arith, is_asked-append group member rs r)

pub is_asked-without_group :
    (group member other : String) (rs : List Request)
    → is_asked group member (without_group other rs)
      ≡ (if other === group then false else is_asked group member rs)
unfolding is_asked without_group
is_asked-without_group group member other [] = ground arith
is_asked-without_group group member other (r ∷ rs) = ground (
  arith,
  is_asked-without_group group member other rs,
  text_eq.same-eq r.group other,
  text_eq.same-eq r.group group,
  text_eq.same-eq other group,
)
