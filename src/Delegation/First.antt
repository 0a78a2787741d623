-- ===== src/Delegation/First.antt =====
-- `Array.find` of delegation-policy.ts against its description: the element found has the property,
-- and none that stands before it in the list has it.
use tinycloud_agents.Base.{
  ◌≡◌, ◌↔◌, ◌⊎◌, inl, inr, refl, Bool, true, false, none, some, List, [], ◌∷◌, ◌++◌, String, All,
  ◌===◌, text_eq, Bool-cases, arith,
}
use tinycloud_agents.Delegation.{PolicyResource}
use tinycloud_agents.Delegation.Policy.{find, service_matches}

-- No element of the list has the property.
abbrev pub Lacking : {A : Type 0} → (A → Type 0) → List A → Type 0
Lacking P xs = All (λ x. P x → ⊥) xs

-- `x` has the property, and stands in the list after elements that all lack it.
pub record IsFirst {A : Type 0} (P : A → Type 0) (xs : List A) (x : A) : Type 0 where
  pub before : List A
  pub after : List A
  pub stands : xs ≡ before ++ x ∷ after
  pub skipped : Lacking P before
  pub holds : P x

-- The service, in short or in long, is the resource's.
abbrev pub IsOf : PolicyResource → String → Type 0
IsOf r service = (service ≡ r.service_short) ⊎ (service ≡ r.service_long)

pub service_matches_iff :
    (service : String) (r : PolicyResource) → (service_matches service r ≡ true) ↔ IsOf r service
unfolding service_matches
service_matches_iff service r = elim (Bool-cases (service === r.service_short)) [
  | inl y ↦ (λ e. inl ((text_eq.same-eq service r.service_short).0 y), λ h. ground (arith, y))
  | inr n ↦ (
    λ e. inr ((text_eq.same-eq service r.service_long).0 (ground (arith, n, e))),
    λ h. elim h [
      | inl short ↦ absurd (cc (n, (text_eq.same-eq service r.service_short).1 short))
      | inr long ↦ ground (arith, n, (text_eq.same-eq service r.service_long).1 long)
    ],
  )
]

module _ {A : Type 0} (p : A → Bool) (P : A → Type 0) (f : (x : A) → (p x ≡ true) ↔ P x) where
  refuted : (x : A) → p x ≡ false → P x → ⊥
  refuted x n h = absurd (cc (n, (f x).1 h))

  untrue : (x : A) → (P x → ⊥) → p x ≡ false
  untrue x h = elim (Bool-cases (p x)) [ inl y ↦ absurd (h ((f x).0 y)) | inr n ↦ n ]

  found : (xs : List A) (x : A) → find p xs ≡ some x → IsFirst P xs x
  found [] x e = absurd (ground (arith, e))
  found (y ∷ ys) x e = elim (Bool-cases (p y)) [
    | inl here ↦
        let same : y ≡ x = ground (arith, here, e) in
        record {
          before = [];
          after = ys;
          stands = rw (same) refl;
          skipped = tt;
          holds = (f x).0 (cc (here, same));
        }
    | inr away ↦
        let rest = found ys x (ground (arith, away, e)) in
        record {
          before = y ∷ rest.before;
          after = rest.after;
          stands = cc (rest.stands);
          skipped = (refuted y away, rest.skipped);
          holds = rest.holds;
        }
  ]

  found_first :
      (before after : List A) (x : A)
      → Lacking P before
      → P x
      → find p (before ++ x ∷ after) ≡ some x
  found_first [] after x skipped h = ground (arith, (f x).1 h)
  found_first (y ∷ before) after x skipped h =
      ground (arith, untrue y skipped.0, found_first before after x skipped.1 h)

  pub find-IsFirst : (xs : List A) (x : A) → (find p xs ≡ some x) ↔ IsFirst P xs x
  find-IsFirst xs x =
      (found xs x, λ i. rw (i.stands) (found_first i.before i.after x i.skipped i.holds))

  pub find-Lacking : (xs : List A) → (find p xs ≡ none) ↔ Lacking P xs
  find-Lacking [] = (λ e. tt, λ h. refl)
  find-Lacking (x ∷ xs) = elim (Bool-cases (p x)) [
    | inl y ↦ (λ e. absurd (ground (arith, y, e)), λ h. absurd (h.0 ((f x).0 y)))
    | inr n ↦ (
      λ e. (refuted x n, (find-Lacking xs).0 (ground (arith, n, e))),
      λ h. ground (arith, n, (find-Lacking xs).1 h.1),
    )
  ]
