-- ===== src/Delegation/Form.antt =====
-- The form that assertWellFormed of delegation-policy.ts asks of a delegation, told apart from its
-- tests: a delegate that is named, and an expiry that is a date.
use mathlib.Core.Option.{some-injective}
use tinycloud_agents.Base.{
  ℕ, ◌≡◌, ◌≢◌, ◌↔◌, ◌⊎◌, inl, inr, refl, ap, subst, true, false, Option, none, some, String,
  text_eq, arith,
}
use tinycloud_agents.Delegation.{Expiry, absent, null_expiry, invalid, at}
use tinycloud_agents.Delegation.Policy.{falsy, expiry_time}

-- The text is given, and is not empty.
abbrev pub IsNamed : Option String → String → Type 0
IsNamed o name = (o ≡ some name) × (name ≢ "")

-- No text is given, or an empty one.
abbrev pub IsUnnamed : Option String → Type 0
IsUnnamed o = (o ≡ none) ⊎ (o ≡ some "")

-- The date, where `null` stands for the epoch.
pub data IsDate : Expiry → ℕ → Type 0 where
  at_time : (t : ℕ) → IsDate (at t) t
  at_epoch : IsDate null_expiry 0

-- The expiry is no date.
abbrev pub IsUndated : Expiry → Type 0
IsUndated x = (x ≡ absent) ⊎ (x ≡ invalid)

pub named : (o : Option String) → falsy o ≡ false → (name : String) × IsNamed o name
named none e = absurd (ground (arith, e))
named (some s) e = (s, (refl, λ q. cc (e, (text_eq.same-eq s "").1 q)))

pub falsy-IsUnnamed : (o : Option String) → falsy o ≡ true → IsUnnamed o
falsy-IsUnnamed none e = inl refl
falsy-IsUnnamed (some s) e = inr (ap some ((text_eq.same-eq s "").0 e))

-- The two are exclusive.
pub named_or_unnamed : (o : Option String) (name : String) → IsNamed o name → IsUnnamed o → ⊥
named_or_unnamed o name (e, filled) (inl away) = absurd (cc (e, away))
named_or_unnamed o name (e, filled) (inr empty) = filled (some-injective name "" (cc (e, empty)))

dated : (x : Expiry) (t : ℕ) → IsDate x t → expiry_time x ≡ some t
unfolding expiry_time
dated _ _ (at_time t) = refl
dated _ _ at_epoch = refl

expiry_time_iff : (x : Expiry) (t : ℕ) → expiry_time x ≡ some t → IsDate x t
unfolding expiry_time
expiry_time_iff absent t e = absurd (cc e)
expiry_time_iff null_expiry t e =
    let same : 0 ≡ t = ground (arith, e) in subst (IsDate null_expiry) same at_epoch
expiry_time_iff invalid t e = absurd (cc e)
expiry_time_iff (at s) t e =
    let same : s ≡ t = ground (arith, e) in subst (IsDate (at s)) same (at_time s)

pub expiry_time-IsDate : (x : Expiry) (t : ℕ) → (expiry_time x ≡ some t) ↔ IsDate x t
expiry_time-IsDate x t = (expiry_time_iff x t, dated x t)

pub expiry_time-IsUndated : (x : Expiry) → (expiry_time x ≡ none) ↔ IsUndated x
unfolding expiry_time
expiry_time-IsUndated absent = (λ e. inl refl, λ h. refl)
expiry_time-IsUndated null_expiry =
    (λ e. absurd (cc e), λ h. elim h [ inl e ↦ absurd (cc e) | inr e ↦ absurd (cc e) ])
expiry_time-IsUndated invalid = (λ e. inr refl, λ h. refl)
expiry_time-IsUndated (at t) =
    (λ e. absurd (cc e), λ h. elim h [ inl e ↦ absurd (cc e) | inr e ↦ absurd (cc e) ])
