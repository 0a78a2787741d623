-- ===== src/Base/Sizes.antt =====
-- How many entries a `Map` with distinct keys has.
use mathlib.Core.Path.{◌≡◌, refl, subst}
use mathlib.Core.Logic.{inl, inr}
use mathlib.Core.Option.{none, some}
use mathlib.Core.List.{[], ◌∷◌}
use Prim.Native.Nat.{◌+◌}
use native.Mathlib.Omega.{arith}
use tinycloud_agents.Base.Tests.{StrictEq, ◌===◌, Bool-cases}
use tinycloud_agents.Base.Lists.{length}
use tinycloud_agents.Base.Map.{Map}
use tinycloud_agents.Base.Map

module _ {K V : Type 0} ⦃s : StrictEq K⦄ where
  -- No key has two entries.
  abbrev pub HasDistinctKeys : Map K V → Type 0
  HasDistinctKeys [] = Unit {0}
  HasDistinctKeys ((k, value) ∷ rest) = (Map.get rest k ≡ none) × HasDistinctKeys rest

  pub set-HasDistinctKeys :
      (m : Map K V) (key : K) (value : V)
      → HasDistinctKeys m
      → HasDistinctKeys (Map.set m key value)
  unfolding Map.set Map.get
  set-HasDistinctKeys [] key value d = (refl, tt)
  set-HasDistinctKeys ((k, old) ∷ rest) key value (new, d) = elim (Bool-cases (k === key)) [
    | inl same ↦ rw same (new, d)
    | inr other ↦ rw other (
      ground (arith, Map.get-set rest key k value, new, other, s.same-eq k key, s.same-eq key k),
      set-HasDistinctKeys rest key value d,
    )
  ]

  pub delete-HasDistinctKeys :
      (m : Map K V) (key : K) → HasDistinctKeys m → HasDistinctKeys (Map.delete m key)
  unfolding Map.delete Map.get
  delete-HasDistinctKeys [] key d = tt
  delete-HasDistinctKeys ((k, old) ∷ rest) key (new, d) = elim (Bool-cases (k === key)) [
    | inl same ↦ rw same (delete-HasDistinctKeys rest key d)
    | inr other ↦
        rw other (ground (arith, Map.get-delete rest key k, new), delete-HasDistinctKeys rest key d)
  ]

  pub length-set_new :
      (m : Map K V) (key : K) (value : V)
      → Map.get m key ≡ none
      → length (Map.set m key value) ≡ length m + 1
  unfolding Map.set Map.get
  length-set_new [] key value = λ e. refl
  length-set_new ((k, old) ∷ rest) key value = elim (Bool-cases (k === key)) [
    | inl same ↦ rw same (λ e. absurd (cc e))
    | inr other ↦ rw other (λ e. ground (arith, length-set_new rest key value e))
  ]

  pub length-set_old :
      (m : Map K V) (key : K) (value old : V)
      → Map.get m key ≡ some old
      → length (Map.set m key value) ≡ length m
  unfolding Map.set Map.get
  length-set_old [] key value old = λ e. absurd (cc e)
  length-set_old ((k, there) ∷ rest) key value old = elim (Bool-cases (k === key)) [
    | inl same ↦ rw same (λ e. refl)
    | inr other ↦ rw other (λ e. ground (arith, length-set_old rest key value old e))
  ]

  length-delete_new :
      (m : Map K V) (key : K) → Map.get m key ≡ none → length (Map.delete m key) ≡ length m
  unfolding Map.delete Map.get
  length-delete_new [] key = λ e. refl
  length-delete_new ((k, there) ∷ rest) key = elim (Bool-cases (k === key)) [
    | inl same ↦ rw same (λ e. absurd (cc e))
    | inr other ↦ rw other (λ e. ground (arith, length-delete_new rest key e))
  ]

  pub length-delete_old :
      (m : Map K V) (key : K) (old : V)
      → HasDistinctKeys m
      → Map.get m key ≡ some old
      → length (Map.delete m key) + 1 ≡ length m
  unfolding Map.delete Map.get
  length-delete_old [] key old d = λ e. absurd (cc e)
  length-delete_old ((k, there) ∷ rest) key old (new, d) = elim (Bool-cases (k === key)) [
    | inl same ↦ rw same (λ e. ground (
      arith,
      length-delete_new rest key
          (subst (λ x. Map.get rest x ≡ none) ((s.same-eq k key).0 same) new),
    ))
    | inr other ↦ rw other (λ e. ground (arith, length-delete_old rest key old d e))
  ]
