-- ===== src/Base/Map.antt =====
-- The platform's `Map`, as an association list: `get`, `set`, `delete` and `has`.
use mathlib.Core.Path.{◌≡◌, refl}
use mathlib.Core.Bool.{Bool}
use mathlib.Core.Option.{Option, none, some}
use mathlib.Core.List.{List, [], ◌∷◌}
use native.Mathlib.Omega.{arith}
use tinycloud_agents.Base.Tests.{StrictEq, ◌===◌, if◌then◌else◌, is_some}

abbrev pub Map {ℓ κ} : Type ℓ → Type κ → Type (ℓ ⊔ κ)
Map K V = List (K × V)

module _ {ℓ κ} {K : Type ℓ} {V : Type κ} ⦃s : StrictEq K⦄ where
  unfoldable pub get : Map K V → K → Option V
  get [] key = none
  get ((k, value) ∷ rest) key = if k === key then some value else get rest key

  unfoldable pub set : Map K V → K → V → Map K V
  set [] key value = (key, value) ∷ []
  set ((k, old) ∷ rest) key value =
      if k === key then (k, value) ∷ rest else (k, old) ∷ set rest key value

  unfoldable pub delete : Map K V → K → Map K V
  delete [] key = []
  delete ((k, value) ∷ rest) key =
      let less = delete rest key in if k === key then less else (k, value) ∷ less

  abbrev pub has : Map K V → K → Bool
  has entries key = is_some (get entries key)

  -- Writing one key leaves what the others hold.
  pub get-set :
      (entries : Map K V) (key other : K) (value : V)
      → get (set entries key value) other
        ≡ (if key === other then some value else get entries other)
  unfolding get set
  get-set [] key other value = refl
  get-set ((k, old) ∷ rest) key other value =
      ground (
        arith,
        get-set rest key other value,
        s.same-eq k key,
        s.same-eq k other,
        s.same-eq key other,
      )

  pub get-delete :
      (entries : Map K V) (key other : K)
      → get (delete entries key) other ≡ (if key === other then none else get entries other)
  unfolding get delete
  get-delete [] key other = ground arith
  get-delete ((k, value) ∷ rest) key other =
      ground
        (arith, get-delete rest key other, s.same-eq k key, s.same-eq k other, s.same-eq key other)
