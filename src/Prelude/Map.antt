-- ===== src/Prelude/Map.antt =====
-- `std::collections::HashMap` as an association list without an order that the program reads:
-- the code sorts whatever it iterates over.
use mathlib.Core.Path.{◌≡◌, refl}
use mathlib.Core.Bool.{Bool, true, false}
use mathlib.Core.List.{List, [], ◌∷◌}
use mathlib.Core.Option.{Option, none, some}
use native.Mathlib.Omega.{arith}
use pktflow.Prelude.Tests.{if◌then◌else◌}
use pktflow.Prelude.Equality.{Eq, ◌≟◌}

abbrev pub Map {ℓ κ} : Type ℓ → Type κ → Type (ℓ ⊔ κ)
Map K V = List (K × V)

module _ {ℓ κ} {K : Type ℓ} {V : Type κ} ⦃e : Eq K⦄ where
  -- `HashMap::get`
  unfoldable pub get : K → Map K V → Option V
  get k [] = none
  get k ((j, v) ∷ m) = if j ≟ k then some v else get k m

  -- `HashMap::insert`
  unfoldable pub insert : K → V → Map K V → Map K V
  insert k v [] = (k, v) ∷ []
  insert k v ((j, w) ∷ m) = if j ≟ k then (k, v) ∷ m else (j, w) ∷ insert k v m

  -- `HashMap::remove`
  unfoldable pub remove : K → Map K V → Map K V
  remove k [] = []
  remove k ((j, w) ∷ m) = let rest = remove k m in if j ≟ k then rest else (j, w) ∷ rest

  unfoldable pub contains_key : K → Map K V → Bool
  unfolding get
  contains_key k m = elim (get k m) [ none ↦ false | some v ↦ true ]

  -- `map.get(k).copied().unwrap_or(d)`
  unfoldable pub get_or : K → V → Map K V → V
  unfolding get
  get_or k d m = elim (get k m) [ none ↦ d | some v ↦ v ]

  pub get-insert :
      (k j : K) (v : V) (m : Map K V) → get j (insert k v m) ≡ (if k ≟ j then some v else get j m)
  unfolding get insert
  get-insert k j v [] = refl
  get-insert k j v ((i, w) ∷ m) = ground (arith, get-insert k j v m)

  pub get-remove : (k j : K) (m : Map K V) → get j (remove k m) ≡ (if k ≟ j then none else get j m)
  unfolding get remove
  get-remove k j [] = ground arith
  get-remove k j ((i, w) ∷ m) = ground (arith, get-remove k j m)

pub ruleset map_laws = (get-insert, get-remove)
