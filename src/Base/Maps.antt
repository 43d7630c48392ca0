-- ===== src/Base/Maps.antt =====
-- Maps as association lists: a later write of a key replaces its value in place.
use mathlib.Core.Path.{◌≡◌, refl}
use mathlib.Core.Option.{Option, none, some}
use mathlib.Core.List.{List, [], ◌∷◌}
use native.Mathlib.Omega.{arith}
use uncut_core.Base.Tests.{if◌then◌else◌}
use uncut_core.Base.Lists.{Eq, ◌==◌}

abbrev pub Map {ℓ κ} : Type ℓ → Type κ → Type (ℓ ⊔ κ)
Map K V = List (K × V)

module _ {ℓ κ} {K : Type ℓ} {V : Type κ} ⦃e : Eq K⦄ where
  unfoldable pub lookup : K → Map K V → Option V
  lookup key [] = none
  lookup key ((other, value) ∷ table) = if other == key then some value else lookup key table

  unfoldable pub insert : K → V → Map K V → Map K V
  insert key value [] = (key, value) ∷ []
  insert key value ((other, old) ∷ table) =
      if other == key then (key, value) ∷ table else (other, old) ∷ insert key value table

  unfoldable pub erase : K → Map K V → Map K V
  erase key [] = []
  erase key ((other, old) ∷ table) =
      let rest = erase key table in if other == key then rest else (other, old) ∷ rest

  -- Every pair of the second map is written over the first, in order.
  unfoldable pub insert_all : Map K V → Map K V → Map K V
  insert_all table [] = table
  insert_all table ((key, value) ∷ writes) = insert_all (insert key value table) writes

  pub lookup-insert :
      (key other : K) (value : V) (table : Map K V)
      → lookup other (insert key value table)
        ≡ (if key == other then some value else lookup other table)
  unfolding lookup insert
  lookup-insert key other value [] = refl
  lookup-insert key other value ((front, old) ∷ table) =
      ground (arith, lookup-insert key other value table)

  pub lookup-erase :
      (key other : K) (table : Map K V)
      → lookup other (erase key table) ≡ (if key == other then none else lookup other table)
  unfolding lookup erase
  lookup-erase key other [] = ground arith
  lookup-erase key other ((front, old) ∷ table) = ground (arith, lookup-erase key other table)

  -- A key that the second map lacks keeps its value.
  pub lookup-insert_all_absent :
      (other : K) (table writes : Map K V)
      → lookup other writes ≡ none
      → lookup other (insert_all table writes) ≡ lookup other table
  unfolding lookup insert_all
  lookup-insert_all_absent other table [] h = refl
  lookup-insert_all_absent other table ((key, value) ∷ writes) h = ground (
    arith,
    lookup-insert_all_absent other (insert key value table) writes,
    lookup-insert key other value table,
  )
