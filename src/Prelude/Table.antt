-- ===== src/Prelude/Table.antt =====
-- `HashMap` with keys of any type that has an equality test, as an association list.
use mathlib.Core.Path.{◌≡◌}
use mathlib.Core.Logic.{◌↔◌}
use mathlib.Core.Bool.{Bool, true}
use mathlib.Core.List.{List, [], ◌∷◌}
use mathlib.Core.Option.{Option, none, some}
use native.Mathlib.Omega.{arith}
use raknet_shim.Prelude.Tests.{if◌then◌else◌}

-- `Eq` of the keys.
pub record Eq (K : Type 0) : Type 0 where
  pub same : K → K → Bool

pub record EqLaws {K : Type 0} (eq : Eq K) : Type 0 where
  pub same_iff : (j k : K) → (eq.same j k ≡ true) ↔ (j ≡ k)

abbrev pub Table : Type 0 → Type 0 → Type 0
Table K V = List (K × V)

module _ {K V : Type 0} ⦃eq : Eq K⦄ where
  unfoldable pub get : K → Table K V → Option V
  get k [] = none
  get k ((j, v) ∷ t) = if eq.same j k then some v else get k t

  unfoldable pub remove : K → Table K V → Table K V
  remove k [] = []
  remove k ((j, v) ∷ t) = if eq.same j k then remove k t else (j, v) ∷ remove k t

  unfoldable pub insert : K → V → Table K V → Table K V
  insert k v t = (k, v) ∷ remove k t

module _ {K V : Type 0} ⦃eq : Eq K⦄ (laws : EqLaws eq) where
  pub get-remove :
      (k j : K) (t : Table K V) → get j (remove k t) ≡ (if eq.same k j then none else get j t)
  unfolding get remove
  get-remove k j [] = ground arith
  get-remove k j ((i, v) ∷ t) =
      ground (arith, get-remove k j t, laws.same_iff i k, laws.same_iff i j, laws.same_iff k j)

  pub get-insert :
      (k j : K) (v : V) (t : Table K V)
      → get j (insert k v t) ≡ (if eq.same k j then some v else get j t)
  unfolding get insert
  get-insert k j v t = ground (arith, get-remove k j t)
