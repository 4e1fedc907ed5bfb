-- ===== src/Prelude/Table.antt =====
-- A hash map as an association list without repeated keys. The programs that use it read it by
-- key, or sort what they take out of it, so the order of the entries carries no meaning.
use mathlib.Core.Path.{◌≡◌, refl}
use mathlib.Core.List.{List, [], ◌∷◌}
use mathlib.Core.Option.{Option, none, some}
use native.Mathlib.Omega.{arith}
use mathlib.Core.Logic.{◌⊎◌, inl, inr}
use s.Prelude.Tests.{Bool-cases, Eq, ◌==◌, if◌then◌else◌}

module _ {K V : Type 0} ⦃e : Eq K⦄ where
  -- `map.get(&key)`
  unfoldable pub lookup : K → List (K × V) → Option V
  lookup k [] = none
  lookup k ((j, v) ∷ rest) = if j == k then some v else lookup k rest

  -- `map.insert(key, value)`
  unfoldable pub insert : K → V → List (K × V) → List (K × V)
  insert k v [] = (k, v) ∷ []
  insert k v ((j, w) ∷ rest) = if j == k then (k, v) ∷ rest else (j, w) ∷ insert k v rest

  pub lookup-insert :
      (k j : K) (v : V) (rest : List (K × V))
      → lookup j (insert k v rest) ≡ (if k == j then some v else lookup j rest)
  unfolding lookup insert
  lookup-insert k j v [] = refl
  lookup-insert k j v ((i, w) ∷ rest) =
      ground (arith, e.same_iff k j, e.same_iff i k, e.same_iff i j, lookup-insert k j v rest)

  pub lookup-insert_self :
      (k : K) (v : V) (rest : List (K × V)) → lookup k (insert k v rest) ≡ some v
  lookup-insert_self k v rest = ground (arith, lookup-insert k k v rest, e.same_iff k k)

-- A write shows at its own key, and nowhere else.
pub lookup-insert_cases :
    {K V : Type 0} ⦃e : Eq K⦄ (k j : K) (v : V) (rest : List (K × V))
    → ((k ≡ j) × (lookup j (insert k v rest) ≡ some v))
      ⊎ (lookup j (insert k v rest) ≡ lookup j rest)
lookup-insert_cases ⦃e⦄ k j v rest = elim (Bool-cases (e.same k j)) [
  | inl hit ↦ inl ((e.same_iff k j).0 hit, ground (arith, lookup-insert k j v rest))
  | inr miss ↦ inr (ground (arith, lookup-insert k j v rest))
]

-- `map.values()`
abbrev pub values : {K V : Type 0} → List (K × V) → List V
values [] = []
values ((k, v) ∷ rest) = v ∷ values rest
