-- ===== src/Prelude/Sorted.antt =====
-- Sorting by a total test puts each element in order with the next one.
use mathlib.Core.Path.{◌≡◌}
use mathlib.Core.Logic.{inl, inr}
use mathlib.Core.Bool.{Bool, true, false}
use mathlib.Core.List.{List, [], ◌∷◌}
use s.Prelude.Tests.{Bool-cases}
use s.Prelude.Lists.{insert_by, sort_by}

module _ {A : Type 0} (le : A → A → Bool) where
  abbrev pub Adjacent : List A → Type 0
  Adjacent [] = Unit
  Adjacent (x ∷ []) = Unit
  Adjacent (x ∷ y ∷ l) = (le x y ≡ true) × Adjacent (y ∷ l)

  module _ (total : (x y : A) → le x y ≡ false → le y x ≡ true) where
    insert-Adjacent :
        (y x : A) (l : List A) → le y x ≡ true → Adjacent (y ∷ l) → Adjacent (y ∷ insert_by le x l)
    insert-Adjacent y x [] h a = (h, tt)
    insert-Adjacent y x (z ∷ l) h a = elim (Bool-cases (le x z)) [
      | inl e ↦ rw e (h, (e, a.1))
      | inr e ↦ rw e (a.0, insert-Adjacent z x l (total x z e) a.1)
    ]

    insert_by-Adjacent : (x : A) (l : List A) → Adjacent l → Adjacent (insert_by le x l)
    insert_by-Adjacent x [] a = tt
    insert_by-Adjacent x (y ∷ l) a = elim (Bool-cases (le x y)) [
      | inl e ↦ rw e (e, a)
      | inr e ↦ rw e (insert-Adjacent y x l (total x y e) a)
    ]

    pub sort_by-Adjacent : (l : List A) → Adjacent (sort_by le l)
    sort_by-Adjacent [] = tt
    sort_by-Adjacent (x ∷ l) = insert_by-Adjacent x (sort_by le l) (sort_by-Adjacent l)
