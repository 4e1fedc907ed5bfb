-- ===== src/Ir/Schema/Claims.antt =====
-- The paths that a reductor may claim (binary_ir.rs, `reductor_claim_paths`).
use s.Prelude.{Bool-cases, List, [], inl, inr, true, ◌++◌, ◌∷◌, ◌≡◌, nat_eq, string_eq}
use s.Ir.Schema.{SchemaNode, is_claimable, push_claimable}
use s.Ir.{SchemaPath}

-- A path is in the list.
pub data Listed (p : SchemaPath) : List SchemaPath → Type 0 where
  at_head : {l : List SchemaPath} → Listed p (p ∷ l)
  behind : {q : SchemaPath} {l : List SchemaPath} → Listed p l → Listed p (q ∷ l)

Listed-before : {p : SchemaPath} (l r : List SchemaPath) → Listed p l → Listed p (l ++ r)
Listed-before _ r at_head = at_head
Listed-before _ r (behind h) = behind (Listed-before _ r h)

Listed-last : (p : SchemaPath) (l : List SchemaPath) → Listed p (l ++ p ∷ [])
Listed-last p [] = at_head
Listed-last p (q ∷ l) = behind (Listed-last p l)

pub push_keeps :
    {p : SchemaPath} (q : SchemaPath) (n : SchemaNode) (l : List SchemaPath)
    → Listed p l
    → Listed p (push_claimable q n l)
unfolding push_claimable
push_keeps q n l h = elim (Bool-cases (is_claimable n)) [
  | inl e ↦ rw e (Listed-before l (q ∷ []) h)
  | inr e ↦ rw e h
]

pub push_adds :
    (q : SchemaPath) (n : SchemaNode) (l : List SchemaPath)
    → is_claimable n ≡ true
    → Listed q (push_claimable q n l)
unfolding push_claimable
push_adds q n l e = rw e (Listed-last q l)

pub nothing-Listed : {p : SchemaPath} → Listed p [] → ⊥
nothing-Listed = elim [ ]
