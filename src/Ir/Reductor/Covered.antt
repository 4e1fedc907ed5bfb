-- ===== src/Ir/Reductor/Covered.antt =====
-- Every custom node is below a claim (binary_reductor.rs, `reject_unclaimed_custom_nodes`).
use s.Ir.Reductor.{
  BinaryReductorClaim, is_claimed, is_custom, note_unclaimed, reject_unclaimed_custom_nodes,
  unclaimed_result,
}
use s.Prelude.{
  Bool-cases, List, Option, [], false, inl, inr, none, ok, refl, some, true, ◌≡◌, nat_eq, string_eq,
}
use s.Ir.Schema.{SchemaIr, SchemaNode, node_at_path, visit_paths}
use s.Ir.{SchemaPath}
use s.Ir.Schema.Reached.{walk_reaches}

abbrev IsFound : Option SchemaPath → Type 0
IsFound state = (path : SchemaPath) × (state ≡ some path)

note-keeps :
    (claims : List BinaryReductorClaim) (path : SchemaPath) (n : SchemaNode)
    (state : Option SchemaPath)
    → IsFound state
    → IsFound (note_unclaimed claims path n state)
unfolding note_unclaimed
note-keeps claims path n none f = let e = f.1 in cc
note-keeps claims path n (some p) f = (p, refl)

note-adds :
    (claims : List BinaryReductorClaim) (path : SchemaPath) (n : SchemaNode)
    (state : Option SchemaPath)
    → is_custom n ≡ true
    → is_claimed claims path ≡ false
    → IsFound (note_unclaimed claims path n state)
unfolding note_unclaimed
note-adds claims path n none c u = (path, rw (c, u))
note-adds claims path n (some p) c u = (p, refl)

found_refused : (state : Option SchemaPath) → IsFound state → unclaimed_result state ≡ ok tt → ⊥
found_refused none f h = let e = f.1 in cc
found_refused (some p) f h = cc

-- When the test for unclaimed custom nodes passes, every path that leads to a custom node of the schema
-- has a claim on it or above it.
pub customs_claimed :
    (schema : SchemaIr) (claims : List BinaryReductorClaim) (path : SchemaPath) (n : SchemaNode)
    → reject_unclaimed_custom_nodes schema claims ≡ ok tt
    → node_at_path schema.root path ≡ some n
    → is_custom n ≡ true
    → is_claimed claims path ≡ true
unfolding reject_unclaimed_custom_nodes visit_paths
customs_claimed schema claims path n h at custom = elim (Bool-cases (is_claimed claims path)) [
  | inl e ↦ e
  | inr e ↦
      let found =
        walk_reaches (note_unclaimed claims) IsFound (note-keeps claims) path n
          (λ state. note-adds claims path n state custom e) [] schema.root path none refl at in
      absurd (found_refused _ found h)
]
