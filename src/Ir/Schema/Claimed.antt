-- ===== src/Ir/Schema/Claimed.antt =====
-- Every path that a reductor may claim names a record or a custom node (binary_ir.rs,
-- `reductor_claim_paths`), and the converse.
use s.Prelude.{
  Bool, Bool-cases, List, [], inl, inr, refl, some, true, ◌++◌, ◌↔◌, ◌∷◌, ◌≡◌, nat_eq, string_eq,
}
use s.Ir.Schema.Claims.{Listed, nothing-Listed, at_head, behind, push_adds, push_keeps}
use s.Ir.Schema.{
  SchemaFields, SchemaIr, SchemaKind, SchemaNode, array_kind, child_node, custom_kind, find_field,
  is_claimable, map_kind, no_fields, node, node_at_path, push_claimable, record_kind,
  reductor_claim_paths, schema_field, visit_fields, visit_kind, visit_paths, visit_paths_inner,
}
use s.Ir.{
  SchemaPath, Text, array_element, field_segment, has_name, logical_segment, map_value, text_iff,
}
use s.Ir.Schema.WellFormed.{Sound, SoundFields, SoundKind}
use s.Ir.Schema.Lookup.{child_node_at, other_field}
use s.Ir.Schema.Reached.{walk_reaches}

abbrev Claimable : SchemaNode → SchemaPath → Type 0
Claimable root p = (m : SchemaNode) × (node_at_path root p ≡ some m) × (is_claimable m ≡ true)

module _ (root : SchemaNode) where
  abbrev Found : List SchemaPath → Type 0
  Found l = (p : SchemaPath) → Listed p l → Claimable root p

  push-Found :
      (l : List SchemaPath) (q : SchemaPath) → Found l → Claimable root q → Found (l ++ q ∷ [])
  push-Found [] q f c p at_head = c
  push-Found [] q f c p (behind h) = elim h [ ]
  push-Found (x ∷ l) q f c p at_head = f x at_head
  push-Found (x ∷ l) q f c p (behind h) = push-Found l q (λ r k. f r (behind k)) c p h

  called :
      (q : SchemaPath) (n : SchemaNode) (l : List SchemaPath)
      → node_at_path root q ≡ some n
      → Found l
      → Found (push_claimable q n l)
  unfolding push_claimable
  called q n l at f = elim (Bool-cases (is_claimable n)) [
    | inl e ↦ rw e (push-Found l q f (n, at, e))
    | inr e ↦ rw e f
  ]

  mutual
    unfolding visit_paths_inner child_node Sound find_field has_name

    walk-Sound :
        (path : SchemaPath) (n : SchemaNode) (l : List SchemaPath)
        → node_at_path root path ≡ some n
        → Sound n
        → Found l
        → Found (visit_paths_inner push_claimable path n l)
    walk-Sound path (node nullable kind) l at sound f =
        kind_sound path nullable kind _ at sound.1 (called path (node nullable kind) l at f)

    kind_sound :
        (path : SchemaPath) (nullable : Bool) (kind : SchemaKind) (l : List SchemaPath)
        → node_at_path root path ≡ some (node nullable kind)
        → SoundKind kind
        → Found l
        → Found (visit_kind push_claimable path kind l)
    kind_sound path nullable (array_kind items) l at sound f =
        let c =
          child_node_at root path (node nullable (array_kind items)) array_element items at refl in
        walk-Sound (path ++ array_element ∷ []) items l c sound f
    kind_sound path nullable (map_kind values) l at sound f =
        let c =
          child_node_at root path (node nullable (map_kind values)) map_value values at refl in
        walk-Sound (path ++ map_value ∷ []) values l c sound f
    kind_sound path nullable (record_kind fields) l at sound f =
        fields_sound path [] fields l
          (λ name w found.
            child_node_at root path (node nullable (record_kind fields)) (field_segment name) w at
              found)
          sound f
    kind_sound path nullable (custom_kind type_id value) l at sound f =
        let c =
          child_node_at root path (node nullable (custom_kind type_id value)) logical_segment value
            at refl in
        walk-Sound (path ++ logical_segment ∷ []) value l c sound.1 f
    kind_sound path nullable _ l at sound f = f

    fields_sound :
        (path : SchemaPath) (names : List Text) (fields : SchemaFields) (l : List SchemaPath)
        → ((name : Text) (w : SchemaNode)
            → find_field name fields ≡ some w
            → node_at_path root (path ++ field_segment name ∷ []) ≡ some w)
        → SoundFields names fields
        → Found l
        → Found (visit_fields push_claimable path fields l)
    fields_sound path names no_fields l at sound f = f
    fields_sound path names (schema_field name schema rest) l at sound f =
        let here = at name schema (rw ((text_iff name name).1 refl)) in
        fields_sound path (name ∷ names) rest _
          (λ k w found. at k w (rw (other_field name k names rest w sound.3 found) found)) sound.3
          (walk-Sound (path ++ field_segment name ∷ []) schema l here sound.2 f)

-- The paths that a reductor may claim in a sound schema are just those that lead to a record or to a
-- custom node.
pub reductor_claim_paths_iff :
    (schema : SchemaIr) (p : SchemaPath)
    → Sound schema.root
    → Listed p (reductor_claim_paths schema)
      ↔ ((m : SchemaNode) × (node_at_path schema.root p ≡ some m) × (is_claimable m ≡ true))
unfolding reductor_claim_paths visit_paths node_at_path
reductor_claim_paths_iff schema p sound = (
  λ h. walk-Sound schema.root [] schema.root [] refl sound (λ q k. absurd (nothing-Listed k)) p h,
  λ c.
      walk_reaches push_claimable (Listed p) push_keeps p c.0 (λ l. push_adds p c.0 l c.2) []
        schema.root p [] refl c.1,
)
