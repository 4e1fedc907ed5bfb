-- ===== src/Ir/Schema/Reached.antt =====
-- The walk over a schema reaches every node that a path leads to (binary_ir.rs, `visit_paths_inner`).
use s.Prelude.{
  Bool, Bool-cases, [], append-nil, append_assoc, if◌then◌else◌, inl, inr, some, subst, sym, ◌++◌,
  ◌∙◌, ◌∷◌, ◌≡◌, nat_eq, string_eq,
}
use s.Ir.Schema.{
  SchemaFields, SchemaKind, SchemaNode, array_kind, child_node, custom_kind, find_field, map_kind,
  no_fields, node, node_at_path, record_kind, schema_field, visit_fields, visit_kind,
  visit_paths_inner,
}
use s.Ir.{
  SchemaPath, SchemaPathSegment, Text, array_element, field_segment, logical_segment, map_value,
  same_text, text_iff,
}
use s.Ir.Schema.Lookup.{node_found, root_node}
use s.Ir.Checked.{some-injective}

module _ {S : Type 0} (visitor : SchemaPath → SchemaNode → S → S) (P : S → Type 0)
    (keeps : (path : SchemaPath) (n : SchemaNode) (state : S)
      → P state
      → P (visitor path n state)) where
  -- What every call keeps, the walk keeps.
  mutual
    unfolding visit_paths_inner

    walk_keeps :
        (path : SchemaPath) (n : SchemaNode) (state : S)
        → P state
        → P (visit_paths_inner visitor path n state)
    walk_keeps path (node nullable kind) state h =
        kind_keeps path kind _ (keeps path (node nullable kind) state h)

    kind_keeps :
        (path : SchemaPath) (kind : SchemaKind) (state : S)
        → P state
        → P (visit_kind visitor path kind state)
    kind_keeps path (array_kind items) state h =
        walk_keeps (path ++ array_element ∷ []) items state h
    kind_keeps path (map_kind values) state h = walk_keeps (path ++ map_value ∷ []) values state h
    kind_keeps path (record_kind l) state h = fields_keep path l state h
    kind_keeps path (custom_kind type_id value) state h =
        walk_keeps (path ++ logical_segment ∷ []) value state h
    kind_keeps path _ state h = h

    fields_keep :
        (path : SchemaPath) (l : SchemaFields) (state : S)
        → P state
        → P (visit_fields visitor path l state)
    fields_keep path no_fields state h = h
    fields_keep path (schema_field name schema rest) state h =
        fields_keep path rest _ (walk_keeps (path ++ field_segment name ∷ []) schema state h)

  module _ (target : SchemaPath) (m : SchemaNode)
      (holds : (state : S) → P (visitor target m state)) where
    mutual
      unfolding visit_paths_inner child_node find_field

      pub walk_reaches :
          (path : SchemaPath) (n : SchemaNode) (q : SchemaPath) (state : S)
          → path ++ q ≡ target
          → node_at_path n q ≡ some m
          → P (visit_paths_inner visitor path n state)
      walk_reaches path (node nullable kind) [] state e at =
          let here : path ≡ target = sym (append-nil path) ∙ e in
          let same = root_node (node nullable kind) m at in
          let called =
            subst (λ x. P (visitor x (node nullable kind) state)) (sym here)
              (subst (λ x. P (visitor target x state)) (sym same) (holds state)) in
          kind_keeps path kind _ called
      walk_reaches path (node nullable kind) (s ∷ q) state e at =
          let d = node_found (node nullable kind) s q m at in
          kind_reaches path nullable kind s q d.0 _ (append_assoc path (s ∷ []) q ∙ e) d.1 d.2

      kind_reaches :
          (path : SchemaPath) (nullable : Bool) (kind : SchemaKind) (s : SchemaPathSegment)
          (q : SchemaPath) (child : SchemaNode) (state : S)
          → (path ++ s ∷ []) ++ q ≡ target
          → child_node (node nullable kind) s ≡ some child
          → node_at_path child q ≡ some m
          → P (visit_kind visitor path kind state)
      kind_reaches path nullable (array_kind items) array_element q child state e d at =
          walk_reaches (path ++ array_element ∷ []) items q state e
            (subst (λ x. node_at_path x q ≡ some m) (some-injective (sym d)) at)
      kind_reaches path nullable (map_kind values) map_value q child state e d at =
          walk_reaches (path ++ map_value ∷ []) values q state e
            (subst (λ x. node_at_path x q ≡ some m) (some-injective (sym d)) at)
      kind_reaches path nullable (record_kind l) (field_segment name) q child state e d at =
          fields_reach path l name q child state e d at
      kind_reaches path nullable (custom_kind type_id value) logical_segment q child state e d at =
          walk_reaches (path ++ logical_segment ∷ []) value q state e
            (subst (λ x. node_at_path x q ≡ some m) (some-injective (sym d)) at)
      kind_reaches path nullable _ _ q child state e d at = cc

      fields_reach :
          (path : SchemaPath) (l : SchemaFields) (name : Text) (q : SchemaPath) (child : SchemaNode)
          (state : S)
          → (path ++ field_segment name ∷ []) ++ q ≡ target
          → find_field name l ≡ some child
          → node_at_path child q ≡ some m
          → P (visit_fields visitor path l state)
      fields_reach path no_fields name q child state e d at = cc
      fields_reach path (schema_field k schema rest) name q child state e d at =
          elim (Bool-cases (same_text k name)) [
            | inl z ↦
                let g : some schema ≡ some child =
                  subst (λ b. (if b then some schema else find_field name rest) ≡ some child) z d in
                let f : (path ++ field_segment k ∷ []) ++ q ≡ target =
                  subst (λ t. (path ++ field_segment t ∷ []) ++ q ≡ target)
                    (sym ((text_iff k name).0 z)) e in
                fields_keep path rest _ (
                  walk_reaches (path ++ field_segment k ∷ []) schema q state f
                    (subst (λ x. node_at_path x q ≡ some m) (some-injective (sym g)) at))
            | inr z ↦
                let g : find_field name rest ≡ some child =
                  subst (λ b. (if b then some schema else find_field name rest) ≡ some child) z d in
                fields_reach path rest name q child _ e g at
          ]
