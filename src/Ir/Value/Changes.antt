-- ===== src/Ir/Value/Changes.antt =====
-- What a visitor that changes values leaves of the type of the whole (binary_ir.rs,
-- `visit_claim_matches_mut`).
use s.Prelude.{
  Bool-cases, [], if◌then◌else◌, inl, inr, some, subst, suc, sym, ℕ, ◌++◌, ◌∷◌, ◌≡◌, nat_eq,
  string_eq,
}
use s.Ir.Value.{
  Entries, Members, Value, visit_claim_matches_mut, visit_entries_mut, visit_items_mut,
  visit_matches_mut, visit_member_mut, ItemList,
}
use s.Ir.Schema.{SchemaFields, SchemaNode, child_node, find_field, node_at_path}
use s.Ir.{
  SchemaPath, Text, ValuePath, array_element, array_index, field_of, field_segment, logical_segment,
  logical_value, map_key, map_value, same_text,
}
use s.Ir.Value.Typing.{
  no_entry, no_field, none_left, of_array, of_custom, of_map, of_record, one_more, with_entry,
  with_field, ◌∶ᵉ◌, ◌∶ᵛ◌, ◌∶ᶠ◌, ◌∶ⁱ◌,
}
use s.Ir.Schema.Lookup.{node_found, root_node}
use s.Ir.Checked.{some-injective}

module _ (target : SchemaNode) {S : Type 0} (visitor : ValuePath → Value → S → Value × S)
    (keeps : (path : ValuePath) (v : Value) (state : S)
      → v ∶ᵛ target
      → (visitor path v state).0 ∶ᵛ target) where
  mutual
    unfolding visit_matches_mut child_node

    changes :
        (claim : SchemaPath) (path : ValuePath) (v : Value) (n : SchemaNode) (state : S)
        → v ∶ᵛ n
        → node_at_path n claim ≡ some target
        → (visit_matches_mut visitor claim path v state).0 ∶ᵛ n
    changes [] path v n state typed target_at =
        let e = root_node n target target_at in
        subst (λ m. (visitor path v state).0 ∶ᵛ m) (sym e)
          (keeps path v state (subst (λ m. v ∶ᵛ m) e typed))
    changes (field_segment name ∷ claim) path _ _ state (of_record fields) target_at =
        let c = node_found _ (field_segment name) claim target target_at in
        of_record (changes_member name claim path _ _ c.0 state fields c.1 c.2)
    changes (array_element ∷ claim) path _ _ state (of_array items) target_at =
        let c = node_found _ array_element claim target target_at in
        of_array (
          changes_items claim path 0 _ _ state items
            (subst (λ m. node_at_path m claim ≡ some target) (some-injective (sym c.1)) c.2))
    changes (map_value ∷ claim) path _ _ state (of_map entries) target_at =
        let c = node_found _ map_value claim target target_at in
        of_map (
          changes_entries claim path _ _ state entries
            (subst (λ m. node_at_path m claim ≡ some target) (some-injective (sym c.1)) c.2))
    changes (logical_segment ∷ claim) path _ _ state (of_custom {value = v} inner) target_at =
        let c = node_found _ logical_segment claim target target_at in
        of_custom (
          changes claim (path ++ logical_value ∷ []) v _ state inner
            (subst (λ m. node_at_path m claim ≡ some target) (some-injective (sym c.1)) c.2))
    changes _ path v n state typed target_at = typed

    changes_member :
        (name : Text) (claim : SchemaPath) (path : ValuePath) (l : Members) (fields : SchemaFields)
        (child : SchemaNode) (state : S)
        → l ∶ᶠ fields
        → find_field name fields ≡ some child
        → node_at_path child claim ≡ some target
        → (visit_member_mut visitor name claim path l state).0 ∶ᶠ fields
    changes_member name claim path _ _ child state no_field f target_at = no_field
    changes_member name claim path _ _ child state
          (with_field {name = k} {x} {rest} {schema} {fields} typed more) f target_at =
        elim (Bool-cases (same_text k name)) [
          | inl e ↦
              let g : some schema ≡ some child =
                subst (λ b. (if b then some schema else find_field name fields) ≡ some child) e f in
              let t : node_at_path schema claim ≡ some target =
                subst (λ m. node_at_path m claim ≡ some target) (some-injective (sym g))
                  target_at in
              let r = changes claim (path ++ field_of name ∷ []) x schema state typed t in
              rw e (with_field r more)
          | inr e ↦
              let g : find_field name fields ≡ some child =
                subst (λ b. (if b then some schema else find_field name fields) ≡ some child) e f in
              rw e (
                with_field typed
                  (changes_member name claim path rest fields child state more g target_at))
        ]

    changes_items :
        (claim : SchemaPath) (path : ValuePath) (n : ℕ) (l : ItemList) (schema : SchemaNode)
        (state : S)
        → l ∶ⁱ schema
        → node_at_path schema claim ≡ some target
        → (visit_items_mut visitor claim path n l state).0 ∶ⁱ schema
    changes_items claim path n _ schema state none_left target_at = none_left
    changes_items claim path n _ schema state (one_more {x} {rest} typed more) target_at =
        one_more (changes claim (path ++ array_index n ∷ []) x schema state typed target_at)
          (changes_items claim path (suc n) rest schema _ more target_at)

    changes_entries :
        (claim : SchemaPath) (path : ValuePath) (l : Entries) (schema : SchemaNode) (state : S)
        → l ∶ᵉ schema
        → node_at_path schema claim ≡ some target
        → (visit_entries_mut visitor claim path l state).0 ∶ᵉ schema
    changes_entries claim path _ schema state no_entry target_at = no_entry
    changes_entries claim path _ schema state (with_entry {key} {x} {rest} typed more) target_at =
        with_entry (changes claim (path ++ map_key key ∷ []) x schema state typed target_at)
          (changes_entries claim path rest schema _ more target_at)

  -- A visitor that gives values of the type of the node that the claim names keeps the whole value of
  -- its type, whatever it does to the values that the claim selects.
  pub changes_typed :
      (claim : SchemaPath) (v : Value) (n : SchemaNode) (state : S)
      → v ∶ᵛ n
      → node_at_path n claim ≡ some target
      → (visit_claim_matches_mut visitor v claim state).0 ∶ᵛ n
  unfolding visit_claim_matches_mut
  changes_typed claim v n state typed target_at = changes claim [] v n state typed target_at
