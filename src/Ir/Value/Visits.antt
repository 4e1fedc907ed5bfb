-- ===== src/Ir/Value/Visits.antt =====
-- The calls that a visitor gets are typed (binary_ir.rs, `visit_claim_matches`).
use s.Prelude.{
  Option, [], none, refl, some, subst, sym, ◌++◌, ◌∷◌, ◌≡◌, nat_eq, string_eq, Bool-cases, List,
  arith, if◌then◌else◌, inl, inr, suc, ℕ, ◌+◌,
}
use s.Ir.Schema.{SchemaNode, child_node, node_at_path, SchemaFields, find_field}
use s.Ir.{
  SchemaPath, Text, ValuePath, array_element, array_index, field_of, field_segment, logical_segment,
  logical_value, map_key, map_value, same_text, text_iff,
}
use s.Ir.Value.WellFormed.{SoundValue, Ascending, SoundItems, SoundMembers}
use s.Ir.Value.{
  Value, child_value, value_at_path, visit_matches, Entries, Members, find_entry, find_member,
  nth_item, visit_claim_matches, visit_entries, visit_items, visit_member, ItemList,
}
use s.Ir.Value.Claims.{child_at, other_key}
use s.Ir.Schema.Lookup.{node_found, root_node}
use s.Ir.Value.Typing.{
  of_array, of_custom, of_map, of_record, ◌∶ᵛ◌, no_entry, no_field, none_left, one_more, with_entry,
  with_field, ◌∶ᵉ◌, ◌∶ᶠ◌, ◌∶ⁱ◌,
}
use s.Ir.Checked.{some-injective}

module _ (parse_uuid : Text → Option Text) (root : Value) (target : SchemaNode) {S : Type 0}
    (P : S → Type 0) (visitor : ValuePath → Value → S → S)
    (called : (path : ValuePath) (v : Value) (state : S)
      → value_at_path root path ≡ some v
      → v ∶ᵛ target
      → P state
      → P (visitor path v state)) where
  mutual
    unfolding visit_matches SoundValue child_value child_node

    visits :
        (claim : SchemaPath) (path : ValuePath) (v : Value) (n : SchemaNode) (state : S)
        → value_at_path root path ≡ some v
        → SoundValue parse_uuid v
        → v ∶ᵛ n
        → node_at_path n claim ≡ some target
        → P state
        → P (visit_matches visitor claim path v state)
    visits [] path v n state at sound typed target_at p =
        called path v state at (subst (λ m. v ∶ᵛ m) (root_node n target target_at) typed) p
    visits (field_segment name ∷ claim) path _ _ state at sound (of_record fields) target_at p =
        let c = node_found _ (field_segment name) claim target target_at in
        visits_member name claim path [] _ _ c.0 state
          (λ w found. child_at root path _ (field_of name) w at found) sound fields c.1 c.2 p
    visits (array_element ∷ claim) path _ _ state at sound (of_array items) target_at p =
        let c = node_found _ array_element claim target target_at in
        visits_items claim path 0 _ _ state
          (λ i w found.
            subst (λ j. value_at_path root (path ++ array_index j ∷ []) ≡ some w) (omega arith)
              (child_at root path _ (array_index i) w at found))
          sound items
          (subst (λ m. node_at_path m claim ≡ some target) (some-injective (sym c.1)) c.2) p
    visits (map_value ∷ claim) path _ _ state at sound (of_map entries) target_at p =
        let c = node_found _ map_value claim target target_at in
        visits_entries claim path none _ _ state
          (λ k w found. child_at root path _ (map_key k) w at found) sound entries
          (subst (λ m. node_at_path m claim ≡ some target) (some-injective (sym c.1)) c.2) p
    visits (logical_segment ∷ claim) path _ _ state at sound (of_custom {value = v} inner) target_at
          p =
        let c = node_found _ logical_segment claim target target_at in
        visits claim (path ++ logical_value ∷ []) v _ state
          (child_at root path _ logical_value v at refl) sound.1 inner
          (subst (λ m. node_at_path m claim ≡ some target) (some-injective (sym c.1)) c.2) p
    visits _ path v n state at sound typed target_at p = p

    visits_member :
        (name : Text) (claim : SchemaPath) (path : ValuePath) (names : List Text) (l : Members)
        (fields : SchemaFields) (child : SchemaNode) (state : S)
        → ((w : Value)
            → find_member name l ≡ some w
            → value_at_path root (path ++ field_of name ∷ []) ≡ some w)
        → SoundMembers parse_uuid names l
        → l ∶ᶠ fields
        → find_field name fields ≡ some child
        → node_at_path child claim ≡ some target
        → P state
        → P (visit_member visitor name claim path l state)
    visits_member name claim path names _ _ child state at sound no_field f target_at p = p
    visits_member name claim path names _ _ child state at sound
          (with_field {name = k} {x} {rest} {schema} {fields} typed more) f target_at p =
        elim (Bool-cases (same_text k name)) [
          | inl e ↦
              let g : some schema ≡ some child =
                subst (λ b. (if b then some schema else find_field name fields) ≡ some child) e f in
              let t : node_at_path schema claim ≡ some target =
                subst (λ m. node_at_path m claim ≡ some target) (some-injective (sym g))
                  target_at in
              let a = at x (rw e) in
              let r =
                visits claim (path ++ field_of name ∷ []) x schema state a sound.2 typed t p in
              rw e r
          | inr e ↦
              let g : find_field name fields ≡ some child =
                subst (λ b. (if b then some schema else find_field name fields) ≡ some child) e f in
              let r =
                visits_member name claim path (k ∷ names) rest fields child state
                  (λ w found. at w (rw e found)) sound.3 more g target_at p in
              rw e r
        ]

    visits_items :
        (claim : SchemaPath) (path : ValuePath) (n : ℕ) (l : ItemList) (schema : SchemaNode)
        (state : S)
        → ((i : ℕ) (w : Value)
            → nth_item i l ≡ some w
            → value_at_path root (path ++ array_index (n + i) ∷ []) ≡ some w)
        → SoundItems parse_uuid l
        → l ∶ⁱ schema
        → node_at_path schema claim ≡ some target
        → P state
        → P (visit_items visitor claim path n l state)
    visits_items claim path n _ schema state at sound none_left target_at p = p
    visits_items claim path n _ schema state at sound (one_more {x} {rest} typed more) target_at p =
        let first =
          subst (λ i. value_at_path root (path ++ array_index i ∷ []) ≡ some x) (omega arith)
            (at 0 x refl) in
        let next =
          visits claim (path ++ array_index n ∷ []) x schema state first sound.0 typed target_at
            p in
        visits_items claim path (suc n) rest schema _
          (λ i w found.
            subst (λ j. value_at_path root (path ++ array_index j ∷ []) ≡ some w) (omega arith)
              (at (suc i) w found))
          sound.1 more target_at next

    visits_entries :
        (claim : SchemaPath) (path : ValuePath) (previous : Option Text) (l : Entries)
        (schema : SchemaNode) (state : S)
        → ((k : Text) (w : Value)
            → find_entry k l ≡ some w
            → value_at_path root (path ++ map_key k ∷ []) ≡ some w)
        → Ascending parse_uuid previous l
        → l ∶ᵉ schema
        → node_at_path schema claim ≡ some target
        → P state
        → P (visit_entries visitor claim path l state)
    visits_entries claim path previous _ schema state at sound no_entry target_at p = p
    visits_entries claim path previous _ schema state at sound
          (with_entry {key} {x} {rest} typed more) target_at p =
        let first = at key x (rw ((text_iff key key).1 refl)) in
        let next =
          visits claim (path ++ map_key key ∷ []) x schema state first sound.1 typed target_at p in
        visits_entries claim path (some key) rest schema _
          (λ k w found. at k w (rw (other_key parse_uuid key k rest w sound.2 found) found)) sound.2
          more target_at next

  -- A visitor is called with values that are where their paths say and of the type of the node that the
  -- claim names, when the visited value is of the schema's type and well formed: whatever is kept by all
  -- such calls is kept by the visit.
  pub visits_typed :
      (claim : SchemaPath) (n : SchemaNode) (state : S)
      → SoundValue parse_uuid root
      → root ∶ᵛ n
      → node_at_path n claim ≡ some target
      → P state
      → P (visit_claim_matches visitor root claim state)
  unfolding visit_claim_matches value_at_path
  visits_typed claim n state sound typed target_at p =
      visits claim [] root n state refl sound typed target_at p
