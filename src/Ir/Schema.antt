-- ===== src/Ir/Schema.antt =====
-- Schemas (binary_ir.rs, `SchemaIr`, `SchemaNode` and `SchemaKind`): validation, lookup by a path and the
-- walk over every node. The path that the source pushes to and pops from is an argument, and what the
-- closures change is a state that they pass on.
pub mod WellFormed
pub mod Decided
pub mod Lookup
pub mod Claims
pub mod Reached
pub mod Claimed
use s.Prelude.{
  ◌>>=◌, ◌>>◌, Bool, List, Option, Result, [], eqb, false, if◌then◌else◌, is_empty, ltb, none, ok,
  some, suc, true, ℕ, ◌&&◌, ◌++◌, ◌+◌, ◌∷◌, nat_eq, string_eq,
}
use s.Ir.{
  BinaryIrLimits, S4Error, SchemaPath, SchemaPathSegment, Text, a_schema, array_element,
  count_overflow, duplicate_name, empty_name, empty_type_id, field_segment, has_name, large_scale,
  logical_segment, map_value, nullable_null, same_text, schema_error, schema_ir_version, too_deep,
  too_many_fields, validate_limits, validate_version, zero_precision, refuse, usize_max,
}

-- `Vec<SchemaField>` is a list of its own here, since the schema holds it.
mutual
  pub data SchemaNode : Type 0 where
    node : Bool → SchemaKind → SchemaNode

  pub data SchemaKind : Type 0 where
    null_kind boolean_kind i32_kind i64_kind f32_kind f64_kind string_kind bytes_kind : SchemaKind
    array_kind : SchemaNode → SchemaKind
    map_kind : SchemaNode → SchemaKind
    record_kind : SchemaFields → SchemaKind
    date_kind time_kind timestamp_kind uuid_kind : SchemaKind
    decimal_kind : ℕ → ℕ → SchemaKind
    custom_kind : Text → SchemaNode → SchemaKind

  pub data SchemaFields : Type 0 where
    no_fields : SchemaFields
    schema_field : Text → SchemaNode → SchemaFields → SchemaFields

pub record SchemaIr : Type 0 where
  pub version : ℕ
  pub root : SchemaNode

unfoldable pub new_schema : SchemaNode → SchemaIr
new_schema root = record { version = schema_ir_version; root = root }

unfoldable pub count_fields : SchemaFields → ℕ
count_fields no_fields = 0
count_fields (schema_field name schema rest) = suc (count_fields rest)

abbrev pub is_null : SchemaKind → Bool
is_null null_kind = true
is_null _ = false

-- `SchemaNode::validate_inner`. The count of fields goes in and comes out.
unfoldable mutual
  unfolding count_fields has_name

  pub validate_node : BinaryIrLimits → ℕ → SchemaPath → SchemaNode → ℕ → Result S4Error ℕ
  validate_node limits depth path (node nullable kind) count = do
    refuse (ltb limits.max_nesting_depth depth)
        (schema_error path (too_deep depth limits.max_nesting_depth))
    refuse (nullable && is_null kind) (schema_error path nullable_null)
    validate_kind limits depth path kind count

  pub validate_kind : BinaryIrLimits → ℕ → SchemaPath → SchemaKind → ℕ → Result S4Error ℕ
  validate_kind limits depth path (array_kind items) count =
      validate_node limits (depth + 1) (path ++ array_element ∷ []) items count
  validate_kind limits depth path (map_kind values) count =
      validate_node limits (depth + 1) (path ++ map_value ∷ []) values count
  validate_kind limits depth path (record_kind fields) count = do
    let total = count + count_fields fields
    refuse (ltb usize_max total) (schema_error path count_overflow)
    refuse (ltb limits.max_fields total)
        (schema_error path (too_many_fields total limits.max_fields))
    validate_fields limits depth path [] fields total
  validate_kind limits depth path (decimal_kind precision scale) count = do
    refuse (eqb precision 0) (schema_error path zero_precision)
    refuse (ltb precision scale) (schema_error path (large_scale scale precision))
    ok count
  validate_kind limits depth path (custom_kind type_id value) count = do
    refuse (is_empty type_id) (schema_error path empty_type_id)
    validate_node limits (depth + 1) (path ++ logical_segment ∷ []) value count
  validate_kind limits depth path _ count = ok count

  -- The loop over the fields, with the names seen so far.
  pub validate_fields :
      BinaryIrLimits → ℕ → SchemaPath → List Text → SchemaFields → ℕ → Result S4Error ℕ
  validate_fields limits depth path names no_fields count = ok count
  validate_fields limits depth path names (schema_field name schema rest) count = do
    refuse (is_empty name) (schema_error path empty_name)
    refuse (has_name name names) (schema_error path (duplicate_name name))
    let go = validate_fields limits depth path (name ∷ names) rest
    after ← validate_node limits (depth + 1) (path ++ field_segment name ∷ []) schema count
    go after

-- `SchemaIr::validate`
unfoldable pub validate_schema : BinaryIrLimits → SchemaIr → Result S4Error Unit
unfolding validate_node validate_limits validate_version
validate_schema limits schema = do
  validate_limits limits
  validate_version a_schema schema.version schema_ir_version
  _ ← validate_node limits 0 [] schema.root 0
  ok tt

-- `find(|field| field.name == *name)`
unfoldable pub find_field : Text → SchemaFields → Option SchemaNode
find_field name no_fields = none
find_field name (schema_field x schema rest) =
    let later = find_field name rest in if same_text x name then some schema else later

-- One round of the loop of `node_at_path`.
unfoldable pub child_node : SchemaNode → SchemaPathSegment → Option SchemaNode
unfolding find_field
child_node (node nullable (array_kind items)) array_element = some items
child_node (node nullable (map_kind values)) map_value = some values
child_node (node nullable (record_kind fields)) (field_segment name) = find_field name fields
child_node (node nullable (custom_kind type_id value)) logical_segment = some value
child_node _ _ = none

unfoldable pub node_at_path : SchemaNode → SchemaPath → Option SchemaNode
unfolding child_node
node_at_path schema [] = some schema
node_at_path schema (segment ∷ rest) = elim (child_node schema segment) [
  | none ↦ none
  | some child ↦ node_at_path child rest
]

module _ {S : Type 0} (visitor : SchemaPath → SchemaNode → S → S) where
  -- `visit_paths_inner`
  unfoldable mutual
    pub visit_paths_inner : SchemaPath → SchemaNode → S → S
    visit_paths_inner path (node nullable kind) state =
        visit_kind path kind (visitor path (node nullable kind) state)

    pub visit_kind : SchemaPath → SchemaKind → S → S
    visit_kind path (array_kind items) state =
        visit_paths_inner (path ++ array_element ∷ []) items state
    visit_kind path (map_kind values) state =
        visit_paths_inner (path ++ map_value ∷ []) values state
    visit_kind path (record_kind fields) state = visit_fields path fields state
    visit_kind path (custom_kind type_id value) state =
        visit_paths_inner (path ++ logical_segment ∷ []) value state
    visit_kind path _ state = state

    pub visit_fields : SchemaPath → SchemaFields → S → S
    visit_fields path no_fields state = state
    visit_fields path (schema_field name schema rest) state =
        visit_fields path rest (visit_paths_inner (path ++ field_segment name ∷ []) schema state)

  unfoldable pub visit_paths : SchemaNode → S → S
  unfolding visit_paths_inner
  visit_paths schema state = visit_paths_inner [] schema state

-- `matches!(node.kind, SchemaKind::Record { .. } | SchemaKind::Custom { .. })`
abbrev pub is_claimable : SchemaNode → Bool
is_claimable (node _ (record_kind _)) = true
is_claimable (node _ (custom_kind _ _)) = true
is_claimable _ = false

unfoldable pub push_claimable : SchemaPath → SchemaNode → List SchemaPath → List SchemaPath
push_claimable path schema paths = if is_claimable schema then paths ++ path ∷ [] else paths

unfoldable pub reductor_claim_paths : SchemaIr → List SchemaPath
unfolding visit_paths push_claimable
reductor_claim_paths schema = visit_paths push_claimable schema.root []
