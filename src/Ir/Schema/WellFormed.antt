-- ===== src/Ir/Schema/WellFormed.antt =====
-- What validation of a schema decides, said without a walk: its height, its number of fields, and what
-- must hold at each node.
use s.Prelude.{List, [], false, is_empty, max, suc, ℕ, ◌&&◌, ◌+◌, ◌∷◌, ◌≡◌, ◌≤◌, nat_eq, string_eq}
use s.Ir.{BinaryIrLimits, Text, has_name, schema_ir_version}
use s.Ir.Schema.{
  SchemaFields, SchemaKind, SchemaNode, array_kind, count_fields, custom_kind, decimal_kind,
  is_null, map_kind, no_fields, node, record_kind, schema_field, SchemaIr,
}

unfoldable mutual
  unfolding count_fields

  -- The number of containers on the longest way down.
  pub height : SchemaNode → ℕ
  height (node nullable kind) = height_kind kind

  pub height_kind : SchemaKind → ℕ
  height_kind (array_kind items) = suc (height items)
  height_kind (map_kind values) = suc (height values)
  height_kind (record_kind fields) = height_fields fields
  height_kind (custom_kind type_id value) = suc (height value)
  height_kind _ = 0

  pub height_fields : SchemaFields → ℕ
  height_fields no_fields = 0
  height_fields (schema_field name schema rest) = max (suc (height schema)) (height_fields rest)

unfoldable mutual
  unfolding count_fields

  -- The number of record fields in the whole schema.
  pub total : SchemaNode → ℕ
  total (node nullable kind) = total_kind kind

  pub total_kind : SchemaKind → ℕ
  total_kind (array_kind items) = total items
  total_kind (map_kind values) = total values
  total_kind (record_kind fields) = count_fields fields + total_fields fields
  total_kind (custom_kind type_id value) = total value
  total_kind _ = 0

  pub total_fields : SchemaFields → ℕ
  total_fields no_fields = 0
  total_fields (schema_field name schema rest) = total schema + total_fields rest

abbrev pub NewName : Text → List Text → Type 0
NewName name names = has_name name names ≡ false

unfoldable mutual
  pub Sound : SchemaNode → Type 0
  Sound (node nullable kind) = ((nullable && is_null kind) ≡ false) × SoundKind kind

  pub SoundKind : SchemaKind → Type 0
  SoundKind (array_kind items) = Sound items
  SoundKind (map_kind values) = Sound values
  SoundKind (record_kind fields) = SoundFields [] fields
  SoundKind (decimal_kind precision scale) = (1 ≤ precision) × (scale ≤ precision)
  SoundKind (custom_kind type_id value) = (is_empty type_id ≡ false) × Sound value
  SoundKind _ = Unit

  -- The names are new, and not empty.
  pub SoundFields : List Text → SchemaFields → Type 0
  SoundFields names no_fields = Unit
  SoundFields names (schema_field name schema rest) =
      (is_empty name ≡ false) × NewName name names × Sound schema × SoundFields (name ∷ names) rest

abbrev pub Usable : BinaryIrLimits → Type 0
Usable limits =
    (1 ≤ limits.max_encoded_schema_bytes)
    × (1 ≤ limits.max_fields)
    × (1 ≤ limits.max_nesting_depth)
    × (1 ≤ limits.max_encoded_value_bytes)

-- No document has another version, and the schema keeps within the limits.
abbrev pub WellFormed : BinaryIrLimits → SchemaIr → Type 0
WellFormed limits schema =
    (schema.version ≡ schema_ir_version)
    × (height schema.root ≤ limits.max_nesting_depth)
    × (total schema.root ≤ limits.max_fields)
    × Sound schema.root
