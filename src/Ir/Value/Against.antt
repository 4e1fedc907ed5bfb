-- ===== src/Ir/Value/Against.antt =====
-- A value checked against its schema (binary_ir.rs, `validate_value_against_schema`,
-- `ValueIr::validate`), and what it is for a value to be of a schema's type.
use s.Prelude.{
  ◌>>=◌, ◌>>◌, Result, [], eqb, err, ltb, not, ok, suc, ℕ, ◌++◌, ◌||◌, ◌∷◌, nat_eq, string_eq,
  Option,
}
use s.Ir.Value.{
  Entries, Members, Value, array_value, boolean_value, bytes_value, custom_value, date_value,
  decimal_value, entry, f32_value, f64_value, i32_value, i64_value, item, map_entries, member,
  no_entries, no_items, no_members, null_value, record_value, string_value, time_value,
  timestamp_value, uuid_value, ItemList, ValueIr,
}
use s.Ir.{
  S4Error, ValuePath, array_index, field_count, field_mismatch, field_of, large_precision,
  logical_value, map_key, required_null, same_text, scale_mismatch, type_id_mismatch, type_mismatch,
  value_error, refuse, BinaryIrLimits, Text, validate_limits, validate_version, value_ir_version,
  a_value,
}
use s.Ir.Schema.{
  SchemaFields, SchemaNode, array_kind, boolean_kind, bytes_kind, count_fields, custom_kind,
  date_kind, decimal_kind, f32_kind, f64_kind, i32_kind, i64_kind, is_null, map_kind, node,
  record_kind, schema_field, string_kind, time_kind, timestamp_kind, uuid_kind, SchemaIr,
  validate_schema,
}
use s.Ir.Value.Check.{kind_name, value_name, well_spelled, validate_value}
use s.Ir.Decimals.{parse_decimal}

unfoldable pub count_members : Members → ℕ
count_members no_members = 0
count_members (member name x rest) = suc (count_members rest)

unfoldable mutual
  unfolding count_members count_fields parse_decimal

  pub against_schema : ValuePath → Value → SchemaNode → Result S4Error Unit
  against_schema path null_value (node nullable kind) =
      refuse (not (nullable || is_null kind)) (value_error path required_null)
  against_schema path (boolean_value _) (node _ boolean_kind) = ok tt
  against_schema path (i32_value _) (node _ i32_kind) = ok tt
  against_schema path (i64_value _) (node _ i64_kind) = ok tt
  against_schema path (f32_value _) (node _ f32_kind) = ok tt
  against_schema path (f64_value _) (node _ f64_kind) = ok tt
  against_schema path (string_value _) (node _ string_kind) = ok tt
  against_schema path (bytes_value _) (node _ bytes_kind) = ok tt
  against_schema path (date_value _) (node _ date_kind) = ok tt
  against_schema path (time_value _) (node _ time_kind) = ok tt
  against_schema path (timestamp_value _) (node _ timestamp_kind) = ok tt
  against_schema path (uuid_value _) (node _ uuid_kind) = ok tt
  against_schema path (array_value items) (node _ (array_kind schema)) =
      against_items path 0 items schema
  against_schema path (map_entries entries) (node _ (map_kind schema)) =
      against_entries path entries schema
  against_schema path (record_value members) (node _ (record_kind fields)) = do
    refuse (not (eqb (count_members members) (count_fields fields)))
        (value_error path (field_count (count_members members) (count_fields fields)))
    against_fields path members fields
  against_schema path (decimal_value value) (node _ (decimal_kind precision scale)) = do
    decimal ← well_spelled path (parse_decimal value)
    refuse (not (eqb decimal.scale scale)) (value_error path (scale_mismatch decimal.scale scale))
    refuse (ltb precision decimal.precision)
        (value_error path (large_precision decimal.precision precision))
  against_schema path (custom_value type_id value) (node _ (custom_kind schema_type_id schema)) = do
    refuse (not (same_text type_id schema_type_id))
        (value_error path (type_id_mismatch type_id schema_type_id))
    against_schema (path ++ logical_value ∷ []) value schema
  against_schema path value (node _ kind) =
      err (value_error path (type_mismatch (value_name value) (kind_name kind)))

  pub against_items : ValuePath → ℕ → ItemList → SchemaNode → Result S4Error Unit
  against_items path n no_items schema = ok tt
  against_items path n (item x rest) schema = do
    against_schema (path ++ array_index n ∷ []) x schema
    against_items path (suc n) rest schema

  pub against_entries : ValuePath → Entries → SchemaNode → Result S4Error Unit
  against_entries path no_entries schema = ok tt
  against_entries path (entry key x rest) schema = do
    against_schema (path ++ map_key key ∷ []) x schema
    against_entries path rest schema

  -- The loop over `zip`, which ends with the shorter list.
  pub against_fields : ValuePath → Members → SchemaFields → Result S4Error Unit
  against_fields path (member name x rest) (schema_field schema_name schema fields) = do
    refuse (not (same_text name schema_name)) (value_error path (field_mismatch name schema_name))
    against_schema (path ++ field_of name ∷ []) x schema
    against_fields path rest fields
  against_fields path _ _ = ok tt

module _ (parse_uuid : Text → Option Text) where
  -- `ValueIr::validate`
  unfoldable pub validate_value_ir : BinaryIrLimits → SchemaIr → ValueIr → Result S4Error Unit
  unfolding validate_limits validate_version validate_schema validate_value against_schema
  validate_value_ir limits schema value = do
    validate_limits limits
    validate_version a_value value.version value_ir_version
    validate_schema limits schema
    validate_value parse_uuid limits 0 [] value.root
    against_schema [] value.root schema.root
