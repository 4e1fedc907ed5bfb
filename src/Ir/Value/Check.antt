-- ===== src/Ir/Value/Check.antt =====
-- The checks of a value (binary_ir.rs, `Value::validate_inner`, `validate_value_against_schema` and
-- `ValueIr::validate`). Parsing a UUID is the `uuid` crate's: what its canonical form is, if it has one.
use s.Prelude.{
  ◌>>=◌, ◌>>◌, Bool, List, Option, Result, String, [], false, is_empty, ltb, map_err, none, not, ok,
  ok_or, some, suc, ℕ, ◌++◌, ◌+◌, ◌∷◌, nat_eq, string_eq, err, refl, ◌≡◌,
}
use s.Ir.{
  BinaryIrLimits, S4Error, Text, ValuePath, array_index, duplicate_name, empty_name, empty_type_id,
  field_of, has_name, invalid_text, logical_value, map_key, same_text, text_before, too_deep,
  unordered_keys, value_error, refuse,
}
use s.Ir.Value.{
  Entries, Members, Value, array_value, boolean_value, bytes_value, custom_value, date_value,
  decimal_value, entry, f32_value, f64_value, i32_value, i64_value, item, map_entries, member,
  no_entries, no_items, no_members, null_value, record_value, string_value, time_value,
  timestamp_value, uuid_value, ItemList,
}
use s.Ir.Schema.{
  SchemaKind, array_kind, boolean_kind, bytes_kind, custom_kind, date_kind, decimal_kind, f32_kind,
  f64_kind, i32_kind, i64_kind, map_kind, null_kind, record_kind, string_kind, time_kind,
  timestamp_kind, uuid_kind,
}
use s.Ir.Dates.{fail_if, validate_date, validate_time, validate_timestamp}
use s.Ir.Decimals.{parse_decimal}

-- `.map_err(|message| value_error(path, ..))?`
abbrev pub well_spelled : {A : Type 0} → ValuePath → Result String A → Result S4Error A
well_spelled path r = map_err (λ message. value_error path (invalid_text message)) r

-- `previous_key.is_some_and(|previous| previous >= key)`
unfoldable pub not_above : Option Text → Text → Bool
not_above none key = false
not_above (some previous) key = not (text_before previous key)

-- The check of the depth.
abbrev pub within : BinaryIrLimits → ℕ → ValuePath → Result S4Error Unit → Result S4Error Unit
within limits depth path content =
    refuse (ltb limits.max_nesting_depth depth)
      (value_error path (too_deep depth limits.max_nesting_depth))
    >> content

abbrev pub kind_name : SchemaKind → String
kind_name null_kind = "null"
kind_name boolean_kind = "boolean"
kind_name i32_kind = "i32"
kind_name i64_kind = "i64"
kind_name f32_kind = "f32"
kind_name f64_kind = "f64"
kind_name string_kind = "string"
kind_name bytes_kind = "bytes"
kind_name (array_kind _) = "array"
kind_name (map_kind _) = "map"
kind_name (record_kind _) = "record"
kind_name date_kind = "date"
kind_name time_kind = "time"
kind_name timestamp_kind = "timestamp"
kind_name uuid_kind = "uuid"
kind_name (decimal_kind _ _) = "decimal"
kind_name (custom_kind _ _) = "custom"

abbrev pub value_name : Value → String
value_name null_value = "null"
value_name (boolean_value _) = "boolean"
value_name (i32_value _) = "i32"
value_name (i64_value _) = "i64"
value_name (f32_value _) = "f32"
value_name (f64_value _) = "f64"
value_name (string_value _) = "string"
value_name (bytes_value _) = "bytes"
value_name (array_value _) = "array"
value_name (map_entries _) = "map"
value_name (record_value _) = "record"
value_name (date_value _) = "date"
value_name (time_value _) = "time"
value_name (timestamp_value _) = "timestamp"
value_name (uuid_value _) = "uuid"
value_name (decimal_value _) = "decimal"
value_name (custom_value _ _) = "custom"

module _ (parse_uuid : Text → Option Text) where
  -- The canonical form is the lowercase hyphenated one.
  unfoldable pub validate_uuid : Text → Result String Unit
  validate_uuid value = do
    parsed ← ok_or (parse_uuid value) "expected a UUID"
    fail_if (not (same_text parsed value)) "expected lowercase hyphenated canonical form"

  -- `Value::validate_inner`; each of its branches comes behind the check of the depth.
  unfoldable mutual
    unfolding not_above has_name validate_date validate_time validate_timestamp validate_uuid
        parse_decimal

    pub validate_value : BinaryIrLimits → ℕ → ValuePath → Value → Result S4Error Unit
    validate_value limits depth path (array_value items) =
        within limits depth path (validate_items limits depth path 0 items)
    validate_value limits depth path (map_entries entries) =
        within limits depth path (validate_entries limits depth path none entries)
    validate_value limits depth path (record_value members) =
        within limits depth path (validate_members limits depth path [] members)
    validate_value limits depth path (date_value value) =
        within limits depth path (well_spelled path (validate_date value))
    validate_value limits depth path (time_value value) =
        within limits depth path (well_spelled path (validate_time value))
    validate_value limits depth path (timestamp_value value) =
        within limits depth path (well_spelled path (validate_timestamp value))
    validate_value limits depth path (uuid_value value) =
        within limits depth path (well_spelled path (validate_uuid value))
    validate_value limits depth path (decimal_value value) =
        within limits depth path (well_spelled path (parse_decimal value) >>= λ _. ok tt)
    validate_value limits depth path (custom_value type_id value) = within limits depth path (
        refuse (is_empty type_id) (value_error path empty_type_id)
        >> validate_value limits (depth + 1) (path ++ logical_value ∷ []) value)
    validate_value limits depth path _ = within limits depth path (ok tt)

    pub validate_items : BinaryIrLimits → ℕ → ValuePath → ℕ → ItemList → Result S4Error Unit
    validate_items limits depth path n no_items = ok tt
    validate_items limits depth path n (item x rest) = do
      validate_value limits (depth + 1) (path ++ array_index n ∷ []) x
      validate_items limits depth path (suc n) rest

    pub validate_entries :
        BinaryIrLimits → ℕ → ValuePath → Option Text → Entries → Result S4Error Unit
    validate_entries limits depth path previous no_entries = ok tt
    validate_entries limits depth path previous (entry key x rest) = do
      refuse (not_above previous key) (value_error path unordered_keys)
      validate_value limits (depth + 1) (path ++ map_key key ∷ []) x
      validate_entries limits depth path (some key) rest

    pub validate_members :
        BinaryIrLimits → ℕ → ValuePath → List Text → Members → Result S4Error Unit
    validate_members limits depth path names no_members = ok tt
    validate_members limits depth path names (member name x rest) = do
      refuse (is_empty name) (value_error path empty_name)
      refuse (has_name name names) (value_error path (duplicate_name name))
      validate_value limits (depth + 1) (path ++ field_of name ∷ []) x
      validate_members limits depth path (name ∷ names) rest

pub well_spelled-ok :
    {A B : Type 0} (path : ValuePath) (r : Result String A) (f : A → Result S4Error B) (b : B)
    → (well_spelled path r >>= f) ≡ ok b
    → (a : A) × (r ≡ ok a) × (f a ≡ ok b)
well_spelled-ok path (ok a) f b h = (a, refl, h)
well_spelled-ok path (err e) f b h = cc
