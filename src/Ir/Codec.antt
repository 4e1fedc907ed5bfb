-- ===== src/Ir/Codec.antt =====
-- The canonical JSON of schemas (binary_ir.rs, `encode_schema_canonical_json` and the functions beside
-- it). serde_json and the derived conversions of schemas are an interface of functions.
pub mod RoundTrip
use s.Prelude.{
  ◌>>=◌, ◌>>◌, Bool, List, Option, Result, String, [], eqb, false, if◌then◌else◌, length, none, not,
  ok, ok_or, some, suc, ℕ, ◌&&◌, ◌∷◌, nat_eq, string_eq,
}
use s.Ir.{
  BinaryIrLimits, Code, DocumentKind, S4Error, Text, a_schema, ensure_size, has_name, json_failed,
  non_canonical, not_canonical, plain_error, same_text, unknown_extras, validate_limits, refuse,
  internal, decode_json, limit_input_bytes,
}
use s.Ir.Schema.{SchemaIr, validate_schema}

-- `serde_json::Value`; a number is its text.
mutual
  pub data Json : Type 0 where
    json_null : Json
    json_bool : Bool → Json
    json_number : Text → Json
    json_string : Text → Json
    json_array : JsonItems → Json
    json_object : JsonObject → Json

  pub data JsonItems : Type 0 where
    no_json : JsonItems
    json_item : Json → JsonItems → JsonItems

  pub data JsonObject : Type 0 where
    no_keys : JsonObject
    json_key : Text → Json → JsonObject → JsonObject

-- `from_slice`, `to_vec`, `to_value` and `from_value`, which fail without a result; the texts of their
-- errors are the reasons.
pub record SerdeJson : Type 0 where
  pub from_slice : List ℕ → Option Json
  pub to_vec : Json → Option (List ℕ)
  pub schema_to_value : SchemaIr → Option Json
  pub schema_from_value : Json → Option SchemaIr

unfoldable pub get_key : Text → JsonObject → Option Json
get_key key no_keys = none
get_key key (json_key k x rest) =
    let later = get_key key rest in if same_text k key then some x else later

unfoldable pub count_keys : JsonObject → ℕ
count_keys no_keys = 0
count_keys (json_key k x rest) = suc (count_keys rest)

-- `"type"`
abbrev pub type_key : Text
type_key = b't' ∷ b'y' ∷ b'p' ∷ b'e' ∷ []

-- `.and_then(as_str).is_some_and(|tag| unit_variants.contains(&tag))`
unfoldable pub is_unit_tag : List Text → Option Json → Bool
unfolding has_name
is_unit_tag units (some (json_string tag)) = has_name tag units
is_unit_tag units _ = false

unfoldable mutual
  unfolding get_key count_keys is_unit_tag

  pub reject_unit_variant_extras : DocumentKind → List Text → Json → Result S4Error Unit
  reject_unit_variant_extras kind units (json_array items) = reject_items kind units items
  reject_unit_variant_extras kind units (json_object object) = do
    refuse (is_unit_tag units (get_key type_key object) && not (eqb (count_keys object) 1))
        (plain_error decode_json (unknown_extras kind))
    reject_values kind units object
  reject_unit_variant_extras kind units _ = ok tt

  pub reject_items : DocumentKind → List Text → JsonItems → Result S4Error Unit
  reject_items kind units no_json = ok tt
  reject_items kind units (json_item x rest) = do
    reject_unit_variant_extras kind units x
    reject_items kind units rest

  pub reject_values : DocumentKind → List Text → JsonObject → Result S4Error Unit
  reject_values kind units no_keys = ok tt
  reject_values kind units (json_key k x rest) = do
    reject_unit_variant_extras kind units x
    reject_values kind units rest

abbrev pub failed : Code → String → S4Error
failed code what = plain_error code (json_failed what)

-- The tags of the unit variants.
abbrev pub null_tag : Text
null_tag = b'n' ∷ b'u' ∷ b'l' ∷ b'l' ∷ []

abbrev pub boolean_tag : Text
boolean_tag = b'b' ∷ b'o' ∷ b'o' ∷ b'l' ∷ b'e' ∷ b'a' ∷ b'n' ∷ []

abbrev pub i32_tag : Text
i32_tag = b'i' ∷ b'3' ∷ b'2' ∷ []

abbrev pub i64_tag : Text
i64_tag = b'i' ∷ b'6' ∷ b'4' ∷ []

abbrev pub f32_tag : Text
f32_tag = b'f' ∷ b'3' ∷ b'2' ∷ []

abbrev pub f64_tag : Text
f64_tag = b'f' ∷ b'6' ∷ b'4' ∷ []

abbrev pub string_tag : Text
string_tag = b's' ∷ b't' ∷ b'r' ∷ b'i' ∷ b'n' ∷ b'g' ∷ []

abbrev pub bytes_tag : Text
bytes_tag = b'b' ∷ b'y' ∷ b't' ∷ b'e' ∷ b's' ∷ []

abbrev pub date_tag : Text
date_tag = b'd' ∷ b'a' ∷ b't' ∷ b'e' ∷ []

abbrev pub time_tag : Text
time_tag = b't' ∷ b'i' ∷ b'm' ∷ b'e' ∷ []

abbrev pub timestamp_tag : Text
timestamp_tag = b't' ∷ b'i' ∷ b'm' ∷ b'e' ∷ b's' ∷ b't' ∷ b'a' ∷ b'm' ∷ b'p' ∷ []

abbrev pub uuid_tag : Text
uuid_tag = b'u' ∷ b'u' ∷ b'i' ∷ b'd' ∷ []

abbrev pub schema_tags : List Text
schema_tags =
    null_tag ∷ boolean_tag ∷ i32_tag ∷ i64_tag ∷ f32_tag ∷ f64_tag ∷ string_tag ∷ bytes_tag
    ∷ date_tag ∷ time_tag ∷ timestamp_tag ∷ uuid_tag ∷ []

module _ (serde : SerdeJson) where
  -- The second half of `serialize_json`.
  unfoldable pub serialize_json : Option Json → Result S4Error (List ℕ)
  serialize_json converted = do
    json ← ok_or converted (failed internal "JSON encoding failed")
    ok_or (serde.to_vec json) (failed internal "JSON encoding failed")

  unfoldable pub parse_canonical_json : DocumentKind → List ℕ → Result S4Error Json
  parse_canonical_json kind encoded = do
    json ← ok_or (serde.from_slice encoded) (failed decode_json "")
    canonical ← ok_or (serde.to_vec json) (failed internal "JSON encoding failed")
    refuse (not (same_text encoded canonical)) (plain_error non_canonical (not_canonical kind))
    ok json

  unfoldable pub encode_schema : BinaryIrLimits → SchemaIr → Result S4Error (List ℕ)
  unfolding serialize_json ensure_size
  encode_schema limits schema = do
    validate_schema limits schema
    encoded ← serialize_json (serde.schema_to_value schema)
    ensure_size a_schema (length encoded) limits.max_encoded_schema_bytes limit_input_bytes
    ok encoded

  unfoldable pub decode_schema : BinaryIrLimits → List ℕ → Result S4Error SchemaIr
  unfolding parse_canonical_json ensure_size
  decode_schema limits encoded = do
    validate_limits limits
    ensure_size a_schema (length encoded) limits.max_encoded_schema_bytes limit_input_bytes
    json ← parse_canonical_json a_schema encoded
    reject_unit_variant_extras a_schema schema_tags json
    schema ← ok_or (serde.schema_from_value json) (failed decode_json "")
    validate_schema limits schema
    ok schema
