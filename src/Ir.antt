-- ===== src/Ir.antt =====
-- The intermediate representation of binary codecs (crates/gateway/src/binary_ir.rs): its limits, the
-- paths into a schema and into a value, and its errors, whose texts are kept as the place and the
-- reason they tell. A Rust string is the list of its bytes.
use s.Prelude.{
  Bool, List, [], ◌∷◌, ◌++◌, ℕ, Result, ok, err, Eq, Bool-cases, String, eqb, eqb_iff, false,
  if◌then◌else◌, inl, inr, ltb, not, refl, subst, test, true, ◌&&◌, ◌*◌, ◌-◌, ◌^◌, ◌||◌, ◌↔◌, ◌≡◌,
  nat_eq, string_eq,
}
pub mod Schema
pub mod Value
pub mod Dates
pub mod Decimals
pub mod Checked
pub mod Order
pub mod Codec
pub mod Reductor
mod Examples

abbrev pub Text : Type 0
Text = List ℕ

-- Byte-wise comparison, as of `str`.
unfoldable pub same_text : Text → Text → Bool
same_text [] [] = true
same_text [] (b ∷ t) = false
same_text (a ∷ s) [] = false
same_text (a ∷ s) (b ∷ t) = eqb a b && same_text s t

unfoldable pub text_before : Text → Text → Bool
text_before s [] = false
text_before [] (b ∷ t) = true
text_before (a ∷ s) (b ∷ t) = ltb a b || (eqb a b && text_before s t)

same_text→eq : (s t : Text) → same_text s t ≡ true → s ≡ t
unfolding same_text
same_text→eq [] [] h = refl
same_text→eq [] (b ∷ t) h = cc
same_text→eq (a ∷ s) [] h = cc
same_text→eq (a ∷ s) (b ∷ t) h = elim (Bool-cases (eqb a b)) [
  | inl e ↦
      let f : a ≡ b = (eqb_iff a b).0 e in
      let g : s ≡ t = same_text→eq s t (subst (λ q. (q && same_text s t) ≡ true) e h) in cc
  | inr e ↦ let g : false ≡ true = subst (λ q. (q && same_text s t) ≡ true) e h in cc
]

same_text_refl : (s : Text) → same_text s s ≡ true
unfolding same_text
same_text_refl [] = refl
same_text_refl (a ∷ s) = rw ((eqb_iff a a).1 refl, same_text_refl s)

pub text_iff : (s t : Text) → (same_text s t ≡ true) ↔ (s ≡ t)
text_iff s t = (same_text→eq s t, λ e. subst (λ q. same_text s q ≡ true) e (same_text_refl s))

instance abbrev pub text_eq : Eq Text
text_eq = record { same = same_text; same_iff = text_iff }

abbrev pub same_bool : Bool → Bool → Bool
same_bool true b = b
same_bool false b = not b

-- `HashSet::insert` answers whether the name is new.
unfoldable pub has_name : Text → List Text → Bool
has_name name [] = false
has_name name (x ∷ xs) = same_text x name || has_name name xs

pub record BinaryIrLimits : Type 0 where
  pub max_encoded_schema_bytes : ℕ
  pub max_fields : ℕ
  pub max_nesting_depth : ℕ
  pub max_encoded_value_bytes : ℕ

-- `usize::MAX` of a 64-bit target.
abbrev pub usize_max : ℕ
usize_max = 2 ^ 64 - 1

pub data SchemaPathSegment : Type 0 where
  field_segment : Text → SchemaPathSegment
  array_element map_value logical_segment : SchemaPathSegment

abbrev pub SchemaPath : Type 0
SchemaPath = List SchemaPathSegment

pub data ValuePathSegment : Type 0 where
  field_of : Text → ValuePathSegment
  array_index : ℕ → ValuePathSegment
  map_key : Text → ValuePathSegment
  logical_value : ValuePathSegment

abbrev pub ValuePath : Type 0
ValuePath = List ValuePathSegment

-- What the two kinds of document are called.
pub data DocumentKind : Type 0 where
  a_schema a_value : DocumentKind

pub data ErrorReason : Type 0 where
  limits_zero : ErrorReason
  unsupported_version : DocumentKind → ℕ → ℕ → ErrorReason
  too_deep : ℕ → ℕ → ErrorReason
  nullable_null count_overflow empty_name empty_type_id zero_precision : ErrorReason
  too_many_fields : ℕ → ℕ → ErrorReason
  duplicate_name : Text → ErrorReason
  large_scale : ℕ → ℕ → ErrorReason
  unordered_keys : ErrorReason
  invalid_text : String → ErrorReason
  required_null : ErrorReason
  type_mismatch : String → String → ErrorReason
  field_count : ℕ → ℕ → ErrorReason
  field_mismatch type_id_mismatch : Text → Text → ErrorReason
  scale_mismatch large_precision : ℕ → ℕ → ErrorReason
  too_large : DocumentKind → ℕ → ℕ → ErrorReason
  not_canonical : DocumentKind → ErrorReason
  unknown_extras : DocumentKind → ErrorReason
  json_failed : String → ErrorReason
  unclaimed_change unclaimed_custom bad_claim_target no_such_path : ErrorReason
  duplicate_claims overlapping_claims : ErrorReason

-- The codes of `s4_error::codes` and of this file that the representation and its reductors use.
pub data Code : Type 0 where
  config_invalid schema_invalid value_invalid version_unsupported non_canonical : Code
  limit_input_bytes record_too_large decode_json internal : Code
  reductor_claim reductor_plan : Code

pub data Place : Type 0 where
  nowhere : Place
  in_schema : SchemaPath → Place
  in_value : ValuePath → Place

pub record S4Error : Type 0 where
  pub code : Code
  pub place : Place
  pub reason : ErrorReason

-- `schema_error` and `value_error`.
abbrev pub schema_error : SchemaPath → ErrorReason → S4Error
schema_error path reason = record { code = schema_invalid; place = in_schema path; reason = reason }

abbrev pub value_error : ValuePath → ErrorReason → S4Error
value_error path reason = record { code = value_invalid; place = in_value path; reason = reason }

abbrev pub plain_error : Code → ErrorReason → S4Error
plain_error code reason = record { code = code; place = nowhere; reason = reason }

-- `if test { return Err(e) }`
abbrev pub refuse : Bool → S4Error → Result S4Error Unit
refuse test e = if test then err e else ok tt

abbrev pub any_zero : BinaryIrLimits → Bool
any_zero limits =
    eqb limits.max_encoded_schema_bytes 0
    || eqb limits.max_fields 0
    || eqb limits.max_nesting_depth 0
    || eqb limits.max_encoded_value_bytes 0

unfoldable pub validate_limits : BinaryIrLimits → Result S4Error Unit
validate_limits limits = refuse (any_zero limits) (plain_error config_invalid limits_zero)

unfoldable pub default_ir_limits : BinaryIrLimits
default_ir_limits = record {
  max_encoded_schema_bytes = 1024 * 1024;
  max_fields = 4096;
  max_nesting_depth = 8;
  max_encoded_value_bytes = 8 * 1024 * 1024;
}

abbrev pub schema_ir_version : ℕ
schema_ir_version = 1

abbrev pub value_ir_version : ℕ
value_ir_version = 1

unfoldable pub validate_version : DocumentKind → ℕ → ℕ → Result S4Error Unit
validate_version kind actual expected =
    refuse (not (eqb actual expected))
      (plain_error version_unsupported (unsupported_version kind actual expected))

unfoldable pub ensure_size : DocumentKind → ℕ → ℕ → Code → Result S4Error Unit
ensure_size kind actual limit code =
    refuse (ltb limit actual) (plain_error code (too_large kind actual limit))
