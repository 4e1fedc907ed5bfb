-- ===== src/Ir/Examples.antt =====
-- Runs on concrete schemas and values, and what the theorems say of them.
use s.Prelude.{
  All, Bool, Option, [], arith, err, false, none, ok, refl, some, suc, true, ℕ, ◌↔◌, ◌∷◌, ◌≡◌, ◌≤◌,
  nat_eq, string_eq, List, if◌then◌else◌, length,
}
use s.Ir.{
  BinaryIrLimits, SchemaPath, Text, ValuePath, duplicate_name, field_segment, has_name, map_value,
  same_text, schema_error, text_before, validate_limits, validate_version, value_ir_version,
  default_ir_limits, ensure_size,
}
use s.Ir.Value.{
  Entries, Members, Value, ValueIr, decimal_value, entry, i64_value, map_entries, member,
  no_entries, no_members, null_value, record_value, string_value, visit_claim_matches,
  visit_claim_matches_mut, visit_matches,
}
use s.Ir.Dates.Calendar.{IsDay, date_text, validate_date_iff}
use s.Ir.Decimals.Canonical.{IsDecimal, decimal_text, parse_decimal_iff, counted_parts}
use s.Ir.Schema.Claims.{Listed}
use s.Ir.Schema.{
  SchemaFields, SchemaIr, SchemaNode, child_node, count_fields, custom_kind, decimal_kind,
  find_field, i64_kind, is_claimable, map_kind, no_fields, node, node_at_path, record_kind,
  reductor_claim_paths, schema_field, string_kind, validate_node, validate_schema, visit_paths,
  visit_paths_inner,
}
use s.Ir.Schema.WellFormed.{Sound, Usable, WellFormed}
use s.Ir.Value.WellFormed.{SoundValue, value_height}
use s.Ir.Value.Against.{against_schema, count_members, validate_value_ir}
use s.Ir.Value.Typing.{of_null, ◌∶ᵛ◌}
use s.Ir.Value.Changes.{changes_typed}
use s.Ir.Dates.{
  days_of, is_leap_year, parse_digits, parse_digits_from, validate_date, validate_time,
}
use s.Ir.Decimals.{
  first_nonzero, parse_decimal, parse_signed, parse_unsigned, split_points, strip_minus,
}
use s.Prelude.Int.{negsuc}
use s.Ir.Value.Check.{not_above, validate_value}
use s.Ir.Schema.Claimed.{reductor_claim_paths_iff}
use s.Ir.Schema.Decided.{validate_schema_iff}
use s.Ir.Value.Decided.{validate_value_ir_iff}
use s.Ir.Value.Visits.{visits_typed}
use s.Ir.Codec.RoundTrip.{decode_schema_sound}
use s.Ir.Codec.{
  SerdeJson, decode_schema, json_number, parse_canonical_json, reject_unit_variant_extras, Json,
}
use s.Ir.Reductor.Covered.{customs_claimed}
use s.Ir.Dates.Clock.{IsFraction, IsTime, time_text, validate_time_iff}
use s.Ir.Reductor.{
  reject_unclaimed_custom_nodes, note_unclaimed, BinaryReductorClaim,
  ensure_node_changes_are_claimed, ensure_schema_changes_are_claimed, is_claimed, path_is_prefix,
  same_node, same_segment, unclaimed_schema_change,
}
use s.Ir.Reductor.Outside.{changes_claimed, outline}
use s.Ir.Reductor.Canonical.{Disjoint, canonicalize_claims-Disjoint}
use s.Ir.Reductor.Order.{
  canonicalize_claims, check_pairs, compare_claims, compare_path_segments, compare_paths, same_path,
}

abbrev i : Text
i = b'i' ∷ []

abbrev m : Text
m = b'm' ∷ []

abbrev p : Text
p = b'p' ∷ []

-- A record of a number, a map of nullable texts that may be null itself, and a price.
abbrev text_node : SchemaNode
text_node = node true string_kind

abbrev map_node : SchemaNode
map_node = node true (map_kind text_node)

abbrev price_node : SchemaNode
price_node = node false (decimal_kind 5 2)

abbrev row_fields : SchemaFields
row_fields =
    schema_field i (node false i64_kind)
      (schema_field m map_node (schema_field p price_node no_fields))

abbrev row_schema : SchemaIr
row_schema = record { version = 1; root = node false (record_kind row_fields) }

-- `-12.50`
abbrev price_text : Text
price_text = b'-' ∷ b'1' ∷ b'2' ∷ b'.' ∷ b'5' ∷ b'0' ∷ []

abbrev row_entries : Entries
row_entries = entry i null_value (entry m (string_value p) no_entries)

abbrev row_members : Members
row_members =
    member i (i64_value (negsuc 4))
      (member m (map_entries row_entries) (member p (decimal_value price_text) no_members))

abbrev row : ValueIr
row = record { version = 1; root = record_value row_members }

abbrev some_limits : BinaryIrLimits
some_limits = record {
  max_encoded_schema_bytes = 100;
  max_fields = 3;
  max_nesting_depth = 2;
  max_encoded_value_bytes = 100;
}

abbrev no_uuid : Text → Option Text
no_uuid t = none

default_ir_limits_usable : validate_limits default_ir_limits ≡ ok tt
unfolding validate_limits default_ir_limits
default_ir_limits_usable = refl

row_schema_valid : validate_schema some_limits row_schema ≡ ok tt
unfolding validate_schema validate_limits validate_version validate_node count_fields has_name
    same_text
row_schema_valid = refl

row_valid : validate_value_ir no_uuid some_limits row_schema row ≡ ok tt
unfolding validate_value_ir validate_schema validate_limits validate_version validate_node
    count_fields has_name same_text validate_value against_schema not_above text_before
    parse_decimal strip_minus parse_signed split_points parse_unsigned first_nonzero count_members
row_valid = refl

-- A name that is there twice, at its record.
twice : SchemaFields
twice = schema_field i text_node (schema_field i text_node no_fields)

duplicate_refused :
    validate_schema some_limits (record { version = 1; root = node true (record_kind twice) })
    ≡ err (schema_error [] (duplicate_name i))
unfolding validate_schema validate_limits validate_version validate_node count_fields has_name
    same_text twice
duplicate_refused = refl

leap_day : validate_date (date_text 2024 2 29) ≡ ok tt
unfolding validate_date parse_digits parse_digits_from days_of is_leap_year
leap_day = refl

no_leap_day : validate_date (date_text 1900 2 29) ≡ err "day is out of range"
unfolding validate_date parse_digits parse_digits_from days_of is_leap_year
no_leap_day = refl

row_sound : SoundValue no_uuid row.root × (row.root ∶ᵛ row_schema.root)
row_sound =
    let w = (validate_value_ir_iff no_uuid some_limits row_schema row (omega arith)).0 row_valid in
    (w.4, w.5)

validate_value_ir_iff_example :
    Usable some_limits
    × WellFormed some_limits row_schema
    × (row.version ≡ value_ir_version)
    × (value_height row.root ≤ some_limits.max_nesting_depth)
    × SoundValue no_uuid row.root
    × (row.root ∶ᵛ row_schema.root)
validate_value_ir_iff_example =
    (validate_value_ir_iff no_uuid some_limits row_schema row (omega arith)).0 row_valid

-- The claim of the texts in the map.
abbrev texts : SchemaPath
texts = field_segment m ∷ map_value ∷ []

texts_found : node_at_path row_schema.root texts ≡ some text_node
unfolding node_at_path child_node find_field same_text
texts_found = refl

abbrev IsText : Value → Type 0
IsText v = v ∶ᵛ text_node

visits_typed_example :
    All IsText (visit_claim_matches (λ path v found. v ∷ found) row.root texts [])
visits_typed_example =
    visits_typed no_uuid row.root text_node (All IsText) (λ path v found. v ∷ found)
      (λ path v found at typed kept. (typed, kept)) texts row_schema.root [] row_sound.0 row_sound.1
      texts_found tt

texts_visited :
    visit_claim_matches (λ path v found. v ∷ found) row.root texts []
    ≡ (string_value p ∷ null_value ∷ [])
unfolding visit_claim_matches visit_matches same_text
texts_visited = refl

-- Each text is blanked.
abbrev blank : ValuePath → Value → ℕ → Value × ℕ
blank path v n = (null_value, suc n)

changes_typed_example : (visit_claim_matches_mut blank row.root texts 0).0 ∶ᵛ row_schema.root
changes_typed_example =
    changes_typed text_node blank (λ path v n typed. of_null refl) texts row.root row_schema.root 0
      row_sound.1 texts_found

reductor_claim_paths_iff_example :
    Listed [] (reductor_claim_paths row_schema)
    ↔ ((n : SchemaNode) × (node_at_path row_schema.root [] ≡ some n) × (is_claimable n ≡ true))
reductor_claim_paths_iff_example = reductor_claim_paths_iff row_schema [] validate_schema_iff_sound
  where
    validate_schema_iff_sound : Sound row_schema.root
    validate_schema_iff_sound =
        ((validate_schema_iff some_limits row_schema (omega arith)).0 row_schema_valid).1.3

parse_decimal_iff_example :
    (parse_decimal price_text ≡ ok (record { precision = 4; scale = 2 })) ↔ (
      (negative : Bool) × (integer : Text) × (fraction : Text) × IsDecimal negative integer fraction
      × (price_text ≡ decimal_text negative integer fraction)
      × (record { precision = 4; scale = 2 } ≡ counted_parts integer fraction))
parse_decimal_iff_example = parse_decimal_iff price_text (record { precision = 4; scale = 2 })

validate_date_iff_example :
    (year : ℕ) × (month : ℕ) × (day : ℕ) × IsDay year month day
    × (date_text 2024 2 29 ≡ date_text year month day)
validate_date_iff_example = (validate_date_iff (date_text 2024 2 29)).0 leap_day

-- An interface that knows one document, and writes it as `1`.
abbrev one : Text
one = b'1' ∷ []

abbrev write_one : Json → Option (List ℕ)
write_one (json_number t) = if same_text t one then some one else none
write_one _ = none

abbrev one_document : SerdeJson
one_document = record {
  from_slice = λ bytes. some (json_number one);
  to_vec = write_one;
  schema_to_value = λ schema. some (json_number one);
  schema_from_value = λ json. some row_schema;
}

schema_decoded : decode_schema one_document some_limits one ≡ ok row_schema
unfolding decode_schema parse_canonical_json ensure_size same_text reject_unit_variant_extras
    validate_limits
schema_decoded = rw row_schema_valid

decode_schema_sound_example :
    WellFormed some_limits row_schema
    × (length one ≤ some_limits.max_encoded_schema_bytes)
    × ((json : Json) × (one_document.from_slice one ≡ some json)
        × (one_document.to_vec json ≡ some one)
        × (one_document.schema_from_value json ≡ some row_schema))
decode_schema_sound_example =
    decode_schema_sound one_document some_limits row_schema one (omega arith) schema_decoded

-- A reductor that turns the map of a row into a text under its claim.
abbrev map_claim : BinaryReductorClaim
map_claim = record { path = field_segment m ∷ []; type_id = [] }

abbrev reduced_fields : SchemaFields
reduced_fields =
    schema_field i (node false i64_kind)
      (schema_field m text_node (schema_field p price_node no_fields))

abbrev reduced_schema : SchemaIr
reduced_schema = record { version = 1; root = node false (record_kind reduced_fields) }

map_change_claimed :
    ensure_schema_changes_are_claimed (map_claim ∷ []) row_schema reduced_schema ≡ ok tt
unfolding ensure_schema_changes_are_claimed ensure_node_changes_are_claimed is_claimed
    path_is_prefix same_segment same_text same_node count_fields
map_change_claimed = refl

map_change_unclaimed :
    ensure_schema_changes_are_claimed [] row_schema reduced_schema
    ≡ err (unclaimed_schema_change (field_segment m ∷ []))
unfolding ensure_schema_changes_are_claimed ensure_node_changes_are_claimed is_claimed
    path_is_prefix same_segment same_text same_node count_fields
map_change_unclaimed = refl

price_unclaimed : is_claimed (map_claim ∷ []) (field_segment p ∷ []) ≡ false
unfolding is_claimed path_is_prefix same_segment same_text
price_unclaimed = refl

price_found : node_at_path row_schema.root (field_segment p ∷ []) ≡ some price_node
unfolding node_at_path child_node find_field same_text
price_found = refl

changes_claimed_example :
    (n : SchemaNode) × (node_at_path reduced_schema.root (field_segment p ∷ []) ≡ some n)
    × (outline price_node ≡ outline n)
changes_claimed_example =
    changes_claimed (map_claim ∷ []) row_schema reduced_schema (field_segment p ∷ []) price_node
      map_change_claimed price_unclaimed price_found

abbrev price_claim : BinaryReductorClaim
price_claim = record { path = field_segment p ∷ []; type_id = [] }

claims_ordered :
    canonicalize_claims (price_claim ∷ map_claim ∷ []) ≡ ok (map_claim ∷ price_claim ∷ [])
unfolding canonicalize_claims compare_claims compare_paths compare_path_segments check_pairs
    same_path path_is_prefix same_segment same_text text_before
claims_ordered = refl

canonicalize_claims-Disjoint_example : Disjoint (map_claim ∷ price_claim ∷ [])
canonicalize_claims-Disjoint_example =
    canonicalize_claims-Disjoint (price_claim ∷ map_claim ∷ []) (map_claim ∷ price_claim ∷ [])
      claims_ordered

validate_time_iff_example :
    (validate_time (time_text 12 30 5 (b'.' ∷ b'2' ∷ b'5' ∷ [])) ≡ ok tt) ↔ (
      (hour : ℕ) × (minute : ℕ) × (second : ℕ) × (fraction : Text) × IsTime hour minute second
      × IsFraction fraction
      × (time_text 12 30 5 (b'.' ∷ b'2' ∷ b'5' ∷ []) ≡ time_text hour minute second fraction))
validate_time_iff_example = validate_time_iff (time_text 12 30 5 (b'.' ∷ b'2' ∷ b'5' ∷ []))

-- A row with a custom field, which a claim names.
abbrev custom_node : SchemaNode
custom_node = node false (custom_kind [] text_node)

abbrev custom_schema : SchemaIr
custom_schema = record {
  version = 1;
  root = node false (record_kind (schema_field m custom_node no_fields));
}

customs_claimed_example : is_claimed (map_claim ∷ []) (field_segment m ∷ []) ≡ true
unfolding reject_unclaimed_custom_nodes note_unclaimed visit_paths visit_paths_inner is_claimed
    path_is_prefix same_segment same_text node_at_path child_node find_field
customs_claimed_example =
    customs_claimed custom_schema (map_claim ∷ []) (field_segment m ∷ []) custom_node refl refl refl
