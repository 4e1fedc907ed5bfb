-- ===== src/Ir/Reductor.antt =====
-- The claims of reductors on a schema (crates/gateway/src/binary_reductor.rs): which nodes they may
-- claim, and that a reductor changes a schema only below its claims.
pub mod Same
pub mod Outside
pub mod Covered
pub mod Order
pub mod Compare
pub mod Disjoint
pub mod Canonical
use s.Prelude.{
  ◌>>◌, Bool, List, Option, Result, [], eqb, err, false, if◌then◌else◌, none, not, ok, some, true,
  ◌&&◌, ◌++◌, ◌||◌, ◌∷◌, nat_eq, string_eq,
}
use s.Ir.{
  ErrorReason, S4Error, SchemaPath, SchemaPathSegment, Text, array_element, bad_claim_target,
  field_segment, in_schema, logical_segment, map_value, no_such_path, plain_error, reductor_claim,
  reductor_plan, same_text, type_id_mismatch, unclaimed_change, unclaimed_custom, same_bool, refuse,
}
use s.Ir.Schema.{
  SchemaFields, SchemaIr, SchemaKind, SchemaNode, array_kind, boolean_kind, bytes_kind,
  count_fields, custom_kind, date_kind, decimal_kind, f32_kind, f64_kind, i32_kind, i64_kind,
  map_kind, no_fields, node, node_at_path, null_kind, record_kind, schema_field, string_kind,
  time_kind, timestamp_kind, uuid_kind, visit_paths,
}

pub record BinaryReductorClaim : Type 0 where
  pub path : SchemaPath
  pub type_id : Text

unfoldable pub same_segment : SchemaPathSegment → SchemaPathSegment → Bool
same_segment (field_segment a) (field_segment b) = same_text a b
same_segment array_element array_element = true
same_segment map_value map_value = true
same_segment logical_segment logical_segment = true
same_segment _ _ = false

-- `path.segments().starts_with(prefix.segments())`
unfoldable pub path_is_prefix : SchemaPath → SchemaPath → Bool
unfolding same_segment
path_is_prefix [] path = true
path_is_prefix (s ∷ prefix) [] = false
path_is_prefix (s ∷ prefix) (t ∷ path) = same_segment s t && path_is_prefix prefix path

-- `claims.iter().any(|claim| path_is_prefix(claim.path(), path))`
unfoldable pub is_claimed : List BinaryReductorClaim → SchemaPath → Bool
unfolding path_is_prefix
is_claimed [] path = false
is_claimed (claim ∷ claims) path = path_is_prefix claim.path path || is_claimed claims path

-- `PartialEq` of schemas, as it is derived.
unfoldable mutual
  pub same_node : SchemaNode → SchemaNode → Bool
  same_node (node a k) (node b l) = same_bool a b && same_kind k l

  pub same_kind : SchemaKind → SchemaKind → Bool
  same_kind null_kind null_kind = true
  same_kind boolean_kind boolean_kind = true
  same_kind i32_kind i32_kind = true
  same_kind i64_kind i64_kind = true
  same_kind f32_kind f32_kind = true
  same_kind f64_kind f64_kind = true
  same_kind string_kind string_kind = true
  same_kind bytes_kind bytes_kind = true
  same_kind (array_kind a) (array_kind b) = same_node a b
  same_kind (map_kind a) (map_kind b) = same_node a b
  same_kind (record_kind a) (record_kind b) = same_fields a b
  same_kind date_kind date_kind = true
  same_kind time_kind time_kind = true
  same_kind timestamp_kind timestamp_kind = true
  same_kind uuid_kind uuid_kind = true
  same_kind (decimal_kind p q) (decimal_kind r s) = eqb p r && eqb q s
  same_kind (custom_kind i a) (custom_kind j b) = same_text i j && same_node a b
  same_kind _ _ = false

  pub same_fields : SchemaFields → SchemaFields → Bool
  same_fields no_fields no_fields = true
  same_fields (schema_field x a l) (schema_field y b m) =
      same_text x y && (same_node a b && same_fields l m)
  same_fields _ _ = false

abbrev pub claim_error : ErrorReason → S4Error
claim_error reason = plain_error reductor_claim reason

-- `unclaimed_schema_change`, which `plan_error` makes.
abbrev pub unclaimed_schema_change : SchemaPath → S4Error
unclaimed_schema_change path = record {
  code = reductor_plan;
  place = in_schema path;
  reason = unclaimed_change;
}

-- The fallback of the `match`: `_ if source == transformed`.
abbrev pub unchanged : SchemaPath → Bool → Result S4Error Unit
unchanged path same = refuse (not same) (unclaimed_schema_change path)

module _ (claims : List BinaryReductorClaim) where
  -- Nothing below a claim is looked at, and a node that may be null stays so.
  abbrev pub guarded : SchemaPath → Bool → Bool → Result S4Error Unit → Result S4Error Unit
  guarded path a b rest =
      if is_claimed claims path
      then ok tt
      else refuse (not (same_bool a b)) (unclaimed_schema_change path) >> rest

  unfoldable mutual
    unfolding is_claimed same_node count_fields

    pub ensure_node_changes_are_claimed : SchemaPath → SchemaNode → SchemaNode → Result S4Error Unit
    ensure_node_changes_are_claimed path (node a (array_kind x)) (node b (array_kind y)) =
        guarded path a b (ensure_node_changes_are_claimed (path ++ array_element ∷ []) x y)
    ensure_node_changes_are_claimed path (node a (map_kind x)) (node b (map_kind y)) =
        guarded path a b (ensure_node_changes_are_claimed (path ++ map_value ∷ []) x y)
    ensure_node_changes_are_claimed path (node a (record_kind x)) (node b (record_kind y)) =
        guarded path a b (
          refuse (not (eqb (count_fields x) (count_fields y))) (unclaimed_schema_change path)
          >> ensure_fields path x y)
    ensure_node_changes_are_claimed path (node a (custom_kind i x)) (node b (custom_kind j y)) =
        let below = ensure_node_changes_are_claimed (path ++ logical_segment ∷ []) x y in
        let fallback =
          unchanged path (same_node (node a (custom_kind i x)) (node b (custom_kind j y))) in
        guarded path a b (if same_text i j then below else fallback)
    ensure_node_changes_are_claimed path (node a k) (node b l) =
        guarded path a b (unchanged path (same_node (node a k) (node b l)))

    pub ensure_fields : SchemaPath → SchemaFields → SchemaFields → Result S4Error Unit
    ensure_fields path (schema_field x m l) (schema_field y n r) = do
      refuse (not (same_text x y)) (unclaimed_schema_change path)
      ensure_node_changes_are_claimed (path ++ field_segment x ∷ []) m n
      ensure_fields path l r
    ensure_fields path _ _ = ok tt

  unfoldable pub ensure_schema_changes_are_claimed : SchemaIr → SchemaIr → Result S4Error Unit
  unfolding ensure_node_changes_are_claimed
  ensure_schema_changes_are_claimed source transformed =
      ensure_node_changes_are_claimed [] source.root transformed.root

-- The loop of `validate_claims_against_schema` at the node that a claim names.
unfoldable pub check_claim : BinaryReductorClaim → Option SchemaNode → Result S4Error Unit
check_claim claim (some (node nullable (custom_kind type_id value))) =
    refuse (not (same_text type_id claim.type_id))
      (claim_error (type_id_mismatch claim.type_id type_id))
check_claim claim (some (node _ (record_kind _))) = ok tt
check_claim claim (some _) = err (claim_error bad_claim_target)
check_claim claim none = err (claim_error no_such_path)

unfoldable pub validate_claims_against_schema :
    SchemaIr → List BinaryReductorClaim → Result S4Error Unit
unfolding check_claim node_at_path
validate_claims_against_schema schema [] = ok tt
validate_claims_against_schema schema (claim ∷ claims) = do
  check_claim claim (node_at_path schema.root claim.path)
  validate_claims_against_schema schema claims

abbrev pub is_custom : SchemaNode → Bool
is_custom (node _ (custom_kind _ _)) = true
is_custom _ = false

-- The closure of `reject_unclaimed_custom_nodes`: the first path is kept.
unfoldable pub note_unclaimed :
    List BinaryReductorClaim → SchemaPath → SchemaNode → Option SchemaPath → Option SchemaPath
unfolding is_claimed
note_unclaimed claims path schema (some found) = some found
note_unclaimed claims path schema none =
    if is_custom schema && not (is_claimed claims path) then some path else none

abbrev pub unclaimed_result : Option SchemaPath → Result S4Error Unit
unclaimed_result none = ok tt
unclaimed_result (some path) =
    err (record { code = reductor_claim; place = in_schema path; reason = unclaimed_custom })

unfoldable pub reject_unclaimed_custom_nodes :
    SchemaIr → List BinaryReductorClaim → Result S4Error Unit
unfolding visit_paths note_unclaimed
reject_unclaimed_custom_nodes schema claims =
    unclaimed_result (visit_paths (note_unclaimed claims) schema.root none)
