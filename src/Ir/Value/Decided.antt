-- ===== src/Ir/Value/Decided.antt =====
-- The checks of a value decide whether it is well formed (binary_ir.rs, `ValueIr::validate`).
use s.Prelude.{Option, [], arith, ok, ◌≡◌, ◌≤◌, nat_eq, string_eq, ◌↔◌}
use s.Ir.Checked.{>>=-ok, >>=-runs}
use s.Ir.Value.WellFormed.{SoundValue, value_height}
use s.Ir.{
  BinaryIrLimits, Text, validate_limits, validate_version, value_ir_version, usize_max, a_value,
}
use s.Ir.Value.{ValueIr}
use s.Ir.Value.Check.{validate_value}
use s.Ir.Schema.{SchemaIr, validate_schema}
use s.Ir.Schema.WellFormed.{Usable, WellFormed}
use s.Ir.Value.Typing.{against_schema_iff, ◌∶ᵛ◌}
use s.Ir.Schema.Decided.{validate_limits_iff, validate_schema_iff, validate_version_iff}
use s.Ir.Value.Against.{validate_value_ir}
use s.Ir.Value.Accepted.{value_accepted}
use s.Ir.Value.Accepts.{value_accepts}

-- A value is accepted with a schema just when the limits are positive, the schema is well formed, the
-- value has the current version, its height keeps within the limit, its parts are well formed (the
-- keys of a map ascend, the fields of a record have names that are distinct and not empty, texts of
-- dates, times, timestamps, UUIDs and decimals parse), and it is of the schema's type. The limit on
-- the fields is a machine number.
pub validate_value_ir_iff :
    (parse_uuid : Text → Option Text) (limits : BinaryIrLimits) (schema : SchemaIr)
    (value : ValueIr)
    → limits.max_fields ≤ usize_max
    → (validate_value_ir parse_uuid limits schema value ≡ ok tt) ↔ (
        Usable limits
        × WellFormed limits schema
        × (value.version ≡ value_ir_version)
        × (value_height value.root ≤ limits.max_nesting_depth)
        × SoundValue parse_uuid value.root
        × (value.root ∶ᵛ schema.root))
unfolding validate_value_ir
validate_value_ir_iff parse_uuid limits schema value representable = (
  λ h.
      let a = >>=-ok (validate_limits limits) _ tt h in
      let b = >>=-ok (validate_version a_value value.version value_ir_version) _ tt a.2 in
      let c = >>=-ok (validate_schema limits schema) _ tt b.2 in
      let d = >>=-ok (validate_value parse_uuid limits 0 [] value.root) _ tt c.2 in
      let s = (validate_schema_iff limits schema representable).0 c.1 in
      let v = value_accepted parse_uuid limits 0 [] value.root d.1 in
      (
        s.0,
        s.1,
        (validate_version_iff a_value value.version value_ir_version).0 b.1,
        omega (arith, v.0),
        v.1,
        (against_schema_iff [] value.root schema.root).0 d.2,
      ),
  λ w.
      let a = (validate_limits_iff limits).1 w.0 in
      let b = (validate_version_iff a_value value.version value_ir_version).1 w.2 in
      let c = (validate_schema_iff limits schema representable).1 (w.0, w.1) in
      let d = value_accepts parse_uuid limits 0 [] value.root (omega (arith, w.3)) w.4 in
      let e = (against_schema_iff [] value.root schema.root).1 w.5 in
      >>=-runs (validate_limits limits) _ tt tt a (
        >>=-runs (validate_version a_value value.version value_ir_version) _ tt tt b (
          >>=-runs (validate_schema limits schema) _ tt tt c
            (>>=-runs (validate_value parse_uuid limits 0 [] value.root) _ tt tt d e))),
)

pub value_limits_checked :
    (parse_uuid : Text → Option Text) (limits : BinaryIrLimits) (schema : SchemaIr)
    (value : ValueIr)
    → validate_value_ir parse_uuid limits schema value ≡ ok tt
    → validate_limits limits ≡ ok tt
unfolding validate_value_ir
value_limits_checked parse_uuid limits schema value h = (>>=-ok (validate_limits limits) _ tt h).1
