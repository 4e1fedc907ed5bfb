-- ===== src/Ir/Reductor/Same.antt =====
-- The derived test of equality of schemas (binary_reductor.rs, `source == transformed`).
use s.Prelude.{Bool, ap, eqb, eqb_iff, false, refl, true, ◌&&◌, ◌≡◌, nat_eq, string_eq}
use s.Ir.Schema.{
  SchemaFields, SchemaKind, SchemaNode, array_kind, boolean_kind, bytes_kind, custom_kind,
  date_kind, decimal_kind, f32_kind, f64_kind, i32_kind, i64_kind, map_kind, no_fields, node,
  null_kind, record_kind, schema_field, string_kind, time_kind, timestamp_kind, uuid_kind,
}
use s.Ir.Checked.{and-true}
use s.Ir.Reductor.{same_fields, same_kind, same_node}
use s.Ir.{same_text, text_iff, same_bool}

pub same_bool-eq : (a b : Bool) → same_bool a b ≡ true → a ≡ b
same_bool-eq true true h = refl
same_bool-eq true false h = cc
same_bool-eq false true h = cc
same_bool-eq false false h = refl

mutual
  unfolding same_node

  pub same_node-eq : (m n : SchemaNode) → same_node m n ≡ true → m ≡ n
  same_node-eq (node a k) (node b l) h =
      let c = and-true (same_bool a b) (same_kind k l) h in
      let e = same_bool-eq a b c.0 in let f = same_kind-eq k l c.1 in cc

  same_kind-eq : (k l : SchemaKind) → same_kind k l ≡ true → k ≡ l
  same_kind-eq null_kind null_kind h = refl
  same_kind-eq boolean_kind boolean_kind h = refl
  same_kind-eq i32_kind i32_kind h = refl
  same_kind-eq i64_kind i64_kind h = refl
  same_kind-eq f32_kind f32_kind h = refl
  same_kind-eq f64_kind f64_kind h = refl
  same_kind-eq string_kind string_kind h = refl
  same_kind-eq bytes_kind bytes_kind h = refl
  same_kind-eq (array_kind a) (array_kind b) h = ap array_kind (same_node-eq a b h)
  same_kind-eq (map_kind a) (map_kind b) h = ap map_kind (same_node-eq a b h)
  same_kind-eq (record_kind a) (record_kind b) h = ap record_kind (same_fields-eq a b h)
  same_kind-eq date_kind date_kind h = refl
  same_kind-eq time_kind time_kind h = refl
  same_kind-eq timestamp_kind timestamp_kind h = refl
  same_kind-eq uuid_kind uuid_kind h = refl
  same_kind-eq (decimal_kind p q) (decimal_kind r s) h =
      let c = and-true (eqb p r) (eqb q s) h in
      let e = (eqb_iff p r).0 c.0 in let f = (eqb_iff q s).0 c.1 in cc
  same_kind-eq (custom_kind i a) (custom_kind j b) h =
      let c = and-true (same_text i j) (same_node a b) h in
      let e = (text_iff i j).0 c.0 in let f = same_node-eq a b c.1 in cc
  same_kind-eq _ _ h = cc

  same_fields-eq : (l m : SchemaFields) → same_fields l m ≡ true → l ≡ m
  same_fields-eq no_fields no_fields h = refl
  same_fields-eq (schema_field x a l) (schema_field y b m) h =
      let c = and-true (same_text x y) (same_node a b && same_fields l m) h in
      let d = and-true (same_node a b) (same_fields l m) c.1 in
      let e = (text_iff x y).0 c.0 in
      let f = same_node-eq a b d.0 in let g = same_fields-eq l m d.1 in cc
  same_fields-eq _ _ h = cc
