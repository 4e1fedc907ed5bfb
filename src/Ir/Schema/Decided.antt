-- ===== src/Ir/Schema/Decided.antt =====
-- Validation of a schema decides whether it is well formed (binary_ir.rs, `SchemaIr::validate`).
use s.Prelude.{
  List, [], arith, ok, ℕ, ◌+◌, ◌∷◌, ◌≡◌, ◌≤◌, nat_eq, string_eq, ap, eqb_iff, ◌↔◌, eqb, ◌||◌, false,
}
use s.Ir.Checked.{
  >>=-ok, ltb-false, ok-injective, positive, refuse-ok, eqb-positive, ltb-above, not-false,
  or-false, refuse-last,
}
use s.Ir.{
  BinaryIrLimits, SchemaPath, Text, has_name, usize_max, DocumentKind, a_schema, validate_limits,
  validate_version, limits_zero, plain_error, config_invalid, any_zero,
}
use s.Ir.Schema.{
  SchemaFields, SchemaKind, SchemaNode, array_kind, count_fields, custom_kind, decimal_kind,
  map_kind, no_fields, node, record_kind, schema_field, validate_fields, validate_kind,
  validate_node, SchemaIr, validate_schema,
}
use s.Ir.Schema.WellFormed.{
  Sound, SoundFields, SoundKind, height, height_fields, height_kind, total, total_fields,
  total_kind, Usable, WellFormed,
}

-- What a node that is accepted with a count of fields before and after it satisfies.
abbrev Accepted : BinaryIrLimits → ℕ → ℕ → ℕ → ℕ → ℕ → Type 0
Accepted limits depth h before t after =
    (depth + h ≤ limits.max_nesting_depth) × (before + t ≤ limits.max_fields) × (after ≡ before + t)

module _ (limits : BinaryIrLimits) where
  mutual
    unfolding validate_node count_fields has_name height total Sound

    node-Accepted :
        (depth : ℕ) (path : SchemaPath) (schema : SchemaNode) (count after : ℕ)
        → count ≤ limits.max_fields
        → validate_node limits depth path schema count ≡ ok after
        → Accepted limits depth (height schema) count (total schema) after × Sound schema
    node-Accepted depth path (node nullable kind) count after c h =
        let a = refuse-ok _ _ _ _ h in
        let b = refuse-ok _ _ _ _ a.1 in
        let d = ltb-false limits.max_nesting_depth depth a.0 in
        let r = kind-Accepted depth path kind count after d c b.1 in (r.0, (b.0, r.1))

    kind-Accepted :
        (depth : ℕ) (path : SchemaPath) (kind : SchemaKind) (count after : ℕ)
        → depth ≤ limits.max_nesting_depth
        → count ≤ limits.max_fields
        → validate_kind limits depth path kind count ≡ ok after
        → Accepted limits depth (height_kind kind) count (total_kind kind) after × SoundKind kind
    kind-Accepted depth path (array_kind items) count after d c h =
        let r = node-Accepted (depth + 1) _ items count after c h in
        ((omega (arith, r.0.0), r.0.1, r.0.2), r.1)
    kind-Accepted depth path (map_kind values) count after d c h =
        let r = node-Accepted (depth + 1) _ values count after c h in
        ((omega (arith, r.0.0), r.0.1, r.0.2), r.1)
    kind-Accepted depth path (record_kind fields) count after d c h =
        let a = refuse-ok _ _ _ _ h in
        let b = refuse-ok _ _ _ _ a.1 in
        let m = ltb-false limits.max_fields (count + count_fields fields) b.0 in
        let r = fields-Accepted depth path [] fields _ after d m b.1 in
        ((r.0.0, omega (arith, r.0.1), omega (arith, r.0.2)), r.1)
    kind-Accepted depth path (decimal_kind precision scale) count after d c h =
        let a = refuse-ok _ _ _ _ h in
        let b = refuse-ok _ _ _ _ a.1 in
        let e : count ≡ after = ok-injective b.1 in
        (
          (omega arith, omega arith, omega (arith, e)),
          (positive precision a.0, ltb-false precision scale b.0),
        )
    kind-Accepted depth path (custom_kind type_id value) count after d c h =
        let a = refuse-ok _ _ _ _ h in
        let r = node-Accepted (depth + 1) _ value count after c a.1 in
        ((omega (arith, r.0.0), r.0.1, r.0.2), (a.0, r.1))
    kind-Accepted depth path _ count after d c h =
        let e : count ≡ after = ok-injective h in ((omega arith, omega arith, omega (arith, e)), tt)

    fields-Accepted :
        (depth : ℕ) (path : SchemaPath) (names : List Text) (fields : SchemaFields)
        (count after : ℕ)
        → depth ≤ limits.max_nesting_depth
        → count ≤ limits.max_fields
        → validate_fields limits depth path names fields count ≡ ok after
        → Accepted limits depth (height_fields fields) count (total_fields fields) after
          × SoundFields names fields
    fields-Accepted depth path names no_fields count after d c h =
        let e : count ≡ after = ok-injective h in ((omega arith, omega arith, omega (arith, e)), tt)
    fields-Accepted depth path names (schema_field name schema rest) count after d c h =
        let a = refuse-ok _ _ _ _ h in
        let b = refuse-ok _ _ _ _ a.1 in
        let m = >>=-ok _ _ _ b.1 in
        let r = node-Accepted (depth + 1) _ schema count m.0 c m.1 in
        let l : m.0 ≤ limits.max_fields = omega (arith, r.0.1, r.0.2) in
        let q = fields-Accepted depth path (name ∷ names) rest m.0 after d l m.2 in
        (
          (omega (arith, r.0.0, q.0.0), omega (arith, r.0.2, q.0.1), omega (arith, r.0.2, q.0.2)),
          (a.0, b.0, r.1, q.1),
        )

module _ (limits : BinaryIrLimits) (representable : limits.max_fields ≤ usize_max) where
  mutual
    unfolding validate_node count_fields has_name height total Sound

    node_accepts :
        (depth : ℕ) (path : SchemaPath) (schema : SchemaNode) (count : ℕ)
        → depth + height schema ≤ limits.max_nesting_depth
        → count + total schema ≤ limits.max_fields
        → Sound schema
        → validate_node limits depth path schema count ≡ ok (count + total schema)
    node_accepts depth path (node nullable kind) count d c s =
        rw (ltb-above limits.max_nesting_depth depth (omega (arith, d)), s.0)
          (kind_accepts depth path kind count d c s.1)

    kind_accepts :
        (depth : ℕ) (path : SchemaPath) (kind : SchemaKind) (count : ℕ)
        → depth + height_kind kind ≤ limits.max_nesting_depth
        → count + total_kind kind ≤ limits.max_fields
        → SoundKind kind
        → validate_kind limits depth path kind count ≡ ok (count + total_kind kind)
    kind_accepts depth path (array_kind items) count d c s =
        node_accepts (depth + 1) _ items count (omega (arith, d)) c s
    kind_accepts depth path (map_kind values) count d c s =
        node_accepts (depth + 1) _ values count (omega (arith, d)) c s
    kind_accepts depth path (record_kind fields) count d c s =
        let n = count + count_fields fields in
        rw
          (
            ltb-above usize_max n (omega (arith, c, representable)),
            ltb-above limits.max_fields n (omega (arith, c)),
            fields_accepts depth path [] fields n d (omega (arith, c)) s,
          )
          (ap ok (omega arith))
    kind_accepts depth path (decimal_kind precision scale) count d c s =
        rw (eqb-positive precision s.0, ltb-above precision scale s.1) (ap ok (omega arith))
    kind_accepts depth path (custom_kind type_id value) count d c s =
        rw s.0 (node_accepts (depth + 1) _ value count (omega (arith, d)) c s.1)
    kind_accepts depth path _ count d c s = ap ok (omega arith)

    fields_accepts :
        (depth : ℕ) (path : SchemaPath) (names : List Text) (fields : SchemaFields) (count : ℕ)
        → depth + height_fields fields ≤ limits.max_nesting_depth
        → count + total_fields fields ≤ limits.max_fields
        → SoundFields names fields
        → validate_fields limits depth path names fields count ≡ ok (count + total_fields fields)
    fields_accepts depth path names no_fields count d c s = ap ok (omega arith)
    fields_accepts depth path names (schema_field name schema rest) count d c s =
        let n = count + total schema in
        rw
          (
            s.0,
            s.1,
            node_accepts (depth + 1) _ schema count (omega (arith, d)) (omega (arith, c)) s.2,
            fields_accepts depth path (name ∷ names) rest n (omega (arith, d)) (omega (arith, c))
                s.3,
          )
          (ap ok (omega arith))

none_zero :
    (a b c d : ℕ)
    → (eqb a 0 || eqb b 0 || eqb c 0 || eqb d 0) ≡ false
    → (1 ≤ a) × (1 ≤ b) × (1 ≤ c) × (1 ≤ d)
none_zero a b c d h =
    let u = or-false (eqb a 0 || eqb b 0 || eqb c 0) (eqb d 0) h in
    let v = or-false (eqb a 0 || eqb b 0) (eqb c 0) u.0 in
    let w = or-false (eqb a 0) (eqb b 0) v.0 in
    (positive a w.0, positive b w.1, positive c v.1, positive d u.1)

pub validate_limits_iff :
    (limits : BinaryIrLimits) → (validate_limits limits ≡ ok tt) ↔ Usable limits
unfolding validate_limits
validate_limits_iff limits = (
  λ h.
      none_zero limits.max_encoded_schema_bytes limits.max_fields limits.max_nesting_depth
        limits.max_encoded_value_bytes
        (refuse-last (any_zero limits) (plain_error config_invalid limits_zero) h),
  λ u. rw (eqb-positive _ u.0, eqb-positive _ u.1, eqb-positive _ u.2, eqb-positive _ u.3),
)

pub validate_version_iff :
    (kind : DocumentKind) (actual expected : ℕ)
    → (validate_version kind actual expected ≡ ok tt) ↔ (actual ≡ expected)
unfolding validate_version
validate_version_iff kind actual expected = (
  λ h. (eqb_iff actual expected).0 (not-false _ (refuse-last _ _ h)),
  λ e. rw ((eqb_iff actual expected).1 e),
)

-- A schema is accepted just when the limits are positive, its version is the current one, its height
-- and its number of record fields keep within the limits, and each of its nodes is sound: a null is
-- not nullable, the fields of a record have names that are distinct and not empty, the scale of a
-- decimal is at most its precision, which is positive, and a custom type has an identifier. The limit
-- on the fields is a machine number.
pub validate_schema_iff :
    (limits : BinaryIrLimits) (schema : SchemaIr)
    → limits.max_fields ≤ usize_max
    → (validate_schema limits schema ≡ ok tt) ↔ (Usable limits × WellFormed limits schema)
unfolding validate_schema
validate_schema_iff limits schema representable = (
  λ h.
      let a = >>=-ok _ _ _ h in
      let b = >>=-ok _ _ _ a.2 in
      let r = >>=-ok _ _ _ b.2 in
      let q = node-Accepted limits 0 [] schema.root 0 r.0 (omega arith) r.1 in
      (
        (validate_limits_iff limits).0 a.1,
        (
          (validate_version_iff a_schema schema.version _).0 b.1,
          omega (arith, q.0.0),
          omega (arith, q.0.1),
          q.1,
        ),
      ),
  λ w. rw (
    (validate_limits_iff limits).1 w.0,
    (validate_version_iff a_schema schema.version _).1 w.1.0,
    node_accepts limits representable 0 [] schema.root 0 (omega (arith, w.1.1))
        (omega (arith, w.1.2)) w.1.3,
  ),
)

pub limits_checked :
    (limits : BinaryIrLimits) (schema : SchemaIr)
    → validate_schema limits schema ≡ ok tt
    → validate_limits limits ≡ ok tt
unfolding validate_schema
limits_checked limits schema h = (>>=-ok (validate_limits limits) _ tt h).1
