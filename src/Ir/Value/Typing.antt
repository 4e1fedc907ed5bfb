-- ===== src/Ir/Value/Typing.antt =====
-- When a value is of a schema's type (binary_ir.rs, `validate_value_against_schema`).
use s.Prelude.{
  Bool, [], ap, eqb_iff, ok, refl, suc, true, ℕ, ◌++◌, ◌||◌, ◌∷◌, ◌≡◌, ◌≤◌, nat_eq, string_eq,
  arith, ltb, subst, ◌↔◌,
}
use s.Ir.Decimals.{DecimalParts, parse_decimal}
use s.Ir.Value.{
  Entries, Members, Value, array_value, boolean_value, bytes_value, custom_value, date_value,
  decimal_value, entry, f32_value, f64_value, i32_value, i64_value, item, map_entries, member,
  no_entries, no_items, no_members, null_value, record_value, string_value, time_value,
  timestamp_value, uuid_value, ItemList,
}
use s.Ir.Schema.{
  SchemaFields, SchemaKind, SchemaNode, array_kind, boolean_kind, bytes_kind, count_fields,
  custom_kind, date_kind, decimal_kind, f32_kind, f64_kind, i32_kind, i64_kind, is_null, map_kind,
  no_fields, node, record_kind, schema_field, string_kind, time_kind, timestamp_kind, uuid_kind,
}
use s.Ir.{
  Text, ValuePath, array_index, field_of, map_key, text_iff, logical_value, required_null,
  scale_mismatch, value_error,
}
use s.Ir.Value.Against.{
  against_entries, against_fields, against_items, against_schema, count_members,
}
use s.Ir.Checked.{ltb-above, >>=-ok, ltb-false, not-false, refuse-last, refuse-ok}
use s.Prelude.Int.{ℤ}
use s.Ir.Value.Check.{well_spelled-ok}

-- A null where nulls may be, or a value of the schema's kind whose parts are of the types of the
-- parts, the fields of a record in the order of the schema.
infix 5 ◌∶ᵛ◌ ◌∶ⁱ◌ ◌∶ᵉ◌ ◌∶ᶠ◌
mutual
  pub data ◌∶ᵛ◌ : Value → SchemaNode → Type 0 where
    of_null :
        {nullable : Bool} {kind : SchemaKind}
        → (nullable || is_null kind) ≡ true
        → null_value ∶ᵛ node nullable kind
    of_boolean : {b : Bool} {nullable : Bool} → boolean_value b ∶ᵛ node nullable boolean_kind
    of_i32 : {z : ℤ} {nullable : Bool} → i32_value z ∶ᵛ node nullable i32_kind
    of_i64 : {z : ℤ} {nullable : Bool} → i64_value z ∶ᵛ node nullable i64_kind
    of_f32 : {bits : ℕ} {nullable : Bool} → f32_value bits ∶ᵛ node nullable f32_kind
    of_f64 : {bits : ℕ} {nullable : Bool} → f64_value bits ∶ᵛ node nullable f64_kind
    of_string : {t : Text} {nullable : Bool} → string_value t ∶ᵛ node nullable string_kind
    of_bytes : {t : Text} {nullable : Bool} → bytes_value t ∶ᵛ node nullable bytes_kind
    of_date : {t : Text} {nullable : Bool} → date_value t ∶ᵛ node nullable date_kind
    of_time : {t : Text} {nullable : Bool} → time_value t ∶ᵛ node nullable time_kind
    of_timestamp : {t : Text} {nullable : Bool} → timestamp_value t ∶ᵛ node nullable timestamp_kind
    of_uuid : {t : Text} {nullable : Bool} → uuid_value t ∶ᵛ node nullable uuid_kind
    of_array :
        {items : ItemList} {schema : SchemaNode} {nullable : Bool}
        → items ∶ⁱ schema
        → array_value items ∶ᵛ node nullable (array_kind schema)
    of_map :
        {entries : Entries} {schema : SchemaNode} {nullable : Bool}
        → entries ∶ᵉ schema
        → map_entries entries ∶ᵛ node nullable (map_kind schema)
    of_record :
        {members : Members} {fields : SchemaFields} {nullable : Bool}
        → members ∶ᶠ fields
        → record_value members ∶ᵛ node nullable (record_kind fields)
    of_decimal :
        {t : Text} {precision scale : ℕ} {nullable : Bool} (parts : DecimalParts)
        → parse_decimal t ≡ ok parts
        → parts.scale ≡ scale
        → parts.precision ≤ precision
        → decimal_value t ∶ᵛ node nullable (decimal_kind precision scale)
    of_custom :
        {type_id : Text} {value : Value} {schema : SchemaNode} {nullable : Bool}
        → value ∶ᵛ schema
        → custom_value type_id value ∶ᵛ node nullable (custom_kind type_id schema)

  pub data ◌∶ⁱ◌ : ItemList → SchemaNode → Type 0 where
    none_left : {schema : SchemaNode} → no_items ∶ⁱ schema
    one_more :
        {x : Value} {rest : ItemList} {schema : SchemaNode}
        → x ∶ᵛ schema
        → rest ∶ⁱ schema
        → item x rest ∶ⁱ schema

  pub data ◌∶ᵉ◌ : Entries → SchemaNode → Type 0 where
    no_entry : {schema : SchemaNode} → no_entries ∶ᵉ schema
    with_entry :
        {key : Text} {x : Value} {rest : Entries} {schema : SchemaNode}
        → x ∶ᵛ schema
        → rest ∶ᵉ schema
        → entry key x rest ∶ᵉ schema

  pub data ◌∶ᶠ◌ : Members → SchemaFields → Type 0 where
    no_field : no_members ∶ᶠ no_fields
    with_field :
        {name : Text} {x : Value} {rest : Members} {schema : SchemaNode} {fields : SchemaFields}
        → x ∶ᵛ schema
        → rest ∶ᶠ fields
        → member name x rest ∶ᶠ schema_field name schema fields

mutual
  unfolding against_schema count_members count_fields

  -- Every value of the type is accepted.
  typed_accepted :
      (path : ValuePath) {v : Value} {n : SchemaNode} → v ∶ᵛ n → against_schema path v n ≡ ok tt
  typed_accepted path (of_null h) = rw h
  typed_accepted path of_boolean = refl
  typed_accepted path of_i32 = refl
  typed_accepted path of_i64 = refl
  typed_accepted path of_f32 = refl
  typed_accepted path of_f64 = refl
  typed_accepted path of_string = refl
  typed_accepted path of_bytes = refl
  typed_accepted path of_date = refl
  typed_accepted path of_time = refl
  typed_accepted path of_timestamp = refl
  typed_accepted path of_uuid = refl
  typed_accepted path (of_array items) = items_accepted path 0 items
  typed_accepted path (of_map entries) = entries_accepted path entries
  typed_accepted path (of_record fields) =
      rw ((eqb_iff _ _).1 (typed_length fields)) (fields_accepted path fields)
  typed_accepted path (of_decimal parts e s p) = rw (e, (eqb_iff _ _).1 s, ltb-above _ _ p)
  typed_accepted path (of_custom {type_id} value) =
      rw ((text_iff type_id type_id).1 refl) (typed_accepted _ value)

  items_accepted :
      (path : ValuePath) (n : ℕ) {l : ItemList} {s : SchemaNode}
      → l ∶ⁱ s
      → against_items path n l s ≡ ok tt
  items_accepted path n none_left = refl
  items_accepted path n (one_more x rest) =
      rw (typed_accepted (path ++ array_index n ∷ []) x) (items_accepted path (suc n) rest)

  entries_accepted :
      (path : ValuePath) {l : Entries} {s : SchemaNode} → l ∶ᵉ s → against_entries path l s ≡ ok tt
  entries_accepted path no_entry = refl
  entries_accepted path (with_entry {key} x rest) =
      rw (typed_accepted (path ++ map_key key ∷ []) x) (entries_accepted path rest)

  fields_accepted :
      (path : ValuePath) {l : Members} {s : SchemaFields} → l ∶ᶠ s → against_fields path l s ≡ ok tt
  fields_accepted path no_field = refl
  fields_accepted path (with_field {name} x rest) =
      rw ((text_iff name name).1 refl, typed_accepted (path ++ field_of name ∷ []) x)
        (fields_accepted path rest)

  typed_length : {l : Members} {s : SchemaFields} → l ∶ᶠ s → count_members l ≡ count_fields s
  typed_length no_field = refl
  typed_length (with_field x rest) = ap suc (typed_length rest)

mutual
  unfolding against_schema count_members count_fields

  accepted_typed :
      (path : ValuePath) (v : Value) (n : SchemaNode) → against_schema path v n ≡ ok tt → v ∶ᵛ n
  accepted_typed path null_value (node nullable kind) h =
      of_null (not-false _ (refuse-last _ (value_error path required_null) h))
  accepted_typed path (boolean_value _) (node _ boolean_kind) h = of_boolean
  accepted_typed path (i32_value _) (node _ i32_kind) h = of_i32
  accepted_typed path (i64_value _) (node _ i64_kind) h = of_i64
  accepted_typed path (f32_value _) (node _ f32_kind) h = of_f32
  accepted_typed path (f64_value _) (node _ f64_kind) h = of_f64
  accepted_typed path (string_value _) (node _ string_kind) h = of_string
  accepted_typed path (bytes_value _) (node _ bytes_kind) h = of_bytes
  accepted_typed path (date_value _) (node _ date_kind) h = of_date
  accepted_typed path (time_value _) (node _ time_kind) h = of_time
  accepted_typed path (timestamp_value _) (node _ timestamp_kind) h = of_timestamp
  accepted_typed path (uuid_value _) (node _ uuid_kind) h = of_uuid
  accepted_typed path (array_value items) (node _ (array_kind schema)) h =
      of_array (accepted_items path 0 items schema h)
  accepted_typed path (map_entries entries) (node _ (map_kind schema)) h =
      of_map (accepted_entries path entries schema h)
  accepted_typed path (record_value members) (node _ (record_kind fields)) h =
      let a = refuse-ok _ _ _ _ h in
      let e = (eqb_iff (count_members members) (count_fields fields)).0 (not-false _ a.0) in
      of_record (accepted_fields path members fields e a.1)
  accepted_typed path (decimal_value t) (node _ (decimal_kind precision scale)) h =
      let d = well_spelled-ok path (parse_decimal t) _ tt h in
      let a = refuse-ok _ (value_error path (scale_mismatch d.0.scale scale)) _ _ d.2 in
      let e = (eqb_iff d.0.scale scale).0 (not-false _ a.0) in
      let f = refuse-last (ltb precision d.0.precision) _ a.1 in
      of_decimal d.0 d.1 e (ltb-false precision d.0.precision f)
  accepted_typed path (custom_value type_id value) (node nullable (custom_kind id schema)) h =
      let a = refuse-ok _ _ _ _ h in
      let e = (text_iff type_id id).0 (not-false _ a.0) in
      let r = accepted_typed (path ++ logical_value ∷ []) value schema a.1 in
      subst (λ i. custom_value type_id value ∶ᵛ node nullable (custom_kind i schema)) e
        (of_custom r)
  accepted_typed path value (node _ kind) h = cc

  accepted_items :
      (path : ValuePath) (n : ℕ) (l : ItemList) (s : SchemaNode)
      → against_items path n l s ≡ ok tt
      → l ∶ⁱ s
  accepted_items path n no_items s h = none_left
  accepted_items path n (item x rest) s h =
      let a = >>=-ok _ _ _ h in
      one_more (accepted_typed (path ++ array_index n ∷ []) x s a.1)
        (accepted_items path (suc n) rest s a.2)

  accepted_entries :
      (path : ValuePath) (l : Entries) (s : SchemaNode) → against_entries path l s ≡ ok tt → l ∶ᵉ s
  accepted_entries path no_entries s h = no_entry
  accepted_entries path (entry key x rest) s h =
      let a = >>=-ok _ _ _ h in
      with_entry (accepted_typed (path ++ map_key key ∷ []) x s a.1)
        (accepted_entries path rest s a.2)

  accepted_fields :
      (path : ValuePath) (l : Members) (s : SchemaFields)
      → count_members l ≡ count_fields s
      → against_fields path l s ≡ ok tt
      → l ∶ᶠ s
  accepted_fields path no_members no_fields e h = no_field
  accepted_fields path no_members (schema_field _ _ _) e h = absurd (omega (arith, e))
  accepted_fields path (member _ _ _) no_fields e h = absurd (omega (arith, e))
  accepted_fields path (member name x rest) (schema_field n schema fields) e h =
      let a = refuse-ok _ _ _ _ h in
      let b = >>=-ok _ _ _ a.1 in
      let f = (text_iff name n).0 (not-false _ a.0) in
      let r = accepted_fields path rest fields (omega (arith, e)) b.2 in
      let x_typed = accepted_typed (path ++ field_of name ∷ []) x schema b.1 in
      subst (λ q. member name x rest ∶ᶠ schema_field q schema fields) f (with_field x_typed r)

-- A value passes the check against a schema just when it is of the schema's type: a null only where
-- nulls may be, every other value of the kind that the schema names, its items, entries and custom
-- contents of the types of the parts, its fields those of the schema in their order, and a decimal of
-- the scale of the schema and of at most its precision.
pub against_schema_iff :
    (path : ValuePath) (v : Value) (n : SchemaNode) → (against_schema path v n ≡ ok tt) ↔ (v ∶ᵛ n)
against_schema_iff path v n = (accepted_typed path v n, typed_accepted path)
