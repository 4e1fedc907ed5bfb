-- ===== src/Ir/Codec/RoundTrip.antt =====
-- What is encoded is decoded again, and what is decoded was canonical (binary_ir.rs).
use s.Prelude.{
  ◌>>=◌, List, Option, Result, ap, length, ltb, none, not, ok, ok_or, refl, some, subst, sym, ℕ,
  ◌∙◌, ◌≡◌, ◌≤◌, nat_eq, string_eq,
}
use s.Ir.Checked.{>>=-ok, >>=-runs, ltb-false, not-false, ok-injective, refuse-last, refuse-ok}
use s.Ir.{
  BinaryIrLimits, Code, DocumentKind, S4Error, a_schema, ensure_size, non_canonical, not_canonical,
  plain_error, same_text, text_iff, too_large, validate_limits, limit_input_bytes, decode_json,
  internal, usize_max,
}
use s.Ir.Schema.{SchemaIr, validate_schema}
use s.Ir.Codec.{
  SerdeJson, decode_schema, encode_schema, parse_canonical_json, reject_unit_variant_extras,
  schema_tags, serialize_json, Json, failed,
}
use s.Ir.Schema.Decided.{limits_checked, validate_schema_iff}
use s.Ir.Schema.WellFormed.{WellFormed}

abbrev schema_size : BinaryIrLimits → List ℕ → Result S4Error Unit
schema_size limits bytes =
    ensure_size a_schema (length bytes) limits.max_encoded_schema_bytes limit_input_bytes

size-runs :
    (kind : DocumentKind) (n limit : ℕ) (code : Code)
    → ensure_size kind n limit code ≡ ok tt
    → n ≤ limit
unfolding ensure_size
size-runs kind n limit code h =
    ltb-false limit n (refuse-last (ltb limit n) (plain_error code (too_large kind n limit)) h)

some_or-ok :
    {A B : Type 0} (o : Option A) (e : S4Error) (f : A → Result S4Error B) (b : B)
    → (ok_or o e >>= f) ≡ ok b
    → (a : A) × (o ≡ some a) × (f a ≡ ok b)
some_or-ok none e f b h = cc
some_or-ok (some a) e f b h = (a, refl, h)

some_or-last : {A : Type 0} (o : Option A) (e : S4Error) (a : A) → ok_or o e ≡ ok a → o ≡ some a
some_or-last none e a h = cc
some_or-last (some x) e a h = ap some (ok-injective h)

module _ (serde : SerdeJson) where
  serialized :
      (converted : Option Json) (bytes : List ℕ)
      → serialize_json serde converted ≡ ok bytes
      → (json : Json) × (converted ≡ some json) × (serde.to_vec json ≡ some bytes)
  unfolding serialize_json
  serialized converted bytes h =
      let a = some_or-ok converted _ _ bytes h in (a.0, a.1, some_or-last _ _ bytes a.2)

  canonical_parsed :
      (kind : DocumentKind) (bytes : List ℕ) (json : Json)
      → serde.from_slice bytes ≡ some json
      → serde.to_vec json ≡ some bytes
      → parse_canonical_json serde kind bytes ≡ ok json
  unfolding parse_canonical_json
  canonical_parsed kind bytes json r w = rw (r, w, (text_iff bytes bytes).1 refl)

  parsed_canonical :
      (kind : DocumentKind) (bytes : List ℕ) (json : Json)
      → parse_canonical_json serde kind bytes ≡ ok json
      → (serde.from_slice bytes ≡ some json) × (serde.to_vec json ≡ some bytes)
  unfolding parse_canonical_json
  parsed_canonical kind bytes json h =
      let a = some_or-ok (serde.from_slice bytes) (failed decode_json "") _ json h in
      let b = some_or-ok (serde.to_vec a.0) (failed internal "JSON encoding failed") _ json a.2 in
      let c =
        refuse-ok (not (same_text bytes b.0)) (plain_error non_canonical (not_canonical kind)) _
          json b.2 in
      let e : a.0 ≡ json = ok-injective c.1 in
      let f : bytes ≡ b.0 = (text_iff bytes b.0).0 (not-false _ c.0) in
      (
        subst (λ j. serde.from_slice bytes ≡ some j) e a.1,
        subst (λ q. serde.to_vec json ≡ some q) (sym f)
            (subst (λ j. serde.to_vec j ≡ some b.0) e b.1),
      )

  -- A schema that is encoded is decoded to itself under the same limits, when serde_json reads back
  -- what it wrote for this schema and the JSON of the schema is converted back to it and has no unit
  -- variant with other keys.
  pub schema_round_trip :
      (limits : BinaryIrLimits) (schema : SchemaIr) (bytes : List ℕ)
      → ((json : Json)
          → serde.schema_to_value schema ≡ some json
          → (serde.from_slice bytes ≡ some json)
            × (serde.schema_from_value json ≡ some schema)
            × (reject_unit_variant_extras a_schema schema_tags json ≡ ok tt))
      → encode_schema serde limits schema ≡ ok bytes
      → decode_schema serde limits bytes ≡ ok schema
  unfolding encode_schema decode_schema
  schema_round_trip limits schema bytes converts h =
      let a = >>=-ok (validate_schema limits schema) _ bytes h in
      let b = >>=-ok (serialize_json serde (serde.schema_to_value schema)) _ bytes a.2 in
      let c = >>=-ok (schema_size limits b.0) _ bytes b.2 in
      let e : b.0 ≡ bytes = ok-injective c.2 in
      let j = serialized (serde.schema_to_value schema) bytes (b.1 ∙ ap ok e) in
      let q = converts j.0 j.1 in
      let s : schema_size limits bytes ≡ ok tt = subst (λ l. schema_size limits l ≡ ok tt) e c.1 in
      >>=-runs (validate_limits limits) _ tt schema (limits_checked limits schema a.1) (
        >>=-runs (schema_size limits bytes) _ tt schema s (
          >>=-runs (parse_canonical_json serde a_schema bytes) _ j.0 schema
            (canonical_parsed a_schema bytes j.0 q.0 j.2)
            (>>=-runs (reject_unit_variant_extras a_schema schema_tags j.0) _ tt schema q.2
              (rw (q.1, a.1)))))

  -- A schema that is decoded is well formed, its encoding keeps within the limit, and the encoding is
  -- what serde_json writes for the JSON that it reads there, so no other bytes with that JSON are
  -- accepted.
  pub decode_schema_sound :
      (limits : BinaryIrLimits) (schema : SchemaIr) (bytes : List ℕ)
      → limits.max_fields ≤ usize_max
      → decode_schema serde limits bytes ≡ ok schema
      → WellFormed limits schema
        × (length bytes ≤ limits.max_encoded_schema_bytes)
        × ((json : Json) × (serde.from_slice bytes ≡ some json)
            × (serde.to_vec json ≡ some bytes)
            × (serde.schema_from_value json ≡ some schema))
  unfolding decode_schema
  decode_schema_sound limits schema bytes representable h =
      let a = >>=-ok (validate_limits limits) _ schema h in
      let b = >>=-ok (schema_size limits bytes) _ schema a.2 in
      let c = >>=-ok (parse_canonical_json serde a_schema bytes) _ schema b.2 in
      let d = >>=-ok (reject_unit_variant_extras a_schema schema_tags c.0) _ schema c.2 in
      let e = some_or-ok (serde.schema_from_value c.0) (failed decode_json "") _ schema d.2 in
      let f = >>=-ok (validate_schema limits e.0) _ schema e.2 in
      let g : e.0 ≡ schema = ok-injective f.2 in
      let v : validate_schema limits schema ≡ ok tt =
        subst (λ x. validate_schema limits x ≡ ok tt) g f.1 in
      let p = parsed_canonical a_schema bytes c.0 c.1 in
      (
        ((validate_schema_iff limits schema representable).0 v).1,
        size-runs a_schema (length bytes) limits.max_encoded_schema_bytes limit_input_bytes b.1,
        (c.0, p.0, p.1, e.1 ∙ ap some g),
      )
