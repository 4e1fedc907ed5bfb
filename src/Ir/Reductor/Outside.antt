-- ===== src/Ir/Reductor/Outside.antt =====
-- Outside its claims a reductor leaves the schema as it is (binary_reductor.rs,
-- `ensure_schema_changes_are_claimed`).
use s.Prelude.{
  ◌>>◌, Bool, Bool-cases, List, Result, [], ap, append_assoc, arith, eqb_iff, false, if◌then◌else◌,
  inl, inr, not, ok, refl, some, subst, sym, true, ◌++◌, ◌||◌, ◌∙◌, ◌∷◌, ◌≡◌, nat_eq, string_eq,
}
use s.Ir.Checked.{>>=-ok, and-true, not-false, or-false, refuse-last, refuse-ok, some-injective}
use s.Ir.Reductor.{
  BinaryReductorClaim, ensure_fields, ensure_node_changes_are_claimed,
  ensure_schema_changes_are_claimed, guarded, is_claimed, path_is_prefix, same_node, same_segment,
  unchanged, unclaimed_schema_change,
}
use s.Ir.{
  S4Error, SchemaPath, SchemaPathSegment, Text, array_element, field_segment, logical_segment,
  map_value, same_text, text_iff, refuse, same_bool,
}
use s.Ir.Schema.{
  SchemaFields, SchemaIr, SchemaNode, array_kind, child_node, count_fields, custom_kind, find_field,
  map_kind, no_fields, node, node_at_path, null_kind, record_kind, schema_field,
}
use s.Ir.Schema.Lookup.{node_found, node_step, root_node}
use s.Ir.Reductor.Same.{same_bool-eq, same_node-eq}

abbrev blank : SchemaNode
blank = node false null_kind

abbrev blank_fields : SchemaFields → SchemaFields
blank_fields no_fields = no_fields
blank_fields (schema_field name schema rest) = schema_field name blank (blank_fields rest)

-- A node without what is below it: whether it may be null, its kind, and its fields' names.
abbrev pub outline : SchemaNode → SchemaNode
outline (node a (array_kind x)) = node a (array_kind blank)
outline (node a (map_kind x)) = node a (map_kind blank)
outline (node a (record_kind l)) = node a (record_kind (blank_fields l))
outline (node a (custom_kind i x)) = node a (custom_kind i blank)
outline (node a k) = node a k

-- A claim on a path is a claim on all that is below it.
prefix_below :
    (p path q : SchemaPath) → path_is_prefix p path ≡ true → path_is_prefix p (path ++ q) ≡ true
unfolding path_is_prefix
prefix_below [] path q h = refl
prefix_below (s ∷ p) [] q h = cc
prefix_below (s ∷ p) (t ∷ path) q h =
    let a = and-true (same_segment s t) (path_is_prefix p path) h in
    rw (a.0, prefix_below p path q a.1)

or-left : (a b : Bool) → a ≡ true → (a || b) ≡ true
or-left true b h = refl
or-left false b h = cc

claimed_above :
    (claims : List BinaryReductorClaim) (path q : SchemaPath)
    → is_claimed claims (path ++ q) ≡ false
    → is_claimed claims path ≡ false
unfolding is_claimed
claimed_above [] path q h = refl
claimed_above (c ∷ claims) path q h =
    let a = or-false (path_is_prefix c.path (path ++ q)) (is_claimed claims (path ++ q)) h in
    elim (Bool-cases (path_is_prefix c.path path)) [
      | inl e ↦ let f = prefix_below c.path path q e in cc
      | inr e ↦ rw e (claimed_above claims path q a.1)
    ]

module _ (claims : List BinaryReductorClaim) where
  guarded-ok :
      (path : SchemaPath) (a b : Bool) (rest : Result S4Error Unit)
      → is_claimed claims path ≡ false
      → guarded claims path a b rest ≡ ok tt
      → (a ≡ b) × (rest ≡ ok tt)
  guarded-ok path a b rest free h =
      let g : (refuse (not (same_bool a b)) (unclaimed_schema_change path) >> rest) ≡ ok tt =
        subst
          (λ q.
            (if q
              then ok tt
              else refuse (not (same_bool a b)) (unclaimed_schema_change path) >> rest)
            ≡ ok tt)
          free h in
      let r = refuse-ok (not (same_bool a b)) (unclaimed_schema_change path) rest tt g in
      (same_bool-eq a b (not-false _ r.0), r.1)

  -- What is at a path in one schema has the same outline in the other.
  abbrev Kept : SchemaNode → SchemaPath → SchemaNode → Type 0
  Kept t q n = (m : SchemaNode) × (node_at_path t q ≡ some m) × (outline n ≡ outline m)

  unchanged-Kept :
      (path : SchemaPath) (a b : Bool) (s t : SchemaNode) (q : SchemaPath) (n : SchemaNode)
      → is_claimed claims (path ++ q) ≡ false
      → guarded claims path a b (unchanged path (same_node s t)) ≡ ok tt
      → node_at_path s q ≡ some n
      → Kept t q n
  unchanged-Kept path a b s t q n free h at =
      let g = guarded-ok path a b _ (claimed_above claims path q free) h in
      let e =
        same_node-eq s t
          (not-false _ (refuse-last (not (same_node s t)) (unclaimed_schema_change path) g.1)) in
      (n, subst (λ x. node_at_path x q ≡ some n) e at, refl)

  step_below :
      (path : SchemaPath) (s : SchemaPathSegment) (q : SchemaPath)
      → is_claimed claims (path ++ s ∷ q) ≡ false
      → is_claimed claims ((path ++ s ∷ []) ++ q) ≡ false
  step_below path s q h =
      subst (λ p. is_claimed claims p ≡ false) (sym (append_assoc path (s ∷ []) q)) h

  custom_kept :
      (path : SchemaPath) (a b : Bool) (i j : Text) (x y : SchemaNode) (q : SchemaPath)
      (n : SchemaNode)
      → is_claimed claims (path ++ q) ≡ false
      → i ≡ j
      → a ≡ b
      → ((r : SchemaPath)
          → is_claimed claims ((path ++ logical_segment ∷ []) ++ r) ≡ false
          → node_at_path x r ≡ some n
          → Kept y r n)
      → node_at_path (node a (custom_kind i x)) q ≡ some n
      → Kept (node b (custom_kind j y)) q n
  unfolding node_at_path child_node
  custom_kept path a b i j x y [] n free e f below at =
      let g = root_node (node a (custom_kind i x)) n at in
      (
        node b (custom_kind j y),
        refl,
        subst (λ m. outline m ≡ node b (custom_kind j blank)) g
            (ap (λ c. node c (custom_kind i blank)) f ∙ ap (λ t. node b (custom_kind t blank)) e),
      )
  custom_kept path a b i j x y (logical_segment ∷ q) n free e f below at =
      below q (step_below path logical_segment q free) at
  custom_kept path a b i j x y _ n free e f below at = cc

  mutual
    unfolding ensure_node_changes_are_claimed node_at_path child_node count_fields find_field

    kept :
        (path : SchemaPath) (s t : SchemaNode) (q : SchemaPath) (n : SchemaNode)
        → is_claimed claims (path ++ q) ≡ false
        → ensure_node_changes_are_claimed claims path s t ≡ ok tt
        → node_at_path s q ≡ some n
        → Kept t q n
    kept path (node a (array_kind x)) (node b (array_kind y)) [] n free h at =
        let g = guarded-ok path a b _ (claimed_above claims path [] free) h in
        let e = root_node (node a (array_kind x)) n at in
        (
          node b (array_kind y),
          refl,
          subst (λ m. outline m ≡ node b (array_kind blank)) e
              (ap (λ c. node c (array_kind blank)) g.0),
        )
    kept path (node a (array_kind x)) (node b (array_kind y)) (array_element ∷ q) n free h at =
        let g = guarded-ok path a b _ (claimed_above claims path (array_element ∷ q) free) h in
        kept (path ++ array_element ∷ []) x y q n (step_below path array_element q free) g.1 at
    kept path (node a (array_kind x)) (node b (array_kind y)) _ n free h at = cc
    kept path (node a (map_kind x)) (node b (map_kind y)) [] n free h at =
        let g = guarded-ok path a b _ (claimed_above claims path [] free) h in
        let e = root_node (node a (map_kind x)) n at in
        (
          node b (map_kind y),
          refl,
          subst (λ m. outline m ≡ node b (map_kind blank)) e
              (ap (λ c. node c (map_kind blank)) g.0),
        )
    kept path (node a (map_kind x)) (node b (map_kind y)) (map_value ∷ q) n free h at =
        let g = guarded-ok path a b _ (claimed_above claims path (map_value ∷ q) free) h in
        kept (path ++ map_value ∷ []) x y q n (step_below path map_value q free) g.1 at
    kept path (node a (map_kind x)) (node b (map_kind y)) _ n free h at = cc
    kept path (node a (record_kind x)) (node b (record_kind y)) [] n free h at =
        let g = guarded-ok path a b _ (claimed_above claims path [] free) h in
        let c = refuse-ok _ (unclaimed_schema_change path) (ensure_fields claims path x y) tt g.1 in
        let d = (eqb_iff (count_fields x) (count_fields y)).0 (not-false _ c.0) in
        let e = root_node (node a (record_kind x)) n at in
        let f = names_kept path x y d c.1 in
        (
          node b (record_kind y),
          refl,
          subst (λ m. outline m ≡ node b (record_kind (blank_fields y))) e
              (ap (λ c. node c (record_kind (blank_fields x))) g.0
                ∙ ap (λ l. node b (record_kind l)) f),
        )
    kept path (node a (record_kind x)) (node b (record_kind y)) (field_segment name ∷ q) n free h
          at =
        let g = guarded-ok path a b _ (claimed_above claims path (field_segment name ∷ q) free) h in
        let c = refuse-ok _ (unclaimed_schema_change path) (ensure_fields claims path x y) tt g.1 in
        let d = (eqb_iff (count_fields x) (count_fields y)).0 (not-false _ c.0) in
        let r = node_found (node a (record_kind x)) (field_segment name) q n at in
        let f =
          field_kept path x y name q r.0 n (step_below path (field_segment name) q free) d c.1 r.1
            r.2 in
        (f.1.0, node_step (node b (record_kind y)) (field_segment name) q f.0 f.2 ∙ f.1.1, f.1.2)
    kept path (node a (record_kind x)) (node b (record_kind y)) _ n free h at = cc
    kept path (node a (custom_kind i x)) (node b (custom_kind j y)) q n free h at =
        elim (Bool-cases (same_text i j)) [
          | inr e ↦
              unchanged-Kept path a b (node a (custom_kind i x)) (node b (custom_kind j y)) q n free
                (subst
                  (λ z.
                    guarded claims path a b (
                      if z
                      then ensure_node_changes_are_claimed claims (path ++ logical_segment ∷ []) x y
                      else unchanged path
                          (same_node (node a (custom_kind i x)) (node b (custom_kind j y))))
                    ≡ ok tt)
                  e h)
                at
          | inl e ↦
              let f =
                subst
                  (λ z.
                    guarded claims path a b (
                      if z
                      then ensure_node_changes_are_claimed claims (path ++ logical_segment ∷ []) x y
                      else unchanged path
                          (same_node (node a (custom_kind i x)) (node b (custom_kind j y))))
                    ≡ ok tt)
                  e h in
              let g = guarded-ok path a b _ (claimed_above claims path q free) f in
              custom_kept path a b i j x y q n free ((text_iff i j).0 e) g.0
                (λ r fr found. kept (path ++ logical_segment ∷ []) x y r n fr g.1 found) at
        ]
    kept path (node a k) (node b l) q n free h at =
        unchanged-Kept path a b (node a k) (node b l) q n free h at

    names_kept :
        (path : SchemaPath) (x y : SchemaFields)
        → count_fields x ≡ count_fields y
        → ensure_fields claims path x y ≡ ok tt
        → blank_fields x ≡ blank_fields y
    names_kept path no_fields no_fields d h = refl
    names_kept path no_fields (schema_field _ _ _) d h = absurd (omega (arith, d))
    names_kept path (schema_field _ _ _) no_fields d h = absurd (omega (arith, d))
    names_kept path (schema_field u m l) (schema_field v k r) d h =
        let a = refuse-ok (not (same_text u v)) (unclaimed_schema_change path) _ tt h in
        let b =
          >>=-ok (ensure_node_changes_are_claimed claims (path ++ field_segment u ∷ []) m k) _ tt
            a.1 in
        let e = (text_iff u v).0 (not-false _ a.0) in
        let f = names_kept path l r (omega (arith, d)) b.2 in cc

    field_kept :
        (path : SchemaPath) (x y : SchemaFields) (name : Text) (q : SchemaPath) (c n : SchemaNode)
        → is_claimed claims ((path ++ field_segment name ∷ []) ++ q) ≡ false
        → count_fields x ≡ count_fields y
        → ensure_fields claims path x y ≡ ok tt
        → find_field name x ≡ some c
        → node_at_path c q ≡ some n
        → (t : SchemaNode) × Kept t q n × (find_field name y ≡ some t)
    field_kept path no_fields y name q c n free d h found at = cc
    field_kept path (schema_field _ _ _) no_fields name q c n free d h found at =
        absurd (omega (arith, d))
    field_kept path (schema_field u m l) (schema_field v k r) name q c n free d h found at =
        let a = refuse-ok (not (same_text u v)) (unclaimed_schema_change path) _ tt h in
        let b =
          >>=-ok (ensure_node_changes_are_claimed claims (path ++ field_segment u ∷ []) m k) _ tt
            a.1 in
        let e = (text_iff u v).0 (not-false _ a.0) in
        elim (Bool-cases (same_text u name)) [
          | inl z ↦
              let g : some m ≡ some c =
                subst (λ w. (if w then some m else find_field name l) ≡ some c) z found in
              let at_m = subst (λ w. node_at_path w q ≡ some n) (some-injective (sym g)) at in
              let free_u =
                subst (λ w. is_claimed claims ((path ++ field_segment w ∷ []) ++ q) ≡ false)
                  (sym ((text_iff u name).0 z)) free in
              let here : same_text v name ≡ true = subst (λ w. same_text w name ≡ true) e z in
              (k, kept (path ++ field_segment u ∷ []) m k q n free_u b.1 at_m, rw here)
          | inr z ↦
              let g : find_field name l ≡ some c =
                subst (λ w. (if w then some m else find_field name l) ≡ some c) z found in
              let there : same_text v name ≡ false = subst (λ w. same_text w name ≡ false) e z in
              let f = field_kept path l r name q c n free (omega (arith, d)) b.2 g at in
              (f.0, f.1, rw there f.2)
        ]

-- When the check passes, every node of the source schema whose path has no claim above it or on it is
-- at the same path of the transformed schema, with the same outline: as nullable, of the same kind,
-- with the same fields in their order, the same precision and scale, or the same custom type.
pub changes_claimed :
    (claims : List BinaryReductorClaim) (source transformed : SchemaIr) (path : SchemaPath)
    (n : SchemaNode)
    → ensure_schema_changes_are_claimed claims source transformed ≡ ok tt
    → is_claimed claims path ≡ false
    → node_at_path source.root path ≡ some n
    → (m : SchemaNode) × (node_at_path transformed.root path ≡ some m) × (outline n ≡ outline m)
unfolding ensure_schema_changes_are_claimed
changes_claimed claims source transformed path n h free at =
    kept claims [] source.root transformed.root path n free h at
