-- ===== src/Ir/Schema/Lookup.antt =====
-- The steps of `node_at_path` (binary_ir.rs).
use s.Prelude.{
  Option-cases, inl, inr, none, some, sym, ◌∙◌, ◌∷◌, ◌≡◌, nat_eq, string_eq, [], Bool, Bool-cases,
  List, ap, false, refl, subst, true, ◌++◌,
}
use s.Ir.Schema.{
  SchemaNode, child_node, node_at_path, SchemaFields, find_field, no_fields, schema_field,
}
use s.Ir.{SchemaPath, SchemaPathSegment, Text, has_name, same_text, text_iff}
use s.Ir.Schema.WellFormed.{Sound, SoundFields}

pub node_step :
    (n : SchemaNode) (s : SchemaPathSegment) (p : SchemaPath) (c : SchemaNode)
    → child_node n s ≡ some c
    → node_at_path n (s ∷ p) ≡ node_at_path c p
unfolding node_at_path
node_step n s p c h = rw (node_at_path, h)

pub node_stop :
    (n : SchemaNode) (s : SchemaPathSegment) (p : SchemaPath)
    → child_node n s ≡ none
    → node_at_path n (s ∷ p) ≡ none
unfolding node_at_path
node_stop n s p h = rw (node_at_path, h)

pub node_found :
    (n : SchemaNode) (s : SchemaPathSegment) (p : SchemaPath) (m : SchemaNode)
    → node_at_path n (s ∷ p) ≡ some m
    → (c : SchemaNode) × (child_node n s ≡ some c) × (node_at_path c p ≡ some m)
node_found n s p m h = elim (Option-cases (child_node n s)) [
  | inl e ↦ let f = node_stop n s p e in cc
  | inr c ↦ (c.0, c.1, sym (node_step n s p c.0 c.1) ∙ h)
]

pub root_node : (n m : SchemaNode) → node_at_path n [] ≡ some m → n ≡ m
unfolding node_at_path
root_node n m h = cc

-- The steps of a lookup one after the other.
pub node_at_path-append :
    (v : SchemaNode) (p q : SchemaPath) (w : SchemaNode)
    → node_at_path v p ≡ some w
    → node_at_path v (p ++ q) ≡ node_at_path w q
node_at_path-append v [] q w h = ap (λ x. node_at_path x q) (root_node v w h)
node_at_path-append v (s ∷ p) q w h =
    let c = node_found v s p w h in
    node_step v s (p ++ q) c.0 c.1 ∙ node_at_path-append c.0 p q w c.2

pub child_node_at :
    (root : SchemaNode) (path : SchemaPath) (n : SchemaNode) (s : SchemaPathSegment)
    (c : SchemaNode)
    → node_at_path root path ≡ some n
    → child_node n s ≡ some c
    → node_at_path root (path ++ s ∷ []) ≡ some c
unfolding node_at_path
child_node_at root path n s c h d =
    node_at_path-append root path (s ∷ []) n h ∙ node_step n s [] c d

-- A name that was seen is not among the fields that are left.
pub seen_absent :
    (name : Text) (names : List Text) (l : SchemaFields)
    → has_name name names ≡ true
    → SoundFields names l
    → find_field name l ≡ none
unfolding Sound find_field has_name
seen_absent name names no_fields seen sound = refl
seen_absent name names (schema_field k schema rest) seen sound =
    elim (Bool-cases (same_text k name)) [
      | inl e ↦
          let f = subst (λ q. has_name q names ≡ false) ((text_iff k name).0 e) sound.1 in
          absurd (both seen f)
      | inr e ↦ rw e (seen_absent name (k ∷ names) rest (rw (e, seen)) sound.3)
    ]
  where
    both : {b : Bool} → b ≡ true → b ≡ false → ⊥
    both h k = cc

pub other_field :
    (name k : Text) (names : List Text) (l : SchemaFields) (w : SchemaNode)
    → SoundFields (name ∷ names) l
    → find_field k l ≡ some w
    → same_text name k ≡ false
unfolding has_name
other_field name k names l w sound found = elim (Bool-cases (same_text name k)) [
  | inr n ↦ n
  | inl e ↦
      let seen : has_name name (name ∷ names) ≡ true = rw ((text_iff name name).1 refl) in
      let absent = seen_absent name (name ∷ names) l seen sound in
      let f = subst (λ q. find_field q l ≡ none) ((text_iff name k).0 e) absent in cc
]
