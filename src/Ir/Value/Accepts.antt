-- ===== src/Ir/Value/Accepts.antt =====
-- A well-formed value passes its checks (binary_ir.rs, `Value::validate_inner`).
use s.Prelude.{
  List, Option, Result, String, [], arith, none, ok, refl, some, suc, ℕ, ◌++◌, ◌+◌, ◌∷◌, ◌≡◌, ◌≤◌,
  nat_eq, string_eq,
}
use s.Ir.Value.WellFormed.{
  Ascending, SoundItems, SoundMembers, SoundValue, entries_height, items_height, members_height,
  value_height,
}
use s.Ir.{BinaryIrLimits, S4Error, Text, ValuePath, array_index, field_of, logical_value, map_key}
use s.Ir.Value.{
  Entries, ItemList, Members, Value, array_value, custom_value, date_value, decimal_value, entry,
  item, map_entries, member, no_entries, no_items, no_members, record_value, time_value,
  timestamp_value, uuid_value,
}
use s.Ir.Checked.{ltb-above}
use s.Ir.Value.Check.{
  validate_entries, validate_items, validate_members, validate_value, well_spelled, within,
}

within-runs :
    (limits : BinaryIrLimits) (depth : ℕ) (path : ValuePath) (content : Result S4Error Unit)
    → depth ≤ limits.max_nesting_depth
    → content ≡ ok tt
    → within limits depth path content ≡ ok tt
within-runs limits depth path content d e = rw (ltb-above limits.max_nesting_depth depth d) e

spelled-runs : (path : ValuePath) (r : Result String Unit) → r ≡ ok tt → well_spelled path r ≡ ok tt
spelled-runs path r e = rw e

module _ (parse_uuid : Text → Option Text) (limits : BinaryIrLimits) where
  abbrev Fits : ℕ → ℕ → Type 0
  Fits depth h = depth + h ≤ limits.max_nesting_depth

  mutual
    unfolding validate_value value_height SoundValue

    pub value_accepts :
        (depth : ℕ) (path : ValuePath) (v : Value)
        → Fits depth (value_height v)
        → SoundValue parse_uuid v
        → validate_value parse_uuid limits depth path v ≡ ok tt
    value_accepts depth path (array_value items) d s =
        within-runs limits depth path _ (omega (arith, d)) (items_accepts depth path 0 items d s)
    value_accepts depth path (map_entries entries) d s =
        within-runs limits depth path _ (omega (arith, d))
          (entries_accepts depth path none entries d s)
    value_accepts depth path (record_value members) d s =
        within-runs limits depth path _ (omega (arith, d))
          (members_accepts depth path [] members d s)
    value_accepts depth path (date_value t) d s =
        within-runs limits depth path _ (omega (arith, d)) (spelled-runs path _ s)
    value_accepts depth path (time_value t) d s =
        within-runs limits depth path _ (omega (arith, d)) (spelled-runs path _ s)
    value_accepts depth path (timestamp_value t) d s =
        within-runs limits depth path _ (omega (arith, d)) (spelled-runs path _ s)
    value_accepts depth path (uuid_value t) d s =
        within-runs limits depth path _ (omega (arith, d)) (spelled-runs path _ s)
    value_accepts depth path (decimal_value t) d s =
        within-runs limits depth path _ (omega (arith, d)) (rw s.1)
    value_accepts depth path (custom_value type_id value) d s =
        let r =
          value_accepts (depth + 1) (path ++ logical_value ∷ []) value (omega (arith, d)) s.1 in
        within-runs limits depth path _ (omega (arith, d)) (rw s.0 r)
    value_accepts depth path _ d s = within-runs limits depth path (ok tt) (omega (arith, d)) refl

    items_accepts :
        (depth : ℕ) (path : ValuePath) (n : ℕ) (l : ItemList)
        → Fits depth (items_height l)
        → SoundItems parse_uuid l
        → validate_items parse_uuid limits depth path n l ≡ ok tt
    items_accepts depth path n no_items d s = refl
    items_accepts depth path n (item x rest) d s =
        rw (value_accepts (depth + 1) (path ++ array_index n ∷ []) x (omega (arith, d)) s.0)
          (items_accepts depth path (suc n) rest (omega (arith, d)) s.1)

    entries_accepts :
        (depth : ℕ) (path : ValuePath) (previous : Option Text) (l : Entries)
        → Fits depth (entries_height l)
        → Ascending parse_uuid previous l
        → validate_entries parse_uuid limits depth path previous l ≡ ok tt
    entries_accepts depth path previous no_entries d s = refl
    entries_accepts depth path previous (entry key x rest) d s =
        rw (s.0, value_accepts (depth + 1) (path ++ map_key key ∷ []) x (omega (arith, d)) s.1)
          (entries_accepts depth path (some key) rest (omega (arith, d)) s.2)

    members_accepts :
        (depth : ℕ) (path : ValuePath) (names : List Text) (l : Members)
        → Fits depth (members_height l)
        → SoundMembers parse_uuid names l
        → validate_members parse_uuid limits depth path names l ≡ ok tt
    members_accepts depth path names no_members d s = refl
    members_accepts depth path names (member name x rest) d s =
        rw
          (
            s.0,
            s.1,
            value_accepts (depth + 1) (path ++ field_of name ∷ []) x (omega (arith, d)) s.2,
          )
          (members_accepts depth path (name ∷ names) rest (omega (arith, d)) s.3)
