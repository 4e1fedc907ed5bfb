-- ===== src/Ir/Value/Accepted.antt =====
-- A value that passes its checks is well formed (binary_ir.rs, `Value::validate_inner`).
use s.Prelude.{
  List, Option, Result, String, [], arith, err, is_empty, none, ok, refl, some, suc, ℕ, ◌++◌, ◌+◌,
  ◌∷◌, ◌≡◌, ◌≤◌, nat_eq, string_eq,
}
use s.Ir.Checked.{>>=-ok, ltb-false, refuse-ok}
use s.Ir.Value.WellFormed.{
  Ascending, SoundItems, SoundMembers, SoundValue, entries_height, items_height, members_height,
  value_height,
}
use s.Ir.{
  BinaryIrLimits, S4Error, Text, ValuePath, array_index, duplicate_name, empty_name, empty_type_id,
  field_of, has_name, logical_value, map_key, unordered_keys, value_error,
}
use s.Ir.Value.{
  Entries, ItemList, Members, Value, array_value, custom_value, date_value, decimal_value, entry,
  item, map_entries, member, no_entries, no_items, no_members, record_value, time_value,
  timestamp_value, uuid_value,
}
use s.Ir.Value.Check.{
  not_above, validate_entries, validate_items, validate_members, validate_uuid, validate_value,
  well_spelled, well_spelled-ok, within,
}
use s.Ir.Decimals.{parse_decimal}
use s.Ir.Dates.{validate_date, validate_time, validate_timestamp}

within-ok :
    (limits : BinaryIrLimits) (depth : ℕ) (path : ValuePath) (content : Result S4Error Unit)
    → within limits depth path content ≡ ok tt
    → (depth ≤ limits.max_nesting_depth) × (content ≡ ok tt)
within-ok limits depth path content h =
    let a = refuse-ok _ _ content tt h in (ltb-false limits.max_nesting_depth depth a.0, a.1)

spelled-ok : (path : ValuePath) (r : Result String Unit) → well_spelled path r ≡ ok tt → r ≡ ok tt
spelled-ok path (ok tt) h = refl
spelled-ok path (err e) h = cc

module _ (parse_uuid : Text → Option Text) (limits : BinaryIrLimits) where
  abbrev Fits : ℕ → ℕ → Type 0
  Fits depth h = depth + h ≤ limits.max_nesting_depth

  mutual
    unfolding validate_value value_height SoundValue

    pub value_accepted :
        (depth : ℕ) (path : ValuePath) (v : Value)
        → validate_value parse_uuid limits depth path v ≡ ok tt
        → Fits depth (value_height v) × SoundValue parse_uuid v
    value_accepted depth path (array_value items) h =
        let a = within-ok limits depth path _ h in items_accepted depth path 0 items a.0 a.1
    value_accepted depth path (map_entries entries) h =
        let a = within-ok limits depth path _ h in entries_accepted depth path none entries a.0 a.1
    value_accepted depth path (record_value members) h =
        let a = within-ok limits depth path _ h in members_accepted depth path [] members a.0 a.1
    value_accepted depth path (date_value t) h =
        let a = within-ok limits depth path _ h in
        (omega (arith, a.0), spelled-ok path (validate_date t) a.1)
    value_accepted depth path (time_value t) h =
        let a = within-ok limits depth path _ h in
        (omega (arith, a.0), spelled-ok path (validate_time t) a.1)
    value_accepted depth path (timestamp_value t) h =
        let a = within-ok limits depth path _ h in
        (omega (arith, a.0), spelled-ok path (validate_timestamp t) a.1)
    value_accepted depth path (uuid_value t) h =
        let a = within-ok limits depth path _ h in
        (omega (arith, a.0), spelled-ok path (validate_uuid parse_uuid t) a.1)
    value_accepted depth path (decimal_value t) h =
        let a = within-ok limits depth path _ h in
        let d = well_spelled-ok path (parse_decimal t) (λ _. ok tt) tt a.1 in
        (omega (arith, a.0), (d.0, d.1))
    value_accepted depth path (custom_value type_id value) h =
        let a = within-ok limits depth path _ h in
        let b = refuse-ok (is_empty type_id) (value_error path empty_type_id) _ tt a.1 in
        let r = value_accepted (depth + 1) (path ++ logical_value ∷ []) value b.1 in
        (omega (arith, r.0), (b.0, r.1))
    value_accepted depth path _ h =
        let a = within-ok limits depth path (ok tt) h in (omega (arith, a.0), tt)

    items_accepted :
        (depth : ℕ) (path : ValuePath) (n : ℕ) (l : ItemList)
        → depth ≤ limits.max_nesting_depth
        → validate_items parse_uuid limits depth path n l ≡ ok tt
        → Fits depth (items_height l) × SoundItems parse_uuid l
    items_accepted depth path n no_items d h = (omega (arith, d), tt)
    items_accepted depth path n (item x rest) d h =
        let a = >>=-ok _ _ _ h in
        let r = value_accepted (depth + 1) (path ++ array_index n ∷ []) x a.1 in
        let q = items_accepted depth path (suc n) rest d a.2 in
        (omega (arith, r.0, q.0), (r.1, q.1))

    entries_accepted :
        (depth : ℕ) (path : ValuePath) (previous : Option Text) (l : Entries)
        → depth ≤ limits.max_nesting_depth
        → validate_entries parse_uuid limits depth path previous l ≡ ok tt
        → Fits depth (entries_height l) × Ascending parse_uuid previous l
    entries_accepted depth path previous no_entries d h = (omega (arith, d), tt)
    entries_accepted depth path previous (entry key x rest) d h =
        let k = refuse-ok (not_above previous key) (value_error path unordered_keys) _ tt h in
        let a = >>=-ok _ _ _ k.1 in
        let r = value_accepted (depth + 1) (path ++ map_key key ∷ []) x a.1 in
        let q = entries_accepted depth path (some key) rest d a.2 in
        (omega (arith, r.0, q.0), (k.0, r.1, q.1))

    members_accepted :
        (depth : ℕ) (path : ValuePath) (names : List Text) (l : Members)
        → depth ≤ limits.max_nesting_depth
        → validate_members parse_uuid limits depth path names l ≡ ok tt
        → Fits depth (members_height l) × SoundMembers parse_uuid names l
    members_accepted depth path names no_members d h = (omega (arith, d), tt)
    members_accepted depth path names (member name x rest) d h =
        let k = refuse-ok (is_empty name) (value_error path empty_name) _ tt h in
        let m = refuse-ok (has_name name names) (value_error path (duplicate_name name)) _ tt k.1 in
        let a = >>=-ok _ _ _ m.1 in
        let r = value_accepted (depth + 1) (path ++ field_of name ∷ []) x a.1 in
        let q = members_accepted depth path (name ∷ names) rest d a.2 in
        (omega (arith, r.0, q.0), (k.0, m.0, r.1, q.1))
