-- ===== src/Ir/Value/WellFormed.antt =====
-- What the checks of a value alone decide (binary_ir.rs, `Value::validate_inner`).
use s.Prelude.{
  List, Option, [], false, is_empty, max, none, ok, some, suc, ℕ, ◌∷◌, ◌≡◌, nat_eq, string_eq,
}
use s.Ir.Decimals.{DecimalParts, parse_decimal}
use s.Ir.Value.{
  Entries, Members, Value, array_value, custom_value, date_value, decimal_value, entry, item,
  map_entries, member, no_entries, no_items, no_members, record_value, time_value, timestamp_value,
  uuid_value, ItemList,
}
use s.Ir.Schema.WellFormed.{NewName}
use s.Ir.{Text}
use s.Ir.Value.Check.{not_above, validate_uuid}
use s.Ir.Dates.{validate_date, validate_time, validate_timestamp}

unfoldable mutual
  -- The number of containers on the longest way down.
  pub value_height : Value → ℕ
  value_height (array_value items) = items_height items
  value_height (map_entries entries) = entries_height entries
  value_height (record_value members) = members_height members
  value_height (custom_value type_id value) = suc (value_height value)
  value_height _ = 0

  pub items_height : ItemList → ℕ
  items_height no_items = 0
  items_height (item x rest) = max (suc (value_height x)) (items_height rest)

  pub entries_height : Entries → ℕ
  entries_height no_entries = 0
  entries_height (entry key x rest) = max (suc (value_height x)) (entries_height rest)

  pub members_height : Members → ℕ
  members_height no_members = 0
  members_height (member name x rest) = max (suc (value_height x)) (members_height rest)

abbrev pub Above : Option Text → Text → Type 0
Above previous key = not_above previous key ≡ false

module _ (parse_uuid : Text → Option Text) where
  unfoldable mutual
    unfolding validate_date validate_time validate_timestamp validate_uuid parse_decimal

    pub SoundValue : Value → Type 0
    SoundValue (array_value items) = SoundItems items
    SoundValue (map_entries entries) = Ascending none entries
    SoundValue (record_value members) = SoundMembers [] members
    SoundValue (date_value t) = validate_date t ≡ ok tt
    SoundValue (time_value t) = validate_time t ≡ ok tt
    SoundValue (timestamp_value t) = validate_timestamp t ≡ ok tt
    SoundValue (uuid_value t) = validate_uuid parse_uuid t ≡ ok tt
    SoundValue (decimal_value t) = (parts : DecimalParts) × (parse_decimal t ≡ ok parts)
    SoundValue (custom_value type_id value) = (is_empty type_id ≡ false) × SoundValue value
    SoundValue _ = Unit

    pub SoundItems : ItemList → Type 0
    SoundItems no_items = Unit
    SoundItems (item x rest) = SoundValue x × SoundItems rest

    -- The keys of a map are in ascending order, each above the one before it.
    pub Ascending : Option Text → Entries → Type 0
    Ascending previous no_entries = Unit
    Ascending previous (entry key x rest) =
        Above previous key × SoundValue x × Ascending (some key) rest

    pub SoundMembers : List Text → Members → Type 0
    SoundMembers names no_members = Unit
    SoundMembers names (member name x rest) =
        (is_empty name ≡ false)
        × NewName name names
        × SoundValue x
        × SoundMembers (name ∷ names) rest
