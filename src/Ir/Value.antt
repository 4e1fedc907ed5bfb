-- ===== src/Ir/Value.antt =====
-- Values (binary_ir.rs, `Value` and `ValueIr`): lookup by a path, the checks of a value alone, and the
-- visits of the values that a claim selects. A float is the pattern of its bits.
pub mod Check
pub mod Against
pub mod Typing
pub mod WellFormed
pub mod Accepted
pub mod Accepts
pub mod Decided
pub mod Claims
pub mod Visits
pub mod Changes
pub mod Agree
use s.Prelude.{
  Bool, List, Option, [], if◌then◌else◌, none, some, suc, zero, ℕ, ◌++◌, ◌∷◌, nat_eq, string_eq,
}
use s.Ir.{
  SchemaPath, Text, ValuePath, ValuePathSegment, array_element, array_index, field_of,
  field_segment, logical_segment, logical_value, map_key, map_value, same_text, value_ir_version,
}
use s.Prelude.Int.{ℤ}

mutual
  pub data Value : Type 0 where
    null_value : Value
    boolean_value : Bool → Value
    i32_value i64_value : ℤ → Value
    f32_value f64_value : ℕ → Value
    string_value : Text → Value
    bytes_value : List ℕ → Value
    array_value : ItemList → Value
    map_entries : Entries → Value
    record_value : Members → Value
    date_value time_value timestamp_value uuid_value decimal_value : Text → Value
    custom_value : Text → Value → Value

  -- `Vec<Value>`
  pub data ItemList : Type 0 where
    no_items : ItemList
    item : Value → ItemList → ItemList

  -- `Vec<MapEntry>`
  pub data Entries : Type 0 where
    no_entries : Entries
    entry : Text → Value → Entries → Entries

  -- `Vec<ValueField>`
  pub data Members : Type 0 where
    no_members : Members
    member : Text → Value → Members → Members

pub record ValueIr : Type 0 where
  pub version : ℕ
  pub root : Value

unfoldable pub new_value : Value → ValueIr
new_value root = record { version = value_ir_version; root = root }

unfoldable pub nth_item : ℕ → ItemList → Option Value
nth_item n no_items = none
nth_item zero (item x rest) = some x
nth_item (suc n) (item x rest) = nth_item n rest

unfoldable pub find_entry : Text → Entries → Option Value
find_entry key no_entries = none
find_entry key (entry k x rest) =
    let later = find_entry key rest in if same_text k key then some x else later

unfoldable pub find_member : Text → Members → Option Value
find_member name no_members = none
find_member name (member k x rest) =
    let later = find_member name rest in if same_text k name then some x else later

-- One round of the loop of `value_at_path`.
unfoldable pub child_value : Value → ValuePathSegment → Option Value
unfolding nth_item find_entry find_member
child_value (array_value items) (array_index n) = nth_item n items
child_value (map_entries entries) (map_key key) = find_entry key entries
child_value (record_value members) (field_of name) = find_member name members
child_value (custom_value type_id value) logical_value = some value
child_value _ _ = none

unfoldable pub value_at_path : Value → ValuePath → Option Value
unfolding child_value
value_at_path value [] = some value
value_at_path value (segment ∷ rest) = elim (child_value value segment) [
  | none ↦ none
  | some child ↦ value_at_path child rest
]

module _ {S : Type 0} (visitor : ValuePath → Value → S → S) where
  -- `visit_claim_matches_inner`; a field that is not found, and a segment that is not for the kind of
  -- the value, select nothing.
  unfoldable mutual
    pub visit_matches : SchemaPath → ValuePath → Value → S → S
    visit_matches [] path value state = visitor path value state
    visit_matches (field_segment name ∷ rest) path (record_value members) state =
        visit_member name rest path members state
    visit_matches (array_element ∷ rest) path (array_value items) state =
        visit_items rest path 0 items state
    visit_matches (map_value ∷ rest) path (map_entries entries) state =
        visit_entries rest path entries state
    visit_matches (logical_segment ∷ rest) path (custom_value type_id value) state =
        visit_matches rest (path ++ logical_value ∷ []) value state
    visit_matches _ _ _ state = state

    pub visit_member : Text → SchemaPath → ValuePath → Members → S → S
    visit_member name segments path no_members state = state
    visit_member name segments path (member k x rest) state =
        let later = visit_member name segments path rest state in
        let here = visit_matches segments (path ++ field_of name ∷ []) x state in
        if same_text k name then here else later

    pub visit_items : SchemaPath → ValuePath → ℕ → ItemList → S → S
    visit_items segments path n no_items state = state
    visit_items segments path n (item x rest) state =
        visit_items segments path (suc n) rest
          (visit_matches segments (path ++ array_index n ∷ []) x state)

    pub visit_entries : SchemaPath → ValuePath → Entries → S → S
    visit_entries segments path no_entries state = state
    visit_entries segments path (entry k x rest) state =
        visit_entries segments path rest (visit_matches segments (path ++ map_key k ∷ []) x state)

  unfoldable pub visit_claim_matches : Value → SchemaPath → S → S
  unfolding visit_matches
  visit_claim_matches value claim state = visit_matches claim [] value state

module _ {S : Type 0} (visitor : ValuePath → Value → S → Value × S) where
  -- `visit_claim_matches_mut_inner`: the visitor gives the new value with its new state.
  unfoldable mutual
    pub visit_matches_mut : SchemaPath → ValuePath → Value → S → Value × S
    visit_matches_mut [] path value state = visitor path value state
    visit_matches_mut (field_segment name ∷ rest) path (record_value members) state =
        let r = visit_member_mut name rest path members state in (record_value r.0, r.1)
    visit_matches_mut (array_element ∷ rest) path (array_value items) state =
        let r = visit_items_mut rest path 0 items state in (array_value r.0, r.1)
    visit_matches_mut (map_value ∷ rest) path (map_entries entries) state =
        let r = visit_entries_mut rest path entries state in (map_entries r.0, r.1)
    visit_matches_mut (logical_segment ∷ rest) path (custom_value type_id value) state =
        let r = visit_matches_mut rest (path ++ logical_value ∷ []) value state in
        (custom_value type_id r.0, r.1)
    visit_matches_mut _ _ value state = (value, state)

    pub visit_member_mut : Text → SchemaPath → ValuePath → Members → S → Members × S
    visit_member_mut name segments path no_members state = (no_members, state)
    visit_member_mut name segments path (member k x rest) state =
        let here = visit_matches_mut segments (path ++ field_of name ∷ []) x state in
        let later = visit_member_mut name segments path rest state in
        if same_text k name then (member k here.0 rest, here.1) else (member k x later.0, later.1)

    pub visit_items_mut : SchemaPath → ValuePath → ℕ → ItemList → S → ItemList × S
    visit_items_mut segments path n no_items state = (no_items, state)
    visit_items_mut segments path n (item x rest) state =
        let here = visit_matches_mut segments (path ++ array_index n ∷ []) x state in
        let later = visit_items_mut segments path (suc n) rest here.1 in
        (item here.0 later.0, later.1)

    pub visit_entries_mut : SchemaPath → ValuePath → Entries → S → Entries × S
    visit_entries_mut segments path no_entries state = (no_entries, state)
    visit_entries_mut segments path (entry k x rest) state =
        let here = visit_matches_mut segments (path ++ map_key k ∷ []) x state in
        let later = visit_entries_mut segments path rest here.1 in (entry k here.0 later.0, later.1)

  unfoldable pub visit_claim_matches_mut : Value → SchemaPath → S → Value × S
  unfolding visit_matches_mut
  visit_claim_matches_mut value claim state = visit_matches_mut claim [] value state
