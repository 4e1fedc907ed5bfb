-- ===== src/Ir/Value/Agree.antt =====
-- The two visits of binary_ir.rs select the same values.
use s.Prelude.{Bool-cases, [], ap, inl, inr, refl, suc, ℕ, ◌++◌, ◌∷◌, ◌≡◌, nat_eq, string_eq}
use s.Ir.Value.{
  Entries, Members, Value, array_value, custom_value, entry, item, map_entries, member, no_entries,
  no_items, no_members, record_value, visit_claim_matches, visit_claim_matches_mut, visit_entries,
  visit_entries_mut, visit_items, visit_items_mut, visit_matches, visit_matches_mut, visit_member,
  visit_member_mut, ItemList,
}
use s.Ir.{
  SchemaPath, Text, ValuePath, array_element, array_index, field_of, field_segment, logical_segment,
  logical_value, map_key, map_value, same_text,
}

abbrev pub unchanging :
    {S : Type 0} → (ValuePath → Value → S → S) → ValuePath → Value → S → Value × S
unchanging visitor path v state = (v, visitor path v state)

module _ {S : Type 0} (visitor : ValuePath → Value → S → S) where
  mutual
    unfolding visit_matches visit_matches_mut

    agree :
        (claim : SchemaPath) (path : ValuePath) (v : Value) (state : S)
        → visit_matches_mut (unchanging visitor) claim path v state
          ≡ (v, visit_matches visitor claim path v state)
    agree [] path v state = refl
    agree (field_segment name ∷ claim) path (record_value l) state =
        ap (λ r. (record_value r.0, r.1)) (agree_member name claim path l state)
    agree (array_element ∷ claim) path (array_value l) state =
        ap (λ r. (array_value r.0, r.1)) (agree_items claim path 0 l state)
    agree (map_value ∷ claim) path (map_entries l) state =
        ap (λ r. (map_entries r.0, r.1)) (agree_entries claim path l state)
    agree (logical_segment ∷ claim) path (custom_value type_id v) state =
        ap (λ r. (custom_value type_id r.0, r.1)) (agree claim (path ++ logical_value ∷ []) v state)
    agree _ path v state = refl

    agree_member :
        (name : Text) (claim : SchemaPath) (path : ValuePath) (l : Members) (state : S)
        → visit_member_mut (unchanging visitor) name claim path l state
          ≡ (l, visit_member visitor name claim path l state)
    agree_member name claim path no_members state = refl
    agree_member name claim path (member k x rest) state = elim (Bool-cases (same_text k name)) [
      | inl e ↦
          rw e
            (ap (λ r. (member k r.0 rest, r.1)) (agree claim (path ++ field_of name ∷ []) x state))
      | inr e ↦ rw e (ap (λ r. (member k x r.0, r.1)) (agree_member name claim path rest state))
    ]

    agree_items :
        (claim : SchemaPath) (path : ValuePath) (n : ℕ) (l : ItemList) (state : S)
        → visit_items_mut (unchanging visitor) claim path n l state
          ≡ (l, visit_items visitor claim path n l state)
    agree_items claim path n no_items state = refl
    agree_items claim path n (item x rest) state =
        rw (agree claim (path ++ array_index n ∷ []) x state)
          (ap (λ r. (item x r.0, r.1)) (agree_items claim path (suc n) rest _))

    agree_entries :
        (claim : SchemaPath) (path : ValuePath) (l : Entries) (state : S)
        → visit_entries_mut (unchanging visitor) claim path l state
          ≡ (l, visit_entries visitor claim path l state)
    agree_entries claim path no_entries state = refl
    agree_entries claim path (entry key x rest) state =
        rw (agree claim (path ++ map_key key ∷ []) x state)
          (ap (λ r. (entry key x r.0, r.1)) (agree_entries claim path rest _))

  -- With a visitor that changes no value, the mutable visit gives the value back and makes the calls of
  -- the other visit, in its order.
  pub visits_agree :
      (claim : SchemaPath) (v : Value) (state : S)
      → visit_claim_matches_mut (unchanging visitor) v claim state
        ≡ (v, visit_claim_matches visitor v claim state)
  unfolding visit_claim_matches visit_claim_matches_mut
  visits_agree claim v state = agree claim [] v state
