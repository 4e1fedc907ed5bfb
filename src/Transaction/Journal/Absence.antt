-- ===== src/Transaction/Journal/Absence.antt =====
-- When the journal takes an object to be absent (transaction/journal.rs, `confirm_exact_absence`).
use s.Prelude.{
  Bool-cases, Option-cases, arith, false, inl, inr, none, ok, some, true, ◌≡◌, ◌⊎◌, nat_eq,
  string_eq, refl,
}
use s.Transaction.Journal.{
  Journal, with_operation-none, with_operation_ok, conflict, terminal_cannot_launch,
  with_operation_err, with_operation_cases,
}
use s.Transaction.Operation.{OperationRecord, Uuid}
use s.Transaction.Journal.Recovery.{
  absence_body, before_window, confirm_exact_absence, record_mutation_launch, launch_body, or_min,
}
use s.Prelude.Table.{lookup, lookup-insert_self}
use s.Prelude.Int.{saturating_sub, ℤ, ◌≤ℤ◌, max_ℤ, leb_ℤ}
use s.Transaction.State.{is_terminal}

module _ (now : ℤ) (id : Uuid) (observed separation : ℤ) (j : Journal) where
  -- An absence is confirmed only by a second observation: the first was recorded, the second falls
  -- outside the window in which a launched mutation may still commit, and at least the given
  -- separation lies between them.
  pub confirm_needs_two :
      (confirm_exact_absence now id observed separation j).0 ≡ ok true
      → (a : OperationRecord) × (first : ℤ) × (lookup id j.operations ≡ some a)
        × (a.exact_absence_observed_at_ms ≡ some first)
        × (separation ≤ℤ saturating_sub observed first)
        × (before_window a.mutation_not_before_ms observed ≡ false)
  unfolding confirm_exact_absence
  confirm_needs_two h = elim (Option-cases (lookup id j.operations)) [
    | inl e ↦
        absurd (ground (arith, with_operation-none id (absence_body observed separation now) j e))
    | inr (a, e) ↦
        seen a e (Option-cases a.exact_absence_observed_at_ms)
          (Bool-cases (before_window a.mutation_not_before_ms observed))
  ]
    where
      seen :
          (a : OperationRecord)
          → lookup id j.operations ≡ some a
          → (a.exact_absence_observed_at_ms ≡ none)
            ⊎ ((first : ℤ) × (a.exact_absence_observed_at_ms ≡ some first))
          → (before_window a.mutation_not_before_ms observed ≡ true)
            ⊎ (before_window a.mutation_not_before_ms observed ≡ false)
          → (a : OperationRecord) × (first : ℤ) × (lookup id j.operations ≡ some a)
            × (a.exact_absence_observed_at_ms ≡ some first)
            × (separation ≤ℤ saturating_sub observed first)
            × (before_window a.mutation_not_before_ms observed ≡ false)
      seen a e o (inl early) = absurd (
          ground (
            arith,
            with_operation_ok id (absence_body observed separation now) j a a false e
                (rw (early, absence_body)),
          ))
      seen a e (inl first_time) (inr late) = absurd (
          ground (
            arith,
            with_operation_ok id (absence_body observed separation now) j a
                (record a { exact_absence_observed_at_ms = some observed; updated_at_ms = now })
                false e (rw (late, absence_body) (rw (first_time, absence_body))),
          ))
      seen a e (inr (first, p)) (inr late) = (
        a,
        first,
        e,
        p,
        ground (
          arith,
          with_operation_ok id (absence_body observed separation now) j a a
              (leb_ℤ separation (saturating_sub observed first)) e (ground (arith, late, p)),
        ),
        late,
      )

  -- With no observation on record none is confirmed, early or late.
  unseen-false :
      (a : OperationRecord)
      → lookup id j.operations ≡ some a
      → a.exact_absence_observed_at_ms ≡ none
      → (confirm_exact_absence now id observed separation j).0 ≡ ok false
  unfolding confirm_exact_absence
  unseen-false a e o = elim (Bool-cases (before_window a.mutation_not_before_ms observed)) [
    | inl early ↦ ground (
      arith,
      with_operation_ok id (absence_body observed separation now) j a a false e
          (rw (early, absence_body)),
    )
    | inr late ↦ ground (
      arith,
      with_operation_ok id (absence_body observed separation now) j a
          (record a { exact_absence_observed_at_ms = some observed; updated_at_ms = now }) false e
          (rw (late, absence_body) (rw (o, absence_body))),
    )
  ]

-- A launch that is recorded leaves the operation with a later window and no observation.
pub launch_sound :
    (now : ℤ) (id : Uuid) (not_before : ℤ) (j : Journal)
    → (record_mutation_launch now id not_before j).0 ≡ ok tt
    → (a : OperationRecord) × (b : OperationRecord) × (lookup id j.operations ≡ some a)
      × (is_terminal a.state ≡ false)
      × (lookup id (record_mutation_launch now id not_before j).1.operations ≡ some b)
      × (b.exact_absence_observed_at_ms ≡ none)
      × (b.mutation_not_before_ms ≡ some (max_ℤ (or_min a.mutation_not_before_ms) not_before))
unfolding record_mutation_launch
launch_sound now id not_before j h = elim (Option-cases (lookup id j.operations)) [
  | inl e ↦ absurd (ground (arith, with_operation-none id (launch_body not_before now) j e))
  | inr (a, e) ↦ launched a e (Bool-cases (is_terminal a.state))
]
  where
    launched :
        (a : OperationRecord)
        → lookup id j.operations ≡ some a
        → (is_terminal a.state ≡ true) ⊎ (is_terminal a.state ≡ false)
        → (a : OperationRecord) × (b : OperationRecord) × (lookup id j.operations ≡ some a)
          × (is_terminal a.state ≡ false)
          × (lookup id (record_mutation_launch now id not_before j).1.operations ≡ some b)
          × (b.exact_absence_observed_at_ms ≡ none)
          × (b.mutation_not_before_ms ≡ some (max_ℤ (or_min a.mutation_not_before_ms) not_before))
    launched a e (inl ended) = absurd (
        ground (
          arith,
          with_operation_err id (launch_body not_before now) j a (conflict terminal_cannot_launch) e
              (rw (ended, launch_body)),
        ))
    launched a e (inr running) =
        let b : OperationRecord = record a {
          mutation_not_before_ms = some (max_ℤ (or_min a.mutation_not_before_ms) not_before);
          exact_absence_observed_at_ms = none;
          updated_at_ms = now;
        } in
        (
          a,
          b,
          e,
          running,
          rw
              (with_operation_ok id (launch_body not_before now) j a b tt e
                (rw (running, launch_body)))
              (lookup-insert_self id b j.operations),
          refl,
          refl,
        )

-- After a mutation was launched, the next observation confirms no absence, whenever it is made and
-- whatever was observed before.
pub launch_resets :
    (now later : ℤ) (id : Uuid) (not_before observed separation : ℤ) (j : Journal)
    → (record_mutation_launch now id not_before j).0 ≡ ok tt
    → (confirm_exact_absence later id observed separation
        (record_mutation_launch now id not_before j).1).0
      ≡ ok false
launch_resets now later id not_before observed separation j h =
    let (a, b, e, r, f, o, w) = launch_sound now id not_before j h in
    unseen-false later id observed separation (record_mutation_launch now id not_before j).1 b f o

-- An observation leaves the state of the operation.
pub confirm-state :
    (now : ℤ) (id : Uuid) (observed separation : ℤ) (j : Journal) (b : OperationRecord)
    → lookup id j.operations ≡ some b
    → (c : OperationRecord) × (lookup id
          (confirm_exact_absence now id observed separation j).1.operations
        ≡ some c)
      × (c.state ≡ b.state)
unfolding confirm_exact_absence
confirm-state now id observed separation j b e =
    with_operation_cases
      (λ o. (c : OperationRecord) × (lookup id o.1.operations ≡ some c) × (c.state ≡ b.state)) id
      (absence_body observed separation now) j (λ f. (b, e, refl)) (λ _ _ _ _. (b, e, refl))
      (λ x y r f q. (y, lookup-insert_self id y j.operations, ground (arith, e, f, q)))
