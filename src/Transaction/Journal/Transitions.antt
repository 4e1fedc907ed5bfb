-- ===== src/Transaction/Journal/Transitions.antt =====
-- The compare-and-set of an operation's state (transaction/journal.rs, `transition`).
use s.Prelude.{
  Bool, Option, arith, err, false, none, ok, refl, some, sym, true, ◌↔◌, ◌≡◌, nat_eq, string_eq,
  Option-cases, inl, inr, Bool-cases, ◌⊎◌,
}
use s.Transaction.Journal.{
  Journal, JournalError, is_some, same_bool, transition, transition_body, with_operation-none,
  conflict, expected_found, with_operation_err, with_operation_ok,
}
use s.Transaction.Operation.{OperationRecord, StoredObjectMeta, Uuid}
use s.Transaction.State.{OperationState, can_transition_to, committed, same_state, same_state_iff}
use s.Prelude.Table.{insert, lookup}
use s.Prelude.Int.{ℤ}

abbrev pub moved : ℤ → OperationState → Option StoredObjectMeta → OperationRecord → OperationRecord
moved now to meta a = record a {
  state = to;
  committed = meta;
  updated_at_ms = now;
  lease_owner = none;
  lease_expires_at_ms = none;
}

-- What a transition may be asked for, and of what operation.
pub record Allowed (from to : OperationState) (meta : Option StoredObjectMeta) (a : OperationRecord)
    : Type 0 where
  pub in_state : a.state ≡ from
  pub legal : can_transition_to from to ≡ true
  pub has_result : same_state to committed ≡ is_some meta

same_bool_iff : (a b : Bool) → (same_bool a b ≡ true) ↔ (a ≡ b)
same_bool_iff true b = (λ h. sym h, λ h. sym h)
same_bool_iff false true = (λ h. cc, λ h. cc)
same_bool_iff false false = (λ h. refl, λ h. refl)

module _ (now : ℤ) (id : Uuid) (from to : OperationState) (meta : Option StoredObjectMeta)
    (j : Journal) where
  -- A transition that succeeds was legal, found the operation in the state that it expects, and
  -- carries object metadata exactly when it commits; it rewrites that one operation.
  pub transition_sound :
      (transition now id from to meta j).0 ≡ ok tt
      → (a : OperationRecord) × (lookup id j.operations ≡ some a)
        × Allowed from to meta a
        × ((transition now id from to meta j).1
            ≡ record j { operations = insert id (moved now to meta a) j.operations })
  unfolding transition transition_body
  transition_sound h = elim (Option-cases (lookup id j.operations)) [
    | inl e ↦ absurd (ground (arith, with_operation-none id _ j e))
    | inr (a, e) ↦ found a e (Bool-cases (same_state a.state from))
  ]
    where
      found :
          (a : OperationRecord)
          → lookup id j.operations ≡ some a
          → ((same_state a.state from ≡ true) ⊎ (same_state a.state from ≡ false))
          → (a : OperationRecord) × (lookup id j.operations ≡ some a)
            × Allowed from to meta a
            × ((transition now id from to meta j).1
                ≡ record j { operations = insert id (moved now to meta a) j.operations })
      found a e (inl here) =
          let w =
            with_operation_ok id (transition_body from to meta now) j a (moved now to meta a) tt e
              (rw (here, transition_body)) in
          (
            a,
            e,
            record {
              in_state = (same_state_iff _ _).0 here;
              legal = ground arith;
              has_result = ground (arith, same_bool_iff (same_state to committed) (is_some meta));
            },
            ground (arith, w),
          )
      found a e (inr elsewhere) = absurd (
          ground (
            arith,
            with_operation_err id (transition_body from to meta now) j a
                (conflict (expected_found from a.state)) e (rw (elsewhere, transition_body)),
          ))

  -- With no failure planted, a transition that is legal, of an operation in the expected state, and
  -- that comes with object metadata exactly when it commits, succeeds and rewrites that operation only.
  pub transition_complete :
      (a : OperationRecord)
      → j.fail_committed_transitions ≡ 0
      → lookup id j.operations ≡ some a
      → Allowed from to meta a
      → transition now id from to meta j
        ≡ (ok tt, record j { operations = insert id (moved now to meta a) j.operations })
  unfolding transition transition_body
  transition_complete a quiet e p = ground (
    arith,
    with_operation_ok id (transition_body from to meta now) j a (moved now to meta a) tt e
        (rw ((same_state_iff a.state from).1 p.in_state, transition_body)),
    same_bool_iff (same_state to committed) (is_some meta),
  )

-- A transition that fails leaves every operation as it was.
pub transition_error :
    (now : ℤ) (id : Uuid) (from to : OperationState) (meta : Option StoredObjectMeta) (j : Journal)
    (x : JournalError)
    → (transition now id from to meta j).0 ≡ err x
    → (transition now id from to meta j).1.operations ≡ j.operations
unfolding transition transition_body
transition_error now id from to meta j x h = ground arith
