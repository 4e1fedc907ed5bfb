-- ===== src/Transaction/Journal/Leases.antt =====
-- Who may reconcile an operation (transaction/journal.rs, `claim_reconcilable_operation`).
use s.Transaction.Journal.{Journal}
use s.Transaction.Operation.{OperationRecord, Uuid}
use s.Prelude.{Option-cases, String, inl, inr, ok, some, ◌≡◌, nat_eq, string_eq, arith, true}
use s.Transaction.Journal.Recovery.{claim_reconcilable_operation, is_reconcilable, lease_to}
use s.Prelude.Table.{lookup, insert}
use s.Prelude.Int.{ℤ}

module _ (now : ℤ) (id : Uuid) (owner : String) (stale until : ℤ) (j : Journal) where
  -- A claim that succeeds took an operation that was open, stale and free.
  pub claim_sound :
      (a : OperationRecord)
      → (claim_reconcilable_operation now id owner stale until j).0 ≡ ok (some a)
      → (b : OperationRecord) × (lookup id j.operations ≡ some b)
        × (is_reconcilable now stale b ≡ true)
        × (a ≡ lease_to owner until b)
        × ((claim_reconcilable_operation now id owner stale until j).1.operations
            ≡ insert id (lease_to owner until b) j.operations)
  unfolding claim_reconcilable_operation
  claim_sound a h = elim (Option-cases (lookup id j.operations)) [
    | inl e ↦ absurd (ground arith)
    | inr (b, e) ↦ (b, e, ground arith, ground arith, ground arith)
  ]
