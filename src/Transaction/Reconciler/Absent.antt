-- ===== src/Transaction/Reconciler/Absent.antt =====
-- How recovery settles an operation whose completion may have been sent (transaction/mod.rs,
-- `reconcile_unknown`).
use s.Transaction.Reconciler.Steps.{Asked}
use s.Prelude.{All, List, Option, String, false, map, some, ◌++◌, ◌≡◌, ◌≢◌, ◌⊎◌, nat_eq, string_eq}
use s.Transaction.Backend.{
  CompletionProbe, Machine, Surroundings, deleted, found_committed, proven_absent_exact,
}
use s.Transaction.Reconciler.{OperationReconciler, recovered_meta}
use s.Transaction.Operation.{OperationRecord}
use s.Transaction.Journal.Recovery.{before_window}
use s.Transaction.State.{commit_unknown, committed, proven_aborted}
use s.Prelude.Table.{lookup}
use s.Prelude.Int.{saturating_sub, ℤ, ◌≤ℤ◌}
use s.Transaction.Journal.{Journal}

-- The deletions, of which none is of the authoritative version.
record Deleted {W : Type 0} (m n : Machine W) (current : Option String) (vs : List String)
    : Type 0 where
  asked : Asked m n (map deleted vs)
  spared : All (λ v. current ≢ some v) vs

-- What the recovery has done, by the provider's answer to its probe.
abbrev pub Settled :
    {W : Type 0}
    → Surroundings
    → OperationReconciler W
    → OperationRecord
    → CompletionProbe
    → Machine W
    → Machine W
    → Type 0
Settled env r a (found_committed meta) m n =
    (c : OperationRecord) × (lookup a.id n.journal.operations ≡ some c)
    × (c.state ≡ committed)
    × (c.committed ≡ some (recovered_meta r meta))
    × All (λ v. meta.version_id ≢ some v) meta.superseded_version_ids
    × (n.requests ≡ m.requests ++ map deleted meta.superseded_version_ids)
Settled env r a proven_absent_exact m n =
    ((n.requests ≡ m.requests)
      × ((c : OperationRecord) × (lookup a.id n.journal.operations ≡ some c)
          × (c.state ≡ commit_unknown)))
    ⊎ ((b : OperationRecord) × (first : ℤ) × (c : OperationRecord) × (lookup a.id
            m.journal.operations
          ≡ some b)
        × (b.exact_absence_observed_at_ms ≡ some first)
        × (r.exact_absence_confirmation_delay_ms ≤ℤ saturating_sub (env.clock m.readings) first)
        × (before_window b.mutation_not_before_ms (env.clock m.readings) ≡ false)
        × (lookup a.id n.journal.operations ≡ some c)
        × (c.state ≡ proven_aborted))
Settled env r a _ m n = (n.requests ≡ m.requests) × (n.journal.operations ≡ m.journal.operations)
