-- ===== src/Transaction/Sink/Reconcile.antt =====
-- How the sink finds out what became of a completion (transaction/s3.rs, `reconcile_completion`).
use s.Transaction.Backend.{
  ◌>>=◌, ◌>>◌, Act, CompletionProbe, Surroundings, TransactionBackend, found_committed,
  inconclusive, journal_error, probed, proven_absent, proven_absent_exact, pure, raise,
}
use s.Transaction.State.{committed, commit_unknown, OperationState, completing, proven_aborted}
use s.Prelude.{Bool, Option, String, false, none, not, some, true, nat_eq, string_eq}
use s.Transaction.Json.{Json, array, bool, end, field, object, of_option, of_strings}
use s.Transaction.Operation.{OperationRecord, StoredObjectMeta, Uuid}
use s.Transaction.Sink.{
  SinkOn, change, delete_redundant, evidence, exact_absence_confirmation_delay_ms, lift,
  read_operation, set_state, with_sink, move_sink,
}
use s.Transaction.Journal.Recovery.{confirm_exact_absence}
use s.Transaction.Journal.{corrupt, not_found}
use s.Transaction.Reconciler.{history_kind, move, on_backend, on_journal, read_clock}

-- What is told of a retry that found an object, where the provider keeps no exact versions.
abbrev pub without_history : Bool → StoredObjectMeta → StoredObjectMeta
without_history true meta = record meta { version_history_complete = false }
without_history false meta = meta

abbrev pub committed_detail : StoredObjectMeta → String → Json → Json
committed_detail meta key value = object (
    field "version_id" (of_option meta.version_id) (
      field "superseded_version_ids" (array (of_strings meta.superseded_version_ids))
        (field key value end)))

-- `ok_or_else` on the metadata of a committed operation.
unfoldable pub committed_meta :
    {W : Type 0}
    → OperationState
    → Option StoredObjectMeta
    → Act (SinkOn W) (Option StoredObjectMeta)
committed_meta committed (some meta) = pure (some meta)
committed_meta committed none =
    raise (journal_error (corrupt "committed operation has no destination metadata"))
committed_meta _ o = pure none

module _ {W : Type 0} (env : Surroundings) (backend : TransactionBackend W) where
  -- The sink's copy of the operation takes the one that was read.
  unfoldable pub adopt : OperationRecord → Act (SinkOn W) (Option StoredObjectMeta)
  unfolding change committed_meta
  adopt operation = do
    change (λ s. record s { operation = operation })
    committed_meta operation.state operation.committed

  unfoldable pub found_object :
      OperationRecord → StoredObjectMeta → Act (SinkOn W) (Option StoredObjectMeta)
  unfolding evidence delete_redundant lift adopt
  found_object operation meta = do
    delete_redundant env backend meta.version_id meta.superseded_version_ids
    evidence env (history_kind meta.version_history_complete)
        (committed_detail meta "reconciled" (bool true))
    lift (move env operation.id commit_unknown committed (some meta))
    adopt (record operation { state = committed; committed = some meta })

  unfoldable pub absent_answer : OperationRecord → Bool → Act (SinkOn W) (Option StoredObjectMeta)
  unfolding lift adopt change
  absent_answer operation false = do change (λ s. record s { operation = operation }); pure none
  absent_answer operation true = do
    lift (move env operation.id commit_unknown proven_aborted none)
    adopt (record operation { state = proven_aborted })

  unfoldable pub absent_object : OperationRecord → Act (SinkOn W) (Option StoredObjectMeta)
  unfolding lift absent_answer
  absent_object operation = do
    observed ← lift (read_clock env)
    confirmed ← lift (
        on_journal env (λ now.
          confirm_exact_absence now operation.id observed exact_absence_confirmation_delay_ms))
    absent_answer operation confirmed

  unfoldable pub probed_object :
      OperationRecord → CompletionProbe → Act (SinkOn W) (Option StoredObjectMeta)
  unfolding found_object absent_object adopt
  probed_object operation (found_committed meta) =
      found_object operation (without_history (not backend.has_exact_version_recovery) meta)
  probed_object operation proven_absent_exact = absent_object operation
  probed_object operation proven_absent = adopt operation
  probed_object operation inconclusive = adopt operation

  unfoldable pub probe_unknown : OperationRecord → Act (SinkOn W) (Option StoredObjectMeta)
  unfolding lift probed_object
  probe_unknown operation = do
    probe ← lift (on_backend probed (backend.probe_completion operation))
    probed_object operation probe

  -- By the state that the journal has for the operation.
  unfoldable pub reconcile_from :
      OperationState → OperationRecord → Act (SinkOn W) (Option StoredObjectMeta)
  unfolding lift probe_unknown adopt
  reconcile_from completing operation = do
    lift (move env operation.id completing commit_unknown none)
    probe_unknown (record operation { state = commit_unknown })
  reconcile_from commit_unknown operation = probe_unknown operation
  reconcile_from _ operation = adopt operation

  unfoldable pub reconcile_read :
      Uuid → Option OperationRecord → Act (SinkOn W) (Option StoredObjectMeta)
  unfolding reconcile_from
  reconcile_read id none = raise (journal_error (not_found id))
  reconcile_read id (some operation) = reconcile_from operation.state operation

  unfoldable pub reconcile_completion : Act (SinkOn W) (Option StoredObjectMeta)
  unfolding reconcile_read read_operation with_sink
  reconcile_completion =
      with_sink λ s. do found ← read_operation s.operation.id; reconcile_read s.operation.id found

  unfoldable pub mark_commit_unknown : Act (SinkOn W) Unit
  unfolding move_sink change evidence
  mark_commit_unknown = do
    move_sink env completing commit_unknown none
    change (set_state commit_unknown)
    evidence env "completion_unknown" (object end)
