-- ===== src/Transaction/Reconciler.antt =====
-- Recovery of operations whose writer is gone (transaction/mod.rs, `OperationReconciler`). A call of
-- the journal or the provider is one step of the machine; `?` is the bind of the `do` blocks.
pub mod Safety
pub mod Steps
pub mod Abandon
pub mod Absent
mod Examples
use s.Transaction.Backend.{
  ◌>>=◌, ◌>>◌, BackendError, CompletionProbe, DiscoveredUpload, Request, Run, Surroundings,
  TransactionBackend, aborted, backend_error, deleted, discovered, failed, found_committed,
  inconclusive, journal_error, probed, proven_absent, proven_absent_exact, pure, raise,
}
use s.Prelude.{
  Bool, List, Option, Result, String, [], err, false, if◌then◌else◌, map_err, none, not, ok, some,
  true, ◌++◌, ◌+◌, ◌==◌, ◌∷◌, nat_eq, string_eq,
}
use s.Transaction.Capability.{CapabilityError, streaming_eligibility}
use s.Transaction.Operation.{EvidenceRecord, OperationRecord, StoredObjectMeta, Uuid}
use s.Transaction.Json.{Json, array, bool, end, field, number, object, of_option, of_strings, text}
use s.Transaction.Journal.{Method, append_evidence, conflict, corrupt, not_claim_owner, transition}
use s.Transaction.State.{
  OperationState, aborting, as_str, commit_unknown, committed, completing, intent, opened,
  proven_aborted,
}
use s.Transaction.Journal.Recovery.{claim_reconcilable_operation, confirm_exact_absence}
use s.Prelude.Int.{pos, saturating_add, saturating_sub, ℤ}

pub record OperationReconciler (W : Type 0) : Type 0 where
  pub backend : TransactionBackend W
  pub owner : String
  pub lease_ms : ℤ
  pub exact_absence_confirmation_delay_ms : ℤ

-- `OperationReconciler::new`: thirty seconds of lease, five between two observations of absence.
pub new_reconciler :
    {W : Type 0} → TransactionBackend W → String → Result CapabilityError (OperationReconciler W)
new_reconciler backend owner = elim (streaming_eligibility backend.capabilities) [
  | err e ↦ err e
  | ok _ ↦ ok (record {
    backend = backend;
    owner = owner;
    lease_ms = pos 30_000;
    exact_absence_confirmation_delay_ms = pos 5_000;
  })
]

module _ {W : Type 0} (env : Surroundings) where
  -- `unix_time_ms()`
  unfoldable pub read_clock : Run W ℤ
  read_clock m = (ok (env.clock m.readings), record m { readings = m.readings + 1 })

  -- A call of the journal; the time is what the clock shows in it.
  unfoldable pub on_journal : {A : Type 0} → (ℤ → Method A) → Run W A
  on_journal f m =
      let (r, j) = f (env.clock m.readings) m.journal in
      (map_err journal_error r, record m { journal = j; readings = m.readings + 1 })

  -- `EvidenceRecord::new`, and its append.
  unfoldable pub note : Uuid → String → Json → Run W Unit
  note id kind detail m =
      let e : EvidenceRecord = record {
        id = env.draw m.readings;
        operation_id = id;
        kind = kind;
        detail = detail;
        created_at_ms = env.clock m.readings;
      } in
      let (r, j) = append_evidence e m.journal in
      (map_err journal_error r, record m { journal = j; readings = m.readings + 1 })

  unfoldable pub move :
      Uuid → OperationState → OperationState → Option StoredObjectMeta → Run W Unit
  move id from to meta = on_journal (λ now. transition now id from to meta)

-- A call of the provider, which is put on record with its answer.
log_answer : {A : Type 0} → (A → Request) → Result BackendError A → Request
log_answer f (ok a) = f a
log_answer f (err e) = failed e

module _ {W : Type 0} where
  pub on_backend : {A : Type 0} → (A → Request) → (W → Result BackendError A × W) → Run W A
  on_backend request f m =
      let (r, w) = f m.world in
      (
        map_err backend_error r,
        record m { world = w; requests = m.requests ++ log_answer request r ∷ [] },
      )

unfoldable pub is_authoritative : Option String → String → Bool
is_authoritative none v = false
is_authoritative (some current) v = current == v

abbrev pub recovered_meta :
    {W : Type 0} → OperationReconciler W → StoredObjectMeta → StoredObjectMeta
recovered_meta r meta =
    if not r.backend.has_exact_version_recovery
    then record meta { version_history_complete = false }
    else meta

abbrev pub history_kind : Bool → String
history_kind complete =
    if complete then "provider_version_history_complete" else "provider_version_history_ambiguous"

abbrev pub history_detail : StoredObjectMeta → Json
history_detail meta = object (
    field "version_id" (of_option meta.version_id) (
      field "superseded_version_ids" (array (of_strings meta.superseded_version_ids))
        (field "reconciled" (bool true) end)))

module _ {W : Type 0} (env : Surroundings) (r : OperationReconciler W) where
  pub abort_upload : OperationRecord → String → Run W Unit
  abort_upload operation id = on_backend (λ _. aborted id) (r.backend.abort_multipart operation id)

  abort_each : OperationRecord → List DiscoveredUpload → Run W Unit
  abort_each operation [] = pure tt
  abort_each operation (u ∷ us) = do abort_upload operation u.upload_id; abort_each operation us

  pub discover : OperationRecord → Run W (List DiscoveredUpload)
  discover operation = on_backend discovered (r.backend.discover_incomplete operation)

  pub abort_discovered : OperationRecord → Run W Unit
  abort_discovered operation = do uploads ← discover operation; abort_each operation uploads

  abort_known : OperationRecord → Option String → Run W Unit
  abort_known operation none = pure tt
  abort_known operation (some id) = abort_upload operation id

  delete_version : OperationRecord → String → Run W Unit
  delete_version operation v =
      on_backend (λ _. deleted v) (r.backend.delete_object_version operation v)

  -- The loop over the superseded versions stops at one that is the authoritative one.
  delete_superseded : OperationRecord → Option String → List String → Run W Unit
  delete_superseded operation current [] = pure tt
  delete_superseded operation current (v ∷ vs) =
      let rest = delete_superseded operation current vs in
      if is_authoritative current v
      then raise (journal_error (corrupt "authoritative provider version was listed as redundant"))
      else do delete_version operation v; rest

  settle_committed : OperationRecord → StoredObjectMeta → Run W Unit
  settle_committed operation meta = do
    delete_superseded operation meta.version_id meta.superseded_version_ids
    note env operation.id (history_kind meta.version_history_complete) (history_detail meta)
    move env operation.id commit_unknown committed (some meta)

  settle_absent : OperationRecord → ℤ → Bool → Run W Unit
  settle_absent operation observed false =
      note env operation.id "completion_exact_absence_pending"
        (object (field "observed_at_ms" (number observed) end))
  settle_absent operation observed true = do
    abort_discovered operation
    note env operation.id "completion_exactly_absent" (object end)
    move env operation.id commit_unknown proven_aborted none

  confirm_absence : OperationRecord → Run W Unit
  confirm_absence operation = do
    observed ← read_clock env
    confirmed ← on_journal env (λ now.
        confirm_exact_absence now operation.id observed r.exact_absence_confirmation_delay_ms)
    settle_absent operation observed confirmed

  settle : OperationRecord → CompletionProbe → Run W Unit
  settle operation (found_committed meta) = settle_committed operation (recovered_meta r meta)
  settle operation proven_absent =
      note env operation.id "completion_absent_inconclusive" (object end)
  settle operation proven_absent_exact = confirm_absence operation
  settle operation inconclusive = pure tt

  pub reconcile_unknown : OperationRecord → Run W Unit
  reconcile_unknown operation = do
    probe ← on_backend probed (r.backend.probe_completion operation)
    settle operation probe

  reconcile_state : OperationState → OperationRecord → Run W Unit
  reconcile_state intent operation = do
    move env operation.id intent aborting none
    abort_discovered operation
    move env operation.id aborting proven_aborted none
  reconcile_state opened operation = do
    move env operation.id opened aborting none
    abort_known operation operation.upload_id
    abort_discovered operation
    move env operation.id aborting proven_aborted none
  reconcile_state aborting operation = do
    abort_known operation operation.upload_id
    abort_discovered operation
    move env operation.id aborting proven_aborted none
  reconcile_state completing operation = do
    move env operation.id completing commit_unknown none
    reconcile_unknown operation
  reconcile_state commit_unknown operation = reconcile_unknown operation
  reconcile_state committed operation = pure tt
  reconcile_state proven_aborted operation = pure tt

  pub reconcile : OperationRecord → Run W Unit
  reconcile operation = do
    note env operation.id "reconcile_started"
        (object (field "state" (text (as_str operation.state)) (field "owner" (text r.owner) end)))
    reconcile_state operation.state operation

  reconcile_found : Option OperationRecord → Run W Bool
  reconcile_found none = pure false
  reconcile_found (some operation) = do reconcile operation; pure true

  -- `now` is read once for both bounds, before the claim.
  pub reconcile_operation : Uuid → ℤ → Run W Bool
  reconcile_operation id stale_after = do
    now ← read_clock env
    operation ← on_journal env (λ then_now.
        claim_reconcilable_operation then_now id r.owner (saturating_sub now stale_after)
          (saturating_add now r.lease_ms))
    reconcile_found operation

  owned_by : Option String → Bool
  owned_by none = false
  owned_by (some owner) = owner == r.owner

  pub reconcile_claimed : OperationRecord → Run W Unit
  reconcile_claimed operation =
      if not (owned_by operation.lease_owner)
      then raise (journal_error (conflict not_claim_owner))
      else reconcile operation
