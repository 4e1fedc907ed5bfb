-- ===== src/Transaction/Sink/Abort.antt =====
-- Giving the object up (transaction/s3.rs, `abort`, `drop`).
use s.Transaction.Backend.{
  ◌>>◌, Act, Surroundings, TransactionBackend, completion_ambiguous, pure, raise,
}
use s.Transaction.State.{
  committed, commit_unknown, OperationState, aborting, completing, intent, opened, proven_aborted,
}
use s.Transaction.Sink.{
  DirectS3Sink, SinkOn, abort_discovered_noted, change, evidence, set_state, with_sink, move_sink,
}
use s.Prelude.{Option, String, if◌then◌else◌, none, not, some, true, nat_eq, string_eq}
use s.Transaction.Operation.{Uuid}
use s.Transaction.Sink.Complete.{abort_upload_known}
use s.Transaction.Json.{end, object}

module _ {W : Type 0} (env : Surroundings) (backend : TransactionBackend W) where
  unfoldable pub abort_known_noted : Option String → Act (SinkOn W) Unit
  unfolding evidence abort_upload_known
  abort_known_noted none = pure tt
  abort_known_noted (some id) = do
    evidence env "abort_multipart_before" (object end)
    abort_upload_known env backend (some id)
    evidence env "abort_multipart_after" (object end)

  unfoldable pub give_up : Act (SinkOn W) Unit
  unfolding change with_sink abort_known_noted abort_discovered_noted move_sink
  give_up = do
    change (set_state aborting)
    with_sink (λ s. abort_known_noted s.upload_id)
    abort_discovered_noted env backend
    move_sink env aborting proven_aborted none
    change (λ s. record (set_state proven_aborted s) { finished = true })

  unfoldable pub abort_from : OperationState → Act (SinkOn W) Unit
  unfolding move_sink give_up change
  abort_from intent = do move_sink env intent aborting none; give_up
  abort_from opened = do move_sink env opened aborting none; give_up
  abort_from aborting = give_up
  abort_from completing = raise completion_ambiguous
  abort_from commit_unknown = raise completion_ambiguous
  abort_from committed = change (λ s. record s { finished = true })
  abort_from proven_aborted = change (λ s. record s { finished = true })

  unfoldable pub abort : Act (SinkOn W) Unit
  unfolding with_sink abort_from
  abort = with_sink (λ s. if s.finished then pure tt else abort_from s.operation.state)

-- `drop`: the operation that is signalled to the recovery.
unfoldable pub drop_signal : DirectS3Sink → Option Uuid
drop_signal s = if not s.finished then some s.operation.id else none
