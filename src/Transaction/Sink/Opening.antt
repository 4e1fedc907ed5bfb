-- ===== src/Transaction/Sink/Opening.antt =====
-- The ways to begin a sink (transaction/s3.rs, `DirectS3Sink::new` and its variants).
use s.Transaction.Backend.{◌>>=◌, Run, Surroundings, TransactionBackend}
use s.Transaction.Operation.{
  DirectOperationScope, ExpectedObject, ManagedOperationScope, ObjectDestination, OperationRecord,
  Uuid, direct_intent, new_intent, scoped_intent,
}
use s.Transaction.Sink.{DirectS3Sink, from_operation}
use s.Prelude.{false, ok, true, ℕ, ◌+◌, nat_eq, string_eq}
use s.Prelude.Int.{ℤ}

module _ {W : Type 0} (env : Surroundings) (backend : TransactionBackend W) where
  -- `Uuid::now_v7()` and `unix_time_ms()` of a new intent.
  unfoldable pub draw_intent : (Uuid → ℤ → OperationRecord) → Run W OperationRecord
  draw_intent f m =
      (ok (f (env.draw m.readings) (env.clock m.readings)), record m { readings = m.readings + 1 })

  unfoldable pub new : ObjectDestination → ExpectedObject → ℕ → Run W DirectS3Sink
  unfolding draw_intent new_intent from_operation
  new destination expected max_attempts = do
    operation ← draw_intent (λ id now. new_intent id now destination expected)
    from_operation env backend operation max_attempts true

  unfoldable pub new_scoped :
      ManagedOperationScope → ObjectDestination → ExpectedObject → ℕ → Run W DirectS3Sink
  unfolding draw_intent scoped_intent from_operation
  new_scoped scope destination expected max_attempts = do
    operation ← draw_intent (λ id now.
        scoped_intent id now scope.operation_id destination expected scope.tenant_id
          scope.namespace_epoch)
    from_operation env backend operation max_attempts true

  unfoldable pub new_direct :
      DirectOperationScope → ObjectDestination → ExpectedObject → ℕ → Run W DirectS3Sink
  unfolding draw_intent direct_intent from_operation
  new_direct scope destination expected max_attempts = do
    operation ← draw_intent (λ id now. direct_intent id now scope destination expected)
    from_operation env backend operation max_attempts true

  -- For an operation that was inserted elsewhere.
  unfoldable pub new_direct_admitted :
      DirectOperationScope → ObjectDestination → ExpectedObject → ℕ → Run W DirectS3Sink
  unfolding draw_intent direct_intent from_operation
  new_direct_admitted scope destination expected max_attempts = do
    operation ← draw_intent (λ id now. direct_intent id now scope destination expected)
    from_operation env backend operation max_attempts false
