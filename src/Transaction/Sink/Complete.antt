-- ===== src/Transaction/Sink/Complete.antt =====
-- Committing the object (transaction/s3.rs, `complete`, `complete_single_put`, `complete_multipart`).
use s.Transaction.Backend.{
  ◌>>=◌, ◌>>◌, Act, BackendError, Surroundings, TransactionBackend, TransactionError, UploadedPart,
  aborted, ambiguous, backend_error, finished_error, output_mismatch, pure, put_sent, raise,
  completion_sent,
}
use s.Transaction.State.{committed, completing, opened, proven_aborted}
use s.Prelude.{
  Bool, List, Option, Result, String, [], err, false, if◌then◌else◌, is_empty, length, ltb, none,
  not, ok, some, suc, true, zero, ℕ, ◌&&◌, nat_eq, string_eq,
}
use s.Transaction.Sink.{
  DirectS3Sink, SinkOn, abort_discovered_noted, ask, attempt, change, delete_redundant, evidence,
  ignore, is_definitive, kind_text, lift, number_of, record_launch, set_state, with_sink, move_sink,
}
use s.Transaction.Json.{Json, end, field, object, text}
use s.Transaction.Operation.{StoredObjectMeta}
use s.Transaction.Sink.Reconcile.{
  committed_detail, mark_commit_unknown, reconcile_completion, without_history,
}
use s.Transaction.Sink.Upload.{flush_buffer}
use s.Transaction.Reconciler.{history_kind, on_backend, on_journal}
use s.Transaction.Journal.Transitions.{moved}
use s.Transaction.Journal.{set_open}

-- What the two ways to complete differ in: how the provider is asked, what is put on record, and
-- what is cleared up after a definitive refusal.
pub record Completion (W : Type 0) : Type 0 where
  pub before_kind : String
  pub before_detail : ℕ → Json
  pub asking : DirectS3Sink → Act (SinkOn W) (Result BackendError StoredObjectMeta)
  pub definitive_kind : String
  pub ambiguous_kind : String
  pub after_kind : String
  pub clear : Act (SinkOn W) Unit
  pub exhausted : String

module _ {W : Type 0} (env : Surroundings) (backend : TransactionBackend W) where
  -- `if let Ok(Some(recovered)) = ... { return Ok(recovered) } return Err(error)`
  unfoldable pub recovered_or :
      TransactionError
      → Result TransactionError (Option StoredObjectMeta)
      → Act (SinkOn W) StoredObjectMeta
  recovered_or error (err e) = raise error
  recovered_or error (ok none) = raise error
  recovered_or error (ok (some meta)) = pure meta

  unfoldable pub after_commit :
      Completion W
      → ℕ
      → StoredObjectMeta
      → Result TransactionError Unit
      → Act (SinkOn W) StoredObjectMeta
  unfolding attempt reconcile_completion recovered_or change ignore evidence
  after_commit c n meta (err e) = do
    recovered ← attempt (reconcile_completion env backend)
    recovered_or e recovered
  after_commit c n meta (ok _) = do
    change (set_state committed)
    ignore (
        evidence env (history_kind meta.version_history_complete)
          (committed_detail meta "attempt" (number_of n)))
    ignore (evidence env c.after_kind (object (field "attempt" (number_of n) end)))
    pure meta

  -- The provider took the object in the n-th attempt.
  unfoldable pub accepted : Completion W → ℕ → StoredObjectMeta → Act (SinkOn W) StoredObjectMeta
  unfolding delete_redundant attempt move_sink after_commit
  accepted c n meta = do
    delete_redundant env backend meta.version_id meta.superseded_version_ids
    moved ← attempt (move_sink env completing committed (some meta))
    after_commit c n meta moved

  -- The provider refused for certain.
  unfoldable pub refused : Completion W → BackendError → Act (SinkOn W) StoredObjectMeta
  unfolding move_sink change
  refused c e = do
    c.clear
    move_sink env completing proven_aborted none
    change (λ s. record (set_state proven_aborted s) { finished = true })
    raise (backend_error e)

  unfoldable pub last_or : Completion W → Option BackendError → BackendError
  last_or c (some e) = e
  last_or c none = record { kind = ambiguous; message = c.exhausted }

  -- No attempt is left, and the outcome is unknown.
  unfoldable pub out_of_attempts :
      Completion W → Option BackendError → Act (SinkOn W) StoredObjectMeta
  unfolding mark_commit_unknown reconcile_completion recovered_or last_or
  out_of_attempts c last = do
    mark_commit_unknown env backend
    recovered ← reconcile_completion env backend
    recovered_or (backend_error (last_or c last)) (ok recovered)

  unfoldable pub failed_detail : ℕ → BackendError → Json
  failed_detail n e =
      object (field "attempt" (number_of n) (field "kind" (text (kind_text e.kind)) end))

  unfoldable pub completion_answered :
      Completion W
      → ℕ
      → Bool
      → (BackendError → Act (SinkOn W) StoredObjectMeta)
      → Result BackendError StoredObjectMeta
      → Act (SinkOn W) StoredObjectMeta
  unfolding accepted ignore evidence refused failed_detail
  completion_answered c n ambiguous_before again (ok meta) =
      accepted c n (without_history (ltb 1 n && not backend.has_exact_version_recovery) meta)
  completion_answered c n ambiguous_before again (err e) =
      if is_definitive e && not ambiguous_before
      then (do ignore (evidence env c.definitive_kind (failed_detail n e)); refused c e)
      else (do ignore (evidence env c.ambiguous_kind (failed_detail n e)); again e)

  unfoldable pub attempts :
      Completion W → ℕ → ℕ → Bool → Option BackendError → Act (SinkOn W) StoredObjectMeta
  unfolding out_of_attempts evidence record_launch with_sink completion_answered
  attempts c zero n ambiguous_before last = out_of_attempts c last
  attempts c (suc rounds) n ambiguous_before last = do
    evidence env c.before_kind (c.before_detail n)
    record_launch env
    answer ← with_sink c.asking
    completion_answered c n ambiguous_before (λ e. attempts c rounds (suc n) true (some e)) answer

  abbrev pub single_put : List ℕ → Completion W
  single_put body = record {
    before_kind = "put_object_before";
    before_detail = λ n. object (
        field "attempt" (number_of n)
          (field "digest" (text (env.sha256 body)) (field "size" (number_of (length body)) end)));
    asking = λ s. ask (put_sent body) (backend.put_object s.operation body);
    definitive_kind = "put_object_attempt_definitive";
    ambiguous_kind = "put_object_attempt_ambiguous";
    after_kind = "put_object_after";
    clear = pure tt;
    exhausted = "PUT retry budget exhausted";
  }

  unfoldable pub complete_single_put : Act (SinkOn W) StoredObjectMeta
  unfolding with_sink lift change move_sink attempts
  complete_single_put = do
    with_sink (λ s. lift (on_journal env (λ now. set_open now s.operation.id none)))
    change (set_state opened)
    move_sink env opened completing none
    change (set_state completing)
    with_sink λ s. do
      change (λ t. record t { buffer = [] })
      attempts (single_put s.buffer) s.max_attempts 1 false none

  unfoldable pub abort_upload_known : Option String → Act (SinkOn W) Unit
  unfolding with_sink lift
  abort_upload_known none = pure tt
  abort_upload_known (some id) =
      with_sink (λ s. lift (on_backend (λ _. aborted id) (backend.abort_multipart s.operation id)))

  abbrev pub whole_multipart : String → List UploadedPart → Completion W
  whole_multipart id parts = record {
    before_kind = "complete_multipart_before";
    before_detail = λ n.
        object (field "attempt" (number_of n) (field "part_count" (number_of (length parts)) end));
    asking = λ s. ask (completion_sent s.parts) (backend.complete_multipart s.operation id s.parts);
    definitive_kind = "complete_multipart_attempt_definitive";
    ambiguous_kind = "complete_multipart_attempt_ambiguous";
    after_kind = "complete_multipart_after";
    clear = do
      with_sink (λ s. abort_upload_known s.upload_id)
      abort_discovered_noted env backend;
    exhausted = "complete retry budget exhausted";
  }

  -- Called only with an upload id.
  unfoldable pub complete_multipart : String → Act (SinkOn W) StoredObjectMeta
  unfolding with_sink change move_sink attempts flush_buffer abort_upload_known
      abort_discovered_noted
  complete_multipart id = do
    with_sink (λ s. if is_empty s.buffer then pure tt else flush_buffer env backend)
    move_sink env opened completing none
    change (set_state completing)
    with_sink (λ s. attempts (whole_multipart id s.parts) s.max_attempts 1 false none)

  unfoldable pub complete_object : Option String → Act (SinkOn W) StoredObjectMeta
  unfolding complete_single_put complete_multipart
  complete_object none = complete_single_put
  complete_object (some id) = complete_multipart id

  unfoldable pub complete : Act (SinkOn W) StoredObjectMeta
  unfolding with_sink complete_object change
  complete = with_sink λ s.
      if s.finished
      then raise finished_error
      else if not s.output_verified
      then raise output_mismatch
      else do
        meta ← complete_object s.upload_id
        change (λ t. record t { finished = true })
        pure meta
