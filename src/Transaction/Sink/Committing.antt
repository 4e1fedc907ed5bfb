-- ===== src/Transaction/Sink/Committing.antt =====
-- Completion moves the operation only by allowed transitions (transaction/s3.rs, `complete`,
-- `reconcile_completion`).
use s.Transaction.State.{committed, commit_unknown, OperationState, completing}
use s.Transaction.Backend.{
  Act, BackendError, CompletionProbe, Surroundings, TransactionBackend, TransactionError,
  found_committed, inconclusive, proven_absent, proven_absent_exact, completion_sent, put_sent,
  finished_error, output_mismatch,
}
use s.Prelude.{
  Bool, Option, Result, String, err, false, none, ok, some, suc, true, zero, ℕ, nat_eq, string_eq,
  not,
}
use s.Transaction.Sink.Complete.{
  Completion, abort_upload_known, accepted, after_commit, attempts, complete, complete_multipart,
  complete_object, complete_single_put, completion_answered, out_of_attempts, recovered_or, refused,
  failed_detail, whole_multipart, single_put,
}
use s.Transaction.Sink.{DirectS3Sink, SinkOn, evidence, ignore, change}
use s.Transaction.Sink.Keeping.{
  Keeps-ask, Keeps-bind, Keeps-change, Keeps-if, Keeps-pure, Keeps-seq, Keeps-with_sink,
  evidence-Keeps, keeping, record_launch-Keeps, Keeps, Keeps-set_open, move_sink-Keeps,
  Keeps-ignore, Keeps-raise,
}
use s.Transaction.Operation.{OperationRecord, StoredObjectMeta, Uuid}
use s.Transaction.Sink.Writing.{
  abort_discovered_noted-Keeps, delete_redundant-Keeps, flush_buffer-Keeps,
}
use s.Transaction.Sink.Reconcile.{
  absent_answer, absent_object, adopt, committed_meta, found_object, mark_commit_unknown,
  probe_unknown, probed_object, reconcile_completion, reconcile_from, reconcile_read,
}

module _ {W : Type 0} (env : Surroundings) (backend : TransactionBackend W) where
  committed_meta-Keeps :
      (s : OperationState) (o : Option StoredObjectMeta) → Keeps {W = W} (committed_meta s o)
  unfolding committed_meta
  committed_meta-Keeps committed (some meta) = search keeping
  committed_meta-Keeps committed none = search keeping
  committed_meta-Keeps _ o = search keeping

  adopt-Keeps : (a : OperationRecord) → Keeps (adopt env backend a)
  unfolding adopt
  adopt-Keeps a = search (keeping, committed_meta-Keeps)

  found_object-Keeps :
      (a : OperationRecord) (meta : StoredObjectMeta) → Keeps (found_object env backend a meta)
  unfolding found_object
  found_object-Keeps a meta = search (keeping, adopt-Keeps, delete_redundant-Keeps)

  absent_answer-Keeps : (a : OperationRecord) (b : Bool) → Keeps (absent_answer env backend a b)
  unfolding absent_answer
  absent_answer-Keeps a false = search keeping
  absent_answer-Keeps a true = search (keeping, adopt-Keeps)

  absent_object-Keeps : (a : OperationRecord) → Keeps (absent_object env backend a)
  unfolding absent_object
  absent_object-Keeps a = search (keeping, absent_answer-Keeps)

  probed_object-Keeps :
      (a : OperationRecord) (p : CompletionProbe) → Keeps (probed_object env backend a p)
  unfolding probed_object
  probed_object-Keeps a (found_committed meta) = found_object-Keeps a _
  probed_object-Keeps a proven_absent_exact = absent_object-Keeps a
  probed_object-Keeps a proven_absent = adopt-Keeps a
  probed_object-Keeps a inconclusive = adopt-Keeps a

  probe_unknown-Keeps : (a : OperationRecord) → Keeps (probe_unknown env backend a)
  unfolding probe_unknown
  probe_unknown-Keeps a = search (keeping, probed_object-Keeps)

  reconcile_from-Keeps :
      (s : OperationState) (a : OperationRecord) → Keeps (reconcile_from env backend s a)
  unfolding reconcile_from
  reconcile_from-Keeps completing a = search (keeping, probe_unknown-Keeps)
  reconcile_from-Keeps commit_unknown a = probe_unknown-Keeps a
  reconcile_from-Keeps _ a = adopt-Keeps a

  reconcile_read-Keeps :
      (id : Uuid) (o : Option OperationRecord) → Keeps (reconcile_read env backend id o)
  unfolding reconcile_read
  reconcile_read-Keeps id none = search keeping
  reconcile_read-Keeps id (some a) = reconcile_from-Keeps a.state a

  pub reconcile_completion-Keeps : Keeps (reconcile_completion env backend)
  unfolding reconcile_completion
  reconcile_completion-Keeps = search (keeping, reconcile_read-Keeps)

  pub mark_commit_unknown-Keeps : Keeps (mark_commit_unknown env backend)
  unfolding mark_commit_unknown
  mark_commit_unknown-Keeps = search keeping

  recovered_or-Keeps :
      (e : TransactionError) (r : Result TransactionError (Option StoredObjectMeta))
      → Keeps (recovered_or env backend e r)
  unfolding recovered_or
  recovered_or-Keeps e (err x) = search keeping
  recovered_or-Keeps e (ok none) = search keeping
  recovered_or-Keeps e (ok (some meta)) = search keeping

  after_commit-Keeps :
      (c : Completion W) (n : ℕ) (meta : StoredObjectMeta) (r : Result TransactionError Unit)
      → Keeps (after_commit env backend c n meta r)
  unfolding after_commit
  after_commit-Keeps c n meta (err e) =
      search (keeping, reconcile_completion-Keeps, recovered_or-Keeps)
  after_commit-Keeps c n meta (ok u) = search keeping

  accepted-Keeps :
      (c : Completion W) (n : ℕ) (meta : StoredObjectMeta) → Keeps (accepted env backend c n meta)
  unfolding accepted
  accepted-Keeps c n meta = search (keeping, delete_redundant-Keeps, after_commit-Keeps)

  refused-Keeps :
      (c : Completion W) (e : BackendError) → Keeps c.clear → Keeps (refused env backend c e)
  unfolding refused
  refused-Keeps c e h =
      Keeps-seq _ _ h
        (Keeps-seq _ _ (move_sink-Keeps env _ _ _) (Keeps-seq _ _ (Keeps-change _) (Keeps-raise _)))

  pub noted-Keeps :
      (kind : String) (n : ℕ) (e : BackendError)
      → Keeps {W = W} (ignore (evidence env kind (failed_detail env backend n e)))
  noted-Keeps kind n e = Keeps-ignore _ (evidence-Keeps env kind _)

  out_of_attempts-Keeps :
      (c : Completion W) (o : Option BackendError) → Keeps (out_of_attempts env backend c o)
  unfolding out_of_attempts
  out_of_attempts-Keeps c o =
      search (keeping, mark_commit_unknown-Keeps, reconcile_completion-Keeps, recovered_or-Keeps)

  completion_answered-Keeps :
      (c : Completion W) (n : ℕ) (b : Bool) (again : BackendError → Act (SinkOn W) StoredObjectMeta)
      (r : Result BackendError StoredObjectMeta)
      → Keeps c.clear
      → ((e : BackendError) → Keeps (again e))
      → Keeps (completion_answered env backend c n b again r)
  unfolding completion_answered
  completion_answered-Keeps c n b again (ok meta) h k = accepted-Keeps c n _
  completion_answered-Keeps c n b again (err e) h k =
      Keeps-if _ _ _ (Keeps-seq _ _ (noted-Keeps c.definitive_kind n e) (refused-Keeps c e h))
        (Keeps-seq _ _ (noted-Keeps c.ambiguous_kind n e) (k e))

  attempts-Keeps :
      (c : Completion W) (rounds n : ℕ) (b : Bool) (last : Option BackendError)
      → Keeps c.clear
      → ((s : DirectS3Sink) → Keeps (c.asking s))
      → Keeps (attempts env backend c rounds n b last)
  unfolding attempts
  attempts-Keeps c zero n b last h q = out_of_attempts-Keeps c last
  attempts-Keeps c (suc rounds) n b last h q = Keeps-seq _ _ (evidence-Keeps env _ _) (
      Keeps-seq _ _ (record_launch-Keeps env) (
        Keeps-bind _ _ (Keeps-with_sink _ q) (λ r.
          completion_answered-Keeps c n b _ r h
            (λ e. attempts-Keeps c rounds (suc n) true (some e) h q))))

  complete_single_put-Keeps : Keeps (complete_single_put env backend)
  unfolding complete_single_put
  complete_single_put-Keeps = Keeps-seq _ _ (Keeps-with_sink _ (λ s. Keeps-set_open env _ _)) (
      Keeps-seq _ _ (Keeps-change _) (
        Keeps-seq _ _ (move_sink-Keeps env _ _ _) (
          Keeps-seq _ _ (Keeps-change _) (
            Keeps-with_sink _ (λ s. Keeps-seq _ _ (Keeps-change _) (
              attempts-Keeps (single_put env backend s.buffer) s.max_attempts 1 false none
                (Keeps-pure tt) (λ t. Keeps-ask (put_sent s.buffer) _)))))))

  pub abort_upload_known-Keeps : (o : Option String) → Keeps (abort_upload_known env backend o)
  unfolding abort_upload_known
  abort_upload_known-Keeps none = search keeping
  abort_upload_known-Keeps (some id) = search keeping

  complete_multipart-Keeps : (id : String) → Keeps (complete_multipart env backend id)
  unfolding complete_multipart
  complete_multipart-Keeps id =
      Keeps-seq _ _
        (Keeps-with_sink _ (λ s. Keeps-if _ _ _ (Keeps-pure tt) (flush_buffer-Keeps env backend)))
        (Keeps-seq _ _ (move_sink-Keeps env _ _ _) (
          Keeps-seq _ _ (Keeps-change _) (
            Keeps-with_sink _ (λ s.
              attempts-Keeps (whole_multipart env backend id s.parts) s.max_attempts 1 false none
                (Keeps-seq _ _ (Keeps-with_sink _ (λ t. abort_upload_known-Keeps t.upload_id))
                  (abort_discovered_noted-Keeps env backend))
                (λ t. Keeps-ask (completion_sent t.parts) _)))))

  complete_object-Keeps : (o : Option String) → Keeps (complete_object env backend o)
  unfolding complete_object
  complete_object-Keeps none = complete_single_put-Keeps
  complete_object-Keeps (some id) = complete_multipart-Keeps id

  pub complete-Keeps : Keeps (complete env backend)
  unfolding complete
  complete-Keeps = Keeps-with_sink _ (λ s. Keeps-if s.finished _ _ (Keeps-raise finished_error) (
      Keeps-if (not s.output_verified) _ _ (Keeps-raise output_mismatch) (
        Keeps-bind (complete_object env backend s.upload_id) _ (complete_object-Keeps s.upload_id)
          (λ meta.
            Keeps-seq (change (λ t. record t { finished = true })) _ (Keeps-change _)
              (Keeps-pure meta)))))
