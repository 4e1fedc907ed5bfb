-- ===== src/Transaction/Sink/Outcome.antt =====
-- What a completion that succeeds has done (transaction/s3.rs, `complete`).
use s.Transaction.Sink.{SinkCommitState}
use s.Transaction.Backend.{
  ◌>>=◌, ◌>>◌, >>=-eq-ok, Act, BackendError, Surroundings, TransactionBackend, TransactionError,
  backend_error, finished_error, output_mismatch, put_sent, raise, completion_sent, pure,
}
use s.Transaction.State.{committed, completing, opened, OperationState}
use s.Prelude.{
  Bool, Option, Result, String, [], err, false, is_empty, none, not, ok, refl, some, suc, true,
  zero, ℕ, ◌&&◌, ◌≡◌, nat_eq, string_eq, ap, subst, ◌∙◌,
}
use s.Transaction.Sink.Tracking.{
  Commits, Commits-bind, Commits-seq, Commits-with_sink, Tracking, Tracking-ignore,
  delete_redundant-Tracking, evidence-Tracking, Commits-if, Committed,
}
use s.Transaction.Sink.Complete.{
  Completion, accepted, after_commit, attempts, complete, complete_multipart, complete_object,
  complete_single_put, completion_answered, failed_detail, refused, single_put, whole_multipart,
}
use s.Transaction.Sink.{
  DirectS3Sink, SinkCommitState, SinkOn, attempt, change, commit_state, evidence, ignore,
  is_definitive, record_launch, set_state, with_sink, move_sink,
}
use s.Transaction.Sink.Fixing.{
  Fixes-ask, Fixes-change, Fixes-if, Fixes-lift, Fixes-pure, Fixes-seq, Fixes-with_sink,
  move_sink-Fixes, record_launch-Fixes, upload_buffered_part-Fixes,
}
use s.Transaction.Journal.Evolution.{History-start}
use s.Transaction.Sink.Keeping.{
  Keeps-ask, Keeps-change, Keeps-if, Keeps-pure, Keeps-with_sink, record_launch-Keeps,
  Keeps-set_open, move_sink-Keeps,
}
use s.Transaction.Operation.{OperationRecord, StoredObjectMeta}
use s.Transaction.Sink.Commits.{
  after_commit-Commits, attempt_ok, IsReturned, out_of_attempts-Commits,
}
use s.Transaction.Sink.Upload.{flush_buffer}
use s.Transaction.Sink.Writing.{flush_buffer-Keeps}
use s.Prelude.Table.{lookup}
use s.Transaction.Journal.Transitions.{moved}
use s.Transaction.Sink.Filling.{unless_ok}

-- The step never succeeds.
abbrev Never : {S A : Type 0} → Act S A → Type 0
Never {S} {A} p = (x y : S) (r : A) → p x ≡ (ok r, y) → ⊥

Never-raise : {S A : Type 0} (e : TransactionError) → Never {S = S} {A = A} (raise e)
unfolding raise
Never-raise e x y r h = cc

Never-seq : {S B : Type 0} (p : Act S Unit) (q : Act S B) → Never q → Never (p >> q)
unfolding ◌>>◌
Never-seq p q h x z r e = let (_, y, u, v) = >>=-eq-ok p (λ _. q) x z r e in h y z r v

module _ {W : Type 0} (env : Surroundings) (backend : TransactionBackend W)
    (a : OperationRecord) where
  Commits-Never : (p : Act (SinkOn W) StoredObjectMeta) → Never p → Commits a IsReturned p
  Commits-Never p h = record { at = λ x y r meta k e q. absurd (h x y r e) }

  -- The end of `complete`.
  abbrev ending : StoredObjectMeta → Act (SinkOn W) StoredObjectMeta
  ending meta = do change (λ t. record t { finished = true }); pure meta

  accepted-Commits :
      (c : Completion W) (n : ℕ) (meta : StoredObjectMeta)
      → Commits a IsReturned (accepted env backend c n meta)
  unfolding accepted
  accepted-Commits c n m =
      Commits-seq _ _ (delete_redundant-Tracking env backend m.version_id m.superseded_version_ids)
        (record {
          at = λ x z r meta k e q.
              let move_it = move_sink env completing committed (some m) in
              let (moved, y, u, v) =
                >>=-eq-ok (attempt move_it) (after_commit env backend c n m) x z r e in
              after_commit-Commits env backend a c n m meta r moved x y z k
                (attempt_ok move_it x y moved u) v q;
        })

  refused-Never : (c : Completion W) (e : BackendError) → Never (refused env backend c e)
  unfolding refused
  refused-Never c e = Never-seq _ _ (Never-seq _ _ (Never-seq _ _ (Never-raise (backend_error e))))

  noted-Tracking :
      (kind : String) (n : ℕ) (e : BackendError)
      → Tracking {W = W} (ignore (evidence env kind (failed_detail env backend n e)))
  noted-Tracking kind n e = Tracking-ignore _ (evidence-Tracking env kind _)

  completion_answered-Commits :
      (c : Completion W) (n : ℕ) (b : Bool) (again : BackendError → Act (SinkOn W) StoredObjectMeta)
      (r : Result BackendError StoredObjectMeta)
      → ((e : BackendError) → Commits a IsReturned (again e))
      → Commits a IsReturned (completion_answered env backend c n b again r)
  unfolding completion_answered
  completion_answered-Commits c n b again (ok meta) h = accepted-Commits c n _
  completion_answered-Commits c n b again (err e) h =
      Commits-if (is_definitive e && not b) _ _
        (Commits-Never _ (Never-seq _ _ (refused-Never c e)))
        (Commits-seq _ _ (noted-Tracking c.ambiguous_kind n e) (h e))

  record_launch-Tracking : Tracking {W = W} (record_launch env)
  record_launch-Tracking = record {
    keeps = record_launch-Keeps env;
    fixes = record_launch-Fixes env;
  }

  attempts-Commits :
      (c : Completion W) (rounds n : ℕ) (b : Bool) (last : Option BackendError)
      → ((s : DirectS3Sink) → Tracking (c.asking s))
      → Commits a IsReturned (attempts env backend c rounds n b last)
  unfolding attempts
  attempts-Commits c zero n b last h = out_of_attempts-Commits env backend a c last
  attempts-Commits c (suc rounds) n b last h = Commits-seq _ _ (evidence-Tracking env _ _) (
      Commits-seq _ _ record_launch-Tracking (
        Commits-bind _ _
          (record {
            keeps = Keeps-with_sink _ (λ s. (h s).keeps);
            fixes = Fixes-with_sink _ (λ s. (h s).fixes);
          })
          (λ r.
            completion_answered-Commits c n b _ r
              (λ e. attempts-Commits c rounds (suc n) true (some e) h))))

  state-Tracking : (to : OperationState) → Tracking {W = W} (change (set_state to))
  state-Tracking to = record {
    keeps = Keeps-change (set_state to);
    fixes = Fixes-change (set_state to) (λ s. refl);
  }

  move_sink-Tracking :
      (from to : OperationState) (meta : Option StoredObjectMeta)
      → Tracking {W = W} (move_sink env from to meta)
  move_sink-Tracking from to meta = record {
    keeps = move_sink-Keeps env from to meta;
    fixes = move_sink-Fixes env from to meta;
  }

  emptied-Tracking : Tracking {W = W} (change (λ t. record t { buffer = [] }))
  emptied-Tracking = record { keeps = Keeps-change _; fixes = Fixes-change _ (λ s. refl) }

  complete_single_put-Commits : Commits a IsReturned (complete_single_put env backend)
  unfolding complete_single_put
  complete_single_put-Commits =
      Commits-seq _ _
        (record {
          keeps = Keeps-with_sink _ (λ s. Keeps-set_open env s.operation.id none);
          fixes = Fixes-with_sink _ (λ s. Fixes-lift _);
        })
        (Commits-seq _ _ (state-Tracking opened) (
          Commits-seq _ _ (move_sink-Tracking opened completing none) (
            Commits-seq _ _ (state-Tracking completing) (
              Commits-with_sink _ (λ s _. Commits-seq _ _ emptied-Tracking (
                attempts-Commits (single_put env backend s.buffer) s.max_attempts 1 false none (λ t.
                  record {
                    keeps = Keeps-ask (put_sent s.buffer) _;
                    fixes = Fixes-ask (put_sent s.buffer) _;
                  })))))))

  flush_buffer-Tracking : Tracking (flush_buffer env backend)
  unfolding flush_buffer
  flush_buffer-Tracking = record {
    keeps = flush_buffer-Keeps env backend;
    fixes = Fixes-with_sink _ (λ s.
        Fixes-seq _ _ (Fixes-change _ (λ t. refl))
          (upload_buffered_part-Fixes env backend (λ t l. refl) s.buffer));
  }

  complete_multipart-Commits :
      (id : String) → Commits a IsReturned (complete_multipart env backend id)
  unfolding complete_multipart
  complete_multipart-Commits id =
      Commits-seq _ _
        (record {
          keeps =
              Keeps-with_sink _
                (λ s. Keeps-if (is_empty s.buffer) _ _ (Keeps-pure tt) flush_buffer-Tracking.keeps);
          fixes =
              Fixes-with_sink _
                (λ s. Fixes-if (is_empty s.buffer) _ _ (Fixes-pure tt) flush_buffer-Tracking.fixes);
        })
        (Commits-seq _ _ (move_sink-Tracking opened completing none) (
          Commits-seq _ _ (state-Tracking completing) (
            Commits-with_sink _ (λ s _.
              attempts-Commits (whole_multipart env backend id s.parts) s.max_attempts 1 false none
                (λ t. record {
                  keeps = Keeps-ask (completion_sent t.parts) _;
                  fixes = Fixes-ask (completion_sent t.parts) _;
                })))))

  complete_object-Commits :
      (o : Option String) → Commits a IsReturned (complete_object env backend o)
  unfolding complete_object
  complete_object-Commits none = complete_single_put-Commits
  complete_object-Commits (some id) = complete_multipart-Commits id

  commit_state_committed :
      (k : DirectS3Sink)
      → k.operation.state ≡ committed
      → commit_state k ≡ SinkCommitState.committed
  unfolding commit_state
  commit_state_committed k h = rw h refl

  abbrev pub Finished : SinkOn W → StoredObjectMeta → Type 0
  Finished z meta =
      (b : OperationRecord) × (lookup a.id z.machine.journal.operations ≡ some b)
      × (b.state ≡ committed)
      × (b.committed ≡ some meta)
      × (commit_state z.sink ≡ SinkCommitState.committed)
      × (z.sink.finished ≡ true)

  ended :
      (m meta : StoredObjectMeta) (y z : SinkOn W)
      → Committed a y m
      → ending m y ≡ (ok meta, z)
      → Finished z meta
  unfolding ◌>>◌ ◌>>=◌ change pure
  ended m meta y z c e =
      let same : m ≡ meta = cc in
      subst (λ q. Finished q meta) (ap (λ q. q.1) e)
        (
          c.is,
          c.found,
          c.is_committed,
          c.is_result ∙ ap some same,
          commit_state_committed (record y.sink { finished = true }) c.sink_committed,
          refl,
        )

  -- If a completion succeeds for an operation that is on record, the journal has the operation as
  -- committed with the metadata that was returned, whether the provider's answer or a later probe told
  -- so, and the sink is finished and says that it is committed.
  pub complete_commits :
      (x y : SinkOn W) (meta : StoredObjectMeta)
      → lookup a.id x.machine.journal.operations ≡ some a
      → x.sink.operation.id ≡ a.id
      → complete env backend x ≡ (ok meta, y)
      → Finished y meta
  unfolding complete with_sink
  complete_commits x z meta f i e =
      let (_, u) = unless_ok x.sink.finished finished_error _ x z meta e in
      let (_, v) = unless_ok (not x.sink.output_verified) output_mismatch _ x z meta u in
      let (m, y, s, t) =
        >>=-eq-ok (complete_object env backend x.sink.upload_id) ending x z meta v in
      let c =
        (complete_object-Commits x.sink.upload_id).at x y m m
          (record { on_record = History-start a a.id x.machine.journal f; same_id = i }) s refl in
      ended m meta y z c t
