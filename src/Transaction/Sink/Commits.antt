-- ===== src/Transaction/Sink/Commits.antt =====
-- What a completion that succeeds has done (transaction/s3.rs, `complete`).
use s.Transaction.Sink.Keeping.{move_sink-Keeps}
use s.Transaction.Backend.{
  ◌>>=◌, ◌>>◌, >>=-eq-ok, Act, BackendError, Surroundings, TransactionBackend, TransactionError,
  backend_error, pure, raise,
}
use s.Transaction.State.{committed, completing}
use s.Transaction.Sink.Tracking.{Commits, Commits-seq, Committed, Tracking, Tracks, lift_ok}
use s.Transaction.Sink.Complete.{Completion, after_commit, last_or, out_of_attempts, recovered_or}
use s.Transaction.Sink.Fixing.{Fixes-change, Fixes-seq, evidence-Fixes, move_sink-Fixes}
use s.Transaction.Json.{Json, end, field, object}
use s.Transaction.Operation.{OperationRecord, StoredObjectMeta}
use s.Prelude.{
  Option, Result, String, ap, err, none, ok, refl, some, subst, ℕ, ◌∙◌, ◌≡◌, nat_eq, string_eq,
}
use s.Transaction.Sink.{
  SinkOn, attempt, evidence, lift, with_sink, move_sink, change, ignore, number_of, set_state,
}
use s.Transaction.Journal.Evolution.{append_evidence-operations}
use s.Transaction.Sink.Reconcile.{mark_commit_unknown, reconcile_completion, committed_detail}
use s.Transaction.Sink.Committing.{mark_commit_unknown-Keeps}
use s.Transaction.Reconciler.{note, history_kind, move}
use s.Transaction.Sink.Bytes.{pairs}
use s.Transaction.Sink.Recovering.{reconcile_completion-Commits}
use s.Prelude.Table.{lookup}
use s.Transaction.Reconciler.Steps.{move_ok}

abbrev pub IsReturned : StoredObjectMeta → StoredObjectMeta → Type 0
IsReturned m meta = m ≡ meta

pub Tracks-after :
    {W A : Type 0} (a : OperationRecord) (p : Act (SinkOn W) A) (x y : SinkOn W)
    (r : Result TransactionError A)
    → Tracking p
    → Tracks a x
    → p x ≡ (r, y)
    → Tracks a y
Tracks-after a p x y r t k e =
    subst (λ z. Tracks a z) (ap (λ q. q.1) e)
      (record { on_record = t.keeps.at a a.id x k.on_record; same_id = t.fixes.at x ∙ k.same_id })

pub attempt_ok :
    {W A : Type 0} (p : Act (SinkOn W) A) (x y : SinkOn W) (r : Result TransactionError A)
    → attempt p x ≡ (ok r, y)
    → p x ≡ (r, y)
unfolding attempt
attempt_ok p x y r e = let i : (p x).0 ≡ r = cc in pairs (p x) r y i (ap (λ q. q.1) e)

module _ {W : Type 0} (env : Surroundings) (backend : TransactionBackend W)
    (a : OperationRecord) where
  recovered_or_ok :
      (e : TransactionError) (o : Option StoredObjectMeta) (x y z : SinkOn W)
      (r meta : StoredObjectMeta)
      → Tracks a x
      → reconcile_completion env backend x ≡ (ok o, y)
      → recovered_or env backend e (ok o) y ≡ (ok r, z)
      → r ≡ meta
      → Committed a z meta
  unfolding recovered_or raise pure
  recovered_or_ok e none x y z r meta k u v q = cc
  recovered_or_ok e (some m) x y z r meta k u v q =
      let same : m ≡ r = cc in
      let stays : y ≡ z = cc in
      subst (λ w. Committed a w meta) stays
        ((reconcile_completion-Commits env backend a).at x y (some m) meta k u (ap some (same ∙ q)))

  recovered_or_err :
      (e : TransactionError) (o : Result TransactionError (Option StoredObjectMeta))
      (x y z : SinkOn W) (r meta : StoredObjectMeta)
      → Tracks a x
      → reconcile_completion env backend x ≡ (o, y)
      → recovered_or env backend e o y ≡ (ok r, z)
      → r ≡ meta
      → Committed a z meta
  unfolding recovered_or raise
  recovered_or_err e (err f) x y z r meta k u v q = cc
  recovered_or_err e (ok o) x y z r meta k u v q = recovered_or_ok e o x y z r meta k u v q

  mark_commit_unknown-Tracking : Tracking (mark_commit_unknown env backend)
  unfolding mark_commit_unknown
  mark_commit_unknown-Tracking = record {
    keeps = mark_commit_unknown-Keeps env backend;
    fixes =
        Fixes-seq _ _ (move_sink-Fixes env _ _ _)
          (Fixes-seq _ _ (Fixes-change _ (λ s. refl)) (evidence-Fixes env _ _));
  }

  pub out_of_attempts-Commits :
      (c : Completion W) (o : Option BackendError)
      → Commits a IsReturned (out_of_attempts env backend c o)
  unfolding out_of_attempts
  out_of_attempts-Commits c o = Commits-seq _ _ mark_commit_unknown-Tracking (record {
    at = λ x z r meta k e q.
        let f = backend_error (last_or env backend c o) in
        let (d, y, u, v) =
          >>=-eq-ok (reconcile_completion env backend) (λ t. recovered_or env backend f (ok t)) x z
            r e in
        recovered_or_ok f d x y z r meta k u v q;
  })

  -- Evidence is not a change of the operations.
  evidence-operations :
      (kind : String) (detail : Json) (x : SinkOn W)
      → (evidence env kind detail x).1.machine.journal.operations ≡ x.machine.journal.operations
  unfolding evidence with_sink lift note
  evidence-operations kind detail x = append_evidence-operations _ x.machine.journal

  -- Once the journal has the operation as committed.
  committed_after :
      (c : Completion W) (n : ℕ) (m meta r : StoredObjectMeta) (is : OperationRecord)
      (y z : SinkOn W)
      → lookup a.id y.machine.journal.operations ≡ some is
      → is.state ≡ committed
      → is.committed ≡ some m
      → after_commit env backend c n m (ok tt) y ≡ (ok r, z)
      → r ≡ meta
      → Committed a z meta
  unfolding after_commit change ignore attempt pure ◌>>◌ ◌>>=◌
  committed_after c n m meta r is y z f s o v q =
      let same : m ≡ r = cc in
      let set = record y { sink = set_state committed y.sink } in
      let k = history_kind m.version_history_complete in
      let d = committed_detail m "attempt" (number_of n) in
      let noted = (evidence env k d set).1 in
      let l = object (field "attempt" (number_of n) end) in
      subst (λ t. Committed a t meta) (ap (λ t. t.1) v)
        (record {
          is = is;
          found =
              ap (lookup a.id)
                (evidence-operations c.after_kind l noted ∙ evidence-operations k d set)
              ∙ f;
          is_committed = s;
          is_result = o ∙ ap some (same ∙ q);
          sink_committed =
              (evidence-Fixes {g = λ t. t.operation.state} env c.after_kind l).at noted
              ∙ (evidence-Fixes {g = λ t. t.operation.state} env k d).at set;
        })

  pub after_commit-Commits :
      (c : Completion W) (n : ℕ) (m meta r : StoredObjectMeta)
      (moved : Result TransactionError Unit) (x y z : SinkOn W)
      → Tracks a x
      → move_sink env completing committed (some m) x ≡ (moved, y)
      → after_commit env backend c n m moved y ≡ (ok r, z)
      → r ≡ meta
      → Committed a z meta
  unfolding after_commit move_sink with_sink
  after_commit-Commits c n m meta r (err e) x y z k u v q =
      let (o, w, h, t) =
        >>=-eq-ok (attempt (reconcile_completion env backend)) (recovered_or env backend e) y z r
          v in
      recovered_or_err e o y w z r meta
        (Tracks-after a (move_sink env completing committed (some m)) x y (err e)
          (record { keeps = move_sink-Keeps env _ _ _; fixes = move_sink-Fixes env _ _ _ }) k u)
        (attempt_ok (reconcile_completion env backend) y w o h) t q
  after_commit-Commits c n m meta r (ok tt) x y z k u v q =
      let w =
        move_ok env x.sink.operation.id completing committed (some m) x.machine y.machine
          (lift_ok (move env x.sink.operation.id completing committed (some m)) x y tt u) in
      committed_after c n m meta r w.is y z
        (subst (λ i. lookup i y.machine.journal.operations ≡ some w.is) k.same_id w.written) w.is_to
        w.is_result v q
