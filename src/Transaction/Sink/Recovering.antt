-- ===== src/Transaction/Sink/Recovering.antt =====
-- What the sink finds out when it reconciles its completion (transaction/s3.rs, `reconcile_completion`).
use s.Transaction.Reconciler.{history_kind}
use s.Transaction.Sink.Reconcile.{committed_detail}
use s.Transaction.Json.{bool}
use s.Transaction.Backend.{
  ◌>>=◌, ◌>>◌, >>=-eq-ok, Surroundings, TransactionBackend, pure, raise, CompletionProbe,
  found_committed, inconclusive, probed, proven_absent, proven_absent_exact,
}
use s.Transaction.State.{committed, commit_unknown, OperationState, completing, proven_aborted}
use s.Transaction.Sink.{SinkOn, change, with_sink, lift, read_operation}
use s.Transaction.Operation.{OperationRecord, StoredObjectMeta}
use s.Prelude.{
  Option, ap, none, ok, refl, some, subst, ◌∙◌, ◌≡◌, nat_eq, string_eq, Bool, false, sym, true, ◌≢◌,
}
use s.Transaction.Sink.Reconcile.{
  adopt, committed_meta, absent_answer, absent_object, found_object, probe_unknown, probed_object,
  reconcile_completion, reconcile_from, reconcile_read,
}
use s.Prelude.Table.{lookup}
use s.Transaction.Reconciler.Safety.{
  Evolves-confirm, Evolves-move, Evolves-on_backend, Evolves-read_clock,
}
use s.Transaction.Reconciler.{move}
use s.Transaction.Reconciler.Steps.{move_ok}
use s.Transaction.Sink.Tracking.{
  Commits, Commits-bind, Commits-seq, Committed, Tracking-lift, Tracks, delete_redundant-Tracking,
  evidence-Tracking, lift_ok, some_inj,
}

-- What a reconciliation finds.
abbrev pub IsFound : Option StoredObjectMeta → StoredObjectMeta → Type 0
IsFound o meta = o ≡ some meta

module _ {W : Type 0} (env : Surroundings) (backend : TransactionBackend W) where
  committed_meta_ok :
      (s : OperationState) (o : Option StoredObjectMeta) (x y : SinkOn W) (meta : StoredObjectMeta)
      → committed_meta s o x ≡ (ok (some meta), y)
      → (s ≡ committed) × (o ≡ some meta) × (x ≡ y)
  unfolding committed_meta pure raise
  committed_meta_ok committed (some m) x y meta h = (refl, cc, cc)
  committed_meta_ok committed none x y meta h = cc
  committed_meta_ok _ o x y meta h = cc

  -- A committed operation is adopted as it is on record.
  adopt_ok :
      (a is op : OperationRecord) (x y : SinkOn W) (r : Option StoredObjectMeta)
      (meta : StoredObjectMeta)
      → (op.state ≡ committed
          → op.committed ≡ some meta
          → (lookup a.id x.machine.journal.operations ≡ some is)
            × (is.state ≡ committed)
            × (is.committed ≡ some meta))
      → adopt env backend op x ≡ (ok r, y)
      → r ≡ some meta
      → Committed a y meta
  unfolding adopt ◌>>◌ ◌>>=◌ change
  adopt_ok a is op x y r meta h e q =
      let (s, o, same) =
        committed_meta_ok op.state op.committed _ y meta (e ∙ ap (λ z. (ok z, y)) q) in
      let (f, c, w) = h s o in
      subst (λ z. Committed a z meta) same
        (record { is = is; found = f; is_committed = c; is_result = w; sink_committed = s })

  adopt-Commits :
      (a op : OperationRecord) → op.state ≢ committed → Commits a IsFound (adopt env backend op)
  adopt-Commits a op h = record {
    at = λ x y r meta k e q. adopt_ok a op op x y r meta (λ s. absurd (h s)) e q;
  }

  found_object-Commits :
      (a op : OperationRecord) (meta : StoredObjectMeta)
      → op.id ≡ a.id
      → Commits a IsFound (found_object env backend op meta)
  unfolding found_object ◌>>◌
  found_object-Commits a op meta same =
      Commits-seq _ _
        (delete_redundant-Tracking env backend meta.version_id meta.superseded_version_ids)
        (Commits-seq _ _
          (evidence-Tracking env (history_kind meta.version_history_complete)
            (committed_detail meta "reconciled" (bool true)))
          (record {
            at = λ x z r m k e q.
                let (_, y, u, v) =
                  >>=-eq-ok (lift (move env op.id commit_unknown committed (some meta)))
                    (λ _.
                      adopt env backend (record op { state = committed; committed = some meta }))
                    x z r e in
                let w =
                  move_ok env op.id commit_unknown committed (some meta) x.machine y.machine
                    (lift_ok (move env op.id commit_unknown committed (some meta)) x y tt u) in
                adopt_ok a w.is (record op { state = committed; committed = some meta }) y z r m
                  (λ s o. (
                    subst (λ i. lookup i y.machine.journal.operations ≡ some w.is) same w.written,
                    w.is_to,
                    w.is_result ∙ o,
                  ))
                  v q;
          }))

  absent_answer-Commits :
      (a op : OperationRecord) (b : Bool) → Commits a IsFound (absent_answer env backend op b)
  unfolding absent_answer ◌>>◌ ◌>>=◌ change pure
  absent_answer-Commits a op false = record { at = λ x y r meta k e q. cc }
  absent_answer-Commits a op true =
      Commits-seq _ _ (Tracking-lift _ (Evolves-move env op.id _ _ none))
        (adopt-Commits a (record op { state = proven_aborted }) (λ e. cc))

  probed_object-Commits :
      (a op : OperationRecord) (p : CompletionProbe)
      → op.id ≡ a.id
      → op.state ≢ committed
      → Commits a IsFound (probed_object env backend op p)
  unfolding probed_object absent_object
  probed_object-Commits a op (found_committed meta) same h = found_object-Commits a op _ same
  probed_object-Commits a op proven_absent_exact same h =
      Commits-bind _ _ (Tracking-lift _ (Evolves-read_clock env)) (λ observed.
        Commits-bind _ _ (Tracking-lift _ (Evolves-confirm env op.id observed _))
          (λ b. absent_answer-Commits a op b))
  probed_object-Commits a op proven_absent same h = adopt-Commits a op h
  probed_object-Commits a op inconclusive same h = adopt-Commits a op h

  probe_unknown-Commits :
      (a op : OperationRecord)
      → op.id ≡ a.id
      → op.state ≢ committed
      → Commits a IsFound (probe_unknown env backend op)
  unfolding probe_unknown
  probe_unknown-Commits a op same h =
      Commits-bind _ _ (Tracking-lift _ (Evolves-on_backend probed (backend.probe_completion op)))
        (λ p. probed_object-Commits a op p same h)

  on_record-Commits :
      (a op : OperationRecord) (x z : SinkOn W) (r : Option StoredObjectMeta)
      (meta : StoredObjectMeta)
      → lookup a.id x.machine.journal.operations ≡ some op
      → adopt env backend op x ≡ (ok r, z)
      → r ≡ some meta
      → Committed a z meta
  on_record-Commits a op x z r meta f e q = adopt_ok a op op x z r meta (λ s o. (f, s, o)) e q

  reconcile_from-Commits :
      (a op : OperationRecord) (s : OperationState) (x z : SinkOn W) (r : Option StoredObjectMeta)
      (meta : StoredObjectMeta)
      → Tracks a x
      → lookup a.id x.machine.journal.operations ≡ some op
      → op.id ≡ a.id
      → op.state ≡ s
      → reconcile_from env backend s op x ≡ (ok r, z)
      → r ≡ some meta
      → Committed a z meta
  unfolding reconcile_from
  reconcile_from-Commits a op completing x z r meta k f same h e q =
      (Commits-seq _ _ (Tracking-lift _ (Evolves-move env op.id _ _ none))
          (probe_unknown-Commits a (record op { state = commit_unknown }) same (λ c. cc))).at
        x z r meta k e q
  reconcile_from-Commits a op commit_unknown x z r meta k f same h e q =
      (probe_unknown-Commits a op same (λ c. cc)).at x z r meta k e q
  reconcile_from-Commits a op _ x z r meta k f same h e q = on_record-Commits a op x z r meta f e q

  reconcile_read-Commits :
      (a : OperationRecord) (o : Option OperationRecord) (x z : SinkOn W)
      (r : Option StoredObjectMeta) (meta : StoredObjectMeta)
      → Tracks a x
      → lookup a.id x.machine.journal.operations ≡ o
      → reconcile_read env backend x.sink.operation.id o x ≡ (ok r, z)
      → r ≡ some meta
      → Committed a z meta
  unfolding reconcile_read raise
  reconcile_read-Commits a none x z r meta k f e q = cc
  reconcile_read-Commits a (some op) x z r meta k f e q =
      reconcile_from-Commits a op op.state x z r meta k f
        (ap (λ b. b.id) (some_inj (sym f ∙ k.on_record.found)) ∙ k.on_record.same_id) refl e q

  -- What `reconcile_completion` returns is on record as committed.
  pub reconcile_completion-Commits :
      (a : OperationRecord) → Commits a IsFound (reconcile_completion env backend)
  unfolding reconcile_completion with_sink read_operation ◌>>=◌
  reconcile_completion-Commits a = record {
    at = λ x z r meta k e q.
        reconcile_read-Commits a (lookup x.sink.operation.id x.machine.journal.operations) x z r
          meta k (ap (λ i. lookup i x.machine.journal.operations) (sym k.same_id)) e q;
  }
