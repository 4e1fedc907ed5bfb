-- ===== src/Transaction/Sink/Tracking.antt =====
-- Steps of the sink that leave its operation on record (transaction/s3.rs, `DirectS3Sink`).
use s.Transaction.Backend.{
  ◌>>=◌, ◌>>◌, >>=-eq-ok, Act, Run, Surroundings, TransactionBackend, TransactionError, raise,
}
use s.Transaction.State.{committed}
use s.Transaction.Sink.{DirectS3Sink, SinkOn, delete_redundant, evidence, ignore, lift, with_sink}
use s.Transaction.Reconciler.Safety.{Evolves}
use s.Transaction.Sink.Fixing.{
  Fixes, Fixes-if, Fixes-ignore, Fixes-lift, Fixes-pure, Fixes-raise, Fixes-seq, Fixes-with_sink,
  evidence-Fixes,
}
use s.Transaction.Journal.Evolution.{History}
use s.Transaction.Json.{Json}
use s.Transaction.Sink.Keeping.{Keeps-ignore, Keeps-lift, Keeps-seq, evidence-Keeps, Keeps}
use s.Prelude.{
  List, Option, String, [], ap, ok, some, subst, ◌∙◌, ◌∷◌, ◌≡◌, nat_eq, string_eq, Bool, false,
  if◌then◌else◌, true,
}
use s.Transaction.Operation.{OperationRecord, StoredObjectMeta}
use s.Transaction.Sink.Writing.{delete_redundant-Keeps}
use s.Transaction.Reconciler.{is_authoritative}
use s.Prelude.Table.{lookup}
use s.Transaction.Sink.Bytes.{pairs}

-- The sink's operation is on record under its id.
pub record Tracks {W : Type 0} (a : OperationRecord) (x : SinkOn W) : Type 0 where
  pub on_record : History a a.id x.machine.journal
  pub same_id : x.sink.operation.id ≡ a.id

-- The journal and the sink have the operation as committed, with this metadata.
pub record Committed {W : Type 0} (a : OperationRecord) (x : SinkOn W) (meta : StoredObjectMeta)
    : Type 0 where
  pub is : OperationRecord
  pub found : lookup a.id x.machine.journal.operations ≡ some is
  pub is_committed : is.state ≡ committed
  pub is_result : is.committed ≡ some meta
  pub sink_committed : x.sink.operation.state ≡ committed

-- What the step returns of an operation is on record as committed.
pub record Commits {W A : Type 0} (a : OperationRecord) (returned : A → StoredObjectMeta → Type 0)
    (p : Act (SinkOn W) A) : Type 0 where
  pub at :
      (x y : SinkOn W) (r : A) (meta : StoredObjectMeta)
      → Tracks a x
      → p x ≡ (ok r, y)
      → returned r meta
      → Committed a y meta

-- The step leaves the operation on record, and the sink's copy has its id.
pub record Tracking {W A : Type 0} (p : Act (SinkOn W) A) : Type 0 where
  pub keeps : Keeps p
  pub fixes : Fixes (λ s. s.operation.id) p

module _ {W B : Type 0} {a : OperationRecord} {returned : B → StoredObjectMeta → Type 0} where
  pub Commits-raise : (e : TransactionError) → Commits {W = W} a returned (raise e)
  unfolding raise
  Commits-raise e = record { at = λ x y r meta t h. cc }

  pub Commits-if :
      (b : Bool) (p q : Act (SinkOn W) B)
      → Commits a returned p
      → Commits a returned q
      → Commits a returned (if b then p else q)
  Commits-if true p q h k = h
  Commits-if false p q h k = k

  pub Commits-bind :
      {A : Type 0} (p : Act (SinkOn W) A) (f : A → Act (SinkOn W) B)
      → Tracking p
      → ((b : A) → Commits a returned (f b))
      → Commits a returned (p >>= f)
  Commits-bind p f t h = record {
    at = λ x z r meta k e.
        let (b, y, u, v) = >>=-eq-ok p f x z r e in
        (h b).at y z r meta
          (subst (λ q. Tracks a q) (ap (λ q. q.1) u)
            (record {
              on_record = t.keeps.at a a.id x k.on_record;
              same_id = t.fixes.at x ∙ k.same_id;
            }))
          v;
  }

  pub Commits-with_sink :
      (f : DirectS3Sink → Act (SinkOn W) B)
      → ((s : DirectS3Sink) → s.operation.id ≡ a.id → Commits a returned (f s))
      → Commits a returned (with_sink f)
  unfolding with_sink
  Commits-with_sink f h = record { at = λ x y r meta k. (h x.sink k.same_id).at x y r meta k }

module _ {W B : Type 0} {a : OperationRecord} {returned : B → StoredObjectMeta → Type 0} where
  pub Commits-seq :
      (p : Act (SinkOn W) Unit) (q : Act (SinkOn W) B)
      → Tracking p
      → Commits a returned q
      → Commits a returned (p >> q)
  unfolding ◌>>◌
  Commits-seq p q t h = Commits-bind p (λ _. q) t (λ _. h)

pub lift_ok :
    {W A : Type 0} (p : Run W A) (x y : SinkOn W) (b : A)
    → lift p x ≡ (ok b, y)
    → p x.machine ≡ (ok b, y.machine)
unfolding lift
lift_ok p x y b e = pairs _ _ _ (ap (λ q. q.0) e) (ap (λ q. q.1.machine) e)

pub some_inj : {A : Type 0} {a b : A} → some a ≡ some b → a ≡ b
some_inj e = cc

module _ {W : Type 0} where
  pub Tracking-lift : {A : Type 0} (p : Run W A) → Evolves p → Tracking (lift p)
  Tracking-lift p e = record { keeps = Keeps-lift p e; fixes = Fixes-lift p }

  pub Tracking-seq :
      {B : Type 0} (p : Act (SinkOn W) Unit) (q : Act (SinkOn W) B)
      → Tracking p
      → Tracking q
      → Tracking (p >> q)
  Tracking-seq p q h k = record {
    keeps = Keeps-seq p q h.keeps k.keeps;
    fixes = Fixes-seq p q h.fixes k.fixes;
  }

  pub Tracking-ignore : (p : Act (SinkOn W) Unit) → Tracking p → Tracking (ignore p)
  Tracking-ignore p h = record { keeps = Keeps-ignore p h.keeps; fixes = Fixes-ignore p h.fixes }

module _ {W : Type 0} (env : Surroundings) where
  pub evidence-Tracking :
      (kind : String) (detail : Json) → Tracking {W = W} (evidence env kind detail)
  evidence-Tracking kind detail = record {
    keeps = evidence-Keeps env kind detail;
    fixes = evidence-Fixes env kind detail;
  }

module _ {W : Type 0} (env : Surroundings) (backend : TransactionBackend W) where
  delete_redundant-Fixes :
      (current : Option String) (vs : List String)
      → Fixes (λ s. s.operation.id) (delete_redundant env backend current vs)
  unfolding delete_redundant
  delete_redundant-Fixes current [] = Fixes-pure tt
  delete_redundant-Fixes current (v ∷ vs) =
      Fixes-if (is_authoritative current v) _ _ (Fixes-raise _)
        (Fixes-seq _ _ (Fixes-with_sink _ (λ s. Fixes-lift _)) (delete_redundant-Fixes current vs))

  pub delete_redundant-Tracking :
      (current : Option String) (vs : List String)
      → Tracking (delete_redundant env backend current vs)
  delete_redundant-Tracking current vs = record {
    keeps = delete_redundant-Keeps env backend current vs;
    fixes = delete_redundant-Fixes current vs;
  }
