-- ===== src/Transaction/Sink/Keeping.antt =====
-- What the sink can do to the journal, whatever the provider answers and wherever a method stops
-- (transaction/s3.rs, `DirectS3Sink`).
use s.Transaction.Backend.{
  >>=-keeps, Act, BackendError, Request, Run, Surroundings, TransactionError, pure, raise, ◌>>=◌,
  ◌>>◌,
}
use s.Prelude.{Bool, Option, Result, String, false, if◌then◌else◌, true, nat_eq, string_eq}
use s.Transaction.Sink.{
  DirectS3Sink, SinkOn, ask, attempt, change, evidence, ignore, lift, read_operation, record_launch,
  with_sink, move_sink,
}
use s.Transaction.Reconciler.Safety.{
  Evolves, Evolves-confirm, Evolves-move, Evolves-note, Evolves-on_backend, Evolves-on_journal,
  Evolves-read_clock,
}
use s.Transaction.Operation.{ExpectedObject, OperationRecord, PartRecord, StoredObjectMeta, Uuid}
use s.Transaction.Journal.Evolution.{History, after-Advances}
use s.Transaction.Json.{Json}
use s.Transaction.State.{OperationState}
use s.Transaction.Journal.Recovery.{confirm_exact_absence}
use s.Transaction.Journal.History.{
  launch-Advances, part_call, set_expected-Advances, set_open-Advances, after,
}
use s.Transaction.Reconciler.{move, on_backend, on_journal, read_clock}
use s.Transaction.Journal.{record_part, set_expected, set_open}
use s.Prelude.Int.{ℤ}

-- The step moves an operation of the journal only by allowed transitions, also where it fails.
pub record Keeps {W A : Type 0} (p : Act (SinkOn W) A) : Type 0 where
  pub at :
      (a : OperationRecord) (k : Uuid) (x : SinkOn W)
      → History a k x.machine.journal
      → History a k (p x).1.machine.journal

module _ {W A : Type 0} where
  pub Keeps-pure : (a : A) → Keeps {W = W} (pure a)
  unfolding pure
  Keeps-pure a = record { at = λ _ _ _ h. h }

  pub Keeps-raise : (e : TransactionError) → Keeps {W = W} (raise {A = A} e)
  unfolding raise
  Keeps-raise e = record { at = λ _ _ _ h. h }

  pub Keeps-if :
      (b : Bool) (p q : Act (SinkOn W) A) → Keeps p → Keeps q → Keeps (if b then p else q)
  Keeps-if true p q h k = h
  Keeps-if false p q h k = k

  pub Keeps-lift : (p : Run W A) → Evolves p → Keeps (lift p)
  unfolding lift
  Keeps-lift p e = record { at = λ a k x h. e.at a k x.machine h }

  pub Keeps-with_sink :
      (f : DirectS3Sink → Act (SinkOn W) A)
      → ((s : DirectS3Sink) → Keeps (f s))
      → Keeps (with_sink f)
  unfolding with_sink
  Keeps-with_sink f h = record { at = λ a k x. (h x.sink).at a k x }

  pub Keeps-attempt : (p : Act (SinkOn W) A) → Keeps p → Keeps (attempt p)
  unfolding attempt
  Keeps-attempt p h = record { at = h.at }

  pub Keeps-ask : (r : Bool → Request) (f : W → Result BackendError A × W) → Keeps (ask r f)
  unfolding ask
  Keeps-ask r f = record { at = λ _ _ _ h. h }

module _ {W : Type 0} where
  pub Keeps-change : (f : DirectS3Sink → DirectS3Sink) → Keeps {W = W} (change f)
  unfolding change
  Keeps-change f = record { at = λ _ _ _ h. h }

  pub Keeps-read : (id : Uuid) → Keeps {W = W} (read_operation id)
  unfolding read_operation
  Keeps-read id = record { at = λ _ _ _ h. h }

module _ {W A B : Type 0} where
  pub Keeps-bind :
      (p : Act (SinkOn W) A) (f : A → Act (SinkOn W) B)
      → Keeps p
      → ((a : A) → Keeps (f a))
      → Keeps (p >>= f)
  Keeps-bind p f hp hf = record {
    at = λ a k x h.
        >>=-keeps (λ y. History a k y.machine.journal) p f x (hp.at a k x h)
          (λ c y _ h'. (hf c).at a k y h');
  }

pub Keeps-seq :
    {W B : Type 0} (p : Act (SinkOn W) Unit) (q : Act (SinkOn W) B)
    → Keeps p
    → Keeps q
    → Keeps (p >> q)
unfolding ◌>>◌
Keeps-seq p q hp hq = Keeps-bind p (λ _. q) hp (λ _. hq)

pub Keeps-ignore : {W : Type 0} (p : Act (SinkOn W) Unit) → Keeps p → Keeps (ignore p)
unfolding ignore
Keeps-ignore p h = Keeps-bind _ _ (Keeps-attempt p h) (λ _. Keeps-pure tt)

module _ {W : Type 0} (env : Surroundings) where
  pub evidence-Keeps : (kind : String) (detail : Json) → Keeps {W = W} (evidence env kind detail)
  unfolding evidence
  evidence-Keeps kind detail =
      Keeps-with_sink _ (λ s. Keeps-lift _ (Evolves-note env _ kind detail))

  pub record_launch-Keeps : Keeps {W = W} (record_launch env)
  unfolding record_launch
  record_launch-Keeps = Keeps-with_sink _ (λ s.
      Keeps-bind _ _ (Keeps-lift _ (Evolves-read_clock env)) (λ now.
        Keeps-lift _ (Evolves-on_journal env _ (λ t k j. launch-Advances t s.operation.id k _ j))))

  pub move_sink-Keeps :
      (from to : OperationState) (meta : Option StoredObjectMeta)
      → Keeps {W = W} (move_sink env from to meta)
  unfolding move_sink
  move_sink-Keeps from to meta =
      Keeps-with_sink _ (λ s. Keeps-lift _ (Evolves-move env s.operation.id from to meta))

  pub Keeps-move :
      (id : Uuid) (from to : OperationState) (meta : Option StoredObjectMeta)
      → Keeps {W = W} (lift (move env id from to meta))
  Keeps-move id from to meta = Keeps-lift _ (Evolves-move env id from to meta)

  pub Keeps-clock : Keeps {W = W} (lift (read_clock env))
  Keeps-clock = Keeps-lift _ (Evolves-read_clock env)

  pub Keeps-confirm :
      (id : Uuid) (observed delay : ℤ)
      → Keeps {W = W} (lift (on_journal env (λ now. confirm_exact_absence now id observed delay)))
  Keeps-confirm id observed delay = Keeps-lift _ (Evolves-confirm env id observed delay)

  pub Keeps-set_open :
      (id : Uuid) (upload : Option String)
      → Keeps {W = W} (lift (on_journal env (λ now. set_open now id upload)))
  Keeps-set_open id upload =
      Keeps-lift _ (Evolves-on_journal env _ (λ t k j. set_open-Advances t id k upload j))

  pub Keeps-set_expected :
      (id : Uuid) (e : ExpectedObject)
      → Keeps {W = W} (lift (on_journal env (λ now. set_expected now id e)))
  Keeps-set_expected id e =
      Keeps-lift _ (Evolves-on_journal env _ (λ t k j. set_expected-Advances t id k e j))

  pub Keeps-record_part :
      (f : ℤ → PartRecord) → Keeps {W = W} (lift (on_journal env (λ now. record_part (f now))))
  unfolding after
  Keeps-record_part f = Keeps-lift _ (
      Evolves-on_journal env (λ now. record_part (f now))
        (λ t k j. after-Advances (part_call (f t)) k j tt))

pub Keeps-backend :
    {W A : Type 0} (r : A → Request) (f : W → Result BackendError A × W)
    → Keeps (lift (on_backend r f))
Keeps-backend r f = Keeps-lift _ (Evolves-on_backend r f)

pub ruleset keeping = (
  Keeps-pure, Keeps-raise, Keeps-if, Keeps-with_sink, Keeps-attempt, Keeps-ask, Keeps-change,
  Keeps-read, Keeps-bind, Keeps-seq, Keeps-ignore, Keeps-backend, evidence-Keeps,
  record_launch-Keeps, move_sink-Keeps, Keeps-move, Keeps-clock, Keeps-confirm, Keeps-set_open,
  Keeps-set_expected, Keeps-record_part,
)
