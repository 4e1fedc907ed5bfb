-- ===== src/Transaction/Sink/Fixing.antt =====
-- Parts of the sink that a step leaves alone, also where it fails (transaction/s3.rs, `DirectS3Sink`).
use s.Transaction.Backend.{
  ◌>>=◌, ◌>>◌, >>=-keeps, Act, BackendError, Request, Run, Surroundings, TransactionBackend,
  TransactionError, UploadedPart, backend_error, part_sent, pure, raise, too_many_parts,
}
use s.Prelude.{
  Bool, List, Option, Result, String, err, false, if◌then◌else◌, ltb, none, ok, refl, some, suc,
  true, zero, ℕ, ◌∙◌, ◌≡◌, nat_eq, string_eq, not, ◌&&◌,
}
use s.Transaction.Sink.{
  DirectS3Sink, SinkOn, ask, attempt, change, evidence, ignore, lift, record_launch, with_sink,
  is_definitive, move_sink,
}
use s.Transaction.Json.{Json}
use s.Transaction.State.{OperationState}
use s.Transaction.Operation.{StoredObjectMeta}
use s.Transaction.Sink.Upload.{
  max_parts, part_answered, part_attempts, part_failed, part_uploaded, upload_buffered_part,
  upload_to,
}

-- The step leaves what `g` reads of the sink.
pub record Fixes {W A B : Type 0} (g : DirectS3Sink → B) (p : Act (SinkOn W) A) : Type 0 where
  pub at : (x : SinkOn W) → g (p x).1.sink ≡ g x.sink

module _ {W A B : Type 0} {g : DirectS3Sink → B} where
  pub Fixes-pure : (a : A) → Fixes {W = W} g (pure a)
  unfolding pure
  Fixes-pure a = record { at = λ x. refl }

  pub Fixes-raise : (e : TransactionError) → Fixes {W = W} g (raise {A = A} e)
  unfolding raise
  Fixes-raise e = record { at = λ x. refl }

  pub Fixes-if :
      (b : Bool) (p q : Act (SinkOn W) A) → Fixes g p → Fixes g q → Fixes g (if b then p else q)
  Fixes-if true p q h k = h
  Fixes-if false p q h k = k

  pub Fixes-lift : (p : Run W A) → Fixes g (lift p)
  unfolding lift
  Fixes-lift p = record { at = λ x. refl }

  pub Fixes-with_sink :
      (f : DirectS3Sink → Act (SinkOn W) A)
      → ((s : DirectS3Sink) → Fixes g (f s))
      → Fixes g (with_sink f)
  unfolding with_sink
  Fixes-with_sink f h = record { at = λ x. (h x.sink).at x }

  pub Fixes-attempt : (p : Act (SinkOn W) A) → Fixes g p → Fixes g (attempt p)
  unfolding attempt
  Fixes-attempt p h = record { at = h.at }

  pub Fixes-ask : (r : Bool → Request) (f : W → Result BackendError A × W) → Fixes g (ask r f)
  unfolding ask
  Fixes-ask r f = record { at = λ x. refl }

module _ {W A B C : Type 0} {g : DirectS3Sink → C} where
  pub Fixes-bind :
      (p : Act (SinkOn W) A) (f : A → Act (SinkOn W) B)
      → Fixes g p
      → ((a : A) → Fixes g (f a))
      → Fixes g (p >>= f)
  Fixes-bind p f hp hf = record {
    at = λ x. >>=-keeps (λ y. g y.sink ≡ g x.sink) p f x (hp.at x) (λ c y _ e. (hf c).at y ∙ e);
  }

module _ {W B C : Type 0} {g : DirectS3Sink → C} where
  pub Fixes-seq :
      (p : Act (SinkOn W) Unit) (q : Act (SinkOn W) B) → Fixes g p → Fixes g q → Fixes g (p >> q)
  unfolding ◌>>◌
  Fixes-seq p q hp hq = Fixes-bind p (λ _. q) hp (λ _. hq)

module _ {W C : Type 0} {g : DirectS3Sink → C} where
  pub Fixes-change :
      (f : DirectS3Sink → DirectS3Sink)
      → ((s : DirectS3Sink) → g (f s) ≡ g s)
      → Fixes {W = W} g (change f)
  unfolding change
  Fixes-change f h = record { at = λ x. h x.sink }

  pub Fixes-ignore : (p : Act (SinkOn W) Unit) → Fixes g p → Fixes g (ignore p)
  unfolding ignore
  Fixes-ignore p h = Fixes-bind _ _ (Fixes-attempt p h) (λ _. Fixes-pure tt)

  module _ (env : Surroundings) where
    pub evidence-Fixes :
        (kind : String) (detail : Json) → Fixes {W = W} g (evidence env kind detail)
    unfolding evidence
    evidence-Fixes kind detail = Fixes-with_sink _ (λ s. Fixes-lift _)

    pub record_launch-Fixes : Fixes {W = W} g (record_launch env)
    unfolding record_launch
    record_launch-Fixes =
        Fixes-with_sink _ (λ s. Fixes-bind _ _ (Fixes-lift _) (λ now. Fixes-lift _))

    pub move_sink-Fixes :
        (from to : OperationState) (meta : Option StoredObjectMeta)
        → Fixes {W = W} g (move_sink env from to meta)
    unfolding move_sink
    move_sink-Fixes from to meta = Fixes-with_sink _ (λ s. Fixes-lift _)

pub ruleset fixing = (
  Fixes-pure, Fixes-raise, Fixes-if, Fixes-lift, Fixes-with_sink, Fixes-attempt, Fixes-ask,
  Fixes-bind, Fixes-seq, Fixes-ignore, evidence-Fixes, record_launch-Fixes, move_sink-Fixes,
)

-- Of what does not depend on the parts that were uploaded.
module _ {W C : Type 0} {g : DirectS3Sink → C} (env : Surroundings) (backend : TransactionBackend W)
    (parts_free : (s : DirectS3Sink) (l : List UploadedPart)
      → g (record s { parts = l }) ≡ g s) where
  part_uploaded-Fixes :
      (attempt n : ℕ) (body : List ℕ) (tag : String)
      → Fixes g (part_uploaded env backend attempt n body tag)
  unfolding part_uploaded
  part_uploaded-Fixes attempt n body tag =
      Fixes-seq _ _ (Fixes-with_sink _ (λ s. Fixes-lift _))
        (Fixes-seq _ _ (evidence-Fixes env _ _) (Fixes-change _ (λ s. parts_free s _)))

  part_answered-Fixes :
      (attempt : ℕ) (b : Bool) (n : ℕ) (body : List ℕ) (again : BackendError → Act (SinkOn W) Unit)
      (r : Result BackendError String)
      → ((e : BackendError) → Fixes g (again e))
      → Fixes g (part_answered env backend attempt b n body again r)
  unfolding part_answered
  part_answered-Fixes attempt b n body again (ok tag) h = part_uploaded-Fixes attempt n body tag
  part_answered-Fixes attempt b n body again (err e) h =
      Fixes-if (is_definitive e && not b) _ _ (Fixes-raise (backend_error e)) (h e)

  part_attempts-Fixes :
      (rounds attempt : ℕ) (b : Bool) (last : Option BackendError) (upload : String) (n : ℕ)
      (body : List ℕ)
      → Fixes g (part_attempts env backend rounds attempt b last upload n body)
  unfolding part_attempts part_failed
  part_attempts-Fixes zero attempt b (some e) upload n body = Fixes-raise (backend_error e)
  part_attempts-Fixes zero attempt b none upload n body = Fixes-raise _
  part_attempts-Fixes (suc rounds) attempt b last upload n body =
      Fixes-seq _ _ (evidence-Fixes env _ _) (
        Fixes-seq _ _ (record_launch-Fixes env) (
          Fixes-bind _ _ (Fixes-with_sink _ (λ s. Fixes-ask (part_sent n body) _)) (λ r.
            part_answered-Fixes attempt b n body _ r
              (λ e. part_attempts-Fixes rounds (suc attempt) true (some e) upload n body))))

  upload_to-Fixes :
      (o : Option String) (rounds n : ℕ) (body : List ℕ)
      → Fixes g (upload_to env backend o rounds n body)
  unfolding upload_to
  upload_to-Fixes none rounds n body = Fixes-raise _
  upload_to-Fixes (some id) rounds n body =
      Fixes-if (ltb max_parts n) _ _ (Fixes-raise too_many_parts)
        (part_attempts-Fixes rounds 1 false none id n body)

  pub upload_buffered_part-Fixes : (body : List ℕ) → Fixes g (upload_buffered_part env backend body)
  unfolding upload_buffered_part
  upload_buffered_part-Fixes body = Fixes-with_sink _ (λ s. upload_to-Fixes s.upload_id _ _ body)
