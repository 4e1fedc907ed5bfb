-- ===== src/Transaction/Sink/LostPart.antt =====
-- A last part whose upload fails (transaction/s3.rs, `complete_multipart`).
use s.Transaction.Backend.{
  ◌>>=◌, ◌>>◌, Act, Surroundings, TransactionBackend, TransactionError, pure,
}
use s.Prelude.{
  Bool, List, Option, String, [], ap, err, false, is_empty, refl, some, sym, true, ℕ, ◌∙◌, ◌≡◌,
  nat_eq, string_eq, if◌then◌else◌, not,
}
use s.Transaction.Sink.{DirectS3Sink, SinkOn, change, with_sink}
use s.Transaction.Sink.Complete.{complete, complete_multipart, complete_object}
use s.Transaction.Sink.Upload.{flush_buffer}
use s.Transaction.Sink.Fixing.{upload_buffered_part-Fixes}
use s.Transaction.Operation.{StoredObjectMeta}

-- What a second completion reads of the sink.
abbrev pub standing : DirectS3Sink → List ℕ × Bool × Bool × Option String
standing s = (s.buffer, s.output_verified, s.finished, s.upload_id)

module _ {W : Type 0} (env : Surroundings) (backend : TransactionBackend W) where
  -- A step that fails ends the block.
  >>=-eq-err :
      {S A B : Type 0} (p : Act S A) (f : A → Act S B) (x y : S) (e : TransactionError)
      → p x ≡ (err e, y)
      → (p >>= f) x ≡ (err e, y)
  unfolding ◌>>=◌
  >>=-eq-err p f x y e h = rw h refl

  flush_buffer-standing :
      (x : SinkOn W)
      → standing (flush_buffer env backend x).1.sink
        ≡ ([], x.sink.output_verified, x.sink.finished, x.sink.upload_id)
  unfolding flush_buffer with_sink ◌>>◌ ◌>>=◌ change
  flush_buffer-standing x =
      (upload_buffered_part-Fixes {g = standing} env backend (λ s l. refl) x.sink.buffer).at
        (record x { sink = record x.sink { buffer = [] } })

  abbrev finishing : Option String → Act (SinkOn W) StoredObjectMeta
  finishing o = do
    meta ← complete_object env backend o
    change (λ t. record t { finished = true })
    pure meta

  pick :
      {S A : Type 0} (b : Bool) (q p : Act S A) (x : S) → b ≡ false → (if b then q else p) x ≡ p x
  pick true q p x h = cc
  pick false q p x h = refl

  -- If the upload of the last part fails in a completion of a verified, unfinished multipart
  -- sink, the completion fails, and the bytes of the part are gone from the sink, which still
  -- counts as verified and unfinished.
  pub failed_part_lost :
      (id : String) (x y : SinkOn W) (e : TransactionError)
      → x.sink.finished ≡ false
      → x.sink.output_verified ≡ true
      → x.sink.upload_id ≡ some id
      → is_empty x.sink.buffer ≡ false
      → flush_buffer env backend x ≡ (err e, y)
      → (complete env backend x ≡ (err e, y)) × (standing y.sink ≡ ([], true, false, some id))
  unfolding complete with_sink complete_object complete_multipart ◌>>◌
  failed_part_lost id x y e f v u b h = (
    pick x.sink.finished _ _ x f
        ∙ pick (not x.sink.output_verified) _ _ x (ap not v)
        ∙ ap (λ o. (finishing o) x) u
        ∙ >>=-eq-err (complete_object env backend (some id)) _ x y e (
            >>=-eq-err
              (with_sink (λ s. if is_empty s.buffer then pure tt else flush_buffer env backend)) _ x
              y e (pick (is_empty x.sink.buffer) (pure tt) _ x b ∙ h)),
    ap standing (ap (λ q. q.1.sink) (sym h)) ∙ flush_buffer-standing x ∙ rw (v, f, u) refl,
  )
