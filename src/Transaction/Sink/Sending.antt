-- ===== src/Transaction/Sink/Sending.antt =====
-- The bytes that the provider takes while parts are uploaded (transaction/s3.rs, `ensure_multipart`,
-- `upload_buffered_part`, `write`).
use s.Transaction.Backend.{
  ◌>>=◌, ◌>>◌, BackendError, Surroundings, TransactionBackend, backend_error, creation_sent,
  part_sent, too_many_parts,
}
use s.Prelude.{
  Bool, List, Option, Result, String, [], ap, append-nil, err, false, length, ltb, none, ok, refl,
  some, suc, sym, true, zero, ℕ, ◌++◌, ◌+◌, ◌∙◌, ◌≡◌, nat_eq, string_eq, append_assoc, arith, ◌<◌,
  ◌≢◌, ◌≤◌,
}
use s.Transaction.Sink.Bytes.{
  Sends, Sends-answer, Sends-if, Sends-raise, Sends-seq, Sends-with_sink, Steady, Steady-change,
  Steady-journal, Steady-pure, Steady-seq, evidence-Steady, record_launch-Steady, taken, Sent,
}
use s.Transaction.Sink.{SinkOn, attempt, change, with_sink}
use s.Transaction.Sink.Upload.{
  create_unless, create_upload, ensure_multipart, flush_buffer, opened_upload, part_answered,
  part_attempts, part_failed, part_uploaded, upload_buffered_part, upload_to, max_parts,
}

module _ {W : Type 0} (env : Surroundings) (backend : TransactionBackend W) where
  opened_upload-Steady : (r : Result BackendError String) → Steady (opened_upload env backend r)
  unfolding opened_upload
  opened_upload-Steady (err e) =
      Steady-seq _ _ (evidence-Steady env _ _) (Sends-raise [] (backend_error e))
  opened_upload-Steady (ok id) =
      Steady-seq _ _ (Sends-with_sink [] _ (λ s. Steady-journal env _))
        (Steady-seq _ _ (Steady-change _ (λ s. refl) (λ s. refl)) (evidence-Steady env _ _))

  create_upload-Steady : Steady (create_upload env backend)
  unfolding create_upload
  create_upload-Steady = Steady-seq _ _ (evidence-Steady env _ _) (
      Steady-seq _ _ (record_launch-Steady env) (
        Sends-answer [] creation_sent (λ s. backend.create_multipart s.operation) _ refl refl
          (λ id. opened_upload-Steady (ok id)) (λ e. opened_upload-Steady (err e))))

  create_unless-Steady : (o : Option String) → Steady (create_unless env backend o)
  unfolding create_unless
  create_unless-Steady (some id) = Steady-pure tt
  create_unless-Steady none = create_upload-Steady

  pub ensure_multipart-Steady : Steady (ensure_multipart env backend)
  unfolding ensure_multipart
  ensure_multipart-Steady = Sends-with_sink [] _ (λ s. create_unless-Steady s.upload_id)

  part_uploaded-Steady :
      (attempt n : ℕ) (body : List ℕ) (tag : String)
      → Steady (part_uploaded env backend attempt n body tag)
  unfolding part_uploaded
  part_uploaded-Steady attempt n body tag =
      Steady-seq _ _ (Sends-with_sink [] _ (λ s. Steady-journal env _))
        (Steady-seq _ _ (evidence-Steady env _ _) (Steady-change _ (λ s. refl) (λ s. refl)))

  part_failed-Sends :
      (body : List ℕ) (o : Option BackendError) → Sends body (part_failed env backend o)
  unfolding part_failed
  part_failed-Sends body (some e) = Sends-raise body (backend_error e)
  part_failed-Sends body none = Sends-raise body _

  part_attempts-Sends :
      (rounds attempt : ℕ) (b : Bool) (last : Option BackendError) (upload : String) (n : ℕ)
      (body : List ℕ)
      → Sends body (part_attempts env backend rounds attempt b last upload n body)
  unfolding part_attempts part_answered
  part_attempts-Sends zero attempt b last upload n body = part_failed-Sends body last
  part_attempts-Sends (suc rounds) attempt b last upload n body =
      Sends-seq [] body _ _ (evidence-Steady env _ _) (
        Sends-seq [] body _ _ (record_launch-Steady env) (
          Sends-answer body (part_sent n body) (λ s. backend.upload_part s.operation upload n body)
            (part_answered env backend attempt b n body
              (λ e. part_attempts env backend rounds (suc attempt) true (some e) upload n body))
            (append-nil body) refl (λ tag. part_uploaded-Steady attempt n body tag)
            (λ e.
              Sends-if body _ _ _ (Sends-raise body (backend_error e))
                (part_attempts-Sends rounds (suc attempt) true (some e) upload n body))))

  upload_to-Sends :
      (o : Option String) (rounds n : ℕ) (body : List ℕ)
      → Sends body (upload_to env backend o rounds n body)
  unfolding upload_to
  upload_to-Sends none rounds n body = Sends-raise body _
  upload_to-Sends (some id) rounds n body =
      Sends-if body (ltb max_parts n) _ _ (Sends-raise body too_many_parts)
        (part_attempts-Sends rounds 1 false none id n body)

  upload_buffered_part-Sends : (body : List ℕ) → Sends body (upload_buffered_part env backend body)
  unfolding upload_buffered_part
  upload_buffered_part-Sends body =
      Sends-with_sink body _
        (λ s. upload_to-Sends s.upload_id s.max_attempts (length s.parts + 1) body)

-- Nothing is lost between two moments: of what was sent and what is buffered, the one grew by these
-- bytes, and so did what is hashed.
pub record Kept {W : Type 0} (x y : SinkOn W) (bytes : List ℕ) : Type 0 where
  pub kept :
      taken y.machine.requests ++ y.sink.buffer
      ≡ (taken x.machine.requests ++ x.sink.buffer) ++ bytes
  pub same_hashed : y.sink.hashed ≡ x.sink.hashed

module _ {W : Type 0} (env : Surroundings) (backend : TransactionBackend W) where
  -- The whole buffer is sent.
  flush_buffer_ok :
      (x y : SinkOn W)
      → flush_buffer env backend x ≡ (ok tt, y)
      → Kept x y [] × (y.sink.buffer ≡ [])
  unfolding flush_buffer with_sink ◌>>◌ ◌>>=◌ change
  flush_buffer_ok x y e =
      let s =
        (upload_buffered_part-Sends env backend x.sink.buffer).at
          (record x { sink = record x.sink { buffer = [] } }) y tt e in
      (
        record {
          kept =
              ap (λ l. taken y.machine.requests ++ l) s.same_buffer
              ∙ append-nil (taken y.machine.requests)
              ∙ s.sent
              ∙ sym (append-nil (taken x.machine.requests ++ x.sink.buffer));
          same_hashed = s.same_hashed;
        },
        s.same_buffer,
      )

-- Of a round: nothing is lost, and the buffer has room if bytes are left.
pub record Rounded {W : Type 0} (part_bytes : ℕ) (rest : List ℕ) (x y : SinkOn W) : Type 0 where
  pub same_bytes : Kept x y []
  pub in_bounds : length y.sink.buffer ≤ part_bytes
  pub has_room : rest ≢ [] → length y.sink.buffer < part_bytes

pub Kept-trans :
    {W : Type 0} (x y z : SinkOn W) (xs ys : List ℕ)
    → Kept x y xs
    → Kept y z ys
    → Kept x z (xs ++ ys)
Kept-trans x y z xs ys p q = record {
  kept =
      q.kept
      ∙ ap (λ l. l ++ ys) p.kept
      ∙ append_assoc (taken x.machine.requests ++ x.sink.buffer) xs ys;
  same_hashed = q.same_hashed ∙ p.same_hashed;
}

pub Sent-Kept : {W : Type 0} (x y : SinkOn W) → Sent x y [] → Kept x y []
Sent-Kept x y s = record {
  kept =
      ap (λ l. taken y.machine.requests ++ l) s.same_buffer
      ∙ ap (λ l. l ++ x.sink.buffer) (s.sent ∙ append-nil (taken x.machine.requests))
      ∙ sym (append-nil (taken x.machine.requests ++ x.sink.buffer));
  same_hashed = s.same_hashed;
}

module _ {W : Type 0} (env : Surroundings) (backend : TransactionBackend W) (part_bytes : ℕ) where
  pub flush_buffer-Rounded :
      (rest : List ℕ) (x y : SinkOn W)
      → 0 < part_bytes
      → flush_buffer env backend x ≡ (ok tt, y)
      → Rounded part_bytes rest x y
  flush_buffer-Rounded rest x y h e =
      let (k, b) = flush_buffer_ok env backend x y e in
      record {
        same_bytes = k;
        in_bounds = rw b (omega arith);
        has_room = λ _. rw b (omega (arith, h));
      }
