-- ===== src/Transaction/Sink/Writing.antt =====
-- Writing into the sink keeps the journal's order of states (transaction/s3.rs, `write`).
use s.Transaction.Backend.{
  Act, BackendError, DiscoveredUpload, Surroundings, TransactionBackend, part_sent,
}
use s.Prelude.{
  Bool, List, Option, Result, String, [], err, none, ok, some, suc, true, zero, ℕ, ◌∷◌, nat_eq,
  string_eq,
}
use s.Transaction.Sink.Keeping.{
  Keeps-ask, Keeps-bind, Keeps-change, Keeps-seq, Keeps-with_sink, evidence-Keeps, keeping,
  record_launch-Keeps, Keeps, Keeps-record_part, Keeps-backend, Keeps-if, Keeps-raise,
  Keeps-set_expected,
}
use s.Transaction.Sink.{SinkOn, abort_discovered_noted, abort_each_noted, attempt, delete_redundant}
use s.Transaction.Sink.Upload.{
  create_unless, create_upload, ensure_multipart, fill, flush_buffer, opened_upload, part_answered,
  part_attempts, part_failed, part_uploaded, round_end, upload_buffered_part, upload_to,
  verify_output, write,
}

module _ {W : Type 0} (env : Surroundings) (backend : TransactionBackend W) where
  pub delete_redundant-Keeps :
      (current : Option String) (vs : List String) → Keeps (delete_redundant env backend current vs)
  unfolding delete_redundant
  delete_redundant-Keeps current [] = search keeping
  delete_redundant-Keeps current (v ∷ vs) = Keeps-if _ _ _ (Keeps-raise _) (
      Keeps-seq _ _ (Keeps-with_sink _ (λ s. Keeps-backend _ _))
        (delete_redundant-Keeps current vs))

  abort_each_noted-Keeps : (us : List DiscoveredUpload) → Keeps (abort_each_noted env backend us)
  unfolding abort_each_noted
  abort_each_noted-Keeps [] = search keeping
  abort_each_noted-Keeps (u ∷ us) = Keeps-seq _ _ (evidence-Keeps env _ _) (
      Keeps-seq _ _ (Keeps-with_sink _ (λ s. Keeps-backend _ _))
        (Keeps-seq _ _ (evidence-Keeps env _ _) (abort_each_noted-Keeps us)))

  pub abort_discovered_noted-Keeps : Keeps (abort_discovered_noted env backend)
  unfolding abort_discovered_noted
  abort_discovered_noted-Keeps = search (keeping, abort_each_noted-Keeps)

  opened_upload-Keeps : (r : Result BackendError String) → Keeps (opened_upload env backend r)
  unfolding opened_upload
  opened_upload-Keeps (ok id) = search keeping
  opened_upload-Keeps (err e) = search keeping

  create_upload-Keeps : Keeps (create_upload env backend)
  unfolding create_upload
  create_upload-Keeps = search (keeping, opened_upload-Keeps)

  create_unless-Keeps : (o : Option String) → Keeps (create_unless env backend o)
  unfolding create_unless
  create_unless-Keeps (some id) = search keeping
  create_unless-Keeps none = create_upload-Keeps

  ensure_multipart-Keeps : Keeps (ensure_multipart env backend)
  unfolding ensure_multipart
  ensure_multipart-Keeps = search (keeping, create_unless-Keeps)

  part_uploaded-Keeps :
      (attempt n : ℕ) (body : List ℕ) (tag : String)
      → Keeps (part_uploaded env backend attempt n body tag)
  unfolding part_uploaded
  part_uploaded-Keeps attempt n body tag =
      Keeps-seq _ _ (Keeps-with_sink _ (λ s. Keeps-record_part env _)) (search keeping)

  part_answered-Keeps :
      (attempt : ℕ) (b : Bool) (n : ℕ) (body : List ℕ) (again : BackendError → Act (SinkOn W) Unit)
      (r : Result BackendError String)
      → ((e : BackendError) → Keeps (again e))
      → Keeps (part_answered env backend attempt b n body again r)
  unfolding part_answered
  part_answered-Keeps attempt b n body again (ok tag) h = part_uploaded-Keeps attempt n body tag
  part_answered-Keeps attempt b n body again (err e) h = search (keeping, h)

  part_failed-Keeps : (o : Option BackendError) → Keeps (part_failed env backend o)
  unfolding part_failed
  part_failed-Keeps (some e) = search keeping
  part_failed-Keeps none = search keeping

  part_attempts-Keeps :
      (rounds attempt : ℕ) (b : Bool) (last : Option BackendError) (upload : String) (n : ℕ)
      (body : List ℕ)
      → Keeps (part_attempts env backend rounds attempt b last upload n body)
  unfolding part_attempts
  part_attempts-Keeps zero attempt b last upload n body = part_failed-Keeps last
  part_attempts-Keeps (suc rounds) attempt b last upload n body =
      Keeps-seq _ _ (evidence-Keeps env _ _) (
        Keeps-seq _ _ (record_launch-Keeps env) (
          Keeps-bind _ _ (Keeps-with_sink _ (λ s. Keeps-ask (part_sent n body) _)) (λ r.
            part_answered-Keeps attempt b n body _ r
              (λ e. part_attempts-Keeps rounds (suc attempt) true (some e) upload n body))))

  upload_to-Keeps :
      (o : Option String) (rounds n : ℕ) (body : List ℕ)
      → Keeps (upload_to env backend o rounds n body)
  unfolding upload_to
  upload_to-Keeps none rounds n body = search keeping
  upload_to-Keeps (some id) rounds n body = search (keeping, part_attempts-Keeps)

  upload_buffered_part-Keeps : (body : List ℕ) → Keeps (upload_buffered_part env backend body)
  unfolding upload_buffered_part
  upload_buffered_part-Keeps body = search (keeping, upload_to-Keeps)

  pub flush_buffer-Keeps : Keeps (flush_buffer env backend)
  unfolding flush_buffer
  flush_buffer-Keeps = search (keeping, upload_buffered_part-Keeps)

  round_end-Keeps : (size : ℕ) (rest : List ℕ) → Keeps (round_end env backend size rest)
  unfolding round_end
  round_end-Keeps size rest = search (keeping, ensure_multipart-Keeps, flush_buffer-Keeps)

  fill-Keeps : (size fuel : ℕ) (chunk : List ℕ) → Keeps (fill env backend size fuel chunk)
  unfolding fill
  fill-Keeps size zero chunk = search keeping
  fill-Keeps size (suc fuel) [] = search keeping
  fill-Keeps size (suc fuel) (b ∷ l) = Keeps-with_sink _ (λ s.
      Keeps-seq _ _ (Keeps-change _)
        (Keeps-seq _ _ (round_end-Keeps size _) (fill-Keeps size fuel _)))

  pub write-Keeps : (size : ℕ) (chunk : List ℕ) → Keeps (write env backend size chunk)
  unfolding write
  write-Keeps size chunk = search (keeping, fill-Keeps)

  pub verify_output-Keeps :
      (size : ℕ) (digest : String) → Keeps (verify_output env backend size digest)
  unfolding verify_output
  verify_output-Keeps size digest = Keeps-with_sink _ (λ s. Keeps-if _ _ _ (Keeps-raise _) (
      Keeps-seq _ _ (Keeps-change _)
        (Keeps-seq _ _ (Keeps-with_sink _ (λ t. Keeps-set_expected env _ _)) (Keeps-change _))))
