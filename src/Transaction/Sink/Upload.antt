-- ===== src/Transaction/Sink/Upload.antt =====
-- Writing into the sink, part by part (transaction/s3.rs, `write`, `ensure_multipart`,
-- `upload_buffered_part`, `verify_output`).
use s.Transaction.Backend.{
  ◌>>=◌, ◌>>◌, Act, BackendError, Surroundings, TransactionBackend, ambiguous, backend_error,
  definitive, finished_error, output_mismatch, part_sent, pure, raise, too_many_parts,
  creation_sent,
}
use s.Prelude.{
  Bool, List, Option, Result, String, [], drop, eqb, err, false, if◌then◌else◌, leb, length, ltb,
  min, none, not, ok, some, suc, take, true, zero, ℕ, ◌&&◌, ◌++◌, ◌+◌, ◌-◌, ◌==◌, ◌||◌, ◌∷◌, nat_eq,
  string_eq, is_empty,
}
use s.Transaction.Sink.{
  SinkOn, ask, attempt, change, evidence, is_definitive, kind_text, lift, number_of, record_launch,
  with_sink,
}
use s.Transaction.Json.{bool, end, field, object, text}
use s.Transaction.Reconciler.{on_journal}
use s.Transaction.State.{opened}
use s.Transaction.Journal.{record_part, set_expected, set_open, is_some}

abbrev pub max_parts : ℕ
max_parts = 10_000

abbrev pub u64_mod : ℕ
u64_mod = 18_446_744_073_709_551_616

module _ {W : Type 0} (env : Surroundings) (backend : TransactionBackend W) where
  -- After a failed creation, which is put on record.
  unfoldable pub opened_upload : Result BackendError String → Act (SinkOn W) Unit
  unfolding evidence with_sink lift change
  opened_upload (err e) = do
    evidence env "create_multipart_unknown" (object (field "kind" (text (kind_text e.kind)) end))
    raise (backend_error e)
  opened_upload (ok id) = do
    with_sink (λ s. lift (on_journal env (λ now. set_open now s.operation.id (some id))))
    change (λ s. record s {
      operation = record s.operation { state = opened; upload_id = some id };
      upload_id = some id;
    })
    evidence env "create_multipart_after" (object (field "upload_id_recorded" (bool true) end))

  unfoldable pub create_upload : Act (SinkOn W) Unit
  unfolding evidence record_launch ask with_sink opened_upload
  create_upload = do
    evidence env "create_multipart_before" (object end)
    record_launch env
    answer ← with_sink (λ s. ask creation_sent (backend.create_multipart s.operation))
    opened_upload answer

  unfoldable pub create_unless : Option String → Act (SinkOn W) Unit
  unfolding create_upload
  create_unless (some id) = pure tt
  create_unless none = create_upload

  unfoldable pub ensure_multipart : Act (SinkOn W) Unit
  unfolding create_unless with_sink
  ensure_multipart = with_sink (λ s. create_unless s.upload_id)

  -- A part that the provider took.
  unfoldable pub part_uploaded : ℕ → ℕ → List ℕ → String → Act (SinkOn W) Unit
  unfolding evidence with_sink lift change
  part_uploaded attempt n body tag = do
    with_sink λ s. lift (
        on_journal env (λ now. record_part (record {
          operation_id = s.operation.id;
          part_number = n;
          etag = tag;
          size_bytes = length body;
          digest = env.sha256 body;
          created_at_ms = now;
        })))
    evidence env "upload_part_after"
        (object (field "part_number" (number_of n) (field "attempt" (number_of attempt) end)))
    change (λ s. record s { parts = s.parts ++ record { part_number = n; etag = tag } ∷ [] })

  unfoldable pub part_answered :
      ℕ
      → Bool
      → ℕ
      → List ℕ
      → (BackendError → Act (SinkOn W) Unit)
      → Result BackendError String
      → Act (SinkOn W) Unit
  unfolding part_uploaded
  part_answered attempt ambiguous_before n body again (ok tag) = part_uploaded attempt n body tag
  part_answered attempt ambiguous_before n body again (err e) =
      if is_definitive e && not ambiguous_before then raise (backend_error e) else again e

  unfoldable pub part_failed : Option BackendError → Act (SinkOn W) Unit
  part_failed (some e) = raise (backend_error e)
  part_failed none =
      raise (
        backend_error (record { kind = ambiguous; message = "upload part retry budget exhausted" }))

  -- The loop over the attempts that are left; `attempt` is the number of the next one.
  unfoldable pub part_attempts :
      ℕ → ℕ → Bool → Option BackendError → String → ℕ → List ℕ → Act (SinkOn W) Unit
  unfolding evidence record_launch ask with_sink part_answered part_failed
  part_attempts zero attempt ambiguous_before last upload n body = part_failed last
  part_attempts (suc rounds) attempt ambiguous_before last upload n body = do
    evidence env "upload_part_before" (
        object (
          field "part_number" (number_of n)
            (field "attempt" (number_of attempt) (field "digest" (text (env.sha256 body)) end))))
    record_launch env
    answer ← with_sink (λ s. ask (part_sent n body) (backend.upload_part s.operation upload n body))
    part_answered attempt ambiguous_before n body
        (λ e. part_attempts rounds (suc attempt) true (some e) upload n body) answer

  unfoldable pub upload_to : Option String → ℕ → ℕ → List ℕ → Act (SinkOn W) Unit
  unfolding part_attempts
  upload_to none max_attempts n body =
      raise (backend_error (record { kind = definitive; message = "multipart upload is not open" }))
  upload_to (some upload) max_attempts n body =
      if ltb max_parts n
      then raise too_many_parts
      else part_attempts max_attempts 1 false none upload n body

  unfoldable pub upload_buffered_part : List ℕ → Act (SinkOn W) Unit
  unfolding upload_to with_sink
  upload_buffered_part body =
      with_sink (λ s. upload_to s.upload_id s.max_attempts (length s.parts + 1) body)

  -- `buffer.split().freeze()`, and the upload of what it was.
  unfoldable pub flush_buffer : Act (SinkOn W) Unit
  unfolding upload_buffered_part with_sink change
  flush_buffer =
      with_sink λ s. do change (λ t. record t { buffer = [] }); upload_buffered_part s.buffer

  module _ (part_bytes : ℕ) where
    -- The end of a round of the loop of `write`, with the bytes that are left.
    unfoldable pub round_end : List ℕ → Act (SinkOn W) Unit
    unfolding ensure_multipart flush_buffer with_sink
    round_end rest = with_sink λ s.
        if eqb (length s.buffer) part_bytes && not (is_empty rest)
        then (do ensure_multipart; flush_buffer)
        else if eqb (length s.buffer) part_bytes && is_some s.upload_id
        then flush_buffer
        else pure tt

    -- The loop of `write`, on fuel.
    unfoldable pub fill : ℕ → List ℕ → Act (SinkOn W) Unit
    unfolding round_end with_sink change
    fill zero chunk = pure tt
    fill (suc fuel) [] = pure tt
    fill (suc fuel) (b ∷ l) = with_sink λ s. do
      let copied = min (part_bytes - length s.buffer) (length (b ∷ l))
      change (λ t. record t { buffer = t.buffer ++ take copied (b ∷ l) })
      round_end (drop copied (b ∷ l))
      fill fuel (drop copied (b ∷ l))

    unfoldable pub write : List ℕ → Act (SinkOn W) Unit
    unfolding fill with_sink change
    write chunk = with_sink λ s.
        if s.finished
        then raise finished_error
        else if leb u64_mod (s.output_bytes + length chunk)
        then raise output_mismatch
        else do
          change (λ t. record t {
            output_bytes = t.output_bytes + length chunk;
            hashed = t.hashed ++ chunk;
            output_verified = false;
          })
          fill (length chunk + length chunk) chunk

  unfoldable pub verify_output : ℕ → String → Act (SinkOn W) Unit
  unfolding with_sink lift change
  verify_output expected_size expected_sha256 = with_sink λ s.
      let digest = env.sha256 s.hashed in
      if not (eqb s.output_bytes expected_size) || not (digest == expected_sha256)
      then raise output_mismatch
      else do
        change (λ t. record t {
          operation = record t.operation {
            expected = record t.operation.expected {
              digest = some digest;
              size = some expected_size;
            };
          };
        })
        with_sink (λ t.
            lift (on_journal env (λ now. set_expected now t.operation.id t.operation.expected)))
        change (λ t. record t { output_verified = true })
