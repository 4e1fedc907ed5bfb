-- ===== src/Transaction/Sink/Examples.antt =====
-- The theorems about the sink on a concrete provider.
use s.Transaction.Sink.Outcome.{Finished, complete_commits}
use s.Transaction.Backend.{
  ◌>>=◌, ◌>>◌, Machine, TransactionBackend, backend_error, definitive, pure, raise,
}
use s.Transaction.State.{intent, can_transition_to, is_terminal}
use s.Transaction.Sink.{
  new_sink, SinkOn, evidence, ask, attempt, change, delete_redundant, ignore, is_taken, lift,
  record_launch, with_sink, move_sink,
}
use s.Transaction.State.Paths.{Chain}
use s.Transaction.Operation.{OperationRecord, StoredObjectMeta}
use s.Prelude.{
  [], arith, err, false, flatten, length, none, ok, refl, some, true, ℕ, ◌++◌, ◌∷◌, ◌≡◌, ◌≤◌,
  nat_eq, string_eq,
}
use s.Transaction.Fixtures.{a_destination, opened_op, provider, surroundings}
use s.Transaction.Sink.Safety.{abort_call, after_calls, complete_call, sink_safe, write_call}
use s.Transaction.Sink.Complete.{
  complete, complete_multipart, accepted, after_commit, attempts, complete_object,
  completion_answered, complete_single_put,
}
use s.Transaction.Sink.LostPart.{failed_part_lost, standing}
use s.Prelude.Table.{lookup, insert}
use s.Transaction.Sink.Bytes.{taken}
use s.Transaction.Sink.Verified.{verified_output, write_chunks}
use s.Transaction.Sink.Upload.{
  verify_output, write, create_unless, create_upload, ensure_multipart, fill, flush_buffer,
  opened_upload, part_answered, part_attempts, part_uploaded, round_end, upload_buffered_part,
  upload_to,
}
use s.Transaction.Sink.Filling.{write_keeps_bytes}
use s.Transaction.Journal.{append_evidence, record_part, set_expected, set_open, transition}
use s.Transaction.Reconciler.{move, note, on_journal, read_clock}
use s.Transaction.Journal.Recovery.{record_mutation_launch}
use s.Prelude.Int.{saturating_add}

abbrev stored : StoredObjectMeta
stored = record {
  etag = some "e";
  version_id = none;
  superseded_version_ids = [];
  version_history_complete = true;
}

-- A provider that takes every object.
abbrev taking : TransactionBackend Unit
taking = record provider {
  put_object = λ a body w. (ok stored, w);
  complete_multipart = λ a id parts w. (ok stored, w);
}

-- A provider that takes no part.
abbrev refusing : TransactionBackend Unit
refusing = record provider {
  upload_part = λ a id n body w. (err (record { kind = definitive; message = "" }), w);
}

abbrev new_op : OperationRecord
new_op = record opened_op { state = intent; upload_id = none }

abbrev new_machine : OperationRecord → Machine Unit
new_machine a = record {
  journal = record {
    operations = (7, a) ∷ [];
    parts = [];
    evidence = [];
    fail_committed_transitions = 0;
    fail_evidence_appends = 0;
    durable_for_test = true;
  };
  world = tt;
  readings = 0;
  requests = [];
}

abbrev begun : SinkOn Unit
begun = record { sink = new_sink new_op 1; machine = new_machine new_op }

-- Parts of two bytes.
abbrev written : SinkOn Unit
written = (write surroundings taking 2 (1 ∷ 2 ∷ 3 ∷ []) begun).1

abbrev checked : SinkOn Unit
checked =
    ((do
      write_chunks surroundings taking 2 ((1 ∷ 2 ∷ 3 ∷ []) ∷ (4 ∷ []) ∷ [])
      verify_output surroundings taking 4 "")
      begun).1

write_keeps_bytes_example :
    (taken written.machine.requests ++ written.sink.buffer ≡ 1 ∷ 2 ∷ 3 ∷ [])
    × (written.sink.hashed ≡ 1 ∷ 2 ∷ 3 ∷ [])
    × (length written.sink.buffer ≤ 2)
unfolding write with_sink change ◌>>◌ ◌>>=◌ fill round_end ensure_multipart create_unless
    create_upload evidence lift record_launch note append_evidence read_clock on_journal
    record_mutation_launch ask is_taken opened_upload set_open lookup insert flush_buffer
    upload_buffered_part upload_to part_attempts part_answered part_uploaded record_part pure
    saturating_add is_terminal
write_keeps_bytes_example =
    write_keeps_bytes surroundings taking 2 (1 ∷ 2 ∷ 3 ∷ []) begun written (omega arith)
      (omega arith) refl

verified_output_example :
    (taken checked.machine.requests ++ checked.sink.buffer
      ≡ flatten ((1 ∷ 2 ∷ 3 ∷ []) ∷ (4 ∷ []) ∷ []))
    × (surroundings.sha256 (flatten ((1 ∷ 2 ∷ 3 ∷ []) ∷ (4 ∷ []) ∷ [])) ≡ "")
unfolding write with_sink change ◌>>◌ ◌>>=◌ fill round_end ensure_multipart create_unless
    create_upload evidence lift record_launch note append_evidence read_clock on_journal
    record_mutation_launch ask is_taken opened_upload set_open lookup insert flush_buffer
    upload_buffered_part upload_to part_attempts part_answered part_uploaded record_part pure
    saturating_add write_chunks verify_output set_expected is_terminal
verified_output_example =
    verified_output surroundings taking 2 ((1 ∷ 2 ∷ 3 ∷ []) ∷ (4 ∷ []) ∷ []) 4 "" begun checked
      (omega arith) refl refl refl refl

sink_safe_example :
    (b : OperationRecord) × (n : ℕ) × (lookup 7
        (after_calls surroundings taking 2
          (write_call (1 ∷ 2 ∷ 3 ∷ []) ∷ complete_call ∷ abort_call ∷ [])
          begun).machine.journal.operations
      ≡ some b)
    × (b.id ≡ 7)
    × (b.destination ≡ a_destination)
    × Chain intent n b.state
    × (n ≤ 4)
unfolding lookup
sink_safe_example =
    sink_safe surroundings taking 2 (write_call (1 ∷ 2 ∷ 3 ∷ []) ∷ complete_call ∷ abort_call ∷ [])
      begun new_op 7 refl

-- Two bytes that were verified, of an object that fits a part.
abbrev ready : SinkOn Unit
ready = record {
  sink = record (new_sink new_op 1) { buffer = 1 ∷ 2 ∷ []; output_verified = true };
  machine = new_machine new_op;
}

abbrev completed : SinkOn Unit
completed = (complete surroundings taking ready).1

complete_commits_example : Finished surroundings taking new_op completed stored
unfolding with_sink change ◌>>◌ ◌>>=◌ evidence lift record_launch note append_evidence read_clock
    on_journal record_mutation_launch ask is_taken set_open lookup insert pure saturating_add
    complete complete_object complete_single_put attempts completion_answered accepted
    delete_redundant attempt move_sink move transition can_transition_to after_commit ignore
    is_terminal
complete_commits_example =
    complete_commits surroundings taking new_op ready completed stored refl refl refl

-- Two bytes that were verified, of a multipart upload.
abbrev last_part : SinkOn Unit
last_part = record {
  sink = record (new_sink opened_op 1) {
    buffer = 1 ∷ 2 ∷ [];
    upload_id = some "u1";
    output_verified = true;
  };
  machine = new_machine opened_op;
}

abbrev lost : SinkOn Unit
lost = (complete surroundings refusing last_part).1

failed_part_lost_example :
    (complete surroundings refusing last_part
      ≡ (err (backend_error (record { kind = definitive; message = "" })), lost))
    × (standing lost.sink ≡ ([], true, false, some "u1"))
unfolding write with_sink change ◌>>◌ ◌>>=◌ fill round_end ensure_multipart create_unless
    create_upload evidence lift record_launch note append_evidence read_clock on_journal
    record_mutation_launch ask is_taken opened_upload set_open lookup insert flush_buffer
    upload_buffered_part upload_to part_attempts part_answered part_uploaded record_part pure
    saturating_add complete complete_object complete_multipart raise is_terminal
failed_part_lost_example =
    failed_part_lost surroundings refusing "u1" last_part lost
      (backend_error (record { kind = definitive; message = "" })) refl refl refl refl refl
