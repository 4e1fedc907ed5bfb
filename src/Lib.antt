-- ===== src/Lib.antt =====
-- Verification of the gateway's write path: the journal and the recovery of destination
-- transactions, the decoder that cuts streams into records, the representation of binary formats, and
-- the redaction of personal data.
--
-- The parts of the program, and the files that model them:
--   * Transaction (crates/gateway/src/transaction). A write to a destination is an operation with a
--     state, kept in a journal that outlives the writer. Transaction/State is `OperationState`,
--     Transaction/Operation the records, Transaction/Capability the rule by which a destination is
--     admitted to streaming writes (`streaming_eligibility`), Transaction/Journal the in-memory
--     journal of journal.rs, a method for each method; its Journal/Recovery has those that recovery
--     calls. Transaction/Backend is the provider as `TransactionBackend` shows it, with a state of
--     which nothing is known, and the machine of journal, provider, clock and id generator.
--     Transaction/Reconciler is `OperationReconciler` of mod.rs, whose steps are those of the machine.
--     Transaction/Sink is `DirectS3Sink` of s3.rs, the writer whose journal it is: Sink/Opening begins
--     one, Sink/Upload writes and verifies, Sink/Complete commits, Sink/Reconcile finds out what became
--     of a commit, Sink/Abort gives up. Transaction/Memory is the sink of memory.rs, with the store of
--     crates/gateway/src/store.rs that it publishes into, Transaction/Quota the quota of spool.rs with
--     the threads that share it, and Transaction/Spool the sink of that file. Transaction/ChildId is
--     the identity of the operations that a managed write begins, Transaction/Rows the rows of
--     operations in the database.
--   * Record (crates/gateway/src/record.rs): `RecordDecoder`, in Record/Line (lines and JSON
--     documents), Record/Csv and Record/Stream (the public methods), and `OutputValidator` in
--     Record/Output. The UTF-8 test, serde_json and csv_core are parameters, of which nothing is
--     assumed.
--   * Ir (crates/gateway/src/binary_ir.rs), what sandboxed codecs exchange with the gateway: Ir has the
--     limits, the paths and the errors, Ir/Schema the schemas with `SchemaNode::validate_inner`,
--     `node_at_path` and `visit_paths`, Ir/Value the values with `value_at_path` and the two visits of the
--     matches of a claim, Ir/Value/Check `Value::validate_inner`, Ir/Value/Against
--     `validate_value_against_schema` and `ValueIr::validate`, Ir/Dates and Ir/Decimals the texts that
--     have a form, Ir/Codec the canonical JSON of schemas. The modules below them describe without the
--     walks what these accept: Ir/Schema/WellFormed, Ir/Value/WellFormed and Ir/Value/Typing. serde_json with the
--     derived conversions of schemas, and the parser of UUIDs, are parameters; a float is its bits. An error keeps
--     its code, its place and its reason instead of a text. Ir/Reductor has the claims of
--     crates/gateway/src/binary_reductor.rs, by which a sandboxed reductor may change a schema.
--   * Pii (filters/pii-shared/src/lib.rs): the tests of Pii, the scan of Pii/Scan and the redaction of
--     Pii/Replace, which the filters of filters/ call.
--   * Prelude: lists, tables, results and signed integers over the native numbers.
--
-- How the code is modelled. A method that changes a value takes it and returns its result with the
-- new value, also where the result is an error. The lock of the journal makes each method one step.
-- The time is an argument of the journal's methods. Texts of bytes are lists of numbers.
-- `i64` saturates as in the source (Prelude/Int).
--
-- Fuel. The scan for personal data has the length of the text as its fuel, and the CSV loop the number of
-- bytes that it has before it; both say whether they left by their condition or were cut off for want of
-- fuel. Draining a decoder has the number of
-- pending bytes and three more, since each record takes a byte, except the last one. The loop of
-- `write` has twice the length of its chunk, since each round takes a byte but for a first one.
--
-- Not modelled: the queries of the PostgreSQL journal, whose rows are modelled in Transaction/Rows;
-- the calls of the AWS SDK behind the provider; the canonical JSON of values in binary_ir.rs, with its
-- hand-written conversions of numbers and bytes; the removal of stale spool files; `value_at_path_mut`
-- and the printing of paths in binary_ir.rs, the plans and their hashes in binary_reductor.rs; HTTP, routing, the
-- pipeline and its sandbox, encryption and the database, which mostly call other code; the texts of
-- most errors.
pub mod Prelude
pub mod Transaction
pub mod Pii
pub mod Record
pub mod Ir
