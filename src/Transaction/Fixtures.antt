-- ===== src/Transaction/Fixtures.antt =====
-- Concrete operations and a concrete provider, for the tests (transaction/mod.rs).
use s.Transaction.Backend.{
  Surroundings, DiscoveredUpload, TransactionBackend, definitive, proven_absent_exact,
}
use s.Transaction.State.{commit_unknown, opened}
use s.Transaction.Capability.{
  BackendCapabilities, ListCapability, MultipartResponseCapability, ResponseChecksumCapability,
  VersioningCapability, etag, exact_key_and_start_time, head_with_operation_identity,
}
use s.Transaction.Operation.{ObjectDestination, OperationRecord}
use s.Prelude.{[], err, false, none, ok, some, true, ◌+◌, ◌∷◌, nat_eq, string_eq}
use s.Prelude.Int.{pos}

abbrev pub a_destination : ObjectDestination
a_destination = record {
  backend_id = "b2";
  bucket = "bucket";
  logical_key = "a";
  physical_key = "p/a";
  workspace_binding = none;
}

abbrev pub opened_op : OperationRecord
opened_op = record {
  id = 7;
  state = opened;
  destination = a_destination;
  tenant_id = some "t";
  namespace_epoch = none;
  expected = record { digest = none; size = none; metadata = [] };
  upload_id = some "u1";
  committed = none;
  lease_owner = none;
  lease_expires_at_ms = none;
  mutation_not_before_ms = none;
  exact_absence_observed_at_ms = none;
  created_at_ms = pos 10;
  updated_at_ms = pos 20;
}

abbrev pub unknown_op : OperationRecord
unknown_op = record opened_op {
  id = 9;
  state = commit_unknown;
  exact_absence_observed_at_ms = some (pos 100);
}

abbrev pub capabilities : BackendCapabilities
capabilities = record {
  incomplete_upload_discovery = exact_key_and_start_time;
  abort_incomplete_upload = true;
  cleanup_sla = some 60_000_000_000;
  lifecycle_rule = false;
  versioning = VersioningCapability.unsupported;
  conditional_reads = etag;
  response_checksums = ResponseChecksumCapability.unsupported;
  list_operations = ListCapability.unsupported;
  multipart_responses = MultipartResponseCapability.unsupported;
  completion_reconciliation = head_with_operation_identity;
}

abbrev pub stray : DiscoveredUpload
stray = record { upload_id = "u2"; key = "p/a"; initiated_at_ms = none }

-- A provider on which every call succeeds, with one stray upload, and the object surely absent.
abbrev pub provider : TransactionBackend Unit
provider = record {
  capabilities = capabilities;
  has_exact_version_recovery = true;
  put_object = λ a body w. (err (record { kind = definitive; message = "" }), w);
  create_multipart = λ a w. (ok "u3", w);
  upload_part = λ a id n body w. (ok "e", w);
  complete_multipart = λ a id parts w. (err (record { kind = definitive; message = "" }), w);
  abort_multipart = λ a id w. (ok tt, w);
  discover_incomplete = λ a w. (ok (stray ∷ []), w);
  delete_object_version = λ a v w. (ok tt, w);
  probe_completion = λ a w. (ok proven_absent_exact, w);
}

abbrev pub surroundings : Surroundings
surroundings = record { clock = λ n. pos (10_000 + n); draw = λ n. n; sha256 = λ bytes. "" }
