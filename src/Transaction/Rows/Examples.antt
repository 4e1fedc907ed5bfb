-- ===== src/Transaction/Rows/Examples.antt =====
-- The theorem about rows on a concrete operation.
use s.Transaction.State.{intent, as_str}
use s.Transaction.Fixtures.{opened_op}
use s.Transaction.Rows.RoundTrip.{inserted_reads_back}
use s.Transaction.Rows.{JsonValues, Row, inserted_row, operation_from_model, to_i64, transposed}
use s.Prelude.{List, String, [], none, ok, refl, some, true, ◌∷◌, ◌≡◌, nat_eq, string_eq}
use s.Transaction.Operation.{OperationRecord}
use s.Prelude.Int.{pos}

-- Metadata as its own JSON value.
abbrev plain_json : JsonValues (List (String × String))
plain_json = record {
  metadata_value = λ l. ok l;
  value_metadata = λ v. ok v;
  value_versions = λ v. ok [];
  no_versions = [];
}

abbrev bound_op : OperationRecord
bound_op = record opened_op {
  state = intent;
  upload_id = none;
  namespace_epoch = some 3;
  expected = record { digest = some "d"; size = some 5; metadata = ("k", "v") ∷ [] };
  destination = record opened_op.destination {
    workspace_binding = some (record {
      backend_config_version = "c";
      capability_attestation_id = "a";
      routing_epoch = 1;
      routing_lease_id = 8;
      routing_fencing_token = 2;
    });
  };
}

abbrev bound_row : Row (List (String × String))
bound_row = record {
  id = 7;
  state = "INTENT";
  backend_id = "b2";
  bucket = "bucket";
  logical_key = "a";
  physical_key = "p/a";
  tenant_id = some "t";
  namespace_epoch = some (pos 3);
  backend_config_version = some "c";
  capability_attestation_id = some "a";
  routing_epoch = some (pos 1);
  routing_lease_id = some 8;
  routing_fencing_token = some (pos 2);
  mutation_not_before_ms = none;
  exact_absence_observed_at_ms = none;
  expected_digest = some "d";
  expected_size = some (pos 5);
  expected_metadata = ("k", "v") ∷ [];
  upload_id = none;
  committed_etag = none;
  committed_version_id = none;
  committed_superseded_version_ids = [];
  committed_version_history_complete = true;
  lease_owner = none;
  lease_expires_at_ms = none;
  created_at_ms = pos 10;
  updated_at_ms = pos 20;
}

inserted_reads_back_example : operation_from_model plain_json bound_row ≡ ok bound_op
unfolding inserted_row transposed to_i64 as_str
inserted_reads_back_example =
    inserted_reads_back plain_json bound_op bound_row (record { reads = λ l v h. cc }) refl
