-- ===== src/Transaction/Rows.antt =====
-- Operations as rows of the database (transaction/journal.rs, `operation_from_model` and the row that
-- `PostgresOperationJournal::insert_intent` writes). The JSON values are a parameter, with what reads
-- them and writes them.
pub mod RoundTrip
mod Examples
use s.Prelude.{◌>>=◌}
use mathlib.Core.Option.{map as map_option}
use s.Transaction.Journal.{is_some}
use s.Prelude.{
  Bool, List, Option, Result, String, err, if◌then◌else◌, ltb, map_err, none, not, ok, some, true,
  ℕ, ◌||◌, nat_eq, string_eq,
}
use s.Transaction.Journal.{JournalError, conflict, corrupt, exceeds_bigint, must_start_in_intent}
use s.Transaction.Operation.{OperationRecord, StoredObjectMeta, Uuid, WorkspaceDestinationBinding}
use s.Transaction.State.{as_str, intent, parse, same_state}
use s.Prelude.Int.{negsuc, pos, ℤ}
use s.Transaction.Capability.{etag}
use s.Transaction.Json.{object}

pub record JsonValues (V : Type 0) : Type 0 where
  pub metadata_value : List (String × String) → Result String V
  pub value_metadata : V → Result String (List (String × String))
  pub value_versions : V → Result String (List String)
  pub no_versions : V

-- `object_operation::Model`; the numbers are `i64`.
pub record Row (V : Type 0) : Type 0 where
  pub id : Uuid
  pub state : String
  pub backend_id : String
  pub bucket : String
  pub logical_key : String
  pub physical_key : String
  pub tenant_id : Option String
  pub namespace_epoch : Option ℤ
  pub backend_config_version : Option String
  pub capability_attestation_id : Option String
  pub routing_epoch : Option ℤ
  pub routing_lease_id : Option Uuid
  pub routing_fencing_token : Option ℤ
  pub mutation_not_before_ms : Option ℤ
  pub exact_absence_observed_at_ms : Option ℤ
  pub expected_digest : Option String
  pub expected_size : Option ℤ
  pub expected_metadata : V
  pub upload_id : Option String
  pub committed_etag : Option String
  pub committed_version_id : Option String
  pub committed_superseded_version_ids : V
  pub committed_version_history_complete : Bool
  pub lease_owner : Option String
  pub lease_expires_at_ms : Option ℤ
  pub created_at_ms : ℤ
  pub updated_at_ms : ℤ

-- `u64::try_from`
unfoldable pub to_u64 : JournalError → ℤ → Result JournalError ℕ
to_u64 e (pos n) = ok n
to_u64 e (negsuc n) = err e

-- `i64::try_from`
unfoldable pub to_i64 : JournalError → ℕ → Result JournalError ℤ
to_i64 e n = if ltb n 9_223_372_036_854_775_808 then ok (pos n) else err e

-- `map(..).transpose()`
unfoldable pub transposed :
    {A B : Type 0} → (A → Result JournalError B) → Option A → Result JournalError (Option B)
transposed f none = ok none
transposed f (some a) = f a >>= λ b. ok (some b)

unfoldable pub binding_from :
    Option String
    → Option String
    → Option ℤ
    → Option Uuid
    → Option ℤ
    → Result JournalError (Option WorkspaceDestinationBinding)
unfolding to_u64
binding_from none none none none none = ok none
binding_from (some config) (some attestation) (some epoch) (some lease) (some token) =
    to_u64 (corrupt "negative routing epoch") epoch >>= λ n.
    to_u64 (corrupt "negative routing fencing token") token >>= λ m. ok (
      some (record {
        backend_config_version = config;
        capability_attestation_id = attestation;
        routing_epoch = n;
        routing_lease_id = lease;
        routing_fencing_token = m;
      }))
binding_from _ _ _ _ _ = err (corrupt "partial workspace destination binding")

module _ {V : Type 0} (json : JsonValues V) where
  unfoldable pub committed_from : Row V → Result JournalError (Option StoredObjectMeta)
  committed_from m =
      if is_some m.committed_etag || is_some m.committed_version_id
      then (map_err corrupt (json.value_versions m.committed_superseded_version_ids) >>= λ versions.
          ok (
            some (record {
              etag = m.committed_etag;
              version_id = m.committed_version_id;
              superseded_version_ids = versions;
              version_history_complete = m.committed_version_history_complete;
            })))
      else ok none

  unfoldable pub operation_from_model : Row V → Result JournalError OperationRecord
  unfolding transposed to_u64 committed_from binding_from parse
  operation_from_model m =
      transposed (to_u64 (corrupt "negative expected object size")) m.expected_size >>= λ size.
      map_err corrupt (json.value_metadata m.expected_metadata) >>= λ metadata.
      committed_from m >>= λ meta. map_err corrupt (parse m.state) >>= λ state.
      transposed (to_u64 (corrupt "negative namespace epoch")) m.namespace_epoch
      >>= λ namespace_epoch.
          binding_from m.backend_config_version m.capability_attestation_id m.routing_epoch
            m.routing_lease_id m.routing_fencing_token
          >>= λ workspace_binding. ok (record {
            id = m.id;
            state = state;
            tenant_id = m.tenant_id;
            namespace_epoch = namespace_epoch;
            destination = record {
              backend_id = m.backend_id;
              bucket = m.bucket;
              logical_key = m.logical_key;
              physical_key = m.physical_key;
              workspace_binding = workspace_binding;
            };
            expected = record { digest = m.expected_digest; size = size; metadata = metadata };
            upload_id = m.upload_id;
            committed = meta;
            lease_owner = m.lease_owner;
            lease_expires_at_ms = m.lease_expires_at_ms;
            mutation_not_before_ms = m.mutation_not_before_ms;
            exact_absence_observed_at_ms = m.exact_absence_observed_at_ms;
            created_at_ms = m.created_at_ms;
            updated_at_ms = m.updated_at_ms;
          })

  -- The row that is inserted for a new operation.
  unfoldable pub inserted_row : OperationRecord → Result JournalError (Row V)
  unfolding transposed to_i64 as_str
  inserted_row a =
      if not (same_state a.state intent)
      then err (conflict must_start_in_intent)
      else transposed (to_i64 (conflict (exceeds_bigint "expected object size"))) a.expected.size
        >>= λ size. map_err corrupt (json.metadata_value a.expected.metadata) >>= λ metadata.
            transposed (to_i64 (conflict (exceeds_bigint "namespace epoch"))) a.namespace_epoch
            >>= λ namespace_epoch.
                transposed
                  (λ (b : WorkspaceDestinationBinding).
                    to_i64 (corrupt "routing epoch exceeds BIGINT") b.routing_epoch)
                  a.destination.workspace_binding
                >>= λ routing_epoch.
                    transposed
                      (λ (b : WorkspaceDestinationBinding).
                        to_i64 (corrupt "routing fencing token exceeds BIGINT")
                          b.routing_fencing_token)
                      a.destination.workspace_binding
                    >>= λ token. ok (record {
                      id = a.id;
                      state = as_str intent;
                      backend_id = a.destination.backend_id;
                      bucket = a.destination.bucket;
                      logical_key = a.destination.logical_key;
                      physical_key = a.destination.physical_key;
                      tenant_id = a.tenant_id;
                      namespace_epoch = namespace_epoch;
                      backend_config_version =
                          map_option (λ b. b.backend_config_version)
                            a.destination.workspace_binding;
                      capability_attestation_id =
                          map_option (λ b. b.capability_attestation_id)
                            a.destination.workspace_binding;
                      routing_epoch = routing_epoch;
                      routing_lease_id =
                          map_option (λ b. b.routing_lease_id) a.destination.workspace_binding;
                      routing_fencing_token = token;
                      mutation_not_before_ms = a.mutation_not_before_ms;
                      exact_absence_observed_at_ms = a.exact_absence_observed_at_ms;
                      expected_digest = a.expected.digest;
                      expected_size = size;
                      expected_metadata = metadata;
                      upload_id = none;
                      committed_etag = none;
                      committed_version_id = none;
                      committed_superseded_version_ids = json.no_versions;
                      committed_version_history_complete = true;
                      lease_owner = none;
                      lease_expires_at_ms = none;
                      created_at_ms = a.created_at_ms;
                      updated_at_ms = a.updated_at_ms;
                    })
