-- ===== src/Transaction/Operation.antt =====
-- The records of an operation and its parts (transaction/mod.rs). A `Uuid` is its 128-bit number,
-- a `u64` or `usize` a natural number, an `i64` time in milliseconds an integer. What the clock and
-- the id generator return is an argument.
use s.Prelude.{ℕ, String, Bool, List, Option, none, some, nat_eq, string_eq}
use s.Prelude.Int.{ℤ}
use s.Transaction.State.{OperationState, intent}
use s.Transaction.Json.{Json}

abbrev pub Uuid : Type 0
Uuid = ℕ

pub record WorkspaceDestinationBinding : Type 0 where
  pub backend_config_version : String
  pub capability_attestation_id : String
  pub routing_epoch : ℕ
  pub routing_lease_id : Uuid
  pub routing_fencing_token : ℕ

pub record ObjectDestination : Type 0 where
  pub backend_id : String
  pub bucket : String
  pub logical_key : String
  pub physical_key : String
  pub workspace_binding : Option WorkspaceDestinationBinding

-- `metadata` is the `BTreeMap`, by its entries in order of their keys.
pub record ExpectedObject : Type 0 where
  pub digest : Option String
  pub size : Option ℕ
  pub metadata : List (String × String)

pub record StoredObjectMeta : Type 0 where
  pub etag : Option String
  pub version_id : Option String
  pub superseded_version_ids : List String
  pub version_history_complete : Bool

pub record OperationRecord : Type 0 where
  pub id : Uuid
  pub state : OperationState
  pub destination : ObjectDestination
  pub tenant_id : Option String
  pub namespace_epoch : Option ℕ
  pub expected : ExpectedObject
  pub upload_id : Option String
  pub committed : Option StoredObjectMeta
  pub lease_owner : Option String
  pub lease_expires_at_ms : Option ℤ
  pub mutation_not_before_ms : Option ℤ
  pub exact_absence_observed_at_ms : Option ℤ
  pub created_at_ms : ℤ
  pub updated_at_ms : ℤ

-- `OperationRecord::intent`: `id` is what `Uuid::now_v7` returned, `now` what the clock did.
unfoldable pub new_intent : Uuid → ℤ → ObjectDestination → ExpectedObject → OperationRecord
new_intent id now destination expected = record {
  id = id;
  state = intent;
  destination = destination;
  tenant_id = none;
  namespace_epoch = none;
  expected = expected;
  upload_id = none;
  committed = none;
  lease_owner = none;
  lease_expires_at_ms = none;
  mutation_not_before_ms = none;
  exact_absence_observed_at_ms = none;
  created_at_ms = now;
  updated_at_ms = now;
}

-- The id that `intent` draws is replaced.
unfoldable pub scoped_intent :
    Uuid → ℤ → Uuid → ObjectDestination → ExpectedObject → String → ℕ → OperationRecord
unfolding new_intent
scoped_intent drawn now id destination expected tenant_id namespace_epoch =
    record (new_intent drawn now destination expected) {
      id = id;
      tenant_id = some tenant_id;
      namespace_epoch = some namespace_epoch;
    }

pub record ManagedOperationScope : Type 0 where
  pub operation_id : Uuid
  pub tenant_id : String
  pub namespace_epoch : ℕ

pub record DirectOperationScope : Type 0 where
  pub operation_id : Uuid
  pub tenant_id : String

unfoldable pub direct_intent :
    Uuid → ℤ → DirectOperationScope → ObjectDestination → ExpectedObject → OperationRecord
unfolding new_intent
direct_intent drawn now scope destination expected =
    record (new_intent drawn now destination expected) {
      id = scope.operation_id;
      tenant_id = some scope.tenant_id;
    }

pub record PartRecord : Type 0 where
  pub operation_id : Uuid
  pub part_number : ℕ  -- i32; parts are numbered from 1
  pub etag : String
  pub size_bytes : ℕ
  pub digest : String
  pub created_at_ms : ℤ

pub record EvidenceRecord : Type 0 where
  pub id : Uuid
  pub operation_id : Uuid
  pub kind : String
  pub detail : Json
  pub created_at_ms : ℤ
