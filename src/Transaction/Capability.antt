-- ===== src/Transaction/Capability.antt =====
-- What a destination must offer before it may be written to by streaming (transaction/mod.rs).
use s.Prelude.{
  ℕ, ◌*◌, ◌≤◌, ◌≡◌, refl, ◌≢◌, ◌↔◌, Bool, true, false, not, Option, none, some, Result, ok, err,
  leb, if◌then◌else◌, arith, nat_eq, string_eq,
}

pub data IncompleteUploadDiscovery : Type 0 where
  unsupported exact_key_and_start_time operation_identity : IncompleteUploadDiscovery

pub data CompletionReconciliation : Type 0 where
  unsupported head_with_operation_identity : CompletionReconciliation

pub data VersioningCapability : Type 0 where
  unsupported optional required : VersioningCapability

pub data ConditionalReadCapability : Type 0 where
  unsupported etag version_and_etag : ConditionalReadCapability

pub data ResponseChecksumCapability : Type 0 where
  unsupported standard : ResponseChecksumCapability

pub data ListCapability : Type 0 where
  unsupported v1_and_v2 : ListCapability

pub data MultipartResponseCapability : Type 0 where
  unsupported standard : MultipartResponseCapability

-- A `Duration` is its number of nanoseconds.
pub record BackendCapabilities : Type 0 where
  pub incomplete_upload_discovery : IncompleteUploadDiscovery
  pub abort_incomplete_upload : Bool
  pub cleanup_sla : Option ℕ
  pub lifecycle_rule : Bool
  pub versioning : VersioningCapability
  pub conditional_reads : ConditionalReadCapability
  pub response_checksums : ResponseChecksumCapability
  pub list_operations : ListCapability
  pub multipart_responses : MultipartResponseCapability
  pub completion_reconciliation : CompletionReconciliation

pub data CapabilityError : Type 0 where
  missing_incomplete_upload_discovery missing_incomplete_upload_abort
        missing_completion_reconciliation cleanup_sla_exceeded :
      CapabilityError

-- Five minutes.
abbrev pub max_reconciliation_sla : ℕ
max_reconciliation_sla = 5 * 60 * 1_000_000_000

abbrev is_unsupported_discovery : IncompleteUploadDiscovery → Bool
is_unsupported_discovery IncompleteUploadDiscovery.unsupported = true
is_unsupported_discovery _ = false

abbrev is_unsupported_reconciliation : CompletionReconciliation → Bool
is_unsupported_reconciliation CompletionReconciliation.unsupported = true
is_unsupported_reconciliation _ = false

check_sla : Option ℕ → Result CapabilityError Unit
check_sla (some sla) = if leb sla max_reconciliation_sla then ok tt else err cleanup_sla_exceeded
check_sla none = err cleanup_sla_exceeded

unfoldable pub streaming_eligibility : BackendCapabilities → Result CapabilityError Unit
unfolding check_sla
streaming_eligibility c =
    if is_unsupported_discovery c.incomplete_upload_discovery
    then err missing_incomplete_upload_discovery
    else if not c.abort_incomplete_upload
    then err missing_incomplete_upload_abort
    else if is_unsupported_reconciliation c.completion_reconciliation
    then err missing_completion_reconciliation
    else check_sla c.cleanup_sla

-- What a recovery after a crash needs.
pub record CanRecover (c : BackendCapabilities) : Type 0 where
  pub discovers : c.incomplete_upload_discovery ≢ IncompleteUploadDiscovery.unsupported
  pub aborts : c.abort_incomplete_upload ≡ true
  pub reconciles : c.completion_reconciliation ≢ CompletionReconciliation.unsupported
  pub in_time : (sla : ℕ) × (c.cleanup_sla ≡ some sla) × (sla ≤ max_reconciliation_sla)

check_sla_sound :
    (o : Option ℕ)
    → check_sla o ≡ ok tt
    → (sla : ℕ) × (o ≡ some sla) × (sla ≤ max_reconciliation_sla)
unfolding check_sla
check_sla_sound none h = cc
check_sla_sound (some sla) h = (sla, refl, ground arith)

-- A destination passes the gate exactly when it has every recovery primitive.
pub eligible_iff : (c : BackendCapabilities) → (streaming_eligibility c ≡ ok tt) ↔ CanRecover c
unfolding streaming_eligibility
eligible_iff c = (
  λ h. record {
    discovers = ground arith;
    aborts = ground arith;
    reconciles = ground arith;
    in_time = check_sla_sound c.cleanup_sla (ground arith);
  },
  λ r. ground (arith, r.in_time),
)
