-- ===== src/Transaction/Examples.antt =====
-- The theorems about states and capabilities at concrete values.
use s.Transaction.Capability.{
  BackendCapabilities, CanRecover, ConditionalReadCapability, ListCapability,
  MultipartResponseCapability, ResponseChecksumCapability, VersioningCapability, eligible_iff,
  exact_key_and_start_time, head_with_operation_identity, streaming_eligibility,
}
use s.Transaction.State.Paths.{Chain, no_abort_after_completion, next, start}
use s.Transaction.State.{
  aborting, as_str, can_transition_to, commit_unknown, committed, completing, intent, opened, parse,
  parse_iff, proven_aborted,
}
use s.Prelude.{false, ok, refl, some, true, ◌↔◌, ◌≡◌, nat_eq, string_eq}

parse_iff_example : (parse "committed" ≡ ok committed) ↔ (as_str committed ≡ "committed")
parse_iff_example = parse_iff "committed" committed

Chain-to_absence : Chain intent 4 proven_aborted
unfolding can_transition_to
Chain-to_absence =
    next {t = commit_unknown}
      (next {t = completing} (next {t = opened} (next start refl) refl) refl) refl

no_abort_after_completion_example : Chain completing 1 aborting → ⊥
no_abort_after_completion_example = no_abort_after_completion completing 1 refl

abbrev recoverable : BackendCapabilities
recoverable = record {
  incomplete_upload_discovery = exact_key_and_start_time;
  abort_incomplete_upload = true;
  cleanup_sla = some 60_000_000_000;
  lifecycle_rule = false;
  versioning = VersioningCapability.unsupported;
  conditional_reads = ConditionalReadCapability.etag;
  response_checksums = ResponseChecksumCapability.unsupported;
  list_operations = ListCapability.unsupported;
  multipart_responses = MultipartResponseCapability.unsupported;
  completion_reconciliation = head_with_operation_identity;
}

eligible_iff_example : (streaming_eligibility recoverable ≡ ok tt) ↔ CanRecover recoverable
eligible_iff_example = eligible_iff recoverable
