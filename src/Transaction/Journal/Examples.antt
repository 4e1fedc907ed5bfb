-- ===== src/Transaction/Journal/Examples.antt =====
-- The theorems about the journal at concrete operations.
use s.Transaction.Journal.Transitions.{Allowed, moved, transition_error, transition_sound}
use s.Transaction.Journal.History.{
  Call, Spares, claim_call, open_call, claim_one_call, insert_call, part_call, run, transition_call,
  Advances, after, launch_call,
}
use s.Transaction.State.Paths.{Chain}
use s.Transaction.Operation.{
  ExpectedObject, ObjectDestination, OperationRecord, PartRecord, StoredObjectMeta,
}
use s.Transaction.Journal.{
  insert_intent, new, Journal, conflict, illegal_transition, transition, part_key_eq, record_part,
}
use s.Prelude.{
  All, List, [], arith, false, none, ok, refl, some, true, ℕ, ◌∷◌, ◌≡◌, ◌≤◌, ◌↔◌, ◌≢◌, nat_eq,
  string_eq,
}
use s.Transaction.Journal.Recovery.{
  before_window, claim_reconcilable_operation, confirm_exact_absence, is_reconcilable, lease_to,
  claim_reconcilable, reconcilable_ids, claim_all,
}
use s.Transaction.State.{
  can_transition_to, commit_unknown, committed, completing, intent, is_terminal, opened,
  proven_aborted,
}
use s.Transaction.Journal.Exclusive.{claimed, claimed_in, lease_exclusive}
use s.Transaction.Journal.Absence.{confirm_needs_two}
use s.Prelude.Table.{insert, lookup}
use s.Prelude.Int.{pos, saturating_sub, ℤ, ◌≤ℤ◌}
use s.Transaction.Journal.Ledger.{part_immutable}
use s.Transaction.Journal.Evolution.{run-History, after-Advances}

abbrev target : ObjectDestination
target = record {
  backend_id = "b2";
  bucket = "bucket";
  logical_key = "a";
  physical_key = "p/a";
  workspace_binding = none;
}

abbrev nothing_expected : ExpectedObject
nothing_expected = record { digest = none; size = none; metadata = [] }

abbrev first_op : OperationRecord
first_op = record {
  id = 7;
  state = completing;
  destination = target;
  tenant_id = some "t";
  namespace_epoch = none;
  expected = nothing_expected;
  upload_id = some "u1";
  committed = none;
  lease_owner = none;
  lease_expires_at_ms = none;
  mutation_not_before_ms = none;
  exact_absence_observed_at_ms = none;
  created_at_ms = pos 10;
  updated_at_ms = pos 20;
}

abbrev done_op : OperationRecord
done_op = record first_op { id = 8; state = proven_aborted }

abbrev watched_op : OperationRecord
watched_op = record first_op {
  id = 9;
  state = commit_unknown;
  mutation_not_before_ms = some (pos 100);
  exact_absence_observed_at_ms = some (pos 120);
}

abbrev a_part : PartRecord
a_part = record {
  operation_id = 7;
  part_number = 1;
  etag = "e";
  size_bytes = 5;
  digest = "d";
  created_at_ms = pos 15;
}

abbrev journal : Journal
journal = record {
  operations = (7, first_op) ∷ (8, done_op) ∷ (9, watched_op) ∷ [];
  parts = ((7, 1), a_part) ∷ [];
  evidence = [];
  fail_committed_transitions = 0;
  fail_evidence_appends = 0;
  durable_for_test = true;
}

abbrev calls : List Call
calls =
    transition_call (pos 30) 7 completing commit_unknown none
    ∷ claim_one_call (pos 40) 7 "w" (pos 35) (pos 90)
    ∷ transition_call (pos 50) 8 proven_aborted opened none
    ∷ part_call (record a_part { etag = "other" })
    ∷ insert_call (record first_op { id = 5 })
    ∷ []

calls_spare : All (Spares 7) calls
calls_spare = (tt, (tt, (tt, (tt, ((λ e. absurd (omega (arith, e))), tt)))))

abbrev committed_meta : StoredObjectMeta
committed_meta = record {
  etag = some "e";
  version_id = none;
  superseded_version_ids = [];
  version_history_complete = true;
}

run-History_example :
    (b : OperationRecord) × (n : ℕ) × (lookup 7 (run calls journal).operations ≡ some b)
    × (b.id ≡ 7)
    × (b.destination ≡ target)
    × Chain completing n b.state
    × (n ≤ 4)
unfolding lookup
run-History_example = run-History first_op 7 calls journal calls_spare refl

transition_sound_example :
    (a : OperationRecord) × (lookup 7 journal.operations ≡ some a)
    × Allowed completing committed (some committed_meta) a
    × ((transition (pos 30) 7 completing committed (some committed_meta) journal).1
        ≡ record journal {
          operations =
              insert 7 (moved (pos 30) committed (some committed_meta) a) journal.operations;
        })
unfolding transition can_transition_to lookup insert
transition_sound_example =
    transition_sound (pos 30) 7 completing committed (some committed_meta) journal refl

transition_error_example :
    (transition (pos 30) 8 proven_aborted opened none journal).1.operations ≡ journal.operations
unfolding transition can_transition_to
transition_error_example =
    transition_error (pos 30) 8 proven_aborted opened none journal
      (conflict (illegal_transition proven_aborted opened)) refl

-- Two intents, of which the first is claimed; the batch then gets the second one alone.
abbrev two_intents : List Call
two_intents =
    insert_call (record first_op { state = intent })
    ∷ insert_call (record first_op { id = 5; state = intent })
    ∷ []

abbrev under_lease : List Call
under_lease =
    claim_call (pos 60) "v" (pos 60) (pos 200) 10
    ∷ open_call (pos 70) 7 (some "u2")
    ∷ claim_one_call (pos 90) 7 "v" (pos 95) (pos 300)
    ∷ []

abbrev leased : Journal
leased = (claim_reconcilable_operation (pos 40) 7 "w" (pos 35) (pos 90) (run two_intents new)).1

lease_exclusive_example : All (λ b. b.id ≢ 7) (claimed_in under_lease leased)
unfolding claim_reconcilable_operation is_reconcilable is_terminal lookup insert run after
    insert_intent new
lease_exclusive_example =
    lease_exclusive two_intents (pos 40) 7 "w" (pos 35) (pos 90)
      (lease_to "w" (pos 90) (record first_op { state = intent })) under_lease refl
      (omega arith, (tt, (omega arith, tt)))

batch_gets_other :
    claimed (claim_call (pos 60) "v" (pos 60) (pos 200) 10) leased
    ≡ lease_to "v" (pos 200) (record first_op { id = 5; state = intent }) ∷ []
unfolding claimed claim_reconcilable reconcilable_ids claim_all claim_reconcilable_operation
    is_reconcilable is_terminal lookup insert run after insert_intent new
batch_gets_other = refl

confirm_needs_two_example :
    (a : OperationRecord) × (first : ℤ) × (lookup 9 journal.operations ≡ some a)
    × (a.exact_absence_observed_at_ms ≡ some first)
    × (pos 5 ≤ℤ saturating_sub (pos 126) first)
    × (before_window a.mutation_not_before_ms (pos 126) ≡ false)
unfolding confirm_exact_absence lookup saturating_sub
confirm_needs_two_example = confirm_needs_two (pos 126) 9 (pos 126) (pos 5) journal refl

after-Advances_example : Advances 9 journal (after (launch_call (pos 130) 9 (pos 205)) journal)
after-Advances_example = after-Advances (launch_call (pos 130) 9 (pos 205)) 9 journal tt

-- The part on record is not replaced by one of another etag, which is refused after the calls as well.
abbrev other_part : PartRecord
other_part = record a_part { etag = "other" }

part_immutable_example :
    (lookup (7, 1) (run calls journal).parts ≡ some a_part)
    × (((record_part other_part (run calls journal)).0 ≡ ok tt) ↔ (
        (a_part.etag ≡ "other")
        × (a_part.size_bytes ≡ other_part.size_bytes)
        × (a_part.digest ≡ a_part.digest)))
unfolding lookup
part_immutable_example = part_immutable calls other_part a_part journal refl
