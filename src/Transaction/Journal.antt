-- ===== src/Transaction/Journal.antt =====
-- The in-memory operation journal (transaction/journal.rs, `InMemoryOperationJournal`). Each method
-- holds the lock from its first read to its last write, so it is one step from a journal to a
-- result and a journal. `now` is what `unix_time_ms` returns in that call. A conflict is named by
-- its reason; the text that the source formats from it is not modelled.
pub mod Recovery
pub mod History
pub mod Evolution
pub mod Transitions
pub mod Leases
mod Held
mod Keyed
pub mod Exclusive
pub mod Absence
pub mod Ledger
mod Examples
use s.Prelude.{
  ◌≡◌, refl, ◌↔◌, arith, ℕ, zero, suc, ◌-◌, String, Bool, true, false, not, Option, none, some,
  List, [], ◌∷◌, ◌++◌, ◌&&◌, ◌||◌, Eq, ◌==◌, nat_eq, string_eq, if◌then◌else◌, Result, ok, err,
  filter_by, sort_by, leb,
}
use s.Prelude.Int.{ℤ, ltb_ℤ, leb_ℤ, max_ℤ, i64_min, saturating_sub}
use s.Prelude.Table.{lookup, insert, values}
use s.Transaction.State.{
  OperationState, intent, opened, committed, same_state, can_transition_to, is_terminal,
}
use s.Transaction.Json.{json_eq}
use s.Transaction.Operation.{
  Uuid, ExpectedObject, StoredObjectMeta, OperationRecord, PartRecord, EvidenceRecord,
}
use s.Transaction.Capability.{etag}

pub data Reason : Type 0 where
  must_start_in_intent duplicate_operation_id metadata_only_when_committed : Reason
  expected_found : OperationState → OperationState → Reason
  cannot_update_expected : Uuid → OperationState → Reason
  illegal_transition : OperationState → OperationState → Reason
  part_changed : ℕ → Reason
  evidence_id_conflicts terminal_cannot_launch not_claim_owner : Reason
  exceeds_bigint : String → Reason

pub data JournalError : Type 0 where
  not_found : Uuid → JournalError
  conflict : Reason → JournalError
  corrupt : String → JournalError
  persistence : String → JournalError

-- The key of a part.
abbrev part_beq : Uuid × ℕ → Uuid × ℕ → Bool
part_beq (a, m) (b, n) = a == b && m == n

pub part_beq_iff : (x y : Uuid × ℕ) → (part_beq x y ≡ true) ↔ (x ≡ y)
part_beq_iff x y = ground arith

instance abbrev pub part_key_eq : Eq (Uuid × ℕ)
part_key_eq = record { same = part_beq; same_iff = part_beq_iff }

pub record Journal : Type 0 where
  pub operations : List (Uuid × OperationRecord)
  pub parts : List ((Uuid × ℕ) × PartRecord)
  pub evidence : List EvidenceRecord
  pub fail_committed_transitions : ℕ
  pub fail_evidence_appends : ℕ
  pub durable_for_test : Bool

-- `InMemoryOperationJournal::new`
unfoldable pub new : Journal
new = record {
  operations = [];
  parts = [];
  evidence = [];
  fail_committed_transitions = 0;
  fail_evidence_appends = 0;
  durable_for_test = false;
}

abbrev pub Method : Type 0 → Type 0
Method A = Journal → Result JournalError A × Journal

write_back :
    {A : Type 0}
    → Uuid
    → Journal
    → Result JournalError (A × OperationRecord)
    → Result JournalError A × Journal
write_back id j (ok (a, operation)) =
    (ok a, record j { operations = insert id operation j.operations })
write_back id j (err e) = (err e, j)

on_found :
    {A : Type 0}
    → Uuid
    → (OperationRecord → Result JournalError (A × OperationRecord))
    → Journal
    → Option OperationRecord
    → Result JournalError A × Journal
unfolding write_back
on_found id body j none = (err (not_found id), j)
on_found id body j (some operation) = write_back id j (body operation)

-- `get_mut(&id).ok_or(NotFound(id))?`, and then a body that writes only where it succeeds.
unfoldable pub with_operation :
    {A : Type 0} → Uuid → (OperationRecord → Result JournalError (A × OperationRecord)) → Method A
unfolding on_found
with_operation id body j = on_found id body j (lookup id j.operations)

-- To prove a property of what such a method does, prove it of its three outcomes.
module _ {A : Type 0} (P : Result JournalError A × Journal → Type 0) (id : Uuid)
    (body : OperationRecord → Result JournalError (A × OperationRecord)) (j : Journal) where
  pub with_operation_cases :
      (lookup id j.operations ≡ none → P (err (not_found id), j))
      → ((a : OperationRecord) (e : JournalError)
          → lookup id j.operations ≡ some a
          → body a ≡ err e
          → P (err e, j))
      → ((a b : OperationRecord) (r : A)
          → lookup id j.operations ≡ some a
          → body a ≡ ok (r, b)
          → P (ok r, record j { operations = insert id b j.operations }))
      → P (with_operation id body j)
  unfolding with_operation
  with_operation_cases missing failed written = found (lookup id j.operations) refl
    where
      returned :
          (a : OperationRecord) (r : Result JournalError (A × OperationRecord))
          → lookup id j.operations ≡ some a
          → body a ≡ r
          → P (write_back id j r)
      returned a (ok (r, b)) e q = written a b r e q
      returned a (err x) e q = failed a x e q

      found : (o : Option OperationRecord) → lookup id j.operations ≡ o → P (on_found id body j o)
      found none e = missing e
      found (some a) e = returned a (body a) e refl

module _ {A : Type 0} (id : Uuid)
    (body : OperationRecord → Result JournalError (A × OperationRecord)) (j : Journal) where
  pub with_operation-none :
      lookup id j.operations ≡ none → with_operation id body j ≡ (err (not_found id), j)
  unfolding with_operation
  with_operation-none e = rw e

  pub with_operation_ok :
      (a b : OperationRecord) (r : A)
      → lookup id j.operations ≡ some a
      → body a ≡ ok (r, b)
      → with_operation id body j ≡ (ok r, record j { operations = insert id b j.operations })
  unfolding with_operation
  with_operation_ok a b r e q = rw (e, on_found, q)

  pub with_operation_err :
      (a : OperationRecord) (x : JournalError)
      → lookup id j.operations ≡ some a
      → body a ≡ err x
      → with_operation id body j ≡ (err x, j)
  unfolding with_operation
  with_operation_err a x e q = rw (e, on_found, q)

-- `HashMap::insert` writes before its result is looked at.
unfoldable pub insert_intent : OperationRecord → Method Unit
insert_intent operation j =
    if not (same_state operation.state intent)
    then (err (conflict must_start_in_intent), j)
    else let j' = record j { operations = insert operation.id operation j.operations } in
      elim (lookup operation.id j.operations) [
        | some _ ↦ (err (conflict duplicate_operation_id), j')
        | none ↦ (ok tt, j')
      ]

unfoldable pub get : Uuid → Journal → Option OperationRecord
get id j = lookup id j.operations

open_body : Option String → ℤ → OperationRecord → Result JournalError (Unit × OperationRecord)
open_body upload now operation =
    if not (same_state operation.state intent)
    then err (conflict (expected_found intent operation.state))
    else ok (tt, record operation { state = opened; upload_id = upload; updated_at_ms = now })

unfoldable pub set_open : ℤ → Uuid → Option String → Method Unit
unfolding with_operation open_body
set_open now id upload = with_operation id (open_body upload now)

expected_body :
    Uuid → ExpectedObject → ℤ → OperationRecord → Result JournalError (Unit × OperationRecord)
expected_body id e now operation =
    if not (same_state operation.state intent || same_state operation.state opened)
    then err (conflict (cannot_update_expected id operation.state))
    else ok (tt, record operation { expected = e; updated_at_ms = now })

unfoldable pub set_expected : ℤ → Uuid → ExpectedObject → Method Unit
unfolding with_operation expected_body
set_expected now id e = with_operation id (expected_body id e now)

pub transition_body :
    OperationState
    → OperationState
    → Option StoredObjectMeta
    → ℤ
    → OperationRecord
    → Result JournalError (Unit × OperationRecord)
transition_body expected next meta now operation =
    if not (same_state operation.state expected)
    then err (conflict (expected_found expected operation.state))
    else ok (
      tt,
      record operation {
        state = next;
        committed = meta;
        updated_at_ms = now;
        lease_owner = none;
        lease_expires_at_ms = none;
      },
    )

abbrev pub is_some {ℓ} : {A : Type ℓ} → Option A → Bool
is_some none = false
is_some (some _) = true

abbrev pub same_bool : Bool → Bool → Bool
same_bool true b = b
same_bool false b = not b

-- `fetch_update` with `checked_sub(1)` succeeds, and counts down, while a failure is left.
unfoldable pub transition :
    ℤ → Uuid → OperationState → OperationState → Option StoredObjectMeta → Method Unit
unfolding with_operation transition_body
transition now id expected next meta j =
    if not (can_transition_to expected next)
    then (err (conflict (illegal_transition expected next)), j)
    else if not (same_bool (same_state next committed) (is_some meta))
    then (err (conflict metadata_only_when_committed), j)
    else if same_state next committed && not (j.fail_committed_transitions == 0)
    then (
      err (persistence "injected COMMITTED transition failure"),
      record j { fail_committed_transitions = j.fail_committed_transitions - 1 },
    )
    else with_operation id (transition_body expected next meta now) j

same_part : PartRecord → PartRecord → Bool
same_part a b = a.etag == b.etag && a.size_bytes == b.size_bytes && a.digest == b.digest

abbrev pub part_key : PartRecord → Uuid × ℕ
part_key p = (p.operation_id, p.part_number)

unfoldable pub record_part : PartRecord → Method Unit
unfolding same_part
record_part part j = elim (lookup (part_key part) j.parts) [
  | some existing ↦
      if same_part existing part
      then (ok tt, j)
      else (err (conflict (part_changed part.part_number)), j)
  | none ↦ (ok tt, record j { parts = insert (part_key part) part j.parts })
]

-- `values().filter(..)`, and `sort_by_key` on the part number.
unfoldable pub parts_of : Uuid → Journal → List PartRecord
parts_of id j =
    sort_by (λ a b. leb a.part_number b.part_number)
      (filter_by (λ p. p.operation_id == id) (values j.parts))

unfoldable pub find_evidence : Uuid → List EvidenceRecord → Option EvidenceRecord
find_evidence id [] = none
find_evidence id (e ∷ l) = if e.id == id then some e else find_evidence id l

abbrev pub same_evidence : EvidenceRecord → EvidenceRecord → Bool
same_evidence a b = a.operation_id == b.operation_id && a.kind == b.kind && a.detail == b.detail

unfoldable pub append_evidence : EvidenceRecord → Method Unit
unfolding find_evidence
append_evidence e j =
    if not (j.fail_evidence_appends == 0)
    then (
      err (persistence "injected evidence append failure"),
      record j { fail_evidence_appends = j.fail_evidence_appends - 1 },
    )
    else elim (find_evidence e.id j.evidence) [
      | some existing ↦
          if same_evidence existing e then (ok tt, j) else (err (conflict evidence_id_conflicts), j)
      | none ↦ (ok tt, record j { evidence = j.evidence ++ e ∷ [] })
    ]

unfoldable pub evidence_of : Uuid → Journal → List EvidenceRecord
evidence_of id j = filter_by (λ e. e.operation_id == id) j.evidence
