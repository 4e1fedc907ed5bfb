-- ===== src/Transaction/Journal/Ledger.antt =====
-- What is written once and stays: parts, evidence and operation ids (transaction/journal.rs).
use s.Transaction.Journal.History.{
  insert_call, Call, absence_call, after, claim_call, claim_one_call, evidence_call, expect_call,
  launch_call, open_call, part_call, run, transition_call,
}
use s.Transaction.Operation.{EvidenceRecord, OperationRecord, PartRecord, StoredObjectMeta, Uuid}
use s.Transaction.Journal.{
  Journal, JournalError, append_evidence, part_key, record_part, set_expected, set_open, transition,
  transition_body, with_operation, with_operation_cases, part_key_eq, conflict,
  duplicate_operation_id, insert_intent,
}
use s.Prelude.{
  List, Option, Option-cases, Result, String, [], arith, eq_iff, inl, inr, ok, refl, some, ℕ, ◌↔◌,
  ◌∷◌, ◌≡◌, nat_eq, string_eq, err,
}
use s.Transaction.State.{OperationState, intent}
use s.Transaction.Journal.Recovery.{
  claim_reconcilable, claim_reconcilable_operation, confirm_exact_absence, record_mutation_launch,
}
use s.Prelude.Table.{lookup, lookup-insert_cases, lookup-insert_self}
use s.Prelude.Int.{ℤ}

record_part-keeps :
    (p q : PartRecord) (key : Uuid × ℕ) (j : Journal)
    → lookup key j.parts ≡ some q
    → lookup key (record_part p j).1.parts ≡ some q
unfolding record_part
record_part-keeps p q key j e = elim (Option-cases (lookup (part_key p) j.parts)) [
  | inr (x, f) ↦ ground (arith, f)
  | inl f ↦ elim (lookup-insert_cases (part_key p) key p j.parts) [
    | inl (same, _) ↦ absurd (cc (f, e, same))
    | inr old ↦ ground (arith, f, old)
  ]
]

with_operation-parts :
    {A : Type 0} (id : Uuid) (body : OperationRecord → Result JournalError (A × OperationRecord))
    (j : Journal)
    → (with_operation id body j).1.parts ≡ j.parts
with_operation-parts id body j =
    with_operation_cases (λ o. o.1.parts ≡ j.parts) id body j (λ _. refl) (λ _ _ _ _. refl)
      (λ _ _ _ _ _. refl)

with_operation-evidence :
    {A : Type 0} (id : Uuid) (body : OperationRecord → Result JournalError (A × OperationRecord))
    (j : Journal)
    → (with_operation id body j).1.evidence ≡ j.evidence
with_operation-evidence id body j =
    with_operation_cases (λ o. o.1.evidence ≡ j.evidence) id body j (λ _. refl) (λ _ _ _ _. refl)
      (λ _ _ _ _ _. refl)

transition-parts :
    (now : ℤ) (id : Uuid) (from to : OperationState) (meta : Option StoredObjectMeta) (j : Journal)
    → (transition now id from to meta j).1.parts ≡ j.parts
unfolding transition
transition-parts now id from to meta j =
    ground (arith, with_operation-parts id (transition_body from to meta now) j)

claim_one-parts :
    (now : ℤ) (id : Uuid) (owner : String) (stale until : ℤ) (j : Journal)
    → (claim_reconcilable_operation now id owner stale until j).1.parts ≡ j.parts
unfolding claim_reconcilable_operation
claim_one-parts now id owner stale until j = ground arith

append_evidence-parts : (e : EvidenceRecord) (j : Journal) → (append_evidence e j).1.parts ≡ j.parts
unfolding append_evidence
append_evidence-parts e j = ground arith

accepts :
    (p q : PartRecord) (j : Journal)
    → lookup (part_key p) j.parts ≡ some q
    → ((record_part p j).0 ≡ ok tt)
      ↔ ((q.etag ≡ p.etag) × (q.size_bytes ≡ p.size_bytes) × (q.digest ≡ p.digest))
unfolding record_part
accepts p q j e = (
  λ h. ground (arith, e, eq_iff q.etag p.etag, eq_iff q.digest p.digest),
  λ h. ground (arith, e, eq_iff q.etag p.etag, eq_iff q.digest p.digest),
)

insert_intent-parts : (o : OperationRecord) (j : Journal) → (insert_intent o j).1.parts ≡ j.parts
unfolding insert_intent
insert_intent-parts o j = ground arith

-- A part that is recorded keeps its etag, size and digest through any call, of any method.
after-part :
    (c : Call) (q : PartRecord) (key : Uuid × ℕ) (j : Journal)
    → lookup key j.parts ≡ some q
    → lookup key (after c j).parts ≡ some q
unfolding after set_open set_expected record_mutation_launch confirm_exact_absence
    claim_reconcilable
after-part (insert_call o) q key j e = rw insert_intent-parts e
after-part (open_call now id upload) q key j e = rw with_operation-parts e
after-part (expect_call now id x) q key j e = rw with_operation-parts e
after-part (transition_call now id from to meta) q key j e = rw transition-parts e
after-part (part_call p) q key j e = record_part-keeps p q key j e
after-part (evidence_call x) q key j e = rw append_evidence-parts e
after-part (launch_call now id t) q key j e = rw with_operation-parts e
after-part (absence_call now id t d) q key j e = rw with_operation-parts e
after-part (claim_call now owner stale until limit) q key j e = e
after-part (claim_one_call now id owner stale until) q key j e = rw claim_one-parts e

-- A part once recorded stands unchanged after any calls, and a later part under its key is accepted
-- exactly when it has the same etag, size and digest.
pub part_immutable :
    (cs : List Call) (p q : PartRecord) (j : Journal)
    → lookup (part_key p) j.parts ≡ some q
    → (lookup (part_key p) (run cs j).parts ≡ some q)
      × (((record_part p (run cs j)).0 ≡ ok tt)
          ↔ ((q.etag ≡ p.etag) × (q.size_bytes ≡ p.size_bytes) × (q.digest ≡ p.digest)))
unfolding run
part_immutable [] p q j e = (e, accepts p q j e)
part_immutable (c ∷ cs) p q j e =
    part_immutable cs p q (after c j) (after-part c q (part_key p) j e)

-- Inserting an intent under an id that is taken is refused, and yet the record that stood there is
-- replaced by the new one, whatever state it was in.
pub insert_intent_duplicate :
    (old fresh : OperationRecord) (j : Journal)
    → lookup fresh.id j.operations ≡ some old
    → fresh.state ≡ intent
    → ((insert_intent fresh j).0 ≡ err (conflict duplicate_operation_id))
      × (lookup fresh.id (insert_intent fresh j).1.operations ≡ some fresh)
unfolding insert_intent
insert_intent_duplicate old fresh j e i =
    let written = lookup-insert_self fresh.id fresh j.operations in
    (ground (arith, e), ground (arith, e, written))
