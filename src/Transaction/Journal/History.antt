-- ===== src/Transaction/Journal/History.antt =====
-- What a sequence of calls can do to one operation of the journal (transaction/journal.rs).
use s.Prelude.{
  ℕ, String, ◌≡◌, ◌≢◌, refl, ◌⊎◌, inl, inr, true, Option, none, some, List, [], ◌∷◌, nat_eq, Result,
  ok, arith, Bool-cases, string_eq,
}
use s.Prelude.Int.{ℤ}
use s.Prelude.Table.{lookup, insert, lookup-insert_cases}
use s.Transaction.State.{
  OperationState, can_transition_to, same_state_iff, can_transition_to-irreflexive,
}
use s.Transaction.Operation.{
  Uuid, ExpectedObject, StoredObjectMeta, OperationRecord, PartRecord, EvidenceRecord,
}
use s.Transaction.Journal.{
  JournalError, Journal, with_operation, with_operation_cases, set_open, set_expected, transition,
  record_part, append_evidence, transition_body, insert_intent,
}
use s.Transaction.Journal.Recovery.{
  record_mutation_launch, confirm_exact_absence, claim_reconcilable, claim_reconcilable_operation,
}

-- One record may become the other in one call.
pub record Follows (a b : OperationRecord) : Type 0 where
  pub same_id : b.id ≡ a.id
  pub same_destination : b.destination ≡ a.destination
  pub same_tenant : b.tenant_id ≡ a.tenant_id
  pub moves : (b.state ≡ a.state) ⊎ (can_transition_to a.state b.state ≡ true)
  pub result_kept : b.state ≡ a.state → b.committed ≡ a.committed

abbrev pub FollowsIn : Option OperationRecord → Option OperationRecord → Type 0
FollowsIn none none = Unit
FollowsIn (some a) (some b) = Follows a b
FollowsIn _ _ = ⊥

pub Follows-refl : (a : OperationRecord) → Follows a a
Follows-refl a = record {
  same_id = refl;
  same_destination = refl;
  same_tenant = refl;
  moves = inl refl;
  result_kept = λ _. refl;
}

pub FollowsIn-refl : (o : Option OperationRecord) → FollowsIn o o
FollowsIn-refl none = tt
FollowsIn-refl (some a) = Follows-refl a

-- A write at one key, of a record that may follow the one that stood there.
pub insert-FollowsIn :
    (id k : Uuid) (a b : OperationRecord) (m : List (Uuid × OperationRecord))
    → lookup id m ≡ some a
    → Follows a b
    → FollowsIn (lookup k m) (lookup k (insert id b m))
insert-FollowsIn id k a b m e f = elim (lookup-insert_cases id k b m) [
  | inl (same, written) ↦ rw (written, ← same, e) f
  | inr old ↦ rw old (FollowsIn-refl (lookup k m))
]

-- The operation of id `k`, before and after.
abbrev pub Advances : Uuid → Journal → Journal → Type 0
Advances k i j = FollowsIn (lookup k i.operations) (lookup k j.operations)

with_operation-Advances :
    {A : Type 0} (id k : Uuid) (body : OperationRecord → Result JournalError (A × OperationRecord))
    (j : Journal)
    → ((a b : OperationRecord) (r : A) → body a ≡ ok (r, b) → Follows a b)
    → Advances k j (with_operation id body j).1
with_operation-Advances id k body j keep =
    with_operation_cases (λ o. Advances k j o.1) id body j (λ _. FollowsIn-refl _)
      (λ _ _ _ _. FollowsIn-refl _)
      (λ a b r e q. insert-FollowsIn id k a b j.operations e (keep a b r q))

-- A call of a method that changes the journal.
pub data Call : Type 0 where
  insert_call : OperationRecord → Call
  open_call : ℤ → Uuid → Option String → Call
  expect_call : ℤ → Uuid → ExpectedObject → Call
  transition_call : ℤ → Uuid → OperationState → OperationState → Option StoredObjectMeta → Call
  part_call : PartRecord → Call
  evidence_call : EvidenceRecord → Call
  launch_call : ℤ → Uuid → ℤ → Call
  absence_call : ℤ → Uuid → ℤ → ℤ → Call
  claim_call : ℤ → String → ℤ → ℤ → ℕ → Call
  claim_one_call : ℤ → Uuid → String → ℤ → ℤ → Call

-- The journal that the call leaves, whether it succeeds or not.
unfoldable pub after : Call → Journal → Journal
after (insert_call operation) j = (insert_intent operation j).1
after (open_call now id upload) j = (set_open now id upload j).1
after (expect_call now id e) j = (set_expected now id e j).1
after (transition_call now id from to meta) j = (transition now id from to meta j).1
after (part_call p) j = (record_part p j).1
after (evidence_call e) j = (append_evidence e j).1
after (launch_call now id t) j = (record_mutation_launch now id t j).1
after (absence_call now id t d) j = (confirm_exact_absence now id t d j).1
after (claim_call now owner stale until limit) j =
    (claim_reconcilable now owner stale until limit j).1
after (claim_one_call now id owner stale until) j =
    (claim_reconcilable_operation now id owner stale until j).1

-- The call inserts no operation with the id, whose record it would overwrite.
abbrev pub Spares : Uuid → Call → Type 0
Spares k (insert_call operation) = operation.id ≢ k
Spares k _ = Unit

unfoldable pub run : List Call → Journal → Journal
run [] j = j
run (c ∷ cs) j = run cs (after c j)

pub insert-Advances :
    (operation : OperationRecord) (k : Uuid) (j : Journal)
    → operation.id ≢ k
    → Advances k j (insert_intent operation j).1
unfolding insert_intent
insert-Advances operation k j other =
    elim (lookup-insert_cases operation.id k operation j.operations) [
      | inl (same, _) ↦ absurd (other same)
      | inr old ↦
          let kept : FollowsIn (lookup k j.operations)
              (lookup k (insert operation.id operation j.operations)) =
            rw old (FollowsIn-refl (lookup k j.operations)) in
          ground (arith, kept, FollowsIn-refl (lookup k j.operations))
    ]

pub set_open-Advances :
    (now : ℤ) (id k : Uuid) (u : Option String) (j : Journal) → Advances k j (set_open now id u j).1
unfolding set_open can_transition_to
set_open-Advances now id k u j = with_operation-Advances id k _ j (λ a b r q. ground arith)

pub set_expected-Advances :
    (now : ℤ) (id k : Uuid) (x : ExpectedObject) (j : Journal)
    → Advances k j (set_expected now id x j).1
unfolding set_expected
set_expected-Advances now id k x j = with_operation-Advances id k _ j (λ a b r q. ground arith)

pub launch-Advances :
    (now : ℤ) (id k : Uuid) (t : ℤ) (j : Journal)
    → Advances k j (record_mutation_launch now id t j).1
unfolding record_mutation_launch
launch-Advances now id k t j = with_operation-Advances id k _ j (λ a b r q. ground arith)

pub absence-Advances :
    (now : ℤ) (id k : Uuid) (t d : ℤ) (j : Journal)
    → Advances k j (confirm_exact_absence now id t d j).1
unfolding confirm_exact_absence
absence-Advances now id k t d j = with_operation-Advances id k _ j (λ a b r q. ground arith)

transition_body-Advances :
    (now : ℤ) (id k : Uuid) (from to : OperationState) (meta : Option StoredObjectMeta)
    (j : Journal)
    → can_transition_to from to ≡ true
    → Advances k j (with_operation id (transition_body from to meta now) j).1
unfolding transition_body
transition_body-Advances now id k from to meta j legal =
    with_operation-Advances id k _ j
      λ a b r q. ground (arith, same_state_iff a.state from, can_transition_to-irreflexive to)

pub transition-Advances :
    (now : ℤ) (id k : Uuid) (from to : OperationState) (meta : Option StoredObjectMeta)
    (j : Journal)
    → Advances k j (transition now id from to meta j).1
unfolding transition
transition-Advances now id k from to meta j = elim (Bool-cases (can_transition_to from to)) [
  | inr no_way ↦ rw no_way (FollowsIn-refl _)
  | inl legal ↦ ground (
    arith,
    FollowsIn-refl (lookup k j.operations),
    transition_body-Advances now id k from to meta j legal,
  )
]
