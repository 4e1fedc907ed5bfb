-- ===== src/Transaction/Journal/Keyed.antt =====
-- The operations of a journal stand under their own ids, each once (transaction/journal.rs).
use s.Prelude.{
  Bool-cases, List, Option, Option-cases, Result, String, [], arith, false, inl, inr, none, ok,
  refl, ◌∷◌, ◌≡◌, ◌∙◌, nat_eq, string_eq, eqb, eqb_iff, subst,
}
use s.Prelude.Int.{ℤ}
use s.Prelude.Table.{lookup, insert}
use s.Transaction.Operation.{OperationRecord, StoredObjectMeta, Uuid}
use s.Transaction.Journal.{
  Journal, JournalError, insert_intent, set_expected, set_open, transition, transition_body,
  with_operation, with_operation_cases,
}
use s.Transaction.State.{OperationState, intent, same_state}
use s.Transaction.Journal.History.{
  Call, after, claim_call, claim_one_call, evidence_call, part_call, absence_call, expect_call,
  insert_call, launch_call, open_call, transition_call,
}
use s.Transaction.Journal.Evolution.{append_evidence-operations, record_part-operations}
use s.Transaction.Journal.Recovery.{
  claim_all, claim_reconcilable, claim_reconcilable_operation, is_reconcilable, lease_to,
  confirm_exact_absence, record_mutation_launch,
}
use s.Transaction.Journal.Held.{Keyed, Operations, found-Keyed}
use s.Prelude.Table.{lookup-insert}
use s.Transaction.Journal.History.{run}

insert-Keyed :
    (id : Uuid) (b : OperationRecord) (m : Operations) → b.id ≡ id → Keyed m → Keyed (insert id b m)
unfolding insert lookup
insert-Keyed id b [] e u = (e, refl, tt)
insert-Keyed id b ((key, a) ∷ m) e u = elim (Bool-cases (eqb key id)) [
  | inl same ↦ rw same (e, subst (λ x. lookup x m ≡ none) ((eqb_iff key id).0 same) u.1, u.2)
  | inr other ↦
      let apart : eqb id key ≡ false = ground (arith, eqb_iff key id, eqb_iff id key, other) in
      let absent : lookup key (insert id b m) ≡ none = lookup-insert id key b m ∙ rw apart u.1 in
      rw other (u.0, absent, insert-Keyed id b m e u.2)
]

with_operation-Keyed :
    {A : Type 0} (id : Uuid) (body : OperationRecord → Result JournalError (A × OperationRecord))
    (j : Journal)
    → ((a b : OperationRecord) (r : A) → body a ≡ ok (r, b) → b.id ≡ a.id)
    → Keyed j.operations
    → Keyed (with_operation id body j).1.operations
with_operation-Keyed id body j keep u =
    with_operation_cases (λ o. Keyed o.1.operations) id body j (λ _. u) (λ _ _ _ _. u)
      (λ a b r e q.
        insert-Keyed id b j.operations (keep a b r q ∙ found-Keyed id a j.operations u e) u)

insert_intent-Keyed :
    (operation : OperationRecord) (j : Journal)
    → Keyed j.operations
    → Keyed (insert_intent operation j).1.operations
unfolding insert_intent
insert_intent-Keyed operation j u =
    let w = insert-Keyed operation.id operation j.operations refl u in
    elim (Bool-cases (same_state operation.state intent)) [
      | inr refused ↦ rw (refused, insert_intent) u
      | inl fresh ↦ elim (Option-cases (lookup operation.id j.operations)) [
        | inl e ↦ rw (fresh, e, insert_intent) w
        | inr (a, e) ↦ rw (fresh, e, insert_intent) w
      ]
    ]

transition-Keyed :
    (now : ℤ) (id : Uuid) (from to : OperationState) (meta : Option StoredObjectMeta) (j : Journal)
    → Keyed j.operations
    → Keyed (transition now id from to meta j).1.operations
unfolding transition
transition-Keyed now id from to meta j u =
    let w : Keyed (with_operation id (transition_body from to meta now) j).1.operations =
      with_operation-Keyed id (transition_body from to meta now) j (λ a b r q. ground arith) u in
    ground (arith, w, u)

claim_all-Keyed :
    (owner : String) (until : ℤ) (ids : List (ℤ × Uuid)) (m : Operations)
    → Keyed m
    → Keyed (claim_all owner until ids m).1
unfolding claim_all
claim_all-Keyed owner until [] m u = u
claim_all-Keyed owner until ((t, id) ∷ ids) m u = elim (Option-cases (lookup id m)) [
  | inl e ↦ rw (e, claim_all) (claim_all-Keyed owner until ids m u)
  | inr (a, e) ↦
      rw (e, claim_all)
        (claim_all-Keyed owner until ids _
          (insert-Keyed id (lease_to owner until a) m (found-Keyed id a m u e) u))
]

claim_one-Keyed :
    (now : ℤ) (id : Uuid) (owner : String) (stale until : ℤ) (j : Journal)
    → Keyed j.operations
    → Keyed (claim_reconcilable_operation now id owner stale until j).1.operations
unfolding claim_reconcilable_operation
claim_one-Keyed now id owner stale until j u = elim (Option-cases (lookup id j.operations)) [
  | inl e ↦ rw (e, claim_reconcilable_operation) u
  | inr (a, e) ↦
      let w =
        insert-Keyed id (lease_to owner until a) j.operations (found-Keyed id a j.operations u e)
          u in
      rw (e, claim_reconcilable_operation)
        (elim (Bool-cases (is_reconcilable now stale a)) [
          | inl free ↦ rw free w
          | inr kept ↦ rw kept u
        ])
]

after-Keyed : (c : Call) (j : Journal) → Keyed j.operations → Keyed (after c j).operations
unfolding after claim_reconcilable set_open set_expected record_mutation_launch
    confirm_exact_absence
after-Keyed (insert_call operation) j u = insert_intent-Keyed operation j u
after-Keyed (open_call now id upload) j u = with_operation-Keyed id _ j (λ a b r q. ground arith) u
after-Keyed (expect_call now id x) j u = with_operation-Keyed id _ j (λ a b r q. ground arith) u
after-Keyed (transition_call now id from to meta) j u = transition-Keyed now id from to meta j u
after-Keyed (part_call p) j u = rw record_part-operations u
after-Keyed (evidence_call e) j u = rw append_evidence-operations u
after-Keyed (launch_call now id t) j u = with_operation-Keyed id _ j (λ a b r q. ground arith) u
after-Keyed (absence_call now id t d) j u = with_operation-Keyed id _ j (λ a b r q. ground arith) u
after-Keyed (claim_call now owner stale until limit) j u =
    claim_all-Keyed owner until _ j.operations u
after-Keyed (claim_one_call now id owner stale until) j u =
    claim_one-Keyed now id owner stale until j u

-- Any calls keep the operations under their own ids, each once.
pub run-Keyed : (cs : List Call) (j : Journal) → Keyed j.operations → Keyed (run cs j).operations
unfolding run
run-Keyed [] j u = u
run-Keyed (c ∷ cs) j u = run-Keyed cs (after c j) (after-Keyed c j u)
