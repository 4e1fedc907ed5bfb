-- ===== src/Transaction/Journal/Evolution.antt =====
-- How the operations of the journal evolve under any calls (transaction/journal.rs).
use s.Transaction.Journal.History.{
  insert_call, insert-Advances, Spares, Advances, Call, Follows, FollowsIn, FollowsIn-refl,
  absence-Advances, absence_call, after, claim_call, claim_one_call, evidence_call, expect_call,
  launch-Advances, launch_call, open_call, part_call, set_expected-Advances, set_open-Advances,
  transition-Advances, transition_call, run,
}
use s.Transaction.Operation.{EvidenceRecord, OperationRecord, PartRecord, Uuid}
use s.Transaction.Journal.{Journal, append_evidence, record_part}
use s.Prelude.{
  All, List, Option, Option-cases, String, [], arith, inl, inr, none, some, ℕ, ◌∷◌, ◌≡◌, nat_eq,
  string_eq, Bool-cases, refl, subst, suc, true, ◌∙◌, ◌≤◌,
}
use s.Transaction.Journal.Recovery.{
  claim_all, claim_reconcilable, claim_reconcilable_operation, lease_to, is_reconcilable,
}
use s.Transaction.State.{can_transition_to, is_terminal}
use s.Prelude.Table.{insert, lookup, lookup-insert_cases}
use s.Prelude.Int.{ℤ}
use s.Transaction.State.Paths.{Chain, Chain-bounded, next, start}

-- Only the lease differs.
record Leased (a b : OperationRecord) : Type 0 where
  same_id : b.id ≡ a.id
  same_destination : b.destination ≡ a.destination
  same_tenant : b.tenant_id ≡ a.tenant_id
  same_state : b.state ≡ a.state
  same_result : b.committed ≡ a.committed

Leased→Follows : (a b : OperationRecord) → Leased a b → Follows a b
Leased→Follows a b l = record {
  same_id = l.same_id;
  same_destination = l.same_destination;
  same_tenant = l.same_tenant;
  moves = inl l.same_state;
  result_kept = λ _. l.same_result;
}

abbrev LeasedIn : Option OperationRecord → Option OperationRecord → Type 0
LeasedIn none none = Unit
LeasedIn (some a) (some b) = Leased a b
LeasedIn _ _ = ⊥

LeasedIn-refl : (o : Option OperationRecord) → LeasedIn o o
LeasedIn-refl none = tt
LeasedIn-refl (some a) = ground arith

LeasedIn-trans : (o p q : Option OperationRecord) → LeasedIn o p → LeasedIn p q → LeasedIn o q
LeasedIn-trans none none none h k = tt
LeasedIn-trans (some a) (some b) (some c) h k = ground arith
LeasedIn-trans none none (some c) h k = k
LeasedIn-trans none (some b) q h k = absurd h
LeasedIn-trans (some a) none q h k = absurd h
LeasedIn-trans (some a) (some b) none h k = k

LeasedIn→FollowsIn : (o p : Option OperationRecord) → LeasedIn o p → FollowsIn o p
LeasedIn→FollowsIn none none h = tt
LeasedIn→FollowsIn (some a) (some b) h = Leased→Follows a b h
LeasedIn→FollowsIn none (some b) h = h
LeasedIn→FollowsIn (some a) none h = h

insert-LeasedIn :
    (id k : Uuid) (a : OperationRecord) (owner : String) (until : ℤ)
    (m : List (Uuid × OperationRecord))
    → lookup id m ≡ some a
    → LeasedIn (lookup k m) (lookup k (insert id (lease_to owner until a) m))
insert-LeasedIn id k a owner until m e =
    elim (lookup-insert_cases id k (lease_to owner until a) m) [
      | inl (same, written) ↦ rw (written, ← same, e) (ground arith)
      | inr old ↦ rw old (LeasedIn-refl (lookup k m))
    ]

claim_all-LeasedIn :
    (k : Uuid) (owner : String) (until : ℤ) (ids : List (ℤ × Uuid))
    (m : List (Uuid × OperationRecord))
    → LeasedIn (lookup k m) (lookup k (claim_all owner until ids m).1)
unfolding claim_all
claim_all-LeasedIn k owner until [] m = LeasedIn-refl (lookup k m)
claim_all-LeasedIn k owner until ((t, id) ∷ ids) m = elim (Option-cases (lookup id m)) [
  | inl e ↦ rw (e, claim_all) (claim_all-LeasedIn k owner until ids m)
  | inr (a, e) ↦
      rw (e, claim_all)
        (LeasedIn-trans (lookup k m) _ _ (insert-LeasedIn id k a owner until m e)
          (claim_all-LeasedIn k owner until ids (insert id (lease_to owner until a) m)))
]

claim-Advances :
    (now : ℤ) (k : Uuid) (owner : String) (stale until : ℤ) (limit : ℕ) (j : Journal)
    → Advances k j (claim_reconcilable now owner stale until limit j).1
unfolding claim_reconcilable
claim-Advances now k owner stale until limit j =
    LeasedIn→FollowsIn _ _ (claim_all-LeasedIn k owner until _ j.operations)

pub claim_one-Advances :
    (now : ℤ) (id k : Uuid) (owner : String) (stale until : ℤ) (j : Journal)
    → Advances k j (claim_reconcilable_operation now id owner stale until j).1
unfolding claim_reconcilable_operation
claim_one-Advances now id k owner stale until j = elim (Option-cases (lookup id j.operations)) [
  | inl e ↦ rw (e, claim_reconcilable_operation) (FollowsIn-refl (lookup k j.operations))
  | inr (a, e) ↦
      rw (e, claim_reconcilable_operation)
        (elim (Bool-cases (is_reconcilable now stale a)) [
          | inl free ↦
              rw free (LeasedIn→FollowsIn _ _ (insert-LeasedIn id k a owner until j.operations e))
          | inr kept ↦ rw kept (FollowsIn-refl (lookup k j.operations))
        ])
]

pub record_part-operations :
    (p : PartRecord) (j : Journal) → (record_part p j).1.operations ≡ j.operations
unfolding record_part
record_part-operations p j = ground arith

pub append_evidence-operations :
    (e : EvidenceRecord) (j : Journal) → (append_evidence e j).1.operations ≡ j.operations
unfolding append_evidence
append_evidence-operations e j = ground arith

pub append_evidence-Advances :
    (e : EvidenceRecord) (k : Uuid) (j : Journal) → Advances k j (append_evidence e j).1
append_evidence-Advances e k j =
    rw append_evidence-operations (FollowsIn-refl (lookup k j.operations))

-- Whatever the call and its outcome, except an insertion under the id: of a journal in which the id has
-- an operation, it keeps one, with the same id, destination and tenant, which stays in its state or
-- makes one allowed transition; and where the id had none, it still has none.
pub after-Advances : (c : Call) (k : Uuid) (j : Journal) → Spares k c → Advances k j (after c j)
unfolding after
after-Advances (insert_call operation) k j s = insert-Advances operation k j s
after-Advances (open_call now id upload) k j s = set_open-Advances now id k upload j
after-Advances (expect_call now id e) k j s = set_expected-Advances now id k e j
after-Advances (transition_call now id from to meta) k j s =
    transition-Advances now id k from to meta j
after-Advances (part_call p) k j s =
    rw record_part-operations (FollowsIn-refl (lookup k j.operations))
after-Advances (evidence_call e) k j s =
    rw append_evidence-operations (FollowsIn-refl (lookup k j.operations))
after-Advances (launch_call now id t) k j s = launch-Advances now id k t j
after-Advances (absence_call now id t d) k j s = absence-Advances now id k t d j
after-Advances (claim_call now owner stale until limit) k j s =
    claim-Advances now k owner stale until limit j
after-Advances (claim_one_call now id owner stale until) k j s =
    claim_one-Advances now id k owner stale until j

-- The record that the operation has after the calls, with the transitions that it made.
pub record History (a : OperationRecord) (k : Uuid) (j : Journal) : Type 0 where
  pub now_at : OperationRecord
  pub found : lookup k j.operations ≡ some now_at
  pub same_id : now_at.id ≡ a.id
  pub same_destination : now_at.destination ≡ a.destination
  pub steps : ℕ
  pub path : Chain a.state steps now_at.state

FollowsIn-found :
    (a : OperationRecord) (o p : Option OperationRecord)
    → o ≡ some a
    → FollowsIn o p
    → (b : OperationRecord) × (p ≡ some b) × Follows a b
FollowsIn-found a o p e f = follower p (subst (λ q. FollowsIn q p) e f)
  where
    follower :
        (q : Option OperationRecord)
        → FollowsIn (some a) q
        → (b : OperationRecord) × (q ≡ some b) × Follows a b
    follower none g = absurd g
    follower (some b) g = (b, refl, g)

pub History-Advances :
    (a : OperationRecord) (k : Uuid) (i j : Journal)
    → Advances k i j
    → History a k i
    → History a k j
History-Advances a k i j step h =
    let (b, e, f) = FollowsIn-found h.now_at _ _ h.found step in
    elim f.moves [
      | inl still ↦ record {
        now_at = b;
        found = e;
        same_id = f.same_id ∙ h.same_id;
        same_destination = f.same_destination ∙ h.same_destination;
        steps = h.steps;
        path = rw still h.path;
      }
      | inr legal ↦ record {
        now_at = b;
        found = e;
        same_id = f.same_id ∙ h.same_id;
        same_destination = f.same_destination ∙ h.same_destination;
        steps = suc h.steps;
        path = next h.path legal;
      }
    ]

pub History-start :
    (a : OperationRecord) (k : Uuid) (j : Journal) → lookup k j.operations ≡ some a → History a k j
History-start a k j e = record {
  now_at = a;
  found = e;
  same_id = refl;
  same_destination = refl;
  steps = 0;
  path = start;
}

History-run :
    (a : OperationRecord) (k : Uuid) (cs : List Call) (j : Journal)
    → All (Spares k) cs
    → History a k j
    → History a k (run cs j)
unfolding run
History-run a k [] j s h = h
History-run a k (c ∷ cs) j s h =
    History-run a k cs (after c j) s.1
      (History-Advances a k j (after c j) (after-Advances c k j s.0) h)

-- After any calls, none of which inserts an operation under its id again, an operation is still in the
-- journal under its id and with its destination, and it came to its state by at most four allowed
-- transitions.
pub run-History :
    (a : OperationRecord) (k : Uuid) (cs : List Call) (j : Journal)
    → All (Spares k) cs
    → lookup k j.operations ≡ some a
    → (b : OperationRecord) × (n : ℕ) × (lookup k (run cs j).operations ≡ some b)
      × (b.id ≡ a.id)
      × (b.destination ≡ a.destination)
      × Chain a.state n b.state
      × (n ≤ 4)
run-History a k cs j s e =
    let h = History-run a k cs j s (History-start a k j e) in
    (
      h.now_at,
      h.steps,
      h.found,
      h.same_id,
      h.same_destination,
      h.path,
      Chain-bounded _ _ h.steps h.path,
    )

Follows-frozen :
    (a b : OperationRecord)
    → is_terminal a.state ≡ true
    → Follows a b
    → (b.state ≡ a.state) × (b.committed ≡ a.committed)
unfolding is_terminal can_transition_to
Follows-frozen a b t f = ground arith

-- A terminal operation is never changed again by any calls but an insertion under its id: neither its
-- state nor its result.
pub terminal_frozen :
    (a : OperationRecord) (k : Uuid) (cs : List Call) (j : Journal)
    → All (Spares k) cs
    → lookup k j.operations ≡ some a
    → is_terminal a.state ≡ true
    → (b : OperationRecord) × (lookup k (run cs j).operations ≡ some b)
      × (b.state ≡ a.state)
      × (b.committed ≡ a.committed)
unfolding run
terminal_frozen a k [] j g e t = (a, e, refl, refl)
terminal_frozen a k (c ∷ cs) j g e t =
    let (b, found, f) = FollowsIn-found a _ _ e (after-Advances c k j g.0) in
    let (same, kept) = Follows-frozen a b t f in
    let (z, last, s, r) = terminal_frozen b k cs (after c j) g.1 found (rw same t) in
    (z, last, s ∙ same, r ∙ kept)
