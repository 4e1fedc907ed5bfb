-- ===== src/Transaction/Journal/Exclusive.antt =====
-- That a lease excludes every other claim while it lasts (transaction/journal.rs, the two methods
-- that claim operations).
use s.Prelude.{
  All, Bool, Bool-cases, List, Option, Option-cases, Result, String, [], arith, err, inl, inr, ok,
  refl, some, sym, ℕ, ◌++◌, ◌∷◌, ◌≡◌, ◌≢◌, ◌∙◌, nat_eq, string_eq, sort_by, insert_by, take, suc,
  zero,
}
use s.Prelude.Int.{ℤ, ◌≤ℤ◌}
use s.Prelude.Table.{lookup, insert}
use s.Transaction.Operation.{OperationRecord, StoredObjectMeta, Uuid}
use s.Transaction.Journal.{
  Journal, JournalError, insert_intent, set_expected, set_open, transition, transition_body,
  with_operation, with_operation_cases,
}
use s.Transaction.State.{OperationState, intent, same_state}
use s.Transaction.Journal.History.{
  Call, after, claim_call, claim_one_call, evidence_call, part_call, absence_call, expect_call,
  insert_call, launch_call, open_call, transition_call,
}
use s.Transaction.Journal.Evolution.{append_evidence-operations, record_part-operations}
use s.Transaction.Journal.Leases.{claim_sound}
use s.Transaction.Journal.Recovery.{
  claim_all, claim_reconcilable, claim_reconcilable_operation, is_reconcilable, lease_to, older,
  reconcilable_ids, confirm_exact_absence, record_mutation_launch,
}
use s.Transaction.Journal.Held.{
  Held, Operations, found-Held, found-Keyed, free-other, free_ids, insert-Held, replaced-Held,
}
use s.Transaction.Journal.Keyed.{run-Keyed}
use s.Transaction.Journal.History.{run}
use s.Transaction.Journal.{new}

module _ {A : Type 0} (P : A → Type 0) where
  All-insert_by :
      (le : A → A → Bool) (x : A) (xs : List A) → P x → All P xs → All P (insert_by le x xs)
  All-insert_by le x [] p h = (p, tt)
  All-insert_by le x (y ∷ ys) p h = elim (Bool-cases (le x y)) [
    | inl before ↦ rw before (p, h)
    | inr behind ↦ rw behind (h.0, All-insert_by le x ys p h.1)
  ]

  All-sort_by : (le : A → A → Bool) (xs : List A) → All P xs → All P (sort_by le xs)
  All-sort_by le [] h = tt
  All-sort_by le (x ∷ xs) h = All-insert_by le x (sort_by le xs) h.0 (All-sort_by le xs h.1)

  All-take : (n : ℕ) (xs : List A) → All P xs → All P (take n xs)
  All-take zero xs h = tt
  All-take (suc n) [] h = tt
  All-take (suc n) (x ∷ xs) h = (h.0, All-take n xs h.1)

  All-append : (xs ys : List A) → All P xs → All P ys → All P (xs ++ ys)
  All-append [] ys h k = k
  All-append (x ∷ xs) ys h k = (h.0, All-append xs ys h.1 k)

abbrev listed : Result JournalError (List OperationRecord) → List OperationRecord
listed (ok l) = l
listed (err e) = []

abbrev single : Result JournalError (Option OperationRecord) → List OperationRecord
single (ok (some a)) = a ∷ []
single _ = []

-- The operations that a call claims.
unfoldable pub claimed : Call → Journal → List OperationRecord
claimed (claim_call now owner stale until limit) j =
    listed (claim_reconcilable now owner stale until limit j).0
claimed (claim_one_call now id owner stale until) j =
    single (claim_reconcilable_operation now id owner stale until j).0
claimed _ j = []

unfoldable pub claimed_in : List Call → Journal → List OperationRecord
claimed_in [] j = []
claimed_in (c ∷ cs) j = claimed c j ++ claimed_in cs (after c j)

-- The call neither moves the operation to another state nor inserts it, and no claim is made after
-- the time.
abbrev pub Early : Uuid → ℤ → Call → Type 0
Early k until (claim_call now owner stale until' limit) = now ≤ℤ until
Early k until (claim_one_call now id owner stale until') = now ≤ℤ until
Early k until (transition_call now id from to meta) = id ≢ k
Early k until (insert_call operation) = operation.id ≢ k
Early k until _ = Unit

module _ (k : Uuid) (until : ℤ) where
  claim_all-Held :
      (owner : String) (until' : ℤ) (ids : List (ℤ × Uuid)) (m : Operations)
      → All (λ (p : ℤ × Uuid). p.1 ≢ k) ids
      → Held k until m
      → All (λ a. a.id ≢ k) (claim_all owner until' ids m).0
        × Held k until (claim_all owner until' ids m).1
  unfolding claim_all
  claim_all-Held owner until' [] m others h = (tt, h)
  claim_all-Held owner until' ((t, id) ∷ ids) m others h = elim (Option-cases (lookup id m)) [
    | inl e ↦ rw (e, claim_all) (claim_all-Held owner until' ids m others.1 h)
    | inr (a, e) ↦
        let f = found-Held k until id a m h e in
        let r =
          claim_all-Held owner until' ids (insert id (lease_to owner until' a) m) others.1
            (insert-Held k until id (lease_to owner until' a) m f.0 (λ q. absurd (others.0 q)) h) in
        rw (e, claim_all) (((λ q. others.0 (sym f.0 ∙ q)), r.0), r.1)
  ]

  claim_one-Held :
      (now : ℤ) (id : Uuid) (owner : String) (stale until' : ℤ) (j : Journal)
      → now ≤ℤ until
      → Held k until j.operations
      → All (λ a. a.id ≢ k) (single (claim_reconcilable_operation now id owner stale until' j).0)
        × Held k until (claim_reconcilable_operation now id owner stale until' j).1.operations
  unfolding claim_reconcilable_operation
  claim_one-Held now id owner stale until' j early h =
      elim (Option-cases (lookup id j.operations)) [
        | inl e ↦ rw (e, claim_reconcilable_operation) (tt, h)
        | inr (a, e) ↦
            let f = found-Held k until id a j.operations h e in
            rw (e, claim_reconcilable_operation)
              (elim (Bool-cases (is_reconcilable now stale a)) [
                | inr kept ↦ rw kept (tt, h)
                | inl free ↦
                    let other = free-other k until now stale early a id f.1 free in
                    rw free (
                      ((λ q. other (sym f.0 ∙ q)), tt),
                      insert-Held k until id (lease_to owner until' a) j.operations f.0
                          (λ q. absurd (other q)) h,
                    )
              ])
      ]

  -- A method that keeps the id and the lease of what it changes.
  with_operation-Held :
      {A : Type 0} (id : Uuid) (body : OperationRecord → Result JournalError (A × OperationRecord))
      (j : Journal)
      → ((a b : OperationRecord) (r : A)
          → body a ≡ ok (r, b)
          → (b.id ≡ a.id) × (id ≡ k → b.lease_expires_at_ms ≡ a.lease_expires_at_ms))
      → Held k until j.operations
      → Held k until (with_operation id body j).1.operations
  with_operation-Held id body j keep h =
      with_operation_cases (λ o. Held k until o.1.operations) id body j (λ _. h) (λ _ _ _ _. h)
        (λ a b r e q.
          let f = found-Held k until id a j.operations h e in
          let s = keep a b r q in
          insert-Held k until id b j.operations (s.0 ∙ f.0) (λ x. s.1 x ∙ f.1 x) h)

  insert_intent-Held :
      (operation : OperationRecord) (j : Journal)
      → operation.id ≢ k
      → Held k until j.operations
      → Held k until (insert_intent operation j).1.operations
  unfolding insert_intent
  insert_intent-Held operation j other h =
      let w =
        insert-Held k until operation.id operation j.operations refl (λ q. absurd (other q)) h in
      elim (Bool-cases (same_state operation.state intent)) [
        | inr refused ↦ rw (refused, insert_intent) h
        | inl fresh ↦ elim (Option-cases (lookup operation.id j.operations)) [
          | inl e ↦ rw (fresh, e, insert_intent) w
          | inr (a, e) ↦ rw (fresh, e, insert_intent) w
        ]
      ]

  transition-Held :
      (now : ℤ) (id : Uuid) (from to : OperationState) (meta : Option StoredObjectMeta)
      (j : Journal)
      → id ≢ k
      → Held k until j.operations
      → Held k until (transition now id from to meta j).1.operations
  unfolding transition
  transition-Held now id from to meta j other h =
      let w : Held k until (with_operation id (transition_body from to meta now) j).1.operations =
        with_operation-Held id (transition_body from to meta now) j
          (λ a b r q. (ground arith, λ x. absurd (other x))) h in
      ground (arith, w, h)

  call-Held :
      (c : Call) (j : Journal)
      → Early k until c
      → Held k until j.operations
      → All (λ a. a.id ≢ k) (claimed c j) × Held k until (after c j).operations
  unfolding claimed after claim_reconcilable reconcilable_ids set_open set_expected
      record_mutation_launch confirm_exact_absence
  call-Held (claim_call now owner stale until' limit) j early h =
      claim_all-Held owner until' _ j.operations
        (All-take _ limit _
          (All-sort_by _ older _ (free_ids k until now stale early j.operations h)))
        h
  call-Held (claim_one_call now id owner stale until') j early h =
      claim_one-Held now id owner stale until' j early h
  call-Held (part_call p) j early h = (tt, rw record_part-operations h)
  call-Held (evidence_call e) j early h = (tt, rw append_evidence-operations h)
  call-Held (insert_call operation) j early h = (tt, insert_intent-Held operation j early h)
  call-Held (open_call now id upload) j early h =
      (tt, with_operation-Held id _ j (λ a b r q. (ground arith, λ _. ground arith)) h)
  call-Held (expect_call now id x) j early h =
      (tt, with_operation-Held id _ j (λ a b r q. (ground arith, λ _. ground arith)) h)
  call-Held (transition_call now id from to meta) j early h =
      (tt, transition-Held now id from to meta j early h)
  call-Held (launch_call now id t) j early h =
      (tt, with_operation-Held id _ j (λ a b r q. (ground arith, λ _. ground arith)) h)
  call-Held (absence_call now id t d) j early h =
      (tt, with_operation-Held id _ j (λ a b r q. (ground arith, λ _. ground arith)) h)

  calls-Held :
      (cs : List Call) (j : Journal)
      → All (Early k until) cs
      → Held k until j.operations
      → All (λ a. a.id ≢ k) (claimed_in cs j)
  unfolding claimed_in
  calls-Held [] j early h = tt
  calls-Held (c ∷ cs) j early h =
      let r = call-Held c j early.0 h in
      All-append _ (claimed c j) _ r.0 (calls-Held cs (after c j) early.1 r.1)

-- In a journal that any calls have made of a new one: after a claim of one operation that succeeded,
-- no claim made until the end of the lease gets that operation, neither one by one nor in a batch,
-- whatever the owners, the staleness and the limits asked for and whatever else is called in between,
-- as long as the operation is not moved to another state and not inserted again.
pub lease_exclusive :
    (before : List Call) (now : ℤ) (id : Uuid) (owner : String) (stale until : ℤ)
    (a : OperationRecord) (cs : List Call)
    → (claim_reconcilable_operation now id owner stale until (run before new)).0 ≡ ok (some a)
    → All (Early id until) cs
    → All
        (λ b. b.id ≢ id)
        (claimed_in cs (claim_reconcilable_operation now id owner stale until (run before new)).1)
unfolding new
lease_exclusive before now id owner stale until a cs h early =
    let j = run before new in
    let keyed = run-Keyed before new tt in
    let (b, e, r, q, w) = claim_sound now id owner stale until j a h in
    calls-Held id until cs _ early (
      rw w (
        replaced-Held id until (lease_to owner until b) j.operations
          (found-Keyed id b j.operations keyed e) refl keyed))
