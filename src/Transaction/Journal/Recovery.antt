-- ===== src/Transaction/Journal/Recovery.antt =====
-- The methods of the journal by which a crashed writer's operations are recovered
-- (transaction/journal.rs): mutation launches, observations of absence and reconciliation leases.
use s.Prelude.{
  ℕ, String, Bool, true, false, not, Option, none, some, List, [], ◌∷◌, ◌&&◌, ◌||◌, nat_eq,
  if◌then◌else◌, Result, ok, err, filter_by, sort_by, leb, take, map, string_eq,
}
use s.Prelude.Int.{ℤ, ltb_ℤ, leb_ℤ, max_ℤ, i64_min, saturating_sub}
use s.Prelude.Table.{lookup, insert, values}
use s.Transaction.State.{is_terminal}
use s.Transaction.Operation.{Uuid, OperationRecord}
use s.Transaction.Journal.{JournalError, conflict, terminal_cannot_launch, Method, with_operation}

abbrev pub or_min : Option ℤ → ℤ
or_min none = i64_min
or_min (some t) = t

pub launch_body : ℤ → ℤ → OperationRecord → Result JournalError (Unit × OperationRecord)
launch_body not_before now operation =
    if is_terminal operation.state
    then err (conflict terminal_cannot_launch)
    else ok (
      tt,
      record operation {
        mutation_not_before_ms = some (max_ℤ (or_min operation.mutation_not_before_ms) not_before);
        exact_absence_observed_at_ms = none;
        updated_at_ms = now;
      },
    )

unfoldable pub record_mutation_launch : ℤ → Uuid → ℤ → Method Unit
unfolding with_operation launch_body
record_mutation_launch now id not_before = with_operation id (launch_body not_before now)

-- `is_some_and(|not_before| observed_at_ms < not_before)`
abbrev pub before_window : Option ℤ → ℤ → Bool
before_window none observed = false
before_window (some not_before) observed = ltb_ℤ observed not_before

unfoldable pub absence_body :
    ℤ → ℤ → ℤ → OperationRecord → Result JournalError (Bool × OperationRecord)
absence_body observed separation now operation =
    if before_window operation.mutation_not_before_ms observed
    then ok (false, operation)
    else elim operation.exact_absence_observed_at_ms [
      | some first ↦ ok (leb_ℤ separation (saturating_sub observed first), operation)
      | none ↦ ok (
        false,
        record operation { exact_absence_observed_at_ms = some observed; updated_at_ms = now },
      )
    ]

unfoldable pub confirm_exact_absence : ℤ → Uuid → ℤ → ℤ → Method Bool
unfolding with_operation absence_body
confirm_exact_absence now id observed separation =
    with_operation id (absence_body observed separation now)

-- `is_none_or(|expiry| expiry < now)`
abbrev pub lease_free : ℤ → Option ℤ → Bool
lease_free now none = true
lease_free now (some expiry) = ltb_ℤ expiry now

unfoldable pub is_reconcilable : ℤ → ℤ → OperationRecord → Bool
is_reconcilable now stale_before operation =
    not (is_terminal operation.state)
    && leb_ℤ operation.updated_at_ms stale_before
    && lease_free now operation.lease_expires_at_ms

abbrev pub lease_to : String → ℤ → OperationRecord → OperationRecord
lease_to owner until operation = record operation {
  lease_owner = some owner;
  lease_expires_at_ms = some until;
}

-- The order of the pairs of update time and id.
abbrev pub older : ℤ × Uuid → ℤ × Uuid → Bool
older (t, a) (u, b) = ltb_ℤ t u || (leb_ℤ t u && leb a b)

abbrev pub age : OperationRecord → ℤ × Uuid
age operation = (operation.updated_at_ms, operation.id)

-- The loop over the ids that were taken; an id that is gone is passed over.
unfoldable pub claim_all :
    String
    → ℤ
    → List (ℤ × Uuid)
    → List (Uuid × OperationRecord)
    → List OperationRecord × List (Uuid × OperationRecord)
claim_all owner until [] operations = ([], operations)
claim_all owner until ((t, id) ∷ ids) operations = elim (lookup id operations) [
  | none ↦ claim_all owner until ids operations
  | some operation ↦
      let rest =
        claim_all owner until ids (insert id (lease_to owner until operation) operations) in
      (lease_to owner until operation ∷ rest.0, rest.1)
]

unfoldable pub reconcilable_ids : ℤ → ℤ → ℕ → List (Uuid × OperationRecord) → List (ℤ × Uuid)
reconcilable_ids now stale_before limit operations =
    take limit
      (sort_by older (map age (filter_by (is_reconcilable now stale_before) (values operations))))

unfoldable pub claim_reconcilable : ℤ → String → ℤ → ℤ → ℕ → Method (List OperationRecord)
unfolding claim_all reconcilable_ids is_reconcilable
claim_reconcilable now owner stale_before until limit j =
    let claimed =
      claim_all owner until (reconcilable_ids now stale_before limit j.operations) j.operations in
    (ok claimed.0, record j { operations = claimed.1 })

unfoldable pub claim_reconcilable_operation :
    ℤ → Uuid → String → ℤ → ℤ → Method (Option OperationRecord)
claim_reconcilable_operation now id owner stale_before until j = elim (lookup id j.operations) [
  | none ↦ (ok none, j)
  | some operation ↦ if not (is_reconcilable now stale_before operation) then (ok none, j) else (
    ok (some (lease_to owner until operation)),
    record j { operations = insert id (lease_to owner until operation) j.operations },
  )
]
