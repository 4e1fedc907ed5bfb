-- ===== src/Transaction/Sink.antt =====
-- The sink that writes an object to its destination (transaction/s3.rs, `DirectS3Sink`): its state and
-- the steps of its methods. The hasher is the bytes that it was fed; the part size is a parameter.
pub mod Upload
pub mod Reconcile
pub mod Complete
pub mod Abort
pub mod Keeping
pub mod Writing
pub mod Committing
pub mod Safety
pub mod Bytes
pub mod Sending
pub mod Filling
pub mod Verified
pub mod Fixing
pub mod LostPart
pub mod Tracking
pub mod Recovering
pub mod Commits
pub mod Outcome
pub mod Opening
mod Examples
use s.Transaction.Backend.{
  ◌>>=◌, ◌>>◌, Act, BackendError, BackendErrorKind, DiscoveredUpload, Machine, Request, Run,
  Surroundings, TransactionBackend, TransactionError, UploadedPart, aborted, ambiguous,
  capability_error, definitive, deleted, discovered, journal_error, pure, raise,
}
use s.Prelude.{
  Bool, List, Option, Result, String, [], err, false, max, none, ok, true, ℕ, ◌*◌, ◌++◌, ◌∷◌,
  nat_eq, string_eq, if◌then◌else◌,
}
use s.Transaction.Json.{Json, end, field, number, object, text}
use s.Transaction.Operation.{OperationRecord, StoredObjectMeta, Uuid}
use s.Transaction.State.{OperationState, completing}
use s.Transaction.Journal.{corrupt, insert_intent}
use s.Prelude.Table.{lookup}
use s.Transaction.Reconciler.{move, note, on_backend, on_journal, read_clock, is_authoritative}
use s.Prelude.Int.{pos, saturating_add, ℤ}
use s.Transaction.Journal.Recovery.{record_mutation_launch}
use s.Transaction.Capability.{streaming_eligibility}

pub data SinkCommitState : Type 0 where
  pre_commit commit_unknown committed : SinkCommitState

-- `preserves_reservation`
unfoldable pub preserves_reservation : SinkCommitState → Bool
preserves_reservation pre_commit = false
preserves_reservation commit_unknown = true
preserves_reservation committed = true

-- `DIRECT_PART_BYTES`, and the two delays in milliseconds.
abbrev pub direct_part_bytes : ℕ
direct_part_bytes = 16 * 1024 * 1024

abbrev pub mutation_ambiguity_window_ms : ℤ
mutation_ambiguity_window_ms = pos 75_000

abbrev pub exact_absence_confirmation_delay_ms : ℤ
exact_absence_confirmation_delay_ms = pos 5_000

pub record DirectS3Sink : Type 0 where
  pub operation : OperationRecord
  pub buffer : List ℕ
  pub upload_id : Option String
  pub parts : List UploadedPart
  pub max_attempts : ℕ
  pub hashed : List ℕ
  pub output_bytes : ℕ
  pub output_verified : Bool
  pub finished : Bool

-- The sink with the machine that it runs on.
pub record SinkOn (W : Type 0) : Type 0 where
  pub sink : DirectS3Sink
  pub machine : Machine W

unfoldable pub is_taken : {A : Type 0} → Result BackendError A → Bool
is_taken (ok a) = true
is_taken (err e) = false

module _ {W : Type 0} where
  -- A step of the machine.
  unfoldable pub lift : {A : Type 0} → Run W A → Act (SinkOn W) A
  lift p x = let (r, m) = p x.machine in (r, record x { machine = m })

  -- The rest of a method, which reads `self`.
  unfoldable pub with_sink : {A : Type 0} → (DirectS3Sink → Act (SinkOn W) A) → Act (SinkOn W) A
  with_sink f x = f x.sink x

  -- An assignment to fields of `self`.
  unfoldable pub change : (DirectS3Sink → DirectS3Sink) → Act (SinkOn W) Unit
  change f x = (ok tt, record x { sink = f x.sink })

  -- A step whose error is a value.
  unfoldable pub attempt :
      {A : Type 0} → Act (SinkOn W) A → Act (SinkOn W) (Result TransactionError A)
  attempt p x = let (r, y) = p x in (ok r, y)

  -- `let _ = step`
  unfoldable pub ignore : Act (SinkOn W) Unit → Act (SinkOn W) Unit
  unfolding attempt
  ignore p = do _ ← attempt p; pure tt

  -- A call of the provider whose answer is a value; it is put on record with whether it was taken.
  unfoldable pub ask :
      {A : Type 0}
      → (Bool → Request)
      → (W → Result BackendError A × W)
      → Act (SinkOn W) (Result BackendError A)
  unfolding is_taken
  ask request f x =
      let (r, w) = f x.machine.world in
      (
        ok r,
        record x {
          machine = record x.machine {
            world = w;
            requests = x.machine.requests ++ request (is_taken r) ∷ [];
          };
        },
      )

  -- `journal.get`
  unfoldable pub read_operation : Uuid → Act (SinkOn W) (Option OperationRecord)
  read_operation id x = (ok (lookup id x.machine.journal.operations), x)

abbrev pub set_state : OperationState → DirectS3Sink → DirectS3Sink
set_state to s = record s { operation = record s.operation { state = to } }

-- `format!("{:?}", error.kind)`
abbrev pub kind_text : BackendErrorKind → String
kind_text definitive = "Definitive"
kind_text ambiguous = "Ambiguous"

abbrev pub is_definitive : BackendError → Bool
is_definitive e = elim e.kind [ definitive ↦ true | ambiguous ↦ false ]

abbrev pub number_of : ℕ → Json
number_of n = number (pos n)

module _ {W : Type 0} (env : Surroundings) where
  -- `evidence`
  unfoldable pub evidence : String → Json → Act (SinkOn W) Unit
  unfolding with_sink lift
  evidence kind detail = with_sink (λ s. lift (note env s.operation.id kind detail))

  -- `record_mutation_launch`: the clock is read for the window, and by the journal.
  unfoldable pub record_launch : Act (SinkOn W) Unit
  unfolding with_sink lift
  record_launch = with_sink λ s. do
    now ← lift (read_clock env)
    lift (
        on_journal env (λ then_now.
          record_mutation_launch then_now s.operation.id
            (saturating_add now mutation_ambiguity_window_ms)))

  -- A transition of the sink's operation.
  unfoldable pub move_sink :
      OperationState → OperationState → Option StoredObjectMeta → Act (SinkOn W) Unit
  unfolding with_sink lift
  move_sink from to meta = with_sink (λ s. lift (move env s.operation.id from to meta))

module _ {W : Type 0} (env : Surroundings) (backend : TransactionBackend W) where
  -- `delete_redundant_versions`
  unfoldable pub delete_redundant : Option String → List String → Act (SinkOn W) Unit
  unfolding with_sink lift is_authoritative
  delete_redundant current [] = pure tt
  delete_redundant current (v ∷ vs) =
      let rest = delete_redundant current vs in
      if is_authoritative current v
      then raise (journal_error (corrupt "authoritative provider version was listed as redundant"))
      else do
        with_sink
            (λ s. lift (on_backend (λ _. deleted v) (backend.delete_object_version s.operation v)))
        rest

  unfoldable pub abort_each_noted : List DiscoveredUpload → Act (SinkOn W) Unit
  unfolding evidence with_sink lift
  abort_each_noted [] = pure tt
  abort_each_noted (u ∷ us) = do
    evidence env "abort_discovered_before" (object (field "upload_id" (text u.upload_id) end))
    with_sink (λ s.
        lift
          (on_backend (λ _. aborted u.upload_id) (backend.abort_multipart s.operation u.upload_id)))
    evidence env "abort_discovered_after" (object (field "upload_id" (text u.upload_id) end))
    abort_each_noted us

  -- `abort_discovered` of the sink.
  unfoldable pub abort_discovered_noted : Act (SinkOn W) Unit
  unfolding abort_each_noted with_sink lift
  abort_discovered_noted = do
    uploads ←
        with_sink (λ s. lift (on_backend discovered (backend.discover_incomplete s.operation)))
    abort_each_noted uploads

abbrev pub new_sink : OperationRecord → ℕ → DirectS3Sink
new_sink operation max_attempts = record {
  operation = operation;
  buffer = [];
  upload_id = none;
  parts = [];
  max_attempts = max max_attempts 1;
  hashed = [];
  output_bytes = 0;
  output_verified = false;
  finished = false;
}

-- `from_operation`: the sink for an operation that is to be inserted, or was.
unfoldable pub from_operation :
    {W : Type 0}
    → Surroundings
    → TransactionBackend W
    → OperationRecord
    → ℕ
    → Bool
    → Run W DirectS3Sink
from_operation env backend operation max_attempts fresh =
    elim (streaming_eligibility backend.capabilities) [
      | err e ↦ raise (capability_error e)
      | ok _ ↦ elim fresh [
        | true ↦ do
          on_journal env (λ now. insert_intent operation)
          pure (new_sink operation max_attempts)
        | false ↦ pure (new_sink operation max_attempts)
      ]
    ]

-- `commit_state`
unfoldable pub commit_state : DirectS3Sink → SinkCommitState
commit_state s = elim s.operation.state [
  | OperationState.completing ↦ commit_unknown
  | OperationState.commit_unknown ↦ commit_unknown
  | OperationState.committed ↦ committed
  | _ ↦ pre_commit
]
