-- ===== src/Transaction/Sink/Safety.antt =====
-- The sink moves its operation only by allowed transitions (transaction/s3.rs, `DirectS3Sink`).
use s.Transaction.State.{OperationState, aborting, intent, opened}
use s.Transaction.Backend.{Surroundings, TransactionBackend}
use s.Prelude.{Option, String, none, some, ℕ, nat_eq, string_eq, List, [], ◌∷◌, ◌≡◌, ◌≤◌}
use s.Transaction.Sink.Complete.{complete}
use s.Transaction.Sink.{SinkOn}
use s.Transaction.Sink.Keeping.{keeping, Keeps}
use s.Transaction.Operation.{OperationRecord, Uuid}
use s.Transaction.Sink.Abort.{abort, abort_from, abort_known_noted, give_up}
use s.Transaction.Sink.Writing.{abort_discovered_noted-Keeps, verify_output-Keeps, write-Keeps}
use s.Transaction.State.Paths.{Chain, Chain-bounded}
use s.Transaction.Journal.Evolution.{History, History-start}
use s.Prelude.Table.{lookup}
use s.Transaction.Sink.Upload.{verify_output, write}
use s.Transaction.Sink.Committing.{abort_upload_known-Keeps, complete-Keeps}

module _ {W : Type 0} (env : Surroundings) (backend : TransactionBackend W) where
  abort_known_noted-Keeps : (o : Option String) → Keeps (abort_known_noted env backend o)
  unfolding abort_known_noted
  abort_known_noted-Keeps none = search keeping
  abort_known_noted-Keeps (some id) = search (keeping, abort_upload_known-Keeps)

  give_up-Keeps : Keeps (give_up env backend)
  unfolding give_up
  give_up-Keeps = search (keeping, abort_known_noted-Keeps, abort_discovered_noted-Keeps)

  abort_from-Keeps : (s : OperationState) → Keeps (abort_from env backend s)
  unfolding abort_from
  abort_from-Keeps intent = search (keeping, give_up-Keeps)
  abort_from-Keeps opened = search (keeping, give_up-Keeps)
  abort_from-Keeps aborting = give_up-Keeps
  abort_from-Keeps _ = search keeping

  abort-Keeps : Keeps (abort env backend)
  unfolding abort
  abort-Keeps = search (keeping, abort_from-Keeps)

-- What a caller does with a sink.
pub data SinkCall : Type 0 where
  write_call : List ℕ → SinkCall
  verify_call : ℕ → String → SinkCall
  complete_call abort_call : SinkCall

module _ {W : Type 0} (env : Surroundings) (backend : TransactionBackend W) (part_bytes : ℕ) where
  -- The sink and the machine after a call, whatever it returned.
  unfoldable pub after_call : SinkCall → SinkOn W → SinkOn W
  unfolding write verify_output complete abort
  after_call (write_call chunk) x = (write env backend part_bytes chunk x).1
  after_call (verify_call size digest) x = (verify_output env backend size digest x).1
  after_call complete_call x = (complete env backend x).1
  after_call abort_call x = (abort env backend x).1

  unfoldable pub after_calls : List SinkCall → SinkOn W → SinkOn W
  unfolding after_call
  after_calls [] x = x
  after_calls (c ∷ cs) x = after_calls cs (after_call c x)

  after_call-History :
      (c : SinkCall) (a : OperationRecord) (k : Uuid) (x : SinkOn W)
      → History a k x.machine.journal
      → History a k (after_call c x).machine.journal
  unfolding after_call
  after_call-History (write_call chunk) a k x = (write-Keeps env backend part_bytes chunk).at a k x
  after_call-History (verify_call size digest) a k x =
      (verify_output-Keeps env backend size digest).at a k x
  after_call-History complete_call a k x = (complete-Keeps env backend).at a k x
  after_call-History abort_call a k x = (abort-Keeps env backend).at a k x

  after_calls-History :
      (cs : List SinkCall) (a : OperationRecord) (k : Uuid) (x : SinkOn W)
      → History a k x.machine.journal
      → History a k (after_calls cs x).machine.journal
  unfolding after_calls
  after_calls-History [] a k x h = h
  after_calls-History (c ∷ cs) a k x h =
      after_calls-History cs a k (after_call c x) (after_call-History c a k x h)

  -- Whatever calls are made of a sink, whatever the provider answers and whichever of the calls fail,
  -- every operation of the journal keeps its id and destination and has moved by allowed transitions,
  -- at most four.
  pub sink_safe :
      (cs : List SinkCall) (x : SinkOn W) (a : OperationRecord) (k : Uuid)
      → lookup k x.machine.journal.operations ≡ some a
      → (b : OperationRecord) × (n : ℕ) × (lookup k (after_calls cs x).machine.journal.operations
          ≡ some b)
        × (b.id ≡ a.id)
        × (b.destination ≡ a.destination)
        × Chain a.state n b.state
        × (n ≤ 4)
  sink_safe cs x a k e =
      let h = after_calls-History cs a k x (History-start a k x.machine.journal e) in
      (
        h.now_at,
        h.steps,
        h.found,
        h.same_id,
        h.same_destination,
        h.path,
        Chain-bounded _ _ h.steps h.path,
      )
