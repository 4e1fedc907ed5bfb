-- ===== src/Transaction/Reconciler/Safety.antt =====
-- What recovery can do to the journal, whatever the provider answers and wherever it stops
-- (transaction/mod.rs, `OperationReconciler`).
use s.Transaction.Backend.{
  ◌>>=◌, ◌>>◌, >>=-keeps, BackendError, CompletionProbe, DiscoveredUpload, Machine, Request, Run,
  Surroundings, TransactionError, found_committed, inconclusive, proven_absent, proven_absent_exact,
  pure, raise,
}
use s.Transaction.Journal.History.{Advances, absence-Advances, transition-Advances}
use s.Prelude.{
  Bool, List, Option, Result, String, [], false, if◌then◌else◌, none, some, true, ◌∷◌, nat_eq,
  string_eq, ℕ, ◌≡◌, ◌≤◌,
}
use s.Transaction.Journal.Evolution.{
  History, History-Advances, claim_one-Advances, append_evidence-Advances, History-start,
}
use s.Transaction.Journal.{Journal, Method, transition}
use s.Transaction.Json.{Json}
use s.Transaction.Reconciler.{
  OperationReconciler, abort_discovered, move, note, on_backend, on_journal, read_clock, reconcile,
  reconcile_unknown, abort_each, abort_known, delete_superseded, settle_absent, settle,
  reconcile_state, abort_upload, discover, recovered_meta, delete_version, settle_committed,
  confirm_absence, reconcile_operation, reconcile_found,
}
use s.Transaction.Operation.{OperationRecord, StoredObjectMeta, Uuid}
use s.Transaction.State.{OperationState, intent}
use s.Transaction.Journal.Recovery.{claim_reconcilable_operation, confirm_exact_absence}
use s.Prelude.Int.{ℤ}
use s.Transaction.State.Paths.{Chain, Chain-bounded}
use s.Prelude.Table.{lookup}

-- The program moves an operation only by allowed transitions, also where it fails.
pub record Evolves {W A : Type 0} (p : Run W A) : Type 0 where
  pub at :
      (a : OperationRecord) (k : Uuid) (m : Machine W)
      → History a k m.journal
      → History a k (p m).1.journal

module _ {W A : Type 0} where
  Evolves-pure : (a : A) → Evolves {W = W} (pure a)
  unfolding pure
  Evolves-pure a = record { at = λ _ _ _ h. h }

  Evolves-raise : (e : TransactionError) → Evolves {W = W} (raise {A = A} e)
  unfolding raise
  Evolves-raise e = record { at = λ _ _ _ h. h }

  Evolves-if : (b : Bool) (p q : Run W A) → Evolves p → Evolves q → Evolves (if b then p else q)
  Evolves-if true p q h k = h
  Evolves-if false p q h k = k

  pub Evolves-on_backend :
      (request : A → Request) (f : W → Result BackendError A × W) → Evolves (on_backend request f)
  unfolding on_backend
  Evolves-on_backend request f = record { at = λ _ _ _ h. h }

  pub Evolves-on_journal :
      (env : Surroundings) (f : ℤ → Method A)
      → ((now : ℤ) (k : Uuid) (j : Journal) → Advances k j (f now j).1)
      → Evolves {W = W} (on_journal env f)
  unfolding on_journal
  Evolves-on_journal env f step = record {
    at = λ a k m h. History-Advances a k m.journal _ (step (env.clock m.readings) k m.journal) h;
  }

module _ {W A B : Type 0} where
  Evolves-bind :
      (p : Run W A) (f : A → Run W B) → Evolves p → ((a : A) → Evolves (f a)) → Evolves (p >>= f)
  Evolves-bind p f hp hf = record {
    at = λ a k m h.
        >>=-keeps (λ n. History a k n.journal) p f m (hp.at a k m h)
          (λ x n _ h'. (hf x).at a k n h');
  }

Evolves-seq :
    {W B : Type 0} (p : Run W Unit) (q : Run W B) → Evolves p → Evolves q → Evolves (p >> q)
unfolding ◌>>◌
Evolves-seq p q hp hq = Evolves-bind p (λ _. q) hp (λ _. hq)

module _ {W : Type 0} (env : Surroundings) where
  pub Evolves-read_clock : Evolves {W = W} (read_clock env)
  unfolding read_clock
  Evolves-read_clock = record { at = λ _ _ _ h. h }

  pub Evolves-note :
      (id : Uuid) (kind : String) (detail : Json) → Evolves {W = W} (note env id kind detail)
  unfolding note
  Evolves-note id kind detail = record {
    at = λ a k m h. History-Advances a k m.journal _ (append_evidence-Advances _ k m.journal) h;
  }

  pub Evolves-move :
      (id : Uuid) (from to : OperationState) (meta : Option StoredObjectMeta)
      → Evolves {W = W} (move env id from to meta)
  unfolding move
  Evolves-move id from to meta =
      Evolves-on_journal env (λ now. transition now id from to meta)
        (λ now k j. transition-Advances now id k from to meta j)

  pub Evolves-confirm :
      (id : Uuid) (observed delay : ℤ)
      → Evolves {W = W} (on_journal env (λ now. confirm_exact_absence now id observed delay))
  Evolves-confirm id observed delay =
      Evolves-on_journal env (λ now. confirm_exact_absence now id observed delay)
        (λ now k j. absence-Advances now id k observed delay j)

  Evolves-claim :
      (id : Uuid) (owner : String) (stale until : ℤ)
      → Evolves {W = W}
          (on_journal env (λ now. claim_reconcilable_operation now id owner stale until))
  Evolves-claim id owner stale until =
      Evolves-on_journal env (λ now. claim_reconcilable_operation now id owner stale until)
        (λ now k j. claim_one-Advances now id k owner stale until j)

ruleset evolution = (
  Evolves-pure, Evolves-raise, Evolves-if, Evolves-on_backend, Evolves-bind, Evolves-seq,
  Evolves-read_clock, Evolves-note, Evolves-move, Evolves-confirm, Evolves-claim,
)

module _ {W : Type 0} (env : Surroundings) (r : OperationReconciler W) where
  abort_upload-Evolves : (a : OperationRecord) (u : String) → Evolves (abort_upload env r a u)
  unfolding abort_upload
  abort_upload-Evolves a u = Evolves-on_backend _ _

  discover-Evolves : (a : OperationRecord) → Evolves (discover env r a)
  unfolding discover
  discover-Evolves a = Evolves-on_backend _ _

  delete_version-Evolves : (a : OperationRecord) (v : String) → Evolves (delete_version env r a v)
  unfolding delete_version
  delete_version-Evolves a v = Evolves-on_backend _ _

  abort_each-Evolves :
      (a : OperationRecord) (us : List DiscoveredUpload) → Evolves (abort_each env r a us)
  unfolding abort_each
  abort_each-Evolves a [] = search evolution
  abort_each-Evolves a (u ∷ us) =
      Evolves-seq _ _ (abort_upload-Evolves a u.upload_id) (abort_each-Evolves a us)

  abort_discovered-Evolves : (a : OperationRecord) → Evolves (abort_discovered env r a)
  unfolding abort_discovered
  abort_discovered-Evolves a = Evolves-bind _ _ (discover-Evolves a) (abort_each-Evolves a)

  abort_known-Evolves : (a : OperationRecord) (u : Option String) → Evolves (abort_known env r a u)
  unfolding abort_known
  abort_known-Evolves a none = search evolution
  abort_known-Evolves a (some u) = abort_upload-Evolves a u

  delete_superseded-Evolves :
      (a : OperationRecord) (current : Option String) (vs : List String)
      → Evolves (delete_superseded env r a current vs)
  unfolding delete_superseded
  delete_superseded-Evolves a current [] = Evolves-pure tt
  delete_superseded-Evolves a current (v ∷ vs) =
      Evolves-if _ _ _ (Evolves-raise _)
        (Evolves-seq _ _ (delete_version-Evolves a v) (delete_superseded-Evolves a current vs))

  settle_absent-Evolves :
      (a : OperationRecord) (observed : ℤ) (b : Bool) → Evolves (settle_absent env r a observed b)
  unfolding settle_absent
  settle_absent-Evolves a observed true = search (evolution, abort_discovered-Evolves)
  settle_absent-Evolves a observed false = search evolution

  settle_committed-Evolves :
      (a : OperationRecord) (meta : StoredObjectMeta) → Evolves (settle_committed env r a meta)
  unfolding settle_committed
  settle_committed-Evolves a meta = search (evolution, delete_superseded-Evolves)

  confirm_absence-Evolves : (a : OperationRecord) → Evolves (confirm_absence env r a)
  unfolding confirm_absence
  confirm_absence-Evolves a = search (evolution, settle_absent-Evolves)

  settle-Evolves : (a : OperationRecord) (p : CompletionProbe) → Evolves (settle env r a p)
  unfolding settle
  settle-Evolves a (found_committed meta) = settle_committed-Evolves a (recovered_meta r meta)
  settle-Evolves a proven_absent = search evolution
  settle-Evolves a proven_absent_exact = confirm_absence-Evolves a
  settle-Evolves a inconclusive = search evolution

  reconcile_unknown-Evolves : (a : OperationRecord) → Evolves (reconcile_unknown env r a)
  unfolding reconcile_unknown
  reconcile_unknown-Evolves a = Evolves-bind _ _ (Evolves-on_backend _ _) (settle-Evolves a)

  ruleset recovery =
      (evolution, abort_discovered-Evolves, abort_known-Evolves, reconcile_unknown-Evolves)

  reconcile_state-Evolves :
      (s : OperationState) (a : OperationRecord) → Evolves (reconcile_state env r s a)
  unfolding reconcile_state
  reconcile_state-Evolves intent a = search recovery
  reconcile_state-Evolves _ a = search recovery

  reconcile-Evolves : (a : OperationRecord) → Evolves (reconcile env r a)
  unfolding reconcile
  reconcile-Evolves a = Evolves-seq _ _ (Evolves-note env _ _ _) (reconcile_state-Evolves a.state a)

  reconcile_found-Evolves : (o : Option OperationRecord) → Evolves (reconcile_found env r o)
  unfolding reconcile_found
  reconcile_found-Evolves none = Evolves-pure false
  reconcile_found-Evolves (some a) = Evolves-seq _ _ (reconcile-Evolves a) (Evolves-pure true)

  reconcile_operation-Evolves :
      (id : Uuid) (stale : ℤ) → Evolves (reconcile_operation env r id stale)
  unfolding reconcile_operation
  reconcile_operation-Evolves id stale = search (evolution, reconcile_found-Evolves)

  -- Whatever the provider answers, and wherever the recovery of one operation fails, every operation
  -- of the journal keeps its id and destination and has moved by allowed transitions, at most four.
  pub reconcile_operation_safe :
      (id : Uuid) (stale : ℤ) (m : Machine W) (a : OperationRecord) (k : Uuid)
      → lookup k m.journal.operations ≡ some a
      → (b : OperationRecord) × (n : ℕ) × (lookup k
            (reconcile_operation env r id stale m).1.journal.operations
          ≡ some b)
        × (b.id ≡ a.id)
        × (b.destination ≡ a.destination)
        × Chain a.state n b.state
        × (n ≤ 4)
  reconcile_operation_safe id stale m a k e =
      let h = (reconcile_operation-Evolves id stale).at a k m (History-start a k m.journal e) in
      (
        h.now_at,
        h.steps,
        h.found,
        h.same_id,
        h.same_destination,
        h.path,
        Chain-bounded _ _ h.steps h.path,
      )
