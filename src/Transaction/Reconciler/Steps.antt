-- ===== src/Transaction/Reconciler/Steps.antt =====
-- What each step of a recovery has done when it succeeded (transaction/mod.rs).
use s.Transaction.Backend.{
  >>=-eq-ok, BackendError, Machine, Request, Run, Surroundings, backend_error, journal_error, pure,
  ◌>>◌, TransactionError,
}
use s.Transaction.Json.{Json}
use s.Prelude.{
  List, Option, Result, String, [], ap, append_assoc, err, map_err, ok, refl, some, subst, ◌++◌,
  ◌∙◌, ◌∷◌, ◌≡◌, nat_eq, string_eq, sym,
}
use s.Transaction.Operation.{OperationRecord, StoredObjectMeta, Uuid}
use s.Transaction.State.{OperationState}
use s.Transaction.Journal.Evolution.{append_evidence-operations}
use s.Prelude.Table.{lookup, lookup-insert_self}
use s.Transaction.Reconciler.{move, note, on_backend, on_journal, log_answer, read_clock}
use s.Transaction.Journal.Transitions.{moved, transition_sound}
use s.Transaction.Journal.{transition, Method}
use s.Prelude.Int.{ℤ}

module _ {W : Type 0} where
  pub >>-eq-ok :
      {B : Type 0} (p : Run W Unit) (q : Run W B) (m n : Machine W) (b : B)
      → (p >> q) m ≡ (ok b, n)
      → (k : Machine W) × (p m ≡ (ok tt, k)) × (q k ≡ (ok b, n))
  unfolding ◌>>◌
  >>-eq-ok p q m n b h = let (x, k, e, f) = >>=-eq-ok p (λ _. q) m n b h in (k, e, f)

  pub pure_ok : {A : Type 0} (a b : A) (m n : Machine W) → pure a m ≡ (ok b, n) → (a ≡ b) × (m ≡ n)
  unfolding pure
  pure_ok a b m n h = (cc, cc)

-- The journal and the requests are untouched.
pub record Untouched {W : Type 0} (m n : Machine W) : Type 0 where
  pub same_operations : n.journal.operations ≡ m.journal.operations
  pub same_requests : n.requests ≡ m.requests

-- The provider was asked, and the journal stands.
pub record Asked {W : Type 0} (m n : Machine W) (asked : List Request) : Type 0 where
  pub same_journal : n.journal ≡ m.journal
  pub asked_requests : n.requests ≡ m.requests ++ asked

-- The operation was in one state and is in another, and no request was made.
pub record Moved {W : Type 0} (m n : Machine W) (id : Uuid) (from to : OperationState)
    (meta : Option StoredObjectMeta) : Type 0 where
  pub was : OperationRecord
  pub is : OperationRecord
  pub found : lookup id m.journal.operations ≡ some was
  pub was_from : was.state ≡ from
  pub written : lookup id n.journal.operations ≡ some is
  pub is_to : is.state ≡ to
  pub is_result : is.committed ≡ meta
  pub same_requests : n.requests ≡ m.requests

map_err_ok : {E F A : Type 0} (f : E → F) (r : Result E A) (a : A) → map_err f r ≡ ok a → r ≡ ok a
map_err_ok f (ok x) a h = cc
map_err_ok f (err x) a h = cc

module _ {W : Type 0} (env : Surroundings) where
  pub note_ok :
      (id : Uuid) (kind : String) (detail : Json) (m n : Machine W)
      → note env id kind detail m ≡ (ok tt, n)
      → Untouched m n
  unfolding note
  note_ok id kind detail m n h =
      subst (λ x. Untouched m x) (ap (λ p. p.1) h)
        (record { same_operations = append_evidence-operations _ m.journal; same_requests = refl })

  pub move_ok :
      (id : Uuid) (from to : OperationState) (meta : Option StoredObjectMeta) (m n : Machine W)
      → move env id from to meta m ≡ (ok tt, n)
      → Moved m n id from to meta
  unfolding move on_journal
  move_ok id from to meta m n h =
      let now = env.clock m.readings in
      let done =
        map_err_ok journal_error (transition now id from to meta m.journal).0 tt
          (ap (λ p. p.0) h) in
      let (a, e, p, w) = transition_sound now id from to meta m.journal done in
      subst (λ x. Moved m x id from to meta) (ap (λ p. p.1) h)
        (record {
          was = a;
          is = moved now to meta a;
          found = e;
          was_from = p.in_state;
          written = rw w (lookup-insert_self id (moved now to meta a) m.journal.operations);
          is_to = refl;
          is_result = refl;
          same_requests = refl;
        })

module _ {W A : Type 0} where
  pub on_backend_ok :
      (request : A → Request) (f : W → Result BackendError A × W) (a : A) (m n : Machine W)
      → on_backend request f m ≡ (ok a, n)
      → Asked m n (request a ∷ [])
  unfolding on_backend log_answer
  on_backend_ok request f a m n h =
      let done = map_err_ok backend_error (f m.world).0 a (ap (λ p. p.0) h) in
      subst (λ x. Asked m x (request a ∷ [])) (ap (λ p. p.1) h)
        (record { same_journal = refl; asked_requests = rw done })

pub Asked-trans :
    {W : Type 0} (k m n : Machine W) (xs ys : List Request)
    → Asked k m xs
    → Asked m n ys
    → Asked k n (xs ++ ys)
Asked-trans k m n xs ys p q = record {
  same_journal = q.same_journal ∙ p.same_journal;
  asked_requests =
      q.asked_requests ∙ ap (λ l. l ++ ys) p.asked_requests ∙ append_assoc k.requests xs ys;
}

module _ {W : Type 0} (env : Surroundings) where
  pub read_clock_ok :
      (t : ℤ) (m n : Machine W)
      → read_clock env m ≡ (ok t, n)
      → (n.journal ≡ m.journal) × (n.requests ≡ m.requests) × (t ≡ env.clock m.readings)
  unfolding read_clock
  read_clock_ok t m n h = (
    ap (λ (p : Result TransactionError ℤ × Machine W). p.1.journal) (sym h),
    ap (λ (p : Result TransactionError ℤ × Machine W). p.1.requests) (sym h),
    cc,
  )

  pub on_journal_ok :
      {A : Type 0} (f : ℤ → Method A) (x : A) (m n : Machine W)
      → on_journal env f m ≡ (ok x, n)
      → (now : ℤ) × ((f now m.journal).0 ≡ ok x)
        × (n.journal ≡ (f now m.journal).1)
        × (n.requests ≡ m.requests)
  unfolding on_journal
  on_journal_ok {A} f x m n h =
      let now = env.clock m.readings in
      (
        now,
        map_err_ok journal_error (f now m.journal).0 x (ap (λ p. p.0) h),
        ap (λ (p : Result TransactionError A × Machine W). p.1.journal) (sym h),
        ap (λ (p : Result TransactionError A × Machine W). p.1.requests) (sym h),
      )
