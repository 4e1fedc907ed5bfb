-- ===== src/Transaction/Backend.antt =====
-- The destination as the transactions see it (transaction/mod.rs, `TransactionBackend`), and the
-- machine on which a transaction runs: the journal, the provider, the clock and the id generator.
use s.Transaction.Journal.{Journal, JournalError}
use s.Transaction.Capability.{BackendCapabilities, CapabilityError}
use s.Prelude.{Bool, List, Option, Result, String, err, ok, ℕ, nat_eq, string_eq, refl, ◌≡◌}
use s.Transaction.Operation.{OperationRecord, StoredObjectMeta, Uuid}
use s.Prelude.Int.{ℤ}

pub data BackendErrorKind : Type 0 where
  definitive ambiguous : BackendErrorKind

pub record BackendError : Type 0 where
  pub kind : BackendErrorKind
  pub message : String

pub record DiscoveredUpload : Type 0 where
  pub upload_id : String
  pub key : String
  pub initiated_at_ms : Option ℤ

pub data CompletionProbe : Type 0 where
  found_committed : StoredObjectMeta → CompletionProbe
  proven_absent : CompletionProbe
  proven_absent_exact : CompletionProbe
  inconclusive : CompletionProbe

pub data TransactionError : Type 0 where
  journal_error : JournalError → TransactionError
  backend_error : BackendError → TransactionError
  capability_error : CapabilityError → TransactionError
  finished_error : TransactionError
  completion_ambiguous : TransactionError
  too_many_parts : TransactionError
  spool_error : String → TransactionError
  output_mismatch : TransactionError
  capacity_exceeded : TransactionError
  publication_error : String → TransactionError

pub record UploadedPart : Type 0 where
  pub part_number : ℕ
  pub etag : String

-- The methods that the sink and recovery call. The provider keeps a state of its own, of which nothing is
-- known; a method answers from it and changes it.
pub record TransactionBackend (World : Type 0) : Type 0 where
  pub capabilities : BackendCapabilities
  pub has_exact_version_recovery : Bool
  pub put_object : OperationRecord → List ℕ → World → Result BackendError StoredObjectMeta × World
  pub create_multipart : OperationRecord → World → Result BackendError String × World
  pub upload_part :
      OperationRecord → String → ℕ → List ℕ → World → Result BackendError String × World
  pub complete_multipart :
      OperationRecord
      → String
      → List UploadedPart
      → World
      → Result BackendError StoredObjectMeta × World
  pub abort_multipart : OperationRecord → String → World → Result BackendError Unit × World
  pub discover_incomplete :
      OperationRecord → World → Result BackendError (List DiscoveredUpload) × World
  pub delete_object_version : OperationRecord → String → World → Result BackendError Unit × World
  pub probe_completion : OperationRecord → World → Result BackendError CompletionProbe × World

-- The calls that were made of the provider, with what it found, or whether it took them: a record kept for the statements,
-- which no code reads.
pub data Request : Type 0 where
  aborted : String → Request
  discovered : List DiscoveredUpload → Request
  deleted : String → Request
  probed : CompletionProbe → Request
  failed : BackendError → Request
  put_sent : List ℕ → Bool → Request
  creation_sent : Bool → Request
  part_sent : ℕ → List ℕ → Bool → Request
  completion_sent : List UploadedPart → Bool → Request

-- `clock n` is what the n-th reading of `unix_time_ms` returns, `draw n` what the n-th `now_v7` does,
-- and `sha256` the SHA-256 digest of bytes, in hexadecimal digits.
pub record Surroundings : Type 0 where
  pub clock : ℕ → ℤ
  pub draw : ℕ → Uuid
  pub sha256 : List ℕ → String

pub record Machine (World : Type 0) : Type 0 where
  pub journal : Journal
  pub world : World
  pub readings : ℕ
  pub requests : List Request

-- A step on a state, which may fail; the state is what the step leaves, also where it fails.
abbrev pub Act : Type 0 → Type 0 → Type 0
Act S A = S → Result TransactionError A × S

abbrev pub Run : Type 0 → Type 0 → Type 0
Run W A = Act (Machine W) A

module _ {S : Type 0} where
  pub continue :
      {A B : Type 0} → (A → Act S B) → Result TransactionError A × S → Result TransactionError B × S
  continue f (ok a, m) = f a m
  continue f (err e, m) = (err e, m)

  infixl 5 ◌>>=◌ ◌>>◌
  unfoldable pub ◌>>=◌ : {A B : Type 0} → Act S A → (A → Act S B) → Act S B
  unfolding continue
  ◌>>=◌ p f m = continue f (p m)

  unfoldable pub ◌>>◌ : {B : Type 0} → Act S Unit → Act S B → Act S B
  unfolding ◌>>=◌
  p >> q = p >>= λ _. q

  unfoldable pub pure : {A : Type 0} → A → Act S A
  pure a m = (ok a, m)

  unfoldable pub raise : {A : Type 0} → TransactionError → Act S A
  raise e m = (err e, m)

  -- A block succeeds exactly when its first step does, and then the rest does.
  pub >>=-eq-ok :
      {A B : Type 0} (p : Act S A) (f : A → Act S B) (m n : S) (b : B)
      → (p >>= f) m ≡ (ok b, n)
      → (a : A) × (k : S) × (p m ≡ (ok a, k)) × (f a k ≡ (ok b, n))
  unfolding ◌>>=◌
  >>=-eq-ok {A} p f m n b h = first (p m) refl h
    where
      first :
          (r : Result TransactionError A × S)
          → p m ≡ r
          → continue f r ≡ (ok b, n)
          → (a : A) × (k : S) × (p m ≡ (ok a, k)) × (f a k ≡ (ok b, n))
      first (ok a, k) e q = (a, k, e, q)
      first (err x, k) e q = cc

  -- What holds after the first step and is kept by the rest holds after the block.
  pub >>=-keeps :
      {A B : Type 0} (P : S → Type 0) (p : Act S A) (f : A → Act S B) (m : S)
      → P (p m).1
      → ((a : A) (k : S) → p m ≡ (ok a, k) → P k → P (f a k).1)
      → P ((p >>= f) m).1
  unfolding ◌>>=◌
  >>=-keeps {A} P p f m h rest = first (p m) refl h
    where
      first : (r : Result TransactionError A × S) → p m ≡ r → P r.1 → P (continue f r).1
      first (ok a, k) e q = rest a k e q
      first (err x, k) e q = q
