-- ===== src/Transaction/Spool.antt =====
-- The compatibility spool (transaction/spool.rs, `CompatibilitySpoolTransaction`): a sink that keeps
-- its bytes in a file, under a quota, until they are uploaded. The file system and the uploader are a
-- parameter with a state of its own; the hasher is the bytes that it was fed.

pub mod Accounts
pub mod Returned
mod Examples
use s.Transaction.Backend.{
  ◌>>=◌, ◌>>◌, Act, TransactionError, capacity_exceeded, finished_error, output_mismatch, pure,
  raise, spool_error,
}
use s.Prelude.{
  Bool, List, Result, String, eqb, err, false, if◌then◌else◌, leb, length, ltb, map_err, not, ok,
  true, ℕ, ◌++◌, ◌+◌, ◌==◌, ◌||◌, nat_eq, string_eq, [],
}
use s.Transaction.Sink.{SinkCommitState, pre_commit, commit_unknown}
use s.Transaction.Quota.{SpoolQuota, release_bytes}
use s.Transaction.Operation.{StoredObjectMeta}
use s.Transaction.Sink.Upload.{u64_mod}
use s.Transaction.Json.{object}

-- `io::Error`: whether its kind is `NotFound`, and its text.
pub record IoError : Type 0 where
  pub is_not_found : Bool
  pub message : String

-- What the transaction calls: the directory, the one file, and the upload of it.
pub record SpoolFiles (F : Type 0) : Type 0 where
  pub create_directory : F → Result IoError Unit × F
  pub open_new : F → Result IoError Unit × F
  pub write_all : List ℕ → F → Result IoError Unit × F
  pub flush_file : F → Result IoError Unit × F
  pub sync_all : F → Result IoError Unit × F
  pub remove_path : F → Result IoError Unit × F
  pub upload_file : ℕ → F → Result TransactionError StoredObjectMeta × F
  pub sha256 : List ℕ → String

pub record CompatibilitySpoolTransaction : Type 0 where
  pub max_object_bytes : ℕ
  pub file_open : Bool
  pub bytes : ℕ
  pub reserved_bytes : ℕ
  pub hashed : List ℕ
  pub output_verified : Bool
  pub commit_started : Bool
  pub finished : Bool

pub record Spooling (F : Type 0) : Type 0 where
  pub spool : CompatibilitySpoolTransaction
  pub quota : SpoolQuota
  pub files : F

-- `reserve_bytes` where no other thread gets in between.
unfoldable pub reserve_bytes : ℕ → SpoolQuota → Result TransactionError Unit × SpoolQuota
reserve_bytes bytes q =
    if leb u64_mod (q.reserved_bytes + bytes)
    then (err (spool_error "spool quota overflow"), q)
    else if ltb q.max_bytes (q.reserved_bytes + bytes)
    then (err capacity_exceeded, q)
    else (ok tt, record q { reserved_bytes = q.reserved_bytes + bytes })

unfoldable pub spool_state : CompatibilitySpoolTransaction → SinkCommitState
spool_state s =
    if s.finished
    then SinkCommitState.committed
    else if s.commit_started
    then commit_unknown
    else pre_commit

module _ {F : Type 0} (files : SpoolFiles F) where
  unfoldable pub with_spool :
      {A : Type 0} → (CompatibilitySpoolTransaction → Act (Spooling F) A) → Act (Spooling F) A
  with_spool f x = f x.spool x

  unfoldable pub assign :
      (CompatibilitySpoolTransaction → CompatibilitySpoolTransaction) → Act (Spooling F) Unit
  assign f x = (ok tt, record x { spool = f x.spool })

  -- A call of the file system whose error ends the method.
  unfoldable pub on_files : (F → Result IoError Unit × F) → Act (Spooling F) Unit
  on_files f x =
      let (r, g) = f x.files in (map_err (λ e. spool_error e.message) r, record x { files = g })

  unfoldable pub upload : ℕ → Act (Spooling F) StoredObjectMeta
  upload bytes x = let (r, g) = files.upload_file bytes x.files in (r, record x { files = g })

  unfoldable pub removed_answer : Result IoError Unit → Result TransactionError Unit
  removed_answer (ok _) = ok tt
  removed_answer (err e) = if e.is_not_found then ok tt else err (spool_error e.message)

  unfoldable pub remove_file : Act (Spooling F) Unit
  unfolding removed_answer
  remove_file x =
      let (r, g) = files.remove_path x.files in
      (removed_answer r, record x { spool = record x.spool { file_open = false }; files = g })

  -- The reservation is given back, and the transaction is at its end.
  unfoldable pub close_spool : Act (Spooling F) Unit
  unfolding release_bytes
  close_spool x = (
    ok tt,
    record x {
      quota = release_bytes x.spool.reserved_bytes x.quota;
      spool = record x.spool { reserved_bytes = 0; bytes = 0; finished = true };
    },
  )

  unfoldable pub file_or_finished : Bool → Act (Spooling F) Unit
  file_or_finished is_open = if is_open then pure tt else raise finished_error

  unfoldable pub write_spool : List ℕ → Act (Spooling F) Unit
  unfolding with_spool file_or_finished on_files assign
  write_spool chunk = with_spool λ s.
      if s.finished
      then raise finished_error
      else if leb u64_mod (s.bytes + length chunk)
      then raise (spool_error "spool size overflow")
      else if ltb s.max_object_bytes (s.bytes + length chunk)
      then raise capacity_exceeded
      else do
        file_or_finished s.file_open
        on_files (files.write_all chunk)
        assign (λ t. record t {
          bytes = s.bytes + length chunk;
          hashed = t.hashed ++ chunk;
          output_verified = false;
        })

  unfoldable pub verify_spool : ℕ → String → Act (Spooling F) Unit
  unfolding with_spool assign
  verify_spool expected_size expected_sha256 = with_spool λ s.
      if not (eqb s.bytes expected_size) || not (files.sha256 s.hashed == expected_sha256)
      then raise output_mismatch
      else assign (λ t. record t { output_verified = true })

  unfoldable pub complete_spool : Act (Spooling F) StoredObjectMeta
  unfolding with_spool file_or_finished on_files assign upload remove_file close_spool
  complete_spool = with_spool λ s.
      if s.finished
      then raise finished_error
      else if not s.output_verified
      then raise output_mismatch
      else do
        file_or_finished s.file_open
        on_files files.flush_file
        on_files files.sync_all
        assign (λ t. record t { commit_started = true })
        result ← upload s.bytes
        remove_file
        close_spool
        pure result

  unfoldable pub abort_spool : Act (Spooling F) Unit
  unfolding with_spool remove_file close_spool
  abort_spool = with_spool (λ s. if s.finished then pure tt else (do remove_file; close_spool))

  -- `drop`: whatever becomes of the file.
  unfoldable pub drop_spool : Spooling F → Spooling F
  unfolding release_bytes
  drop_spool x = if x.spool.finished then x else record x {
    quota = release_bytes x.spool.reserved_bytes x.quota;
    spool = record x.spool { file_open = false; reserved_bytes = 0; bytes = 0 };
    files = (files.remove_path x.files).1;
  }

abbrev pub new_spool : ℕ → CompatibilitySpoolTransaction
new_spool max_object_bytes = record {
  max_object_bytes = max_object_bytes;
  file_open = true;
  bytes = 0;
  reserved_bytes = max_object_bytes;
  hashed = [];
  output_verified = false;
  commit_started = false;
  finished = false;
}

-- What `begin` returns, with the quota and the file system after it.
abbrev pub Begun : Type 0 → Type 0
Begun F = Result TransactionError CompatibilitySpoolTransaction × SpoolQuota × F

module _ {F : Type 0} (files : SpoolFiles F) (max_object_bytes : ℕ) where
  unfoldable pub file_opened : Result IoError Unit → SpoolQuota → F → Begun F
  unfolding release_bytes
  file_opened (err e) q g = (err (spool_error e.message), release_bytes max_object_bytes q, g)
  file_opened (ok _) q g = (ok (new_spool max_object_bytes), q, g)

  unfoldable pub directory_made : Result IoError Unit → SpoolQuota → F → Begun F
  unfolding release_bytes file_opened
  directory_made (err e) q g = (err (spool_error e.message), release_bytes max_object_bytes q, g)
  directory_made (ok _) q g = let (r, h) = files.open_new g in file_opened r q h

  unfoldable pub bytes_reserved : Result TransactionError Unit → SpoolQuota → F → Begun F
  unfolding directory_made
  bytes_reserved (err e) q g = (err e, q, g)
  bytes_reserved (ok _) q g = let (r, h) = files.create_directory g in directory_made r q h

  unfoldable pub begin_spool : SpoolQuota → F → Begun F
  unfolding bytes_reserved reserve_bytes
  begin_spool q g =
      if eqb max_object_bytes 0 || ltb q.max_bytes max_object_bytes
      then (err (spool_error "invalid compatibility spool object limit"), q, g)
      else let (r, p) = reserve_bytes max_object_bytes q in bytes_reserved r p g
