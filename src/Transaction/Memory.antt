-- ===== src/Transaction/Memory.antt =====
-- The in-memory object store and the sink that publishes into it (store.rs, `MemoryStore`;
-- transaction/memory.rs, `MemorySinkTransaction`). The hasher is the bytes that it was fed.
pub mod Contract
mod Examples
use Prim.Native.String.{◌++◌ as str_append}
use s.Transaction.State.{committed}
use s.Transaction.Backend.{
  Act, TransactionError, capacity_exceeded, finished_error, output_mismatch,
}
use s.Prelude.{
  Bool, List, Option, Result, String, [], eqb, err, false, if◌then◌else◌, length, ltb, min, none,
  not, ok, some, true, ℕ, ◌++◌, ◌+◌, ◌/◌, ◌==◌, ◌||◌, nat_eq, string_eq,
}
use s.Transaction.Sink.Safety.{SinkCall, abort_call, complete_call, verify_call, write_call}
use s.Transaction.Sink.{SinkCommitState, pre_commit}
use s.Transaction.Operation.{StoredObjectMeta}
use s.Prelude.Table.{insert, lookup}
use s.Transaction.Json.{object}

pub record StoredObject : Type 0 where
  pub data_bytes : List ℕ
  pub content_type : String
  pub etag : String

pub record MemoryStore : Type 0 where
  pub objects : List (String × StoredObject)

-- `format!("{}/{}", bucket, key)`
abbrev pub object_key : String → String → String
object_key bucket key = str_append bucket (str_append "/" key)

-- `put`; `drawn` is the text of what `Uuid::new_v4` returned.
unfoldable pub put :
    String → String → String → List ℕ → String → MemoryStore → StoredObject × MemoryStore
put drawn bucket key bytes content_type store =
    let stored : StoredObject = record {
      data_bytes = bytes;
      content_type = content_type;
      etag = str_append "\"" (str_append drawn "\"");
    } in
    (stored, record { objects = insert (object_key bucket key) stored store.objects })

unfoldable pub get_object : String → String → MemoryStore → Option StoredObject
get_object bucket key store = lookup (object_key bucket key) store.objects

pub record MemorySinkTransaction : Type 0 where
  pub bucket : String
  pub key : String
  pub content_type : String
  pub max_bytes : ℕ
  pub buffer : List ℕ
  pub hashed : List ℕ
  pub output_verified : Bool
  pub finished : Bool

-- The sink with the store that it shares, and how many ids were drawn.
pub record InMemory : Type 0 where
  pub sink : MemorySinkTransaction
  pub store : MemoryStore
  pub drawn : ℕ

unfoldable pub new_memory_sink :
    String → String → String → ℕ → Result TransactionError MemorySinkTransaction
new_memory_sink bucket key content_type max_bytes =
    if eqb max_bytes 0
    then err output_mismatch
    else ok (record {
      bucket = bucket;
      key = key;
      content_type = content_type;
      max_bytes = max_bytes;
      buffer = [];
      hashed = [];
      output_verified = false;
      finished = false;
    })

unfoldable pub memory_state : MemorySinkTransaction → SinkCommitState
memory_state s = if s.finished then SinkCommitState.committed else pre_commit

abbrev pub usize_max : ℕ
usize_max = 18_446_744_073_709_551_615

unfoldable pub write_memory : List ℕ → Act InMemory Unit
write_memory chunk x =
    if x.sink.finished
    then (err finished_error, x)
    else if ltb x.sink.max_bytes (min (length x.sink.buffer + length chunk) usize_max)
    then (err capacity_exceeded, x)
    else (
      ok tt,
      record x {
        sink = record x.sink {
          hashed = x.sink.hashed ++ chunk;
          output_verified = false;
          buffer = x.sink.buffer ++ chunk;
        };
      },
    )

unfoldable pub abort_memory : Act InMemory Unit
abort_memory x = (ok tt, record x { sink = record x.sink { buffer = []; finished = true } })

abbrev pub returned :
    {A : Type 0}
    → (A → Option StoredObjectMeta)
    → Result TransactionError A
    → Result TransactionError (Option StoredObjectMeta)
returned f (ok a) = ok (f a)
returned f (err e) = err e

module _ (sha256 : List ℕ → String) (new_v4 : ℕ → String) where
  unfoldable pub verify_memory : ℕ → String → Act InMemory Unit
  verify_memory expected_size expected_sha256 x =
      if not (eqb (length x.sink.buffer) expected_size)
        || not (sha256 x.sink.hashed == expected_sha256)
      then (err output_mismatch, x)
      else (ok tt, record x { sink = record x.sink { output_verified = true } })

  unfoldable pub complete_memory : Act InMemory StoredObjectMeta
  unfolding put
  complete_memory x =
      if x.sink.finished
      then (err finished_error, x)
      else if not x.sink.output_verified
      then (err output_mismatch, x)
      else let (stored, store) =
          put (new_v4 x.drawn) x.sink.bucket x.sink.key x.sink.buffer x.sink.content_type x.store in
        (
          ok (record {
            etag = some stored.etag;
            version_id = none;
            superseded_version_ids = [];
            version_history_complete = true;
          }),
          record {
            sink = record x.sink { buffer = []; finished = true };
            store = store;
            drawn = x.drawn + 1;
          },
        )

  -- A call, with what a completion returns.
  unfoldable pub call_memory : SinkCall → Act InMemory (Option StoredObjectMeta)
  unfolding write_memory verify_memory complete_memory abort_memory
  call_memory (write_call chunk) x = let r = write_memory chunk x in (returned (λ u. none) r.0, r.1)
  call_memory (verify_call size digest) x =
      let r = verify_memory size digest x in (returned (λ u. none) r.0, r.1)
  call_memory complete_call x = let r = complete_memory x in (returned some r.0, r.1)
  call_memory abort_call x = let r = abort_memory x in (returned (λ u. none) r.0, r.1)
