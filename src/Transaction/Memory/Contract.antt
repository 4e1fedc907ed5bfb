-- ===== src/Transaction/Memory/Contract.antt =====
-- What the in-memory sink promises (transaction/memory.rs, `MemorySinkTransaction`).
use s.Transaction.Memory.{
  StoredObject, InMemory, get_object, abort_memory, call_memory, returned, complete_memory,
  object_key, put, usize_max, verify_memory, write_memory,
}
use s.Prelude.{
  Bool, List, Option, String, [], false, length, not, some, true, ℕ, ◌&&◌, ◌++◌, ◌≡◌, ◌≤◌, nat_eq,
  string_eq, Result, ap, err, if◌then◌else◌, ok, refl, subst, sym, ◌∙◌, eq_iff, eqb, eqb_iff, ltb,
  min, none, ◌+◌, ◌<◌, ◌==◌, ◌||◌, arith, both_hold, length-append,
}
use s.Transaction.Sink.Safety.{SinkCall, abort_call, complete_call, verify_call, write_call}
use s.Transaction.Backend.{TransactionError, capacity_exceeded, finished_error, output_mismatch}
use s.Transaction.Operation.{StoredObjectMeta}
use s.Prelude.Table.{lookup-insert_self}

-- A draft, whether it was checked since its last change, whether it is closed, and what readers see.
pub record Draft : Type 0 where
  pub draft : List ℕ
  pub checked : Bool
  pub closed : Bool
  pub published : Option StoredObject

-- When a call is refused, and with which error. A draft is never refused an abort.
pub data Refused (sha256 : List ℕ → String) (max_bytes : ℕ)
    : Draft → SinkCall → TransactionError → Type 0 where
  write_closed :
      (v : Draft) (chunk : List ℕ)
      → v.closed ≡ true
      → Refused sha256 max_bytes v (write_call chunk) finished_error
  write_too_long :
      (v : Draft) (chunk : List ℕ)
      → v.closed ≡ false
      → max_bytes < length (v.draft ++ chunk)
      → Refused sha256 max_bytes v (write_call chunk) capacity_exceeded
  verify_other :
      (v : Draft) (size : ℕ) (digest : String)
      → (v.closed ≡ false → ¬ ((length v.draft ≡ size) × (sha256 v.draft ≡ digest)))
      → Refused sha256 max_bytes v (verify_call size digest) output_mismatch
  complete_closed :
      (v : Draft) → v.closed ≡ true → Refused sha256 max_bytes v complete_call finished_error
  complete_unchecked :
      (v : Draft)
      → v.closed ≡ false
      → v.checked ≡ false
      → Refused sha256 max_bytes v complete_call output_mismatch

-- What a completion returns of an object published under a tag.
abbrev pub published_meta : String → StoredObjectMeta
published_meta tag = record {
  etag = some tag;
  version_id = none;
  superseded_version_ids = [];
  version_history_complete = true;
}

-- What a call may do to a draft, and what it then returns. Only the completion of a checked draft
-- changes what readers see, and then they see all of the draft.
pub data Promised (sha256 : List ℕ → String) (max_bytes : ℕ) (content_type : String)
    : Draft → SinkCall → Result TransactionError (Option StoredObjectMeta) → Draft → Type 0 where
  declined :
      (v : Draft) (c : SinkCall) (e : TransactionError)
      → Refused sha256 max_bytes v c e
      → Promised sha256 max_bytes content_type v c (err e) v
  closed_verified :
      (v : Draft) (size : ℕ) (digest : String)
      → v.closed ≡ true
      → Promised sha256 max_bytes content_type v (verify_call size digest) (ok none) v
  draft_written :
      (d : List ℕ) (b : Bool) (p : Option StoredObject) (chunk : List ℕ)
      → length (d ++ chunk) ≤ max_bytes
      → Promised sha256 max_bytes content_type
          (record { draft = d; checked = b; closed = false; published = p })
          (write_call chunk)
          (ok none)
          (record { draft = d ++ chunk; checked = false; closed = false; published = p })
  draft_verified :
      (d : List ℕ) (b : Bool) (p : Option StoredObject) (size : ℕ) (digest : String)
      → length d ≡ size
      → sha256 d ≡ digest
      → Promised sha256 max_bytes content_type
          (record { draft = d; checked = b; closed = false; published = p })
          (verify_call size digest)
          (ok none)
          (record { draft = d; checked = true; closed = false; published = p })
  draft_completed :
      (d : List ℕ) (p : Option StoredObject) (tag : String)
      → Promised sha256 max_bytes content_type
          (record { draft = d; checked = true; closed = false; published = p })
          complete_call
          (ok (some (published_meta tag)))
          (record {
            draft = [];
            checked = false;
            closed = true;
            published = some (record { data_bytes = d; content_type = content_type; etag = tag });
          })
  draft_aborted :
      (d : List ℕ) (b e : Bool) (p : Option StoredObject)
      → Promised sha256 max_bytes content_type
          (record { draft = d; checked = b; closed = e; published = p })
          abort_call
          (ok none)
          (record { draft = []; checked = false; closed = true; published = p })

abbrev pub view_of : Bool → Bool → List ℕ → Option StoredObject → Draft
view_of is_closed is_checked d p = record {
  draft = d;
  checked = not is_closed && is_checked;
  closed = is_closed;
  published = p;
}

abbrev pub view : InMemory → Draft
view x =
    view_of x.sink.finished x.sink.output_verified x.sink.buffer
      (get_object x.sink.bucket x.sink.key x.store)

-- While the sink is open, its hasher has seen what its buffer holds.
abbrev pub Hashes : InMemory → Type 0
Hashes x = x.sink.finished ≡ false → x.sink.hashed ≡ x.sink.buffer

module _ (sha256 : List ℕ → String) {m : ℕ} {t : String} where
  wrote_view :
      (f v : Bool) (d : List ℕ) (p : Option StoredObject) (chunk : List ℕ)
      → f ≡ false
      → length (d ++ chunk) ≤ m
      → Promised sha256 m t
          (view_of f v d p)
          (write_call chunk)
          (ok none)
          (view_of f false (d ++ chunk) p)
  wrote_view true v d p chunk e h = cc
  wrote_view false v d p chunk e h = draft_written d v p chunk h

  verified_view :
      (f v : Bool) (d : List ℕ) (p : Option StoredObject) (size : ℕ) (digest : String)
      → length d ≡ size
      → (f ≡ false → sha256 d ≡ digest)
      → Promised sha256 m t
          (view_of f v d p)
          (verify_call size digest)
          (ok none)
          (view_of f true d p)
  verified_view true v d p size digest e h = closed_verified _ size digest refl
  verified_view false v d p size digest e h = draft_verified d v p size digest e (h refl)

  completed_view :
      (f v : Bool) (d : List ℕ) (p q : Option StoredObject) (tag : String)
      → f ≡ false
      → v ≡ true
      → q ≡ some (record { data_bytes = d; content_type = t; etag = tag })
      → Promised sha256 m t
          (view_of f v d p)
          complete_call
          (ok (some (published_meta tag)))
          (view_of true v [] q)
  completed_view true v d p q tag e h k = cc
  completed_view false false d p q tag e h k = cc
  completed_view false true d p q tag e h k =
      subst
        (λ o.
          Promised sha256 m t (view_of false true d p) complete_call
            (ok (some (published_meta tag))) (view_of true true [] o))
        (sym k) (draft_completed d p tag)

module _ (sha256 : List ℕ → String) (new_v4 : ℕ → String) where
  -- The call keeps the promise, and what the hasher has seen.
  abbrev pub Honours :
      SinkCall → InMemory → Result TransactionError (Option StoredObjectMeta) × InMemory → Type 0
  Honours c x r =
      Promised sha256 x.sink.max_bytes x.sink.content_type (view x) c r.0 (view r.1) × Hashes r.1

  write-Honours :
      (f full : Bool) (chunk : List ℕ) (x : InMemory)
      → Hashes x
      → x.sink.finished ≡ f
      → (full ≡ true → x.sink.max_bytes < length (x.sink.buffer ++ chunk))
      → (full ≡ false → length (x.sink.buffer ++ chunk) ≤ x.sink.max_bytes)
      → let r : Result TransactionError Unit × InMemory =
          if f then (err finished_error, x) else if full then (err capacity_exceeded, x) else (
            ok tt,
            record x {
              sink = record x.sink {
                hashed = x.sink.hashed ++ chunk;
                output_verified = false;
                buffer = x.sink.buffer ++ chunk;
              };
            },
          ) in
        Honours (write_call chunk) x (returned (λ u. none) r.0, r.1)
  write-Honours true full chunk x h e a b = (declined _ _ _ (write_closed _ chunk e), h)
  write-Honours false true chunk x h e a b = (declined _ _ _ (write_too_long _ chunk e (a refl)), h)
  write-Honours false false chunk x h e a b = (
    wrote_view sha256 x.sink.finished x.sink.output_verified x.sink.buffer _ chunk e (b refl),
    λ g. ap (λ l. l ++ chunk) (h g),
  )

  verify-Honours :
      (bad : Bool) (size : ℕ) (digest : String) (x : InMemory)
      → Hashes x
      → (bad ≡ true → ¬ ((length x.sink.buffer ≡ size) × (sha256 x.sink.hashed ≡ digest)))
      → (bad ≡ false → (length x.sink.buffer ≡ size) × (sha256 x.sink.hashed ≡ digest))
      → let r : Result TransactionError Unit × InMemory =
          if bad
          then (err output_mismatch, x)
          else (ok tt, record x { sink = record x.sink { output_verified = true } }) in
        Honours (verify_call size digest) x (returned (λ u. none) r.0, r.1)
  verify-Honours true size digest x h o k =
      (declined _ _ _ (verify_other _ size digest (λ f (l, d). o refl (l, ap sha256 (h f) ∙ d))), h)
  verify-Honours false size digest x h o k =
      let (l, d) = k refl in
      (
        verified_view sha256 x.sink.finished x.sink.output_verified x.sink.buffer _ size digest l
            (λ f. ap sha256 (sym (h f)) ∙ d),
        h,
      )

  complete-Honours :
      (f v : Bool) (x : InMemory)
      → Hashes x
      → x.sink.finished ≡ f
      → x.sink.output_verified ≡ v
      → let (stored, store) =
          put (new_v4 x.drawn) x.sink.bucket x.sink.key x.sink.buffer x.sink.content_type x.store in
        let r : Result TransactionError StoredObjectMeta × InMemory =
          if f then (err finished_error, x) else if not v then (err output_mismatch, x) else (
            ok (record {
              etag = some stored.etag;
              version_id = none;
              superseded_version_ids = [];
              version_history_complete = true;
            }),
            record {
              sink = record x.sink { buffer = []; finished = true };
              store = store;
              drawn = x.drawn + 1;
            },
          ) in
        Honours complete_call x (returned some r.0, r.1)
  unfolding put get_object
  complete-Honours true v x h e k = (declined _ _ _ (complete_closed _ e), h)
  complete-Honours false false x h e k =
      (declined _ _ _ (complete_unchecked _ e (ground (arith, e, k))), h)
  complete-Honours false true x h e k = (
    completed_view sha256 x.sink.finished x.sink.output_verified x.sink.buffer _ _ _ e k
        (lookup-insert_self (object_key x.sink.bucket x.sink.key) _ x.store.objects),
    λ q. cc,
  )

  -- A sink below the largest limit, whose hasher has seen what its open buffer holds, keeps its
  -- promise in every call, in what the call returns as in what it does. A call is refused only for a
  -- reason of Refused, with the error named there, and then the view stands; a completion that
  -- succeeds shows all of a draft that was checked since its last change, under the entity tag that it
  -- returns; no other call changes what readers see; an abort always succeeds; a closed draft stays
  -- closed. The hasher has still seen what the open buffer holds.
  pub memory_refines :
      (c : SinkCall) (x : InMemory)
      → x.sink.max_bytes < usize_max
      → Hashes x
      → Honours c x (call_memory sha256 new_v4 c x)
  unfolding call_memory write_memory verify_memory complete_memory abort_memory
  memory_refines (write_call chunk) x m h =
      write-Honours x.sink.finished
        (ltb x.sink.max_bytes (min (length x.sink.buffer + length chunk) usize_max)) chunk x h refl
        (λ b. ground (arith, b, m, length-append x.sink.buffer chunk))
        (λ b. ground (arith, b, m, length-append x.sink.buffer chunk))
  memory_refines (verify_call size digest) x m h =
      verify-Honours (not (eqb (length x.sink.buffer) size) || not (sha256 x.sink.hashed == digest))
        size digest x h
        (λ b (s, t). ground (
          arith,
          b,
          (eqb_iff (length x.sink.buffer) size).1 s,
          (eq_iff (sha256 x.sink.hashed) digest).1 t,
        ))
        (λ b.
          let (s, t) = both_hold (eqb (length x.sink.buffer) size) _ b in
          ((eqb_iff (length x.sink.buffer) size).0 s, (eq_iff (sha256 x.sink.hashed) digest).0 t))
  memory_refines complete_call x m h =
      complete-Honours x.sink.finished x.sink.output_verified x h refl refl
  memory_refines abort_call x m h = (
    draft_aborted x.sink.buffer (not x.sink.finished && x.sink.output_verified) x.sink.finished _,
    λ q. cc,
  )
