-- ===== src/Transaction/Rows/RoundTrip.antt =====
-- A new operation is read back from its row (transaction/journal.rs, `operation_from_model`).
use s.Transaction.State.{same_state_iff, as_str, parse}
use s.Prelude.{
  ◌>>=◌, Bool, List, Option, Result, String, ap, err, false, if◌then◌else◌, ltb, none, ok, refl,
  some, subst, true, ℕ, ◌≡◌, nat_eq, string_eq, not, map_err,
}
use s.Transaction.Journal.{JournalError, corrupt}
use s.Transaction.Rows.{
  JsonValues, to_i64, to_u64, transposed, Row, binding_from, committed_from, inserted_row,
  operation_from_model, map_option,
}
use s.Prelude.Int.{pos, ℤ}
use s.Transaction.Operation.{OperationRecord, WorkspaceDestinationBinding}
use s.Transaction.State.{intent, same_state}

-- What is read of what is written: the JSON of metadata, as serde_json documents.
pub record FaithfulJson {V : Type 0} (json : JsonValues V) : Type 0 where
  pub reads :
      (l : List (String × String)) (v : V)
      → json.metadata_value l ≡ ok v
      → json.value_metadata v ≡ ok l

bind_ok :
    {E A B : Type 0} (r : Result E A) (f : A → Result E B) (b : B)
    → (r >>= f) ≡ ok b
    → (a : A) × (r ≡ ok a) × (f a ≡ ok b)
bind_ok (ok a) f b h = (a, refl, h)
bind_ok (err e) f b h = cc

-- A number that fits is read back.
to_i64-back : (e d : JournalError) (n : ℕ) (z : ℤ) → to_i64 e n ≡ ok z → to_u64 d z ≡ ok n
unfolding to_i64 to_u64
to_i64-back e d n z h = converted (ltb n 9_223_372_036_854_775_808) h
  where
    converted : (b : Bool) → (if b then ok (pos n) else err e) ≡ ok z → to_u64 d z ≡ ok n
    converted true h = let same : pos n ≡ z = cc in subst (λ y. to_u64 d y ≡ ok n) same refl
    converted false h = cc

transposed-back :
    (e d : JournalError) (o : Option ℕ) (p : Option ℤ)
    → transposed (to_i64 e) o ≡ ok p
    → transposed (to_u64 d) p ≡ ok o
unfolding transposed
transposed-back e d none p h =
    let same : none ≡ p = cc in subst (λ o. transposed (to_u64 d) o ≡ ok none) same refl
transposed-back e d (some n) p h =
    let (z, u, v) = bind_ok (to_i64 e n) (λ b. ok (some b)) p h in
    let same : some z ≡ p = cc in
    subst (λ o. transposed (to_u64 d) o ≡ ok (some n)) same
      (ap (λ r. r >>= (λ b. ok (some b))) (to_i64-back e d n z u))

binding-back :
    (o : Option WorkspaceDestinationBinding) (e d : JournalError) (p q : Option ℤ)
    → transposed (λ (b : WorkspaceDestinationBinding). to_i64 e b.routing_epoch) o ≡ ok p
    → transposed (λ (b : WorkspaceDestinationBinding). to_i64 d b.routing_fencing_token) o ≡ ok q
    → binding_from
        (map_option (λ b. b.backend_config_version) o)
        (map_option (λ b. b.capability_attestation_id) o)
        p
        (map_option (λ b. b.routing_lease_id) o)
        q
      ≡ ok o
unfolding transposed binding_from
binding-back none e d p q h k =
    let s : none ≡ p = cc in
    let t : none ≡ q = cc in
    subst (λ o. binding_from none none o none q ≡ ok none) s
      (subst (λ o. binding_from none none none none o ≡ ok none) t refl)
binding-back (some b) e d p q h k =
    let (z, u, v) = bind_ok (to_i64 e b.routing_epoch) (λ n. ok (some n)) p h in
    let (y, w, x) = bind_ok (to_i64 d b.routing_fencing_token) (λ n. ok (some n)) q k in
    let s : some z ≡ p = cc in
    let t : some y ≡ q = cc in
    subst
      (λ o.
        binding_from (some b.backend_config_version) (some b.capability_attestation_id) o
          (some b.routing_lease_id) q
        ≡ ok (some b))
      s
      (subst
        (λ o.
          binding_from (some b.backend_config_version) (some b.capability_attestation_id) (some z)
            (some b.routing_lease_id) o
          ≡ ok (some b))
        t
        (rw
          (
            to_i64-back e (corrupt "negative routing epoch") b.routing_epoch z u,
            to_i64-back d (corrupt "negative routing fencing token") b.routing_fencing_token y w,
          )
          refl))

unmapped : {E F A : Type 0} (f : E → F) (r : Result E A) (a : A) → map_err f r ≡ ok a → r ≡ ok a
unmapped f (ok x) a h = cc
unmapped f (err x) a h = cc

guarded :
    {E A : Type 0} (b : Bool) (e : E) (r : Result E A) (x : A)
    → (if not b then err e else r) ≡ ok x
    → (b ≡ true) × (r ≡ ok x)
guarded true e r x h = (refl, h)
guarded false e r x h = cc

module _ {V : Type 0} (json : JsonValues V) where
  -- Where the metadata of any operation is read back from its JSON, an operation that is written
  -- as a new row is read back as it was: with its state, its numbers, its metadata and its
  -- workspace binding, and without an upload, a result or a lease.
  pub inserted_reads_back :
      (a : OperationRecord) (row : Row V)
      → FaithfulJson json
      → inserted_row json a ≡ ok row
      → operation_from_model json row
        ≡ ok (record a {
          upload_id = none;
          committed = none;
          lease_owner = none;
          lease_expires_at_ms = none;
        })
  unfolding inserted_row operation_from_model committed_from parse as_str
  inserted_reads_back a row b h =
      let (g, e1) = guarded (same_state a.state intent) _ _ row h in
      let (size, u1, e2) = bind_ok _ _ row e1 in
      let (v, u2, e3) = bind_ok _ _ row e2 in
      let (epoch, u3, e4) = bind_ok _ _ row e3 in
      let (routing, u4, e5) = bind_ok _ _ row e4 in
      let (token, u5, e6) = bind_ok _ _ row e5 in
      let size_back =
        transposed-back _ (corrupt "negative expected object size") a.expected.size size u1 in
      let epoch_back =
        transposed-back _ (corrupt "negative namespace epoch") a.namespace_epoch epoch u3 in
      let metadata_back = b.reads a.expected.metadata v (unmapped corrupt _ v u2) in
      let bound = binding-back a.destination.workspace_binding _ _ routing token u4 u5 in
      let fresh = (same_state_iff a.state intent).0 g in
      subst
        (λ (r : Result JournalError (Row V)).
          (r >>= operation_from_model json)
          ≡ ok (record a {
            upload_id = none;
            committed = none;
            lease_owner = none;
            lease_expires_at_ms = none;
          }))
        e6 (rw (size_back, metadata_back, epoch_back, bound, fresh) refl)
