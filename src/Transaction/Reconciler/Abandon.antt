-- ===== src/Transaction/Reconciler/Abandon.antt =====
-- The recovery of an operation whose completion was never sent (transaction/mod.rs, `reconcile`).
use s.Transaction.Reconciler.Steps.{
  >>-eq-ok, Asked, Asked-trans, on_backend_ok, pure_ok, move_ok, note_ok,
}
use s.Transaction.Backend.{
  >>=-eq-ok, DiscoveredUpload, Machine, Request, Surroundings, aborted, discovered, ◌>>◌,
}
use s.Prelude.{
  Bool, List, Option, String, [], ap, append-nil, false, map, none, ok, some, sym, true, ◌++◌, ◌∙◌,
  ◌∷◌, ◌≡◌, nat_eq, string_eq, append_assoc,
}
use s.Transaction.Reconciler.{
  OperationReconciler, abort_discovered, abort_upload, discover, abort_each, move, reconcile,
  abort_known, reconcile_state,
}
use s.Transaction.Operation.{OperationRecord}
use s.Transaction.State.{
  OperationState, aborting, intent, opened, commit_unknown, committed, completing, proven_aborted,
}
use s.Prelude.Table.{lookup}

abbrev pub abort_request : DiscoveredUpload → Request
abort_request u = aborted u.upload_id

abbrev known_request : Option String → List Request
known_request none = []
known_request (some id) = aborted id ∷ []

-- In `Intent` no upload is on record yet.
abbrev pub known_requests : OperationState → Option String → List Request
known_requests intent upload = []
known_requests _ upload = known_request upload

-- No completion was sent and no outcome is proven.
abbrev pub is_abandoned : OperationState → Bool
is_abandoned intent = true
is_abandoned opened = true
is_abandoned aborting = true
is_abandoned _ = false

module _ {W : Type 0} (env : Surroundings) (r : OperationReconciler W) where
  abort_each_ok :
      (a : OperationRecord) (us : List DiscoveredUpload) (m n : Machine W)
      → abort_each env r a us m ≡ (ok tt, n)
      → Asked m n (map abort_request us)
  unfolding abort_each
  abort_each_ok a [] m n h =
      let same = (pure_ok tt tt m n h).1 in
      record {
        same_journal = ap (λ x. x.journal) (sym same);
        asked_requests = ap (λ x. x.requests) (sym same) ∙ sym (append-nil m.requests);
      }
  abort_each_ok a (u ∷ us) m n h =
      let (k, e, f) = >>-eq-ok _ _ m n tt h in
      Asked-trans m k n (aborted u.upload_id ∷ []) (map abort_request us)
        (unfold abort_upload in
          on_backend_ok (λ _. aborted u.upload_id) (r.backend.abort_multipart a u.upload_id) tt m k
            e)
        (abort_each_ok a us k n f)

  abort_discovered_ok :
      (a : OperationRecord) (m n : Machine W)
      → abort_discovered env r a m ≡ (ok tt, n)
      → (us : List DiscoveredUpload) × Asked m n (discovered us ∷ map abort_request us)
  unfolding abort_discovered discover
  abort_discovered_ok a m n h =
      let (us, k, e, f) = >>=-eq-ok _ _ m n tt h in
      (
        us,
        Asked-trans m k n (discovered us ∷ []) (map abort_request us)
            (on_backend_ok discovered (r.backend.discover_incomplete a) us m k e)
            (abort_each_ok a us k n f),
      )

  abort_known_ok :
      (a : OperationRecord) (o : Option String) (m n : Machine W)
      → abort_known env r a o m ≡ (ok tt, n)
      → Asked m n (known_request o)
  unfolding abort_known abort_upload
  abort_known_ok a none m n h =
      let same = (pure_ok tt tt m n h).1 in
      record {
        same_journal = ap (λ x. x.journal) (sym same);
        asked_requests = ap (λ x. x.requests) (sym same) ∙ sym (append-nil m.requests);
      }
  abort_known_ok a (some id) m n h =
      on_backend_ok (λ _. aborted id) (r.backend.abort_multipart a id) tt m n h

  -- The provider was asked what `asked` says, and the operation is proven aborted.
  abbrev Abandoned : OperationRecord → Machine W → Machine W → List Request → Type 0
  Abandoned a m n asked =
      (b : OperationRecord) × (us : List DiscoveredUpload) × (lookup a.id n.journal.operations
        ≡ some b)
      × (b.state ≡ proven_aborted)
      × (n.requests ≡ m.requests ++ (asked ++ discovered us ∷ map abort_request us))

  finish_ok :
      (a : OperationRecord) (m n : Machine W)
      → (abort_discovered env r a >> move env a.id aborting proven_aborted none) m ≡ (ok tt, n)
      → Abandoned a m n []
  finish_ok a m n h =
      let (k, e, f) = >>-eq-ok _ _ m n tt h in
      let (us, p) = abort_discovered_ok a m k e in
      let q = move_ok env a.id aborting proven_aborted none k n f in
      (q.is, us, q.written, q.is_to, q.same_requests ∙ p.asked_requests)

  known_finish_ok :
      (a : OperationRecord) (m n : Machine W)
      → (abort_known env r a a.upload_id
            >> (abort_discovered env r a >> move env a.id aborting proven_aborted none))
          m
        ≡ (ok tt, n)
      → Abandoned a m n (known_request a.upload_id)
  known_finish_ok a m n h =
      let (k, e, f) = >>-eq-ok _ _ m n tt h in
      let p = abort_known_ok a a.upload_id m k e in
      let (b, us, w, s, q) = finish_ok a k n f in
      (
        b,
        us,
        w,
        s,
        q
            ∙ ap (λ l. l ++ (discovered us ∷ map abort_request us)) p.asked_requests
            ∙ append_assoc m.requests (known_request a.upload_id)
                (discovered us ∷ map abort_request us),
      )

  prepend :
      (a : OperationRecord) (l m n : Machine W) (asked : List Request)
      → m.requests ≡ l.requests
      → Abandoned a m n asked
      → Abandoned a l n asked
  prepend a l m n asked e (b, us, w, s, q) = (b, us, w, s, rw (← e) q)

  reconcile_state_ok :
      (s : OperationState) (a : OperationRecord) (m n : Machine W)
      → is_abandoned s ≡ true
      → reconcile_state env r s a m ≡ (ok tt, n)
      → Abandoned a m n (known_requests s a.upload_id)
  unfolding reconcile_state
  reconcile_state_ok intent a m n y h =
      let (k, e, f) = >>-eq-ok _ _ m n tt h in
      prepend a m k n [] (move_ok env a.id intent aborting none m k e).same_requests
        (finish_ok a k n f)
  reconcile_state_ok opened a m n y h =
      let (k, e, f) = >>-eq-ok _ _ m n tt h in
      prepend a m k n (known_request a.upload_id)
        (move_ok env a.id opened aborting none m k e).same_requests (known_finish_ok a k n f)
  reconcile_state_ok aborting a m n y h = known_finish_ok a m n h
  reconcile_state_ok completing a m n y h = cc
  reconcile_state_ok commit_unknown a m n y h = cc
  reconcile_state_ok committed a m n y h = cc
  reconcile_state_ok proven_aborted a m n y h = cc

  -- A recovery that succeeds, of an operation whose completion was never sent, leaves it proven
  -- aborted; it asked the provider to abort the upload on record (none in `Intent`), then for the
  -- incomplete uploads, and then to abort each of those that it was told of, and nothing else.
  pub reconcile_abandons :
      (a : OperationRecord) (m n : Machine W)
      → is_abandoned a.state ≡ true
      → reconcile env r a m ≡ (ok tt, n)
      → (b : OperationRecord) × (us : List DiscoveredUpload) × (lookup a.id n.journal.operations
          ≡ some b)
        × (b.state ≡ proven_aborted)
        × (n.requests
            ≡ m.requests
              ++ (known_requests a.state a.upload_id ++ discovered us ∷ map abort_request us))
  unfolding reconcile
  reconcile_abandons a m n y h =
      let (k, e, f) = >>-eq-ok _ _ m n tt h in
      prepend a m k n (known_requests a.state a.upload_id)
        (note_ok env a.id "reconcile_started" _ m k e).same_requests
        (reconcile_state_ok a.state a k n y f)
