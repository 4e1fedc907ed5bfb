-- ===== src/Transaction/Reconciler/Examples.antt =====
-- The theorems about recovery on a concrete provider.
use s.Transaction.Fixtures.{opened_op, unknown_op, provider, surroundings}
use s.Transaction.Backend.{DiscoveredUpload, Machine, discovered, pure, ◌>>=◌, ◌>>◌}
use s.Transaction.Operation.{OperationRecord}
use s.Transaction.Reconciler.{
  OperationReconciler, reconcile, abort_discovered, abort_upload, discover, move, note, on_backend,
  on_journal, reconcile_unknown, reconcile_state, abort_known, abort_each,
}
use s.Prelude.{[], refl, some, true, ◌∷◌, ◌≡◌, nat_eq, string_eq, List, map, ◌++◌}
use s.Transaction.State.{opened, can_transition_to, proven_aborted}
use s.Prelude.Int.{pos}
use s.Transaction.Journal.{append_evidence, transition}
use s.Prelude.Table.{insert, lookup}
use s.Transaction.Reconciler.Abandon.{reconcile_abandons, abort_request, known_requests}

abbrev reconciler : OperationReconciler Unit
reconciler = record {
  backend = provider;
  owner = "worker";
  lease_ms = pos 30_000;
  exact_absence_confirmation_delay_ms = pos 5_000;
}

abbrev machine : Machine Unit
machine = record {
  journal = record {
    operations = (7, opened_op) ∷ (9, unknown_op) ∷ [];
    parts = [];
    evidence = [];
    fail_committed_transitions = 0;
    fail_evidence_appends = 0;
    durable_for_test = true;
  };
  world = tt;
  readings = 0;
  requests = [];
}

abbrev after_abandon : Machine Unit
after_abandon = (reconcile surroundings reconciler opened_op machine).1

reconcile_abandons_example :
    (b : OperationRecord) × (us : List DiscoveredUpload) × (lookup 7
        after_abandon.journal.operations
      ≡ some b)
    × (b.state ≡ proven_aborted)
    × (after_abandon.requests
        ≡ known_requests opened (some "u1") ++ discovered us ∷ map abort_request us)
unfolding reconcile ◌>>◌ ◌>>=◌ note append_evidence reconcile_state move on_journal transition
    can_transition_to lookup insert abort_known abort_upload on_backend abort_discovered discover
    abort_each pure
reconcile_abandons_example =
    reconcile_abandons surroundings reconciler opened_op machine after_abandon refl refl

abbrev after_settling : Machine Unit
after_settling = (reconcile_unknown surroundings reconciler unknown_op machine).1
