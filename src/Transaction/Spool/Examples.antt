-- ===== src/Transaction/Spool/Examples.antt =====
-- The theorems about the spool on a file system that does what it is asked.
use s.Transaction.Spool.Returned.{spool_returns}
use s.Prelude.{List, [], arith, none, ok, refl, some, true, ◌∷◌, ◌≡◌, nat_eq, string_eq}
use s.Transaction.Sink.Safety.{SinkCall, complete_call, verify_call, write_call}
use s.Transaction.Spool.{
  SpoolFiles, begin_spool, bytes_reserved, directory_made, drop_spool, file_opened, new_spool,
  reserve_bytes,
}
use s.Transaction.Quota.{SpoolQuota}
use s.Transaction.Operation.{StoredObjectMeta}
use s.Transaction.Spool.Accounts.{after_spools}

abbrev stored_file : StoredObjectMeta
stored_file = record {
  etag = some "e";
  version_id = none;
  superseded_version_ids = [];
  version_history_complete = true;
}

abbrev willing : SpoolFiles Unit
willing = record {
  create_directory = λ f. (ok tt, f);
  open_new = λ f. (ok tt, f);
  write_all = λ bytes f. (ok tt, f);
  flush_file = λ f. (ok tt, f);
  sync_all = λ f. (ok tt, f);
  remove_path = λ f. (ok tt, f);
  upload_file = λ size f. (ok stored_file, f);
  sha256 = λ bytes. "digest";
}

-- Four bytes are reserved by another spool.
abbrev shared_quota : SpoolQuota
shared_quota = record { max_bytes = 16; reserved_bytes = 4 }

abbrev three_calls : List SinkCall
three_calls = write_call (1 ∷ 2 ∷ []) ∷ verify_call 2 "digest" ∷ complete_call ∷ []

spool_returns_example :
    (drop_spool willing (
      after_spools willing three_calls (record {
        spool = new_spool 8;
        quota = record shared_quota { reserved_bytes = 12 };
        files = tt;
      }))).quota.reserved_bytes
    ≡ 4
unfolding begin_spool bytes_reserved directory_made file_opened reserve_bytes
spool_returns_example =
    spool_returns willing 8 three_calls shared_quota (record shared_quota { reserved_bytes = 12 })
      tt tt (new_spool 8) (omega arith, omega arith) refl
