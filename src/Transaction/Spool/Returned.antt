-- ===== src/Transaction/Spool/Returned.antt =====
-- What the quota counts once a spool is dropped (transaction/spool.rs, `begin`, `drop`).
use s.Transaction.Quota.{release_bytes, SpoolQuota}
use s.Transaction.Quota.Bounds.{Balanced, release-Balanced}
use s.Prelude.{
  Bool, List, Result, arith, eqb, err, false, if◌then◌else◌, leb, ltb, ok, refl, subst, true, ℕ,
  ◌+◌, ◌<◌, ◌||◌, ◌≡◌, ◌≤◌, nat_eq, string_eq,
}
use s.Transaction.Spool.{
  CompatibilitySpoolTransaction, IoError, SpoolFiles, Spooling, begin_spool, bytes_reserved,
  directory_made, drop_spool, file_opened, new_spool, reserve_bytes,
}
use s.Transaction.Sink.Safety.{SinkCall}
use s.Transaction.Backend.{TransactionError, capacity_exceeded, spool_error}
use s.Transaction.Spool.Accounts.{after_spools, Accounts, after_spools-Accounts}
use s.Transaction.Sink.Upload.{u64_mod}

module _ {F : Type 0} (files : SpoolFiles F) where
  drop_spool-returns :
      (m o : ℕ) (x : Spooling F) → Accounts m o x → (drop_spool files x).quota.reserved_bytes ≡ o
  unfolding drop_spool
  drop_spool-returns m o x a = dropped x.spool.finished refl
    where
      dropped :
          (f : Bool)
          → x.spool.finished ≡ f
          → let y : Spooling F = if f then x else record x {
            quota = release_bytes x.spool.reserved_bytes x.quota;
            spool = record x.spool { file_open = false; reserved_bytes = 0; bytes = 0 };
            files = (files.remove_path x.files).1;
          } in
            y.quota.reserved_bytes ≡ o
      dropped true e = omega (arith, a.balanced.all_held, a.at_end e)
      dropped false e =
          omega (arith, (release-Balanced m o x.spool.reserved_bytes x.quota a.balanced).all_held)

  module _ (max_object_bytes : ℕ) where
    file_opened_ok :
        (r : Result IoError Unit) (q p : SpoolQuota) (f g : F) (s : CompatibilitySpoolTransaction)
        → file_opened files max_object_bytes r q f ≡ (ok s, p, g)
        → (new_spool max_object_bytes ≡ s) × (q ≡ p)
    unfolding file_opened
    file_opened_ok (ok u) q p f g s e = (cc, cc)
    file_opened_ok (err x) q p f g s e = cc

    directory_made_ok :
        (r : Result IoError Unit) (q p : SpoolQuota) (f g : F) (s : CompatibilitySpoolTransaction)
        → directory_made files max_object_bytes r q f ≡ (ok s, p, g)
        → (new_spool max_object_bytes ≡ s) × (q ≡ p)
    unfolding directory_made
    directory_made_ok (ok u) q p f g s e =
        file_opened_ok (files.open_new f).0 q p (files.open_new f).1 g s e
    directory_made_ok (err x) q p f g s e = cc

    bytes_reserved_ok :
        (r : Result TransactionError Unit) (q p : SpoolQuota) (f g : F)
        (s : CompatibilitySpoolTransaction)
        → bytes_reserved files max_object_bytes r q f ≡ (ok s, p, g)
        → (r ≡ ok tt) × (new_spool max_object_bytes ≡ s) × (q ≡ p)
    unfolding bytes_reserved
    bytes_reserved_ok (ok u) q p f g s e =
        let (a, b) =
          directory_made_ok (files.create_directory f).0 q p (files.create_directory f).1 g s e in
        (refl, a, b)
    bytes_reserved_ok (err x) q p f g s e = cc

    -- Of a quota that keeps its bounds.
    abbrev InBounds : SpoolQuota → Type 0
    InBounds q = (q.reserved_bytes ≤ q.max_bytes) × (q.max_bytes < u64_mod)

    reserve_bytes-Balanced :
        (q : SpoolQuota)
        → InBounds q
        → (reserve_bytes max_object_bytes q).0 ≡ ok tt
        → Balanced q.max_bytes max_object_bytes q.reserved_bytes
            (reserve_bytes max_object_bytes q).1
    unfolding reserve_bytes
    reserve_bytes-Balanced q h e =
        granted (leb u64_mod (q.reserved_bytes + max_object_bytes))
          (ltb q.max_bytes (q.reserved_bytes + max_object_bytes)) (λ k. ground (arith, k)) e
      where
        granted :
            (over full : Bool)
            → (full ≡ false → q.reserved_bytes + max_object_bytes ≤ q.max_bytes)
            → let r : Result TransactionError Unit × SpoolQuota =
                if over
                then (err (spool_error "spool quota overflow"), q)
                else if full
                then (err capacity_exceeded, q)
                else (ok tt, record q { reserved_bytes = q.reserved_bytes + max_object_bytes }) in
              r.0 ≡ ok tt → Balanced q.max_bytes max_object_bytes q.reserved_bytes r.1
        granted true full k e = cc
        granted false true k e = cc
        granted false false k e = record {
          same_max = refl;
          all_held = omega arith;
          in_quota = k refl;
          in_word = h.1;
        }

    begin_spool-Accounts :
        (q p : SpoolQuota) (f g : F) (s : CompatibilitySpoolTransaction)
        → InBounds q
        → begin_spool files max_object_bytes q f ≡ (ok s, p, g)
        → Accounts q.max_bytes q.reserved_bytes (record { spool = s; quota = p; files = g })
    unfolding begin_spool
    begin_spool-Accounts q p f g s h e =
        begun (eqb max_object_bytes 0 || ltb q.max_bytes max_object_bytes) e
      where
        begun :
            (bad : Bool)
            → (if bad
                then (err (spool_error "invalid compatibility spool object limit"), q, f)
                else bytes_reserved files max_object_bytes
                    (reserve_bytes max_object_bytes q).0
                    (reserve_bytes max_object_bytes q).1
                    f)
              ≡ (ok s, p, g)
            → Accounts q.max_bytes q.reserved_bytes (record { spool = s; quota = p; files = g })
        begun true e = cc
        begun false e =
            let (r, n, same) =
              bytes_reserved_ok (reserve_bytes max_object_bytes q).0
                (reserve_bytes max_object_bytes q).1 p f g s e in
            subst
              (λ t.
                Accounts q.max_bytes q.reserved_bytes (record { spool = t; quota = p; files = g }))
              n
              (record {
                balanced =
                    subst (λ k. Balanced q.max_bytes max_object_bytes q.reserved_bytes k) same
                      (reserve_bytes-Balanced q h r);
                at_end = λ z. cc;
              })

    -- A spool that was begun on a quota in its bounds gives back what it reserved, and only once:
    -- after any calls, whether they succeed or not and whatever the file system and the uploader
    -- answer, the quota counts what it counted before when the spool is dropped.
    pub spool_returns :
        (cs : List SinkCall) (q p : SpoolQuota) (f g : F) (s : CompatibilitySpoolTransaction)
        → InBounds q
        → begin_spool files max_object_bytes q f ≡ (ok s, p, g)
        → (drop_spool files (
            after_spools files cs
              (record { spool = s; quota = p; files = g }))).quota.reserved_bytes
          ≡ q.reserved_bytes
    spool_returns cs q p f g s h e = drop_spool-returns q.max_bytes q.reserved_bytes _ (
        after_spools-Accounts files cs q.max_bytes q.reserved_bytes _
          (begin_spool-Accounts q p f g s h e))
