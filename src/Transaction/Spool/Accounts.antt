-- ===== src/Transaction/Spool/Accounts.antt =====
-- The reservation of a spool is given back, and once (transaction/spool.rs,
-- `CompatibilitySpoolTransaction`).
use s.Transaction.Backend.{
  ◌>>=◌, ◌>>◌, >>=-keeps, Act, TransactionError, finished_error, pure, raise,
}
use s.Transaction.Quota.Bounds.{Balanced, release-Balanced}
use s.Prelude.{
  Bool, List, Result, String, [], eqb, false, if◌then◌else◌, leb, length, ltb, not, refl, subst,
  sym, true, ℕ, ◌+◌, ◌==◌, ◌||◌, ◌∙◌, ◌∷◌, ◌≡◌, nat_eq, string_eq,
}
use s.Transaction.Spool.{
  CompatibilitySpoolTransaction, IoError, SpoolFiles, Spooling, abort_spool, assign, close_spool,
  complete_spool, file_or_finished, on_files, remove_file, upload, verify_spool, with_spool,
  write_spool,
}
use s.Transaction.Sink.Safety.{SinkCall, abort_call, complete_call, verify_call, write_call}
use s.Transaction.Sink.Upload.{u64_mod}

-- The quota counts what the spool has reserved and what others have, and a spool at its end has
-- nothing reserved.
pub record Accounts {F : Type 0} (max_bytes others : ℕ) (x : Spooling F) : Type 0 where
  pub balanced : Balanced max_bytes x.spool.reserved_bytes others x.quota
  pub at_end : x.spool.finished ≡ true → x.spool.reserved_bytes ≡ 0

record Preserves {F A : Type 0} (p : Act (Spooling F) A) : Type 0 where
  pub at : (m o : ℕ) (x : Spooling F) → Accounts m o x → Accounts m o (p x).1

module _ {F A B : Type 0} where
  Preserves-bind :
      (p : Act (Spooling F) A) (f : A → Act (Spooling F) B)
      → Preserves p
      → ((a : A) → Preserves (f a))
      → Preserves (p >>= f)
  Preserves-bind p f hp hf = record {
    at = λ m o x h.
        >>=-keeps (λ y. Accounts m o y) p f x (hp.at m o x h) (λ c y _ k. (hf c).at m o y k);
  }

module _ {F A : Type 0} where
  Preserves-pure : (a : A) → Preserves {F = F} (pure a)
  unfolding pure
  Preserves-pure a = record { at = λ m o x h. h }

  Preserves-raise : (e : TransactionError) → Preserves {F = F} (raise {A = A} e)
  unfolding raise
  Preserves-raise e = record { at = λ m o x h. h }

  Preserves-if :
      (b : Bool) (p q : Act (Spooling F) A)
      → Preserves p
      → Preserves q
      → Preserves (if b then p else q)
  Preserves-if true p q h k = h
  Preserves-if false p q h k = k

  Preserves-seq :
      (p : Act (Spooling F) Unit) (q : Act (Spooling F) A)
      → Preserves p
      → Preserves q
      → Preserves (p >> q)
  unfolding ◌>>◌
  Preserves-seq p q hp hq = Preserves-bind p (λ _. q) hp (λ _. hq)

module _ {F : Type 0} (files : SpoolFiles F) where
  Preserves-with_spool :
      {A : Type 0} (f : CompatibilitySpoolTransaction → Act (Spooling F) A)
      → ((s : CompatibilitySpoolTransaction) → Preserves (f s))
      → Preserves (with_spool files f)
  unfolding with_spool
  Preserves-with_spool f h = record { at = λ m o x. (h x.spool).at m o x }

  Preserves-assign :
      (f : CompatibilitySpoolTransaction → CompatibilitySpoolTransaction)
      → ((s : CompatibilitySpoolTransaction) → (f s).reserved_bytes ≡ s.reserved_bytes)
      → ((s : CompatibilitySpoolTransaction) → (f s).finished ≡ s.finished)
      → Preserves (assign files f)
  unfolding assign
  Preserves-assign f h k = record {
    at = λ m o x a. record {
      balanced = subst (λ r. Balanced m r o x.quota) (sym (h x.spool)) a.balanced;
      at_end = λ e. h x.spool ∙ a.at_end (sym (k x.spool) ∙ e);
    };
  }

  on_files-Preserves : (f : F → Result IoError Unit × F) → Preserves (on_files files f)
  unfolding on_files
  on_files-Preserves f = record {
    at = λ m o x a. record { balanced = a.balanced; at_end = a.at_end };
  }

  upload-Preserves : (bytes : ℕ) → Preserves (upload files bytes)
  unfolding upload
  upload-Preserves bytes = record {
    at = λ m o x a. record { balanced = a.balanced; at_end = a.at_end };
  }

  remove_file-Preserves : Preserves (remove_file files)
  unfolding remove_file
  remove_file-Preserves = record {
    at = λ m o x a. record { balanced = a.balanced; at_end = a.at_end };
  }

  close_spool-Preserves : Preserves (close_spool files)
  unfolding close_spool
  close_spool-Preserves = record {
    at = λ m o x a. record {
      balanced = release-Balanced m o x.spool.reserved_bytes x.quota a.balanced;
      at_end = λ e. refl;
    };
  }

  file_or_finished-Preserves : (b : Bool) → Preserves (file_or_finished files b)
  unfolding file_or_finished
  file_or_finished-Preserves b =
      Preserves-if b _ _ (Preserves-pure tt) (Preserves-raise finished_error)

  write_spool-Preserves : (chunk : List ℕ) → Preserves (write_spool files chunk)
  unfolding write_spool
  write_spool-Preserves chunk = Preserves-with_spool _ (λ s.
      Preserves-if s.finished _ _ (Preserves-raise _) (
        Preserves-if (leb u64_mod (s.bytes + length chunk)) _ _ (Preserves-raise _) (
          Preserves-if (ltb s.max_object_bytes (s.bytes + length chunk)) _ _ (Preserves-raise _) (
            Preserves-seq _ _ (file_or_finished-Preserves s.file_open) (
              Preserves-seq _ _ (on_files-Preserves (files.write_all chunk))
                (Preserves-assign _ (λ t. refl) (λ t. refl)))))))

  verify_spool-Preserves : (size : ℕ) (digest : String) → Preserves (verify_spool files size digest)
  unfolding verify_spool
  verify_spool-Preserves size digest = Preserves-with_spool _ (λ s.
      Preserves-if (not (eqb s.bytes size) || not (files.sha256 s.hashed == digest)) _ _
        (Preserves-raise _) (Preserves-assign _ (λ t. refl) (λ t. refl)))

  complete_spool-Preserves : Preserves (complete_spool files)
  unfolding complete_spool
  complete_spool-Preserves = Preserves-with_spool _ (λ s.
      Preserves-if s.finished _ _ (Preserves-raise _) (
        Preserves-if (not s.output_verified) _ _ (Preserves-raise _) (
          Preserves-seq _ _ (file_or_finished-Preserves s.file_open) (
            Preserves-seq _ _ (on_files-Preserves files.flush_file) (
              Preserves-seq _ _ (on_files-Preserves files.sync_all) (
                Preserves-seq _ _ (Preserves-assign _ (λ t. refl) (λ t. refl)) (
                  Preserves-bind _ _ (upload-Preserves s.bytes) (λ meta.
                    Preserves-seq _ _ remove_file-Preserves
                      (Preserves-seq _ _ close_spool-Preserves (Preserves-pure meta))))))))))

  abort_spool-Preserves : Preserves (abort_spool files)
  unfolding abort_spool
  abort_spool-Preserves = Preserves-with_spool _ (λ s.
      Preserves-if s.finished _ _ (Preserves-pure tt)
        (Preserves-seq _ _ remove_file-Preserves close_spool-Preserves))

  -- The transaction after a call, whatever it returned.
  unfoldable pub after_spool : SinkCall → Spooling F → Spooling F
  unfolding write_spool verify_spool complete_spool abort_spool
  after_spool (write_call chunk) x = (write_spool files chunk x).1
  after_spool (verify_call size digest) x = (verify_spool files size digest x).1
  after_spool complete_call x = (complete_spool files x).1
  after_spool abort_call x = (abort_spool files x).1

  unfoldable pub after_spools : List SinkCall → Spooling F → Spooling F
  unfolding after_spool
  after_spools [] x = x
  after_spools (c ∷ cs) x = after_spools cs (after_spool c x)

  after_spool-Accounts :
      (c : SinkCall) (m o : ℕ) (x : Spooling F) → Accounts m o x → Accounts m o (after_spool c x)
  unfolding after_spool
  after_spool-Accounts (write_call chunk) m o x = (write_spool-Preserves chunk).at m o x
  after_spool-Accounts (verify_call size digest) m o x =
      (verify_spool-Preserves size digest).at m o x
  after_spool-Accounts complete_call m o x = complete_spool-Preserves.at m o x
  after_spool-Accounts abort_call m o x = abort_spool-Preserves.at m o x

  pub after_spools-Accounts :
      (cs : List SinkCall) (m o : ℕ) (x : Spooling F)
      → Accounts m o x
      → Accounts m o (after_spools cs x)
  unfolding after_spools
  after_spools-Accounts [] m o x a = a
  after_spools-Accounts (c ∷ cs) m o x a =
      after_spools-Accounts cs m o (after_spool c x) (after_spool-Accounts c m o x a)
