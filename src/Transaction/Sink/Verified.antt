-- ===== src/Transaction/Sink/Verified.antt =====
-- What a verified output is (transaction/s3.rs, `write`, `verify_output`).
use s.Transaction.Backend.{
  ◌>>◌, >>=-eq-ok, Act, Surroundings, TransactionBackend, pure, output_mismatch,
}
use s.Prelude.{
  List, String, [], ap, append-nil, append_assoc, length, ok, refl, sym, true, ℕ, ◌++◌, ◌<◌, ◌∙◌,
  ◌∷◌, ◌≡◌, ◌≤◌, nat_eq, string_eq, arith, eq_iff, eqb, eqb_iff, not, some, ◌==◌, ◌||◌, flatten,
  both_hold,
}
use s.Transaction.Sink.Bytes.{
  Sent, taken, Sends-with_sink, Steady, Steady-change, Steady-journal, Steady-seq,
}
use s.Transaction.Sink.{SinkOn, with_sink, change, lift}
use s.Transaction.Sink.Upload.{verify_output, write}
use s.Transaction.Reconciler.{on_journal}
use s.Transaction.Journal.{set_expected}
use s.Transaction.Sink.Filling.{unless_ok, stays, write_keeps_bytes}

module _ {W : Type 0} (env : Surroundings) (backend : TransactionBackend W) (part_bytes : ℕ) where
  -- One call of `write` after the other.
  unfoldable pub write_chunks : List (List ℕ) → Act (SinkOn W) Unit
  unfolding write
  write_chunks [] = pure tt
  write_chunks (c ∷ cs) = do write env backend part_bytes c; write_chunks cs

  -- What was sent and buffered is what was hashed.
  abbrev Consistent : SinkOn W → Type 0
  Consistent x = taken x.machine.requests ++ x.sink.buffer ≡ x.sink.hashed

  write_chunks_ok :
      (cs : List (List ℕ)) (x y : SinkOn W)
      → 0 < part_bytes
      → length x.sink.buffer ≤ part_bytes
      → Consistent x
      → write_chunks cs x ≡ (ok tt, y)
      → Consistent y × (y.sink.hashed ≡ x.sink.hashed ++ flatten cs)
  unfolding write_chunks ◌>>◌ flatten
  write_chunks_ok [] x y p b c e =
      let r = stays {part_bytes = part_bytes} [] x y b (λ q. absurd (q refl)) e in
      (
        r.same_bytes.kept ∙ append-nil _ ∙ c ∙ sym r.same_bytes.same_hashed,
        r.same_bytes.same_hashed ∙ sym (append-nil x.sink.hashed),
      )
  write_chunks_ok (d ∷ cs) x y p b c e =
      let (_, k, u, v) =
        >>=-eq-ok (write env backend part_bytes d) (λ _. write_chunks cs) x y tt e in
      let (s, t, r) = write_keeps_bytes env backend part_bytes d x k p b u in
      let (w, z) = write_chunks_ok cs k y p r (s ∙ ap (λ l. l ++ d) c ∙ sym t) v in
      (w, z ∙ ap (λ l. l ++ flatten cs) t ∙ append_assoc x.sink.hashed d (flatten cs))

  -- What `verify_output` does behind its guard.
  unfoldable set_verified : ℕ → String → Act (SinkOn W) Unit
  unfolding with_sink lift change
  set_verified size digest = do
    change (λ t. record t {
      operation = record t.operation {
        expected = record t.operation.expected { digest = some digest; size = some size };
      };
    })
    with_sink
        (λ t. lift (on_journal env (λ now. set_expected now t.operation.id t.operation.expected)))
    change (λ t. record t { output_verified = true })

  set_verified-Steady : (size : ℕ) (digest : String) → Steady (set_verified size digest)
  unfolding set_verified
  set_verified-Steady size digest = Steady-seq _ _ (Steady-change _ (λ s. refl) (λ s. refl)) (
      Steady-seq _ _ (Sends-with_sink [] _ (λ t. Steady-journal env _))
        (Steady-change _ (λ s. refl) (λ s. refl)))

  verify_output_ok :
      (size : ℕ) (digest : String) (x y : SinkOn W)
      → verify_output env backend size digest x ≡ (ok tt, y)
      → Sent x y [] × (x.sink.output_bytes ≡ size) × (env.sha256 x.sink.hashed ≡ digest)
  unfolding verify_output with_sink set_verified
  verify_output_ok size digest x y e =
      let (g, h) =
        unless_ok (not (eqb x.sink.output_bytes size) || not (env.sha256 x.sink.hashed == digest))
          output_mismatch (set_verified size (env.sha256 x.sink.hashed)) x y tt e in
      let (s, t) = both_hold (eqb x.sink.output_bytes size) _ g in
      (
        (set_verified-Steady size (env.sha256 x.sink.hashed)).at x y tt h,
        (eqb_iff x.sink.output_bytes size).0 s,
        (eq_iff (env.sha256 x.sink.hashed) digest).0 t,
      )

  -- If chunks were written into a new sink, in parts of at least one byte, and the output
  -- verified, then what the provider took and what is still buffered are the chunks in order, and
  -- their digest is the one that was expected.
  pub verified_output :
      (chunks : List (List ℕ)) (size : ℕ) (digest : String) (x y : SinkOn W)
      → 0 < part_bytes
      → x.sink.buffer ≡ []
      → x.sink.hashed ≡ []
      → taken x.machine.requests ≡ []
      → (do write_chunks chunks; verify_output env backend size digest) x ≡ (ok tt, y)
      → (taken y.machine.requests ++ y.sink.buffer ≡ flatten chunks)
        × (env.sha256 (flatten chunks) ≡ digest)
  unfolding ◌>>◌
  verified_output chunks size digest x y p b h t e =
      let (_, k, u, v) =
        >>=-eq-ok (write_chunks chunks) (λ _. verify_output env backend size digest) x y tt e in
      let (c, d) = write_chunks_ok chunks x k p (rw b (omega arith)) (rw (b, h, t) refl) u in
      let (s, w, z) = verify_output_ok size digest k y v in
      let all = d ∙ ap (λ l. l ++ flatten chunks) h in
      (
        ap (λ l. taken y.machine.requests ++ l) s.same_buffer
            ∙ ap (λ l. l ++ k.sink.buffer) (s.sent ∙ append-nil (taken k.machine.requests))
            ∙ c
            ∙ all,
        ap env.sha256 (sym all) ∙ z,
      )
