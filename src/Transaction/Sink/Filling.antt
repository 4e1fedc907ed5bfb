-- ===== src/Transaction/Sink/Filling.antt =====
-- What `write` does with the bytes of a chunk (transaction/s3.rs, `write`, `verify_output`).
use s.Transaction.Journal.{is_some}
use s.Transaction.Backend.{
  ◌>>=◌, ◌>>◌, >>=-eq-ok, Surroundings, TransactionBackend, pure, Act, TransactionError, raise,
}
use s.Prelude.{
  Bool, List, [], ap, append-nil, arith, eqb, false, if◌then◌else◌, is_empty, length, not, ok, refl,
  subst, sym, true, ℕ, ◌&&◌, ◌++◌, ◌<◌, ◌∷◌, ◌≡◌, ◌≢◌, ◌≤◌, nat_eq, string_eq, drop, min, suc, take,
  zero, ◌-◌, append_assoc, length-append, length-drop, length-take, take-append-drop, leb, ◌+◌,
}
use s.Transaction.Sink.Sending.{
  Rounded, Kept, ensure_multipart-Steady, Kept-trans, Sent-Kept, flush_buffer-Rounded,
}
use s.Transaction.Sink.{SinkOn, with_sink, change}
use s.Transaction.Sink.Upload.{ensure_multipart, flush_buffer, round_end, fill, write, u64_mod}
use s.Transaction.Sink.Bytes.{taken}

-- Enough fuel: every round takes bytes, but for a first one that finds a full buffer.
data Enough (part_bytes buffered left fuel : ℕ) : Type 0 where
  none_left : buffered ≤ part_bytes → left ≤ 0 → Enough part_bytes buffered left fuel
  room_left : buffered < part_bytes → left ≤ fuel → Enough part_bytes buffered left fuel
  round_left : buffered ≤ part_bytes → left < fuel → Enough part_bytes buffered left fuel

Enough-bounded :
    (part_bytes buffered left fuel : ℕ)
    → Enough part_bytes buffered left fuel
    → buffered ≤ part_bytes
Enough-bounded p b l f (none_left h k) = h
Enough-bounded p b l f (room_left h k) = omega (arith, h)
Enough-bounded p b l f (round_left h k) = h

Enough-next :
    (part_bytes buffered left fuel : ℕ)
    → 0 < left
    → Enough part_bytes buffered left (suc fuel)
    → left - min (part_bytes - buffered) left ≤ fuel
Enough-next p b l f q (none_left h k) = omega (arith, q, k)
Enough-next p b l f q (room_left h k) = omega (arith, q, h, k)
Enough-next p b l f q (round_left h k) = omega (arith, h, k)

twice_Enough :
    (part_bytes buffered left : ℕ)
    → buffered ≤ part_bytes
    → Enough part_bytes buffered left (left + left)
twice_Enough p b zero h = none_left h (omega arith)
twice_Enough p b (suc n) h = round_left h (omega arith)

-- A step behind a guard.
pub unless_ok :
    {S A : Type 0} (b : Bool) (e : TransactionError) (p : Act S A) (x y : S) (a : A)
    → (if b then raise e else p) x ≡ (ok a, y)
    → (b ≡ false) × (p x ≡ (ok a, y))
unfolding raise
unless_ok true e p x y a h = cc
unless_ok false e p x y a h = (refl, h)

Rounded-Enough :
    {W : Type 0} {part_bytes : ℕ} (rest : List ℕ) (fuel : ℕ) (x y : SinkOn W)
    → Rounded part_bytes rest x y
    → length rest ≤ fuel
    → Enough part_bytes (length y.sink.buffer) (length rest) fuel
Rounded-Enough [] fuel x y r h = none_left r.in_bounds (omega arith)
Rounded-Enough (c ∷ l) fuel x y r h = room_left (r.has_room (λ e. cc)) h

Kept-filled :
    {W : Type 0} (x : SinkOn W) (more : List ℕ)
    → Kept x (record x { sink = record x.sink { buffer = x.sink.buffer ++ more } }) more
Kept-filled x more = record {
  kept = sym (append_assoc (taken x.machine.requests) x.sink.buffer more);
  same_hashed = refl;
}

-- A round that does nothing.
pub stays :
    {W : Type 0} {part_bytes : ℕ} (rest : List ℕ) (x y : SinkOn W)
    → length x.sink.buffer ≤ part_bytes
    → (rest ≢ [] → length x.sink.buffer < part_bytes)
    → pure tt x ≡ (ok tt, y)
    → Rounded part_bytes rest x y
unfolding pure
stays {W} {part_bytes} rest x y b h e =
    subst (λ z. Rounded part_bytes rest x z) (ap (λ r. r.1) e)
      (record {
        same_bytes = record {
          kept = sym (append-nil (taken x.machine.requests ++ x.sink.buffer));
          same_hashed = refl;
        };
        in_bounds = b;
        has_room = h;
      })

unchanged :
    {W : Type 0} {part_bytes : ℕ} (x y : SinkOn W)
    → length x.sink.buffer ≤ part_bytes
    → pure tt x ≡ (ok tt, y)
    → Kept x y [] × (length y.sink.buffer ≤ part_bytes)
unchanged x y b e = let r = stays [] x y b (λ q. absurd (q refl)) e in (r.same_bytes, r.in_bounds)

module _ {W : Type 0} (env : Surroundings) (backend : TransactionBackend W) (part_bytes : ℕ) where
  round_by :
      (full opened_before : Bool) (rest : List ℕ) (x y : SinkOn W)
      → 0 < part_bytes
      → length x.sink.buffer ≤ part_bytes
      → (full ≡ false → length x.sink.buffer < part_bytes)
      → (if full && not (is_empty rest)
            then (do ensure_multipart env backend; flush_buffer env backend)
            else if full && opened_before
            then flush_buffer env backend
            else pure tt)
          x
        ≡ (ok tt, y)
      → Rounded part_bytes rest x y
  unfolding ◌>>◌
  round_by true o (c ∷ l) x y p b h e =
      let (_, k, u, v) =
        >>=-eq-ok (ensure_multipart env backend) (λ _. flush_buffer env backend) x y tt e in
      let s = (ensure_multipart-Steady env backend).at x k tt u in
      let r = flush_buffer-Rounded env backend part_bytes (c ∷ l) k y p v in
      record {
        same_bytes = Kept-trans x k y [] [] (Sent-Kept x k s) r.same_bytes;
        in_bounds = r.in_bounds;
        has_room = r.has_room;
      }
  round_by true true [] x y p b h e = flush_buffer-Rounded env backend part_bytes [] x y p e
  round_by true false [] x y p b h e = stays [] x y b (λ q. absurd (q refl)) e
  round_by false o rest x y p b h e = stays rest x y b (λ _. h refl) e

  round_end_ok :
      (rest : List ℕ) (x y : SinkOn W)
      → 0 < part_bytes
      → length x.sink.buffer ≤ part_bytes
      → round_end env backend part_bytes rest x ≡ (ok tt, y)
      → Rounded part_bytes rest x y
  unfolding round_end with_sink
  round_end_ok rest x y p b e =
      round_by (eqb (length x.sink.buffer) part_bytes) (is_some x.sink.upload_id) rest x y p b
        (λ f. ground (arith, f, b)) e

  fill_ok :
      (fuel : ℕ) (chunk : List ℕ) (x y : SinkOn W)
      → 0 < part_bytes
      → Enough part_bytes (length x.sink.buffer) (length chunk) fuel
      → fill env backend part_bytes fuel chunk x ≡ (ok tt, y)
      → Kept x y chunk × (length y.sink.buffer ≤ part_bytes)
  unfolding fill with_sink ◌>>◌ ◌>>=◌ change
  fill_ok zero [] x y p n e = unchanged x y (Enough-bounded _ _ _ _ n) e
  fill_ok zero (b ∷ l) x y p n e = absurd (none_needed n)
    where
      none_needed : Enough part_bytes (length x.sink.buffer) (length (b ∷ l)) 0 → ⊥
      none_needed (none_left h k) = omega (arith, k)
      none_needed (room_left h k) = omega (arith, k)
      none_needed (round_left h k) = omega (arith, k)
  fill_ok (suc fuel) [] x y p n e = unchanged x y (Enough-bounded _ _ _ _ n) e
  fill_ok (suc fuel) (b ∷ l) x y p n e =
      let copied = min (part_bytes - length x.sink.buffer) (length (b ∷ l)) in
      let rest = drop copied (b ∷ l) in
      let filled = record x {
        sink = record x.sink { buffer = x.sink.buffer ++ take copied (b ∷ l) };
      } in
      let (_, k, u, v) =
        >>=-eq-ok (round_end env backend part_bytes rest)
          (λ _. fill env backend part_bytes fuel rest) filled y tt e in
      let r =
        round_end_ok rest filled k p
          (omega (
            arith,
            length-append x.sink.buffer (take copied (b ∷ l)),
            length-take copied (b ∷ l),
            Enough-bounded _ _ _ _ n,
          ))
          u in
      let (s, t) =
        fill_ok fuel rest k y p
          (Rounded-Enough rest fuel filled k r (
            rw (length-drop copied (b ∷ l)) (
              Enough-next part_bytes (length x.sink.buffer) (length (b ∷ l)) fuel (omega arith) n)))
          v in
      (
        subst (λ c. Kept x y c) (take-append-drop copied (b ∷ l))
            (Kept-trans x filled y (take copied (b ∷ l)) rest (Kept-filled x (take copied (b ∷ l)))
              (Kept-trans filled k y [] rest r.same_bytes s)),
        t,
      )

  -- Where a write succeeds, on a buffer within a part of at least one byte, the chunk is sent or
  -- buffered, in order and after what was there, it is hashed, and the buffer stays within a
  -- part.
  pub write_keeps_bytes :
      (chunk : List ℕ) (x y : SinkOn W)
      → 0 < part_bytes
      → length x.sink.buffer ≤ part_bytes
      → write env backend part_bytes chunk x ≡ (ok tt, y)
      → (taken y.machine.requests ++ y.sink.buffer
          ≡ (taken x.machine.requests ++ x.sink.buffer) ++ chunk)
        × (y.sink.hashed ≡ x.sink.hashed ++ chunk)
        × (length y.sink.buffer ≤ part_bytes)
  unfolding write with_sink ◌>>◌ ◌>>=◌ change
  write_keeps_bytes chunk x y p b e =
      let (_, u) = unless_ok x.sink.finished _ _ x y tt e in
      let (_, v) = unless_ok (leb u64_mod (x.sink.output_bytes + length chunk)) _ _ x y tt u in
      let begun = record x {
        sink = record x.sink {
          output_bytes = x.sink.output_bytes + length chunk;
          hashed = x.sink.hashed ++ chunk;
          output_verified = false;
        };
      } in
      let (k, t) =
        fill_ok (length chunk + length chunk) chunk begun y p
          (twice_Enough part_bytes (length x.sink.buffer) (length chunk) b) v in
      (k.kept, k.same_hashed, t)
