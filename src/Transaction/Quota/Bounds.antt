-- ===== src/Transaction/Quota/Bounds.antt =====
-- The quota is kept, whatever the order of the threads (transaction/spool.rs, `SpoolQuota`).
use s.Prelude.{
  Bool, List, [], arith, eqb, false, if◌then◌else◌, leb, ltb, not, refl, suc, true, zero, ℕ, ◌%◌,
  ◌&&◌, ◌+◌, ◌-◌, ◌<◌, ◌∷◌, ◌≡◌, ◌≤◌, ◌⊎◌, nat_eq, string_eq, ◌∙◌, eqb_iff, inl, inr,
}
use s.Transaction.Quota.{
  Reserving, SpoolQuota, Thread, after_round, calling, declined_with, gone, holding, looping,
  new_quota, release_bytes, reserve_round, reserved, retrying, schedule, turn, turn_of,
}
use s.Transaction.Backend.{capacity_exceeded, spool_error}
use s.Transaction.Sink.Upload.{u64_mod}

-- What a thread holds.
abbrev pub held_by : Thread → ℕ
held_by (holding bytes) = bytes
held_by _ = 0

abbrev pub held : List Thread → ℕ
held [] = 0
held (t ∷ ts) = held_by t + held ts

-- What is reserved is what is held, here and by others, and within the quota.
pub record Balanced (max_bytes held_here others : ℕ) (q : SpoolQuota) : Type 0 where
  pub same_max : q.max_bytes ≡ max_bytes
  pub all_held : q.reserved_bytes ≡ held_here + others
  pub in_quota : q.reserved_bytes ≤ max_bytes
  pub in_word : max_bytes < u64_mod

round-Balanced :
    (m others bytes current : ℕ) (fails : Bool) (q : SpoolQuota)
    → Balanced m 0 others q
    → Balanced m
        (held_by (after_round bytes (reserve_round bytes fails current q).0))
        others
        (reserve_round bytes fails current q).1
unfolding reserve_round after_round
round-Balanced m others bytes current fails q b =
    answered (leb u64_mod (current + bytes)) (ltb q.max_bytes (current + bytes))
      (eqb q.reserved_bytes current) fails (λ h. ground (arith, h)) (λ h. ground (arith, h))
  where
    answered :
        (over full same weak : Bool)
        → (full ≡ false → current + bytes ≤ q.max_bytes)
        → (same ≡ true → q.reserved_bytes ≡ current)
        → let r : Reserving × SpoolQuota =
            if over
            then (declined_with (spool_error "spool quota overflow"), q)
            else if full
            then (declined_with capacity_exceeded, q)
            else if same && not weak
            then (reserved, record q { reserved_bytes = current + bytes })
            else (retrying q.reserved_bytes, q) in
          Balanced m (held_by (after_round bytes r.0)) others r.1
    answered true full same weak h k = b
    answered false true same weak h k = b
    answered false false false weak h k = b
    answered false false true true h k = b
    answered false false true false h k = record {
      same_max = b.same_max;
      all_held = omega (arith, b.all_held, k refl);
      in_quota = omega (arith, h refl, b.same_max);
      in_word = b.in_word;
    }

pub release-Balanced :
    (m others bytes : ℕ) (q : SpoolQuota)
    → Balanced m bytes others q
    → Balanced m 0 others (release_bytes bytes q)
unfolding release_bytes
release-Balanced m others bytes q b =
    let left : (q.reserved_bytes + (u64_mod - bytes)) % u64_mod ≡ others =
      omega (arith, b.all_held, b.in_quota, b.in_word) in
    record {
      same_max = b.same_max;
      all_held = left ∙ omega arith;
      in_quota = omega (arith, left, b.all_held, b.in_quota);
      in_word = b.in_word;
    }

turn-Balanced :
    (m others : ℕ) (fails : Bool) (t : Thread) (q : SpoolQuota)
    → Balanced m (held_by t) others q
    → Balanced m (held_by (turn fails t q).0) others (turn fails t q).1
unfolding turn
turn-Balanced m others fails (calling bytes) q b = b
turn-Balanced m others fails (looping bytes current) q b =
    round-Balanced m others bytes current fails q b
turn-Balanced m others fails (holding bytes) q b = release-Balanced m others bytes q b
turn-Balanced m others fails gone q b = b

-- Who holds what makes no difference.
Balanced-as :
    {m : ℕ} {q : SpoolQuota} (a b c d : ℕ) → a + b ≡ c + d → Balanced m a b q → Balanced m c d q
Balanced-as a b c d e h = record {
  same_max = h.same_max;
  all_held = h.all_held ∙ e;
  in_quota = h.in_quota;
  in_word = h.in_word;
}

turn_of-Balanced :
    (m others i : ℕ) (fails : Bool) (ts : List Thread) (q : SpoolQuota)
    → Balanced m (held ts) others q
    → Balanced m (held (turn_of i fails ts q).0) others (turn_of i fails ts q).1
unfolding turn_of
turn_of-Balanced m others i fails [] q b = b
turn_of-Balanced m others zero fails (t ∷ ts) q b =
    Balanced-as (held_by (turn fails t q).0) (held ts + others) _ _ (omega arith) (
      turn-Balanced m (held ts + others) fails t q
        (Balanced-as (held_by t + held ts) others _ _ (omega arith) b))
turn_of-Balanced m others (suc i) fails (t ∷ ts) q b =
    Balanced-as (held (turn_of i fails ts q).0) (held_by t + others) _ _ (omega arith) (
      turn_of-Balanced m (held_by t + others) i fails ts q
        (Balanced-as (held_by t + held ts) others _ _ (omega arith) b))

schedule-Balanced :
    (m : ℕ) (turns : List (ℕ × Bool)) (ts : List Thread) (q : SpoolQuota)
    → Balanced m (held ts) 0 q
    → Balanced m (held (schedule turns ts q).0) 0 (schedule turns ts q).1
unfolding schedule
schedule-Balanced m [] ts q b = b
schedule-Balanced m ((i, fails) ∷ turns) ts q b =
    schedule-Balanced m turns (turn_of i fails ts q).0 (turn_of i fails ts q).1
      (turn_of-Balanced m 0 i fails ts q b)

abbrev pub callers : List ℕ → List Thread
callers [] = []
callers (bytes ∷ rest) = calling bytes ∷ callers rest

held-callers : (requests : List ℕ) → held (callers requests) ≡ 0
held-callers [] = refl
held-callers (r ∷ rs) = omega (arith, held-callers rs)

-- However threads that reserve and release take turns on a new quota of a 64-bit size, and whichever
-- of their exchanges fail, what is reserved at any moment is what the threads hold, and it is within
-- the quota.
pub quota_kept :
    (max_bytes : ℕ) (requests : List ℕ) (turns : List (ℕ × Bool))
    → max_bytes < u64_mod
    → ((schedule turns (callers requests) (new_quota max_bytes)).1.reserved_bytes
        ≡ held (schedule turns (callers requests) (new_quota max_bytes)).0)
      × (held (schedule turns (callers requests) (new_quota max_bytes)).0 ≤ max_bytes)
unfolding new_quota
quota_kept m requests turns w =
    let b = schedule-Balanced m turns (callers requests) (new_quota m) (record {
      same_max = refl;
      all_held = rw (held-callers requests) refl;
      in_quota = omega arith;
      in_word = w;
    }) in
    (omega (arith, b.all_held), omega (arith, b.all_held, b.in_quota))

-- On a quota of a 64-bit size, a call that is not disturbed gets its bytes in two turns if they
-- are left, and is declined if not.
pub quota_decides :
    (bytes : ℕ) (q : SpoolQuota)
    → q.max_bytes < u64_mod
    → let once = turn false (calling bytes) q in
      let twice = turn false once.0 once.1 in
      ((q.reserved_bytes + bytes ≤ q.max_bytes)
        × (twice ≡ (holding bytes, record q { reserved_bytes = q.reserved_bytes + bytes })))
      ⊎ ((q.max_bytes < q.reserved_bytes + bytes) × (twice ≡ (gone, q)))
unfolding turn reserve_round after_round
quota_decides bytes q w =
    decided (leb u64_mod (q.reserved_bytes + bytes)) (ltb q.max_bytes (q.reserved_bytes + bytes))
      (eqb q.reserved_bytes q.reserved_bytes) (λ h. ground (arith, h, w)) (λ h. ground (arith, h))
      (λ h. ground (arith, h)) ((eqb_iff q.reserved_bytes q.reserved_bytes).1 refl)
  where
    decided :
        (over full same : Bool)
        → (over ≡ true → q.max_bytes < q.reserved_bytes + bytes)
        → (full ≡ true → q.max_bytes < q.reserved_bytes + bytes)
        → (full ≡ false → q.reserved_bytes + bytes ≤ q.max_bytes)
        → same ≡ true
        → let r : Reserving × SpoolQuota =
            if over
            then (declined_with (spool_error "spool quota overflow"), q)
            else if full
            then (declined_with capacity_exceeded, q)
            else if same && not false
            then (reserved, record q { reserved_bytes = q.reserved_bytes + bytes })
            else (retrying q.reserved_bytes, q) in
          let twice : Thread × SpoolQuota = (after_round bytes r.0, r.1) in
          ((q.reserved_bytes + bytes ≤ q.max_bytes)
            × (twice ≡ (holding bytes, record q { reserved_bytes = q.reserved_bytes + bytes })))
          ⊎ ((q.max_bytes < q.reserved_bytes + bytes) × (twice ≡ (gone, q)))
    decided true full same h k l e = inr (h refl, refl)
    decided false true same h k l e = inr (k refl, refl)
    decided false false true h k l e = inl (l refl, refl)
    decided false false false h k l e = cc
