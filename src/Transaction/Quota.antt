-- ===== src/Transaction/Quota.antt =====
-- The quota of the compatibility spool (transaction/spool.rs, `SpoolQuota`), shared by threads. A
-- thread goes on by one atomic operation at a time, and a schedule says which thread is next and
-- whether its weak exchange fails without a reason.
pub mod Bounds
mod Examples
use s.Prelude.{
  Bool, List, [], eqb, if◌then◌else◌, leb, ltb, not, suc, zero, ℕ, ◌%◌, ◌&&◌, ◌+◌, ◌-◌, ◌∷◌, nat_eq,
  string_eq,
}
use s.Transaction.Backend.{TransactionError, capacity_exceeded, spool_error}
use s.Transaction.Sink.Upload.{u64_mod}

pub record SpoolQuota : Type 0 where
  pub max_bytes : ℕ
  pub reserved_bytes : ℕ  -- u64, as is max_bytes

unfoldable pub new_quota : ℕ → SpoolQuota
new_quota max_bytes = record { max_bytes = max_bytes; reserved_bytes = 0 }

-- Where a call of `reserve_bytes` stands: in its loop with `current`, or at its return.
pub data Reserving : Type 0 where
  retrying : ℕ → Reserving
  reserved : Reserving
  declined_with : TransactionError → Reserving

-- A round of the loop of `reserve_bytes`.
unfoldable pub reserve_round : ℕ → Bool → ℕ → SpoolQuota → Reserving × SpoolQuota
reserve_round bytes fails current q =
    if leb u64_mod (current + bytes)
    then (declined_with (spool_error "spool quota overflow"), q)
    else if ltb q.max_bytes (current + bytes)
    then (declined_with capacity_exceeded, q)
    else if eqb q.reserved_bytes current && not fails
    then (reserved, record q { reserved_bytes = current + bytes })
    else (retrying q.reserved_bytes, q)

-- `fetch_sub` wraps.
unfoldable pub release_bytes : ℕ → SpoolQuota → SpoolQuota
release_bytes bytes q = record q {
  reserved_bytes = (q.reserved_bytes + (u64_mod - bytes)) % u64_mod;
}

-- A thread that reserves some bytes, and releases them after.
pub data Thread : Type 0 where
  calling : ℕ → Thread
  looping : ℕ → ℕ → Thread
  holding : ℕ → Thread
  gone : Thread

unfoldable pub after_round : ℕ → Reserving → Thread
after_round bytes (retrying current) = looping bytes current
after_round bytes reserved = holding bytes
after_round bytes (declined_with e) = gone

-- The next atomic operation of a thread.
unfoldable pub turn : Bool → Thread → SpoolQuota → Thread × SpoolQuota
unfolding reserve_round after_round release_bytes
turn fails (calling bytes) q = (looping bytes q.reserved_bytes, q)
turn fails (looping bytes current) q =
    let (r, next) = reserve_round bytes fails current q in (after_round bytes r, next)
turn fails (holding bytes) q = (gone, release_bytes bytes q)
turn fails gone q = (gone, q)

unfoldable pub turn_of : ℕ → Bool → List Thread → SpoolQuota → List Thread × SpoolQuota
unfolding turn
turn_of i fails [] q = ([], q)
turn_of zero fails (t ∷ ts) q = let (u, next) = turn fails t q in (u ∷ ts, next)
turn_of (suc i) fails (t ∷ ts) q = let (us, next) = turn_of i fails ts q in (t ∷ us, next)

unfoldable pub schedule : List (ℕ × Bool) → List Thread → SpoolQuota → List Thread × SpoolQuota
unfolding turn_of
schedule [] ts q = (ts, q)
schedule ((i, fails) ∷ turns) ts q = let (us, next) = turn_of i fails ts q in schedule turns us next
