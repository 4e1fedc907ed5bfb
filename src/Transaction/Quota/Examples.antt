-- ===== src/Transaction/Quota/Examples.antt =====
-- The theorems about the quota on a concrete one.
use s.Transaction.Quota.Bounds.{callers, held, quota_kept, quota_decides}
use s.Prelude.{Bool, List, [], arith, false, ℕ, ◌<◌, ◌∷◌, ◌≡◌, ◌≤◌, ◌⊎◌, nat_eq, string_eq}
use s.Transaction.Quota.{gone, holding, looping, new_quota, schedule, turn}

-- Two threads that compete for ten bytes: the exchange of the second one fails.
abbrev turns : List (ℕ × Bool)
turns = (0, false) ∷ (1, false) ∷ (0, false) ∷ (1, false) ∷ (1, false) ∷ (0, false) ∷ []

quota_kept_example :
    ((schedule turns (callers (6 ∷ 5 ∷ [])) (new_quota 10)).1.reserved_bytes
      ≡ held (schedule turns (callers (6 ∷ 5 ∷ [])) (new_quota 10)).0)
    × (held (schedule turns (callers (6 ∷ 5 ∷ [])) (new_quota 10)).0 ≤ 10)
quota_kept_example = quota_kept 10 (6 ∷ 5 ∷ []) turns (omega arith)

quota_decides_example :
    ((6 ≤ 10)
      × (turn false (looping 6 0) (new_quota 10)
          ≡ (holding 6, record (new_quota 10) { reserved_bytes = 6 })))
    ⊎ ((10 < 6) × (turn false (looping 6 0) (new_quota 10) ≡ (gone, new_quota 10)))
unfolding turn new_quota
quota_decides_example = quota_decides 6 (new_quota 10) (omega arith)
