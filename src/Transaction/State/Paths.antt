-- ===== src/Transaction/State/Paths.antt =====
-- Which states can follow which (transaction/mod.rs, `can_transition_to`).
use s.Prelude.{ℕ, zero, suc, ◌+◌, ◌≤◌, ◌≡◌, refl, ◌⊎◌, inl, ◌↔◌, Bool, true, false, arith}
use s.Transaction.State.{
  OperationState, intent, opened, completing, commit_unknown, committed, aborting, proven_aborted,
  can_transition_to, is_terminal,
}

-- A sequence of allowed transitions, with its length.
pub data Chain (s : OperationState) : ℕ → OperationState → Type 0 where
  start : Chain s zero s
  next :
      {n : ℕ} {t u : OperationState}
      → Chain s n t
      → can_transition_to t u ≡ true
      → Chain s (suc n) u

-- How many transitions an operation can still make.
abbrev remaining : OperationState → ℕ
remaining intent = 4
remaining opened = 3
remaining completing = 2
remaining commit_unknown = 1
remaining aborting = 1
remaining committed = 0
remaining proven_aborted = 0

remaining-step :
    (s t : OperationState) → can_transition_to s t ≡ true → suc (remaining t) ≤ remaining s
unfolding can_transition_to
remaining-step s t h = ground arith

remaining-Chain : {s t : OperationState} {n : ℕ} → Chain s n t → n + remaining t ≤ remaining s
remaining-Chain start = omega arith
remaining-Chain (next {t = t} {u = u} c h) = omega (arith, remaining-Chain c, remaining-step t u h)

-- No operation makes more than four transitions, from whatever state it starts.
pub Chain-bounded : (s t : OperationState) (n : ℕ) → Chain s n t → n ≤ 4
Chain-bounded s t n c = ground (arith, remaining-Chain c)

-- The states that can be left are exactly those that are not terminal.
pub can_leave_iff :
    (s : OperationState)
    → ((t : OperationState) × (can_transition_to s t ≡ true)) ↔ (is_terminal s ≡ false)
unfolding can_transition_to is_terminal
can_leave_iff s = (λ (t, h). ground arith, λ h. leave s h)
  where
    leave :
        (s : OperationState)
        → is_terminal s ≡ false
        → (t : OperationState) × (can_transition_to s t ≡ true)
    leave intent h = (opened, refl)
    leave opened h = (completing, refl)
    leave completing h = (committed, refl)
    leave commit_unknown h = (committed, refl)
    leave committed h = cc
    leave aborting h = (proven_aborted, refl)
    leave proven_aborted h = cc

-- The provider may hold a completed object: a completion was sent and no abort may follow.
abbrev pub completion_sent : OperationState → Bool
completion_sent completing = true
completion_sent commit_unknown = true
completion_sent committed = true
completion_sent _ = false

completion_sent-step :
    (s t : OperationState)
    → can_transition_to s t ≡ true
    → completion_sent s ≡ true
    → (completion_sent t ≡ true) ⊎ (t ≡ proven_aborted)
unfolding can_transition_to
completion_sent-step s t h c = ground arith

after_completion :
    {s t : OperationState} {n : ℕ}
    → Chain s n t
    → completion_sent s ≡ true
    → (completion_sent t ≡ true) ⊎ (t ≡ proven_aborted)
unfolding can_transition_to
after_completion start c = inl c
after_completion (next {t = t} {u = u} r h) c =
    ground (arith, after_completion r c, completion_sent-step t u h)

-- Once the completion request may have been sent, no sequence of transitions starts an abort.
pub no_abort_after_completion :
    (s : OperationState) (n : ℕ) → completion_sent s ≡ true → Chain s n aborting → ⊥
no_abort_after_completion s n c r = ground (arith, after_completion r c)
