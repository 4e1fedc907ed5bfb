-- ===== src/Transaction/State.antt =====
-- The states of a durable operation (transaction/mod.rs, `OperationState`).
pub mod Paths
use s.Prelude.{
  ℕ, ◌↔◌, eqb, ◌≡◌, refl, Bool, true, false, Option, none, some, List, [], ◌∷◌, String, arith,
  eq_iff, ◌==◌, string_eq, if◌then◌else◌, Result, ok, err, ok_or,
}

pub data OperationState : Type 0 where
  intent opened completing commit_unknown committed aborting proven_aborted : OperationState

pub OperationState-discrete : Discrete OperationState
OperationState-discrete = hlevel

-- `state == other`
abbrev pub index : OperationState → ℕ
index intent = 0
index opened = 1
index completing = 2
index commit_unknown = 3
index committed = 4
index aborting = 5
index proven_aborted = 6

abbrev pub same_state : OperationState → OperationState → Bool
same_state a b = eqb (index a) (index b)

index-injective : (a b : OperationState) → index a ≡ index b → a ≡ b
index-injective intent b h = ground arith
index-injective _ b h = ground arith

pub same_state_iff : (a b : OperationState) → (same_state a b ≡ true) ↔ (a ≡ b)
same_state_iff a b = (λ h. index-injective a b (ground arith), λ h. rw h (ground arith))

abbrev pub all_states : List OperationState
all_states =
    intent ∷ opened ∷ completing ∷ commit_unknown ∷ committed ∷ aborting ∷ proven_aborted ∷ []

unfoldable pub as_str : OperationState → String
as_str intent = "INTENT"
as_str opened = "OPEN"
as_str completing = "COMPLETING"
as_str commit_unknown = "COMMIT_UNKNOWN"
as_str committed = "COMMITTED"
as_str aborting = "ABORTING"
as_str proven_aborted = "PROVEN_ABORTED"

-- `into_iter().find(|state| state.as_str() == value)`
find_state : String → List OperationState → Option OperationState
unfolding as_str
find_state value [] = none
find_state value (s ∷ rest) = if as_str s == value then some s else find_state value rest

-- The error is `JournalError::Corrupt` with the text that was not recognised.
unfoldable pub parse : String → Result String OperationState
unfolding find_state
parse value = ok_or (find_state value all_states) value

unfoldable pub can_transition_to : OperationState → OperationState → Bool
can_transition_to intent opened = true
can_transition_to intent aborting = true
can_transition_to opened completing = true
can_transition_to opened aborting = true
can_transition_to completing committed = true
can_transition_to completing commit_unknown = true
can_transition_to completing proven_aborted = true
can_transition_to commit_unknown committed = true
can_transition_to commit_unknown proven_aborted = true
can_transition_to aborting proven_aborted = true
can_transition_to _ _ = false

unfoldable pub is_terminal : OperationState → Bool
is_terminal committed = true
is_terminal proven_aborted = true
is_terminal _ = false

-- Every state is read back from the text that is stored for it.
pub parse-as_str : (s : OperationState) → parse (as_str s) ≡ ok s
unfolding parse as_str
parse-as_str intent = refl
parse-as_str _ = refl

find_state_sound :
    (value : String) (l : List OperationState) (s : OperationState)
    → find_state value l ≡ some s
    → as_str s ≡ value
unfolding find_state
find_state_sound value [] s h = cc
find_state_sound value (t ∷ l) s h =
    ground (arith, eq_iff (as_str t) value, find_state_sound value l s)

-- A text that is accepted is the one that is stored for the state.
pub as_str-parse : (value : String) (s : OperationState) → parse value ≡ ok s → as_str s ≡ value
unfolding parse
as_str-parse value s h = find_state_sound value all_states s (ground arith)

-- Reading and writing a state are inverse on all texts that are accepted.
pub parse_iff : (value : String) (s : OperationState) → (parse value ≡ ok s) ↔ (as_str s ≡ value)
parse_iff value s = (as_str-parse value s, λ h. rw (← h) (parse-as_str s))

-- No transition stays where it is.
pub can_transition_to-irreflexive : (s : OperationState) → can_transition_to s s ≡ false
unfolding can_transition_to
can_transition_to-irreflexive intent = refl
can_transition_to-irreflexive _ = refl
