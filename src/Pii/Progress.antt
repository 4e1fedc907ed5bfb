-- ===== src/Pii/Progress.antt =====
-- Where the spans lie, and that the scan ends (filters/pii-shared).
use s.Prelude.{
  Bool, List, Option, [], arith, dec_lt, drop, length, length-drop, none, not, some, suc, true,
  zero, ℕ, ◌+◌, ◌<◌, ◌∷◌, ◌≡◌, ◌≤◌, nat_eq, string_eq, Bool-cases, false, if◌then◌else◌, inl, inr,
  refl, ◌-◌,
}
use s.Pii.{
  Span, byte_at, grow_left, grow_right, is_boundary, is_digit, is_token_byte, trim_left, trim_right,
  PiiKind, card, email, find_digit_token, slice, ssn,
}
use s.Pii.Scan.{
  digit_candidate, email_at, card_in, found, holds_card, holds_ssn, match_all, match_kind, or_else,
  ssn_in, trimmed,
}

grow_left-le : (p : ℕ → Bool) (bytes : List ℕ) (s : ℕ) → grow_left p bytes s ≤ s
unfolding grow_left
grow_left-le p bytes zero = omega arith
grow_left-le p bytes (suc s) = ground (arith, grow_left-le p bytes s)

grow_right-bounds :
    (p : ℕ → Bool) (rest : List ℕ) (e : ℕ)
    → (e ≤ grow_right p rest e) × (grow_right p rest e ≤ e + length rest)
unfolding grow_right
grow_right-bounds p [] e = omega arith
grow_right-bounds p (b ∷ rest) e = ground (arith, grow_right-bounds p rest (suc e))

trim_right-bounds : (bytes : List ℕ) (s e : ℕ) → trim_right bytes s e ≤ e
unfolding trim_right
trim_right-bounds bytes s zero = omega arith
trim_right-bounds bytes s (suc e) = ground (arith, trim_right-bounds bytes s e)

-- A digit at `i` inside the token is not trimmed away from the right.
trim_right-keeps :
    (bytes : List ℕ) (s e i : ℕ)
    → i < e
    → is_digit (byte_at bytes i) ≡ true
    → i < trim_right bytes s e
unfolding trim_right
trim_right-keeps bytes s zero i h d = absurd (omega arith)
trim_right-keeps bytes s (suc e) i h d = elim (dec_lt i e) [
  | yes below ↦ ground (arith, trim_right-keeps bytes s e i below d)
  | no last ↦ let same : e ≡ i = omega arith in rw same (ground (arith, d))
]

trim_left-keeps :
    (bytes : List ℕ) (n s i : ℕ)
    → s ≤ i
    → is_digit (byte_at bytes i) ≡ true
    → trim_left bytes n s ≤ i
unfolding trim_left
trim_left-keeps bytes zero s i h d = h
trim_left-keeps bytes (suc n) s i h d = elim (dec_lt s i) [
  | yes below ↦ ground (arith, trim_left-keeps bytes n (suc s) i below d)
  | no here ↦ let same : s ≡ i = omega arith in rw same (ground (arith, d))
]

-- A span that a round at `i` may return.
pub record Lies (bytes : List ℕ) (i : ℕ) (x : Span) : Type 0 where
  pub starts : x.start ≤ i
  pub advances : i < x.end
  pub ends : x.end ≤ length bytes

abbrev pub LiesIn : List ℕ → ℕ → Option Span → Type 0
LiesIn bytes i none = Unit
LiesIn bytes i (some x) = Lies bytes i x

abbrev PairIn : List ℕ → ℕ → Option (ℕ × ℕ) → Type 0
PairIn bytes i none = Unit
PairIn bytes i (some (s, e)) = (s ≤ i) × (i < e) × (e ≤ length bytes)

drop-eq-cons :
    (bytes : List ℕ) (i : ℕ)
    → i < length bytes
    → drop i bytes ≡ byte_at bytes i ∷ drop (suc i) bytes
drop-eq-cons [] i h = elim h [ ]
drop-eq-cons (b ∷ bytes) zero h = refl
drop-eq-cons (b ∷ bytes) (suc i) h = drop-eq-cons bytes i (omega arith)

grow_right-token :
    (bytes : List ℕ) (i : ℕ)
    → i < length bytes
    → is_digit (byte_at bytes i) ≡ true
    → i < grow_right is_token_byte (drop i bytes) i
unfolding grow_right
grow_right-token bytes i h d =
    rw (drop-eq-cons bytes i h)
      (ground (arith, d, grow_right-bounds is_token_byte (drop (suc i) bytes) (suc i)))

find_digit_token-PairIn :
    (bytes : List ℕ) (i : ℕ)
    → i < length bytes
    → is_digit (byte_at bytes i) ≡ true
    → PairIn bytes i (find_digit_token bytes i)
unfolding find_digit_token
find_digit_token-PairIn bytes i h d = ground (
  arith,
  grow_left-le is_token_byte bytes i,
  grow_right-token bytes i h d,
  grow_right-bounds is_token_byte (drop i bytes) i,
  length-drop i bytes,
)

trimmed-PairIn :
    (bytes : List ℕ) (i s e : ℕ)
    → is_digit (byte_at bytes i) ≡ true
    → PairIn bytes i (some (s, e))
    → PairIn bytes i
        (some (trim_left bytes (e - s) s, trim_right bytes (trim_left bytes (e - s) s) e))
trimmed-PairIn bytes i s e d (before, behind, inside) = (
  trim_left-keeps bytes (e - s) s i before d,
  trim_right-keeps bytes (trim_left bytes (e - s) s) e i behind d,
  omega (arith, trim_right-bounds bytes (trim_left bytes (e - s) s) e),
)

digit_candidate-PairIn :
    (bytes : List ℕ) (i : ℕ) → i < length bytes → PairIn bytes i (digit_candidate bytes i)
unfolding digit_candidate
digit_candidate-PairIn bytes i h = elim (Bool-cases (is_digit (byte_at bytes i))) [
  | inr other ↦ rw other tt
  | inl d ↦ rw d (go (find_digit_token bytes i) (find_digit_token-PairIn bytes i h d) d)
]
  where
    go :
        (o : Option (ℕ × ℕ))
        → PairIn bytes i o
        → is_digit (byte_at bytes i) ≡ true
        → PairIn bytes i (trimmed bytes o)
    go none p d = tt
    go (some (s, e)) p d = ground (arith, trimmed-PairIn bytes i s e d p)

email_at-LiesIn : (bytes : List ℕ) (i : ℕ) → i < length bytes → LiesIn bytes i (email_at bytes i)
unfolding email_at
email_at-LiesIn bytes i h = ground (
  arith,
  grow_left-le (λ b. not (is_boundary b)) bytes i,
  grow_right-bounds (λ b. not (is_boundary b)) (drop (suc i) bytes) (suc i),
  length-drop (suc i) bytes,
)

found-LiesIn :
    (bytes : List ℕ) (i : ℕ) (o : Option (ℕ × ℕ))
    → PairIn bytes i o
    → LiesIn bytes i (card_in bytes o) × LiesIn bytes i (ssn_in bytes o)
found-LiesIn bytes i none p = (tt, tt)
found-LiesIn bytes i (some (s, e)) p =
    (found-if card (holds_card (slice bytes s e)), found-if ssn (holds_ssn (slice bytes s e)))
  where
    found-if : (k : PiiKind) (b : Bool) → LiesIn bytes i (if b then found (s, e) k else none)
    found-if k true = record { starts = p.0; advances = p.1; ends = p.2 }
    found-if k false = tt

or_else-LiesIn :
    (bytes : List ℕ) (i : ℕ) (o p : Option Span)
    → LiesIn bytes i o
    → LiesIn bytes i p
    → LiesIn bytes i (or_else o p)
or_else-LiesIn bytes i none p h k = k
or_else-LiesIn bytes i (some x) p h k = h

pub match_all-LiesIn :
    (bytes : List ℕ) (i : ℕ) → i < length bytes → LiesIn bytes i (match_all bytes i)
unfolding match_all
match_all-LiesIn bytes i h =
    let (c, n) =
      found-LiesIn bytes i (digit_candidate bytes i) (digit_candidate-PairIn bytes i h) in
    or_else-LiesIn bytes i _ _ (email_at-LiesIn bytes i h) (or_else-LiesIn bytes i _ _ c n)

pub match_kind-LiesIn :
    (k : PiiKind) (bytes : List ℕ) (i : ℕ)
    → i < length bytes
    → LiesIn bytes i (match_kind k bytes i)
unfolding match_kind
match_kind-LiesIn email bytes i h = email_at-LiesIn bytes i h
match_kind-LiesIn card bytes i h =
    (found-LiesIn bytes i (digit_candidate bytes i) (digit_candidate-PairIn bytes i h)).0
match_kind-LiesIn ssn bytes i h =
    (found-LiesIn bytes i (digit_candidate bytes i) (digit_candidate-PairIn bytes i h)).1
