-- ===== src/Pii/Scan.antt =====
-- The scan for spans of personal data (filters/pii-shared, `find_all_spans` and `find_spans`).
use s.Prelude.{
  Bool, List, Option, [], eqb, false, not, if◌then◌else◌, leb, length, ltb, none, some, suc, true,
  zero, ℕ, ◌&&◌, ◌-◌, ◌∷◌, nat_eq, string_eq,
}
use s.Pii.{
  PiiKind, Span, byte_at, card, digits_of, email, find_digit_token, find_email_boundary, is_digit,
  is_valid_card, is_valid_email, is_valid_ssn, is_valid_ssn_format, slice, ssn, trim_left,
  trim_right,
}

-- The token without the spaces and dashes at its ends; nothing if that leaves nothing.
unfoldable pub trimmed : List ℕ → Option (ℕ × ℕ) → Option (ℕ × ℕ)
unfolding trim_left trim_right
trimmed bytes none = none
trimmed bytes (some (start, stop)) =
    let s = trim_left bytes (stop - start) start in
    let e = trim_right bytes s stop in if leb e s then none else some (s, e)

-- The digits around a digit at `i`.
unfoldable pub digit_candidate : List ℕ → ℕ → Option (ℕ × ℕ)
unfolding find_digit_token trimmed
digit_candidate bytes i =
    if is_digit (byte_at bytes i) then trimmed bytes (find_digit_token bytes i) else none

unfoldable pub email_at : List ℕ → ℕ → Option Span
unfolding find_email_boundary is_valid_email
email_at bytes i =
    if eqb (byte_at bytes i) b'@'
    then elim (find_email_boundary bytes i) [
      | none ↦ none
      | some (s, e) ↦
          if is_valid_email (slice bytes s e)
          then some (record { start = s; end = e; marker = email })
          else none
    ]
    else none

-- `(13..=19).contains(&digit_count)` and a valid card.
abbrev pub holds_card : List ℕ → Bool
holds_card t =
    leb 13 (length (digits_of t)) && leb (length (digits_of t)) 19 && is_valid_card (digits_of t)

abbrev pub holds_ssn : List ℕ → Bool
holds_ssn t = eqb (length (digits_of t)) 9 && is_valid_ssn_format t && is_valid_ssn (digits_of t)

abbrev pub found : ℕ × ℕ → PiiKind → Option Span
found (s, e) kind = some (record { start = s; end = e; marker = kind })

abbrev pub card_in : List ℕ → Option (ℕ × ℕ) → Option Span
card_in bytes none = none
card_in bytes (some (s, e)) = if holds_card (slice bytes s e) then found (s, e) card else none

abbrev pub ssn_in : List ℕ → Option (ℕ × ℕ) → Option Span
ssn_in bytes none = none
ssn_in bytes (some (s, e)) = if holds_ssn (slice bytes s e) then found (s, e) ssn else none

abbrev pub or_else : Option Span → Option Span → Option Span
or_else none o = o
or_else (some x) o = some x

-- What one round of `find_all_spans` finds at `i`.
unfoldable pub match_all : List ℕ → ℕ → Option Span
match_all bytes i =
    or_else (email_at bytes i)
      (or_else (card_in bytes (digit_candidate bytes i)) (ssn_in bytes (digit_candidate bytes i)))

-- What one round of `find_spans` finds at `i`.
unfoldable pub match_kind : PiiKind → List ℕ → ℕ → Option Span
match_kind email bytes i = email_at bytes i
match_kind card bytes i = card_in bytes (digit_candidate bytes i)
match_kind ssn bytes i = ssn_in bytes (digit_candidate bytes i)

-- The loop: after a span at its end, else one byte on. With the spans comes whether the loop has left
-- by its condition; without fuel it is cut off before the next round.
unfoldable pub scan : (List ℕ → ℕ → Option Span) → List ℕ → ℕ → ℕ → List Span × Bool
scan match bytes zero i = ([], not (ltb i (length bytes)))
scan match bytes (suc fuel) i = elim (ltb i (length bytes)) [
  | false ↦ ([], true)
  | true ↦ elim (match bytes i) [
    | none ↦ scan match bytes fuel (suc i)
    | some x ↦ let rest = scan match bytes fuel x.end in (x ∷ rest.0, rest.1)
  ]
]

unfoldable pub find_all_spans : List ℕ → List Span
find_all_spans bytes = (scan match_all bytes (length bytes) 0).0

unfoldable pub find_spans : List ℕ → PiiKind → List Span
find_spans bytes kind = (scan (match_kind kind) bytes (length bytes) 0).0
