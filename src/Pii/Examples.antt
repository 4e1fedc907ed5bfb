-- ===== src/Pii/Examples.antt =====
-- The scan and the redaction on concrete texts.
use s.Prelude.{All, List, [], arith, refl, ℕ, ◌∷◌, ◌≡◌, nat_eq, string_eq, true}
use s.Pii.Spans.{
  Covered, Genuine, InOrder, find_all_spans_complete, find_all_spans_sound,
  find_all_spans_terminates,
}
use s.Pii.Replace.{Hides, Piece, original, redact_pii, redact_pii_sound, shown}
use s.Pii.{Span, marker_text, ssn, is_valid_ssn, is_valid_ssn_format}
use s.Pii.Scan.{find_all_spans, match_all, digit_candidate, email_at, scan}

-- "no 123-45-6789"
abbrev text_with_ssn : List ℕ
text_with_ssn =
    b'n' ∷ b'o' ∷ b' ' ∷ b'1' ∷ b'2' ∷ b'3' ∷ b'-' ∷ b'4' ∷ b'5' ∷ b'-' ∷ b'6' ∷ b'7' ∷ b'8' ∷ b'9'
    ∷ []

abbrev the_ssn : Span
the_ssn = record { start = 3; end = 14; marker = ssn }

spans_example : find_all_spans text_with_ssn ≡ the_ssn ∷ []
unfolding find_all_spans scan match_all email_at digit_candidate is_valid_ssn_format is_valid_ssn
spans_example = refl

find_all_spans_sound_example :
    InOrder text_with_ssn 0 (find_all_spans text_with_ssn)
    × All (Genuine text_with_ssn) (find_all_spans text_with_ssn)
find_all_spans_sound_example = find_all_spans_sound text_with_ssn

find_all_spans_complete_example : Covered 3 (find_all_spans text_with_ssn)
unfolding match_all email_at digit_candidate is_valid_ssn_format is_valid_ssn
find_all_spans_complete_example = find_all_spans_complete text_with_ssn 3 the_ssn (omega arith) refl

redact_ssn_example : redact_pii text_with_ssn ≡ b'n' ∷ b'o' ∷ b' ' ∷ marker_text ssn
unfolding redact_pii scan match_all email_at digit_candidate is_valid_ssn_format is_valid_ssn
redact_ssn_example = refl

redact_pii_sound_example :
    (ps : List Piece) × (original text_with_ssn ps ≡ text_with_ssn)
    × (shown ps ≡ redact_pii text_with_ssn)
    × Hides (Genuine text_with_ssn) ps
redact_pii_sound_example = redact_pii_sound text_with_ssn

find_all_spans_terminates_example :
    scan match_all text_with_ssn 20 0 ≡ (find_all_spans text_with_ssn, true)
find_all_spans_terminates_example = find_all_spans_terminates text_with_ssn 20 (omega arith)
