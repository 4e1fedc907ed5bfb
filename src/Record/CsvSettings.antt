-- ===== src/Record/CsvSettings.antt =====
-- The CSV loop keeps the format and the limits of its decoder (record.rs, `prepare_csv`).
use s.Prelude.{
  Bool, Result, arith, err, inl, inr, ok, refl, suc, zero, ℕ, ◌∙◌, ◌≡◌, nat_eq, string_eq,
}
use s.Record.CsvBytes.{CsvTurn-cases, csv_turn-Round, csv_turn-stop}
use s.Record.{ErrorCode, Parsers, RecordDecoder, decode_csv}
use s.Record.Csv.{
  count_field, csv_act, csv_rest, csv_scan, csv_turn, emit_csv, end_line, finish_csv, on_reset,
  reset_csv_state, stop,
}
use s.Record.Line.{emit, emit_final}

csv_turn-stop_limits :
    (at_eof : Bool) (d n : RecordDecoder) (e : ErrorCode)
    → csv_turn at_eof d ≡ stop e n
    → n.limits ≡ d.limits
unfolding csv_turn csv_act count_field end_line
csv_turn-stop_limits at_eof d n e h = ground arith

module _ (parsers : Parsers) where
  on_reset-format : (r : Result ErrorCode Unit × RecordDecoder) → (on_reset r).1.format ≡ r.1.format
  unfolding on_reset reset_csv_state
  on_reset-format (err e, d) = refl
  on_reset-format (ok u, d) = refl

  emit_csv-format : (p s : ℕ) (d : RecordDecoder) → (emit_csv parsers p s d).1.format ≡ d.format
  unfolding emit_csv emit
  emit_csv-format p s d = ground (arith, on_reset-format (emit parsers p p s decode_csv d))

  csv_rest-format :
      (at_eof : Bool) (d : RecordDecoder) → (csv_rest parsers at_eof d).1.format ≡ d.format
  unfolding csv_rest finish_csv reset_csv_state emit_final
  csv_rest-format at_eof d = ground arith

  pub csv_scan-format :
      (fuel : ℕ) (at_eof : Bool) (d : RecordDecoder)
      → (csv_scan parsers fuel at_eof d).0.1.format ≡ d.format
  unfolding csv_scan
  csv_scan-format zero at_eof d = csv_rest-format at_eof d
  csv_scan-format (suc fuel) at_eof d = elim (CsvTurn-cases (csv_turn at_eof d)) [
    | inl q ↦ rw (q, csv_scan) (csv_rest-format at_eof d)
    | inr (inl (n, q)) ↦
        rw (q, csv_scan) (csv_scan-format fuel at_eof n ∙ (csv_turn-Round at_eof d n q).same_format)
    | inr (inr (inl (x, n, q))) ↦ rw (q, csv_scan) (csv_turn-stop at_eof d n x q).2
    | inr (inr (inr (p, s, q))) ↦ rw (q, csv_scan) (emit_csv-format p s d)
  ]

  on_reset-limits : (r : Result ErrorCode Unit × RecordDecoder) → (on_reset r).1.limits ≡ r.1.limits
  unfolding on_reset reset_csv_state
  on_reset-limits (err e, d) = refl
  on_reset-limits (ok u, d) = refl

  emit_csv-limits : (p s : ℕ) (d : RecordDecoder) → (emit_csv parsers p s d).1.limits ≡ d.limits
  unfolding emit_csv emit
  emit_csv-limits p s d = ground (arith, on_reset-limits (emit parsers p p s decode_csv d))

  csv_rest-limits :
      (at_eof : Bool) (d : RecordDecoder) → (csv_rest parsers at_eof d).1.limits ≡ d.limits
  unfolding csv_rest finish_csv reset_csv_state emit_final
  csv_rest-limits at_eof d = ground arith

  pub csv_scan-limits :
      (fuel : ℕ) (at_eof : Bool) (d : RecordDecoder)
      → (csv_scan parsers fuel at_eof d).0.1.limits ≡ d.limits
  unfolding csv_scan
  csv_scan-limits zero at_eof d = csv_rest-limits at_eof d
  csv_scan-limits (suc fuel) at_eof d = elim (CsvTurn-cases (csv_turn at_eof d)) [
    | inl q ↦ rw (q, csv_scan) (csv_rest-limits at_eof d)
    | inr (inl (n, q)) ↦
        rw (q, csv_scan) (csv_scan-limits fuel at_eof n ∙ (csv_turn-Round at_eof d n q).same_limits)
    | inr (inr (inl (x, n, q))) ↦ rw (q, csv_scan) (csv_turn-stop_limits at_eof d n x q)
    | inr (inr (inr (p, s, q))) ↦ rw (q, csv_scan) (emit_csv-limits p s d)
  ]
