-- ===== src/Record/Valid.antt =====
-- What the records that a decoder returns satisfy (record.rs, `RecordDecoder`).
use s.Prelude.{
  Bool, Bool-cases, Option, Option-cases, Result, arith, drop, err, inl, inr, length, length-take,
  ltb, none, ok, refl, some, subst, suc, take, true, zero, ℕ, ◌+◌, ◌∙◌, ◌≡◌, ◌≤◌, nat_eq, string_eq,
}
use s.Record.CsvBytes.{CsvTurn-cases, csv_turn-Round, csv_turn-stop}
use s.Record.{
  DecoderLimits, ErrorCode, Format, Parsers, Record, RecordDecoder, a_value, decode_csv,
  decode_encoding, json,
}
use s.Record.Line.{
  accept_json, emit, emit_final, line_cut, newline_in, prepare_json, prepare_line, prepare_rest,
}
use s.Record.Csv.{csv_rest, csv_scan, csv_turn, emit_csv, finish_csv, on_reset, reset_csv_state}

abbrev pub Good : Parsers → Format → DecoderLimits → Record → Type 0
Good parsers json l r = parsers.parse_json r.payload ≡ a_value
Good parsers _ l r = (length r.payload ≤ l.max_record_bytes) × (parsers.valid_utf8 r.payload ≡ true)

abbrev pub GoodIn : Parsers → Format → DecoderLimits → Option Record → Type 0
GoodIn parsers f l none = Unit
GoodIn parsers f l (some r) = Good parsers f l r

-- A record of any format but JSON is within the limit, and UTF-8.
abbrev pub IsPlain : Parsers → DecoderLimits → Option Record → Type 0
IsPlain parsers l none = Unit
IsPlain parsers l (some r) =
    (length r.payload ≤ l.max_record_bytes) × (parsers.valid_utf8 r.payload ≡ true)

module _ (parsers : Parsers) where
  emit-Kept :
      (p c : ℕ) (code : ErrorCode) (d : RecordDecoder)
      → d.ready ≡ none
      → IsPlain parsers d.limits (emit parsers p p c code d).1.ready
  unfolding emit
  emit-Kept p c code d e = elim (Bool-cases (ltb d.limits.max_record_bytes p)) [
    | inl b ↦ rw (b, e) tt
    | inr b ↦ elim (Bool-cases (parsers.valid_utf8 (take p d.pending))) [
      | inl v ↦ rw (b, v) (ground (arith, b, length-take p d.pending), v)
      | inr v ↦ rw (b, v, e) tt
    ]
  ]

  prepare_rest-Kept :
      (at_eof : Bool) (d : RecordDecoder)
      → d.ready ≡ none
      → IsPlain parsers d.limits (prepare_rest parsers at_eof d).1.ready
  unfolding prepare_rest emit_final
  prepare_rest-Kept at_eof d e = ground (arith, e)

  pub prepare_line-Kept :
      (at_eof : Bool) (d : RecordDecoder)
      → d.ready ≡ none
      → IsPlain parsers d.limits (prepare_line parsers at_eof d).1.ready
  unfolding prepare_line
  prepare_line-Kept at_eof d e = elim (Option-cases (newline_in (drop d.scan_offset d.pending))) [
    | inl q ↦
        rw (q, prepare_line)
          (prepare_rest-Kept at_eof (record d { scan_offset = length d.pending }) e)
    | inr (i, q) ↦
        let at = d.scan_offset + i in
        rw (q, prepare_line) (emit-Kept (line_cut d.pending at) (at + 1) decode_encoding d e)
  ]

  on_reset-ready : (r : Result ErrorCode Unit × RecordDecoder) → (on_reset r).1.ready ≡ r.1.ready
  unfolding on_reset reset_csv_state
  on_reset-ready (err e, d) = refl
  on_reset-ready (ok u, d) = refl

  emit_csv-Kept :
      (p s : ℕ) (d : RecordDecoder)
      → d.ready ≡ none
      → IsPlain parsers d.limits (emit_csv parsers p s d).1.ready
  unfolding emit_csv
  emit_csv-Kept p s d e =
      ground
        (arith, e, on_reset-ready (emit parsers p p s decode_csv d), emit-Kept p s decode_csv d e)

  csv_rest-Kept :
      (at_eof : Bool) (d : RecordDecoder)
      → d.ready ≡ none
      → IsPlain parsers d.limits (csv_rest parsers at_eof d).1.ready
  unfolding csv_rest finish_csv reset_csv_state emit_final
  csv_rest-Kept at_eof d e = ground (arith, e)

  pub csv_scan-Kept :
      (fuel : ℕ) (at_eof : Bool) (d : RecordDecoder)
      → d.ready ≡ none
      → IsPlain parsers d.limits (csv_scan parsers fuel at_eof d).0.1.ready
  unfolding csv_scan
  csv_scan-Kept zero at_eof d e = csv_rest-Kept at_eof d e
  csv_scan-Kept (suc fuel) at_eof d e = elim (CsvTurn-cases (csv_turn at_eof d)) [
    | inl q ↦ rw (q, csv_scan) (csv_rest-Kept at_eof d e)
    | inr (inl (n, q)) ↦
        let r = csv_turn-Round at_eof d n q in
        rw (q, csv_scan)
          (subst (λ l. IsPlain parsers l (csv_scan parsers fuel at_eof n).0.1.ready) r.same_limits
            (csv_scan-Kept fuel at_eof n (r.no_record ∙ e)))
    | inr (inr (inl (x, n, q))) ↦
        let (b, c, f) = csv_turn-stop at_eof d n x q in rw (q, csv_scan) (rw (c, e) tt)
    | inr (inr (inr (p, s, q))) ↦ rw (q, csv_scan) (emit_csv-Kept p s d e)
  ]

  pub prepare_json-Parsed :
      (at_eof : Bool) (d : RecordDecoder)
      → d.ready ≡ none
      → GoodIn parsers json d.limits (prepare_json parsers at_eof d).1.ready
  unfolding prepare_json accept_json emit_final
  prepare_json-Parsed at_eof d e = ground (arith, e)
