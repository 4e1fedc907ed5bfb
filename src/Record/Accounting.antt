-- ===== src/Record/Accounting.antt =====
-- What becomes of the bytes that a decoder is given (record.rs, `RecordDecoder`).
use s.Record.Blank.{Accounts, Accounts-eq, Accounts-trans}
use s.Prelude.{
  Bool, Bool-cases, List, Option, Result, ap, append-nil, append_assoc, arith, err, false,
  if◌then◌else◌, inl, inr, length, none, not, ok, refl, subst, sym, true, ℕ, ◌++◌, ◌-◌, ◌||◌, ◌∙◌,
  ◌≡◌, ◌⊎◌, nat_eq, string_eq, is_empty,
}
use s.Record.{
  ErrorCode, Format, Parsers, Record, RecordDecoder, csv, json, jsonl, plain_text, tsv, is_some,
}
use s.Record.Line.{accept_json, emit, emit_final, prepare_json, prepare_line, prepare_rest}
use s.Record.Stream.{
  accept_segment, end_of_segment, finish, next_record, prepare_format, prepare_next, push, some_csv,
  take_ready,
}
use s.Record.CsvBytes.{csv_scan-Trims}
use s.Record.Lossless.{held, prepare_json-Keeps, prepare_line-Keeps, wire_of}
use s.Record.Csv.{prepare_csv}
use s.Record.CsvSettings.{csv_scan-format}

take_ready-held :
    (p : Result ErrorCode Unit × RecordDecoder) (o : Option Record) (n : RecordDecoder)
    → take_ready p ≡ (ok o, n)
    → (held p.1 ≡ wire_of o ++ held n) × (n.format ≡ p.1.format)
unfolding take_ready
take_ready-held (err e, d) o n h = absurd cc
take_ready-held (ok u, d) o n h = (ground arith, ground arith)

some_csv_ok :
    (p : Result ErrorCode Unit × RecordDecoder) (n : RecordDecoder)
    → some_csv p ≡ (ok tt, n)
    → n ≡ p.1
unfolding some_csv
some_csv_ok (err e, d) n h = absurd cc
some_csv_ok (ok u, d) n h = ground arith

-- What `push` and `finish` hand on to `prepare_next`.
abbrev pub extended : List ℕ → RecordDecoder → RecordDecoder
extended chunk d = record d {
  input_seen = d.input_seen || not (is_empty chunk);
  pending = d.pending ++ chunk;
}

abbrev pub last_call : RecordDecoder → RecordDecoder
last_call d = record d { finished = true }

module _ (parsers : Parsers) where
  prepare_format-Accounts :
      (f : Format) (at_eof : Bool) (d : RecordDecoder)
      → d.ready ≡ none
      → Accounts f d.pending (held (prepare_format parsers f at_eof d).1)
  unfolding prepare_format prepare_csv
  prepare_format-Accounts plain_text at_eof d e = sym (prepare_line-Keeps parsers at_eof d e)
  prepare_format-Accounts jsonl at_eof d e = sym (prepare_line-Keeps parsers at_eof d e)
  prepare_format-Accounts tsv at_eof d e = sym (prepare_line-Keeps parsers at_eof d e)
  prepare_format-Accounts json at_eof d e = sym (prepare_json-Keeps parsers at_eof d e)
  prepare_format-Accounts csv at_eof d e =
      csv_scan-Trims parsers (length d.pending - d.scan_offset) at_eof d e

  pub prepare_format-format :
      (f : Format) (at_eof : Bool) (d : RecordDecoder)
      → (prepare_format parsers f at_eof d).1.format ≡ d.format
  unfolding prepare_format prepare_line prepare_json prepare_csv emit prepare_rest accept_json
      emit_final
  prepare_format-format plain_text at_eof d = ground arith
  prepare_format-format jsonl at_eof d = ground arith
  prepare_format-format tsv at_eof d = ground arith
  prepare_format-format json at_eof d = ground arith
  prepare_format-format csv at_eof d =
      csv_scan-format parsers (length d.pending - d.scan_offset) at_eof d

  pub prepare_next-format :
      (at_eof : Bool) (d : RecordDecoder) → (prepare_next parsers at_eof d).1.format ≡ d.format
  unfolding prepare_next
  prepare_next-format at_eof d = ground (arith, prepare_format-format d.format at_eof d)

  prepare_next-Accounts :
      (at_eof : Bool) (d : RecordDecoder)
      → Accounts d.format (held d) (held (prepare_next parsers at_eof d).1)
  unfolding prepare_next
  prepare_next-Accounts at_eof d = elim (Bool-cases (is_some d.ready || d.complete)) [
    | inl b ↦ rw (b, prepare_next) (Accounts-eq d.format _ _ refl)
    | inr b ↦
        let e : d.ready ≡ none = ground arith in
        rw (b, prepare_next)
          (subst (λ l. Accounts d.format l (held (prepare_format parsers d.format at_eof d).1))
            (ap (λ o. wire_of o ++ d.pending) (sym e))
            (prepare_format-Accounts d.format at_eof d e))
  ]

  read-Accounts :
      (d : RecordDecoder)
      → Accounts d.format
          (held d)
          (held (if is_some d.ready then (ok tt, d) else prepare_next parsers d.finished d).1)
        × ((if is_some d.ready then (ok tt, d) else prepare_next parsers d.finished d).1.format
            ≡ d.format)
  read-Accounts d = elim (Bool-cases (is_some d.ready)) [
    | inl b ↦ rw b (Accounts-eq d.format _ _ refl, refl)
    | inr b ↦ rw b (prepare_next-Accounts d.finished d, prepare_next-format d.finished d)
  ]

  pub push_ok :
      (chunk : List ℕ) (d n : RecordDecoder)
      → push parsers chunk d ≡ (ok tt, n)
      → (d.ready ≡ none) × (prepare_next parsers false (extended chunk d) ≡ (ok tt, n))
  unfolding push
  push_ok chunk d n h = (ground arith, ground arith)

  pub push-Accounts :
      (chunk : List ℕ) (d n : RecordDecoder)
      → push parsers chunk d ≡ (ok tt, n)
      → Accounts d.format (held d ++ chunk) (held n) × (n.format ≡ d.format)
  push-Accounts chunk d n h =
      let (e, q) = push_ok chunk d n h in
      let q' : (prepare_next parsers false (extended chunk d)).1 ≡ n = ap (λ x. x.1) q in
      (
        rw (← q') (
            Accounts-trans d.format _ (held (extended chunk d)) _
              (Accounts-eq d.format _ _ (append_assoc (wire_of d.ready) d.pending chunk))
              (prepare_next-Accounts false (extended chunk d))),
        rw (← q') (prepare_next-format false (extended chunk d)),
      )

  pub next-Accounts :
      (d n : RecordDecoder) (o : Option Record)
      → next_record parsers d ≡ (ok o, n)
      → Accounts d.format (held d) (wire_of o ++ held n) × (n.format ≡ d.format)
  unfolding next_record
  next-Accounts d n o h =
      let p = if is_some d.ready then (ok tt, d) else prepare_next parsers d.finished d in
      let (a, f) = take_ready-held p o n h in
      let (b, g) = read-Accounts d in
      (Accounts-trans d.format _ (held p.1) _ b (Accounts-eq d.format _ _ a), f ∙ g)

  pub finish_ok :
      (d n : RecordDecoder)
      → finish parsers d ≡ (ok tt, n)
      → (n ≡ d) ⊎ (n ≡ (prepare_next parsers true (last_call d)).1)
  unfolding finish
  finish_ok d n h = ground (arith, some_csv_ok (prepare_next parsers true (last_call d)) n)

  pub finish-Accounts :
      (d n : RecordDecoder)
      → finish parsers d ≡ (ok tt, n)
      → Accounts d.format (held d) (held n) × (n.format ≡ d.format)
  finish-Accounts d n h = elim (finish_ok d n h) [
    | inl q ↦ rw q (Accounts-eq d.format _ _ refl, refl)
    | inr q ↦
        rw q (prepare_next-Accounts true (last_call d), prepare_next-format true (last_call d))
  ]

  pub segment-Accounts :
      (d n : RecordDecoder)
      → end_of_segment parsers d ≡ (ok tt, n)
      → Accounts d.format (held d) (held n) × (n.format ≡ d.format)
  unfolding end_of_segment accept_segment
  segment-Accounts d n h =
      (Accounts-eq d.format _ _ (ground (arith, append-nil d.pending)), ground arith)
