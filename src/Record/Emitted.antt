-- ===== src/Record/Emitted.antt =====
-- What the records of a whole session satisfy (record.rs, `RecordDecoder`).
use s.Prelude.{
  All, Bool, Bool-cases, List, Option, Result, ap, arith, err, false, if◌then◌else◌, inl, inr,
  length, none, ok, refl, some, true, ◌-◌, ◌||◌, ◌≡◌, nat_eq, string_eq, [], subst, sym, ◌++◌, ◌∙◌,
  ◌∷◌, ◌⊎◌,
}
use s.Record.Session.{
  DecoderCall, call, finish_call, next_call, push_call, segment_call, listed, session,
}
use s.Record.{
  DecoderLimits, ErrorCode, Format, Parsers, Record, RecordDecoder, csv, json, jsonl, plain_text,
  tsv, is_some, a_value, new_decoder,
}
use s.Record.Valid.{Good, GoodIn, IsPlain, csv_scan-Kept, prepare_json-Parsed, prepare_line-Kept}
use s.Record.Line.{accept_json, emit, emit_final, prepare_json, prepare_line, prepare_rest}
use s.Record.Stream.{
  accept_segment, end_of_segment, finish, is_json, next_record, prepare_format, prepare_next, push,
  take_ready,
}
use s.Record.Conservation.{done_ok, given_ok, session_ok}
use s.Record.Accounting.{extended, finish_ok, last_call, prepare_format-format, push_ok}
use s.Record.Csv.{prepare_csv}
use s.Record.CsvSettings.{csv_scan-limits}

-- A call keeps the settings and leaves a record ready that is good for them.
record Settled (parsers : Parsers) (f : Format) (l : DecoderLimits) (n : RecordDecoder)
    : Type 0 where
  pub same_format : n.format ≡ f
  pub same_limits : n.limits ≡ l
  pub good : GoodIn parsers f l n.ready

is_json-eq : (f : Format) → is_json f ≡ true → f ≡ json
is_json-eq json h = refl
is_json-eq jsonl h = absurd cc
is_json-eq csv h = absurd cc
is_json-eq tsv h = absurd cc
is_json-eq plain_text h = absurd cc

new_decoder_settings :
    (f : Format) (l : DecoderLimits) (d : RecordDecoder)
    → new_decoder f l ≡ ok d
    → (d.format ≡ f) × (d.limits ≡ l) × (d.ready ≡ none)
unfolding new_decoder
new_decoder_settings f l d e = (ground arith, ground arith, ground arith)

take_ready_ok :
    (p : Result ErrorCode Unit × RecordDecoder) (o : Option Record) (n : RecordDecoder)
    → take_ready p ≡ (ok o, n)
    → (o ≡ p.1.ready) × (n.ready ≡ none) × (n.limits ≡ p.1.limits) × (n.format ≡ p.1.format)
unfolding take_ready
take_ready_ok (err e, d) o n h = absurd cc
take_ready_ok (ok u, d) o n h = (ground arith, ground arith, ground arith, ground arith)

module _ (parsers : Parsers) where
  IsPlain-GoodIn :
      (f : Format) (l : DecoderLimits) (o : Option Record)
      → is_json f ≡ false
      → IsPlain parsers l o
      → GoodIn parsers f l o
  IsPlain-GoodIn json l o j h = absurd cc
  IsPlain-GoodIn jsonl l none j h = tt
  IsPlain-GoodIn jsonl l (some r) j h = h
  IsPlain-GoodIn csv l none j h = tt
  IsPlain-GoodIn csv l (some r) j h = h
  IsPlain-GoodIn tsv l none j h = tt
  IsPlain-GoodIn tsv l (some r) j h = h
  IsPlain-GoodIn plain_text l none j h = tt
  IsPlain-GoodIn plain_text l (some r) j h = h

  prepare_format-GoodIn :
      (f : Format) (at_eof : Bool) (d : RecordDecoder)
      → d.ready ≡ none
      → GoodIn parsers f d.limits (prepare_format parsers f at_eof d).1.ready
  unfolding prepare_format prepare_csv
  prepare_format-GoodIn json at_eof d e = prepare_json-Parsed parsers at_eof d e
  prepare_format-GoodIn csv at_eof d e =
      IsPlain-GoodIn csv d.limits _ refl
        (csv_scan-Kept parsers (length d.pending - d.scan_offset) at_eof d e)
  prepare_format-GoodIn jsonl at_eof d e =
      IsPlain-GoodIn jsonl d.limits _ refl (prepare_line-Kept parsers at_eof d e)
  prepare_format-GoodIn tsv at_eof d e =
      IsPlain-GoodIn tsv d.limits _ refl (prepare_line-Kept parsers at_eof d e)
  prepare_format-GoodIn plain_text at_eof d e =
      IsPlain-GoodIn plain_text d.limits _ refl (prepare_line-Kept parsers at_eof d e)

  prepare_format-limits :
      (f : Format) (at_eof : Bool) (d : RecordDecoder)
      → (prepare_format parsers f at_eof d).1.limits ≡ d.limits
  unfolding prepare_format prepare_line prepare_json prepare_csv emit prepare_rest accept_json
      emit_final
  prepare_format-limits plain_text at_eof d = ground arith
  prepare_format-limits jsonl at_eof d = ground arith
  prepare_format-limits tsv at_eof d = ground arith
  prepare_format-limits json at_eof d = ground arith
  prepare_format-limits csv at_eof d =
      csv_scan-limits parsers (length d.pending - d.scan_offset) at_eof d

  prepare_next-Settled :
      (at_eof : Bool) (d : RecordDecoder)
      → GoodIn parsers d.format d.limits d.ready
      → Settled parsers d.format d.limits (prepare_next parsers at_eof d).1
  unfolding prepare_next
  prepare_next-Settled at_eof d g = elim (Bool-cases (is_some d.ready || d.complete)) [
    | inl b ↦ rw (b, prepare_next) (record { same_format = refl; same_limits = refl; good = g })
    | inr b ↦
        let e : d.ready ≡ none = ground arith in
        rw (b, prepare_next)
          (record {
            same_format = prepare_format-format parsers d.format at_eof d;
            same_limits = prepare_format-limits d.format at_eof d;
            good = prepare_format-GoodIn d.format at_eof d e;
          })
  ]

  read-Settled :
      (d : RecordDecoder)
      → GoodIn parsers d.format d.limits d.ready
      → Settled parsers d.format d.limits
          (if is_some d.ready then (ok tt, d) else prepare_next parsers d.finished d).1
  read-Settled d g = elim (Bool-cases (is_some d.ready)) [
    | inl b ↦ rw b (record { same_format = refl; same_limits = refl; good = g })
    | inr b ↦ rw b (prepare_next-Settled d.finished d g)
  ]

  segment_ok :
      (d n : RecordDecoder)
      → end_of_segment parsers d ≡ (ok tt, n)
      → (n ≡ d)
        ⊎ ((d.format ≡ json)
            × (parsers.parse_json d.pending ≡ a_value)
            × (n.ready ≡ some (record { payload = d.pending; separator = [] }))
            × (n.format ≡ d.format)
            × (n.limits ≡ d.limits))
  unfolding end_of_segment accept_segment
  segment_ok d n h = ground (arith, is_json-eq d.format)

  listed-All :
      (f : Format) (l : DecoderLimits) (o : Option Record)
      → GoodIn parsers f l o
      → All (Good parsers f l) (listed o)
  listed-All f l none h = tt
  listed-All f l (some r) h = (h, tt)

  segment-Settled :
      (d n : RecordDecoder)
      → GoodIn parsers d.format d.limits d.ready
      → end_of_segment parsers d ≡ (ok tt, n)
      → Settled parsers d.format d.limits n
  unfolding end_of_segment accept_segment
  segment-Settled d n g h = elim (segment_ok d n h) [
    | inl q ↦ rw q (record { same_format = refl; same_limits = refl; good = g })
    | inr (j, v, r, f, l) ↦ record {
      same_format = f;
      same_limits = l;
      good =
          subst (λ o. GoodIn parsers d.format d.limits o) (sym r)
            (subst (λ x. Good parsers x d.limits (record { payload = d.pending; separator = [] }))
              (sym j) v);
    }
  ]

  call-Settled :
      (c : DecoderCall) (d n : RecordDecoder) (rs : List Record)
      → GoodIn parsers d.format d.limits d.ready
      → call parsers c d ≡ ok (rs, n)
      → Settled parsers d.format d.limits n × All (Good parsers d.format d.limits) rs
  unfolding call next_record
  call-Settled (push_call chunk) d n rs g h =
      let (q, e) = done_ok (push parsers chunk d) n rs h in
      let (_, p) = push_ok parsers chunk d n q in
      let s = prepare_next-Settled false (extended chunk d) g in (rw (← ap (λ x. x.1) p) s, rw e tt)
  call-Settled next_call d n rs g h =
      let (o, q, e) = given_ok (next_record parsers d) n rs h in
      let p = if is_some d.ready then (ok tt, d) else prepare_next parsers d.finished d in
      let (w, z, l, f) = take_ready_ok p o n q in
      let s = read-Settled d g in
      (
        record { same_format = f ∙ s.same_format; same_limits = l ∙ s.same_limits; good = rw z tt },
        rw e (listed-All d.format d.limits o (rw w s.good)),
      )
  call-Settled finish_call d n rs g h =
      let (q, e) = done_ok (finish parsers d) n rs h in
      elim (finish_ok parsers d n q) [
        | inl w ↦ (rw w (record { same_format = refl; same_limits = refl; good = g }), rw e tt)
        | inr w ↦ (rw w (prepare_next-Settled true (last_call d) g), rw e tt)
      ]
  call-Settled segment_call d n rs g h =
      let (q, e) = done_ok (end_of_segment parsers d) n rs h in (segment-Settled d n g q, rw e tt)

  All-append : (P : Record → Type 0) (rs qs : List Record) → All P rs → All P qs → All P (rs ++ qs)
  All-append P [] qs h k = k
  All-append P (r ∷ rs) qs h k = (h.0, All-append P rs qs h.1 k)

  session-Good :
      (cs : List DecoderCall) (d n : RecordDecoder) (rs : List Record)
      → GoodIn parsers d.format d.limits d.ready
      → session parsers cs d ≡ ok (rs, n)
      → All (Good parsers d.format d.limits) rs
  unfolding session
  session-Good [] d n rs g h = let e : rs ≡ [] = cc in rw e tt
  session-Good (c ∷ cs) d n rs g h =
      let (qs, m, ts, q, r, e) = session_ok parsers c cs d n rs h in
      let (s, a) = call-Settled c d m qs g q in
      let good : GoodIn parsers m.format m.limits m.ready =
        rw (s.same_format, s.same_limits) s.good in
      let b : All (Good parsers d.format d.limits) ts =
        rw (← s.same_format, ← s.same_limits) (session-Good cs m n ts good r) in
      rw e (All-append (Good parsers d.format d.limits) qs ts a b)

  -- Whatever calls are made of a new decoder, as long as none fails: every record that it returns is,
  -- for JSON, a text that parses, and for any other format no longer than the limit on records, and
  -- valid UTF-8.
  pub session_valid :
      (f : Format) (l : DecoderLimits) (d n : RecordDecoder) (cs : List DecoderCall)
      (rs : List Record)
      → new_decoder f l ≡ ok d
      → session parsers cs d ≡ ok (rs, n)
      → All (Good parsers f l) rs
  session_valid f l d n cs rs e h =
      let (q, w, z) = new_decoder_settings f l d e in
      rw (← q, ← w) (session-Good cs d n rs (rw z tt) h)
