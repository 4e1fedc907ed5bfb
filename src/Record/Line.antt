-- ===== src/Record/Line.antt =====
-- Records that are lines, and whole JSON documents (record.rs, `prepare_line`, `prepare_json`).
use s.Prelude.{
  Bool, List, Option, [], drop, eqb, err, get_or, if◌then◌else◌, length, ltb, none, not, ok, some,
  suc, take, true, ℕ, ◌&&◌, ◌+◌, ◌-◌, ◌||◌, ◌∷◌, nat_eq, string_eq, is_empty,
}
use s.Record.{
  ErrorCode, JsonParse, Parsers, RecordDecoder, Step, a_value, decode_encoding, decode_json,
  early_end, malformed, record_too_large,
}

abbrev pub newline : ℕ
newline = 10

abbrev pub carriage_return : ℕ
carriage_return = 13

-- `iter().position(|byte| *byte == b'\n')`
unfoldable pub newline_in : List ℕ → Option ℕ
newline_in [] = none
newline_in (b ∷ l) = let rest = newline_in l in if eqb b newline then some 0 else later rest
  where
    later : Option ℕ → Option ℕ
    later none = none
    later (some i) = some (suc i)

-- Where the payload of the line that ends at the newline `at` ends.
unfoldable pub line_cut : List ℕ → ℕ → ℕ
line_cut pending at =
    if ltb 0 at && eqb (get_or pending (at - 1) 0) carriage_return then at - 1 else at

unfoldable pub emit_final : RecordDecoder → RecordDecoder
emit_final d = record d {
  ready = some (record { payload = d.pending; separator = [] });
  pending = [];
  input_seen = true;
  complete = true;
  scan_offset = 0;
}

module _ (parsers : Parsers) where
  unfoldable pub emit : ℕ → ℕ → ℕ → ErrorCode → Step Unit
  emit payload_end separator_start consumed code d =
      if ltb d.limits.max_record_bytes payload_end
      then (err record_too_large, d)
      else if not (parsers.valid_utf8 (take payload_end d.pending))
      then (err code, d)
      else (
        ok tt,
        record d {
          pending = drop consumed d.pending;
          ready = some (record {
            payload = take payload_end d.pending;
            separator = drop separator_start (take consumed d.pending);
          });
          scan_offset = 0;
        },
      )

  -- The last bytes of the stream, without a newline.
  unfoldable pub prepare_rest : Bool → Step Unit
  unfolding emit_final
  prepare_rest at_eof d =
      if ltb d.limits.max_record_bytes (length d.pending)
      then (err record_too_large, d)
      else if at_eof && (not (is_empty d.pending) || not d.input_seen)
      then (if parsers.valid_utf8 d.pending
          then (ok tt, emit_final d)
          else (err decode_encoding, d))
      else (ok tt, if at_eof then record d { complete = true } else d)

  unfoldable pub prepare_line : Bool → Step Unit
  unfolding newline_in line_cut emit prepare_rest
  prepare_line at_eof d = elim (newline_in (drop d.scan_offset d.pending)) [
    | some i ↦
        let at = d.scan_offset + i in
        let cut = line_cut d.pending at in emit cut cut (at + 1) decode_encoding d
    | none ↦ prepare_rest at_eof (record d { scan_offset = length d.pending })
  ]

  -- A document that parses is the record.
  unfoldable pub accept_json : JsonParse → Step Unit
  unfolding emit_final
  accept_json a_value d = (ok tt, emit_final d)
  accept_json early_end d = (err decode_json, d)
  accept_json malformed d = (err decode_json, d)

  unfoldable pub prepare_json : Bool → Step Unit
  unfolding accept_json
  prepare_json at_eof d =
      if ltb d.limits.max_json_document_bytes (length d.pending)
      then (err record_too_large, d)
      else if not at_eof
      then (ok tt, d)
      else if is_empty d.pending
      then (ok tt, record d { complete = true })
      else if not (parsers.valid_utf8 d.pending)
      then (err decode_encoding, d)
      else accept_json (parsers.parse_json d.pending) d
