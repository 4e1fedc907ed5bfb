-- ===== src/Record/Stream.antt =====
-- The decoder's interface (record.rs, `RecordDecoder`).
use s.Prelude.{
  Bool, List, Option, Result, [], eqb, err, false, if◌then◌else◌, length, ltb, none, not, ok, some,
  true, ℕ, ◌&&◌, ◌++◌, ◌+◌, ◌||◌, nat_eq, string_eq, is_empty,
}
use s.Record.{
  ErrorCode, Format, JsonParse, Parsers, Record, RecordDecoder, Step, a_value, csv, decode_csv,
  decode_json, early_end, internal, json, jsonl, limit_input_bytes, malformed, plain_text, tsv,
  is_some,
}
use s.Record.Csv.{prepare_csv}
use s.Record.Line.{prepare_json, prepare_line}

abbrev pub is_csv : Format → Bool
is_csv csv = true
is_csv _ = false

abbrev pub is_json : Format → Bool
is_json json = true
is_json _ = false

-- `buffered_bytes`
abbrev ready_bytes : Option Record → ℕ
ready_bytes none = 0
ready_bytes (some r) = length r.payload + length r.separator

unfoldable pub buffered_bytes : RecordDecoder → ℕ
buffered_bytes d = length d.pending + ready_bytes d.ready

-- `ready.take()`, counted.
unfoldable pub take_ready :
    Result ErrorCode Unit × RecordDecoder → Result ErrorCode (Option Record) × RecordDecoder
take_ready (err e, d) = (err e, d)
take_ready (ok _, d) = (
  ok d.ready,
  record d {
    ready = none;
    records_emitted = if is_some d.ready then d.records_emitted + 1 else d.records_emitted;
  },
)

-- The last test of `finish`.
unfoldable pub some_csv :
    Result ErrorCode Unit × RecordDecoder → Result ErrorCode Unit × RecordDecoder
some_csv (err e, d) = (err e, d)
some_csv (ok _, d) =
    if is_csv d.format && not (is_some d.ready) && eqb d.records_emitted 0
    then (err decode_csv, d)
    else (ok tt, d)

unfoldable pub accept_segment : JsonParse → Step Unit
accept_segment a_value d = (
  ok tt,
  record d {
    ready = some (record { payload = d.pending; separator = [] });
    pending = [];
    input_seen = true;
    scan_offset = 0;
  },
)
accept_segment early_end d = (ok tt, d)
accept_segment malformed d = (err decode_json, d)

module _ (parsers : Parsers) where
  unfoldable pub prepare_format : Format → Bool → Step Unit
  unfolding prepare_line prepare_csv prepare_json
  prepare_format plain_text at_eof d = prepare_line parsers at_eof d
  prepare_format jsonl at_eof d = prepare_line parsers at_eof d
  prepare_format tsv at_eof d = prepare_line parsers at_eof d
  prepare_format csv at_eof d = prepare_csv parsers at_eof d
  prepare_format json at_eof d = prepare_json parsers at_eof d

  unfoldable pub prepare_next : Bool → Step Unit
  unfolding prepare_format
  prepare_next at_eof d =
      if is_some d.ready || d.complete then (ok tt, d) else prepare_format d.format at_eof d

  unfoldable pub push : List ℕ → Step Unit
  unfolding prepare_next
  push chunk d =
      if d.finished
      then (err internal, d)
      else if is_some d.ready
      then (err internal, d)
      else if ltb d.limits.max_source_frame_bytes (length chunk)
      then (err limit_input_bytes, d)
      else prepare_next false (record d {
        input_seen = d.input_seen || not (is_empty chunk);
        pending = d.pending ++ chunk;
      })

  unfoldable pub next_record : Step (Option Record)
  unfolding prepare_next take_ready
  next_record d = take_ready (if is_some d.ready then (ok tt, d) else prepare_next d.finished d)

  unfoldable pub finish : Step Unit
  unfolding prepare_next some_csv
  finish d =
      if d.finished
      then (ok tt, d)
      else if is_some d.ready
      then (err internal, d)
      else some_csv (prepare_next true (record d { finished = true }))

  unfoldable pub end_of_segment : Step Unit
  unfolding accept_segment
  end_of_segment d =
      if not (is_json d.format) || is_empty d.pending || is_some d.ready
      then (ok tt, d)
      else accept_segment (parsers.parse_json d.pending) d
