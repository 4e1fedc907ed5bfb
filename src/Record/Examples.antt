-- ===== src/Record/Examples.antt =====
-- The decoder on concrete streams.
use s.Record.Blank.{Blanked}
use s.Record.Session.{DecoderCall, finish_call, next_call, push_call, session}
use s.Record.{
  Format, Parsers, Record, RecordDecoder, a_value, csv, default_limits, field_start, new_decoder,
}
use s.Prelude.{List, [], arith, false, length, none, refl, true, ◌∷◌, ◌≡◌, nat_eq, string_eq, All}
use s.Record.Csv.{csv_scan, prepare_csv}
use s.Record.CsvBytes.{csv_scan_enough}
use s.Record.Conservation.{session_lossless}
use s.Record.Valid.{Good}
use s.Record.Emitted.{session_valid}

abbrev parsers : Parsers
parsers = record {
  valid_utf8 = λ bytes. true;
  parse_json = λ bytes. a_value;
  read_record = λ bytes n. record { is_record = true; consumed = length bytes; fields = 1 };
}

abbrev decoder_of : Format → RecordDecoder
decoder_of format = record {
  format = format;
  limits = default_limits;
  pending = [];
  ready = none;
  scan_offset = 0;
  csv_state = field_start;
  csv_fields = 1;
  finished = false;
  complete = false;
  input_seen = false;
  records_emitted = 0;
}

-- An empty line, a line, and the start of another.
abbrev stream : List DecoderCall
stream =
    push_call (10 ∷ b'a' ∷ 13 ∷ 10 ∷ [])
    ∷ next_call
    ∷ push_call (b'b' ∷ [])
    ∷ finish_call
    ∷ next_call
    ∷ []

abbrev after_stream : RecordDecoder
after_stream = record (decoder_of csv) {
  finished = true;
  complete = true;
  input_seen = true;
  records_emitted = 2;
}

abbrev csv_records : List Record
csv_records =
    record { payload = b'a' ∷ []; separator = 13 ∷ 10 ∷ [] }
    ∷ record { payload = b'b' ∷ []; separator = [] }
    ∷ []

session_lossless_example : Blanked (10 ∷ b'a' ∷ 13 ∷ 10 ∷ b'b' ∷ []) (b'a' ∷ 13 ∷ 10 ∷ b'b' ∷ [])
unfolding new_decoder session
session_lossless_example =
    session_lossless parsers csv default_limits (decoder_of csv) after_stream stream csv_records
      refl refl

csv_scan_enough_example :
    csv_scan parsers 9 true (record (decoder_of csv) { pending = b'a' ∷ 10 ∷ [] })
    ≡ (prepare_csv parsers true (record (decoder_of csv) { pending = b'a' ∷ 10 ∷ [] }), true)
csv_scan_enough_example =
    csv_scan_enough parsers 9 true (record (decoder_of csv) { pending = b'a' ∷ 10 ∷ [] })
      (omega arith)

session_valid_example : All (Good parsers csv default_limits) csv_records
unfolding new_decoder session
session_valid_example =
    session_valid parsers csv default_limits (decoder_of csv) after_stream stream csv_records refl
      refl
