-- ===== src/Record.antt =====
-- Decoding a byte stream into records (crates/gateway/src/record.rs). A byte is a number; an error is
-- its code, and the text that goes with it is left out.
pub mod Line
pub mod Csv
pub mod Stream
pub mod Output
pub mod Lossless
pub mod Blank
pub mod CsvBytes
pub mod CsvSettings
pub mod Session
pub mod Accounting
pub mod Conservation
pub mod Valid
pub mod Emitted
mod Examples
use s.Prelude.{
  ℕ, ◌*◌, ◌+◌, Bool, false, true, Option, none, some, List, [], Result, ok, err, eqb, ◌||◌,
  if◌then◌else◌, ◌∷◌, nat_eq, string_eq,
}

pub data Format : Type 0 where
  jsonl json csv tsv plain_text : Format

pub record Record : Type 0 where
  pub payload : List ℕ
  pub separator : List ℕ

pub record DecoderLimits : Type 0 where
  pub max_source_frame_bytes : ℕ
  pub max_record_bytes : ℕ
  pub max_json_document_bytes : ℕ
  pub max_csv_fields : ℕ

abbrev pub default_limits : DecoderLimits
default_limits = record {
  max_source_frame_bytes = 1024 * 1024;
  max_record_bytes = 8 * 1024 * 1024;
  max_json_document_bytes = 8 * 1024 * 1024;
  max_csv_fields = 16384;
}

pub data CsvState : Type 0 where
  field_start unquoted quoted quote_closed : CsvState

pub data ErrorCode : Type 0 where
  config_invalid internal limit_input_bytes record_too_large : ErrorCode
  decode_encoding decode_json decode_jsonl decode_csv : ErrorCode

pub record RecordDecoder : Type 0 where
  pub format : Format
  pub limits : DecoderLimits
  pub pending : List ℕ
  pub ready : Option Record
  pub scan_offset : ℕ
  pub csv_state : CsvState
  pub csv_fields : ℕ
  pub finished : Bool
  pub complete : Bool
  pub input_seen : Bool
  pub records_emitted : ℕ

-- What `serde_json::from_slice` says of a text: a value, an early end, or another error.
pub data JsonParse : Type 0 where
  a_value early_end malformed : JsonParse

-- The answer of `csv_core::Reader::read_record`.
pub record CsvRead : Type 0 where
  pub is_record : Bool
  pub consumed : ℕ
  pub fields : ℕ

-- The parsers that the decoder calls: `std::str::from_utf8`, `serde_json`, and `csv_core` with room
-- for the given number of fields.
pub record Parsers : Type 0 where
  pub valid_utf8 : List ℕ → Bool
  pub parse_json : List ℕ → JsonParse
  pub read_record : List ℕ → ℕ → CsvRead

-- `RecordDecoder::new`
unfoldable pub new_decoder : Format → DecoderLimits → Result ErrorCode RecordDecoder
new_decoder format limits =
    if eqb limits.max_source_frame_bytes 0
      || eqb limits.max_record_bytes 0
      || eqb limits.max_json_document_bytes 0
      || eqb limits.max_csv_fields 0
    then err config_invalid
    else ok (record {
      format = format;
      limits = limits;
      pending = [];
      ready = none;
      scan_offset = 0;
      csv_state = field_start;
      csv_fields = 1;
      finished = false;
      complete = false;
      input_seen = false;
      records_emitted = 0;
    })

-- A method that changes the decoder, whatever its outcome.
abbrev pub Step : Type 0 → Type 0
Step A = RecordDecoder → Result ErrorCode A × RecordDecoder

abbrev pub is_some : {A : Type 0} → Option A → Bool
is_some none = false
is_some (some a) = true
