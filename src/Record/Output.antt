-- ===== src/Record/Output.antt =====
-- The check of what a pipeline puts out (record.rs, `OutputValidator`).
use s.Prelude.{
  Bool, List, Result, [], drop, err, false, if◌then◌else◌, length, none, not, ok, some, suc, take,
  true, zero, ℕ, ◌+◌, ◌||◌, ◌∷◌, nat_eq, string_eq, is_empty,
}
use s.Record.{
  DecoderLimits, ErrorCode, Format, JsonParse, Parsers, Record, RecordDecoder, Step, a_value,
  decode_encoding, decode_jsonl, internal, jsonl, new_decoder,
}
use s.Record.Stream.{finish, next_record, push}

pub record OutputValidator : Type 0 where
  pub format : Format
  pub decoder : RecordDecoder
  pub max_frame_bytes : ℕ
  pub input_seen : Bool
  pub finished : Bool

-- A method of the validator, with the result it leaves behind.
abbrev pub Check : Type 0
Check = OutputValidator → Result ErrorCode Unit × OutputValidator

-- `?` between two of them.
unfoldable pub and_then : Check → Check → Check
and_then p q v = go (p v)
  where
    go : Result ErrorCode Unit × OutputValidator → Result ErrorCode Unit × OutputValidator
    go (ok _, w) = q w
    go (err e, w) = (err e, w)

unfoldable pub new_validator : Format → DecoderLimits → Result ErrorCode OutputValidator
unfolding new_decoder
new_validator format limits = elim (new_decoder format limits) [
  | err e ↦ err e
  | ok d ↦ ok (record {
    format = format;
    decoder = d;
    max_frame_bytes = limits.max_source_frame_bytes;
    input_seen = false;
    finished = false;
  })
]

-- `bytes.chunks(n)`, of which there are at most as many as bytes.
unfoldable pub chunks : ℕ → ℕ → List ℕ → List (List ℕ)
chunks zero n bytes = []
chunks (suc fuel) n [] = []
chunks (suc fuel) n (b ∷ l) = take n (b ∷ l) ∷ chunks fuel n (drop n (b ∷ l))

abbrev pub is_jsonl : Format → Bool
is_jsonl jsonl = true
is_jsonl _ = false

abbrev pub is_value : JsonParse → Bool
is_value a_value = true
is_value _ = false

module _ (parsers : Parsers) where
  -- The decoder's method, on the decoder of the validator.
  unfoldable pub on_decoder : Step Unit → Check
  on_decoder step v = let (r, d) = step v.decoder in (r, record v { decoder = d })

  unfoldable pub check_record : Format → Record → Result ErrorCode Unit
  check_record format r =
      if not (is_jsonl format)
      then ok tt
      else if not (parsers.valid_utf8 r.payload)
      then err decode_encoding
      else if is_value (parsers.parse_json r.payload)
      then ok tt
      else err decode_jsonl

  -- The loop, on fuel.
  unfoldable pub drain : ℕ → Check
  unfolding next_record check_record
  drain zero v = (ok tt, v)
  drain (suc fuel) v =
      let (answer, d) = next_record parsers v.decoder in
      let w = record v { decoder = d } in
      elim answer [
        | err e ↦ (err e, w)
        | ok o ↦ elim o [
          | none ↦ (ok tt, w)
          | some r ↦ elim (check_record v.format r) [ err e ↦ (err e, w) | ok _ ↦ drain fuel w ]
        ]
      ]

  unfoldable pub drain_records : Check
  unfolding drain
  drain_records v = drain (length v.decoder.pending + 3) v

  unfoldable pub push_chunks : List (List ℕ) → Check
  unfolding on_decoder push drain_records and_then
  push_chunks [] v = (ok tt, v)
  push_chunks (c ∷ cs) v =
      and_then (on_decoder (push parsers c)) (and_then drain_records (push_chunks cs)) v

  unfoldable pub push_bytes : List ℕ → Check
  unfolding push_chunks chunks
  push_bytes bytes v =
      push_chunks (chunks (length bytes) v.max_frame_bytes bytes)
        (record v { input_seen = v.input_seen || not (is_empty bytes) })

  unfoldable pub push_record : Record → Check
  unfolding push_bytes and_then
  push_record r v =
      if v.finished
      then (err internal, v)
      else and_then (push_bytes r.payload) (push_bytes r.separator) v

  unfoldable pub finish_output : Check
  unfolding on_decoder finish drain_records and_then
  finish_output v =
      if v.finished
      then (ok tt, v)
      else if not v.input_seen
      then (ok tt, record v { finished = true })
      else and_then (on_decoder (finish parsers)) drain_records (record v { finished = true })

  unfoldable pub push_records : List Record → Check
  unfolding push_record and_then
  push_records [] v = (ok tt, v)
  push_records (r ∷ rs) v = and_then (push_record r) (push_records rs) v

  -- `validate_output_records`
  unfoldable pub validate_output_records :
      Format → List Record → DecoderLimits → Result ErrorCode Unit
  unfolding new_validator push_records finish_output and_then
  validate_output_records format records limits = elim (new_validator format limits) [
    | err e ↦ err e
    | ok v ↦ (and_then (push_records records) finish_output v).0
  ]
