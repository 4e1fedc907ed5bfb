-- ===== src/Record/Csv.antt =====
-- CSV records (record.rs, `prepare_csv` and what it calls).
use s.Prelude.{
  Bool, List, Option, Result, [], drop, eqb, err, false, get_or, if◌then◌else◌, length, ltb, none,
  not, ok, some, suc, take, true, zero, ℕ, ◌&&◌, ◌++◌, ◌+◌, ◌-◌, ◌||◌, ◌∷◌, nat_eq, string_eq,
  is_empty,
}
use s.Record.{
  CsvState, ErrorCode, Parsers, RecordDecoder, Step, decode_csv, decode_encoding, field_start,
  quote_closed, quoted, record_too_large, unquoted,
}
use s.Record.Line.{carriage_return, emit, emit_final, newline}

-- What the loop does at a byte: go on in a state, count a field, stop at a line's end, or refuse.
pub data CsvMove : Type 0 where
  go_on : CsvState → CsvMove
  next_field line_end refuse : CsvMove

abbrev is_line_end : ℕ → Bool
is_line_end b = eqb b newline || eqb b carriage_return

-- The two nested `match`es of the loop.
unfoldable pub csv_move : CsvState → ℕ → CsvMove
csv_move field_start b =
    if eqb b b'"'
    then go_on quoted
    else if eqb b b','
    then next_field
    else if is_line_end b
    then line_end
    else go_on unquoted
csv_move unquoted b =
    if eqb b b','
    then next_field
    else if eqb b b'"'
    then refuse
    else if is_line_end b
    then line_end
    else go_on unquoted
csv_move quoted b = if eqb b b'"' then go_on quote_closed else go_on quoted
csv_move quote_closed b =
    if eqb b b'"'
    then go_on quoted
    else if eqb b b','
    then next_field
    else if is_line_end b
    then line_end
    else refuse

-- `csv_boundary`: where the payload and the separator end; nothing while the byte behind a carriage
-- return is not there yet.
unfoldable pub csv_boundary : List ℕ → ℕ → Bool → Option (ℕ × ℕ)
csv_boundary pending at at_eof =
    if eqb (get_or pending at 0) newline
    then some (at, at + 1)
    else if ltb (at + 1) (length pending)
    then (if eqb (get_or pending (at + 1) 0) newline then some (at, at + 2) else some (at, at + 1))
    else if at_eof
    then some (at, at + 1)
    else none

unfoldable pub reset_csv_state : RecordDecoder → RecordDecoder
reset_csv_state d = record d { csv_state = field_start; csv_fields = 1; scan_offset = 0 }

unfoldable pub consume_csv_empty : ℕ → RecordDecoder → RecordDecoder
unfolding reset_csv_state
consume_csv_empty consumed d = reset_csv_state (record d { pending = drop consumed d.pending })

unfoldable pub on_reset :
    Result ErrorCode Unit × RecordDecoder → Result ErrorCode Unit × RecordDecoder
unfolding reset_csv_state
on_reset (err e, d) = (err e, d)
on_reset (ok _, d) = (ok tt, reset_csv_state d)

abbrev pub is_field_start : CsvState → Bool
is_field_start field_start = true
is_field_start _ = false

abbrev pub is_quoted : CsvState → Bool
is_quoted quoted = true
is_quoted _ = false

-- How a round of the loop ends: no byte is left or the line's end is open, on to the next byte, an
-- error, or a record with the ends of its payload and its separator.
pub data CsvTurn : Type 0 where
  at_end : CsvTurn
  again : RecordDecoder → CsvTurn
  stop : ErrorCode → RecordDecoder → CsvTurn
  line : ℕ → ℕ → CsvTurn

-- `increment_csv_fields`, and the next byte begins a field.
unfoldable pub count_field : RecordDecoder → CsvTurn
count_field d =
    let fields = d.csv_fields + 1 in
    if ltb d.limits.max_csv_fields fields
    then stop record_too_large (record d { csv_fields = fields })
    else again
        (record d { csv_fields = fields; csv_state = field_start; scan_offset = d.scan_offset + 1 })

unfoldable pub end_line : Option (ℕ × ℕ) → RecordDecoder → CsvTurn
unfolding consume_csv_empty
end_line none d = at_end
end_line (some (payload_end, separator_end)) d =
    if is_field_start d.csv_state && eqb payload_end 0
    then again (consume_csv_empty separator_end d)
    else line payload_end separator_end

unfoldable pub csv_act : CsvMove → Bool → RecordDecoder → CsvTurn
unfolding count_field end_line csv_boundary
csv_act (go_on state) at_eof d =
    again (record d { csv_state = state; scan_offset = d.scan_offset + 1 })
csv_act next_field at_eof d = count_field d
csv_act refuse at_eof d = stop decode_csv d
csv_act line_end at_eof d = end_line (csv_boundary d.pending d.scan_offset at_eof) d

unfoldable pub csv_turn : Bool → RecordDecoder → CsvTurn
unfolding csv_move csv_act
csv_turn at_eof d =
    if ltb d.scan_offset (length d.pending)
    then csv_act (csv_move d.csv_state (get_or d.pending d.scan_offset 0)) at_eof d
    else at_end

module _ (parsers : Parsers) where
  unfoldable pub validate_csv : ℕ → RecordDecoder → Result ErrorCode Unit
  validate_csv payload_end d =
      let input = take payload_end d.pending ++ newline ∷ [] in
      let answer = parsers.read_record input d.limits.max_csv_fields in
      if not answer.is_record || not (eqb answer.consumed (length input))
      then err decode_csv
      else if ltb d.limits.max_csv_fields answer.fields
      then err record_too_large
      else ok tt

  unfoldable pub emit_csv : ℕ → ℕ → Step Unit
  unfolding validate_csv on_reset emit
  emit_csv payload_end separator_end d = elim (validate_csv payload_end d) [
    | err e ↦ (err e, d)
    | ok _ ↦
        if not (parsers.valid_utf8 (take payload_end d.pending))
        then (err decode_encoding, d)
        else on_reset (emit parsers payload_end payload_end separator_end decode_csv d)
  ]

  unfoldable pub finish_csv : Step Unit
  unfolding validate_csv reset_csv_state emit_final
  finish_csv d = elim (validate_csv (length d.pending) d) [
    | err e ↦ (err e, d)
    | ok _ ↦
        if not (parsers.valid_utf8 d.pending)
        then (err decode_encoding, d)
        else (ok tt, reset_csv_state (emit_final d))
  ]

  -- Behind the loop: the bytes so far hold no whole record.
  unfoldable pub csv_rest : Bool → Step Unit
  unfolding finish_csv
  csv_rest at_eof d =
      if ltb d.limits.max_record_bytes (length d.pending)
      then (err record_too_large, d)
      else if not at_eof
      then (ok tt, d)
      else if is_quoted d.csv_state
      then (err decode_csv, d)
      else if is_empty d.pending
      then (ok tt, record d { complete = true })
      else finish_csv d

  -- The loop of `prepare_csv`. With the result comes whether the loop has left by its condition or a
  -- return; without fuel it is cut off before the next round.
  unfoldable pub csv_scan :
      ℕ → Bool → RecordDecoder → (Result ErrorCode Unit × RecordDecoder) × Bool
  unfolding csv_rest csv_turn emit_csv
  csv_scan zero at_eof d = (csv_rest at_eof d, not (ltb d.scan_offset (length d.pending)))
  csv_scan (suc fuel) at_eof d = elim (csv_turn at_eof d) [
    | at_end ↦ (csv_rest at_eof d, true)
    | again n ↦ csv_scan fuel at_eof n
    | stop e n ↦ ((err e, n), true)
    | line payload_end separator_end ↦ (emit_csv payload_end separator_end d, true)
  ]

  unfoldable pub prepare_csv : Bool → Step Unit
  unfolding csv_scan
  prepare_csv at_eof d = (csv_scan (length d.pending - d.scan_offset) at_eof d).0
