-- ===== src/Record/Lossless.antt =====
-- Whether the decoder keeps the bytes it is given (record.rs).
use s.Prelude.{
  Bool, Bool-cases, List, Option, Result, [], ap, arith, drop, inl, inr, ltb, none, refl, some, suc,
  sym, take, take-append-drop, zero, ℕ, ◌++◌, ◌∙◌, ◌∷◌, ◌≡◌, ◌≤◌, nat_eq, string_eq, Option-cases,
  append-nil, length, ◌+◌,
}
use s.Record.{ErrorCode, Parsers, Record, RecordDecoder, JsonParse, decode_encoding}
use s.Record.Line.{
  emit, emit_final, line_cut, prepare_rest, accept_json, newline_in, prepare_json, prepare_line,
}

abbrev pub wire : Record → List ℕ
wire r = r.payload ++ r.separator

abbrev pub wire_of : Option Record → List ℕ
wire_of none = []
wire_of (some r) = wire r

-- The bytes that the decoder holds, the next record first.
abbrev pub held : RecordDecoder → List ℕ
held d = wire_of d.ready ++ d.pending

take-take_le : (p c : ℕ) (xs : List ℕ) → p ≤ c → take p (take c xs) ≡ take p xs
take-take_le zero c xs h = refl
take-take_le (suc p) zero xs h = absurd (omega arith)
take-take_le (suc p) (suc c) [] h = refl
take-take_le (suc p) (suc c) (x ∷ xs) h = ap (λ l. x ∷ l) (take-take_le p c xs (omega arith))

pub cut-join : (p c : ℕ) (xs : List ℕ) → p ≤ c → (take p xs ++ drop p (take c xs)) ++ drop c xs ≡ xs
cut-join p c xs h =
    ap (λ l. (l ++ drop p (take c xs)) ++ drop c xs) (sym (take-take_le p c xs h))
    ∙ ap (λ l. l ++ drop c xs) (take-append-drop p (take c xs))
    ∙ take-append-drop c xs

line_cut_le : (pending : List ℕ) (at : ℕ) → line_cut pending at ≤ at
unfolding line_cut
line_cut_le pending at = ground arith

-- A step from a decoder without a ready record.
abbrev pub Keeps : RecordDecoder → Result ErrorCode Unit × RecordDecoder → Type 0
Keeps d (r, n) = held n ≡ d.pending

module _ (parsers : Parsers) where
  pub emit-Keeps :
      (p c : ℕ) (code : ErrorCode) (d : RecordDecoder)
      → d.ready ≡ none
      → p ≤ c
      → Keeps d (emit parsers p p c code d)
  unfolding emit
  emit-Keeps p c code d e h = elim (Bool-cases (ltb d.limits.max_record_bytes p)) [
    | inl b ↦ rw (b, e) refl
    | inr b ↦ elim (Bool-cases (parsers.valid_utf8 (take p d.pending))) [
      | inl v ↦ rw (b, v) (cut-join p c d.pending h)
      | inr v ↦ rw (b, v, e) refl
    ]
  ]

  prepare_rest-Keeps :
      (at_eof : Bool) (d : RecordDecoder) → d.ready ≡ none → Keeps d (prepare_rest parsers at_eof d)
  unfolding prepare_rest emit_final
  prepare_rest-Keeps at_eof d e = ground (arith, e, append-nil d.pending)

  pub prepare_line-Keeps :
      (at_eof : Bool) (d : RecordDecoder) → d.ready ≡ none → Keeps d (prepare_line parsers at_eof d)
  unfolding prepare_line
  prepare_line-Keeps at_eof d e = elim (Option-cases (newline_in (drop d.scan_offset d.pending))) [
    | inl q ↦
        rw (q, prepare_line)
          (prepare_rest-Keeps at_eof (record d { scan_offset = length d.pending }) e)
    | inr (i, q) ↦
        let at = d.scan_offset + i in
        rw (q, prepare_line)
          (emit-Keeps (line_cut d.pending at) (at + 1) decode_encoding d e
            (omega (arith, line_cut_le d.pending at)))
  ]

  accept_json-Keeps :
      (p : JsonParse) (d : RecordDecoder) → d.ready ≡ none → Keeps d (accept_json parsers p d)
  unfolding accept_json emit_final
  accept_json-Keeps p d e = ground (arith, e, append-nil d.pending)

  pub prepare_json-Keeps :
      (at_eof : Bool) (d : RecordDecoder) → d.ready ≡ none → Keeps d (prepare_json parsers at_eof d)
  unfolding prepare_json
  prepare_json-Keeps at_eof d e =
      ground (arith, e, accept_json-Keeps (parsers.parse_json d.pending) d e)
