-- ===== src/Record/CsvBytes.antt =====
-- What `prepare_csv` does with the bytes it has (record.rs).
use s.Record.Blank.{Blanked, Blanked-eq, Blanked-trans, Blanked-refl, boundary-Blanked}
use s.Prelude.{
  Bool, List, Result, append-nil, arith, err, none, ok, refl, some, suc, sym, zero, ℕ, ◌≡◌, nat_eq,
  string_eq, get_or, inl, inr, length, ◌-◌, ◌<◌, ◌∙◌, ◌⊎◌, Bool-cases, Option, length-drop, ltb,
  subst, ◌+◌, ◌≤◌, ap, true,
}
use s.Record.{ErrorCode, Parsers, RecordDecoder, decode_csv, CsvState, field_start}
use s.Record.Csv.{
  csv_boundary, csv_rest, csv_scan, emit_csv, finish_csv, on_reset, reset_csv_state, CsvTurn, again,
  at_end, consume_csv_empty, count_field, csv_act, csv_move, csv_turn, end_line, line, line_end,
  stop, CsvMove, go_on, next_field, refuse, prepare_csv,
}
use s.Record.Line.{emit, emit_final}
use s.Record.Lossless.{emit-Keeps, held}

-- A step from a decoder without a ready record drops nothing but line ends.
abbrev pub Trims : RecordDecoder → Result ErrorCode Unit × RecordDecoder → Type 0
Trims d (r, n) = Blanked d.pending (held n)

boundary_after :
    (pending : List ℕ) (at p s : ℕ) (at_eof : Bool)
    → csv_boundary pending at at_eof ≡ some (p, s)
    → (p ≡ at) × (p < s)
unfolding csv_boundary
boundary_after pending at p s at_eof e = (ground arith, ground arith)

on_reset-held : (r : Result ErrorCode Unit × RecordDecoder) → held (on_reset r).1 ≡ held r.1
unfolding on_reset reset_csv_state
on_reset-held (err e, d) = refl
on_reset-held (ok u, d) = refl

pub CsvTurn-cases :
    (t : CsvTurn)
    → (t ≡ at_end)
      ⊎ ((n : RecordDecoder) × (t ≡ again n))
      ⊎ ((e : ErrorCode) × (n : RecordDecoder) × (t ≡ stop e n))
      ⊎ ((p : ℕ) × (s : ℕ) × (t ≡ line p s))
CsvTurn-cases at_end = inl refl
CsvTurn-cases (again n) = inr (inl (n, refl))
CsvTurn-cases (stop e n) = inr (inr (inl (e, n, refl)))
CsvTurn-cases (line p s) = inr (inr (inr (p, s, refl)))

again-inj : (a b : RecordDecoder) → again a ≡ again b → a ≡ b
again-inj a b h = cc

-- What holds of a decoder from which the loop goes on.
pub record Round (d n : RecordDecoder) : Type 0 where
  pub bytes : Blanked d.pending n.pending
  pub no_record : n.ready ≡ d.ready
  pub same_format : n.format ≡ d.format
  pub same_limits : n.limits ≡ d.limits
  pub before_end : d.scan_offset < length d.pending
  pub nearer : length n.pending - n.scan_offset < length d.pending - d.scan_offset

empty_line :
    (o : Option (ℕ × ℕ)) (d n : RecordDecoder)
    → end_line o d ≡ again n
    → (s : ℕ) × (o ≡ some (0, s)) × (d.csv_state ≡ field_start) × (n ≡ consume_csv_empty s d)
unfolding end_line
empty_line none d n h = absurd cc
empty_line (some (p, s)) d n h = (s, ground arith, ground arith, ground arith)

end_line-Round :
    (at_eof : Bool) (d n : RecordDecoder)
    → d.scan_offset < length d.pending
    → csv_move d.csv_state (get_or d.pending d.scan_offset 0) ≡ line_end
    → end_line (csv_boundary d.pending d.scan_offset at_eof) d ≡ again n
    → Round d n
unfolding consume_csv_empty reset_csv_state
end_line-Round at_eof d n l m h =
    let (s, o, f, q) = empty_line (csv_boundary d.pending d.scan_offset at_eof) d n h in
    let (z, g) = boundary_after d.pending d.scan_offset 0 s at_eof o in
    let m' : csv_move field_start (get_or d.pending 0 0) ≡ line_end = ground (arith, m, f, z) in
    let o' : csv_boundary d.pending 0 at_eof ≡ some (0, s) = ground (arith, o, z) in
    rw q (record {
      bytes = boundary-Blanked d.pending s at_eof m' o';
      no_record = refl;
      same_format = refl;
      same_limits = refl;
      before_end = l;
      nearer = omega (arith, length-drop s d.pending, g, z, l);
    })

go_on-Round :
    (d : RecordDecoder) (state : CsvState)
    → d.scan_offset < length d.pending
    → Round d (record d { csv_state = state; scan_offset = d.scan_offset + 1 })
go_on-Round d state l = record {
  bytes = Blanked-refl d.pending;
  no_record = refl;
  same_format = refl;
  same_limits = refl;
  before_end = l;
  nearer = omega arith;
}

count_field-Round :
    (d n : RecordDecoder) → d.scan_offset < length d.pending → count_field d ≡ again n → Round d n
unfolding count_field
count_field-Round d n l h = record {
  bytes = Blanked-eq _ _ (ground arith);
  no_record = ground arith;
  same_format = ground arith;
  same_limits = ground arith;
  before_end = l;
  nearer = ground arith;
}

csv_act-Round :
    (m : CsvMove) (at_eof : Bool) (d n : RecordDecoder)
    → d.scan_offset < length d.pending
    → csv_move d.csv_state (get_or d.pending d.scan_offset 0) ≡ m
    → csv_act m at_eof d ≡ again n
    → Round d n
unfolding csv_act
csv_act-Round (go_on state) at_eof d n l m h =
    subst (Round d) (again-inj _ _ h) (go_on-Round d state l)
csv_act-Round next_field at_eof d n l m h = count_field-Round d n l h
csv_act-Round refuse at_eof d n l m h = absurd cc
csv_act-Round line_end at_eof d n l m h = end_line-Round at_eof d n l m h

pub csv_turn-Round : (at_eof : Bool) (d n : RecordDecoder) → csv_turn at_eof d ≡ again n → Round d n
unfolding csv_turn
csv_turn-Round at_eof d n h = elim (Bool-cases (ltb d.scan_offset (length d.pending))) [
  | inl b ↦
      csv_act-Round (csv_move d.csv_state (get_or d.pending d.scan_offset 0)) at_eof d n
        (ground (arith, b)) refl (ground (arith, b, h))
  | inr b ↦ absurd (ground (arith, b, h))
]

csv_turn-line : (at_eof : Bool) (d : RecordDecoder) (p s : ℕ) → csv_turn at_eof d ≡ line p s → p < s
unfolding csv_turn csv_act count_field end_line csv_boundary
csv_turn-line at_eof d p s h = ground arith

pub csv_turn-stop :
    (at_eof : Bool) (d n : RecordDecoder) (e : ErrorCode)
    → csv_turn at_eof d ≡ stop e n
    → (n.pending ≡ d.pending) × (n.ready ≡ d.ready) × (n.format ≡ d.format)
unfolding csv_turn csv_act count_field end_line
csv_turn-stop at_eof d n e h = (ground arith, ground arith, ground arith)

no_turn :
    (at_eof : Bool) (d : RecordDecoder)
    → length d.pending - d.scan_offset ≤ 0
    → csv_turn at_eof d ≡ at_end
unfolding csv_turn
no_turn at_eof d h = ground arith

module _ (parsers : Parsers) where
  emit_csv-held :
      (p s : ℕ) (d : RecordDecoder)
      → d.ready ≡ none
      → p < s
      → held (emit_csv parsers p s d).1 ≡ d.pending
  unfolding emit_csv
  emit_csv-held p s d e h = ground (
    arith,
    e,
    on_reset-held (emit parsers p p s decode_csv d),
    emit-Keeps parsers p s decode_csv d e (omega arith),
  )

  csv_rest-held :
      (at_eof : Bool) (d : RecordDecoder)
      → d.ready ≡ none
      → held (csv_rest parsers at_eof d).1 ≡ d.pending
  unfolding csv_rest finish_csv reset_csv_state emit_final
  csv_rest-held at_eof d e = ground (arith, e, append-nil d.pending)

  pub csv_scan-Trims :
      (fuel : ℕ) (at_eof : Bool) (d : RecordDecoder)
      → d.ready ≡ none
      → Trims d (csv_scan parsers fuel at_eof d).0
  unfolding csv_scan
  csv_scan-Trims zero at_eof d e = Blanked-eq _ _ (sym (csv_rest-held at_eof d e))
  csv_scan-Trims (suc fuel) at_eof d e = elim (CsvTurn-cases (csv_turn at_eof d)) [
    | inl q ↦ rw (q, csv_scan) (Blanked-eq _ _ (sym (csv_rest-held at_eof d e)))
    | inr (inl (n, q)) ↦
        let r = csv_turn-Round at_eof d n q in
        rw (q, csv_scan) (Blanked-trans r.bytes (csv_scan-Trims fuel at_eof n (r.no_record ∙ e)))
    | inr (inr (inl (x, n, q))) ↦
        let (b, c, f) = csv_turn-stop at_eof d n x q in
        rw (q, csv_scan) (Blanked-eq _ _ (rw (c, e) (sym b)))
    | inr (inr (inr (p, s, q))) ↦
        rw (q, csv_scan)
          (Blanked-eq _ _ (sym (emit_csv-held p s d e (csv_turn-line at_eof d p s q))))
  ]

  -- With fuel for the bytes that it has before it the loop leaves by itself.
  csv_scan_ends :
      (f : ℕ) (at_eof : Bool) (d : RecordDecoder)
      → length d.pending - d.scan_offset ≤ f
      → (csv_scan parsers f at_eof d).1 ≡ true
  unfolding csv_scan
  csv_scan_ends zero at_eof d h = ground (arith, h)
  csv_scan_ends (suc f) at_eof d h = elim (CsvTurn-cases (csv_turn at_eof d)) [
    | inl q ↦ rw (q, csv_scan) refl
    | inr (inl (n, q)) ↦
        let r = csv_turn-Round at_eof d n q in
        rw (q, csv_scan) (csv_scan_ends f at_eof n (omega (arith, r.nearer, h)))
    | inr (inr (inl (x, n, q))) ↦ rw (q, csv_scan) refl
    | inr (inr (inr (p, s, q))) ↦ rw (q, csv_scan) refl
  ]

  -- A loop that has left by itself does the same with more fuel.
  csv_scan_same :
      (f g : ℕ) (at_eof : Bool) (d : RecordDecoder)
      → f ≤ g
      → (csv_scan parsers f at_eof d).1 ≡ true
      → csv_scan parsers g at_eof d ≡ csv_scan parsers f at_eof d
  unfolding csv_scan
  csv_scan_same zero zero at_eof d h e = refl
  csv_scan_same zero (suc g) at_eof d h e =
      let past : length d.pending - d.scan_offset ≤ 0 = ground (arith, e) in
      rw (no_turn at_eof d past, csv_scan) (ap (λ b. (csv_rest parsers at_eof d, b)) (sym e))
  csv_scan_same (suc f) zero at_eof d h e = absurd (omega (arith, h))
  csv_scan_same (suc f) (suc g) at_eof d h e = elim (CsvTurn-cases (csv_turn at_eof d)) [
    | inl q ↦ rw (q, csv_scan) refl
    | inr (inl (n, q)) ↦
        let k : csv_scan parsers (suc f) at_eof d ≡ csv_scan parsers f at_eof n =
          rw (q, csv_scan) refl in
        rw (q, csv_scan)
          (csv_scan_same f g at_eof n (omega (arith, h)) (subst (λ r. r.1 ≡ true) k e))
    | inr (inr (inl (x, n, q))) ↦ rw (q, csv_scan) refl
    | inr (inr (inr (p, s, q))) ↦ rw (q, csv_scan) refl
  ]

  -- The loop of prepare_csv ends by itself: with fuel from the number of bytes before it on, it leaves
  -- by its condition or by a return and not because it is cut off, with what prepare_csv returns.
  pub csv_scan_enough :
      (fuel : ℕ) (at_eof : Bool) (d : RecordDecoder)
      → length d.pending - d.scan_offset ≤ fuel
      → csv_scan parsers fuel at_eof d ≡ (prepare_csv parsers at_eof d, true)
  unfolding prepare_csv
  csv_scan_enough fuel at_eof d h =
      let left = length d.pending - d.scan_offset in
      let ends = csv_scan_ends left at_eof d (omega arith) in
      csv_scan_same left fuel at_eof d h ends
      ∙ ap (λ b. ((csv_scan parsers left at_eof d).0, b)) ends
