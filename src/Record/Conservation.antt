-- ===== src/Record/Conservation.antt =====
-- The bytes that a sequence of calls returns (record.rs, `RecordDecoder`).
use s.Record.Blank.{Accounts, Accounts-append, Accounts-eq, Accounts-trans}
use s.Record.Session.{
  DecoderCall, call, done, finish_call, given, input, listed, next_call, push_call, segment_call,
  session, wires,
}
use s.Record.{DecoderLimits, ErrorCode, Format, Parsers, Record, RecordDecoder, new_decoder}
use s.Prelude.{
  List, Option, Result, Result-cases, [], ap, append-nil, append_assoc, arith, err, inl, inr, none,
  ok, refl, some, subst, sym, ℕ, ◌++◌, ◌∙◌, ◌∷◌, ◌≡◌, nat_eq, string_eq,
}
use s.Record.Stream.{end_of_segment, finish, next_record, push}
use s.Record.Accounting.{finish-Accounts, next-Accounts, push-Accounts, segment-Accounts}
use s.Record.Lossless.{held, wire, wire_of}

pub done_ok :
    (p : Result ErrorCode Unit × RecordDecoder) (n : RecordDecoder) (rs : List Record)
    → done p ≡ ok (rs, n)
    → (p ≡ (ok tt, n)) × (rs ≡ [])
unfolding done
done_ok (ok u, d) n rs h = (ground arith, ground arith)
done_ok (err e, d) n rs h = absurd cc

pub given_ok :
    (p : Result ErrorCode (Option Record) × RecordDecoder) (n : RecordDecoder) (rs : List Record)
    → given p ≡ ok (rs, n)
    → (o : Option Record) × (p ≡ (ok o, n)) × (rs ≡ listed o)
unfolding given
given_ok (ok o, d) n rs h = (o, ground arith, ground arith)
given_ok (err e, d) n rs h = absurd cc

wires-append : (rs qs : List Record) → wires (rs ++ qs) ≡ wires rs ++ wires qs
wires-append [] qs = refl
wires-append (r ∷ rs) qs =
    ap (λ l. wire r ++ l) (wires-append rs qs) ∙ sym (append_assoc (wire r) (wires rs) (wires qs))

wires-listed : (o : Option Record) (l : List ℕ) → wire_of o ++ l ≡ wires (listed o) ++ l
wires-listed none l = refl
wires-listed (some r) l = ap (λ x. x ++ l) (sym (append-nil (wire r)))

input-cons : (c : DecoderCall) (cs : List DecoderCall) → input (c ∷ cs) ≡ input (c ∷ []) ++ input cs
input-cons (push_call chunk) cs = ap (λ l. l ++ input cs) (sym (append-nil chunk))
input-cons _ cs = refl

rejoin :
    (qs ts rs : List Record) (l : List ℕ)
    → rs ≡ qs ++ ts
    → wires qs ++ (wires ts ++ l) ≡ wires rs ++ l
rejoin qs ts rs l e =
    sym (append_assoc (wires qs) (wires ts) l)
    ∙ ap (λ x. x ++ l) (sym (wires-append qs ts))
    ∙ ap (λ x. wires x ++ l) (sym e)

pub new_decoder_ok :
    (f : Format) (l : DecoderLimits) (d : RecordDecoder)
    → new_decoder f l ≡ ok d
    → (d.format ≡ f) × (held d ≡ [])
unfolding new_decoder
new_decoder_ok f l d e = (ground arith, ground arith)

module _ (parsers : Parsers) where
  -- One call.
  call-Accounts :
      (c : DecoderCall) (d n : RecordDecoder) (rs : List Record)
      → call parsers c d ≡ ok (rs, n)
      → Accounts d.format (held d ++ input (c ∷ [])) (wires rs ++ held n) × (n.format ≡ d.format)
  unfolding call
  call-Accounts (push_call chunk) d n rs h =
      let (q, e) = done_ok (push parsers chunk d) n rs h in
      let (a, f) = push-Accounts parsers chunk d n q in (rw (e, append-nil chunk) a, f)
  call-Accounts next_call d n rs h =
      let (o, q, e) = given_ok (next_record parsers d) n rs h in
      let (a, f) = next-Accounts parsers d n o q in
      (
        rw e (
            Accounts-trans d.format _ (held d) _ (Accounts-eq d.format _ _ (append-nil (held d))) (
              Accounts-trans d.format _ _ _ a
                (Accounts-eq d.format _ _ (wires-listed o (held n))))),
        f,
      )
  call-Accounts finish_call d n rs h =
      let (q, e) = done_ok (finish parsers d) n rs h in
      let (a, f) = finish-Accounts parsers d n q in (rw (e, append-nil (held d)) a, f)
  call-Accounts segment_call d n rs h =
      let (q, e) = done_ok (end_of_segment parsers d) n rs h in
      let (a, f) = segment-Accounts parsers d n q in (rw (e, append-nil (held d)) a, f)

  pub session_ok :
      (c : DecoderCall) (cs : List DecoderCall) (d n : RecordDecoder) (rs : List Record)
      → session parsers (c ∷ cs) d ≡ ok (rs, n)
      → (qs : List Record) × (m : RecordDecoder) × (ts : List Record) × (call parsers c d
          ≡ ok (qs, m))
        × (session parsers cs m ≡ ok (ts, n))
        × (rs ≡ qs ++ ts)
  unfolding session
  session_ok c cs d n rs h = elim (Result-cases (call parsers c d)) [
    | inr (e, q) ↦ absurd (ground (arith, q, h))
    | inl ((qs, m), q) ↦ elim (Result-cases (session parsers cs m)) [
      | inr (e, r) ↦ absurd (ground (arith, q, r, h))
      | inl ((ts, k), r) ↦ (qs, m, ts, q, ground (arith, q, r, h), ground (arith, q, r, h))
    ]
  ]

  session-Accounts :
      (cs : List DecoderCall) (d n : RecordDecoder) (rs : List Record)
      → session parsers cs d ≡ ok (rs, n)
      → Accounts d.format (held d ++ input cs) (wires rs ++ held n)
  unfolding session
  session-Accounts [] d n rs h =
      let e : rs ≡ [] = cc in
      let q : n ≡ d = cc in rw (e, q) (Accounts-eq d.format _ _ (append-nil (held d)))
  session-Accounts (c ∷ cs) d n rs h =
      let (qs, m, ts, q, r, e) = session_ok c cs d n rs h in
      let (a, f) = call-Accounts c d m qs q in
      let b : Accounts d.format (held m ++ input cs) (wires ts ++ held n) =
        rw (← f) (session-Accounts cs m n ts r) in
      let refl_of = λ (l : List ℕ). Accounts-eq d.format l l refl in
      Accounts-trans d.format _ ((held d ++ input (c ∷ [])) ++ input cs) _
        (Accounts-eq d.format _ _ (
          ap (λ l. held d ++ l) (input-cons c cs)
          ∙ sym (append_assoc (held d) (input (c ∷ [])) (input cs))))
        (Accounts-trans d.format _ ((wires qs ++ held m) ++ input cs) _
          (Accounts-append d.format _ _ (input cs) (input cs) a (refl_of (input cs)))
          (Accounts-trans d.format _ (wires qs ++ (held m ++ input cs)) _
            (Accounts-eq d.format _ _ (append_assoc (wires qs) (held m) (input cs)))
            (Accounts-trans d.format _ (wires qs ++ (wires ts ++ held n)) _
              (Accounts-append d.format (wires qs) (wires qs) _ _ (refl_of (wires qs)) b)
              (Accounts-eq d.format _ _ (rejoin qs ts rs (held n) e)))))

  -- Whatever calls are made of a new decoder, as long as none fails: the bytes of the records that it
  -- returned, followed by those that it still holds, are the bytes that were pushed, in their order. Of
  -- CSV, line ends may be missing, and nothing else.
  pub session_lossless :
      (f : Format) (l : DecoderLimits) (d n : RecordDecoder) (cs : List DecoderCall)
      (rs : List Record)
      → new_decoder f l ≡ ok d
      → session parsers cs d ≡ ok (rs, n)
      → Accounts f (input cs) (wires rs ++ held n)
  unfolding new_decoder
  session_lossless f l d n cs rs e h =
      let (q, o) = new_decoder_ok f l d e in
      subst (λ x. Accounts f (x ++ input cs) (wires rs ++ held n)) o
        (subst (λ x. Accounts x (held d ++ input cs) (wires rs ++ held n)) q
          (session-Accounts cs d n rs h))
