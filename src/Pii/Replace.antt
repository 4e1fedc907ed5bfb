-- ===== src/Pii/Replace.antt =====
-- Replacing spans by their markers (filters/pii-shared, `replace_spans` and `redact_pii`).
use s.Prelude.{
  All, Bool, Bool-cases, List, [], append-nil, arith, drop, eqb, false, if◌then◌else◌, inl, inr,
  leb, length, ltb, sort_by, suc, take-append-drop, true, zero, ℕ, ◌&&◌, ◌++◌, ◌||◌, ◌∷◌, ◌≡◌, ◌≤◌,
  nat_eq, string_eq, ap, insert_by, refl, take, ◌-◌, ◌∙◌, subst, sym,
}
use s.Pii.{Span, card, email, marker_text, slice, ssn}
use s.Pii.Scan.{find_all_spans, find_spans}
use s.Pii.Spans.{Genuine, InOrder, find_all_spans_sound}

-- The order of `sort_by_key(|(start, end, _)| (*start, *end))`.
abbrev span_le : Span → Span → Bool
span_le a b = ltb a.start b.start || (eqb a.start b.start && leb a.end b.end)

-- `dedup_by_key(start)`: of neighbours with one start the first stays; `k` is the start before.
dedup_from : ℕ → List Span → List Span
dedup_from k [] = []
dedup_from k (x ∷ xs) = let rest = dedup_from x.start xs in if eqb x.start k then rest else x ∷ rest

dedup : List Span → List Span
unfolding dedup_from
dedup [] = []
dedup (x ∷ xs) = x ∷ dedup_from x.start xs

-- The loop, from `from` on; a span that begins before `from` is passed over.
emit : List ℕ → ℕ → List Span → List ℕ
emit bytes from [] = drop from bytes
emit bytes from (x ∷ xs) = elim (ltb x.start from) [
  | true ↦ emit bytes from xs
  | false ↦ slice bytes from x.start ++ (marker_text x.marker ++ emit bytes x.end xs)
]

-- The last test of the source returns the input where the output equals it.
unfoldable pub replace_spans : List ℕ → List Span → List ℕ
unfolding dedup emit
replace_spans bytes spans = emit bytes 0 (dedup (sort_by span_le spans))

unfoldable pub redact_pii : List ℕ → List ℕ
unfolding replace_spans find_all_spans
redact_pii bytes = replace_spans bytes (find_all_spans bytes)

unfoldable pub redact_emails : List ℕ → List ℕ
unfolding replace_spans find_spans
redact_emails bytes = replace_spans bytes (find_spans bytes email)

unfoldable pub redact_cards : List ℕ → List ℕ
unfolding replace_spans find_spans
redact_cards bytes = replace_spans bytes (find_spans bytes card)

unfoldable pub redact_ssns : List ℕ → List ℕ
unfolding replace_spans find_spans
redact_ssns bytes = replace_spans bytes (find_spans bytes ssn)

-- A text in pieces: what is kept, and the spans that are hidden.
pub data Piece : Type 0 where
  plain : List ℕ → Piece
  hidden : Span → Piece

-- The text that the pieces came from, and the text that is shown for them.
abbrev pub original : List ℕ → List Piece → List ℕ
original bytes [] = []
original bytes (plain t ∷ ps) = t ++ original bytes ps
original bytes (hidden x ∷ ps) = slice bytes x.start x.end ++ original bytes ps

abbrev pub shown : List Piece → List ℕ
shown [] = []
shown (plain t ∷ ps) = t ++ shown ps
shown (hidden x ∷ ps) = marker_text x.marker ++ shown ps

abbrev pub Hides : (Span → Type 0) → List Piece → Type 0
Hides P [] = Unit
Hides P (plain t ∷ ps) = Hides P ps
Hides P (hidden x ∷ ps) = P x × Hides P ps

-- A span that lies in the text.
abbrev pub InText : List ℕ → Span → Type 0
InText bytes x = (x.start ≤ x.end) × (x.end ≤ length bytes)

pieces : List ℕ → ℕ → List Span → List Piece
pieces bytes from [] = plain (drop from bytes) ∷ []
pieces bytes from (x ∷ xs) = elim (ltb x.start from) [
  | true ↦ pieces bytes from xs
  | false ↦ plain (slice bytes from x.start) ∷ hidden x ∷ pieces bytes x.end xs
]

drop-nil : (n : ℕ) → drop {A = ℕ} n [] ≡ []
drop-nil zero = refl
drop-nil (suc n) = refl

take-nil : (n : ℕ) → take {A = ℕ} n [] ≡ []
take-nil zero = refl
take-nil (suc n) = refl

slice-drop : (bytes : List ℕ) (s e : ℕ) → s ≤ e → slice bytes s e ++ drop e bytes ≡ drop s bytes
slice-drop bytes zero e h = let q : e - 0 ≡ e = omega arith in rw q (take-append-drop e bytes)
slice-drop [] (suc s) e h = rw (drop-nil e, take-nil (e - suc s))
slice-drop (b ∷ bytes) (suc s) zero h = absurd (omega arith)
slice-drop (b ∷ bytes) (suc s) (suc e) h =
    let q : suc e - suc s ≡ e - s = omega arith in rw q (slice-drop bytes s e (omega arith))

pieces-skip :
    (bytes : List ℕ) (from : ℕ) (x : Span) (xs : List Span)
    → ltb x.start from ≡ true
    → pieces bytes from (x ∷ xs) ≡ pieces bytes from xs
unfolding pieces
pieces-skip bytes from x xs b = rw (b, pieces) refl

pieces-take :
    (bytes : List ℕ) (from : ℕ) (x : Span) (xs : List Span)
    → ltb x.start from ≡ false
    → pieces bytes from (x ∷ xs)
      ≡ plain (slice bytes from x.start) ∷ hidden x ∷ pieces bytes x.end xs
unfolding pieces
pieces-take bytes from x xs b = rw (b, pieces) refl

emit-skip :
    (bytes : List ℕ) (from : ℕ) (x : Span) (xs : List Span)
    → ltb x.start from ≡ true
    → emit bytes from (x ∷ xs) ≡ emit bytes from xs
unfolding emit
emit-skip bytes from x xs b = rw (b, emit) refl

emit-take :
    (bytes : List ℕ) (from : ℕ) (x : Span) (xs : List Span)
    → ltb x.start from ≡ false
    → emit bytes from (x ∷ xs)
      ≡ slice bytes from x.start ++ (marker_text x.marker ++ emit bytes x.end xs)
unfolding emit
emit-take bytes from x xs b = rw (b, emit) refl

shown-pieces :
    (bytes : List ℕ) (from : ℕ) (xs : List Span) → shown (pieces bytes from xs) ≡ emit bytes from xs
unfolding pieces emit
shown-pieces bytes from [] = append-nil _
shown-pieces bytes from (x ∷ xs) = elim (Bool-cases (ltb x.start from)) [
  | inl b ↦
      ap shown (pieces-skip bytes from x xs b)
      ∙ shown-pieces bytes from xs
      ∙ sym (emit-skip bytes from x xs b)
  | inr b ↦
      ap shown (pieces-take bytes from x xs b)
      ∙ ap (λ l. slice bytes from x.start ++ (marker_text x.marker ++ l))
          (shown-pieces bytes x.end xs)
      ∙ sym (emit-take bytes from x xs b)
]

original-pieces :
    (bytes : List ℕ) (from : ℕ) (xs : List Span)
    → All (InText bytes) xs
    → original bytes (pieces bytes from xs) ≡ drop from bytes
unfolding pieces
original-pieces bytes from [] h = append-nil _
original-pieces bytes from (x ∷ xs) h = elim (Bool-cases (ltb x.start from)) [
  | inl b ↦ ap (original bytes) (pieces-skip bytes from x xs b) ∙ original-pieces bytes from xs h.1
  | inr b ↦
      ap (original bytes) (pieces-take bytes from x xs b)
      ∙ ap (λ l. slice bytes from x.start ++ (slice bytes x.start x.end ++ l))
          (original-pieces bytes x.end xs h.1)
      ∙ ap (λ l. slice bytes from x.start ++ l) (slice-drop bytes x.start x.end h.0.0)
      ∙ slice-drop bytes from x.start (ground (arith, b))
]

Hides-pieces :
    (P : Span → Type 0) (bytes : List ℕ) (from : ℕ) (xs : List Span)
    → All P xs
    → Hides P (pieces bytes from xs)
unfolding pieces
Hides-pieces P bytes from [] h = tt
Hides-pieces P bytes from (x ∷ xs) h = elim (Bool-cases (ltb x.start from)) [
  | inl b ↦ subst (Hides P) (sym (pieces-skip bytes from x xs b)) (Hides-pieces P bytes from xs h.1)
  | inr b ↦
      subst (Hides P) (sym (pieces-take bytes from x xs b)) (h.0, Hides-pieces P bytes x.end xs h.1)
]

module _ (P : Span → Type 0) where
  insert_by-All : (x : Span) (xs : List Span) → P x → All P xs → All P (insert_by span_le x xs)
  insert_by-All x [] p h = (p, tt)
  insert_by-All x (y ∷ ys) p h = elim (Bool-cases (span_le x y)) [
    | inl b ↦ rw b (p, h)
    | inr b ↦ rw b (h.0, insert_by-All x ys p h.1)
  ]

  sort_by-All : (xs : List Span) → All P xs → All P (sort_by span_le xs)
  sort_by-All [] h = tt
  sort_by-All (x ∷ xs) h = insert_by-All x _ h.0 (sort_by-All xs h.1)

  dedup_from-All : (k : ℕ) (xs : List Span) → All P xs → All P (dedup_from k xs)
  unfolding dedup_from
  dedup_from-All k [] h = tt
  dedup_from-All k (x ∷ xs) h = elim (Bool-cases (eqb x.start k)) [
    | inl b ↦ rw b (dedup_from-All x.start xs h.1)
    | inr b ↦ rw b (h.0, dedup_from-All x.start xs h.1)
  ]

  dedup-All : (xs : List Span) → All P xs → All P (dedup xs)
  unfolding dedup
  dedup-All [] h = tt
  dedup-All (x ∷ xs) h = (h.0, dedup_from-All x.start xs h.1)

-- For spans that lie in the text, the replaced text is the text cut into pieces, of which some of
-- the spans are shown as their markers and all else is shown as it was.
pub replace_spans_pieces :
    (bytes : List ℕ) (spans : List Span) (P : Span → Type 0)
    → All (InText bytes) spans
    → All P spans
    → (ps : List Piece) × (original bytes ps ≡ bytes)
      × (shown ps ≡ replace_spans bytes spans)
      × Hides P ps
unfolding replace_spans
replace_spans_pieces bytes spans P h p =
    let cut = dedup (sort_by span_le spans) in
    (
      pieces bytes 0 cut,
      original-pieces bytes 0 cut (dedup-All (InText bytes) _ (sort_by-All (InText bytes) spans h)),
      shown-pieces bytes 0 cut,
      Hides-pieces P bytes 0 cut (dedup-All P _ (sort_by-All P spans p)),
    )

InOrder→InText :
    (bytes : List ℕ) (i : ℕ) (xs : List Span) → InOrder bytes i xs → All (InText bytes) xs
InOrder→InText bytes i [] h = tt
InOrder→InText bytes i (x ∷ xs) (a, b, c, d) = ((omega arith, c), InOrder→InText bytes x.end xs d)

-- Redaction changes a text only at genuine personal data: cut into pieces, each piece is shown as it
-- was or, if it passes the tests of an email address, a card or a social security number, as the
-- marker of that kind.
pub redact_pii_sound :
    (bytes : List ℕ)
    → (ps : List Piece) × (original bytes ps ≡ bytes)
      × (shown ps ≡ redact_pii bytes)
      × Hides (Genuine bytes) ps
unfolding redact_pii
redact_pii_sound bytes =
    let (o, g) = find_all_spans_sound bytes in
    replace_spans_pieces bytes (find_all_spans bytes) (Genuine bytes) (InOrder→InText bytes 0 _ o) g
