-- ===== src/Pii/Spans.antt =====
-- Which spans the scan returns (filters/pii-shared, `find_all_spans` and `find_spans`).
use s.Prelude.{
  Bool-cases, List, Option, [], inl, inr, length, ltb, ltb→lt, none, refl, some, suc, true, zero, ℕ,
  ◌+◌, ◌<◌, ◌∷◌, ◌≡◌, ◌≤◌, ◌⊎◌, nat_eq, string_eq, All, Bool, Option-cases, ap, arith, dec_lt,
  false, if◌then◌else◌, subst, sym, ◌∙◌, not,
}
use s.Pii.Progress.{LiesIn, Lies, match_all-LiesIn}
use s.Pii.{PiiKind, Span, card, email, is_valid_email, slice, ssn}
use s.Pii.Scan.{
  holds_card, holds_ssn, scan, card_in, email_at, find_all_spans, found, match_all, or_else, ssn_in,
  digit_candidate,
}

-- Each span holds a byte and lies in the text, and ends behind the one before it.
abbrev pub InOrder : List ℕ → ℕ → List Span → Type 0
InOrder bytes i [] = Unit
InOrder bytes i (x ∷ xs) =
    (x.start < x.end) × (i < x.end) × (x.end ≤ length bytes) × InOrder bytes x.end xs

-- The position lies in one of the spans.
abbrev pub Covered : ℕ → List Span → Type 0
Covered i [] = ⊥
Covered i (x ∷ xs) = ((x.start ≤ i) × (i < x.end)) ⊎ Covered i xs

-- What is marked as a kind passes the tests of that kind.
abbrev pub Holds : PiiKind → List ℕ → Type 0
Holds email t = is_valid_email t ≡ true
Holds card t = holds_card t ≡ true
Holds ssn t = holds_ssn t ≡ true

abbrev pub Genuine : List ℕ → Span → Type 0
Genuine bytes x = Holds x.marker (slice bytes x.start x.end)

abbrev GenuineIn : List ℕ → Option Span → Type 0
GenuineIn bytes none = Unit
GenuineIn bytes (some x) = Genuine bytes x

InOrder-mono :
    (bytes : List ℕ) (i j : ℕ) (xs : List Span) → i ≤ j → InOrder bytes j xs → InOrder bytes i xs
InOrder-mono bytes i j [] h o = tt
InOrder-mono bytes i j (x ∷ xs) h (a, b, c, d) = (a, omega arith, c, d)

module _ (match : List ℕ → ℕ → Option Span) (bytes : List ℕ) where
  -- One round of the loop.
  scan_step :
      (f i : ℕ)
      → ((length bytes ≤ i) × (scan match bytes (suc f) i ≡ ([], true)))
        ⊎ ((i < length bytes)
            × (match bytes i ≡ none)
            × (scan match bytes (suc f) i ≡ scan match bytes f (suc i)))
        ⊎ ((x : Span) × (i < length bytes)
            × (match bytes i ≡ some x)
            × (scan match bytes (suc f) i
                ≡ (x ∷ (scan match bytes f x.end).0, (scan match bytes f x.end).1)))
  unfolding scan
  scan_step f i = elim (Bool-cases (ltb i (length bytes))) [
    | inr done ↦ inl (ground (arith, done), ground (arith, done))
    | inl more ↦ elim (Option-cases (match bytes i)) [
      | inl e ↦ inr (inl (ltb→lt i _ more, e, ground (arith, more, e)))
      | inr (x, e) ↦ inr (inr (x, ltb→lt i _ more, e, ground (arith, more, e)))
    ]
  ]

  scan-zero : (i : ℕ) → scan match bytes zero i ≡ ([], not (ltb i (length bytes)))
  unfolding scan
  scan-zero i = refl

module _ (match : List ℕ → ℕ → Option Span) (bytes : List ℕ)
    (lies : (i : ℕ) → i < length bytes → LiesIn bytes i (match bytes i)) where
  Lies-at : (i : ℕ) (x : Span) → i < length bytes → match bytes i ≡ some x → Lies bytes i x
  Lies-at i x h e = subst (LiesIn bytes i) e (lies i h)

  pub scan-InOrder : (fuel i : ℕ) → InOrder bytes i (scan match bytes fuel i).0
  scan-InOrder zero i = rw (scan-zero match bytes i) tt
  scan-InOrder (suc fuel) i = elim (scan_step match bytes fuel i) [
    | inl (_, q) ↦ rw q tt
    | inr (inl (_, _, q)) ↦
        rw q (InOrder-mono bytes i (suc i) _ (omega arith) (scan-InOrder fuel (suc i)))
    | inr (inr (x, h, e, q)) ↦
        let l = Lies-at i x h e in
        rw q (omega (arith, l), l.advances, l.ends, scan-InOrder fuel x.end)
  ]

  -- With fuel for the bytes that are left the loop leaves by its condition.
  pub scan_ends : (f i : ℕ) → length bytes ≤ f + i → (scan match bytes f i).1 ≡ true
  scan_ends zero i h = rw (scan-zero match bytes i) (ground (arith, h))
  scan_ends (suc f) i h = elim (scan_step match bytes f i) [
    | inl (_, q) ↦ rw q refl
    | inr (inl (_, _, q)) ↦ rw q (scan_ends f (suc i) (omega arith))
    | inr (inr (x, l, e, q)) ↦
        rw q (scan_ends f x.end (omega (arith, h, (Lies-at i x l e).advances)))
  ]

  -- A loop that has left by its condition does the same with more fuel.
  pub scan_same :
      (f g i : ℕ)
      → f ≤ g
      → (scan match bytes f i).1 ≡ true
      → scan match bytes g i ≡ scan match bytes f i
  scan_same zero zero i h e = refl
  scan_same zero (suc g) i h e = elim (scan_step match bytes g i) [
    | inl (m, q) ↦ rw (q, scan-zero match bytes i) (ground (arith, m))
    | inr (inl (m, _, _)) ↦ absurd (cut_off i m e)
    | inr (inr (_, m, _, _)) ↦ absurd (cut_off i m e)
  ]
    where
      cut_off : (i : ℕ) → i < length bytes → (scan match bytes zero i).1 ≡ true → ⊥
      cut_off i m e =
          let f : not (ltb i (length bytes)) ≡ true =
            subst (λ r. r.1 ≡ true) (scan-zero match bytes i) e in
          ground (arith, m, f)
  scan_same (suc f) zero i h e = absurd (omega (arith, h))
  scan_same (suc f) (suc g) i h e = elim (scan_step match bytes f i) [
    | inl (l, q) ↦ elim (scan_step match bytes g i) [
      | inl (_, p) ↦ p ∙ sym q
      | inr (inl (m, _, _)) ↦ absurd (omega arith)
      | inr (inr (_, m, _, _)) ↦ absurd (omega arith)
    ]
    | inr (inl (l, d, q)) ↦ elim (scan_step match bytes g i) [
      | inl (m, _) ↦ absurd (omega arith)
      | inr (inl (_, _, p)) ↦
          p ∙ scan_same f g (suc i) (omega (arith, h)) (subst (λ r. r.1 ≡ true) q e) ∙ sym q
      | inr (inr (y, _, c, p)) ↦ absurd (cc (c, d))
    ]
    | inr (inr (x, l, d, q)) ↦ elim (scan_step match bytes g i) [
      | inl (m, _) ↦ absurd (omega arith)
      | inr (inl (_, c, _)) ↦ absurd (cc (c, d))
      | inr (inr (y, m, c, p)) ↦
          let same : y ≡ x = cc (c, d) in
          let rest = scan_same f g x.end (omega (arith, h)) (subst (λ r. r.1 ≡ true) q e) in
          p
          ∙ ap (λ (z : Span). (z ∷ (scan match bytes g z.end).0, (scan match bytes g z.end).1)) same
          ∙ ap (λ r. (x ∷ r.0, r.1)) rest
          ∙ sym q
    ]
  ]

  -- Wherever a round would find something, one of the returned spans lies over that place.
  pub scan-Covered :
      (f i j : ℕ) (x : Span)
      → length bytes ≤ f + i
      → i ≤ j
      → j < length bytes
      → match bytes j ≡ some x
      → Covered j (scan match bytes f i).0
  scan-Covered zero i j x h k l e = absurd (omega arith)
  scan-Covered (suc f) i j x h k l e = elim (scan_step match bytes f i) [
    | inl (m, _) ↦ absurd (omega arith)
    | inr (inl (m, n, q)) ↦ elim (dec_lt i j) [
      | yes later ↦ rw q (scan-Covered f (suc i) j x (omega arith) later l e)
      | no now ↦ let same : i ≡ j = omega arith in absurd (cc (ap (match bytes) same, n, e))
    ]
    | inr (inr (y, m, n, q)) ↦
        let a = Lies-at i y m n in
        elim (dec_lt j y.end) [
          | yes inside ↦ rw q (inl (omega (arith, a), inside))
          | no beyond ↦ rw q (inr (scan-Covered f y.end j x (omega (arith, a)) (omega arith) l e))
        ]
  ]

module _ (match : List ℕ → ℕ → Option Span) (bytes : List ℕ)
    (genuine : (i : ℕ) → GenuineIn bytes (match bytes i)) where
  scan-Genuine : (f i : ℕ) → All (Genuine bytes) (scan match bytes f i).0
  scan-Genuine zero i = rw (scan-zero match bytes i) tt
  scan-Genuine (suc f) i = elim (scan_step match bytes f i) [
    | inl (_, q) ↦ rw q tt
    | inr (inl (_, _, q)) ↦ rw q (scan-Genuine f (suc i))
    | inr (inr (x, h, e, q)) ↦ rw q (subst (GenuineIn bytes) e (genuine i), scan-Genuine f x.end)
  ]

email_at-Genuine : (bytes : List ℕ) (i : ℕ) → GenuineIn bytes (email_at bytes i)
unfolding email_at
email_at-Genuine bytes i = ground arith

genuine_if :
    (bytes : List ℕ) (k : PiiKind) (s e : ℕ) (b : Bool)
    → (b ≡ true → Holds k (slice bytes s e))
    → GenuineIn bytes (if b then found (s, e) k else none)
genuine_if bytes k s e true h = h refl
genuine_if bytes k s e false h = tt

card_in-Genuine : (bytes : List ℕ) (o : Option (ℕ × ℕ)) → GenuineIn bytes (card_in bytes o)
card_in-Genuine bytes none = tt
card_in-Genuine bytes (some (s, e)) =
    genuine_if bytes card s e (holds_card (slice bytes s e)) (λ h. h)

ssn_in-Genuine : (bytes : List ℕ) (o : Option (ℕ × ℕ)) → GenuineIn bytes (ssn_in bytes o)
ssn_in-Genuine bytes none = tt
ssn_in-Genuine bytes (some (s, e)) = genuine_if bytes ssn s e (holds_ssn (slice bytes s e)) (λ h. h)

or_else-Genuine :
    (bytes : List ℕ) (o p : Option Span)
    → GenuineIn bytes o
    → GenuineIn bytes p
    → GenuineIn bytes (or_else o p)
or_else-Genuine bytes none p h k = k
or_else-Genuine bytes (some x) p h k = h

match_all-Genuine : (bytes : List ℕ) (i : ℕ) → GenuineIn bytes (match_all bytes i)
unfolding match_all
match_all-Genuine bytes i =
    let c = digit_candidate bytes i in
    or_else-Genuine bytes (email_at bytes i) (or_else (card_in bytes c) (ssn_in bytes c))
      (email_at-Genuine bytes i)
      (or_else-Genuine bytes (card_in bytes c) (ssn_in bytes c) (card_in-Genuine bytes c)
        (ssn_in-Genuine bytes c))

-- The scan for all kinds: its spans lie in the text, end in ascending order, and each passes the
-- tests of the kind that it is marked with.
pub find_all_spans_sound :
    (bytes : List ℕ)
    → InOrder bytes 0 (find_all_spans bytes) × All (Genuine bytes) (find_all_spans bytes)
unfolding find_all_spans
find_all_spans_sound bytes = (
  scan-InOrder match_all bytes (match_all-LiesIn bytes) (length bytes) 0,
  scan-Genuine match_all bytes (match_all-Genuine bytes) (length bytes) 0,
)

-- No place is missed: where a round of the scan would find something, a returned span lies over
-- that place.
pub find_all_spans_complete :
    (bytes : List ℕ) (j : ℕ) (x : Span)
    → j < length bytes
    → match_all bytes j ≡ some x
    → Covered j (find_all_spans bytes)
unfolding find_all_spans
find_all_spans_complete bytes j x l e =
    scan-Covered match_all bytes (match_all-LiesIn bytes) (length bytes) 0 j x (omega arith)
      (omega arith) l e

-- The loop ends by itself: with fuel from the text's length on it leaves by its condition and not
-- because it is cut off, with the spans that are returned.
pub find_all_spans_terminates :
    (bytes : List ℕ) (fuel : ℕ)
    → length bytes ≤ fuel
    → scan match_all bytes fuel 0 ≡ (find_all_spans bytes, true)
unfolding find_all_spans
find_all_spans_terminates bytes fuel h =
    let lies = match_all-LiesIn bytes in
    let ends = scan_ends match_all bytes lies (length bytes) 0 (omega arith) in
    let same = scan_same match_all bytes lies (length bytes) fuel 0 h ends in
    same ∙ ap (λ b. ((scan match_all bytes (length bytes) 0).0, b)) ends
