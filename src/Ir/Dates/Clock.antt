-- ===== src/Ir/Dates/Clock.antt =====
-- The texts of times and of timestamps (binary_ir.rs, `validate_time`, `validate_timestamp`).
use s.Prelude.{
  Bool-cases, [], ap, arith, eqb, eqb_iff, err, false, inl, inr, is_empty, length, ltb, not, ok,
  refl, subst, sym, true, ℕ, ◌++◌, ◌||◌, ◌↔◌, ◌∙◌, ◌∷◌, ◌≡◌, ◌≤◌, nat_eq, string_eq,
}
use s.Ir.{Text}
use s.Ir.Dates.{ends_in_zero, parse_digits, validate_fraction, validate_time, all_ascii_digits}
use s.Ir.Checked.{fail_if-last, fail_if-ok, ltb-above, ltb-false, not-false, ok_or-ok, or-false}
use s.Ir.Dates.Digits.{parse_two, read_two, two_digits}

abbrev pub IsTime : ℕ → ℕ → ℕ → Type 0
IsTime hour minute second = (hour ≤ 23) × (minute ≤ 59) × (second ≤ 59)

-- Nothing, or a point with one to nine digits, the last of them not a zero.
abbrev pub IsFraction : Text → Type 0
IsFraction [] = Unit
IsFraction (point ∷ digits) =
    (point ≡ b'.')
    × (1 ≤ length digits)
    × (length digits ≤ 9)
    × (all_ascii_digits digits ≡ true)
    × (ends_in_zero digits ≡ false)

abbrev pub time_text : ℕ → ℕ → ℕ → Text → Text
time_text hour minute second fraction =
    two_digits hour ++ b':' ∷ (two_digits minute ++ b':' ∷ (two_digits second ++ fraction))

some_digit : (l : Text) → is_empty l ≡ false → 1 ≤ length l
some_digit [] h = cc
some_digit (b ∷ l) h = omega arith

none_empty : (l : Text) → 1 ≤ length l → is_empty l ≡ false
none_empty [] h = absurd (omega (arith, h))
none_empty (b ∷ l) h = refl

IsFraction-iff : (l : Text) → (validate_fraction l ≡ ok tt) ↔ IsFraction l
unfolding validate_fraction
IsFraction-iff [] = (λ _. tt, λ _. refl)
IsFraction-iff (point ∷ l) = (
  λ h.
      let a = fail_if-ok (not (eqb point b'.')) _ _ tt h in
      let b = fail_if-ok (is_empty l || ltb 9 (length l) || not (all_ascii_digits l)) _ _ tt a.1 in
      let c = or-false (is_empty l || ltb 9 (length l)) (not (all_ascii_digits l)) b.0 in
      let d = or-false (is_empty l) (ltb 9 (length l)) c.0 in
      let z = fail_if-last (ends_in_zero l) "fractional seconds must not have trailing zeros" b.1 in
      (
        (eqb_iff point b'.').0 (not-false _ a.0),
        some_digit l d.0,
        ltb-false 9 (length l) d.1,
        not-false _ c.1,
        z,
      ),
  λ f. rw ((eqb_iff point b'.').1 f.0, none_empty l f.1, ltb-above 9 (length l) f.2, f.3, f.4),
)

abbrev Timed : Text → Type 0
Timed t =
    (hour : ℕ) × (minute : ℕ) × (second : ℕ) × (fraction : Text) × IsTime hour minute second
    × IsFraction fraction
    × (t ≡ time_text hour minute second fraction)

time_accepted : (t : Text) → 8 ≤ length t → validate_time t ≡ ok tt → Timed t
unfolding validate_time
time_accepted (a ∷ b ∷ c ∷ d ∷ e ∷ f ∷ g ∷ h ∷ rest) len accepted =
    let whole = a ∷ b ∷ c ∷ d ∷ e ∷ f ∷ g ∷ h ∷ rest in
    let one =
      fail_if-ok (ltb (length whole) 8 || not (eqb c b':') || not (eqb f b':')) _ _ tt accepted in
    let colons = or-false (ltb (length whole) 8 || not (eqb c b':')) (not (eqb f b':')) one.0 in
    let first = or-false (ltb (length whole) 8) (not (eqb c b':')) colons.0 in
    let hour = ok_or-ok (parse_digits (a ∷ b ∷ [])) "hour must contain digits" _ tt one.1 in
    let minute = ok_or-ok (parse_digits (d ∷ e ∷ [])) "minute must contain digits" _ tt hour.2 in
    let second = ok_or-ok (parse_digits (g ∷ h ∷ [])) "second must contain digits" _ tt minute.2 in
    let range = fail_if-ok (ltb 23 hour.0 || ltb 59 minute.0 || ltb 59 second.0) _ _ tt second.2 in
    let two = or-false (ltb 23 hour.0 || ltb 59 minute.0) (ltb 59 second.0) range.0 in
    let three = or-false (ltb 23 hour.0) (ltb 59 minute.0) two.0 in
    let p : c ≡ b':' = (eqb_iff c b':').0 (not-false _ first.1) in
    let q : f ≡ b':' = (eqb_iff f b':').0 (not-false _ colons.1) in
    let x = read_two a b hour.0 hour.1 in
    let y = read_two d e minute.0 minute.1 in
    let z = read_two g h second.0 second.1 in
    (
      hour.0,
      minute.0,
      second.0,
      rest,
      (ltb-false 23 hour.0 three.0, ltb-false 59 minute.0 three.1, ltb-false 59 second.0 two.1),
      (IsFraction-iff rest).0 range.1,
      ap (λ r. r ++ c ∷ d ∷ e ∷ f ∷ g ∷ h ∷ rest) x.1
          ∙ ap (λ r. two_digits hour.0 ++ r ∷ d ∷ e ∷ f ∷ g ∷ h ∷ rest) p
          ∙ ap (λ r. two_digits hour.0 ++ b':' ∷ (r ++ f ∷ g ∷ h ∷ rest)) y.1
          ∙ ap (λ r. two_digits hour.0 ++ b':' ∷ (two_digits minute.0 ++ r ∷ g ∷ h ∷ rest)) q
          ∙ ap (λ r. two_digits hour.0 ++ b':' ∷ (two_digits minute.0 ++ b':' ∷ (r ++ rest))) z.1,
    )
time_accepted _ len accepted = absurd (omega (arith, len))

short_refused : (t : Text) → ltb (length t) 8 ≡ true → validate_time t ≡ ok tt → ⊥
unfolding validate_time
short_refused t e accepted =
    let f : validate_time t ≡ err "expected HH:MM:SS with an optional fractional part" = rw e in cc

time_length : (t : Text) → validate_time t ≡ ok tt → 8 ≤ length t
time_length t h = elim (Bool-cases (ltb (length t) 8)) [
  | inl e ↦ absurd (short_refused t e h)
  | inr e ↦ ltb-false (length t) 8 e
]

time_accepts :
    (hour minute second : ℕ) (fraction : Text)
    → IsTime hour minute second
    → IsFraction fraction
    → validate_time (time_text hour minute second fraction) ≡ ok tt
unfolding validate_time
time_accepts hour minute second fraction r f =
    rw
      (
        ltb-above (length (time_text hour minute second fraction)) 8 (omega arith),
        parse_two hour (omega (arith, r.0)),
        parse_two minute (omega (arith, r.1)),
        parse_two second (omega (arith, r.2)),
        ltb-above 23 hour r.0,
        ltb-above 59 minute r.1,
        ltb-above 59 second r.2,
      )
      ((IsFraction-iff fraction).1 f)

-- A text is accepted as a time just when it is HH:MM:SS of a second of the day, without a leap second,
-- with nothing behind it or with a fraction of one to nine digits that does not end in a zero.
pub validate_time_iff :
    (t : Text)
    → (validate_time t ≡ ok tt) ↔ (
        (hour : ℕ) × (minute : ℕ) × (second : ℕ) × (fraction : Text) × IsTime hour minute second
        × IsFraction fraction
        × (t ≡ time_text hour minute second fraction))
validate_time_iff t = (
  λ h. time_accepted t (time_length t h) h,
  λ d. subst (λ q. validate_time q ≡ ok tt) (sym d.6) (time_accepts d.0 d.1 d.2 d.3 d.4 d.5),
)
