-- ===== src/Ir/Dates/Calendar.antt =====
-- The texts of dates are those of the days of the calendar (binary_ir.rs, `validate_date`).
use s.Prelude.{
  arith, eqb, if◌then◌else◌, some, ℕ, ◌%◌, ◌++◌, ◌+◌, ◌/◌, ◌∷◌, ◌≡◌, ◌≤◌, nat_eq, string_eq, [],
  eqb_iff, false, length, ltb, not, ok, subst, sym, ◌||◌, ◌∙◌, Bool-cases, ap, err, inl, inr, ◌↔◌,
}
use s.Ir.{Text}
use s.Ir.Dates.{days_of, has_byte, is_leap_year, parse_digits, validate_date}
use s.Ir.Dates.Digits.{four_digits, two_digits, read_four, read_two, parse_four, parse_two}
use s.Ir.Checked.{
  fail_if-last, fail_if-ok, ltb-false, not-false, ok_or-ok, or-false, positive, some-injective,
  eqb-positive, ltb-above,
}

-- The lengths of the months, by the parity that changes in August.
unfoldable pub month_length : ℕ → ℕ → ℕ
unfolding is_leap_year
month_length year month =
    if eqb month 2 then (if is_leap_year year then 29 else 28) else 30 + (month + month / 8) % 2

abbrev pub IsDay : ℕ → ℕ → ℕ → Type 0
IsDay year month day =
    (1 ≤ year)
    × (year ≤ 9999)
    × (1 ≤ month)
    × (month ≤ 12)
    × (1 ≤ day)
    × (day ≤ month_length year month)

abbrev pub date_text : ℕ → ℕ → ℕ → Text
date_text year month day = four_digits year ++ b'-' ∷ (two_digits month ++ b'-' ∷ two_digits day)

days_of_month :
    (year month : ℕ) → 1 ≤ month → month ≤ 12 → days_of year month ≡ some (month_length year month)
unfolding days_of month_length has_byte
days_of_month year month p q = ground arith

days_of_range : (year month n : ℕ) → days_of year month ≡ some n → (1 ≤ month) × (month ≤ 12)
unfolding days_of
days_of_range year month n h = ground arith

text_accepted :
    (t : Text)
    → length t ≡ 10
    → validate_date t ≡ ok tt
    → (year : ℕ) × (month : ℕ) × (day : ℕ) × IsDay year month day × (t ≡ date_text year month day)
unfolding validate_date
text_accepted (a ∷ b ∷ c ∷ d ∷ e ∷ f ∷ g ∷ h ∷ i ∷ j ∷ []) len accepted =
    let one =
      fail_if-ok (false || not (eqb e b'-') || not (eqb h b'-')) "expected YYYY-MM-DD" _ tt
        accepted in
    let dashes = or-false (not (eqb e b'-')) (not (eqb h b'-')) one.0 in
    let year = ok_or-ok (parse_digits (a ∷ b ∷ c ∷ d ∷ [])) "year must contain digits" _ tt one.1 in
    let month = ok_or-ok (parse_digits (f ∷ g ∷ [])) "month must contain digits" _ tt year.2 in
    let day = ok_or-ok (parse_digits (i ∷ j ∷ [])) "day must contain digits" _ tt month.2 in
    let positive_year = fail_if-ok (eqb year.0 0) "year zero is not supported" _ tt day.2 in
    let days = ok_or-ok (days_of year.0 month.0) "month is out of range" _ tt positive_year.1 in
    let last =
      or-false (eqb day.0 0) (ltb days.0 day.0)
        (fail_if-last (eqb day.0 0 || ltb days.0 day.0) "day is out of range" days.2) in
    let y = read_four a b c d year.0 year.1 in
    let m = read_two f g month.0 month.1 in
    let last_two = read_two i j day.0 day.1 in
    let range = days_of_range year.0 month.0 days.0 days.1 in
    let length : days.0 ≡ month_length year.0 month.0 =
      some-injective (sym days.1 ∙ days_of_month year.0 month.0 range.0 range.1) in
    let within : day.0 ≤ month_length year.0 month.0 =
      subst (λ n. day.0 ≤ n) length (ltb-false days.0 day.0 last.1) in
    let p : e ≡ b'-' = (eqb_iff e b'-').0 (not-false _ dashes.0) in
    let q : h ≡ b'-' = (eqb_iff h b'-').0 (not-false _ dashes.1) in
    let text =
      ap (λ x. x ++ e ∷ f ∷ g ∷ h ∷ i ∷ j ∷ []) y.1
      ∙ ap (λ x. four_digits year.0 ++ x ∷ f ∷ g ∷ h ∷ i ∷ j ∷ []) p
      ∙ ap (λ x. four_digits year.0 ++ b'-' ∷ (x ++ h ∷ i ∷ j ∷ [])) m.1
      ∙ ap (λ x. four_digits year.0 ++ b'-' ∷ (two_digits month.0 ++ x ∷ i ∷ j ∷ [])) q
      ∙ ap (λ x. four_digits year.0 ++ b'-' ∷ (two_digits month.0 ++ b'-' ∷ x)) last_two.1 in
    (
      year.0,
      month.0,
      day.0,
      (positive year.0 positive_year.0, y.0, range.0, range.1, positive day.0 last.0, within),
      text,
    )
text_accepted _ len accepted = absurd (omega (arith, len))

date_refused : (t : Text) → eqb (length t) 10 ≡ false → validate_date t ≡ ok tt → ⊥
unfolding validate_date
date_refused t e accepted = let f : validate_date t ≡ err "expected YYYY-MM-DD" = rw e in cc

pub month_bound : (year month : ℕ) → month_length year month ≤ 31
unfolding month_length
month_bound year month = ground arith

date_length : (t : Text) → validate_date t ≡ ok tt → length t ≡ 10
unfolding validate_date
date_length t accepted = elim (Bool-cases (eqb (length t) 10)) [
  | inl e ↦ (eqb_iff (length t) 10).0 e
  | inr e ↦ absurd (date_refused t e accepted)
]

text_accepts :
    (year month day : ℕ) → IsDay year month day → validate_date (date_text year month day) ≡ ok tt
unfolding validate_date
text_accepts year month day r = rw (
  parse_four year r.1,
  parse_two month (omega (arith, r.3)),
  parse_two day (omega (arith, r.5, month_bound year month)),
  eqb-positive year r.0,
  days_of_month year month r.2 r.3,
  eqb-positive day r.4,
  ltb-above (month_length year month) day r.5,
)

-- A text is accepted as a date just when it is the text YYYY-MM-DD of a day of the calendar in the
-- years 1 to 9999.
pub validate_date_iff :
    (t : Text)
    → (validate_date t ≡ ok tt) ↔ (
        (year : ℕ) × (month : ℕ) × (day : ℕ) × IsDay year month day
        × (t ≡ date_text year month day))
validate_date_iff t = (
  λ h. text_accepted t (date_length t h) h,
  λ d. subst (λ q. validate_date q ≡ ok tt) (sym d.4) (text_accepts d.0 d.1 d.2 d.3),
)
