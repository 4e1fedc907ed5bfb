-- ===== src/Ir/Dates/Timestamps.antt =====
-- The texts of timestamps (binary_ir.rs, `validate_timestamp`).
use s.Prelude.{
  Bool-cases, List, Option-cases, [], ap, append_assoc, arith, eqb, eqb_iff, false, if◌then◌else◌,
  inl, inr, leb, leb→le, none, ok, refl, some, subst, sym, true, ℕ, ◌%◌, ◌++◌, ◌/◌, ◌↔◌, ◌∙◌, ◌∷◌,
  ◌≡◌, ◌≤◌, nat_eq, string_eq,
}
use s.Ir.Checked.{>>=-ok, and-true, fail_if-ok, ok_or-ok, or-false, some-injective}
use s.Ir.Dates.Clock.{IsFraction, validate_time_iff}
use s.Ir.{Text}
use s.Ir.Dates.Digits.{digit}
use s.Ir.Dates.{
  has_byte, split_once, strip_last, validate_date, validate_time, validate_timestamp,
  all_ascii_digits, is_ascii_digit,
}
use s.Ir.Dates.Calendar.{month_bound, validate_date_iff}

strip_last-append : (z : ℕ) (l : List ℕ) → strip_last z (l ++ z ∷ []) ≡ some l
unfolding strip_last
strip_last-append z [] = rw ((eqb_iff z z).1 refl)
strip_last-append z (b ∷ []) =
    let e : strip_last z (z ∷ []) ≡ some [] = strip_last-append z [] in rw (strip_last, e)
strip_last-append z (b ∷ c ∷ l) = rw (strip_last-append z (c ∷ l))

strip_last-parts : (z : ℕ) (t l : List ℕ) → strip_last z t ≡ some l → t ≡ l ++ z ∷ []
unfolding strip_last
strip_last-parts z [] l h = cc
strip_last-parts z (b ∷ []) l h = elim (Bool-cases (eqb b z)) [
  | inl e ↦
      let f : some [] ≡ some l = subst (λ q. (if q then some [] else none) ≡ some l) e h in
      let g : b ≡ z = (eqb_iff b z).0 e in cc
  | inr e ↦ let f : none ≡ some l = subst (λ q. (if q then some [] else none) ≡ some l) e h in cc
]
strip_last-parts z (b ∷ c ∷ t) l h = elim (Option-cases (strip_last z (c ∷ t))) [
  | inl e ↦ let f : strip_last z (b ∷ c ∷ t) ≡ none = rw (strip_last, e) in cc
  | inr r ↦
      let f : strip_last z (b ∷ c ∷ t) ≡ some (b ∷ r.0) = rw (strip_last, r.1) in
      let g = strip_last-parts z (c ∷ t) r.0 r.1 in
      let k : b ∷ r.0 ≡ l = some-injective (sym f ∙ h) in
      ap (λ q. b ∷ q) g ∙ ap (λ q. q ++ z ∷ []) k
]

split_once-append :
    (t : ℕ) (l r : List ℕ) → has_byte t l ≡ false → split_once t (l ++ t ∷ r) ≡ some (l, r)
unfolding split_once
split_once-append t [] r h = rw ((eqb_iff t t).1 refl)
split_once-append t (b ∷ l) r h =
    let a = or-false (eqb b t) (has_byte t l) h in rw (a.0, split_once-append t l r a.1)

split_once-parts :
    (t : ℕ) (s : List ℕ) (p : List ℕ × List ℕ) → split_once t s ≡ some p → s ≡ p.0 ++ t ∷ p.1
unfolding split_once
split_once-parts t [] p h = cc
split_once-parts t (b ∷ l) p h = elim (Bool-cases (eqb b t)) [
  | inl e ↦
      let f : split_once t (b ∷ l) ≡ some ([], l) = rw (split_once, e) in
      let k : ([], l) ≡ p = some-injective (sym f ∙ h) in
      let g : b ≡ t = (eqb_iff b t).0 e in ap (λ q. q ∷ l) g ∙ ap (λ q. q.0 ++ t ∷ q.1) k
  | inr e ↦ elim (Option-cases (split_once t l)) [
    | inl n ↦ let f : split_once t (b ∷ l) ≡ none = rw (split_once, e, n) in cc
    | inr r ↦
        let f : split_once t (b ∷ l) ≡ some (b ∷ r.0.0, r.0.1) = rw (split_once, e, r.1) in
        let k : (b ∷ r.0.0, r.0.1) ≡ p = some-injective (sym f ∙ h) in
        ap (λ q. b ∷ q) (split_once-parts t l r.0 r.1) ∙ ap (λ q. q.0 ++ t ∷ q.1) k
  ]
]

digit-no_t : (d : ℕ) → d ≤ 9 → eqb (digit d) b'T' ≡ false
digit-no_t d h = ground arith

digits-no_t : (l : Text) → all_ascii_digits l ≡ true → has_byte b'T' l ≡ false
digits-no_t [] h = refl
digits-no_t (b ∷ l) h =
    let a = and-true (is_ascii_digit b) (all_ascii_digits l) h in
    let c = and-true (leb b'0' b) (leb b b'9') a.0 in
    rw (below_t b (leb→le b 57 c.1)) (digits-no_t l a.1)
  where
    below_t : (b : ℕ) → b ≤ 57 → eqb b b'T' ≡ false
    below_t b h = ground arith

date-no_t : (t : Text) → validate_date t ≡ ok tt → has_byte b'T' t ≡ false
date-no_t t h =
    let d = (validate_date_iff t).0 h in
    let y = d.0 in
    let m = d.1 in
    let n = d.2 in
    subst (λ q. has_byte b'T' q ≡ false) (sym d.4)
      (rw (
        digit-no_t (y / 1000) (omega (arith, d.3.1)),
        digit-no_t (y / 100 % 10) (omega arith),
        digit-no_t (y / 10 % 10) (omega arith),
        digit-no_t (y % 10) (omega arith),
        digit-no_t (m / 10) (omega (arith, d.3.3)),
        digit-no_t (m % 10) (omega arith),
        digit-no_t (n / 10) (omega (arith, d.3.5, month_bound y m)),
        digit-no_t (n % 10) (omega arith),
      ))

fraction-no_t : (l : Text) → IsFraction l → has_byte b'T' l ≡ false
fraction-no_t [] f = refl
fraction-no_t (p ∷ l) f = rw f.0 (digits-no_t l f.3)

time-no_t : (t : Text) → validate_time t ≡ ok tt → has_byte b'T' t ≡ false
time-no_t t h =
    let d = (validate_time_iff t).0 h in
    let two = λ (n : ℕ). digit-no_t (n % 10) (omega arith) in
    subst (λ q. has_byte b'T' q ≡ false) (sym d.6)
      (rw
        (
          digit-no_t (d.0 / 10) (omega (arith, d.4.0)),
          two d.0,
          digit-no_t (d.1 / 10) (omega (arith, d.4.1)),
          two d.1,
          digit-no_t (d.2 / 10) (omega (arith, d.4.2)),
          two d.2,
        )
        (fraction-no_t d.3 d.5))

-- A text is accepted as a timestamp just when it is a date, a T, a time and a Z, in this order, and
-- nothing else.
pub validate_timestamp_iff :
    (t : Text)
    → (validate_timestamp t ≡ ok tt) ↔ (
        (date : Text) × (time : Text) × (validate_date date ≡ ok tt)
        × (validate_time time ≡ ok tt)
        × (t ≡ date ++ b'T' ∷ (time ++ b'Z' ∷ [])))
unfolding validate_timestamp
validate_timestamp_iff t = (
  λ h.
      let a = ok_or-ok (strip_last b'Z' t) "expected a UTC timestamp ending in Z" _ tt h in
      let b = ok_or-ok (split_once b'T' a.0) "expected date and time separated by T" _ tt a.2 in
      let c = fail_if-ok (has_byte b'T' b.0.1) _ _ tt b.2 in
      let d = >>=-ok (validate_date b.0.0) _ tt c.1 in
      (
        b.0.0,
        b.0.1,
        d.1,
        d.2,
        strip_last-parts b'Z' t a.0 a.1
            ∙ ap (λ q. q ++ b'Z' ∷ []) (split_once-parts b'T' a.0 b.0 b.1)
            ∙ append_assoc b.0.0 (b'T' ∷ b.0.1) (b'Z' ∷ []),
      ),
  λ d.
      let e : d.0 ++ b'T' ∷ (d.1 ++ b'Z' ∷ []) ≡ (d.0 ++ b'T' ∷ d.1) ++ b'Z' ∷ [] =
        sym (append_assoc d.0 (b'T' ∷ d.1) (b'Z' ∷ [])) in
      rw
        (
          d.4,
          e,
          strip_last-append b'Z' (d.0 ++ b'T' ∷ d.1),
          split_once-append b'T' d.0 d.1 (date-no_t d.0 d.2),
          time-no_t d.1 d.3,
          d.2,
        )
        d.3,
)
