-- ===== src/Ir/Decimals/Canonical.antt =====
-- The texts of decimal numbers are the canonical ones (binary_ir.rs, `parse_decimal`).
use s.Prelude.{
  Bool, [], ap, arith, false, is_empty, length, length-append, ltb, ok, subst, sym, true, ◌&&◌,
  ◌++◌, ◌+◌, ◌-◌, ◌∙◌, ◌∷◌, ◌≡◌, ◌≤◌, nat_eq, string_eq, Bool-cases, append-nil, eqb, eqb_iff, inl,
  inr, not, refl, List, ◌||◌, ◌↔◌,
}
use s.Ir.Decimals.{
  DecimalParts, all_zero, first_nonzero, parse_unsigned, starts_with, u32_max, all_ascii_digits,
  or_else, parse_signed, split_points, strip_minus, first_part, parse_decimal,
}
use s.Ir.{Text}
use s.Ir.Checked.{fail_if-ok, ltb-above, ltb-false, ok-injective, and-true, not-false, or-false}
use s.Ir.Decimals.Pieces.{
  precision-significant, significant, digit-not, has_point, split-digits, split-point, join-split,
  join_points,
}
use s.Ir.Dates.{has_byte, is_ascii_digit}

-- The digits of a canonical decimal: there is an integer part, without a zero in front of other
-- digits, a zero has no sign, and the counts are machine numbers.
abbrev pub IsDecimal : Bool → Text → Text → Type 0
IsDecimal negative integer fraction =
    (is_empty integer ≡ false)
    × (all_ascii_digits integer ≡ true)
    × ((ltb 1 (length integer) && starts_with b'0' integer) ≡ false)
    × (all_ascii_digits fraction ≡ true)
    × ((negative && all_zero (integer ++ fraction)) ≡ false)
    × (length fraction ≤ u32_max)
    × (significant (integer ++ fraction) ≤ u32_max)

abbrev pub sign_text : Bool → Text → Text
sign_text true t = b'-' ∷ t
sign_text false t = t

-- No point without a fraction.
abbrev pub point_text : Text → Text
point_text [] = []
point_text (b ∷ l) = b'.' ∷ b ∷ l

abbrev pub decimal_text : Bool → Text → Text → Text
decimal_text negative integer fraction = sign_text negative (integer ++ point_text fraction)

abbrev pub counted_parts : Text → Text → DecimalParts
counted_parts integer fraction = record {
  precision = significant (integer ++ fraction);
  scale = length fraction;
}

not_empty : (t : Text) → is_empty t ≡ false → 1 ≤ length t
not_empty [] h = cc
not_empty (b ∷ l) h = omega arith

unsigned_runs :
    (negative : Bool) (integer fraction : Text)
    → IsDecimal negative integer fraction
    → parse_unsigned negative integer fraction ≡ ok (counted_parts integer fraction)
unfolding parse_unsigned
unsigned_runs negative integer fraction d =
    let n = length integer + length fraction in
    let e : n ≡ length (integer ++ fraction) = sym (length-append integer fraction) in
    let p =
      precision-significant (integer ++ fraction) n e (omega (arith, not_empty integer d.0)) in
    rw (
      ltb-above u32_max (length fraction) d.5,
      p,
      ltb-above u32_max (significant (integer ++ fraction)) d.6,
      d.4,
    )

unsigned_parts :
    (negative : Bool) (integer fraction : Text) (parts : DecimalParts)
    → is_empty integer ≡ false
    → parse_unsigned negative integer fraction ≡ ok parts
    → ((negative && all_zero (integer ++ fraction)) ≡ false)
      × (length fraction ≤ u32_max)
      × (significant (integer ++ fraction) ≤ u32_max)
      × (parts ≡ counted_parts integer fraction)
unfolding parse_unsigned
unsigned_parts negative integer fraction parts full h =
    let n = length integer + length fraction in
    let e : n ≡ length (integer ++ fraction) = sym (length-append integer fraction) in
    let p =
      precision-significant (integer ++ fraction) n e (omega (arith, not_empty integer full)) in
    let digits = integer ++ fraction in
    let shown = n - or_else (first_nonzero digits) (n - 1) in
    let a = fail_if-ok (ltb u32_max (length fraction)) "scale is too large" _ parts h in
    let b = fail_if-ok (ltb u32_max shown) "precision is too large" _ parts a.1 in
    let c = fail_if-ok (negative && all_zero digits) "negative zero is not canonical" _ parts b.1 in
    let r = ok-injective c.1 in
    (
      c.0,
      ltb-false u32_max (length fraction) a.0,
      subst (λ q. q ≤ u32_max) p (ltb-false u32_max shown b.0),
      sym r ∙ ap (λ q. record { precision = q; scale = length fraction }) p,
    )

signed_runs :
    (negative : Bool) (integer fraction : Text)
    → IsDecimal negative integer fraction
    → parse_signed (negative, integer ++ point_text fraction) ≡ ok (counted_parts integer fraction)
unfolding parse_signed
signed_runs negative [] fraction d = cc
signed_runs negative (b ∷ l) [] d =
    let digits = and-true (is_ascii_digit b) (all_ascii_digits l) d.1 in
    let s : split_points ((b ∷ l) ++ []) ≡ (b ∷ l, []) =
      ap split_points (append-nil (b ∷ l)) ∙ split-digits (b ∷ l) d.1 in
    let p : has_byte b'.' ((b ∷ l) ++ []) ≡ false =
      has_point ((b ∷ l) ++ []) ∙ ap (λ q. not (is_empty q.1)) s in
    rw (digit-not b b'+' digits.0 (omega arith), s, p, d.1, d.2)
      (unsigned_runs negative (b ∷ l) [] d)
signed_runs negative (b ∷ l) (c ∷ m) d =
    let digits = and-true (is_ascii_digit b) (all_ascii_digits l) d.1 in
    let s : split_points ((b ∷ l) ++ b'.' ∷ c ∷ m) ≡ (b ∷ l, (c ∷ m) ∷ []) =
      split-point (b ∷ l) (c ∷ m) d.1 d.3 in
    let p : has_byte b'.' ((b ∷ l) ++ b'.' ∷ c ∷ m) ≡ true =
      has_point ((b ∷ l) ++ b'.' ∷ c ∷ m) ∙ ap (λ q. not (is_empty q.1)) s in
    rw (digit-not b b'+' digits.0 (omega arith), s, p, d.1, d.2, d.3)
      (unsigned_runs negative (b ∷ l) (c ∷ m) d)

strip-sign :
    (negative : Bool) (integer rest : Text)
    → is_empty integer ≡ false
    → all_ascii_digits integer ≡ true
    → strip_minus (sign_text negative (integer ++ rest)) ≡ (negative, integer ++ rest)
unfolding strip_minus
strip-sign true integer rest full digits = refl
strip-sign false [] rest full digits = cc
strip-sign false (b ∷ l) rest full digits =
    let a = and-true (is_ascii_digit b) (all_ascii_digits l) digits in
    rw (digit-not b b'-' a.0 (omega arith))

sign-stripped : (t : Text) → t ≡ sign_text (strip_minus t).0 (strip_minus t).1
unfolding strip_minus
sign-stripped [] = refl
sign-stripped (b ∷ l) = elim (Bool-cases (eqb b b'-')) [
  | inl e ↦ let f : b ≡ b'-' = (eqb_iff b b'-').0 e in rw e (ap (λ q. q ∷ l) f)
  | inr e ↦ rw e
]

abbrev Reads : Text → DecimalParts → Type 0
Reads t parts =
    (negative : Bool) × (integer : Text) × (fraction : Text) × IsDecimal negative integer fraction
    × (t ≡ decimal_text negative integer fraction)
    × (parts ≡ counted_parts integer fraction)

-- The integer part and what stands behind the point, as they were split.
rest-Reads :
    (negative : Bool) (unsigned integer : Text) (rest : List Text) (parts : DecimalParts)
    → split_points unsigned ≡ (integer, rest)
    → length rest ≤ 1
    → is_empty integer ≡ false
    → all_ascii_digits integer ≡ true
    → (ltb 1 (length integer) && starts_with b'0' integer) ≡ false
    → (has_byte b'.' unsigned
        && (is_empty (first_part rest) || not (all_ascii_digits (first_part rest))))
      ≡ false
    → parse_unsigned negative integer (first_part rest) ≡ ok parts
    → Reads (sign_text negative unsigned) parts
unfolding join_points
rest-Reads negative unsigned integer [] parts s one full digits leading fraction h =
    let u = unsigned_parts negative integer [] parts full h in
    let e : integer ≡ unsigned =
      subst (λ q. join_points q.0 q.1 ≡ unsigned) s (join-split unsigned) in
    (
      negative,
      integer,
      [],
      (full, digits, leading, refl, u.0, u.1, u.2),
      ap (sign_text negative) (sym e ∙ sym (append-nil integer)),
      u.3,
    )
rest-Reads negative unsigned integer ([] ∷ []) parts s one full digits leading fraction h =
    let p : has_byte b'.' unsigned ≡ true = has_point unsigned ∙ ap (λ q. not (is_empty q.1)) s in
    let f : true ≡ false = subst (λ q. (q && true) ≡ false) p fraction in cc
rest-Reads negative unsigned integer ((c ∷ m) ∷ []) parts s one full digits leading fraction h =
    let u = unsigned_parts negative integer (c ∷ m) parts full h in
    let p : has_byte b'.' unsigned ≡ true = has_point unsigned ∙ ap (λ q. not (is_empty q.1)) s in
    let f : not (all_ascii_digits (c ∷ m)) ≡ false =
      subst (λ q. (q && not (all_ascii_digits (c ∷ m))) ≡ false) p fraction in
    let e : integer ++ b'.' ∷ c ∷ m ≡ unsigned =
      subst (λ q. join_points q.0 q.1 ≡ unsigned) s (join-split unsigned) in
    (
      negative,
      integer,
      c ∷ m,
      (full, digits, leading, not-false (all_ascii_digits (c ∷ m)) f, u.0, u.1, u.2),
      ap (sign_text negative) (sym e),
      u.3,
    )
rest-Reads negative unsigned integer (f ∷ g ∷ rest) parts s one full digits leading fraction h =
    absurd (omega (arith, one))

signed-Reads :
    (negative : Bool) (unsigned : Text) (parts : DecimalParts)
    → parse_signed (negative, unsigned) ≡ ok parts
    → Reads (sign_text negative unsigned) parts
unfolding parse_signed
signed-Reads negative unsigned parts h =
    let integer = (split_points unsigned).0 in
    let rest = (split_points unsigned).1 in
    let fraction = first_part rest in
    let a = fail_if-ok (is_empty unsigned || starts_with b'+' unsigned) _ _ parts h in
    let b = fail_if-ok (ltb 1 (length rest)) _ _ parts a.1 in
    let c = fail_if-ok (is_empty integer || not (all_ascii_digits integer)) _ _ parts b.1 in
    let d = fail_if-ok (ltb 1 (length integer) && starts_with b'0' integer) _ _ parts c.1 in
    let e =
      fail_if-ok (has_byte b'.' unsigned && (is_empty fraction || not (all_ascii_digits fraction)))
        _ _ parts d.1 in
    let i = or-false (is_empty integer) (not (all_ascii_digits integer)) c.0 in
    rest-Reads negative unsigned integer rest parts refl (ltb-false 1 (length rest) b.0) i.0
      (not-false (all_ascii_digits integer) i.1) d.0 e.0 e.1

-- A text is accepted as a decimal just when it is a canonical one: an optional minus sign, an integer
-- part of digits without a zero in front of others, and a point with digits or none; no negative zero.
-- Its scale is the number of digits behind the point, its precision the number of digits without the
-- leading zeros, one for a zero. Both are machine numbers.
pub parse_decimal_iff :
    (t : Text) (parts : DecimalParts)
    → (parse_decimal t ≡ ok parts) ↔ (
        (negative : Bool) × (integer : Text) × (fraction : Text) × IsDecimal negative integer
          fraction
        × (t ≡ decimal_text negative integer fraction)
        × (parts ≡ counted_parts integer fraction))
unfolding parse_decimal
parse_decimal_iff t parts = (
  λ h.
      subst (λ q. Reads q parts) (sym (sign-stripped t))
        (signed-Reads (strip_minus t).0 (strip_minus t).1 parts h),
  λ r.
      ap parse_decimal r.4
      ∙ ap parse_signed (strip-sign r.0 r.1 (point_text r.2) r.3.0 r.3.1)
      ∙ signed_runs r.0 r.1 r.2 r.3
      ∙ ap ok (sym r.5),
)
