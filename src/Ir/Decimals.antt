-- ===== src/Ir/Decimals.antt =====
-- Decimal numbers (binary_ir.rs, `parse_decimal`).
pub mod Pieces
pub mod Canonical
use s.Prelude.{
  ◌>>◌, Bool, List, Option, Result, String, [], eqb, false, if◌then◌else◌, is_empty, length, ltb,
  none, not, ok, some, suc, true, ℕ, ◌&&◌, ◌++◌, ◌+◌, ◌-◌, ◌^◌, ◌||◌, ◌∷◌, nat_eq, string_eq, zero,
}
use s.Ir.{Text}
use s.Ir.Dates.{fail_if, has_byte, all_ascii_digits}

pub record DecimalParts : Type 0 where
  pub precision : ℕ
  pub scale : ℕ

-- `strip_prefix('-')`
unfoldable pub strip_minus : Text → Bool × Text
strip_minus [] = (false, [])
strip_minus (b ∷ l) = if eqb b b'-' then (true, l) else (false, b ∷ l)

-- The parts between the decimal points: the first one, and those behind it.
unfoldable pub split_points : Text → Text × List Text
split_points [] = ([], [])
split_points (b ∷ l) =
    let rest = split_points l in if eqb b b'.' then ([], rest.0 ∷ rest.1) else (b ∷ rest.0, rest.1)

abbrev pub starts_with : ℕ → Text → Bool
starts_with c [] = false
starts_with c (b ∷ l) = eqb b c

abbrev pub first_part : List Text → Text
first_part [] = []
first_part (t ∷ ts) = t

-- `position(|byte| byte != b'0')`
unfoldable pub first_nonzero : List ℕ → Option ℕ
first_nonzero [] = none
first_nonzero (b ∷ l) = elim (first_nonzero l) [
  | none ↦ if eqb b b'0' then none else some 0
  | some n ↦ if eqb b b'0' then some (suc n) else some 0
]

abbrev pub all_zero : List ℕ → Bool
all_zero [] = true
all_zero (b ∷ l) = eqb b b'0' && all_zero l

-- `unwrap_or_else`
abbrev pub or_else : Option ℕ → ℕ → ℕ
or_else none d = d
or_else (some n) d = n

abbrev pub u32_max : ℕ
u32_max = 2 ^ 32 - 1

unfoldable pub parse_unsigned : Bool → Text → Text → Result String DecimalParts
unfolding first_nonzero
parse_unsigned negative integer fraction = do
  fail_if (ltb u32_max (length fraction)) "scale is too large"
  let digits = integer ++ fraction
  let first_significant = or_else (first_nonzero digits) (length integer + length fraction - 1)
  let precision = length integer + length fraction - first_significant
  fail_if (ltb u32_max precision) "precision is too large"
  fail_if (negative && all_zero digits) "negative zero is not canonical"
  ok (record { precision = precision; scale = length fraction })

-- What comes behind the sign.
unfoldable pub parse_signed : Bool × Text → Result String DecimalParts
unfolding split_points parse_unsigned
parse_signed sign = do
  let unsigned = sign.1
  fail_if (is_empty unsigned || starts_with b'+' unsigned)
      "expected digits with an optional leading minus sign"
  let parts = split_points unsigned
  let integer = parts.0
  fail_if (ltb 1 (length parts.1)) "more than one decimal point"
  fail_if (is_empty integer || not (all_ascii_digits integer))
      "integer part must contain ASCII digits"
  fail_if (ltb 1 (length integer) && starts_with b'0' integer) "integer part has a leading zero"
  let fraction = first_part parts.1
  fail_if (has_byte b'.' unsigned && (is_empty fraction || not (all_ascii_digits fraction)))
      "fractional part must contain ASCII digits"
  parse_unsigned sign.0 integer fraction

unfoldable pub parse_decimal : Text → Result String DecimalParts
unfolding strip_minus parse_signed
parse_decimal value = parse_signed (strip_minus value)
