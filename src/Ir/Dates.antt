-- ===== src/Ir/Dates.antt =====
-- Dates, times and timestamps (binary_ir.rs, `validate_date` and the functions below it).
pub mod Digits
pub mod Calendar
pub mod Clock
pub mod Timestamps
use s.Prelude.{
  ◌>>=◌, ◌>>◌, Bool, List, Option, Result, String, [], drop, eqb, err, false, get_or, if◌then◌else◌,
  is_empty, leb, length, ltb, none, not, ok, ok_or, some, take, test, true, ℕ, ◌%◌, ◌&&◌, ◌*◌, ◌+◌,
  ◌-◌, ◌||◌, ◌∷◌, nat_eq, string_eq, zero,
}
use s.Ir.{Text}

abbrev pub is_ascii_digit : ℕ → Bool
is_ascii_digit b = leb b'0' b && leb b b'9'

-- `try_fold`, from a value on; the numbers of the source have at most four digits, so nothing wraps.
unfoldable pub parse_digits_from : ℕ → List ℕ → Option ℕ
parse_digits_from value [] = some value
parse_digits_from value (b ∷ l) =
    let rest = parse_digits_from (value * 10 + (b - b'0')) l in
    if is_ascii_digit b then rest else none

unfoldable pub parse_digits : List ℕ → Option ℕ
unfolding parse_digits_from
parse_digits bytes = parse_digits_from 0 bytes

-- `bytes[from..to]`
abbrev pub byte_range : ℕ → ℕ → List ℕ → List ℕ
byte_range from to bytes = take (to - from) (drop from bytes)

abbrev pub has_byte : ℕ → List ℕ → Bool
has_byte t [] = false
has_byte t (b ∷ l) = eqb b t || has_byte t l

abbrev pub is_multiple_of : ℕ → ℕ → Bool
is_multiple_of n d = eqb (n % d) 0

unfoldable pub is_leap_year : ℕ → Bool
is_leap_year year =
    is_multiple_of year 4 && (not (is_multiple_of year 100) || is_multiple_of year 400)

-- The `match` on the month; nothing is its last arm.
unfoldable pub days_of : ℕ → ℕ → Option ℕ
unfolding is_leap_year
days_of year month =
    if has_byte month (1 ∷ 3 ∷ 5 ∷ 7 ∷ 8 ∷ 10 ∷ 12 ∷ [])
    then some 31
    else if has_byte month (4 ∷ 6 ∷ 9 ∷ 11 ∷ [])
    then some 30
    else if eqb month 2
    then some (if is_leap_year year then 29 else 28)
    else none

abbrev pub fail_if : Bool → String → Result String Unit
fail_if test message = if test then err message else ok tt

unfoldable pub validate_date : Text → Result String Unit
unfolding parse_digits days_of
validate_date value = do
  fail_if
      (not (eqb (length value) 10)
        || not (eqb (get_or value 4 0) b'-')
        || not (eqb (get_or value 7 0) b'-'))
      "expected YYYY-MM-DD"
  year ← ok_or (parse_digits (byte_range 0 4 value)) "year must contain digits"
  month ← ok_or (parse_digits (byte_range 5 7 value)) "month must contain digits"
  day ← ok_or (parse_digits (byte_range 8 10 value)) "day must contain digits"
  fail_if (eqb year 0) "year zero is not supported"
  days ← ok_or (days_of year month) "month is out of range"
  fail_if (eqb day 0 || ltb days day) "day is out of range"

abbrev pub all_ascii_digits : List ℕ → Bool
all_ascii_digits [] = true
all_ascii_digits (b ∷ l) = is_ascii_digit b && all_ascii_digits l

-- `last() == Some(&b'0')`
abbrev pub ends_in_zero : List ℕ → Bool
ends_in_zero [] = false
ends_in_zero (b ∷ []) = eqb b b'0'
ends_in_zero (b ∷ c ∷ l) = ends_in_zero (c ∷ l)

-- What may stand behind the seconds.
unfoldable pub validate_fraction : List ℕ → Result String Unit
validate_fraction [] = ok tt
validate_fraction (point ∷ fraction) = do
  fail_if (not (eqb point b'.')) "fractional seconds must start with a decimal point"
  fail_if (is_empty fraction || ltb 9 (length fraction) || not (all_ascii_digits fraction))
      "fractional seconds must contain one to nine digits"
  fail_if (ends_in_zero fraction) "fractional seconds must not have trailing zeros"

unfoldable pub validate_time : Text → Result String Unit
unfolding parse_digits validate_fraction
validate_time value = do
  fail_if
      (ltb (length value) 8
        || not (eqb (get_or value 2 0) b':')
        || not (eqb (get_or value 5 0) b':'))
      "expected HH:MM:SS with an optional fractional part"
  hour ← ok_or (parse_digits (byte_range 0 2 value)) "hour must contain digits"
  minute ← ok_or (parse_digits (byte_range 3 5 value)) "minute must contain digits"
  second ← ok_or (parse_digits (byte_range 6 8 value)) "second must contain digits"
  fail_if (ltb 23 hour || ltb 59 minute || ltb 59 second) "time component is out of range"
  validate_fraction (drop 8 value)

-- `strip_suffix('Z')`
unfoldable pub strip_last : ℕ → List ℕ → Option (List ℕ)
strip_last z [] = none
strip_last z (b ∷ []) = if eqb b z then some [] else none
strip_last z (b ∷ c ∷ l) = elim (strip_last z (c ∷ l)) [ none ↦ none | some r ↦ some (b ∷ r) ]

-- `split_once('T')`
unfoldable pub split_once : ℕ → List ℕ → Option (List ℕ × List ℕ)
split_once t [] = none
split_once t (b ∷ l) =
    let rest = split_once t l in
    if eqb b t then some ([], l) else elim rest [ none ↦ none | some r ↦ some (b ∷ r.0, r.1) ]

unfoldable pub validate_timestamp : Text → Result String Unit
unfolding strip_last split_once validate_date validate_time
validate_timestamp value = do
  without_zone ← ok_or (strip_last b'Z' value) "expected a UTC timestamp ending in Z"
  parts ← ok_or (split_once b'T' without_zone) "expected date and time separated by T"
  fail_if (has_byte b'T' parts.1) "timestamp contains more than one T separator"
  validate_date parts.0
  validate_time parts.1
