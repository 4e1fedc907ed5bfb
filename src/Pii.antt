-- ===== src/Pii.antt =====
-- Detection and redaction of personal data in text (filters/pii-shared). A text is the list of its
-- bytes. Spans begin and end at ASCII bytes, so the slices of the source are at character
-- boundaries. An index is below `usize::MAX`, and a sum of at most 19 digits fits in `u32`.
pub mod Scan
pub mod Progress
pub mod Spans
pub mod Replace
mod Examples
use mathlib.Core.List.{reverse}
use s.Prelude.{
  ℕ, zero, suc, ◌+◌, ◌-◌, ◌*◌, ◌%◌, ◌≤◌, String, Bool, true, false, not, ◌&&◌, ◌||◌, Option, none,
  some, List, [], ◌∷◌, ◌++◌, leb, ltb, eqb, if◌then◌else◌, length, take, drop, filter_by, sort_by,
  get_or, nat_eq, string_eq,
}

pub data PiiKind : Type 0 where
  email card ssn : PiiKind

pub record Span : Type 0 where
  pub start : ℕ
  pub end : ℕ
  pub marker : PiiKind

-- `marker()`: the text of the marker, "[REDACTED_EMAIL]", "[REDACTED_CARD]", "[REDACTED_SSN]".
abbrev pub redacted : List ℕ → List ℕ
redacted name =
    b'[' ∷ b'R' ∷ b'E' ∷ b'D' ∷ b'A' ∷ b'C' ∷ b'T' ∷ b'E' ∷ b'D' ∷ b'_' ∷ (name ++ b']' ∷ [])

abbrev pub marker_text : PiiKind → List ℕ
marker_text email = redacted (b'E' ∷ b'M' ∷ b'A' ∷ b'I' ∷ b'L' ∷ [])
marker_text card = redacted (b'C' ∷ b'A' ∷ b'R' ∷ b'D' ∷ [])
marker_text ssn = redacted (b'S' ∷ b'S' ∷ b'N' ∷ [])

-- `bytes[i]`; the code only reads below the length.
abbrev pub byte_at : List ℕ → ℕ → ℕ
byte_at bytes i = get_or bytes i 0

-- `&input[s..e]`
abbrev pub slice : List ℕ → ℕ → ℕ → List ℕ
slice bytes s e = take (e - s) (drop s bytes)

abbrev pub is_digit : ℕ → Bool
is_digit b = leb b'0' b && leb b b'9'

abbrev pub is_token_byte : ℕ → Bool
is_token_byte b = is_digit b || eqb b b' ' || eqb b b'-'

abbrev pub is_boundary : ℕ → Bool
is_boundary b =
    eqb b b' ' || eqb b 10 || eqb b 13 || eqb b 9 || eqb b b',' || eqb b b'"' || eqb b b'&'

-- `while s > 0 && p(bytes[s - 1]) { s -= 1 }`
unfoldable pub grow_left : (ℕ → Bool) → List ℕ → ℕ → ℕ
grow_left p bytes zero = zero
grow_left p bytes (suc s) = if p (byte_at bytes s) then grow_left p bytes s else suc s

-- `while e < len && p(bytes[e]) { e += 1 }`, over the bytes from `e` on.
unfoldable pub grow_right : (ℕ → Bool) → List ℕ → ℕ → ℕ
grow_right p [] e = e
grow_right p (b ∷ rest) e = if p b then grow_right p rest (suc e) else e

unfoldable pub all_digits : List ℕ → Bool
all_digits [] = true
all_digits (b ∷ l) = is_digit b && all_digits l

abbrev pub digits_of : List ℕ → List ℕ
digits_of = filter_by is_digit

-- The token of digits, spaces and dashes around a digit.
unfoldable pub find_digit_token : List ℕ → ℕ → Option (ℕ × ℕ)
unfolding grow_left grow_right
find_digit_token bytes start =
    let s = grow_left is_token_byte bytes start in
    let e = grow_right is_token_byte (drop start bytes) start in
    if leb e s
    then none
    else if eqb (length (digits_of (slice bytes s e))) 0
    then none
    else some (s, e)

unfoldable pub find_email_boundary : List ℕ → ℕ → Option (ℕ × ℕ)
unfolding grow_left grow_right
find_email_boundary bytes at =
    let s = grow_left (λ b. not (is_boundary b)) bytes at in
    let e = grow_right (λ b. not (is_boundary b)) (drop (suc at) bytes) (suc at) in
    if ltb s at && ltb (suc at) e then some (s, e) else none

unfoldable pub contains : ℕ → List ℕ → Bool
contains c [] = false
contains c (b ∷ l) = eqb b c || contains c l

unfoldable pub is_valid_email : List ℕ → Bool
unfolding contains
is_valid_email t =
    not (eqb (length t) 0) && contains b'@' t && contains b'.' t && leb (length t) 254

-- `to_digit(10).unwrap_or(0)`
abbrev digit_value : ℕ → ℕ
digit_value c = if is_digit c then c - 48 else 0

abbrev luhn_term : Bool → ℕ → ℕ
luhn_term odd d = if odd then (if ltb 9 (d * 2) then d * 2 - 9 else d * 2) else d

-- The sum over the enumerated digits; `odd` is the parity of the index.
unfoldable pub luhn_sum : Bool → List ℕ → ℕ
luhn_sum odd [] = 0
luhn_sum odd (c ∷ cs) = luhn_term odd (digit_value c) + luhn_sum (not odd) cs

unfoldable pub luhn_check : List ℕ → Bool
unfolding luhn_sum
luhn_check t = eqb (luhn_sum false (reverse t) % 10) 0

unfoldable pub is_valid_card : List ℕ → Bool
unfolding luhn_check all_digits
is_valid_card digits =
    if ltb (length digits) 13 || ltb 19 (length digits) || not (all_digits digits)
    then false
    else luhn_check digits

unfoldable pub is_valid_ssn_format : List ℕ → Bool
unfolding all_digits
is_valid_ssn_format t =
    (eqb (length t) 9 && all_digits t)
    || (eqb (length t) 11
        && eqb (byte_at t 3) b'-'
        && eqb (byte_at t 6) b'-'
        && all_digits (slice t 0 3)
        && all_digits (slice t 4 6)
        && all_digits (drop 7 t))

-- `parse::<u32>()` of digits.
unfoldable pub decimal : ℕ → List ℕ → ℕ
decimal n [] = n
decimal n (c ∷ cs) = decimal (n * 10 + digit_value c) cs

unfoldable pub is_valid_ssn : List ℕ → Bool
unfolding all_digits decimal
is_valid_ssn digits =
    if not (eqb (length digits) 9) || not (all_digits digits)
    then false
    else let area = decimal 0 (slice digits 0 3) in
      let group = decimal 0 (slice digits 3 5) in
      let serial = decimal 0 (drop 5 digits) in
      not (eqb area 0 || eqb area 666 || ltb 899 area || eqb group 0 || eqb serial 0)

-- The two loops that trim what is no digit from the ends of the token `[s, e)`.
unfoldable pub trim_left : List ℕ → ℕ → ℕ → ℕ
trim_left bytes zero s = s
trim_left bytes (suc n) s = if is_digit (byte_at bytes s) then s else trim_left bytes n (suc s)

unfoldable pub trim_right : List ℕ → ℕ → ℕ → ℕ
trim_right bytes s zero = zero
trim_right bytes s (suc e) =
    if ltb s (suc e) && not (is_digit (byte_at bytes e)) then trim_right bytes s e else suc e
