-- ===== src/Ir/Dates/Digits.antt =====
-- Numbers of two and of four digits (binary_ir.rs, `parse_digits`).
use s.Prelude.{
  Bool-cases, List, [], ap, arith, if◌then◌else◌, inl, inr, leb, leb→le, le→leb, none, some, subst,
  true, ℕ, ◌%◌, ◌*◌, ◌+◌, ◌-◌, ◌/◌, ◌∙◌, ◌∷◌, ◌≡◌, ◌≤◌, nat_eq, string_eq,
}
use s.Ir.Checked.{and-true, some-injective}
use s.Ir.Dates.{parse_digits, parse_digits_from, is_ascii_digit}

abbrev pub digit : ℕ → ℕ
digit n = b'0' + n

abbrev pub two_digits : ℕ → List ℕ
two_digits n = digit (n / 10) ∷ digit (n % 10) ∷ []

abbrev pub four_digits : ℕ → List ℕ
four_digits n = digit (n / 1000) ∷ digit (n / 100 % 10) ∷ digit (n / 10 % 10) ∷ digit (n % 10) ∷ []

is_ascii_digit-digit : (n : ℕ) → n ≤ 9 → is_ascii_digit (digit n) ≡ true
is_ascii_digit-digit n h =
    rw (le→leb b'0' (b'0' + n) (omega arith), le→leb (b'0' + n) b'9' (omega (arith, h)))

digit_range : (b : ℕ) → is_ascii_digit b ≡ true → (48 ≤ b) × (b ≤ 57)
digit_range b h = let a = and-true (leb b'0' b) (leb b b'9') h in (leb→le 48 b a.0, leb→le b 57 a.1)

read_on :
    (v b : ℕ) (l : List ℕ) (n : ℕ)
    → parse_digits_from v (b ∷ l) ≡ some n
    → (is_ascii_digit b ≡ true) × (parse_digits_from (v * 10 + (b - b'0')) l ≡ some n)
unfolding parse_digits_from
read_on v b l n h = elim (Bool-cases (is_ascii_digit b)) [
  | inl e ↦
      (e, subst (λ q. (if q then parse_digits_from (v * 10 + (b - b'0')) l else none) ≡ some n) e h)
  | inr e ↦
      let f : none ≡ some n =
        subst (λ q. (if q then parse_digits_from (v * 10 + (b - b'0')) l else none) ≡ some n) e h in
      cc
]

parse_on :
    (v d : ℕ) (l : List ℕ)
    → d ≤ 9
    → parse_digits_from v (digit d ∷ l) ≡ parse_digits_from (v * 10 + d) l
unfolding parse_digits_from
parse_on v d l h = rw (is_ascii_digit-digit d h) (ap (λ x. parse_digits_from x l) (omega arith))

pub parse_two : (n : ℕ) → n ≤ 99 → parse_digits (two_digits n) ≡ some n
unfolding parse_digits parse_digits_from
parse_two n h =
    parse_on 0 (n / 10) (digit (n % 10) ∷ []) (omega (arith, h))
    ∙ parse_on (0 * 10 + n / 10) (n % 10) [] (omega arith)
    ∙ ap some (omega arith)

pub parse_four : (n : ℕ) → n ≤ 9999 → parse_digits (four_digits n) ≡ some n
unfolding parse_digits parse_digits_from
parse_four n h =
    let d = n % 10 in
    let c = n / 10 % 10 in
    let b = n / 100 % 10 in
    let a = n / 1000 in
    parse_on 0 a (digit b ∷ digit c ∷ digit d ∷ []) (omega (arith, h))
    ∙ parse_on (0 * 10 + a) b (digit c ∷ digit d ∷ []) (omega arith)
    ∙ parse_on ((0 * 10 + a) * 10 + b) c (digit d ∷ []) (omega arith)
    ∙ parse_on (((0 * 10 + a) * 10 + b) * 10 + c) d [] (omega arith)
    ∙ ap some (omega arith)

pub read_two :
    (p q n : ℕ) → parse_digits (p ∷ q ∷ []) ≡ some n → (n ≤ 99) × ((p ∷ q ∷ []) ≡ two_digits n)
unfolding parse_digits parse_digits_from
read_two p q n h =
    let a = read_on 0 p (q ∷ []) n h in
    let b = read_on (0 * 10 + (p - 48)) q [] n a.1 in
    let e : (0 * 10 + (p - 48)) * 10 + (q - 48) ≡ n = some-injective b.1 in
    let i = digit_range p a.0 in
    let j = digit_range q b.0 in
    let x : p ≡ digit (n / 10) = omega (arith, e, i, j) in
    let y : q ≡ digit (n % 10) = omega (arith, e, i, j) in (omega (arith, e, i, j), cc)

pub read_four :
    (p q r s n : ℕ)
    → parse_digits (p ∷ q ∷ r ∷ s ∷ []) ≡ some n
    → (n ≤ 9999) × ((p ∷ q ∷ r ∷ s ∷ []) ≡ four_digits n)
unfolding parse_digits parse_digits_from
read_four p q r s n h =
    let a = read_on 0 p (q ∷ r ∷ s ∷ []) n h in
    let v = 0 * 10 + (p - 48) in
    let b = read_on v q (r ∷ s ∷ []) n a.1 in
    let c = read_on (v * 10 + (q - 48)) r (s ∷ []) n b.1 in
    let d = read_on ((v * 10 + (q - 48)) * 10 + (r - 48)) s [] n c.1 in
    let e : (((0 * 10 + (p - 48)) * 10 + (q - 48)) * 10 + (r - 48)) * 10 + (s - 48) ≡ n =
      some-injective d.1 in
    let i = digit_range p a.0 in
    let j = digit_range q b.0 in
    let k = digit_range r c.0 in
    let l = digit_range s d.0 in
    let w : p ≡ digit (n / 1000) = omega (arith, e, i, j, k, l) in
    let x : q ≡ digit (n / 100 % 10) = omega (arith, e, i, j, k, l) in
    let y : r ≡ digit (n / 10 % 10) = omega (arith, e, i, j, k, l) in
    let z : s ≡ digit (n % 10) = omega (arith, e, i, j, k, l) in (omega (arith, e, i, j, k, l), cc)
