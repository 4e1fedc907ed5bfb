-- ===== src/Ir/Decimals/Pieces.antt =====
-- The pieces of a decimal number: its point and its digits (binary_ir.rs, `parse_decimal`).
use s.Prelude.{
  Bool-cases, List, [], ap, arith, eqb, eqb_iff, false, if◌then◌else◌, inl, inr, is_empty, leb,
  leb→le, length, max, none, not, refl, some, suc, sym, true, ℕ, ◌++◌, ◌+◌, ◌-◌, ◌<◌, ◌∙◌, ◌∷◌, ◌≡◌,
  ◌≤◌, ◌⊎◌, nat_eq, string_eq,
}
use s.Ir.{Text}
use s.Ir.Checked.{and-true}
use s.Ir.Decimals.{first_nonzero, split_points, or_else}
use s.Ir.Dates.{has_byte, is_ascii_digit, all_ascii_digits}

unfoldable pub join_points : Text → List Text → Text
join_points x [] = x
join_points x (y ∷ ys) = x ++ b'.' ∷ join_points y ys

join_points-cons :
    (b : ℕ) (x : Text) (xs : List Text) → join_points (b ∷ x) xs ≡ b ∷ join_points x xs
unfolding join_points
join_points-cons b x [] = refl
join_points-cons b x (y ∷ ys) = refl

pub join-split : (t : Text) → join_points (split_points t).0 (split_points t).1 ≡ t
unfolding split_points join_points
join-split [] = refl
join-split (b ∷ l) = elim (Bool-cases (eqb b b'.')) [
  | inl e ↦
      let f : b ≡ b'.' = (eqb_iff b b'.').0 e in rw (e, join-split l) (ap (λ q. q ∷ l) (sym f))
  | inr e ↦
      rw e
        (join_points-cons b (split_points l).0 (split_points l).1 ∙ ap (λ q. b ∷ q) (join-split l))
]

pub has_point : (t : Text) → has_byte b'.' t ≡ not (is_empty (split_points t).1)
unfolding split_points
has_point [] = refl
has_point (b ∷ l) = elim (Bool-cases (eqb b b'.')) [ inl e ↦ rw e | inr e ↦ rw (e, has_point l) ]

pub digit-not : (b c : ℕ) → is_ascii_digit b ≡ true → c < 48 → eqb b c ≡ false
digit-not b c h l =
    let a = and-true (leb b'0' b) (leb b b'9') h in let i = leb→le 48 b a.0 in ground arith

pub split-digits : (x : Text) → all_ascii_digits x ≡ true → split_points x ≡ (x, [])
unfolding split_points
split-digits [] h = refl
split-digits (b ∷ l) h =
    let a = and-true (is_ascii_digit b) (all_ascii_digits l) h in
    rw (digit-not b b'.' a.0 (omega arith), split-digits l a.1)

pub split-point :
    (x y : Text)
    → all_ascii_digits x ≡ true
    → all_ascii_digits y ≡ true
    → split_points (x ++ b'.' ∷ y) ≡ (x, y ∷ [])
unfolding split_points
split-point [] y h k = rw (split-digits y k)
split-point (b ∷ l) y h k =
    let a = and-true (is_ascii_digit b) (all_ascii_digits l) h in
    rw (digit-not b b'.' a.0 (omega arith), split-point l y a.1 k)

-- The digits without the leading zeros.
unfoldable pub drop_zeros : List ℕ → List ℕ
drop_zeros [] = []
drop_zeros (b ∷ l) = let rest = drop_zeros l in if eqb b b'0' then rest else b ∷ l

-- The number of digits that tell, of which a zero has one.
unfoldable pub significant : List ℕ → ℕ
unfolding drop_zeros
significant l = max 1 (length (drop_zeros l))

first_nonzero-cases :
    (l : List ℕ)
    → ((first_nonzero l ≡ none) × (drop_zeros l ≡ []))
      ⊎ ((n : ℕ) × (first_nonzero l ≡ some n)
          × (n + length (drop_zeros l) ≡ length l)
          × (n < length l))
unfolding first_nonzero drop_zeros
first_nonzero-cases [] = inl (refl, refl)
first_nonzero-cases (b ∷ l) = elim (Bool-cases (eqb b b'0')) [
  | inl e ↦ elim (first_nonzero-cases l) [
    | inl c ↦ inl (rw (c.0, e), rw (e, c.1))
    | inr c ↦ inr (suc c.0, rw (c.1, e), rw e (omega (arith, c.2)), omega (arith, c.3))
  ]
  | inr e ↦ elim (first_nonzero-cases l) [
    | inl c ↦ inr (0, rw (c.0, e), rw e (omega arith), omega arith)
    | inr c ↦ inr (0, rw (c.1, e), rw e (omega arith), omega arith)
  ]
]

pub precision-significant :
    (l : List ℕ) (n : ℕ)
    → n ≡ length l
    → 1 ≤ n
    → n - or_else (first_nonzero l) (n - 1) ≡ significant l
unfolding significant
precision-significant l n e p = elim (first_nonzero-cases l) [
  | inl c ↦ rw (c.0, c.1) (omega (arith, p))
  | inr c ↦ rw c.1 (omega (arith, c.2, c.3, e))
]
