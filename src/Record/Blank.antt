-- ===== src/Record/Blank.antt =====
-- Texts that differ by bytes of line ends that were dropped (record.rs, `consume_csv_empty`).
use s.Prelude.{
  Bool, List, [], drop, get_or, refl, some, subst, ℕ, ◌++◌, ◌∙◌, ◌∷◌, ◌≡◌, ◌⊎◌, nat_eq, string_eq,
  arith, inl, inr,
}
use s.Record.{Format, csv, field_start}
use s.Record.Line.{carriage_return, newline}
use s.Record.Csv.{csv_boundary, csv_move, line_end}

abbrev pub IsLineEnd : ℕ → Type 0
IsLineEnd b = (b ≡ newline) ⊎ (b ≡ carriage_return)

-- The second text is the first without some line ends.
pub data Blanked : List ℕ → List ℕ → Type 0 where
  over : Blanked [] []
  keep : {b : ℕ} {xs ys : List ℕ} → Blanked xs ys → Blanked (b ∷ xs) (b ∷ ys)
  skip : {b : ℕ} {xs ys : List ℕ} → IsLineEnd b → Blanked xs ys → Blanked (b ∷ xs) ys

pub Blanked-refl : (xs : List ℕ) → Blanked xs xs
Blanked-refl [] = over
Blanked-refl (x ∷ xs) = keep (Blanked-refl xs)

pub Blanked-trans : {xs ys zs : List ℕ} → Blanked xs ys → Blanked ys zs → Blanked xs zs
Blanked-trans over q = q
Blanked-trans (keep p) (keep q) = keep (Blanked-trans p q)
Blanked-trans (keep p) (skip h q) = skip h (Blanked-trans p q)
Blanked-trans (skip h p) q = skip h (Blanked-trans p q)

pub Blanked-append :
    {xs ys vs ws : List ℕ} → Blanked xs ys → Blanked vs ws → Blanked (xs ++ vs) (ys ++ ws)
Blanked-append over q = q
Blanked-append (keep p) q = keep (Blanked-append p q)
Blanked-append (skip h p) q = skip h (Blanked-append p q)

pub Blanked-eq : (xs ys : List ℕ) → xs ≡ ys → Blanked xs ys
Blanked-eq xs ys e = subst (Blanked xs) e (Blanked-refl xs)

-- What the bytes of one text become in another: all of them, or, of CSV, all but dropped line ends.
abbrev pub Accounts : Format → List ℕ → List ℕ → Type 0
Accounts csv xs ys = Blanked xs ys
Accounts _ xs ys = xs ≡ ys

pub Accounts-eq : (f : Format) (xs ys : List ℕ) → xs ≡ ys → Accounts f xs ys
Accounts-eq csv xs ys e = Blanked-eq xs ys e
Accounts-eq _ xs ys e = e

pub Accounts-trans :
    (f : Format) (xs ys zs : List ℕ) → Accounts f xs ys → Accounts f ys zs → Accounts f xs zs
Accounts-trans csv xs ys zs p q = Blanked-trans p q
Accounts-trans _ xs ys zs p q = p ∙ q

pub Accounts-append :
    (f : Format) (xs ys vs ws : List ℕ)
    → Accounts f xs ys
    → Accounts f vs ws
    → Accounts f (xs ++ vs) (ys ++ ws)
Accounts-append csv xs ys vs ws p q = Blanked-append p q
Accounts-append _ xs ys vs ws p q = rw (p, q) refl

line_end-IsLineEnd : (b : ℕ) → csv_move field_start b ≡ line_end → IsLineEnd b
unfolding csv_move
line_end-IsLineEnd b m = ground arith

boundary_alone : (a s : ℕ) (at_eof : Bool) → csv_boundary (a ∷ []) 0 at_eof ≡ some (0, s) → s ≡ 1
unfolding csv_boundary
boundary_alone a s at_eof e = ground arith

boundary_pair :
    (a b s : ℕ) (l : List ℕ) (at_eof : Bool)
    → csv_boundary (a ∷ b ∷ l) 0 at_eof ≡ some (0, s)
    → (s ≡ 1) ⊎ ((s ≡ 2) × (b ≡ newline))
unfolding csv_boundary
boundary_pair a b s l at_eof e = ground arith

-- An empty CSV line is only line ends.
pub boundary-Blanked :
    (pending : List ℕ) (s : ℕ) (at_eof : Bool)
    → csv_move field_start (get_or pending 0 0) ≡ line_end
    → csv_boundary pending 0 at_eof ≡ some (0, s)
    → Blanked pending (drop s pending)
unfolding csv_move csv_boundary
boundary-Blanked [] s at_eof m e = absurd cc
boundary-Blanked (a ∷ []) s at_eof m e =
    rw (boundary_alone a s at_eof e) (skip (line_end-IsLineEnd a m) over)
boundary-Blanked (a ∷ b ∷ l) s at_eof m e = elim (boundary_pair a b s l at_eof e) [
  | inl q ↦ rw q (skip (line_end-IsLineEnd a m) (Blanked-refl (b ∷ l)))
  | inr (q, n) ↦ rw q (skip (line_end-IsLineEnd a m) (skip (inl n) (Blanked-refl l)))
]
