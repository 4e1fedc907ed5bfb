-- ===== src/Ir/Value/Claims.antt =====
-- What a claim selects in a value (binary_ir.rs, `visit_claim_matches` and `visit_claim_matches_mut`).
use s.Ir.Value.WellFormed.{Ascending, SoundValue}
use s.Ir.Value.{Entries, Value, child_value, entry, find_entry, no_entries, value_at_path}
use s.Prelude.{
  Option, Option-cases, [], inl, inr, none, refl, some, true, ◌++◌, ◌∷◌, ◌≡◌, nat_eq, string_eq, ap,
  sym, ◌∙◌, Bool-cases, false, subst,
}
use s.Ir.{Text, ValuePath, ValuePathSegment, text_before, same_text, text_iff}
use s.Ir.Checked.{not-false}
use s.Ir.Value.Check.{not_above}
use s.Ir.Order.{text_before_apart, text_before_trans}

step_into :
    (v : Value) (s : ValuePathSegment) (p : ValuePath) (c : Value)
    → child_value v s ≡ some c
    → value_at_path v (s ∷ p) ≡ value_at_path c p
unfolding value_at_path
step_into v s p c h = rw (value_at_path, h)

step_out :
    (v : Value) (s : ValuePathSegment) (p : ValuePath)
    → child_value v s ≡ none
    → value_at_path v (s ∷ p) ≡ none
unfolding value_at_path
step_out v s p h = rw (value_at_path, h)

-- The steps of a lookup one after the other.
value_at_path-append :
    (v : Value) (p q : ValuePath) (w : Value)
    → value_at_path v p ≡ some w
    → value_at_path v (p ++ q) ≡ value_at_path w q
unfolding value_at_path
value_at_path-append v [] q w h = let e : v ≡ w = cc in ap (λ x. value_at_path x q) e
value_at_path-append v (s ∷ p) q w h = elim (Option-cases (child_value v s)) [
  | inl e ↦ let f = step_out v s p e in cc
  | inr c ↦
      let e = step_into v s p c.0 c.1 in
      step_into v s (p ++ q) c.0 c.1 ∙ value_at_path-append c.0 p q w (sym e ∙ h)
]

-- A key that is below the first one is not among the entries.
absent_below :
    (parse_uuid : Text → Option Text) (key previous : Text) (l : Entries)
    → text_before key previous ≡ true
    → Ascending parse_uuid (some previous) l
    → find_entry key l ≡ none
unfolding SoundValue find_entry not_above
absent_below parse_uuid key previous no_entries b a = refl
absent_below parse_uuid key previous (entry k x rest) b a =
    let c = text_before_trans key previous k b (not-false _ a.0) in
    rw (text_before_apart key k c) (absent_below parse_uuid key k rest c a.2)

pub absent_after :
    (parse_uuid : Text → Option Text) (key : Text) (l : Entries)
    → Ascending parse_uuid (some key) l
    → find_entry key l ≡ none
unfolding SoundValue find_entry not_above
absent_after parse_uuid key no_entries a = refl
absent_after parse_uuid key (entry k x rest) a =
    let c = not-false (text_before key k) a.0 in
    rw (text_before_apart key k c) (absent_below parse_uuid key k rest c a.2)

pub child_at :
    (root : Value) (path : ValuePath) (v : Value) (segment : ValuePathSegment) (w : Value)
    → value_at_path root path ≡ some v
    → child_value v segment ≡ some w
    → value_at_path root (path ++ segment ∷ []) ≡ some w
unfolding value_at_path
child_at root path v segment w h c =
    value_at_path-append root path (segment ∷ []) v h ∙ step_into v segment [] w c

-- What is found behind the first entry has another key.
pub other_key :
    (parse_uuid : Text → Option Text) (key k : Text) (l : Entries) (w : Value)
    → Ascending parse_uuid (some key) l
    → find_entry k l ≡ some w
    → same_text key k ≡ false
other_key parse_uuid key k l w a found = elim (Bool-cases (same_text key k)) [
  | inr n ↦ n
  | inl e ↦
      let f =
        subst (λ q. find_entry q l ≡ none) ((text_iff key k).0 e)
          (absent_after parse_uuid key l a) in
      cc
]
