-- ===== src/Ir/Order.antt =====
-- The order of texts is strict (the comparison of `str`).
use s.Prelude.{
  Bool-cases, [], arith, eqb, eqb_iff, false, inl, inr, ltb, ltb→lt, lt→ltb, refl, subst, true, ℕ,
  ◌&&◌, ◌<◌, ◌||◌, ◌∙◌, ◌∷◌, ◌≡◌, ◌⊎◌, nat_eq, string_eq,
}
use s.Ir.{Text, same_text, text_before, text_iff}
use s.Ir.Checked.{and-true, ltb-above, or-false}

before-parts :
    (a b : ℕ) (s t : Text)
    → text_before (a ∷ s) (b ∷ t) ≡ true
    → (a < b) ⊎ ((a ≡ b) × (text_before s t ≡ true))
unfolding text_before
before-parts a b s t h = elim (Bool-cases (ltb a b)) [
  | inl l ↦ inl (ltb→lt a b l)
  | inr l ↦
      let f : (false || (eqb a b && text_before s t)) ≡ true =
        subst (λ q. (q || (eqb a b && text_before s t)) ≡ true) l h in
      let g = and-true (eqb a b) (text_before s t) f in inr ((eqb_iff a b).0 g.0, g.1)
]

before-less : (a b : ℕ) (s t : Text) → a < b → text_before (a ∷ s) (b ∷ t) ≡ true
unfolding text_before
before-less a b s t l = rw (lt→ltb a b l)

before-same : (a : ℕ) (s t : Text) → text_before s t ≡ true → text_before (a ∷ s) (a ∷ t) ≡ true
unfolding text_before
before-same a s t h = rw (ltb-above a a (omega arith), (eqb_iff a a).1 refl, h)

nothing_below : (t : Text) → text_before t [] ≡ true → ⊥
unfolding text_before
nothing_below [] k = cc
nothing_below (a ∷ t) k = cc

begins : (c : ℕ) (u : Text) → text_before [] (c ∷ u) ≡ true
unfolding text_before
begins c u = refl

irreflexive : (s : Text) → text_before s s ≡ true → ⊥
irreflexive [] h = nothing_below [] h
irreflexive (a ∷ s) h = elim (before-parts a a s s h) [
  | inl l ↦ absurd (omega (arith, l))
  | inr l ↦ irreflexive s l.1
]

pub text_before_trans :
    (s t u : Text) → text_before s t ≡ true → text_before t u ≡ true → text_before s u ≡ true
text_before_trans s t [] h k = absurd (nothing_below t k)
text_before_trans s [] (c ∷ u) h k = absurd (nothing_below s h)
text_before_trans [] (b ∷ t) (c ∷ u) h k = begins c u
text_before_trans (a ∷ s) (b ∷ t) (c ∷ u) h k = elim (before-parts a b s t h) [
  | inl l ↦ elim (before-parts b c t u k) [
    | inl m ↦ before-less a c s u (omega (arith, l, m))
    | inr m ↦ before-less a c s u (omega (arith, l, m.0))
  ]
  | inr l ↦ elim (before-parts b c t u k) [
    | inl m ↦ before-less a c s u (omega (arith, l.0, m))
    | inr m ↦
        let e : a ≡ c = l.0 ∙ m.0 in
        let r = text_before_trans s t u l.1 m.1 in
        subst (λ q. text_before (a ∷ s) (q ∷ u) ≡ true) e (before-same a s u r)
  ]
]

-- Two texts in order are not the same.
pub text_before_apart : (s t : Text) → text_before s t ≡ true → same_text t s ≡ false
text_before_apart s t h = elim (Bool-cases (same_text t s)) [
  | inl e ↦ absurd (irreflexive s (subst (λ q. text_before s q ≡ true) ((text_iff t s).0 e) h))
  | inr n ↦ n
]

pub text_before_total :
    (s t : Text) → same_text s t ≡ false → text_before s t ≡ false → text_before t s ≡ true
unfolding same_text text_before
text_before_total [] [] n h = cc
text_before_total [] (b ∷ t) n h = cc
text_before_total (a ∷ s) [] n h = refl
text_before_total (a ∷ s) (b ∷ t) n h =
    let c = or-false (ltb a b) (eqb a b && text_before s t) h in
    elim (Bool-cases (eqb a b)) [
      | inl e ↦
          let f : same_text s t ≡ false = subst (λ q. (q && same_text s t) ≡ false) e n in
          let g : text_before s t ≡ false = subst (λ q. (q && text_before s t) ≡ false) e c.1 in
          let r = text_before_total s t f g in
          subst (λ q. text_before (q ∷ t) (a ∷ s) ≡ true) ((eqb_iff a b).0 e) (before-same a t s r)
      | inr e ↦ before-less b a t s (greater_of a b c.0 e)
    ]
  where
    greater_of : (a b : ℕ) → ltb a b ≡ false → eqb a b ≡ false → b < a
    greater_of a b h k = ground arith
