-- ===== src/Ir/Reductor/Disjoint.antt =====
-- Claims that are put in order do not overlap (binary_reductor.rs, `canonicalize_claims`).
use s.Prelude.{
  Bool, Bool-cases, [], ap, false, inl, inr, refl, subst, sym, true, ◌&&◌, ◌∙◌, ◌∷◌, ◌≡◌, ◌⊎◌,
  nat_eq, string_eq,
}
use s.Ir.Reductor.Order.{
  Comparison, compare_path_segments, compare_paths, equal, greater, is_not_greater, less, then_with,
}
use s.Ir.{
  SchemaPath, SchemaPathSegment, array_element, field_segment, logical_segment, map_value, text_iff,
}
use s.Ir.Reductor.{path_is_prefix, same_segment}
use s.Ir.Reductor.Compare.{segment_equal, segment_less_trans}

-- The paths part at a segment that is less in the first one.
unfoldable pub Past : SchemaPath → SchemaPath → Type 0
unfolding compare_path_segments
Past [] r = ⊥
Past (s ∷ p) [] = ⊥
Past (s ∷ p) (t ∷ r) = (compare_path_segments s t ≡ less) ⊎ ((s ≡ t) × Past p r)

pub compared : (c : Comparison) → (c ≡ less) ⊎ (c ≡ equal) ⊎ (c ≡ greater)
compared less = inl refl
compared equal = inr (inl refl)
compared greater = inr (inr refl)

pub segment_cases :
    (s t : SchemaPathSegment)
    → (compare_path_segments s t ≡ less)
      ⊎ (compare_path_segments s t ≡ equal)
      ⊎ (compare_path_segments s t ≡ greater)
segment_cases s t = compared (compare_path_segments s t)

abbrev pub NotGreater : Comparison → Type 0
NotGreater c = is_not_greater c ≡ true

same_segment_refl : (s : SchemaPathSegment) → same_segment s s ≡ true
unfolding same_segment
same_segment_refl (field_segment a) = (text_iff a a).1 refl
same_segment_refl array_element = refl
same_segment_refl map_value = refl
same_segment_refl logical_segment = refl

same_segment-eq : (s t : SchemaPathSegment) → same_segment s t ≡ true → s ≡ t
unfolding same_segment
same_segment-eq (field_segment a) (field_segment b) h = ap field_segment ((text_iff a b).0 h)
same_segment-eq array_element array_element h = refl
same_segment-eq map_value map_value h = refl
same_segment-eq logical_segment logical_segment h = refl
same_segment-eq _ _ h = cc

pub compare_segment_refl : (s : SchemaPathSegment) → compare_path_segments s s ≡ equal
unfolding compare_path_segments
compare_segment_refl (field_segment a) = rw ((text_iff a a).1 refl)
compare_segment_refl array_element = refl
compare_segment_refl map_value = refl
compare_segment_refl logical_segment = refl

-- The heads of two paths in order, and the rest.
heads :
    (s t : SchemaPathSegment) (p r : SchemaPath)
    → NotGreater (compare_paths (s ∷ p) (t ∷ r))
    → (compare_path_segments s t ≡ less) ⊎ ((s ≡ t) × NotGreater (compare_paths p r))
unfolding compare_paths
heads s t p r h = elim (segment_cases s t) [
  | inl l ↦ inl l
  | inr e ↦ elim e [
    | inl e ↦
        inr (segment_equal s t e, subst (λ c. NotGreater (then_with c (compare_paths p r))) e h)
    | inr g ↦ let f = subst (λ c. NotGreater (then_with c (compare_paths p r))) g h in cc
  ]
]

-- Two paths in order, of which the first is no prefix of the second, part.
pub Past-start :
    (p r : SchemaPath) → NotGreater (compare_paths p r) → path_is_prefix p r ≡ false → Past p r
unfolding Past compare_paths path_is_prefix
Past-start [] r h n = cc
Past-start (s ∷ p) [] h n = cc
Past-start (s ∷ p) (t ∷ r) h n = elim (heads s t p r h) [
  | inl l ↦ inl l
  | inr e ↦
      let same : same_segment s t ≡ true =
        subst (λ q. same_segment s q ≡ true) e.0 (same_segment_refl s) in
      let m : path_is_prefix p r ≡ false = subst (λ q. (q && path_is_prefix p r) ≡ false) same n in
      inr (e.0, Past-start p r e.1 m)
]

pub Past-step : (p r q : SchemaPath) → Past p r → NotGreater (compare_paths r q) → Past p q
unfolding Past compare_paths
Past-step [] r q a h = absurd a
Past-step (s ∷ p) [] q a h = absurd a
Past-step (s ∷ p) (t ∷ r) [] a h = cc
Past-step (s ∷ p) (t ∷ r) (u ∷ q) a h = elim (heads t u r q h) [
  | inl l ↦ elim a [
    | inl k ↦ inl (segment_less_trans s t u k l)
    | inr k ↦ inl (subst (λ x. compare_path_segments x u ≡ less) (sym k.0) l)
  ]
  | inr e ↦ elim a [
    | inl k ↦ inl (subst (λ x. compare_path_segments s x ≡ less) e.0 k)
    | inr k ↦ inr (k.0 ∙ e.0, Past-step p r q k.1 e.1)
  ]
]

-- Paths that part are no prefixes of each other.
pub Past-apart :
    (p r : SchemaPath) → Past p r → (path_is_prefix p r ≡ false) × (path_is_prefix r p ≡ false)
unfolding Past path_is_prefix
Past-apart [] r a = absurd a
Past-apart (s ∷ p) [] a = absurd a
Past-apart (s ∷ p) (t ∷ r) a = elim a [
  | inl l ↦ let n = differ s t l in let m = differ_back s t l in (rw n, rw m)
  | inr e ↦
      let f = Past-apart p r e.1 in
      let both = λ (b : Bool). and_false b in
      (rw f.0 (both (same_segment s t)), rw f.1 (both (same_segment t s)))
]
  where
    and_false : (b : Bool) → (b && false) ≡ false
    and_false true = refl
    and_false false = refl

    differ : (s t : SchemaPathSegment) → compare_path_segments s t ≡ less → same_segment s t ≡ false
    differ s t l = elim (Bool-cases (same_segment s t)) [
      | inl e ↦
          let f = subst (λ x. compare_path_segments s x ≡ less) (sym (same_segment-eq s t e)) l in
          let g = compare_segment_refl s in cc
      | inr e ↦ e
    ]

    differ_back :
        (s t : SchemaPathSegment) → compare_path_segments s t ≡ less → same_segment t s ≡ false
    differ_back s t l = elim (Bool-cases (same_segment t s)) [
      | inl e ↦
          let f = subst (λ x. compare_path_segments s x ≡ less) (same_segment-eq t s e) l in
          let g = compare_segment_refl s in cc
      | inr e ↦ e
    ]
