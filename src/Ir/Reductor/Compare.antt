-- ===== src/Ir/Reductor/Compare.antt =====
-- The comparison of claims is an order by their paths (binary_reductor.rs, `compare_paths`).
use s.Prelude.{
  Bool-cases, ap, if◌then◌else◌, inl, inr, refl, subst, sym, true, ◌≡◌, ◌⊎◌, nat_eq, string_eq,
  arith,
}
use s.Ir.{
  SchemaPathSegment, Text, array_element, field_segment, logical_segment, map_value, same_text,
  text_before, text_iff,
}
use s.Ir.Reductor.Order.{compare_path_segments, compare_text, equal, greater, less}
use s.Ir.Order.{text_before_apart, text_before_total, text_before_trans}

text_less-before : (s t : Text) → compare_text s t ≡ less → text_before s t ≡ true
text_less-before s t h = elim (Bool-cases (same_text s t)) [
  | inl e ↦
      let f : equal ≡ less =
        subst (λ q. (if q then equal else if text_before s t then less else greater) ≡ less) e h in
      cc
  | inr e ↦ elim (Bool-cases (text_before s t)) [
    | inl b ↦ b
    | inr b ↦
        let f : (if text_before s t then less else greater) ≡ less =
          subst (λ q. (if q then equal else if text_before s t then less else greater) ≡ less) e
            h in
        let g : greater ≡ less = subst (λ q. (if q then less else greater) ≡ less) b f in cc
  ]
]

before-text_less : (s t : Text) → text_before s t ≡ true → compare_text s t ≡ less
before-text_less s t h = elim (Bool-cases (same_text s t)) [
  | inl e ↦
      let f = text_before_apart s t h in let g = (text_iff t s).1 (sym ((text_iff s t).0 e)) in cc
  | inr e ↦ rw (e, h)
]

-- What a comparison of texts tells.
text_compared :
    (s t : Text)
    → ((compare_text s t ≡ equal) × (s ≡ t))
      ⊎ ((compare_text s t ≡ less) × (text_before s t ≡ true))
      ⊎ ((compare_text s t ≡ greater) × (text_before t s ≡ true))
text_compared s t = elim (Bool-cases (same_text s t)) [
  | inl e ↦ inl (rw e, (text_iff s t).0 e)
  | inr e ↦ elim (Bool-cases (text_before s t)) [
    | inl b ↦ inr (inl (rw (e, b), b))
    | inr b ↦ inr (inr (rw (e, b), text_before_total s t e b))
  ]
]

text_equal : (s t : Text) → compare_text s t ≡ equal → s ≡ t
text_equal s t h = elim (text_compared s t) [
  | inl e ↦ e.1
  | inr e ↦ elim e [ inl l ↦ let f = l.0 in cc | inr g ↦ let f = g.0 in cc ]
]

pub text_turned : (s t : Text) → compare_text s t ≡ greater → compare_text t s ≡ less
text_turned s t h = elim (text_compared s t) [
  | inl e ↦ let f = e.0 in cc
  | inr e ↦ elim e [ inl l ↦ let f = l.0 in cc | inr g ↦ before-text_less t s g.1 ]
]

pub segment_equal : (s t : SchemaPathSegment) → compare_path_segments s t ≡ equal → s ≡ t
unfolding compare_path_segments
segment_equal (field_segment a) (field_segment b) h = ap field_segment (text_equal a b h)
segment_equal array_element array_element h = refl
segment_equal map_value map_value h = refl
segment_equal logical_segment logical_segment h = refl
segment_equal _ _ h = cc

pub segment_less_trans :
    (s t u : SchemaPathSegment)
    → compare_path_segments s t ≡ less
    → compare_path_segments t u ≡ less
    → compare_path_segments s u ≡ less
unfolding compare_path_segments
segment_less_trans (field_segment a) (field_segment b) (field_segment c) h k =
    before-text_less a c (text_before_trans a b c (text_less-before a b h) (text_less-before b c k))
segment_less_trans _ _ _ h k = ground arith

pub segment_turned :
    (s t : SchemaPathSegment)
    → compare_path_segments s t ≡ greater
    → compare_path_segments t s ≡ less
unfolding compare_path_segments
segment_turned (field_segment a) (field_segment b) h = text_turned a b h
segment_turned _ _ h = ground arith
