-- ===== src/Ir/Reductor/Canonical.antt =====
-- What `canonicalize_claims` of binary_reductor.rs returns.
use s.Prelude.{
  All, Bool, List, [], false, inl, inr, ok, refl, sort_by, subst, true, ◌∷◌, ◌≡◌, nat_eq, string_eq,
}
use s.Ir.Checked.{>>=-ok, ok-injective, refuse-ok}
use s.Prelude.Sorted.{Adjacent, sort_by-Adjacent}
use s.Ir.Reductor.{BinaryReductorClaim, claim_error, path_is_prefix}
use s.Ir.Reductor.Order.{
  Comparison, canonicalize_claims, check_pairs, compare_claims, compare_path_segments,
  compare_paths, compare_text, equal, greater, is_not_greater, less, same_path, then_with,
}
use s.Ir.Reductor.Disjoint.{
  NotGreater, Past, Past-apart, Past-start, Past-step, compare_segment_refl, compared,
  segment_cases,
}
use s.Ir.{SchemaPath, duplicate_claims, overlapping_claims}
use s.Ir.Reductor.Compare.{segment_equal, segment_turned, text_turned}

paths_equal : (p q : SchemaPath) → compare_paths p q ≡ equal → p ≡ q
unfolding compare_paths
paths_equal [] [] h = refl
paths_equal [] (t ∷ q) h = cc
paths_equal (s ∷ p) [] h = cc
paths_equal (s ∷ p) (t ∷ q) h = elim (segment_cases s t) [
  | inl l ↦ let f = subst (λ c. then_with c (compare_paths p q) ≡ equal) l h in cc
  | inr e ↦ elim e [
    | inl e ↦
        let f = subst (λ c. then_with c (compare_paths p q) ≡ equal) e h in
        let g = segment_equal s t e in let k = paths_equal p q f in cc
    | inr g ↦ let f = subst (λ c. then_with c (compare_paths p q) ≡ equal) g h in cc
  ]
]

paths_turned : (p q : SchemaPath) → compare_paths p q ≡ greater → compare_paths q p ≡ less
unfolding compare_paths
paths_turned [] [] h = cc
paths_turned [] (t ∷ q) h = cc
paths_turned (s ∷ p) [] h = refl
paths_turned (s ∷ p) (t ∷ q) h = elim (segment_cases s t) [
  | inl l ↦ let f = subst (λ c. then_with c (compare_paths p q) ≡ greater) l h in cc
  | inr e ↦ elim e [
    | inl e ↦
        let f = subst (λ c. then_with c (compare_paths p q) ≡ greater) e h in
        let g = segment_equal s t e in
        let turned : compare_path_segments t s ≡ equal =
          subst (λ x. compare_path_segments x s ≡ equal) g (compare_segment_refl s) in
        rw turned (paths_turned p q f)
    | inr g ↦ rw (segment_turned s t g)
  ]
]

compare_paths_refl : (p : SchemaPath) → compare_paths p p ≡ equal
unfolding compare_paths
compare_paths_refl [] = refl
compare_paths_refl (s ∷ p) = rw (compare_segment_refl s) (compare_paths_refl p)

greater_of : (c : Comparison) → is_not_greater c ≡ false → c ≡ greater
greater_of less h = cc
greater_of equal h = cc
greater_of greater h = refl

claims_total :
    (c d : BinaryReductorClaim)
    → is_not_greater (compare_claims c d) ≡ false
    → is_not_greater (compare_claims d c) ≡ true
unfolding compare_claims
claims_total c d h = elim (compared (compare_paths c.path d.path)) [
  | inl l ↦
      let f =
        subst (λ x. is_not_greater (then_with x (compare_text c.type_id d.type_id)) ≡ false) l h in
      cc
  | inr e ↦ elim e [
    | inl e ↦
        let f =
          subst (λ x. is_not_greater (then_with x (compare_text c.type_id d.type_id)) ≡ false) e
            h in
        let g = text_turned c.type_id d.type_id (greater_of _ f) in
        let k : compare_paths d.path c.path ≡ equal =
          subst (λ x. compare_paths x c.path ≡ equal) (paths_equal c.path d.path e)
            (compare_paths_refl c.path) in
        rw (k, g)
    | inr g ↦ rw (paths_turned c.path d.path g)
  ]
]

in_order :
    (c d : BinaryReductorClaim)
    → is_not_greater (compare_claims c d) ≡ true
    → NotGreater (compare_paths c.path d.path)
unfolding compare_claims
in_order c d h = elim (compared (compare_paths c.path d.path)) [
  | inl l ↦ rw l
  | inr e ↦ elim e [
    | inl e ↦ rw e
    | inr g ↦
        let f =
          subst (λ x. is_not_greater (then_with x (compare_text c.type_id d.type_id)) ≡ true) g h in
        cc
  ]
]

abbrev claim_le : BinaryReductorClaim → BinaryReductorClaim → Bool
claim_le c d = is_not_greater (compare_claims c d)

All-Past :
    (p : SchemaPath) (d : BinaryReductorClaim) (l : List BinaryReductorClaim)
    → Past p d.path
    → Adjacent claim_le (d ∷ l)
    → All (λ e. Past p e.path) (d ∷ l)
All-Past p d [] a o = (a, tt)
All-Past p d (e ∷ l) a o = (a, All-Past p e l (Past-step p d.path e.path a (in_order d e o.0)) o.1)

-- Neither of the claims is on the path of the other, or above it.
abbrev pub Apart : BinaryReductorClaim → BinaryReductorClaim → Type 0
Apart c d = (path_is_prefix c.path d.path ≡ false) × (path_is_prefix d.path c.path ≡ false)

abbrev pub Disjoint : List BinaryReductorClaim → Type 0
Disjoint [] = Unit
Disjoint (c ∷ l) = All (Apart c) l × Disjoint l

All-Apart :
    (c : BinaryReductorClaim) (l : List BinaryReductorClaim)
    → All (λ e. Past c.path e.path) l
    → All (Apart c) l
All-Apart c [] a = tt
All-Apart c (e ∷ l) a = (Past-apart c.path e.path a.0, All-Apart c l a.1)

checked-Disjoint :
    (l : List BinaryReductorClaim) → Adjacent claim_le l → check_pairs l ≡ ok tt → Disjoint l
unfolding check_pairs
checked-Disjoint [] o h = tt
checked-Disjoint (c ∷ []) o h = (tt, tt)
checked-Disjoint (c ∷ d ∷ l) o h =
    let a = refuse-ok (same_path c.path d.path) (claim_error duplicate_claims) _ tt h in
    let b = refuse-ok (path_is_prefix c.path d.path) (claim_error overlapping_claims) _ tt a.1 in
    let past = Past-start c.path d.path (in_order c d o.0) b.0 in
    (All-Apart c (d ∷ l) (All-Past c.path d l past o.1), checked-Disjoint (d ∷ l) o.1 b.1)

-- The claims that canonicalize_claims returns are disjoint, each from every other one and not only
-- from the next: no claimed path is a prefix of another.
pub canonicalize_claims-Disjoint :
    (claims sorted : List BinaryReductorClaim)
    → canonicalize_claims claims ≡ ok sorted
    → Disjoint sorted
unfolding canonicalize_claims
canonicalize_claims-Disjoint claims sorted h =
    let s = sort_by claim_le claims in
    let a = >>=-ok (check_pairs s) _ sorted h in
    let e : s ≡ sorted = ok-injective a.2 in
    subst Disjoint e (checked-Disjoint s (sort_by-Adjacent claim_le claims_total claims) a.1)
