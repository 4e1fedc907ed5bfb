-- ===== src/Ir/Reductor/Order.antt =====
-- The order of claims, and that claims in order do not overlap (binary_reductor.rs,
-- `canonicalize_claims`).
use s.Prelude.{
  ◌>>◌, Bool, List, Result, [], eqb, false, if◌then◌else◌, ltb, ok, sort_by, true, ℕ, ◌&&◌, ◌∷◌,
  nat_eq, string_eq,
}
use s.Ir.Reductor.{BinaryReductorClaim, claim_error, path_is_prefix, same_segment}
use s.Ir.{
  S4Error, SchemaPath, SchemaPathSegment, Text, array_element, duplicate_claims, field_segment,
  logical_segment, map_value, overlapping_claims, same_text, text_before, refuse,
}

-- `cmp` of two texts, and `then_with`.
pub data Comparison : Type 0 where
  less equal greater : Comparison

abbrev pub compare_text : Text → Text → Comparison
compare_text s t = if same_text s t then equal else if text_before s t then less else greater

abbrev pub then_with : Comparison → Comparison → Comparison
then_with less other = less
then_with equal other = other
then_with greater other = greater

abbrev pub compare_ℕ : ℕ → ℕ → Comparison
compare_ℕ m n = if eqb m n then equal else if ltb m n then less else greater

abbrev pub rank : SchemaPathSegment → ℕ
rank (field_segment _) = 0
rank array_element = 1
rank map_value = 2
rank logical_segment = 3

abbrev pub compare_names : SchemaPathSegment → SchemaPathSegment → Comparison
compare_names (field_segment left) (field_segment right) = compare_text left right
compare_names _ _ = equal

unfoldable pub compare_path_segments : SchemaPathSegment → SchemaPathSegment → Comparison
compare_path_segments left right =
    then_with (compare_ℕ (rank left) (rank right)) (compare_names left right)

-- The loop over `zip`, and behind it the comparison of the lengths.
unfoldable pub compare_paths : SchemaPath → SchemaPath → Comparison
unfolding compare_path_segments
compare_paths [] [] = equal
compare_paths [] (t ∷ right) = less
compare_paths (s ∷ left) [] = greater
compare_paths (s ∷ left) (t ∷ right) =
    then_with (compare_path_segments s t) (compare_paths left right)

unfoldable pub compare_claims : BinaryReductorClaim → BinaryReductorClaim → Comparison
unfolding compare_paths
compare_claims left right =
    then_with (compare_paths left.path right.path) (compare_text left.type_id right.type_id)

abbrev pub is_not_greater : Comparison → Bool
is_not_greater greater = false
is_not_greater _ = true

unfoldable pub same_path : SchemaPath → SchemaPath → Bool
unfolding same_segment
same_path [] [] = true
same_path [] (t ∷ right) = false
same_path (s ∷ left) [] = false
same_path (s ∷ left) (t ∷ right) = same_segment s t && same_path left right

-- The loop over `windows(2)`.
unfoldable pub check_pairs : List BinaryReductorClaim → Result S4Error Unit
unfolding same_path path_is_prefix
check_pairs [] = ok tt
check_pairs (c ∷ []) = ok tt
check_pairs (c ∷ d ∷ rest) = do
  refuse (same_path c.path d.path) (claim_error duplicate_claims)
  refuse (path_is_prefix c.path d.path) (claim_error overlapping_claims)
  check_pairs (d ∷ rest)

unfoldable pub canonicalize_claims :
    List BinaryReductorClaim → Result S4Error (List BinaryReductorClaim)
unfolding compare_claims check_pairs
canonicalize_claims claims = do
  let sorted = sort_by (λ c d. is_not_greater (compare_claims c d)) claims
  check_pairs sorted
  ok sorted
