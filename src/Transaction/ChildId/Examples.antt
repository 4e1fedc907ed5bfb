-- ===== src/Transaction/ChildId/Examples.antt =====
-- The theorem about child identities on a concrete destination, with texts encoded by their code points.
use Prim.Native.String.{[] as no_text, ◌∷◌ as text_cons}
use Prim.Native.Char.{code}
use text.Mathlib.TextEquality.{Char-path}
use s.Transaction.ChildId.Injective.{ShortTexts, child_identity-injective}
use s.Transaction.ChildId.{IdEncoding, repair, role_text}
use s.Prelude.{List, String, [], arith, none, refl, ℕ, ◌∷◌, ◌≡◌, nat_eq, string_eq}
use s.Transaction.Operation.{ObjectDestination, Uuid}

abbrev code_points : String → List ℕ
code_points no_text = []
code_points (text_cons c s) = code c ∷ code_points s

code_points-injective : (s t : String) → code_points s ≡ code_points t → s ≡ t
code_points-injective no_text no_text h = refl
code_points-injective no_text (text_cons d t) h = cc
code_points-injective (text_cons c s) no_text h = cc
code_points-injective (text_cons c s) (text_cons d t) h =
    let a : code c ≡ code d = cc in
    let b : code_points s ≡ code_points t = cc in
    rw (Char-path c d a, code_points-injective s t b) refl

abbrev by_code_points : IdEncoding
by_code_points = record { uuid_bytes = λ n. n ∷ []; text_bytes = code_points; new_v5 = λ bytes. 0 }

abbrev small_destination : ObjectDestination
small_destination = record {
  backend_id = "b";
  bucket = "c";
  logical_key = "k";
  physical_key = "p";
  workspace_binding = none;
}

small_texts : ShortTexts by_code_points small_destination repair
unfolding role_text
small_texts = (record {
  short_backend = omega arith;
  short_bucket = omega arith;
  short_logical = omega arith;
  short_physical = omega arith;
  short_role = omega arith;
})

child_identity-injective_example :
    (◌≡◌ {A = Uuid} 3 3)
    × (small_destination.backend_id ≡ "b")
    × (small_destination.bucket ≡ "c")
    × (small_destination.logical_key ≡ "k")
    × (small_destination.physical_key ≡ "p")
    × (repair ≡ repair)
child_identity-injective_example =
    child_identity-injective by_code_points 3 3 small_destination small_destination repair repair
      (record {
        same_uuid = λ a b h. cc;
        same_text = code_points-injective;
        short_uuid = λ a. omega arith;
      })
      small_texts small_texts refl
