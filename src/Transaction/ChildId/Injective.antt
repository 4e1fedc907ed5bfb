-- ===== src/Transaction/ChildId/Injective.antt =====
-- Different children have different identities (transaction/mod.rs, `deterministic_child`).
use s.Prelude.{
  List, [], arith, length, refl, suc, sym, zero, ℕ, ◌%◌, ◌++◌, ◌/◌, ◌<◌, ◌∙◌, ◌∷◌, ◌≡◌, nat_eq,
  string_eq, All, String, eq_iff, false, true, ◌==◌, ap,
}
use s.Transaction.ChildId.{
  be_bytes_onto, IdEncoding, ManagedChildRole, child_identity, framed, primary, repair, replica,
  role_text, identity_parts,
}
use s.Transaction.Sink.Upload.{u64_mod}
use s.Transaction.Operation.{ObjectDestination, Uuid}

-- The number has so many bytes.
abbrev Fits : ℕ → ℕ → Type 0
Fits zero n = n ≡ 0
Fits (suc width) n = Fits width (n / 256)

be_bytes_onto-injective :
    (width n m : ℕ) (xs ys : List ℕ)
    → Fits width n
    → Fits width m
    → be_bytes_onto width n xs ≡ be_bytes_onto width m ys
    → (n ≡ m) × (xs ≡ ys)
unfolding be_bytes_onto
be_bytes_onto-injective zero n m xs ys f g e = (f ∙ sym g, e)
be_bytes_onto-injective (suc width) n m xs ys f g e =
    let (q, r) =
      be_bytes_onto-injective width (n / 256) (m / 256) (n % 256 ∷ xs) (m % 256 ∷ ys) f g e in
    let d : n % 256 ≡ m % 256 = cc in let t : xs ≡ ys = cc in (omega (arith, q, d), t)

append-injective :
    (xs ys us vs : List ℕ) → length xs ≡ length ys → xs ++ us ≡ ys ++ vs → (xs ≡ ys) × (us ≡ vs)
append-injective [] [] us vs h e = (refl, e)
append-injective [] (y ∷ ys) us vs h e = absurd (omega (arith, h))
append-injective (x ∷ xs) [] us vs h e = absurd (omega (arith, h))
append-injective (x ∷ xs) (y ∷ ys) us vs h e =
    let a : x ≡ y = cc in
    let t : xs ++ us ≡ ys ++ vs = cc in
    let (p, q) = append-injective xs ys us vs (omega (arith, h)) t in (rw (a, p) refl, q)

-- A length of 64 bits.
abbrev pub Short : List ℕ → Type 0
Short xs = length xs < u64_mod

Short-Fits : (xs : List ℕ) → Short xs → Fits 8 (length xs)
Short-Fits xs h = omega (arith, h)

framed-injective :
    (fs gs : List (List ℕ))
    → All Short fs
    → All Short gs
    → length fs ≡ length gs
    → framed fs ≡ framed gs
    → fs ≡ gs
unfolding framed
framed-injective [] [] p q h e = refl
framed-injective [] (g ∷ gs) p q h e = absurd (omega (arith, h))
framed-injective (f ∷ fs) [] p q h e = absurd (omega (arith, h))
framed-injective (f ∷ fs) (g ∷ gs) p q h e =
    let (n, t) =
      be_bytes_onto-injective 8 (length f) (length g) (f ++ framed fs) (g ++ framed gs)
        (Short-Fits f p.0) (Short-Fits g q.0) e in
    let (same, rest) = append-injective f g (framed fs) (framed gs) n t in
    let others = framed-injective fs gs p.1 q.1 (omega (arith, h)) rest in rw (same, others) refl

differ : (a b : String) → (a == b) ≡ false → a ≡ b → ⊥
differ a b h e = let t : (a == b) ≡ true = (eq_iff a b).1 e in cc

role_text-injective : (a b : ManagedChildRole) → role_text a ≡ role_text b → a ≡ b
unfolding role_text
role_text-injective primary primary e = refl
role_text-injective replica replica e = refl
role_text-injective repair repair e = refl
role_text-injective primary replica e = absurd (differ "primary" "replica" refl e)
role_text-injective primary repair e = absurd (differ "primary" "repair" refl e)
role_text-injective replica primary e = absurd (differ "replica" "primary" refl e)
role_text-injective replica repair e = absurd (differ "replica" "repair" refl e)
role_text-injective repair primary e = absurd (differ "repair" "primary" refl e)
role_text-injective repair replica e = absurd (differ "repair" "replica" refl e)

abbrev nth : ℕ → List (List ℕ) → List ℕ
nth n [] = []
nth zero (f ∷ fs) = f
nth (suc n) (f ∷ fs) = nth n fs

-- The encodings of ids and texts tell them apart.
pub record Faithful (encoding : IdEncoding) : Type 0 where
  pub same_uuid : (a b : Uuid) → encoding.uuid_bytes a ≡ encoding.uuid_bytes b → a ≡ b
  pub same_text : (a b : String) → encoding.text_bytes a ≡ encoding.text_bytes b → a ≡ b
  pub short_uuid : (a : Uuid) → Short (encoding.uuid_bytes a)

-- The texts of a destination have lengths of 64 bits, and so has the name of the role.
pub record ShortTexts (encoding : IdEncoding) (d : ObjectDestination) (r : ManagedChildRole)
    : Type 0 where
  pub short_backend : Short (encoding.text_bytes d.backend_id)
  pub short_bucket : Short (encoding.text_bytes d.bucket)
  pub short_logical : Short (encoding.text_bytes d.logical_key)
  pub short_physical : Short (encoding.text_bytes d.physical_key)
  pub short_role : Short (encoding.text_bytes (role_text r))

-- What is hashed for a child tells its parent, the backend, bucket and keys of its destination and its
-- role: children that differ in one of them are hashed from different bytes, where texts fit 64-bit
-- lengths and their encoding tells them apart.
pub child_identity-injective :
    (encoding : IdEncoding) (a b : Uuid) (d e : ObjectDestination) (r t : ManagedChildRole)
    → Faithful encoding
    → ShortTexts encoding d r
    → ShortTexts encoding e t
    → child_identity encoding a d r ≡ child_identity encoding b e t
    → (a ≡ b)
      × (d.backend_id ≡ e.backend_id)
      × (d.bucket ≡ e.bucket)
      × (d.logical_key ≡ e.logical_key)
      × (d.physical_key ≡ e.physical_key)
      × (r ≡ t)
unfolding child_identity identity_parts
child_identity-injective c a b d e r t f p q h =
    let same =
      framed-injective (identity_parts c a d r) (identity_parts c b e t)
        (
          f.short_uuid a,
          (
            p.short_backend,
            (p.short_bucket, (p.short_logical, (p.short_physical, (p.short_role, tt)))),
          ),
        )
        (
          f.short_uuid b,
          (
            q.short_backend,
            (q.short_bucket, (q.short_logical, (q.short_physical, (q.short_role, tt)))),
          ),
        )
        refl h in
    (
      f.same_uuid a b (ap (nth 0) same),
      f.same_text _ _ (ap (nth 1) same),
      f.same_text _ _ (ap (nth 2) same),
      f.same_text _ _ (ap (nth 3) same),
      f.same_text _ _ (ap (nth 4) same),
      role_text-injective r t (f.same_text _ _ (ap (nth 5) same)),
    )
