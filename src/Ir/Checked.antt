-- ===== src/Ir/Checked.antt =====
-- What a chain of checks that succeeds says of each check (`?` and the early returns of binary_ir.rs).
use s.Prelude.{
  ◌>>=◌, ◌>>◌, Bool, Option, Result, String, arith, err, false, ltb, none, not, ok, ok_or, refl,
  some, true, ℕ, ◌&&◌, ◌||◌, ◌≡◌, ◌≤◌, nat_eq, string_eq, eqb,
}
use s.Ir.{S4Error, refuse}
use s.Ir.Dates.{fail_if}

pub >>=-ok :
    {E A B : Type 0} (m : Result E A) (f : A → Result E B) (b : B)
    → (m >>= f) ≡ ok b
    → (a : A) × (m ≡ ok a) × (f a ≡ ok b)
>>=-ok (ok a) f b h = (a, refl, h)
>>=-ok (err e) f b h = cc

pub refuse-ok :
    {A : Type 0} (test : Bool) (e : S4Error) (k : Result S4Error A) (b : A)
    → (refuse test e >> k) ≡ ok b
    → (test ≡ false) × (k ≡ ok b)
refuse-ok true e k b h = cc
refuse-ok false e k b h = (refl, h)

pub refuse-last : (test : Bool) (e : S4Error) → refuse test e ≡ ok tt → test ≡ false
refuse-last true e h = cc
refuse-last false e h = refl

pub fail_if-ok :
    {A : Type 0} (test : Bool) (message : String) (k : Result String A) (b : A)
    → (fail_if test message >> k) ≡ ok b
    → (test ≡ false) × (k ≡ ok b)
fail_if-ok true e k b h = cc
fail_if-ok false e k b h = (refl, h)

pub fail_if-last : (test : Bool) (m : String) → fail_if test m ≡ ok tt → test ≡ false
fail_if-last true e h = cc
fail_if-last false e h = refl

pub ok_or-ok :
    {A B : Type 0} (o : Option A) (e : String) (f : A → Result String B) (b : B)
    → (ok_or o e >>= f) ≡ ok b
    → (a : A) × (o ≡ some a) × (f a ≡ ok b)
ok_or-ok none e f b h = cc
ok_or-ok (some a) e f b h = (a, refl, h)

-- The parts of a test of several that fails.
pub or-false : (a b : Bool) → (a || b) ≡ false → (a ≡ false) × (b ≡ false)
or-false true b h = cc
or-false false b h = (refl, h)

pub not-false : (a : Bool) → not a ≡ false → a ≡ true
not-false true h = refl
not-false false h = cc

pub and-true : (a b : Bool) → (a && b) ≡ true → (a ≡ true) × (b ≡ true)
and-true true b h = (refl, h)
and-true false b h = cc

pub ltb-false : (a b : ℕ) → ltb a b ≡ false → b ≤ a
ltb-false a b h = ground arith

pub ltb-above : (a b : ℕ) → b ≤ a → ltb a b ≡ false
ltb-above a b h = ground arith

pub ok-injective : {E A : Type 0} {a b : A} → (let r : Result E A = ok a in r ≡ ok b) → a ≡ b
ok-injective h = cc

pub positive : (n : ℕ) → eqb n 0 ≡ false → 1 ≤ n
positive n h = ground arith

pub eqb-positive : (n : ℕ) → 1 ≤ n → eqb n 0 ≡ false
eqb-positive n h = ground arith

pub >>=-runs :
    {E A B : Type 0} (m : Result E A) (f : A → Result E B) (a : A) (b : B)
    → m ≡ ok a
    → f a ≡ ok b
    → (m >>= f) ≡ ok b
>>=-runs m f a b e k = rw e k

pub some-injective : {A : Type 0} {a b : A} → some a ≡ some b → a ≡ b
some-injective h = cc
