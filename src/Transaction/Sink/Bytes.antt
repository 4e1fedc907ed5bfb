-- ===== src/Transaction/Sink/Bytes.antt =====
-- What becomes of the bytes that are written into the sink (transaction/s3.rs, `write`).
use s.Transaction.Backend.{BackendError, Machine, Run, Surroundings, ◌>>◌}
use s.Transaction.Backend.{
  >>=-eq-ok, Act, Request, TransactionError, aborted, part_sent, pure, raise, ◌>>=◌,
}
use s.Transaction.Sink.{
  DirectS3Sink, SinkOn, with_sink, ask, change, is_taken, lift, evidence, record_launch,
}
use s.Prelude.{
  List, [], ap, append_assoc, false, ok, refl, sym, true, ℕ, ◌++◌, ◌∙◌, ◌∷◌, ◌≡◌, nat_eq, string_eq,
  Bool, Result, append-nil, String, err, if◌then◌else◌, subst,
}
use s.Transaction.Json.{Json}
use s.Transaction.Journal.{Method}
use s.Transaction.Reconciler.Steps.{note_ok, on_journal_ok, read_clock_ok}
use s.Transaction.Reconciler.{on_journal}
use s.Prelude.Int.{ℤ}

-- The bytes of the parts that the provider took.
abbrev pub taken : List Request → List ℕ
taken [] = []
taken (part_sent n body true ∷ rs) = body ++ taken rs
taken (_ ∷ rs) = taken rs

taken-append : (xs ys : List Request) → taken (xs ++ ys) ≡ taken xs ++ taken ys
taken-append [] ys = refl
taken-append (part_sent n body true ∷ rs) ys =
    ap (λ l. body ++ l) (taken-append rs ys) ∙ sym (append_assoc body (taken rs) (taken ys))
taken-append (part_sent n body false ∷ rs) ys = taken-append rs ys
taken-append (aborted id ∷ rs) ys = taken-append rs ys
taken-append (_ ∷ rs) ys = taken-append rs ys

-- Between two moments the provider took these bytes in parts; what is buffered and hashed stands.
pub record Sent {W : Type 0} (x y : SinkOn W) (bytes : List ℕ) : Type 0 where
  pub sent : taken y.machine.requests ≡ taken x.machine.requests ++ bytes
  pub same_buffer : y.sink.buffer ≡ x.sink.buffer
  pub same_hashed : y.sink.hashed ≡ x.sink.hashed

Sent-trans :
    {W : Type 0} (x y z : SinkOn W) (xs ys : List ℕ)
    → Sent x y xs
    → Sent y z ys
    → Sent x z (xs ++ ys)
Sent-trans x y z xs ys p q = record {
  sent = q.sent ∙ ap (λ l. l ++ ys) p.sent ∙ append_assoc (taken x.machine.requests) xs ys;
  same_buffer = q.same_buffer ∙ p.same_buffer;
  same_hashed = q.same_hashed ∙ p.same_hashed;
}

-- Of a sink whose buffer and hash stand.
Sent-of :
    {W : Type 0} (x : SinkOn W) (rs : List Request) (w : W) (bytes : List ℕ)
    → taken rs ≡ bytes
    → Sent x
        (record x { machine = record x.machine { world = w; requests = x.machine.requests ++ rs } })
        bytes
Sent-of x rs w bytes e = record {
  sent = taken-append x.machine.requests rs ∙ ap (λ l. taken x.machine.requests ++ l) e;
  same_buffer = refl;
  same_hashed = refl;
}

-- Where the step succeeds, the provider took these bytes.
pub record Sends {W A : Type 0} (bytes : List ℕ) (p : Act (SinkOn W) A) : Type 0 where
  pub at : (x y : SinkOn W) (a : A) → p x ≡ (ok a, y) → Sent x y bytes

abbrev pub Steady : {W A : Type 0} → Act (SinkOn W) A → Type 0
Steady p = Sends [] p

pub pairs : {A B : Type 0} (p : A × B) (a : A) (b : B) → p.0 ≡ a → p.1 ≡ b → p ≡ (a, b)
pairs p a b e f = λ i. (e i, f i)

module _ {W A : Type 0} where
  pub Steady-pure : (a : A) → Steady {W = W} (pure a)
  unfolding pure
  Steady-pure a = record {
    at = λ x y b h.
        subst (λ z. Sent x z []) (ap (λ r. r.1) h)
          (record {
            sent = sym (append-nil (taken x.machine.requests));
            same_buffer = refl;
            same_hashed = refl;
          });
  }

  pub Sends-raise : (bytes : List ℕ) (e : TransactionError) → Sends {W = W} bytes (raise {A = A} e)
  unfolding raise
  Sends-raise bytes e = record { at = λ x y b h. cc }

  pub Sends-if :
      (bytes : List ℕ) (b : Bool) (p q : Act (SinkOn W) A)
      → Sends bytes p
      → Sends bytes q
      → Sends bytes (if b then p else q)
  Sends-if bytes true p q h k = h
  Sends-if bytes false p q h k = k

  -- A step of the machine that asks the provider nothing.
  pub Steady-lift :
      (p : Run W A)
      → ((m n : Machine W) (a : A) → p m ≡ (ok a, n) → n.requests ≡ m.requests)
      → Steady (lift p)
  unfolding lift
  Steady-lift p h = record {
    at = λ x y a e. record {
      sent =
          ap taken (
            h x.machine y.machine a
              (pairs (p x.machine) (ok a) y.machine (ap (λ r. r.0) e) (ap (λ r. r.1.machine) e)))
          ∙ sym (append-nil (taken x.machine.requests));
      same_buffer = sym (ap (λ r. r.1.sink.buffer) e);
      same_hashed = sym (ap (λ r. r.1.sink.hashed) e);
    };
  }

module _ {W : Type 0} where
  pub Steady-change :
      (f : DirectS3Sink → DirectS3Sink)
      → ((s : DirectS3Sink) → (f s).buffer ≡ s.buffer)
      → ((s : DirectS3Sink) → (f s).hashed ≡ s.hashed)
      → Steady {W = W} (change f)
  unfolding change
  Steady-change f h k = record {
    at = λ x y a e. record {
      sent =
          ap (λ q. taken q.1.machine.requests) (sym e)
          ∙ sym (append-nil (taken x.machine.requests));
      same_buffer = ap (λ q. q.1.sink.buffer) (sym e) ∙ h x.sink;
      same_hashed = ap (λ q. q.1.sink.hashed) (sym e) ∙ k x.sink;
    };
  }

-- A call whose answer decides what the provider took: the bytes of the call, or what comes after.
pub Sends-answer :
    {W A B : Type 0} (bytes : List ℕ) (r : Bool → Request)
    (f : DirectS3Sink → W → Result BackendError A × W)
    (g : Result BackendError A → Act (SinkOn W) B)
    → (taken (r true ∷ []) ≡ bytes)
    → (taken (r false ∷ []) ≡ [])
    → ((a : A) → Steady (g (ok a)))
    → ((e : BackendError) → Sends bytes (g (err e)))
    → Sends bytes (with_sink (λ s. ask r (f s)) >>= g)
unfolding with_sink ask ◌>>=◌ is_taken
Sends-answer {W} {A} {B} bytes r f g t u h k = record {
  at = λ x y b e. answered x y b (f x.sink x.machine.world).0 (f x.sink x.machine.world).1 e;
}
  where
    answered :
        (x y : SinkOn W) (b : B) (q : Result BackendError A) (w : W)
        → g q (record x {
          machine = record x.machine {
            world = w;
            requests = x.machine.requests ++ r (is_taken q) ∷ [];
          };
        })
          ≡ (ok b, y)
        → Sent x y bytes
    answered x y b (ok a) w e =
        subst (λ l. Sent x y l) (append-nil bytes)
          (Sent-trans x _ y bytes [] (Sent-of x (r true ∷ []) w bytes t) ((h a).at _ y b e))
    answered x y b (err z) w e =
        Sent-trans x _ y [] bytes (Sent-of x (r false ∷ []) w [] u) ((k z).at _ y b e)

module _ {W A : Type 0} where
  pub Sends-with_sink :
      (bytes : List ℕ) (f : DirectS3Sink → Act (SinkOn W) A)
      → ((s : DirectS3Sink) → Sends bytes (f s))
      → Sends bytes (with_sink f)
  unfolding with_sink
  Sends-with_sink bytes f h = record { at = λ x. (h x.sink).at x }

module _ {W A B : Type 0} where
  pub Sends-bind :
      (xs ys : List ℕ) (p : Act (SinkOn W) A) (f : A → Act (SinkOn W) B)
      → Sends xs p
      → ((a : A) → Sends ys (f a))
      → Sends (xs ++ ys) (p >>= f)
  Sends-bind xs ys p f hp hf = record {
    at = λ x z b h.
        let (a, y, e, q) = >>=-eq-ok p f x z b h in
        Sent-trans x y z xs ys (hp.at x y a e) ((hf a).at y z b q);
  }

pub Sends-seq :
    {W B : Type 0} (xs ys : List ℕ) (p : Act (SinkOn W) Unit) (q : Act (SinkOn W) B)
    → Sends xs p
    → Sends ys q
    → Sends (xs ++ ys) (p >> q)
unfolding ◌>>◌
Sends-seq xs ys p q hp hq = Sends-bind xs ys p (λ _. q) hp (λ _. hq)

pub Steady-seq :
    {W B : Type 0} (p : Act (SinkOn W) Unit) (q : Act (SinkOn W) B)
    → Steady p
    → Steady q
    → Steady (p >> q)
Steady-seq p q hp hq = Sends-seq [] [] p q hp hq

module _ {W : Type 0} (env : Surroundings) where
  pub Steady-journal : {A : Type 0} (f : ℤ → Method A) → Steady {W = W} (lift (on_journal env f))
  Steady-journal f =
      Steady-lift _ (λ m n a e. let (now, d, j, q) = on_journal_ok env f a m n e in q)

  pub evidence-Steady : (kind : String) (detail : Json) → Steady {W = W} (evidence env kind detail)
  unfolding evidence
  evidence-Steady kind detail =
      Sends-with_sink [] _ (λ s.
        Steady-lift _ (λ m n a e. (note_ok env s.operation.id kind detail m n e).same_requests))

  pub record_launch-Steady : Steady {W = W} (record_launch env)
  unfolding record_launch
  record_launch-Steady = Sends-with_sink [] _ (λ s.
      Sends-bind [] [] _ _
        (Steady-lift _ (λ m n t e. let (j, q, _) = read_clock_ok env t m n e in q))
        (λ now. Steady-journal _))
