-- ===== src/Transaction/Memory/Examples.antt =====
-- The theorems about the in-memory sink on a concrete draft.
use s.Transaction.Memory.Contract.{Honours, memory_refines}
use s.Transaction.Memory.{InMemory, call_memory}
use s.Prelude.{List, String, [], arith, false, refl, true, ℕ, ◌∷◌, nat_eq, string_eq}
use s.Transaction.Sink.Safety.{complete_call}

abbrev digest_text : List ℕ → String
digest_text bytes = "digest"

abbrev drafted : InMemory
drafted = record {
  sink = record {
    bucket = "b";
    key = "k";
    content_type = "text/plain";
    max_bytes = 16;
    buffer = 1 ∷ 2 ∷ [];
    hashed = 1 ∷ 2 ∷ [];
    output_verified = true;
    finished = false;
  };
  store = record { objects = [] };
  drawn = 0;
}

memory_refines_example :
    Honours digest_text
      (λ n. "id")
      complete_call
      drafted
      (call_memory digest_text (λ n. "id") complete_call drafted)
memory_refines_example =
    memory_refines digest_text (λ n. "id") complete_call drafted (omega arith) (λ f. refl)
