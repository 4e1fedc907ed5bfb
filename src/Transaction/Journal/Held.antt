-- ===== src/Transaction/Journal/Held.antt =====
-- The table of a journal's operations, its keys, and the lease of one of them (transaction/journal.rs).
use s.Prelude.{
  All, Bool-cases, List, [], arith, false, inl, inr, none, some, sym, true, ◌∷◌, ◌≡◌, ◌≢◌, ◌∙◌,
  nat_eq, string_eq, if◌then◌else◌, filter_by, map, eqb, eqb_iff, subst,
}
use s.Prelude.Int.{ℤ, ◌≤ℤ◌}
use s.Prelude.Table.{lookup, insert, values}
use s.Transaction.Operation.{OperationRecord, Uuid}
use s.Transaction.Journal.Recovery.{age, is_reconcilable}

abbrev pub Operations : Type 0
Operations = List (Uuid × OperationRecord)

-- Each record stands under its own id, and once.
abbrev pub Keyed : Operations → Type 0
Keyed [] = Unit
Keyed ((key, a) ∷ m) = (a.id ≡ key) × (lookup key m ≡ none) × Keyed m

-- Each record stands under its own id, and the one with the id `k` is leased until the time.
abbrev pub Held : Uuid → ℤ → Operations → Type 0
Held k until [] = Unit
Held k until ((key, a) ∷ m) =
    (a.id ≡ key) × (key ≡ k → a.lease_expires_at_ms ≡ some until) × Held k until m

module _ (k : Uuid) (until : ℤ) where
  pub insert-Held :
      (id : Uuid) (b : OperationRecord) (m : Operations)
      → b.id ≡ id
      → (id ≡ k → b.lease_expires_at_ms ≡ some until)
      → Held k until m
      → Held k until (insert id b m)
  unfolding insert
  insert-Held id b [] e l h = (e, l, tt)
  insert-Held id b ((key, a) ∷ m) e l h = elim (Bool-cases (eqb key id)) [
    | inl same ↦ rw same (e, l, h.2)
    | inr other ↦ rw other (h.0, h.1, insert-Held id b m e l h.2)
  ]

  absent-Held : (m : Operations) → Keyed m → lookup k m ≡ none → Held k until m
  unfolding lookup
  absent-Held [] u e = tt
  absent-Held ((key, a) ∷ m) u e = elim (Bool-cases (eqb key k)) [
    | inl same ↦
        let f : some a ≡ none = subst (λ q. (if q then some a else lookup k m) ≡ none) same e in cc
    | inr other ↦
        let f : lookup k m ≡ none =
          subst (λ q. (if q then some a else lookup k m) ≡ none) other e in
        (u.0, (λ q. absurd (ground (arith, eqb_iff key k, q, other))), absent-Held m u.2 f)
  ]

  -- Where the record with the id is replaced by one that is leased.
  pub replaced-Held :
      (b : OperationRecord) (m : Operations)
      → b.id ≡ k
      → b.lease_expires_at_ms ≡ some until
      → Keyed m
      → Held k until (insert k b m)
  unfolding insert
  replaced-Held b [] e l u = (e, (λ _. l), tt)
  replaced-Held b ((key, a) ∷ m) e l u = elim (Bool-cases (eqb key k)) [
    | inl same ↦ rw same (
      e,
      (λ _. l),
      absent-Held m u.2 (subst (λ x. lookup x m ≡ none) ((eqb_iff key k).0 same) u.1),
    )
    | inr other ↦
        rw other
          (u.0, (λ q. absurd (ground (arith, eqb_iff key k, q, other))), replaced-Held b m e l u.2)
  ]

  pub found-Held :
      (id : Uuid) (a : OperationRecord) (m : Operations)
      → Held k until m
      → lookup id m ≡ some a
      → (a.id ≡ id) × (id ≡ k → a.lease_expires_at_ms ≡ some until)
  unfolding lookup
  found-Held id a [] h e = cc
  found-Held id a ((key, b) ∷ m) h e = elim (Bool-cases (eqb key id)) [
    | inl same ↦
        let f : some b ≡ some a =
          subst (λ q. (if q then some b else lookup id m) ≡ some a) same e in
        let g : key ≡ id = (eqb_iff key id).0 same in (cc, λ q. cc (h.1 (g ∙ q), f))
    | inr other ↦
        found-Held id a m h.2 (subst (λ q. (if q then some b else lookup id m) ≡ some a) other e)
  ]

  module _ (now stale : ℤ) (early : now ≤ℤ until) where
    held_refused :
        (a : OperationRecord)
        → a.lease_expires_at_ms ≡ some until
        → is_reconcilable now stale a ≡ false
    unfolding is_reconcilable
    held_refused a l = rw l (ground (arith, early))

    pub free-other :
        (a : OperationRecord) (key : Uuid)
        → (key ≡ k → a.lease_expires_at_ms ≡ some until)
        → is_reconcilable now stale a ≡ true
        → key ≢ k
    free-other a key l free e = cc (held_refused a (l e), free)

    pub free_ids :
        (m : Operations)
        → Held k until m
        → All
            (λ (p : ℤ × Uuid). p.1 ≢ k)
            (map age (filter_by (is_reconcilable now stale) (values m)))
    free_ids [] h = tt
    free_ids ((key, a) ∷ m) h = elim (Bool-cases (is_reconcilable now stale a)) [
      | inl free ↦ rw free ((λ e. free-other a key h.1 free (sym h.0 ∙ e)), free_ids m h.2)
      | inr kept ↦ rw kept (free_ids m h.2)
    ]

pub found-Keyed :
    (id : Uuid) (a : OperationRecord) (m : Operations) → Keyed m → lookup id m ≡ some a → a.id ≡ id
unfolding lookup
found-Keyed id a [] u e = cc
found-Keyed id a ((key, b) ∷ m) u e = elim (Bool-cases (eqb key id)) [
  | inl same ↦
      let f : some b ≡ some a = subst (λ q. (if q then some b else lookup id m) ≡ some a) same e in
      let g : key ≡ id = (eqb_iff key id).0 same in cc
  | inr other ↦
      found-Keyed id a m u.2 (subst (λ q. (if q then some b else lookup id m) ≡ some a) other e)
]
