-- ===== src/Postgres/Invariant/Keys.antt =====
-- The idempotency keys stay unique, and what holds of a table under each clause.
use tickr.Prelude.{Bool, false, List, [], ◌∷◌, ◌≡◌, refl, ◌∙◌, inl, inr, Bool-cases, some_of, arith}
use tickr.Prelude.Distinct.{Distinct}
use tickr.Postgres.Table.{Row, update_where, delete_where}
use tickr.Postgres.Invariant.{clash}

abbrev pub KeepsClash : (Row → Row) → Type 0
KeepsClash f = ((a b : Row) → clash (f a) b ≡ clash a b) × ((a b : Row) → clash a (f b) ≡ clash a b)

module _ (p : Row → Bool) (f : Row → Row) where
  some_of-update :
      (q : Row → Bool) (ms : List Row)
      → ((r : Row) → q (f r) ≡ q r)
      → some_of q (update_where p f ms) ≡ some_of q ms
  unfolding update_where
  some_of-update q [] h = refl
  some_of-update q (r ∷ rs) h = ground (arith, h r, some_of-update q rs h)

  some_of-clash :
      (r : Row) (ms : List Row) (k : KeepsClash f) → some_of (clash (f r)) ms ≡ some_of (clash r) ms
  some_of-clash r [] k = refl
  some_of-clash r (m ∷ ms) k = ground (arith, k.0 r m, some_of-clash r ms k)

  pub Distinct-update :
      (ms : List Row) → KeepsClash f → Distinct clash ms → Distinct clash (update_where p f ms)
  unfolding update_where
  Distinct-update [] k d = tt
  Distinct-update (r ∷ rs) k d = elim (Bool-cases (p r)) [
    | inl e ↦ rw e (
      some_of-clash r (update_where p f rs) k ∙ (some_of-update (clash r) rs (λ b. k.1 r b) ∙ d.0),
      Distinct-update rs k d.1,
    )
    | inr e ↦ rw e (some_of-update (clash r) rs (λ b. k.1 r b) ∙ d.0, Distinct-update rs k d.1)
  ]

module _ {A : Type 0} (p : A → Bool) where
  some_of-delete :
      (q : A → Bool) (xs : List A) → some_of q xs ≡ false → some_of q (delete_where p xs) ≡ false
  unfolding delete_where
  some_of-delete q [] h = refl
  some_of-delete q (x ∷ xs) h = ground (arith, some_of-delete q xs)

  pub Distinct-delete :
      (same : A → A → Bool) (xs : List A) → Distinct same xs → Distinct same (delete_where p xs)
  unfolding delete_where
  Distinct-delete same [] d = tt
  Distinct-delete same (x ∷ xs) d = elim (Bool-cases (p x)) [
    | inl e ↦ rw e (Distinct-delete same xs d.1)
    | inr e ↦ rw e (some_of-delete (same x) xs d.0, Distinct-delete same xs d.1)
  ]
