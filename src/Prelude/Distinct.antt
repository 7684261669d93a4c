-- ===== src/Prelude/Distinct.antt =====
-- Lists no two elements of which are the same by a Boolean test, and what SQL does to them.
use tickr.Prelude.{List, [], ◌∷◌, ◌++◌, Bool, false, ◌≡◌, refl, some_of, arith}

module _ {ℓ} {A : Type ℓ} where
  abbrev pub Distinct : (A → A → Bool) → List A → Type 0
  Distinct same [] = Unit
  Distinct same (x ∷ xs) = (some_of (same x) xs ≡ false) × Distinct same xs

  some_of-append :
      (p : A → Bool) (xs ys : List A)
      → some_of p xs ≡ false
      → some_of p ys ≡ false
      → some_of p (xs ++ ys) ≡ false
  some_of-append p [] ys h k = k
  some_of-append p (x ∷ xs) ys h k = ground (arith, some_of-append p xs ys)

  -- One more element at the end, unlike all others.
  pub Distinct-append :
      (same : A → A → Bool) (xs : List A) (y : A)
      → Distinct same xs
      → some_of (λ x. same x y) xs ≡ false
      → Distinct same (xs ++ y ∷ [])
  Distinct-append same [] y d h = (refl, tt)
  Distinct-append same (x ∷ xs) y d h = (
    some_of-append (same x) xs (y ∷ []) d.0 (ground arith),
    Distinct-append same xs y d.1 (ground arith),
  )
