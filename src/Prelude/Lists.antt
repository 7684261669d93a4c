-- ===== src/Prelude/Lists.antt =====
-- Lists over the native numbers, under the library's names, and predicates on lists.
use Prim.Native.Nat.{ℕ, zero, suc, ◌+◌, ◌-◌, ◌≤◌, min}
use mathlib.Core.Path.{◌≡◌, refl, ap}
use mathlib.Core.Bool.{Bool, true, false}
use mathlib.Core.Option.{Option, none, some}
use mathlib.Core.List.{List, [], ◌∷◌, ◌++◌, map}
use native.Mathlib.Omega.{arith}
use tickr.Prelude.Tests.{if◌then◌else◌}

module _ {ℓ} {A : Type ℓ} where
  abbrev pub length : List A → ℕ
  length [] = 0
  length (x ∷ xs) = suc (length xs)

  abbrev pub take : ℕ → List A → List A
  take zero xs = []
  take (suc n) [] = []
  take (suc n) (x ∷ xs) = x ∷ take n xs

  abbrev pub drop : ℕ → List A → List A
  drop zero xs = xs
  drop (suc n) [] = []
  drop (suc n) (x ∷ xs) = drop n xs

  -- The rows that pass a Boolean test.
  abbrev pub select : (A → Bool) → List A → List A
  select p [] = []
  select p (x ∷ xs) = if p x then x ∷ select p xs else select p xs

  -- A value that may be missing, in front of a list.
  abbrev pub cons_some : Option A → List A → List A
  cons_some none xs = xs
  cons_some (some x) xs = x ∷ xs

  -- Some element passes the test.
  abbrev pub some_of : (A → Bool) → List A → Bool
  some_of p [] = false
  some_of p (x ∷ xs) = if p x then true else some_of p xs

abbrev pub map_option {ℓ κ} : {A : Type ℓ} {B : Type κ} → (A → B) → Option A → Option B
map_option f none = none
map_option f (some a) = some (f a)

module _ {ℓ κ} {A : Type ℓ} (P : A → Type κ) where
  abbrev pub All : List A → Type κ
  All [] = Unit
  All (x ∷ xs) = P x × All xs

module _ {ℓ} {A : Type ℓ} where
  pub length-append : (xs ys : List A) → length (xs ++ ys) ≡ length xs + length ys
  length-append [] ys = omega arith
  length-append (x ∷ xs) ys = omega (arith, length-append xs ys)

  pub take-append-drop : (n : ℕ) (xs : List A) → take n xs ++ drop n xs ≡ xs
  take-append-drop zero xs = refl
  take-append-drop (suc n) [] = refl
  take-append-drop (suc n) (x ∷ xs) = ap (◌∷◌ x) (take-append-drop n xs)

  pub length-take : (n : ℕ) (xs : List A) → length (take n xs) ≡ min n (length xs)
  length-take zero xs = omega arith
  length-take (suc n) [] = omega arith
  length-take (suc n) (x ∷ xs) = omega (arith, length-take n xs)

  pub length-drop : (n : ℕ) (xs : List A) → length (drop n xs) ≡ length xs - n
  length-drop zero xs = omega arith
  length-drop (suc n) [] = omega arith
  length-drop (suc n) (x ∷ xs) = omega (arith, length-drop n xs)

  pub length-map {κ} : {B : Type κ} (xs : List A) (f : A → B) → length (map f xs) ≡ length xs
  length-map [] f = refl
  length-map (x ∷ xs) f = ap suc (length-map xs f)

  pub take_of_length-le : (n : ℕ) (xs : List A) → length xs ≤ n → take n xs ≡ xs
  take_of_length-le zero [] h = refl
  take_of_length-le (suc k) [] h = refl
  take_of_length-le zero (y ∷ ys) h = absurd (omega arith)
  take_of_length-le (suc k) (y ∷ ys) h = cc (take_of_length-le k ys (omega arith))

  pub length-select-le : (p : A → Bool) (xs : List A) → length (select p xs) ≤ length xs
  length-select-le p [] = omega arith
  length-select-le p (x ∷ xs) = ground (arith, length-select-le p xs)

module _ {ℓ κ} {A : Type ℓ} (P : A → Type κ) where
  pub All-append : (xs ys : List A) → All P xs → All P ys → All P (xs ++ ys)
  All-append [] ys h k = k
  All-append (x ∷ xs) ys h k = (h.0, All-append xs ys h.1 k)

  pub All-select : (p : A → Bool) (xs : List A) → All P xs → All P (select p xs)
  All-select p [] h = h
  All-select p (x ∷ xs) h = ground (arith, All-select p xs h.1)
