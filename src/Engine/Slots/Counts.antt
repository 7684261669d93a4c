-- ===== src/Engine/Slots/Counts.antt =====
-- Numbers of pieces and of messages in a state of the slots (engine.go).
use tickr.Prelude.{
  ℕ, zero, suc, ◌+◌, String, List, [], ◌∷◌, ◌++◌, Bool, true, false, Option, none, some,
  if◌then◌else◌, str_eq, ◌≡◌, refl, arith,
}
use tickr.Engine.Slots.{Piece, Stage, behind, take_nth}

abbrev pub one_if : Bool → ℕ
one_if true = 1
one_if false = 0

-- The sum of a number over a list.
abbrev pub total {ℓ} : {A : Type ℓ} → (A → ℕ) → List A → ℕ
total f [] = 0
total f (x ∷ xs) = f x + total f xs

pub total-append {ℓ} :
    {A : Type ℓ} (f : A → ℕ) (xs ys : List A) → total f (xs ++ ys) ≡ total f xs + total f ys
total-append f [] ys = omega arith
total-append f (x ∷ xs) ys = omega (arith, total-append f xs ys)

behind-total {ℓ} :
    {A : Type ℓ} (f : A → ℕ) (y : A) (ys : List A) (x : A) (rest : List A) (o : Option (A × List A))
    → ((z : A) (zs : List A) → o ≡ some (z, zs) → total f ys ≡ f z + total f zs)
    → behind y o ≡ some (x, rest)
    → f y + total f ys ≡ f x + total f rest
behind-total f y ys x rest none all h = absurd (ground arith)
behind-total f y ys x rest (some (z, zs)) all h = ground (arith, all z zs refl)

-- Taking an element out takes its number away.
pub total-take_nth {ℓ} :
    {A : Type ℓ} (f : A → ℕ) (n : ℕ) (xs : List A) (x : A) (rest : List A)
    → take_nth n xs ≡ some (x, rest)
    → total f xs ≡ f x + total f rest
unfolding take_nth
total-take_nth f n [] x rest h = ground arith
total-take_nth f zero (y ∷ ys) x rest h = ground arith
total-take_nth f (suc n) (y ∷ ys) x rest h =
    behind-total f y ys x rest (take_nth n ys) (λ z zs e. total-take_nth f n ys z zs e) h

-- A handler that has its place in the pool, or one of the type.
abbrev pub is_pooled : Stage → Bool
is_pooled Stage.unpooled = false
is_pooled _ = true

abbrev pub is_working : Stage → Bool
is_working Stage.working = true
is_working _ = false

abbrev pub pooled : Piece × Stage → ℕ
pooled (p, stage) = one_if (is_pooled stage)

abbrev pub typed : String → Piece × Stage → ℕ
typed t (p, stage) = if str_eq t p.event_type then one_if (is_working stage) else 0

abbrev pub held_number : Option Piece → ℕ
held_number none = 0
held_number (some p) = 1
