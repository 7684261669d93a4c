-- ===== src/Postgres/Ordering.antt =====
-- ORDER BY ... LIMIT: what is taken comes before what is left.
use tickr.Prelude.{
  ℕ, zero, suc, Bool, true, false, List, [], ◌∷◌, some, ◌≡◌, refl, inl, inr, Bool-cases, All,
  select, take, drop, length, ==_iff, ==_refl, ◌==◌, arith,
}
use tickr.Postgres.Table.{Row, find_row, insert_by, order_by, id_in, ids_of}
use tickr.Postgres.Rows.{All-insert_by}

-- A strict test whose negation is transitive, as that of a linear preorder.
pub record IsOrder (before : Row → Row → Bool) : Type 0 where
  pub asym : (x y : Row) → before x y ≡ true → before y x ≡ false
  pub negtrans : (x y z : Row) → before z y ≡ false → before y x ≡ false → before z x ≡ false

-- No later element is before an earlier one.
abbrev pub IsSorted : (Row → Row → Bool) → List Row → Type 0
IsSorted before [] = Unit
IsSorted before (x ∷ xs) = All (λ y. before y x ≡ false) xs × IsSorted before xs

All-weaken {κ η} :
    {P : Row → Type κ} {Q : Row → Type η} (xs : List Row)
    → ((x : Row) → P x → Q x)
    → All P xs
    → All Q xs
All-weaken [] f h = tt
All-weaken (x ∷ xs) f h = (f x h.0, All-weaken xs f h.1)

module _ (before : Row → Row → Bool) (o : IsOrder before) where
  insert_by-IsSorted :
      (x : Row) (xs : List Row) → IsSorted before xs → IsSorted before (insert_by before x xs)
  unfolding insert_by
  insert_by-IsSorted x [] s = (tt, tt)
  insert_by-IsSorted x (y ∷ ys) s = elim (Bool-cases (before y x)) [
    | inl e ↦ rw e (
      All-insert_by (λ z. before z y ≡ false) before x ys (o.asym y x e) s.0,
      insert_by-IsSorted x ys s.1,
    )
    | inr e ↦ rw e ((e, All-weaken ys (λ z h. o.negtrans x y z h e) s.0), s)
  ]

  pub order_by-IsSorted : (xs : List Row) → IsSorted before (order_by before xs)
  unfolding order_by
  order_by-IsSorted [] = tt
  order_by-IsSorted (x ∷ xs) = insert_by-IsSorted x (order_by before xs) (order_by-IsSorted xs)

pub All-drop {κ} : (P : Row → Type κ) (n : ℕ) (xs : List Row) → All P xs → All P (drop n xs)
All-drop P zero xs h = h
All-drop P (suc n) [] h = tt
All-drop P (suc n) (x ∷ xs) h = All-drop P n xs h.1

-- Nothing that is left out is before something that is taken.
pub take-before-drop :
    (before : Row → Row → Bool) (n : ℕ) (xs : List Row)
    → IsSorted before xs
    → All (λ q. All (λ r. before r q ≡ false) (drop n xs)) (take n xs)
take-before-drop before zero xs s = tt
take-before-drop before (suc n) [] s = tt
take-before-drop before (suc n) (x ∷ xs) s = (All-drop _ n xs s.0, take-before-drop before n xs s.1)

-- A listed id is that of an element.
pub id_in-element {κ} :
    {P : Row → Type κ} (xs : List Row) (i : ℕ)
    → All P xs
    → id_in (ids_of xs) i ≡ true
    → (x : Row) × P x × (x.id ≡ i)
id_in-element [] i all h = absurd (ground arith)
id_in-element (x ∷ xs) i all h = elim (Bool-cases (x.id == i)) [
  | inl e ↦ (x, all.0, (==_iff x.id i).0 e)
  | inr e ↦ id_in-element xs i all.1 (rw e at h)
]

pub id_in-drop :
    (n : ℕ) (xs : List Row) (i : ℕ)
    → id_in (ids_of xs) i ≡ true
    → id_in (ids_of (take n xs)) i ≡ false
    → id_in (ids_of (drop n xs)) i ≡ true
id_in-drop zero xs i h k = h
id_in-drop (suc n) [] i h k = h
id_in-drop (suc n) (x ∷ xs) i h k = ground (arith, id_in-drop n xs i)

id_in-insert_by :
    (before : Row → Row → Bool) (x : Row) (xs : List Row) (i : ℕ)
    → id_in (ids_of (insert_by before x xs)) i ≡ id_in (ids_of (x ∷ xs)) i
unfolding insert_by
id_in-insert_by before x [] i = refl
id_in-insert_by before x (y ∷ ys) i = ground (arith, id_in-insert_by before x ys i)

pub id_in-order_by :
    (before : Row → Row → Bool) (xs : List Row) (i : ℕ)
    → id_in (ids_of (order_by before xs)) i ≡ id_in (ids_of xs) i
unfolding order_by
id_in-order_by before [] i = refl
id_in-order_by before (x ∷ xs) i =
    ground (arith, id_in-insert_by before x (order_by before xs) i, id_in-order_by before xs i)

length-insert_by :
    (before : Row → Row → Bool) (x : Row) (xs : List Row)
    → length (insert_by before x xs) ≡ suc (length xs)
unfolding insert_by
length-insert_by before x [] = refl
length-insert_by before x (y ∷ ys) = ground (arith, length-insert_by before x ys)

pub length-order_by :
    (before : Row → Row → Bool) (xs : List Row) → length (order_by before xs) ≡ length xs
unfolding order_by
length-order_by before [] = refl
length-order_by before (x ∷ xs) =
    omega (arith, length-insert_by before x (order_by before xs), length-order_by before xs)

-- A stored row that passes is among the selected ones.
pub id_in-select :
    (p : Row → Bool) (ms : List Row) (r : Row)
    → find_row r.id ms ≡ some r
    → p r ≡ true
    → id_in (ids_of (select p ms)) r.id ≡ true
unfolding find_row
id_in-select p [] r found h = absurd (ground arith)
id_in-select p (m ∷ ms) r found h = ground (arith, id_in-select p ms r, ==_refl r.id)
