-- ===== src/Postgres/Rows.antt =====
-- What the SQL clauses do to the row with a given primary key.
use tickr.Prelude.{
  ℕ, List, [], ◌∷◌, ◌++◌, Bool, true, Option, none, some, ◌≡◌, refl, sym, ap, subst, inl, inr,
  Bool-cases, ==_iff, if◌then◌else◌, select, take, map_option, All, arith,
}
use tickr.Postgres.Table.{
  Row, find_row, update_where, delete_where, insert_by, order_by, id_in, ids_of,
}

-- No two rows have one primary key.
abbrev pub UniqueIds : List Row → Type 0
UniqueIds [] = Unit
UniqueIds (r ∷ rs) = (find_row r.id rs ≡ none) × UniqueIds rs

abbrev pub KeepsId : (Row → Row) → Type 0
KeepsId f = (r : Row) → (f r).id ≡ r.id

pub find_row-update :
    (i : ℕ) (p : Row → Bool) (f : Row → Row) (ms : List Row)
    → KeepsId f
    → find_row i (update_where p f ms) ≡ map_option (λ r. if p r then f r else r) (find_row i ms)
unfolding find_row update_where
find_row-update i p f [] k = refl
find_row-update i p f (r ∷ rs) k = ground (arith, k r, find_row-update i p f rs k)

pub UniqueIds-update :
    (p : Row → Bool) (f : Row → Row) (ms : List Row)
    → KeepsId f
    → UniqueIds ms
    → UniqueIds (update_where p f ms)
unfolding update_where
UniqueIds-update p f [] k u = tt
UniqueIds-update p f (r ∷ rs) k u =
    ground (arith, k r, find_row-update r.id p f rs k, UniqueIds-update p f rs k u.1)

abbrev pub or_row : Option Row → Option Row → Option Row
or_row none b = b
or_row (some a) b = some a

pub find_row-append :
    (i : ℕ) (ms ns : List Row) → find_row i (ms ++ ns) ≡ or_row (find_row i ms) (find_row i ns)
unfolding find_row
find_row-append i [] ns = refl
find_row-append i (r ∷ rs) ns = ground (arith, find_row-append i rs ns)

pub UniqueIds-append :
    (ms : List Row) (r : Row) → UniqueIds ms → find_row r.id ms ≡ none → UniqueIds (ms ++ r ∷ [])
unfolding find_row
UniqueIds-append [] r u h = (refl, tt)
UniqueIds-append (m ∷ ms) r u h =
    ground (arith, UniqueIds-append ms r u.1, find_row-append m.id ms (r ∷ []))

abbrev pub unless_row : (Row → Bool) → Option Row → Option Row
unless_row p none = none
unless_row p (some r) = if p r then none else some r

pub find_row-delete_none :
    (i : ℕ) (p : Row → Bool) (ms : List Row)
    → find_row i ms ≡ none
    → find_row i (delete_where p ms) ≡ none
unfolding find_row delete_where
find_row-delete_none i p [] h = refl
find_row-delete_none i p (r ∷ rs) h = ground (arith, find_row-delete_none i p rs)

pub find_row-delete :
    (i : ℕ) (p : Row → Bool) (ms : List Row)
    → UniqueIds ms
    → find_row i (delete_where p ms) ≡ unless_row p (find_row i ms)
unfolding find_row delete_where
find_row-delete i p [] u = refl
find_row-delete i p (r ∷ rs) u =
    ground (arith, find_row-delete i p rs u.1, find_row-delete_none i p rs)

pub UniqueIds-delete :
    (p : Row → Bool) (ms : List Row) → UniqueIds ms → UniqueIds (delete_where p ms)
unfolding delete_where
UniqueIds-delete p [] u = tt
UniqueIds-delete p (r ∷ rs) u =
    ground (arith, UniqueIds-delete p rs u.1, find_row-delete_none r.id p rs)

pub find_row-id : (i : ℕ) (ms : List Row) (r : Row) → find_row i ms ≡ some r → r.id ≡ i
unfolding find_row
find_row-id i [] r h = ground arith
find_row-id i (m ∷ ms) r h = ground (arith, find_row-id i ms r)

pub find_row_self :
    (i : ℕ) (ms : List Row) (r : Row) → find_row i ms ≡ some r → find_row r.id ms ≡ some r
find_row_self i ms r e = subst (λ j. find_row j ms ≡ some r) (sym (find_row-id i ms r e)) e

-- `r` is a row of the table that passes the test.
abbrev pub Stored : List Row → (Row → Bool) → Row → Type 0
Stored ms p r = (find_row r.id ms ≡ some r) × (p r ≡ true)

Stored-cons :
    (m : Row) (ms xs : List Row) (p : Row → Bool)
    → find_row m.id ms ≡ none
    → All (Stored ms p) xs
    → All (Stored (m ∷ ms) p) xs
unfolding find_row
Stored-cons m ms [] p u h = tt
Stored-cons m ms (x ∷ xs) p u h = ground (arith, Stored-cons m ms xs p u h.1)

-- What SELECT ... WHERE gives are rows of the table that pass.
pub select-Stored :
    (p : Row → Bool) (ms : List Row) → UniqueIds ms → All (Stored ms p) (select p ms)
unfolding find_row
select-Stored p [] u = tt
select-Stored p (m ∷ ms) u =
    ground (arith, Stored-cons m ms (select p ms) p u.0 (select-Stored p ms u.1))

module _ {κ} (P : Row → Type κ) where
  pub All-insert_by :
      (before : Row → Row → Bool) (x : Row) (xs : List Row)
      → P x
      → All P xs
      → All P (insert_by before x xs)
  unfolding insert_by
  All-insert_by before x [] h k = (h, tt)
  All-insert_by before x (y ∷ ys) h k = elim (Bool-cases (before y x)) [
    | inl e ↦ rw e (k.0, All-insert_by before x ys h k.1)
    | inr e ↦ rw e (h, k)
  ]

  pub All-order_by :
      (before : Row → Row → Bool) (xs : List Row) → All P xs → All P (order_by before xs)
  unfolding order_by
  All-order_by before [] k = tt
  All-order_by before (x ∷ xs) k =
      All-insert_by before x (order_by before xs) k.0 (All-order_by before xs k.1)

  pub All-take : (n : ℕ) (xs : List Row) → All P xs → All P (take n xs)
  All-take ℕ.zero xs k = tt
  All-take (ℕ.suc n) [] k = tt
  All-take (ℕ.suc n) (x ∷ xs) k = (k.0, All-take n xs k.1)

-- A row whose id is among those of picked rows has passed the picking test.
pub id_in-Stored :
    (ms picks : List Row) (p : Row → Bool) (r : Row)
    → All (Stored ms p) picks
    → find_row r.id ms ≡ some r
    → id_in (ids_of picks) r.id ≡ true
    → p r ≡ true
id_in-Stored ms [] p r all found h = ground arith
id_in-Stored ms (x ∷ xs) p r all found h =
    ground (arith, ==_iff x.id r.id, ap (λ i. find_row i ms), id_in-Stored ms xs p r all.1 found)
