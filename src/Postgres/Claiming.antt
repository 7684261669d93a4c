-- ===== src/Postgres/Claiming.antt =====
-- Which messages claimSQL takes, and in which order (storage/postgres/postgres.go).
use tickr.Prelude.{
  ℕ, ◌≤◌, String, Bool, true, false, List, [], ◌∷◌, Option, none, some, ◌≡◌, refl, sym, subst, ◌∙◌,
  inl, inr, Bool-cases, All, length, select, take, drop, length-take, length-map, ℤ,
  take_of_length-le, arith, if◌then◌else◌, map_option,
}
use tickr.Postgres.Table.{Row, HistoryRow, Db, find_row, order_by, id_in, ids_of}
use tickr.Postgres.Statements.{eligible, due_before, claim_picks, claim_row, claim_sql}
use tickr.Postgres.Rows.{
  find_row_self, UniqueIds, Stored, select-Stored, All-order_by, All-take, id_in-Stored,
  find_row-update,
}
use tickr.Postgres.Ordering.{
  IsOrder, order_by-IsSorted, take-before-drop, id_in-element, All-drop, id_in-drop, id_in-order_by,
  length-order_by, id_in-select,
}
use tickr.Postgres.Lifecycle.Statements.{claim_picks-Stored}

due_before-IsOrder : IsOrder due_before
unfolding due_before
due_before-IsOrder = record { asym = λ x y h. ground arith; negtrans = λ x y z h k. ground arith }

stored-same :
    (ms : List Row) (q x : Row)
    → find_row q.id ms ≡ some q
    → find_row x.id ms ≡ some x
    → x.id ≡ q.id
    → x ≡ q
stored-same ms q x fq fx e =
    let p : some x ≡ some q = sym (subst (λ j. find_row j ms ≡ some x) e fx) ∙ fq in cc

All-both {κ η} :
    (P : Row → Type κ) (Q : Row → Type η) (xs : List Row)
    → All P xs
    → All Q xs
    → All (λ x. P x × Q x) xs
All-both P Q [] h k = tt
All-both P Q (x ∷ xs) h k = ((h.0, k.0), All-both P Q xs h.1 k.1)

same-before : (q r x y : Row) → x ≡ q → y ≡ r → due_before y x ≡ false → due_before r q ≡ false
same-before q r x y ex ey h = rw (← ex, ← ey) h

module _ (now : ℕ) (types : Option (List String)) (batch : ℕ) (shard : Option ℕ) (ms : List Row)
    (u : UniqueIds ms) where
  abbrev ordered : List Row
  ordered = order_by due_before (select (eligible now types shard) ms)

  abbrev taken : Row → Bool
  taken r = id_in (ids_of (claim_picks now types batch shard ms)) r.id

  claim_picks-eligible :
      (r : Row) → find_row r.id ms ≡ some r → taken r ≡ true → eligible now types shard r ≡ true
  claim_picks-eligible r found h =
      id_in-Stored ms (claim_picks now types batch shard ms) (eligible now types shard) r
        (claim_picks-Stored now types batch shard ms u) found h

  ordered-listed :
      (r : Row)
      → find_row r.id ms ≡ some r
      → eligible now types shard r ≡ true
      → id_in (ids_of ordered) r.id ≡ true
  ordered-listed r found h =
      id_in-order_by due_before (select (eligible now types shard) ms) r.id
      ∙ id_in-select (eligible now types shard) ms r found h

  claim_picks_all :
      (r : Row)
      → length (select (eligible now types shard) ms) ≤ batch
      → find_row r.id ms ≡ some r
      → eligible now types shard r ≡ true
      → taken r ≡ true
  unfolding claim_picks
  claim_picks_all r room found h =
      rw
        (take_of_length-le batch ordered
          (omega (arith, length-order_by due_before (select (eligible now types shard) ms))))
        (ordered-listed r found h)

  -- With room for all, exactly the eligible rows are taken.
  claim_picks_exact :
      (r : Row)
      → length (select (eligible now types shard) ms) ≤ batch
      → find_row r.id ms ≡ some r
      → taken r ≡ eligible now types shard r
  claim_picks_exact r room found = elim (Bool-cases (eligible now types shard r)) [
    | inl e ↦ claim_picks_all r room found e ∙ sym e
    | inr e ↦ elim (Bool-cases (taken r)) [
      | inl t ↦ absurd (ground (arith, claim_picks-eligible r found t))
      | inr t ↦ t ∙ sym e
    ]
  ]

  -- When the batch is too small for all, no eligible message that is passed over comes before one
  -- that is taken, in the order of process_at and then id.
  pub claim_picks_oldest_first :
      (q r : Row)
      → find_row q.id ms ≡ some q
      → find_row r.id ms ≡ some r
      → taken q ≡ true
      → eligible now types shard r ≡ true
      → taken r ≡ false
      → due_before r q ≡ false
  unfolding claim_picks
  claim_picks_oldest_first q r found_q found_r hq hr passed =
      let sorted =
        order_by-IsSorted due_before due_before-IsOrder (select (eligible now types shard) ms) in
      let stored =
        All-order_by (Stored ms (eligible now types shard)) due_before _
          (select-Stored (eligible now types shard) ms u) in
      let (x, px, ex) =
        id_in-element (take batch ordered) q.id
          (All-both _ _ (take batch ordered) (take-before-drop due_before batch ordered sorted)
            (All-take _ batch ordered stored))
          hq in
      let (y, py, ey) =
        id_in-element (drop batch ordered) r.id
          (All-both _ _ (drop batch ordered) px.0 (All-drop _ batch ordered stored))
          (id_in-drop batch ordered r.id (ordered-listed r found_r hr) passed) in
      same-before q r x y (stored-same ms q x found_q px.1.0 ex)
        (stored-same ms r y found_r py.1.0 ey) py.0

  -- A claim hands over at most `batch` messages.
  claim_sql_bounded :
      (worker : String) (lease : ℤ) (history : List HistoryRow) (notified : List String)
      → length
          (claim_sql now types batch worker lease shard
            (record { messages = ms; history = history; notified = notified })).0
        ≤ batch
  unfolding claim_sql claim_picks
  claim_sql_bounded worker lease history notified = omega (
    arith,
    length-map (take batch ordered) (claim_row now worker lease),
    length-take batch ordered,
  )

pub claim_sql_exact :
    (now : ℕ) (types : Option (List String)) (batch : ℕ) (worker : String) (lease : ℤ)
    (shard : Option ℕ) (db : Db) (i : ℕ)
    → UniqueIds db.messages
    → length (select (eligible now types shard) db.messages) ≤ batch
    → find_row i (claim_sql now types batch worker lease shard db).1.messages
      ≡ map_option
          (λ r. if eligible now types shard r then claim_row now worker lease r else r)
          (find_row i db.messages)
unfolding claim_sql
claim_sql_exact now types batch worker lease shard db i u room =
    find_row-update i _ (claim_row now worker lease) db.messages (λ r. unfold claim_row in refl)
    ∙ at_row (find_row i db.messages) refl
  where
    picks : List Row
    picks = claim_picks now types batch shard db.messages

    at_row :
        (o : Option Row)
        → find_row i db.messages ≡ o
        → map_option (λ r. if id_in (ids_of picks) r.id then claim_row now worker lease r else r) o
          ≡ map_option
              (λ r. if eligible now types shard r then claim_row now worker lease r else r)
              o
    at_row none e = refl
    at_row (some r) e = rw (
        claim_picks_exact now types batch shard db.messages u r room
          (find_row_self i db.messages r e))
