-- ===== src/Postgres/Invariant/History.antt =====
-- The primary key (message_id, seq) of tickr_history stays unique: each INSERT takes a number
-- above the largest one of its message.
use tickr.Prelude.{
  ℕ, ◌<◌, String, false, List, [], ◌∷◌, ◌++◌, map, Option, none, ◌≡◌, refl, subst, ap, ◌⊎◌, inl,
  inr, Bool-cases, some_of, select, max, arith,
}
use mathlib.Core.List.{append-nil}
use tickr.Prelude.Distinct.{Distinct, Distinct-append}
use tickr.Message.{Status}
use tickr.Postgres.Table.{Row, HistoryRow, Db, find_row, max_seq}
use tickr.Postgres.Statements.{
  holds, append_history_sql, succeed_row, succeed_sql, retry_row, dead_row, release_row,
  release_sql, fail_history, fail_retry_sql, fail_dead_sql,
}
use tickr.Postgres.Rows.{UniqueIds}
use tickr.Postgres.Invariant.{same_entry}

entry-above :
    (hs : List HistoryRow) (e : HistoryRow)
    → max_seq e.message_id hs < e.seq
    → some_of (λ x. same_entry x e) hs ≡ false
unfolding max_seq
entry-above [] e h = refl
entry-above (x ∷ hs) e h = ground (arith, entry-above hs e)

-- An entry above the largest number of its message.
append-entries :
    (hs : List HistoryRow) (e : HistoryRow)
    → max_seq e.message_id hs < e.seq
    → Distinct same_entry hs
    → Distinct same_entry (hs ++ e ∷ [])
append-entries hs e h d = Distinct-append same_entry hs e d (entry-above hs e h)

max_seq-append :
    (i : ℕ) (hs : List HistoryRow) (e : HistoryRow)
    → e.message_id ≡ i
    → max_seq i (hs ++ e ∷ []) ≡ max (max_seq i hs) e.seq
unfolding max_seq
max_seq-append i [] e h = ground arith
max_seq-append i (x ∷ hs) e h = ground (arith, max_seq-append i hs e h)

select-holds-none : (i a : ℕ) (ms : List Row) → find_row i ms ≡ none → select (holds i a) ms ≡ []
unfolding find_row holds
select-holds-none i a [] h = refl
select-holds-none i a (r ∷ rs) h = ground (arith, select-holds-none i a rs)

-- An UPDATE by primary key touches at most one row, and it has that key.
pub select-holds :
    (i a : ℕ) (ms : List Row)
    → UniqueIds ms
    → (select (holds i a) ms ≡ []) ⊎ ((r : Row) × (r.id ≡ i) × (select (holds i a) ms ≡ r ∷ []))
select-holds i a [] u = inl refl
select-holds i a (r ∷ rs) u = elim (Bool-cases (holds i a r)) [
  | inr e ↦ rw e (select-holds i a rs u.1)
  | inl e ↦
      let same : r.id ≡ i = unfold holds in (ground arith) in
      rw (e, select-holds-none i a rs (subst (λ j. find_row j rs ≡ none) same u.0))
        (inr (r, same, refl))
]

module _ (db : Db) (d : Distinct same_entry db.history) where
  pub append_history_sql-entries :
      (now i : ℕ) (from : Option Status) (to : Status) (attempt : ℕ) (error worker : String)
      → Distinct same_entry (append_history_sql now i from to attempt error worker db).history
  unfolding append_history_sql
  append_history_sql-entries now i from to attempt error worker =
      append-entries db.history _ (omega arith) d

  module _ (now i attempt : ℕ) (u : UniqueIds db.messages) where
    pub succeed_sql-entries :
        (worker : String) → Distinct same_entry (succeed_sql now i attempt worker db).history
    unfolding succeed_sql succeed_row
    succeed_sql-entries worker = elim (select-holds i attempt db.messages u) [
      | inl e ↦ rw (e, append-nil) d
      | inr (r, same, e) ↦ rw e (append-entries db.history _ (rw same (omega arith)) d)
    ]

    pub release_sql-entries :
        (reason worker : String)
        → Distinct same_entry (release_sql now i attempt reason worker db).history
    unfolding release_sql release_row
    release_sql-entries reason worker = elim (select-holds i attempt db.messages u) [
      | inl e ↦ rw (e, append-nil) d
      | inr (r, same, e) ↦ rw e (append-entries db.history _ (rw same (omega arith)) d)
    ]

    fail_history-entries :
        (error worker : String) (to : Status) (updated : List Row)
        → (updated ≡ []) ⊎ ((r : Row) × (updated ≡ r ∷ []))
        → Distinct same_entry (fail_history now i attempt error worker to updated db.history)
    unfolding fail_history
    fail_history-entries error worker to updated (inl e) =
        rw (e, append-nil) (append-entries db.history _ (omega arith) d)
    fail_history-entries error worker to updated (inr (r, e)) = rw e (
        append-entries _ _ (omega (arith, max_seq-append i db.history _ refl))
          (append-entries db.history _ (omega arith) d))

    mapped :
        (f : Row → Row) (rs : List Row)
        → (rs ≡ []) ⊎ ((r : Row) × (r.id ≡ i) × (rs ≡ r ∷ []))
        → (map f rs ≡ []) ⊎ ((r : Row) × (map f rs ≡ r ∷ []))
    mapped f rs (inl e) = inl (ap (map f) e)
    mapped f rs (inr (r, same, e)) = inr (f r, ap (map f) e)

    pub fail_retry_sql-entries :
        (error : String) (next : ℕ) (worker : String)
        → Distinct same_entry (fail_retry_sql now i attempt error next worker db).history
    unfolding fail_retry_sql
    fail_retry_sql-entries error next worker =
        fail_history-entries error worker Status.retrying _
          (mapped (retry_row now error next) _ (select-holds i attempt db.messages u))

    pub fail_dead_sql-entries :
        (error worker : String)
        → Distinct same_entry (fail_dead_sql now i attempt error worker db).history
    unfolding fail_dead_sql
    fail_dead_sql-entries error worker =
        fail_history-entries error worker Status.dead _
          (mapped (dead_row now error) _ (select-holds i attempt db.messages u))
