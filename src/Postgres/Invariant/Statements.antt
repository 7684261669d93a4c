-- ===== src/Postgres/Invariant/Statements.antt =====
-- Each statement keeps the invariant.
use tickr.Prelude.{
  ℕ, ◌<◌, String, Bool, true, List, [], ◌∷◌, Option, ◌≡◌, refl, ap, subst, inl, inr, Bool-cases,
  Option-cases, All, All-append, some_of, select, take, ℤ,
}
use tickr.Prelude.Distinct.{Distinct, Distinct-append}
use tickr.Message.{Status, EnqueueParams}
use tickr.Postgres.Table.{Row, HistoryRow, Db, find_row, update_where, id_in, ids_of}
use tickr.Postgres.Statements.{
  conflicts, eligible, claim_picks, claim_row, claim_sql, succeed_row, succeed_no_history_sql,
  retry_row, dead_row, fail_retry_no_history_sql, fail_dead_no_history_sql, release_row,
  release_no_history_sql, extend_row, extend_sql, requeue_row, requeue_sql, lease_expired,
  reclaim_row, reclaim_sql, purge_picks, purge_sql, purge_history_sql, append_history_sql,
  enqueue_sql,
}
use tickr.Postgres.Session.{Config}
use tickr.Postgres.Enqueue.{new_row}
use tickr.Postgres.Rows.{
  UniqueIds, KeepsId, UniqueIds-update, UniqueIds-append, UniqueIds-delete, Stored, select-Stored,
  id_in-Stored,
}
use tickr.Postgres.Lifecycle.Statements.{claim_picks-Stored, reclaim_picks-Stored}
use tickr.Postgres.Invariant.{RowOk, Inv, clash, same_entry}
use tickr.Postgres.Invariant.Messages.{
  All-update, All-delete, All-of, claim_row-RowOk, succeed_row-RowOk, retry_row-RowOk,
  dead_row-RowOk, release_row-RowOk, extend_row-RowOk, requeue_row-RowOk, reclaim_row-RowOk,
  new_row-RowOk,
}
use tickr.Postgres.Invariant.Keys.{KeepsClash, Distinct-update, Distinct-delete}
use tickr.Postgres.Invariant.History.{append_history_sql-entries}

-- An UPDATE of the messages, with some new history.
update-Inv :
    (c : Config) (db : Db) (hs : List HistoryRow) (names : List String) (p : Row → Bool)
    (f : Row → Row)
    → Inv c db
    → KeepsId f
    → KeepsClash f
    → All (λ r. p r ≡ true → RowOk r → RowOk (f r)) db.messages
    → Distinct same_entry hs
    → Inv c (record { messages = update_where p f db.messages; history = hs; notified = names })
update-Inv c db hs names p f v k kc g d = record {
  ids = UniqueIds-update p f db.messages k v.ids;
  rows = All-update RowOk p f db.messages g v.rows;
  keys = λ e. Distinct-update p f db.messages kc (v.keys e);
  entries = d;
}

-- Of picked rows the picking test holds.
picked-All :
    (ms picks : List Row) (test : Row → Bool) (f : Row → Row)
    → UniqueIds ms
    → All (Stored ms test) picks
    → ((r : Row) → test r ≡ true → RowOk r → RowOk (f r))
    → (rs : List Row) → All (Stored ms (λ _. true)) rs
    → All (λ r. id_in (ids_of picks) r.id ≡ true → RowOk r → RowOk (f r)) rs
picked-All ms picks test f u all step [] k = tt
picked-All ms picks test f u all step (r ∷ rs) k = (
  λ e. step r (id_in-Stored ms picks test r all k.0.0 e),
  picked-All ms picks test f u all step rs k.1,
)

select-all : (ms : List Row) → select (λ _. true) ms ≡ ms
select-all [] = refl
select-all (r ∷ rs) = ap (◌∷◌ r) (select-all rs)

rows-Stored : (ms : List Row) → UniqueIds ms → All (Stored ms (λ _. true)) ms
rows-Stored ms u =
    subst (All (Stored ms (λ _. true))) (select-all ms) (select-Stored (λ _. true) ms u)

module _ (c : Config) (db : Db) (v : Inv c db) where
  pub claim_sql-Inv :
      (now : ℕ) (types : Option (List String)) (batch : ℕ) (worker : String) (lease : ℤ)
      (shard : Option ℕ)
      → Inv c (claim_sql now types batch worker lease shard db).1
  unfolding claim_sql
  claim_sql-Inv now types batch worker lease shard =
      update-Inv c db db.history db.notified _ (claim_row now worker lease) v
        (λ r. unfold claim_row in refl)
        (λ a b. unfold claim_row conflicts in refl, λ a b. unfold claim_row conflicts in refl)
        (picked-All db.messages (claim_picks now types batch shard db.messages)
          (eligible now types shard) (claim_row now worker lease) v.ids
          (claim_picks-Stored now types batch shard db.messages v.ids)
          (claim_row-RowOk now worker lease types shard) db.messages
          (rows-Stored db.messages v.ids))
        v.entries

  pub reclaim_sql-Inv : (now limit : ℕ) → Inv c (reclaim_sql now limit db).1
  unfolding reclaim_sql
  reclaim_sql-Inv now limit =
      update-Inv c db db.history db.notified _ (reclaim_row now) v (λ r. unfold reclaim_row in refl)
        (λ a b. unfold reclaim_row conflicts in refl, λ a b. unfold reclaim_row conflicts in refl)
        (picked-All db.messages (take limit (select (lease_expired now) db.messages))
          (lease_expired now) (reclaim_row now) v.ids
          (reclaim_picks-Stored now limit db.messages v.ids) (reclaim_row-RowOk now) db.messages
          (rows-Stored db.messages v.ids))
        v.entries

  pub purge_sql-Inv : (before limit : ℕ) → Inv c (purge_sql before limit db).1
  unfolding purge_sql
  purge_sql-Inv before limit =
      let gone = λ (r : Row). id_in (ids_of (purge_picks before limit db.messages)) r.id in
      record {
        ids = UniqueIds-delete gone db.messages v.ids;
        rows = All-delete RowOk gone db.messages v.rows;
        keys = λ e. Distinct-delete gone clash db.messages (v.keys e);
        entries = v.entries;
      }

  pub purge_history_sql-Inv : (before limit : ℕ) → Inv c (purge_history_sql before limit db).1
  unfolding purge_history_sql
  purge_history_sql-Inv before limit = record {
    ids = v.ids;
    rows = v.rows;
    keys = v.keys;
    entries = Distinct-delete _ same_entry db.history v.entries;
  }

  pub append_history_sql-Inv :
      (now i : ℕ) (from : Option Status) (to : Status) (attempt : ℕ) (error worker : String)
      → Inv c (append_history_sql now i from to attempt error worker db)
  unfolding append_history_sql
  append_history_sql-Inv now i from to attempt error worker = record {
    ids = v.ids;
    rows = v.rows;
    keys = v.keys;
    entries = append_history_sql-entries db v.entries now i from to attempt error worker;
  }

  pub extend_sql-Inv :
      (now i : ℕ) (worker : String) (until : ℕ) → Inv c (extend_sql now i worker until db).1
  unfolding extend_sql
  extend_sql-Inv now i worker until =
      update-Inv c db db.history db.notified _ (extend_row now until) v
        (λ r. unfold extend_row in refl)
        (λ a b. unfold extend_row conflicts in refl, λ a b. unfold extend_row conflicts in refl)
        (All-of _ db.messages (extend_row-RowOk now until i worker)) v.entries

  pub requeue_sql-Inv : (now i next : ℕ) → Inv c (requeue_sql now i next db).1
  unfolding requeue_sql
  requeue_sql-Inv now i next =
      update-Inv c db db.history db.notified _ (requeue_row now next) v
        (λ r. unfold requeue_row in refl)
        (λ a b. unfold requeue_row conflicts in refl, λ a b. unfold requeue_row conflicts in refl)
        (All-of _ db.messages (requeue_row-RowOk now next i)) v.entries

  pub enqueue_sql-Inv :
      (now id shard : ℕ) (p : EnqueueParams)
      → shard < 16
      → Inv c (enqueue_sql c.partitioned (new_row now id shard p) db).1
  unfolding enqueue_sql
  enqueue_sql-Inv now id shard p lt =
      let new = new_row now id shard p in
      elim (Bool-cases (some_of (conflicts c.partitioned new) db.messages)) [
        | inl q ↦ rw q v
        | inr q ↦ elim (Option-cases (find_row new.id db.messages)) [
          | inr (x, n) ↦ rw (q, n) v
          | inl n ↦
              rw (q, n)
                (record {
                  ids = UniqueIds-append db.messages new v.ids n;
                  rows =
                      All-append RowOk db.messages (new ∷ []) v.rows
                        (new_row-RowOk now id shard p lt, tt);
                  keys = λ e. Distinct-append clash db.messages new (v.keys e) (rw e at q);
                  entries = v.entries;
                })
        ]
      ]

  -- The statements on one HANDLING message, with whatever history they write.
  module _ (now i attempt : ℕ) (hs : List HistoryRow) (d : Distinct same_entry hs) where
    pub succeed_rows-Inv : Inv c (record (succeed_no_history_sql now i attempt db) { history = hs })
    unfolding succeed_no_history_sql
    succeed_rows-Inv =
        update-Inv c db hs db.notified _ (succeed_row now) v (λ r. unfold succeed_row in refl)
          (λ a b. unfold succeed_row conflicts in refl, λ a b. unfold succeed_row conflicts in refl)
          (All-of _ db.messages (succeed_row-RowOk now i attempt)) d

    pub retry_rows-Inv :
        (error : String) (next : ℕ)
        → Inv c (record (fail_retry_no_history_sql now i attempt error next db) { history = hs })
    unfolding fail_retry_no_history_sql
    retry_rows-Inv error next =
        update-Inv c db hs db.notified _ (retry_row now error next) v
          (λ r. unfold retry_row in refl)
          (λ a b. unfold retry_row conflicts in refl, λ a b. unfold retry_row conflicts in refl)
          (All-of _ db.messages (λ r h k. retry_row-RowOk now i attempt r h k error next)) d

    pub dead_rows-Inv :
        (error : String)
        → Inv c (record (fail_dead_no_history_sql now i attempt error db) { history = hs })
    unfolding fail_dead_no_history_sql
    dead_rows-Inv error =
        update-Inv c db hs db.notified _ (dead_row now error) v (λ r. unfold dead_row in refl)
          (λ a b. unfold dead_row conflicts in refl, λ a b. unfold dead_row conflicts in refl)
          (All-of _ db.messages (λ r h k. dead_row-RowOk now i attempt r h k error)) d

    pub release_rows-Inv :
        (reason : String)
        → Inv c (record (release_no_history_sql now i attempt reason db) { history = hs })
    unfolding release_no_history_sql
    release_rows-Inv reason =
        update-Inv c db hs db.notified _ (release_row now reason) v
          (λ r. unfold release_row in refl)
          (λ a b. unfold release_row conflicts in refl, λ a b. unfold release_row conflicts in refl)
          (All-of _ db.messages (λ r h k. release_row-RowOk now i attempt r h k reason)) d
