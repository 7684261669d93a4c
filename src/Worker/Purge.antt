-- ===== src/Worker/Purge.antt =====
-- The janitor's purge on the Postgres store ends, and has deleted what it is to delete
-- (tryPurge of worker.go).
use tickr.Prelude.{
  ℕ, zero, suc, ◌≤◌, ◌<◌, String, List, [], ◌∷◌, Bool, true, false, Option, none, some, pos, ◌≡◌,
  refl, ap, ◌∙◌, inl, inr, Bool-cases, All, ==_refl, ltb, length, select, length-take, min, arith,
  or_default,
}
use native.Mathlib.Decide.{dec_lt}
use tickr.Errors.{Error}
use tickr.Storage.{Storage}
use tickr.Engine.{World}
use tickr.Postgres.Table.{Row, Db, find_row, delete_where, id_in, ids_of, order_by}
use tickr.Postgres.Statements.{finished_before, completed_first, purge_picks, purge_sql}
use tickr.Postgres.Rows.{
  UniqueIds, UniqueIds-delete, find_row-delete, unless_row, id_in-Stored, find_row_self, Stored,
}
use tickr.Postgres.Session.{Driver, Session, Config, context}
use tickr.Postgres.Session.Outcomes.{round_trip-made}
use tickr.Postgres.Admin
use tickr.Postgres.Adapter.{adapter}
use tickr.Postgres.Purging.{purge_sql_exact}
use tickr.Postgres.Ordering.{length-order_by}
use tickr.Postgres.Lifecycle.Statements.{purge_picks-Stored}
use tickr.Worker.{after_round, purge_rounds}

length-select-delete-le :
    (p q : Row → Bool) (ms : List Row)
    → length (select p (delete_where q ms)) ≤ length (select p ms)
unfolding delete_where
length-select-delete-le p q [] = omega arith
length-select-delete-le p q (m ∷ ms) = ground (arith, length-select-delete-le p q ms)

-- A delete that meets a selected row leaves fewer of them.
length-select-delete-lt :
    (p q : Row → Bool) (ms : List Row) (r : Row) (i : ℕ)
    → find_row i ms ≡ some r
    → p r ≡ true
    → q r ≡ true
    → length (select p (delete_where q ms)) < length (select p ms)
unfolding delete_where find_row
length-select-delete-lt p q [] r i found hp hq = absurd (ground arith)
length-select-delete-lt p q (m ∷ ms) r i found hp hq =
    ground (arith, ap p, ap q, length-select-delete-le p q ms, length-select-delete-lt p q ms r i)

module _ (before limit : ℕ) (db : Db) (u : UniqueIds db.messages) where
  abbrev left : Db → ℕ
  left x = length (select (finished_before before) x.messages)

  abbrev picks : List Row
  picks = purge_picks before limit db.messages

  length-picks : length picks ≡ min limit (left db)
  unfolding purge_picks
  length-picks = omega (
    arith,
    length-take limit (order_by completed_first (select (finished_before before) db.messages)),
    length-order_by completed_first (select (finished_before before) db.messages),
  )

  shrinks_at :
      (ps : List Row)
      → All (Stored db.messages (finished_before before)) ps
      → 0 < length ps
      → length
          (select (finished_before before) (delete_where (λ r. id_in (ids_of ps) r.id) db.messages))
        < left db
  shrinks_at [] all h = absurd (omega arith)
  shrinks_at (x ∷ ps) all h =
      length-select-delete-lt (finished_before before) _ db.messages x x.id all.0.0 all.0.1
        (ground (arith, ==_refl x.id))

  -- A round that deletes anything leaves less to delete.
  purge_sql-shrinks : 0 < limit → 0 < left db → left (purge_sql before limit db).1 < left db
  unfolding purge_sql
  purge_sql-shrinks h k =
      shrinks_at picks (purge_picks-Stored before limit db.messages u) (omega (arith, length-picks))

  -- What is to be deleted in the end stays the same.
  purge_sql-kept :
      (i : ℕ)
      → unless_row (finished_before before) (find_row i (purge_sql before limit db).1.messages)
        ≡ unless_row (finished_before before) (find_row i db.messages)
  unfolding purge_sql
  purge_sql-kept i =
      ap (unless_row (finished_before before))
        (find_row-delete i (λ r. id_in (ids_of picks) r.id) db.messages u)
      ∙ at_row (find_row i db.messages) refl
    where
      at_row :
          (o : Option Row)
          → find_row i db.messages ≡ o
          → unless_row (finished_before before) (unless_row (λ r. id_in (ids_of picks) r.id) o)
            ≡ unless_row (finished_before before) o
      at_row none e = refl
      at_row (some r) e = elim (Bool-cases (id_in (ids_of picks) r.id)) [
        | inl t ↦
            rw
              (
                t,
                id_in-Stored db.messages picks (finished_before before) r
                    (purge_picks-Stored before limit db.messages u)
                    (find_row_self i db.messages r e) t,
              )
              refl
        | inr t ↦ rw t refl
      ]

  purge_sql-UniqueIds : UniqueIds (purge_sql before limit db).1.messages
  unfolding purge_sql
  purge_sql-UniqueIds = UniqueIds-delete (λ r. id_in (ids_of picks) r.id) db.messages u

-- One round of any purge, by the number that it answers.
module _ {S : Type 0} (storage : Storage S) (purge : S → (ℕ × Error) × S) (batch n : ℕ)
    (w : World S) (t : S) (answer : purge w.store ≡ ((n, none), t)) where
  last_round :
      (k : ℕ) → n < batch → purge_rounds storage purge batch k w ≡ (true, record w { store = t })
  unfolding purge_rounds after_round
  last_round zero few = let e : ltb n batch ≡ true = ground arith in rw (answer, e) refl
  last_round (suc k) few = let e : ltb n batch ≡ true = ground arith in rw (answer, e) refl

  full_round :
      (k : ℕ)
      → batch ≤ n
      → purge_rounds storage purge batch (suc k) w
        ≡ purge_rounds storage purge batch k (record w { store = t })
  unfolding purge_rounds after_round
  full_round k many = let e : ltb n batch ≡ false = ground arith in rw (answer, e) refl

module _ (c : Config) (d : Driver) (lock : String → Session → (Bool × Error) × Session)
    (unlock : String → Session → Session) (before limit : ℕ) where
  abbrev purge : Session → (ℕ × Error) × Session
  purge = (adapter c d lock unlock).purge_terminal before limit

  purge-made :
      (s : Session)
      → 0 < limit
      → s.wires ≡ []
      → purge s ≡ (
        (length (purge_picks before limit s.db.messages), none),
        record s { wires = []; db = (purge_sql before limit s.db).1 },
      )
  unfolding Admin.purge_terminal context purge_sql
  purge-made s h e =
      rw
        (
          round_trip-made (λ (now : ℕ). purge_sql before (or_default (pos limit) 5000)) s e,
          or_default_self limit h,
        )
        refl
    where
      or_default_self : (n : ℕ) → 0 < n → or_default (pos n) 5000 ≡ n
      or_default_self zero h = absurd (omega arith)
      or_default_self (suc n) h = refl

  -- The world after a round.
  abbrev next_world : World Session → World Session
  next_world w = record w {
    store = record w.store { wires = []; db = (purge_sql before limit w.store.db).1 };
  }

  abbrev removed : World Session → ℕ
  removed w = length (purge_picks before limit w.store.db.messages)

  abbrev store : Storage Session
  store = adapter c d lock unlock

  -- The loop has ended by itself and has purged the row of message `i` if it was due.
  abbrev pub Purged : ℕ → ℕ → World Session → Type 0
  Purged k i w =
      let out = purge_rounds store purge limit k w in
      (out.0 ≡ true)
      × (find_row i out.1.store.db.messages
          ≡ unless_row (finished_before before) (find_row i w.store.db.messages))

  done_by :
      (k i : ℕ) (w : World Session)
      → 0 < limit
      → UniqueIds w.store.db.messages
      → w.store.wires ≡ []
      → removed w < limit
      → Purged k i w
  done_by k i w h u e few =
      rw (last_round store purge limit (removed w) w _ (purge-made w.store h e) k few) (
        refl,
        purge_sql_exact before limit w.store.db u i
            (omega (arith, length-picks before limit w.store.db u)),
      )

  -- The janitor's loop of purges ends by itself, and has then deleted exactly the messages that
  -- are SUCCESS or DEAD and were completed before the cutoff: if the batch size is positive, ids
  -- are unique, no round trip fails, and the context lasts for as many rounds as there are such
  -- messages.
  pub purge_rounds_exact :
      (k i : ℕ) (w : World Session)
      → 0 < limit
      → UniqueIds w.store.db.messages
      → w.store.wires ≡ []
      → length (select (finished_before before) w.store.db.messages) ≤ k
      → Purged k i w
  purge_rounds_exact zero i w h u e enough =
      done_by zero i w h u e (omega (arith, length-picks before limit w.store.db u))
  purge_rounds_exact (suc k) i w h u e enough = elim (dec_lt (removed w) limit) [
    | yes few ↦ done_by (suc k) i w h u e few
    | no many ↦
        (let count = length-picks before limit w.store.db u in
          let rest =
            purge_rounds_exact k i (next_world w) h (purge_sql-UniqueIds before limit w.store.db u)
              refl
              (omega
                (arith, purge_sql-shrinks before limit w.store.db u h (omega (arith, count)))) in
          rw (full_round store purge limit (removed w) w _ (purge-made w.store h e) k (omega arith))
            (rest.0, rest.1 ∙ purge_sql-kept before limit w.store.db u i))
  ]
