-- ===== src/Engine/Leases/Kept.antt =====
-- The leases that extendLoop of engine.go keeps on the Postgres store.
use tickr.Prelude.{
  ℕ, ◌+◌, ◌≤◌, ◌∷◌, [], List, String, Bool, true, false, not, ◌&&◌, ◌==◌, Option, none, some, ◌≡◌,
  refl, sym, ap, ◌∙◌, inl, inr, Bool-cases, map, map_option, All, ltb, length, select, take, subst,
  arith,
}
use tickr.Errors.{Error}
use tickr.Message.{InboundMessage}
use tickr.Postgres.Table.{Row, Db, find_row, id_in, ids_of, lt_opt, is_handling}
use tickr.Postgres.Statements.{
  leased_to, lease_expired, reclaim_row, reclaim_sql, extend_row, extend_sql,
}
use tickr.Postgres.Rows.{UniqueIds, find_row-update, find_row_self, id_in-Stored}
use tickr.Postgres.Lifecycle.Statements.{
  reclaim_picks-Stored, reclaim_sql-Onward, extend_sql-Onward,
}
use tickr.Postgres.Session.{
  Driver, Session, Config, round_trip, context, next_wire, rest_wires, conclude,
}
use tickr.Postgres.Session.Outcomes.{with_id-format}
use tickr.Postgres.Ack
use tickr.Postgres.Adapter.{adapter, values}
use tickr.Engine.{World, Engine, lease_or_default}
use tickr.Engine.Leases.{after_extend, unless_lost, lease_until, extend_one, extend_loop}

-- A row whose lease has not run out is left alone by a reclaim, whatever its limit.
find_row-reclaim_sql :
    (now limit : ℕ) (db : Db) (i : ℕ) (r : Row)
    → UniqueIds db.messages
    → find_row i db.messages ≡ some r
    → lease_expired now r ≡ false
    → find_row i (reclaim_sql now limit db).1.messages ≡ some r
unfolding reclaim_sql
find_row-reclaim_sql now limit db i r u found alive =
    let picks = take limit (select (lease_expired now) db.messages) in
    let passed : id_in (ids_of picks) r.id ≡ false = elim (Bool-cases (id_in (ids_of picks) r.id)) [
      | inl t ↦ absurd (
          ground (
            arith,
            id_in-Stored db.messages picks (lease_expired now) r
                (reclaim_picks-Stored now limit db.messages u) (find_row_self i db.messages r found)
                t,
          ))
      | inr t ↦ t
    ] in
    find_row-update i _ (reclaim_row now) db.messages (λ r. unfold reclaim_row in refl)
    ∙ (rw (found, passed) refl)

-- A row that passes a test is counted.
counted-select :
    (i : ℕ) (p : Row → Bool) (ms : List Row) (r : Row)
    → find_row i ms ≡ some r
    → p r ≡ true
    → ltb 0 (length (select p ms)) ≡ true
unfolding find_row
counted-select i p [] r found e = ground arith
counted-select i p (m ∷ ms) r found e = ground (arith, counted-select i p ms r)

-- Time passes, and then some worker reclaims.
abbrev pub reclaimed : ℕ × ℕ → Session → Session
reclaimed (gap, limit) s = record s {
  now = s.now + gap;
  db = (reclaim_sql (s.now + gap) limit s.db).1;
}

lt_opt_mono :
    (later now : ℕ) (b : Bool) (c : Option ℕ)
    → now ≤ later
    → (b && lt_opt c later) ≡ false
    → (b && lt_opt c now) ≡ false
lt_opt_mono later now b none le h = h
lt_opt_mono later now false (some c) le h = refl
lt_opt_mono later now true (some c) le h = ground arith

module _ (i attempt : ℕ) (worker : String) where
  -- HANDLING under the worker and the attempt, with a lease that runs at least until `later`.
  abbrev pub is_held : ℕ → Row → Bool
  is_held later r = leased_to i worker r && (r.attempt == attempt && not (lease_expired later r))

  alive_before :
      (later now : ℕ) (r : Row) → now ≤ later → is_held later r ≡ true → lease_expired now r ≡ false
  unfolding lease_expired leased_to
  alive_before later now r le h =
      lt_opt_mono later now (is_handling r.status) r.claimed_until le (ground (arith, h))

  is_held-extend_row :
      (later now until : ℕ) (r : Row)
      → is_held later r ≡ true
      → is_held until (extend_row now until r) ≡ true
  unfolding lease_expired leased_to extend_row
  is_held-extend_row later now until r h = ground (arith, h)

module _ (config : Config) (d : Driver) (lock : String → Session → (Bool × Error) × Session)
    (unlock : String → Session → Session) (i : ℕ) (worker : String) where
  extend-held :
      (until : ℕ) (s : Session) (r : Row)
      → s.wires ≡ []
      → find_row i s.db.messages ≡ some r
      → leased_to i worker r ≡ true
      → (adapter config d lock unlock).extend (d.format i) worker until s
        ≡ ((true, none), record s { db = (extend_sql s.now i worker until s.db).1; wires = [] })
  unfolding Ack.extend context round_trip next_wire rest_wires conclude extend_sql
  extend-held until s r q found e =
      ap (λ x. values false x) (with_id-format d "tickr/postgres: extend: bad id" i _ s)
      ∙ (rw (q, counted-select i (leased_to i worker) s.db.messages r found e) refl)

  module _ (g : Engine Session) (m : InboundMessage) (attempt : ℕ)
      (placed : g.storage ≡ adapter config d lock unlock) (named : m.id ≡ d.format i)
      (same : g.worker_id ≡ worker) where
    -- The session after a tick.
    abbrev ticked : Session → Session
    ticked s = record s {
      db = (extend_sql s.now i worker (s.now + lease_or_default g.lease) s.db).1;
      wires = [];
    }

    extend_one-held :
        (w : World Session) (r : Row)
        → w.store.wires ≡ []
        → find_row i w.store.db.messages ≡ some r
        → leased_to i worker r ≡ true
        → extend_one g m (lease_until g w) w ≡ (false, record w { store = ticked w.store })
    unfolding extend_one after_extend
    extend_one-held w r q found e =
        rw
          (
            placed,
            named,
            same,
            extend-held (w.store.now + lease_or_default g.lease) w.store r q found e,
          )
          refl

    ticked-found :
        (s : Session) (r : Row)
        → find_row i s.db.messages ≡ some r
        → leased_to i worker r ≡ true
        → find_row i (ticked s).db.messages
          ≡ some (extend_row s.now (s.now + lease_or_default g.lease) r)
    unfolding extend_sql
    ticked-found s r found e =
        find_row-update i (leased_to i worker) (extend_row s.now (s.now + lease_or_default g.lease))
          s.db.messages (λ r. unfold extend_row in refl)
        ∙ (rw (found, e) refl)

    abbrev Keeps : World Session → Bool × World Session → Type 0
    Keeps w x =
        (x.0 ≡ false)
        × (x.1.alerts ≡ w.alerts)
        × (map_option (is_held i attempt worker (x.1.store.now + lease_or_default g.lease))
              (find_row i x.1.store.db.messages)
            ≡ some true)

    -- On the Postgres store, with no failure foretold and unique ids, the loop of a message that is
    -- HANDLING under the worker, with a whole lease ahead, does not cancel the attempt and alerts
    -- nobody, whatever number of ticks comes, if each tick comes within a lease of the one before:
    -- some worker reclaims expired leases before each tick, with any limit, and the message is still
    -- HANDLING under the worker and the same attempt, again with a whole lease ahead.
    pub extend_loop-is_held :
        (ps : List (ℕ × ℕ)) (w : World Session) (r : Row)
        → w.store.wires ≡ []
        → UniqueIds w.store.db.messages
        → find_row i w.store.db.messages ≡ some r
        → is_held i attempt worker (w.store.now + lease_or_default g.lease) r ≡ true
        → All (λ p. p.0 ≤ lease_or_default g.lease) ps
        → let x = extend_loop g m (map reclaimed ps) w in
          (x.0 ≡ false)
          × (x.1.alerts ≡ w.alerts)
          × (map_option
                (is_held i attempt worker (x.1.store.now + lease_or_default g.lease))
                (find_row i x.1.store.db.messages)
              ≡ some true)
    unfolding extend_loop
    extend_loop-is_held [] w r q u found held near = (refl, refl, rw (found, held) refl)
    extend_loop-is_held ((gap, limit) ∷ ps) w r q u found held near =
        let lease = lease_or_default g.lease in
        let s' = reclaimed (gap, limit) w.store in
        let leased : leased_to i worker r ≡ true = ground (arith, held) in
        let found' = find_row-reclaim_sql (w.store.now + gap) limit w.store.db i r u found (
          alive_before i attempt worker (w.store.now + lease) (w.store.now + gap) r
            (omega (arith, near.0)) held) in
        subst (λ x. Keeps w (unless_lost g x (extend_loop g m (map reclaimed ps))))
          (sym (extend_one-held (record w { store = s' }) r q found' leased))
          (extend_loop-is_held ps (record w { store = ticked s' })
            (extend_row s'.now (s'.now + lease) r) refl
            (extend_sql-Onward s'.now s'.db i worker (s'.now + lease)
              (reclaim_sql-Onward s'.now w.store.db limit u).unique).unique
            (ticked-found s' r found' leased)
            (is_held-extend_row i attempt worker (w.store.now + lease) s'.now (s'.now + lease) r
              held)
            near.1)
