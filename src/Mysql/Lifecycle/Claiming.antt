-- ===== src/Mysql/Lifecycle/Claiming.antt =====
-- Claim of the MySQL store: its UPDATE names ids alone, which its SELECT has found to be pending
-- (storage/mysql/mysql.go).
use tickr.Prelude.{
  ℕ, String, List, [], ◌∷◌, map, Option, none, some, ◌≡◌, refl, sym, subst, true, &&_true, inr,
  or_default, ℤ, take, select,
}
use tickr.Message.{InboundMessage, ClaimParams, Status}
use tickr.Postgres.Table.{Row, Db, find_row, is_pending, id_in, order_by}
use tickr.Postgres.Statements.{claim_row, due_before}
use tickr.Postgres.Rows.{UniqueIds, id_in-Stored, select-Stored, All-take, All-order_by}
use tickr.Postgres.Session.{
  Session, Result, ok, err, Action, ◌>>=◌, ◌>>◌, continue, pure, Wire, made, refused, cut,
  next_wire, rest_wires, conclude, round_trip, context,
}
use tickr.Postgres.Session.Within
use tickr.Postgres.Session.Within.{Within}
use tickr.Postgres.Lifecycle.{update-Advance}
use tickr.Mysql.Session.{Ids, exec, scan_message}
use tickr.Mysql.Statements.{claimable, select_claim_ids_sql, claim_update_sql, claim_fetch_sql}
use tickr.Mysql.Claim.{
  append_history, append_all, select_claim_ids, claim_ids, or_all_shards, claim_body,
}
use tickr.Postgres.Calls.{Kind, claiming}
use tickr.Mysql.Lifecycle.{Moved, Onward, Onward-refl, Onward-trans}
use tickr.Mysql.Lifecycle.Statements.{append_history_sql-Onward}
use tickr.Mysql.Lifecycle.Transactions.{ignoring-Onward, bind-Onward, pure-Onward, read-Onward}

-- The rows with these ids are pending.
abbrev ArePending : List ℕ → Db → Type 0
ArePending ids db =
    (r : Row)
    → find_row r.id db.messages ≡ some r
    → id_in ids r.id ≡ true
    → is_pending r.status ≡ true

-- A property of a result, if it is no error.
abbrev OfResult : {A : Type 0} → (A → Type 0) → Result A → Type 0
OfResult P (ok a) = P a
OfResult P (err e) = Unit

-- A query leaves the tables, and answers what it is asked or fails.
conclude-read :
    {A : Type 0} (w : Wire) (a : A) (s : Session)
    → ((conclude w (a, s.db) s).1.db ≡ s.db) × OfResult (λ x. x ≡ a) (conclude w (a, s.db) s).0
unfolding conclude
conclude-read made a s = (refl, refl)
conclude-read refused a s = (refl, tt)
conclude-read cut a s = (refl, tt)

relabelled :
    {A : Type 0} (P : A → Type 0) (what : String) (r : Result A)
    → OfResult P r
    → OfResult P (tickr.Postgres.Session.relabel what r)
relabelled P what (ok a) h = h
relabelled P what (err e) h = tt

select_picks-pending :
    (d : Ids) (now : ℕ) (types : List String) (batch : ℕ) (shard : Option ℕ) (db : Db)
    → UniqueIds db.messages
    → ArePending (select_claim_ids_sql d now types batch shard db) db
unfolding select_claim_ids_sql claimable
select_picks-pending d now types batch shard db u r found h =
    let rows = select (claimable d now types shard) db.messages in
    (&&_true (is_pending r.status) _ (
      id_in-Stored db.messages (take batch (order_by due_before rows)) (claimable d now types shard)
        r
        (All-take _ batch (order_by due_before rows) (
          All-order_by _ due_before rows
            (select-Stored (claimable d now types shard) db.messages u)))
        found h)).0

claim_update_sql-Onward :
    (now : ℕ) (worker : String) (lease : ℤ) (ids : List ℕ) (db : Db)
    → ArePending ids db
    → Onward claiming db (claim_update_sql now worker lease ids db)
unfolding claim_update_sql claim_row
claim_update_sql-Onward now worker lease ids db free u =
    update-Advance Moved claiming (λ r. id_in ids r.id) (claim_row now worker lease) db.messages
      (λ r. refl) (λ r found h. inr (refl, (free r found h, refl, refl))) u

pub append_history-Onward :
    (kind : Kind) (i : ℕ) (from to : Status) (attempt : ℕ) (error worker : String)
    → Within (Onward kind) (append_history i from to attempt error worker)
unfolding append_history
append_history-Onward kind i from to attempt error worker = ignoring-Onward kind (exec _) (
    Within.round_trip-Within (Onward kind) (Onward-refl kind) (Onward-trans kind) _
      (λ now db. append_history_sql-Onward now db kind i from to attempt error worker))

module _ (d : Ids) (p : ClaimParams) where
  append_all-Onward : (ms : List InboundMessage) → Within (Onward claiming) (append_all d p ms)
  unfolding append_all
  append_all-Onward [] = pure-Onward claiming tt
  append_all-Onward (m ∷ ms) =
      bind-Onward claiming
        (append_history (d.code m.id) Status.handling Status.handling m.attempt "" p.worker_id)
        (λ x. append_all d p ms)
        (append_history-Onward claiming (d.code m.id) Status.handling Status.handling m.attempt ""
          p.worker_id)
        (λ x. append_all-Onward ms)

  -- What follows the UPDATE.
  abbrev after_update : List ℕ → Action (List InboundMessage)
  after_update ids =
      context "tickr/mysql: claim fetch" (round_trip (λ now db. (claim_fetch_sql ids db, db)))
      >>= λ rows. append_all d p (map (scan_message d) rows) >> pure (map (scan_message d) rows)

  after_update-Onward : (ids : List ℕ) → Within (Onward claiming) (after_update ids)
  after_update-Onward ids =
      bind-Onward claiming
        (context "tickr/mysql: claim fetch" (round_trip (λ now db. (claim_fetch_sql ids db, db))))
        (λ rows. append_all d p (map (scan_message d) rows) >> pure (map (scan_message d) rows))
        (read-Onward claiming "tickr/mysql: claim fetch" (λ now db. claim_fetch_sql ids db))
        (λ rows.
          bind-Onward claiming (append_all d p (map (scan_message d) rows))
            (λ x. pure (map (scan_message d) rows)) (append_all-Onward (map (scan_message d) rows))
            (λ x. pure-Onward claiming (map (scan_message d) rows)))

  update_trip-Onward :
      (ids : List ℕ) (s : Session)
      → ArePending ids s.db
      → Onward claiming s.db
          (context "tickr/mysql: claim update"
            (exec (λ now. claim_update_sql now p.worker_id p.lease ids))
            s).1.db
  unfolding context round_trip
  update_trip-Onward ids s free =
      Within.conclude-Within (Onward claiming) (Onward-refl claiming) (Onward-trans claiming)
        (next_wire s.wires) tt _ (record s { wires = rest_wires s.wires })
        (claim_update_sql-Onward s.now p.worker_id p.lease ids s.db free)

  claim_ids-Onward :
      (ids : List ℕ) (s : Session)
      → ArePending ids s.db
      → Onward claiming s.db (claim_ids d p ids s).1.db
  unfolding claim_ids
  claim_ids-Onward [] s free = Onward-refl claiming s.db
  claim_ids-Onward (i ∷ is) s free =
      let updated =
        context "tickr/mysql: claim update"
          (exec (λ now. claim_update_sql now p.worker_id p.lease (i ∷ is))) s in
      Within.continue-Within (Onward claiming) (Onward-refl claiming) (Onward-trans claiming)
        (λ x. after_update (i ∷ is)) s.db updated.0 updated.1 (λ x. after_update-Onward (i ∷ is))
        (update_trip-Onward (i ∷ is) s free)

  -- What a SELECT of the ids leaves and gives.
  abbrev Selected : Session → Result (List ℕ) × Session → Type 0
  Selected s x = (x.1.db ≡ s.db) × OfResult (λ ids. ArePending ids s.db) x.0

  select_claim_ids-Selected :
      (shard : Option ℕ) (s : Session)
      → UniqueIds s.db.messages
      → Selected s (select_claim_ids d p shard s)
  unfolding select_claim_ids context round_trip
  select_claim_ids-Selected shard s u =
      let found = select_claim_ids_sql d s.now p.event_types (or_default p.batch 100) shard s.db in
      let read =
        conclude-read (next_wire s.wires) found (record s { wires = rest_wires s.wires }) in
      (
        read.0,
        relabelled (λ ids. ArePending ids s.db) _ _
            (of_equal found _
              (select_picks-pending d s.now p.event_types (or_default p.batch 100) shard s.db u)
              read.1),
      )
    where
      of_equal :
          (found : List ℕ) (r : Result (List ℕ))
          → ArePending found s.db
          → OfResult (λ x. x ≡ found) r
          → OfResult (λ ids. ArePending ids s.db) r
      of_equal found (ok ids) h e = subst (λ x. ArePending x s.db) (sym e) h
      of_equal found (err e) h k = tt

  or_all_shards-Selected :
      (ids : List ℕ) (s : Session)
      → UniqueIds s.db.messages
      → ArePending ids s.db
      → Selected s (or_all_shards d p ids s)
  or_all_shards-Selected [] s u free = select_claim_ids-Selected none s u
  or_all_shards-Selected (i ∷ is) s u free = (refl, free)

  -- The UPDATE after a SELECT.
  Selected-Onward :
      (s : Session) (r : Result (List ℕ)) (s' : Session)
      → Selected s (r, s')
      → Onward claiming s.db (continue r (claim_ids d p) s').1.db
  Selected-Onward s (err e) s' h =
      subst (Onward claiming s.db) (sym h.0) (Onward-refl claiming s.db)
  Selected-Onward s (ok ids) s' h =
      subst (λ db. Onward claiming db (claim_ids d p ids s').1.db) h.0
        (claim_ids-Onward ids s' (subst (ArePending ids) (sym h.0) h.1))

  Selected-Onward_first :
      (s : Session) (r : Result (List ℕ)) (s' : Session)
      → UniqueIds s.db.messages
      → Selected s (r, s')
      → Onward claiming s.db (continue r (λ ids. or_all_shards d p ids >>= claim_ids d p) s').1.db
  Selected-Onward_first s (err e) s' u h =
      subst (Onward claiming s.db) (sym h.0) (Onward-refl claiming s.db)
  Selected-Onward_first s (ok ids) s' u h =
      let second =
        or_all_shards-Selected ids s' (subst (λ db. UniqueIds db.messages) (sym h.0) u)
          (subst (ArePending ids) (sym h.0) h.1) in
      subst
        (λ db.
          Onward claiming db
            (continue (or_all_shards d p ids s').0 (claim_ids d p)
              (or_all_shards d p ids s').1).1.db)
        h.0 (Selected-Onward s' (or_all_shards d p ids s').0 (or_all_shards d p ids s').1 second)

  pub claim_body-Onward : (shard : ℕ) → Within (Onward claiming) (claim_body d p shard)
  unfolding claim_body
  claim_body-Onward shard s u =
      Selected-Onward_first s (select_claim_ids d p (some shard) s).0
        (select_claim_ids d p (some shard) s).1 u (select_claim_ids-Selected (some shard) s u) u
