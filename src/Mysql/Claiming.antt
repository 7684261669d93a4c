-- ===== src/Mysql/Claiming.antt =====
-- Claim of the MySQL store, in its two statements, is the claim of the Postgres store in its one
-- (storage/mysql/mysql.go, storage/postgres/postgres.go).
use tickr.Prelude.{
  ℕ, String, List, [], ◌∷◌, map, false, Option, none, some, ◌≡◌, refl, sym, ap, subst, select,
  or_default, arith, ℤ, ◌%◌, All, some_of, take, ◌∙◌,
}
use tickr.Errors.{Err, wrapped}
use tickr.Message.{Status, InboundMessage, ClaimParams}
use tickr.Postgres.Table.{Row, Db, update_where, id_in, ids_of, string_in, order_by}
use tickr.Postgres.Statements.{claim_row, claim_sql, claim_picks, eligible, due_before}
use tickr.Postgres.Session.{
  Session, Result, ok, err, Action, ◌>>=◌, ◌>>◌, pure, next_wire, rest_wires, conclude, round_trip,
  context, draw, pick_shard, continue,
}
use tickr.Mysql.Session.{Ids, commit, finish, transaction, ignoring, scan_message}
use tickr.Mysql.Statements.{
  claimable, append_history_sql, select_claim_ids_sql, claim_update_sql, claim_fetch_sql,
}
use tickr.Mysql.Claim.{
  append_history, append_all, select_claim_ids, claim_ids, or_all_shards, claim_body, reply_of,
  claim_for, claim_commit_err, claim,
}

update_where_never : (f : Row → Row) (ms : List Row) → update_where (λ r. false) f ms ≡ ms
unfolding update_where
update_where_never f [] = refl
update_where_never f (r ∷ rs) = ap (λ xs. r ∷ xs) (update_where_never f rs)

select_never : (ms : List Row) → select (λ r. false) ms ≡ []
select_never [] = refl
select_never (r ∷ rs) = select_never rs

module _ (d : Ids) (p : ClaimParams) where
  -- An action that succeeds, with the messages and no failure foretold left.
  abbrev Gives : {A : Type 0} → Result A → List Row → Result A × Session → Type 0
  Gives r ms x = (x.0 ≡ r) × (x.1.db.messages ≡ ms) × (x.1.wires ≡ [])

  append_all-Gives :
      (ms : List InboundMessage) (s : Session)
      → s.wires ≡ []
      → Gives (ok tt) s.db.messages (append_all d p ms s)
  unfolding append_all append_history ignoring round_trip next_wire rest_wires conclude
      append_history_sql
  append_all-Gives [] s q = (refl, refl, q)
  append_all-Gives (m ∷ ms) s q = rw q (
      append_all-Gives ms
        (record s {
          db =
              append_history_sql s.now (d.code m.id) Status.handling Status.handling m.attempt ""
                p.worker_id s.db;
          wires = [];
        })
        refl)

  abbrev update : List ℕ → Session → Db
  update ids s = claim_update_sql s.now p.worker_id p.lease ids s.db

  abbrev told : List ℕ → Session → List InboundMessage
  told ids s = map (scan_message d) (claim_fetch_sql ids (update ids s))

  none_told : (s : Session) → told [] s ≡ []
  unfolding claim_fetch_sql
  none_told s = ap (map (scan_message d)) (select_never (update [] s).messages)

  none_updated : (s : Session) → (update [] s).messages ≡ s.db.messages
  unfolding claim_update_sql
  none_updated s = update_where_never (claim_row s.now p.worker_id p.lease) s.db.messages

  with_history-Gives :
      (out : List InboundMessage) (s : Session)
      → s.wires ≡ []
      → Gives (ok out) s.db.messages ((append_all d p out >> pure out) s)
  with_history-Gives out s q =
      let h = append_all-Gives out s q in
      subst
        (λ r. Gives (ok out) s.db.messages (continue r (λ x. pure out) (append_all d p out s).1))
        (sym h.0) (refl, h.1, h.2)

  claim_ids-Gives :
      (ids : List ℕ) (s : Session)
      → s.wires ≡ []
      → Gives (ok (told ids s)) (update ids s).messages (claim_ids d p ids s)
  unfolding claim_ids context round_trip next_wire rest_wires conclude
  claim_ids-Gives [] s q = (ap (λ ms. ok ms) (sym (none_told s)), sym (none_updated s), q)
  claim_ids-Gives (i ∷ is) s q =
      rw q (
        with_history-Gives (told (i ∷ is) s) (record s { db = update (i ∷ is) s; wires = [] }) refl)

  abbrev batch : ℕ
  batch = or_default p.batch 100

  -- What one SELECT finds.
  abbrev found : Option ℕ → Session → List ℕ
  found shard s = select_claim_ids_sql d s.now p.event_types batch shard s.db

  -- The shards that are claimed from, by what the first SELECT finds.
  abbrev shards : List ℕ → ℕ → Option ℕ
  shards [] shard = none
  shards (i ∷ is) shard = some shard

  select_claim_ids-made :
      (shard : Option ℕ) (s : Session)
      → s.wires ≡ []
      → select_claim_ids d p shard s ≡ (ok (found shard s), record s { wires = [] })
  unfolding select_claim_ids context round_trip next_wire rest_wires conclude
  select_claim_ids-made shard s q = rw q refl

  -- After the first SELECT.
  after_first-Gives :
      (shard : ℕ) (ids : List ℕ) (s : Session)
      → s.wires ≡ []
      → ids ≡ found (some shard) s
      → Gives
          (ok (told (found (shards ids shard) s) s))
          (update (found (shards ids shard) s) s).messages
          ((or_all_shards d p ids >>= claim_ids d p) s)
  after_first-Gives shard [] s q e =
      subst
        (λ x.
          Gives (ok (told (found none s) s)) (update (found none s) s).messages
            (continue x.0 (claim_ids d p) x.1))
        (sym (select_claim_ids-made none s q))
        (claim_ids-Gives (found none s) (record s { wires = [] }) refl)
  after_first-Gives shard (i ∷ is) s q e =
      subst (λ ids. Gives (ok (told ids s)) (update ids s).messages (claim_ids d p (i ∷ is) s)) e
        (claim_ids-Gives (i ∷ is) s q)

  -- The shards that a claim ends up with.
  abbrev pub used : Session → Option ℕ
  used s = shards (found (some (pick_shard s).0) s) (pick_shard s).0

  claim_body-Gives :
      (shard : ℕ) (s : Session)
      → s.wires ≡ []
      → let to = shards (found (some shard) s) shard in
        Gives (ok (told (found to s) s)) (update (found to s) s).messages (claim_body d p shard s)
  unfolding claim_body
  claim_body-Gives shard s q =
      let to = shards (found (some shard) s) shard in
      subst
        (λ x.
          Gives (ok (told (found to s) s)) (update (found to s) s).messages
            (continue x.0 (λ ids. or_all_shards d p ids >>= claim_ids d p) x.1))
        (sym (select_claim_ids-made (some shard) s q))
        (after_first-Gives shard (found (some shard) s) (record s { wires = [] }) refl refl)

  module _ {A : Type 0} (begin_err : Err → Err) (commit_err : A → Err → Err) where
    finish-Gives :
        (old : Db) (a : A) (ms : List Row) (r : Result A) (s : Session)
        → Gives (ok a) ms (r, s)
        → Gives (ok a) ms (finish commit_err old (r, s))
    unfolding finish commit next_wire rest_wires
    finish-Gives old a ms (ok b) s h = rw h.2 (h.0, h.1, refl)
    finish-Gives old a ms (err e) s h = absurd (ground (arith, h.0))

    transaction-Gives :
        (body : Action A) (a : A) (ms : List Row) (s : Session)
        → s.wires ≡ []
        → Gives (ok a) ms (body (record s { wires = [] }))
        → Gives (ok a) ms (transaction begin_err commit_err body s)
    unfolding transaction next_wire rest_wires
    transaction-Gives body a ms s q h = rw q (
        finish-Gives s.db a ms (body (record s { wires = [] })).0 (body (record s { wires = [] })).1
          h)

  -- What is claimed by whatever the drawn shard is.
  claim_from-Gives :
      (shard : ℕ) (s : Session)
      → s.wires ≡ []
      → let to = shards (found (some shard) s) shard in
        let x = reply_of d p (
          transaction
            (wrapped "tickr/mysql: begin claim tx")
            (claim_commit_err d p)
            (claim_body d p shard)
            s) in
        (x.0 ≡ (told (found to s) s, none)) × (x.1.db.messages ≡ (update (found to s) s).messages)
  claim_from-Gives shard s q =
      let to = shards (found (some shard) s) shard in
      replied (told (found to s) s) (update (found to s) s).messages
        (transaction (wrapped "tickr/mysql: begin claim tx") (claim_commit_err d p)
          (claim_body d p shard) s)
        (transaction-Gives (wrapped "tickr/mysql: begin claim tx") (claim_commit_err d p)
          (claim_body d p shard) (told (found to s) s) (update (found to s) s).messages s q
          (claim_body-Gives shard (record s { wires = [] }) refl))
    where
      replied :
          (ms : List InboundMessage) (rows : List Row) (x : Result (List InboundMessage) × Session)
          → Gives (ok ms) rows x
          → ((reply_of d p x).0 ≡ (ms, none)) × ((reply_of d p x).1.db.messages ≡ rows)
      replied ms rows (ok b, s) h = (ap (λ r. (reply_of d p (r, s)).0) h.0, h.1)
      replied ms rows (err e, s) h = absurd (ground (arith, h.0))

  claim-told :
      (s : Session)
      → s.wires ≡ []
      → (t : String) (ts : List String) → p.event_types ≡ t ∷ ts
      → ((claim d p s).0 ≡ (told (found (used s) s) s, none))
        × ((claim d p s).1.db.messages ≡ (update (found (used s) s) s).messages)
  unfolding claim pick_shard
  claim-told s q t ts e =
      subst
        (λ types.
          ((claim_for d p types s).0 ≡ (told (found (used s) s) s, none))
          × ((claim_for d p types s).1.db.messages ≡ (update (found (used s) s) s).messages))
        (sym e) (go s.draws)
    where
      go :
          (ks : List ℕ)
          → let k = draw ks s in
            let to = shards (found (some k.0) s) k.0 in
            let x = reply_of d p (
              transaction
                (wrapped "tickr/mysql: begin claim tx")
                (claim_commit_err d p)
                (claim_body d p k.0)
                k.1) in
            (x.0 ≡ (told (found to s) s, none))
            × (x.1.db.messages ≡ (update (found to s) s).messages)
      go [] = claim_from-Gives 0 s q
      go (k ∷ ks) = claim_from-Gives (k % 16) (record s { draws = ks }) q

-- An UPDATE of a claim leaves the ids.
ids_of-claim_row :
    (now : ℕ) (worker : String) (lease : ℤ) (rs : List Row)
    → ids_of (map (claim_row now worker lease) rs) ≡ ids_of rs
unfolding claim_row
ids_of-claim_row now worker lease [] = refl
ids_of-claim_row now worker lease (r ∷ rs) =
    ap (λ is. r.id ∷ is) (ids_of-claim_row now worker lease rs)

-- The collation tells the event types that are claimed from those of the messages as `=` on strings does.
abbrev pub TellsApart : Ids → List String → List Row → Type 0
TellsApart d types =
    All (λ r. some_of (λ t. d.same_text t r.event_type) types ≡ string_in types r.event_type)

select-eligible :
    (d : Ids) (now : ℕ) (types : List String) (shard : Option ℕ) (ms : List Row)
    → TellsApart d types ms
    → select (claimable d now types shard) ms ≡ select (eligible now (some types) shard) ms
unfolding claimable eligible
select-eligible d now types shard [] h = refl
select-eligible d now types shard (r ∷ rs) h =
    rw (h.0, select-eligible d now types shard rs h.1) refl

select_claim_ids_sql-claim_picks :
    (d : Ids) (now : ℕ) (types : List String) (batch : ℕ) (shard : Option ℕ) (db : Db)
    → TellsApart d types db.messages
    → select_claim_ids_sql d now types batch shard db
      ≡ ids_of (claim_picks now (some types) batch shard db.messages)
unfolding select_claim_ids_sql claim_picks
select_claim_ids_sql-claim_picks d now types batch shard db h =
    ap (λ rows. ids_of (take batch (order_by due_before rows)))
      (select-eligible d now types shard db.messages h)

-- A claim for at least one event type, when no failure is foretold and the collation tells the types
-- apart as `=` on strings does, leaves the messages that the one statement of the Postgres store
-- leaves, on the shards `used`: the drawn one if something can be claimed there, all of them
-- otherwise. It answers, without an error, the messages with the ids of the rows that the statement
-- returns, in the order of the table.
pub claim-claim_sql :
    (d : Ids) (p : ClaimParams) (s : Session) (t : String) (ts : List String)
    → s.wires ≡ []
    → p.event_types ≡ t ∷ ts
    → TellsApart d p.event_types s.db.messages
    → let theirs =
        claim_sql s.now
          (some p.event_types)
          (or_default p.batch 100)
          p.worker_id
          p.lease
          (used d p s)
          s.db in
      ((claim d p s).1.db.messages ≡ theirs.1.messages)
      × ((claim d p s).0 ≡ (
        map (scan_message d) (select (λ r. id_in (ids_of theirs.0) r.id) theirs.1.messages),
        none,
      ))
unfolding claim_sql claim_update_sql claim_fetch_sql
claim-claim_sql d p s t ts q e h =
    let ours = claim-told d p s q t ts e in
    let ids =
      select_claim_ids_sql-claim_picks d s.now p.event_types (or_default p.batch 100) (used d p s)
        s.db h in
    (
      ours.1 ∙ ap (λ is. (claim_update_sql s.now p.worker_id p.lease is s.db).messages) ids,
      ours.0
          ∙ ap
              (λ is. (
                map (scan_message d)
                    (claim_fetch_sql is (claim_update_sql s.now p.worker_id p.lease is s.db)),
                none,
              ))
              ids
          ∙ rw ids_of-claim_row refl,
    )
