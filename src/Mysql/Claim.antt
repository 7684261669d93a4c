-- ===== src/Mysql/Claim.antt =====
-- storage/mysql/mysql.go: Claim, a SELECT ... FOR UPDATE and an UPDATE in one transaction.
use tickr.Prelude.{ℕ, String, List, [], ◌∷◌, map, Option, none, some, or_default}
use tickr.Errors.{Err, Error, wrapped}
use tickr.Message.{Status, InboundMessage, ClaimParams}
use tickr.Postgres.Session.{
  Session, Result, ok, err, Action, ◌>>=◌, ◌>>◌, pure, round_trip, context, pick_shard,
}
use tickr.Mysql.Session.{Ids, exec, transaction, ignoring, scan_message}
use tickr.Mysql.Statements.{
  append_history_sql, select_claim_ids_sql, claim_update_sql, claim_fetch_sql,
}

-- appendHistory, whose error is dropped; the id is that of a row that was read.
unfoldable pub append_history : ℕ → Status → Status → ℕ → String → String → Action (Unit {0})
append_history i from to attempt error worker =
    ignoring (exec (λ now. append_history_sql now i from to attempt error worker))

module _ (d : Ids) (p : ClaimParams) where
  unfoldable pub select_claim_ids : Option ℕ → Action (List ℕ)
  select_claim_ids shard = context "tickr/mysql: claim select" (
      round_trip (λ now db.
        (select_claim_ids_sql d now p.event_types (or_default p.batch 100) shard db, db)))

  unfoldable pub append_all : List InboundMessage → Action (Unit {0})
  unfolding append_history
  append_all [] = pure tt
  append_all (m ∷ ms) =
      append_history (d.code m.id) Status.handling Status.handling m.attempt "" p.worker_id
      >> append_all ms

  -- After the SELECTs: the UPDATE, the fetch and the history.
  unfoldable pub claim_ids : List ℕ → Action (List InboundMessage)
  unfolding append_all scan_message
  claim_ids [] = pure []
  claim_ids (i ∷ is) =
      context "tickr/mysql: claim update"
        (exec (λ now. claim_update_sql now p.worker_id p.lease (i ∷ is)))
      >> (context "tickr/mysql: claim fetch"
            (round_trip (λ now db. (claim_fetch_sql (i ∷ is) db, db)))
          >>= λ rows. append_all (map (scan_message d) rows) >> pure (map (scan_message d) rows))

  -- The second SELECT, over all shards, if the first gave nothing.
  abbrev pub or_all_shards : List ℕ → Action (List ℕ)
  or_all_shards [] = select_claim_ids none
  or_all_shards (i ∷ is) = pure (i ∷ is)

  unfoldable pub claim_body : ℕ → Action (List InboundMessage)
  unfolding select_claim_ids claim_ids
  claim_body shard = select_claim_ids (some shard) >>= λ ids. or_all_shards ids >>= claim_ids

  -- The error of the commit is bare when nothing was selected; rows that were selected are locked, so
  -- that the fetch finds them.
  abbrev pub claim_commit_err : List InboundMessage → Err → Err
  claim_commit_err [] e = e
  claim_commit_err (m ∷ ms) e = wrapped "tickr/mysql: claim commit" e

  abbrev pub reply_of :
      Result (List InboundMessage) × Session → (List InboundMessage × Error) × Session
  reply_of (ok ms, s) = ((ms, none), s)
  reply_of (err e, s) = (([], some e), s)

  abbrev pub claim_for : List String → Session → (List InboundMessage × Error) × Session
  claim_for [] s = (([], none), s)
  claim_for (t ∷ ts) s =
      let (shard, s') = pick_shard s in
      reply_of
        (transaction (wrapped "tickr/mysql: begin claim tx") claim_commit_err (claim_body shard) s')

  -- Nothing is claimed for no event type. The shard is drawn after BeginTx, on which it does not
  -- depend.
  unfoldable pub claim : Session → (List InboundMessage × Error) × Session
  unfolding claim_body transaction
  claim s = claim_for p.event_types s
