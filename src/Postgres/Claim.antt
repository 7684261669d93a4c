-- ===== src/Postgres/Claim.antt =====
-- storage/postgres/postgres.go: Claim, claimQuery and appendHistoryBatch.
use tickr.Prelude.{
  ℕ, zero, suc, ◌*◌, ◌/◌, String, List, [], ◌∷◌, map, Option, none, some, length, ℤ, pos, negsuc,
  or_default, cons_some, map_option, if◌then◌else◌,
}
use tickr.Errors.{Error, wrapped}
use tickr.Message.{Status, InboundMessage, ClaimParams}
use tickr.Postgres.Table.{Row, Db}
use tickr.Postgres.Statements.{append_history_sql, claim_sql}
use tickr.Postgres.Session.{
  Driver, Session, Config, Result, ok, err, Action, round_trip, context, pick_shard, send_batch,
  scan_message,
}

-- -(k seconds), and the seconds of a duration, as nanoseconds.
abbrev negative : ℕ → ℤ
negative zero = pos 0
negative (suc k) = negsuc k

abbrev pub second : ℕ
second = 1_000_000_000

-- `int(p.Lease.Seconds())` drops the part below a second; a lease of zero stands for 30 seconds.
-- The result is in nanoseconds again.
unfoldable pub lease_duration : ℤ → ℤ
lease_duration (pos zero) = pos (30 * second)
lease_duration (pos (suc n)) = pos (suc n / second * second)
lease_duration (negsuc n) = negative (suc n / second * second)

-- An empty list is passed as NULL.
unfoldable pub event_types_arg : List String → Option (List String)
event_types_arg [] = none
event_types_arg (t ∷ ts) = some (t ∷ ts)

abbrev history_error : Result (Unit {0}) → Error
history_error (ok _) = none
history_error (err e) = some (wrapped "tickr/postgres: claim history" e)

module _ (d : Driver) where
  -- claimQuery; `none` is the scan of all shards
  unfoldable pub claim_query : ClaimParams → Option ℕ → Action (List Row)
  claim_query p shard = context "tickr/postgres: claim" (
      round_trip (λ now.
        claim_sql now (event_types_arg p.event_types) (or_default p.batch 1) p.worker_id
          (lease_duration p.lease) shard))

  -- The ids that parse, with the attempt of their message.
  unfoldable pub queue_history : List InboundMessage → List (ℕ × ℕ)
  queue_history [] = []
  queue_history (m ∷ ms) =
      cons_some (map_option (λ i. (i, m.attempt)) (d.parse m.id)) (queue_history ms)

  unfoldable pub append_each : List (ℕ × ℕ) → Status → String → String → ℕ → Db → Db
  append_each [] to error worker now db = db
  append_each ((i, attempt) ∷ rest) to error worker now db =
      append_each rest to error worker now
        (append_history_sql now i none to attempt error worker db)

  unfoldable pub append_history_batch :
      List InboundMessage → Status → String → String → Action (Unit {0})
  append_history_batch [] to error worker s = (ok tt, s)
  append_history_batch (m ∷ ms) to error worker s =
      send_batch d (length (queue_history (m ∷ ms))) (length (m ∷ ms))
        (append_each (queue_history (m ∷ ms)) to error worker) s

  -- The last part of `Claim`: the history of what was claimed. On its error the messages are
  -- returned beside it.
  unfoldable pub record_claims :
      Config → String → List InboundMessage → Session → (List InboundMessage × Error) × Session
  record_claims c worker [] s = (([], none), s)
  record_claims c worker (m ∷ ms) s =
      if c.history_off
      then ((m ∷ ms, none), s)
      else (let (r, s') = append_history_batch (m ∷ ms) Status.handling "" worker s in
          ((m ∷ ms, history_error r), s'))

  -- The rows of the second pass.
  unfoldable pub after_all :
      Config → ClaimParams → Result (List Row) → Session → (List InboundMessage × Error) × Session
  after_all c p (err e) s = (([], some e), s)
  after_all c p (ok rows) s = record_claims c p.worker_id (map (scan_message d) rows) s

  -- The second pass, over all shards.
  unfoldable pub claim_all :
      Config → ClaimParams → Session → (List InboundMessage × Error) × Session
  unfolding after_all
  claim_all c p s = let (r, s') = claim_query p none s in after_all c p r s'

  -- After the first pass: an error ends the claim, no row starts the second pass.
  unfoldable pub after_shard :
      Config → ClaimParams → Result (List Row) → Session → (List InboundMessage × Error) × Session
  after_shard c p (err e) s = (([], some e), s)
  after_shard c p (ok []) s = claim_all c p s
  after_shard c p (ok (r ∷ rs)) s = record_claims c p.worker_id (map (scan_message d) (r ∷ rs)) s

  unfoldable pub claim : Config → ClaimParams → Session → (List InboundMessage × Error) × Session
  claim c p s =
      let (shard, s') = pick_shard s in
      let (r, s'') = claim_query p (some shard) s' in after_shard c p r s''
