-- ===== src/Client/Laws.antt =====
-- The answer to a message that is there already, through the whole stack (client.go,
-- storage/postgres/postgres.go).
use tickr.Prelude.{String, [], ◌∷◌, ◌++◌, Bool, false, some, ◌≡◌, refl, str_eq}
use tickr.Errors.{Error, duplicate, is_duplicate}
use tickr.Message.{Message}
use tickr.Storage.{message_enqueued}
use tickr.Postgres.Table.{Row}
use tickr.Postgres.Statements.{find_by_idem_sql}
use tickr.Postgres.Session.{Driver, Session, Config, scan_message}
use tickr.Postgres.Adapter.{adapter}
use tickr.Postgres.Dedup.{enqueue-duplicate}
use tickr.Client.{Client, Counted, enqueue, params_of, after_enqueue}

-- Client.Enqueue on the Postgres store, of a message whose (type, key) is in the table already:
-- the answer is the stored message's id and *ErrDuplicate, it is counted as enqueued, and the
-- tables, so also the notifications, are as before; if no round trip fails.
pub enqueue-existing :
    (config : Config) (d : Driver) (lock : String → Session → (Bool × Error) × Session)
    (unlock : String → Session → Session) (c : Client Session) (m : Message) (w : Counted Session)
    (r : Row)
    → c.storage ≡ adapter config d lock unlock
    → w.store.wires ≡ []
    → str_eq m.type_name "" ≡ false
    → str_eq m.idempotency_key "" ≡ false
    → find_by_idem_sql m.type_name m.idempotency_key w.store.db.messages ≡ some r
    → ((enqueue c m w).0
        ≡ (d.format r.id, some (duplicate (d.format r.id) m.type_name m.idempotency_key)))
      × ((enqueue c m w).1.metrics ≡ w.metrics ++ message_enqueued m.type_name ∷ [])
      × ((enqueue c m w).1.store.db ≡ w.store.db)
unfolding enqueue after_enqueue params_of is_duplicate scan_message
enqueue-existing config d lock unlock c m w r placed quiet typed keyed found =
    let p = params_of c w.store.now m in
    let reply = enqueue-duplicate config d p r w.store quiet keyed found in
    rw (typed, placed, reply.0) (refl, refl, reply.1)
