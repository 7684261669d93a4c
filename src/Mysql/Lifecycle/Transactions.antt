-- ===== src/Mysql/Lifecycle/Transactions.antt =====
-- A transaction goes along the state machine if its statements do, whatever becomes of its round
-- trips; and the same of what surrounds them.
use tickr.Prelude.{ℕ, String}
use tickr.Errors.{Err}
use tickr.Postgres.Table.{Db}
use tickr.Postgres.Session.{
  Session, Result, ok, err, Action, Wire, made, refused, cut, next_wire, rest_wires, ◌>>=◌, pure,
  round_trip, context,
}
use tickr.Postgres.Session.Within
use tickr.Postgres.Session.Within.{Within}
use tickr.Mysql.Session.{exec, commit, finish, begun, transaction, ignoring}
use tickr.Postgres.Calls.{Kind}
use tickr.Mysql.Lifecycle.{Onward, Onward-refl, Onward-trans}

module _ (kind : Kind) where
  module _ {A : Type 0} (begin_err : Err → Err) (commit_err : A → Err → Err) where
    commit-Onward :
        (old : Db) (w : Wire) (a : A) (s : Session)
        → Onward kind old s.db
        → Onward kind old (commit commit_err old w a s).1.db
    unfolding commit
    commit-Onward old made a s h = h
    commit-Onward old refused a s h = Onward-refl kind old
    commit-Onward old cut a s h = h

    finish-Onward :
        (old : Db) (r : Result A) (s : Session)
        → Onward kind old s.db
        → Onward kind old (finish commit_err old (r, s)).1.db
    unfolding finish
    finish-Onward old (err e) s h = Onward-refl kind old
    finish-Onward old (ok a) s h = commit-Onward old (next_wire s.wires) a _ h

    begun-Onward :
        (body : Action A) (w : Wire)
        → Within (Onward kind) body
        → Within (Onward kind) (begun begin_err commit_err body w)
    begun-Onward body made h s = finish-Onward s.db (body s).0 (body s).1 (h s)
    begun-Onward body refused h s = Onward-refl kind s.db
    begun-Onward body cut h s = Onward-refl kind s.db

    pub transaction-Onward :
        (body : Action A)
        → Within (Onward kind) body
        → Within (Onward kind) (transaction begin_err commit_err body)
    unfolding transaction
    transaction-Onward body h s =
        begun-Onward body (next_wire s.wires) h (record s { wires = rest_wires s.wires })

  pub ignoring-Onward :
      (m : Action (Unit {0})) → Within (Onward kind) m → Within (Onward kind) (ignoring m)
  unfolding ignoring
  ignoring-Onward m h s = h s

  -- The combinators at this preorder.
  module _ {A B : Type 0} where
    pub bind-Onward :
        (m : Action A) (f : A → Action B)
        → Within (Onward kind) m
        → ((a : A) → Within (Onward kind) (f a))
        → Within (Onward kind) (m >>= f)
    bind-Onward m f h k =
        Within.bind-Within (Onward kind) (Onward-refl kind) (Onward-trans kind) m f h k

  module _ {A : Type 0} where
    pub pure-Onward : (a : A) → Within (Onward kind) (pure a)
    pure-Onward a s = Onward-refl kind s.db

    pub trip-Onward :
        (what : String) (st : ℕ → Db → A × Db)
        → ((now : ℕ) (db : Db) → Onward kind db (st now db).1)
        → Within (Onward kind) (context what (round_trip st))
    trip-Onward what st h =
        Within.context-Within (Onward kind) (Onward-refl kind) (Onward-trans kind) what
          (round_trip st)
          (Within.round_trip-Within (Onward kind) (Onward-refl kind) (Onward-trans kind) st h)

    -- A query.
    pub read-Onward :
        (what : String) (f : ℕ → Db → A)
        → Within (Onward kind) (context what (round_trip (λ now db. (f now db, db))))
    read-Onward what f = trip-Onward what (λ now db. (f now db, db)) (λ now db. Onward-refl kind db)

  pub exec-Onward :
      (what : String) (st : ℕ → Db → Db)
      → ((now : ℕ) (db : Db) → Onward kind db (st now db))
      → Within (Onward kind) (context what (exec st))
  exec-Onward what st h = trip-Onward what (λ now db. (tt, st now db)) h
