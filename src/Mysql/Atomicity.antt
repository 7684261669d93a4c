-- ===== src/Mysql/Atomicity.antt =====
-- BatchSucceed of the MySQL store acknowledges all or nothing (storage/mysql/mysql.go).
use tickr.Prelude.{
  ℕ, String, List, [], ◌∷◌, Bool, true, false, ◌&&◌, ◌||◌, ◌==◌, if◌then◌else◌, map, some, ◌≡◌, ◌⊎◌,
  refl, sym, ap, ◌∙◌, inl, inr, arith,
}
use tickr.Errors.{Err, wrapped}
use tickr.Message.{Status, BatchSucceedParam}
use tickr.Postgres.Table.{Row, Db, update_where, is_handling}
use tickr.Postgres.Statements.{holds}
use tickr.Postgres.Session.{
  Session, Result, ok, err, Action, Wire, made, refused, cut, next_wire, rest_wires, round_trip,
  conclude, context, continue,
}
use tickr.Mysql.Session.{Ids, commit, finish, begun, transaction, ignoring}
use tickr.Mysql.Statements.{append_history_sql, succeed_row, update_sql}
use tickr.Mysql.Claim.{append_history}
use tickr.Mysql.Ack.{update_and_record, succeed_each, batch_succeed, bare_commit}

-- A result that is no error.
abbrev pub IsOk : {A : Type 0} → Result A → Type 0
IsOk (ok a) = Unit
IsOk (err e) = ⊥

-- Nothing is written; or all that the body wrote, which has then succeeded.
abbrev IsWhole : {A : Type 0} → Db → Result A × Session → Result A × Session → Type 0
IsWhole old run x = ((x.1.db ≡ old) × (IsOk x.0 → ⊥)) ⊎ ((x.1.db ≡ run.1.db) × IsOk run.0)

module _ {A : Type 0} (begin_err : Err → Err) (commit_err : A → Err → Err) where
  commit-IsWhole :
      (old : Db) (w : Wire) (a : A) (s : Session) (n : List Wire)
      → IsWhole old (ok a, s) (commit commit_err old w a (record s { wires = n }))
  unfolding commit
  commit-IsWhole old made a s n = inr (refl, tt)
  commit-IsWhole old refused a s n = inl (refl, λ h. h)
  commit-IsWhole old cut a s n = inr (refl, tt)

  finish-IsWhole :
      (old : Db) (r : Result A) (s : Session) → IsWhole old (r, s) (finish commit_err old (r, s))
  unfolding finish
  finish-IsWhole old (err e) s = inl (refl, λ h. h)
  finish-IsWhole old (ok a) s = commit-IsWhole old (next_wire s.wires) a s (rest_wires s.wires)

  begun-IsWhole :
      (body : Action A) (w : Wire) (s : Session)
      → IsWhole s.db (body s) (begun begin_err commit_err body w s)
  begun-IsWhole body made s = finish-IsWhole s.db (body s).0 (body s).1
  begun-IsWhole body refused s = inl (refl, λ h. h)
  begun-IsWhole body cut s = inl (refl, λ h. h)

  -- All that the body wrote, or nothing.
  transaction-IsWhole :
      (body : Action A) (s : Session)
      → IsWhole s.db
          (body (record s { wires = rest_wires s.wires }))
          (transaction begin_err commit_err body s)
  unfolding transaction
  transaction-IsWhole body s =
      begun-IsWhole body (next_wire s.wires) (record s { wires = rest_wires s.wires })

-- The line of the history leaves the messages and the clock, whatever becomes of it.
append_history-messages :
    (i attempt : ℕ) (to : Status) (error worker : String) (s : Session)
    → let x = append_history i Status.handling to attempt error worker s in
      (x.0 ≡ ok tt) × (x.1.db.messages ≡ s.db.messages) × (x.1.now ≡ s.now)
unfolding append_history ignoring round_trip conclude append_history_sql
append_history-messages i attempt to error worker s =
    (refl, (go (next_wire s.wires)).0, (go (next_wire s.wires)).1)
  where
    go :
        (w : Wire)
        → let x =
            conclude w
              (tt, append_history_sql s.now i Status.handling to attempt error worker s.db)
              (record s { wires = rest_wires s.wires }) in
          (x.1.db.messages ≡ s.db.messages) × (x.1.now ≡ s.now)
    go made = (refl, refl)
    go refused = (refl, refl)
    go cut = (refl, refl)

module _ (st : ℕ → Db → Db) (i attempt : ℕ) (to : Status) (error worker what : String) where
  -- An UPDATE and its line that end without an error have updated the messages.
  update_and_record-messages :
      (s : Session)
      → let x = update_and_record what st i to attempt error worker s in
        IsOk x.0 → (x.1.db.messages ≡ (st s.now s.db).messages) × (x.1.now ≡ s.now)
  unfolding update_and_record context round_trip conclude
  update_and_record-messages s = go (next_wire s.wires)
    where
      go :
          (w : Wire)
          → let y =
              context what
                (λ s. conclude w (tt, st s.now s.db) (record s { wires = rest_wires s.wires }))
                s in
            let x =
              continue y.0 (λ u. append_history i Status.handling to attempt error worker) y.1 in
            IsOk x.0 → (x.1.db.messages ≡ (st s.now s.db).messages) × (x.1.now ≡ s.now)
      go made h =
          let kept =
            append_history-messages i attempt to error worker
              (record s { db = st s.now s.db; wires = rest_wires s.wires }) in
          (kept.1, kept.2)
      go refused h = elim h [ ]
      go cut h = elim h [ ]

module _ (d : Ids) where
  -- One of the acknowledgements is about the row: it names its id and its attempt, and the row is
  -- HANDLING.
  abbrev pub acknowledged : List BatchSucceedParam → Row → Bool
  acknowledged [] r = false
  acknowledged (p ∷ ps) r =
      (r.id == d.code p.message_id && (is_handling r.status && r.attempt == p.attempt))
      || acknowledged ps r

  abbrev pub acknowledged_row : ℕ → List BatchSucceedParam → Row → Row
  acknowledged_row now ps r =
      if acknowledged ps r
      then record r { status = Status.success; completed_at = some now; updated_at = now }
      else r

  acknowledged-succeed_row :
      (now : ℕ) (ps : List BatchSucceedParam) (r : Row)
      → acknowledged ps (succeed_row now r) ≡ false
  unfolding succeed_row
  acknowledged-succeed_row now [] r = refl
  acknowledged-succeed_row now (p ∷ ps) r = ground (arith, acknowledged-succeed_row now ps r)

  -- One acknowledgement before the others.
  acknowledged_row-first :
      (now : ℕ) (p : BatchSucceedParam) (ps : List BatchSucceedParam) (r : Row) (b : Bool)
      → holds (d.code p.message_id) p.attempt r ≡ b
      → acknowledged_row now ps (if b then succeed_row now r else r)
        ≡ acknowledged_row now (p ∷ ps) r
  unfolding holds succeed_row
  acknowledged_row-first now p ps r true q = rw (q, acknowledged-succeed_row now ps r) refl
  acknowledged_row-first now p ps r false q = rw q refl

  map-acknowledged_row :
      (now : ℕ) (p : BatchSucceedParam) (ps : List BatchSucceedParam) (rs : List Row)
      → map
          (acknowledged_row now ps)
          (update_where (holds (d.code p.message_id) p.attempt) (succeed_row now) rs)
        ≡ map (acknowledged_row now (p ∷ ps)) rs
  unfolding update_where
  map-acknowledged_row now p ps [] = refl
  map-acknowledged_row now p ps (r ∷ rs) =
      cc (acknowledged_row-first now p ps r _ refl, map-acknowledged_row now p ps rs)

  map-acknowledged_none : (now : ℕ) (rs : List Row) → map (acknowledged_row now []) rs ≡ rs
  map-acknowledged_none now [] = refl
  map-acknowledged_none now (r ∷ rs) = ap (λ xs. r ∷ xs) (map-acknowledged_none now rs)

  -- The messages after the statements of a whole batch.
  abbrev Finished : List BatchSucceedParam → Session → Result (Unit {0}) × Session → Type 0
  Finished ps s x = IsOk x.0 → x.1.db.messages ≡ map (acknowledged_row s.now ps) s.db.messages

  continue-Finished :
      (p : BatchSucceedParam) (ps : List BatchSucceedParam) (s : Session)
      → ((t : Session) → Finished ps t (succeed_each d ps t))
      → (x : Result (Unit {0}) × Session)
      → (IsOk x.0
          → (x.1.db.messages
              ≡ update_where
                  (holds (d.code p.message_id) p.attempt)
                  (succeed_row s.now)
                  s.db.messages)
            × (x.1.now ≡ s.now))
      → Finished (p ∷ ps) s (continue x.0 (λ u. succeed_each d ps) x.1)
  continue-Finished p ps s rest (ok u, t) first h =
      rest t h
      ∙ ap (λ n. map (acknowledged_row n ps) t.db.messages) (first tt).1
      ∙ ap (map (acknowledged_row s.now ps)) (first tt).0
      ∙ map-acknowledged_row s.now p ps s.db.messages
  continue-Finished p ps s rest (err e, t) first h = elim h [ ]

  succeed_each-Finished :
      (ps : List BatchSucceedParam) (s : Session) → Finished ps s (succeed_each d ps s)
  unfolding succeed_each
  succeed_each-Finished [] s = λ h. sym (map-acknowledged_none s.now s.db.messages)
  succeed_each-Finished (p ∷ ps) s =
      let i = d.code p.message_id in
      let st : ℕ → Db → Db = λ now. update_sql (holds i p.attempt) (succeed_row now) in
      continue-Finished p ps s (succeed_each-Finished ps)
        (update_and_record "tickr/mysql: batch succeed update" st i Status.success p.attempt ""
          p.worker_id s)
        (update_and_record-messages st i p.attempt Status.success "" p.worker_id
          "tickr/mysql: batch succeed update" s)

  -- BatchSucceed of the MySQL store is all or nothing, whatever becomes of BeginTx, of its statements
  -- and of Commit. Either the tables are as before, and it answers an error; or every message that
  -- one of the acknowledgements is about (it is HANDLING, under that attempt) is SUCCESS, completed
  -- now, and every other message is as before.
  pub batch_succeed-all_or_none :
      (ps : List BatchSucceedParam) (s : Session)
      → let x = batch_succeed d ps s in
        ((x.1.db ≡ s.db) × (IsOk x.0 → ⊥))
        ⊎ (x.1.db.messages ≡ map (acknowledged_row s.now ps) s.db.messages)
  unfolding batch_succeed
  batch_succeed-all_or_none [] s = inr (sym (map-acknowledged_none s.now s.db.messages))
  batch_succeed-all_or_none (p ∷ ps) s =
      let t = record s { wires = rest_wires s.wires } in
      let each = succeed_each-Finished (p ∷ ps) t in
      elim (transaction-IsWhole (wrapped "tickr/mysql: batch succeed begin") bare_commit
        (succeed_each d (p ∷ ps)) s) [
          | inl nothing ↦ inl nothing
          | inr all ↦ inr (ap (λ db. db.messages) all.0 ∙ each all.1)
        ]
