-- ===== src/Postgres/Session/Within.antt =====
-- Actions that stay within a preorder of the tables, whatever becomes of their round trips.
use tickr.Prelude.{
  ℕ, ◌<◌, arith, String, Bool, true, false, Option, none, some, List, [], ◌∷◌, ltb, ◌≡◌, refl,
}
use tickr.Errors.{Err, Error}
use tickr.Postgres.Table.{Db}
use tickr.Postgres.Session.{
  Driver, Session, Result, ok, err, Action, ◌>>=◌, continue, pure, raise, Wire, made, refused, cut,
  next_wire, rest_wires, conclude, round_trip, context, with_id, when_parsed, send_batch,
  rolled_back, answer, pick_shard, draw, new_id, supply,
}

abbrev pub Within : (Db → Db → Type 0) → {X : Type 0} → (Session → X × Session) → Type 0
Within R m = (s : Session) → R s.db (m s).1.db

pub pick_shard-db : (s : Session) → (pick_shard s).1.db ≡ s.db
unfolding pick_shard
pick_shard-db s = go s.draws
  where
    go : (ks : List ℕ) → (draw ks s).1.db ≡ s.db
    go [] = refl
    go (k ∷ ks) = refl

pub new_id-db : (s : Session) → (new_id s).1.db ≡ s.db
unfolding new_id
new_id-db s = go s.ids
  where
    go : (ks : List ℕ) → (supply ks s).1.db ≡ s.db
    go [] = refl
    go (k ∷ ks) = refl

-- A drawn shard is one of the sixteen.
pub pick_shard-lt : (s : Session) → (pick_shard s).0 < 16
unfolding pick_shard
pick_shard-lt s = go s.draws
  where
    go : (ks : List ℕ) → (draw ks s).0 < 16
    go [] = omega arith
    go (k ∷ ks) = omega arith

module _ (R : Db → Db → Type 0) (R-refl : (a : Db) → R a a)
    (R-trans : (a b c : Db) → R a b → R b c → R a c) where
  pub conclude-Within :
      {A : Type 0} (w : Wire) (a : A) (db : Db) (s : Session)
      → R s.db db
      → R s.db (conclude w (a, db) s).1.db
  unfolding conclude
  conclude-Within made a db s h = h
  conclude-Within refused a db s h = R-refl s.db
  conclude-Within cut a db s h = h

  pub round_trip-Within :
      {A : Type 0} (st : ℕ → Db → A × Db)
      → ((now : ℕ) (db : Db) → R db (st now db).1)
      → Within R (round_trip st)
  unfolding round_trip
  round_trip-Within st h s =
      conclude-Within (next_wire s.wires) (st s.now s.db).0 (st s.now s.db).1
        (record s { wires = rest_wires s.wires }) (h s.now s.db)

  pub pure-Within : {A : Type 0} (a : A) → Within R (pure a)
  pure-Within a s = R-refl s.db

  pub raise-Within : (A : Type 0) (e : Err) → Within R (raise {A = A} e)
  raise-Within A e s = R-refl s.db

  pub continue-Within :
      {A B : Type 0} (f : A → Action B) (start : Db) (r : Result A) (s : Session)
      → ((a : A) → Within R (f a))
      → R start s.db
      → R start (continue r f s).1.db
  continue-Within f start (ok a) s h k = R-trans start s.db (f a s).1.db k (h a s)
  continue-Within f start (err e) s h k = k

  pub bind-Within :
      {A B : Type 0} (m : Action A) (f : A → Action B)
      → Within R m
      → ((a : A) → Within R (f a))
      → Within R (m >>= f)
  bind-Within m f h k s = continue-Within f s.db (m s).0 (m s).1 k (h s)

  pub context-Within :
      {A : Type 0} (what : String) (m : Action A) → Within R m → Within R (context what m)
  unfolding context
  context-Within what m h s = h s

  when_parsed-Within :
      {A : Type 0} (what : String) (o : Option ℕ) (run : ℕ → Action A)
      → ((i : ℕ) → Within R (run i))
      → Within R (when_parsed what o run)
  when_parsed-Within what none run h s = R-refl s.db
  when_parsed-Within what (some i) run h s = h i s

  pub with_id-Within :
      {A : Type 0} (d : Driver) (what id : String) (run : ℕ → Action A)
      → ((i : ℕ) → Within R (run i))
      → Within R (with_id d what id run)
  unfolding with_id
  with_id-Within d what id run = when_parsed-Within what (d.parse id) run

  answer-Within : (e : Error) → Within R (answer e)
  unfolding answer
  answer-Within none s = R-refl s.db
  answer-Within (some e) s = R-refl s.db

  rolled_back-Within :
      (e : Error) (b : Bool) (effect : Db → Db) (db : Db)
      → R db (effect db)
      → R db (rolled_back e b effect db).1
  rolled_back-Within e false effect db h = h
  rolled_back-Within none true effect db h = h
  rolled_back-Within (some e) true effect db h = R-refl db

  pub send_batch-Within :
      (d : Driver) (queued sent : ℕ) (effect : ℕ → Db → Db)
      → ((now : ℕ) (db : Db) → R db (effect now db))
      → Within R (send_batch d queued sent effect)
  unfolding send_batch
  send_batch-Within d queued sent effect h =
      bind-Within _ answer
        (round_trip-Within (λ now. rolled_back d.exec_past_end (ltb queued sent) (effect now))
          (λ now db.
            rolled_back-Within d.exec_past_end (ltb queued sent) (effect now) db (h now db)))
        answer-Within
