-- ===== src/Postgres/Session/Outcomes.antt =====
-- What one round trip can come to.
use tickr.Prelude.{ℕ, String, [], ◌≡◌, refl, ap, ◌⊎◌, inl, inr}
use tickr.Postgres.Table.{Db}
use tickr.Postgres.Session.{
  Driver, Session, ok, Action, Wire, made, refused, cut, next_wire, rest_wires, conclude,
  round_trip, with_id, when_parsed,
}

-- The tables are as before, or the statement has run once.
abbrev pub OnceOrNot : Db → Db → Db → Type 0
OnceOrNot before after b = (b ≡ before) ⊎ (b ≡ after)

module _ {A : Type 0} (st : ℕ → Db → A × Db) (s : Session) where
  conclude-once :
      (w : Wire) (a : A) (db : Db) (t : Session)
      → t.db ≡ s.db
      → OnceOrNot s.db db (conclude w (a, db) t).1.db
  unfolding conclude
  conclude-once made a db t e = inr refl
  conclude-once refused a db t e = inl e
  conclude-once cut a db t e = inr refl

  pub round_trip-once : OnceOrNot s.db (st s.now s.db).1 (round_trip st s).1.db
  unfolding round_trip
  round_trip-once = conclude-once (next_wire s.wires) _ _ _ refl

  -- With no failure foretold the statement runs and answers.
  pub round_trip-made :
      s.wires ≡ []
      → round_trip st s ≡ (ok (st s.now s.db).0, record s { db = (st s.now s.db).1; wires = [] })
  unfolding round_trip next_wire rest_wires conclude
  round_trip-made e = rw e refl

-- An id that the driver printed is parsed back.
pub with_id-format :
    {A : Type 0} (d : Driver) (what : String) (i : ℕ) (run : ℕ → Action A) (s : Session)
    → with_id d what (d.format i) run s ≡ run i s
unfolding with_id
with_id-format d what i run s = ap (λ o. when_parsed what o run s) (d.parse-format i)
