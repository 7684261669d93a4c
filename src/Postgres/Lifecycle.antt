-- ===== src/Postgres/Lifecycle.antt =====
-- The state machine of a message (message.go, ARCHITECTURE.md), as steps of one row of the table.
pub mod Statements
pub mod Runs
use tickr.Prelude.{
  ℕ, String, ◌+◌, ◌≤◌, ◌==◌, Bool, true, false, List, [], ◌∷◌, ◌++◌, Option, none, some, ◌≡◌, refl,
  ap, sym, subst, ◌-◌, ◌∙◌, inl, inr, ◌⊎◌, Bool-cases, Option-cases, if◌then◌else◌, map_option,
  arith,
}
use tickr.Message.{Status, terminal}
use tickr.Postgres.Table.{Row, Db, find_row, update_where, delete_where, is_pending}
use tickr.Postgres.Calls.{
  Kind, reading, producing, claiming, succeeding, failing, releasing, extending, requeuing,
  reclaiming, purging,
}
use tickr.Postgres.Rows.{
  UniqueIds, KeepsId, find_row-update, find_row-delete, unless_row, UniqueIds-update,
  UniqueIds-delete, UniqueIds-append, find_row-append, find_row_self, or_row,
}

-- What a call of each kind may do to the status and the attempt counter of a row.
abbrev pub Moved : Kind → Row → Row → Type 0
Moved claiming r r' =
    (is_pending r.status ≡ true) × (r'.status ≡ Status.handling) × (r'.attempt ≡ r.attempt + 1)
Moved succeeding r r' =
    (r.status ≡ Status.handling) × (r'.status ≡ Status.success) × (r'.attempt ≡ r.attempt)
Moved failing r r' =
    (r.status ≡ Status.handling)
    × ((r'.status ≡ Status.retrying) ⊎ (r'.status ≡ Status.dead))
    × (r'.attempt ≡ r.attempt)
Moved releasing r r' =
    (r.status ≡ Status.handling) × (r'.status ≡ Status.retrying) × (r'.attempt ≡ r.attempt - 1)
Moved extending r r' =
    (r.status ≡ Status.handling) × (r'.status ≡ Status.handling) × (r'.attempt ≡ r.attempt)
Moved requeuing r r' = (r.status ≡ Status.dead) × (r'.status ≡ Status.created) × (r'.attempt ≡ 0)
Moved reclaiming r r' =
    (r.status ≡ Status.handling) × (r'.status ≡ Status.retrying) × (r'.attempt ≡ r.attempt)
Moved _ r r' = ⊥

-- What the producer set, and never changes.
pub record Envelope : Type 0 where
  pub id : ℕ
  pub event_type : String
  pub payload : List ℕ
  pub headers : List (String × String)
  pub idempotency_key : Option String
  pub max_attempts : ℕ
  pub shard : ℕ
  pub created_at : ℕ

abbrev pub envelope : Row → Envelope
envelope r = record {
  id = r.id;
  event_type = r.event_type;
  payload = r.payload;
  headers = r.headers;
  idempotency_key = r.idempotency_key;
  max_attempts = r.max_attempts;
  shard = r.shard;
  created_at = r.created_at;
}

-- Only a producer inserts, and only a purge deletes.
abbrev pub inserts : Kind → Bool
inserts producing = true
inserts _ = false

abbrev pub deletes : Kind → Bool
deletes purging = true
deletes _ = false

not_both : (k : Kind) → inserts k ≡ true → deletes k ≡ true → ⊥
not_both producing e f = ground (arith, f)
not_both purging e f = ground (arith, e)
not_both reading e f = ground (arith, e)
not_both claiming e f = ground (arith, e)
not_both succeeding e f = ground (arith, e)
not_both failing e f = ground (arith, e)
not_both releasing e f = ground (arith, e)
not_both extending e f = ground (arith, e)
not_both requeuing e f = ground (arith, e)
not_both reclaiming e f = ground (arith, e)

-- The laws of a storage's moves.
pub record Moves (M : Kind → Row → Row → Type 0) : Type 0 where
  pub trans_M : (k : Kind) (r x y : Row) → M k r x → M k x y → M k r y
  pub no_insert : (k : Kind) (r x : Row) → inserts k ≡ true → M k r x → ⊥
  pub no_delete : (k : Kind) (r x : Row) → deletes k ≡ true → M k r x → ⊥

-- What follows holds for the state machine of any storage: `M` are the moves of each kind of call.
module _ (M : Kind → Row → Row → Type 0) where
  -- A row that stays as it is, or keeps its envelope and makes a move.
  abbrev pub Evolves : Kind → Row → Row → Type 0
  Evolves k r r' = (r' ≡ r) ⊎ ((envelope r' ≡ envelope r) × M k r r')

  -- A call, seen at one primary key: the row stays away, is inserted by a producer, goes on, or is
  -- deleted by a purge once it is terminal.
  pub data Change (k : Kind) (a b : Option Row) : Type 0 where
    absent : a ≡ none → b ≡ none → Change k a b
    born :
        (r : Row)
        → inserts k ≡ true
        → a ≡ none
        → b ≡ some r
        → r.status ≡ Status.created
        → r.attempt ≡ 0
        → Change k a b
    evolved : (r r' : Row) → a ≡ some r → b ≡ some r' → Evolves k r r' → Change k a b
    purged :
        (r : Row)
        → deletes k ≡ true
        → a ≡ some r
        → b ≡ none
        → terminal r.status ≡ true
        → Change k a b

  -- A table goes on to another one.
  pub record Advance (k : Kind) (a b : List Row) : Type 0 where
    pub unique : UniqueIds b
    pub change : (i : ℕ) → Change k (find_row i a) (find_row i b)

  unmoved : (k : Kind) (a : Option Row) → Change k a a
  unmoved k none = absent refl refl
  unmoved k (some r) = evolved r r refl refl (inl refl)

  pub Advance-refl : (k : Kind) (a : List Row) → UniqueIds a → Advance k a a
  Advance-refl k a u = record { unique = u; change = λ i. unmoved k (find_row i a) }

  module _ (laws : Moves M) (k : Kind) where
    Evolves-trans : (r x y : Row) → Evolves k r x → Evolves k x y → Evolves k r y
    Evolves-trans r x y (inl e) (inl f) = inl (f ∙ e)
    Evolves-trans r x y (inl e) (inr h) = subst (λ z. Evolves k z y) e (inr h)
    Evolves-trans r x y (inr g) (inl f) = subst (λ z. Evolves k r z) (sym f) (inr g)
    Evolves-trans r x y (inr g) (inr h) = inr (h.0 ∙ g.0, laws.trans_M k r x y g.1 h.1)

    some-inj : (r x : Row) (b : Option Row) → b ≡ some r → b ≡ some x → r ≡ x
    some-inj r x b e f = ap (λ o. or_else o r) (sym e ∙ f)
      where
        or_else : Option Row → Row → Row
        or_else none d = d
        or_else (some y) d = y

    Change-trans : (a b c : Option Row) → Change k a b → Change k b c → Change k a c
    Change-trans a b c (absent e f) (absent g h) = absent e h
    Change-trans a b c (absent e f) (born r q g h s t) = born r q e h s t
    Change-trans a b c (absent e f) (evolved r x g h v) = absurd (ground (arith, f, g))
    Change-trans a b c (absent e f) (purged r q g h t) = absurd (ground (arith, f, g))
    Change-trans a b c (born r q e f s t) (absent g h) = absurd (ground (arith, f, g))
    Change-trans a b c (born r q e f s t) (born x q' g h s' t') = absurd (ground (arith, f, g))
    Change-trans a b c (born r q e f s t) (evolved x y g h (inl v)) =
        born r q e (h ∙ ap some (v ∙ sym (some-inj r x b f g))) s t
    Change-trans a b c (born r q e f s t) (evolved x y g h (inr v)) =
        absurd (laws.no_insert k x y q v.1)
    Change-trans a b c (born r q e f s t) (purged x q' g h t') = absurd (not_both k q q')
    Change-trans a b c (evolved r x e f v) (absent g h) = absurd (ground (arith, f, g))
    Change-trans a b c (evolved r x e f v) (born y q g h s t) = absurd (ground (arith, f, g))
    Change-trans a b c (evolved r x e f v) (evolved y z g h w) =
        evolved r z e h
          (Evolves-trans r x z v (subst (λ y. Evolves k y z) (sym (some-inj x y b f g)) w))
    Change-trans a b c (evolved r x e f (inl v)) (purged y q g h t) =
        purged r q e h (subst (λ y. terminal y.status ≡ true) (sym (some-inj x y b f g) ∙ v) t)
    Change-trans a b c (evolved r x e f (inr v)) (purged y q g h t) =
        absurd (laws.no_delete k r x q v.1)
    Change-trans a b c (purged r q e f t) (absent g h) = purged r q e h t
    Change-trans a b c (purged r q e f t) (born x q' g h s' t') = absurd (not_both k q' q)
    Change-trans a b c (purged r q e f t) (evolved x y g h v) = absurd (ground (arith, f, g))
    Change-trans a b c (purged r q e f t) (purged x q' g h t') = absurd (ground (arith, f, g))

    pub Advance-trans : {a b c : List Row} → Advance k a b → Advance k b c → Advance k a c
    Advance-trans {a} {b} {c} v w = record {
      unique = w.unique;
      change =
          λ i. Change-trans (find_row i a) (find_row i b) (find_row i c) (v.change i) (w.change i);
    }

  module _ (k : Kind) where
    -- An UPDATE whose rows go on.
    module _ (p : Row → Bool) (f : Row → Row) (ms : List Row) (keeps : KeepsId f)
        (goes : (r : Row) → find_row r.id ms ≡ some r → p r ≡ true → Evolves k r (f r)) where
      update_row-Evolves :
          (r : Row) → find_row r.id ms ≡ some r → Evolves k r (if p r then f r else r)
      update_row-Evolves r found = elim (Bool-cases (p r)) [
        | inl e ↦ rw e (goes r found e)
        | inr e ↦ rw e (inl refl)
      ]

      update-Change : (i : ℕ) → Change k (find_row i ms) (find_row i (update_where p f ms))
      update-Change i = elim (Option-cases (find_row i ms)) [
        | inl e ↦ absent e (find_row-update i p f ms keeps ∙ ap (map_option _) e)
        | inr (r, e) ↦
            evolved r (if p r then f r else r) e
              (find_row-update i p f ms keeps ∙ ap (map_option _) e)
              (update_row-Evolves r (find_row_self i ms r e))
      ]

      pub update-Advance : UniqueIds ms → Advance k ms (update_where p f ms)
      update-Advance u = record { unique = UniqueIds-update p f ms keeps u; change = update-Change }

    -- A DELETE of terminal rows.
    module _ (may : deletes k ≡ true) (p : Row → Bool) (ms : List Row)
        (over : (r : Row) → find_row r.id ms ≡ some r → p r ≡ true → terminal r.status ≡ true) where
      delete-Change :
          UniqueIds ms → (i : ℕ) → Change k (find_row i ms) (find_row i (delete_where p ms))
      delete-Change u i = elim (Option-cases (find_row i ms)) [
        | inl e ↦ absent e (find_row-delete i p ms u ∙ ap (unless_row p) e)
        | inr (r, e) ↦ elim (Bool-cases (p r)) [
          | inl q ↦
              purged r may e (find_row-delete i p ms u ∙ ap (unless_row p) e ∙ rw q refl)
                (over r (find_row_self i ms r e) q)
          | inr q ↦
              evolved r r e (find_row-delete i p ms u ∙ ap (unless_row p) e ∙ rw q refl) (inl refl)
        ]
      ]

      pub delete-Advance : UniqueIds ms → Advance k ms (delete_where p ms)
      delete-Advance u = record { unique = UniqueIds-delete p ms u; change = delete-Change u }

    -- An INSERT of a new row.
    module _ (may : inserts k ≡ true) (r : Row) (ms : List Row)
        (new : find_row r.id ms ≡ none) where
      append-Change :
          r.status ≡ Status.created
          → r.attempt ≡ 0
          → (i : ℕ) → Change k (find_row i ms) (find_row i (ms ++ r ∷ []))
      unfolding find_row
      append-Change born_created born_fresh i = elim (Option-cases (find_row i ms)) [
        | inr (q, e) ↦
            evolved q q e
              (find_row-append i ms (r ∷ []) ∙ ap (λ o. or_row o (find_row i (r ∷ []))) e)
              (inl refl)
        | inl e ↦ elim (Bool-cases (r.id == i)) [
          | inl q ↦
              born r may e
                (find_row-append i ms (r ∷ [])
                  ∙ ap (λ o. or_row o (find_row i (r ∷ []))) e
                  ∙ rw q refl)
                born_created born_fresh
          | inr q ↦ absent e (
              find_row-append i ms (r ∷ [])
              ∙ ap (λ o. or_row o (find_row i (r ∷ []))) e
              ∙ rw q refl)
        ]
      ]

      pub append-Advance :
          r.status ≡ Status.created → r.attempt ≡ 0 → UniqueIds ms → Advance k ms (ms ++ r ∷ [])
      append-Advance born_created born_fresh u = record {
        unique = UniqueIds-append ms r u new;
        change = append-Change born_created born_fresh;
      }

Moved-trans : (k : Kind) (r x y : Row) → Moved k r x → Moved k x y → Moved k r y
Moved-trans claiming r x y g h = absurd (ground (arith, g, h))
Moved-trans succeeding r x y g h = absurd (ground (arith, g, h))
Moved-trans failing r x y g h = absurd (ground (arith, g, h))
Moved-trans releasing r x y g h = absurd (ground (arith, g, h))
Moved-trans extending r x y g h = (g.0, h.1, h.2 ∙ g.2)
Moved-trans requeuing r x y g h = absurd (ground (arith, g, h))
Moved-trans reclaiming r x y g h = absurd (ground (arith, g, h))
Moved-trans reading r x y g h = g
Moved-trans producing r x y g h = g
Moved-trans purging r x y g h = g

Moved-insert : (k : Kind) (r x : Row) → inserts k ≡ true → Moved k r x → ⊥
Moved-insert producing r x e g = g
Moved-insert k r x e g = absurd (ground (arith, e))

Moved-delete : (k : Kind) (r x : Row) → deletes k ≡ true → Moved k r x → ⊥
Moved-delete purging r x e g = g
Moved-delete k r x e g = absurd (ground (arith, e))

pub Moved-Moves : Moves Moved
Moved-Moves = record { trans_M = Moved-trans; no_insert = Moved-insert; no_delete = Moved-delete }
