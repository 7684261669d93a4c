-- ===== src/Handlers/Typed/RoundTrip.antt =====
-- A body from its producer to its handler: Encode, Enqueue, Claim and the typed handler
-- (handler_typed.go, client.go, storage/postgres/postgres.go).
use mathlib.Core.List.{Memᴰ}
use tickr.Prelude.{
  ℕ, String, List, [], ◌∷◌, ◌++◌, map, Bool, true, false, Option, none, some, ℤ, ◌≡◌, ◌≢◌, refl,
  sym, ap, subst, ◌∙◌, ◌⊎◌, inl, str_eq, ==_refl, All, arith,
}
use tickr.Message.{EnqueueParams}
use tickr.Postgres.Table.{Row, find_row}
use tickr.Postgres.Statements.{find_by_idem_sql, claim_picks, claim_row, claim_sql}
use tickr.Postgres.Session.{Driver, Session, Config, new_id, scan_message}
use tickr.Postgres.Enqueue.{enqueue, new_row}
use tickr.Postgres.Rows.{UniqueIds, UniqueIds-append, Stored, find_row-append}
use tickr.Postgres.Dedup.{row_made, enqueue_inserts}
use tickr.Postgres.Lifecycle.Statements.{claim_picks-Stored}
use tickr.Handlers.Typed.{Json, TypedHandler, encode, decode, wrap_json}

-- What is decoded is what was encoded, and nothing is encoded as the empty text.
pub record IsCodec {T : Type 0} (json : Json T) : Type 0 where
  pub unmarshal-marshal :
      (body : T) (bytes : List ℕ) → json.marshal body ≡ inl bytes → json.unmarshal bytes ≡ inl body
  pub not_empty : (body : T) → json.marshal body ≢ inl []

encode-marshal :
    {T : Type 0} (json : Json T) (body : T) (bytes : List ℕ)
    → encode json body ≡ inl bytes
    → json.marshal body ≡ inl bytes
unfolding encode
encode-marshal json body bytes h = ground arith

decode-encode :
    {T : Type 0} (json : Json T) (body : T) (bytes : List ℕ)
    → IsCodec json
    → encode json body ≡ inl bytes
    → decode json bytes ≡ inl body
unfolding decode
decode-encode json body [] codec h = absurd (codec.not_empty body (encode-marshal json body [] h))
decode-encode json body (b ∷ bs) codec h =
    codec.unmarshal-marshal body (b ∷ bs) (encode-marshal json body (b ∷ bs) h)

abbrev or_payload : Row → Option Row → List ℕ
or_payload x none = x.payload
or_payload x (some r) = r.payload

-- The message of a claimed row has the payload of the row that is stored.
claimed-payload :
    (now : ℕ) (worker : String) (lease : ℤ) (ms xs : List Row) (p : Row → Bool) (q r : Row)
    → All (Stored ms p) xs
    → Memᴰ q (map (claim_row now worker lease) xs)
    → find_row q.id ms ≡ some r
    → q.payload ≡ r.payload
unfolding claim_row
claimed-payload now worker lease ms [] p q r all m found = elim m [ ]
claimed-payload now worker lease ms (x ∷ xs) p q r all (Memᴰ.head e) found =
    let stored : find_row q.id ms ≡ some x =
      subst (λ j. find_row j ms ≡ some x) (sym (ap (λ y. y.id) e)) all.0.0 in
    ap (λ y. y.payload) e ∙ ap (or_payload x) (sym stored ∙ found)
claimed-payload now worker lease ms (x ∷ xs) p q r all (Memᴰ.tail m) found =
    claimed-payload now worker lease ms xs p q r all.1 m found

row_made-found :
    (c : Config) (d : Driver) (p : EnqueueParams) (s : Session) (id : ℕ)
    → find_row (new_id s).0 s.db.messages ≡ none
    → id ≡ (new_id s).0
    → find_row id (s.db.messages ++ row_made c d p s ∷ []) ≡ some (row_made c d p s)
unfolding find_row new_row
row_made-found c d p s id fresh e =
    rw (e, find_row-append (new_id s).0 s.db.messages (row_made c d p s ∷ []), fresh)
      (ground (arith, ==_refl (new_id s).0))

-- A body that Encode has encoded, and that Enqueue stored under a new id, reaches the typed handler
-- as it was: of every claim on the tables after that, the message with this id is handled by the
-- handler on that body. json.Unmarshal reads back what json.Marshal wrote, which is never empty; the
-- message has no key or a free one, the ids are unique, no round trip of Enqueue fails, and the
-- store has no partitions and no notifications.
pub claimed-wrap_json :
    {T : Type 0} (json : Json T) (h : TypedHandler T) (body : T) (bytes : List ℕ) (c : Config)
    (d : Driver) (p : EnqueueParams) (s : Session) (now : ℕ) (types : Option (List String))
    (batch : ℕ) (worker : String) (lease : ℤ) (shard : Option ℕ) (q : Row)
    → IsCodec json
    → encode json body ≡ inl bytes
    → p.payload ≡ bytes
    → s.wires ≡ []
    → c.partitioned ≡ false
    → c.notifier_disabled ≡ true
    → (str_eq p.idempotency_key "" ≡ true)
      ⊎ (find_by_idem_sql p.event_type p.idempotency_key s.db.messages ≡ none)
    → UniqueIds s.db.messages
    → find_row (new_id s).0 s.db.messages ≡ none
    → q.id ≡ (new_id s).0
    → Memᴰ q (claim_sql now types batch worker lease shard (enqueue c d p s).1.db).0
    → wrap_json json h (scan_message d q) ≡ h (scan_message d q) body
unfolding wrap_json scan_message
claimed-wrap_json json h body bytes c d p s now types batch worker lease shard q codec encodes sent
      quiet whole silent free u fresh same m =
    let inserted = (enqueue_inserts c d p s quiet whole silent free fresh).1 in
    let ms = (enqueue c d p s).1.db.messages in
    let unique : UniqueIds ms =
      subst UniqueIds (sym inserted)
        (UniqueIds-append s.db.messages (row_made c d p s) u (unfold new_row in fresh)) in
    let found : find_row q.id ms ≡ some (row_made c d p s) =
      subst (λ x. find_row q.id x ≡ some (row_made c d p s)) (sym inserted)
        (row_made-found c d p s q.id fresh same) in
    let payload : q.payload ≡ bytes =
      claimed-payload now worker lease ms (claim_picks now types batch shard ms) _ q
        (row_made c d p s) (claim_picks-Stored now types batch shard ms unique)
        (unfold claim_sql in m) found
      ∙ (unfold new_row in sent) in
    rw (payload, decode-encode json body bytes codec encodes) refl
