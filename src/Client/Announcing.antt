-- ===== src/Client/Announcing.antt =====
-- What Client.EnqueueBatch tells of what its storage answers (client.go).
use tickr.Prelude.{
  ℕ, suc, String, List, [], ◌∷◌, ◌++◌, false, not, Option, none, some, ◌≡◌, refl, sym, ap, ◌∙◌, inl,
  inr, Bool-cases, map, All, select, some_of, str_eq, arith,
}
use mathlib.Core.List.{append-nil, append_assoc}
use tickr.Errors.{Error}
use tickr.Message.{Message, InboundMessage}
use tickr.Storage.{message_enqueued}
use tickr.Client.{
  Client, Counted, params_of, batch_params, told, told_once, announce, enqueue_batch,
}

-- The types of the messages that were answered.
abbrev pub types_of : List (Option InboundMessage) → List String
types_of [] = []
types_of (none ∷ os) = types_of os
types_of (some m ∷ os) = m.type_name ∷ types_of os

abbrev pub id_or_none : Option InboundMessage → String
id_or_none none = ""
id_or_none (some m) = m.id

-- Each element once, where it comes first.
abbrev pub firsts : List String → List String
firsts [] = []
firsts (t ∷ ts) = t ∷ select (λ u. not (str_eq u t)) (firsts ts)

abbrev unseen : List String → List String → List String
unseen seen ts = select (λ u. not (some_of (str_eq u) seen)) ts

unseen-new :
    (t : String) (seen us : List String)
    → unseen seen (select (λ u. not (str_eq u t)) us) ≡ unseen (t ∷ seen) us
unseen-new t seen [] = refl
unseen-new t seen (u ∷ us) = ground (arith, unseen-new t seen us)

unseen_none : (ts : List String) → unseen [] ts ≡ ts
unseen_none [] = refl
unseen_none (t ∷ ts) = ap (λ us. t ∷ us) (unseen_none ts)

module _ {S : Type 0} (c : Client S) where
  -- A notification of each type of a list.
  abbrev pub tell_all : List String → S → S
  tell_all [] s = s
  tell_all (t ∷ ts) s =
      tell_all ts (told c c.storage.notify t (record { store = s; metrics = [] })).store

  announce-ids :
      (os : List (Option InboundMessage)) (seen : List String) (w : Counted S)
      → (announce c seen os w).0 ≡ map id_or_none os
  unfolding announce
  announce-ids [] seen w = refl
  announce-ids (none ∷ os) seen w = ap (λ ids. "" ∷ ids) (announce-ids os seen w)
  announce-ids (some m ∷ os) seen w = ap (λ ids. m.id ∷ ids) (announce-ids os _ _)

  batch_params-map :
      (now i : ℕ) (ms : List Message)
      → All (λ m. str_eq m.type_name "" ≡ false) ms
      → batch_params c now i ms ≡ inr (map (params_of c now) ms)
  unfolding batch_params
  batch_params-map now i [] h = refl
  batch_params-map now i (m ∷ ms) h = rw (h.0, batch_params-map now (suc i) ms h.1) refl

  -- The storage's state does not depend on the metrics.
  told-store :
      (f : Option (String → S → Error × S)) (t : String) (w : Counted S)
      → (told c f t w).store ≡ (told c f t (record { store = w.store; metrics = [] })).store
  told-store none t w = refl
  told-store (some f) t w = refl

  told-metrics :
      (f : Option (String → S → Error × S)) (t : String) (w : Counted S)
      → (told c f t w).metrics ≡ w.metrics
  told-metrics none t w = refl
  told-metrics (some f) t w = refl

  told_once-metrics :
      (seen : List String) (t : String) (w : Counted S) → (told_once c seen t w).metrics ≡ w.metrics
  told_once-metrics seen t w = elim (Bool-cases (some_of (str_eq t) seen)) [
    | inl e ↦ rw e refl
    | inr e ↦ rw e (told-metrics c.storage.notify t w)
  ]

  announce-metrics :
      (os : List (Option InboundMessage)) (seen : List String) (w : Counted S)
      → (announce c seen os w).1.metrics ≡ w.metrics ++ map message_enqueued (types_of os)
  unfolding announce
  announce-metrics [] seen w = sym (append-nil w.metrics)
  announce-metrics (none ∷ os) seen w = announce-metrics os seen w
  announce-metrics (some m ∷ os) seen w =
      let counted = record w { metrics = w.metrics ++ message_enqueued m.type_name ∷ [] } in
      announce-metrics os (m.type_name ∷ seen) (told_once c seen m.type_name counted)
      ∙ (ap (λ xs. xs ++ map message_enqueued (types_of os))
            (told_once-metrics seen m.type_name counted)
          ∙ append_assoc w.metrics (message_enqueued m.type_name ∷ [])
              (map message_enqueued (types_of os)))

  announce-store :
      (os : List (Option InboundMessage)) (seen : List String) (w : Counted S)
      → (announce c seen os w).1.store ≡ tell_all (unseen seen (firsts (types_of os))) w.store
  unfolding announce
  announce-store [] seen w = refl
  announce-store (none ∷ os) seen w = announce-store os seen w
  announce-store (some m ∷ os) seen w =
      let t = m.type_name in
      let ts = firsts (types_of os) in
      let counted = record w { metrics = w.metrics ++ message_enqueued m.type_name ∷ [] } in
      elim (Bool-cases (some_of (str_eq t) seen)) [
        | inl e ↦ rw (e, unseen-new t seen ts) (announce-store os (t ∷ seen) counted)
        | inr e ↦
            rw (e, unseen-new t seen ts)
              (announce-store os (t ∷ seen) (told c c.storage.notify t counted)
                ∙ ap (tell_all (unseen (t ∷ seen) ts)) (told-store c.storage.notify t counted))
      ]

  -- Client.EnqueueBatch of one message or more, each with a type: the parameters go to the storage in
  -- one call; the answer has the ids of the messages that the storage answers, parallel to them
  -- ("" for a nil), and the storage's error; each of these messages is counted as enqueued; and each of
  -- their types is notified once, in the order in which the types first occur, also for a message that
  -- was there before and when the storage answers an error.
  pub enqueue_batch-firsts :
      (m : Message) (ms : List Message) (w : Counted S)
      → All (λ m. str_eq m.type_name "" ≡ false) (m ∷ ms)
      → let stored =
          c.storage.enqueue_batch (map (params_of c (c.storage.clock w.store)) (m ∷ ms)) w.store in
        ((enqueue_batch c (m ∷ ms) w).0 ≡ (map id_or_none stored.0.0, stored.0.1))
        × ((enqueue_batch c (m ∷ ms) w).1.metrics
            ≡ w.metrics ++ map message_enqueued (types_of stored.0.0))
        × ((enqueue_batch c (m ∷ ms) w).1.store ≡ tell_all (firsts (types_of stored.0.0)) stored.1)
  unfolding enqueue_batch
  enqueue_batch-firsts m ms w typed =
      let now = c.storage.clock w.store in
      let stored = c.storage.enqueue_batch (map (params_of c now) (m ∷ ms)) w.store in
      let w' = record w { store = stored.1 } in
      rw (batch_params-map now 0 (m ∷ ms) typed) (
        ap (λ ids. (ids, stored.0.1)) (announce-ids stored.0.0 [] w'),
        announce-metrics stored.0.0 [] w',
        announce-store stored.0.0 [] w'
            ∙ ap (λ ts. tell_all ts stored.1) (unseen_none (firsts (types_of stored.0.0))),
      )
