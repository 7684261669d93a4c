-- ===== src/Engine/Flusher.antt =====
-- ackFlusher of engine.go: completed attempts are acknowledged in batches.
use tickr.Prelude.{
  ℕ, ◌≤◌, ◌<◌, List, [], ◌∷◌, ◌++◌, Option, none, some, leb, if◌then◌else◌, length, length-append,
  All-append, ◌≡◌, ◌⊎◌, All, refl, arith, inl, inr, ap, ◌∙◌, sym, subst,
}
use mathlib.Core.List.{append-nil, append_assoc}
use tickr.Errors.{Error}
use tickr.Message.{BatchSucceedParam}
use tickr.Storage.{ErrorKind}
use tickr.Engine.{World, Engine, batch_size_or_default}

-- What the loop's select receives; the list ends when the channel is closed.
pub data Event : Type 0 where
  posted : BatchSucceedParam → Event
  ticked : Event

module _ {S : Type 0} (g : Engine S) where
  -- The end of a flush: an error of the storage is an alert.
  abbrev pub flushed : Error × S → World S → World S
  flushed (none, s) w = record w { store = s }
  flushed (some e, s) w = record w {
    store = s;
    alerts =
        w.alerts
        ++ record {
          kind = ErrorKind.storage;
          event_type = "";
          message_id = "";
          attempt = 0;
          err = e;
        }
          ∷ [];
  }

  pub flushed-store : (r : Error × S) (w : World S) → (flushed r w).store ≡ r.1
  flushed-store (none, s) w = refl
  flushed-store (some e, s) w = refl

  abbrev pub send :
      Option (List BatchSucceedParam → S → Error × S) → List BatchSucceedParam → World S → World S
  send none ps w = w
  send (some f) ps w = flushed (f ps w.store) w

  -- flush, with what is in the buffer
  unfoldable pub flush : List BatchSucceedParam → World S → World S
  flush [] w = w
  flush (p ∷ ps) w = send g.storage.batch_succeed (p ∷ ps) w

  -- A posted completion: the buffer is flushed when it is full.
  unfoldable pub after_post :
      BatchSucceedParam → List BatchSucceedParam → World S → List BatchSucceedParam × World S
  unfolding flush
  after_post p buf w =
      if leb (batch_size_or_default g.batch_size) (length (buf ++ p ∷ []))
      then ([], flush (buf ++ p ∷ []) w)
      else (buf ++ p ∷ [], w)

  -- The loop, on the buffer.
  unfoldable pub ack_flusher : List Event → List BatchSucceedParam → World S → World S
  ack_flusher [] buf w = flush buf w
  ack_flusher (posted p ∷ es) buf w = let (buf', w') = after_post p buf w in ack_flusher es buf' w'
  ack_flusher (ticked ∷ es) buf w = ack_flusher es [] (flush buf w)

-- A flush of the completions that wait in the channel.
abbrev pub settle : {S : Type 0} → Engine S → World S → World S
settle g w = flush g w.acks (record w { acks = [] })

-- With nothing waiting, nothing is sent.
pub settle-quiet :
    {S : Type 0} (g : Engine S) (w : World S) → w.acks ≡ [] → (settle g w).store ≡ w.store
unfolding flush
settle-quiet g w q = rw q refl

-- The completions that were posted, in order.
abbrev pub posts : List Event → List BatchSucceedParam
posts [] = []
posts (posted p ∷ es) = p ∷ posts es
posts (ticked ∷ es) = posts es

-- A storage whose state is the list of the batches that it was given.
abbrev pub Records :
    Engine (List (List BatchSucceedParam)) → (List BatchSucceedParam → Error) → Type 0
Records g answer = g.storage.batch_succeed ≡ some (λ ps log. (answer ps, log ++ ps ∷ []))

abbrev pub joined : List (List BatchSucceedParam) → List BatchSucceedParam
joined [] = []
joined (b ∷ bs) = b ++ joined bs

-- Every batch has a message, and at most n.
abbrev pub FitsBatch : ℕ → List BatchSucceedParam → Type 0
FitsBatch n b = (0 < length b) × (length b ≤ n)

joined-append :
    (bs : List (List BatchSucceedParam)) (ps : List BatchSucceedParam)
    → joined (bs ++ ps ∷ []) ≡ joined bs ++ ps
joined-append [] ps = append-nil ps
joined-append (b ∷ bs) ps =
    ap (λ x. b ++ x) (joined-append bs ps) ∙ sym (append_assoc b (joined bs) ps)

module _ (g : Engine (List (List BatchSucceedParam))) (answer : List BatchSucceedParam → Error)
    (records : Records g answer) where
  abbrev Log : Type 0
  Log = List (List BatchSucceedParam)

  flush-store :
      (p : BatchSucceedParam) (ps : List BatchSucceedParam) (w : World Log)
      → (flush g (p ∷ ps) w).store ≡ w.store ++ (p ∷ ps) ∷ []
  unfolding flush
  flush-store p ps w = rw records (flushed-store g _ w)

  -- What a loop's run leaves in the log.
  abbrev Delivered : World Log → List BatchSucceedParam → World Log → Type 0
  Delivered w ps w' =
      (joined w'.store ≡ joined w.store ++ ps)
      × All (FitsBatch (batch_size_or_default g.batch_size)) w'.store

  flush-Delivered :
      (buf : List BatchSucceedParam) (w : World Log)
      → length buf ≤ batch_size_or_default g.batch_size
      → All (FitsBatch (batch_size_or_default g.batch_size)) w.store
      → Delivered w buf (flush g buf w)
  unfolding flush
  flush-Delivered [] w small fits = (sym (append-nil (joined w.store)), fits)
  flush-Delivered (p ∷ ps) w small fits = rw (flush-store p ps w) (
    joined-append w.store (p ∷ ps),
    All-append (FitsBatch _) w.store _ fits ((omega arith, small), tt),
  )

  Delivered-trans :
      (u v w : World Log) (ps qs : List BatchSucceedParam)
      → Delivered u ps v
      → Delivered v qs w
      → Delivered u (ps ++ qs) w
  Delivered-trans u v w ps qs h k =
      (k.0 ∙ ap (λ x. x ++ qs) h.0 ∙ append_assoc (joined u.store) ps qs, k.1)

  after_post-cases :
      (p : BatchSucceedParam) (buf : List BatchSucceedParam) (w : World Log)
      → let n = batch_size_or_default g.batch_size in
        ((n ≤ length (buf ++ p ∷ [])) × (after_post g p buf w ≡ ([], flush g (buf ++ p ∷ []) w)))
        ⊎ ((length (buf ++ p ∷ []) < n) × (after_post g p buf w ≡ (buf ++ p ∷ [], w)))
  unfolding after_post
  after_post-cases p buf w = ground arith

  -- Whatever the storage answers and whenever the ticks come, every completion that is posted is
  -- handed to BatchSucceed exactly once, in the order of posting, after what was buffered; no
  -- batch is empty or larger than the batch size. The buffer is not full at the start.
  pub ack_flusher-Delivered :
      (es : List Event) (buf : List BatchSucceedParam) (w : World Log)
      → length buf < batch_size_or_default g.batch_size
      → All (FitsBatch (batch_size_or_default g.batch_size)) w.store
      → Delivered w (buf ++ posts es) (ack_flusher g es buf w)
  unfolding ack_flusher
  ack_flusher-Delivered [] buf w room fits =
      rw (append-nil buf) (flush-Delivered buf w (omega arith) fits)
  ack_flusher-Delivered (ticked ∷ es) buf w room fits =
      let sent = flush-Delivered buf w (omega arith) fits in
      Delivered-trans w (flush g buf w) (ack_flusher g es [] (flush g buf w)) buf (posts es) sent
        (ack_flusher-Delivered es [] (flush g buf w) (omega arith) sent.1)
  ack_flusher-Delivered (posted p ∷ es) buf w room fits =
      let resumed : List BatchSucceedParam × World Log → Type 0 =
        λ x. Delivered w ((buf ++ p ∷ []) ++ posts es) (ack_flusher g es x.0 x.1) in
      rw (← append_assoc buf (p ∷ []) (posts es)) (elim (after_post-cases p buf w) [
        | inl (full, q) ↦
            (let sent =
                flush-Delivered (buf ++ p ∷ []) w (omega (arith, length-append buf (p ∷ [])))
                  fits in
              subst resumed (sym q) (
                Delivered-trans w (flush g (buf ++ p ∷ []) w)
                  (ack_flusher g es [] (flush g (buf ++ p ∷ []) w)) (buf ++ p ∷ []) (posts es) sent
                  (ack_flusher-Delivered es [] (flush g (buf ++ p ∷ []) w) (omega arith) sent.1)))
        | inr (left, q) ↦
            subst resumed (sym q) (ack_flusher-Delivered es (buf ++ p ∷ []) w left fits)
      ])
