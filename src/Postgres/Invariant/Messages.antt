-- ===== src/Postgres/Invariant/Messages.antt =====
-- The rows of tickr_messages stay well formed under each statement.
use tickr.Prelude.{
  ℕ, ◌<◌, String, Bool, true, List, [], ◌∷◌, Option, ◌≡◌, inl, inr, Bool-cases, All, ℤ,
  or_default_pos, arith,
}
use tickr.Message.{EnqueueParams}
use tickr.Postgres.Table.{Row, update_where, delete_where}
use tickr.Postgres.Statements.{
  holds, eligible, claim_row, succeed_row, retry_row, dead_row, release_row, leased_to, extend_row,
  is_dead_letter_row, requeue_row, lease_expired, reclaim_row,
}
use tickr.Postgres.Enqueue.{new_row}
use tickr.Postgres.Invariant.{RowOk}

module _ {κ} (P : Row → Type κ) where
  pub All-update :
      (p : Row → Bool) (f : Row → Row) (ms : List Row)
      → All (λ r. p r ≡ true → P r → P (f r)) ms
      → All P ms
      → All P (update_where p f ms)
  unfolding update_where
  All-update p f [] g k = tt
  All-update p f (r ∷ rs) g k = elim (Bool-cases (p r)) [
    | inl e ↦ rw e (g.0 e k.0, All-update p f rs g.1 k.1)
    | inr e ↦ rw e (k.0, All-update p f rs g.1 k.1)
  ]

  pub All-delete : (p : Row → Bool) (ms : List Row) → All P ms → All P (delete_where p ms)
  unfolding delete_where
  All-delete p [] k = tt
  All-delete p (r ∷ rs) k = elim (Bool-cases (p r)) [
    | inl e ↦ rw e (All-delete p rs k.1)
    | inr e ↦ rw e (k.0, All-delete p rs k.1)
  ]

pub All-of {κ} : (P : Row → Type κ) (ms : List Row) → ((r : Row) → P r) → All P ms
All-of P [] h = tt
All-of P (r ∷ rs) h = (h r, All-of P rs h)

-- The step of each UPDATE keeps a row well formed.
pub claim_row-RowOk :
    (now : ℕ) (worker : String) (lease : ℤ) (types : Option (List String)) (shard : Option ℕ)
    (r : Row)
    → eligible now types shard r ≡ true
    → RowOk r
    → RowOk (claim_row now worker lease r)
unfolding claim_row eligible
claim_row-RowOk now worker lease types shard r h k = ground arith

module _ (now i attempt : ℕ) (r : Row) (h : holds i attempt r ≡ true) (k : RowOk r) where
  pub succeed_row-RowOk : RowOk (succeed_row now r)
  unfolding succeed_row holds
  succeed_row-RowOk = ground arith

  pub retry_row-RowOk : (error : String) (next : ℕ) → RowOk (retry_row now error next r)
  unfolding retry_row holds
  retry_row-RowOk error next = ground arith

  pub dead_row-RowOk : (error : String) → RowOk (dead_row now error r)
  unfolding dead_row holds
  dead_row-RowOk error = ground arith

  pub release_row-RowOk : (reason : String) → RowOk (release_row now reason r)
  unfolding release_row holds
  release_row-RowOk reason = ground arith

pub extend_row-RowOk :
    (now until i : ℕ) (worker : String) (r : Row)
    → leased_to i worker r ≡ true
    → RowOk r
    → RowOk (extend_row now until r)
unfolding extend_row leased_to
extend_row-RowOk now until i worker r h k = ground arith

pub requeue_row-RowOk :
    (now next i : ℕ) (r : Row)
    → is_dead_letter_row i r ≡ true
    → RowOk r
    → RowOk (requeue_row now next r)
unfolding requeue_row is_dead_letter_row
requeue_row-RowOk now next i r h k = ground arith

pub reclaim_row-RowOk :
    (now : ℕ) (r : Row) → lease_expired now r ≡ true → RowOk r → RowOk (reclaim_row now r)
unfolding reclaim_row lease_expired
reclaim_row-RowOk now r h k = ground arith

pub new_row-RowOk :
    (now id shard : ℕ) (p : EnqueueParams) → shard < 16 → RowOk (new_row now id shard p)
unfolding new_row
new_row-RowOk now id shard p h = ground (arith, or_default_pos p.max_attempts 10)
