-- ===== src/Cockroach/Exclusion.antt =====
-- At most one leader at a time (storage/cockroach/cockroach.go).
use tickr.Prelude.{
  ℕ, ◌+◌, ◌≤◌, String, List, [], ◌∷◌, Bool, true, false, ◌&&◌, Option, none, some, ◌≡◌, refl, ap,
  All, leb, str_eq, str_eq_iff, arith, if◌then◌else◌,
}
use tickr.Postgres.Session.{Wire, made, refused, cut}
use tickr.Cockroach.{
  Lock, lock_ttl, granted, try_lock_sql, unlock_sql, try_leader_lock, unlock, Event, attempt,
  release, wait, Clocked, after, after_all,
}

unfoldable find_lock : String → List Lock → Option Lock
find_lock key [] = none
find_lock key (l ∷ ls) = if str_eq l.key key then some l else find_lock key ls

-- The holder's own unlock.
abbrev pub is_own_release : String → String → Event → Bool
is_own_release key holder (release w k h) = str_eq k key && str_eq h holder
is_own_release key holder _ = false

module _ (key holder : String) (until : ℕ) where
  -- The holder's lease on the key runs until `until`.
  abbrev is_lease : Option Lock → Bool
  is_lease none = false
  is_lease (some l) = str_eq l.holder holder && (leb until l.expires_at && leb l.expires_at until)

  abbrev Leased : List Lock → Type 0
  Leased ls = is_lease (find_lock key ls) ≡ true

  Leased-try_lock_sql :
      (now : ℕ) (k h : String) (ls : List Lock)
      → now ≤ until
      → Leased ls
      → Leased (try_lock_sql now k h ls).1
  unfolding find_lock try_lock_sql
  Leased-try_lock_sql now k h [] le e = ground arith
  Leased-try_lock_sql now k h (l ∷ ls) le e = ground (
    arith,
    Leased-try_lock_sql now k h ls le,
    str_eq_iff l.key k,
    str_eq_iff l.key key,
    str_eq_iff k key,
  )

  refused-try_lock_sql :
      (now : ℕ) (h : String) (ls : List Lock)
      → now ≤ until
      → Leased ls
      → (try_lock_sql now key h ls).0 ≡ none
  unfolding find_lock try_lock_sql
  refused-try_lock_sql now h [] le e = ground arith
  refused-try_lock_sql now h (l ∷ ls) le e = ground (arith, refused-try_lock_sql now h ls le)

  Leased-unlock_sql :
      (k h : String) (ls : List Lock)
      → (str_eq k key && str_eq h holder) ≡ false
      → Leased ls
      → Leased (unlock_sql k h ls)
  unfolding find_lock unlock_sql
  Leased-unlock_sql k h [] other e = ground arith
  Leased-unlock_sql k h (l ∷ ls) other e = ground (
    arith,
    Leased-unlock_sql k h ls other,
    str_eq_iff l.key k,
    str_eq_iff l.key key,
    str_eq_iff k key,
    str_eq_iff l.holder h,
    str_eq_iff l.holder holder,
    str_eq_iff h holder,
  )

Leased-granted :
    (now : ℕ) (key holder : String) (ls : List Lock)
    → granted (try_lock_sql now key holder ls).0 ≡ true
    → Leased key holder (now + lock_ttl) (try_lock_sql now key holder ls).1
unfolding try_lock_sql find_lock
Leased-granted now key holder [] e = ground (arith, str_eq_iff key key, str_eq_iff holder holder)
Leased-granted now key holder (l ∷ ls) e =
    ground (arith, Leased-granted now key holder ls, str_eq_iff key key, str_eq_iff holder holder)

Leased-try_leader_lock :
    (w : Wire) (now : ℕ) (key holder : String) (ls : List Lock)
    → (try_leader_lock w now key holder ls).0 ≡ (true, none)
    → Leased key holder (now + lock_ttl) (try_leader_lock w now key holder ls).1
unfolding try_leader_lock
Leased-try_leader_lock made now key holder ls e = Leased-granted now key holder ls (ap (λ x. x.0) e)
Leased-try_leader_lock refused now key holder ls e = absurd (ground (arith, ap (λ x. x.0) e))
Leased-try_leader_lock cut now key holder ls e = absurd (ground (arith, ap (λ x. x.0) e))

module _ (key holder : String) (until : ℕ) where
  Leased-after :
      (e : Event) (s : Clocked)
      → s.now ≤ until
      → is_own_release key holder e ≡ false
      → Leased key holder until s.locks
      → Leased key holder until (after e s).locks
  unfolding after try_leader_lock unlock
  Leased-after (attempt made k h) s le own l =
      Leased-try_lock_sql key holder until s.now k h s.locks le l
  Leased-after (attempt refused k h) s le own l = l
  Leased-after (attempt cut k h) s le own l =
      Leased-try_lock_sql key holder until s.now k h s.locks le l
  Leased-after (release made k h) s le own l = Leased-unlock_sql key holder until k h s.locks own l
  Leased-after (release refused k h) s le own l = l
  Leased-after (release cut k h) s le own l = Leased-unlock_sql key holder until k h s.locks own l
  Leased-after (wait n) s le own l = l

  now-after : (e : Event) (s : Clocked) → s.now ≤ (after e s).now
  unfolding after
  now-after (attempt w k h) s = omega arith
  now-after (release w k h) s = omega arith
  now-after (wait n) s = omega arith

  now-after_all : (es : List Event) (s : Clocked) → s.now ≤ (after_all es s).now
  unfolding after_all
  now-after_all [] s = omega arith
  now-after_all (e ∷ es) s = omega (arith, now-after e s, now-after_all es (after e s))

  Leased-after_all :
      (es : List Event) (s : Clocked)
      → (after_all es s).now ≤ until
      → All (λ e. is_own_release key holder e ≡ false) es
      → Leased key holder until s.locks
      → Leased key holder until (after_all es s).locks
  unfolding after_all
  Leased-after_all [] s le own l = l
  Leased-after_all (e ∷ es) s le own l =
      Leased-after_all es (after e s) le own.1
        (Leased-after e s (omega (arith, le, now-after e s, now-after_all es (after e s))) own.0 l)

  not_granted :
      (w : Wire) (now : ℕ) (h : String) (ls : List Lock)
      → now ≤ until
      → Leased key holder until ls
      → (try_leader_lock w now key h ls).0.0 ≡ false
  unfolding try_leader_lock
  not_granted made now h ls le l = ap granted (refused-try_lock_sql key holder until now h ls le l)
  not_granted refused now h ls le l = refl
  not_granted cut now h ls le l = refl

-- From a TryLeaderLock that grants a lock until 60 seconds later, nobody else is granted the same
-- lock, whoever attempts and unlocks meanwhile and whatever becomes of the round trips, unless its
-- holder's own unlock comes first; also a holder that crashes keeps it so long.
pub after_all-try_leader_lock :
    (w : Wire) (key holder : String) (s : Clocked) (es : List Event) (w' : Wire) (other : String)
    → (try_leader_lock w s.now key holder s.locks).0 ≡ (true, none)
    → All (λ e. is_own_release key holder e ≡ false) es
    → (after_all es (after (attempt w key holder) s)).now ≤ s.now + lock_ttl
    → let s' = after_all es (after (attempt w key holder) s) in
      (try_leader_lock w' s'.now key other s'.locks).0.0 ≡ false
unfolding after
after_all-try_leader_lock w key holder s es w' other e own le =
    let until = s.now + lock_ttl in
    let s0 = after (attempt w key holder) s in
    not_granted key holder until w' (after_all es s0).now other (after_all es s0).locks le (
      Leased-after_all key holder until es s0 le own
        (Leased-try_leader_lock w s.now key holder s.locks e))
