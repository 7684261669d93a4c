-- ===== src/Registry/Laws.antt =====
-- What registration guarantees to the engine.
use tickr.Prelude.{
  String, List, [], ◌∷◌, true, false, Option, none, some, ◌≡◌, refl, inl, inr, ◌⊎◌, Bool-cases,
  Option-cases, str_eq, is_some, if◌then◌else◌, arith,
}
use tickr.Registry.{
  Registration, HandlerOption, Handler, BatchHandler, RetryPolicy, Registry, lookup, default_config,
  register, on, on_batch,
}

-- Exactly one of the two handlers is set.
abbrev pub HasOneHandler : Registration → Type 0
HasOneHandler r =
    ((is_some r.handler ≡ true) × (is_some r.batch_handler ≡ false))
    ⊎ ((is_some r.handler ≡ false) × (is_some r.batch_handler ≡ true))

-- No event type is registered twice or empty, and each has one handler.
abbrev pub IsWellFormed : Registry → Type 0
IsWellFormed [] = Unit
IsWellFormed ((k, r) ∷ m) =
    (lookup k m ≡ none) × (str_eq k "" ≡ false) × HasOneHandler r × IsWellFormed m

module _ (policy : RetryPolicy) (event_type : String) (options : List HandlerOption)
    (m : Registry) where
  register-IsWellFormed :
      (r : Registration)
      → HasOneHandler r
      → IsWellFormed m
      → IsWellFormed (register policy event_type r options m).1
  unfolding register
  register-IsWellFormed r one w = elim (Bool-cases (str_eq event_type "")) [
    | inl e ↦ rw e w
    | inr e ↦ elim (Option-cases (lookup event_type m)) [
      | inl n ↦ rw (e, n) (n, e, one, w)
      | inr (x, n) ↦ rw (e, n) w
    ]
  ]

  on_one-IsWellFormed :
      (h : Option Handler) → IsWellFormed m → IsWellFormed (on policy event_type h options m).1
  unfolding on
  on_one-IsWellFormed none w = w
  on_one-IsWellFormed (some h) w =
      register-IsWellFormed
        (record { handler = some h; batch_handler = none; cfg = default_config policy })
        (inl (refl, refl)) w

  on_batch-IsWellFormed :
      (b : Option BatchHandler)
      → IsWellFormed m
      → IsWellFormed (on_batch policy event_type b options m).1
  unfolding on_batch
  on_batch-IsWellFormed none w = w
  on_batch-IsWellFormed (some b) w =
      register-IsWellFormed
        (record { handler = none; batch_handler = some b; cfg = default_config policy })
        (inr (refl, refl)) w

  -- `On` and `OnBatch` keep the registry well formed (no event type empty or registered twice,
  -- each with exactly one of the two handlers), whether they succeed or fail.
  pub on-IsWellFormed :
      (h : Option Handler) (b : Option BatchHandler)
      → IsWellFormed m
      → IsWellFormed (on policy event_type h options m).1
        × IsWellFormed (on_batch policy event_type b options m).1
  on-IsWellFormed h b w = (on_one-IsWellFormed h w, on_batch-IsWellFormed b w)

  register_fails :
      (r : Registration)
      → is_some (register policy event_type r options m).0
        ≡ (if str_eq event_type "" then true else is_some (lookup event_type m))
  unfolding register
  register_fails r = ground arith
