-- ===== src/Handlers/Fate.antt =====
-- What the engine makes of a handler's return value (engine.go), as far as the handlers decide it.
use tickr.Prelude.{ℤ, Option, none, some, if◌then◌else◌}
use tickr.Errors.{Err, Error, is_dead_letter, extract_retry_after}
use tickr.Registry.{Return, returned, panicked, panicked_value}

-- Done; or tried again, after a delay of the handler's own if it gives one; or buried.
pub data Fate : Type 0 where
  delivered : Fate
  again : Option ℤ → Fate
  permanent : Fate

abbrev pub fate_of : Err → Fate
fate_of e = if is_dead_letter e then Fate.permanent else Fate.again (extract_retry_after e)

abbrev pub fate_of_error : Error → Fate
fate_of_error none = Fate.delivered
fate_of_error (some e) = fate_of e

abbrev pub fate : Return → Fate
fate (returned e) = fate_of_error e
fate (panicked e) = fate_of e
fate (panicked_value v) = Fate.again none
