-- ===== src/App/Interrupt.antt =====
-- How a run ends that a shutdown interrupts.
use modrun.Base.{Bool, true, false, List, [], ◌∷◌}
use modrun.Error.{Error}
use modrun.Shutdown.{Call, shuts_down, fails}

-- Whether a background task failed.
abbrev pub has_failure : List Call → Bool
has_failure [] = false
has_failure (shuts_down ∷ calls) = has_failure calls
has_failure (fails ∷ calls) = true
