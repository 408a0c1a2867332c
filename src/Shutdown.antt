-- ===== src/Shutdown.antt =====
-- The request of a shutdown (src/shutdown.rs). The waiters are woken by the flag that is set; a
-- `Notify` is left out, and `wait` is the test that it repeats.
use modrun.Base.{Bool, true, false, List, [], ◌∷◌}

pub record Shutdowner : Type 0 where
  pub requested : Bool
  pub from_failure : Bool

unfoldable pub new : Shutdowner
new = record { requested = false; from_failure = false }

unfoldable pub shutdown : Shutdowner → Shutdowner
shutdown s = record s { requested = true }

-- A background task failed.
unfoldable pub fail : Shutdowner → Shutdowner
unfolding shutdown
fail s = shutdown (record s { from_failure = true })

abbrev pub is_failure : Shutdowner → Bool
is_failure s = s.from_failure

abbrev pub is_requested : Shutdowner → Bool
is_requested s = s.requested

-- The calls that handles of the same `Shutdowner` make, in the order in which they take effect.
pub data Call : Type 0 where
  shuts_down fails : Call

unfoldable pub apply : Call → Shutdowner → Shutdowner
unfolding shutdown fail
apply shuts_down s = shutdown s
apply fails s = fail s

unfoldable pub apply_all : List Call → Shutdowner → Shutdowner
unfolding apply
apply_all [] s = s
apply_all (call ∷ calls) s = apply_all calls (apply call s)
