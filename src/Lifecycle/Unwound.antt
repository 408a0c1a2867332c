-- ===== src/Lifecycle/Unwound.antt =====
-- A start that is interrupted, and the unwind after it.
use modrun.Base.{ℕ, ◌<◌, ◌≡◌, ◌≢◌, true, false, List}
use modrun.Lifecycle.{State, HookEntry, inner_at}
use modrun.Lifecycle.Turn.{Turn, Run}
use modrun.Lifecycle.Start.Plan.{startable}
use modrun.Lifecycle.Start.Outcome.{Interrupted}
use modrun.Lifecycle.Stop.Plan.{stoppable}

-- A stop plans only hooks that are there.
abbrev IsThere : List HookEntry → ℕ → Type 0
IsThere es j = stoppable (inner_at es j) ≡ true

-- Not the hook at which the start ended, nor a later one that has still an OnStart.
abbrev pub WasActive : (ts : List Turn) (s : State) (run : Run) → Interrupted ts s run → ℕ → Type 0
WasActive ts s run r j =
    (j ≢ r.index) × (r.index < j → startable (inner_at run.state.hooks j) ≡ false)
