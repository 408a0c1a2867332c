-- ===== src/Lifecycle/Stop/Outcome.antt =====
-- The result of a stop whose hooks all return: every failure, in stop order.
use modrun.Base.{ℕ, String, ◌≡◌, List, [], ◌∷◌, ◌++◌}
use modrun.Error.{Error, ok, err, panicked, with_hook_name, aggregate_errors}
use modrun.Lifecycle.{HookEntry, name_at}
use modrun.Lifecycle.Turn.{Turn, Await, returns, dropped, Run}

-- The callback returns: it neither panics nor is its future dropped.
abbrev pub Completes : Await → Type 0
Completes (returns (ok _)) = Unit
Completes (returns (err _)) = Unit
Completes (returns (panicked _)) = ⊥
Completes dropped = ⊥

abbrev pub failure : String → Await → List Error
failure name (returns (err e)) = with_hook_name e name ∷ []
failure name _ = []

-- The errors of the hooks at the given indices, under their names.
abbrev pub failures : List HookEntry → List ℕ → List Turn → List Error
failures es [] ts = []
failures es (i ∷ is) [] = []
failures es (i ∷ is) (t ∷ ts) = failure (name_at es i) t.await ++ failures es is ts

-- A run that ends in a state with no started hook, with all of these errors.
abbrev Drained : List Error → Run → Type 0
Drained errors run = (run.await ≡ returns (aggregate_errors errors)) × (run.state.started ≡ 0)
