-- ===== src/Tests/LifecycleRuns.antt =====
-- Runs of the lifecycle and of the scope tree on concrete inputs.
use modrun.Base.{
  ◌≡◌, ◌⊎◌, refl, true, none, some, List, [], ◌∷◌, ◌++◌, length, arith, ltb, if◌then◌else◌,
}
use modrun.Error.{ok, err, hook}
use modrun.Scope.{ScopeTree, child, new}
use modrun.Scope.Chains.{Grown, new-IsTree, child-Grown}
use modrun.Lifecycle.{
  State, ErasedHook, HookEntry, closure, object, registering, starting, stopping,
  prepare_for_unwind, inner_at, append, custom,
}
use modrun.Lifecycle.Prepare.{prepare_for_unwind-inner_at, unstarted}
use modrun.Lifecycle.Turn.{Turn, returns, dropped, ended_stops}
use modrun.Lifecycle.Start.{start}
use modrun.Lifecycle.Start.Outcome.{Succeeded, Interrupted, start-outcome}
use modrun.Lifecycle
use modrun.Lifecycle.Stop.Fits.{Fits}
use modrun.Lifecycle.Reached.{created, appended, was_started, was_unwound, Reached-Fits}
use modrun.Lifecycle.Stop.{stop, unwind_started}
use modrun.Lifecycle.Stop.Plan.{plan}
use modrun.Lifecycle.Stop.Order.{stop-conserves}
use modrun.Lifecycle.Stop.Unwind.{unwind_started-eq-stop}

abbrev server : ErasedHook
server = record { has_start = true; has_stop = true; object = 7 }

abbrev entries : List HookEntry
entries =
    record { name = "db"; inner = some (closure (some 1) (some 2)) }
    ∷ record { name = "http"; inner = some (object server) }
    ∷ record { name = "metrics"; inner = some (closure none (some 3)) }
    ∷ []

abbrev registered : State
registered = record { hooks = entries; started = 0; phase = registering }

abbrev started_all : State
started_all = record { hooks = entries; started = 3; phase = registering }

abbrev succeeds : Turn
succeeds = record { appended = []; await = returns (ok tt); left = server }

abbrev fails : Turn
fails = record { appended = []; await = returns (err (hook "unnamed" "refused")); left = server }

abbrev cancelled : Turn
cancelled = record { appended = []; await = dropped; left = server }

-- The second hook fails.
start-outcome_example :
    Succeeded
      (succeeds ∷ fails ∷ [])
      (record registered { phase = starting })
      (start (succeeds ∷ fails ∷ []) registered)
    ⊎ Interrupted
        (succeeds ∷ fails ∷ [])
        (record registered { phase = starting })
        (start (succeeds ∷ fails ∷ []) registered)
start-outcome_example = start-outcome (succeeds ∷ fails ∷ []) registered (omega arith)

stop-conserves_example :
    ended_stops (stop (fails ∷ cancelled ∷ []) started_all).log
      ++ plan (stop (fails ∷ cancelled ∷ []) started_all).state
    ≡ plan started_all
stop-conserves_example = stop-conserves (fails ∷ cancelled ∷ []) started_all (refl, (refl, tt))

unwind_started-eq-stop_example :
    unwind_started (fails ∷ cancelled ∷ []) started_all ≡ stop (fails ∷ cancelled ∷ []) started_all
unwind_started-eq-stop_example = unwind_started-eq-stop (fails ∷ cancelled ∷ []) started_all

-- One hook has started; of the others, the server is dropped.
abbrev started_one : State
started_one = record { hooks = entries; started = 1; phase = starting }

prepare_for_unwind-inner_at_example :
    (inner_at (prepare_for_unwind started_one).hooks 1
      ≡ (if ltb 1 1 then inner_at entries 1 else unstarted (inner_at entries 1)))
    × ((prepare_for_unwind started_one).started ≡ length (prepare_for_unwind started_one).hooks)
    × (length (prepare_for_unwind started_one).hooks ≡ 3)
    × ((prepare_for_unwind started_one).phase ≡ stopping)
prepare_for_unwind-inner_at_example = prepare_for_unwind-inner_at started_one 1 (omega arith)

child-Grown_example :
    (t' : ScopeTree) × (child new 0 "database" ≡ ok (t', 1)) × Grown new 0 "database" t'
unfolding new
child-Grown_example = child-Grown new 0 "database" new-IsTree (omega arith) (omega arith)

-- A hook is appended, its start is cancelled, and the unwind too.
Reached-Fits_example :
    Fits
      (unwind_started []
        (start (cancelled ∷ []) (append Lifecycle.new (custom "http" server)).0).state).state
Reached-Fits_example =
    Reached-Fits
      (unwind_started []
        (start (cancelled ∷ []) (append Lifecycle.new (custom "http" server)).0).state).state
      (was_unwound (start (cancelled ∷ []) (append Lifecycle.new (custom "http" server)).0).state []
        (was_started (append Lifecycle.new (custom "http" server)).0 (cancelled ∷ [])
          (appended Lifecycle.new (custom "http" server) created)))
