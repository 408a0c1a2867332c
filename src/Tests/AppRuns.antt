-- ===== src/Tests/AppRuns.antt =====
-- Runs of the application on concrete inputs.
use modrun.Base.{◌≡◌, refl, none, some, true, false, [], ◌∷◌, arith}
use modrun.Error.{Result, ok, err, hook}
use modrun.Lifecycle.{
  ErasedHook, closure, object, registering, take_next_start, append_all, starting,
}
use modrun.Lifecycle.Turn.{Turn, returns}
use modrun.Lifecycle.Start.{start_inner, end_start, put_back}
use modrun.Lifecycle.Start
use modrun.App.{BuiltApp, Timing, start_hooks}
use modrun.App
use modrun.App.Started.{IsInTime, start-Succeeded}
use modrun.Lifecycle.Start.Outcome.{Succeeded}

abbrev server : ErasedHook
server = record { has_start = true; has_stop = true; object = 7 }

-- A database, a server, and a hook that is only stopped.
abbrev app : BuiltApp
app = record {
  lifecycle = record {
    hooks =
        record { name = "db"; inner = some (closure (some 1) (some 2)) }
        ∷ record { name = "http"; inner = some (object server) }
        ∷ record { name = "metrics"; inner = some (closure none (some 3)) }
        ∷ [];
    started = 0;
    phase = registering;
  };
  start_budget = some 15;
  stop_budget = some 15;
}

abbrev quick : Timing
quick = record { elapsed = 2; from_outside = false }

abbrev succeeds : Turn
succeeds = record { appended = []; await = returns (ok tt); left = server }

abbrev refuses : Turn
refuses = record { appended = []; await = returns (err (hook "unnamed" "refused")); left = server }

abbrev clean : Result (Unit {0})
clean = ok tt

all_start : (App.start (succeeds ∷ succeeds ∷ []) quick [] quick app).await ≡ returns (ok tt)
unfolding App.start start_hooks Start.start start_inner end_start put_back take_next_start
    append_all Start.finished
all_start = refl

start-Succeeded_example :
    Succeeded
      (succeeds ∷ succeeds ∷ [])
      (record app.lifecycle { phase = starting })
      (Start.start (succeeds ∷ succeeds ∷ []) app.lifecycle)
    × (App.start (succeeds ∷ succeeds ∷ []) quick [] quick app
        ≡ start_hooks (succeeds ∷ succeeds ∷ []) quick app)
    × IsInTime app.start_budget quick
start-Succeeded_example =
    start-Succeeded (succeeds ∷ succeeds ∷ []) [] quick quick app (omega arith) all_start
