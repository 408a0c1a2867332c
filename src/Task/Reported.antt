-- ===== src/Task/Reported.antt =====
-- A task asks for a shutdown exactly if it fails.
use modrun.Base.{◌≡◌, Bool, true, false, Option, none, some}
use modrun.Error.{Error, Result, ok, err}
use modrun.Error
use modrun.Shutdown.{Shutdowner}
use modrun.Task.{Ended, returned, cancelled, panicked, System, fail_if, both}

abbrev result_failed : Result (Unit {0}) → Bool
result_failed (ok _) = false
result_failed (err _) = true
result_failed (Error.panicked _) = true

abbrev pub watcher_failed : Option Ended → Bool
watcher_failed none = false
watcher_failed (some (returned r)) = result_failed r
watcher_failed (some cancelled) = false
watcher_failed (some (panicked _)) = false

-- The shutdown has the one request of the task, if it failed and was watched, and no other.
record Inv (initial : Shutdowner) (s : System) : Type 0 where
  reported : s.shutdown ≡ fail_if (both (watcher_failed s.watcher) s.watching) initial
  unspawned : s.spawned ≡ false → (s.work ≡ none) × (s.watcher ≡ none)
