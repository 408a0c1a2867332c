-- ===== src/App.antt =====
-- The application once it is built: its start with the unwind of a failure, its stop, and the
-- results of both (`with_timeout`, `BuiltApp` and the functions before it in src/app.rs).
pub mod Interrupt
pub mod Cleanup
pub mod Started
use modrun.Base.{ℕ, Bool, true, false, Option, none, some, List, [], ◌∷◌, ◌++◌, if◌then◌else◌, leb}
use modrun.Error.{
  Error, Result, ok, err, panicked, ◌>>=◌, task_failed_during_start, unwind_timeout, stop_timeout,
  start_timeout, with_cleanup, combine_results,
}
use modrun.Shutdown.{Shutdowner, is_failure}
use modrun.Lifecycle.{State, prepare_for_unwind}
use modrun.Lifecycle.Turn.{Turn, Await, returns, dropped, Run, after_events}
use modrun.Lifecycle.Start
use modrun.Lifecycle.Stop.{unwind_started}
use modrun.Lifecycle.Stop

-- How long the future took to return, and, where it was dropped, whether the caller's future was
-- dropped with it, and not only this one by its timer.
pub record Timing : Type 0 where
  pub elapsed : ℕ
  pub from_outside : Bool

pub with_timeout : Option ℕ → Timing → Await → Error → Await
with_timeout none t a timed_out = a
with_timeout (some d) t (returns (ok _)) timed_out =
    if leb d t.elapsed then returns (err timed_out) else returns (ok tt)
with_timeout (some d) t (returns (err e)) timed_out = returns (err e)
with_timeout (some d) t (returns (panicked m)) timed_out = returns (panicked m)
with_timeout (some d) t dropped timed_out =
    if t.from_outside then dropped else returns (err timed_out)

-- `budget.unwrap_or(Duration::ZERO)`
abbrev pub or_zero : Option ℕ → ℕ
or_zero none = 0
or_zero (some d) = d

pub finish_run : Result (Unit {0}) → Result (Unit {0}) → Result (Unit {0})
finish_run (ok _) cleanup = cleanup
finish_run (err e) cleanup = with_cleanup e cleanup >>= λ e'. err e'
finish_run (panicked m) cleanup = panicked m

-- The error of the cleanup after a failed task.
pub failed_cleanup : Error → Result (Unit {0})
failed_cleanup (unwind_timeout d) =
    with_cleanup task_failed_during_start (err (unwind_timeout d)) >>= λ e. err e
failed_cleanup (stop_timeout d) =
    with_cleanup task_failed_during_start (err (stop_timeout d)) >>= λ e. err e
failed_cleanup e = err e

abbrev interrupted : Bool → Result (Unit {0}) → Result (Unit {0})
interrupted true (ok _) = err task_failed_during_start
interrupted true (err e) = failed_cleanup e
interrupted true (panicked m) = panicked m
interrupted false cleanup = cleanup

pub finish_interrupt : Shutdowner → Result (Unit {0}) → Result (Unit {0})
finish_interrupt s cleanup = interrupted (is_failure s) cleanup

pub record BuiltApp : Type 0 where
  pub lifecycle : State
  pub start_budget : Option ℕ
  pub stop_budget : Option ℕ

abbrev timed : Option ℕ → Timing → Error → Run → Run
timed budget t timed_out run = record run { await = with_timeout budget t run.await timed_out }

pub unwind_lifecycle : List Turn → Timing → State → Option ℕ → Run
unfolding with_timeout
unwind_lifecycle ts t s budget =
    timed budget t (unwind_timeout (or_zero budget)) (unwind_started ts (prepare_for_unwind s))

unfoldable pub start_hooks : List Turn → Timing → BuiltApp → Run
unfolding with_timeout
start_hooks ts t app =
    timed app.start_budget t (start_timeout (or_zero app.start_budget))
      (Start.start ts app.lifecycle)

abbrev combined : Error → Await → Await
combined e (returns unwound) = returns (combine_results (err e) unwound)
combined e dropped = dropped

-- The rest of `BuiltApp::start`, with what `start_hooks` gave.
pub roll_back : List Turn → Timing → BuiltApp → Run → Await → Run
unfolding unwind_lifecycle
roll_back us u app run (returns (ok _)) = run
roll_back us u app run (returns (err e)) =
    let unwound = unwind_lifecycle us u run.state app.stop_budget in
    record { state = unwound.state; log = run.log ++ unwound.log; await = combined e unwound.await }
roll_back us u app run (returns (panicked m)) = run
roll_back us u app run dropped = run

-- `BuiltApp::start`, with the turns and the timing of the start and of the unwind.
unfoldable pub start : List Turn → Timing → List Turn → Timing → BuiltApp → Run
unfolding start_hooks roll_back
start ts t us u app = let run = start_hooks ts t app in roll_back us u app run run.await

unfoldable pub stop : List Turn → Timing → BuiltApp → Run
unfolding with_timeout
stop ts t app =
    timed app.stop_budget t (stop_timeout (or_zero app.stop_budget)) (Stop.stop ts app.lifecycle)
