-- ===== src/Lifecycle/Stop.antt =====
-- `Lifecycle::stop` and `unwind_started`: the OnStop hooks, in reverse registration order.
-- As in `Start`, where the list of turns ends the future of the stop is dropped.
pub mod Plan
pub mod Steps
pub mod Unwind
pub mod Order
pub mod Outcome
pub mod Fits
use modrun.Base.{ℕ, Option, zero, suc, ◌+◌, String, none, some, List, [], ◌∷◌, ◌++◌}
use modrun.Error.{Error, ok, err, panicked, with_hook_name, aggregate_errors}
use modrun.Lifecycle.{Taken, State, HookEntryInner, stopping, after_stop, set_inner, take_next_stop}
use modrun.Lifecycle.Turn.{
  Turn, Await, returns, dropped, stop_executing, stop_executed, stop_cancelled, stop_panicked,
  stop_failed, Run, after_events,
}

-- `StopGuard::drop` before the hook finished: the hook is written back for another pass.
pub write_back : State → ℕ → HookEntryInner → State
write_back s i hook = record s { hooks = set_inner s.hooks i (some hook); started = s.started + 1 }

pub pass_ended : State → List Error → Run
pass_ended s errors = record { state = s; log = []; await = returns (aggregate_errors errors) }

pub stop_abandoned : State → ℕ → String → HookEntryInner → Run
unfolding write_back
stop_abandoned s i name hook = record {
  state = write_back s i hook;
  log = stop_cancelled i name ∷ [];
  await = dropped;
}

-- `StopGuard::run`; `more errors` is the pass that follows once `errors` are collected.
pub end_stop : Await → State → ℕ → String → HookEntryInner → List Error → (List Error → Run) → Run
unfolding stop_abandoned with_hook_name
end_stop (returns (ok _)) s i name hook errors more =
    after_events (stop_executed i name ∷ []) (more errors)
end_stop (returns (err e)) s i name hook errors more =
    after_events (stop_failed i name (with_hook_name e name) ∷ [])
      (more (errors ++ with_hook_name e name ∷ []))
end_stop (returns (panicked m)) s i name hook errors more = record {
  state = write_back s i hook;
  log = stop_panicked i name ∷ [];
  await = returns (panicked m);
}
end_stop dropped s i name hook errors more = stop_abandoned s i name hook

-- One round of either loop, with what `take_next_stop` returned; `more` goes on from a state with
-- the errors so far.
pub stop_round : Turn → State × Option Taken → List Error → (State → List Error → Run) → Run
stop_round t (s, none) errors more = pass_ended s errors
stop_round t (s, some (i, name, hook)) errors more =
    after_events (stop_executing i name ∷ [])
      (end_stop t.await s i name (after_stop hook t.left) errors (more s))

-- The round in which the future of the stop is dropped.
pub last_round : State × Option Taken → List Error → Run
last_round (s, none) errors = pass_ended s errors
last_round (s, some (i, name, hook)) errors =
    after_events (stop_executing i name ∷ []) (stop_abandoned s i name hook)

-- The loop of `stop`.
pub stop_loop : List Turn → State → List Error → Run
unfolding stop_round last_round
stop_loop [] s errors = last_round (take_next_stop s) errors
stop_loop (t ∷ ts) s errors = stop_round t (take_next_stop s) errors (stop_loop ts)

pub stop : List Turn → State → Run
stop ts s = stop_loop ts (record s { phase = stopping }) []

-- `stop_first`: at most `count` hooks.
pub stop_first : ℕ → List Turn → State → List Error → Run
unfolding stop_round last_round
stop_first zero ts s errors = pass_ended s errors
stop_first (suc count) [] s errors = last_round (take_next_stop s) errors
stop_first (suc count) (t ∷ ts) s errors =
    stop_round t (take_next_stop s) errors (stop_first count ts)

pub unwind_started : List Turn → State → Run
unwind_started ts s = stop_first s.started ts (record s { phase = stopping }) []
