-- ===== src/Lifecycle/Start.antt =====
-- `Lifecycle::start`: the OnStart hooks, in registration order.
-- The list of turns says what each awaited OnStart does; where it ends, the start is still
-- waiting for a hook, and its future is dropped.
pub mod Plan
pub mod Rounds
pub mod Outcome
pub mod Quiet
use modrun.Base.{ℕ, ◌+◌, String, Option, none, some, List, [], ◌∷◌}
use modrun.Error.{ok, err, panicked, with_hook_name}
use modrun.Lifecycle.{
  Taken, State, HookEntryInner, starting, after_start, append_all, set_inner, take_next_start,
  prepare_for_unwind,
}
use modrun.Lifecycle.Turn.{
  Turn, Await, returns, dropped, start_executing, start_executed, start_cancelled, start_panicked,
  start_failed, Run, after_events,
}

-- The hook goes back, and counts as started.
unfoldable pub put_back : State → ℕ → HookEntryInner → State
put_back s i hook = record s { hooks = set_inner s.hooks i (some hook); started = s.started + 1 }

unfoldable pub finished : State → Run
finished s = record { state = s; log = []; await = returns (ok tt) }

-- `InflightHook` is dropped before its hook finished.
pub abandoned : State → ℕ → String → Run
abandoned s i name = record {
  state = prepare_for_unwind s;
  log = start_cancelled i name ∷ [];
  await = dropped;
}

-- The `match` on the awaited OnStart of the hook `i`; `rest` is the run that follows a success.
unfoldable pub end_start : Await → State → ℕ → String → Run → Run
unfolding abandoned
end_start (returns (ok _)) s i name rest = after_events (start_executed i name ∷ []) rest
end_start (returns (err e)) s i name rest = record {
  state = prepare_for_unwind s;
  log = start_failed i name (with_hook_name e name) ∷ [];
  await = returns (err (with_hook_name e name));
}
end_start (returns (panicked m)) s i name rest = record {
  state = prepare_for_unwind s;
  log = start_panicked i name ∷ [];
  await = returns (panicked m);
}
end_start dropped s i name rest = abandoned s i name

-- One round of the loop of `start_inner`, with what its locked block returned; `more` goes on
-- from a state.
pub start_round : Turn → State × Option Taken → (State → Run) → Run
start_round t (s, none) more = finished s
start_round t (s, some (i, name, hook)) more =
    let s' = append_all s t.appended in
    let rest = more (put_back s' i (after_start hook t.left)) in
    after_events (start_executing i name ∷ []) (end_start t.await s' i name rest)

-- The round in which the future of the start is dropped.
pub last_round : State × Option Taken → Run
last_round (s, none) = finished s
last_round (s, some (i, name, hook)) =
    after_events (start_executing i name ∷ []) (abandoned s i name)

unfoldable pub start_inner : List Turn → State → Run
unfolding start_round last_round
start_inner [] s = last_round (take_next_start s)
start_inner (t ∷ ts) s = start_round t (take_next_start s) (start_inner ts)

unfoldable pub start : List Turn → State → Run
start ts s = start_inner ts (record s { phase = starting })
