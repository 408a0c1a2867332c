-- ===== src/Lifecycle/Stop/Steps.antt =====
-- One round of the loops of a stop, for each thing that `take_stop` can find.
use modrun.Base.{ℕ, suc, ◌≡◌, ap, Option, some, none, List, [], ◌∷◌}
use modrun.Error.{Error}
use modrun.Lifecycle.{State, HookEntry, Taken, after_stop, name_at, take_next_stop}
use modrun.Lifecycle.Turn.{Turn, stop_executing, after_events}
use modrun.Lifecycle.Stop.{
  pass_ended, stop_abandoned, end_stop, stop_loop, stop_first, stop_round, last_round,
}
use modrun.Lifecycle.Stop.Plan.{Nothing, Found}

module _ (s : State) (errors : List Error) where
  -- The state once no hook is left to stop.
  abbrev pub drained : Nothing s.hooks s.started → State
  drained r = record s { hooks = r.left; started = 0 }

  -- The state while the OnStop of the found hook is awaited.
  abbrev pub holding : Found s.hooks s.started → State
  holding r = record s { hooks = r.left; started = r.index }

  take_next_stop-Nothing : (r : Nothing s.hooks s.started) → take_next_stop s ≡ (drained r, none)
  unfolding take_next_stop
  take_next_stop-Nothing r =
      ap (λ (x : List HookEntry × ℕ × Option Taken). (record s { hooks = x.0; started = x.1 }, x.2))
        r.result

  take_next_stop-Found :
      (r : Found s.hooks s.started)
      → take_next_stop s ≡ (holding r, some (r.index, name_at s.hooks r.index, r.hook))
  unfolding take_next_stop
  take_next_stop-Found r =
      ap (λ (x : List HookEntry × ℕ × Option Taken). (record s { hooks = x.0; started = x.1 }, x.2))
        r.result

  pub stop_loop-Nothing :
      (ts : List Turn) (r : Nothing s.hooks s.started)
      → stop_loop ts s errors ≡ pass_ended (drained r) errors
  unfolding stop_loop
  stop_loop-Nothing [] r =
      ap (λ (x : State × Option Taken). last_round x errors) (take_next_stop-Nothing r)
  stop_loop-Nothing (t ∷ ts) r =
      ap (λ (x : State × Option Taken). stop_round t x errors (stop_loop ts))
        (take_next_stop-Nothing r)

  pub stop_loop-dropped :
      (r : Found s.hooks s.started)
      → stop_loop [] s errors
        ≡ after_events
            (stop_executing r.index (name_at s.hooks r.index) ∷ [])
            (stop_abandoned (holding r) r.index (name_at s.hooks r.index) r.hook)
  unfolding stop_loop
  stop_loop-dropped r =
      ap (λ (x : State × Option Taken). last_round x errors) (take_next_stop-Found r)

  pub stop_loop-Found :
      (t : Turn) (ts : List Turn) (r : Found s.hooks s.started)
      → stop_loop (t ∷ ts) s errors
        ≡ after_events (stop_executing r.index (name_at s.hooks r.index) ∷ []) (
            end_stop t.await
              (holding r)
              r.index
              (name_at s.hooks r.index)
              (after_stop r.hook t.left)
              errors
              (stop_loop ts (holding r)))
  unfolding stop_loop
  stop_loop-Found t ts r =
      ap (λ (x : State × Option Taken). stop_round t x errors (stop_loop ts))
        (take_next_stop-Found r)

  pub stop_first-Nothing :
      (count : ℕ) (ts : List Turn) (r : Nothing s.hooks s.started)
      → stop_first (suc count) ts s errors ≡ pass_ended (drained r) errors
  unfolding stop_first
  stop_first-Nothing count [] r =
      ap (λ (x : State × Option Taken). last_round x errors) (take_next_stop-Nothing r)
  stop_first-Nothing count (t ∷ ts) r =
      ap (λ (x : State × Option Taken). stop_round t x errors (stop_first count ts))
        (take_next_stop-Nothing r)

  pub stop_first-dropped :
      (count : ℕ) (r : Found s.hooks s.started)
      → stop_first (suc count) [] s errors
        ≡ after_events
            (stop_executing r.index (name_at s.hooks r.index) ∷ [])
            (stop_abandoned (holding r) r.index (name_at s.hooks r.index) r.hook)
  unfolding stop_first
  stop_first-dropped count r =
      ap (λ (x : State × Option Taken). last_round x errors) (take_next_stop-Found r)

  pub stop_first-Found :
      (count : ℕ) (t : Turn) (ts : List Turn) (r : Found s.hooks s.started)
      → stop_first (suc count) (t ∷ ts) s errors
        ≡ after_events (stop_executing r.index (name_at s.hooks r.index) ∷ []) (
            end_stop t.await
              (holding r)
              r.index
              (name_at s.hooks r.index)
              (after_stop r.hook t.left)
              errors
              (stop_first count ts (holding r)))
  unfolding stop_first
  stop_first-Found count t ts r =
      ap (λ (x : State × Option Taken). stop_round t x errors (stop_first count ts))
        (take_next_stop-Found r)
