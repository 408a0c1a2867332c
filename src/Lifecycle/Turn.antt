-- ===== src/Lifecycle/Turn.antt =====
-- What happens while the lifecycle awaits a callback, and the events that it records.
use modrun.Base.{ℕ, String, List, [], ◌∷◌, ◌++◌}
use modrun.Error.{Error, Result}
use modrun.Lifecycle.{State, Hook, ErasedHook}

-- The awaited future returns (or panics), or it is dropped: by a timeout, or by a shutdown.
pub data Await : Type 0 where
  returns : Result (Unit {0}) → Await
  dropped : Await

-- One awaited callback: the hooks that are appended meanwhile, how it ends, and the state in
-- which it leaves a hook object.
pub record Turn : Type 0 where
  pub appended : List Hook
  pub await : Await
  pub left : ErasedHook

-- The calls of src/trace.rs that the lifecycle makes.
pub data Event : Type 0 where
  start_executing start_executed start_cancelled start_panicked : ℕ → String → Event
  start_failed : ℕ → String → Error → Event
  stop_executing stop_executed stop_cancelled stop_panicked : ℕ → String → Event
  stop_failed : ℕ → String → Error → Event

-- The state after a run, its events, and how the run itself ended.
pub record Run : Type 0 where
  pub state : State
  pub log : List Event
  pub await : Await

abbrev pub after_events : List Event → Run → Run
after_events es r = record r { log = es ++ r.log }

-- The hooks whose OnStart, or OnStop, was entered, by index.
abbrev pub starts : List Event → List ℕ
starts [] = []
starts (start_executing i _ ∷ es) = i ∷ starts es
starts (_ ∷ es) = starts es

abbrev pub stops : List Event → List ℕ
stops [] = []
stops (stop_executing i _ ∷ es) = i ∷ stops es
stops (_ ∷ es) = stops es

abbrev pub completed_starts : List Event → List ℕ
completed_starts [] = []
completed_starts (start_executed i _ ∷ es) = i ∷ completed_starts es
completed_starts (_ ∷ es) = completed_starts es

-- The hooks whose OnStop ended, with success or with an error.
abbrev pub ended_stops : List Event → List ℕ
ended_stops [] = []
ended_stops (stop_executed i _ ∷ es) = i ∷ ended_stops es
ended_stops (stop_failed i _ _ ∷ es) = i ∷ ended_stops es
ended_stops (_ ∷ es) = ended_stops es
