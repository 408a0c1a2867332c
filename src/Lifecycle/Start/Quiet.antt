-- ===== src/Lifecycle/Start/Quiet.antt =====
-- A start ends no OnStop.
use modrun.Base.{ℕ, ◌≡◌, refl, String, Option, none, some, List, [], ◌∷◌}
use modrun.Error.{ok, err, panicked}
use modrun.Lifecycle.{State, Taken, take_next_start}
use modrun.Lifecycle.Turn.{Turn, Await, returns, dropped, Run, ended_stops}
use modrun.Lifecycle.Start.{
  start_inner, start_round, last_round, end_start, finished, abandoned, start,
}

abbrev pub StopsNothing : Run → Type 0
StopsNothing run = ended_stops run.log ≡ []

end_start-StopsNothing :
    (a : Await) (s : State) (i : ℕ) (name : String) (rest : Run)
    → StopsNothing rest
    → StopsNothing (end_start a s i name rest)
unfolding end_start abandoned
end_start-StopsNothing (returns (ok _)) s i name rest h = h
end_start-StopsNothing (returns (err e)) s i name rest h = refl
end_start-StopsNothing (returns (panicked m)) s i name rest h = refl
end_start-StopsNothing dropped s i name rest h = refl

start_round-StopsNothing :
    (t : Turn) (p : State × Option Taken) (more : State → Run)
    → ((s : State) → StopsNothing (more s))
    → StopsNothing (start_round t p more)
unfolding start_round finished
start_round-StopsNothing t (s, none) more h = refl
start_round-StopsNothing t (s, some (i, name, hook)) more h =
    end_start-StopsNothing t.await _ i name _ (h _)

last_round-StopsNothing : (p : State × Option Taken) → StopsNothing (last_round p)
unfolding last_round finished abandoned
last_round-StopsNothing (s, none) = refl
last_round-StopsNothing (s, some (i, name, hook)) = refl

start_inner-StopsNothing : (ts : List Turn) (s : State) → StopsNothing (start_inner ts s)
unfolding start_inner
start_inner-StopsNothing [] s = last_round-StopsNothing (take_next_start s)
start_inner-StopsNothing (t ∷ ts) s =
    start_round-StopsNothing t (take_next_start s) (start_inner ts)
      (λ s'. start_inner-StopsNothing ts s')

pub start-StopsNothing : (ts : List Turn) (s : State) → StopsNothing (start ts s)
unfolding start
start-StopsNothing ts s = start_inner-StopsNothing ts _
