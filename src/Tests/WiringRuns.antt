-- ===== src/Tests/WiringRuns.antt =====
-- Runs of the options, the invokers and background tasks on concrete inputs.
use modrun.Base.{false, some, List, [], ◌∷◌, nat_eq, pair_eq}
use modrun.Error.{Result, ok, err, unnamed_hook}
use modrun.Scope.{ScopeId, root}
use modrun.Scope
use modrun.Shutdown.{Shutdowner, fail}
use modrun.Shutdown
use modrun.Container.Types.{named, opaque, empty_deps}
use modrun.Container.Keys.{type_eq, key_eq}
use modrun.Container.State.{Container}
use modrun.Container.State
use modrun.Container.Inv.Reachable.{Reachable}
use modrun.Task.{Ended, returned, System, idle, attach_shutdown, spawn_with_stop}
use modrun.Options.{
  ModOptions, nil, cons, supply_option, invoke_option, module_option, DynInvoker, infallible,
  fallible, BuildState, ScopedInvoker, prepare_build_state,
}

abbrev greet : DynInvoker
greet = record { name = "app::greet"; deps = empty_deps; func = infallible }

abbrev refuse : DynInvoker
refuse = record { name = "app::refuse"; deps = empty_deps; func = fallible (λ args. some "no") }

abbrev options : ModOptions
options =
    cons (supply_option (named 3 "app::Port") (opaque 8080) false)
      (cons (module_option "greeter" (cons (invoke_option greet) nil)) nil)

abbrev state_or : Result BuildState → BuildState
state_or (ok s) = s
state_or _ = record { container = State.new; invokers = []; current_scope = root }

abbrev prepared : BuildState
prepared = state_or (prepare_build_state (opaque 1) (opaque 2) options)

abbrev invokers : List ScopedInvoker
invokers =
    record { scope = 0; invoker = greet }
    ∷ record { scope = 0; invoker = refuse }
    ∷ record { scope = 0; invoker = greet }
    ∷ []

-- A task whose work fails.
abbrev failure : Ended
failure = returned (err (unnamed_hook "refused"))

abbrev attached : System
attached = attach_shutdown (idle "http" Shutdown.new)

abbrev running : System
running = spawn_with_stop attached

abbrev worked : System
worked = record running { work = some failure }
