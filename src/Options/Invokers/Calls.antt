-- ===== src/Options/Invokers/Calls.antt =====
-- Which invokers are called.
use modrun.Base.{◌≡◌, String, some, List, [], ◌++◌, map}
use modrun.Error.{ok, err, panicked}
use modrun.Container.Types.{Payload}
use modrun.Container.State.{Container}
use modrun.Options.{ScopedInvoker}
use modrun.Options.Invokers.{Invocation, Invoked}

abbrev name_of_call : String × List Payload → String
name_of_call (name, _) = name

abbrev pub name_of_invoker : ScopedInvoker → String
name_of_invoker scoped = scoped.invoker.name

-- Where the result is Ok, the function was called.
abbrev WasCalled : Container × Invocation → Type 0
WasCalled (_, (args, ok _)) = (a : List Payload) × (args ≡ some a)
WasCalled (_, (args, err _)) = Unit
WasCalled (_, (args, panicked _)) = Unit

-- The names of the calls are those of the invokers up to some place, and of all if the run succeeds.
pub record CallsInOrder (names : List String) (run : Invoked) : Type 0 where
  pub uncalled : List String
  pub in_order : names ≡ map name_of_call run.calls ++ uncalled
  pub all_called : run.result ≡ ok tt → uncalled ≡ []
