-- ===== src/Options/Invokers.antt =====
-- The call of the invokers (`run_invokers` in src/app.rs, and `call` of src/invoke.rs).
pub mod Calls
use modrun.Base.{String, Option, none, some, List, [], ◌∷◌, ◌++◌}
use modrun.Error.{Result, ok, err, panicked, invoker_error}
use modrun.Scope.{ScopeId}
use modrun.Container.Types.{Payload, Dep, as_slice}
use modrun.Container.State.{Container, enter_scope, leave_scope}
use modrun.Container.Construct.{get_all}
use modrun.Container.Build.{Progress}
use modrun.Container.Collect.{ensure_built}
use modrun.Options.{
  InvokerFn, infallible, fallible, infallible_async, fallible_async, DynInvoker, ScopedInvoker,
}

-- `.map_err(|err| user_invoke_err(self.name, err))`
abbrev user_result : String → Option String → Result (Unit {0})
user_result name none = ok tt
user_result name (some source) = err (invoker_error name source)

-- One invoker is called: the arguments that its function got, if it was called, and its result.
abbrev pub Invocation : Type 0
Invocation = Option (List Payload) × Result (Unit {0})

-- The result of the function, or of its future once that is ready.
abbrev outcome : String → InvokerFn → List Payload → Result (Unit {0})
outcome name infallible args = ok tt
outcome name (fallible f) args = user_result name (f args)
outcome name (infallible_async f) args = ok (f args).ready
outcome name (fallible_async f) args = user_result name (f args).ready

abbrev call_with : DynInvoker → Result (List Payload) → Invocation
call_with invoker (ok args) = (some args, outcome invoker.name invoker.func args)
call_with invoker (err e) = (none, err e)
call_with invoker (panicked m) = (none, panicked m)

pub call : Container → DynInvoker → Invocation
unfolding get_all
call c invoker = call_with invoker (get_all c (as_slice invoker.deps))

abbrev call_built : DynInvoker → Progress → Container × Invocation
call_built invoker (c, _, ok _) = (c, call c invoker)
call_built invoker (c, _, err e) = (c, (none, err e))
call_built invoker (c, _, panicked m) = (c, (none, panicked m))

-- Nothing is built for an invoker without dependencies.
abbrev built_for : Container → List Dep → Progress
built_for c [] = (c, [], ok tt)
built_for c (dep ∷ deps) = ensure_built c (dep ∷ deps)

abbrev left_scope : ScopeId → Container × Invocation → Container × Invocation
left_scope previous (c, (args, r)) = elim r as (λ _. Container × Invocation) [
  | panicked m ↦ (c, (args, panicked m))
  | ok u ↦ (leave_scope c previous, (args, ok u))
  | err e ↦ (leave_scope c previous, (args, err e))
]

-- The body of the loop of `run_invokers`.
pub invoke_one : Container → ScopedInvoker → Container × Invocation
unfolding enter_scope leave_scope ensure_built call
invoke_one c scoped =
    let (c', previous) = enter_scope c scoped.scope in
    left_scope previous (call_built scoped.invoker (built_for c' (as_slice scoped.invoker.deps)))

-- The container, the calls that were made, in order, and the result.
pub record Invoked : Type 0 where
  pub container : Container
  pub calls : List (String × List Payload)
  pub result : Result (Unit {0})

abbrev called : String → Option (List Payload) → List (String × List Payload)
called name none = []
called name (some args) = (name, args) ∷ []

abbrev and_rest : String → Container × Invocation → (Container → Invoked) → Invoked
and_rest name (c, (args, ok _)) more =
    let rest = more c in record rest { calls = called name args ++ rest.calls }
and_rest name (c, (args, err e)) more = record {
  container = c;
  calls = called name args;
  result = err e;
}
and_rest name (c, (args, panicked m)) more = record {
  container = c;
  calls = called name args;
  result = panicked m;
}

-- `run_invokers`, but for its timer, which is `with_timeout`.
pub run_invokers : Container → List ScopedInvoker → Invoked
unfolding invoke_one
run_invokers c [] = record { container = c; calls = []; result = ok tt }
run_invokers c (scoped ∷ rest) =
    and_rest scoped.invoker.name (invoke_one c scoped) (λ c'. run_invokers c' rest)
