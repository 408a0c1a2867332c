-- ===== src/Lib.antt =====
-- modrun, a composer of applications (`src/`): modules register constructors and values in a
-- container, the container resolves and constructs them, and the lifecycle starts and stops the
-- hooks that they register.
--
-- The parts:
--   * Base: the names of the libraries, Boolean tests, lists over the native numbers,
--     association maps, and the texts of numbers and durations.
--   * Error: `src/error.rs`. The variants and their texts, the aggregation of the errors of
--     hooks, and `Result`, which also has a panic. Error/Gives and Error/Agree: what a result
--     is, if it is one, and results that agree.
--   * Scope: `src/scope.rs`. `ScopeTree` is the names and the ancestor chains; `child`, `name`
--     (`name_of`) and `ancestors_from`. Scope/Chains: its invariant.
--   * Future: `src/future.rs`. `TryJoinAll` and its `poll`, a loop over the futures with
--     `swap_remove`; `join` is the await of it. Future/Swap, Future/Sweep and Future/Join: one
--     removal, one poll, and the polls up to the end.
--   * Lifecycle: `src/lifecycle.rs`. `State` is the record behind the mutex, and each block
--     that locks it is a function (`append`, `take_next_start`, `prepare_for_unwind`,
--     `take_next_stop`). Lifecycle/Turn: what an awaited callback does. Lifecycle/Start:
--     `start` and `start_inner` with `InflightHook`. Lifecycle/Stop: `stop`, `stop_first` and
--     `unwind_started` with `StopGuard`. Their child modules prove what the loops do against a
--     plan, the indices of the hooks that are to run. Lifecycle/Reached: the states that the
--     operations reach. Lifecycle/Unwound: a start and the unwind after it.
--   * Container: `src/container/`. Types and Keys (`types.rs`, and `src/deps.rs` and the type
--     `DynProvider` of `src/provide.rs`), State (`mod.rs`), Storage (`storage.rs`), Resolve
--     (the searches of `graph.rs`), Register (`insert_provider` of `mod.rs`, and the
--     registrations of `group.rs`), Aggregate (the collection of the members of a group,
--     `group.rs`), Validate (the checks of `validate` in `graph.rs`),
--     Layers (`freeze_layers` with its caches), Cycles (`detect_cycles` and the whole of
--     `validate`), Construct (the closures of `src/provide.rs`), Build (`build.rs`) and Collect
--     (`collect_pending` of `graph.rs` and `ensure_built` of `build.rs`).
--     Container/Resolve/Reference says what a type means in a scope, the nearest binding;
--     Container/Inv holds the invariants of the registrations, and what follows from them.
--     Container/Layers/Edges lists the edges of the dependencies for themselves, and the other
--     modules in Container/Layers compare the loop with them; those in Container/Build and
--     Container/Collect say what a wave keeps, what is stored, and what is collected.
--   * Shutdown: `src/shutdown.rs`, the two flags that the handles share.
--   * App: `with_timeout`, `BuiltApp` and the results of a run in `src/app.rs`: the start of
--     the hooks with the unwind after a failure, and the stop. App/Started, App/Cleanup and
--     App/Interrupt: a start that succeeds, one that fails, and a run that is interrupted.
--   * Task: `src/task.rs`. `LiveTask` is the handles, and `System` is the task with the two
--     tasks that it spawned. Task/Reported and Task/Stops: failures, and the end by OnStop.
--   * Options: the options of `src/module.rs`, `src/supply.rs`, `src/supply_group.rs`,
--     `src/provide_group.rs`, `src/invoke.rs` and `src/provide.rs`, how they are applied, and
--     `prepare_build_state_with` of `src/app.rs`. Options/Invokers: `run_invokers`.
--
-- The correspondence: a `HashMap` is an association list with one entry for a key, a callback
-- and a value of the program are numbers, a type is a `TypeId` that says whether modrun forms
-- it, and a `Result` of a function that changes the container is the new container or the
-- error. The numbers are natural numbers; where the source checks a limit (the `u32` of a scope
-- or of a group member), so does the model.
--
-- A future that is joined is how often it answers `Pending` and what it is ready with then. The
-- loop of `poll` has as much fuel as there are futures, since each round moves the index on or
-- removes a future; the polls of `join` are bounded, and enough are given by the number of
-- `Pending` answers.
--
-- A constructor or an invoker of the program is a function from its arguments to its value, its
-- error, or a future of them. The loop over the layers has as much fuel as there are providers,
-- and one more: each round builds a provider. `collect_pending` recurs on fuel too, with one
-- level more than there are providers, since each level has one more key pending; that this is
-- enough is among the results. `visit` has the same fuel, where each level has one more key on
-- its path. Where fuel runs out, the model panics. The futures of a wave are polled as often as
-- they answer `Pending`, and once more. What tokio does with the two tasks of a `LiveTask` is a
-- step relation, in which every order of the steps is possible.
--
-- The callbacks of the lifecycle: a run of `start` or `stop` takes a list of turns, one for
-- each callback that it awaits. A turn says which hooks are appended meanwhile, and whether the
-- callback returns, panics, or is dropped with the future of the run. Where the list ends, the
-- run is still waiting, and is dropped there; so a run is defined for every list, and the list
-- needs no bound; a theorem that a run returns assumes as many turns as hooks are to run. A
-- time budget is a number of nanoseconds, and a `Timing` says how long a future took, or
-- whether it was dropped from outside rather than by its timer.
--
-- Not modelled: the builder, and `start` and `run` of `src/app.rs` around the parts above, with
-- their signals; the events of tracing, logging and the banner, which are output only; the DOT
-- text (`src/graph/`). `Group` of
-- `src/group.rs` is its vector. The macros and traits of `src/wiring.rs`, and those of
-- `src/provide.rs` and `src/invoke.rs` that count the arguments, are resolved by the compiler.
pub mod Base
pub mod Error
pub mod Scope
pub mod Future
pub mod Lifecycle
pub mod Container
pub mod Shutdown
pub mod Task
pub mod App
pub mod Options
pub mod Tests
