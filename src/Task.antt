-- ===== src/Task.antt =====
-- Background tasks (src/task.rs): the work that OnStart spawns, the task that watches it, and what
-- OnStop and `Drop` do to both. What tokio does is a step relation: a spawned task ends at some
-- time with a value, a panic or, only after `abort`, cancelled; a `Stopped` is ready once its sender
-- has sent or is gone. A `JoinError` is read through `Display`, and is that text.
pub mod Reported
pub mod Stops
use modrun.Base.{◌≡◌, ◌≢◌, String, ◌<>◌, Bool, true, false, Option, none, some}
use modrun.Error.{Error, Result, ok, err, unnamed_hook}
use modrun.Error
use modrun.Shutdown.{Shutdowner, fail}

-- How a spawned task ends: `Result<Result<()>, JoinError>`.
pub data Ended : Type 0 where
  returned : Result (Unit {0}) → Ended
  cancelled : Ended
  panicked : String → Ended

-- The handles that a `LiveTask` holds; `shutdown` is whether one was attached.
pub record LiveTask : Type 0 where
  pub name : String
  pub stop_tx : Bool
  pub handle : Bool
  pub work_abort : Bool
  pub shutdown : Bool

pub new : String → LiveTask
new name = record {
  name = name;
  stop_tx = false;
  handle = false;
  work_abort = false;
  shutdown = false;
}

-- The task with the two that it spawned. `watching` is whether the watching task has the shutdown;
-- `aborting` and `abandoned` are the requests to abort the work and the watching task.
pub record System : Type 0 where
  pub live : LiveTask
  pub shutdown : Shutdowner
  pub spawned : Bool
  pub watching : Bool
  pub stopped : Bool
  pub aborting : Bool
  pub abandoned : Bool
  pub work : Option Ended
  pub watcher : Option Ended

unfoldable pub idle : String → Shutdowner → System
unfolding new
idle name shutdown = record {
  live = new name;
  shutdown = shutdown;
  spawned = false;
  watching = false;
  stopped = false;
  aborting = false;
  abandoned = false;
  work = none;
  watcher = none;
}

unfoldable pub attach_shutdown : System → System
attach_shutdown s = record s { live = record s.live { shutdown = true } }

unfoldable pub spawn_with_stop : System → System
spawn_with_stop s = record s {
  live = record s.live { stop_tx = true; handle = true; work_abort = true };
  spawned = true;
  watching = s.live.shutdown;
}

-- `TaskJoinError`
task_join_error : String → String → Error
task_join_error name source = unnamed_hook ("task '" <> (name <> ("': " <> source)))

-- The value of the watching task, given how the work ended.
pub watched : String → Ended → Result (Unit {0})
unfolding task_join_error
watched name (returned r) = r
watched name cancelled = ok tt
watched name (panicked source) = err (task_join_error name source)

abbrev pub has_failed : Ended → Bool
has_failed (returned (ok _)) = false
has_failed (returned (err _)) = true
has_failed (returned (Error.panicked _)) = true
has_failed cancelled = false
has_failed (panicked _) = true

abbrev pub fail_if : Bool → Shutdowner → Shutdowner
fail_if true s = fail s
fail_if false s = s

abbrev pub both : Bool → Bool → Bool
both true b = b
both false b = false

-- The watching task wakes up.
pub watch : System → Ended → System
unfolding watched fail
watch s e = record s {
  watcher = some (returned (watched s.live.name e));
  shutdown = fail_if (both (has_failed e) s.watching) s.shutdown;
}

abbrev or_so : Bool → Bool → Bool
or_so true b = true
or_so false b = b

-- OnStop up to the point where it awaits the watching task.
pub signal : System → System
signal s = record s {
  live = record s.live { stop_tx = false };
  stopped = or_so s.live.stop_tx s.stopped;
}

-- OnStop from there on, once the watching task has ended; without a handle it is done at once.
abbrev joined : System → Option Ended → Option (System × Result (Unit {0}))
joined s none = none
joined s (some e) =
    some (record s { live = record s.live { handle = false } }, watched s.live.name e)

abbrev await_handle : System → Bool → Option (System × Result (Unit {0}))
await_handle s false = some (s, ok tt)
await_handle s true = joined s s.watcher

-- The answer of OnStop, if it has one yet.
pub on_stop : System → Option (System × Result (Unit {0}))
unfolding signal watched
on_stop s = await_handle (signal s) s.live.handle

-- `Drop` of `LiveTask`
pub drop_live : System → System
drop_live s = record s {
  live = record s.live { stop_tx = false; work_abort = false; handle = false };
  stopped = or_so s.live.stop_tx s.stopped;
  aborting = or_so s.live.work_abort s.aborting;
  abandoned = or_so s.live.handle s.abandoned;
}

-- `Task`, whose `start` is taken by OnStart.
pub record Task : Type 0 where
  pub system : System
  pub start : Bool

pub task_on_start : Task → Task × Result (Unit {0})
unfolding spawn_with_stop
task_on_start t = elim t.start [
  | true ↦ (record { system = spawn_with_stop t.system; start = false }, ok tt)
  | false ↦ (t, Error.panicked "task OnStart ran twice")
]

-- `PreparedTask`; both closures are there or both are taken.
pub record PreparedTask : Type 0 where
  pub system : System
  pub prepare : Bool

-- OnStart, with what the future of `prepare` gives: the work is spawned only behind it.
pub prepared_on_start : Result (Unit {0}) → PreparedTask → PreparedTask × Result (Unit {0})
unfolding spawn_with_stop
prepared_on_start ready t = elim t.prepare [
  | true ↦ elim ready as (λ _. PreparedTask × Result (Unit {0})) [
    | ok _ ↦ (record { system = spawn_with_stop t.system; prepare = false }, ok tt)
    | err e ↦ (record t { prepare = false }, err e)
    | Error.panicked m ↦ (record t { prepare = false }, Error.panicked m)
  ]
  | false ↦ (t, Error.panicked "task_with OnStart ran twice")
]

-- What can happen to a task.
pub data Step : System → System → Type 0 where
  attaches : (s : System) → Step s (attach_shutdown s)
  spawns : (s : System) → s.spawned ≡ false → Step s (spawn_with_stop s)
  works :
      (s : System) (e : Ended)
      → s.spawned ≡ true
      → s.work ≡ none
      → (e ≡ cancelled → s.aborting ≡ true)
      → Step s (record s { work = some e })
  watches : (s : System) (e : Ended) → s.work ≡ some e → s.watcher ≡ none → Step s (watch s e)
  is_abandoned :
      (s : System)
      → s.spawned ≡ true
      → s.abandoned ≡ true
      → s.watcher ≡ none
      → Step s (record s { watcher = some cancelled })
  stops : (s : System) → Step s (signal s)
  joins : (s d : System) (r : Result (Unit {0})) → on_stop s ≡ some (d, r) → Step s d
  drops : (s : System) → Step s (drop_live s)

pub data Steps : System → System → Type 0 where
  here : (s : System) → Steps s s
  then : (s d e : System) → Steps s d → Step d e → Steps s e
