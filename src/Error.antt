-- ===== src/Error.antt =====
-- The errors of the crate (src/error.rs) and the results of its functions.
-- A user's error (`BoxError`) and an `io::Error` are read only through `Display`, and are that
-- text. A `Duration` is a number of nanoseconds.
pub mod Gives
pub mod Agree
pub mod Sure
use modrun.Base.{ℕ, String, ◌<>◌, List, [], ◌∷◌, map, length, Option, none, some}
use modrun.Base.Text.{join, decimal, debug_duration}
use text.Mathlib.Text.{find?}

mutual
  pub data Error : Type 0 where
    empty_group : (type_name : String) → Error
    group_member_type_mismatch : (expected actual : String) → Error
    already_provided : (type_name : String) → Error
    already_provided_private : (module_name type_name : String) → Error
    cycle : (path : String) → Error
    not_constructed : (type_name : String) → Error
    missing_provider : (type_name module_name : String) → Error
    provider_missing_dep : (provider module_name dependency : String) → Error
    invoker_missing_dep : (module_name dependency : String) → Error
    downcast : (type_name : String) → Error
    constructor_failed : (type_name source : String) → Error
    invoker_failed : (name source : String) → Error
    append_after_start append_while_stopping : Error
    build_timeout start_timeout stop_timeout unwind_timeout : ℕ → Error
    task_failed_during_start : Error
    sigint_listen sigterm_listen signal_listen : (source : String) → Error
    multiple_stop : (count : ℕ) (summary : String) (errors : Errors) → Error
    cleanup_after_failure : (cleanup earlier : Error) → Error
    hook : (name source : String) → Error
    io : (context source : String) → Error

  -- `Vec<Error>`
  pub data Errors : Type 0 where
    nil : Errors
    cons : Error → Errors → Errors

-- A `Result`, or a panic with its message.
pub data Result {ℓ} (A : Type ℓ) : Type ℓ where
  ok : A → Result A
  err : Error → Result A
  panicked : String → Result A

infixl 5 ◌>>=◌ ◌>>◌
abbrev pub ◌>>=◌ {ℓ κ} : {A : Type ℓ} {B : Type κ} → Result A → (A → Result B) → Result B
ok a >>= f = f a
err e >>= f = err e
panicked m >>= f = panicked m

abbrev pub ◌>>◌ {ℓ} : {B : Type ℓ} → Result (Unit {0}) → Result B → Result B
m >> k = m >>= λ _. k

-- `o.expect(message)`
abbrev pub expect {ℓ} : {A : Type ℓ} → Option A → String → Result A
expect none message = panicked message
expect (some a) message = ok a

-- `o.ok_or_else(..)?`
abbrev pub ok_or {ℓ} : {A : Type ℓ} → Option A → Error → Result A
ok_or none e = err e
ok_or (some a) e = ok a

abbrev pub to_errors : List Error → Errors
to_errors [] = nil
to_errors (e ∷ es) = cons e (to_errors es)

hook_failed_message : String → String → String
hook_failed_message name source = "hook '" <> (name <> ("' failed: " <> source))

group_registration_hint : String → String
group_registration_hint dependency = elim (find? dependency "Group<") [
  | none ↦ ""
  | some _ ↦ "; register the group with init_group, provide_group, or require_group"
]

-- `Display`; the texts of the attributes `#[error(..)]`.
unfoldable pub to_string : Error → String
unfolding hook_failed_message group_registration_hint
to_string (empty_group t) = "required group is empty: " <> t
to_string (group_member_type_mismatch expected actual) =
    "provide_group_dyn type mismatch: expected " <> (expected <> (", got " <> actual))
to_string (already_provided t) = "type already provided: " <> t
to_string (already_provided_private m t) =
    "type already provided privately in module '" <> (m <> ("': " <> t))
to_string (cycle path) = "dependency cycle detected involving: " <> path
to_string (not_constructed t) = "dependency not constructed yet: " <> t
to_string (missing_provider t m) =
    "missing provider for type: " <> (t <> (" (from module '" <> (m <> "')")))
to_string (provider_missing_dep p m d) =
    "provider for "
    <> (p
        <> (" in module '"
            <> (m
                <> ("' needs a dependency nothing provides: "
                    <> (d <> group_registration_hint d)))))
to_string (invoker_missing_dep m d) =
    "invoker in module '"
    <> (m <> ("' needs a dependency nothing provides: " <> (d <> group_registration_hint d)))
to_string (downcast t) = "failed to downcast value to " <> t
to_string (constructor_failed t source) = "constructor for " <> (t <> (" failed: " <> source))
to_string (invoker_failed name source) = "invoker " <> (name <> (" failed: " <> source))
to_string append_after_start = "cannot append lifecycle hook after start has finished"
to_string append_while_stopping = "cannot append lifecycle hook while stopping"
to_string (build_timeout d) = "application build timed out after " <> debug_duration d
to_string (start_timeout d) = "application start timed out after " <> debug_duration d
to_string (stop_timeout d) = "application stop timed out after " <> debug_duration d
to_string (unwind_timeout d) =
    "application stop timed out after " <> (debug_duration d <> " while unwinding")
to_string task_failed_during_start = "background task failed during start"
to_string (sigint_listen source) = "failed to listen for SIGINT: " <> source
to_string (sigterm_listen source) = "failed to listen for SIGTERM: " <> source
to_string (signal_listen source) = "failed to listen for process signal: " <> source
to_string (multiple_stop count summary errors) =
    decimal count <> (" OnStop hooks failed: " <> summary)
to_string (cleanup_after_failure cleanup earlier) =
    "cleanup failed after an earlier phase error: "
    <> (to_string cleanup <> ("; earlier: " <> to_string earlier))
to_string (hook name source) = hook_failed_message name source
to_string (io context source) = context <> (": " <> source)

-- `Error::hook`: a failure that has no hook's name yet.
pub unnamed_hook : String → Error
unnamed_hook source = hook "unnamed" source

unfoldable pub with_hook_name : Error → String → Error
with_hook_name (hook _ source) name = hook name source
with_hook_name other name = other

pub constructor_error : String → String → Error
constructor_error type_name source = constructor_failed type_name source

pub invoker_error : String → String → Error
invoker_error name source = invoker_failed name source

unfoldable pub multiple_stop_error : List Error → Error
unfolding to_string
multiple_stop_error errors =
    multiple_stop (length errors) (join "; " (map to_string errors)) (to_errors errors)

-- The failures of a stop, as one result.
pub aggregate_errors : List Error → Result (Unit {0})
aggregate_errors [] = ok tt
aggregate_errors (e ∷ []) = err e
aggregate_errors (e ∷ f ∷ rest) = err (multiple_stop_error (e ∷ f ∷ rest))

-- A phase's error, which keeps that of its cleanup. A panic of the cleanup goes on.
unfoldable pub with_cleanup : Error → Result (Unit {0}) → Result Error
with_cleanup earlier (ok _) = ok earlier
with_cleanup earlier (err cleanup) = ok (cleanup_after_failure cleanup earlier)
with_cleanup earlier (panicked m) = panicked m

unfoldable pub combine_results : Result (Unit {0}) → Result (Unit {0}) → Result (Unit {0})
unfolding with_cleanup
combine_results (ok _) later = later
combine_results (err e) later = with_cleanup e later >>= err
combine_results (panicked m) later = panicked m
