-- ===== src/Options.antt =====
-- What is wired into an application, and how it is applied (src/module.rs, src/supply.rs,
-- src/supply_group.rs, src/provide_group.rs, src/invoke.rs, the options of src/provide.rs, and
-- `prepare_build_state_with` in src/app.rs). The events of tracing are left out.
pub mod Applied
pub mod Invokers
use modrun.Base.{String, Bool, Option, List, [], ◌∷◌, ◌++◌, map, if◌then◌else◌, ◌==◌}
use modrun.Error.{Result, ok, err, group_member_type_mismatch, ◌>>=◌}
use modrun.Future.{Future}
use modrun.Scope.{ScopeId, root, child}
use modrun.Container.Types.{
  TypeId, group, type_name, Payload, Dep, DepList, as_slice, DynProvider, take_once_value_provider,
}
use modrun.Container.Keys.{type_eq}
use modrun.Container.State.{Container}
use modrun.Container.State
use modrun.Container.Storage.{insert_value, seed_builtins}
use modrun.Container.Register.{
  insert_provider, ensure_group_virtual, insert_group_member, require_group_element,
}
use modrun.Container.Cycles.{validate}

-- What an invoker's function gives for its arguments, or what its future is ready with: nothing, or
-- the text of an error.
pub data InvokerFn : Type 0 where
  infallible : InvokerFn
  fallible : (List Payload → Option String) → InvokerFn
  infallible_async : (List Payload → Future (Unit {0})) → InvokerFn
  fallible_async : (List Payload → Future (Option String)) → InvokerFn

pub record DynInvoker : Type 0 where
  pub name : String
  pub deps : DepList
  pub func : InvokerFn

mutual
  pub data ModOption : Type 0 where
    provide_option : DynProvider → (is_private : Bool) → ModOption
    supply_option : TypeId → Payload → (is_private : Bool) → ModOption
    provide_group_option : (element : TypeId) → DynProvider → ModOption
    mismatch_option : (expected actual : String) → ModOption
    supply_group_option : (element : TypeId) → Payload → ModOption
    init_group_option : (element : TypeId) → ModOption
    require_group_option : (element : TypeId) → ModOption
    invoke_option : DynInvoker → ModOption
    module_option : (name : String) → ModOptions → ModOption

  -- `Vec<Box<dyn ModOption>>`
  pub data ModOptions : Type 0 where
    nil : ModOptions
    cons : ModOption → ModOptions → ModOptions

pub provide_group_dyn : TypeId → DynProvider → ModOption
provide_group_dyn element p =
    if p.result_type == element
    then provide_group_option element p
    else mismatch_option (type_name element) p.result_name

pub record ScopedInvoker : Type 0 where
  pub scope : ScopeId
  pub invoker : DynInvoker

-- The lifecycle and the budgets, which the options do not change, are left out.
pub record BuildState : Type 0 where
  pub container : Container
  pub invokers : List ScopedInvoker
  pub current_scope : ScopeId

abbrev with_container : BuildState → Container → BuildState
with_container s c = record s { container = c }

-- The scope of a module while its options are applied, and its parent after that.
abbrev pub in_module : BuildState → Container → ScopeId → BuildState
in_module s c scope = record s { container = c; current_scope = scope }

abbrev pub back_in : ScopeId → BuildState → BuildState
back_in scope s = record s { current_scope = scope }

abbrev pub apply_provide : DynProvider → Bool → BuildState → Result BuildState
apply_provide p is_private s =
    insert_provider s.container p s.current_scope is_private >>= λ c. ok (with_container s c)

abbrev pub apply_supply : TypeId → Payload → Bool → BuildState → Result BuildState
apply_supply t value is_private s =
    insert_value s.container t value s.current_scope is_private >>= λ c. ok (with_container s c)

abbrev pub apply_provide_group : TypeId → DynProvider → BuildState → Result BuildState
apply_provide_group element p s =
    insert_group_member s.container element p s.current_scope >>= λ c. ok (with_container s c)

abbrev pub apply_supply_group : TypeId → Payload → BuildState → Result BuildState
apply_supply_group element value s =
    apply_provide_group element (take_once_value_provider element value "<supply_group>") s

abbrev pub apply_init_group : TypeId → BuildState → Result BuildState
apply_init_group element s =
    ensure_group_virtual s.container element >>= λ c. ok (with_container s c)

abbrev pub apply_require_group : TypeId → BuildState → Result BuildState
apply_require_group element s = ensure_group_virtual s.container element >>= λ c.
    ok (with_container s (require_group_element c element (type_name (group element))))

abbrev pub apply_invoke : DynInvoker → BuildState → Result BuildState
apply_invoke invoker s = ok (record s {
  invokers = s.invokers ++ record { scope = s.current_scope; invoker = invoker } ∷ [];
})

unfoldable mutual
  unfolding child

  pub apply : ModOption → BuildState → Result BuildState
  apply (provide_option p is_private) s = apply_provide p is_private s
  apply (supply_option t value is_private) s = apply_supply t value is_private s
  apply (provide_group_option element p) s = apply_provide_group element p s
  apply (mismatch_option expected actual) s = err (group_member_type_mismatch expected actual)
  apply (supply_group_option element value) s = apply_supply_group element value s
  apply (init_group_option element) s = apply_init_group element s
  apply (require_group_option element) s = apply_require_group element s
  apply (invoke_option invoker) s = apply_invoke invoker s
  apply (module_option name options) s = child s.container.scopes s.current_scope name >>= λ made.
      apply_all options (in_module s (record s.container { scopes = made.0 }) made.1) >>= λ s'.
      ok (back_in s.current_scope s')

  pub apply_all : ModOptions → BuildState → Result BuildState
  apply_all nil s = ok s
  apply_all (cons option options) s = apply option s >>= λ s'. apply_all options s'

abbrev pub deps_of : ScopedInvoker → ScopeId × List Dep
deps_of scoped = (scoped.scope, as_slice scoped.invoker.deps)

-- `prepare_build_state_with`; the contents of the lifecycle and of the shutdowner are given.
unfoldable pub prepare_build_state : Payload → Payload → ModOptions → Result BuildState
unfolding apply_all validate
prepare_build_state life shut options = seed_builtins State.new life shut >>= λ c.
    apply_all options (record { container = c; invokers = []; current_scope = root }) >>= λ s.
    validate s.container (map deps_of s.invokers) >>= λ c'. ok (with_container s c')
