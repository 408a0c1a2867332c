-- ===== src/Options/Applied.antt =====
-- What the options make is made by calls of the container's interface.
use modrun.Base.{subst, ◌≡◌, refl, map}
use modrun.Error.{Result, ok, err, panicked, ◌>>=◌}
use modrun.Error.Gives.{Gives, Gives-bind}
use modrun.Scope.{ScopeId, ScopeTree, root, child}
use modrun.Container.Types.{group, type_name, take_once_value_provider}
use modrun.Container.State.{Container}
use modrun.Container.State
use modrun.Container.Register.{ensure_group_virtual}
use modrun.Container.Validate.Checks.{IsValid}
use modrun.Container.Inv.Reachable.{
  provide, supply, declare, contribute, require, nest, Reachable, step,
}
use modrun.Container.Cycles.{validate}
use modrun.Options.{
  ModOption, provide_option, supply_option, provide_group_option, mismatch_option,
  supply_group_option, init_group_option, require_group_option, invoke_option, module_option,
  ModOptions, nil, cons, BuildState, in_module, apply, apply_all, deps_of,
}

-- The step of a call, if it succeeds.
called : {A : Type 0} (P : A → Type 0) (r : Result A) → ((a : A) → r ≡ ok a → P a) → Gives P r
called P (ok a) h = h a refl
called P (err e) h = tt
called P (panicked m) h = tt

-- The container is made by calls of its interface, and the scope is that from before.
abbrev Kept : ScopeId → BuildState → Type 0
Kept scope s = Reachable s.container × (s.current_scope ≡ scope)

-- One call that changes the container.
one_call :
    (s : BuildState) (r : Result Container)
    → ((d : Container) → r ≡ ok d → Reachable d)
    → Gives (Kept s.current_scope) (r >>= λ d. ok (record s { container = d }))
one_call s r h =
    Gives-bind Reachable (Kept s.current_scope) r _ (called Reachable r h)
      (λ d reach. (reach, refl))

mutual
  unfolding apply apply_all

  apply-Kept :
      (option : ModOption) (s : BuildState)
      → Reachable s.container
      → Gives (Kept s.current_scope) (apply option s)
  apply-Kept (provide_option p is_private) s reach =
      one_call s _ (λ d e. step _ d reach (provide s.container d p s.current_scope is_private e))
  apply-Kept (supply_option t value is_private) s reach =
      one_call s _
        (λ d e. step _ d reach (supply s.container d t value s.current_scope is_private e))
  apply-Kept (provide_group_option element p) s reach =
      one_call s _ (λ d e. step _ d reach (contribute s.container d element p s.current_scope e))
  apply-Kept (mismatch_option expected actual) s reach = tt
  apply-Kept (supply_group_option element value) s reach = one_call s _ (λ d e. step _ d reach (
      contribute s.container d element (take_once_value_provider element value "<supply_group>")
        s.current_scope e))
  apply-Kept (init_group_option element) s reach =
      one_call s _ (λ d e. step _ d reach (declare s.container d element e))
  apply-Kept (require_group_option element) s reach =
      Gives-bind Reachable (Kept s.current_scope) (ensure_group_virtual s.container element) _
        (called Reachable _ (λ d e. step _ d reach (declare s.container d element e)))
        (λ d r. (step d _ r (require d element (type_name (group element))), refl))
  apply-Kept (invoke_option invoker) s reach = (reach, refl)
  apply-Kept (module_option name options) s reach =
      Gives-bind
        (λ (made : ScopeTree × ScopeId). Reachable (record s.container { scopes = made.0 }))
        (Kept s.current_scope) (child s.container.scopes s.current_scope name) _
        (called _ _
          (λ made e. step _ _ reach (nest s.container s.current_scope name made.0 made.1 e)))
        (λ made r.
          Gives-bind (Kept made.1) (Kept s.current_scope)
            (apply_all options (in_module s (record s.container { scopes = made.0 }) made.1)) _
            (apply_all-Kept options (in_module s (record s.container { scopes = made.0 }) made.1) r)
            (λ s' (r', _). (r', refl)))

  apply_all-Kept :
      (options : ModOptions) (s : BuildState)
      → Reachable s.container
      → Gives (Kept s.current_scope) (apply_all options s)
  apply_all-Kept nil s reach = (reach, refl)
  apply_all-Kept (cons option options) s reach =
      Gives-bind (Kept s.current_scope) (Kept s.current_scope) (apply option s) _
        (apply-Kept option s reach)
        (λ s' (r, same).
          subst (λ scope. Gives (Kept scope) (apply_all options s')) same
            (apply_all-Kept options s' r))

-- A container from which validation made another, and which is as it checks.
abbrev Prepared : BuildState → Type 0
Prepared s =
    (c : Container) × Reachable c
    × (validate c (map deps_of s.invokers) ≡ ok s.container)
    × IsValid c (map deps_of s.invokers)
    × (s.current_scope ≡ root)
