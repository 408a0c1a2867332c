-- ===== src/Container/Validate/Checks.antt =====
-- What the checks of `validate` assure.
use modrun.Base.{
  String, ◌≡◌, ◌≢◌, ◌↔◌, refl, ap, ◌∙◌, sym, Bool, true, false, Option, none, some, List, [], ◌∷◌,
  nat_eq, pair_eq, arith, All,
}
use modrun.Error.{Error, Result, ok, err, panicked, empty_group, ◌>>=◌, ◌>>◌}
use modrun.Scope.{ScopeId, ancestors_from}
use modrun.Container.Types.{TypeId, ProviderKey, Dep, DynProvider, dep_types}
use modrun.Container.State.{Container, provider_at}
use modrun.Container.Resolve.{can_resolve, can_resolve_in}
use modrun.Container.Resolve.Reference.{nearest, is_bound}
use modrun.Container.Register.{members_of}
use modrun.Container.Inv.Reachable.{Reachable}
use modrun.Container.Inv.Resolution.{reachable-Finds}
use modrun.Container.Validate.{provider_missing, invoker_missing, check_required, check_all}
use modrun.Container.Validate.Cached.{
  require_deps, require_provider, require_providers, require_invokers, check_all-uncached,
}

-- The dependency is bound, to a value or a provider, along the chain of the scope.
abbrev pub IsBoundFrom : Container → ScopeId → Dep → Type 0
IsBoundFrom c scope dep =
    (chain : List ScopeId) × (ancestors_from c.scopes scope ≡ ok chain)
    × (is_bound (nearest c dep.0 chain) ≡ true)

-- All dependencies of a provider are bound from its scope.
abbrev pub ProviderBound : Container → ScopeId → Option DynProvider → Type 0
ProviderBound c scope none = Unit
ProviderBound c scope (some p) = All (IsBoundFrom c scope) (dep_types p)

pub record IsValid (c : Container) (invokers : List (ScopeId × List Dep)) : Type 0 where
  pub providers :
      All (λ (key : ProviderKey). ProviderBound c key.scope (provider_at c key)) c.provider_order
  pub invoked :
      All (λ (invoker : ScopeId × List Dep). All (IsBoundFrom c invoker.0) invoker.1) invokers
  pub required : All (λ (group : TypeId × String). members_of c group.0 ≢ []) c.groups.required

then_iff : (r k : Result (Unit {0})) → ((r >> k) ≡ ok tt) ↔ ((r ≡ ok tt) × (k ≡ ok tt))
then_iff (ok _) k = (λ e. (refl, e), λ (_, e). e)
then_iff (err x) k = ground arith
then_iff (panicked m) k = ground arith

bound_iff :
    (c : Container) (id : TypeId) (reach : Reachable c) (r : Result (List ScopeId))
    → ((r >>= λ chain. ok (can_resolve_in c id chain)) ≡ ok true)
      ↔ ((chain : List ScopeId) × (r ≡ ok chain) × (is_bound (nearest c id chain) ≡ true))
bound_iff c id reach (ok chain) =
    let same = (reachable-Finds c id chain reach).1 in
    (
      λ e. let found : can_resolve_in c id chain ≡ true = cc in (chain, refl, sym same ∙ found),
      λ (other, e, b).
          let at : other ≡ chain = cc in
          ap ok (same ∙ ap (λ x. is_bound (nearest c id x)) (sym at) ∙ b),
    )
bound_iff c id reach (err x) = (λ e. absurd (cc), λ (other, e, b). absurd (cc))
bound_iff c id reach (panicked m) = (λ e. absurd (cc), λ (other, e, b). absurd (cc))

resolved_iff :
    (c : Container) (scope : ScopeId) (dep : Dep)
    → Reachable c
    → (can_resolve c dep.0 scope ≡ ok true) ↔ IsBoundFrom c scope dep
unfolding can_resolve
resolved_iff c scope dep reach = bound_iff c dep.0 reach (ancestors_from c.scopes scope)

-- One dependency, given the answer.
answer_iff :
    (r : Result Bool) (e : Error) (k : Result (Unit {0}))
    → ((r >>= λ hit. elim hit [ true ↦ k | false ↦ err e ]) ≡ ok tt) ↔ ((r ≡ ok true) × (k ≡ ok tt))
answer_iff (ok true) e k = (λ h. (refl, h), λ (_, h). h)
answer_iff (ok false) e k = (λ h. absurd (cc), λ (h, _). absurd (cc))
answer_iff (err x) e k = (λ h. absurd (cc), λ (h, _). absurd (cc))
answer_iff (panicked m) e k = (λ h. absurd (cc), λ (h, _). absurd (cc))

both_iff {ℓ ℓ' κ κ'} :
    {A : Type ℓ} {B : Type ℓ'} {C : Type κ} {D : Type κ'} → (A ↔ B) → (C ↔ D) → ((A × C) ↔ (B × D))
both_iff f g = (λ (a, c). (f.0 a, g.0 c), λ (b, d). (f.1 b, g.1 d))

iff_trans {ℓ ℓ' κ} : {A : Type ℓ} {B : Type ℓ'} {C : Type κ} → (A ↔ B) → (B ↔ C) → (A ↔ C)
iff_trans f g = (λ a. g.0 (f.0 a), λ c. f.1 (g.1 c))

module _ (c : Container) (reach : Reachable c) where
  deps_iff :
      (missing : String → Error) (scope : ScopeId) (deps : List Dep)
      → (require_deps c missing scope deps ≡ ok tt) ↔ All (IsBoundFrom c scope) deps
  unfolding require_deps
  deps_iff missing scope [] = (λ _. tt, λ _. refl)
  deps_iff missing scope ((id, name) ∷ deps) =
      iff_trans
        (answer_iff (can_resolve c id scope) (missing name) (require_deps c missing scope deps))
        (both_iff (resolved_iff c scope (id, name) reach) (deps_iff missing scope deps))

  provider_iff :
      (key : ProviderKey) (o : Option DynProvider)
      → (require_provider c key o ≡ ok tt) ↔ ProviderBound c key.scope o
  provider_iff key none = (λ _. tt, λ _. refl)
  provider_iff key (some p) = deps_iff (provider_missing c key p) key.scope (dep_types p)

  providers_iff :
      (keys : List ProviderKey)
      → (require_providers c keys ≡ ok tt)
        ↔ All (λ (key : ProviderKey). ProviderBound c key.scope (provider_at c key)) keys
  unfolding require_providers
  providers_iff [] = (λ _. tt, λ _. refl)
  providers_iff (key ∷ keys) =
      iff_trans (then_iff (require_provider c key (provider_at c key)) (require_providers c keys))
        (both_iff (provider_iff key (provider_at c key)) (providers_iff keys))

  invokers_iff :
      (invokers : List (ScopeId × List Dep))
      → (require_invokers c invokers ≡ ok tt)
        ↔ All (λ (invoker : ScopeId × List Dep). All (IsBoundFrom c invoker.0) invoker.1) invokers
  unfolding require_invokers
  invokers_iff [] = (λ _. tt, λ _. refl)
  invokers_iff ((scope, deps) ∷ rest) =
      iff_trans
        (then_iff (require_deps c (invoker_missing c scope) scope deps) (require_invokers c rest))
        (both_iff (deps_iff (invoker_missing c scope) scope deps) (invokers_iff rest))

nonempty_iff :
    (keys : List ProviderKey) (name : String) (k : Result (Unit {0}))
    → (elim keys [ [] ↦ err (empty_group name) | _ ∷ _ ↦ k ] ≡ ok tt) ↔ ((keys ≢ []) × (k ≡ ok tt))
nonempty_iff [] name k = (λ h. absurd (cc), λ (h, _). absurd (h refl))
nonempty_iff (key ∷ keys) name k = (λ h. (λ e. absurd (cc), h), λ (_, h). h)

required_iff :
    (c : Container) (groups : List (TypeId × String))
    → (check_required c groups ≡ ok tt)
      ↔ All (λ (group : TypeId × String). members_of c group.0 ≢ []) groups
unfolding check_required
required_iff c [] = (λ _. tt, λ _. refl)
required_iff c ((element, name) ∷ rest) =
    iff_trans (nonempty_iff (members_of c element) name (check_required c rest))
      (both_iff (λ h. h, λ h. h) (required_iff c rest))

-- In a container made by calls of its interface, the checks of `validate` pass exactly if each
-- dependency of each registered provider is bound from the provider's scope, each dependency of
-- each invoker from the invoker's scope, and no required group is without a member.
pub check_all-IsValid :
    (c : Container) (invokers : List (ScopeId × List Dep))
    → Reachable c
    → (check_all c invokers ≡ ok tt) ↔ IsValid c invokers
check_all-IsValid c invokers reach =
    let uncached = check_all-uncached c invokers in
    let parts =
      iff_trans
        (then_iff (require_providers c c.provider_order)
          (require_invokers c invokers >> check_required c c.groups.required))
        (both_iff (providers_iff c reach c.provider_order) (
          iff_trans (then_iff (require_invokers c invokers) (check_required c c.groups.required))
            (both_iff (invokers_iff c reach invokers) (required_iff c c.groups.required)))) in
    (
      λ e.
          let (p, (i, r)) = parts.0 (sym uncached ∙ e) in
          record { providers = p; invoked = i; required = r },
      λ v. uncached ∙ parts.1 (v.providers, (v.invoked, v.required)),
    )
