-- ===== src/Container/Validate/Cached.antt =====
-- The cache changes nothing: the checks against the same checks without it.
use modrun.Base.{
  String, ◌≡◌, refl, Bool, true, false, Option, none, some, List, [], ◌∷◌, nat_eq, pair_eq, arith,
  Option-cases, inl, inr,
}
use modrun.Base.Assoc.{get, insert, get-insert}
use modrun.Error.{Error, Result, ok, err, panicked, ◌>>=◌, ◌>>◌}
use modrun.Error.Agree.{Agree, Agree-bind, Agree-eq}
use modrun.Scope.{ScopeId}
use modrun.Container.Types.{TypeId, ProviderKey, Dep, DynProvider, dep_types}
use modrun.Container.Keys.{type_eq, key_eq, type_beq_iff}
use modrun.Container.State.{Container, provider_at}
use modrun.Container.Resolve.{can_resolve}
use modrun.Container.Validate.{
  Cache, can_resolve_cached, check_deps, provider_missing, check_provider, check_providers,
  invoker_missing, check_invokers, check_required, check_all,
}

-- The check of one list of dependencies, without a cache.
unfoldable pub require_deps : Container → (String → Error) → ScopeId → List Dep → Result (Unit {0})
require_deps c missing scope [] = ok tt
require_deps c missing scope ((id, name) ∷ deps) = can_resolve c id scope >>= λ hit. elim hit [
  | true ↦ require_deps c missing scope deps
  | false ↦ err (missing name)
]

abbrev pub require_provider : Container → ProviderKey → Option DynProvider → Result (Unit {0})
require_provider c key none = ok tt
require_provider c key (some p) = require_deps c (provider_missing c key p) key.scope (dep_types p)

unfoldable pub require_providers : Container → List ProviderKey → Result (Unit {0})
require_providers c [] = ok tt
require_providers c (key ∷ keys) =
    require_provider c key (provider_at c key) >> require_providers c keys

unfoldable pub require_invokers : Container → List (ScopeId × List Dep) → Result (Unit {0})
require_invokers c [] = ok tt
require_invokers c ((scope, deps) ∷ rest) =
    require_deps c (invoker_missing c scope) scope deps >> require_invokers c rest

-- Every answer in the cache is the one that `can_resolve` gives.
abbrev Sound : Container → Cache → Type 0
Sound c cache =
    (id : TypeId) (from : ScopeId) (hit : Bool)
    → get cache (id, from) ≡ some hit
    → can_resolve c id from ≡ ok hit

abbrev SoundWith : Container → Cache × Bool → Bool → Type 0
SoundWith c found hit = Sound c found.0 × (found.1 ≡ hit)

insert-Sound :
    (c : Container) (id : TypeId) (from : ScopeId) (cache : Cache) (hit : Bool)
    → Sound c cache
    → can_resolve c id from ≡ ok hit
    → Sound c (insert cache (id, from) hit)
insert-Sound c id from cache hit s e t f b =
    rw (get-insert cache (id, from) (t, f) hit)
      (λ q. ground (arith, s t f b, type_beq_iff id t, nat_eq.beq_iff from f, e))

fresh-Sound :
    (c : Container) (id : TypeId) (from : ScopeId) (cache : Cache) (r : Result Bool)
    → Sound c cache
    → can_resolve c id from ≡ r
    → Agree (SoundWith c) (r >>= λ hit. ok (insert cache (id, from) hit, hit)) r
fresh-Sound c id from cache (ok hit) s e = (insert-Sound c id from cache hit s e, refl)
fresh-Sound c id from cache (err x) s e = refl
fresh-Sound c id from cache (panicked m) s e = refl

can_resolve_cached-Sound :
    (c : Container) (id : TypeId) (from : ScopeId) (cache : Cache)
    → Sound c cache
    → Agree (SoundWith c) (can_resolve_cached c id from cache) (can_resolve c id from)
unfolding can_resolve_cached
can_resolve_cached-Sound c id from cache s = elim (Option-cases (get cache (id, from))) [
  | inl none_there ↦ rw none_there (fresh-Sound c id from cache (can_resolve c id from) s refl)
  | inr (hit, there) ↦ rw (there, s id from hit there) (s, refl)
]

check_deps-Sound :
    (c : Container) (missing : String → Error) (scope : ScopeId) (deps : List Dep) (cache : Cache)
    → Sound c cache
    → Agree
        (λ cache' _. Sound c cache')
        (check_deps c missing scope deps cache)
        (require_deps c missing scope deps)
unfolding check_deps require_deps
check_deps-Sound c missing scope [] cache s = s
check_deps-Sound c missing scope ((id, name) ∷ deps) cache s =
    Agree-bind (SoundWith c) (λ cache' _. Sound c cache') _ (can_resolve c id scope) _ _
      (can_resolve_cached-Sound c id scope cache s)
      (λ found hit sound.
        rw sound.1
          (elim hit
            as (λ b.
              Agree (λ cache' _. Sound c cache')
                (elim b [
                  | true ↦ check_deps c missing scope deps found.0
                  | false ↦ err (missing name)
                ])
                (elim b [
                  | true ↦ require_deps c missing scope deps
                  | false ↦ err (missing name)
                ])) [
                  | true ↦ check_deps-Sound c missing scope deps found.0 sound.0
                  | false ↦ refl
                ]))

abbrev StaysSound : Container → Cache → Unit {0} → Type 0
StaysSound c cache _ = Sound c cache

check_provider-Sound :
    (c : Container) (key : ProviderKey) (o : Option DynProvider) (cache : Cache)
    → Sound c cache
    → Agree (StaysSound c) (check_provider c key o cache) (require_provider c key o)
check_provider-Sound c key none cache s = s
check_provider-Sound c key (some p) cache s =
    check_deps-Sound c (provider_missing c key p) key.scope (dep_types p) cache s

check_providers-Sound :
    (c : Container) (keys : List ProviderKey) (cache : Cache)
    → Sound c cache
    → Agree (StaysSound c) (check_providers c keys cache) (require_providers c keys)
unfolding check_providers require_providers
check_providers-Sound c [] cache s = s
check_providers-Sound c (key ∷ keys) cache s =
    Agree-bind (StaysSound c) (StaysSound c) (check_provider c key (provider_at c key) cache)
      (require_provider c key (provider_at c key)) _ _
      (check_provider-Sound c key (provider_at c key) cache s)
      (λ cache' _ s'. check_providers-Sound c keys cache' s')

check_invokers-Sound :
    (c : Container) (invokers : List (ScopeId × List Dep)) (cache : Cache)
    → Sound c cache
    → Agree (StaysSound c) (check_invokers c invokers cache) (require_invokers c invokers)
unfolding check_invokers require_invokers
check_invokers-Sound c [] cache s = s
check_invokers-Sound c ((scope, deps) ∷ rest) cache s =
    Agree-bind (StaysSound c) (StaysSound c)
      (check_deps c (invoker_missing c scope) scope deps cache)
      (require_deps c (invoker_missing c scope) scope deps) _ _
      (check_deps-Sound c (invoker_missing c scope) scope deps cache s)
      (λ cache' _ s'. check_invokers-Sound c rest cache' s')

empty-Sound : (c : Container) → Sound c []
unfolding get
empty-Sound c id from hit e = absurd (cc)

same-Agree : (r : Result (Unit {0})) → Agree (λ a b. a ≡ b) r r
same-Agree (ok a) = refl
same-Agree (err e) = refl
same-Agree (panicked m) = refl

-- The checks of `validate` give, also where they fail, what they would give without the cache: the
-- dependencies of the providers in registration order, then those of the invokers, then the
-- required groups, up to the first that is missing.
pub check_all-uncached :
    (c : Container) (invokers : List (ScopeId × List Dep))
    → check_all c invokers ≡ (
        require_providers c c.provider_order
        >> (require_invokers c invokers >> check_required c c.groups.required))
unfolding check_all
check_all-uncached c invokers =
    Agree-eq (λ a b. a ≡ b) _ _ (λ a b e. e)
      (Agree-bind (StaysSound c) (λ a b. a ≡ b) (check_providers c c.provider_order [])
        (require_providers c c.provider_order) _ _
        (check_providers-Sound c c.provider_order [] (empty-Sound c))
        (λ cache _ s.
          Agree-bind (StaysSound c) (λ a b. a ≡ b) (check_invokers c invokers cache)
            (require_invokers c invokers) _ _ (check_invokers-Sound c invokers cache s)
            (λ _ _ _. same-Agree (check_required c c.groups.required))))
