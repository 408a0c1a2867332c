-- ===== src/Container/Validate.antt =====
-- The checks of `validate` (src/container/graph.rs), but for the layers: every dependency of a
-- provider and of an invoker can be resolved, and no required group is empty. The answers are
-- kept in a cache.
pub mod Cached
pub mod Checks
use modrun.Base.{
  String, Bool, true, false, Option, none, some, List, [], ◌∷◌, if◌then◌else◌, nat_eq, pair_eq,
}
use modrun.Base.Assoc.{Map, get, insert}
use modrun.Error.{
  Error, Result, ok, err, panicked, provider_missing_dep, invoker_missing_dep, empty_group, ◌>>=◌,
  ◌>>◌,
}
use modrun.Scope.{ScopeId, name_of}
use modrun.Container.Types.{TypeId, ProviderKey, Dep, DynProvider, dep_types}
use modrun.Container.Keys.{type_eq, key_eq}
use modrun.Container.State.{Container, provider_at}
use modrun.Container.Resolve.{can_resolve}
use modrun.Container.Register.{members_of}

abbrev pub Cache : Type 0
Cache = Map (TypeId × ScopeId) Bool

abbrev cache_hit : Container → TypeId → ScopeId → Cache → Option Bool → Result (Cache × Bool)
cache_hit c id from cache (some hit) = ok (cache, hit)
cache_hit c id from cache none =
    can_resolve c id from >>= λ hit. ok (insert cache (id, from) hit, hit)

unfoldable pub can_resolve_cached : Container → TypeId → ScopeId → Cache → Result (Cache × Bool)
unfolding get
can_resolve_cached c id from cache = cache_hit c id from cache (get cache (id, from))

-- The inner loops of `validate`; `missing` is the error for a dependency by its name.
unfoldable pub check_deps : Container → (String → Error) → ScopeId → List Dep → Cache → Result Cache
unfolding can_resolve_cached
check_deps c missing scope [] cache = ok cache
check_deps c missing scope ((id, name) ∷ deps) cache =
    can_resolve_cached c id scope cache >>= λ found. elim found.1 [
      | true ↦ check_deps c missing scope deps found.0
      | false ↦ err (missing name)
    ]

abbrev pub provider_missing : Container → ProviderKey → DynProvider → String → Error
provider_missing c key p name = provider_missing_dep p.result_name (name_of c.scopes key.scope) name

abbrev pub check_provider : Container → ProviderKey → Option DynProvider → Cache → Result Cache
check_provider c key none cache = ok cache
check_provider c key (some p) cache =
    check_deps c (provider_missing c key p) key.scope (dep_types p) cache

pub check_providers : Container → List ProviderKey → Cache → Result Cache
check_providers c [] cache = ok cache
check_providers c (key ∷ keys) cache =
    check_provider c key (provider_at c key) cache >>= λ cache'. check_providers c keys cache'

abbrev pub invoker_missing : Container → ScopeId → String → Error
invoker_missing c scope name = invoker_missing_dep (name_of c.scopes scope) name

pub check_invokers : Container → List (ScopeId × List Dep) → Cache → Result Cache
check_invokers c [] cache = ok cache
check_invokers c ((scope, deps) ∷ rest) cache =
    check_deps c (invoker_missing c scope) scope deps cache >>= λ cache'.
    check_invokers c rest cache'

-- `validate_required_groups`, over the required elements in the order of the map.
pub check_required : Container → List (TypeId × String) → Result (Unit {0})
check_required c [] = ok tt
check_required c ((element, name) ∷ rest) = elim (members_of c element) [
  | [] ↦ err (empty_group name)
  | _ ∷ _ ↦ check_required c rest
]

-- `validate` up to the layers.
unfoldable pub check_all : Container → List (ScopeId × List Dep) → Result (Unit {0})
unfolding check_providers check_invokers check_required
check_all c invokers = do
  cache ← check_providers c c.provider_order []
  cache' ← check_invokers c invokers cache
  check_required c c.groups.required
