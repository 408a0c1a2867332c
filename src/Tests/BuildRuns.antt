-- ===== src/Tests/BuildRuns.antt =====
-- Runs of the construction on concrete inputs.
use modrun.Base.{if◌then◌else◌, ◌≡◌, refl, ℕ, ◌↔◌, false, List, [], ◌∷◌, nat_eq, pair_eq, arith}
use modrun.Base.Assoc.{get, contains, contains_key, insert, remove, add, discard}
use modrun.Base.Counts.{count}
use modrun.Error.{ok}
use modrun.Scope.{ScopeId, ancestors_from}
use modrun.Scope
use modrun.Container.Types.{
  TypeId, named, arc, opaque, singleton, DynProvider, plain, empty_deps, Dep, ProviderKey,
  dep_types,
}
use modrun.Container.Keys.{type_eq, key_eq, key_beq, key_beq_iff}
use modrun.Container.Validate.{check_all, check_deps, can_resolve_cached}
use modrun.Container.Resolve.{lookup_value_ref_from, can_resolve}
use modrun.Container.Validate.Checks.{IsValid, check_all-IsValid}
use modrun.Container.Build.{build_pending}
use modrun.Container.Construct.{construct, get_all}
use modrun.Future.{join, try_join_all}
use modrun.Container.Cycles.{validate}
use modrun.Container.Cycles.Accepted.{validate-accepts}
use modrun.Container.State.{
  leave_scope, take_provider, put_provider, Container, new, enter_scope, provider_at, has_mark,
}
use modrun.Container.Storage.{get_as, store_constructed, ensure_absent, conflict}
use modrun.Container.Resolve.{is_group_type, value_satisfies}
use modrun.Container.Register.{insert_provider, with_provider}
use modrun.Container.Inv.Reachable.{Reachable, start, step, provide}
use modrun.Container.Inv.Ordered.{Ordered}
use modrun.Container.Inv.Ordered.Steps.{reachable-Ordered}
use modrun.Container.Layers.{freeze_layers, resolve_provider_key}
use modrun.Container.Layers.Edges.{Edge, dependency_edges, dep_edges}
use modrun.Container.Layers.Ends.{IsRanked, Outcome, InLayers}
use modrun.Container.Layers.Frozen.{freeze_layers-Outcome, freeze_layers-IsRanked}

abbrev config : TypeId
config = named 1 "app::Config"

abbrev service : TypeId
service = named 2 "app::Service"

abbrev config_provider : DynProvider
config_provider = record {
  result_type = config;
  result_name = "app::Config";
  constructor_name = "app::config";
  alias_type = arc config;
  deps = empty_deps;
  construct_fn = plain (λ args. opaque 5);
}

abbrev service_provider : DynProvider
service_provider = record {
  result_type = service;
  result_name = "app::Service";
  constructor_name = "app::service";
  alias_type = arc service;
  deps = record { items = (config, "app::Config") ∷ []; len = 1 };
  construct_fn = plain (λ args. opaque 6);
}

-- The service is registered before the configuration that it depends on.
abbrev first : Container
first = with_provider new service_provider 0 false

abbrev both : Container
both = with_provider first config_provider 0 false

abbrev config_key : ProviderKey
config_key = singleton config 0 false

abbrev service_key : ProviderKey
service_key = singleton service 0 false

first_registered : insert_provider new service_provider 0 false ≡ ok first
unfolding insert_provider ensure_absent conflict new get contains_key
first_registered = refl

both_registered : insert_provider first config_provider 0 false ≡ ok both
unfolding insert_provider ensure_absent conflict new get contains_key with_provider
both_registered = refl

both-Reachable : Reachable both
both-Reachable =
    step first both
      (step new first start (provide new first service_provider 0 false first_registered))
      (provide first both config_provider 0 false both_registered)

reachable-Ordered_example : Ordered both
reachable-Ordered_example = reachable-Ordered both both-Reachable

abbrev edges : List Edge
edges = (config_key, service_key) ∷ []

both-edges : dependency_edges both ≡ ok edges
unfolding dependency_edges dep_edges dep_types value_satisfies resolve_provider_key has_mark
    ancestors_from with_provider new Scope.new provider_at get contains_key is_group_type empty_deps
both-edges = refl

freeze_layers-Outcome_example : Outcome both edges (freeze_layers both)
freeze_layers-Outcome_example = freeze_layers-Outcome both edges both-Reachable both-edges

freeze_layers-IsRanked_example :
    ((d : Container) × (freeze_layers both ≡ ok d))
    ↔ ((rank : ProviderKey → ℕ) × IsRanked rank edges)
freeze_layers-IsRanked_example = freeze_layers-IsRanked both edges both-Reachable both-edges

abbrev rank : ProviderKey → ℕ
rank key = if key_beq config_key key then 0 else 1

edges-IsRanked : IsRanked rank edges
unfolding count
edges-IsRanked j k there =
    ground
      (arith, there, key_beq_iff config_key j, key_beq_iff config_key k, key_beq_iff service_key k)

both_checked : check_all both [] ≡ ok tt
unfolding check_all check_deps can_resolve_cached can_resolve dep_types has_mark ancestors_from
    with_provider new Scope.new provider_at get contains_key is_group_type empty_deps insert
both_checked = refl

both-IsValid : IsValid both []
both-IsValid = (check_all-IsValid both [] both-Reachable).0 both_checked

validate-accepts_example :
    (layers : List (List ProviderKey)) × (validate both [] ≡ ok (record both { layers = layers }))
    × InLayers both.provider_order edges layers
validate-accepts_example =
    validate-accepts both [] edges rank both-Reachable both-edges both-IsValid edges-IsRanked

abbrev frozen : Container
frozen = record both { layers = (config_key ∷ []) ∷ (service_key ∷ []) ∷ [] }

-- The service is needed.
abbrev roots : List Dep
roots = (service, "app::Service") ∷ []

abbrev two : List ProviderKey
two = service_key ∷ config_key ∷ []

-- Both values are built, the configuration first.
built_both : (build_pending frozen two).1 ≡ []
unfolding build_pending construct get_all get_as enter_scope leave_scope take_provider put_provider
    has_mark ancestors_from with_provider new Scope.new get insert remove contains add discard
    contains_key dep_types empty_deps store_constructed lookup_value_ref_from join try_join_all
built_both = refl

idle : (k : ProviderKey) → contains frozen.constructing k ≡ false
unfolding contains with_provider new
idle k = refl
