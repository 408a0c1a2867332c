-- ===== src/Tests/ContainerRuns.antt =====
-- Runs of the container on concrete inputs.
use modrun.Base.{
  ◌≡◌, ◌≢◌, refl, Bool, true, false, none, List, [], ◌∷◌, nat_eq, pair_eq, ℕ, ap, arith, ◌↔◌, ◌≤◌,
  length, some,
}
use modrun.Base.Assoc.{get, contains_key}
use modrun.Base.Lists.{All}
use modrun.Error.{Result, ok, err, ◌>>◌}
use modrun.Scope.{ScopeId, ancestors_from}
use modrun.Scope
use modrun.Container.Types.Deps.{from_array-as_slice}
use modrun.Container.Types.{
  DepList, from_array, as_slice, max_deps, TypeId, named, arc, opaque, singleton, DynProvider,
  plain, empty_deps, type_name, Dep, group, items, to_payloads, ProviderKey,
}
use modrun.Container.Keys.{type_eq, key_eq}
use modrun.Container.State.{Container, new, no_groups}
use modrun.Container.Storage.{ensure_absent, conflict, conflict_error, insert_value, pack}
use modrun.Container.Resolve.{value_binding_in, is_some}
use modrun.Container.Resolve.Reference.{
  own_binding, nearest, provided, is_supplied, value_binding-is_supplied,
}
use modrun.Container.Register.{
  insert_provider, with_provider, members_of, insert_group_member, ensure_group_virtual, next_id,
}
use modrun.Container.Validate.{check_all, check_required}
use modrun.Container.Validate.Cached.{require_providers, require_invokers, check_all-uncached}
use modrun.Container.Validate.Checks.{IsValid, check_all-IsValid}
use modrun.Container.Aggregate.{aggregate_group}
use modrun.Container.Aggregate.Members.{Distinct, Stored, Drained, aggregate_group-Drained}
use modrun.Container.Inv.Numbered.{reachable-Distinct}
use modrun.Container.Inv.Reachable.{contribute, Reachable, start, step, provide, reachable-Inv}
use modrun.Container.Inv.{Inv}
use modrun.Container.Inv.Values.{Marked-IsMarked}
use modrun.Container.Inv.Visible.{private_provider-nearest}
use modrun.Container.Inv.Claimed.Once.{done, provided_once}
use modrun.Container.Inv.Supplied.{Gets, supplied_private-get, supplied_public-get}

abbrev config : TypeId
config = named 1 "app::Config"

abbrev provider : DynProvider
provider = record {
  result_type = config;
  result_name = "app::Config";
  constructor_name = "app::config";
  alias_type = arc config;
  deps = empty_deps;
  construct_fn = plain (λ args. opaque 5);
}

-- The container in which the root scope has the provider to itself.
abbrev one : Container
one = with_provider new provider 0 true

registered : insert_provider new provider 0 true ≡ ok one
unfolding insert_provider ensure_absent conflict new get contains_key
registered = refl

one-Reachable : Reachable one
one-Reachable = step new one start (provide new one provider 0 true registered)

reachable-Inv_example : Inv one
reachable-Inv_example = reachable-Inv one one-Reachable

provided_once_example :
    (insert_provider one provider 0 true ≡ err (conflict_error one "app::Config" 0 true))
    × (insert_value one config (opaque 6) 0 true
        ≡ err (conflict_error one (type_name config) 0 true))
provided_once_example =
    provided_once new one one provider provider (opaque 6) 0 true registered (done one) refl

private_provider-nearest_example :
    ((chain : List ScopeId)
      → (nearest one config (0 ∷ chain) ≡ provided (singleton config 0 true) provider)
        × (nearest one (arc config) (0 ∷ chain) ≡ provided (singleton config 0 true) provider))
    × ((id : TypeId) (chain : List ScopeId)
        → All (λ s. s ≢ 0) chain
        → nearest one id chain ≡ nearest new id chain)
private_provider-nearest_example = private_provider-nearest new one provider 0 start registered

value_binding-is_supplied_example :
    is_some (value_binding_in one config (0 ∷ [])) ≡ is_supplied (nearest one config (0 ∷ []))
value_binding-is_supplied_example =
    value_binding-is_supplied one config (0 ∷ [])
      (Marked-IsMarked one (reachable-Inv one one-Reachable).marked)

abbrev container_or_new : Result Container → Container
container_or_new (ok c) = c
container_or_new _ = new

-- The container with the value in the root scope.
abbrev with_value : Bool → Container
with_value is_private = container_or_new (insert_value new config (opaque 5) 0 is_private)

supplied :
    (is_private : Bool)
    → insert_value new config (opaque 5) 0 is_private ≡ ok (with_value is_private)
unfolding insert_value ensure_absent conflict new get contains_key
supplied true = refl
supplied false = refl

root_chain : ancestors_from new.scopes 0 ≡ ok (0 ∷ [])
unfolding new Scope.new ancestors_from
root_chain = refl

supplied_private-get_example : Gets (with_value true) 0 config (opaque 5)
supplied_private-get_example =
    supplied_private-get new (with_value true) config (opaque 5) 0 [] root_chain (supplied true)

free : (id : TypeId) → All (λ s. own_binding new id s ≡ none) (0 ∷ [])
unfolding new own_binding get
free id = (refl, tt)

supplied_public-get_example : Gets (with_value false) 0 config (opaque 5)
supplied_public-get_example =
    supplied_public-get new (with_value false) config (opaque 5) 0 0 (0 ∷ []) root_chain
      (free config) (free (arc config)) (supplied false)

abbrev member : ℕ → ProviderKey
member n = record { type_id = config; scope = 0; is_private = false; ordinal = n }

-- Two members of a group, with their values.
abbrev with_members : Container
with_members = record new {
  groups = record no_groups {
    members = (config, member 1 ∷ member 2 ∷ []) ∷ [];
    member_values =
        (member 2, record { pointee = config; value = opaque 20 })
        ∷ (member 1, record { pointee = config; value = opaque 10 })
        ∷ [];
    next_member_id = 2;
  };
}

two_distinct : member 1 ≢ member 2
two_distinct e = let number : ProviderKey → ℕ = λ k. k.ordinal in omega (arith, ap number e)

members-Distinct : Distinct (members_of with_members config)
unfolding members_of get
members-Distinct = ((two_distinct, tt), (tt, tt))

members-Stored :
    Stored config with_members (members_of with_members config) (opaque 10 ∷ opaque 20 ∷ [])
unfolding members_of get
members-Stored = (refl, (refl, tt))

aggregate_group-Drained_example :
    ((aggregate_group with_members config "Group").1
      ≡ ok (pack (group config) (items (to_payloads (opaque 10 ∷ opaque 20 ∷ [])))))
    × Drained
        (members_of with_members config)
        with_members
        (aggregate_group with_members config "Group").0
aggregate_group-Drained_example =
    aggregate_group-Drained with_members config "Group" (opaque 10 ∷ opaque 20 ∷ [])
      members-Distinct members-Stored

-- An invoker asks for the provider's type from the root scope.
abbrev invokers : List (ScopeId × List Dep)
invokers = (0, (config, "app::Config") ∷ []) ∷ []

check_all-IsValid_example : (check_all one invokers ≡ ok tt) ↔ IsValid one invokers
check_all-IsValid_example = check_all-IsValid one invokers one-Reachable

check_all-uncached_example : check_all one invokers ≡ (
    require_providers one one.provider_order
    >> (require_invokers one invokers >> check_required one one.groups.required))
check_all-uncached_example = check_all-uncached one invokers

-- The provider contributes to the group of its type.
abbrev contributed : Container
contributed = container_or_new (insert_group_member new provider.result_type provider 0)

contributes : insert_group_member new provider.result_type provider 0 ≡ ok contributed
unfolding insert_group_member ensure_group_virtual next_id ensure_absent conflict new get
    contains_key
contributes = refl

contributed-Reachable : Reachable contributed
contributed-Reachable =
    step new contributed start
      (contribute new contributed provider.result_type provider 0 contributes)

reachable-Distinct_example :
    Distinct (members_of contributed config)
    × All
        (λ (k : ProviderKey). k.ordinal ≤ contributed.groups.next_member_id)
        (members_of contributed config)
reachable-Distinct_example = reachable-Distinct contributed config contributed-Reachable

from_array-as_slice_example :
    (d : DepList) × (from_array ((config, "app::Config") ∷ []) ≡ some d)
    × (as_slice d ≡ (config, "app::Config") ∷ [])
    × (length d.items ≡ max_deps)
from_array-as_slice_example = from_array-as_slice ((config, "app::Config") ∷ []) (omega arith)
