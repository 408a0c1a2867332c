-- ===== src/Container/Construct/Rest.antt =====
-- The call of a constructor changes nothing but the groups of the container.
use modrun.Base.{refl, none, some}
use modrun.Container.Types.{
  group, type_name, ConstructFn, plain, fallible, plain_async, fallible_async, aggregate, take_once,
  DynProvider,
}
use modrun.Container.State.{Container}
use modrun.Container.Aggregate.Rest.{OnlyGroups, aggregate_group-OnlyGroups}
use modrun.Container.Construct.{construct_with, construct}

construct_with-OnlyGroups :
    (c : Container) (p : DynProvider) (f : ConstructFn)
    → OnlyGroups c ((construct_with c p f).container)
unfolding construct_with
construct_with-OnlyGroups c p (plain call) = (c.groups, refl)
construct_with-OnlyGroups c p (fallible call) = (c.groups, refl)
construct_with-OnlyGroups c p (plain_async call) = (c.groups, refl)
construct_with-OnlyGroups c p (fallible_async call) = (c.groups, refl)
construct_with-OnlyGroups c p (aggregate element) =
    aggregate_group-OnlyGroups c element (type_name (group element))
construct_with-OnlyGroups c p (take_once none) = (c.groups, refl)
construct_with-OnlyGroups c p (take_once (some value)) = (c.groups, refl)

pub construct-OnlyGroups :
    (c : Container) (p : DynProvider) → OnlyGroups c ((construct c p).container)
unfolding construct
construct-OnlyGroups c p = construct_with-OnlyGroups c p p.construct_fn
