-- ===== src/Container/Aggregate/Rest.antt =====
-- The aggregation of a group changes nothing but the groups of the container.
use modrun.Base.{◌≡◌, refl, String, List, [], ◌∷◌}
use modrun.Error.{Result, ok, err, panicked}
use modrun.Container.Types.{TypeId, Payload, ProviderKey}
use modrun.Container.State.{Container, Groups}
use modrun.Container.Register.{members_of}
use modrun.Container.Aggregate.{
  without_member, take_group_member, and_then, collect_members, collect_group_member_values,
  aggregate_group,
}

-- The containers differ in their groups at most.
abbrev pub OnlyGroups : Container → Container → Type 0
OnlyGroups c d = (g : Groups) × (d ≡ record c { groups = g })

and_then-OnlyGroups :
    (c d : Container) (r : Result Payload) (rest : Container × Result (List Payload))
    → OnlyGroups c d
    → OnlyGroups c (rest.0)
    → OnlyGroups c ((and_then d r rest).0)
and_then-OnlyGroups c d (ok v) rest h k = k
and_then-OnlyGroups c d (err e) rest h k = h
and_then-OnlyGroups c d (panicked m) rest h k = h

collect_members-OnlyGroups :
    (element : TypeId) (name : String) (keys : List ProviderKey) (c : Container)
    → OnlyGroups c ((collect_members element name keys c).0)
unfolding collect_members take_group_member
collect_members-OnlyGroups element name [] c = (c.groups, refl)
collect_members-OnlyGroups element name (key ∷ keys) c =
    let c' = without_member c key in
    and_then-OnlyGroups c c' _ _ (c'.groups, refl) (collect_members-OnlyGroups element name keys c')

pub aggregate_group-OnlyGroups :
    (c : Container) (element : TypeId) (name : String)
    → OnlyGroups c ((aggregate_group c element name).0)
unfolding aggregate_group collect_group_member_values
aggregate_group-OnlyGroups c element name =
    collect_members-OnlyGroups element name (members_of c element) c
