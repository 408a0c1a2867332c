-- ===== src/Container/Aggregate.antt =====
-- The values of the members of a group, and the group that is made of them
-- (src/container/group.rs, and `take_packed_member` in src/container/storage.rs).
pub mod Members
pub mod Rest
use modrun.Base.{
  String, Bool, true, false, Option, none, some, List, [], ◌∷◌, ◌++◌, if◌then◌else◌, ◌==◌, nat_eq,
}
use modrun.Base.Assoc.{get, insert, remove}
use modrun.Error.{Error, Result, ok, err, panicked, not_constructed, downcast, ok_or, ◌>>=◌}
use modrun.Container.Types.{
  TypeId, group, type_name, Payload, items, to_payloads, DynAny, Constructed, ProviderKey,
}
use modrun.Container.Keys.{type_eq, key_eq}
use modrun.Container.State.{Container}
use modrun.Container.Storage.{pack}
use modrun.Container.Register.{members_of}

-- `take_packed_member::<T>`: moved out of the last handle, or cloned.
pub take_packed_member : TypeId → DynAny → Result Payload
take_packed_member t value =
    if value.pointee == t then ok value.value else err (downcast (type_name t))

unfoldable pub store_group_member : Container → ProviderKey → DynAny → Container
store_group_member c key value = record c {
  groups = record c.groups { member_values = insert c.groups.member_values key value };
}

abbrev without_member : Container → ProviderKey → Container
without_member c key = record c {
  groups = record c.groups { member_values = remove c.groups.member_values key };
}

pub take_group_member : Container → ProviderKey → Container × Option DynAny
take_group_member c key = (without_member c key, get c.groups.member_values key)

-- The value of one member, if there is one.
pub member_item : TypeId → String → Option DynAny → Result Payload
unfolding take_packed_member
member_item element group_name found = do
  value ← ok_or found (not_constructed group_name)
  take_packed_member element value

-- What the rest of the members give, behind this one.
abbrev and_then :
    Container
    → Result Payload
    → Container × Result (List Payload)
    → Container × Result (List Payload)
and_then c (ok v) (c', rest) = (c', rest >>= λ vs. ok (v ∷ vs))
and_then c (err e) rest = (c, err e)
and_then c (panicked m) rest = (c, panicked m)

-- The loop of `collect_group_member_values`; a member that is missing ends it.
pub collect_members :
    TypeId → String → List ProviderKey → Container → Container × Result (List Payload)
unfolding member_item take_group_member
collect_members element group_name [] c = (c, ok [])
collect_members element group_name (key ∷ keys) c =
    let (c', found) = take_group_member c key in
    and_then c' (member_item element group_name found) (collect_members element group_name keys c')

pub collect_group_member_values : Container → TypeId → String → Container × Result (List Payload)
unfolding collect_members
collect_group_member_values c element group_name =
    collect_members element group_name (members_of c element) c

unfoldable pub aggregate_group : Container → TypeId → String → Container × Result Constructed
unfolding collect_group_member_values
aggregate_group c element group_name =
    let (c', found) = collect_group_member_values c element group_name in
    (c', found >>= λ vs. ok (pack (group element) (items (to_payloads vs))))
