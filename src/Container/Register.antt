-- ===== src/Container/Register.antt =====
-- The registration of providers and of groups (`insert_provider` in src/container/mod.rs, and
-- src/container/group.rs but for the collection of its members).
use modrun.Base.{
  ℕ, ◌+◌, String, Bool, true, false, Option, none, some, List, [], ◌∷◌, ◌++◌, if◌then◌else◌, ltb,
  nat_eq, pair_eq,
}
use modrun.Base.Assoc.{get, insert, contains_key}
use modrun.Error.{Result, ok, expect, ◌>>=◌, ◌>>◌}
use modrun.Scope.{ScopeId, root}
use modrun.Container.Types.{
  TypeId, arc, group, type_name, ProviderKey, singleton, DynProvider, new_group_virtual,
}
use modrun.Container.Keys.{type_eq, key_eq}
use modrun.Container.State.{Container, add_provider, mark_private_scope}
use modrun.Container.Storage.{ensure_absent}

bind_key : Container → DynProvider → ScopeId → Bool → ProviderKey → Container
unfolding insert
bind_key c p scope true key = record (mark_private_scope c scope) {
  private_alias = insert c.private_alias (p.alias_type, scope) key;
}
bind_key c p scope false key = record c {
  public_index = insert (insert c.public_index p.result_type key) p.alias_type key;
}

-- The container once nothing stands against the provider.
unfoldable pub with_provider : Container → DynProvider → ScopeId → Bool → Container
unfolding bind_key add_provider
with_provider c p scope is_private =
    let key = singleton p.result_type scope is_private in
    add_provider (bind_key c p scope is_private key) key p

unfoldable pub insert_provider : Container → DynProvider → ScopeId → Bool → Result Container
unfolding ensure_absent with_provider
insert_provider c p scope is_private = do
  ensure_absent c p.result_type p.result_name scope is_private
  ensure_absent c p.alias_type p.result_name scope is_private
  ok (with_provider c p scope is_private)

-- The bindings of a group that was not registered before.
unfoldable pub register_group : Container → TypeId → Container
unfolding insert add_provider new_group_virtual
register_group c element =
    let group_type = group element in
    let arc_type = arc (group element) in
    let virtual_key = singleton group_type root false in
    let c' = add_provider c virtual_key (new_group_virtual element) in
    record c' {
      public_index = insert (insert c'.public_index group_type virtual_key) arc_type virtual_key;
      groups = record c'.groups {
        registrations =
            insert c'.groups.registrations element
              (record { element = element; virtual_key = virtual_key });
        by_type = insert (insert c'.groups.by_type group_type element) arc_type element;
        virtual_to_element = insert c'.groups.virtual_to_element virtual_key element;
      };
    }

-- `ensure_group_virtual::<T>`, which is `ensure_empty_group::<T>` too.
unfoldable pub ensure_group_virtual : Container → TypeId → Result Container
unfolding ensure_absent register_group
ensure_group_virtual c element = if contains_key c.groups.registrations element then ok c else do
  ensure_absent c (group element) (type_name (group element)) root false
  ensure_absent c (arc (group element)) (type_name (arc (group element))) root false
  ok (register_group c element)

-- `u32::checked_add(1)`
unfoldable pub next_id : ℕ → Option ℕ
next_id n = if ltb (n + 1) 4294967296 then some (n + 1) else none

unfoldable pub members_of : Container → TypeId → List ProviderKey
members_of c element = elim (get c.groups.members element) [ none ↦ [] | some keys ↦ keys ]

unfoldable pub member_key : DynProvider → ScopeId → ℕ → ProviderKey
member_key p scope id = record {
  type_id = p.result_type;
  scope = scope;
  is_private = false;
  ordinal = id;
}

-- The member is registered under the next ordinal, and joins the members of its element.
unfoldable pub add_member : Container → TypeId → DynProvider → ScopeId → ℕ → Container
unfolding insert add_provider members_of member_key
add_member c element p scope id =
    let key = member_key p scope id in
    let c' = add_provider c key p in
    record c' {
      groups = record c'.groups {
        next_member_id = id;
        members = insert c'.groups.members element (members_of c' element ++ key ∷ []);
      };
    }

-- `insert_group_member_typed::<T>`
unfoldable pub insert_group_member : Container → TypeId → DynProvider → ScopeId → Result Container
unfolding ensure_group_virtual next_id add_member
insert_group_member c element p scope = do
  c' ← ensure_group_virtual c element
  id ← expect (next_id c'.groups.next_member_id) "group member id overflow"
  ok (add_member c' element p scope id)

unfoldable pub require_group_element : Container → TypeId → String → Container
unfolding insert
require_group_element c element name =
    if contains_key c.groups.required element
    then c
    else record c { groups = record c.groups { required = insert c.groups.required element name } }
