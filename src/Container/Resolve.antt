-- ===== src/Container/Resolve.antt =====
-- What a type means in a scope (src/container/graph.rs, lines 11 to 67 and 334 to 427): the nearest
-- private binding up the chain of ancestors, else the public one.
pub mod Reference
use modrun.Base.{
  String, Bool, true, false, ◌||◌, not, ◌&&◌, Option, none, some, List, [], ◌∷◌, if◌then◌else◌,
  ◌==◌, nat_eq, pair_eq,
}
use modrun.Base.Assoc.{get, contains_key}
use modrun.Error.{Error, Result, ok, err, missing_provider, ◌>>=◌}
use modrun.Scope.{ScopeId, root, ancestors_from, name_of}
use modrun.Container.Types.{
  TypeId, StoredValue, ProviderKey, singleton, DynProvider, GroupRegistration, ValueNode,
}
use modrun.Container.Keys.{type_eq, key_eq}
use modrun.Container.State.{Container, scope_has_private}

abbrev pub is_some {ℓ} : {A : Type ℓ} → Option A → Bool
is_some none = false
is_some (some _) = true

-- `providers.get(&key).map(|p| (key, p))`
unfoldable pub keyed : ProviderKey → Option DynProvider → Option (ProviderKey × DynProvider)
keyed key none = none
keyed key (some p) = some (key, p)

unfoldable pub keyed_by : Container → Option ProviderKey → Option (ProviderKey × DynProvider)
unfolding keyed
keyed_by c none = none
keyed_by c (some key) = keyed key (get c.providers key)

-- Whether the scope itself binds the type to a provider of its own.
abbrev pub has_private_provider : Container → TypeId → ScopeId → Bool
has_private_provider c id scope =
    contains_key c.providers (singleton id scope true) || contains_key c.private_alias (id, scope)

-- `lookup_value_ref_from`, along the rest of the chain.
unfoldable pub lookup_value_in : Container → TypeId → List ScopeId → Option StoredValue
lookup_value_in c id [] = get c.values_public id
lookup_value_in c id (scope ∷ chain) =
    let rest = lookup_value_in c id chain in
    if scope_has_private c scope
    then elim (get c.values_private (id, scope)) [
      | some v ↦ some v
      | none ↦ if has_private_provider c id scope then none else rest
    ]
    else rest

unfoldable pub lookup_value_ref_from : Container → TypeId → ScopeId → Result (Option StoredValue)
unfolding lookup_value_in
lookup_value_ref_from c id from = do
  chain ← ancestors_from c.scopes from
  ok (lookup_value_in c id chain)

pub group_element_type : Container → TypeId → Option TypeId
group_element_type c t = get c.groups.by_type t

unfoldable pub is_group_type : Container → TypeId → Bool
is_group_type c id = contains_key c.groups.by_type id

unfoldable pub virtual_key_of : Option GroupRegistration → Option ProviderKey
virtual_key_of none = none
virtual_key_of (some reg) = some reg.virtual_key

unfoldable pub virtual_key_for : Container → Option TypeId → Option ProviderKey
unfolding virtual_key_of
virtual_key_for c none = none
virtual_key_for c (some element) = virtual_key_of (get c.groups.registrations element)

unfoldable pub group_virtual_key : Container → TypeId → Option ProviderKey
unfolding virtual_key_for
group_virtual_key c t = virtual_key_for c (get c.groups.by_type t)

-- `resolve_provider`, along the rest of the chain.
unfoldable pub resolve_in : Container → TypeId → List ScopeId → Option (ProviderKey × DynProvider)
unfolding keyed_by
resolve_in c id [] =
    if is_group_type c id
    then keyed_by c (group_virtual_key c id)
    else keyed_by c (get c.public_index id)
resolve_in c id (scope ∷ chain) =
    let rest = resolve_in c id chain in
    if scope_has_private c scope
    then elim (get c.providers (singleton id scope true)) [
      | some p ↦ some (singleton id scope true, p)
      | none ↦ elim (get c.private_alias (id, scope)) [
        | some canon ↦ keyed_by c (some canon)
        | none ↦ rest
      ]
    ]
    else rest

unfoldable pub resolve_provider :
    Container → TypeId → ScopeId → Result (Option (ProviderKey × DynProvider))
unfolding resolve_in
resolve_provider c id from = do chain ← ancestors_from c.scopes from; ok (resolve_in c id chain)

pub missing_provider_error : Container → String → ScopeId → Error
missing_provider_error c name from = missing_provider name (name_of c.scopes from)

-- The loop of `can_resolve` over the private values.
private_value_in : Container → TypeId → List ScopeId → Bool
private_value_in c id [] = false
private_value_in c id (scope ∷ chain) =
    (scope_has_private c scope && contains_key c.values_private (id, scope))
    || private_value_in c id chain

pub can_resolve_in : Container → TypeId → List ScopeId → Bool
unfolding private_value_in resolve_in
can_resolve_in c id chain =
    private_value_in c id chain
    || (contains_key c.values_public id || is_some (resolve_in c id chain))

unfoldable pub can_resolve : Container → TypeId → ScopeId → Result Bool
unfolding can_resolve_in
can_resolve c id from = do chain ← ancestors_from c.scopes from; ok (can_resolve_in c id chain)

-- The scope of the first public node of the type.
public_node_scope : List ValueNode → TypeId → Option ScopeId
public_node_scope [] id = none
public_node_scope (node ∷ nodes) id =
    let rest = public_node_scope nodes id in
    if (node.type_id == id) && not node.is_private then some node.scope else rest

scope_or_root : Option ScopeId → ScopeId × Bool
scope_or_root none = (root, false)
scope_or_root (some scope) = (scope, false)

-- `resolve_value_binding`, along the rest of the chain: the scope, and whether it is private.
pub value_binding_in : Container → TypeId → List ScopeId → Option (ScopeId × Bool)
unfolding public_node_scope scope_or_root
value_binding_in c id [] =
    if contains_key c.values_public id
    then some (scope_or_root (public_node_scope c.value_nodes id))
    else none
value_binding_in c id (scope ∷ chain) =
    let rest = value_binding_in c id chain in
    if scope_has_private c scope
    then (if contains_key c.values_private (id, scope)
        then some (scope, true)
        else if has_private_provider c id scope
        then none
        else rest)
    else rest

pub resolve_value_binding : Container → TypeId → ScopeId → Result (Option (ScopeId × Bool))
unfolding value_binding_in
resolve_value_binding c id from = do
  chain ← ancestors_from c.scopes from
  ok (value_binding_in c id chain)

unfoldable pub value_satisfies : Container → TypeId → ScopeId → Result Bool
unfolding resolve_value_binding
value_satisfies c id from = do binding ← resolve_value_binding c id from; ok (is_some binding)
