-- ===== src/Container/Resolve/Reference.antt =====
-- The meaning of a type in a scope, stated at once, and the three searches of the container
-- against it.
use modrun.Base.{
  ◌≡◌, ◌≢◌, Bool, true, false, Option, none, some, List, [], ◌∷◌, nat_eq, pair_eq, arith,
}
use modrun.Base.Assoc.{get, contains_key-get}
use modrun.Scope.{ScopeId}
use modrun.Container.Types.{TypeId, StoredValue, ProviderKey, singleton, DynProvider}
use modrun.Container.Keys.{type_eq, key_eq}
use modrun.Container.State.{Container, scope_has_private}
use modrun.Container.Resolve.{
  is_some, keyed, lookup_value_in, resolve_in, can_resolve_in, value_binding_in,
}

-- A type is bound to a value, to a provider, or to nothing; an alias may name a provider that is
-- not there.
pub data Binding : Type 0 where
  supplied : StoredValue → Binding
  provided : ProviderKey → DynProvider → Binding
  broken unbound : Binding

abbrev pub provider_binding : Option (ProviderKey × DynProvider) → Binding
provider_binding none = broken
provider_binding (some (key, p)) = provided key p

-- What the scope itself says of the type: a value before a provider, a provider before an alias.
unfoldable pub own_binding : Container → TypeId → ScopeId → Option Binding
own_binding c id scope = elim (get c.values_private (id, scope)) [
  | some v ↦ some (supplied v)
  | none ↦ elim (get c.providers (singleton id scope true)) [
    | some p ↦ some (provided (singleton id scope true) p)
    | none ↦ elim (get c.private_alias (id, scope)) [
      | some canon ↦ some (provider_binding (keyed canon (get c.providers canon)))
      | none ↦ none
    ]
  ]
]

abbrev public_provider : Option (ProviderKey × DynProvider) → Binding
public_provider none = unbound
public_provider (some (key, p)) = provided key p

unfoldable pub public_binding : Container → TypeId → Binding
public_binding c id = elim (get c.values_public id) [
  | some v ↦ supplied v
  | none ↦ public_provider (resolve_in c id [])
]

-- The nearest binding: the first scope of the chain that says something, else the public one.
unfoldable pub nearest : Container → TypeId → List ScopeId → Binding
unfolding own_binding public_binding
nearest c id [] = public_binding c id
nearest c id (scope ∷ chain) = elim (own_binding c id scope) [
  | some b ↦ b
  | none ↦ nearest c id chain
]

-- A scope that is not marked has no private binding.
abbrev pub IsMarked : Container → Type 0
IsMarked c =
    (scope : ScopeId) (id : TypeId)
    → scope_has_private c scope ≡ false
    → own_binding c id scope ≡ none

-- The search for a value and the search for a provider find this binding.
abbrev pub Finds : Binding → Option StoredValue → Option (ProviderKey × DynProvider) → Type 0
Finds (supplied v) value provider = value ≡ some v
Finds (provided key p) value provider = (value ≡ none) × (provider ≡ some (key, p))
Finds broken value provider = (value ≡ none) × (provider ≡ none)
Finds unbound value provider = (value ≡ none) × (provider ≡ none)

-- One scope of the chain, given what the rest of the chain finds.
public-Finds :
    (c : Container) (id : TypeId)
    → Finds (public_binding c id) (lookup_value_in c id []) (resolve_in c id [])
unfolding public_binding lookup_value_in
public-Finds c id = ground arith

scope-Finds :
    (c : Container) (id : TypeId) (scope : ScopeId) (chain : List ScopeId)
    → (scope_has_private c scope ≡ false → own_binding c id scope ≡ none)
    → Finds (nearest c id chain) (lookup_value_in c id chain) (resolve_in c id chain)
    → Finds
        (nearest c id (scope ∷ chain))
        (lookup_value_in c id (scope ∷ chain))
        (resolve_in c id (scope ∷ chain))
unfolding nearest own_binding lookup_value_in resolve_in
scope-Finds c id scope chain marked ih = ground (
  arith,
  marked,
  contains_key-get c.providers (singleton id scope true),
  contains_key-get c.private_alias (id, scope),
)

-- Wherever the scopes with private bindings are marked, skipping the others changes nothing, and
-- the two searches agree on the nearest binding: the search for a value finds it if it is a value;
-- otherwise that search finds nothing, also behind it, and the search for a provider finds it.
pub nearest-Finds :
    (c : Container) (id : TypeId) (chain : List ScopeId)
    → IsMarked c
    → Finds (nearest c id chain) (lookup_value_in c id chain) (resolve_in c id chain)
unfolding nearest
nearest-Finds c id [] m = public-Finds c id
nearest-Finds c id (scope ∷ chain) m =
    scope-Finds c id scope chain (m scope id) (nearest-Finds c id chain m)

abbrev pub is_bound : Binding → Bool
is_bound (supplied v) = true
is_bound (provided key p) = true
is_bound broken = false
is_bound unbound = false

abbrev pub is_supplied : Binding → Bool
is_supplied (supplied v) = true
is_supplied _ = false

-- The test of `validate` accepts exactly the types that are bound, if no alias is broken.
scope-can_resolve :
    (c : Container) (id : TypeId) (scope : ScopeId) (chain : List ScopeId)
    → (scope_has_private c scope ≡ false → own_binding c id scope ≡ none)
    → nearest c id (scope ∷ chain) ≢ broken
    → (nearest c id chain ≢ broken → can_resolve_in c id chain ≡ is_bound (nearest c id chain))
    → can_resolve_in c id (scope ∷ chain) ≡ is_bound (nearest c id (scope ∷ chain))
unfolding nearest own_binding can_resolve_in
scope-can_resolve c id scope chain marked sound ih = ground (
  arith,
  marked,
  contains_key-get c.values_private (id, scope),
  contains_key-get c.values_public id,
)

scope-is_supplied :
    (c : Container) (id : TypeId) (scope : ScopeId) (chain : List ScopeId)
    → (scope_has_private c scope ≡ false → own_binding c id scope ≡ none)
    → is_some (value_binding_in c id chain) ≡ is_supplied (nearest c id chain)
    → is_some (value_binding_in c id (scope ∷ chain)) ≡ is_supplied (nearest c id (scope ∷ chain))
unfolding nearest own_binding value_binding_in
scope-is_supplied c id scope chain marked ih = ground (
  arith,
  marked,
  contains_key-get c.values_private (id, scope),
  contains_key-get c.providers (singleton id scope true),
  contains_key-get c.private_alias (id, scope),
)

public-is_supplied :
    (c : Container) (id : TypeId)
    → is_some (value_binding_in c id []) ≡ is_supplied (public_binding c id)
unfolding public_binding value_binding_in
public-is_supplied c id = ground (arith, contains_key-get c.values_public id)

-- Whether a type counts as satisfied by a value: exactly where its nearest binding is a value.
pub value_binding-is_supplied :
    (c : Container) (id : TypeId) (chain : List ScopeId)
    → IsMarked c
    → is_some (value_binding_in c id chain) ≡ is_supplied (nearest c id chain)
unfolding nearest
value_binding-is_supplied c id [] m = public-is_supplied c id
value_binding-is_supplied c id (scope ∷ chain) m =
    scope-is_supplied c id scope chain (m scope id) (value_binding-is_supplied c id chain m)

public-can_resolve :
    (c : Container) (id : TypeId) → can_resolve_in c id [] ≡ is_bound (public_binding c id)
unfolding public_binding can_resolve_in
public-can_resolve c id = ground (arith, contains_key-get c.values_public id)

-- The test of `validate`: a dependency can be resolved exactly where its nearest binding is a value
-- or a provider, unless that binding is an alias of a provider that is not there.
pub can_resolve-is_bound :
    (c : Container) (id : TypeId) (chain : List ScopeId)
    → IsMarked c
    → nearest c id chain ≢ broken
    → can_resolve_in c id chain ≡ is_bound (nearest c id chain)
unfolding nearest
can_resolve-is_bound c id [] m sound = public-can_resolve c id
can_resolve-is_bound c id (scope ∷ chain) m sound =
    scope-can_resolve c id scope chain (m scope id) sound (λ h. can_resolve-is_bound c id chain m h)
