-- ===== src/Container/Inv.antt =====
-- What holds of the container's maps between operations.
pub mod Registered
pub mod Values
pub mod Groups
pub mod Reachable
pub mod Resolution
pub mod Numbered
pub mod Supplied
pub mod Visible
pub mod Isolation
pub mod Claimed
pub mod Ordered
use modrun.Base.{ℕ, ◌≡◌, ◌≢◌, Bool, true, false, Option, none, some, nat_eq, pair_eq}
use modrun.Base.Assoc.{get}
use modrun.Scope.{ScopeId, root}
use modrun.Container.Types.{
  TypeId, StoredValue, ProviderKey, singleton, DynProvider, GroupRegistration,
}
use modrun.Container.Keys.{type_eq, key_eq}
use modrun.Container.State.{Container, scope_has_private}

-- A scope with a private value, provider or alias is marked.
pub record Marked (c : Container) : Type 0 where
  pub value :
      (id : TypeId) (scope : ScopeId) (v : StoredValue)
      → get c.values_private (id, scope) ≡ some v
      → scope_has_private c scope ≡ true
  pub provider :
      (id : TypeId) (scope : ScopeId) (p : DynProvider)
      → get c.providers (singleton id scope true) ≡ some p
      → scope_has_private c scope ≡ true
  pub alias :
      (id : TypeId) (scope : ScopeId) (key : ProviderKey)
      → get c.private_alias (id, scope) ≡ some key
      → scope_has_private c scope ≡ true

-- The indexes name providers that are there, a private alias one of its own scope, and the public
-- index and the groups public ones.
pub record Indexed (c : Container) : Type 0 where
  pub public_key :
      (id : TypeId) (key : ProviderKey)
      → get c.public_index id ≡ some key
      → (key.is_private ≡ false) × (get c.providers key ≢ none)
  pub alias_key :
      (id : TypeId) (scope : ScopeId) (key : ProviderKey)
      → get c.private_alias (id, scope) ≡ some key
      → (key.is_private ≡ true) × (key.scope ≡ scope) × (get c.providers key ≢ none)
  pub virtual_key :
      (element : TypeId) (reg : GroupRegistration)
      → get c.groups.registrations element ≡ some reg
      → (reg.virtual_key.is_private ≡ false) × (get c.providers reg.virtual_key ≢ none)

pub record Inv (c : Container) : Type 0 where
  pub marked : Marked c
  pub indexed : Indexed c
