-- ===== src/Container/State.antt =====
-- The state of the container (src/container/mod.rs and `Groups` in src/container/group.rs).
-- A `GroupElementKey` is the element type that it wraps. The buffer `wave_scratch`, which is empty
-- between calls, is left out.
pub mod Marks
use modrun.Base.{
  ℕ, ◌+◌, ◌-◌, String, Bool, true, false, Option, none, some, List, [], ◌∷◌, ◌++◌, leb, ltb,
  if◌then◌else◌, length, get_elem?, set,
}
use modrun.Base.Lists.{replicate}
use modrun.Base.Assoc.{Map, get, insert, remove}
use modrun.Scope.{ScopeId, ScopeTree, root}
use modrun.Scope
use modrun.Container.Types.{
  TypeId, DynAny, StoredValue, ProviderKey, is_group_member, DynProvider, GroupRegistration,
  ValueNode,
}
use modrun.Container.Keys.{type_eq, key_eq}

pub record Groups : Type 0 where
  pub members : Map TypeId (List ProviderKey)
  pub registrations : Map TypeId GroupRegistration
  pub virtual_to_element : Map ProviderKey TypeId
  pub by_type : Map TypeId TypeId
  pub member_values : Map ProviderKey DynAny
  pub required : Map TypeId String
  pub next_member_id : ℕ

pub record Container : Type 0 where
  pub scopes : ScopeTree
  pub values_public : Map TypeId StoredValue
  pub values_private : Map (TypeId × ScopeId) StoredValue
  pub providers : Map ProviderKey DynProvider
  pub public_index : Map TypeId ProviderKey
  pub private_alias : Map (TypeId × ScopeId) ProviderKey
  pub provider_order : List ProviderKey
  pub provider_order_index : Map ProviderKey ℕ
  pub constructing : List ProviderKey
  pub active_scope : ScopeId
  pub layers : List (List ProviderKey)
  pub groups : Groups
  pub value_nodes : List ValueNode
  pub private_scopes : List Bool

abbrev pub no_groups : Groups
no_groups = record {
  members = [];
  registrations = [];
  virtual_to_element = [];
  by_type = [];
  member_values = [];
  required = [];
  next_member_id = 0;
}

unfoldable pub new : Container
unfolding Scope.new
new = record {
  scopes = Scope.new;
  values_public = [];
  values_private = [];
  providers = [];
  public_index = [];
  private_alias = [];
  provider_order = [];
  provider_order_index = [];
  constructing = [];
  active_scope = root;
  layers = [];
  groups = no_groups;
  value_nodes = [];
  private_scopes = [];
}

-- The new state, and the scope to go back to.
unfoldable pub enter_scope : Container → ScopeId → Container × ScopeId
enter_scope c scope = (record c { active_scope = scope }, c.active_scope)

unfoldable pub leave_scope : Container → ScopeId → Container
leave_scope c previous = record c { active_scope = previous }

-- `Vec::resize(n, false)` for a larger `n`.
pub resize : List Bool → ℕ → List Bool
resize marks n = marks ++ replicate (n - length marks) false

pub mark_scope : List Bool → ScopeId → List Bool
unfolding resize
mark_scope marks scope =
    set (if leb (length marks) scope then resize marks (scope + 1) else marks) scope true

abbrev pub mark_private_scope : Container → ScopeId → Container
mark_private_scope c scope = record c { private_scopes = mark_scope c.private_scopes scope }

is_marked : Option Bool → Bool
is_marked none = false
is_marked (some b) = b

unfoldable pub has_mark : List Bool → ScopeId → Bool
unfolding is_marked
has_mark marks scope = is_marked (get_elem? marks scope)

abbrev pub scope_has_private : Container → ScopeId → Bool
scope_has_private c scope = has_mark c.private_scopes scope

unfoldable pub provider_at : Container → ProviderKey → Option DynProvider
unfolding get
provider_at c key = get c.providers key

-- The provider is out of the map while its constructor runs.
unfoldable pub take_provider : Container → ProviderKey → Container × Option DynProvider
unfolding get remove
take_provider c key = (record c { providers = remove c.providers key }, get c.providers key)

unfoldable pub put_provider : Container → ProviderKey → DynProvider → Container
unfolding insert
put_provider c key provider = record c { providers = insert c.providers key provider }

named_by : ProviderKey → Option DynProvider → String
named_by key none = "<unknown>"
named_by key (some p) = if is_group_member key then p.constructor_name else p.result_name

unfoldable pub key_name : Container → ProviderKey → String
unfolding named_by provider_at
key_name c key = named_by key (provider_at c key)

-- `usize::MAX`
abbrev pub usize_max : ℕ
usize_max = 18446744073709551615

index_or_max : Option ℕ → ℕ
index_or_max none = usize_max
index_or_max (some i) = i

unfoldable pub order_index : Container → ProviderKey → ℕ
unfolding index_or_max get
order_index c key = index_or_max (get c.provider_order_index key)

-- The registration of a provider's key: its place in the map and in the order.
unfoldable pub add_provider : Container → ProviderKey → DynProvider → Container
unfolding insert
add_provider c key provider = record c {
  providers = insert c.providers key provider;
  provider_order_index = insert c.provider_order_index key (length c.provider_order);
  provider_order = c.provider_order ++ key ∷ [];
}
