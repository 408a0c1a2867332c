-- ===== src/Container/Types.antt =====
-- The types of Rust that the container tells apart, and the values that it keeps
-- (src/container/types.rs, src/deps.rs and the fields of `DynProvider` in src/provide.rs).
pub mod Deps
use modrun.Base.{
  ℕ, String, ◌<>◌, Bool, Option, none, some, List, [], ◌∷◌, ltb, leb, if◌then◌else◌, length, take,
}
use modrun.Base.Lists.{replicate}
use modrun.Error.{Result}
use modrun.Future.{Future}
use modrun.Scope.{ScopeId}

-- `TypeId::of::<T>()`: a type of the program, by a number and its path, or a type that modrun
-- itself forms.
pub data TypeId : Type 0 where
  named : (id : ℕ) (path : String) → TypeId
  arc : TypeId → TypeId
  group : TypeId → TypeId
  lifecycle shutdowner : TypeId

-- `type_name::<T>()`
pub type_name : TypeId → String
type_name (named _ path) = path
type_name (arc t) = "alloc::sync::Arc<" <> (type_name t <> ">")
type_name (group t) = "modrun::group::Group<" <> (type_name t <> ">")
type_name lifecycle = "modrun::lifecycle::Lifecycle"
type_name shutdowner = "modrun::shutdown::Shutdowner"

-- A value of the program: one that modrun does not look into, an `Arc` of a value, and the vector
-- in a `Group`.
mutual
  pub data Payload : Type 0 where
    opaque : ℕ → Payload
    shared : Payload → Payload
    items : Payloads → Payload

  pub data Payloads : Type 0 where
    nil : Payloads
    cons : Payload → Payloads → Payloads

abbrev pub to_payloads : List Payload → Payloads
to_payloads [] = nil
to_payloads (v ∷ vs) = cons v (to_payloads vs)

-- `Arc<dyn Any>`: the type that it points to, and the value there.
pub record DynAny : Type 0 where
  pub pointee : TypeId
  pub value : Payload

-- `extract` is `Some(extract_arc::<U>)`, and is named by `U`.
pub record StoredValue : Type 0 where
  pub handle : DynAny
  pub extract : Option TypeId

pub record Constructed : Type 0 where
  pub value : DynAny
  pub arc_alias : Option (TypeId × DynAny × TypeId)

pub data ConstructOut : Type 0 where
  ready : Constructed → ConstructOut
  fut : Future (Result Constructed) → ConstructOut

pub record ProviderKey : Type 0 where
  pub type_id : TypeId
  pub scope : ScopeId
  pub is_private : Bool
  pub ordinal : ℕ

abbrev pub singleton : TypeId → ScopeId → Bool → ProviderKey
singleton t scope is_private = record {
  type_id = t;
  scope = scope;
  is_private = is_private;
  ordinal = 0;
}

abbrev pub is_group_member : ProviderKey → Bool
is_group_member key = ltb 0 key.ordinal

-- One parameter of a constructor: its type, and the type's name.
abbrev pub Dep : Type 0
Dep = TypeId × String

-- `DepList`: eight places, of which `len` are used.
pub record DepList : Type 0 where
  pub items : List Dep
  pub len : ℕ

abbrev pub max_deps : ℕ
max_deps = 8

-- The place that is not used, `(TypeId::of::<()>(), "")`.
abbrev pub no_dep : Dep
no_dep = (named 0 "()", "")

pub fill : ℕ → List Dep → List Dep
fill n [] = replicate n no_dep
fill ℕ.zero (d ∷ ds) = []
fill (ℕ.suc n) (d ∷ ds) = d ∷ fill n ds

unfoldable pub empty_deps : DepList
empty_deps = record { items = replicate max_deps no_dep; len = 0 }

-- More than eight dependencies do not compile.
pub from_array : List Dep → Option DepList
from_array ds =
    if leb (length ds) max_deps
    then some (record { items = fill max_deps ds; len = length ds })
    else none

pub as_slice : DepList → List Dep
as_slice d = take d.len d.items

-- What a user's constructor gives: a value, or an error by its text.
pub data UserResult : Type 0 where
  built : Payload → UserResult
  failed : String → UserResult

-- A constructor with its signature erased: what the closure of `into_provider` does once it has
-- its arguments. `take_once` holds the value of `supply_group` until it is taken.
pub data ConstructFn : Type 0 where
  plain : (List Payload → Payload) → ConstructFn
  fallible : (List Payload → UserResult) → ConstructFn
  plain_async : (List Payload → Future Payload) → ConstructFn
  fallible_async : (List Payload → Future UserResult) → ConstructFn
  aggregate : (element : TypeId) → ConstructFn
  take_once : Option Payload → ConstructFn

-- `alias_type` is the one element of the array `alias_types`.
pub record DynProvider : Type 0 where
  pub result_type : TypeId
  pub result_name : String
  pub constructor_name : String
  pub alias_type : TypeId
  pub deps : DepList
  pub construct_fn : ConstructFn

unfoldable pub dep_types : DynProvider → List Dep
unfolding as_slice
dep_types p = as_slice p.deps

-- `dyn_for::<T>`
pub dyn_for : TypeId → String → DepList → ConstructFn → DynProvider
dyn_for t constructor_name deps construct_fn = record {
  result_type = t;
  result_name = type_name t;
  constructor_name = constructor_name;
  alias_type = arc t;
  deps = deps;
  construct_fn = construct_fn;
}

-- `new_group_virtual::<T>`
unfoldable pub new_group_virtual : TypeId → DynProvider
unfolding empty_deps
new_group_virtual element = record {
  result_type = group element;
  result_name = type_name (group element);
  constructor_name = "<group aggregate>";
  alias_type = arc (group element);
  deps = empty_deps;
  construct_fn = aggregate element;
}

-- `take_once_value_provider::<T>`
pub take_once_value_provider : TypeId → Payload → String → DynProvider
unfolding dyn_for empty_deps
take_once_value_provider t value constructor_name =
    dyn_for t constructor_name empty_deps (take_once (some value))

pub record GroupRegistration : Type 0 where
  pub element : TypeId
  pub virtual_key : ProviderKey

-- A value that was supplied.
pub record ValueNode : Type 0 where
  pub type_id : TypeId
  pub type_name : String
  pub scope : ScopeId
  pub is_private : Bool
