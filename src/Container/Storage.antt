-- ===== src/Container/Storage.antt =====
-- The values of the container (src/container/storage.rs).
pub mod Checked
use modrun.Base.{
  String, Bool, true, false, ◌||◌, Option, none, some, List, [], ◌∷◌, ◌++◌, if◌then◌else◌, ◌==◌,
  nat_eq, pair_eq,
}
use modrun.Base.Assoc.{get, insert, contains_key}
use modrun.Error.{
  Error, Result, ok, err, already_provided, already_provided_private, not_constructed, downcast,
  ok_or, ◌>>=◌, ◌>>◌,
}
use modrun.Scope.{ScopeId, root, name_of}
use modrun.Container.Types.{
  TypeId, arc, lifecycle, shutdowner, type_name, Payload, shared, DynAny, StoredValue, Constructed,
  ProviderKey, singleton, ValueNode,
}
use modrun.Container.Keys.{type_eq, key_eq}
use modrun.Container.State.{Container, mark_private_scope}
use modrun.Container.Resolve.{lookup_value_ref_from}

-- `pack`: the value behind an `Arc<T>`, with an alias for `Arc<T>` itself.
unfoldable pub pack : TypeId → Payload → Constructed
pack t value = record {
  value = record { pointee = t; value = value };
  arc_alias = some (arc t, record { pointee = t; value = value }, t);
}

-- `downcast_clone::<T>`
unfoldable pub downcast_clone : TypeId → DynAny → Result Payload
downcast_clone t value = if value.pointee == t then ok value.value else err (downcast (type_name t))

-- `extract_arc::<U>`: the handle as a value of `Arc<U>`.
unfoldable pub extract_arc : TypeId → DynAny → Result DynAny
extract_arc u value =
    if value.pointee == u
    then ok (record { pointee = arc u; value = shared value.value })
    else err (downcast (type_name (arc u)))

unfoldable pub conflict : Container → TypeId → ScopeId → Bool → Bool
conflict c id scope true =
    contains_key c.values_private (id, scope)
    || (contains_key c.providers (singleton id scope true)
        || contains_key c.private_alias (id, scope))
conflict c id scope false = contains_key c.values_public id || contains_key c.public_index id

pub conflict_error : Container → String → ScopeId → Bool → Error
conflict_error c name scope true = already_provided_private (name_of c.scopes scope) name
conflict_error c name scope false = already_provided name

unfoldable pub ensure_absent : Container → TypeId → String → ScopeId → Bool → Result (Unit {0})
unfolding conflict_error conflict
ensure_absent c id name scope is_private =
    if conflict c id scope is_private then err (conflict_error c name scope is_private) else ok tt

unfoldable pub store_value : Container → TypeId → StoredValue → ScopeId → Bool → Container
unfolding insert
store_value c id value scope true = record (mark_private_scope c scope) {
  values_private = insert c.values_private (id, scope) value;
}
store_value c id value scope false = record c { values_public = insert c.values_public id value }

unfoldable pub store_alias :
    Container → Option (TypeId × DynAny × TypeId) → ScopeId → Bool → Container
unfolding store_value
store_alias c none scope is_private = c
store_alias c (some (alias_id, handle, extract)) scope is_private =
    store_value c alias_id (record { handle = handle; extract = some extract }) scope is_private

unfoldable pub store_constructed : Container → TypeId → Constructed → ScopeId → Bool → Container
unfolding store_alias store_value
store_constructed c id made scope is_private =
    store_value (store_alias c made.arc_alias scope is_private) id
      (record { handle = made.value; extract = none }) scope is_private

node : TypeId → ScopeId → Bool → ValueNode
node t scope is_private = record {
  type_id = t;
  type_name = type_name t;
  scope = scope;
  is_private = is_private;
}

-- `insert_value::<T>`
unfoldable pub insert_value : Container → TypeId → Payload → ScopeId → Bool → Result Container
unfolding ensure_absent store_constructed pack node
insert_value c t value scope is_private = do
  ensure_absent c t (type_name t) scope is_private
  ensure_absent c (arc t) (type_name (arc t)) scope is_private
  let c' = store_constructed c t (pack t value) scope is_private
  ok (record c' {
    value_nodes = c'.value_nodes ++ node t scope is_private ∷ node (arc t) scope is_private ∷ [];
  })

-- The value as a `T`, through the extractor if it has one.
unfoldable pub read_stored : TypeId → DynAny → Option TypeId → Result Payload
unfolding downcast_clone extract_arc
read_stored t handle none = downcast_clone t handle
read_stored t handle (some u) = do boxed ← extract_arc u handle; downcast_clone t boxed

-- `get::<T>`, in the active scope.
unfoldable pub get_as : Container → TypeId → Result Payload
unfolding lookup_value_ref_from read_stored
get_as c t = do
  found ← lookup_value_ref_from c t c.active_scope
  stored ← ok_or found (not_constructed (type_name t))
  read_stored t stored.handle stored.extract

-- The two values that every application has; their contents are given.
unfoldable pub seed_builtins : Container → Payload → Payload → Result Container
unfolding insert_value
seed_builtins c life shut = do
  c' ← insert_value c lifecycle life root false
  insert_value c' shutdowner shut root false
