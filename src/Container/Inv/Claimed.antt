-- ===== src/Container/Inv/Claimed.antt =====
-- What the operations bind stays bound.
pub mod Once
use modrun.Base.{
  ℕ, ◌≡◌, refl, Bool, true, false, Option, none, some, List, [], ◌∷◌, nat_eq, pair_eq, arith,
  String, ◌∙◌,
}
use modrun.Base.Assoc.{get, get-insert, contains_key, contains_key-get, insert}
use modrun.Scope.{ScopeId, root}
use modrun.Container.Types.{
  TypeId, arc, group, Payload, DynAny, StoredValue, Constructed, singleton, type_name, DynProvider,
  new_group_virtual,
}
use modrun.Container.Keys.{type_eq, key_eq, key_beq_iff}
use modrun.Container.State.{Container, enter_scope, leave_scope}
use modrun.Container.Storage.{
  conflict, conflict_error, ensure_absent, store_value, store_alias, store_constructed,
  insert_value, pack,
}
use modrun.Container.Register.{
  insert_provider, with_provider, ensure_group_virtual, register_group, insert_group_member,
  add_member, member_key, next_id, require_group_element,
}

-- The places of one container that are bound are bound in another.
pub Claims : Container → Container → Type 0
Claims c d =
    (id : TypeId) (scope : ScopeId) (is_private : Bool)
    → conflict c id scope is_private ≡ true
    → conflict d id scope is_private ≡ true

pub with_provider-Claims :
    (c : Container) (p : DynProvider) (scope : ScopeId) (is_private : Bool)
    → Claims c (with_provider c p scope is_private)
unfolding Claims with_provider conflict
with_provider-Claims c p scope true id s true = ground (
  arith,
  contains_key-get c.providers (singleton id s true),
  contains_key-get c.private_alias (id, s),
  contains_key-get (insert c.providers (singleton p.result_type scope true) p)
      (singleton id s true),
  contains_key-get
      (insert c.private_alias (p.alias_type, scope) (singleton p.result_type scope true)) (id, s),
  get-insert c.providers (singleton p.result_type scope true) (singleton id s true) p,
  get-insert c.private_alias (p.alias_type, scope) (id, s) (singleton p.result_type scope true),
)
with_provider-Claims c p scope true id s false = λ e. e
with_provider-Claims c p scope false id s true = ground (
  arith,
  contains_key-get c.providers (singleton id s true),
  contains_key-get (insert c.providers (singleton p.result_type scope false) p)
      (singleton id s true),
  get-insert c.providers (singleton p.result_type scope false) (singleton id s true) p,
)
with_provider-Claims c p scope false id s false =
    let key = singleton p.result_type scope false in
    ground (
      arith,
      contains_key-get c.public_index id,
      contains_key-get (insert (insert c.public_index p.result_type key) p.alias_type key) id,
      get-insert c.public_index p.result_type id key,
      get-insert (insert c.public_index p.result_type key) p.alias_type id key,
    )

pub store_value-Claims :
    (c : Container) (t : TypeId) (v : StoredValue) (scope : ScopeId) (is_private : Bool)
    → Claims c (store_value c t v scope is_private)
unfolding Claims store_value conflict
store_value-Claims c t v scope true id s true = ground (
  arith,
  contains_key-get c.values_private (id, s),
  contains_key-get (insert c.values_private (t, scope) v) (id, s),
  get-insert c.values_private (t, scope) (id, s) v,
)
store_value-Claims c t v scope true id s false = λ e. e
store_value-Claims c t v scope false id s true = λ e. e
store_value-Claims c t v scope false id s false = ground (
  arith,
  contains_key-get c.values_public id,
  contains_key-get (insert c.values_public t v) id,
  get-insert c.values_public t id v,
)

store_alias-Claims :
    (c : Container) (a : Option (TypeId × DynAny × TypeId)) (scope : ScopeId) (is_private : Bool)
    → Claims c (store_alias c a scope is_private)
unfolding Claims store_alias
store_alias-Claims c none scope is_private id s b = λ e. e
store_alias-Claims c (some (t, handle, u)) scope is_private id s b =
    store_value-Claims c t _ scope is_private id s b

pub store_constructed-Claims :
    (c : Container) (t : TypeId) (made : Constructed) (scope : ScopeId) (is_private : Bool)
    → Claims c (store_constructed c t made scope is_private)
unfolding Claims store_constructed
store_constructed-Claims c t made scope is_private id s b e =
    store_value-Claims (store_alias c made.arc_alias scope is_private) t _ scope is_private id s b
      (store_alias-Claims c made.arc_alias scope is_private id s b e)

pub register_group-Claims : (c : Container) (element : TypeId) → Claims c (register_group c element)
unfolding Claims register_group conflict
register_group-Claims c element id s true =
    let key = singleton (group element) root false in
    ground (
      arith,
      contains_key-get c.providers (singleton id s true),
      contains_key-get (insert c.providers key (new_group_virtual element)) (singleton id s true),
      get-insert c.providers key (singleton id s true) (new_group_virtual element),
    )
register_group-Claims c element id s false =
    let key = singleton (group element) root false in
    ground (
      arith,
      contains_key-get c.public_index id,
      contains_key-get
          (insert (insert c.public_index (group element) key) (arc (group element)) key) id,
      get-insert c.public_index (group element) id key,
      get-insert (insert c.public_index (group element) key) (arc (group element)) id key,
    )

pub add_member-Claims :
    (c : Container) (element : TypeId) (p : DynProvider) (scope : ScopeId) (n : ℕ)
    → Claims c (add_member c element p scope n)
unfolding Claims add_member conflict
add_member-Claims c element p scope n id s true = ground (
  arith,
  contains_key-get c.providers (singleton id s true),
  contains_key-get (insert c.providers (member_key p scope n) p) (singleton id s true),
  get-insert c.providers (member_key p scope n) (singleton id s true) p,
)
add_member-Claims c element p scope n id s false = λ e. e
