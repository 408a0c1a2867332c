-- ===== src/Container/Inv/Supplied.antt =====
-- A value that was supplied is what `get` gives.
use modrun.Base.{
  ℕ, ◌+◌, ◌≡◌, ◌≢◌, refl, Bool, true, false, none, some, List, [], ◌∷◌, nat_eq, pair_eq, arith, ◌∙◌,
  ap,
}
use modrun.Base.Assoc.{get, get-insert, insert, contains_key-get}
use modrun.Base.Lists.{All}
use modrun.Error.{ok}
use modrun.Error.Gives.{Gives-ok}
use modrun.Scope.{ScopeId, ancestors_from}
use modrun.Container.Types.{
  TypeId, named, arc, group, lifecycle, shutdowner, Payload, shared, StoredValue, ValueNode,
  singleton, type_name,
}
use modrun.Container.Keys.{type_eq, key_eq, type_beq_iff}
use modrun.Container.State.{Container, enter_scope, scope_has_private, mark_scope}
use modrun.Container.State.Marks.{has_mark-mark_scope}
use modrun.Container.Storage.{
  insert_value, store_constructed, store_alias, store_value, pack, get_as, read_stored,
  downcast_clone, extract_arc,
}
use modrun.Container.Storage.Checked.{after_checks}
use modrun.Container.Resolve.{lookup_value_in, lookup_value_ref_from}
use modrun.Container.Resolve.Reference.{own_binding}

depth : TypeId → ℕ
depth (named _ _) = 0
depth (arc t) = depth t + 1
depth (group t) = depth t + 1
depth lifecycle = 0
depth shutdowner = 0

arc-≢ : (t : TypeId) → t ≢ arc t
unfolding depth
arc-≢ t e = let same : depth t ≡ depth t + 1 = ap depth e in omega arith

-- The two entries of a value.
abbrev entry_of : TypeId → Payload → StoredValue
entry_of t v = record { handle = record { pointee = t; value = v }; extract = none }

abbrev arc_entry_of : TypeId → Payload → StoredValue
arc_entry_of t v = record { handle = record { pointee = t; value = v }; extract = some t }

read-entry :
    (t : TypeId) (v : Payload) → read_stored t (entry_of t v).handle (entry_of t v).extract ≡ ok v
unfolding read_stored downcast_clone
read-entry t v = ground (arith, type_beq_iff t t)

read-arc_entry :
    (t : TypeId) (v : Payload)
    → read_stored (arc t) (arc_entry_of t v).handle (arc_entry_of t v).extract ≡ ok (shared v)
unfolding read_stored downcast_clone extract_arc
read-arc_entry t v = ground (arith, type_beq_iff t t)

-- The container once nothing stands against the value.
abbrev stored : Container → TypeId → Payload → ScopeId → Bool → Container
stored c t v scope is_private = store_constructed c t (pack t v) scope is_private

pub stored_private :
    (c : Container) (t : TypeId) (v : Payload) (scope : ScopeId)
    → (get (stored c t v scope true).values_private (t, scope) ≡ some (entry_of t v))
      × (get (stored c t v scope true).values_private (arc t, scope) ≡ some (arc_entry_of t v))
      × (scope_has_private (stored c t v scope true) scope ≡ true)
unfolding store_constructed store_alias store_value pack
stored_private c t v scope =
    let inner = insert c.values_private (arc t, scope) (arc_entry_of t v) in
    ground (
      arith,
      get-insert inner (t, scope) (t, scope) (entry_of t v),
      get-insert inner (t, scope) (arc t, scope) (entry_of t v),
      get-insert c.values_private (arc t, scope) (arc t, scope) (arc_entry_of t v),
      type_beq_iff t t,
      type_beq_iff t (arc t),
      arc-≢ t,
      nat_eq.beq_iff scope scope,
      has_mark-mark_scope (mark_scope c.private_scopes scope) scope scope,
    )

stored_public :
    (c : Container) (t : TypeId) (v : Payload) (scope : ScopeId)
    → (get (stored c t v scope false).values_public t ≡ some (entry_of t v))
      × (get (stored c t v scope false).values_public (arc t) ≡ some (arc_entry_of t v))
unfolding store_constructed store_alias store_value pack
stored_public c t v scope =
    let inner = insert c.values_public (arc t) (arc_entry_of t v) in
    ground (
      arith,
      get-insert inner t t (entry_of t v),
      get-insert inner t (arc t) (entry_of t v),
      get-insert c.values_public (arc t) (arc t) (arc_entry_of t v),
      type_beq_iff t t,
      type_beq_iff (arc t) (arc t),
      type_beq_iff t (arc t),
      arc-≢ t,
    )

-- No scope of the chain binds the type.
abbrev IsFree : Container → TypeId → List ScopeId → Type 0
IsFree c id chain = All (λ s. own_binding c id s ≡ none) chain

free_lookup :
    (c : Container) (id : TypeId) (chain : List ScopeId)
    → IsFree c id chain
    → lookup_value_in c id chain ≡ get c.values_public id
unfolding lookup_value_in own_binding
free_lookup c id [] f = refl
free_lookup c id (s ∷ chain) (f, rest) = ground (
  arith,
  f,
  free_lookup c id chain rest,
  contains_key-get c.providers (singleton id s true),
  contains_key-get c.private_alias (id, s),
)

own_lookup :
    (c : Container) (id : TypeId) (scope : ScopeId) (chain : List ScopeId) (v : StoredValue)
    → get c.values_private (id, scope) ≡ some v
    → scope_has_private c scope ≡ true
    → lookup_value_in c id (scope ∷ chain) ≡ some v
unfolding lookup_value_in
own_lookup c id scope chain v e m = ground (arith, e, m)

get_as-lookup :
    (c : Container) (t : TypeId) (chain : List ScopeId) (v : StoredValue)
    → ancestors_from c.scopes c.active_scope ≡ ok chain
    → lookup_value_in c t chain ≡ some v
    → get_as c t ≡ read_stored t v.handle v.extract
unfolding get_as lookup_value_ref_from
get_as-lookup c t chain v e f = rw e (rw f refl)

stored-scopes :
    (c : Container) (t : TypeId) (v : Payload) (scope : ScopeId) (is_private : Bool)
    → (stored c t v scope is_private).scopes ≡ c.scopes
unfolding store_constructed store_alias store_value pack
stored-scopes c t v scope true = refl
stored-scopes c t v scope false = refl

stored_public-IsFree :
    (c : Container) (t : TypeId) (v : Payload) (scope from : ScopeId) (nodes : List ValueNode)
    (id : TypeId) (chain : List ScopeId)
    → IsFree c id chain
    → IsFree
        (record (stored c t v scope false) { active_scope = from; value_nodes = nodes })
        id
        chain
unfolding store_constructed store_alias store_value own_binding pack
stored_public-IsFree c t v scope from nodes id [] f = f
stored_public-IsFree c t v scope from nodes id (s ∷ chain) (f, rest) =
    (f, stored_public-IsFree c t v scope from nodes id chain rest)

-- What `get` gives for a type and for its `Arc`, in a scope.
abbrev pub Gets : Container → ScopeId → TypeId → Payload → Type 0
Gets d scope t v =
    (get_as (enter_scope d scope).0 t ≡ ok v)
    × (get_as (enter_scope d scope).0 (arc t) ≡ ok (shared v))

entered-Gets :
    (x : Container) (t : TypeId) (v : Payload) (scope : ScopeId) (chain : List ScopeId)
    → ancestors_from x.scopes scope ≡ ok chain
    → lookup_value_in (enter_scope x scope).0 t chain ≡ some (entry_of t v)
    → lookup_value_in (enter_scope x scope).0 (arc t) chain ≡ some (arc_entry_of t v)
    → Gets x scope t v
unfolding enter_scope
entered-Gets x t v scope chain e f g = (
  get_as-lookup (enter_scope x scope).0 t chain (entry_of t v) e f ∙ read-entry t v,
  get_as-lookup (enter_scope x scope).0 (arc t) chain (arc_entry_of t v) e g ∙ read-arc_entry t v,
)

module _ (c : Container) (t : TypeId) (v : Payload) (scope : ScopeId) where
  private-Gets :
      (nodes : List ValueNode) (chain : List ScopeId)
      → ancestors_from c.scopes scope ≡ ok (scope ∷ chain)
      → Gets (record (stored c t v scope true) { value_nodes = nodes }) scope t v
  unfolding enter_scope
  private-Gets nodes chain e =
      let d : Container = record (stored c t v scope true) { value_nodes = nodes } in
      let (own, own_arc, marked) = stored_private c t v scope in
      entered-Gets d t v scope (scope ∷ chain)
        (ap (λ s. ancestors_from s scope) (stored-scopes c t v scope true) ∙ e)
        (own_lookup (enter_scope d scope).0 t scope chain (entry_of t v) own marked)
        (own_lookup (enter_scope d scope).0 (arc t) scope chain (arc_entry_of t v) own_arc marked)

  public-Gets :
      (nodes : List ValueNode) (from : ScopeId) (chain : List ScopeId)
      → ancestors_from c.scopes from ≡ ok chain
      → IsFree c t chain
      → IsFree c (arc t) chain
      → Gets (record (stored c t v scope false) { value_nodes = nodes }) from t v
  unfolding enter_scope
  public-Gets nodes from chain e free free_arc =
      let d : Container = record (stored c t v scope false) { value_nodes = nodes } in
      entered-Gets d t v from chain
        (ap (λ s. ancestors_from s from) (stored-scopes c t v scope false) ∙ e)
        (free_lookup (enter_scope d from).0 t chain
            (stored_public-IsFree c t v scope from nodes t chain free)
          ∙ (stored_public c t v scope).0)
        (free_lookup (enter_scope d from).0 (arc t) chain
            (stored_public-IsFree c t v scope from nodes (arc t) chain free_arc)
          ∙ (stored_public c t v scope).1)

-- A value that was supplied privately in a scope is what `get` gives there, as a `T` and as an
-- `Arc<T>`, whatever the other scopes bind.
pub supplied_private-get :
    (c d : Container) (t : TypeId) (v : Payload) (scope : ScopeId) (chain : List ScopeId)
    → ancestors_from c.scopes scope ≡ ok (scope ∷ chain)
    → insert_value c t v scope true ≡ ok d
    → Gets d scope t v
unfolding insert_value
supplied_private-get c d t v scope chain e made =
    Gives-ok (λ x. Gets x scope t v) _ d
      (after_checks (λ x. Gets x scope t v) c t (arc t) (type_name t) (type_name (arc t)) scope true
        _ (private-Gets c t v scope _ chain e))
      made

-- A value that was supplied publicly is what `get` gives, as a `T` and as an `Arc<T>`, in each
-- scope along whose chain no scope binds these types itself.
pub supplied_public-get :
    (c d : Container) (t : TypeId) (v : Payload) (scope from : ScopeId) (chain : List ScopeId)
    → ancestors_from c.scopes from ≡ ok chain
    → IsFree c t chain
    → IsFree c (arc t) chain
    → insert_value c t v scope false ≡ ok d
    → Gets d from t v
unfolding insert_value
supplied_public-get c d t v scope from chain e free free_arc made =
    Gives-ok (λ x. Gets x from t v) _ d
      (after_checks (λ x. Gets x from t v) c t (arc t) (type_name t) (type_name (arc t)) scope false
        _ (public-Gets c t v scope _ from chain e free free_arc))
      made
